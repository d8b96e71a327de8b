-- ===== src/Proxy/Handle/Finished.antt =====
-- How a request ends that does not become a stream.
use mtsc.Proxy.Stream.{timeout, other, cancelled, Raised}
use mtsc.Proxy.Session.Records.{finish_all-closes, finish_all, FinishCall}
use mtsc.Proxy.Handle.{
  cancelled_body, abandoned, handle, unhandled, streaming, start_stream, respond_body, respond,
  prefill_failed, pass_on, not_object, no_headers, invalid, got_status, forward, exchange,
  decode_failed, body_of, await_headers, after_wait, Reply, RawRequest, Payload, HeadersEnd,
  Exchange,
}
use mtsc.Common.{
  ◌∙◌, sym, subst, ap, Error, ==_refl, nat_eq, string_eq, ◌≡◌, ◌∷◌, ◌||◌, ◌==◌, ◌&&◌, ℕ, true, some,
  refl, raise, ok, none, ltb, leb, inr, inl, get, false, [], String, Result, Option, List,
  Bool-cases, Bool,
}
use mtsc.Proxy.Session.{
  close_metrics, prefill_body, TransferSession, RequestMetrics, PdProxy, Failure, Body,
}

-- The session is still open: the stream will finish it, or nothing will.
abbrev pub leaves_open : Reply → Bool
leaves_open (streaming status) = true
leaves_open (unhandled problem) = true
leaves_open abandoned = true
leaves_open _ = false

abbrev pub is_error_outcome : String → Bool
is_error_outcome outcome =
    outcome == "proxy_error"
    || outcome == "prefill_error"
    || outcome == "decode_error"
    || outcome == "timeout"

-- The stream, an exception that no handler sees and a body whose reading is cancelled finish nothing,
-- any other reply finishes with an error. `Leak` is what is known of such an exception, `Gone` of
-- such a body.
module _ (Leak : Error → Type 0) (Gone : Type 0) where
  data Ends : Reply × List FinishCall → Type 0 where
    streams : (status : ℕ) → Ends (streaming status, [])
    leaks : (problem : Error) → Leak problem → Ends (unhandled problem, [])
    abandons : Gone → Ends (abandoned, [])
    closes :
        (reply : Reply) (now : ℕ) (outcome : String) (failure : Failure) (stage : String)
        (calls : List FinishCall)
        → leaves_open reply ≡ false
        → is_error_outcome outcome ≡ true
        → Ends (reply, (now, outcome, some failure, some stage) ∷ calls)

  decode_failed-Ends : (now : ℕ) (exc : Raised) → Ends (decode_failed now exc)
  unfolding decode_failed
  decode_failed-Ends now cancelled = closes _ _ _ _ _ _ refl refl
  decode_failed-Ends now timeout = closes _ _ _ _ _ _ refl refl
  decode_failed-Ends now (other failure) = closes _ _ _ _ _ _ refl refl

  prefill_failed-Ends : (now : ℕ) (exc : Raised) → Ends (prefill_failed now exc)
  unfolding prefill_failed decode_failed
  prefill_failed-Ends now cancelled = closes _ _ _ _ _ _ refl refl
  prefill_failed-Ends now timeout = closes _ _ _ _ _ _ refl refl
  prefill_failed-Ends now (other failure) = closes _ _ _ _ _ _ refl refl

  pass_on-Ends :
      (now status : ℕ) (end : String × String × Option Raised) → Ends (pass_on now status end)
  unfolding pass_on
  pass_on-Ends now status (payload, excerpt, some exc) = decode_failed-Ends now exc
  pass_on-Ends now status (payload, excerpt, none) = closes _ _ _ _ _ _ refl refl

  start_stream-Ends :
      (now status : ℕ) (prefill : Option (Option Raised)) → Ends (start_stream now status prefill)
  unfolding start_stream
  start_stream-Ends now status (some (some exc)) = closes _ _ _ _ _ _ refl refl
  start_stream-Ends now status (some none) = streams status
  start_stream-Ends now status none = streams status

  await_headers-Ends : (e : Exchange) (end : HeadersEnd) → Ends (await_headers e end)
  unfolding await_headers
  await_headers-Ends e (no_headers exc) = decode_failed-Ends e.now exc
  await_headers-Ends e (got_status status) = elim (Bool-cases (leb 200 status && ltb status 300)) [
    | inl good ↦ rw good (start_stream-Ends e.now status e.prefill_then)
    | inr bad ↦ rw bad (pass_on-Ends e.now status e.payload_end)
  ]

  after_wait-Ends : (e : Exchange) (prefill : Option (Option Raised)) → Ends (after_wait e prefill)
  unfolding after_wait
  after_wait-Ends e (some (some exc)) = prefill_failed-Ends e.now exc
  after_wait-Ends e (some none) = await_headers-Ends e e.headers_end
  after_wait-Ends e none = await_headers-Ends e e.headers_end

  exchange-Ends : (e : Exchange) (interruption : Option Raised) → Ends (exchange e interruption)
  unfolding exchange
  exchange-Ends e (some exc) = decode_failed-Ends e.now exc
  exchange-Ends e none = after_wait-Ends e e.prefill_first

  forward-Ends :
      (e : Exchange) (p_body : Result Body)
      → ((problem : Error) → p_body ≡ raise problem → Leak problem)
      → Ends (forward e p_body)
  unfolding forward
  forward-Ends e (raise problem) leak = leaks problem (leak problem refl)
  forward-Ends e (ok p_body) leak = exchange-Ends e e.wait_error

  respond_body-Ends :
      (session : TransferSession) (raw : RawRequest) (e : Exchange) (payload : Payload)
      → ((body : Body) (problem : Error)
          → payload ≡ body_of body
          → prefill_body body session ≡ raise problem
          → Leak problem)
      → (payload ≡ cancelled_body → Gone)
      → Ends (respond_body session raw e payload)
  unfolding respond_body
  respond_body-Ends session raw e cancelled_body leak gone = abandons (gone refl)
  respond_body-Ends session raw e (invalid failure) leak gone = closes _ _ _ _ _ _ refl refl
  respond_body-Ends session raw e not_object leak gone = closes _ _ _ _ _ _ refl refl
  respond_body-Ends session raw e (body_of body) leak gone =
      forward-Ends e (prefill_body body session) (λ problem. leak body problem refl)

  respond-Ends :
      (session : TransferSession) (raw : RawRequest) (e : Exchange)
      → ((body : Body) (problem : Error)
          → raw.payload ≡ body_of body
          → prefill_body body session ≡ raise problem
          → Leak problem)
      → (raw.payload ≡ cancelled_body → Gone)
      → Ends (respond session raw e)
  unfolding respond respond_body
  respond-Ends session raw e leak gone = elim (Bool-cases raw.is_json) [
    | inl json ↦ rw json (respond_body-Ends session raw e raw.payload leak gone)
    | inr plain ↦ rw plain (closes _ _ _ _ _ _ refl refl)
  ]

-- What is left of a request.
pub record IsHandled (session : TransferSession) (opened : PdProxy) (reply : Reply)
    (after : RequestMetrics × PdProxy) : Type 0 where
  pub stays_open : leaves_open reply ≡ true → after ≡ (session.metrics, opened)
  pub is_recorded :
      leaves_open reply ≡ false
      → (after.1.records ≡ after.0 ∷ opened.records)
        × (is_error_outcome after.0.outcome ≡ true)
        × (get after.1.sessions session.metrics.request_id ≡ none)

finished-IsHandled :
    (Leak : Error → Type 0) (Gone : Type 0) (session : TransferSession) (opened : PdProxy)
    (out : Reply × List FinishCall)
    → Ends Leak Gone out
    → session.metrics.request_end_at ≡ none
    → IsHandled session opened out.0 (finish_all opened session.metrics out.1)
      × ((problem : Error) → out.0 ≡ unhandled problem → Leak problem)
      × (out.0 ≡ abandoned → Gone)
unfolding finish_all close_metrics
finished-IsHandled Leak Gone session opened out (streams status) running = (
  record { stays_open = λ _. refl; is_recorded = λ closed. absurd (cc closed) },
  λ problem h. absurd (cc h),
  λ h. absurd (cc h),
)
finished-IsHandled Leak Gone session opened out (abandons why) running = (
  record { stays_open = λ _. refl; is_recorded = λ closed. absurd (cc closed) },
  λ problem h. absurd (cc h),
  λ h. why,
)
finished-IsHandled Leak Gone session opened out (leaks problem why) running = (
  record { stays_open = λ _. refl; is_recorded = λ closed. absurd (cc closed) },
  λ problem' h. let same : problem ≡ problem' = cc h in subst Leak same why,
  λ h. absurd (cc h),
)
finished-IsHandled Leak Gone session opened out
      (closes reply now outcome failure stage calls h error) running =
    let closed = close_metrics session.metrics now outcome (some failure) (some stage) in
    let after =
      finish_all opened session.metrics ((now, outcome, some failure, some stage) ∷ calls) in
    let (same, recorded, gone) =
      finish_all-closes opened session.metrics now outcome (some failure) (some stage) calls
        running in
    let ends : is_error_outcome closed.outcome ≡ true = error in
    (
      record {
        stays_open = λ still. absurd (cc (still, h));
        is_recorded = λ _. (
          recorded ∙ ap (λ m. m ∷ opened.records) (sym same),
          subst (λ (m : RequestMetrics). is_error_outcome m.outcome ≡ true) (sym same) ends,
          gone session.metrics.request_id ∙ rw (==_refl session.metrics.request_id) refl,
        );
      },
      λ problem e. absurd (cc (ap leaves_open e, h)),
      λ e. absurd (cc (ap leaves_open e, h)),
    )

-- A request that becomes a stream stays open for it. Of any other one, the session is dropped and one
-- record is written, with the outcome of an error, except in two cases, in which it is not finished
-- at all: its body is such that no prefill request can be built from it, or it is cancelled while its
-- body is read.
pub handle-IsHandled :
    (session : TransferSession) (opened : PdProxy) (raw : RawRequest) (e : Exchange)
    → session.metrics.request_end_at ≡ none
    → let (reply, after) = handle session opened raw e in
      IsHandled session opened reply after
      × ((problem : Error)
          → reply ≡ unhandled problem
          → (body : Body) × (raw.payload ≡ body_of body)
            × (prefill_body body session ≡ raise problem))
      × (reply ≡ abandoned → raw.payload ≡ cancelled_body)
unfolding handle
handle-IsHandled session opened raw e running =
    let Leak : Error → Type 0 = λ problem.
      (body : Body) × (raw.payload ≡ body_of body) × (prefill_body body session ≡ raise problem) in
    finished-IsHandled Leak (raw.payload ≡ cancelled_body) session opened (respond session raw e)
      (respond-Ends Leak (raw.payload ≡ cancelled_body) session raw e
        (λ body problem found fails. (body, found, fails)) (λ gone. gone))
      running
