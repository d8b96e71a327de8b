-- ===== src/Proxy/Session/Records.antt =====
-- proxy/pd_proxy.py: each request is recorded once.
use mtsc.Common.{
  ◌∙◌, ap, nat_eq, string_eq, ◌≡◌, ◌∷◌, ◌==◌, ℕ, true, some, remove, refl, none, is_some,
  if◌then◌else◌, get-remove, get, [], String, Option, List,
}
use mtsc.Proxy.Session.{finish, close_metrics, RequestMetrics, PdProxy, Failure}

-- A call of `_finish`: the time, the outcome, the error and the stage it came from.
abbrev pub FinishCall : Type 0
FinishCall = ℕ × String × Option Failure × Option String

-- What several handlers of one request do that each finish it.
unfoldable pub finish_all : PdProxy → RequestMetrics → List FinishCall → RequestMetrics × PdProxy
unfolding finish
finish_all p m [] = (m, p)
finish_all p m ((now, outcome, failure, stage) ∷ calls) =
    let (m', p') = finish p m now outcome failure stage in finish_all p' m' calls

close_metrics-closed :
    (m : RequestMetrics) (now : ℕ) (outcome : String) (failure : Option Failure)
    (stage : Option String)
    → is_some (close_metrics m now outcome failure stage).request_end_at ≡ true
unfolding close_metrics
close_metrics-closed m now outcome none stage = refl
close_metrics-closed m now outcome (some failure) stage = refl

finish_all-closed :
    (p : PdProxy) (m : RequestMetrics) (calls : List FinishCall)
    → is_some m.request_end_at ≡ true
    → finish_all p m calls ≡ (m, p)
unfolding finish_all finish
finish_all-closed p m [] closed = refl
finish_all-closed p m ((now, outcome, failure, stage) ∷ calls) closed =
    rw (closed, finish_all, finish) (finish_all-closed p m calls closed)

pub finish_all-closes :
    (p : PdProxy) (m : RequestMetrics) (now : ℕ) (outcome : String) (failure : Option Failure)
    (stage : Option String) (calls : List FinishCall)
    → m.request_end_at ≡ none
    → let closed = close_metrics m now outcome failure stage in
      let (m', p') = finish_all p m ((now, outcome, failure, stage) ∷ calls) in
      (m' ≡ closed)
      × (p'.records ≡ closed ∷ p.records)
      × ((request_id : String)
          → get p'.sessions request_id
            ≡ (if m.request_id == request_id then none else get p.sessions request_id))
unfolding finish_all finish
finish_all-closes p m now outcome failure stage calls running =
    let closed = close_metrics m now outcome failure stage in
    let p' : PdProxy = record p {
      sessions = remove p.sessions m.request_id;
      records = closed ∷ p.records;
    } in
    rw (running, finish_all, finish)
      (rw (finish_all-closed p' closed calls (close_metrics-closed m now outcome failure stage))
        (refl, refl, λ request_id. get-remove p.sessions m.request_id request_id))

-- The metrics with the time, the outcome and, if there is one, the error of a call.
abbrev pub first_record :
    RequestMetrics → ℕ → String → Option Failure → Option String → RequestMetrics
first_record m now outcome failure stage = record m {
  request_end_at = some now;
  outcome = outcome;
  error_stage = elim failure [ none ↦ m.error_stage | some f ↦ stage ];
  error_type = elim failure [ none ↦ m.error_type | some f ↦ some f.name ];
  error_message = elim failure [ none ↦ m.error_message | some f ↦ some f.message ];
}

close_metrics-first_record :
    (m : RequestMetrics) (now : ℕ) (outcome : String) (failure : Option Failure)
    (stage : Option String)
    → close_metrics m now outcome failure stage ≡ first_record m now outcome failure stage
unfolding close_metrics
close_metrics-first_record m now outcome none stage = refl
close_metrics-first_record m now outcome (some failure) stage = refl

-- However often a running request is finished, its session is dropped, the other sessions are kept and
-- one record is written: its metrics with the time, the outcome and the error of the first call.
pub finish_all-once :
    (p : PdProxy) (m : RequestMetrics) (now : ℕ) (outcome : String) (failure : Option Failure)
    (stage : Option String) (calls : List FinishCall)
    → m.request_end_at ≡ none
    → let written = first_record m now outcome failure stage in
      let (m', p') = finish_all p m ((now, outcome, failure, stage) ∷ calls) in
      (m' ≡ written)
      × (p'.records ≡ written ∷ p.records)
      × ((request_id : String)
          → get p'.sessions request_id
            ≡ (if m.request_id == request_id then none else get p.sessions request_id))
finish_all-once p m now outcome failure stage calls running =
    let same = close_metrics-first_record m now outcome failure stage in
    let (closed, recorded, dropped) =
      finish_all-closes p m now outcome failure stage calls running in
    (closed ∙ same, recorded ∙ ap (λ written. written ∷ p.records) same, dropped)
