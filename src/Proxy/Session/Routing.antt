-- ===== src/Proxy/Session/Routing.antt =====
-- proxy/pd_proxy.py: the endpoints take turns.
use mtsc.Proxy.Session.{
  PrefillEndpoint, DecodeEndpoint, new_metrics, next_of, new_session, TransferSession, PdProxy,
}
use mtsc.Common.{
  sym, put, ◌≤◌, ◌∙◌, suc-mod, mod_self, mod-lt, mod-eq_of_lt, length-append, ap, map_option, inr,
  inl, Bool-cases, nat_eq, ◌≡◌, ◌==◌, ◌<◌, ◌++◌, ◌%◌, refl, ltb, length, if◌then◌else◌, get_elem?,
  arith, string_eq, ◌∷◌, ℕ, zero, suc, some, none, [], String, Option, List,
}

-- The proxy after serving sessions with these request ids, with the sessions, in order.
unfoldable pub serve :
    PdProxy → List (String × Option String × String) → List TransferSession × PdProxy
serve p [] = ([], p)
serve p ((request_id, client_request_id, route) ∷ requests) =
    elim (new_session p request_id client_request_id route) [
      | none ↦ ([], p)
      | some (session, p') ↦ (session ∷ (serve p' requests).0, (serve p' requests).1)
    ]

get_elem?-append-last {ℓ} :
    {A : Type ℓ} (xs : List A) (x : A) (j : ℕ)
    → get_elem? (xs ++ x ∷ []) j
      ≡ (if ltb j (length xs) then get_elem? xs j else if j == length xs then some x else none)
get_elem?-append-last [] x zero = refl
get_elem?-append-last [] x (suc j) = ground arith
get_elem?-append-last (y ∷ xs) x zero = ground arith
get_elem?-append-last (y ∷ xs) x (suc j) = ground (arith, get_elem?-append-last xs x j)

-- The element at a turn of a cycle.
abbrev pub at_turn {ℓ} : {A : Type ℓ} → List A → ℕ → Option A
at_turn xs i = get_elem? xs (i % length xs)

next_index : (j n : ℕ) → j < n → suc j % n ≡ (if suc j == n then 0 else suc j)
next_index j n lt = elim (Bool-cases (suc j == n)) [
  | inl last ↦ ground (arith, last, lt, mod_self n)
  | inr within ↦
      let small : suc j % n ≡ suc j = mod-eq_of_lt (ground (arith, within, lt)) in
      ground (arith, within, small)
]

at_turn-step {ℓ} :
    {A : Type ℓ} (x : A) (xs : List A) (j m : ℕ)
    → j ≤ length xs
    → m ≡ (if j == length xs then 0 else suc j)
    → get_elem? (xs ++ x ∷ []) j ≡ get_elem? (x ∷ xs) m
at_turn-step x xs j m le turn = elim (Bool-cases (j == length xs)) [
  | inl last ↦ ground (arith, le, turn, last, get_elem?-append-last xs x j)
  | inr within ↦ ground (arith, le, turn, within, get_elem?-append-last xs x j)
]

at_turn-next {ℓ} :
    {A : Type ℓ} (x : A) (xs : List A) (i : ℕ) → at_turn (xs ++ x ∷ []) i ≡ at_turn (x ∷ xs) (suc i)
at_turn-next x xs i =
    let n = suc (length xs) in
    let lt : i % n < n = mod-lt i (omega arith) in
    ap (λ m. get_elem? (xs ++ x ∷ []) (i % m)) (length-append xs (x ∷ []) ∙ (omega arith))
    ∙ at_turn-step x xs (i % n) (suc i % n) (omega (arith, lt))
        (suc-mod i n ∙ next_index (i % n) n lt ∙ ground arith)

at_turn-first {ℓ} : {A : Type ℓ} (x : A) (xs : List A) → at_turn (x ∷ xs) 0 ≡ some x
at_turn-first x xs = ap (get_elem? (x ∷ xs)) (mod-eq_of_lt (omega arith))

List-cases {ℓ} :
    {A : Type ℓ} (xs : List A) → 0 < length xs → (x : A) × (rest : List A) × (xs ≡ x ∷ rest)
List-cases [] lt = ground arith
List-cases (x ∷ xs) lt = (x, xs, refl)

-- A session between these endpoints, after which the next ones have their turn.
record IsServed (p : PdProxy) (session : TransferSession) (p' : PdProxy) : Type 0 where
  prefill : at_turn p.prefill_cycle 0 ≡ some session.prefill
  decode : at_turn p.decode_cycle 0 ≡ some session.decode
  prefills : (i : ℕ) → at_turn p'.prefill_cycle i ≡ at_turn p.prefill_cycle (suc i)
  decodes : (i : ℕ) → at_turn p'.decode_cycle i ≡ at_turn p.decode_cycle (suc i)
  more_prefills : 0 < length p'.prefill_cycle
  more_decodes : 0 < length p'.decode_cycle

new_session-IsServed :
    (p : PdProxy) (request_id : String) (client_request_id : Option String) (route : String)
    → 0 < length p.prefill_cycle
    → 0 < length p.decode_cycle
    → (session : TransferSession) × (p' : PdProxy) × (new_session p request_id client_request_id
          route
        ≡ some (session, p'))
      × IsServed p session p'
unfolding new_session next_of new_metrics
new_session-IsServed p request_id client_request_id route hp hd =
    let (x, xs, ps) = List-cases p.prefill_cycle hp in
    let (y, ys, ds) = List-cases p.decode_cycle hd in
    let metrics = new_metrics request_id client_request_id route x y in
    let session : TransferSession = record {
      request_id = request_id;
      transfer_id = metrics.transfer_id;
      prefill = x;
      decode = y;
      metrics = metrics;
    } in
    let p' : PdProxy = record p {
      prefill_cycle = xs ++ x ∷ [];
      decode_cycle = ys ++ y ∷ [];
      sessions = put p.sessions request_id session;
    } in
    (
      session,
      p',
      rw (ps, ds, new_session, next_of) refl,
      record {
        prefill = ap (λ c. at_turn c 0) ps ∙ at_turn-first x xs;
        decode = ap (λ c. at_turn c 0) ds ∙ at_turn-first y ys;
        prefills = λ i. at_turn-next x xs i ∙ ap (λ c. at_turn c (suc i)) (sym ps);
        decodes = λ i. at_turn-next y ys i ∙ ap (λ c. at_turn c (suc i)) (sym ds);
        more_prefills = omega (arith, length-append xs (x ∷ []));
        more_decodes = omega (arith, length-append ys (y ∷ []));
      },
    )

-- The endpoints of a session, as an option.
abbrev pub prefill_of : Option TransferSession → Option PrefillEndpoint
prefill_of = map_option (λ session. session.prefill)

abbrev pub decode_of : Option TransferSession → Option DecodeEndpoint
decode_of = map_option (λ session. session.decode)

-- A proxy that has endpoints serves every request, and the i-th one goes to the endpoints whose turn
-- it is: the i-th ones of both lists, counted around.
pub serve-at_turn :
    (p : PdProxy) (requests : List (String × Option String × String)) (i : ℕ)
    → 0 < length p.prefill_cycle
    → 0 < length p.decode_cycle
    → i < length requests
    → (prefill_of (get_elem? (serve p requests).0 i) ≡ at_turn p.prefill_cycle i)
      × (decode_of (get_elem? (serve p requests).0 i) ≡ at_turn p.decode_cycle i)
unfolding serve
serve-at_turn p [] i hp hd lt = ground arith
serve-at_turn p ((request_id, client_request_id, route) ∷ requests) zero hp hd lt =
    let (session, p', served, turn) =
      new_session-IsServed p request_id client_request_id route hp hd in
    rw (served, serve) (sym turn.prefill, sym turn.decode)
serve-at_turn p ((request_id, client_request_id, route) ∷ requests) (suc i) hp hd lt =
    let (session, p', served, turn) =
      new_session-IsServed p request_id client_request_id route hp hd in
    let (prefill, decode) =
      serve-at_turn p' requests i turn.more_prefills turn.more_decodes (omega (arith, lt)) in
    rw (served, serve) (prefill ∙ turn.prefills i, decode ∙ turn.decodes i)
