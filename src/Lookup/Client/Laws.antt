-- ===== src/Lookup/Client/Laws.antt =====
-- `StoreLookupClient` keeps the laws that the scheduler relies on.
use mtsc.Lookup.Rpc.RoundTrip.{call_lookup-le}
use mtsc.Lookup.Rpc.{settle, call_lookup, Network}
use mtsc.Scheduler.Admission.Decisions.{LookupLaws}
use mtsc.Lookup.Client.{
  run_call, future_result, future_of, client_ops, client_lookup, client_discard, LookupClient,
  Future,
}
use mtsc.Common.{
  ◌∙◌, sym, map_option, get-modify, true, subst, if◌then◌else◌, false, ◌⊎◌, ◌==◌, ◌&&◌, set_default,
  remove, not, is_some, inr, inl, get-set_default, get-remove, Dict, Bool-cases, nat_eq, string_eq,
  ◌≤◌, ◌≢◌, ◌≡◌, ℕ, some, refl, raise, or_else, ok, none, get, arith, ap, String, Result, Option,
  List, Bool,
}
use mtsc.Protocol.{BlockHash}

-- A hit that the executor has noted is within what was asked.
abbrev IsSound : Future → Type 0
IsSound f = (hit : ℕ) → f.outcome ≡ some (ok hit) → hit ≤ f.token_count

outcome-le :
    (network : Network) (token_count hit : ℕ) (hashes : List BlockHash)
    (outcome : Option (Result ℕ))
    → ((found : ℕ) → outcome ≡ some (ok found) → found ≤ token_count)
    → or_else outcome (call_lookup network token_count hashes) ≡ ok hit
    → hit ≤ token_count
outcome-le network token_count hit hashes none sound h =
    call_lookup-le network token_count hit hashes h
outcome-le network token_count hit hashes (some r) sound h = sound hit (ap some h)

future_result-le :
    (network : Network) (f : Future) (hit : ℕ)
    → IsSound f
    → future_result network f ≡ ok hit
    → hit ≤ f.token_count
unfolding future_result
future_result-le network f hit sound h =
    outcome-le network f.token_count hit f.hashes f.outcome sound h

settle-le : (r : Result ℕ) (bound : ℕ) → ((hit : ℕ) → r ≡ ok hit → hit ≤ bound) → settle r ≤ bound
unfolding settle
settle-le (ok hit) bound below = below hit refl
settle-le (raise problem) bound below = omega arith

-- A future that was asked for no more than `bound`, and has found no more.
abbrev Within : ℕ → Future → Type 0
Within bound f = (f.token_count ≤ bound) × IsSound f

-- The request has no future, or a sound one that was asked for no more than `bound`.
abbrev pub FutureFits : LookupClient → String → ℕ → Type 0
FutureFits client id bound = (f : Future) → get client.futures id ≡ some f → Within bound f

or_else-Within :
    (bound : ℕ) (known : Option Future) (new : Future)
    → Within bound new
    → ((f : Future) → known ≡ some f → Within bound f)
    → Within bound (or_else known new)
or_else-Within bound none new fits known_fits = fits
or_else-Within bound (some f) new fits known_fits = known_fits f refl

future_of-Within :
    (client : LookupClient) (id : String) (tokens bound : ℕ) (hashes : List BlockHash)
    → tokens ≤ bound
    → FutureFits client id bound
    → Within bound (future_of client id tokens hashes)
unfolding future_of
future_of-Within client id tokens bound hashes few fits =
    or_else-Within bound (get client.futures id)
      (record { token_count = tokens; hashes = hashes; outcome = none }) (few, λ hit h. cc h) fits

client_lookup-le :
    (network : Network) (client client' : LookupClient) (id : String) (tokens : ℕ)
    (hashes : List BlockHash) (asynchronous : Bool) (hit : ℕ)
    → FutureFits client id tokens
    → client_lookup network client id tokens hashes asynchronous ≡ (some hit, client')
    → hit ≤ tokens
unfolding client_lookup
client_lookup-le network client client' id tokens hashes asynchronous hit fits h =
    let f = future_of client id tokens hashes in
    let found = future_of-Within client id tokens tokens hashes (omega arith) fits in
    let settled =
      settle-le (future_result network f) f.token_count
        (λ n e. future_result-le network f n found.1 e) in
    ground (arith, h, settled, found.0)

module _ (d : Dict String Future) (id other_id : String) (f : Future) where
  found-remove : get (remove d id) other_id ≡ some f → (other_id ≢ id) × (get d other_id ≡ some f)
  found-remove h = elim (Bool-cases (id == other_id)) [
    | inl same ↦ ground (arith, same, h, get-remove d id other_id)
    | inr differ ↦ (
      λ e. ground (arith, differ, string_eq.beq_iff id other_id, e),
      ground (arith, differ, h, get-remove d id other_id),
    )
  ]

  found-set_default :
      (new : Future)
      → get (set_default d id new) other_id ≡ some f
      → ((other_id ≡ id) × (or_else (get d id) new ≡ f)) ⊎ (get d other_id ≡ some f)
  found-set_default new h =
      ground (arith, h, get-set_default d id other_id new, string_eq.beq_iff id other_id)

client_discard-fits :
    (client : LookupClient) (id other_id : String) (bound : ℕ)
    → (other_id ≢ id → FutureFits client other_id bound)
    → FutureFits (client_discard client id) other_id bound
client_discard-fits client id other_id bound fits f h =
    let (differ, found) = found-remove client.futures id other_id f h in fits differ f found

submit-fits :
    (client : LookupClient) (id other_id : String) (bound : ℕ) (new : Future)
    → (other_id ≡ id → Within bound new)
    → FutureFits client other_id bound
    → FutureFits (record client { futures = set_default client.futures id new }) other_id bound
submit-fits client id other_id bound new new_fits fits f h =
    elim (found-set_default client.futures id other_id f new h) [
      | inl (same, e) ↦
          let known : (g : Future) → get client.futures id ≡ some g → Within bound g =
            subst (λ (key : String). FutureFits client key bound) same fits in
          subst (Within bound) e
            (or_else-Within bound (get client.futures id) new (new_fits same) known)
      | inr found ↦ fits f found
    ]

branch-fits :
    (test : Bool) (before after : Option ℕ × LookupClient) (id : String) (bound : ℕ)
    → FutureFits before.1 id bound
    → FutureFits after.1 id bound
    → FutureFits (if◌then◌else◌ {A = Option ℕ × LookupClient} test before after).1 id bound
branch-fits true before after id bound before_fits after_fits = before_fits
branch-fits false before after id bound before_fits after_fits = after_fits

client_lookup-fits :
    (network : Network) (client : LookupClient) (id other_id : String) (tokens bound : ℕ)
    (hashes : List BlockHash) (asynchronous : Bool)
    → (other_id ≡ id → tokens ≤ bound)
    → FutureFits client other_id bound
    → FutureFits (client_lookup network client id tokens hashes asynchronous).1 other_id bound
unfolding client_lookup
client_lookup-fits network client id other_id tokens bound hashes asynchronous few fits =
    let f = future_of client id tokens hashes in
    let new_fits : other_id ≡ id → Within bound f = λ same.
      future_of-Within client id tokens bound hashes (few same)
        (subst (λ (key : String). FutureFits client key bound) same fits) in
    branch-fits (asynchronous && not (is_some f.outcome)) _ _ other_id bound
      (submit-fits client id other_id bound f new_fits fits)
      (client_discard-fits client id other_id bound (λ differ. fits))

run : Network → Future → Future
run network f = record f { outcome = some (future_result network f) }

run-Within :
    (network : Network) (bound : ℕ) (f : Future) → Within bound f → Within bound (run network f)
unfolding run
run-Within network bound f (few, sound) =
    (few, λ hit h. future_result-le network f hit sound (cc h))

map_option-Within :
    (network : Network) (bound : ℕ) (known : Option Future) (f : Future)
    → ((g : Future) → known ≡ some g → Within bound g)
    → map_option (run network) known ≡ some f
    → Within bound f
map_option-Within network bound none f fits h = cc h
map_option-Within network bound (some g) f fits h =
    let e : run network g ≡ f = cc h in
    subst (Within bound) e (run-Within network bound g (fits g refl))

-- Running a call keeps every future fitting.
pub run_call-fits :
    (network : Network) (client : LookupClient) (id other_id : String) (bound : ℕ)
    → FutureFits client other_id bound
    → FutureFits (run_call network client id) other_id bound
unfolding run_call run
run_call-fits network client id other_id bound fits f h =
    let e = sym (get-modify client.futures id other_id (run network)) ∙ h in
    elim (Bool-cases (id == other_id)) [
      | inl same ↦
          map_option-Within network bound (get client.futures other_id) f fits
            (ground (arith, e, same))
      | inr differ ↦ fits f (ground (arith, e, differ))
    ]

-- The client keeps the laws that the scheduler's proofs use, whatever the network replies.
pub client_laws : (network : Network) → LookupLaws (client_ops network) FutureFits
client_laws network = record {
  bounded = client_lookup-le network;
  lookup_fits = client_lookup-fits network;
  discard_fits = client_discard-fits;
}
