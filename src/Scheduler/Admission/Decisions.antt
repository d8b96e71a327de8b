-- ===== src/Scheduler/Admission/Decisions.antt =====
-- What `get_num_new_matched_tokens` answers and decides.
use mtsc.Transfer.Receiver.Progress.{Fits}
use mtsc.Scheduler.Admission.{
  prepare, check_params, answer_for, target_of, get_num_new_matched_tokens, after_lookup, Admitted,
  find_pool_hit, decide,
}
use mtsc.Scheduler.State.{params_of, Scheduler, Request, LookupOps}
use mtsc.Protocol.{BlockHash}
use mtsc.Common.{
  ◌<◌, ◌≢◌, ◌≢◌, subst, refl, ok-injective, ok, le_trans, inr, inl, ap, align-le, align, Bool-cases,
  >>=-eq-ok, int_eq, ◌-◌, ℤ, pos, false, Option, nat_eq, string_eq, ◌≤◌, ◌≡◌, ◌&&◌, ℕ, truthy, true,
  sub_ℕ, some, remove, param, none, ltb, if◌then◌else◌, get-remove, get-put, get, arith, String,
  List, Bool, ==_refl,
}

-- What the scheduler relies on: a lookup finds no more than it is asked for, where the request has no
-- lookup under way that was asked for more. `Fits client id tokens` says so, and calls keep it.
pub record LookupLaws {C : Type 0} (ops : LookupOps C) (Fits : C → String → ℕ → Type 0)
    : Type 0 where
  pub bounded :
      (client client' : C) (id : String) (tokens : ℕ) (hashes : List BlockHash)
      (asynchronous : Bool) (hit : ℕ)
      → Fits client id tokens
      → ops.lookup client id tokens hashes asynchronous ≡ (some hit, client')
      → hit ≤ tokens
  pub lookup_fits :
      (client : C) (id other_id : String) (tokens bound : ℕ) (hashes : List BlockHash)
      (asynchronous : Bool)
      → (other_id ≡ id → tokens ≤ bound)
      → Fits client other_id bound
      → Fits (ops.lookup client id tokens hashes asynchronous).1 other_id bound
  pub discard_fits :
      (client : C) (id other_id : String) (bound : ℕ)
      → (other_id ≢ id → Fits client other_id bound)
      → Fits (ops.discard client id) other_id bound

abbrev pub wants_prefill : {C : Type 0} → Scheduler C → Request → Bool
wants_prefill s r = s.is_consumer && truthy (param (params_of r) "do_remote_prefill")

-- The load that the state has decided on: the range from what is computed to the hit, if any.
abbrev pub LoadDecision : {C : Type 0} → Scheduler C → String → ℕ → ℕ → Type 0
LoadDecision s id computed hit = get s.load_decisions id ≡ (
    if ltb computed hit
    then some (record { computed_tokens = computed; pool_hit_tokens = hit })
    else none)

module _ {C : Type 0} where
  decide-load :
      (s : Scheduler C) (r : Request) (computed target hit : ℕ)
      → LoadDecision (decide s r computed target hit).1 r.request_id computed hit
  unfolding decide
  decide-load s r computed target hit = ground (
    arith,
    get-put (remove s.load_decisions r.request_id) r.request_id r.request_id
        (record { computed_tokens = computed; pool_hit_tokens = hit }),
    get-remove s.load_decisions r.request_id r.request_id,
    ==_refl r.request_id,
  )

  decide-transfer :
      (s : Scheduler C) (r : Request) (computed target hit : ℕ)
      → wants_prefill s r ≡ true
      → ((decide s r computed target hit).0 ≡ (sub_ℕ target computed, ltb computed target))
        × (get (decide s r computed target hit).1.transfer_decisions r.request_id
            ≡ some (record {
              computed_tokens = computed;
              pool_hit_tokens = hit;
              target_tokens = target;
            }))
  unfolding decide
  decide-transfer s r computed target hit h = (
    ground arith,
    ground (
      arith,
      get-put (remove s.transfer_decisions r.request_id) r.request_id r.request_id
          (record { computed_tokens = computed; pool_hit_tokens = hit; target_tokens = target }),
      ==_refl r.request_id,
    ),
  )

  -- The tokens that a lookup asks for: whole blocks of the target.
  module _ (ops : LookupOps C) {Fits : C → String → ℕ → Type 0} (laws : LookupLaws ops Fits) where
    find_pool_hit-le :
        (s : Scheduler C) (r : Request) (target hit : ℕ) (client : C)
        → Fits s.lookup_client r.request_id (align target s.block_size)
        → find_pool_hit ops s r target ≡ (some hit, client)
        → hit ≤ target
    unfolding find_pool_hit
    find_pool_hit-le s r target hit client fits h =
        elim (Bool-cases (ltb (align target s.block_size) s.block_size)) [
          | inl short ↦ ground (arith, h)
          | inr long ↦
              le_trans (laws.bounded _ _ _ _ _ _ hit fits (rw (long, find_pool_hit) at h))
                (align-le target s.block_size)
        ]

  -- What is known of the Store's prefix: the lookup is asked for the whole blocks of the target, and
  -- its answer is taken; where these are none, the prefix is empty.
  abbrev pub LookedUp : LookupOps C → Scheduler C → Request → ℕ → Option ℕ → Type 0
  LookedUp ops s r target found =
      let tokens = align target s.block_size in
      (tokens < s.block_size → found ≡ some 0)
      × (s.block_size ≤ tokens
          → found
            ≡ (ops.lookup s.lookup_client r.request_id tokens r.block_hashes s.lookup_async).0)

  find_pool_hit-LookedUp :
      (ops : LookupOps C) (s : Scheduler C) (r : Request) (target : ℕ)
      → LookedUp ops s r target (find_pool_hit ops s r target).0
  unfolding find_pool_hit
  find_pool_hit-LookedUp ops s r target =
      elim (Bool-cases (ltb (align target s.block_size) s.block_size)) [
        | inl short ↦
            rw (short, find_pool_hit) (λ _. refl, λ long. absurd (ground (arith, short, long)))
        | inr long ↦
            rw (long, find_pool_hit) (λ short. absurd (ground (arith, short, long)), λ _. refl)
      ]

  -- The answer to vLLM once the target is known.
  pub data Answers (ops : LookupOps C) (s : Scheduler C) (r : Request) (computed target : ℕ)
      (a : (Option ℤ × Bool) × Scheduler C) : Type 0 where
    pending :
        LookedUp ops s r target none
        → a.0 ≡ (none, false)
        → a.1.load_decisions ≡ s.load_decisions
        → a.1.transfer_decisions ≡ s.transfer_decisions
        → Answers ops s r computed target a
    answered :
        (hit : ℕ)
        → LookedUp ops s r target (some hit)
        → hit ≤ target
        → LoadDecision a.1 r.request_id computed hit
        → (wants_prefill s r ≡ true
            → (a.0 ≡ (some (sub_ℕ target computed), ltb computed target))
              × (get a.1.transfer_decisions r.request_id
                  ≡ some (record {
                    computed_tokens = computed;
                    pool_hit_tokens = hit;
                    target_tokens = target;
                  })))
        → (wants_prefill s r ≡ false
            → (a.0 ≡ (some (pos (hit - computed)), ltb computed hit))
              × (a.1.transfer_decisions ≡ s.transfer_decisions))
        → Answers ops s r computed target a

  decide-other :
      (s : Scheduler C) (r : Request) (computed target hit : ℕ)
      → wants_prefill s r ≡ false
      → ((decide s r computed target hit).0 ≡ (pos (hit - computed), ltb computed hit))
        × ((decide s r computed target hit).1.transfer_decisions ≡ s.transfer_decisions)
  unfolding decide
  decide-other s r computed target hit h = (ground arith, ground arith)

  after_lookup-Answers :
      (ops : LookupOps C) (s : Scheduler C) (r : Request) (computed target : ℕ)
      (found : Option ℕ × C)
      → LookedUp ops s r target found.0
      → ((hit : ℕ) (client : C) → found ≡ (some hit, client) → hit ≤ target)
      → Answers ops s r computed target (after_lookup s r computed target found)
  unfolding after_lookup
  after_lookup-Answers ops s r computed target (none, client) known bound =
      pending known refl refl refl
  after_lookup-Answers ops s r computed target (some hit, client) known bound =
      let s' = record s { lookup_client = client } in
      answered hit known (bound hit client refl) (decide-load s' r computed target hit)
        (λ h.
          let d = decide-transfer s' r computed target hit h in
          (ap (λ (p : ℤ × Bool). (some p.0, p.1)) d.0, d.1))
        (λ h.
          let d = decide-other s' r computed target hit h in
          (ap (λ (p : ℤ × Bool). (some p.0, p.1)) d.0, d.1))

  -- What is asked of the lookup for a request is no less than what it was asked before.
  abbrev pub AsksFitting : (C → String → ℕ → Type 0) → Scheduler C → Request → Type 0
  AsksFitting Fits s r =
      Fits s.lookup_client r.request_id (align (target_of s.config r) s.block_size)

  answer_for-Answers :
      (ops : LookupOps C) {Fits : C → String → ℕ → Type 0} (laws : LookupLaws ops Fits)
      (s : Scheduler C) (r : Request) (computed : ℕ)
      → AsksFitting Fits s r
      → Answers ops s r computed
          (target_of s.config r)
          ((answer_for ops s r computed).0, (answer_for ops s r computed).2)
  unfolding answer_for
  answer_for-Answers ops laws s r computed fits =
      let target = target_of s.config r in
      after_lookup-Answers ops s r computed target (find_pool_hit ops s r target)
        (find_pool_hit-LookedUp ops s r target)
        (λ hit client. find_pool_hit-le ops laws s r target hit client fits)

  -- With a lookup that keeps its laws and was not asked for more before, the answer is either pending, with no
  -- decision changed, or rests on a hit within the target. The pending answer or the hit is what the
  -- lookup answers when asked for the whole blocks of the target, or 0 where these are none. The load decision is the range from the
  -- computed tokens to the hit, if that is any; a remote prefill is answered with all tokens up to
  -- the target and decides to transfer them, any other request with the tokens of the hit.
  pub get_num_new_matched_tokens-Answers :
      (ops : LookupOps C) {Fits : C → String → ℕ → Type 0} (laws : LookupLaws ops Fits)
      (s : Scheduler C) (r : Request) (computed : ℕ) (out : Admitted C)
      → AsksFitting Fits s (prepare s r)
      → get_num_new_matched_tokens ops s r computed ≡ ok out
      → Answers ops s out.1 computed (target_of s.config out.1) (out.0, out.2)
  unfolding get_num_new_matched_tokens
  get_num_new_matched_tokens-Answers ops laws s r computed out fits h =
      let (_, _, e) =
        >>=-eq-ok (check_params s r) (λ _. ok (answer_for ops s (prepare s r) computed)) h in
      subst (λ (o : Admitted C). Answers ops s o.1 computed (target_of s.config o.1) (o.0, o.2))
        (ok-injective e) (answer_for-Answers ops laws s (prepare s r) computed fits)
