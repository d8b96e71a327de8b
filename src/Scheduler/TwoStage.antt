-- ===== src/Scheduler/TwoStage.antt =====
-- A remote prefill through the scheduler: admission, then allocation, make the plan of the two
-- stages, Store up to the hit and the prefill worker from there.
use mtsc.Scheduler.State.{Scheduler, Request, LookupOps}
use mtsc.Scheduler.Admission.Decisions.{
  LookedUp, AsksFitting, wants_prefill, pending, get_num_new_matched_tokens-Answers, answered,
  LookupLaws, LoadDecision,
}
use mtsc.Protocol.{KvTransferPlan, KvPoolLoadRequest}
use mtsc.Scheduler.Allocation.{allocate, KvCacheBlocks}
use mtsc.Scheduler.Allocation.Plan.{
  started, planned, loaded, not_loaded, IsStarted, IsPlanOf, IsLoadOf,
}
use mtsc.Common.{
  String, int_eq, nat_eq, string_eq, ◌≤◌, ◌≢◌, ◌≡◌, ◌∷◌, ◌∙◌, ◌<◌, ◌+◌, ◌++◌, ℤ, ℕ, true, some, ok,
  none, get, arith, ap, [], Option, Bool,
}
use mtsc.Scheduler.Admission.{prepare, target_of, get_num_new_matched_tokens, Admitted}

-- The stages that allocation has queued: one plan up to the target and, where the hit goes past
-- what is computed, one load up to the hit, both under one fresh number.
pub record IsTwoStage {C : Type 0} (s t : Scheduler C) (r : Request) (blocks : KvCacheBlocks)
    (computed target hit : ℕ) : Type 0 where
  pub within : hit ≤ target
  pub plan :
      (plan : KvTransferPlan) × (t.batch_transfers ≡ s.batch_transfers ++ plan ∷ [])
      × IsPlanOf
          (record { computed_tokens = computed; pool_hit_tokens = hit; target_tokens = target })
          r
          blocks
          (s.next_load_id + 1)
          plan
  pub load :
      computed < hit
      → (load : KvPoolLoadRequest) × (t.batch_pool_loads ≡ s.batch_pool_loads ++ load ∷ [])
        × IsLoadOf
            (record { computed_tokens = computed; pool_hit_tokens = hit })
            r
            blocks
            (s.next_load_id + 1)
            load
  pub no_load : hit ≤ computed → t.batch_pool_loads ≡ s.batch_pool_loads
  pub started : IsStarted s t r.request_id

module _ {C : Type 0} (s : Scheduler C) (r : Request) (blocks : KvCacheBlocks)
    (computed target : ℕ) where
  allocate-IsTwoStage :
      (hit : ℕ)
      → hit ≤ target
      → LoadDecision s r.request_id computed hit
      → get s.transfer_decisions r.request_id
        ≡ some
            (record { computed_tokens = computed; pool_hit_tokens = hit; target_tokens = target })
      → IsTwoStage s (allocate s r blocks).1 r blocks computed target hit
  allocate-IsTwoStage hit within load_decision decided = record {
    within = within;
    plan = planned s r blocks _ decided;
    load = λ h. loaded s r blocks _ decided _ (load_decision ∙ ground arith);
    no_load = λ h. not_loaded s r blocks _ decided (load_decision ∙ ground arith);
    started = started s r blocks _ decided;
  }

-- With a lookup that keeps its laws and was not asked for more before: when a decode request that
-- pulls is admitted with an answer and then gets its blocks, its two stages are queued, for the hit
-- that the lookup answers when asked for the whole blocks of the target, or 0 where these are none.
-- The Store load covers the tokens from the computed ones to the hit, the plan goes on to the target, and the two
-- decisions are used up.
pub allocate-get_num_new_matched_tokens :
    {C : Type 0} (ops : LookupOps C) {Fits : C → String → ℕ → Type 0} (laws : LookupLaws ops Fits)
    (s : Scheduler C) (r : Request) (computed : ℕ) (out : Admitted C) (blocks : KvCacheBlocks)
    → AsksFitting Fits s (prepare s r)
    → get_num_new_matched_tokens ops s r computed ≡ ok out
    → out.0.0 ≢ none
    → wants_prefill s out.1 ≡ true
    → (hit : ℕ) × LookedUp ops s out.1 (target_of s.config out.1) (some hit)
      × IsTwoStage out.2
          (allocate out.2 out.1 blocks).1
          out.1
          blocks
          computed
          (target_of s.config out.1)
          hit
allocate-get_num_new_matched_tokens ops laws s r computed out blocks fits h some_answer pulls =
    elim (get_num_new_matched_tokens-Answers ops laws s r computed out fits h) [
      | pending _ e _ _ ↦ absurd (some_answer (ap (λ (p : Option ℤ × Bool). p.0) e))
      | answered hit known within load_decision transfers _ ↦ (
        hit,
        known,
        allocate-IsTwoStage out.2 out.1 blocks computed (target_of s.config out.1) hit within
            load_decision (transfers pulls).1,
      )
    ]
