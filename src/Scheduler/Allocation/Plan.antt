-- ===== src/Scheduler/Allocation/Plan.antt =====
-- What `update_state_after_alloc` queues for the decisions of admission.
use mtsc.Common.{
  refl, param, if◌then◌else◌, get-remove, get-put, arith, ==_refl, nat_eq, string_eq, ◌≡◌, ◌∷◌, ◌+◌,
  ◌++◌, ℕ, some, none, get, [], String,
}
use mtsc.Scheduler.State.{params_of, groups, TransferSpec, Scheduler, Request, LoadTrace}
use mtsc.Protocol.{KvTransferPlan, KvPoolLoadSpec, KvPoolLoadRequest}
use mtsc.Scheduler.Allocation.{track, make_plan, allocate, KvCacheBlocks}

-- The plan of a transfer: the boundaries decided on, the blocks given, the number of this attempt.
pub record IsPlanOf (spec : TransferSpec) (r : Request) (blocks : KvCacheBlocks) (number : ℕ)
    (plan : KvTransferPlan) : Type 0 where
  pub request : plan.request_id ≡ r.request_id
  pub computed : plan.computed_tokens ≡ spec.computed_tokens
  pub hit : plan.pool_hit_tokens ≡ spec.pool_hit_tokens
  pub target : plan.target_tokens ≡ spec.target_tokens
  pub all_blocks : plan.all_block_ids ≡ blocks.block_ids
  pub external : plan.external_block_ids ≡ groups blocks.unhashed_block_ids
  pub attempt : plan.load_id ≡ number

-- The load of a hit: from the computed tokens to the hit, into the blocks given.
pub record IsLoadOf (spec : KvPoolLoadSpec) (r : Request) (blocks : KvCacheBlocks) (number : ℕ)
    (load : KvPoolLoadRequest) : Type 0 where
  pub request : load.request_id ≡ r.request_id
  pub start : load.start_token ≡ spec.computed_tokens
  pub finish : load.end_token ≡ spec.pool_hit_tokens
  pub destination : load.block_ids ≡ blocks.block_ids
  pub attempt : load.load_id ≡ number

-- The decisions are used up, and the attempt is traced under a number that was never used.
pub record IsStarted {C : Type 0} (s t : Scheduler C) (id : String) : Type 0 where
  pub number : t.next_load_id ≡ s.next_load_id + 1
  pub trace :
      (trace : LoadTrace) × (get t.load_traces id ≡ some trace)
      × (trace.load_id ≡ s.next_load_id + 1)
      × (trace.reports ≡ [])
  pub load_taken : get t.load_decisions id ≡ none
  pub transfer_taken : get t.transfer_decisions id ≡ none

module _ {C : Type 0} (s : Scheduler C) (r : Request) (blocks : KvCacheBlocks) (spec : TransferSpec)
    (decided : get s.transfer_decisions r.request_id ≡ some spec) where
  pub started : IsStarted s (allocate s r blocks).1 r.request_id
  unfolding allocate
  started = record {
    number = ground arith;
    trace = (
      new_trace,
      ground
          (arith, get-put s.load_traces r.request_id r.request_id new_trace, ==_refl r.request_id),
      refl,
      refl,
    );
    load_taken =
        ground (arith, get-remove s.load_decisions r.request_id r.request_id, ==_refl r.request_id);
    transfer_taken =
        ground
          (arith, get-remove s.transfer_decisions r.request_id r.request_id, ==_refl r.request_id);
  }
    where
      new_trace : LoadTrace
      new_trace = record {
        load_id = s.next_load_id + 1;
        role =
            if (track s.is_consumer r blocks.block_ids
              (get s.tracked_requests r.request_id)).is_decode
            then "D"
            else "P";
        prompt_tokens = r.num_prompt_tokens;
        target_tokens = spec.target_tokens;
        transfer_id = param (params_of r) "transfer_id";
        reports = [];
      }

  pub planned :
      (plan : KvTransferPlan) × ((allocate s r blocks).1.batch_transfers
        ≡ s.batch_transfers ++ plan ∷ [])
      × IsPlanOf spec r blocks (s.next_load_id + 1) plan
  unfolding allocate
  planned = (
    make_plan s r blocks (s.next_load_id + 1) spec,
    ground arith,
    record {
      request = refl;
      computed = refl;
      hit = refl;
      target = refl;
      all_blocks = refl;
      external = refl;
      attempt = refl;
    },
  )

  pub loaded :
      (load_spec : KvPoolLoadSpec)
      → get s.load_decisions r.request_id ≡ some load_spec
      → (load : KvPoolLoadRequest) × ((allocate s r blocks).1.batch_pool_loads
          ≡ s.batch_pool_loads ++ load ∷ [])
        × IsLoadOf load_spec r blocks (s.next_load_id + 1) load
  unfolding allocate
  loaded load_spec h = (
    record {
      request_id = r.request_id;
      block_ids = blocks.block_ids;
      block_hashes = r.block_hashes;
      start_token = load_spec.computed_tokens;
      end_token = load_spec.pool_hit_tokens;
      load_id = s.next_load_id + 1;
    },
    ground arith,
    record { request = refl; start = refl; finish = refl; destination = refl; attempt = refl },
  )

  pub not_loaded :
      get s.load_decisions r.request_id ≡ none
      → (allocate s r blocks).1.batch_pool_loads ≡ s.batch_pool_loads
  unfolding allocate
  not_loaded h = ground arith
