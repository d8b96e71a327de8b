-- ===== src/Scheduler/Allocation.antt =====
-- mtsc/scheduler.py: `update_state_after_alloc`, which turns the decisions of admission into the
-- operations of the step once vLLM has given the request its blocks.
pub mod Plan
use mtsc.Common.{
  ℕ, ◌+◌, String, Bool, true, false, not, ◌&&◌, ◌||◌, Option, none, some, [], ◌∷◌, ◌++◌, bool,
  Result, ok, ◌>>◌, truthy, param, to_text, is_some, if◌then◌else◌, get, has, put, remove, add,
  member, string_eq, nat_eq,
}
use mtsc.Protocol.{BlockIds, KvPoolLoadSpec, KvTransferPlan}
use mtsc.Scheduler.State.{
  Request, Scheduler, TransferSpec, TrackedRequest, BlockTable, groups, params_of, set_param,
}
use mtsc.Scheduler.Admission.{validate_transfer_params}

-- vLLM's `KVCacheBlocks`: all blocks of the request, and those that hold no known prefix.
pub record KvCacheBlocks : Type 0 where
  pub block_ids : BlockIds
  pub unhashed_block_ids : BlockTable

-- `elif all_blocks:` an empty tuple of groups changes nothing
refresh : TrackedRequest → BlockIds → TrackedRequest
refresh t [] = t
refresh t (group ∷ all_blocks) = record t { block_ids = group ∷ all_blocks }

-- The entry of the request: a new one, or the known one with the blocks of now.
track : Bool → Request → BlockIds → Option TrackedRequest → TrackedRequest
unfolding refresh
track is_consumer r all_blocks none = record {
  request = r.request_id;
  block_ids = all_blocks;
  saved_tokens = 0;
  is_decode = is_consumer && not (truthy (param (params_of r) "do_remote_decode"));
}
track is_consumer r all_blocks (some t) = refresh t all_blocks

-- transfer_spec.target_tokens if transfer_spec is not None else request.num_prompt_tokens
trace_target : Request → Option TransferSpec → ℕ
trace_target r none = r.num_prompt_tokens
trace_target r (some spec) = spec.target_tokens

-- A load or a transfer gets the next load number and a trace.
begin_trace :
    {C : Type 0}
    → Scheduler C
    → Request
    → TrackedRequest
    → Bool
    → Option TransferSpec
    → ℕ × Scheduler C
unfolding trace_target
begin_trace s r t false transfer = (0, s)
begin_trace s r t true transfer = (
  s.next_load_id + 1,
  record s {
    next_load_id = s.next_load_id + 1;
    load_traces = put s.load_traces r.request_id (record {
      load_id = s.next_load_id + 1;
      role = if t.is_decode then "D" else "P";
      prompt_tokens = r.num_prompt_tokens;
      target_tokens = trace_target r transfer;
      transfer_id = param (params_of r) "transfer_id";
      reports = [];
    });
  },
)

queue_load :
    {C : Type 0} → Scheduler C → Request → BlockIds → ℕ → Option KvPoolLoadSpec → Scheduler C
queue_load s r all_blocks load_id none = s
queue_load s r all_blocks load_id (some spec) = record s {
  batch_pool_loads =
      s.batch_pool_loads
      ++ (record {
        request_id = r.request_id;
        block_ids = all_blocks;
        block_hashes = r.block_hashes;
        start_token = spec.computed_tokens;
        end_token = spec.pool_hit_tokens;
        load_id = load_id;
      })
        ∷ [];
}

-- str(params.get("transfer_id", request.request_id))
transfer_id_of : Request → String
transfer_id_of r = elim (get (params_of r) "transfer_id") [
  | none ↦ r.request_id
  | some value ↦ to_text value
]

make_plan : {C : Type 0} → Scheduler C → Request → KvCacheBlocks → ℕ → TransferSpec → KvTransferPlan
unfolding transfer_id_of
make_plan s r blocks load_id spec = record {
  request_id = r.request_id;
  transfer_id = transfer_id_of r;
  computed_tokens = spec.computed_tokens;
  pool_hit_tokens = spec.pool_hit_tokens;
  target_tokens = spec.target_tokens;
  all_block_ids = blocks.block_ids;
  external_block_ids = groups blocks.unhashed_block_ids;
  group_block_sizes = s.group_block_sizes;
  blocks_per_sliding_window = s.blocks_per_sliding_window;
  transfer_params = params_of r;
  load_id = load_id;
}

-- A prefill request registers a placeholder for its source, once.
announce_source : {C : Type 0} → Scheduler C → Request → Scheduler C
announce_source s r =
    if s.is_producer
      && truthy (param (params_of r) "do_remote_decode")
      && not (member r.request_id s.transferring_requests)
      && truthy (param (params_of r) "transfer_id")
    then record s {
      batch_transfer_state =
          s.batch_transfer_state
          ++ (record {
            request_id = r.request_id;
            transfer_id = to_text (param (params_of r) "transfer_id");
            source_block_ids = [];
            ready = false;
            cancelled = false;
          })
            ∷ [];
      transferring_requests = add s.transferring_requests r.request_id;
    }
    else s

queue_transfer :
    {C : Type 0}
    → Scheduler C
    → Request
    → KvCacheBlocks
    → ℕ
    → Option TransferSpec
    → Request × Scheduler C
unfolding announce_source make_plan
queue_transfer s r blocks load_id none = (r, announce_source s r)
queue_transfer s r blocks load_id (some spec) = (
  set_param r "do_remote_prefill" (bool false),
  record s { batch_transfers = s.batch_transfers ++ make_plan s r blocks load_id spec ∷ [] },
)

-- The two decisions are taken out of the state before they are acted on.
take_decisions : {C : Type 0} → Scheduler C → String → Scheduler C
take_decisions s request_id = record s {
  load_decisions = remove s.load_decisions request_id;
  transfer_decisions = remove s.transfer_decisions request_id;
}

module _ {C : Type 0} where
  -- The steps after validation.
  unfoldable pub allocate : Scheduler C → Request → KvCacheBlocks → Request × Scheduler C
  unfolding begin_trace queue_load queue_transfer take_decisions track
  allocate s r blocks =
      let tracked = track s.is_consumer r blocks.block_ids (get s.tracked_requests r.request_id) in
      let load_spec = get s.load_decisions r.request_id in
      let transfer_spec = get s.transfer_decisions r.request_id in
      let s₁ = record (take_decisions s r.request_id) {
        tracked_requests = put s.tracked_requests r.request_id tracked;
      } in
      let (load_id, s₂) =
        begin_trace s₁ r tracked (is_some load_spec || is_some transfer_spec) transfer_spec in
      let s₃ = queue_load s₂ r blocks.block_ids load_id load_spec in
      queue_transfer s₃ r blocks load_id transfer_spec

  -- `num_external_tokens` is not read.
  pub update_state_after_alloc :
      Scheduler C → Request → KvCacheBlocks → ℕ → Result (Request × Scheduler C)
  unfolding allocate
  update_state_after_alloc s r blocks num_external_tokens = do
    if has s.transfer_decisions r.request_id then validate_transfer_params r else ok tt
    ok (allocate s r blocks)
