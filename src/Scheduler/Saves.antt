-- ===== src/Scheduler/Saves.antt =====
-- mtsc/scheduler.py: `_append_blocks`, `_build_save_meta` and the part of `build_connector_meta`
-- that plans the saves of the step. An exception stops vLLM's engine: the state that it leaves
-- behind is not modelled.
pub mod Ranges
pub mod Frame
use mtsc.Common.{
  ℕ, ◌+◌, ◌*◌, min, max, String, Bool, not, ◌&&◌, ◌||◌, Option, none, some, List, [], ◌∷◌, ◌++◌,
  Dict, value_error, key_error, Result, ok, raise, ◌>>=◌, cdiv, align, leb, length, if◌then◌else◌,
  get, put, add, member, string_eq, nat_eq, map, ◌==◌,
}
use mtsc.Protocol.{BlockIds, KvPoolSaveRequest}
use mtsc.Scheduler.State.{Request, Scheduler, TrackedRequest, BlockTable, groups, num_tokens}

-- `current.extend(new)` for each pair of groups; the counts agree.
extend_groups : BlockIds → BlockIds → BlockIds
extend_groups [] news = []
extend_groups (current ∷ rest) [] = current ∷ rest
extend_groups (current ∷ rest) (new ∷ news) = (current ++ new) ∷ extend_groups rest news

join_groups : BlockIds → BlockIds → Result BlockIds
unfolding extend_groups
join_groups [] incoming = ok incoming
join_groups (group ∷ groups) incoming =
    if length incoming == length (group ∷ groups)
    then ok (extend_groups (group ∷ groups) incoming)
    else raise (value_error "KV group count changed")

pub append_blocks : TrackedRequest → Option BlockTable → Result TrackedRequest
unfolding join_groups
append_blocks t none = ok t
append_blocks t (some new_block_ids) = do
  joined ← join_groups t.block_ids (groups new_block_ids)
  ok (record t { block_ids = joined })

-- Where the next save begins: decode requests save nothing of the prompt.
pub save_start : ℕ → Request → ℕ → Bool → ℕ
save_start block_size r saved decode =
    if decode then max saved (cdiv r.num_prompt_tokens block_size * block_size) else saved

-- `r` is the tracked request's object; the result has the save, if any, and the entry after it.
unfoldable pub build_save_meta :
    ℕ → TrackedRequest → Request → ℕ → Bool → Option KvPoolSaveRequest × TrackedRequest
unfolding save_start
build_save_meta block_size t r token_count decode =
    let complete = align (min token_count (num_tokens r)) block_size in
    let start = save_start block_size r t.saved_tokens decode in
    if leb complete start then (none, t) else (
      some (record {
        request_id = r.request_id;
        block_ids = t.block_ids;
        block_hashes = r.block_hashes;
        start_token = start;
        end_token = complete;
        prompt_tokens = some r.num_prompt_tokens;
      }),
      record t { saved_tokens = complete },
    )

-- The parts of vLLM's `SchedulerOutput` that are read. `cached` holds the parallel lists of
-- `scheduled_cached_reqs` row by row.
pub record NewRequest : Type 0 where
  pub req_id : String
  pub block_ids : BlockTable
  pub num_computed_tokens : ℕ

pub record CachedRequest : Type 0 where
  pub req_id : String
  pub new_block_ids : Option BlockTable
  pub num_computed_tokens : ℕ

pub record SchedulerOutput : Type 0 where
  pub scheduled_new_reqs : List NewRequest
  pub cached : List CachedRequest
  pub num_scheduled_tokens : Dict String ℕ
  pub finished_req_ids : List String
  pub preempted_req_ids : Option (List String)

-- output.num_scheduled_tokens[request_id]
scheduled_tokens : SchedulerOutput → String → Result ℕ
scheduled_tokens output request_id = elim (get output.num_scheduled_tokens request_id) [
  | none ↦ raise (key_error request_id)
  | some count ↦ ok count
]

module _ {C : Type 0} where
  -- `batch_pool_saves.append(save_meta)` if there is a save; `_build_save_meta` has noted the
  -- request as saving.
  note_save : Scheduler C → String → Option KvPoolSaveRequest × TrackedRequest → Scheduler C
  note_save s key (none, t) = record s { tracked_requests = put s.tracked_requests key t }
  note_save s key (some save, t) = record s {
    tracked_requests = put s.tracked_requests key t;
    saving_requests = add s.saving_requests save.request_id;
    batch_pool_saves = s.batch_pool_saves ++ save ∷ [];
  }

  module _ (requests : String → Request) (output : SchedulerOutput) where
    save_step : Scheduler C → String → TrackedRequest → ℕ → Result (Scheduler C)
    unfolding note_save scheduled_tokens
    save_step s key t computed = do
      count ← scheduled_tokens output key
      ok (
          note_save s key
            (build_save_meta s.block_size t (requests t.request) (computed + count) t.is_decode))

    save_new : Scheduler C → NewRequest → Option TrackedRequest → Result (Scheduler C)
    unfolding save_step
    save_new s req none = ok s
    save_new s req (some t) =
        if member req.req_id (map (λ load. load.request_id) s.batch_pool_loads)
          || (t.is_decode && not s.decode_save)
        then ok s
        else save_step s req.req_id (record t { block_ids = groups req.block_ids })
            req.num_computed_tokens

    save_cached : Scheduler C → CachedRequest → Option TrackedRequest → Result (Scheduler C)
    unfolding save_step append_blocks
    save_cached s req none = ok s
    save_cached s req (some t) = if t.is_decode && not s.decode_save then ok s else do
      t' ← append_blocks t req.new_block_ids
      save_step s req.req_id t' req.num_computed_tokens

    save_all_new : Scheduler C → List NewRequest → Result (Scheduler C)
    unfolding save_new
    save_all_new s [] = ok s
    save_all_new s (req ∷ reqs) = do
      s' ← save_new s req (get s.tracked_requests req.req_id)
      save_all_new s' reqs

    save_all_cached : Scheduler C → List CachedRequest → Result (Scheduler C)
    unfolding save_cached
    save_all_cached s [] = ok s
    save_all_cached s (req ∷ reqs) = do
      s' ← save_cached s req (get s.tracked_requests req.req_id)
      save_all_cached s' reqs

    unfoldable pub plan_saves : Scheduler C → Result (Scheduler C)
    unfolding save_all_new save_all_cached
    plan_saves s =
        if s.is_producer || s.decode_save
        then (do s' ← save_all_new s output.scheduled_new_reqs; save_all_cached s' output.cached)
        else ok s
