-- ===== src/Worker/Finished.antt =====
-- mtsc/worker.py: the per-step operations of the worker: preemption, the metadata of the step,
-- release dependencies and `get_finished`. Device events only order device work: a save refers to
-- the event of its step by the step's clock reading.
pub mod Waits
pub mod Saving
pub mod Released
use mtsc.Proxy.Stream.{cancelled}
use mtsc.Worker.Loads.{pool_candidate_block_ids, aggregate_recv_finished}
use mtsc.Protocol.{
  MtscWorkerMetadata, MtscConnectorMetadata, KvTransferSourceState, KvTransferPlan,
  KvPoolSaveRequest, KvPoolLoadRequest, FinishedWait,
}
use mtsc.Common.{
  raise, ok, Result, modify, int_eq, nat_eq, string_eq, ◌∷◌, ◌++◌, ℤ, ℕ, update, true, some,
  set_default, remove, put, not, none, map, ltb, if◌then◌else◌, has, get, false, difference, [],
  String, Option, List, Dict,
}
use mtsc.Worker.State.{
  transfer_send, transfer_prepare, transfer_preempt, transfer_cancel, pool_save, pool_preempt,
  pool_loading, pool_load, pool_done, is_finished, Worker, TransferState, TransferResult,
  SaveResult, Polled, FinishedWaitState, BackendCall,
}

pub mark_saved : Worker → List String → Worker
mark_saved w [] = w
mark_saved w (id ∷ ids) =
    mark_saved
      (record w {
        on_save_requests = remove w.on_save_requests id;
        finished_waits =
            modify w.finished_waits id (λ state. record state { pool_save_done = true });
      })
      ids

pub mark_sent : Dict String FinishedWaitState → List String → Dict String FinishedWaitState
mark_sent waits [] = waits
mark_sent waits (id ∷ ids) =
    mark_sent (modify waits id (λ state. record state { kv_transfer_done = true })) ids

-- The finished waits, and the ones that stay.
unfoldable pub split_finished :
    Dict String FinishedWaitState → List String × Dict String FinishedWaitState
split_finished [] = ([], [])
split_finished ((id, state) ∷ waits) =
    let (done, open_waits) = split_finished waits in
    if is_finished state then (id ∷ done, open_waits) else (done, (id, state) ∷ open_waits)

unfoldable pub aggregate_send_finished : Worker → List String → List String → Worker × List String
unfolding mark_saved mark_sent
aggregate_send_finished w pool_save_done kv_transfer_done =
    let w' = mark_saved w pool_save_done in
    let (done, waits) = split_finished (mark_sent w'.finished_waits kv_transfer_done) in
    (record w' { finished_waits = waits }, done)

unfoldable pub preempt_all : Worker → List String → Worker
preempt_all w [] = w
preempt_all w (id ∷ ids) =
    preempt_all
      (record w {
        calls = w.calls ++ pool_preempt id ∷ transfer_preempt id ∷ [];
        on_save_requests = remove w.on_save_requests id;
        on_transfer = remove w.on_transfer id;
        on_load_requests = remove w.on_load_requests id;
        finished_waits = remove w.finished_waits id;
      })
      ids

unfoldable pub handle_preemptions : Worker → MtscConnectorMetadata → Worker
unfolding preempt_all
handle_preemptions w metadata = preempt_all w metadata.preempted_request_ids

unfoldable pub submit_loads : Worker → List KvPoolLoadRequest → Worker
submit_loads w [] = w
submit_loads w (load ∷ loads) =
    submit_loads
      (record w {
        calls =
            w.calls
            ++ pool_load (record {
              request_id = load.request_id;
              block_ids = load.block_ids;
              block_hashes = load.block_hashes;
              start_load = load.start_token;
              end_load = load.end_token;
            })
              ∷ [];
        on_load_requests = put w.on_load_requests load.request_id load;
      })
      loads

initial_state : ℕ → KvTransferPlan → TransferState
initial_state now plan = record {
  plan = plan;
  stage = if ltb plan.computed_tokens plan.pool_hit_tokens then pool_loading else pool_done;
  suffix_block_ids = [];
  load_started_at = now;
  store_ms = 0;
  store_status = "skipped";
  pd_started_at = 0;
  actual_pool_prefix = 0;
}

-- A second plan for a request that is being transferred is ignored.
add_plans : ℕ → Dict String TransferState → List KvTransferPlan → Dict String TransferState
unfolding initial_state
add_plans now states [] = states
add_plans now states (plan ∷ plans) =
    add_plans now (set_default states plan.request_id (initial_state now plan)) plans

unfoldable pub update_load_metadata : ℕ → Worker → MtscConnectorMetadata → Worker
unfolding submit_loads add_plans
update_load_metadata now w metadata =
    let w' = submit_loads w metadata.pool_loads in
    record w' { on_transfer = add_plans now w'.on_transfer metadata.transfer_plans }

unfoldable pub submit_saves : ℕ → Worker → List KvPoolSaveRequest → Worker
submit_saves now w [] = w
submit_saves now w (save ∷ saves) =
    submit_saves now
      (record w {
        calls =
            w.calls
            ++ pool_save (record {
              request_id = save.request_id;
              block_ids = save.block_ids;
              block_hashes = save.block_hashes;
              start_save = save.start_token;
              end_save = save.end_token;
              ready_event = some (now ∷ []);
              prompt_tokens = save.prompt_tokens;
            })
              ∷ [];
        on_save_requests = put w.on_save_requests save.request_id save;
        finished_waits =
            modify w.finished_waits save.request_id
              (λ state. record state { pool_save_done = false });
      })
      saves

unfoldable pub update_save_metadata : ℕ → Worker → MtscConnectorMetadata → Worker
unfolding submit_saves
update_save_metadata now w metadata = submit_saves now w metadata.pool_saves

source_call : KvTransferSourceState → BackendCall
source_call source =
    if source.cancelled
    then transfer_cancel source.request_id source.transfer_id
    else if source.ready
    then transfer_send (record {
      request_id = source.request_id;
      transfer_id = source.transfer_id;
      block_ids = source.source_block_ids;
    })
    else transfer_prepare source.request_id source.transfer_id

-- The saves in flight are known when the wait begins.
unfoldable pub add_waits :
    Dict String KvPoolSaveRequest
    → Dict String FinishedWaitState
    → Dict String FinishedWait
    → Dict String FinishedWaitState
add_waits saving waits [] = waits
add_waits saving waits ((id, wait) ∷ rest) =
    add_waits saving
      (set_default waits id (record {
        wait_for = wait;
        pool_save_done = not (has saving id);
        kv_transfer_done = false;
      }))
      rest

unfoldable pub update_finished_metadata : Worker → MtscConnectorMetadata → Worker
unfolding source_call add_waits
update_finished_metadata w metadata = record w {
  calls = w.calls ++ map source_call metadata.transfer_states;
  finished_waits = add_waits w.on_save_requests w.finished_waits metadata.finished_waits;
}

candidates : Dict String TransferState → List ℤ
candidates [] = []
candidates ((id, state) ∷ states) = pool_candidate_block_ids state.plan ++ candidates states

-- Invalid blocks that a running transfer will write anyway are no load errors.
unfoldable pub note_errors : Worker → Polled → Worker
unfolding candidates
note_errors w polled = record w {
  load_errors =
      update (update w.load_errors (difference polled.pool_errors (candidates w.on_transfer)))
        polled.transfer_errors;
}

-- The clock is read at the loads' start, as transfers start, and as they end.
pub record Clock : Type 0 where
  pub loads_at : ℕ
  pub starts_at : ℕ
  pub ends_at : ℕ

unfoldable pub publish_metadata : ℕ → Worker → MtscConnectorMetadata → Worker
publish_metadata now w metadata =
    update_finished_metadata
      (update_save_metadata now (update_load_metadata now w metadata) metadata) metadata

-- The sends are looked at if the receives have not raised.
unfoldable pub finish_received :
    Polled → Worker × Result (List String) → Worker × Result (List String × List String)
finish_received polled (w, raise problem) = (w, raise problem)
finish_received polled (w, ok received) =
    let (w', sent) =
      aggregate_send_finished w (map (λ (result : SaveResult). result.request_id) polled.saves)
        (map (λ (result : TransferResult). result.request_id) polled.sends) in
    (w', ok (sent, received))

-- What is polled is an argument, and so is what Python's `int` reads from a text. The results are the
-- finished sends and receives, where an empty list stands for None, or an exception.
unfoldable pub get_finished :
    (String → Result ℕ)
    → Clock
    → Worker
    → MtscConnectorMetadata
    → Polled
    → Worker × Result (List String × List String)
unfolding note_errors finish_received
get_finished int_of_text clock w metadata polled =
    let noted = note_errors (publish_metadata clock.loads_at w metadata) polled in
    finish_received polled (
      aggregate_recv_finished int_of_text clock.starts_at clock.ends_at noted polled.loads
        polled.recvs)

unfoldable pub get_block_ids_with_load_errors : Worker → Worker × List ℤ
get_block_ids_with_load_errors w = (record w { load_errors = [] }, w.load_errors)

unfoldable pub build_connector_worker_meta : Worker → Worker × Option MtscWorkerMetadata
build_connector_worker_meta w = elim w.completed_load_reports [
  | [] ↦ (w, none)
  | report ∷ reports ↦
      (record w { completed_load_reports = [] }, some (record { load_reports = report ∷ reports }))
]
