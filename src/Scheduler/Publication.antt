-- ===== src/Scheduler/Publication.antt =====
-- mtsc/scheduler.py: `build_connector_meta`, which plans the saves of the step, drops what belongs
-- to preempted requests and hands the operations of the step over.
pub mod Fence
pub mod Delivery
use mtsc.Common.{
  String, not, none, some, List, [], ◌∷◌, Result, ok, ◌>>=◌, keep_if, remove_all, difference,
  update, member, string_eq,
}
use mtsc.Protocol.{MtscConnectorMetadata}
use mtsc.Scheduler.State.{Request, Scheduler, LookupOps}
use mtsc.Scheduler.Saves.{SchedulerOutput, plan_saves}

-- output.preempted_req_ids or set()
abbrev pub preempted_ids : SchedulerOutput → List String
preempted_ids output = elim output.preempted_req_ids [ none ↦ [] | some ids ↦ ids ]

module _ {C : Type 0} (ops : LookupOps C) where
  discard_lookups : C → List String → C
  discard_lookups client [] = client
  discard_lookups client (id ∷ ids) = discard_lookups (ops.discard client id) ids

  -- The filters over the batches: nothing of a preempted request is published.
  drop_batches : Scheduler C → List String → List String → Scheduler C
  drop_batches s finished preempted = record s {
    batch_pool_loads = keep_if (λ load. not (member load.request_id preempted)) s.batch_pool_loads;
    batch_pool_saves = keep_if (λ save. not (member save.request_id preempted)) s.batch_pool_saves;
    batch_transfers =
        keep_if (λ plan. not (member plan.request_id (update finished preempted)))
          s.batch_transfers;
    batch_transfer_state =
        keep_if (λ source. not (member source.request_id preempted)) s.batch_transfer_state;
  }

  -- Decisions of finished and preempted requests, and all that is known of preempted ones.
  forget : Scheduler C → List String → List String → Scheduler C
  unfolding discard_lookups
  forget s finished preempted =
      let gone = update finished preempted in
      record s {
        lookup_client = discard_lookups s.lookup_client gone;
        load_decisions = remove_all s.load_decisions gone;
        transfer_decisions = remove_all s.transfer_decisions gone;
        load_traces = remove_all s.load_traces preempted;
        finished_waits = remove_all s.finished_waits preempted;
        delayed_releases = difference s.delayed_releases preempted;
        tracked_requests = remove_all s.tracked_requests preempted;
        saving_requests = difference s.saving_requests preempted;
        transferring_requests = difference s.transferring_requests preempted;
      }

  metadata_of : Scheduler C → List String → List String → MtscConnectorMetadata
  metadata_of s finished preempted = record {
    pool_loads = s.batch_pool_loads;
    pool_saves = s.batch_pool_saves;
    transfer_plans = s.batch_transfers;
    transfer_states = s.batch_transfer_state;
    finished_waits = s.finished_waits;
    finished_request_ids = finished;
    preempted_request_ids = preempted;
  }

  clear_batches : Scheduler C → Scheduler C
  clear_batches s = record s {
    batch_pool_loads = [];
    batch_pool_saves = [];
    batch_transfers = [];
    batch_transfer_state = [];
    finished_waits = [];
  }

  unfoldable pub publish :
      Scheduler C → List String → List String → MtscConnectorMetadata × Scheduler C
  unfolding clear_batches metadata_of forget drop_batches
  publish s finished preempted =
      let s' = forget (drop_batches s finished preempted) finished preempted in
      (metadata_of s' finished preempted, clear_batches s')

  unfoldable pub build_connector_meta :
      (String → Request)
      → Scheduler C
      → SchedulerOutput
      → Result (MtscConnectorMetadata × Scheduler C)
  unfolding publish
  build_connector_meta requests s output = do
    s' ← plan_saves requests output s
    ok (publish s' output.finished_req_ids (preempted_ids output))
