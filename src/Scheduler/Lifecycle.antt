-- ===== src/Scheduler/Lifecycle.antt =====
-- A release dependency over the operations of the scheduler: made by `request_finished`, published
-- by the next `build_connector_meta`, held until the workers report.
use mtsc.Scheduler.Release.Delay.{request_finished-MustWait}
use mtsc.Scheduler.Release.{request_finished}
use mtsc.Scheduler.Publication.Fence.{build_connector_meta-IsFenced}
use mtsc.Scheduler.Publication.Delivery.{build_connector_meta-IsDelivered}
use mtsc.Scheduler.Publication.{preempted_ids, build_connector_meta}
use mtsc.Common.{nat_eq, string_eq, ◌≡◌, ◌∙◌, ◌||◌, true, some, ok, member, get, false, [], String}
use mtsc.Scheduler.Saves.{SchedulerOutput}
use mtsc.Scheduler.State.{Scheduler, Request, LookupOps}
use mtsc.Protocol.{MtscConnectorMetadata, FinishedWait, BlockIds}

-- A delayed release is published with the metadata of the next step, with some operation to wait
-- for, and never again, and the request stays delayed meanwhile, unless it is preempted.
pub build_connector_meta-request_finished :
    {C : Type 0} (ops : LookupOps C) (requests : String → Request) (s : Scheduler C) (r : Request)
    (block_ids : BlockIds) (output : SchedulerOutput) (out : MtscConnectorMetadata × Scheduler C)
    → (request_finished s r block_ids).0 ≡ true
    → build_connector_meta ops requests (request_finished s r block_ids).1 output ≡ ok out
    → member r.request_id (preempted_ids output) ≡ false
    → ((w : FinishedWait) × (get out.0.finished_waits r.request_id ≡ some w)
        × (w.store_save || w.kv_transfer ≡ true))
      × (member r.request_id out.1.delayed_releases ≡ true)
      × (out.1.finished_waits ≡ [])
build_connector_meta-request_finished ops requests s r block_ids output out d h safe =
    let waiting = ((request_finished-MustWait s r block_ids).0 d).1 in
    let (w, e, some_work, _) = waiting.wait in
    let (delivered, kept) =
      build_connector_meta-IsDelivered ops requests (request_finished s r block_ids).1 output out h
        r.request_id safe in
    (
      (w, delivered.waits ∙ e, some_work),
      kept.delayed ∙ waiting.delayed,
      (build_connector_meta-IsFenced ops requests (request_finished s r block_ids).1 output out
          h).1.waits,
    )
