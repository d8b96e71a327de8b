-- ===== src/Scheduler/Publication/Delivery.antt =====
-- What `build_connector_meta` publishes: all that the earlier operations of the step queued.
use mtsc.Scheduler.Allocation.Plan.{planned}
use mtsc.Scheduler.Saves.Frame.{plan_saves-Same}
use mtsc.Scheduler.Publication.{publish, preempted_ids, build_connector_meta}
use mtsc.Scheduler.Saves.{plan_saves, SchedulerOutput}
use mtsc.Protocol.{MtscConnectorMetadata}
use mtsc.Scheduler.State.{Scheduler, Request, LookupOps}
use mtsc.Common.{
  ◌==◌, keep_if-keep_if, keep_if, nat_eq, string_eq, ◌≡◌, ◌∙◌, update, subst, ok-injective, ok,
  member-update, member-difference, member, get-remove_all, get, false, arith, ap, String, List,
  >>=-eq-ok,
}

-- The metadata has of the request just what the state had queued for it, with its content and in its
-- order; a plan also wants that the request has not finished.
pub record IsDelivered {C : Type 0} (id : String) (finished : List String) (s : Scheduler C)
    (m : MtscConnectorMetadata) : Type 0 where
  pub loads :
      keep_if (λ load. load.request_id == id) m.pool_loads
      ≡ keep_if (λ load. load.request_id == id) s.batch_pool_loads
  pub sources :
      keep_if (λ source. source.request_id == id) m.transfer_states
      ≡ keep_if (λ source. source.request_id == id) s.batch_transfer_state
  pub plans :
      member id finished ≡ false
      → keep_if (λ plan. plan.request_id == id) m.transfer_plans
        ≡ keep_if (λ plan. plan.request_id == id) s.batch_transfers
  pub waits : get m.finished_waits id ≡ get s.finished_waits id

-- What is remembered of a request that is neither preempted nor a new save.
pub record IsKept {C : Type 0} (id : String) (s t : Scheduler C) : Type 0 where
  pub traces : get t.load_traces id ≡ get s.load_traces id
  pub transferring : member id t.transferring_requests ≡ member id s.transferring_requests
  pub delayed : member id t.delayed_releases ≡ member id s.delayed_releases

module _ {C : Type 0} (ops : LookupOps C) (s : Scheduler C) (finished preempted : List String)
    (id : String) (safe : member id preempted ≡ false) where
  publish-IsDelivered : IsDelivered id finished s (publish ops s finished preempted).0
  unfolding publish
  publish-IsDelivered = record {
    loads = keep_if-keep_if (λ load. load.request_id) preempted id s.batch_pool_loads safe;
    sources =
        keep_if-keep_if (λ source. source.request_id) preempted id s.batch_transfer_state safe;
    plans = λ h.
        keep_if-keep_if (λ plan. plan.request_id) (update finished preempted) id s.batch_transfers
          (ground (arith, h, safe, member-update id finished preempted));
    waits = rw (get-remove_all s.finished_waits preempted id, safe);
  }

  publish-IsKept : IsKept id s (publish ops s finished preempted).1
  unfolding publish
  publish-IsKept = record {
    traces = rw (get-remove_all s.load_traces preempted id, safe);
    transferring = rw (member-difference id s.transferring_requests preempted, safe);
    delayed = rw (member-difference id s.delayed_releases preempted, safe);
  }

-- The loads and sources that the metadata of a step has of a request that is not preempted are those
-- that were queued for it, unchanged and in their order; so are its plans unless it has finished, and
-- its release dependency. Its trace, its mark as transferring and its delayed release stay known.
pub build_connector_meta-IsDelivered :
    {C : Type 0} (ops : LookupOps C) (requests : String → Request) (s : Scheduler C)
    (output : SchedulerOutput) (r : MtscConnectorMetadata × Scheduler C)
    → build_connector_meta ops requests s output ≡ ok r
    → (id : String) → member id (preempted_ids output) ≡ false
    → IsDelivered id output.finished_req_ids s r.0 × IsKept id s r.1
unfolding build_connector_meta
build_connector_meta-IsDelivered ops requests s output r h id safe =
    let (s', planned, e) = >>=-eq-ok (plan_saves requests output s) _ h in
    let same = plan_saves-Same requests output s s' planned in
    let d = publish-IsDelivered ops s' output.finished_req_ids (preempted_ids output) id safe in
    let k = publish-IsKept ops s' output.finished_req_ids (preempted_ids output) id safe in
    subst (λ p. IsDelivered id output.finished_req_ids s p.0 × IsKept id s p.1) (ok-injective e)
      (
        record {
          loads = d.loads ∙ ap (λ q. keep_if (λ load. load.request_id == id) q) same.loads;
          sources =
              d.sources ∙ ap (λ q. keep_if (λ source. source.request_id == id) q) same.sources;
          plans = λ f. d.plans f ∙ ap (λ q. keep_if (λ plan. plan.request_id == id) q) same.plans;
          waits = d.waits ∙ ap (λ q. get q id) same.waits;
        },
        record {
          traces = k.traces ∙ ap (λ q. get q id) same.traces;
          transferring = k.transferring ∙ ap (λ q. member id q) same.transferring;
          delayed = k.delayed ∙ ap (λ q. member id q) same.delayed;
        },
      )
