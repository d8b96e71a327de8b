-- ===== src/Scheduler/Publication/Fence.antt =====
-- What `build_connector_meta` does to preempted requests: nothing of theirs is published and
-- nothing is remembered.
use mtsc.Common.{
  ◌≡◌, refl, String, true, false, none, List, [], map, arith, get, has, ok, subst, >>=-eq-ok,
  ok-injective, member, update, string_eq, member-keep_if, member-update, member-difference,
  get-remove_all,
}
use mtsc.Protocol.{MtscConnectorMetadata}
use mtsc.Scheduler.State.{Request, Scheduler, LookupOps}
use mtsc.Scheduler.Publication.{preempted_ids, build_connector_meta, publish}
use mtsc.Scheduler.Saves.{plan_saves, SchedulerOutput}

-- The metadata names the request nowhere but among the preempted and finished ones.
pub record IsUnpublished (id : String) (m : MtscConnectorMetadata) : Type 0 where
  pub loads : member id (map (λ load. load.request_id) m.pool_loads) ≡ false
  pub saves : member id (map (λ save. save.request_id) m.pool_saves) ≡ false
  pub plans : member id (map (λ plan. plan.request_id) m.transfer_plans) ≡ false
  pub sources : member id (map (λ source. source.request_id) m.transfer_states) ≡ false
  pub waits : has m.finished_waits id ≡ false

-- The scheduler has no entry for the request.
pub record IsForgotten {C : Type 0} (id : String) (s : Scheduler C) : Type 0 where
  pub tracked : get s.tracked_requests id ≡ none
  pub traces : get s.load_traces id ≡ none
  pub loads : get s.load_decisions id ≡ none
  pub transfers : get s.transfer_decisions id ≡ none
  pub waits : get s.finished_waits id ≡ none
  pub saving : member id s.saving_requests ≡ false
  pub transferring : member id s.transferring_requests ≡ false
  pub delayed : member id s.delayed_releases ≡ false

-- Nothing waits in the scheduler to be published.
pub record IsDrained {C : Type 0} (s : Scheduler C) : Type 0 where
  pub loads : s.batch_pool_loads ≡ []
  pub saves : s.batch_pool_saves ≡ []
  pub plans : s.batch_transfers ≡ []
  pub sources : s.batch_transfer_state ≡ []
  pub waits : s.finished_waits ≡ []

module _ {C : Type 0} (ops : LookupOps C) (s : Scheduler C) (finished preempted : List String) where
  module _ (id : String) (gone : member id preempted ≡ true) where
    publish-IsUnpublished : IsUnpublished id (publish ops s finished preempted).0
    unfolding publish
    publish-IsUnpublished = record {
      loads = rw (member-keep_if (λ load. load.request_id) preempted id s.batch_pool_loads, gone);
      saves = rw (member-keep_if (λ save. save.request_id) preempted id s.batch_pool_saves, gone);
      plans = ground (
        arith,
        member-keep_if (λ plan. plan.request_id) (update finished preempted) id s.batch_transfers,
        member-update id finished preempted,
      );
      sources =
          rw (
            member-keep_if (λ source. source.request_id) preempted id s.batch_transfer_state,
            gone,
          );
      waits = rw (get-remove_all s.finished_waits preempted id, gone);
    }

    publish-IsForgotten : IsForgotten id (publish ops s finished preempted).1
    unfolding publish
    publish-IsForgotten = record {
      tracked = rw (get-remove_all s.tracked_requests preempted id, gone);
      traces = rw (get-remove_all s.load_traces preempted id, gone);
      loads = ground (
        arith,
        get-remove_all s.load_decisions (update finished preempted) id,
        member-update id finished preempted,
      );
      transfers = ground (
        arith,
        get-remove_all s.transfer_decisions (update finished preempted) id,
        member-update id finished preempted,
      );
      waits = unfold get in refl;
      saving = rw (member-difference id s.saving_requests preempted, gone);
      transferring = rw (member-difference id s.transferring_requests preempted, gone);
      delayed = rw (member-difference id s.delayed_releases preempted, gone);
    }

  publish-IsDrained : IsDrained (publish ops s finished preempted).1
  unfolding publish
  publish-IsDrained = record {
    loads = refl;
    saves = refl;
    plans = refl;
    sources = refl;
    waits = refl;
  }

-- When the metadata of a step is built, a preempted request has nothing published and is
-- forgotten, and no operation is left for a later step to publish again.
pub build_connector_meta-IsFenced :
    {C : Type 0} (ops : LookupOps C) (requests : String → Request) (s : Scheduler C)
    (output : SchedulerOutput) (r : MtscConnectorMetadata × Scheduler C)
    → build_connector_meta ops requests s output ≡ ok r
    → ((id : String)
        → member id (preempted_ids output) ≡ true
        → IsUnpublished id r.0 × IsForgotten id r.1)
      × IsDrained r.1
unfolding build_connector_meta
build_connector_meta-IsFenced ops requests s output r h =
    let (s', planned, e) = >>=-eq-ok (plan_saves requests output s) _ h in
    subst
      (λ p.
        ((id : String)
          → member id (preempted_ids output) ≡ true
          → IsUnpublished id p.0 × IsForgotten id p.1)
        × IsDrained p.1)
      (ok-injective e)
      (
        (λ id gone. (
          publish-IsUnpublished ops s' output.finished_req_ids (preempted_ids output) id gone,
          publish-IsForgotten ops s' output.finished_req_ids (preempted_ids output) id gone,
        )),
        publish-IsDrained ops s' output.finished_req_ids (preempted_ids output),
      )
