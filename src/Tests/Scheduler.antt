-- ===== src/Tests/Scheduler.antt =====
-- Tests of mtsc/scheduler.py.
use mtsc.Scheduler.Lifecycle.{build_connector_meta-request_finished}
use mtsc.Scheduler.TwoStage.{allocate-get_num_new_matched_tokens, IsTwoStage}
use mtsc.Scheduler.Release.Delay.{update_connector_output-IsReleased, IsReleased}
use mtsc.Scheduler.Publication.Delivery.{build_connector_meta-IsDelivered, IsKept, IsDelivered}
use mtsc.Scheduler.Admission.Decisions.{LookedUp, get_num_new_matched_tokens-Answers, Answers}
use mtsc.Scheduler.Release.{update_connector_output, request_finished}
use mtsc.Tests.Data.{
  pulling, prefix_laws, both_roles, value_or, tracked_p, running, prefix_ops, prefilled, one_step,
  object_of, no_metadata,
}
use mtsc.Scheduler.Admission.{
  validate_transfer_params, target_of, Admitted, get_num_new_matched_tokens,
}
use mtsc.Scheduler.Saves.{SchedulerOutput, plan_saves, build_save_meta}
use mtsc.Scheduler.Publication.{build_connector_meta}
use mtsc.Scheduler.Allocation.{KvCacheBlocks, allocate}
use mtsc.Common.{
  List, int_eq, ◌||◌, ℤ, true, some, pos, none, ap, Option, Bool, nat_eq, string_eq, ◌≡◌, ◌∷◌, ℕ,
  update, to_text, remove, refl, put, ok, member, map, is_blank, get, false, difference, add, [],
}
use mtsc.Scheduler.Saves.Ranges.{plans_save, allocated_again, EntryStep}
use mtsc.Scheduler.State.{flat, set_param, init, groups, Scheduler}
use mtsc.Protocol.{FinishedWait, BlockIds, MtscConnectorMetadata, KvPoolSaveRequest}
use mtsc.Scheduler.Publication.Fence.{build_connector_meta-IsFenced, IsUnpublished, IsForgotten}

abbrev after_step : MtscConnectorMetadata × Scheduler ℕ
after_step =
    value_or (no_metadata, running) (build_connector_meta prefix_ops object_of running one_step)

-- The computations that the tests run.
program : Unit {0}
unfolding validate_transfer_params target_of init build_connector_meta plan_saves build_save_meta
    request_finished update_connector_output get_num_new_matched_tokens allocate get put remove
    member add update difference groups set_param to_text is_blank
program = tt

one_save :
    map {B = ℕ × ℕ}
      (λ (save : KvPoolSaveRequest). (save.start_token, save.end_token))
      after_step.0.pool_saves
    ≡ (0, 32) ∷ []
unfolding program
one_save = refl

-- Two steps, a preemption, and a step after the next allocation.
abbrev life_of_p : List EntryStep
life_of_p =
    plans_save prefilled 20
    ∷ plans_save prefilled 40
    ∷ allocated_again tracked_p
    ∷ plans_save prefilled 40
    ∷ []

step_done : build_connector_meta prefix_ops object_of running one_step ≡ ok after_step
unfolding program
step_done = refl

build_connector_meta-IsFenced_example :
    IsUnpublished "q" after_step.0 × IsForgotten "q" after_step.1
build_connector_meta-IsFenced_example =
    (build_connector_meta-IsFenced prefix_ops object_of running one_step after_step step_done).0 "q"
      (unfold member in refl)

build_connector_meta-IsDelivered_example :
    IsDelivered "p" [] running after_step.0 × IsKept "p" running after_step.1
build_connector_meta-IsDelivered_example =
    build_connector_meta-IsDelivered prefix_ops object_of running one_step after_step step_done "p"
      (unfold member in refl)

abbrev blocks_p : BlockIds
blocks_p = (pos 3 ∷ pos 4 ∷ pos 5 ∷ []) ∷ []

-- "p" has been saved, and finishes.
abbrev finished_p : Scheduler ℕ
finished_p = (request_finished after_step.1 prefilled blocks_p).1

abbrev idle_step : SchedulerOutput
idle_step = record one_step { cached = []; preempted_req_ids = none }

abbrev published : MtscConnectorMetadata × Scheduler ℕ
published =
    value_or (no_metadata, running) (build_connector_meta prefix_ops object_of finished_p idle_step)

build_connector_meta-request_finished_example :
    ((w : FinishedWait) × (get published.0.finished_waits "p" ≡ some w)
      × (w.store_save || w.kv_transfer ≡ true))
    × (member "p" published.1.delayed_releases ≡ true)
    × (published.1.finished_waits ≡ [])
unfolding program
build_connector_meta-request_finished_example =
    build_connector_meta-request_finished prefix_ops object_of after_step.1 prefilled blocks_p
      idle_step published refl refl refl

update_connector_output-IsReleased_example :
    IsReleased (update_connector_output published.1 none (some ("p" ∷ []))) "p"
    × (member "p" (update_connector_output published.1 none (some ("p" ∷ []))).delayed_releases
        ≡ false)
    × (get (update_connector_output published.1 none (some ("p" ∷ []))).finished_waits "p" ≡ none)
unfolding member
update_connector_output-IsReleased_example =
    (update_connector_output-IsReleased published.1 none (some ("p" ∷ [])) "p").0 refl

-- 16 of the 40 tokens are computed, the Store has 32.
abbrev admitted : Admitted ℕ
admitted =
    value_or ((none, false), pulling, running)
      (get_num_new_matched_tokens prefix_ops (init both_roles 32) pulling 16)

get_num_new_matched_tokens-Answers_example :
    Answers prefix_ops
      (init both_roles 32)
      admitted.1
      16
      (target_of both_roles admitted.1)
      (admitted.0, admitted.2)
unfolding program
get_num_new_matched_tokens-Answers_example =
    get_num_new_matched_tokens-Answers prefix_ops prefix_laws (init both_roles 32) pulling 16
      admitted tt refl

abbrev blocks_d : KvCacheBlocks
blocks_d = record {
  block_ids = (pos 1 ∷ pos 2 ∷ pos 3 ∷ []) ∷ [];
  unhashed_block_ids = flat (pos 2 ∷ pos 3 ∷ []);
}

answer : admitted.0 ≡ (some (pos 24), true)
unfolding program
answer = refl

allocate-get_num_new_matched_tokens_example :
    (hit : ℕ) × LookedUp prefix_ops
      (init both_roles 32)
      admitted.1
      (target_of both_roles admitted.1)
      (some hit)
    × IsTwoStage admitted.2
        (allocate admitted.2 admitted.1 blocks_d).1
        admitted.1
        blocks_d
        16
        (target_of both_roles admitted.1)
        hit
unfolding program
allocate-get_num_new_matched_tokens_example =
    allocate-get_num_new_matched_tokens prefix_ops prefix_laws (init both_roles 32) pulling 16
      admitted blocks_d tt refl (λ e. cc (ap (λ (a : (Option ℤ) × Bool). a.0) answer, e)) refl
