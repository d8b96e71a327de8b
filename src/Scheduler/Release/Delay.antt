-- ===== src/Scheduler/Release/Delay.antt =====
-- When the blocks of a finished request must wait, and how the wait ends.
use mtsc.Scheduler.Release.{
  update_connector_output, completed_ids, request_finished, is_source, has_blocks,
}
use mtsc.Common.{
  Bool, member-difference, get-remove_all, Option, List, member-add, get-put, member-discard,
  get-remove, arith, ==_refl, nat_eq, string_eq, ◌⊎◌, ◌≡◌, ◌||◌, ◌&&◌, true, some, not, none,
  member, get, false, String,
}
use mtsc.Scheduler.State.{Scheduler, Request}
use mtsc.Protocol.{MtscWorkerMetadata, KvTransferSourceState, FinishedWait, BlockIds}

-- The blocks are read by a save or by a decode worker that pulls them.
abbrev pub MustWait : {C : Type 0} → Scheduler C → Request → BlockIds → Type 0
MustWait s r block_ids =
    (has_blocks block_ids ≡ true)
    × ((member r.request_id s.saving_requests ≡ true)
        ⊎ ((is_source s r ≡ true) × (r.finished_length_capped ≡ true)))

-- What the state holds for a request whose blocks wait.
pub record IsWaiting {C : Type 0} (s t : Scheduler C) (r : Request) : Type 0 where
  pub delayed : member r.request_id t.delayed_releases ≡ true
  pub tracked : t.tracked_requests ≡ s.tracked_requests
  pub wait :
      (w : FinishedWait) × (get t.finished_waits r.request_id ≡ some w)
      × (w.store_save || w.kv_transfer ≡ true)
      × (w.store_save ≡ true → member r.request_id s.saving_requests ≡ true)

-- What the state has lost of a request whose blocks are free: its tracked entry, its load trace and its
-- marks as saving and as transferring.
pub record IsReleased {C : Type 0} (t : Scheduler C) (id : String) : Type 0 where
  pub tracked : get t.tracked_requests id ≡ none
  pub traces : get t.load_traces id ≡ none
  pub saving : member id t.saving_requests ≡ false
  pub transferring : member id t.transferring_requests ≡ false

module _ {C : Type 0} (s : Scheduler C) (r : Request) (block_ids : BlockIds) where
  pub request_finished-MustWait :
      ((request_finished s r block_ids).0 ≡ true
        → MustWait s r block_ids × IsWaiting s (request_finished s r block_ids).1 r)
      × ((request_finished s r block_ids).0 ≡ false
          → (¬ MustWait s r block_ids) × IsReleased (request_finished s r block_ids).1 r.request_id)
  unfolding request_finished
  request_finished-MustWait = (
    λ d. (
      ground arith,
      record {
        delayed =
            ground (
              arith,
              member-add r.request_id r.request_id s.delayed_releases,
              ==_refl r.request_id,
            );
        tracked = ground arith;
        wait = (
          record {
            store_save = member r.request_id s.saving_requests && has_blocks block_ids;
            kv_transfer = is_source s r && (r.finished_length_capped && has_blocks block_ids);
          },
          ground (
            arith,
            get-put s.finished_waits r.request_id r.request_id (record {
              store_save = member r.request_id s.saving_requests && has_blocks block_ids;
              kv_transfer = is_source s r && (r.finished_length_capped && has_blocks block_ids);
            }),
            ==_refl r.request_id,
          ),
          ground arith,
          λ h. ground arith,
        );
      },
    ),
    λ d. (
      (λ m. ground arith),
      record {
        tracked =
            ground (
              arith,
              get-remove s.tracked_requests r.request_id r.request_id,
              ==_refl r.request_id,
            );
        traces =
            ground
              (arith, get-remove s.load_traces r.request_id r.request_id, ==_refl r.request_id);
        saving = ground (
          arith,
          member-discard r.request_id r.request_id s.saving_requests,
          ==_refl r.request_id,
        );
        transferring = ground (
          arith,
          member-discard r.request_id r.request_id s.transferring_requests,
          ==_refl r.request_id,
        );
      },
    ),
  )

  -- What is said of the source of a prefill request that is finished.
  abbrev pub IsLastWord : Bool → KvTransferSourceState → Type 0
  IsLastWord delayed source =
      (source.request_id ≡ r.request_id)
      × (source.cancelled ≡ not source.ready)
      × (source.ready ≡ (r.finished_length_capped && has_blocks block_ids))
      × (source.ready ≡ true → (source.source_block_ids ≡ block_ids) × (delayed ≡ true))

module _ {C : Type 0} (s : Scheduler C) (metadata : Option MtscWorkerMetadata)
    (finished_sending : Option (List String)) (id : String) where
  -- When the workers report that they have finished sending, the request and its delay are
  -- forgotten; the blocks of any other request stay delayed and the request stays tracked.
  pub update_connector_output-IsReleased :
      (member id (completed_ids finished_sending) ≡ true
        → IsReleased (update_connector_output s metadata finished_sending) id
          × (member id (update_connector_output s metadata finished_sending).delayed_releases
              ≡ false)
          × (get (update_connector_output s metadata finished_sending).finished_waits id ≡ none))
      × (member id (completed_ids finished_sending) ≡ false
          → (member id (update_connector_output s metadata finished_sending).delayed_releases
              ≡ member id s.delayed_releases)
            × (get (update_connector_output s metadata finished_sending).tracked_requests id
                ≡ get s.tracked_requests id)
            × (member id (update_connector_output s metadata finished_sending).saving_requests
                ≡ member id s.saving_requests))
  unfolding update_connector_output
  update_connector_output-IsReleased = (
    λ h. (
      record {
        tracked = rw (get-remove_all s.tracked_requests (completed_ids finished_sending) id, h);
        traces = rw (get-remove_all _ (completed_ids finished_sending) id, h);
        saving = rw (member-difference id s.saving_requests (completed_ids finished_sending), h);
        transferring =
            rw (member-difference id s.transferring_requests (completed_ids finished_sending), h);
      },
      rw (member-difference id s.delayed_releases (completed_ids finished_sending), h),
      rw (get-remove_all s.finished_waits (completed_ids finished_sending) id, h),
    ),
    λ h. (
      rw (member-difference id s.delayed_releases (completed_ids finished_sending), h),
      rw (get-remove_all s.tracked_requests (completed_ids finished_sending) id, h),
      rw (member-difference id s.saving_requests (completed_ids finished_sending), h),
    ),
  )
