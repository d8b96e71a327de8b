-- ===== src/Scheduler/Saves/Frame.antt =====
-- What planning the saves of a step leaves alone.
use mtsc.Common.{
  nat_eq, string_eq, ◌∷◌, ◌∙◌, ◌||◌, ◌&&◌, subst, some, ok-injective, ok, not, none, member, map,
  inr, inl, get, [], Bool-cases, >>=-eq-ok, ℕ, List, Option, String, ◌≡◌, refl,
}
use mtsc.Scheduler.State.{Request, Scheduler, TrackedRequest}
use mtsc.Scheduler.Saves.{
  SchedulerOutput, NewRequest, CachedRequest, note_save, save_step, save_new, save_cached,
  save_all_new, save_all_cached, plan_saves, scheduled_tokens, append_blocks,
}
use mtsc.Protocol.{KvPoolSaveRequest}

-- Only the tracked requests, the saves of the step and the saving requests change.
pub record SameButSaves {C : Type 0} (s t : Scheduler C) : Type 0 where
  pub config : t.config ≡ s.config
  pub client : t.lookup_client ≡ s.lookup_client
  pub traces : t.load_traces ≡ s.load_traces
  pub number : t.next_load_id ≡ s.next_load_id
  pub transfer_decisions : t.transfer_decisions ≡ s.transfer_decisions
  pub load_decisions : t.load_decisions ≡ s.load_decisions
  pub loads : t.batch_pool_loads ≡ s.batch_pool_loads
  pub plans : t.batch_transfers ≡ s.batch_transfers
  pub sources : t.batch_transfer_state ≡ s.batch_transfer_state
  pub waits : t.finished_waits ≡ s.finished_waits
  pub transferring : t.transferring_requests ≡ s.transferring_requests
  pub delayed : t.delayed_releases ≡ s.delayed_releases

module _ {C : Type 0} where
  same : (s : Scheduler C) → SameButSaves s s
  same s = record {
    config = refl;
    client = refl;
    traces = refl;
    number = refl;
    transfer_decisions = refl;
    load_decisions = refl;
    loads = refl;
    plans = refl;
    sources = refl;
    waits = refl;
    transferring = refl;
    delayed = refl;
  }

  trans : {s t u : Scheduler C} → SameButSaves s t → SameButSaves t u → SameButSaves s u
  trans a b = record {
    config = b.config ∙ a.config;
    client = b.client ∙ a.client;
    traces = b.traces ∙ a.traces;
    number = b.number ∙ a.number;
    transfer_decisions = b.transfer_decisions ∙ a.transfer_decisions;
    load_decisions = b.load_decisions ∙ a.load_decisions;
    loads = b.loads ∙ a.loads;
    plans = b.plans ∙ a.plans;
    sources = b.sources ∙ a.sources;
    waits = b.waits ∙ a.waits;
    transferring = b.transferring ∙ a.transferring;
    delayed = b.delayed ∙ a.delayed;
  }

  note_save-Same :
      (s : Scheduler C) (key : String) (m : Option KvPoolSaveRequest × TrackedRequest)
      → SameButSaves s (note_save s key m)
  unfolding note_save
  note_save-Same s key (none, t) = record {
    config = refl;
    client = refl;
    traces = refl;
    number = refl;
    transfer_decisions = refl;
    load_decisions = refl;
    loads = refl;
    plans = refl;
    sources = refl;
    waits = refl;
    transferring = refl;
    delayed = refl;
  }
  note_save-Same s key (some save, t) = record {
    config = refl;
    client = refl;
    traces = refl;
    number = refl;
    transfer_decisions = refl;
    load_decisions = refl;
    loads = refl;
    plans = refl;
    sources = refl;
    waits = refl;
    transferring = refl;
    delayed = refl;
  }

  module _ (requests : String → Request) (output : SchedulerOutput) where
    save_step-Same :
        (s t : Scheduler C) (key : String) (tr : TrackedRequest) (computed : ℕ)
        → save_step requests output s key tr computed ≡ ok t
        → SameButSaves s t
    unfolding save_step
    save_step-Same s t key tr computed h =
        let (count, _, e) = >>=-eq-ok (scheduled_tokens output key) _ h in
        subst (SameButSaves s) (ok-injective e) (note_save-Same s key _)

    save_new-Same :
        (s t : Scheduler C) (req : NewRequest) (tr : Option TrackedRequest)
        → save_new requests output s req tr ≡ ok t
        → SameButSaves s t
    unfolding save_new
    save_new-Same s t req none h = subst (SameButSaves s) (ok-injective h) (same s)
    save_new-Same s t req (some tr) h =
        elim (Bool-cases (
          member req.req_id (map (λ load. load.request_id) s.batch_pool_loads)
          || (tr.is_decode && not s.decode_save))) [
            | inl skip ↦ subst (SameButSaves s) (ok-injective (rw (skip, save_new) at h)) (same s)
            | inr go ↦ save_step-Same s t _ _ _ (rw (go, save_new) at h)
          ]

    save_cached-Same :
        (s t : Scheduler C) (req : CachedRequest) (tr : Option TrackedRequest)
        → save_cached requests output s req tr ≡ ok t
        → SameButSaves s t
    unfolding save_cached
    save_cached-Same s t req none h = subst (SameButSaves s) (ok-injective h) (same s)
    save_cached-Same s t req (some tr) h = elim (Bool-cases (tr.is_decode && not s.decode_save)) [
      | inl skip ↦ subst (SameButSaves s) (ok-injective (rw (skip, save_cached) at h)) (same s)
      | inr go ↦
          let (tr', _, e) =
            >>=-eq-ok (append_blocks tr req.new_block_ids) _ (rw (go, save_cached) at h) in
          save_step-Same s t _ _ _ e
    ]

    save_all_new-Same :
        (s t : Scheduler C) (reqs : List NewRequest)
        → save_all_new requests output s reqs ≡ ok t
        → SameButSaves s t
    unfolding save_all_new
    save_all_new-Same s t [] h = subst (SameButSaves s) (ok-injective h) (same s)
    save_all_new-Same s t (req ∷ reqs) h =
        let (s', first, e) =
          >>=-eq-ok (save_new requests output s req (get s.tracked_requests req.req_id)) _ h in
        trans (save_new-Same s s' req _ first) (save_all_new-Same s' t reqs e)

    save_all_cached-Same :
        (s t : Scheduler C) (reqs : List CachedRequest)
        → save_all_cached requests output s reqs ≡ ok t
        → SameButSaves s t
    unfolding save_all_cached
    save_all_cached-Same s t [] h = subst (SameButSaves s) (ok-injective h) (same s)
    save_all_cached-Same s t (req ∷ reqs) h =
        let (s', first, e) =
          >>=-eq-ok (save_cached requests output s req (get s.tracked_requests req.req_id)) _ h in
        trans (save_cached-Same s s' req _ first) (save_all_cached-Same s' t reqs e)

    pub plan_saves-Same :
        (s t : Scheduler C) → plan_saves requests output s ≡ ok t → SameButSaves s t
    unfolding plan_saves
    plan_saves-Same s t h = elim (Bool-cases (s.is_producer || s.decode_save)) [
      | inl go ↦
          let (s', first, e) =
            >>=-eq-ok (save_all_new requests output s output.scheduled_new_reqs) _
              (rw (go, plan_saves) at h) in
          trans (save_all_new-Same s s' _ first) (save_all_cached-Same s' t _ e)
      | inr skip ↦ subst (SameButSaves s) (ok-injective (rw (skip, plan_saves) at h)) (same s)
    ]
