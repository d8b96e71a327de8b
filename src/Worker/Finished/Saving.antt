-- ===== src/Worker/Finished/Saving.antt =====
-- mtsc/worker.py: a release dependency that counts its save as done has no save in flight.
use mtsc.Worker.Finished.Waits.{
  member-split_finished, mark_sent-Unique, mark_saved-Unique, aggregate_send_finished_lem,
}
use mtsc.Worker.Finished.{
  add_waits, submit_saves, split_finished, preempt_all, mark_sent, mark_saved,
  aggregate_send_finished,
}
use mtsc.Protocol.{FinishedWait, KvPoolSaveRequest}
use mtsc.Worker.State.{Worker, FinishedWaitState}
use mtsc.Common.{
  set_default-Unique, set_default, has, get-set_default, nat_eq, string_eq, ◌≡◌, ◌∷◌, ◌||◌, ℕ, true,
  some, remove-Unique, remove, not, none, modify-Unique, modify, member, is_some, if◌then◌else◌,
  get-remove, get-put, get-modify, get, false, arith, [], Unique, String, Option, List, Dict, Bool,
}

-- A wait whose save is done stands beside no save in flight.
abbrev pub agrees : Option FinishedWaitState → Option KvPoolSaveRequest → Bool
agrees none in_flight = true
agrees (some state) in_flight = not state.pool_save_done || not (is_some in_flight)

pub record IsSettled (w : Worker) : Type 0 where
  pub unique : Unique w.finished_waits
  pub agreed : (id : String) → agrees (get w.finished_waits id) (get w.on_save_requests id) ≡ true

get-mark_saved-saves :
    (ids : List String) (w : Worker) (j : String)
    → get (mark_saved w ids).on_save_requests j
      ≡ (if member j ids then none else get w.on_save_requests j)
unfolding mark_saved member
get-mark_saved-saves [] w j = ground arith
get-mark_saved-saves (id ∷ ids) w j = ground (
  arith,
  get-mark_saved-saves ids
      (record w {
        on_save_requests = remove w.on_save_requests id;
        finished_waits =
            modify w.finished_waits id (λ state. record state { pool_save_done = true });
      })
      j,
  get-remove w.on_save_requests id j,
)

pub aggregate_send_finished-saves :
    (w : Worker) (saved sent : List String) (j : String)
    → get (aggregate_send_finished w saved sent).0.on_save_requests j
      ≡ (if member j saved then none else get w.on_save_requests j)
unfolding aggregate_send_finished
aggregate_send_finished-saves w saved sent j = get-mark_saved-saves saved w j

split_finished-Unique :
    (waits : Dict String FinishedWaitState) → Unique waits → Unique (split_finished waits).1
unfolding split_finished
split_finished-Unique [] u = tt
split_finished-Unique ((id, state) ∷ waits) u =
    ground (arith, split_finished-Unique waits u.1, member-split_finished waits id u.1, u.0)

pub aggregate_send_finished-IsSettled :
    (w : Worker) (saved sent : List String)
    → IsSettled w
    → IsSettled (aggregate_send_finished w saved sent).0
unfolding aggregate_send_finished
aggregate_send_finished-IsSettled w saved sent settled = record {
  unique = split_finished-Unique (mark_sent (mark_saved w saved).finished_waits sent) (
      mark_sent-Unique sent (mark_saved w saved).finished_waits
        (mark_saved-Unique saved w settled.unique));
  agreed = λ id. ground (
    arith,
    settled.agreed id,
    aggregate_send_finished_lem w saved sent id settled.unique,
    aggregate_send_finished-saves w saved sent id,
  );
}

pub submit_saves-IsSettled :
    (saves : List KvPoolSaveRequest) (now : ℕ) (w : Worker)
    → IsSettled w
    → IsSettled (submit_saves now w saves)
unfolding submit_saves
submit_saves-IsSettled [] now w settled = settled
submit_saves-IsSettled (save ∷ saves) now w settled = submit_saves-IsSettled saves now _ (record {
  unique = modify-Unique w.finished_waits save.request_id _ settled.unique;
  agreed = λ id. ground (
    arith,
    settled.agreed id,
    get-modify w.finished_waits save.request_id id
        (λ state. record state { pool_save_done = false }),
    get-put w.on_save_requests save.request_id id save,
  );
})

pub preempt_all-IsSettled :
    (ids : List String) (w : Worker) → IsSettled w → IsSettled (preempt_all w ids)
unfolding preempt_all
preempt_all-IsSettled [] w settled = settled
preempt_all-IsSettled (id ∷ ids) w settled = preempt_all-IsSettled ids _ (record {
  unique = remove-Unique w.finished_waits id settled.unique;
  agreed = λ j. ground (
    arith,
    settled.agreed j,
    get-remove w.finished_waits id j,
    get-remove w.on_save_requests id j,
  );
})

pub add_waits-IsSettled :
    (entries : Dict String FinishedWait) (w : Worker)
    → IsSettled w
    → IsSettled
        (record w { finished_waits = add_waits w.on_save_requests w.finished_waits entries })
unfolding add_waits
add_waits-IsSettled [] w settled = settled
add_waits-IsSettled ((id, wait) ∷ entries) w settled =
    let fresh : FinishedWaitState = record {
      wait_for = wait;
      pool_save_done = not (has w.on_save_requests id);
      kv_transfer_done = false;
    } in
    add_waits-IsSettled entries
      (record w { finished_waits = set_default w.finished_waits id fresh })
      (record {
        unique = set_default-Unique w.finished_waits id fresh settled.unique;
        agreed = λ j. ground (
          arith,
          settled.agreed j,
          string_eq.beq_iff id j,
          get-set_default w.finished_waits id j fresh,
        );
      })
