-- ===== src/Worker/Finished/Released.antt =====
-- mtsc/worker.py: the blocks of a request are not reported as free while a save reads them.
use mtsc.Worker.Loads.{aggregate_recv_finished}
use mtsc.Pool.Loads.Results.{reported}
use mtsc.Worker.Finished.Waits.{aggregate_send_finished_lem}
use mtsc.Worker.Loads.Frame.{aggregate_recv_finished-Same, Same}
use mtsc.Protocol.{KvPoolLoadRequest, MtscConnectorMetadata}
use mtsc.Common.{
  raise, ok, Result, ◌∷◌, ◌++◌, refl, put, [], nat_eq, string_eq, ◌≡◌, ℕ, true, sym, subst, some,
  none, member, get, arith, Unique, String, List,
}
use mtsc.Worker.Finished.Saving.{
  preempt_all-IsSettled, submit_saves-IsSettled, aggregate_send_finished-IsSettled,
  add_waits-IsSettled, aggregate_send_finished-saves, IsSettled,
}
use mtsc.Worker.State.{pool_load, Worker, Polled, FinishedWaitState}
use mtsc.Worker.Finished.{
  finish_received, handle_preemptions, submit_loads, add_waits, update_save_metadata,
  update_load_metadata, update_finished_metadata, publish_metadata, note_errors, get_finished,
  aggregate_send_finished, Clock,
}

Same-IsSettled : (w v : Worker) → Same w v → IsSettled w → IsSettled v
Same-IsSettled w v same settled = record {
  unique = subst Unique (sym same.0) settled.unique;
  agreed = λ id. ground (arith, same.0, same.1, settled.agreed id);
}

submit_loads-Same : (loads : List KvPoolLoadRequest) (w : Worker) → Same w (submit_loads w loads)
unfolding submit_loads
submit_loads-Same [] w = (refl, refl)
submit_loads-Same (load ∷ loads) w = submit_loads-Same loads (record w {
  calls =
      w.calls
      ++ pool_load (record {
        request_id = load.request_id;
        block_ids = load.block_ids;
        block_hashes = load.block_hashes;
        start_load = load.start_token;
        end_load = load.end_token;
      })
        ∷ [];
  on_load_requests = put w.on_load_requests load.request_id load;
})

update_load_metadata-Same :
    (now : ℕ) (w : Worker) (metadata : MtscConnectorMetadata)
    → Same w (update_load_metadata now w metadata)
unfolding update_load_metadata
update_load_metadata-Same now w metadata = submit_loads-Same metadata.pool_loads w

update_finished_metadata-IsSettled :
    (w : Worker) (metadata : MtscConnectorMetadata)
    → IsSettled w
    → IsSettled (update_finished_metadata w metadata)
unfolding update_finished_metadata
update_finished_metadata-IsSettled w metadata settled =
    Same-IsSettled
      (record w {
        finished_waits = add_waits w.on_save_requests w.finished_waits metadata.finished_waits;
      })
      _ (refl, refl) (add_waits-IsSettled metadata.finished_waits w settled)

publish_metadata-IsSettled :
    (now : ℕ) (w : Worker) (metadata : MtscConnectorMetadata)
    → IsSettled w
    → IsSettled (publish_metadata now w metadata)
unfolding publish_metadata update_save_metadata
publish_metadata-IsSettled now w metadata settled = update_finished_metadata-IsSettled _ metadata (
    submit_saves-IsSettled metadata.pool_saves now (update_load_metadata now w metadata)
      (Same-IsSettled w _ (update_load_metadata-Same now w metadata) settled))

finish_received-IsSettled :
    (polled : Polled) (received : Worker × Result (List String))
    → IsSettled received.0
    → IsSettled (finish_received polled received).0
unfolding finish_received
finish_received-IsSettled polled (w, raise problem) settled = settled
finish_received-IsSettled polled (w, ok received) settled =
    aggregate_send_finished-IsSettled _ _ _ settled

get_finished-IsSettled :
    (int_of_text : String → Result ℕ) (clock : Clock) (w : Worker)
    (metadata : MtscConnectorMetadata) (polled : Polled)
    → IsSettled w
    → IsSettled (get_finished int_of_text clock w metadata polled).0
unfolding get_finished note_errors
get_finished-IsSettled int_of_text clock w metadata polled settled =
    let noted = note_errors (publish_metadata clock.loads_at w metadata) polled in
    let received =
      aggregate_recv_finished int_of_text clock.starts_at clock.ends_at noted polled.loads
        polled.recvs in
    finish_received-IsSettled polled received (
      Same-IsSettled noted received.0
        (aggregate_recv_finished-Same int_of_text clock.starts_at clock.ends_at noted polled.loads
          polled.recvs)
        (Same-IsSettled (publish_metadata clock.loads_at w metadata) noted (refl, refl)
          (publish_metadata-IsSettled clock.loads_at w metadata settled)))

handle_preemptions-IsSettled :
    (w : Worker) (metadata : MtscConnectorMetadata)
    → IsSettled w
    → IsSettled (handle_preemptions w metadata)
unfolding handle_preemptions
handle_preemptions-IsSettled w metadata settled =
    preempt_all-IsSettled metadata.preempted_request_ids w settled

-- In a step of the worker, preemptions first, every release dependency whose save counts as done
-- keeps having no save in flight, whatever the metadata brings and both backends report, and also
-- where an exception ends the step as a transfer starts.
pub get_finished-handle_preemptions :
    (int_of_text : String → Result ℕ) (clock : Clock) (w : Worker)
    (metadata : MtscConnectorMetadata) (polled : Polled)
    → IsSettled w
    → IsSettled (get_finished int_of_text clock (handle_preemptions w metadata) metadata polled).0
get_finished-handle_preemptions int_of_text clock w metadata polled settled =
    get_finished-IsSettled int_of_text clock (handle_preemptions w metadata) metadata polled
      (handle_preemptions-IsSettled w metadata settled)

-- When every release dependency whose save counts as done has no save in flight, a request that is
-- reported as sent, and that was to wait for its save, has no save in flight any more.
pub aggregate_send_finished-safe :
    (w : Worker) (saved sent : List String) (id : String) {state : FinishedWaitState}
    → IsSettled w
    → get w.finished_waits id ≡ some state
    → state.wait_for.store_save ≡ true
    → member id (aggregate_send_finished w saved sent).1 ≡ true
    → get (aggregate_send_finished w saved sent).0.on_save_requests id ≡ none
aggregate_send_finished-safe w saved sent id settled found waits reported = ground (
  arith,
  found,
  waits,
  reported,
  settled.agreed id,
  aggregate_send_finished_lem w saved sent id settled.unique,
  aggregate_send_finished-saves w saved sent id,
)
