-- ===== src/Tests/Worker.antt =====
-- Tests of mtsc/worker.py.
use mtsc.Tests.Data.{no_metadata}
use mtsc.Worker.Finished.Released.{get_finished-handle_preemptions, aggregate_send_finished-safe}
use mtsc.Worker.Finished.Saving.{IsSettled}
use mtsc.Worker.Finished.Waits.{round, aggregate_send_finished_lem}
use mtsc.Worker.Finished.{
  handle_preemptions, get_finished, Clock, split_finished, aggregate_send_finished,
}
use mtsc.Worker.State.{Polled, is_finished, Worker}
use mtsc.Common.{
  value_error, ℕ, raise, String, Result, some, none, arith, modify, nat_eq, string_eq, ◌≡◌, ◌∷◌,
  true, remove, refl, put, member, get, false, [], Unique,
}
use mtsc.Protocol.{FinishedWait}

abbrev both : FinishedWait
both = record { store_save = true; kv_transfer = true }

abbrev waiting : Worker
waiting = record {
  calls = [];
  on_load_requests = [];
  on_save_requests = [];
  on_transfer = [];
  finished_waits =
      ("a", record { wait_for = both; pool_save_done = false; kv_transfer_done = false })
      ∷ ("b", record { wait_for = both; pool_save_done = true; kv_transfer_done = false })
      ∷ [];
  load_errors = [];
  worker_rank = 0;
  completed_load_reports = [];
}

waiting-Unique : Unique waiting.finished_waits
unfolding get
waiting-Unique = (refl, (refl, tt))

-- "b" has been saved before and is sent now; "a" is only saved.
two_done : (aggregate_send_finished waiting ("a" ∷ []) ("b" ∷ [])).1 ≡ "b" ∷ []
unfolding aggregate_send_finished get put remove member modify split_finished is_finished
two_done = refl

aggregate_send_finished_lem_example :
    (
      member "b" (aggregate_send_finished waiting ("a" ∷ []) ("b" ∷ [])).1,
      get (aggregate_send_finished waiting ("a" ∷ []) ("b" ∷ [])).0.finished_waits "b",
    )
    ≡ round ("a" ∷ []) ("b" ∷ []) "b" (get waiting.finished_waits "b")
aggregate_send_finished_lem_example =
    aggregate_send_finished_lem waiting ("a" ∷ []) ("b" ∷ []) "b" waiting-Unique

-- Every wait of the worker agrees with its saves: none is in flight.
waiting-IsSettled : IsSettled waiting
unfolding get
waiting-IsSettled = record { unique = waiting-Unique; agreed = λ id. ground arith }

abbrev one_result : Polled
one_result = record {
  loads = [];
  saves = record { request_id = "a"; error = none } ∷ [];
  pool_errors = [];
  recvs = [];
  sends = record { request_id = "b"; error = none } ∷ [];
  transfer_errors = [];
}

abbrev three_readings : Clock
three_readings = record { loads_at = 1; starts_at = 2; ends_at = 3 }

-- A reader of numbers that takes no text.
abbrev no_int : String → Result ℕ
no_int text = raise (value_error text)

get_finished-handle_preemptions_example :
    IsSettled
      (get_finished no_int three_readings
        (handle_preemptions waiting no_metadata)
        no_metadata
        one_result).0
get_finished-handle_preemptions_example =
    get_finished-handle_preemptions no_int three_readings waiting no_metadata one_result
      waiting-IsSettled

b_reported : member "b" (aggregate_send_finished waiting [] ("b" ∷ [])).1 ≡ true
unfolding aggregate_send_finished get put remove member modify split_finished is_finished
b_reported = refl

b_waits :
    get waiting.finished_waits "b"
    ≡ some (record { wait_for = both; pool_save_done = true; kv_transfer_done = false })
unfolding get
b_waits = refl

aggregate_send_finished-safe_example :
    get (aggregate_send_finished waiting [] ("b" ∷ [])).0.on_save_requests "b" ≡ none
aggregate_send_finished-safe_example =
    aggregate_send_finished-safe waiting [] ("b" ∷ []) "b" waiting-IsSettled b_waits refl b_reported
