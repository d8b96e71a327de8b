-- ===== src/Worker/Loads/Frame.antt =====
-- mtsc/worker.py: finishing loads leaves the release dependencies and the saves alone.
use mtsc.Worker.Loads.{
  receive_all, start_ready, finish_started, start_transfers, receive, finish_transfers,
  finish_transfer, finish_loads, finish_load, by_request, aggregate_recv_finished,
}
use mtsc.Worker.State.{RecvEvent, Worker, TransferResult, LoadResult}
use mtsc.Common.{
  ◌∙◌, raise, ok, Result, nat_eq, string_eq, ◌≡◌, ◌∷◌, ℕ, refl, get, arith, [], String, List, Dict,
}

-- The same waits and saves in flight.
abbrev pub Same : Worker → Worker → Type 0
Same w v = (v.finished_waits ≡ w.finished_waits) × (v.on_save_requests ≡ w.on_save_requests)

finish_loads-Same :
    (entries : Dict String LoadResult) (w : Worker) (finished : List String)
    → Same w (finish_loads (w, finished) entries).0
unfolding finish_loads finish_load
finish_loads-Same [] w finished = (refl, refl)
finish_loads-Same ((id, result) ∷ entries) w finished = ground (
  arith,
  finish_loads-Same entries (finish_load (w, finished) (id, result)).0
      (finish_load (w, finished) (id, result)).1,
)

finish_transfers-Same :
    (results : List TransferResult) (now : ℕ) (w : Worker) (finished : List String)
    → Same w (finish_transfers now (w, finished) results).0
unfolding finish_transfers finish_transfer
finish_transfers-Same [] now w finished = (refl, refl)
finish_transfers-Same (result ∷ results) now w finished =
    let found = get w.on_transfer result.request_id in
    ground (
      arith,
      finish_transfers-Same results now (finish_transfer now (w, finished) result found).0
          (finish_transfer now (w, finished) result found).1,
    )

receive_all-Same : (w : Worker) (events : Result (List RecvEvent)) → Same w (receive_all w events).0
unfolding receive_all receive
receive_all-Same w (raise problem) = (refl, refl)
receive_all-Same w (ok []) = (refl, refl)
receive_all-Same w (ok (event ∷ events)) = (refl, refl)

start_transfers-Same :
    (int_of_text : String → Result ℕ) (now : ℕ) (results : Dict String LoadResult) (w : Worker)
    → Same w (start_transfers int_of_text now results w).0
unfolding start_transfers
start_transfers-Same int_of_text now results w =
    let (states, events) = start_ready int_of_text now results w.on_transfer in
    receive_all-Same (record w { on_transfer = states }) events

finish_started-Same :
    (ends_at : ℕ) (finished : List String) (recvs : List TransferResult)
    (started : Worker × Result (Unit {0}))
    → Same started.0 (finish_started ends_at finished recvs started).0
unfolding finish_started
finish_started-Same ends_at finished recvs (w, raise problem) = (refl, refl)
finish_started-Same ends_at finished recvs (w, ok done) =
    finish_transfers-Same recvs ends_at w finished

pub aggregate_recv_finished-Same :
    (int_of_text : String → Result ℕ) (starts_at ends_at : ℕ) (w : Worker) (loads : List LoadResult)
    (recvs : List TransferResult)
    → Same w (aggregate_recv_finished int_of_text starts_at ends_at w loads recvs).0
unfolding aggregate_recv_finished
aggregate_recv_finished-Same int_of_text starts_at ends_at w loads recvs =
    let results = by_request loads in
    let (w', finished) = finish_loads (w, []) results in
    let started = start_transfers int_of_text starts_at results w' in
    let a = finish_loads-Same results w [] in
    let b = start_transfers-Same int_of_text starts_at results w' in
    let c = finish_started-Same ends_at finished recvs started in (c.0 ∙ b.0 ∙ a.0, c.1 ∙ b.1 ∙ a.1)
