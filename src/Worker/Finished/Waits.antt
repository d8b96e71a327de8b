-- ===== src/Worker/Finished/Waits.antt =====
-- mtsc/worker.py: which release dependencies end in a round, exactly.
-- What a wait lacks is done before or in this round.
use mtsc.Worker.Finished.{split_finished, mark_sent, mark_saved, aggregate_send_finished}
use mtsc.Worker.State.{is_finished, Worker, FinishedWaitState}
use mtsc.Common.{
  nat_eq, string_eq, ◌≡◌, ◌∷◌, ◌||◌, ◌&&◌, true, string_eq, some, remove, refl, not, none,
  modify-Unique, modify, member, map_option, if◌then◌else◌, get-modify, get, false, arith, [],
  Unique, String, Option, List, Dict, Bool,
}

abbrev pub ends_now : List String → List String → String → FinishedWaitState → Bool
ends_now saved sent id state =
    (not state.wait_for.store_save || (state.pool_save_done || member id saved))
    && (not state.wait_for.kv_transfer || (state.kv_transfer_done || member id sent))

-- The wait after the results of a round.
abbrev pub after_round : List String → List String → String → FinishedWaitState → FinishedWaitState
after_round saved sent id state = record state {
  pool_save_done = state.pool_save_done || member id saved;
  kv_transfer_done = state.kv_transfer_done || member id sent;
}

saved_in : Bool → FinishedWaitState → FinishedWaitState
saved_in now state = record state { pool_save_done = state.pool_save_done || now }

sent_in : Bool → FinishedWaitState → FinishedWaitState
sent_in now state = record state { kv_transfer_done = state.kv_transfer_done || now }

get-mark_saved :
    (w : Worker) (ids : List String) (j : String)
    → get (mark_saved w ids).finished_waits j
      ≡ map_option (saved_in (member j ids)) (get w.finished_waits j)
unfolding mark_saved member saved_in
get-mark_saved w [] j = ground arith
get-mark_saved w (id ∷ ids) j = ground (
  arith,
  get-mark_saved
      (record w {
        on_save_requests = remove w.on_save_requests id;
        finished_waits =
            modify w.finished_waits id (λ state. record state { pool_save_done = true });
      })
      ids j,
  get-modify w.finished_waits id j (λ state. record state { pool_save_done = true }),
)

get-mark_sent :
    (waits : Dict String FinishedWaitState) (ids : List String) (j : String)
    → get (mark_sent waits ids) j ≡ map_option (sent_in (member j ids)) (get waits j)
unfolding mark_sent member sent_in
get-mark_sent waits [] j = ground arith
get-mark_sent waits (id ∷ ids) j = ground (
  arith,
  get-mark_sent (modify waits id (λ state. record state { kv_transfer_done = true })) ids j,
  get-modify waits id j (λ state. record state { kv_transfer_done = true }),
)

-- Over distinct keys a wait is among the finished ones exactly if its flags say so, and else stays.
abbrev pub is_done : Option FinishedWaitState → Bool
is_done none = false
is_done (some state) = is_finished state

pub member-split_finished :
    (waits : Dict String FinishedWaitState) (j : String)
    → Unique waits
    → (member j (split_finished waits).0 ≡ is_done (get waits j))
      × (get (split_finished waits).1 j ≡ (if is_done (get waits j) then none else get waits j))
unfolding split_finished member get
member-split_finished [] j u = (refl, refl)
member-split_finished ((id, state) ∷ waits) j u =
    ground (arith, member-split_finished waits j u.1, string_eq.beq_iff id j, u.0)

pub mark_saved-Unique :
    (ids : List String) (w : Worker)
    → Unique w.finished_waits
    → Unique (mark_saved w ids).finished_waits
unfolding mark_saved
mark_saved-Unique [] w u = u
mark_saved-Unique (id ∷ ids) w u = mark_saved-Unique ids _ (modify-Unique w.finished_waits id _ u)

pub mark_sent-Unique :
    (ids : List String) (waits : Dict String FinishedWaitState)
    → Unique waits
    → Unique (mark_sent waits ids)
unfolding mark_sent
mark_sent-Unique [] waits u = u
mark_sent-Unique (id ∷ ids) waits u = mark_sent-Unique ids _ (modify-Unique waits id _ u)

-- What a round does to the release dependency of a request.
abbrev pub round :
    List String → List String → String → Option FinishedWaitState → Bool × Option FinishedWaitState
round saved sent id none = (false, none)
round saved sent id (some state) =
    if ends_now saved sent id state
    then (true, none)
    else (false, some (after_round saved sent id state))

-- When a round of save and send results is aggregated, a request is reported as sent exactly if it
-- has a release dependency and all that this one waits for is done before or in this round. Its
-- dependency is then dropped; any other dependency stays, with the results of the round noted.
pub aggregate_send_finished_lem :
    (w : Worker) (saved sent : List String) (id : String)
    → Unique w.finished_waits
    → (
      member id (aggregate_send_finished w saved sent).1,
      get (aggregate_send_finished w saved sent).0.finished_waits id,
    )
      ≡ round saved sent id (get w.finished_waits id)
unfolding aggregate_send_finished saved_in sent_in is_finished
aggregate_send_finished_lem w saved sent id u = ground (
  arith,
  member-split_finished (mark_sent (mark_saved w saved).finished_waits sent) id
      (mark_sent-Unique sent (mark_saved w saved).finished_waits (mark_saved-Unique saved w u)),
  get-mark_sent (mark_saved w saved).finished_waits sent id,
  get-mark_saved w saved id,
)
