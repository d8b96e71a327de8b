-- ===== src/Transfer/Receiver.antt =====
-- mtsc/kv_transfer.py: the pulls of a decode worker. Each function is what runs on the receiver's
-- event loop between two waits.
pub mod Counts
pub mod Progress
pub mod Collect
use mtsc.Worker.State.{RecvEvent}
use mtsc.Common.{
  ◌>>◌, ◌>>=◌, nat_eq, string_eq, ◌∷◌, ◌==◌, ◌-◌, ◌++◌, ◌&&◌, ℕ, values, value_error, update, true,
  some, runtime_error, raise, put, or_else, ok, not, none, modify, member, map, length, keys,
  key_error, if◌then◌else◌, guard, get, false, difference, add, [], String, Result, Option, List,
  Dict, Bool,
}
use mtsc.Protocol.{finish, error, continue, KvTransferStatus, KvTransferResponse, BlockIds}

pub record PullReqMeta : Type 0 where
  pub d_req_id : String
  pub transfer_id : String
  pub local_block_ids : BlockIds
  pub remote_engine_id : String
  pub remote_bootstrap_addr : String
  pub pull_tasks_count : ℕ

-- A future is known by whether it is done.
pub record ReceiverState : Type 0 where
  pub recv_events : Dict String RecvEvent
  pub receive_futures : Dict String Bool
  pub failed_recv : List String
  pub finished_recving_reqs : List String
  pub retired_recvs : List String
  pub invalid : Dict String (List ℕ)
  pub receive_error : Option String

unfoldable pub check_receive_error : ReceiverState → Result (Unit {0})
check_receive_error s = elim s.receive_error [
  | none ↦ ok tt
  | some lost ↦ raise (runtime_error lost)
]

-- The checks of `_start_receive`, which count what the events before have brought.
unfoldable pub check_events : List String → List String → List RecvEvent → Result (Unit {0})
check_events request_ids transfer_ids [] = ok tt
check_events request_ids transfer_ids (event ∷ events) = do
  let rest =
      check_events (add request_ids event.request_id) (add transfer_ids event.transfer_id) events
  guard (not (member event.request_id request_ids))
      (value_error "Uncollected recv or block errors for request")
  guard (not (member event.transfer_id transfer_ids))
      (value_error "Transfer attempt is retired or duplicated")
  rest

new_pull : RecvEvent → PullReqMeta
new_pull event = record {
  d_req_id = event.request_id;
  transfer_id = event.transfer_id;
  local_block_ids = event.block_ids;
  remote_engine_id = event.remote_engine_id;
  remote_bootstrap_addr = event.bootstrap_addr;
  pull_tasks_count = 0;
}

abbrev pub Pulls : Type 0
Pulls = Dict String PullReqMeta

-- reqs_to_recv[event.remote_engine_id][event.request_id] = PullReqMeta(...)
unfoldable pub add_pull : Dict String Pulls → RecvEvent → Dict String Pulls
unfolding new_pull
add_pull reqs_to_recv event =
    put reqs_to_recv event.remote_engine_id
      (put (or_else (get reqs_to_recv event.remote_engine_id) []) event.request_id (new_pull event))

unfoldable pub add_events :
    ReceiverState → Dict String Pulls → List RecvEvent → Dict String Pulls × ReceiverState
unfolding add_pull
add_events s reqs_to_recv [] = (reqs_to_recv, s)
add_events s reqs_to_recv (event ∷ events) =
    add_events
      (record s {
        receive_futures = put s.receive_futures event.request_id false;
        recv_events = put s.recv_events event.request_id event;
      })
      (add_pull reqs_to_recv event) events

unfoldable pub start_receive :
    ReceiverState → List RecvEvent → Result (Dict String Pulls × ReceiverState)
unfolding check_receive_error check_events add_events
start_receive s events = do
  check_receive_error s
  check_events (update (keys s.recv_events) (keys s.invalid))
      (update s.retired_recvs
        (map (λ (event : RecvEvent). event.transfer_id) (values s.recv_events)))
      events
  ok (add_events s [] events)

-- `future_id` is the request whose future is given, if it has one.
unfoldable pub finish_receive : ReceiverState → String → Bool → String → ReceiverState
finish_receive s request_id failed future_id = record s {
  failed_recv = if failed then add s.failed_recv request_id else s.failed_recv;
  finished_recving_reqs = add s.finished_recving_reqs request_id;
  receive_futures = modify s.receive_futures future_id (λ done. true);
}

-- receive_kv: as many answers are to come as there are prefill ranks.
unfoldable pub expect_answers : ℕ → Pulls → Pulls
expect_answers ranks [] = []
expect_answers ranks ((request_id, meta) ∷ metas) =
    (request_id, record meta { pull_tasks_count = ranks }) ∷ expect_answers ranks metas

-- The loop's state and the entries that the tasks of one pull share.
pub record PullState : Type 0 where
  pub loop : ReceiverState
  pub metas : Pulls

-- `pull_tasks_count -= 1`: the count is positive whenever a peer answers, see Receiver/Counts.
unfoldable pub answer_one : PullState → String → Result (Unit {0}) × PullState
unfolding finish_receive
answer_one p request_id = elim (get p.metas request_id) [
  | none ↦ (raise (key_error request_id), p)
  | some meta ↦
      let count = meta.pull_tasks_count in
      let metas = put p.metas request_id (record meta { pull_tasks_count = count - 1 }) in
      if count == 1
      then elim (get p.loop.recv_events request_id) [
        | none ↦ (raise (key_error request_id), record p { metas = metas })
        | some event ↦ (
          ok tt,
          record {
            loop =
                finish_receive p.loop event.request_id (member request_id p.loop.failed_recv)
                  request_id;
            metas = metas;
          },
        )
      ]
      else (ok tt, record p { metas = metas })
]

-- for request_id in [*ok_reqs, *err_reqs]
unfoldable pub answer_all : PullState → List String → Result (Unit {0}) × PullState
unfolding answer_one
answer_all p [] = (ok tt, p)
answer_all p (request_id ∷ request_ids) =
    let (outcome, p') = answer_one p request_id in
    let rest = answer_all p' request_ids in
    elim outcome [ ok done ↦ rest | raise problem ↦ (raise problem, p') ]

abbrev pub is_final : KvTransferStatus → Bool
is_final finish = true
is_final error = true
is_final continue = false

abbrev pub ok_of : KvTransferResponse → List String
ok_of response = or_else response.ok_reqs []

abbrev pub err_of : KvTransferResponse → List String → List String
err_of response remaining =
    if is_final response.status
    then difference remaining (ok_of response)
    else or_else response.err_reqs []

-- The answer of one peer, which still holds the requests `remaining`.
unfoldable pub process_pulling_result :
    KvTransferResponse → PullState → List String → Result (Unit {0}) × List String × PullState
unfolding answer_all
process_pulling_result response p remaining =
    let err_reqs = err_of response remaining in
    let (outcome, p') =
      answer_all
        (record p { loop = record p.loop { failed_recv = update p.loop.failed_recv err_reqs } })
        (ok_of response ++ err_reqs) in
    (
      outcome,
      elim outcome [
        | raise problem ↦ remaining
        | ok done ↦ difference (difference remaining (ok_of response)) err_reqs
      ],
      p',
    )

abbrev pub wake_all : Dict String Bool → Dict String Bool
wake_all [] = []
wake_all ((request_id, done) ∷ futures) = (request_id, true) ∷ wake_all futures

-- The exception handler of `receive_kv_from_single_worker`.
unfoldable pub lose_peer : Bool → String → PullState → List String → PullState
unfolding process_pulling_result
lose_peer published lost p remaining =
    if published && not (length remaining == 0)
    then record p {
      loop = record p.loop {
        receive_error = elim p.loop.receive_error [ none ↦ some lost | some before ↦ some before ];
        receive_futures = wake_all p.loop.receive_futures;
      };
    }
    else (process_pulling_result
        (record { status = error; ok_reqs = none; err_reqs = none; err_msg = some lost }) p
        remaining).2
