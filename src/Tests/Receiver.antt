-- ===== src/Tests/Receiver.antt =====
-- Tests of the receiver and of the registry of mtsc/kv_transfer.py.
use mtsc.Transfer.Bootstrap.Agents.{worker_addresses-handshake_target_ranks, query, nothing}
use mtsc.Transfer.Regions.{upto, handshake_target_ranks}
use mtsc.Worker.State.{RecvEvent}
use mtsc.Transfer.Receiver.{process_pulling_result, lose_peer, err_of, PullState, PullReqMeta}
use mtsc.Protocol.{finish, KvTransferResponse}
use mtsc.Transfer.Receiver.Counts.{IsReceiving}
use mtsc.Transfer.Receiver.Collect.{lose_peer-IsBlocked, is_awaited, IsBlocked}
use mtsc.Transfer.Receiver.Progress.{
  process_pulling_result_lem, IsProcessed, IsCounted, Fits, Distinct,
}
use mtsc.Common.{
  nat_eq, string_eq, ◌≡◌, ◌∷◌, ◌++◌, ℕ, values, true, string_eq, some, refl, put, pos, ok, none,
  get, false, arith, [], String, List, Dict,
}
use mtsc.Transfer.Bootstrap.{
  worker_addresses, sorted, sort_in, register_addr, register, learn, is_single, entry_at,
  check_workers, WorkerRegistration, WorkerEntry, Addresses,
}

abbrev pull_event : RecvEvent
pull_event = record {
  request_id = "d";
  transfer_id = "t";
  block_ids = (pos 4 ∷ []) ∷ [];
  bootstrap_addr = "http://p:8998";
  remote_engine_id = "engine";
  remote_dp_rank = 0;
}

abbrev pull_meta : PullReqMeta
pull_meta = record {
  d_req_id = "d";
  transfer_id = "t";
  local_block_ids = (pos 4 ∷ []) ∷ [];
  remote_engine_id = "engine";
  remote_bootstrap_addr = "http://p:8998";
  pull_tasks_count = 2;
}

-- A request that two prefill ranks are asked for.
abbrev pulling : PullState
pulling = record {
  loop = record {
    recv_events = ("d", pull_event) ∷ [];
    receive_futures = ("d", false) ∷ [];
    failed_recv = [];
    finished_recving_reqs = [];
    retired_recvs = [];
    invalid = [];
    receive_error = none;
  };
  metas = ("d", pull_meta) ∷ [];
}

abbrev answer_ok : KvTransferResponse
answer_ok = record { status = finish; ok_reqs = some ("d" ∷ []); err_reqs = none; err_msg = none }

pulling-IsCounted : IsCounted pulling ([] ++ ("d" ∷ []) ∷ ("d" ∷ []) ∷ [])
unfolding get
pulling-IsCounted id = ground arith

pulling-IsReceiving : IsReceiving pulling
unfolding get
pulling-IsReceiving id positive =
    (pull_event, ground (arith, positive), ground (arith, positive, string_eq.beq_iff "d" id))

d-Distinct : Distinct ("d" ∷ [])
d-Distinct id = ground arith

answer_ok-Fits : Fits answer_ok ("d" ∷ [])
answer_ok-Fits id = ground arith

process_pulling_result_lem_example :
    let (outcome, remaining', p') = process_pulling_result answer_ok pulling ("d" ∷ []) in
    (outcome ≡ ok tt)
    × IsProcessed pulling
        ("d" ∷ [])
        (err_of answer_ok ("d" ∷ []))
        p'
        ([] ++ remaining' ∷ ("d" ∷ []) ∷ [])
process_pulling_result_lem_example =
    process_pulling_result_lem answer_ok pulling ("d" ∷ []) [] (("d" ∷ []) ∷ []) pulling-IsCounted
      pulling-IsReceiving d-Distinct answer_ok-Fits

lose_peer-IsBlocked_example :
    IsBlocked (lose_peer true "peer gone" pulling ("d" ∷ [])).loop "peer gone"
    × ((request_id : String)
        → is_awaited (lose_peer true "peer gone" pulling ("d" ∷ [])).loop request_id ≡ false)
lose_peer-IsBlocked_example = lose_peer-IsBlocked "peer gone" pulling ("d" ∷ []) (omega arith)

abbrev first_rank : WorkerRegistration
first_rank = record {
  engine_id = "engine";
  dp_rank = 0;
  tp_rank = 0;
  pp_rank = 0;
  addr = "tcp://p:1";
}

abbrev second_rank : WorkerRegistration
second_rank = record first_rank { tp_rank = 1; addr = "tcp://p:2" }

abbrev registered : Dict ℕ WorkerEntry
registered = (register (register [] second_rank).1 first_rank).1

abbrev known : Dict String Addresses
known = learn [] (values registered)

abbrev both_ranks : Addresses
both_ranks = (1, (0, "tcp://p:2") ∷ []) ∷ (0, (0, "tcp://p:1") ∷ []) ∷ []

engine_known : get known "engine" ≡ some both_ranks
unfolding get put register register_addr entry_at learn check_workers sorted sort_in upto is_single
engine_known = refl

named_ranks : handshake_target_ranks 0 1 2 ≡ ok (0 ∷ 1 ∷ [])
unfolding handshake_target_ranks upto
named_ranks = refl

worker_addresses-handshake_target_ranks_example :
    (addrs : List String) × (worker_addresses both_ranks (0 ∷ 1 ∷ []) ≡ ok addrs)
worker_addresses-handshake_target_ranks_example =
    worker_addresses-handshake_target_ranks known "engine" both_ranks 0 1 (0 ∷ 1 ∷ [])
      (query (values registered) nothing) engine_known (omega arith) named_ranks
