-- ===== src/Transfer/Bootstrap.antt =====
-- mtsc/kv_transfer.py: the registry of prefill workers, and what a decode worker learns from it. The
-- JSON between them carries the registry as it is; ranks count from 0.
pub mod Laws
pub mod Agents
use mtsc.Transfer.Regions.{upto}
use mtsc.Common.{
  ◌>>=◌, ◌>>◌, list_eq, nat_eq, string_eq, ◌∷◌, ◌==◌, ◌&&◌, ℕ, zero, values, value_error, suc, some,
  raise, put, or_else, ok, not, none, length, leb, keys, key_error, if◌then◌else◌, guard, get,
  all_of, [], String, Result, List, Dict, Bool,
}

pub record WorkerRegistration : Type 0 where
  pub engine_id : String
  pub dp_rank : ℕ
  pub tp_rank : ℕ
  pub pp_rank : ℕ
  pub addr : String

-- The addresses of an engine, by TP rank and PP rank.
abbrev pub Addresses : Type 0
Addresses = Dict ℕ (Dict ℕ String)

pub record WorkerEntry : Type 0 where
  pub engine_id : String
  pub worker_addr : Addresses

-- The answer to a request: a status, or the detail of an HTTP error 400.
pub data Answer : Type 0 where
  accepted : Answer
  rejected : String → Answer

abbrev pub place : Addresses → ℕ → Dict ℕ String
place addresses tp_rank = or_else (get addresses tp_rank) []

-- entry["worker_addr"].setdefault(payload.tp_rank, {}), and what follows
unfoldable pub register_addr : WorkerEntry → WorkerRegistration → Answer × WorkerEntry
register_addr entry payload =
    let tp_entry = place entry.worker_addr payload.tp_rank in
    elim (get tp_entry payload.pp_rank) [
      | some addr ↦ (
        if addr == payload.addr then accepted else rejected "worker rank already registered",
        entry,
      )
      | none ↦ (
        accepted,
        record entry {
          worker_addr =
              put entry.worker_addr payload.tp_rank (put tp_entry payload.pp_rank payload.addr);
        },
      )
    ]

-- self.workers.setdefault(payload.dp_rank, {...})
unfoldable pub entry_at : Dict ℕ WorkerEntry → WorkerRegistration → WorkerEntry
entry_at workers payload =
    or_else (get workers payload.dp_rank)
      (record { engine_id = payload.engine_id; worker_addr = [] })

unfoldable pub register : Dict ℕ WorkerEntry → WorkerRegistration → Answer × Dict ℕ WorkerEntry
unfolding entry_at register_addr
register workers payload =
    let entry = entry_at workers payload in
    let outcome = register_addr entry payload in
    if entry.engine_id == payload.engine_id
    then (outcome.0, put workers payload.dp_rank outcome.1)
    else (rejected "engine_id mismatch", workers)

unfoldable pub sort_in : ℕ → List ℕ → List ℕ
sort_in n [] = n ∷ []
sort_in n (m ∷ ms) = let rest = sort_in n ms in if leb n m then n ∷ m ∷ ms else m ∷ rest

unfoldable pub sorted : List ℕ → List ℕ
unfolding sort_in
sorted [] = []
sorted (n ∷ ns) = sort_in n (sorted ns)

unfoldable pub is_single : Dict ℕ String → Bool
unfolding sorted
is_single pp_map = sorted (keys pp_map) == 0 ∷ []

-- One entry of the answer to `/query`: the checks that it passes.
unfoldable pub check_workers : Addresses → Result (Unit {0})
unfolding sorted upto is_single
check_workers workers = do
  guard (not (length workers == 0) && sorted (keys workers) == upto (length workers))
      (value_error "Remote P TP workers are not fully registered")
  guard (all_of is_single (values workers)) (value_error "Mooncake transfer requires PP=1")

-- `_remote_agents`; `_remote_tp_size` is the number of an engine's workers.
unfoldable pub learn : Dict String Addresses → List WorkerEntry → Dict String Addresses
unfolding check_workers
learn agents [] = agents
learn agents (entry ∷ entries) =
    let rest = learn (put agents entry.engine_id entry.worker_addr) entries in
    elim (check_workers entry.worker_addr) [ raise problem ↦ agents | ok done ↦ rest ]

-- Every address that `receive_kv` asks, for the ranks that it pulls from.
unfoldable pub worker_addresses : Addresses → List ℕ → Result (List String)
worker_addresses workers [] = ok []
worker_addresses workers (tp_rank ∷ tp_ranks) = do
  let rest = worker_addresses workers tp_ranks
  addr ← elim (get workers tp_rank) [
    | none ↦ raise (key_error "tp_rank")
    | some pp_map ↦ elim (get pp_map 0) [ none ↦ raise (key_error "0") | some addr ↦ ok addr ]
  ]
  addrs ← rest
  ok (addr ∷ addrs)
