-- ===== src/Transfer/Bootstrap/Laws.antt =====
-- mtsc/kv_transfer.py: what a registration does to the registry.
use mtsc.Transfer.Bootstrap.{
  rejected, Answer, register_addr, register, entry_at, accepted, WorkerRegistration, place,
  WorkerEntry,
}
use mtsc.Common.{
  false, put, inr, inl, Option-cases, ==_refl, ◌≡◌, ◌↔◌, ◌==◌, ◌&&◌, true, if◌then◌else◌, get-put,
  arith, Bool, nat_eq, string_eq, ℕ, some, none, map_option, get, String, Option, Dict,
}

-- The engine of a DP rank, and the address of a worker.
abbrev pub engine_of : Dict ℕ WorkerEntry → ℕ → Option String
engine_of workers dp = map_option (λ (entry : WorkerEntry). entry.engine_id) (get workers dp)

abbrev pub address_in : WorkerEntry → ℕ → ℕ → Option String
address_in entry tp pp = get (place entry.worker_addr tp) pp

abbrev pub address_of : Dict ℕ WorkerEntry → ℕ → ℕ → ℕ → Option String
address_of workers dp tp pp = elim (get workers dp) [
  | none ↦ none
  | some entry ↦ address_in entry tp pp
]

abbrev pub is_accepted : Answer → Bool
is_accepted accepted = true
is_accepted (rejected detail) = false

-- Whether a registration names the place.
abbrev pub names : WorkerRegistration → ℕ → ℕ → ℕ → Bool
names payload dp tp pp = payload.dp_rank == dp && payload.tp_rank == tp && payload.pp_rank == pp

-- A registration agrees with the registry if its DP rank has no other engine and its place no other
-- address.
abbrev pub agrees : Option String → String → Bool
agrees none value = true
agrees (some other) value = other == value

register_addr-accepted :
    (entry : WorkerEntry) (payload : WorkerRegistration)
    → ((register_addr entry payload).0 ≡ accepted)
      ↔ (agrees (address_in entry payload.tp_rank payload.pp_rank) payload.addr ≡ true)
unfolding register_addr
register_addr-accepted entry payload =
    elim (Option-cases (address_in entry payload.tp_rank payload.pp_rank)) [
      | inl missing ↦ rw missing (ground arith)
      | inr (addr, found) ↦ rw found (ground arith)
    ]

register_addr-address_in :
    (entry : WorkerEntry) (payload : WorkerRegistration) (tp pp : ℕ)
    → address_in (register_addr entry payload).1 tp pp ≡ (
        if is_accepted (register_addr entry payload).0
          && payload.tp_rank == tp
          && payload.pp_rank == pp
        then some payload.addr
        else address_in entry tp pp)
unfolding register_addr
register_addr-address_in entry payload tp pp =
    let row = place entry.worker_addr payload.tp_rank in
    elim (Option-cases (address_in entry payload.tp_rank payload.pp_rank)) [
      | inl missing ↦
          rw (missing, register_addr)
            (ground (
              arith,
              missing,
              get-put entry.worker_addr payload.tp_rank tp (put row payload.pp_rank payload.addr),
              get-put row payload.pp_rank pp payload.addr,
              nat_eq.beq_iff payload.tp_rank tp,
              nat_eq.beq_iff payload.pp_rank pp,
            ))
      | inr (addr, found) ↦
          rw (found, register_addr)
            (ground (
              arith,
              found,
              string_eq.beq_iff addr payload.addr,
              nat_eq.beq_iff payload.tp_rank tp,
              nat_eq.beq_iff payload.pp_rank pp,
            ))
    ]

-- A registration is accepted exactly if its DP rank has no other engine and its place no other
-- address.
pub register_lem :
    (workers : Dict ℕ WorkerEntry) (payload : WorkerRegistration)
    → (((register workers payload).0 ≡ accepted) ↔ (
        (agrees (engine_of workers payload.dp_rank) payload.engine_id ≡ true)
        × (agrees (address_of workers payload.dp_rank payload.tp_rank payload.pp_rank) payload.addr
            ≡ true)))
unfolding register register_addr entry_at get
register_lem workers payload =
    let entry = entry_at workers payload in
    elim (Option-cases (get workers payload.dp_rank)) [
      | inl missing ↦
          ground (arith, missing, register_addr-accepted entry payload, ==_refl payload.engine_id)
      | inr (known, found) ↦ ground (arith, found, register_addr-accepted known payload)
    ]

-- After a registration the address of its place is the one it names if it is accepted; every other
-- address, and every address after a rejected one, is as before.
pub register-address_of :
    (workers : Dict ℕ WorkerEntry) (payload : WorkerRegistration) (dp tp pp : ℕ)
    → address_of (register workers payload).1 dp tp pp ≡ (
        if is_accepted (register workers payload).0 && names payload dp tp pp
        then some payload.addr
        else address_of workers dp tp pp)
unfolding register register_addr entry_at get
register-address_of workers payload dp tp pp =
    let entry = entry_at workers payload in
    elim (Option-cases (get workers payload.dp_rank)) [
      | inl missing ↦ ground (
        arith,
        missing,
        register_addr-address_in entry payload tp pp,
        ==_refl payload.engine_id,
        get-put workers payload.dp_rank dp (register_addr entry payload).1,
        nat_eq.beq_iff payload.dp_rank dp,
      )
      | inr (known, found) ↦ ground (
        arith,
        found,
        register_addr-address_in known payload tp pp,
        get-put workers payload.dp_rank dp (register_addr known payload).1,
        nat_eq.beq_iff payload.dp_rank dp,
      )
    ]
