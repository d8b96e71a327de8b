-- ===== src/Transfer/Bootstrap/Agents.antt =====
-- mtsc/kv_transfer.py: a decode worker knows engines only with all their workers.
use mtsc.Transfer.Regions.Handshake.{targets-below, targets, member-upto}
use mtsc.Transfer.Regions.{handshake_target_ranks, upto}
use mtsc.Transfer.Bootstrap.{
  worker_addresses, learn, WorkerEntry, is_single, check_workers, Addresses, sorted, sort_in,
}
use mtsc.Common.{
  ==_refl, subst, put, get-put, Result-cases, ◌∙◌, sym, ok, list_eq, length, ap, String, nat_eq,
  string_eq, ◌≡◌, ◌∷◌, ◌||◌, ◌==◌, ◌<◌, ℕ, values, true, some, refl, nat_eq, member, keys, inr, inl,
  get, arith, all_of, [], List, Dict, Bool-cases, Bool,
}

member-sort_in : (k n : ℕ) (ns : List ℕ) → member k (sort_in n ns) ≡ (n == k || member k ns)
unfolding sort_in member
member-sort_in k n [] = refl
member-sort_in k n (m ∷ ms) = ground (arith, member-sort_in k n ms)

member-sorted : (k : ℕ) (ns : List ℕ) → member k (sorted ns) ≡ member k ns
unfolding sorted member
member-sorted k [] = refl
member-sorted k (n ∷ ns) = ground (arith, member-sort_in k n (sorted ns), member-sorted k ns)

get-member :
    {V : Type 0} (d : Dict ℕ V) (k : ℕ) → member k (keys d) ≡ true → (v : V) × (get d k ≡ some v)
unfolding get member
get-member [] k h = ground arith
get-member ((j, v) ∷ d) k h = elim (Bool-cases (j == k)) [
  | inl same ↦ (v, ground (arith, same))
  | inr other ↦
      (let (w, found) = get-member d k (ground (arith, h, other)) in
        (w, ground (arith, other, found)))
]

get-all_of :
    {V : Type 0} (p : V → Bool) (d : Dict ℕ V) (k : ℕ) (v : V)
    → all_of p (values d) ≡ true
    → get d k ≡ some v
    → p v ≡ true
unfolding get
get-all_of p [] k v all found = ground arith
get-all_of p ((j, w) ∷ d) k v all found = ground (arith, get-all_of p d k v)

-- An address for every TP rank.
abbrev pub IsComplete : Addresses → Type 0
IsComplete workers =
    (tp_rank : ℕ)
    → tp_rank < length workers
    → (pp_map : Dict ℕ String) × (addr : String) × (get workers tp_rank ≡ some pp_map)
      × (get pp_map 0 ≡ some addr)

is_single-get :
    (pp_map : Dict ℕ String)
    → is_single pp_map ≡ true
    → (addr : String) × (get pp_map 0 ≡ some addr)
unfolding is_single member
is_single-get pp_map single =
    let same = (list_eq.beq_iff (sorted (keys pp_map)) (0 ∷ [])).0 single in
    get-member pp_map 0 (sym (member-sorted 0 (keys pp_map)) ∙ ap (member 0) same)

check_workers-IsComplete :
    (workers : Addresses) → check_workers workers ≡ ok tt → IsComplete workers
unfolding check_workers
check_workers-IsComplete workers checked tp_rank lt =
    let test : (sorted (keys workers) == upto (length workers)) ≡ true = ground (arith, checked) in
    let same = (list_eq.beq_iff (sorted (keys workers)) (upto (length workers))).0 test in
    let (pp_map, found) = get-member workers tp_rank (
      sym (member-sorted tp_rank (keys workers))
      ∙ ap (member tp_rank) same
      ∙ ground (arith, member-upto (length workers) tp_rank)) in
    let (addr, at) =
      is_single-get pp_map
        (get-all_of is_single workers tp_rank pp_map (ground (arith, checked)) found) in
    (pp_map, addr, found, at)

-- What a decode worker knows: every engine with all its workers.
abbrev pub AllComplete : Dict String Addresses → Type 0
AllComplete agents =
    (engine_id : String) (workers : Addresses)
    → get agents engine_id ≡ some workers
    → IsComplete workers

put-AllComplete :
    (agents : Dict String Addresses) (entry : WorkerEntry)
    → check_workers entry.worker_addr ≡ ok tt
    → AllComplete agents
    → AllComplete (put agents entry.engine_id entry.worker_addr)
put-AllComplete agents entry checked complete engine_id workers found =
    elim (Bool-cases (entry.engine_id == engine_id)) [
      | inl same ↦
          subst IsComplete
            (ground
              (arith, found, same, get-put agents entry.engine_id engine_id entry.worker_addr))
            (check_workers-IsComplete entry.worker_addr checked)
      | inr other ↦
          complete engine_id workers (
            ground
              (arith, found, other, get-put agents entry.engine_id engine_id entry.worker_addr))
    ]

learn-AllComplete :
    (agents : Dict String Addresses) (entries : List WorkerEntry)
    → AllComplete agents
    → AllComplete (learn agents entries)
unfolding learn
learn-AllComplete agents [] complete = complete
learn-AllComplete agents (entry ∷ entries) complete =
    elim (Result-cases (check_workers entry.worker_addr)) [
      | inl (done, checked) ↦
          rw (checked, learn)
            (learn-AllComplete (put agents entry.engine_id entry.worker_addr) entries
              (put-AllComplete agents entry checked complete))
      | inr (problem, failed) ↦ rw (failed, learn) complete
    ]

worker_addresses-ok :
    (workers : Addresses) (ranks : List ℕ)
    → IsComplete workers
    → ((rank : ℕ) → member rank ranks ≡ true → rank < length workers)
    → (addrs : List String) × (worker_addresses workers ranks ≡ ok addrs)
unfolding worker_addresses member
worker_addresses-ok workers [] complete below = ([], refl)
worker_addresses-ok workers (rank ∷ ranks) complete below =
    let (addrs, rest) =
      worker_addresses-ok workers ranks complete (λ r h. below r (ground (arith, h))) in
    let (pp_map, addr, found, at) = complete rank (below rank (ground (arith, ==_refl rank))) in
    (addr ∷ addrs, rw (found, at, rest) refl)

-- What a decode worker has learned from queries, starting with nothing.
pub data Learned : Dict String Addresses → Type 0 where
  nothing : Learned []
  query :
      {agents : Dict String Addresses} (entries : List WorkerEntry)
      → Learned agents
      → Learned (learn agents entries)

Learned-AllComplete : {agents : Dict String Addresses} → Learned agents → AllComplete agents
unfolding get
Learned-AllComplete nothing = λ engine_id workers found. ground (arith, found)
Learned-AllComplete (query entries learned) =
    learn-AllComplete _ entries (Learned-AllComplete learned)

-- Whatever registries were queried, a decode rank that pulls from an engine that it knows finds an
-- address for every prefill rank of its handshake.
pub worker_addresses-handshake_target_ranks :
    (agents : Dict String Addresses) (engine_id : String) (workers : Addresses)
    (tp_rank tp_size : ℕ) (ranks : List ℕ)
    → Learned agents
    → get agents engine_id ≡ some workers
    → tp_rank < tp_size
    → handshake_target_ranks tp_rank tp_size (length workers) ≡ ok ranks
    → (addrs : List String) × (worker_addresses workers ranks ≡ ok addrs)
unfolding handshake_target_ranks
worker_addresses-handshake_target_ranks agents engine_id workers tp_rank tp_size ranks learned found
      lt shaken =
    worker_addresses-ok workers ranks (Learned-AllComplete learned engine_id workers found)
      (λ rank named.
        targets-below tp_rank tp_size rank (length workers) (ground (arith, shaken)) lt
          (ap (λ r. targets r rank) shaken ∙ named))
