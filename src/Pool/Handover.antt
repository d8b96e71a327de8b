-- ===== src/Pool/Handover.antt =====
-- mtsc/kv_cache_pool.py and mtsc/worker.py: the blocks that a load leaves out and a transfer pulls.
use mtsc.Pool.Chunks.{loaded_prefix}
use mtsc.Worker.Loads.{suffix_groups, suffix_blocks, last_window}
use mtsc.Worker.State.{LoadEvent}
use mtsc.Pool.Chunks.Prefix.{loaded_prefix-AllClean, AllClean, Clean}
use mtsc.Protocol.{KvTransferPlan, BlockIds}
use mtsc.Common.{
  All, string_eq, ◌≢◌, true, sym, subst, some, member, int_eq, ◌≤◌, ◌≡◌, ◌∷◌, ◌∙◌, ◌<◌, ◌-◌, ◌+◌,
  ◌*◌, ℤ, ℕ, zero, suc, refl, get_elem?, drop, cdiv, arith, ap, [], List,
}

zero_plus : (n : ℕ) → n ≡ 0 + n
zero_plus n = omega arith

suc_plus : (m n : ℕ) → suc (m + n) ≡ suc m + n
suc_plus m n = omega arith

get_elem?-drop :
    (n index : ℕ) (ids : List ℤ) → get_elem? (drop n ids) index ≡ get_elem? ids (n + index)
get_elem?-drop zero index ids = ap (get_elem? ids) (zero_plus index)
get_elem?-drop (suc n) index [] = refl
get_elem?-drop (suc n) index (x ∷ ids) =
    get_elem?-drop n index ids ∙ ap (get_elem? (x ∷ ids)) (suc_plus n index)

skipped-lt :
    (first index size reached : ℕ)
    → 0 < size
    → index < cdiv (reached - first * size) size
    → (first + index) * size < reached
skipped-lt first index size reached h lt = grind (arith, h, lt)

aligned-le : (first index size : ℕ) → 0 < size → cdiv (first * size) size ≤ first + index
aligned-le first index size h = grind arith

-- A member that stands nowhere among the first `n` stands behind them.
member-drop :
    (n : ℕ) (block : ℤ) (ids : List ℤ)
    → member block ids ≡ true
    → ((index : ℕ) → index < n → get_elem? ids index ≢ some block)
    → member block (drop n ids) ≡ true
unfolding member
member-drop zero block ids h absent = h
member-drop (suc n) block [] h absent = h
member-drop (suc n) block (x ∷ ids) h absent =
    member-drop n block ids (ground (arith, h, absent 0 (omega arith), int_eq.beq_iff x block))
      (λ index lt. absent (suc index) (omega (arith, lt)))

-- Each external group is the part of the group from the load's start on, which is whole blocks.
abbrev pub IsSplit : ℕ → BlockIds → BlockIds → List ℕ → Type 0
IsSplit start (ids ∷ tables) (external ∷ externals) (size ∷ sizes) =
    (0 < size)
    × ((k : ℕ) × (start ≡ k * size) × (external ≡ drop k ids))
    × IsSplit start tables externals sizes
IsSplit start [] [] [] = Unit
IsSplit start _ _ _ = ⊥

-- Every failed block of an external group is in the group that is pulled.
abbrev pub IsPulled : List ℤ → BlockIds → BlockIds → Type 0
IsPulled failed (external ∷ externals) (suffix ∷ suffixes) =
    ((block : ℤ)
      → member block external ≡ true
      → member block failed ≡ true
      → member block suffix ≡ true)
    × IsPulled failed externals suffixes
IsPulled failed [] [] = Unit
IsPulled failed _ _ = ⊥

-- No group has a sliding window.
unfoldable pub no_windows : BlockIds → List ℕ
no_windows [] = []
no_windows (ids ∷ tables) = 0 ∷ no_windows tables

group-pulled :
    (event : LoadEvent) (failed ids : List ℤ) (size reached k : ℕ)
    → 0 < size
    → event.start_load ≡ k * size
    → Clean event failed ids size reached
    → (block : ℤ) → member block (drop k ids) ≡ true
    → member block failed ≡ true
    → member block (drop (cdiv (reached - event.start_load) size) (drop k ids)) ≡ true
group-pulled event failed ids size reached k sized at clean block h bad =
    member-drop (cdiv (reached - event.start_load) size) block (drop k ids) h (λ index lt found.
      ground (
        arith,
        bad,
        clean (k + index) block
            (subst (λ n. cdiv n size ≤ k + index) (sym at) (aligned-le k index size sized))
            (skipped-lt k index size reached sized
              (subst (λ n. index < cdiv (reached - n) size) at lt))
            (sym (get_elem?-drop k index ids) ∙ found),
      ))

suffix_groups-IsPulled :
    (event : LoadEvent) (failed : List ℤ) (reached : ℕ) (tables externals : BlockIds)
    (sizes : List ℕ)
    → IsSplit event.start_load tables externals sizes
    → AllClean event failed tables sizes reached
    → IsPulled failed externals
        (suffix_groups (reached - event.start_load) externals sizes (no_windows externals))
unfolding suffix_groups last_window no_windows
suffix_groups-IsPulled event failed reached (ids ∷ tables) (external ∷ externals) (size ∷ sizes)
      split clean =
    let (k, at, part) = split.1 in
    (
      subst
          (λ part.
            (block : ℤ)
            → member block part ≡ true
            → member block failed ≡ true
            → member block (drop (cdiv (reached - event.start_load) size) part) ≡ true)
          (sym part) (group-pulled event failed ids size reached k split.0 at clean.0),
      suffix_groups-IsPulled event failed reached tables externals sizes split.2 clean.1,
    )
suffix_groups-IsPulled event failed reached [] [] [] split clean = tt
suffix_groups-IsPulled event failed reached [] [] (size ∷ sizes) split clean = elim split [ ]
suffix_groups-IsPulled event failed reached [] (external ∷ externals) sizes split clean =
    elim split [ ]
suffix_groups-IsPulled event failed reached (ids ∷ tables) [] sizes split clean = elim split [ ]
suffix_groups-IsPulled event failed reached (ids ∷ tables) (external ∷ externals) [] split clean =
    elim split [ ]

sizes-positive :
    (start : ℕ) (tables externals : BlockIds) (sizes : List ℕ)
    → IsSplit start tables externals sizes
    → All (λ size. 0 < size) sizes
sizes-positive start (ids ∷ tables) (external ∷ externals) (size ∷ sizes) split =
    (split.0, sizes-positive start tables externals sizes split.2)
sizes-positive start [] [] [] split = tt
sizes-positive start [] [] (size ∷ sizes) split = elim split [ ]
sizes-positive start [] (external ∷ externals) sizes split = elim split [ ]
sizes-positive start (ids ∷ tables) [] sizes split = elim split [ ]
sizes-positive start (ids ∷ tables) (external ∷ externals) [] split = elim split [ ]

-- When a decode load without sliding windows starts at whole blocks of each group, the transfer that
-- follows pulls every external block that the Store failed to load, however far the load is
-- reported to have got.
pub suffix_blocks-loaded_prefix :
    (event : LoadEvent) (plan : KvTransferPlan) (failed : List ℤ)
    → plan.computed_tokens ≡ event.start_load
    → event.start_load ≤ event.end_load
    → plan.blocks_per_sliding_window ≡ no_windows plan.external_block_ids
    → IsSplit event.start_load event.block_ids plan.external_block_ids plan.group_block_sizes
    → IsPulled failed plan.external_block_ids
        (suffix_blocks plan (loaded_prefix event plan.group_block_sizes failed))
unfolding suffix_blocks
suffix_blocks-loaded_prefix event plan failed start le windows split =
    let reached = loaded_prefix event plan.group_block_sizes failed in
    subst
      (λ windows. IsPulled failed plan.external_block_ids (
        suffix_groups (reached - plan.computed_tokens) plan.external_block_ids
          plan.group_block_sizes windows))
      (sym windows)
      (subst
        (λ n. IsPulled failed plan.external_block_ids (
          suffix_groups (reached - n) plan.external_block_ids plan.group_block_sizes
            (no_windows plan.external_block_ids)))
        (sym start)
        (suffix_groups-IsPulled event failed reached event.block_ids plan.external_block_ids
          plan.group_block_sizes split
          (loaded_prefix-AllClean event plan.group_block_sizes failed
            (sizes-positive event.start_load event.block_ids plan.external_block_ids
              plan.group_block_sizes split)
            le).2))
