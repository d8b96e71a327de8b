-- ===== src/Pool/Chunks/Prefix.antt =====
-- mtsc/kv_cache_pool.py: how far a load got.
use mtsc.Worker.State.{LoadEvent}
use mtsc.Protocol.{BlockIds}
use mtsc.Pool.Chunks.{loaded_prefix, groups_prefix, group_prefix, first_failed}
use mtsc.Common.{
  ◌∷◌, ◌-◌, ◌*◌, true, subst, refl, min, max, length, le_trans, if◌then◌else◌, cdiv, [], Bool, All,
  int_eq, string_eq, ◌≤◌, ◌≡◌, ◌∙◌, ◌<◌, ◌+◌, ℤ, ℕ, zero, sym, suc, some, none, member, ltb, inr,
  inl, get_elem?, false, arith, ap, Option, List, Bool-cases,
}

-- No block of the group with an index from `start` on and below `end` failed.
abbrev pub NoneFailed : List ℤ → List ℤ → ℕ → ℕ → Type 0
NoneFailed ids failed start end =
    (index : ℕ) (block : ℤ)
    → start ≤ index
    → index < end
    → get_elem? ids index ≡ some block
    → member block failed ≡ false

-- The first failed index, if any: none failed before it.
abbrev pub IsFirst : List ℤ → List ℤ → ℕ → ℕ → Option ℕ → Type 0
IsFirst ids failed start end none = NoneFailed ids failed start end
IsFirst ids failed start end (some index) = NoneFailed ids failed start index

module _ (ids failed : List ℤ) where
  extend :
      (start end : ℕ)
      → NoneFailed ids failed start (suc start)
      → NoneFailed ids failed (suc start) end
      → NoneFailed ids failed start end
  extend start end here later = λ index block le lt found. elim (Bool-cases (ltb start index)) [
    | inl after ↦ later index block (ground (arith, after)) lt found
    | inr at ↦ here index block le (ground (arith, at)) found
  ]

  extend-IsFirst :
      (start end : ℕ) (found : Option ℕ)
      → NoneFailed ids failed start (suc start)
      → IsFirst ids failed (suc start) end found
      → IsFirst ids failed start end found
  extend-IsFirst start end none here later = extend start end here later
  extend-IsFirst start end (some index) here later = extend start index here later

  here-free :
      (start : ℕ) {o : Option ℤ}
      → get_elem? ids start ≡ o
      → ((block : ℤ) → o ≡ some block → member block failed ≡ false)
      → NoneFailed ids failed start (suc start)
  here-free start at free = λ index block le lt found.
      free block (sym at ∙ ap (get_elem? ids) (omega (arith, le, lt)) ∙ found)

  stop-IsFirst :
      (start end : ℕ) (block : ℤ) (rest : Option ℕ) (b : Bool)
      → get_elem? ids start ≡ some block
      → member block failed ≡ b
      → IsFirst ids failed (suc start) end rest
      → IsFirst ids failed start end (if b then some start else rest)
  stop-IsFirst start end block rest true at bad later =
      λ index x le lt found. ground (arith, le, lt)
  stop-IsFirst start end block rest false at good later =
      extend-IsFirst start end rest (here-free start at (λ x same. ground (arith, same, good)))
        later

  step-IsFirst :
      (start end : ℕ) (rest : Option ℕ) (o : Option ℤ)
      → get_elem? ids start ≡ o
      → IsFirst ids failed (suc start) end rest
      → IsFirst ids failed start end
          (elim o [ none ↦ rest | some block ↦ if member block failed then some start else rest ])
  step-IsFirst start end rest none at later =
      extend-IsFirst start end rest (here-free start at (λ x same. cc)) later
  step-IsFirst start end rest (some block) at later =
      stop-IsFirst start end block rest (member block failed) at refl later

  first_failed-IsFirst :
      (count start : ℕ)
      → IsFirst ids failed start (start + count) (first_failed ids failed start count)
  unfolding first_failed
  first_failed-IsFirst zero start = λ index block le lt found. ground (arith, le, lt)
  first_failed-IsFirst (suc count) start =
      step-IsFirst start (start + suc count) (first_failed ids failed (suc start) count)
        (get_elem? ids start) refl
        (subst
          (λ end. IsFirst ids failed (suc start) end (first_failed ids failed (suc start) count))
          (omega arith) (first_failed-IsFirst count (suc start)))

-- No block of the group from the load's start on whose tokens begin before `bound` failed.
abbrev pub Clean : LoadEvent → List ℤ → List ℤ → ℕ → ℕ → Type 0
Clean event failed ids size bound =
    (index : ℕ) (block : ℤ)
    → cdiv event.start_load size ≤ index
    → index * size < bound
    → get_elem? ids index ≡ some block
    → member block failed ≡ false

get_elem?-lt :
    (ids : List ℤ) (index : ℕ) {block : ℤ} → get_elem? ids index ≡ some block → index < length ids
get_elem?-lt [] index h = cc
get_elem?-lt (x ∷ ids) zero h = omega arith
get_elem?-lt (x ∷ ids) (suc index) h = omega (arith, get_elem?-lt ids index h)

lt-cdiv : (index size end : ℕ) → 0 < size → index * size < end → index < cdiv end size
lt-cdiv index size end h k = grind arith

mul-lt : (index other size : ℕ) → index * size < other * size → index < other
mul-lt index other size h = grind arith

-- Both what is clean and the range that the search covers.
found-Clean :
    (event : LoadEvent) (failed ids : List ℤ) (size actual end : ℕ) (found : Option ℕ)
    → 0 < size
    → actual ≤ event.end_load
    → ((index : ℕ)
        → index < cdiv event.end_load size
        → index < length ids
        → cdiv event.start_load size ≤ index
        → index < end)
    → IsFirst ids failed (cdiv event.start_load size) end found
    → Clean event failed ids size
        (elim found [ none ↦ actual | some index ↦ min actual (index * size) ])
found-Clean event failed ids size actual end none sized le covers first = λ index block from lt at.
    first index block from
      (covers index (lt-cdiv index size event.end_load sized (omega (arith, lt, le)))
        (get_elem?-lt ids index at) from)
      at
found-Clean event failed ids size actual end (some stop) sized le covers first =
    λ index block from lt at. first index block from (mul-lt index stop size (omega (arith, lt))) at

group_prefix-Clean :
    (event : LoadEvent) (failed ids : List ℤ) (size actual : ℕ)
    → 0 < size
    → actual ≤ event.end_load
    → Clean event failed ids size (group_prefix event ids size failed actual)
unfolding group_prefix
group_prefix-Clean event failed ids size actual sized le =
    let start = cdiv event.start_load size in
    let count = min (cdiv event.end_load size) (length ids) - start in
    found-Clean event failed ids size actual (start + count) (first_failed ids failed start count)
      sized le (λ index below inside from. omega (arith, below, inside, from))
      (first_failed-IsFirst ids failed count start)

group_prefix-le :
    (event : LoadEvent) (ids : List ℤ) (size : ℕ) (failed : List ℤ) (actual : ℕ)
    → group_prefix event ids size failed actual ≤ actual
unfolding group_prefix
group_prefix-le event ids size failed actual = ground arith

groups_prefix-le :
    (event : LoadEvent) (failed : List ℤ) (tables : BlockIds) (sizes : List ℕ) (actual : ℕ)
    → groups_prefix event failed tables sizes actual ≤ actual
unfolding groups_prefix
groups_prefix-le event failed (ids ∷ tables) (size ∷ sizes) actual =
    le_trans
      (groups_prefix-le event failed tables sizes (group_prefix event ids size failed actual))
      (group_prefix-le event ids size failed actual)
groups_prefix-le event failed [] sizes actual = omega arith
groups_prefix-le event failed (ids ∷ tables) [] actual = omega arith

-- Every group is clean up to a bound.
abbrev pub AllClean : LoadEvent → List ℤ → BlockIds → List ℕ → ℕ → Type 0
AllClean event failed (ids ∷ tables) (size ∷ sizes) bound =
    Clean event failed ids size bound × AllClean event failed tables sizes bound
AllClean event failed _ _ bound = Unit

groups_prefix-AllClean :
    (event : LoadEvent) (failed : List ℤ) (tables : BlockIds) (sizes : List ℕ) (actual : ℕ)
    → All (λ size. 0 < size) sizes
    → actual ≤ event.end_load
    → AllClean event failed tables sizes (groups_prefix event failed tables sizes actual)
unfolding groups_prefix
groups_prefix-AllClean event failed (ids ∷ tables) (size ∷ sizes) actual sized le =
    let next = group_prefix event ids size failed actual in
    (
      λ index block from lt at.
          group_prefix-Clean event failed ids size actual sized.0 le index block from
            (omega (arith, lt, groups_prefix-le event failed tables sizes next)) at,
      groups_prefix-AllClean event failed tables sizes next sized.1
          (le_trans (group_prefix-le event ids size failed actual) le),
    )
groups_prefix-AllClean event failed [] sizes actual sized le = tt
groups_prefix-AllClean event failed (ids ∷ tables) [] actual sized le = tt

lt-start : (start index size : ℕ) → 0 < size → cdiv start size ≤ index → start ≤ index * size
lt-start start index size h le = grind arith

raise-AllClean :
    (event : LoadEvent) (failed : List ℤ) (tables : BlockIds) (sizes : List ℕ) (bound : ℕ)
    → All (λ size. 0 < size) sizes
    → AllClean event failed tables sizes bound
    → AllClean event failed tables sizes (max event.start_load bound)
raise-AllClean event failed (ids ∷ tables) (size ∷ sizes) bound sized clean = (
  λ index block from lt at.
      clean.0 index block from
        (omega (arith, lt, lt-start event.start_load index size sized.0 from)) at,
  raise-AllClean event failed tables sizes bound sized.1 clean.1,
)
raise-AllClean event failed [] sizes bound sized clean = tt
raise-AllClean event failed (ids ∷ tables) [] bound sized clean = tt

-- For block sizes that are positive, the tokens that a load reports as loaded reach from its start to
-- at most its end, and no block of any group that holds some of the newly loaded tokens failed.
pub loaded_prefix-AllClean :
    (event : LoadEvent) (block_sizes : List ℕ) (failed : List ℤ)
    → All (λ size. 0 < size) block_sizes
    → event.start_load ≤ event.end_load
    → (event.start_load ≤ loaded_prefix event block_sizes failed)
      × (loaded_prefix event block_sizes failed ≤ event.end_load)
      × AllClean event failed event.block_ids block_sizes (loaded_prefix event block_sizes failed)
unfolding loaded_prefix
loaded_prefix-AllClean event block_sizes failed sized le =
    let reached = groups_prefix event failed event.block_ids block_sizes event.end_load in
    (
      omega arith,
      omega (arith, le, groups_prefix-le event failed event.block_ids block_sizes event.end_load),
      raise-AllClean event failed event.block_ids block_sizes reached sized (
          groups_prefix-AllClean event failed event.block_ids block_sizes event.end_load sized
            (omega arith)),
    )
