-- ===== src/Registration/Storages.antt =====
-- mtsc/utils.py: the regions of all storages hold the ranges of each.
use mtsc.Transfer.Bootstrap.{sorted}
use mtsc.Registration.{sort_ranges, sort_in, range_leb, merge_storages, merge_ranges, Range}
use mtsc.Common.{
  nat_eq, string_eq, ◌≤◌, ◌≡◌, ◌∷◌, ◌==◌, ◌++◌, ℕ, true, subst, refl, put, or_else, inr, inl, get,
  arith, [], List, Dict, Bool-cases,
}
use mtsc.Registration.Merging.{
  merge_ranges-AllCovered, covers, StartsAfter, AllCovered-append_left, AllCovered-append,
  AllCovered,
}

-- No range ends before it starts.
abbrev pub AllWhole : List Range → Type 0
AllWhole [] = Unit
AllWhole ((a, b) ∷ ranges) = (a ≤ b) × AllWhole ranges

sort_in-StartsAfter :
    (start a b : ℕ) (ranges : List Range)
    → start ≤ a
    → a ≤ b
    → StartsAfter start ranges
    → StartsAfter start (sort_in (a, b) ranges)
unfolding sort_in
sort_in-StartsAfter start a b [] ge whole sorted = (ge, whole, tt)
sort_in-StartsAfter start a b ((c, d) ∷ ranges) ge whole sorted =
    elim (Bool-cases (range_leb (a, b) (c, d))) [
      | inl first ↦ rw (first, sort_in) (ge, whole, (ground (arith, first), sorted.1, sorted.2))
      | inr later ↦
          rw (later, sort_in)
            (
              sorted.0,
              sorted.1,
              sort_in-StartsAfter c a b ranges (ground (arith, later)) whole sorted.2,
            )
    ]

sort_ranges-StartsAfter :
    (ranges : List Range) → AllWhole ranges → StartsAfter 0 (sort_ranges ranges)
unfolding sort_ranges
sort_ranges-StartsAfter [] whole = tt
sort_ranges-StartsAfter ((a, b) ∷ ranges) whole =
    sort_in-StartsAfter 0 a b (sort_ranges ranges) (omega arith) whole.0
      (sort_ranges-StartsAfter ranges whole.1)

AllCovered-sort_in :
    (regions : List (ℕ × ℕ)) (a b : ℕ) (ranges : List Range)
    → AllCovered regions (sort_in (a, b) ranges)
    → (covers regions a b ≡ true) × AllCovered regions ranges
unfolding sort_in
AllCovered-sort_in regions a b [] all = all
AllCovered-sort_in regions a b ((c, d) ∷ ranges) all = elim (Bool-cases (range_leb (a, b) (c, d))) [
  | inl first ↦
      let here' : sort_in (a, b) ((c, d) ∷ ranges) ≡ (a, b) ∷ (c, d) ∷ ranges =
        rw (first, sort_in) refl in
      subst (AllCovered regions) here' all
  | inr later ↦
      let there : sort_in (a, b) ((c, d) ∷ ranges) ≡ (c, d) ∷ sort_in (a, b) ranges =
        rw (later, sort_in) refl in
      let all' = subst (AllCovered regions) there all in
      let (first, rest) = AllCovered-sort_in regions a b ranges all'.1 in (first, (all'.0, rest))
]

AllCovered-sort_ranges :
    (regions : List (ℕ × ℕ)) (ranges : List Range)
    → AllCovered regions (sort_ranges ranges)
    → AllCovered regions ranges
unfolding sort_ranges
AllCovered-sort_ranges regions [] all = tt
AllCovered-sort_ranges regions ((a, b) ∷ ranges) all =
    let (first, rest) = AllCovered-sort_in regions a b (sort_ranges ranges) all in
    (first, AllCovered-sort_ranges regions ranges rest)

-- The ranges of every storage are whole, or are covered.
abbrev pub Everywhere : (List Range → Type 0) → Dict ℕ (List Range) → Type 0
Everywhere P [] = Unit
Everywhere P ((storage, ranges) ∷ storages) = P ranges × Everywhere P storages

pub Everywhere-get :
    (P : List Range → Type 0) (storages : Dict ℕ (List Range)) (storage : ℕ)
    → P []
    → Everywhere P storages
    → P (or_else (get storages storage) [])
unfolding get
Everywhere-get P [] storage empty all = empty
Everywhere-get P ((key, ranges) ∷ storages) storage empty all = elim (Bool-cases (key == storage)) [
  | inl same ↦ rw (same, get) all.0
  | inr differ ↦ rw (differ, get) (Everywhere-get P storages storage empty all.1)
]

pub Everywhere-put :
    (P : List Range → Type 0) (storages : Dict ℕ (List Range)) (storage : ℕ) (ranges : List Range)
    → P ranges
    → Everywhere P storages
    → Everywhere P (put storages storage ranges)
unfolding put
Everywhere-put P [] storage ranges holds all = (holds, tt)
Everywhere-put P ((key, before) ∷ storages) storage ranges holds all =
    elim (Bool-cases (key == storage)) [
      | inl same ↦ rw (same, put) (holds, all.1)
      | inr differ ↦ rw (differ, put) (all.0, Everywhere-put P storages storage ranges holds all.1)
    ]

AllCovered-Everywhere :
    (before regions : List (ℕ × ℕ)) (storages : Dict ℕ (List Range))
    → Everywhere (AllCovered regions) storages
    → Everywhere (AllCovered (before ++ regions)) storages
AllCovered-Everywhere before regions [] all = tt
AllCovered-Everywhere before regions ((storage, ranges) ∷ storages) all = (
  AllCovered-append before regions ranges all.0,
  AllCovered-Everywhere before regions storages all.1,
)

pub merge_storages-AllCovered :
    (storages : Dict ℕ (List Range))
    → Everywhere AllWhole storages
    → Everywhere (AllCovered (merge_storages storages)) storages
unfolding merge_storages
merge_storages-AllCovered [] whole = tt
merge_storages-AllCovered ((storage, ranges) ∷ storages) whole =
    let regions = merge_ranges (sort_ranges ranges) in
    (
      AllCovered-append_left regions (merge_storages storages) ranges (
          AllCovered-sort_ranges regions ranges (
            merge_ranges-AllCovered (sort_ranges ranges) (sort_ranges-StartsAfter ranges whole.0))),
      AllCovered-Everywhere regions (merge_storages storages) storages
          (merge_storages-AllCovered storages whole.1),
    )
