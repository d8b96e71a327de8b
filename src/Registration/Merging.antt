-- ===== src/Registration/Merging.antt =====
-- mtsc/utils.py: every tensor lies in a region that is registered.
use mtsc.Transfer.Bootstrap.{sorted}
use mtsc.Registration.{merge_ranges, merge_gap_bytes, merge_from, Range}
use mtsc.Common.{
  sym, subst, refl, ◌-◌, ◌++◌, max, le_trans, inr, inl, Bool-cases, ◌≤◌, ◌≡◌, ◌∷◌, ◌||◌, ◌+◌, ◌&&◌,
  ℕ, true, leb, false, arith, [], List, Bool,
}

-- Whether one of the regions holds the bytes from `a` up to `b`.
abbrev pub covers : List (ℕ × ℕ) → ℕ → ℕ → Bool
covers [] a b = false
covers ((pointer, length') ∷ regions) a b =
    (leb pointer a && leb b (pointer + length')) || covers regions a b

-- Sorted by their first bytes, and none ends before it starts.
abbrev pub StartsAfter : ℕ → List Range → Type 0
StartsAfter start [] = Unit
StartsAfter start ((a, b) ∷ ranges) = (start ≤ a) × (a ≤ b) × StartsAfter a ranges

StartsAfter-le :
    (a b : ℕ) (ranges : List Range) → a ≤ b → StartsAfter b ranges → StartsAfter a ranges
StartsAfter-le a b [] le sorted = tt
StartsAfter-le a b ((s, e) ∷ ranges) le sorted = (le_trans le sorted.0, sorted.1, sorted.2)

covers_first :
    (start end : ℕ) (regions : List (ℕ × ℕ)) (a b : ℕ)
    → start ≤ end
    → start ≤ a
    → b ≤ end
    → covers ((start, end - start) ∷ regions) a b ≡ true
covers_first start end regions a b whole ge le = ground arith

merge_from-covers_current :
    (start end : ℕ) (ranges : List Range) (a b : ℕ)
    → start ≤ end
    → StartsAfter start ranges
    → start ≤ a
    → b ≤ end
    → covers (merge_from start end ranges) a b ≡ true
unfolding merge_from
merge_from-covers_current start end [] a b whole sorted ge le =
    covers_first start end [] a b whole ge le
merge_from-covers_current start end ((s, e) ∷ ranges) a b whole sorted ge le =
    elim (Bool-cases (leb s (end + merge_gap_bytes))) [
      | inl near ↦
          rw (near, merge_from)
            (merge_from-covers_current start (max end e) ranges a b (omega (arith, whole))
              (StartsAfter-le start s ranges sorted.0 sorted.2) ge (omega (arith, le)))
      | inr far ↦
          rw (far, merge_from) (covers_first start end (merge_from s e ranges) a b whole ge le)
    ]

-- Ranges that the regions hold.
abbrev pub AllCovered : List (ℕ × ℕ) → List Range → Type 0
AllCovered regions [] = Unit
AllCovered regions ((a, b) ∷ ranges) = (covers regions a b ≡ true) × AllCovered regions ranges

AllCovered-cons :
    (region : ℕ × ℕ) (regions : List (ℕ × ℕ)) (ranges : List Range)
    → AllCovered regions ranges
    → AllCovered (region ∷ regions) ranges
AllCovered-cons region regions [] all = tt
AllCovered-cons (pointer, length') regions ((a, b) ∷ ranges) all =
    (ground (arith, all.0), AllCovered-cons (pointer, length') regions ranges all.1)

pub AllCovered-append :
    (before regions : List (ℕ × ℕ)) (ranges : List Range)
    → AllCovered regions ranges
    → AllCovered (before ++ regions) ranges
AllCovered-append [] regions ranges all = all
AllCovered-append (region ∷ before) regions ranges all =
    AllCovered-cons region (before ++ regions) ranges (AllCovered-append before regions ranges all)

covers-append :
    (regions after : List (ℕ × ℕ)) (a b : ℕ)
    → covers regions a b ≡ true
    → covers (regions ++ after) a b ≡ true
covers-append [] after a b held = ground (arith, held)
covers-append ((pointer, length') ∷ regions) after a b held =
    ground (arith, held, covers-append regions after a b)

pub AllCovered-append_left :
    (regions after : List (ℕ × ℕ)) (ranges : List Range)
    → AllCovered regions ranges
    → AllCovered (regions ++ after) ranges
AllCovered-append_left regions after [] all = tt
AllCovered-append_left regions after ((a, b) ∷ ranges) all =
    (covers-append regions after a b all.0, AllCovered-append_left regions after ranges all.1)

merge_from-AllCovered :
    (start end : ℕ) (ranges : List Range)
    → start ≤ end
    → StartsAfter start ranges
    → AllCovered (merge_from start end ranges) ranges
unfolding merge_from
merge_from-AllCovered start end [] whole sorted = tt
merge_from-AllCovered start end ((s, e) ∷ ranges) whole sorted =
    elim (Bool-cases (leb s (end + merge_gap_bytes))) [
      | inl near ↦
          let later = StartsAfter-le start s ranges sorted.0 sorted.2 in
          let longer : start ≤ max end e = omega (arith, whole) in
          let merged : merge_from start end ((s, e) ∷ ranges)
              ≡ merge_from start (max end e) ranges =
            rw (near, merge_from) refl in
          subst (λ regions. AllCovered regions ((s, e) ∷ ranges)) (sym merged)
            (
              merge_from-covers_current start (max end e) ranges s e longer later sorted.0
                  (omega arith),
              merge_from-AllCovered start (max end e) ranges longer later,
            )
      | inr far ↦
          let parted : merge_from start end ((s, e) ∷ ranges)
              ≡ (start, end - start) ∷ merge_from s e ranges =
            rw (far, merge_from) refl in
          subst (λ regions. AllCovered regions ((s, e) ∷ ranges)) (sym parted)
            (AllCovered-cons (start, end - start) (merge_from s e ranges) ((s, e) ∷ ranges)
              (
                merge_from-covers_current s e ranges s e sorted.1 sorted.2 (omega arith)
                    (omega arith),
                merge_from-AllCovered s e ranges sorted.1 sorted.2,
              ))
    ]

pub merge_ranges-AllCovered :
    (ranges : List Range) → StartsAfter 0 ranges → AllCovered (merge_ranges ranges) ranges
unfolding merge_ranges
merge_ranges-AllCovered [] sorted = tt
merge_ranges-AllCovered ((start, end) ∷ ranges) sorted = (
  merge_from-covers_current start end ranges start end sorted.1 sorted.2 (omega arith)
      (omega arith),
  merge_from-AllCovered start end ranges sorted.1 sorted.2,
)
