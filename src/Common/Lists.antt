-- ===== src/Common/Lists.antt =====
-- Lists measured and indexed by native numbers, under the library's names, and Python's slices.
use Prim.Native.Nat.{ℕ, zero, suc, ◌+◌, ◌-◌, ◌<◌, min}
use mathlib.Core.Path.{◌≡◌, refl, ap, ◌∙◌}
use mathlib.Core.Bool.{Bool, true, false, ◌&&◌, ◌||◌}
use mathlib.Core.List.{List, [], ◌∷◌, ◌++◌}
use mathlib.Core.Option.{Option, none, some}
use native.Mathlib.Omega.{arith}
use mathlib.Core.Logic.{◌↔◌, ◌⊎◌, inl, inr}
use mtsc.Common.Tests.{Bool-cases, Eq, ◌==◌}

module _ {ℓ} {A : Type ℓ} where
  abbrev pub length : List A → ℕ
  length [] = 0
  length (x ∷ xs) = suc (length xs)

  abbrev pub get_elem? : List A → ℕ → Option A
  get_elem? [] i = none
  get_elem? (x ∷ xs) zero = some x
  get_elem? (x ∷ xs) (suc i) = get_elem? xs i

  abbrev pub take : ℕ → List A → List A
  take zero xs = []
  take (suc n) [] = []
  take (suc n) (x ∷ xs) = x ∷ take n xs

  abbrev pub drop : ℕ → List A → List A
  drop zero xs = xs
  drop (suc n) [] = []
  drop (suc n) (x ∷ xs) = drop n xs

  abbrev pub replicate : ℕ → A → List A
  replicate zero a = []
  replicate (suc n) a = a ∷ replicate n a

  -- `xs[start:end]` for bounds that are not negative
  abbrev pub slice : ℕ → ℕ → List A → List A
  slice start end xs = take (end - start) (drop start xs)

  -- xs[:-1]
  abbrev pub pop_last : List A → List A
  pop_last [] = []
  pop_last (x ∷ []) = []
  pop_last (x ∷ y ∷ xs) = x ∷ pop_last (y ∷ xs)

  -- `any(p(x) for x in xs)` and `all(p(x) for x in xs)`
  abbrev pub any_of : (A → Bool) → List A → Bool
  any_of p [] = false
  any_of p (x ∷ xs) = p x || any_of p xs

  abbrev pub all_of : (A → Bool) → List A → Bool
  all_of p [] = true
  all_of p (x ∷ xs) = p x && all_of p xs

  pub length-append : (xs ys : List A) → length (xs ++ ys) ≡ length xs + length ys
  length-append [] ys = omega arith
  length-append (x ∷ xs) ys = omega (arith, length-append xs ys)

  pub length-take : (n : ℕ) (xs : List A) → length (take n xs) ≡ min n (length xs)
  length-take zero xs = omega arith
  length-take (suc n) [] = omega arith
  length-take (suc n) (x ∷ xs) = omega (arith, length-take n xs)

  pub length-drop : (n : ℕ) (xs : List A) → length (drop n xs) ≡ length xs - n
  length-drop zero xs = omega arith
  length-drop (suc n) [] = omega arith
  length-drop (suc n) (x ∷ xs) = omega (arith, length-drop n xs)

  pub take-append-drop : (n : ℕ) (xs : List A) → take n xs ++ drop n xs ≡ xs
  take-append-drop zero xs = refl
  take-append-drop (suc n) [] = refl
  take-append-drop (suc n) (x ∷ xs) = ap (◌∷◌ x) (take-append-drop n xs)

-- A predicate that holds of every element.
abbrev pub All {ℓ κ} : {A : Type ℓ} → (A → Type κ) → List A → Type κ
All P [] = Unit
All P (x ∷ xs) = P x × All P xs

module _ {ℓ κ} {A : Type ℓ} (P : A → Type κ) where
  pub All-append : (xs ys : List A) → All P xs → All P ys → All P (xs ++ ys)
  All-append [] ys h k = k
  All-append (x ∷ xs) ys h k = (h.0, All-append xs ys h.1 k)

-- `[x for x in xs if p(x)]`
abbrev pub keep_if {ℓ} : {A : Type ℓ} → (A → Bool) → List A → List A
keep_if p [] = []
keep_if p (x ∷ xs) = let rest = keep_if p xs in elim (p x) [ true ↦ x ∷ rest | false ↦ rest ]

pub All-keep_if {ℓ} :
    {A : Type ℓ} (p : A → Bool) (xs : List A) → All (λ x. p x ≡ true) (keep_if p xs)
All-keep_if p [] = tt
All-keep_if p (x ∷ xs) = ground (arith, All-keep_if p xs)

module _ {ℓ} {A : Type ℓ} ⦃e : Eq A⦄ where
  abbrev pub list_beq : List A → List A → Bool
  list_beq [] [] = true
  list_beq (x ∷ xs) (y ∷ ys) = x == y && list_beq xs ys
  list_beq _ _ = false

  pub list_beq_iff : (xs ys : List A) → (list_beq xs ys ≡ true) ↔ (xs ≡ ys)
  list_beq_iff [] [] = ground arith
  list_beq_iff (x ∷ xs) (y ∷ ys) = ground (arith, e.beq_iff x y, list_beq_iff xs ys)
  list_beq_iff [] (y ∷ ys) = ground arith
  list_beq_iff (x ∷ xs) [] = ground arith

  -- ys[:len(xs)] == xs
  unfoldable pub is_prefix : List A → List A → Bool
  is_prefix [] ys = true
  is_prefix (x ∷ xs) [] = false
  is_prefix (x ∷ xs) (y ∷ ys) = x == y && is_prefix xs ys

instance abbrev pub list_eq {ℓ} : {A : Type ℓ} ⦃e : Eq A⦄ → Eq (List A)
list_eq = record { beq = list_beq; beq_iff = list_beq_iff }

-- Being an element of a list.
abbrev pub In : {A : Type 0} → A → List A → Type 0
In x [] = ⊥
In x (y ∷ ys) = (x ≡ y) ⊎ In x ys

pub In-append :
    {A : Type 0} (x : A) (xs ys : List A)
    → (In x (xs ++ ys) → In x xs ⊎ In x ys) × (In x xs ⊎ In x ys → In x (xs ++ ys))
In-append x [] ys = (λ h. inr h, λ h. elim h [ inl e ↦ absurd e | inr l ↦ l ])
In-append x (z ∷ xs) ys =
    let (down, up) = In-append x xs ys in
    (
      λ h. elim h [
        | inl e ↦ inl (inl e)
        | inr later ↦ elim (down later) [ inl f ↦ inl (inr f) | inr g ↦ inr g ]
      ],
      λ h. elim h [
        | inl found ↦ elim found [ inl e ↦ inl e | inr f ↦ inr (up (inl f)) ]
        | inr g ↦ inr (up (inr g))
      ],
    )

pub In-keep_if :
    {A : Type 0} (p : A → Bool) (x : A) (xs : List A)
    → (In x (keep_if p xs) → In x xs × (p x ≡ true)) × (In x xs → p x ≡ true → In x (keep_if p xs))
In-keep_if p x [] = (λ h. absurd h, λ h t. h)
In-keep_if p x (y ∷ ys) =
    let (down, up) = In-keep_if p x ys in
    elim (Bool-cases (p y)) [
      | inl keeps ↦
          rw (keeps, keep_if)
            (
              λ h. elim h [
                | inl e ↦ (inl e, ap p e ∙ keeps)
                | inr later ↦ let (found, t) = down later in (inr found, t)
              ],
              λ h t. elim h [ inl e ↦ inl e | inr later ↦ inr (up later t) ],
            )
      | inr drops ↦
          rw (drops, keep_if)
            (
              λ h. let (found, t) = down h in (inr found, t),
              λ h t. elim h [ inl e ↦ absurd (cc (t, ap p e, drops)) | inr later ↦ up later t ],
            )
    ]

pub get_elem?-take :
    {A : Type 0} (n : ℕ) (xs : List A) (i : ℕ) (x : A)
    → (get_elem? (take n xs) i ≡ some x → (i < n) × (get_elem? xs i ≡ some x))
      × (i < n → get_elem? xs i ≡ some x → get_elem? (take n xs) i ≡ some x)
get_elem?-take zero xs i x = (λ h. absurd (cc h), λ few h. absurd (omega (arith, few)))
get_elem?-take (suc n) [] i x = (λ h. absurd (cc h), λ few h. h)
get_elem?-take (suc n) (y ∷ ys) zero x = (λ h. (omega arith, h), λ few h. h)
get_elem?-take (suc n) (y ∷ ys) (suc i) x =
    let (down, up) = get_elem?-take n ys i x in
    (
      λ h. let (few, found) = down h in (omega (arith, few), found),
      λ few h. up (omega (arith, few)) h,
    )

-- A mask, where there is one, has a true bit at the index.
abbrev pub IsMarked : Option (List Bool) → ℕ → Type 0
IsMarked none i = Unit
IsMarked (some mask) i = get_elem? mask i ≡ some true
