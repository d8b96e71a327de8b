-- ===== src/Registration/Elements.antt =====
-- mtsc/utils.py: where the elements of a tensor lie.
use mtsc.Registration.Merging.{covers}
use mtsc.Registration.{numel, last_offset, TensorView}
use mtsc.Common.{
  ◌≤◌, ◌≡◌, ◌∷◌, ◌<◌, ◌-◌, ◌+◌, ◌*◌, ◌&&◌, true, refl, leb, inr, inl, arith, [], List, In,
  Bool-cases, ℕ,
}

-- The index of an element, one number for each dimension.
abbrev pub IsIndex : List ℕ → List ℕ → Type 0
IsIndex [] [] = Unit
IsIndex (i ∷ index) (size ∷ shape) = (i < size) × IsIndex index shape
IsIndex _ _ = ⊥

-- How many elements an index lies past the first one.
abbrev pub offset_of : List ℕ → List ℕ → ℕ
offset_of (i ∷ index) (stride ∷ strides) = i * stride + offset_of index strides
offset_of _ _ = 0

-- All bytes of the element at an index.
abbrev pub HoldsElement : ℕ × ℕ → TensorView → List ℕ → Type 0
HoldsElement region tensor index =
    let first = tensor.data_ptr + offset_of index tensor.strides * tensor.element_size in
    (region.0 ≤ first) × (first + tensor.element_size ≤ region.0 + region.1)

-- If the tensor has an element, one of the regions holds all bytes of all its elements.
abbrev pub IsRegistered : List (ℕ × ℕ) → TensorView → Type 0
IsRegistered regions tensor =
    (some_index : List ℕ)
    → IsIndex some_index tensor.shape
    → (region : ℕ × ℕ) × In region regions
      × ((index : List ℕ) → IsIndex index tensor.shape → HoldsElement region tensor index)

positive_product : (m n : ℕ) → 0 < m → 0 < n → 0 < m * n
positive_product m n = grind arith

pub IsIndex-numel : (index shape : List ℕ) → IsIndex index shape → 0 < numel shape
IsIndex-numel [] [] h = omega arith
IsIndex-numel [] (size ∷ shape) h = absurd h
IsIndex-numel (i ∷ index) [] h = absurd h
IsIndex-numel (i ∷ index) (size ∷ shape) h =
    positive_product size (numel shape) (omega (arith, h.0)) (IsIndex-numel index shape h.1)

pub scaled : (i n m : ℕ) → i ≤ n → i * m ≤ n * m
scaled i n m h = grind (arith, h)

pub IsIndex-last_offset :
    (index shape strides : List ℕ)
    → IsIndex index shape
    → offset_of index strides ≤ last_offset shape strides
IsIndex-last_offset [] [] strides h = omega arith
IsIndex-last_offset [] (size ∷ shape) strides h = absurd h
IsIndex-last_offset (i ∷ index) [] strides h = absurd h
IsIndex-last_offset (i ∷ index) (size ∷ shape) [] h = omega arith
IsIndex-last_offset (i ∷ index) (size ∷ shape) (stride ∷ strides) h = omega (
  arith,
  scaled i (size - 1) stride (omega (arith, h.0)),
  IsIndex-last_offset index shape strides h.1,
)

pub covers-region :
    (regions : List (ℕ × ℕ)) (a b : ℕ)
    → covers regions a b ≡ true
    → (region : ℕ × ℕ) × In region regions × (region.0 ≤ a) × (b ≤ region.0 + region.1)
covers-region [] a b h = absurd (cc h)
covers-region ((pointer, size) ∷ regions) a b h =
    elim (Bool-cases (leb pointer a && leb b (pointer + size))) [
      | inl holds ↦ ((pointer, size), inl refl, ground (arith, holds), ground (arith, holds))
      | inr differs ↦
          let (region, found, low, high) = covers-region regions a b (ground (arith, h, differs)) in
          (region, inr found, low, high)
    ]
