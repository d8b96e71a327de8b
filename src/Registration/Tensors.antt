-- ===== src/Registration/Tensors.antt =====
-- mtsc/utils.py: every tensor that has elements lies in a region that is registered.
use mtsc.Registration.Elements.{
  scaled, offset_of, covers-region, IsRegistered, IsIndex-numel, IsIndex-last_offset,
}
use mtsc.Lookup.Rpc.RoundTrip.{within}
use mtsc.Registration.{
  last_offset, span, numel, npu_registration_regions, merge_storages, max_regions, add_ranges,
  add_range, TensorView, Range,
}
use mtsc.Registration.Storages.{
  merge_storages-AllCovered, Everywhere-put, Everywhere-get, Everywhere, AllWhole,
}
use mtsc.Registration.Merging.{covers, AllCovered}
use mtsc.Common.{
  ◌*◌, nat_eq, string_eq, ◌≤◌, ◌≡◌, ◌∷◌, ◌||◌, ◌==◌, ◌+◌, ◌++◌, ℕ, true, sym, suc, subst, some,
  refl, put, or_else, ok-injective, ok, nat_eq, map, ltb, length, inr, inl, get-put, get, arith, ap,
  [], List, Dict, Bool-cases, Bool, All, ==_refl,
}

add_range-AllWhole :
    (ranges : Dict ℕ (List Range)) (tensor : TensorView)
    → Everywhere AllWhole ranges
    → Everywhere AllWhole (add_range ranges tensor)
unfolding add_range
add_range-AllWhole ranges tensor whole = elim (Bool-cases (numel tensor.shape == 0)) [
  | inl empty ↦ rw (empty, add_range) whole
  | inr full ↦
      rw (full, add_range)
        (Everywhere-put AllWhole ranges tensor.storage _
          (AllWhole-last (or_else (get ranges tensor.storage) []) tensor.data_ptr
            (tensor.data_ptr + span tensor) (omega arith)
            (Everywhere-get AllWhole ranges tensor.storage tt whole))
          whole)
]
  where
    AllWhole-last :
        (before : List Range) (a b : ℕ) → a ≤ b → AllWhole before → AllWhole (before ++ (a, b) ∷ [])
    AllWhole-last [] a b le whole' = (le, tt)
    AllWhole-last ((c, d) ∷ before) a b le whole' = (whole'.0, AllWhole-last before a b le whole'.1)

add_ranges-AllWhole :
    (ranges : Dict ℕ (List Range)) (tensors : List TensorView)
    → Everywhere AllWhole ranges
    → Everywhere AllWhole (add_ranges ranges tensors)
unfolding add_ranges
add_ranges-AllWhole ranges [] whole = whole
add_ranges-AllWhole ranges (tensor ∷ tensors) whole =
    add_ranges-AllWhole (add_range ranges tensor) tensors (add_range-AllWhole ranges tensor whole)

-- Every storage's ranges are covered, as a statement about its key.
abbrev pub CoveredAt : List (ℕ × ℕ) → Dict ℕ (List Range) → Type 0
CoveredAt regions ranges = (storage : ℕ) → AllCovered regions (or_else (get ranges storage) [])

AllCovered-last :
    (regions : List (ℕ × ℕ)) (before : List Range) (a b : ℕ)
    → AllCovered regions (before ++ (a, b) ∷ [])
    → AllCovered regions before × (covers regions a b ≡ true)
AllCovered-last regions [] a b all = (tt, all.0)
AllCovered-last regions ((c, d) ∷ before) a b all =
    let (rest, last) = AllCovered-last regions before a b all.1 in ((all.0, rest), last)

-- The bytes that the code takes for those of a tensor are registered.
abbrev pub is_registered : List (ℕ × ℕ) → TensorView → Bool
is_registered regions tensor =
    numel tensor.shape == 0 || covers regions tensor.data_ptr (tensor.data_ptr + span tensor)

CoveredAt-put :
    (regions : List (ℕ × ℕ)) (ranges : Dict ℕ (List Range)) (storage : ℕ) (row : List Range)
    → AllCovered regions (or_else (get ranges storage) [])
    → CoveredAt regions (put ranges storage row)
    → CoveredAt regions ranges
CoveredAt-put regions ranges storage row old all key = elim (Bool-cases (storage == key)) [
  | inl same ↦
      subst (λ k. AllCovered regions (or_else (get ranges k) []))
        ((nat_eq.beq_iff storage key).0 same) old
  | inr differ ↦
      let kept : get (put ranges storage row) key ≡ get ranges key =
        ground (arith, differ, get-put ranges storage key row) in
      subst (λ found. AllCovered regions (or_else found [])) kept (all key)
]

add_range-CoveredAt :
    (regions : List (ℕ × ℕ)) (ranges : Dict ℕ (List Range)) (tensor : TensorView)
    → CoveredAt regions (add_range ranges tensor)
    → CoveredAt regions ranges × (is_registered regions tensor ≡ true)
unfolding add_range
add_range-CoveredAt regions ranges tensor covered = elim (Bool-cases (numel tensor.shape == 0)) [
  | inl empty ↦ (rw (empty, add_range) at covered, rw empty refl)
  | inr full ↦
      let before = or_else (get ranges tensor.storage) [] in
      let row = before ++ (tensor.data_ptr, tensor.data_ptr + span tensor) ∷ [] in
      let added : add_range ranges tensor ≡ put ranges tensor.storage row =
        rw (full, add_range) refl in
      let all = subst (CoveredAt regions) added covered in
      let found_new : get (put ranges tensor.storage row) tensor.storage ≡ some row =
        ground (arith, get-put ranges tensor.storage tensor.storage row, ==_refl tensor.storage) in
      let (old, new) =
        AllCovered-last regions before tensor.data_ptr (tensor.data_ptr + span tensor)
          (subst (λ found. AllCovered regions (or_else found [])) found_new (all tensor.storage)) in
      (CoveredAt-put regions ranges tensor.storage row old all, rw full new)
]

add_ranges-registered :
    (regions : List (ℕ × ℕ)) (ranges : Dict ℕ (List Range)) (tensors : List TensorView)
    → CoveredAt regions (add_ranges ranges tensors)
    → CoveredAt regions ranges × All (λ tensor. is_registered regions tensor ≡ true) tensors
unfolding add_ranges
add_ranges-registered regions ranges [] covered = (covered, tt)
add_ranges-registered regions ranges (tensor ∷ tensors) covered =
    let (here', rest) = add_ranges-registered regions (add_range ranges tensor) tensors covered in
    let (old, registered') = add_range-CoveredAt regions ranges tensor here' in
    (old, (registered', rest))

-- The regions that a pair of lists of pointers and lengths describes.
abbrev pub zip_regions : List ℕ → List ℕ → List (ℕ × ℕ)
zip_regions (pointer ∷ pointers) (length' ∷ lengths) =
    (pointer, length') ∷ zip_regions pointers lengths
zip_regions _ _ = []

zip_regions-map :
    (regions : List (ℕ × ℕ))
    → zip_regions (map (λ region. region.0) regions) (map (λ region. region.1) regions) ≡ regions
zip_regions-map [] = refl
zip_regions-map (region ∷ regions) = ap (◌∷◌ region) (zip_regions-map regions)

length-map_pointer :
    (regions : List (ℕ × ℕ)) → length (map (λ region. region.0) regions) ≡ length regions
length-map_pointer [] = refl
length-map_pointer (region ∷ regions) = ap suc (length-map_pointer regions)

every_registered :
    (tensors : List TensorView)
    → All (λ tensor. is_registered (merge_storages (add_ranges [] tensors)) tensor ≡ true) tensors
every_registered tensors =
    (add_ranges-registered (merge_storages (add_ranges [] tensors)) [] tensors (λ storage.
      Everywhere-get (AllCovered (merge_storages (add_ranges [] tensors))) (add_ranges [] tensors)
        storage tt
        (merge_storages-AllCovered (add_ranges [] tensors) (add_ranges-AllWhole [] tensors tt)))).1

is_registered-IsRegistered :
    (regions : List (ℕ × ℕ)) (tensor : TensorView)
    → is_registered regions tensor ≡ true
    → IsRegistered regions tensor
is_registered-IsRegistered regions tensor h some_index within =
    let full = IsIndex-numel some_index tensor.shape within in
    let (region, found, low, high) =
      covers-region regions tensor.data_ptr (tensor.data_ptr + span tensor)
        (ground (arith, h, full)) in
    (
      region,
      found,
      λ index inside.
          let size = tensor.element_size in
          let bound =
            scaled (offset_of index tensor.strides) (last_offset tensor.shape tensor.strides) size
              (IsIndex-last_offset index tensor.shape tensor.strides inside) in
          let whole : span tensor ≡ size + last_offset tensor.shape tensor.strides * size =
            grind arith in
          (omega (arith, low), omega (arith, high, whole, bound)),
    )

All-IsRegistered :
    (regions : List (ℕ × ℕ)) (tensors : List TensorView)
    → All (λ tensor. is_registered regions tensor ≡ true) tensors
    → All (IsRegistered regions) tensors
All-IsRegistered regions [] h = tt
All-IsRegistered regions (tensor ∷ tensors) h =
    (is_registered-IsRegistered regions tensor h.0, All-IsRegistered regions tensors h.1)

regions-registered :
    (tensors : List TensorView) (pointers lengths : List ℕ)
    → npu_registration_regions tensors ≡ ok (pointers, lengths)
    → (length pointers ≤ 256)
      × All (λ tensor. is_registered (zip_regions pointers lengths) tensor ≡ true) tensors
unfolding npu_registration_regions
regions-registered tensors pointers lengths returned =
    let regions = merge_storages (add_ranges [] tensors) in
    elim (Bool-cases (ltb max_regions (length regions))) [
      | inl many ↦ ground (arith, returned, many)
      | inr few ↦
          let same : (map (λ region. region.0) regions, map (λ region. region.1) regions)
              ≡ (pointers, lengths) =
            ok-injective (rw (few, npu_registration_regions) at returned) in
          subst
            (λ (pair : List ℕ × List ℕ).
              (length pair.0 ≤ 256)
              × All (λ tensor. is_registered (zip_regions pair.0 pair.1) tensor ≡ true) tensors)
            same
            (
              ground (arith, few, length-map_pointer regions),
              subst (λ r. All (λ tensor. is_registered r tensor ≡ true) tensors)
                  (sym (zip_regions-map regions)) (every_registered tensors),
            )
    ]

-- When the regions are returned, they are at most 256, and for every tensor that has an element one
-- region holds, for each index within its shape, all bytes of the element at that index: those from
-- `element_size` times the sum of index times stride past `data_ptr` on.
pub npu_registration_regions-IsRegistered :
    (tensors : List TensorView) (pointers lengths : List ℕ)
    → npu_registration_regions tensors ≡ ok (pointers, lengths)
    → (length pointers ≤ 256) × All (IsRegistered (zip_regions pointers lengths)) tensors
npu_registration_regions-IsRegistered tensors pointers lengths returned =
    let (few, all) = regions-registered tensors pointers lengths returned in
    (few, All-IsRegistered (zip_regions pointers lengths) tensors all)
