-- ===== src/Registration.antt =====
-- mtsc/utils.py: the memory regions that are registered for the KV caches of an NPU.
pub mod Merging
pub mod Storages
pub mod Elements
pub mod Tensors
use mtsc.Common.{
  nat_eq, string_eq, ◌∷◌, ◌||◌, ◌==◌, ◌-◌, ◌+◌, ◌++◌, ◌*◌, ◌&&◌, ℕ, true, runtime_error, raise, put,
  or_else, ok, max, map, ltb, length, leb, if◌then◌else◌, get, false, [], Result, List, Dict, Bool,
}

-- A tensor as far as its place in memory: its storage, its first byte and its layout.
pub record TensorView : Type 0 where
  pub storage : ℕ
  pub data_ptr : ℕ
  pub shape : List ℕ
  pub strides : List ℕ
  pub element_size : ℕ

abbrev pub merge_gap_bytes : ℕ
merge_gap_bytes = 4096

abbrev pub max_regions : ℕ
max_regions = 256

abbrev pub numel : List ℕ → ℕ
numel [] = 1
numel (size ∷ shape) = size * numel shape

-- sum((size - 1) * stride ...)
abbrev pub last_offset : List ℕ → List ℕ → ℕ
last_offset (size ∷ shape) (stride ∷ strides) = (size - 1) * stride + last_offset shape strides
last_offset _ _ = 0

abbrev pub span : TensorView → ℕ
span tensor = (1 + last_offset tensor.shape tensor.strides) * tensor.element_size

-- A range of bytes: its first one and the one after its last.
abbrev pub Range : Type 0
Range = ℕ × ℕ

unfoldable pub add_range : Dict ℕ (List Range) → TensorView → Dict ℕ (List Range)
add_range ranges tensor =
    if numel tensor.shape == 0
    then ranges
    else put ranges tensor.storage (
        or_else (get ranges tensor.storage) []
        ++ (tensor.data_ptr, tensor.data_ptr + span tensor) ∷ [])

unfoldable pub add_ranges : Dict ℕ (List Range) → List TensorView → Dict ℕ (List Range)
unfolding add_range
add_ranges ranges [] = ranges
add_ranges ranges (tensor ∷ tensors) = add_ranges (add_range ranges tensor) tensors

abbrev pub range_leb : Range → Range → Bool
range_leb (a, b) (c, d) = ltb a c || (a == c && leb b d)

unfoldable pub sort_in : Range → List Range → List Range
sort_in r [] = r ∷ []
sort_in r (q ∷ qs) = let rest = sort_in r qs in if range_leb r q then r ∷ q ∷ qs else q ∷ rest

unfoldable pub sort_ranges : List Range → List Range
unfolding sort_in
sort_ranges [] = []
sort_ranges (r ∷ rs) = sort_in r (sort_ranges rs)

-- The regions of one storage, as pointers with lengths: the one from `start` to `end` grows as long as
-- the next range is near enough.
unfoldable pub merge_from : ℕ → ℕ → List Range → List (ℕ × ℕ)
merge_from start end [] = (start, end - start) ∷ []
merge_from start end ((next_start, next_end) ∷ ranges) =
    elim (leb next_start (end + merge_gap_bytes)) [
      | true ↦ merge_from start (max end next_end) ranges
      | false ↦ (start, end - start) ∷ merge_from next_start next_end ranges
    ]

unfoldable pub merge_ranges : List Range → List (ℕ × ℕ)
unfolding merge_from
merge_ranges [] = []
merge_ranges ((start, end) ∷ ranges) = merge_from start end ranges

unfoldable pub merge_storages : Dict ℕ (List Range) → List (ℕ × ℕ)
unfolding merge_ranges sort_ranges
merge_storages [] = []
merge_storages ((storage, ranges) ∷ storages) =
    merge_ranges (sort_ranges ranges) ++ merge_storages storages

unfoldable pub npu_registration_regions : List TensorView → Result (List ℕ × List ℕ)
unfolding add_ranges merge_storages
npu_registration_regions tensors =
    let regions = merge_storages (add_ranges [] tensors) in
    if ltb max_regions (length regions)
    then raise (runtime_error "region count exceeds the HCCL per-process limit")
    else ok (map (λ region. region.0) regions, map (λ region. region.1) regions)
