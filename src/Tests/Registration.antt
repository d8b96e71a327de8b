-- ===== src/Tests/Registration.antt =====
-- Tests of mtsc/utils.py.
use mtsc.Registration.Elements.{IsRegistered}
use mtsc.Registration.Tensors.{zip_regions, npu_registration_regions-IsRegistered}
use mtsc.Registration.{
  sort_ranges, sort_in, npu_registration_regions, merge_storages, merge_ranges, merge_from,
  add_ranges, add_range, TensorView,
}
use mtsc.Common.{ℕ, nat_eq, string_eq, ◌≤◌, ◌≡◌, ◌∷◌, refl, put, ok, length, get, [], List, All}

-- Two views of one storage, the second one after a gap, and an empty tensor.
abbrev keys_view : TensorView
keys_view = record {
  storage = 1;
  data_ptr = 1000;
  shape = 2 ∷ 8 ∷ [];
  strides = 64 ∷ 1 ∷ [];
  element_size = 2;
}

abbrev caches : List TensorView
caches =
    record keys_view { data_ptr = 9000 }
    ∷ keys_view
    ∷ record keys_view { data_ptr = 1200 }
    ∷ record keys_view { data_ptr = 0; shape = 0 ∷ [] }
    ∷ []

abbrev found_pointers : List ℕ
found_pointers = 1000 ∷ 9000 ∷ []

abbrev found_lengths : List ℕ
found_lengths = 344 ∷ 144 ∷ []

regions_of_caches : npu_registration_regions caches ≡ ok (found_pointers, found_lengths)
unfolding npu_registration_regions merge_storages merge_ranges merge_from add_ranges add_range
    sort_ranges sort_in get put
regions_of_caches = refl

npu_registration_regions-IsRegistered_example :
    (length found_pointers ≤ 256)
    × All (IsRegistered (zip_regions found_pointers found_lengths)) caches
npu_registration_regions-IsRegistered_example =
    npu_registration_regions-IsRegistered caches found_pointers found_lengths regions_of_caches
