-- ===== src/Pool/Io/Loading.antt =====
-- `_load`: the blocks that one load asks the Store for, and those that it did not get.
use mtsc.Pool.Chunks.{striped_tokens}
use mtsc.Worker.State.{LoadEvent}
use mtsc.Pool.Io.{prepare_all, Item, Database}
use mtsc.Common.{
  value_error, index_error, int_eq, nat_eq, string_eq, ◌∷◌, ◌>>=◌, ◌==◌, ◌/◌, ◌++◌, ℤ, ℕ, some,
  raise, ok, none, map, length, keep_if, is_natural, if◌then◌else◌, get_elem?, false, [], Result,
  List, Bool,
}
use mtsc.Protocol.{BlockIds, BlockHash}

-- chunk < len(mask) and mask[chunk]
abbrev in_load_mask : List Bool → ℕ → Bool
in_load_mask mask index = elim (get_elem? mask index) [ none ↦ false | some bit ↦ bit ]

-- The chunks of each group that the coordinator's mask has, in no stripes.
unfoldable pub load_items :
    LoadEvent → List (Database × List BlockHash × List Bool) → BlockIds → Result (List Item)
load_items event ((db, hashes, mask) ∷ groups) (ids ∷ block_ids) =
    let rest = load_items event groups block_ids in
    striped_tokens db.block_size event.end_load hashes event.start_load none 1 0 >>= λ chunks.
    prepare_all db ids (keep_if (λ c. in_load_mask mask (c.start / db.block_size)) chunks)
    >>= λ items. rest >>= λ later. ok (items ++ later)
load_items event [] block_ids = ok []
load_items event (g ∷ groups) [] = raise (index_error "")

-- The blocks whose status is negative; the lists are as long as each other.
unfoldable pub negative_blocks : List Item → List ℤ → Result (List ℤ)
negative_blocks [] [] = ok []
negative_blocks (item ∷ items) (status ∷ statuses) =
    let rest = negative_blocks items statuses in
    rest >>= λ others. ok (if is_natural status then others else item.block_id ∷ others)
negative_blocks _ _ = raise (value_error "zip")

-- If anything goes wrong, all of the blocks have failed.
unfoldable pub failed_blocks : (List Item → Result (List ℤ)) → List Item → List ℤ
failed_blocks batch_get items =
    elim (batch_get items >>= λ statuses. negative_blocks items statuses) [
      | ok blocks ↦ if length items == 0 then [] else blocks
      | raise problem ↦ if length items == 0 then [] else map (λ item. item.block_id) items
    ]

unfoldable pub load_blocks :
    (List Item → Result (List ℤ))
    → LoadEvent
    → List (Database × List BlockHash × List Bool)
    → Result (List ℤ)
load_blocks batch_get event groups =
    load_items event groups event.block_ids >>= λ items. ok (failed_blocks batch_get items)
