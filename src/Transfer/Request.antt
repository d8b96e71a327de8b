-- ===== src/Transfer/Request.antt =====
-- mtsc/kv_transfer.py: the copies that a pull request of a decode rank becomes.
pub mod Asked
pub mod Complete
use mtsc.Transfer.Runs.{group_concurrent_contiguous, copies_of, Pair, Layout, Copy}
use mtsc.Transfer.Regions.{
  compute_sender_transfer_plan, can_coalesce_block_transfers, SenderPlan,
  validate_asymmetric_region_lengths, TransferRegion,
}
use mtsc.Common.{
  has, nat_eq, ◌==◌, ◌+◌, pos, not, negsuc, ltb, if◌then◌else◌, assertion_error, int_eq, string_eq,
  ◌∷◌, ◌>>=◌, ◌-◌, ◌++◌, ℤ, ℕ, value_error, some, raise, ok, none, length, drop, [], Result, List,
  Bool,
}
use mtsc.Protocol.{BlockIds}

-- A prefill rank: its place, its registered memory and whether all ranks hold the same cache.
pub record Sender : Type 0 where
  pub tp_rank : ℕ
  pub tp_size : ℕ
  pub num_blocks : ℕ
  pub replicated : Bool
  pub regions : List TransferRegion

pub record Peer : Type 0 where
  pub tp_rank : ℕ
  pub tp_size : ℕ
  pub regions : List TransferRegion

-- The layout that Ascend asks for is not checked: that depends on the platform.
unfoldable pub prepare_transfer_regions : Sender → Peer → Result (List TransferRegion)
prepare_transfer_regions sender peer =
    validate_asymmetric_region_lengths sender.regions peer.regions sender.tp_size peer.tp_size
      sender.replicated
    >>= λ mismatch. elim mismatch [
      | none ↦ ok peer.regions
      | some m ↦ raise (value_error "Mooncake asymmetric TP region mismatch")
    ]

zip_blocks : List ℤ → List ℤ → List (ℤ × ℤ)
zip_blocks (source ∷ sources) (destination ∷ destinations) =
    (source, destination) ∷ zip_blocks sources destinations
zip_blocks _ _ = []

-- Each group is trimmed to the blocks that the decode rank asked for, from its end.
trim_groups : BlockIds → BlockIds → Result (List (ℤ × ℤ))
unfolding zip_blocks
trim_groups (source ∷ sources) (destination ∷ destinations) =
    let rest = trim_groups sources destinations in
    if ltb (length source) (length destination)
    then raise (value_error "P has fewer source blocks than D requested")
    else (rest >>= (λ pairs.
        ok (zip_blocks (drop (length source - length destination) source) destination ++ pairs)))
trim_groups _ _ = ok []

unfoldable pub pair_groups : BlockIds → BlockIds → Result (List (ℤ × ℤ))
unfolding trim_groups
pair_groups sources destinations =
    if length sources == length destinations
    then trim_groups sources destinations
    else raise (value_error "P/D KV group count mismatch")

-- The pairs whose destination is wanted.
unfoldable pub wanted : List (ℤ × ℤ) → List (ℤ × ℕ)
wanted [] = []
wanted ((source, pos destination) ∷ pairs) = (source, destination) ∷ wanted pairs
wanted ((source, negsuc n) ∷ pairs) = wanted pairs

-- No source block may lie outside the registered memory.
unfoldable pub in_memory : ℕ → List (ℤ × ℕ) → Result (List Pair)
in_memory num_blocks [] = ok []
in_memory num_blocks ((negsuc n, destination) ∷ pairs) =
    raise (value_error "Requested source block is outside registered memory")
in_memory num_blocks ((pos source, destination) ∷ pairs) =
    let rest = in_memory num_blocks pairs in
    if ltb source num_blocks
    then (rest >>= (λ checked. ok ((source, destination) ∷ checked)))
    else raise (value_error "Requested source block is outside registered memory")

unfoldable pub layout_of : SenderPlan → TransferRegion → TransferRegion → Layout
layout_of plan source remote = record {
  local_addr = source.base_addr;
  local_len = source.block_len;
  remote_addr = remote.base_addr;
  remote_len = remote.block_len;
  src_offset = plan.src_offset;
  dst_offset = plan.dst_offset;
  transfer_len = plan.transfer_len;
}

unfoldable pub planned_copies :
    List Pair → TransferRegion → TransferRegion → SenderPlan → Result (List Copy)
unfolding layout_of
planned_copies pairs source remote plan =
    if not plan.copies
    then ok []
    else if ltb source.kv_block_len (plan.src_offset + plan.transfer_len)
    then raise (assertion_error "Computed source transfer region exceeds local KV block size.")
    else if ltb remote.kv_block_len (plan.dst_offset + plan.transfer_len)
    then raise
        (assertion_error "Computed destination transfer region exceeds remote KV block size.")
    else ok (
        copies_of
          (can_coalesce_block_transfers source.block_len remote.block_len plan.src_offset
            plan.dst_offset plan.transfer_len)
          (layout_of plan source remote) (group_concurrent_contiguous pairs))

-- The plan of a pair of regions, and its copies.
unfoldable pub region_copies :
    Sender → Peer → List Pair → TransferRegion → TransferRegion → Result (List Copy)
region_copies sender peer pairs source remote =
    compute_sender_transfer_plan sender.tp_rank sender.tp_size peer.tp_rank peer.tp_size
      source.kv_block_len remote.kv_block_len sender.replicated
    >>= planned_copies pairs source remote

-- For every pair of regions; the source blocks are checked anew for each of them.
unfoldable pub all_copies :
    Sender → Peer → List (ℤ × ℕ) → List TransferRegion → List TransferRegion → Result (List Copy)
unfolding in_memory
all_copies sender peer blocks (source ∷ sources) (remote ∷ remotes) =
    let rest = all_copies sender peer blocks sources remotes in
    in_memory sender.num_blocks blocks >>= (λ pairs.
      region_copies sender peer pairs source remote
      >>= (λ copies. rest >>= (λ later. ok (copies ++ later))))
all_copies sender peer blocks [] [] = ok []
all_copies sender peer blocks _ _ = raise (value_error "zip() arguments differ in length")

unfoldable pub build_request_transfer_params :
    Sender → Peer → BlockIds → BlockIds → Result (List Copy)
unfolding all_copies wanted
build_request_transfer_params sender peer local_block_ids requested_groups =
    prepare_transfer_regions sender peer >>= (λ remote_regions.
      pair_groups local_block_ids requested_groups
      >>= (λ pairs. all_copies sender peer (wanted pairs) sender.regions remote_regions))
