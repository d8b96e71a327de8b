-- ===== src/Transfer/Regions.antt =====
-- mtsc/kv_transfer.py: memory regions, tensor-parallel ratios, and which part of a block a prefill
-- rank copies to a decode rank.
pub mod Plans
pub mod Handshake
use mtsc.Common.{
  ◌++◌, nat_eq, string_eq, ◌∷◌, ◌>>=◌, ◌==◌, ◌/◌, ◌+◌, ◌*◌, ◌&&◌, ◌%◌, ℕ, zero_division_error, zero,
  value_error, true, suc, some, raise, ok, not, none, map_option, map, length, leb, if◌then◌else◌,
  assertion_error, [], Result, Option, List, Bool,
}

pub record TransferRegion : Type 0 where
  pub base_addr : ℕ
  pub block_len : ℕ
  pub kv_block_len : ℕ

-- The larger size by the smaller one, which must divide it.
unfoldable pub exact_ratio : ℕ → ℕ → Result ℕ
exact_ratio large small =
    if small == 0
    then raise (zero_division_error "integer modulo by zero")
    else if large % small == 0
    then ok (large / small)
    else raise (assertion_error "Tensor parallel size is not divisible")

-- `gathers k` is the negative ratio -k: k remote ranks read from one local rank.
pub data TpRatio : Type 0 where
  spreads : ℕ → TpRatio
  gathers : ℕ → TpRatio

unfoldable pub tp_ratio : ℕ → ℕ → Result TpRatio
unfolding exact_ratio
tp_ratio local_tp_size remote_tp_size =
    if leb remote_tp_size local_tp_size
    then (exact_ratio local_tp_size remote_tp_size >>= (λ ratio. ok (spreads ratio)))
    else (exact_ratio remote_tp_size local_tp_size >>= (λ ratio. ok (gathers ratio)))

-- A zip: the lists are equally long, which the code asserts.
expand : Bool → List ℕ → List ℕ → List TransferRegion
expand blocks_first (base ∷ bases) (len ∷ lens) =
    let rest = expand blocks_first bases lens in
    let half = if blocks_first then len / 2 else len in
    record { base_addr = base; block_len = len; kv_block_len = half }
    ∷ (if blocks_first
        then record { base_addr = base + half; block_len = len; kv_block_len = half } ∷ rest
        else rest)
expand blocks_first _ _ = []

unfoldable pub expand_transfer_regions : List ℕ → List ℕ → Bool → Result (List TransferRegion)
unfolding expand
expand_transfer_regions base_addrs block_lens is_kv_layout_blocks_first =
    if length base_addrs == length block_lens
    then ok (expand is_kv_layout_blocks_first base_addrs block_lens)
    else raise (assertion_error "Mooncake transfer regions require matching numbers")

pub record SenderPlan : Type 0 where
  pub copies : Bool
  pub src_offset : ℕ
  pub dst_offset : ℕ
  pub transfer_len : ℕ

-- The ratio is at least one.
unfoldable pub plan_for : TpRatio → ℕ → ℕ → ℕ → ℕ → Bool → SenderPlan
plan_for (spreads ratio) local_rank remote_rank local_len remote_len replicated =
    if ratio == 1
    then record { copies = true; src_offset = 0; dst_offset = 0; transfer_len = local_len }
    else if replicated
    then record {
      copies = local_rank % ratio == 0;
      src_offset = 0;
      dst_offset = 0;
      transfer_len = local_len;
    }
    else record {
      copies = true;
      src_offset = 0;
      dst_offset = (local_rank % ratio) * local_len;
      transfer_len = local_len;
    }
plan_for (gathers ratio) local_rank remote_rank local_len remote_len replicated =
    if replicated
    then record { copies = true; src_offset = 0; dst_offset = 0; transfer_len = local_len }
    else record {
      copies = true;
      src_offset = (remote_rank % ratio) * remote_len;
      dst_offset = 0;
      transfer_len = remote_len;
    }

unfoldable pub compute_sender_transfer_plan : ℕ → ℕ → ℕ → ℕ → ℕ → ℕ → Bool → Result SenderPlan
compute_sender_transfer_plan local_rank local_size remote_rank remote_size local_len remote_len
      replicated =
    tp_ratio local_size remote_size >>= λ ratio.
    ok (plan_for ratio local_rank remote_rank local_len remote_len replicated)

abbrev pub can_coalesce_block_transfers : ℕ → ℕ → ℕ → ℕ → ℕ → Bool
can_coalesce_block_transfers local_block_len remote_block_len src_offset dst_offset transfer_len =
    src_offset == 0
    && dst_offset == 0
    && transfer_len == local_block_len
    && transfer_len == remote_block_len

-- The lengths that a ratio asks of a pair of regions.
unfoldable pub lengths_match : TpRatio → ℕ → ℕ → Bool
lengths_match (spreads ratio) local_len remote_len =
    if ratio == 1 then local_len == remote_len else remote_len == local_len * ratio
lengths_match (gathers ratio) local_len remote_len = local_len == remote_len * ratio

-- The index of the first pair of regions that does not match.
unfoldable pub first_mismatch : ℕ → TpRatio → List TransferRegion → List TransferRegion → Option ℕ
first_mismatch index ratio (local_region ∷ local_regions) (remote ∷ remotes) =
    let rest = first_mismatch (suc index) ratio local_regions remotes in
    if lengths_match ratio local_region.kv_block_len remote.kv_block_len then rest else some index
first_mismatch index ratio _ _ = none

-- What the messages of the check tell apart.
pub data Mismatch : Type 0 where
  region_counts : Mismatch
  region_lengths : ℕ → Mismatch

unfoldable pub validate_asymmetric_region_lengths :
    List TransferRegion → List TransferRegion → ℕ → ℕ → Bool → Result (Option Mismatch)
validate_asymmetric_region_lengths local_regions remotes local_size remote_size replicated =
    if not (length local_regions == length remotes)
    then ok (some region_counts)
    else if replicated
    then ok none
    else tp_ratio local_size remote_size >>= λ ratio.
        ok (map_option region_lengths (first_mismatch 0 ratio local_regions remotes))

-- range(n)
unfoldable pub upto : ℕ → List ℕ
upto zero = []
upto (suc n) = upto n ++ n ∷ []

-- The peer ranks that a rank talks to.
unfoldable pub handshake_target_ranks : ℕ → ℕ → ℕ → Result (List ℕ)
handshake_target_ranks tp_rank tp_size remote_tp_size =
    if leb remote_tp_size tp_size
    then (if remote_tp_size == 0
        then raise (zero_division_error "integer modulo by zero")
        else if tp_size % remote_tp_size == 0
        then ok (tp_rank / (tp_size / remote_tp_size) ∷ [])
        else raise (value_error "P/D TP sizes must have an integer ratio"))
    else if tp_size == 0
    then raise (zero_division_error "integer modulo by zero")
    else if remote_tp_size % tp_size == 0
    then ok (
        map (λ offset. tp_rank * (remote_tp_size / tp_size) + offset)
          (upto (remote_tp_size / tp_size)))
    else raise (value_error "P/D TP sizes must have an integer ratio")
