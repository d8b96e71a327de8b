-- ===== src/Transfer/Request/Asked.antt =====
-- mtsc/kv_transfer.py: the bytes that a request asks for, told without the plans and copies of the code.
use mtsc.Transfer.Runs.Bytes.{span, bytes, block_bytes}
use mtsc.Transfer.Regions.{
  spreads, plan_for, lengths_match, gathers, TransferRegion, TpRatio, SenderPlan,
}
use mtsc.Transfer.Request.{wanted, layout_of, in_memory, Sender, Peer}
use mtsc.Transfer.Runs.{block_copy, Pair}
use mtsc.Common.{
  int_eq, nat_eq, string_eq, ◌≡◌, ◌∷◌, ◌==◌, ◌<◌, ◌+◌, ◌++◌, ◌*◌, ◌%◌, ℤ, true, refl, pos, ok,
  negsuc, nat_eq, inr, inl, false, arith, ap, [], List, Bool-cases, ℕ,
}

-- What a pair of blocks with these lengths exchanges between two ranks: from where in the source, to
-- where in the destination, and how much. A shorter source fills its share of the destination, a
-- shorter destination takes its share of the source.
abbrev pub share : TpRatio → ℕ → ℕ → ℕ → ℕ → ℕ × ℕ × ℕ
share (spreads n) tp_rank peer_rank source_len remote_len =
    (0, (tp_rank % n) * source_len, source_len)
share (gathers n) tp_rank peer_rank source_len remote_len =
    ((peer_rank % n) * remote_len, 0, remote_len)

-- Byte after byte of the shares of the pairs, with the place it goes to. A pair whose destination is
-- negative asks for nothing.
abbrev pub pair_bytes : TransferRegion → TransferRegion → ℕ × ℕ × ℕ → List (ℤ × ℤ) → List (ℕ × ℕ)
pair_bytes source remote (from, to, size) [] = []
pair_bytes source remote (from, to, size) ((pos s, pos d) ∷ pairs) =
    span (source.base_addr + s * source.block_len + from)
      (remote.base_addr + d * remote.block_len + to) size
    ++ pair_bytes source remote (from, to, size) pairs
pair_bytes source remote part (pair ∷ pairs) = pair_bytes source remote part pairs

abbrev pub region_bytes :
    TpRatio
    → Sender
    → Peer
    → List (ℤ × ℤ)
    → List TransferRegion
    → List TransferRegion
    → List (ℕ × ℕ)
region_bytes ratio sender peer pairs (source ∷ sources) (remote ∷ remotes) =
    pair_bytes source remote
      (share ratio sender.tp_rank peer.tp_rank source.kv_block_len remote.kv_block_len) pairs
    ++ region_bytes ratio sender peer pairs sources remotes
region_bytes ratio sender peer pairs _ _ = []

-- Every source that goes to a block is one of the registered ones.
abbrev pub AllRegistered : ℕ → List (ℤ × ℤ) → Type 0
AllRegistered num_blocks [] = Unit
AllRegistered num_blocks ((source, negsuc n) ∷ pairs) = AllRegistered num_blocks pairs
AllRegistered num_blocks ((pos s, pos d) ∷ pairs) =
    (s < num_blocks) × AllRegistered num_blocks pairs
AllRegistered num_blocks ((negsuc n, pos d) ∷ pairs) = ⊥

pub kept : List (ℤ × ℤ) → List Pair
kept [] = []
kept ((pos s, pos d) ∷ pairs) = (s, d) ∷ kept pairs
kept ((negsuc n, pos d) ∷ pairs) = kept pairs
kept ((source, negsuc n) ∷ pairs) = kept pairs

pub in_memory-kept :
    (num_blocks : ℕ) (pairs : List (ℤ × ℤ))
    → AllRegistered num_blocks pairs
    → in_memory num_blocks (wanted pairs) ≡ ok (kept pairs)
unfolding in_memory wanted kept
in_memory-kept num_blocks [] h = refl
in_memory-kept num_blocks ((pos s, negsuc n) ∷ pairs) h = in_memory-kept num_blocks pairs h
in_memory-kept num_blocks ((negsuc m, negsuc n) ∷ pairs) h = in_memory-kept num_blocks pairs h
in_memory-kept num_blocks ((negsuc m, pos d) ∷ pairs) h = absurd h
in_memory-kept num_blocks ((pos s, pos d) ∷ pairs) h =
    ground (arith, h.0, in_memory-kept num_blocks pairs h.1)

pub block_bytes-kept :
    (plan : SenderPlan) (source remote : TransferRegion) (pairs : List (ℤ × ℤ))
    → block_bytes (layout_of plan source remote) (kept pairs)
      ≡ pair_bytes source remote (plan.src_offset, plan.dst_offset, plan.transfer_len) pairs
unfolding layout_of block_copy bytes kept
block_bytes-kept plan source remote [] = refl
block_bytes-kept plan source remote ((pos s, negsuc n) ∷ pairs) =
    block_bytes-kept plan source remote pairs
block_bytes-kept plan source remote ((negsuc m, negsuc n) ∷ pairs) =
    block_bytes-kept plan source remote pairs
block_bytes-kept plan source remote ((negsuc m, pos d) ∷ pairs) =
    block_bytes-kept plan source remote pairs
block_bytes-kept plan source remote ((pos s, pos d) ∷ pairs) =
    ap
      (◌++◌ (
        span (source.base_addr + s * source.block_len + plan.src_offset)
          (remote.base_addr + d * remote.block_len + plan.dst_offset) plan.transfer_len))
      (block_bytes-kept plan source remote pairs)

pub plan_for-share :
    (ratio : TpRatio) (tp_rank peer_rank source_len remote_len : ℕ)
    → lengths_match ratio source_len remote_len ≡ true
    → let plan = plan_for ratio tp_rank peer_rank source_len remote_len false in
      (plan.src_offset, plan.dst_offset, plan.transfer_len)
      ≡ share ratio tp_rank peer_rank source_len remote_len
unfolding plan_for
plan_for-share (spreads n) tp_rank peer_rank source_len remote_len same =
    elim (Bool-cases (n == 1)) [
      | inl one ↦
          let e : n ≡ 1 = (nat_eq.beq_iff n 1).0 one in
          let first : tp_rank % 1 ≡ 0 = omega arith in
          let start : 0 ≡ tp_rank % 1 * source_len = rw first (omega arith) in
          rw (e, plan_for) (ap (λ x. (0, x, source_len)) start)
      | inr more ↦ ground (arith, more)
    ]
plan_for-share (gathers n) tp_rank peer_rank source_len remote_len same =
    elim (Bool-cases (n == 1)) [ inl one ↦ ground (arith, one) | inr more ↦ ground (arith, more) ]
