-- ===== src/Tests/Transfer.antt =====
-- Tests of mtsc/kv_transfer.py.
use mtsc.Transfer.Request.Asked.{region_bytes}
use mtsc.Transfer.Regions.Handshake.{targets, handshake_target_ranks-mutual}
use mtsc.Transfer.Runs.Bytes.{copies_of-group_concurrent_contiguous, coalesces, bytes}
use mtsc.Transfer.Request.Complete.{build_request_transfer_params_lem}
use mtsc.Transfer.Regions.{
  validate_asymmetric_region_lengths, tp_ratio, spreads, plan_for, lengths_match,
  handshake_target_ranks, gathers, first_mismatch, compute_sender_transfer_plan, TransferRegion,
  TpRatio, SenderPlan,
}
use mtsc.Transfer.Request.{
  prepare_transfer_regions, pair_groups, build_request_transfer_params, Sender, Peer,
}
use mtsc.Common.{
  ◌≡◌, ◌∷◌, ◌↔◌, ◌<◌, ◌/◌, ◌+◌, ◌*◌, true, refl, pos, ok, map, false, arith, [], List,
}
use mtsc.Transfer.Regions.Plans.{
  plan_for-Covers, compute_sender_transfer_plan-IsInside, IsInside, Covers,
}
use mtsc.Transfer.Runs.{
  run_copies, join_run, group_concurrent_contiguous, copies_of, block_copy, Layout, Copy,
}
use mtsc.Protocol.{BlockIds}

abbrev small : TransferRegion
small = record { base_addr = 1000; block_len = 64; kv_block_len = 64 }

abbrev large : TransferRegion
large = record { base_addr = 5000; block_len = 128; kv_block_len = 128 }

-- The second of two prefill ranks, and the decode rank that has the heads of both.
abbrev sender : Sender
sender = record {
  tp_rank = 1;
  tp_size = 2;
  num_blocks = 10;
  replicated = false;
  regions = small ∷ [];
}

abbrev receiver : Peer
receiver = record { tp_rank = 0; tp_size = 1; regions = large ∷ [] }

abbrev whole_blocks : Layout
whole_blocks = record {
  local_addr = 1000;
  local_len = 64;
  remote_addr = 5000;
  remote_len = 64;
  src_offset = 0;
  dst_offset = 0;
  transfer_len = 64;
}

-- Blocks 2 and 3 go to 4 and 5 in one copy.
one_copy :
    copies_of
      (coalesces whole_blocks)
      whole_blocks
      (group_concurrent_contiguous ((2, 4) ∷ (3, 5) ∷ []))
    ≡ record { src = 1128; dst = 5256; size = 128 } ∷ []
unfolding copies_of run_copies group_concurrent_contiguous join_run
one_copy = refl

copies_of-group_concurrent_contiguous_example :
    bytes (
      copies_of
        (coalesces whole_blocks)
        whole_blocks
        (group_concurrent_contiguous ((2, 4) ∷ (3, 5) ∷ [])))
    ≡ bytes (map (block_copy whole_blocks) ((2, 4) ∷ (3, 5) ∷ []))
copies_of-group_concurrent_contiguous_example =
    copies_of-group_concurrent_contiguous whole_blocks ((2, 4) ∷ (3, 5) ∷ [])

halves : tp_ratio 2 1 ≡ ok (spreads 2)
unfolding tp_ratio
halves = refl

halves_match : lengths_match (spreads 2) 64 128 ≡ true
unfolding lengths_match
halves_match = refl

compute_sender_transfer_plan-IsInside_example :
    (plan : SenderPlan) × (compute_sender_transfer_plan 1 2 0 1 64 128 false ≡ ok plan)
    × (plan.copies ≡ true)
    × IsInside plan 64 128
compute_sender_transfer_plan-IsInside_example =
    compute_sender_transfer_plan-IsInside 1 2 0 1 64 128 halves halves_match

plan_for-Covers_example :
    (100 / 64 < 2)
    × (let plan = plan_for (spreads 2) (0 * 2 + 1) 0 64 (64 * 2) false in
        (Covers plan.dst_offset plan.transfer_len 100 ↔ (1 ≡ 100 / 64)))
    × (let plan = plan_for (gathers 2) 0 (0 * 2 + 1) (64 * 2) 64 false in
        (Covers plan.src_offset plan.transfer_len 100 ↔ (1 ≡ 100 / 64)))
plan_for-Covers_example = plan_for-Covers 2 0 1 64 100 (omega arith) (omega arith) (omega arith)

handshake_target_ranks-mutual_example :
    targets (handshake_target_ranks 3 4 2) 1 ≡ targets (handshake_target_ranks 1 2 4) 3
handshake_target_ranks-mutual_example =
    handshake_target_ranks-mutual 3 4 1 2 (omega arith) (omega arith)

abbrev sources : BlockIds
sources = (pos 1 ∷ pos 2 ∷ pos 3 ∷ []) ∷ []

abbrev destinations : BlockIds
destinations = (pos 7 ∷ pos 8 ∷ []) ∷ []

valid : prepare_transfer_regions sender receiver ≡ ok receiver.regions
unfolding prepare_transfer_regions validate_asymmetric_region_lengths tp_ratio first_mismatch
    lengths_match
valid = refl

paired_up : pair_groups sources destinations ≡ ok ((pos 2, pos 7) ∷ (pos 3, pos 8) ∷ [])
unfolding pair_groups
paired_up = refl

build_request_transfer_params_lem_example :
    (copies : List Copy) × (ratio : TpRatio) × (build_request_transfer_params sender receiver
        sources destinations
      ≡ ok copies)
    × (tp_ratio 2 1 ≡ ok ratio)
    × (bytes copies
        ≡ region_bytes ratio sender receiver
            ((pos 2, pos 7) ∷ (pos 3, pos 8) ∷ [])
            (small ∷ [])
            (large ∷ []))
build_request_transfer_params_lem_example =
    build_request_transfer_params_lem sender receiver sources destinations refl valid paired_up
      (omega arith, (omega arith, tt))
