-- ===== src/Transfer/Request/Complete.antt =====
-- mtsc/kv_transfer.py: a request whose regions and blocks fit is translated, and to what.
use mtsc.Transfer.Request.Asked.{
  share, region_bytes, plan_for-share, pair_bytes, kept, in_memory-kept, block_bytes-kept,
  AllRegistered,
}
use mtsc.Transfer.Runs.Bytes.{
  copies_of-group_concurrent_contiguous, coalesces, bytes-append, bytes, block_bytes,
}
use mtsc.Transfer.Regions.{
  validate_asymmetric_region_lengths, tp_ratio, plan_for, lengths_match, first_mismatch,
  compute_sender_transfer_plan, TransferRegion, TpRatio, SenderPlan,
}
use mtsc.Transfer.Request.{
  wanted, region_copies, prepare_transfer_regions, planned_copies, pair_groups, layout_of,
  in_memory, build_request_transfer_params, all_copies, Sender, Peer,
}
use mtsc.Common.{
  sym, subst, ok-injective, nat_eq, string_eq, nat_eq, ap, int_eq, ◌≡◌, ◌∷◌, ◌∙◌, ◌++◌, ℤ, ℕ, true,
  suc, refl, ok, none, length, inr, inl, false, arith, [], Result-cases, List,
}
use mtsc.Transfer.Regions.Plans.{tp_ratio-IsRatio, plan_for-copies, plan_for-IsInside, IsInside}
use mtsc.Transfer.Runs.{group_concurrent_contiguous, copies_of, Pair, Copy}
use mtsc.Protocol.{BlockIds}

-- The bytes that the translation copies for every pair of regions, block by block.
copied_bytes :
    TpRatio → Sender → Peer → List Pair → List TransferRegion → List TransferRegion → List (ℕ × ℕ)
copied_bytes ratio sender peer blocks (source ∷ sources) (remote ∷ remotes) =
    block_bytes
      (layout_of
        (plan_for ratio sender.tp_rank peer.tp_rank source.kv_block_len remote.kv_block_len false)
        source remote)
      blocks
    ++ copied_bytes ratio sender peer blocks sources remotes
copied_bytes ratio sender peer blocks _ _ = []

module _ (sender : Sender) (peer : Peer) (blocks : List Pair) where
  planned_copies-ok :
      (source remote : TransferRegion) (plan : SenderPlan)
      → plan.copies ≡ true
      → IsInside plan source.kv_block_len remote.kv_block_len
      → planned_copies blocks source remote plan
        ≡ ok (
            copies_of
              (coalesces (layout_of plan source remote))
              (layout_of plan source remote)
              (group_concurrent_contiguous blocks))
  unfolding planned_copies layout_of
  planned_copies-ok source remote plan h k = ground (arith, h, k.0, k.1)

  region_copies-ok :
      (ratio : TpRatio) (source remote : TransferRegion)
      → sender.replicated ≡ false
      → tp_ratio sender.tp_size peer.tp_size ≡ ok ratio
      → lengths_match ratio source.kv_block_len remote.kv_block_len ≡ true
      → (copies : List Copy) × (region_copies sender peer blocks source remote ≡ ok copies)
        × (bytes copies
            ≡ block_bytes
                (layout_of
                  (plan_for ratio sender.tp_rank peer.tp_rank source.kv_block_len
                    remote.kv_block_len false)
                  source
                  remote)
                blocks)
  unfolding region_copies compute_sender_transfer_plan
  region_copies-ok ratio source remote shared h k =
      let plan =
        plan_for ratio sender.tp_rank peer.tp_rank source.kv_block_len remote.kv_block_len false in
      let layout = layout_of plan source remote in
      (
        copies_of (coalesces layout) layout (group_concurrent_contiguous blocks),
        rw (h, shared)
            (planned_copies-ok source remote plan
              (plan_for-copies ratio sender.tp_rank peer.tp_rank source.kv_block_len
                remote.kv_block_len)
              (plan_for-IsInside ratio sender.tp_rank peer.tp_rank source.kv_block_len
                remote.kv_block_len (tp_ratio-IsRatio sender.tp_size peer.tp_size ratio h) k)),
        copies_of-group_concurrent_contiguous layout blocks,
      )

  all_copies-ok :
      (index : ℕ) (ratio : TpRatio) (pairs : List (ℤ × ℕ)) (sources remotes : List TransferRegion)
      → sender.replicated ≡ false
      → tp_ratio sender.tp_size peer.tp_size ≡ ok ratio
      → in_memory sender.num_blocks pairs ≡ ok blocks
      → length sources ≡ length remotes
      → first_mismatch index ratio sources remotes ≡ none
      → (copies : List Copy) × (all_copies sender peer pairs sources remotes ≡ ok copies)
        × (bytes copies ≡ copied_bytes ratio sender peer blocks sources remotes)
  unfolding all_copies first_mismatch copied_bytes bytes
  all_copies-ok index ratio pairs [] [] shared h inside same fits = ([], refl, refl)
  all_copies-ok index ratio pairs [] (r ∷ rs) shared h inside same fits = ground (arith, same)
  all_copies-ok index ratio pairs (s ∷ ss) [] shared h inside same fits = ground (arith, same)
  all_copies-ok index ratio pairs (s ∷ ss) (r ∷ rs) shared h inside same fits =
      let (copies, here, moved) = region_copies-ok ratio s r shared h (ground (arith, fits)) in
      let (later, there, moved') =
        all_copies-ok (suc index) ratio pairs ss rs shared h inside (ground (arith, same))
          (ground (arith, fits)) in
      (
        copies ++ later,
        rw (inside, here, there) refl,
        bytes-append copies later ∙ ground (arith, moved, moved'),
      )

-- What the check of the regions gives for a cache that is not replicated.
prepare_transfer_regions_lem :
    (sender : Sender) (peer : Peer)
    → sender.replicated ≡ false
    → prepare_transfer_regions sender peer ≡ ok peer.regions
    → (ratio : TpRatio) × (tp_ratio sender.tp_size peer.tp_size ≡ ok ratio)
      × (length sender.regions ≡ length peer.regions)
      × (first_mismatch 0 ratio sender.regions peer.regions ≡ none)
unfolding prepare_transfer_regions validate_asymmetric_region_lengths
prepare_transfer_regions_lem sender peer shared valid =
    elim (Result-cases (tp_ratio sender.tp_size peer.tp_size)) [
      | inl (ratio, h) ↦
          (ratio, h, ground (arith, h, shared, valid), ground (arith, h, shared, valid))
      | inr (e, h) ↦ ground (arith, h, shared, valid)
    ]

build_request_transfer_params-copied :
    (sender : Sender) (peer : Peer) (sources destinations : BlockIds) {pairs : List (ℤ × ℤ)}
    {blocks : List Pair}
    → sender.replicated ≡ false
    → prepare_transfer_regions sender peer ≡ ok peer.regions
    → pair_groups sources destinations ≡ ok pairs
    → in_memory sender.num_blocks (wanted pairs) ≡ ok blocks
    → (copies : List Copy) × (ratio : TpRatio) × (build_request_transfer_params sender peer sources
          destinations
        ≡ ok copies)
      × (tp_ratio sender.tp_size peer.tp_size ≡ ok ratio)
      × (bytes copies ≡ copied_bytes ratio sender peer blocks sender.regions peer.regions)
unfolding build_request_transfer_params
build_request_transfer_params-copied sender peer sources destinations shared valid paired inside =
    let (ratio, h, same, fits) = prepare_transfer_regions_lem sender peer shared valid in
    let (copies, built, moved) =
      all_copies-ok sender peer _ 0 ratio _ sender.regions peer.regions shared h inside same fits in
    (copies, ratio, rw (valid, paired) built, h, moved)

copied_bytes-kept :
    (sender : Sender) (peer : Peer) (index : ℕ) (ratio : TpRatio) (pairs : List (ℤ × ℤ))
    (sources remotes : List TransferRegion)
    → length sources ≡ length remotes
    → first_mismatch index ratio sources remotes ≡ none
    → copied_bytes ratio sender peer (kept pairs) sources remotes
      ≡ region_bytes ratio sender peer pairs sources remotes
unfolding copied_bytes first_mismatch
copied_bytes-kept sender peer index ratio pairs [] remotes same fits = refl
copied_bytes-kept sender peer index ratio pairs (s ∷ ss) [] same fits = refl
copied_bytes-kept sender peer index ratio pairs (s ∷ ss) (r ∷ rs) same fits =
    let plan = plan_for ratio sender.tp_rank peer.tp_rank s.kv_block_len r.kv_block_len false in
    let here : block_bytes (layout_of plan s r) (kept pairs)
        ≡ pair_bytes s r (share ratio sender.tp_rank peer.tp_rank s.kv_block_len r.kv_block_len)
            pairs =
      block_bytes-kept plan s r pairs
      ∙ ap (λ part. pair_bytes s r part pairs)
          (plan_for-share ratio sender.tp_rank peer.tp_rank s.kv_block_len r.kv_block_len
            (ground (arith, fits))) in
    let there =
      copied_bytes-kept sender peer (suc index) ratio pairs ss rs (ground (arith, same))
        (ground (arith, fits)) in
    ap (λ x. x ++ copied_bytes ratio sender peer (kept pairs) ss rs) here
    ∙ ap
        (◌++◌ (
          pair_bytes s r (share ratio sender.tp_rank peer.tp_rank s.kv_block_len r.kv_block_len)
            pairs))
        there

-- When the check of the regions passes, the blocks of the request pair up and every source that goes
-- to a block is one of the registered blocks, a request to a rank that does not hold a replicated
-- cache is translated without an error. In every pair of regions its copies move, pair of blocks after
-- pair, exactly the bytes of the share of the source block to its place in the destination block, and
-- nothing for a destination that is negative.
pub build_request_transfer_params_lem :
    (sender : Sender) (peer : Peer) (sources destinations : BlockIds) {pairs : List (ℤ × ℤ)}
    → sender.replicated ≡ false
    → prepare_transfer_regions sender peer ≡ ok peer.regions
    → pair_groups sources destinations ≡ ok pairs
    → AllRegistered sender.num_blocks pairs
    → (copies : List Copy) × (ratio : TpRatio) × (build_request_transfer_params sender peer sources
          destinations
        ≡ ok copies)
      × (tp_ratio sender.tp_size peer.tp_size ≡ ok ratio)
      × (bytes copies ≡ region_bytes ratio sender peer pairs sender.regions peer.regions)
build_request_transfer_params_lem sender peer sources destinations {pairs} shared valid paired
      inside =
    let (ratio', h', same, fits) = prepare_transfer_regions_lem sender peer shared valid in
    let (copies, ratio, built, h, moved) =
      build_request_transfer_params-copied sender peer sources destinations shared valid paired
        (in_memory-kept sender.num_blocks pairs inside) in
    let one : ratio' ≡ ratio = ok-injective (sym h' ∙ h) in
    (
      copies,
      ratio,
      built,
      h,
      moved
          ∙ copied_bytes-kept sender peer 0 ratio pairs sender.regions peer.regions same
              (subst (λ n. first_mismatch 0 n sender.regions peer.regions ≡ none) one fits),
    )
