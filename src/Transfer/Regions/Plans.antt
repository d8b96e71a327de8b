-- ===== src/Transfer/Regions/Plans.antt =====
-- mtsc/kv_transfer.py: the parts of the blocks that the ranks of both sides copy.
use mtsc.Common.{
  sym, subst, refl, ◌↔◌, ◌/◌, ◌≤◌, ◌≡◌, ◌<◌, ◌+◌, ◌*◌, ◌%◌, ℕ, true, ok, false, arith,
}
use mtsc.Transfer.Regions.{
  compute_sender_transfer_plan, tp_ratio, spreads, plan_for, lengths_match, gathers, exact_ratio,
  TpRatio, SenderPlan,
}

-- Both ends of a copy lie inside a K or V part of their block.
abbrev pub IsInside : SenderPlan → ℕ → ℕ → Type 0
IsInside plan local_len remote_len =
    (plan.src_offset + plan.transfer_len ≤ local_len)
    × (plan.dst_offset + plan.transfer_len ≤ remote_len)

-- The ratio of ranks is at least one.
abbrev pub IsRatio : TpRatio → Type 0
IsRatio (spreads ratio) = 0 < ratio
IsRatio (gathers ratio) = 0 < ratio

part-le : (rank ratio len : ℕ) → 0 < ratio → (rank % ratio) * len + len ≤ len * ratio
part-le rank ratio len h = grind arith

pub plan_for-IsInside :
    (ratio : TpRatio) (local_rank remote_rank local_len remote_len : ℕ)
    → IsRatio ratio
    → lengths_match ratio local_len remote_len ≡ true
    → IsInside
        (plan_for ratio local_rank remote_rank local_len remote_len false)
        local_len
        remote_len
unfolding lengths_match plan_for
plan_for-IsInside (spreads ratio) local_rank remote_rank local_len remote_len pos_ratio h =
    ground (arith, h, part-le local_rank ratio local_len pos_ratio)
plan_for-IsInside (gathers ratio) local_rank remote_rank local_len remote_len pos_ratio h =
    ground (arith, h, part-le remote_rank ratio remote_len pos_ratio)

exact_ratio_lem :
    (large small : ℕ) {ratio : ℕ}
    → exact_ratio large small ≡ ok ratio
    → (0 < small) × (large ≡ ratio * small)
unfolding exact_ratio
exact_ratio_lem large small h = grind (arith, h)

ratio-pos :
    (large small : ℕ) {ratio : ℕ} → exact_ratio large small ≡ ok ratio → small ≤ large → 0 < ratio
ratio-pos large small {ratio} h le = grind (arith, exact_ratio_lem large small h)

pub tp_ratio-IsRatio :
    (local_size remote_size : ℕ) (ratio : TpRatio)
    → tp_ratio local_size remote_size ≡ ok ratio
    → IsRatio ratio
unfolding tp_ratio
tp_ratio-IsRatio local_size remote_size (spreads ratio) h =
    grind (arith, h, ratio-pos local_size remote_size {ratio = ratio})
tp_ratio-IsRatio local_size remote_size (gathers ratio) h =
    grind (arith, h, ratio-pos remote_size local_size {ratio = ratio})

-- A byte of a block lies in a part of it.
abbrev pub Covers : ℕ → ℕ → ℕ → Type 0
Covers offset len byte = (offset ≤ byte) × (byte < offset + len)

rank-mod : (rank ratio i : ℕ) → i < ratio → (rank * ratio + i) % ratio ≡ i
rank-mod rank ratio i h = grind arith

Covers-part : (i len byte : ℕ) → 0 < len → Covers (i * len) len byte ↔ (i ≡ byte / len)
Covers-part i len byte h = grind arith

part-lt : (byte len ratio : ℕ) → 0 < len → byte < len * ratio → byte / len < ratio
part-lt byte len ratio h k = grind arith

pub plan_for-copies :
    (ratio : TpRatio) (local_rank remote_rank local_len remote_len : ℕ)
    → (plan_for ratio local_rank remote_rank local_len remote_len false).copies ≡ true
unfolding plan_for
plan_for-copies (spreads ratio) local_rank remote_rank local_len remote_len = ground arith
plan_for-copies (gathers ratio) local_rank remote_rank local_len remote_len = refl

-- When a prefill rank copies a part of a block that it does not share with the other ranks, for
-- sizes of regions that pass the check, both ends of the copy lie inside their blocks.
pub compute_sender_transfer_plan-IsInside :
    (local_rank local_size remote_rank remote_size local_len remote_len : ℕ) {ratio : TpRatio}
    → tp_ratio local_size remote_size ≡ ok ratio
    → lengths_match ratio local_len remote_len ≡ true
    → (plan : SenderPlan) × (compute_sender_transfer_plan local_rank local_size remote_rank
          remote_size local_len remote_len false
        ≡ ok plan)
      × (plan.copies ≡ true)
      × IsInside plan local_len remote_len
unfolding compute_sender_transfer_plan
compute_sender_transfer_plan-IsInside local_rank local_size remote_rank remote_size local_len
      remote_len {ratio} h k =
    (
      plan_for ratio local_rank remote_rank local_len remote_len false,
      rw h refl,
      plan_for-copies ratio local_rank remote_rank local_len remote_len,
      plan_for-IsInside ratio local_rank remote_rank local_len remote_len
          (tp_ratio-IsRatio local_size remote_size ratio h) k,
    )

mod-one : (n len : ℕ) → 0 ≡ (n % 1) * len
mod-one n len = grind arith

-- The plan of equal sizes is no exception.
plan_for-spreads :
    (ratio local_rank remote_rank local_len remote_len : ℕ)
    → plan_for (spreads ratio) local_rank remote_rank local_len remote_len false ≡ record {
      copies = true;
      src_offset = 0;
      dst_offset = (local_rank % ratio) * local_len;
      transfer_len = local_len;
    }
unfolding plan_for
plan_for-spreads ratio local_rank remote_rank local_len remote_len =
    ground (arith, mod-one local_rank local_len)

plan_for-Covers-spreads :
    (ratio remote_rank i local_len byte : ℕ)
    → 0 < local_len
    → i < ratio
    → byte < local_len * ratio
    → (byte / local_len < ratio)
      × let plan =
          plan_for
            (spreads ratio)
            (remote_rank * ratio + i)
            remote_rank
            local_len
            (local_len * ratio)
            false in
        (Covers plan.dst_offset plan.transfer_len byte ↔ (i ≡ byte / local_len))
unfolding plan_for
plan_for-Covers-spreads ratio remote_rank i local_len byte h lt k = (
  part-lt byte local_len ratio h k,
  subst (λ plan. Covers plan.dst_offset plan.transfer_len byte ↔ (i ≡ byte / local_len))
      (sym (
        plan_for-spreads ratio (remote_rank * ratio + i) remote_rank local_len (local_len * ratio)))
      (subst (λ n. Covers (n * local_len) local_len byte ↔ (i ≡ byte / local_len))
        (sym (rank-mod remote_rank ratio i lt)) (Covers-part i local_len byte h)),
)

plan_for-Covers-gathers :
    (ratio local_rank i remote_len byte : ℕ)
    → 0 < remote_len
    → i < ratio
    → byte < remote_len * ratio
    → (byte / remote_len < ratio)
      × let plan =
          plan_for
            (gathers ratio)
            local_rank
            (local_rank * ratio + i)
            (remote_len * ratio)
            remote_len
            false in
        (Covers plan.src_offset plan.transfer_len byte ↔ (i ≡ byte / remote_len))
unfolding plan_for
plan_for-Covers-gathers ratio local_rank i remote_len byte h lt k = (
  part-lt byte remote_len ratio h k,
  subst (λ n. Covers (n * remote_len) remote_len byte ↔ (i ≡ byte / remote_len))
      (sym (rank-mod local_rank ratio i lt)) (Covers-part i remote_len byte h),
)

-- If the cache is not replicated and `ratio` ranks of one side share a block of the other, whose
-- parts are `part` bytes long: every byte of a decode rank's larger block is written by exactly one
-- of its prefill ranks, the one at `byte / part`, and every byte of a prefill rank's larger block is
-- read for exactly one of its decode ranks, the one at `byte / part`.
pub plan_for-Covers :
    (ratio rank i part byte : ℕ)
    → 0 < part
    → i < ratio
    → byte < part * ratio
    → (byte / part < ratio)
      × (let plan = plan_for (spreads ratio) (rank * ratio + i) rank part (part * ratio) false in
          (Covers plan.dst_offset plan.transfer_len byte ↔ (i ≡ byte / part)))
      × (let plan = plan_for (gathers ratio) rank (rank * ratio + i) (part * ratio) part false in
          (Covers plan.src_offset plan.transfer_len byte ↔ (i ≡ byte / part)))
plan_for-Covers ratio rank i part byte h lt k = (
  part-lt byte part ratio h k,
  (plan_for-Covers-spreads ratio rank i part byte h lt k).1,
  (plan_for-Covers-gathers ratio rank i part byte h lt k).1,
)
