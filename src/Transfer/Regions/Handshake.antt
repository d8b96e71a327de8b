-- ===== src/Transfer/Regions/Handshake.antt =====
-- mtsc/kv_transfer.py: the ranks of the two sides that talk to each other.
use mtsc.Transfer.Regions.{handshake_target_ranks, upto}
use mtsc.Common.{
  true, ◌∙◌, sym, subst, inr, inl, ap, Bool-cases, ◌≤◌, ◌==◌, ◌/◌, ◌*◌, ◌%◌, ◌<◌, nat_eq, string_eq,
  ◌≡◌, ◌∷◌, ◌-◌, ◌+◌, ◌&&◌, ℕ, zero, suc, raise, ok, member-append, member, map, ltb, leb, false,
  arith, [], Result, List, Bool,
}

pub member-upto : (n i : ℕ) → member i (upto n) ≡ ltb i n
unfolding upto member
member-upto zero i = ground arith
member-upto (suc n) i = ground (arith, member-upto n i, member-append i (upto n) (n ∷ []))

member-map_offset :
    (base j : ℕ) (offsets : List ℕ)
    → member j (map (λ offset. base + offset) offsets) ≡ (leb base j && member (j - base) offsets)
unfolding member
member-map_offset base j [] = ground arith
member-map_offset base j (offset ∷ offsets) = ground (arith, member-map_offset base j offsets)

-- Whether a rank is among the ones of a handshake.
abbrev pub targets : Result (List ℕ) → ℕ → Bool
targets (ok ranks) rank = member rank ranks
targets (raise e) rank = false

targets-large :
    (rank size peer peer_size : ℕ)
    → 0 < peer_size
    → peer_size ≤ size
    → targets (handshake_target_ranks rank size peer_size) peer
      ≡ (size % peer_size == 0 && rank / (size / peer_size) == peer)
unfolding handshake_target_ranks member
targets-large rank size peer peer_size h le = ground arith

targets-small :
    (rank size peer peer_size : ℕ)
    → 0 < size
    → size < peer_size
    → targets (handshake_target_ranks rank size peer_size) peer ≡ (
        peer_size % size == 0
        && (leb (rank * (peer_size / size)) peer
            && ltb (peer - rank * (peer_size / size)) (peer_size / size)))
unfolding handshake_target_ranks
targets-small rank size peer peer_size h lt =
    let ratio = peer_size / size in
    ground (
      arith,
      member-map_offset (rank * ratio) peer (upto ratio),
      member-upto ratio (peer - rank * ratio),
    )

-- A number lies in the part of a rank exactly if it is the quotient.
quotient :
    (rank ratio peer : ℕ)
    → 0 < ratio
    → (rank / ratio == peer) ≡ (leb (peer * ratio) rank && ltb (rank - peer * ratio) ratio)
quotient rank ratio peer h = grind arith

ratio-positive : (large small : ℕ) → 0 < small → small ≤ large → 0 < large / small
ratio-positive large small h le = grind arith

large-small :
    (rank size peer peer_size : ℕ)
    → 0 < peer_size
    → peer_size < size
    → targets (handshake_target_ranks rank size peer_size) peer
      ≡ targets (handshake_target_ranks peer peer_size size) rank
large-small rank size peer peer_size h lt =
    targets-large rank size peer peer_size h (omega arith)
    ∙ ap (λ b. size % peer_size == 0 && b)
        (quotient rank (size / peer_size) peer (ratio-positive size peer_size h (omega arith)))
    ∙ sym (targets-small peer peer_size rank size h lt)

one_ratio : (size : ℕ) → 0 < size → size / size ≡ 1
one_ratio size h = grind arith

swap : (rank peer q : ℕ) → q ≡ 1 → (rank / q == peer) ≡ (peer / q == rank)
swap rank peer q h = grind (arith, h)

same_size :
    (rank peer size : ℕ)
    → 0 < size
    → targets (handshake_target_ranks rank size size) peer
      ≡ targets (handshake_target_ranks peer size size) rank
same_size rank peer size h =
    targets-large rank size peer size h (omega arith)
    ∙ ap (λ q. size % size == 0 && q) (swap rank peer (size / size) (one_ratio size h))
    ∙ sym (targets-large peer size rank size h (omega arith))

-- For sizes that are not zero, a prefill rank names a decode rank in its handshake exactly if the
-- decode rank names the prefill rank in its own.
pub handshake_target_ranks-mutual :
    (rank size peer peer_size : ℕ)
    → 0 < size
    → 0 < peer_size
    → targets (handshake_target_ranks rank size peer_size) peer
      ≡ targets (handshake_target_ranks peer peer_size size) rank
handshake_target_ranks-mutual rank size peer peer_size h k =
    elim (Bool-cases (ltb size peer_size)) [
      | inl small ↦ sym (large-small peer peer_size rank size h (ground (arith, small)))
      | inr other ↦ elim (Bool-cases (ltb peer_size size)) [
        | inl large ↦ large-small rank size peer peer_size k (ground (arith, large))
        | inr same ↦
            subst
              (λ n.
                targets (handshake_target_ranks rank size n) peer
                ≡ targets (handshake_target_ranks peer n size) rank)
              (ground (arith, other, same)) (same_size rank peer size h)
      ]
    ]

rank_in_large :
    (rank size peer_size : ℕ)
    → 0 < peer_size
    → peer_size ≤ size
    → rank < size
    → size % peer_size ≡ 0
    → rank / (size / peer_size) < peer_size
rank_in_large rank size peer_size h le lt whole = grind arith

rank_in_small :
    (rank size peer_size offset : ℕ)
    → 0 < size
    → rank < size
    → peer_size % size ≡ 0
    → offset < peer_size / size
    → rank * (peer_size / size) + offset < peer_size
rank_in_small rank size peer_size offset h lt whole le = grind arith

pub targets-below :
    (rank size peer peer_size : ℕ)
    → 0 < peer_size
    → rank < size
    → targets (handshake_target_ranks rank size peer_size) peer ≡ true
    → peer < peer_size
targets-below rank size peer peer_size h lt named = elim (Bool-cases (leb peer_size size)) [
  | inl large ↦ ground (
    arith,
    large,
    named,
    targets-large rank size peer peer_size h,
    rank_in_large rank size peer_size h,
  )
  | inr small ↦ ground (
    arith,
    small,
    named,
    targets-small rank size peer peer_size,
    rank_in_small rank size peer_size (peer - rank * (peer_size / size)),
  )
]
