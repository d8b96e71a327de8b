-- ===== src/Pool/Io/Eligible.antt =====
-- Which chunks a save has, and which of them its mask lets through.
use native.Mathlib.Nat.{mul-div_cancel}
use mtsc.Protocol.{BlockHash}
use mtsc.Pool.Chunks.{masked, chunks_from, Chunk}
use mtsc.Common.{
  ◌⊎◌, ◌≤◌, ◌≡◌, ◌∷◌, ◌∙◌, ◌<◌, ◌/◌, ◌-◌, ◌+◌, ◌*◌, zero, true, sym, suc, subst, some, refl, none,
  min, ltb, leb, le-cdiv, inr, inl, get_elem?, false, cdiv, arith, ap, [], Option-cases, Option,
  List, IsMarked, In, Bool-cases, Bool, ℕ,
}

-- The chunk number `k` with its hash: a whole block, or what there is of the last one.
abbrev pub chunk_at : ℕ → ℕ → ℕ → BlockHash → Chunk
chunk_at block_size token_count k hash = record {
  start = k * block_size;
  end = min (k * block_size + block_size) token_count;
  chunk_hash = hash;
}

-- The number of the first block that starts at a token or after it.
abbrev pub IsFirstBlock : ℕ → ℕ → ℕ → Type 0
IsFirstBlock block_size token first =
    (token ≤ first * block_size) × ((k : ℕ) → token ≤ k * block_size → first ≤ k)

-- The chunk is that of a block that starts among the tokens, not before `save_from`, and the bit of
-- the mask for it is true; the bits are counted from the first block that starts there.
abbrev pub IsEligible : ℕ → ℕ → List BlockHash → ℕ → Option (List Bool) → Chunk → Type 0
IsEligible block_size token_count block_hashes save_from mask chunk =
    (k : ℕ) × (hash : BlockHash) × (first : ℕ) × (get_elem? block_hashes k ≡ some hash)
    × (chunk ≡ chunk_at block_size token_count k hash)
    × (k * block_size < token_count)
    × (save_from ≤ k * block_size)
    × IsFirstBlock block_size save_from first
    × IsMarked mask (k - first)

scaled : (i n m : ℕ) → i ≤ n → i * m ≤ n * m
scaled i n m h = grind (arith, h)

cdiv-IsFirstBlock :
    (block_size token : ℕ) → 0 < block_size → IsFirstBlock block_size token (cdiv token block_size)
cdiv-IsFirstBlock block_size token positive =
    (le-cdiv token block_size positive, λ k h. grind (arith, positive, h))

module _ (block_size token_count mask_num : ℕ) where
  -- The chunk stands for one of the hashes, the first of which has the number `chunk_id`.
  abbrev pub IsAmong : ℕ → List BlockHash → Chunk → Type 0
  IsAmong chunk_id hashes chunk =
      (i : ℕ) × (k : ℕ) × (hash : BlockHash) × (k ≡ chunk_id + i)
      × (get_elem? hashes i ≡ some hash)
      × (chunk ≡ chunk_at block_size token_count k hash)
      × (k * block_size < token_count)
      × (mask_num ≤ k * block_size)

  IsAmong-suc :
      (chunk_id : ℕ) (hash : BlockHash) (hashes : List BlockHash) (chunk : Chunk)
      → IsAmong (suc chunk_id) hashes chunk
      → IsAmong chunk_id (hash ∷ hashes) chunk
  IsAmong-suc chunk_id hash hashes chunk (i, k, h, number, found, same, inside, after) =
      (suc i, k, h, omega (arith, number), found, same, inside, after)

  pub chunks_from-IsAmong :
      (chunk_id : ℕ) (hashes : List BlockHash) (chunk : Chunk)
      → In chunk (chunks_from chunk_id block_size token_count mask_num hashes)
      → IsAmong chunk_id hashes chunk
  unfolding chunks_from
  chunks_from-IsAmong chunk_id [] chunk h = absurd h
  chunks_from-IsAmong chunk_id (hash ∷ hashes) chunk h =
      elim (Bool-cases (leb token_count (chunk_id * block_size))) [
        | inl past ↦ absurd (rw past at h)
        | inr inside ↦ elim (Bool-cases (ltb (chunk_id * block_size) mask_num)) [
          | inl before ↦
              IsAmong-suc chunk_id hash hashes chunk
                (chunks_from-IsAmong (suc chunk_id) hashes chunk (rw (inside, before) at h))
          | inr after ↦
              let h' : (chunk ≡ chunk_at block_size token_count chunk_id hash)
                  ⊎ In chunk (chunks_from (suc chunk_id) block_size token_count mask_num hashes) =
                rw (inside, after) at h in
              elim h' [
                | inl same ↦ (
                  0,
                  chunk_id,
                  hash,
                  omega arith,
                  refl,
                  same,
                  ground (arith, inside),
                  ground (arith, after),
                )
                | inr later ↦
                    IsAmong-suc chunk_id hash hashes chunk
                      (chunks_from-IsAmong (suc chunk_id) hashes chunk later)
              ]
        ]
      ]

  pub IsAmong-chunks_from :
      (chunk_id : ℕ) (hashes : List BlockHash) (chunk : Chunk)
      → IsAmong chunk_id hashes chunk
      → In chunk (chunks_from chunk_id block_size token_count mask_num hashes)
  unfolding chunks_from
  IsAmong-chunks_from chunk_id [] chunk (i, k, h, number, found, same, inside, after) =
      absurd (cc found)
  IsAmong-chunks_from chunk_id (hash ∷ hashes) chunk (i, k, h, number, found, same, inside, after) =
      let low = scaled chunk_id k block_size (omega (arith, number)) in
      let here : leb token_count (chunk_id * block_size) ≡ false = ground (arith, low, inside) in
      elim (Bool-cases (ltb (chunk_id * block_size) mask_num)) [
        | inl before ↦
            rw (here, before)
              (IsAmong-chunks_from (suc chunk_id) hashes chunk
                (later i number found (λ e. absurd (ground (arith, before, after, e)))))
        | inr reached ↦
            rw (here, reached)
              (at_index (λ among. IsAmong-chunks_from (suc chunk_id) hashes chunk among) i number
                found)
      ]
    where
      later :
          (i : ℕ)
          → k ≡ chunk_id + i
          → get_elem? (hash ∷ hashes) i ≡ some h
          → (k ≡ chunk_id → ⊥)
          → IsAmong (suc chunk_id) hashes chunk
      later zero number found moved = absurd (moved (omega (arith, number)))
      later (suc i) number found moved =
          (i, k, h, omega (arith, number), found, same, inside, after)

      at_index :
          (IsAmong (suc chunk_id) hashes chunk
            → In chunk (chunks_from (suc chunk_id) block_size token_count mask_num hashes))
          → (i : ℕ) → k ≡ chunk_id + i
          → get_elem? (hash ∷ hashes) i ≡ some h
          → (chunk ≡ chunk_at block_size token_count chunk_id hash)
            ⊎ In chunk (chunks_from (suc chunk_id) block_size token_count mask_num hashes)
      at_index rest zero number found =
          let own : k ≡ chunk_id = omega (arith, number) in
          let hash_own : h ≡ hash = cc found in
          inl (
            same
            ∙ ap (λ n. chunk_at block_size token_count n h) own
            ∙ ap (λ x. chunk_at block_size token_count chunk_id x) hash_own)
      at_index rest (suc i) number found =
          inr (rest (i, k, h, omega (arith, number), found, same, inside, after))

masked-IsMarked :
    (mask : Option (List Bool)) (k first : ℕ)
    → first ≤ k
    → (masked mask k first ≡ true → IsMarked mask (k - first))
      × (IsMarked mask (k - first) → masked mask k first ≡ true)
unfolding masked
masked-IsMarked none k first le = (λ h. tt, λ h. refl)
masked-IsMarked (some mask) k first le = elim (Option-cases (get_elem? mask (k - first))) [
  | inl missing ↦ (λ h. ground (arith, le, missing, h), λ h. ground (arith, le, missing, h))
  | inr (bit, found) ↦ (λ h. ground (arith, le, found, h), λ h. ground (arith, le, found, h))
]

-- The number of the block at which a chunk starts.
start_number :
    (block_size token_count k : ℕ) (hash : BlockHash) (chunk : Chunk)
    → 0 < block_size
    → chunk ≡ chunk_at block_size token_count k hash
    → chunk.start / block_size ≡ k
start_number block_size token_count k hash chunk positive same =
    ap (λ (c : Chunk). c.start / block_size) same ∙ mul-div_cancel k positive

module _ (block_size token_count : ℕ) (block_hashes : List BlockHash) (save_from : ℕ)
    (mask : Option (List Bool)) (chunk : Chunk) (positive : 0 < block_size) where
  pub IsEligible-of_chunk :
      In chunk (chunks_from 0 block_size token_count save_from block_hashes)
      → masked mask (chunk.start / block_size) (cdiv save_from block_size) ≡ true
      → IsEligible block_size token_count block_hashes save_from mask chunk
  IsEligible-of_chunk found lets =
      let (i, k, hash, number, at, same, inside, after) =
        chunks_from-IsAmong block_size token_count save_from 0 block_hashes chunk found in
      let index : i ≡ k = omega (arith, number) in
      let first = cdiv-IsFirstBlock block_size save_from positive in
      (
        k,
        hash,
        cdiv save_from block_size,
        subst (λ n. get_elem? block_hashes n ≡ some hash) index at,
        same,
        inside,
        after,
        first,
        (masked-IsMarked mask k (cdiv save_from block_size) (first.1 k after)).0 (
            subst (λ n. masked mask n (cdiv save_from block_size) ≡ true)
              (start_number block_size token_count k hash chunk positive same) lets),
      )

  pub chunk-of_eligible :
      IsEligible block_size token_count block_hashes save_from mask chunk
      → In chunk (chunks_from 0 block_size token_count save_from block_hashes)
        × (masked mask (chunk.start / block_size) (cdiv save_from block_size) ≡ true)
  chunk-of_eligible (k, hash, first, at, same, inside, after, begins, marked) =
      let own = cdiv-IsFirstBlock block_size save_from positive in
      let one : first ≡ cdiv save_from block_size =
        omega (arith, begins.1 (cdiv save_from block_size) own.0, own.1 first begins.0) in
      (
        IsAmong-chunks_from block_size token_count save_from 0 block_hashes chunk
            (k, k, hash, omega arith, at, same, inside, after),
        subst (λ n. masked mask n (cdiv save_from block_size) ≡ true)
            (sym (start_number block_size token_count k hash chunk positive same))
            ((masked-IsMarked mask k (cdiv save_from block_size) (own.1 k after)).1
              (subst (λ n. IsMarked mask (k - n)) one marked)),
      )
