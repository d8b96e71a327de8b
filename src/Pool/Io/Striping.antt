-- ===== src/Pool/Io/Striping.antt =====
-- The ranks that hold the same heads share the chunks of a save.
use mtsc.Pool.Io.Eligible.{IsEligible-of_chunk, chunk-of_eligible, IsEligible}
use mtsc.Pool.Io.{save_chunks}
use mtsc.Protocol.{BlockHash}
use mtsc.Pool.Chunks.{striped_tokens, process_tokens, masked, Chunk}
use native.Mathlib.Nat.{mod-add-mod, mod-eq-sub-mod}
use mtsc.Lookup.Rpc.RoundTrip.{within}
use mtsc.Common.{
  In-keep_if, In, nat_eq, string_eq, ◌==◌, ◌&&◌, sym, refl, nat_eq, false, ◌∙◌, ◌/◌, ◌*◌, cdiv, ap,
  Option, true, raise, ok, keep_if, Result, Bool, ◌≡◌, ◌<◌, ◌-◌, ◌+◌, ◌%◌, ℕ, mod-lt, mod-eq_of_lt,
  leb, inr, inl, if◌then◌else◌, arith, [], List, Bool-cases,
}

wrap :
    (n a j : ℕ)
    → 0 < n
    → j < n
    → (a + j) % n ≡ (if leb n (a % n + j) then a % n + j - n else a % n + j)
wrap n a j positive small =
    let r = a % n in
    let r_small = mod-lt a positive in
    elim (Bool-cases (leb n (r + j))) [
      | inl over ↦ ground (
        arith,
        over,
        r_small,
        small,
        mod-add-mod a n j,
        mod-eq-sub-mod {n = r + j} {m = n} (ground (arith, over)),
        mod-eq_of_lt {n = r + j - n} {m = n} (ground (arith, over, r_small, small)),
      )
      | inr within ↦ ground (
        arith,
        within,
        mod-add-mod a n j,
        mod-eq_of_lt {n = r + j} {m = n} (ground (arith, within)),
      )
    ]

-- Of n successive numbers one is equal to t modulo n.
turn :
    (n a t : ℕ)
    → 0 < n
    → t < n
    → (i : ℕ) × (i < n) × ((a + i) % n ≡ t) × ((j : ℕ) → j < n → (a + j) % n ≡ t → j ≡ i)
turn n a t positive small =
    let r = a % n in
    let r_small = mod-lt a positive in
    let i = if leb r t then t - r else t + n - r in
    let i_small : i < n = ground (arith, r_small, small) in
    (
      i,
      i_small,
      ground (arith, r_small, small, wrap n a i positive i_small),
      λ j j_small h. ground (arith, r_small, small, wrap n a j positive j_small, h),
    )

-- The chunks that a save comes to, and none where it raises.
abbrev pub chunks_of : Result (List Chunk) → List Chunk
chunks_of (ok chunks) = chunks
chunks_of (raise problem) = []

module _ (put_step tp_rank group_index block_size token_count : ℕ) (block_hashes : List BlockHash)
    (save_from : ℕ) (mask : Option (List Bool)) (positive : 0 < put_step) where
  all_chunks : List Chunk
  all_chunks = process_tokens block_size token_count block_hashes save_from

  passes : Chunk → Bool
  passes c = masked mask (c.start / block_size) (cdiv save_from block_size)

  is_mine : Chunk → Bool
  is_mine c = (c.start / block_size) % put_step == (tp_rank + group_index) % put_step

  save_chunks-eq :
      save_chunks put_step tp_rank group_index block_size token_count block_hashes save_from mask
      ≡ ok (keep_if (λ c. passes c && is_mine c) all_chunks)
  unfolding save_chunks striped_tokens all_chunks passes is_mine
  save_chunks-eq =
      let some_step : (put_step == 0) ≡ false = ground (arith, positive) in rw some_step refl

  saved-In :
      (chunk : Chunk)
      → In chunk (
          chunks_of (
            save_chunks put_step tp_rank group_index block_size token_count block_hashes save_from
              mask))
      → In chunk all_chunks × (passes chunk ≡ true) × (is_mine chunk ≡ true)
  saved-In chunk h =
      let (found, both) =
        (In-keep_if (λ c. passes c && is_mine c) chunk all_chunks).0 (rw save_chunks-eq at h) in
      (found, ground (arith, both), ground (arith, both))

  In-saved :
      (chunk : Chunk)
      → In chunk all_chunks
      → passes chunk ≡ true
      → is_mine chunk ≡ true
      → In chunk (
          chunks_of (
            save_chunks put_step tp_rank group_index block_size token_count block_hashes save_from
              mask))
  In-saved chunk found t mine =
      rw save_chunks-eq (
        (In-keep_if (λ c. passes c && is_mine c) chunk all_chunks).1 found
          (ground (arith, t, mine)))

-- The rank number `i` of those that hold the heads number `head` saves the chunk.
abbrev pub IsSavedBy :
    ℕ → ℕ → ℕ → ℕ → ℕ → List BlockHash → ℕ → Option (List Bool) → Chunk → ℕ → Type 0
IsSavedBy put_step head group_index block_size token_count block_hashes save_from mask chunk i =
    In chunk (
      chunks_of (
        save_chunks put_step (head * put_step + i) group_index block_size token_count block_hashes
          save_from mask))

-- For blocks of at least one token: of the ranks that hold the heads number `head`, each chunk of a
-- block that starts among the tokens, not before `save_from`, and whose bit in the mask is true is
-- saved by exactly one, and by no rank is any other chunk saved.
pub save_chunks-once :
    (put_step head group_index block_size token_count : ℕ) (block_hashes : List BlockHash)
    (save_from : ℕ) (mask : Option (List Bool)) (chunk : Chunk)
    → 0 < put_step
    → 0 < block_size
    → (IsEligible block_size token_count block_hashes save_from mask chunk
        → (i : ℕ) × (i < put_step)
          × IsSavedBy put_step head group_index block_size token_count block_hashes save_from mask
              chunk i
          × ((j : ℕ)
              → j < put_step
              → IsSavedBy put_step head group_index block_size token_count block_hashes save_from
                  mask chunk j
              → j ≡ i))
      × ((j : ℕ)
          → IsSavedBy put_step head group_index block_size token_count block_hashes save_from mask
              chunk j
          → IsEligible block_size token_count block_hashes save_from mask chunk)
unfolding all_chunks passes is_mine
save_chunks-once put_step head group_index block_size token_count block_hashes save_from mask chunk
      positive sized =
    let t = (chunk.start / block_size) % put_step in
    let (i, few, same, unique) =
      turn put_step (head * put_step + group_index) t positive
        (mod-lt (chunk.start / block_size) positive) in
    let mine : (j : ℕ)
        → ((head * put_step + j + group_index) % put_step
            ≡ (head * put_step + group_index + j) % put_step) =
      λ j. ap (λ (n : ℕ). n % put_step) (omega arith) in
    (
      λ eligible.
          let (found, lets) =
            chunk-of_eligible block_size token_count block_hashes save_from mask chunk sized
              eligible in
          (
            i,
            few,
            In-saved put_step (head * put_step + i) group_index block_size token_count block_hashes
                save_from mask positive chunk found lets
                ((nat_eq.beq_iff _ _).1 (sym (mine i ∙ same))),
            λ j j_few h.
                let (_, _, turn_of_j) =
                  saved-In put_step (head * put_step + j) group_index block_size token_count
                    block_hashes save_from mask positive chunk h in
                unique j j_few (sym (mine j) ∙ sym ((nat_eq.beq_iff _ _).0 turn_of_j)),
          ),
      λ j h.
          let (found, lets, _) =
            saved-In put_step (head * put_step + j) group_index block_size token_count block_hashes
              save_from mask positive chunk h in
          IsEligible-of_chunk block_size token_count block_hashes save_from mask chunk sized found
            lets,
    )
