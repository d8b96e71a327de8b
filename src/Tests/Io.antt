-- ===== src/Tests/Io.antt =====
-- A save of four chunks by two ranks that hold the same heads.
use mtsc.Pool.Io.Eligible.{IsEligible}
use mtsc.Pool.Io.{save_chunks}
use mtsc.Common.{true, some, false, Bool, ◌≡◌, ◌∷◌, ◌<◌, ℕ, refl, none, map, arith, [], List}
use mtsc.Pool.Io.Striping.{IsSavedBy, save_chunks-once, chunks_of}
use mtsc.Pool.Chunks.{striped_tokens, masked, chunks_from, Chunk}
use mtsc.Protocol.{BlockHash}

abbrev four_hashes : List BlockHash
four_hashes = (1 ∷ []) ∷ (2 ∷ []) ∷ (3 ∷ []) ∷ (4 ∷ []) ∷ []

abbrev third_chunk : Chunk
third_chunk = record { start = 32; end = 48; chunk_hash = 3 ∷ [] }

-- The bits are those of the second block on: the third one is saved, the fourth one is not.
abbrev bits : List Bool
bits = false ∷ true ∷ false ∷ []

save_chunks-once_example :
    (IsEligible 16 64 four_hashes 16 (some bits) third_chunk
      → (i : ℕ) × (i < 2)
        × IsSavedBy 2 0 1 16 64 four_hashes 16 (some bits) third_chunk i
        × ((j : ℕ)
            → j < 2
            → IsSavedBy 2 0 1 16 64 four_hashes 16 (some bits) third_chunk j
            → j ≡ i))
    × ((j : ℕ)
        → IsSavedBy 2 0 1 16 64 four_hashes 16 (some bits) third_chunk j
        → IsEligible 16 64 four_hashes 16 (some bits) third_chunk)
save_chunks-once_example =
    save_chunks-once 2 0 1 16 64 four_hashes 16 (some bits) third_chunk (omega arith) (omega arith)

-- Of the second group the second rank saves the even chunks.
evens :
    map (λ (c : Chunk). c.start) (chunks_of (save_chunks 2 1 1 16 64 four_hashes 0 none))
    ≡ 0 ∷ 32 ∷ []
unfolding save_chunks striped_tokens chunks_from masked
evens = refl
