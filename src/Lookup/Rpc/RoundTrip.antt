-- ===== src/Lookup/Rpc/RoundTrip.antt =====
-- What the server reads is what the client sent, and what the client makes of its reply.
use mtsc.Lookup.Bytes.{to_bytes-fits, to_bytes, limit, length-digits, from_bytes-digits, digits}
use mtsc.Lookup.Rpc.{
  settle, served_by, call_lookup, Network, width_of, serve_lookup, serve, reply_hit, lookup_word,
  lookup_frames, err_word, accept, Owner,
}
use mtsc.Lookup.Blob.{join, blob_length, blob_hashes-join, blob_hashes, OfWidth}
use mtsc.Protocol.{BlockHash}
use mtsc.Common.{
  nat_eq, list_eq, ◌≤◌, none, Option, >>=-eq-ok, nat_eq, string_eq, ◌≡◌, ◌∷◌, ◌==◌, ◌<◌, ℕ, some,
  refl, raise, ok, ltb, list_beq_iff, length, leb, inr, inl, if◌then◌else◌, false, arith, ap, [],
  Result, List, Bool-cases, All,
}

-- Hashes of one width, which two bytes hold.
pub record Sendable (token_count : ℕ) (hashes : List BlockHash) : Type 0 where
  pub count_fits : token_count < limit 4
  pub width_fits : width_of hashes < limit 2
  pub one_width : OfWidth (width_of hashes) hashes
  pub not_empty : All (λ (h : BlockHash). 0 < length h) hashes

blob_hashes-width_of :
    (hashes : List BlockHash)
    → OfWidth (width_of hashes) hashes
    → All (λ (h : BlockHash). 0 < length h) hashes
    → blob_hashes (join hashes) (width_of hashes) ≡ hashes
unfolding width_of blob_hashes blob_length join
blob_hashes-width_of [] w p = refl
blob_hashes-width_of (h ∷ hs) w p = blob_hashes-join (length h) (h ∷ hs) p.0 w

-- The frames of a lookup.
abbrev frames_of : ℕ → List BlockHash → List (List ℕ)
frames_of token_count hashes =
    lookup_word ∷ digits 4 token_count ∷ digits 2 (width_of hashes) ∷ join hashes ∷ []

lookup_frames-eq :
    (token_count : ℕ) (hashes : List BlockHash)
    → Sendable token_count hashes
    → lookup_frames token_count hashes ≡ ok (frames_of token_count hashes)
unfolding lookup_frames
lookup_frames-eq token_count hashes fits =
    rw (to_bytes-fits 4 token_count fits.count_fits)
      (rw (to_bytes-fits 2 (width_of hashes) fits.width_fits) refl)

module _ {S : Type 0} where
  serve-frames_of :
      (owner : Owner S) (s : S) (token_count : ℕ) (hashes : List BlockHash)
      → Sendable token_count hashes
      → serve owner s (frames_of token_count hashes)
        ≡ ok (reply_hit (owner.lookup s token_count hashes), s)
  unfolding serve serve_lookup
  serve-frames_of owner s token_count hashes fits =
      rw (from_bytes-digits 4 token_count fits.count_fits) (
        rw (from_bytes-digits 2 (width_of hashes) fits.width_fits)
          (rw (blob_hashes-width_of hashes fits.one_width fits.not_empty) refl))

  -- A token count below 2^32 and hashes of one width from 1 to 65535 bytes are sent, and the server
  -- asks the pool for this count and these hashes and replies with what it returns.
  pub serve-lookup_frames :
      (owner : Owner S) (s : S) (token_count : ℕ) (hashes : List BlockHash)
      → Sendable token_count hashes
      → (frames : List (List ℕ)) × (lookup_frames token_count hashes ≡ ok frames)
        × (serve owner s frames ≡ ok (reply_hit (owner.lookup s token_count hashes), s))
  serve-lookup_frames owner s token_count hashes fits = (
    frames_of token_count hashes,
    lookup_frames-eq token_count hashes fits,
    serve-frames_of owner s token_count hashes fits,
  )

-- What the pool answers, where it is within the prompt.
abbrev pub within : ℕ → Result ℕ → ℕ
within token_count (ok hit) = if leb hit token_count then hit else 0
within token_count (raise problem) = 0

digits-err_word : (hit : ℕ) → (digits 4 hit == err_word) ≡ false
digits-err_word hit = elim (Bool-cases (digits 4 hit == err_word)) [
  | inl same ↦
      ground (arith, length-digits 4 hit, ap length ((list_beq_iff (digits 4 hit) err_word).0 same))
  | inr differ ↦ differ
]

accept-digits :
    (token_count hit : ℕ)
    → hit < limit 4
    → settle (accept token_count (some (digits 4 hit))) ≡ within token_count (ok hit)
unfolding accept settle
accept-digits token_count hit fits =
    ground (arith, digits-err_word hit, from_bytes-digits 4 hit fits)

reply_hit-fits : (hit : ℕ) → hit < limit 4 → reply_hit (ok hit) ≡ digits 4 hit
unfolding reply_hit
reply_hit-fits hit fits = rw (to_bytes-fits 4 hit fits, reply_hit) refl

reply_hit-large : (hit : ℕ) → ltb hit (limit 4) ≡ false → reply_hit (ok hit) ≡ err_word
unfolding reply_hit to_bytes
reply_hit-large hit large = rw (large, reply_hit) refl

accept-reply_hit :
    (token_count : ℕ) (answer : Result ℕ)
    → token_count < limit 4
    → settle (accept token_count (some (reply_hit answer))) ≡ within token_count answer
unfolding accept settle reply_hit
accept-reply_hit token_count (raise problem) small = refl
accept-reply_hit token_count (ok hit) small = elim (Bool-cases (ltb hit (limit 4))) [
  | inl fits ↦
      let few : hit < limit 4 = ground (arith, fits) in
      rw (reply_hit-fits hit few) (accept-digits token_count hit few)
  | inr large ↦ rw (reply_hit-large hit large) (ground (arith, large, small))
]

module _ {S : Type 0} where
  served_by-ok :
      (owner : Owner S) (s next_state : S) (frames : List (List ℕ)) (reply : List ℕ)
      → serve owner s frames ≡ ok (reply, next_state)
      → served_by owner s frames ≡ some reply
  unfolding served_by
  served_by-ok owner s next_state frames reply h = rw (h, served_by) refl

  -- Against a server, a lookup that can be sent has the pool's hit as its result where this is within
  -- the prompt, and 0 where it is not or the pool raises: a hit that four bytes do not hold included.
  pub call_lookup-served_by :
      (owner : Owner S) (s : S) (token_count : ℕ) (hashes : List BlockHash)
      → Sendable token_count hashes
      → settle (call_lookup (served_by owner s) token_count hashes)
        ≡ within token_count (owner.lookup s token_count hashes)
  unfolding call_lookup
  call_lookup-served_by owner s token_count hashes fits =
      let replied =
        served_by-ok owner s s (frames_of token_count hashes)
          (reply_hit (owner.lookup s token_count hashes))
          (serve-frames_of owner s token_count hashes fits) in
      rw (lookup_frames-eq token_count hashes fits) (
        rw replied
          (accept-reply_hit token_count (owner.lookup s token_count hashes) fits.count_fits))

accept-le :
    (token_count hit : ℕ) (reply : Option (List ℕ))
    → accept token_count reply ≡ ok hit
    → hit ≤ token_count
unfolding accept
accept-le token_count hit none h = cc
accept-le token_count hit (some reply) h = ground (arith, h)

-- Whatever the network replies, a hit is within the prompt.
pub call_lookup-le :
    (network : Network) (token_count hit : ℕ) (hashes : List BlockHash)
    → call_lookup network token_count hashes ≡ ok hit
    → hit ≤ token_count
unfolding call_lookup
call_lookup-le network token_count hit hashes h =
    let (frames, sent, e) =
      >>=-eq-ok (lookup_frames token_count hashes)
        (λ (frames : List (List ℕ)). accept token_count (network frames)) h in
    accept-le token_count hit (network frames) e
