-- ===== src/Lookup/Rpc.antt =====
-- The lookup's messages: `StoreLookupClient._lookup` and `reset` send a request of several frames,
-- `StoreLookupServer._serve` answers it. The socket between them is a function from a request to a
-- reply, with none where it has timed out.
pub mod RoundTrip
use mtsc.Lookup.Bytes.{to_bytes, from_bytes}
use mtsc.Proxy.Stream.{done}
use mtsc.Lookup.Blob.{join, blob_hashes}
use mtsc.Common.{
  value_error, nat_eq, list_eq, index_error, runtime_error, nat_eq, string_eq, ◌∷◌, ◌>>=◌, ◌==◌, ℕ,
  timeout_error, some, raise, ok, none, length, leb, if◌then◌else◌, [], Result, Option, List,
}
use mtsc.Protocol.{BlockHash}

-- b"lookup", b"reset", b"ok" and b"error"
abbrev pub lookup_word : List ℕ
lookup_word = 108 ∷ 111 ∷ 111 ∷ 107 ∷ 117 ∷ 112 ∷ []

abbrev pub reset_word : List ℕ
reset_word = 114 ∷ 101 ∷ 115 ∷ 101 ∷ 116 ∷ []

abbrev pub ok_word : List ℕ
ok_word = 111 ∷ 107 ∷ []

abbrev pub err_word : List ℕ
err_word = 101 ∷ 114 ∷ 114 ∷ 111 ∷ 114 ∷ []

abbrev pub Network : Type 0
Network = List (List ℕ) → Option (List ℕ)

-- len(hashes[0]) if hashes else 0
unfoldable pub width_of : List BlockHash → ℕ
width_of [] = 0
width_of (h ∷ hs) = length h

-- The frames of a lookup.
unfoldable pub lookup_frames : ℕ → List BlockHash → Result (List (List ℕ))
lookup_frames token_count hashes = to_bytes 4 token_count >>= λ count.
    to_bytes 2 (width_of hashes) >>= λ width. ok (lookup_word ∷ count ∷ width ∷ join hashes ∷ [])

-- What the client makes of the reply.
unfoldable pub accept : ℕ → Option (List ℕ) → Result ℕ
accept token_count none = raise (timeout_error "MTSC Store lookup timed out")
accept token_count (some reply) =
    if reply == err_word
    then raise (runtime_error "Pool lookup backend failed")
    else let hit = from_bytes reply in
      if leb hit token_count
      then ok hit
      else raise (value_error "Pool lookup returned an invalid prefix")

-- `_lookup`
unfoldable pub call_lookup : Network → ℕ → List BlockHash → Result ℕ
call_lookup network token_count hashes =
    lookup_frames token_count hashes >>= λ frames. accept token_count (network frames)

-- `lookup` once the call is done: the hit, and 0 where the call raised.
unfoldable pub settle : Result ℕ → ℕ
settle (ok hit) = hit
settle (raise problem) = 0

-- The pool that the server asks.
pub record Owner (S : Type 0) : Type 0 where
  pub lookup : S → ℕ → List BlockHash → Result ℕ
  pub wait_for_all_saves : S → Result (Unit {0}) × S
  pub remove_all : S → Result (Unit {0}) × S

-- The reply to a hit; what the pool raises becomes an error.
unfoldable pub reply_hit : Result ℕ → List ℕ
reply_hit (raise problem) = err_word
reply_hit (ok hit) = elim (to_bytes 4 hit) [ ok reply ↦ reply | raise problem ↦ err_word ]

module _ {S : Type 0} where
  abbrev reply_reset : Result (Unit {0}) × S → List ℕ × S
  reply_reset (ok _, s) = (ok_word, s)
  reply_reset (raise problem, s) = (err_word, s)

  abbrev clear_waited : Owner S → Result (Unit {0}) × S → Result (Unit {0}) × S
  clear_waited owner (ok _, s) = owner.remove_all s
  clear_waited owner (raise problem, s) = (raise problem, s)

  unfoldable pub clear : Owner S → S → Result (Unit {0}) × S
  clear owner s = clear_waited owner (owner.wait_for_all_saves s)

  -- A lookup, and a request without the frames that are read, which ends the thread.
  unfoldable pub serve_lookup : Owner S → S → List (List ℕ) → Result (List ℕ × S)
  serve_lookup owner s (count ∷ width ∷ blob ∷ rest) =
      let hashes = blob_hashes blob (from_bytes width) in
      ok (reply_hit (owner.lookup s (from_bytes count) hashes), s)
  serve_lookup owner s _ = raise (index_error "")

  -- One turn of `_serve`.
  unfoldable pub serve : Owner S → S → List (List ℕ) → Result (List ℕ × S)
  serve owner s [] = raise (index_error "")
  serve owner s (kind ∷ frames) =
      if kind == lookup_word
      then serve_lookup owner s frames
      else ok (if kind == reset_word then reply_reset (clear owner s) else (err_word, s))

  -- The socket between the client and a server in this state.
  unfoldable pub served_by : Owner S → S → Network
  served_by owner s frames = elim (serve owner s frames) [
    | ok (reply, next) ↦ some reply
    | raise problem ↦ none
  ]
