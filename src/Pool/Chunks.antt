-- ===== src/Pool/Chunks.antt =====
-- mtsc/kv_cache_pool.py: the chunks of a token range, who saves them, and how far a load got.
use mtsc.Scheduler.State.{groups}
use mtsc.Worker.State.{LoadEvent}
use mtsc.Common.{
  int_eq, nat_eq, string_eq, ◌∷◌, ◌==◌, ◌/◌, ◌-◌, ◌+◌, ◌*◌, ◌&&◌, ◌%◌, ℤ, ℕ, zero, value_error,
  true, suc, some, slice, raise, ok, none, min, member, max, ltb, length, leb, keep_if, is_natural,
  if◌then◌else◌, get_elem?, false, cdiv, [], Result, Option, List, Bool,
}
use mtsc.Protocol.{BlockIds, BlockHash}
-- A chunk of tokens and the hash that its key is made from.
pub mod Prefix

pub record Chunk : Type 0 where
  pub start : ℕ
  pub end : ℕ
  pub chunk_hash : BlockHash

-- The chunks from number `chunk_id` on; `hashes` are those of whole chunks.
unfoldable pub chunks_from : ℕ → ℕ → ℕ → ℕ → List BlockHash → List Chunk
chunks_from chunk_id block_size token_len mask_num [] = []
chunks_from chunk_id block_size token_len mask_num (hash ∷ hashes) =
    let rest = chunks_from (suc chunk_id) block_size token_len mask_num hashes in
    let start_idx = chunk_id * block_size in
    if leb token_len start_idx
    then []
    else if ltb start_idx mask_num
    then rest
    else record {
      start = start_idx;
      end = min (start_idx + block_size) token_len;
      chunk_hash = hash;
    }
      ∷ rest

abbrev pub process_tokens : ℕ → ℕ → List BlockHash → ℕ → List Chunk
process_tokens block_size token_len chunk_hashes mask_num =
    chunks_from 0 block_size token_len mask_num chunk_hashes

-- Whether the mask lets a chunk through.
unfoldable pub masked : Option (List Bool) → ℕ → ℕ → Bool
masked none chunk start_chunk = true
masked (some mask) chunk start_chunk =
    if ltb chunk start_chunk
    then false
    else elim (get_elem? mask (chunk - start_chunk)) [ none ↦ false | some bit ↦ bit ]

unfoldable pub striped_tokens :
    ℕ → ℕ → List BlockHash → ℕ → Option (List Bool) → ℕ → ℕ → Result (List Chunk)
striped_tokens block_size token_count block_hashes start_token chunk_mask put_step put_step_rank =
    if put_step == 0
    then raise (value_error "put_step must be positive")
    else ok (
        keep_if
          (λ (chunk : Chunk).
            masked chunk_mask (chunk.start / block_size) (cdiv start_token block_size)
            && ((chunk.start / block_size) % put_step == put_step_rank))
          (process_tokens block_size token_count block_hashes start_token))

-- The first of the `count` indices from `index` on whose block failed; a missing block has not.
unfoldable pub first_failed : List ℤ → List ℤ → ℕ → ℕ → Option ℕ
first_failed ids failed index zero = none
first_failed ids failed index (suc count) =
    let rest = first_failed ids failed (suc index) count in
    elim (get_elem? ids index) [
      | none ↦ rest
      | some block ↦ if member block failed then some index else rest
    ]

unfoldable pub group_prefix : LoadEvent → List ℤ → ℕ → List ℤ → ℕ → ℕ
group_prefix event ids block_size failed actual =
    let start = cdiv event.start_load block_size in
    let end = min (cdiv event.end_load block_size) (length ids) in
    elim (first_failed ids failed start (end - start)) [
      | none ↦ actual
      | some index ↦ min actual (index * block_size)
    ]

-- The zip of the groups with the block sizes of their databases.
unfoldable pub groups_prefix : LoadEvent → List ℤ → BlockIds → List ℕ → ℕ → ℕ
groups_prefix event failed (ids ∷ groups) (size ∷ sizes) actual =
    groups_prefix event failed groups sizes (group_prefix event ids size failed actual)
groups_prefix event failed _ _ actual = actual

unfoldable pub loaded_prefix : LoadEvent → List ℕ → List ℤ → ℕ
loaded_prefix event block_sizes failed =
    max event.start_load (groups_prefix event failed event.block_ids block_sizes event.end_load)

unfoldable pub range_blocks : BlockIds → List ℕ → ℕ → ℕ → BlockIds
range_blocks (ids ∷ groups) (size ∷ sizes) start end =
    keep_if is_natural (slice (cdiv start size) (cdiv end size) ids)
    ∷ range_blocks groups sizes start end
range_blocks _ _ start end = []
