-- ===== src/Pool/Io.antt =====
-- mtsc/kv_cache_pool.py: what one load or save asks of the Store: `_load`, `_save`, and how the chunks
-- of a save are shared among the ranks that hold the same heads. The Store answers with one status per
-- key.
pub mod Eligible
pub mod Striping
pub mod Loading
use mtsc.Worker.State.{SaveEvent}
use mtsc.Pool.Chunks.{striped_tokens, Chunk}
use mtsc.Common.{
  value_error, index_error, zero_division_error, assertion_error, runtime_error, int_eq, nat_eq,
  string_eq, ◌∷◌, ◌||◌, ◌>>◌, ◌>>=◌, ◌==◌, ◌/◌, ◌-◌, ◌+◌, ◌++◌, ◌*◌, ◌&&◌, ◌%◌, ℤ, ℕ, suc, some,
  raise, pos, ok, not, none, ltb, length, leb, is_natural, if◌then◌else◌, guard, get_elem?, cdiv,
  all_of, align, [], Result, Option, List, Bool,
}
use mtsc.Protocol.{BlockIds, BlockHash}

-- `put_step` and `head_or_tp_rank`: the ranks that hold the same heads, and which heads these are.
unfoldable pub put_step_of : ℕ → ℕ → ℕ → ℕ → Result (ℕ × ℕ)
put_step_of tp_rank tp_size num_kv_head dcp_size =
    guard (not (num_kv_head == 0) && not (tp_size == 0) && ltb tp_rank tp_size)
      (value_error "invalid KV head count or TP topology")
    >> (if ltb num_kv_head tp_size && dcp_size == 1
        then (guard (tp_size % num_kv_head == 0)
              (value_error "TP size must be divisible by the KV head count")
            >> ok (tp_size / num_kv_head, tp_rank / (tp_size / num_kv_head)))
        else ok (1, tp_rank))

pub record Database : Type 0 where
  pub block_size : ℕ
  pub kv_caches_base_addr : List ℕ
  pub block_len : List ℕ

-- An address: so many strides past a base, for a block that may be negative.
pub record Place : Type 0 where
  pub base_addr : ℕ
  pub block_id : ℤ
  pub stride : ℕ

pub record Item : Type 0 where
  pub chunk : Chunk
  pub addresses : List Place
  pub sizes : List ℕ
  pub block_id : ℤ

-- block_ids[index]
abbrev block_at : List ℤ → ℕ → Result ℤ
block_at ids index = elim (get_elem? ids index) [ none ↦ raise (index_error "") | some id ↦ ok id ]

-- The segments from number `index` on: their addresses, and the bytes of `blocks` blocks.
unfoldable pub segments : List ℕ → List ℕ → ℕ → ℤ → ℕ → Result (List Place × List ℕ)
segments block_len [] index block_id blocks = ok ([], [])
segments block_len (base ∷ bases) index block_id blocks =
    let rest = segments block_len bases (suc index) block_id blocks in
    elim (get_elem? block_len (index % length block_len)) [
      | none ↦ raise (zero_division_error "")
      | some len ↦ rest >>= λ later. ok (
        record { base_addr = base; block_id = block_id; stride = len } ∷ later.0,
        len * blocks ∷ later.1,
      )
    ]

unfoldable pub prepare_value : Database → List ℤ → Chunk → Result Item
prepare_value db block_ids chunk =
    let tokens = chunk.end - chunk.start in
    block_at block_ids (chunk.start / db.block_size) >>= λ block_id.
    guard (tokens % db.block_size == 0 || length db.kv_caches_base_addr == 0) (assertion_error "")
    >> (segments db.block_len db.kv_caches_base_addr 0 block_id (cdiv tokens db.block_size)
        >>= λ found.
            ok
              (record { chunk = chunk; addresses = found.0; sizes = found.1; block_id = block_id }))

unfoldable pub prepare_all : Database → List ℤ → List Chunk → Result (List Item)
prepare_all db block_ids [] = ok []
prepare_all db block_ids (chunk ∷ chunks) =
    let rest = prepare_all db block_ids chunks in
    prepare_value db block_ids chunk >>= λ item. rest >>= λ items. ok (item ∷ items)

-- The chunks of group `group_index` that a rank saves.
unfoldable pub save_chunks :
    ℕ → ℕ → ℕ → ℕ → ℕ → List BlockHash → ℕ → Option (List Bool) → Result (List Chunk)
save_chunks put_step tp_rank group_index block_size token_count block_hashes save_from mask =
    striped_tokens block_size token_count block_hashes save_from mask put_step
      ((tp_rank + group_index) % put_step)

-- The groups from number `group_index` on; the group's hashes come with its database.
unfoldable pub save_items :
    ℕ
    → ℕ
    → ℕ
    → SaveEvent
    → ℕ
    → List (Database × List BlockHash × Option (List Bool))
    → BlockIds
    → Result (List Item)
save_items put_step tp_rank group_index event token_count ((db, hashes, mask) ∷ groups)
      (ids ∷ block_ids) =
    let rest = save_items put_step tp_rank (suc group_index) event token_count groups block_ids in
    save_chunks put_step tp_rank group_index db.block_size token_count hashes event.start_save mask
    >>= λ chunks. prepare_all db ids chunks >>= λ items. rest >>= λ later. ok (items ++ later)
save_items put_step tp_rank group_index event token_count [] block_ids = ok []
save_items put_step tp_rank group_index event token_count (g ∷ groups) [] = raise (index_error "")

-- [index for index, status in enumerate(exists) if status != 1], as the items at these places
unfoldable pub missing_items : List Item → List ℤ → List Item
missing_items (item ∷ items) (status ∷ exists) =
    let rest = missing_items items exists in if status == pos 1 then rest else item ∷ rest
missing_items _ _ = []

-- if any(status < 0 for status in result): raise
unfoldable pub check_put : Result (List ℤ) → Result (Unit {0})
check_put result = result >>= λ statuses.
    guard (all_of is_natural statuses) (runtime_error "Mooncake Store PUT partially failed")

-- `_save`: the Store is asked what it has, and is given what it has not, if that is anything.
unfoldable pub save_work :
    (List Item → Result (List ℤ))
    → (List Item → Result (List ℤ))
    → ℕ
    → ℕ
    → ℕ
    → SaveEvent
    → (ℕ → List (Database × List BlockHash × Option (List Bool)))
    → Result (Unit {0})
save_work batch_is_exist batch_put lcm_block_size put_step tp_rank event groups =
    let token_count = align event.end_save lcm_block_size in
    if leb token_count event.start_save
    then ok tt
    else (save_items put_step tp_rank 0 event token_count (groups token_count) event.block_ids
        >>= λ items.
            if length items == 0
            then ok tt
            else (batch_is_exist items >>= λ exists.
                if length (missing_items items exists) == 0
                then ok tt
                else check_put (batch_put (missing_items items exists))))
