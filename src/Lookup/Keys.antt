-- ===== src/Lookup/Keys.antt =====
-- The pool's part of a lookup: the keys that it asks the Store for, the blocks that are there, and
-- `MooncakeKVCachePool.lookup` with the coordinator's search over them.
pub mod Present
pub mod Asked
pub mod Complete
use mtsc.Common.{
  ◌>>◌, raise, not, length, leb, guard, runtime_error, index_error, int_eq, nat_eq, string_eq, ◌∷◌,
  ◌||◌, ◌>>=◌, ◌==◌, ◌++◌, ◌*◌, ◌&&◌, ◌%◌, ℤ, ℕ, zero, true, take, suc, some, pos, ok, none, min,
  map, ltb, if◌then◌else◌, get_elem?, false, cdiv, [], String, Result, Option, List, Bool,
}
use mtsc.Protocol.{BlockHash}

pub record KeyMetadata : Type 0 where
  pub model_name : String
  pub tp_rank : ℕ
  pub pcp_rank : ℕ
  pub dcp_rank : ℕ
  pub pp_rank : ℕ
  pub group_id : ℕ

-- The hash stands for its hexadecimal text.
pub record PoolKey : Type 0 where
  pub key_metadata : KeyMetadata
  pub chunk_hash : BlockHash

-- What the pool knows of its engine.
pub record Ranks : Type 0 where
  pub tp_size : ℕ
  pub pcp_size : ℕ
  pub dcp_size : ℕ
  pub pp_size : ℕ
  pub num_kv_head : ℕ

-- for x in range(start, start + count)
unfoldable pub for_each : {A : Type 0} → ℕ → ℕ → (ℕ → List A) → List A
for_each start zero body = []
for_each start (suc count) body = body start ++ for_each (suc start) count body

-- `_init_lookup_metadata`: the ranks that hold a part of each block
unfoldable pub lookup_metadata : Ranks → KeyMetadata → List KeyMetadata
lookup_metadata r metadata =
    let tps = if ltb 1 r.dcp_size then r.tp_size else min r.tp_size r.num_kv_head in
    for_each 0 r.pcp_size (λ pcp. for_each 0 tps (λ tp. for_each 0 r.pp_size (λ pp.
      record metadata {
        tp_rank = tp;
        pcp_rank = pcp;
        dcp_rank = if ltb 1 r.dcp_size then tp % r.dcp_size else 0;
        pp_rank = pp;
      }
      ∷ [])))

-- `ExternalCachedBlockPool`: the blocks that exist, or none where every block counts as there.
abbrev pub ExternalPool : Type 0
ExternalPool = Option (List (ℕ × BlockHash))

abbrev pub Candidate : Type 0
Candidate = ℕ × BlockHash

-- A block of one group's prefix: its group's metadata at each rank, and its hash.
pub record Query : Type 0 where
  pub candidate : Candidate
  pub metadata : List KeyMetadata

abbrev pub keys_of : Query → List PoolKey
keys_of q =
    map (λ (k : KeyMetadata). record { key_metadata = k; chunk_hash = q.candidate.1 }) q.metadata

-- keys.extend(...) for each block
unfoldable pub all_keys : List Query → List PoolKey
all_keys [] = []
all_keys (q ∷ qs) = keys_of q ++ all_keys qs

-- A group's database and its view of the hashes.
pub record LookupGroup : Type 0 where
  pub block_size : ℕ
  pub group_hashes : List BlockHash
  pub metadata : List KeyMetadata
  pub mask : Option (List Bool)

unfoldable pub in_mask : Option (List Bool) → ℕ → Bool
in_mask none index = true
in_mask (some mask) index = elim (get_elem? mask index) [ none ↦ false | some bit ↦ bit ]

-- The blocks of a group from `index` on that are asked for.
unfoldable pub group_queries : ℕ → LookupGroup → ℕ → List BlockHash → List Query
group_queries group_index g index [] = []
group_queries group_index g index (h ∷ hs) =
    let rest = group_queries group_index g (suc index) hs in
    if in_mask g.mask index
    then record { candidate = (group_index, h); metadata = g.metadata } ∷ rest
    else rest

-- The blocks up to `limit`, a last one that the tokens do not fill included.
unfoldable pub lookup_queries : ℕ → ℕ → List LookupGroup → List Query
lookup_queries token_count group_index [] = []
lookup_queries token_count group_index (g ∷ gs) =
    group_queries group_index g 0 (take (cdiv token_count g.block_size) g.group_hashes)
    ++ lookup_queries token_count (suc group_index) gs

-- result[index] == 1
unfoldable pub found_at : List ℤ → ℕ → Result Bool
found_at result index = elim (get_elem? result index) [
  | none ↦ raise (index_error "")
  | some n ↦ ok (n == pos 1)
]

-- all(result[start + rank] == 1 for rank in range(count))
unfoldable pub all_found : List ℤ → ℕ → ℕ → Result Bool
all_found result start zero = ok true
all_found result start (suc count) =
    let rest = all_found result (suc start) count in
    found_at result start >>= λ bit. if bit then rest else ok false

-- The candidates from number `index` on of which every rank has its part.
unfoldable pub present_from : List ℤ → ℕ → ℕ → List Query → Result (List Candidate)
present_from result rank_count index [] = ok []
present_from result rank_count index (q ∷ qs) =
    let rest = present_from result rank_count (suc index) qs in
    all_found result (index * rank_count) rank_count >>= λ every.
    rest >>= λ others. ok (if every then q.candidate ∷ others else others)

unfoldable pub is_empty : List PoolKey → Bool
is_empty [] = true
is_empty (k ∷ ks) = false

-- The Store's answer to the keys, and the search over the blocks that are there.
unfoldable pub search_present :
    (List PoolKey → Result (List ℤ)) → ℕ → List Query → (ExternalPool → Result ℕ) → Result ℕ
search_present batch_is_exist rank_count queries search =
    batch_is_exist (all_keys queries) >>= λ result.
    present_from result rank_count 0 queries >>= λ present. search (some present)

-- `lookup`
unfoldable pub pool_lookup :
    (List PoolKey → Result (List ℤ))
    → Bool
    → ℕ
    → List LookupGroup
    → ℕ
    → List BlockHash
    → (ExternalPool → Result ℕ)
    → Result ℕ
pool_lookup batch_is_exist closed rank_count groups token_count hashes search =
    let queries = lookup_queries token_count 0 groups in
    guard (not closed) (runtime_error "KV cache pool is closed")
    >> (if token_count == 0 || leb (length hashes) 0 || is_empty (all_keys queries)
        then ok 0
        else search_present batch_is_exist rank_count queries search)
