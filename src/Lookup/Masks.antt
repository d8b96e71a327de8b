-- ===== src/Lookup/Masks.antt =====
-- `find_longest_cache_hit` of the coordinator, its masks for loads and stores, and the lookup that
-- the pool's server runs.
use mtsc.Lookup.Coordinator.Hit.{find_hit_blocks-le}
use mtsc.Lookup.Coordinator.Rounds.{ManagerLaws}
use mtsc.Lookup.Keys.{
  present_from, Query, search_present, pool_lookup, lookup_queries, is_empty, all_keys, PoolKey,
  LookupGroup, ExternalPool,
}
use mtsc.Common.{
  ok-injective, int_eq, ℤ, not, length, leb, inr, inl, arith, ap, Bool-cases, >>=-eq-ok,
  runtime_error, assertion_error, nat_eq, string_eq, ◌≤◌, ◌≡◌, ◌∷◌, ◌||◌, ◌>>◌, ◌>>=◌, ◌==◌, ◌/◌,
  ◌++◌, ◌%◌, ℕ, zero, true, suc, some, replicate, raise, or_else, ok, none, map, if◌then◌else◌,
  guard, get, false, all_of, [], Result, Option, List, Bool,
}
use mtsc.Protocol.{BlockHash}
use mtsc.Lookup.Coordinator.{find_hit_blocks, Search, Manager, Hits, Coordinator, AttentionGroup}

-- An exhausted search, which the fuel that `find_longest_cache_hit` gives rules out.
abbrev finished : {A : Type 0} → Option (Result A) → Result A
finished none = raise (runtime_error "out of fuel")
finished (some r) = r

finished-ok : {A : Type 0} (o : Option (Result A)) (a : A) → finished o ≡ ok a → o ≡ some (ok a)
finished-ok none a h = cc h
finished-ok (some r) a h = ap some h

-- The blocks of the groups from number `start` on, and none of a group that has no entry.
unfoldable pub masks_from : {S : Type 0} → ℕ → List S → Hits → List (List Bool)
masks_from start [] hits = []
masks_from start (g ∷ gs) hits = or_else (get hits start) [] ∷ masks_from (suc start) gs hits

-- list(mask) * n
unfoldable pub repeat : {A : Type 0} → ℕ → List A → List A
repeat zero xs = []
repeat (suc n) xs = xs ++ repeat n xs

-- _DUMMY_BLOCK_HASH
abbrev dummy_block_hash : BlockHash
dummy_block_hash = replicate 32 0

search_present-le :
    (batch_is_exist : List PoolKey → Result (List ℤ)) (rank_count : ℕ) (queries : List Query)
    (search : ExternalPool → Result ℕ) (bound hit : ℕ)
    → ((pool : ExternalPool) (n : ℕ) → search pool ≡ ok n → n ≤ bound)
    → search_present batch_is_exist rank_count queries search ≡ ok hit
    → hit ≤ bound
unfolding search_present
search_present-le batch_is_exist rank_count queries search bound hit below h =
    let (result, _, e) = >>=-eq-ok (batch_is_exist (all_keys queries)) _ h in
    let (there, _, found) = >>=-eq-ok (present_from result rank_count 0 queries) _ e in
    below (some there) hit found

module _ {S : Type 0} (m : Manager S ExternalPool) (c : Coordinator S) where
  abbrev pub search_of : List BlockHash → ℕ → ExternalPool → Bool → Search ExternalPool
  search_of block_hashes max_length pool apply_eagle = record {
    pool = pool;
    block_hashes = block_hashes;
    max_length = max_length;
    eagle_indices = if apply_eagle then c.eagle_attn_group_indices else [];
  }

  unfoldable pub find_longest_cache_hit :
      List BlockHash → ℕ → ExternalPool → Bool → Result (List (List Bool) × ℕ)
  find_longest_cache_hit block_hashes max_length pool apply_eagle =
      finished
        (find_hit_blocks m c (search_of block_hashes max_length pool apply_eagle) (suc max_length))
      >>= λ found. ok (masks_from 0 c.kv_cache_groups found.1, found.0)

  unfoldable pub load_mask : List BlockHash → ℕ → Result (List (List Bool))
  load_mask block_hashes token_len =
      find_longest_cache_hit block_hashes token_len none false >>= λ found. ok found.0

  -- isinstance(spec, FullAttentionSpec) or spec.block_size == self.lcm_block_size
  abbrev is_uniform : AttentionGroup S → Bool
  is_uniform g = m.is_full g.spec || m.block_size g.spec == c.lcm_block_size

  unfoldable pub store_mask : ℕ → Result (List (List Bool))
  store_mask aligned_token_len =
      let all_blocks =
        map (λ g. replicate (aligned_token_len / m.block_size g) true) c.kv_cache_groups in
      let dummy_hashes = replicate (c.lcm_block_size / c.hash_block_size) dummy_block_hash in
      let template = find_longest_cache_hit dummy_hashes c.lcm_block_size none true in
      guard (aligned_token_len % c.lcm_block_size == 0) (assertion_error "")
      >> (if aligned_token_len == 0
          then ok (map (λ g. []) c.kv_cache_groups)
          else if all_of is_uniform c.attention_groups
          then ok all_blocks
          else (template >>= λ found.
              ok (map (repeat (aligned_token_len / c.lcm_block_size)) found.0)))

  -- The search that ends a lookup.
  abbrev pub longest : List BlockHash → ℕ → ExternalPool → Result ℕ
  longest hashes token_count pool =
      find_longest_cache_hit hashes token_count pool true >>= λ found. ok found.1

  -- A hit is within the prompt, with managers that find no more than the length asked of them.
  pub find_longest_cache_hit-le :
      (block_hashes : List BlockHash) (max_length : ℕ) (pool : ExternalPool) (apply_eagle : Bool)
      (masks : List (List Bool)) (hit : ℕ)
      → ManagerLaws m
      → find_longest_cache_hit block_hashes max_length pool apply_eagle ≡ ok (masks, hit)
      → hit ≤ max_length
  unfolding find_longest_cache_hit
  find_longest_cache_hit-le block_hashes max_length pool apply_eagle masks hit laws h =
      let search = search_of block_hashes max_length pool apply_eagle in
      let out = find_hit_blocks m c search (suc max_length) in
      let (found, e, e') = >>=-eq-ok (finished out) _ h in
      let same : found.0 ≡ hit = cc e' in
      let below =
        find_hit_blocks-le m c search found.0 (suc max_length) found.1 laws (omega arith)
          (finished-ok out found e) in
      omega (arith, same, below)

  longest-le :
      (hashes : List BlockHash) (token_count : ℕ) (pool : ExternalPool) (hit : ℕ)
      → ManagerLaws m
      → longest hashes token_count pool ≡ ok hit
      → hit ≤ token_count
  longest-le hashes token_count pool hit laws h =
      let (found, e, e') =
        >>=-eq-ok (find_longest_cache_hit hashes token_count pool true)
          (λ (found : List (List Bool) × ℕ). ok found.1) h in
      let below = find_longest_cache_hit-le hashes token_count pool true found.0 found.1 laws e in
      omega (arith, ok-injective e', below)

  -- So is what a lookup of the pool returns, whatever the Store answers.
  pub pool_lookup-le :
      (batch_is_exist : List PoolKey → Result (List ℤ)) (closed : Bool) (rank_count : ℕ)
      (groups : List LookupGroup) (token_count : ℕ) (hashes : List BlockHash) (hit : ℕ)
      → ManagerLaws m
      → pool_lookup batch_is_exist closed rank_count groups token_count hashes
          (longest hashes token_count)
        ≡ ok hit
      → hit ≤ token_count
  unfolding pool_lookup
  pool_lookup-le batch_is_exist closed rank_count groups token_count hashes hit laws h =
      let queries = lookup_queries token_count 0 groups in
      let search = search_present batch_is_exist rank_count queries (longest hashes token_count) in
      let (_, _, e) =
        >>=-eq-ok (guard (not closed) (runtime_error "KV cache pool is closed")) _ h in
      elim (Bool-cases (token_count == 0 || leb (length hashes) 0 || is_empty (all_keys queries))) [
        | inl trivial ↦ let e' = rw trivial at e in ground (arith, ok-injective e')
        | inr asked ↦
            search_present-le batch_is_exist rank_count queries (longest hashes token_count)
              token_count hit (λ pool n found. longest-le hashes token_count pool n laws found)
              (rw asked at e)
      ]
