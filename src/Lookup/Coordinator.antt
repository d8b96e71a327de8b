-- ===== src/Lookup/Coordinator.antt =====
-- `MooncakeStoreCoordinator`: the longest prefix of a prompt that every group of layers finds in the
-- Store. vLLM's managers are parameters: what one finds, per group id, is a list that has for each
-- block if it is there (true) or the null block (false).
pub mod Rounds
pub mod Hit
use mtsc.Common.{
  value_error, index_error, assertion_error, nat_eq, string_eq, ◌∷◌, ◌>>=◌, ◌==◌, ◌/◌, ◌+◌, ◌*◌,
  ◌&&◌, ℕ, zero, true, take, suc, some, raise, put, ok, not, none, min, member, map_option, ltb,
  length, leb, is_some, if◌then◌else◌, get, false, drop, align, add, [], Result, Option, List, Dict,
  Bool,
}
use mtsc.Protocol.{BlockHash}

-- A manager's `find_longest_cache_hit`: pool, hashes, max_length, drop_eagle_block, alignment_tokens.
pub record Manager (S P : Type 0) : Type 0 where
  pub block_size : S → ℕ
  pub is_full : S → Bool
  pub find : S → P → List BlockHash → ℕ → Bool → ℕ → List (List Bool)

pub record AttentionGroup (S : Type 0) : Type 0 where
  pub spec : S
  pub group_ids : List ℕ

pub record Coordinator (S : Type 0) : Type 0 where
  pub kv_cache_groups : List S
  pub lcm_block_size : ℕ
  pub hash_block_size : ℕ
  pub attention_groups : List (AttentionGroup S)
  pub eagle_attn_group_indices : List ℕ

-- hit_blocks_by_group
abbrev pub Hits : Type 0
Hits = Dict ℕ (List Bool)

-- One search: what does not change between its rounds.
pub record Search (P : Type 0) : Type 0 where
  pub pool : P
  pub block_hashes : List BlockHash
  pub max_length : ℕ
  pub eagle_indices : List ℕ

pub record Round : Type 0 where
  pub curr_hit_length : ℕ
  pub eagle_verified : List ℕ
  pub hits : Hits

-- for gid, blocks in zip(group_ids, hit_blocks, strict=True): ...[gid] = blocks
unfoldable pub store_hits : List ℕ → List (List Bool) → Hits → Result Hits
store_hits [] [] hits = ok hits
store_hits (gid ∷ gids) (blocks ∷ found) hits = store_hits gids found (put hits gid blocks)
store_hits _ _ hits = raise (value_error "zip")

-- len(hit_blocks[0])
unfoldable pub first_length : List (List Bool) → Result ℕ
first_length [] = raise (index_error "")
first_length (blocks ∷ found) = ok (length blocks)

-- hit_blocks_by_group[group_ids[0]]
unfoldable pub cached_hit : List ℕ → Hits → Result (Option (List Bool))
cached_hit [] hits = raise (index_error "")
cached_hit (gid ∷ gids) hits = ok (get hits gid)

-- The indices that have dropped their block, after a group has been searched.
abbrev pub next_verified : ℕ → Bool → ℕ → ℕ → List ℕ → List ℕ
next_verified index drop found curr verified =
    if drop then add verified index else if ltb found curr then [] else verified

module _ {S P : Type 0} (m : Manager S P) (c : Coordinator S) (search : Search P) where
  unfoldable pub search_group : ℕ → AttentionGroup S → Round → Result Round
  search_group index g r =
      let size = m.block_size g.spec in
      let curr = r.curr_hit_length in
      let drop = member index search.eagle_indices && not (member index r.eagle_verified) in
      let bound = if drop then min (curr + size) search.max_length else curr in
      let found = m.find g.spec search.pool search.block_hashes bound drop c.lcm_block_size in
      first_length found >>= λ blocks. store_hits g.group_ids found r.hits >>= λ hits. ok (record {
        curr_hit_length = blocks * size;
        eagle_verified = next_verified index drop (blocks * size) curr r.eagle_verified;
        hits = hits;
      })

  -- One group in one round: a full-attention group is searched once, and then only rounds down.
  unfoldable pub visit_group : ℕ → AttentionGroup S → Round → Result Round
  visit_group index g r = cached_hit g.group_ids r.hits >>= λ cached.
      if m.is_full g.spec && is_some cached
      then ok (record r { curr_hit_length = align r.curr_hit_length (m.block_size g.spec) })
      else search_group index g r

  unfoldable pub visit_groups : ℕ → List (AttentionGroup S) → Round → Result Round
  visit_groups index [] r = ok r
  visit_groups index (g ∷ gs) r =
      visit_group index g r >>= λ visited. visit_groups (suc index) gs visited

  -- len(self.attention_groups) == 2 and isinstance(self.attention_groups[0][0], FullAttentionSpec)
  unfoldable pub is_simple_hybrid : Bool
  is_simple_hybrid = elim c.attention_groups [
    | g ∷ gs ↦ length gs == 1 && m.is_full g.spec
    | [] ↦ false
  ]

  -- `while True`, on fuel: the length and the blocks where the rounds have converged.
  unfoldable pub converge : ℕ → Round → Option (Result (ℕ × Hits))
  converge zero r = none
  converge (suc fuel) r = elim (visit_groups 0 c.attention_groups r) [
    | raise problem ↦ some (raise problem)
    | ok r' ↦ elim (leb r.curr_hit_length r'.curr_hit_length) [
      | true ↦ some (ok (r.curr_hit_length, r'.hits))
      | false ↦ elim is_simple_hybrid [
        | true ↦ some (ok (r'.curr_hit_length, r'.hits))
        | false ↦ converge fuel r'
      ]
    ]
  ]

  -- del full_blks[num_blocks:] for the groups of a spec
  unfoldable pub truncate : ℕ → List ℕ → Hits → Result Hits
  truncate blocks [] hits = ok hits
  truncate blocks (gid ∷ gids) hits = elim (get hits gid) [
    | none ↦ raise (assertion_error "")
    | some full ↦ truncate blocks gids (put hits gid (take blocks full))
  ]

  unfoldable pub truncate_group : List (AttentionGroup S) → ℕ × Hits → Result (ℕ × Hits)
  truncate_group [] (hit_length, hits) = raise (index_error "")
  truncate_group (g ∷ gs) (hit_length, hits) =
      if m.is_full g.spec
      then (truncate (hit_length / m.block_size g.spec) g.group_ids hits >>= λ cut.
          ok (hit_length, cut))
      else ok (hit_length, hits)

  -- The path of a coordinator with one attention group.
  unfoldable pub find_single : AttentionGroup S → Result (ℕ × Hits)
  find_single g =
      let size = m.block_size g.spec in
      let found =
        m.find g.spec search.pool search.block_hashes search.max_length
          (member 0 search.eagle_indices) size in
      store_hits g.group_ids found [] >>= λ hits.
      first_length found >>= λ blocks. ok (blocks * size, hits)

  abbrev pub first_round : Round
  first_round = record { curr_hit_length = search.max_length; eagle_verified = []; hits = [] }

  unfoldable pub find_hybrid : ℕ → Option (Result (ℕ × Hits))
  find_hybrid fuel =
      map_option (λ r. r >>= truncate_group c.attention_groups) (converge fuel first_round)

  -- `_find_hit_blocks`: one attention group, or several.
  unfoldable pub find_in_groups : List (AttentionGroup S) → ℕ → Option (Result (ℕ × Hits))
  find_in_groups (g ∷ []) fuel = some (find_single g)
  find_in_groups _ fuel = find_hybrid fuel

  abbrev pub find_hit_blocks : ℕ → Option (Result (ℕ × Hits))
  find_hit_blocks = find_in_groups c.attention_groups
