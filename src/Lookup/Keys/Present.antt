-- ===== src/Lookup/Keys/Present.antt =====
-- The blocks that a lookup takes to be there are those of which the Store has every key.
use mtsc.Protocol.{BlockHash}
use mathlib.Core.List.{map-append}
use mtsc.Lookup.Keys.{
  search_present, pool_lookup, lookup_queries, is_empty, group_queries, LookupGroup, ExternalPool,
  present_from, keys_of, found_at, all_keys, all_found, Query, PoolKey, Candidate,
}
use mtsc.Common.{
  nat_eq, string_eq, ◌∙◌, ◌||◌, ◌==◌, take, subst, leb, false, cdiv, Result, All-append, int_eq,
  ◌≡◌, ◌∷◌, ◌+◌, ◌++◌, ◌*◌, ℤ, ℕ, zero, suc, some, refl, pos, ok, map, length, keep_if, inr, inl,
  if◌then◌else◌, get_elem?, drop, arith, all_of, [], List, Bool-cases, Bool, All,
}

-- A Store that answers for each key if it is there.
abbrev pub answers : (PoolKey → Bool) → List PoolKey → List ℤ
answers exists = map (λ k. if exists k then pos 1 else pos 0)

drop-cons :
    {A : Type 0} (n : ℕ) (xs : List A) (x : A) (rest : List A)
    → drop n xs ≡ x ∷ rest
    → (get_elem? xs n ≡ some x) × (drop (suc n) xs ≡ rest)
drop-cons zero [] x rest h = cc h
drop-cons zero (y ∷ xs) x rest h = (cc h, cc h)
drop-cons (suc n) [] x rest h = cc h
drop-cons (suc n) (y ∷ xs) x rest h = drop-cons n xs x rest h

module _ (exists : PoolKey → Bool) where
  found_at-answers :
      (result : List ℤ) (start : ℕ) (k : PoolKey) (rest : List ℤ)
      → drop start result ≡ answers exists (k ∷ []) ++ rest
      → found_at result start ≡ ok (exists k)
  unfolding found_at
  found_at-answers result start k rest h =
      let (found, _) = drop-cons start result (if exists k then pos 1 else pos 0) rest h in
      rw (found, found_at)
        (elim (Bool-cases (exists k)) [ inl there ↦ rw there refl | inr missing ↦ rw missing refl ])

  all_found-answers :
      (ks : List PoolKey) (result : List ℤ) (start : ℕ) (rest : List ℤ)
      → drop start result ≡ answers exists ks ++ rest
      → (all_found result start (length ks) ≡ ok (all_of exists ks))
        × (drop (start + length ks) result ≡ rest)
  unfolding all_found
  all_found-answers [] result start rest h = (refl, ground (arith, h))
  all_found-answers (k ∷ ks) result start rest h =
      let (_, later) = drop-cons start result _ (answers exists ks ++ rest) h in
      let first_key = found_at-answers result start k (answers exists ks ++ rest) h in
      let (others, end) = all_found-answers ks result (suc start) rest later in
      (ground (arith, first_key, others), ground (arith, end))

  -- The queries of which the Store has all keys.
  abbrev pub complete : List Query → List Candidate
  complete qs = map (λ q. q.candidate) (keep_if (λ q. all_of exists (keys_of q)) qs)

  present_from-answers :
      (rank_count : ℕ) (qs : List Query) (result : List ℤ) (index : ℕ)
      → All (λ (q : Query). length (keys_of q) ≡ rank_count) qs
      → drop (index * rank_count) result ≡ answers exists (all_keys qs)
      → present_from result rank_count index qs ≡ ok (complete qs)
  unfolding present_from all_keys
  present_from-answers rank_count [] result index widths h = refl
  present_from-answers rank_count (q ∷ qs) result index widths h =
      let split =
        h ∙ map-append (λ k. if exists k then pos 1 else pos 0) (keys_of q) (all_keys qs) in
      let (every, next) =
        all_found-answers (keys_of q) result (index * rank_count) (answers exists (all_keys qs))
          split in
      let every' : all_found result (index * rank_count) rank_count
          ≡ ok (all_of exists (keys_of q)) =
        subst (λ (n : ℕ). all_found result (index * rank_count) n ≡ ok (all_of exists (keys_of q)))
          widths.0 every in
      let next' : drop (suc index * rank_count) result ≡ answers exists (all_keys qs) =
        subst (λ (n : ℕ). drop n result ≡ answers exists (all_keys qs)) (omega (arith, widths.0))
          next in
      let rest = present_from-answers rank_count qs result (suc index) widths.1 next' in
      rw every' (
        rw rest (elim (Bool-cases (all_of exists (keys_of q))) [
          | inl there ↦ rw (there, keep_if) refl
          | inr missing ↦ rw (missing, keep_if) refl
        ]))

-- Each query has a key for each of the ranks.
abbrev HasRanks : ℕ → List Query → Type 0
HasRanks rank_count = All (λ (q : Query). length (keys_of q) ≡ rank_count)

length-map : {A B : Type 0} (f : A → B) (xs : List A) → length (map f xs) ≡ length xs
length-map f [] = refl
length-map f (x ∷ xs) = ground (arith, length-map f xs)

length-keys_of : (q : Query) → length (keys_of q) ≡ length q.metadata
length-keys_of q = length-map _ q.metadata

module _ (rank_count : ℕ) where
  group_queries-HasRanks :
      (group_index : ℕ) (g : LookupGroup) (index : ℕ) (hs : List BlockHash)
      → length g.metadata ≡ rank_count
      → HasRanks rank_count (group_queries group_index g index hs)
  unfolding group_queries
  group_queries-HasRanks group_index g index [] w = tt
  group_queries-HasRanks group_index g index (h ∷ hs) w =
      let q : Query = record { candidate = (group_index, h); metadata = g.metadata } in
      ground (arith, length-keys_of q, w, group_queries-HasRanks group_index g (suc index) hs w)

  lookup_queries-HasRanks :
      (token_count group_index : ℕ) (groups : List LookupGroup)
      → All (λ (g : LookupGroup). length g.metadata ≡ rank_count) groups
      → HasRanks rank_count (lookup_queries token_count group_index groups)
  unfolding lookup_queries
  lookup_queries-HasRanks token_count group_index [] w = tt
  lookup_queries-HasRanks token_count group_index (g ∷ gs) w =
      All-append _ _ _
        (group_queries-HasRanks group_index g 0
          (take (cdiv token_count g.block_size) g.group_hashes) w.0)
        (lookup_queries-HasRanks token_count (suc group_index) gs w.1)

  -- Against a Store that answers for each key, an open pool whose groups all have the same number of
  -- ranks searches over just the blocks of which every rank's key is there; without tokens, hashes or
  -- keys it finds nothing.
  pub pool_lookup-complete :
      (exists : PoolKey → Bool) (groups : List LookupGroup) (token_count : ℕ)
      (hashes : List BlockHash) (search : ExternalPool → Result ℕ)
      → All (λ (g : LookupGroup). length g.metadata ≡ rank_count) groups
      → pool_lookup
          (λ keys. ok (answers exists keys))
          false
          rank_count
          groups
          token_count
          hashes
          search
        ≡ (if token_count == 0
              || leb (length hashes) 0
              || is_empty (all_keys (lookup_queries token_count 0 groups))
            then ok 0
            else search (some (complete exists (lookup_queries token_count 0 groups))))
  unfolding pool_lookup search_present
  pool_lookup-complete exists groups token_count hashes search w =
      let queries = lookup_queries token_count 0 groups in
      let there : present_from (answers exists (all_keys queries)) rank_count 0 queries
          ≡ ok (complete exists queries) =
        present_from-answers exists rank_count queries (answers exists (all_keys queries)) 0
          (lookup_queries-HasRanks token_count 0 groups w) (ground arith) in
      rw there refl
