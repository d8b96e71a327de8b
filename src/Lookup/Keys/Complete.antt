-- ===== src/Lookup/Keys/Complete.antt =====
-- The blocks that a lookup takes to be there, and when it has nothing to ask for.
use mtsc.Protocol.{BlockHash}
use mtsc.Lookup.Keys.Present.{complete}
use mtsc.Lookup.Keys.Asked.{
  IsAskedOf, query_of, lookup_queries-IsQuery, key_at, IsVoid, IsPresent, IsAsked,
}
use mtsc.Lookup.Keys.{
  lookup_queries, is_empty, keys_of, all_keys, Query, PoolKey, LookupGroup, KeyMetadata, Candidate,
}
use mtsc.Common.{
  nat_eq, string_eq, ◌≡◌, ◌∷◌, ◌∙◌, ◌||◌, ◌==◌, ◌<◌, ◌++◌, true, sym, subst, some, refl, map,
  length, leb, keep_if, inr, inl, get_elem?, arith, ap, all_of, [], List, In, Bool-cases, Bool, All,
  ℕ,
}

In-candidates :
    (p : Query → Bool) (c : Candidate) (qs : List Query)
    → (In c (map (λ (q : Query). q.candidate) (keep_if p qs))
        → (q : Query) × In q qs × (p q ≡ true) × (c ≡ q.candidate))
      × ((q : Query)
          → In q qs
          → p q ≡ true
          → In q.candidate (map (λ (q : Query). q.candidate) (keep_if p qs)))
In-candidates p c [] = (λ h. absurd h, λ q h t. h)
In-candidates p c (x ∷ qs) =
    let (down, up) = In-candidates p c qs in
    elim (Bool-cases (p x)) [
      | inl keeps ↦
          rw (keeps, keep_if)
            (
              λ h. elim h [
                | inl same ↦ (x, inl refl, keeps, same)
                | inr later ↦ let (q, found, t, same) = down later in (q, inr found, t, same)
              ],
              λ q h t. elim h [
                | inl same ↦ inl (ap (λ (r : Query). r.candidate) same)
                | inr later ↦ inr (up q later t)
              ],
            )
      | inr drops ↦
          rw (drops, keep_if)
            (
              λ h. let (q, found, t, same) = down h in (q, inr found, t, same),
              λ q h t. elim h [
                | inl same ↦ absurd (cc (t, ap p same, drops))
                | inr later ↦ up q later t
              ],
            )
    ]

all_of-keys :
    (exists : PoolKey → Bool) (h : BlockHash) (ranks : List KeyMetadata)
    → (all_of exists (map (key_at h) ranks) ≡ true
        → All (λ metadata. exists (key_at h metadata) ≡ true) ranks)
      × (All (λ metadata. exists (key_at h metadata) ≡ true) ranks
          → all_of exists (map (key_at h) ranks) ≡ true)
all_of-keys exists h [] = (λ e. tt, λ e. refl)
all_of-keys exists h (metadata ∷ ranks) =
    let (down, up) = all_of-keys exists h ranks in
    (
      λ e. (ground (arith, e), down (ground (arith, e))),
      λ e. let rest = up e.1 in ground (arith, e.0, rest),
    )

-- The lookup's blocks are just those that are asked for and of which every rank's key is there.
pub complete-IsPresent :
    (exists : PoolKey → Bool) (token_count : ℕ) (groups : List LookupGroup) (n : ℕ) (h : BlockHash)
    → All (λ (g : LookupGroup). 0 < g.block_size) groups
    → (In (n, h) (complete exists (lookup_queries token_count 0 groups))
        → IsPresent exists token_count groups n h)
      × (IsPresent exists token_count groups n h
          → In (n, h) (complete exists (lookup_queries token_count 0 groups)))
complete-IsPresent exists token_count groups n h sized =
    let queries = lookup_queries token_count 0 groups in
    let (down, up) = In-candidates (λ q. all_of exists (keys_of q)) (n, h) queries in
    (
      λ found.
          let (q, known, every, own) = down found in
          let (m, k, g, x, number, at, asked, same) =
            (lookup_queries-IsQuery token_count 0 groups q sized).0 known in
          let pair : (n, h) ≡ (k, x) = own ∙ ap (λ (r : Query). r.candidate) same in
          let number_own : m ≡ n =
            let e : n ≡ k = ap (λ (p : Candidate). p.0) pair in omega (arith, number, e) in
          let hash_own : x ≡ h = sym (ap (λ (p : Candidate). p.1) pair) in
          let every' : all_of exists (map (key_at x) g.metadata) ≡ true =
            subst (λ (r : Query). all_of exists (keys_of r) ≡ true) same every in
          (
            g,
            (
              subst (λ i. get_elem? groups i ≡ some g) number_own at,
              subst (IsAskedOf token_count g) hash_own asked,
            ),
            (all_of-keys exists h g.metadata).0
                (subst (λ y. all_of exists (map (key_at y) g.metadata) ≡ true) hash_own every'),
          ),
      λ (g, (at, asked), there).
          up (query_of n g h)
            ((lookup_queries-IsQuery token_count 0 groups (query_of n g h) sized).1
              (n, n, g, h, omega arith, at, asked, refl))
            ((all_of-keys exists h g.metadata).1 there),
    )

-- No query has a rank.
is_empty-all_keys :
    (qs : List Query)
    → (is_empty (all_keys qs) ≡ true → (q : Query) → In q qs → q.metadata ≡ [])
      × (((q : Query) → In q qs → q.metadata ≡ []) → is_empty (all_keys qs) ≡ true)
unfolding all_keys is_empty
is_empty-all_keys [] = (λ e q h. absurd h, λ e. refl)
is_empty-all_keys (x ∷ qs) =
    let (down, up) = is_empty-all_keys qs in
    (
      λ e q h.
          let (none_here, rest) = ranks x.metadata x.candidate.1 (all_keys qs) e in
          elim h [
            | inl same ↦ ap (λ (r : Query). r.metadata) same ∙ none_here
            | inr later ↦ down rest q later
          ],
      λ every.
          let here' = every x (inl refl) in
          let rest = up (λ q h. every q (inr h)) in
          subst (λ metadata. is_empty (map (key_at x.candidate.1) metadata ++ all_keys qs) ≡ true)
            (sym here') rest,
    )
  where
    ranks :
        (metadata : List KeyMetadata) (h : BlockHash) (later : List PoolKey)
        → is_empty (map (key_at h) metadata ++ later) ≡ true
        → (metadata ≡ []) × (is_empty later ≡ true)
    ranks [] h later e = (refl, e)
    ranks (m ∷ metadata) h later e = absurd (cc e)

pub is_empty-IsAsked :
    (token_count : ℕ) (groups : List LookupGroup)
    → All (λ (g : LookupGroup). 0 < g.block_size) groups
    → (is_empty (all_keys (lookup_queries token_count 0 groups)) ≡ true
        → (n : ℕ) (h : BlockHash) (g : LookupGroup) → IsAsked token_count groups n h g
        → g.metadata ≡ [])
      × (((n : ℕ) (h : BlockHash) (g : LookupGroup)
            → IsAsked token_count groups n h g
            → g.metadata ≡ [])
          → is_empty (all_keys (lookup_queries token_count 0 groups)) ≡ true)
is_empty-IsAsked token_count groups sized =
    let (down, up) = is_empty-all_keys (lookup_queries token_count 0 groups) in
    (
      λ e n h g (at, asked). down e (query_of n g h) (
          (lookup_queries-IsQuery token_count 0 groups (query_of n g h) sized).1
            (n, n, g, h, omega arith, at, asked, refl)),
      λ every. up (λ q known.
          let (m, k, g, x, number, at, asked, same) =
            (lookup_queries-IsQuery token_count 0 groups q sized).0 known in
          ap (λ (r : Query). r.metadata) same ∙ every m x g (at, asked)),
    )

-- The test for a lookup without work.
pub is_empty-IsVoid :
    (token_count : ℕ) (hashes : List BlockHash) (groups : List LookupGroup)
    → All (λ (g : LookupGroup). 0 < g.block_size) groups
    → let is_void =
        token_count == 0
        || leb (length hashes) 0
        || is_empty (all_keys (lookup_queries token_count 0 groups)) in
      (is_void ≡ true → IsVoid token_count hashes groups)
      × (IsVoid token_count hashes groups → is_void ≡ true)
is_empty-IsVoid token_count hashes groups sized =
    let (down, up) = is_empty-IsAsked token_count groups sized in
    (
      λ e. elim (Bool-cases (token_count == 0)) [
        | inl none_asked ↦ inl (ground (arith, none_asked))
        | inr some_tokens ↦ elim (Bool-cases (leb (length hashes) 0)) [
          | inl no_hashes ↦ inr (inl (ground (arith, no_hashes)))
          | inr some_hashes ↦ inr (inr (down (ground (arith, e, some_tokens, some_hashes))))
        ]
      ],
      λ h. elim h [
        | inl no_tokens ↦ ground (arith, no_tokens)
        | inr others ↦ elim others [
          | inl no_hashes ↦ ground (arith, no_hashes)
          | inr no_keys ↦ let e = up no_keys in ground (arith, e)
        ]
      ],
    )
