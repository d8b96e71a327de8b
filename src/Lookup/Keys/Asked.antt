-- ===== src/Lookup/Keys/Asked.antt =====
-- Which blocks a lookup asks for, and which of them the Store has, told without the code's lists.
use mtsc.Transfer.Request.{wanted}
use mtsc.Lookup.Blob.{join}
use mtsc.Protocol.{BlockHash}
use mtsc.Lookup.Keys.{
  lookup_queries, in_mask, group_queries, Query, PoolKey, LookupGroup, KeyMetadata,
}
use mtsc.Common.{
  ◌⊎◌, ◌≡◌, ◌∷◌, ◌∙◌, ◌<◌, ◌+◌, ◌*◌, zero, true, take, suc, subst, some, refl, none, length, inr,
  inl, get_elem?-take, get_elem?, cdiv, arith, ap, [], Option-cases, Option, List, IsMarked,
  In-append, In, Bool-cases, Bool, All, ℕ,
}

-- A block of the group with this hash starts among the tokens, and the group's mask asks for it.
abbrev pub IsAskedOf : ℕ → LookupGroup → BlockHash → Type 0
IsAskedOf token_count g h =
    (i : ℕ) × (get_elem? g.group_hashes i ≡ some h)
    × (i * g.block_size < token_count)
    × IsMarked g.mask i

-- Group number `n` is `g`, and a block of it with the hash is asked for.
abbrev pub IsAsked : ℕ → List LookupGroup → ℕ → BlockHash → LookupGroup → Type 0
IsAsked token_count groups n h g = (get_elem? groups n ≡ some g) × IsAskedOf token_count g h

-- The key of a block at a rank.
abbrev pub key_at : BlockHash → KeyMetadata → PoolKey
key_at h metadata = record { key_metadata = metadata; chunk_hash = h }

-- Every rank's key of a block that is asked for is there.
abbrev pub IsPresent : (PoolKey → Bool) → ℕ → List LookupGroup → ℕ → BlockHash → Type 0
IsPresent exists token_count groups n h =
    (g : LookupGroup) × IsAsked token_count groups n h g
    × All (λ metadata. exists (key_at h metadata) ≡ true) g.metadata

-- There are no tokens, no hashes, or no key of a block that is asked for.
abbrev pub IsVoid : ℕ → List BlockHash → List LookupGroup → Type 0
IsVoid token_count hashes groups =
    (token_count ≡ 0)
    ⊎ ((length hashes ≡ 0)
        ⊎ ((n : ℕ) (h : BlockHash) (g : LookupGroup)
            → IsAsked token_count groups n h g
            → g.metadata ≡ []))

abbrev pub query_of : ℕ → LookupGroup → BlockHash → Query
query_of n g h = record { candidate = (n, h); metadata = g.metadata }

in_mask-IsMarked :
    (mask : Option (List Bool)) (i : ℕ)
    → (in_mask mask i ≡ true → IsMarked mask i) × (IsMarked mask i → in_mask mask i ≡ true)
unfolding in_mask
in_mask-IsMarked none i = (λ h. tt, λ h. refl)
in_mask-IsMarked (some mask) i = elim (Option-cases (get_elem? mask i)) [
  | inl missing ↦ (λ h. ground (arith, missing, h), λ h. ground (arith, missing, h))
  | inr (bit, found) ↦ (λ h. ground (arith, found, h), λ h. ground (arith, found, h))
]

module _ (n : ℕ) (g : LookupGroup) where
  abbrev IsAmong : ℕ → List BlockHash → Query → Type 0
  IsAmong index hs q =
      (i : ℕ) × (k : ℕ) × (h : BlockHash) × (k ≡ index + i)
      × (get_elem? hs i ≡ some h)
      × IsMarked g.mask k
      × (q ≡ query_of n g h)

  IsAmong-suc :
      (index : ℕ) (x : BlockHash) (hs : List BlockHash) (q : Query)
      → IsAmong (suc index) hs q
      → IsAmong index (x ∷ hs) q
  IsAmong-suc index x hs q (i, k, h, number, found, marked, same) =
      (suc i, k, h, omega (arith, number), found, marked, same)

  group_queries-IsAmong :
      (index : ℕ) (hs : List BlockHash) (q : Query)
      → In q (group_queries n g index hs)
      → IsAmong index hs q
  unfolding group_queries
  group_queries-IsAmong index [] q h = absurd h
  group_queries-IsAmong index (x ∷ hs) q h = elim (Bool-cases (in_mask g.mask index)) [
    | inl wanted ↦
        let h' : (q ≡ query_of n g x) ⊎ In q (group_queries n g (suc index) hs) = rw wanted at h in
        elim h' [
          | inl same ↦
              (0, index, x, omega arith, refl, (in_mask-IsMarked g.mask index).0 wanted, same)
          | inr later ↦ IsAmong-suc index x hs q (group_queries-IsAmong (suc index) hs q later)
        ]
    | inr skipped ↦
        IsAmong-suc index x hs q (group_queries-IsAmong (suc index) hs q (rw skipped at h))
  ]

  IsAmong-group_queries :
      (index : ℕ) (hs : List BlockHash) (q : Query)
      → IsAmong index hs q
      → In q (group_queries n g index hs)
  unfolding group_queries
  IsAmong-group_queries index [] q (i, k, h, number, found, marked, same) = absurd (cc found)
  IsAmong-group_queries index (x ∷ hs) q (zero, k, h, number, found, marked, same) =
      let own : k ≡ index = omega (arith, number) in
      let hash_own : h ≡ x = cc found in
      let wanted : in_mask g.mask index ≡ true =
        (in_mask-IsMarked g.mask index).1 (subst (IsMarked g.mask) own marked) in
      rw wanted (inl (same ∙ ap (query_of n g) hash_own))
  IsAmong-group_queries index (x ∷ hs) q (suc i, k, h, number, found, marked, same) =
      let later =
        IsAmong-group_queries (suc index) hs q
          (i, k, h, omega (arith, number), found, marked, same) in
      elim (Bool-cases (in_mask g.mask index)) [
        | inl wanted ↦ rw wanted (inr later)
        | inr skipped ↦ rw skipped later
      ]

-- The number of a block that starts among the tokens is below the number of blocks, and conversely.
lt-cdiv :
    (i size tokens : ℕ)
    → 0 < size
    → (i < cdiv tokens size → i * size < tokens) × (i * size < tokens → i < cdiv tokens size)
lt-cdiv i size tokens positive = (λ h. grind (arith, positive, h), λ h. grind (arith, positive, h))

module _ (token_count : ℕ) where
  -- The query is for a block of one of these groups, the first of which has number `first`.
  abbrev pub IsQuery : ℕ → List LookupGroup → Query → Type 0
  IsQuery first groups q =
      (m : ℕ) × (n : ℕ) × (g : LookupGroup) × (h : BlockHash) × (n ≡ first + m)
      × (get_elem? groups m ≡ some g)
      × IsAskedOf token_count g h
      × (q ≡ query_of n g h)

  pub lookup_queries-IsQuery :
      (first : ℕ) (groups : List LookupGroup) (q : Query)
      → All (λ (g : LookupGroup). 0 < g.block_size) groups
      → (In q (lookup_queries token_count first groups) → IsQuery first groups q)
        × (IsQuery first groups q → In q (lookup_queries token_count first groups))
  unfolding lookup_queries
  lookup_queries-IsQuery first [] q sized =
      (λ h. absurd h, λ (m, n, g, h, number, found, asked, same). absurd (cc found))
  lookup_queries-IsQuery first (g ∷ gs) q sized =
      let count = cdiv token_count g.block_size in
      let (down, up) = lookup_queries-IsQuery (suc first) gs q sized.1 in
      let (split, join) =
        In-append q (group_queries first g 0 (take count g.group_hashes))
          (lookup_queries token_count (suc first) gs) in
      (
        λ h. elim (split h) [
          | inl here ↦
              let (i, k, x, number, found, marked, same) =
                group_queries-IsAmong first g 0 (take count g.group_hashes) q here in
              let (few, there) = (get_elem?-take count g.group_hashes i x).0 found in
              let index : k ≡ i = omega (arith, number) in
              (
                0,
                first,
                g,
                x,
                omega arith,
                refl,
                (
                  i,
                  there,
                  (lt-cdiv i g.block_size token_count sized.0).0 few,
                  subst (IsMarked g.mask) index marked,
                ),
                same,
              )
          | inr later ↦
              let (m, n, g', x, number, found, asked, same) = down later in
              (suc m, n, g', x, omega (arith, number), found, asked, same)
        ],
        λ (m, n, g', x, number, found, asked, same).
            join (at_place (up) m n g' x number found asked same),
      )
    where
      at_place :
          (IsQuery (suc first) gs q → In q (lookup_queries token_count (suc first) gs))
          → (m n : ℕ) (g' : LookupGroup) (x : BlockHash) → n ≡ first + m
          → get_elem? (g ∷ gs) m ≡ some g'
          → IsAskedOf token_count g' x
          → q ≡ query_of n g' x
          → In q (group_queries first g 0 (take (cdiv token_count g.block_size) g.group_hashes))
            ⊎ In q (lookup_queries token_count (suc first) gs)
      at_place rest zero n g' x number found asked same =
          let own : n ≡ first = omega (arith, number) in
          let group_own : g' ≡ g = cc found in
          let (i, there, inside, marked) = subst (λ y. IsAskedOf token_count y x) group_own asked in
          let same' : q ≡ query_of first g x =
            same ∙ ap (λ y. query_of y g' x) own ∙ ap (λ y. query_of first y x) group_own in
          inl (
            IsAmong-group_queries first g 0 (take (cdiv token_count g.block_size) g.group_hashes) q
              (
                i,
                i,
                x,
                omega arith,
                (get_elem?-take (cdiv token_count g.block_size) g.group_hashes i x).1
                    ((lt-cdiv i g.block_size token_count sized.0).1 inside) there,
                marked,
                same',
              ))
      at_place rest (suc m) n g' x number found asked same =
          inr (rest (m, n, g', x, omega (arith, number), found, asked, same))
