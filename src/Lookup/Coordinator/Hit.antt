-- ===== src/Lookup/Coordinator/Hit.antt =====
-- What `_find_hit_blocks` returns: within the prompt, and cut to the length of the hit.
use mtsc.Lookup.Coordinator.Rounds.{
  converge-Converges, Converges-total, Converges-le, ManagerLaws, Converges,
}
use mtsc.Lookup.Coordinator.{
  truncate_group, truncate, store_hits, first_round, first_length, find_single, find_in_groups,
  find_hybrid, find_hit_blocks, Search, Manager, Hits, Coordinator, AttentionGroup,
}
use mtsc.Common.{
  nat_eq, string_eq, ◌≤◌, ◌≡◌, ◌∷◌, ◌>>=◌, ◌<◌, ◌/◌, ◌*◌, ℕ, suc, some, refl, ok, member, inr, inl,
  arith, [], Result, List, Bool-cases, >>=-eq-ok,
}

module _ {S P : Type 0} (m : Manager S P) (c : Coordinator S) (search : Search P) where
  hybrid-Converges :
      (out : Result (ℕ × Hits)) (fuel : ℕ)
      → Converges m c search (first_round m c search) out
      → search.max_length < fuel
      → find_hybrid m c search fuel ≡ some (out >>= truncate_group m c search c.attention_groups)
  unfolding find_hybrid
  hybrid-Converges out fuel run enough =
      let t = converge-Converges m c search fuel (first_round m c search) out run enough in
      rw t refl

  -- The result of a search of several groups.
  hybrid-total : (out : Result (ℕ × Hits)) × Converges m c search (first_round m c search) out
  hybrid-total =
      Converges-total m c search (suc search.max_length) (first_round m c search) (omega arith)

  settles :
      (groups : List (AttentionGroup S))
      → (out : Result (ℕ × Hits)) × ((fuel : ℕ)
          → search.max_length < fuel
          → find_in_groups m c search groups fuel ≡ some out)
  unfolding find_in_groups
  settles (g ∷ []) = (find_single m c search g, λ fuel enough. refl)
  settles [] =
      let (out, run) = hybrid-total in (_, λ fuel enough. hybrid-Converges out fuel run enough)
  settles (g ∷ h ∷ gs) =
      let (out, run) = hybrid-total in (_, λ fuel enough. hybrid-Converges out fuel run enough)

  -- Whatever the managers find, the search ends: with any fuel above the length that is asked for, it
  -- has a result, and always the same one.
  pub find_hit_blocks-settles :
      (out : Result (ℕ × Hits)) × ((fuel : ℕ)
        → search.max_length < fuel
        → find_hit_blocks m c search fuel ≡ some out)
  find_hit_blocks-settles = settles c.attention_groups

  truncate_group-hit :
      (groups : List (AttentionGroup S)) (found kept : ℕ × Hits)
      → truncate_group m c search groups found ≡ ok kept
      → found.0 ≡ kept.0
  unfolding truncate_group
  truncate_group-hit [] found kept h = cc h
  truncate_group-hit (g ∷ gs) (hit, hits) kept h = elim (Bool-cases (m.is_full g.spec)) [
    | inl full ↦
        let h' = rw (full, truncate_group) at h in
        let (cut, _, e) =
          >>=-eq-ok (truncate m c search (hit / m.block_size g.spec) g.group_ids hits)
            (λ (cut : Hits). ok (hit, cut)) h' in
        cc e
    | inr sparse ↦ let h' = rw (sparse, truncate_group) at h in cc h'
  ]

  hybrid-le :
      (hit fuel : ℕ) (hits : Hits)
      → search.max_length < fuel
      → find_hybrid m c search fuel ≡ some (ok (hit, hits))
      → hit ≤ search.max_length
  hybrid-le hit fuel hits enough h =
      let (out, run) = hybrid-total in
      let e : (out >>= truncate_group m c search c.attention_groups) ≡ ok (hit, hits) =
        cc (hybrid-Converges out fuel run enough, h) in
      let (found, out_is, cut) = >>=-eq-ok out (truncate_group m c search c.attention_groups) e in
      let same = truncate_group-hit c.attention_groups found (hit, hits) cut in
      let below = Converges-le m c search (first_round m c search) out found.0 found.1 run out_is in
      omega (arith, same, below)

  single-le :
      (g : AttentionGroup S) (hit : ℕ) (hits : Hits)
      → ManagerLaws m
      → find_single m c search g ≡ ok (hit, hits)
      → hit ≤ search.max_length
  unfolding find_single
  single-le g hit hits laws h =
      let found =
        m.find g.spec search.pool search.block_hashes search.max_length
          (member 0 search.eagle_indices) (m.block_size g.spec) in
      let (kept, _, e) = >>=-eq-ok (store_hits g.group_ids found []) _ h in
      let (blocks, some_blocks, e') = >>=-eq-ok (first_length found) _ e in
      let same : blocks * m.block_size g.spec ≡ hit = cc e' in
      let below =
        laws.bounded g.spec search.pool search.block_hashes search.max_length
          (member 0 search.eagle_indices) (m.block_size g.spec) blocks some_blocks in
      omega (arith, same, below)

  found-le :
      (groups : List (AttentionGroup S)) (hit fuel : ℕ) (hits : Hits)
      → ManagerLaws m
      → search.max_length < fuel
      → find_in_groups m c search groups fuel ≡ some (ok (hit, hits))
      → hit ≤ search.max_length
  unfolding find_in_groups
  found-le (g ∷ []) hit fuel hits laws enough h = single-le g hit hits laws (cc h)
  found-le [] hit fuel hits laws enough h = hybrid-le hit fuel hits enough h
  found-le (g ∷ g' ∷ gs) hit fuel hits laws enough h = hybrid-le hit fuel hits enough h

  -- With managers that find no more than the length asked of them, a hit is within the length that
  -- the search is for.
  pub find_hit_blocks-le :
      (hit fuel : ℕ) (hits : Hits)
      → ManagerLaws m
      → search.max_length < fuel
      → find_hit_blocks m c search fuel ≡ some (ok (hit, hits))
      → hit ≤ search.max_length
  find_hit_blocks-le = found-le c.attention_groups
