-- ===== src/Lookup/Coordinator/Rounds.antt =====
-- The rounds of `_find_hit_blocks`: they end, and the hit is within the prompt.
use mtsc.Lookup.Coordinator.{
  visit_groups, is_simple_hybrid, first_length, converge, Search, Round, Manager, Hits, Coordinator,
}
use mtsc.Common.{
  ◌≤◌, ◌≡◌, ◌<◌, ◌*◌, ℕ, zero, true, suc, some, refl, raise, ok, leb, inr, inl, false, arith,
  Result-cases, Result, List, Error, Bool-cases, Bool,
}
use mtsc.Protocol.{BlockHash}

-- A manager finds no more blocks than the length that it is asked for has room for.
pub record ManagerLaws {S P : Type 0} (m : Manager S P) : Type 0 where
  pub bounded :
      (spec : S) (pool : P) (hashes : List BlockHash) (bound : ℕ) (drop : Bool)
      (alignment blocks : ℕ)
      → first_length (m.find spec pool hashes bound drop alignment) ≡ ok blocks
      → blocks * m.block_size spec ≤ bound

module _ {S P : Type 0} (m : Manager S P) (c : Coordinator S) (search : Search P) where
  abbrev round : Round → Result Round
  round = visit_groups m c search 0 c.attention_groups

  -- What the `while True` loop comes to from a round on.
  pub data Converges : Round → Result (ℕ × Hits) → Type 0 where
    raised : (r : Round) (e : Error) → round r ≡ raise e → Converges r (raise e)
    agreed :
        (r r' : Round)
        → round r ≡ ok r'
        → leb r.curr_hit_length r'.curr_hit_length ≡ true
        → Converges r (ok (r.curr_hit_length, r'.hits))
    one_pass :
        (r r' : Round)
        → round r ≡ ok r'
        → leb r.curr_hit_length r'.curr_hit_length ≡ false
        → is_simple_hybrid m c search ≡ true
        → Converges r (ok (r'.curr_hit_length, r'.hits))
    lowered :
        (r r' : Round) (out : Result (ℕ × Hits))
        → round r ≡ ok r'
        → leb r.curr_hit_length r'.curr_hit_length ≡ false
        → is_simple_hybrid m c search ≡ false
        → Converges r' out
        → Converges r out

  -- Each round that goes on has lowered the length, so the rounds end.
  pub Converges-total :
      (fuel : ℕ) (r : Round)
      → r.curr_hit_length < fuel
      → (out : Result (ℕ × Hits)) × Converges r out
  Converges-total zero r h = absurd (omega arith)
  Converges-total (suc fuel) r h = elim (Result-cases (round r)) [
    | inr (e, stops) ↦ (raise e, raised r e stops)
    | inl (r', goes) ↦ elim (Bool-cases (leb r.curr_hit_length r'.curr_hit_length)) [
      | inl kept ↦ (ok (r.curr_hit_length, r'.hits), agreed r r' goes kept)
      | inr lower ↦ elim (Bool-cases (is_simple_hybrid m c search)) [
        | inl simple ↦ (ok (r'.curr_hit_length, r'.hits), one_pass r r' goes lower simple)
        | inr hybrid ↦
            let (out, rest) = Converges-total fuel r' (ground (arith, lower, h)) in
            (out, lowered r r' out goes lower hybrid rest)
      ]
    ]
  ]

  pub converge-Converges :
      (fuel : ℕ) (r : Round) (out : Result (ℕ × Hits))
      → Converges r out
      → r.curr_hit_length < fuel
      → converge m c search fuel r ≡ some out
  unfolding converge
  converge-Converges zero r out rest h = absurd (omega arith)
  converge-Converges (suc fuel) r out (raised _ e stops) h = rw (stops, converge) refl
  converge-Converges (suc fuel) r out (agreed _ r' goes kept) h =
      rw (goes, converge) (rw (kept, converge) refl)
  converge-Converges (suc fuel) r out (one_pass _ r' goes lower simple) h =
      rw (goes, converge) (rw (lower, converge) (rw (simple, converge) refl))
  converge-Converges (suc fuel) r out (lowered _ r' _ goes lower hybrid rest) h =
      let t = converge-Converges fuel r' out rest (ground (arith, lower, h)) in
      rw (goes, converge) (rw (lower, converge) (rw (hybrid, converge) t))

  pub Converges-le :
      (r : Round) (out : Result (ℕ × Hits)) (hit : ℕ) (hits : Hits)
      → Converges r out
      → out ≡ ok (hit, hits)
      → hit ≤ r.curr_hit_length
  Converges-le r out hit hits (raised _ e stops) h = cc h
  Converges-le r out hit hits (agreed _ r' goes kept) h =
      let e : r.curr_hit_length ≡ hit = cc h in omega (arith, e)
  Converges-le r out hit hits (one_pass _ r' goes lower simple) h =
      let e : r'.curr_hit_length ≡ hit = cc h in ground (arith, e, lower)
  Converges-le r out hit hits (lowered _ r' _ goes lower hybrid rest) h =
      ground (arith, Converges-le r' out hit hits rest h, lower)
