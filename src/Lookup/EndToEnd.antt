-- ===== src/Lookup/EndToEnd.antt =====
-- A lookup from the scheduler's client to the pool and back.
use mtsc.Lookup.Keys.Complete.{is_empty-IsVoid, complete-IsPresent}
use mtsc.Lookup.Keys.Asked.{IsVoid, IsPresent}
use mtsc.Lookup.Keys.Present.{pool_lookup-complete, complete, answers}
use mtsc.Lookup.Masks.{pool_lookup-le, longest}
use mtsc.Lookup.Rpc.RoundTrip.{within, call_lookup-served_by, Sendable}
use mtsc.Lookup.Rpc.{settle, served_by, call_lookup, Owner}
use mtsc.Lookup.Coordinator.Rounds.{ManagerLaws}
use mtsc.Lookup.Keys.{
  lookup_queries, is_empty, all_keys, pool_lookup, PoolKey, LookupGroup, ExternalPool,
}
use mtsc.Lookup.Coordinator.{Manager, Coordinator}
use mtsc.Common.{
  ◌<◌, true, inr, inl, In, Bool-cases, nat_eq, string_eq, ◌||◌, ◌==◌, some, length, leb,
  if◌then◌else◌, false, ap, All, int_eq, ◌≤◌, ◌≡◌, ◌∙◌, ℤ, ℕ, remove_all, refl, raise, ok, arith,
  Result, List, Bool,
}
use mtsc.Protocol.{BlockHash}

module _ {S W : Type 0} (m : Manager S ExternalPool) (c : Coordinator S) where
  -- A pool whose Store, groups and other operations depend on the state of the worker.
  abbrev pub pool_owner :
      (W → List PoolKey → Result (List ℤ))
      → (W → Bool)
      → ℕ
      → (List BlockHash → List LookupGroup)
      → (W → Result (Unit {0}) × W)
      → (W → Result (Unit {0}) × W)
      → Owner W
  pool_owner batch_is_exist closed rank_count groups wait_for_all_saves remove_all = record {
    lookup = λ w token_count hashes.
        pool_lookup (batch_is_exist w) (closed w) rank_count (groups hashes) token_count hashes
          (longest m c hashes token_count);
    wait_for_all_saves = wait_for_all_saves;
    remove_all = remove_all;
  }

within-settle :
    (token_count : ℕ) (answer : Result ℕ)
    → ((hit : ℕ) → answer ≡ ok hit → hit ≤ token_count)
    → within token_count answer ≡ settle answer
unfolding settle
within-settle token_count (raise problem) below = refl
within-settle token_count (ok hit) below = ground (arith, below hit refl)

module _ {S W : Type 0} (m : Manager S ExternalPool) (c : Coordinator S) where
  -- With managers that find no more than the length asked of them, the client's result is what the
  -- pool finds, and 0 where the pool raises: frames, reply and check of the reply change nothing.
  call_lookup-pool_lookup :
      (batch_is_exist : W → List PoolKey → Result (List ℤ)) (closed : W → Bool) (rank_count : ℕ)
      (groups : List BlockHash → List LookupGroup)
      (wait_for_all_saves remove_all : W → Result (Unit {0}) × W) (w : W) (token_count : ℕ)
      (hashes : List BlockHash)
      → ManagerLaws m
      → Sendable token_count hashes
      → settle (
          call_lookup
            (served_by
              (pool_owner m c batch_is_exist closed rank_count groups wait_for_all_saves remove_all)
              w)
            token_count
            hashes)
        ≡ settle (
            pool_lookup
              (batch_is_exist w)
              (closed w)
              rank_count
              (groups hashes)
              token_count
              hashes
              (longest m c hashes token_count))
  call_lookup-pool_lookup batch_is_exist closed rank_count groups wait_for_all_saves remove_all w
        token_count hashes laws fits =
      let owner =
        pool_owner m c batch_is_exist closed rank_count groups wait_for_all_saves remove_all in
      call_lookup-served_by owner w token_count hashes fits
      ∙ within-settle token_count (owner.lookup w token_count hashes) (λ hit found.
        pool_lookup-le m c (batch_is_exist w) (closed w) rank_count (groups hashes) token_count
          hashes hit laws found)

  call_lookup-searches :
      (exists : W → PoolKey → Bool) (rank_count : ℕ) (groups : List BlockHash → List LookupGroup)
      (wait_for_all_saves remove_all : W → Result (Unit {0}) × W) (w : W) (token_count : ℕ)
      (hashes : List BlockHash)
      → ManagerLaws m
      → Sendable token_count hashes
      → All (λ (g : LookupGroup). length g.metadata ≡ rank_count) (groups hashes)
      → settle (
          call_lookup
            (served_by
              (pool_owner m c
                (λ w keys. ok (answers (exists w) keys))
                (λ w. false)
                rank_count
                groups
                wait_for_all_saves
                remove_all)
              w)
            token_count
            hashes)
        ≡ settle (
            if token_count == 0
              || leb (length hashes) 0
              || is_empty (all_keys (lookup_queries token_count 0 (groups hashes)))
            then ok 0
            else longest m c hashes token_count
                (some (complete (exists w) (lookup_queries token_count 0 (groups hashes)))))
  call_lookup-searches exists rank_count groups wait_for_all_saves remove_all w token_count hashes
        laws fits ranks =
      call_lookup-pool_lookup (λ w keys. ok (answers (exists w) keys)) (λ w. false) rank_count
        groups wait_for_all_saves remove_all w token_count hashes laws fits
      ∙ ap settle (
          pool_lookup-complete rank_count (exists w) (groups hashes) token_count hashes
            (longest m c hashes token_count) ranks)

  -- Against a Store that answers for each key if it is there, with managers that find no more than the
  -- length asked of them and groups of the same number of ranks and blocks of at least one token: without
  -- tokens, hashes or a key to ask for, the client's result is 0. Otherwise it is the hit that the
  -- coordinator finds over a list of just the blocks that start among the tokens, are asked for by
  -- the mask of their group and have every rank's key in the Store, and 0 where its search raises.
  pub call_lookup_complete :
      (exists : W → PoolKey → Bool) (rank_count : ℕ) (groups : List BlockHash → List LookupGroup)
      (wait_for_all_saves remove_all : W → Result (Unit {0}) × W) (w : W) (token_count : ℕ)
      (hashes : List BlockHash)
      → ManagerLaws m
      → Sendable token_count hashes
      → All (λ (g : LookupGroup). length g.metadata ≡ rank_count) (groups hashes)
      → All (λ (g : LookupGroup). 0 < g.block_size) (groups hashes)
      → let result = settle (
          call_lookup
            (served_by
              (pool_owner m c
                (λ w keys. ok (answers (exists w) keys))
                (λ w. false)
                rank_count
                groups
                wait_for_all_saves
                remove_all)
              w)
            token_count
            hashes) in
        (IsVoid token_count hashes (groups hashes) → result ≡ 0)
        × (¬ IsVoid token_count hashes (groups hashes)
            → (blocks : List (ℕ × BlockHash)) × ((n : ℕ) (h : BlockHash)
                → (In (n, h) blocks → IsPresent (exists w) token_count (groups hashes) n h)
                  × (IsPresent (exists w) token_count (groups hashes) n h → In (n, h) blocks))
              × (result ≡ settle (longest m c hashes token_count (some blocks))))
  unfolding settle
  call_lookup_complete exists rank_count groups wait_for_all_saves remove_all w token_count hashes
        laws fits ranks sized =
      let searched =
        call_lookup-searches exists rank_count groups wait_for_all_saves remove_all w token_count
          hashes laws fits ranks in
      let (void, test) = is_empty-IsVoid token_count hashes (groups hashes) sized in
      let blocks = complete (exists w) (lookup_queries token_count 0 (groups hashes)) in
      let settled : Bool → ℕ =
        λ b. settle (if b then ok 0 else longest m c hashes token_count (some blocks)) in
      (
        λ nothing. searched ∙ ap settled (test nothing),
        λ work. (
          blocks,
          λ n h. complete-IsPresent (exists w) token_count (groups hashes) n h sized,
          searched ∙ ap settled (not_void (λ e. work (void e))),
        ),
      )
    where
      not_void : {b : Bool} → (b ≡ true → ⊥) → b ≡ false
      not_void {b} h = elim (Bool-cases b) [ inl e ↦ absurd (h e) | inr e ↦ e ]
