-- ===== src/Scheduler/Admission/Asking.antt =====
-- `get_num_new_matched_tokens` keeps what the scheduler relies on of the lookup.
use mtsc.Scheduler.State.{Scheduler, Request, LookupOps}
use mtsc.Scheduler.Admission.Decisions.{LookupLaws}
use mtsc.Scheduler.Admission.{
  target_of, prepare, get_num_new_matched_tokens, find_pool_hit, decide, check_params, answer_for,
  after_lookup, Admitted,
}
use mtsc.Common.{
  string_eq, ◌≤◌, ◌≡◌, ℕ, sym, subst, some, refl, ok-injective, ok, none, ltb, inr, inl, arith,
  align, String, Option, Bool-cases, >>=-eq-ok,
}

module _ {C : Type 0} (ops : LookupOps C) {Fits : C → String → ℕ → Type 0}
    (laws : LookupLaws ops Fits) where
  find_pool_hit-Fits :
      (s : Scheduler C) (r : Request) (target : ℕ) (other_id : String) (bound : ℕ)
      → (other_id ≡ r.request_id → align target s.block_size ≤ bound)
      → Fits s.lookup_client other_id bound
      → Fits (find_pool_hit ops s r target).1 other_id bound
  unfolding find_pool_hit
  find_pool_hit-Fits s r target other_id bound few fits =
      elim (Bool-cases (ltb (align target s.block_size) s.block_size)) [
        | inl short ↦ rw (short, find_pool_hit) fits
        | inr long ↦
            rw (long, find_pool_hit)
              (laws.lookup_fits s.lookup_client r.request_id other_id _ bound _ _ few fits)
      ]

  after_lookup-client :
      (s : Scheduler C) (r : Request) (computed target : ℕ) (found : Option ℕ × C)
      → (after_lookup s r computed target found).1.lookup_client ≡ found.1
  unfolding after_lookup decide
  after_lookup-client s r computed target (none, client) = refl
  after_lookup-client s r computed target (some hit, client) = ground arith

  answer_for-Fits :
      (s : Scheduler C) (r : Request) (computed : ℕ) (other_id : String) (bound : ℕ)
      → (other_id ≡ r.request_id → align (target_of s.config r) s.block_size ≤ bound)
      → Fits s.lookup_client other_id bound
      → Fits (answer_for ops s r computed).2.lookup_client other_id bound
  unfolding answer_for
  answer_for-Fits s r computed other_id bound few fits =
      let target = target_of s.config r in
      subst (λ (client : C). Fits client other_id bound)
        (sym (after_lookup-client s r computed target (find_pool_hit ops s r target)))
        (find_pool_hit-Fits s r target other_id bound few fits)

  -- Being asked about a request leaves what any other one may be asked for, and this one what is at
  -- least what it asks for.
  pub get_num_new_matched_tokens-Fits :
      (s : Scheduler C) (r : Request) (computed : ℕ) (out : Admitted C) (other_id : String)
      (bound : ℕ)
      → (other_id ≡ (prepare s r).request_id
          → align (target_of s.config (prepare s r)) s.block_size ≤ bound)
      → Fits s.lookup_client other_id bound
      → get_num_new_matched_tokens ops s r computed ≡ ok out
      → Fits out.2.lookup_client other_id bound
  unfolding get_num_new_matched_tokens
  get_num_new_matched_tokens-Fits s r computed out other_id bound few fits h =
      let (_, _, e) =
        >>=-eq-ok (check_params s r) (λ _. ok (answer_for ops s (prepare s r) computed)) h in
      subst (λ (o : Admitted C). Fits o.2.lookup_client other_id bound) (ok-injective e)
        (answer_for-Fits s (prepare s r) computed other_id bound few fits)
