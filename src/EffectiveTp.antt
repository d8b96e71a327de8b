-- ===== src/EffectiveTp.antt =====
-- mtsc/utils.py: the number of ranks that hold different heads of the KV cache.
use mtsc.Common.{
  nat_eq, string_eq, ◌≤◌, ◌≡◌, ◌∙◌, ◌||◌, ◌==◌, ◌<◌, ◌%◌, ℕ, value_error, sym, raise, ok, mod_self,
  min, max, leb, inr, inl, if◌then◌else◌, arith, ap, Result, Bool-cases, Bool,
}

-- The heads that the ranks share out; all ranks of an MLA model hold the same one.
abbrev pub shared_heads : ℕ → Bool → ℕ
shared_heads kv_heads is_mla = if is_mla then 1 else kv_heads

unfoldable pub effective_tp : ℕ → ℕ → Bool → Result ℕ
effective_tp tp_size kv_heads is_mla =
    let heads = shared_heads kv_heads is_mla in
    if tp_size == 0 || kv_heads == 0
    then raise (value_error "Invalid TP size or KV head count")
    else if max tp_size heads % min tp_size heads == 0
    then ok (min tp_size heads)
    else raise (value_error "KV heads and TP size must have an integer ratio")

min-divides : (a b : ℕ) → max a b % min a b ≡ 0 → (a % min a b ≡ 0) × (b % min a b ≡ 0)
min-divides a b whole = elim (Bool-cases (leb a b)) [
  | inl le ↦
      let small : min a b ≡ a = ground (arith, le) in
      let large : max a b ≡ b = ground (arith, le) in
      (ap (λ m. a % m) small ∙ mod_self a, ap (λ m. m % min a b) (sym large) ∙ whole)
  | inr gt ↦
      let small : min a b ≡ b = ground (arith, gt) in
      let large : max a b ≡ a = ground (arith, gt) in
      (ap (λ m. m % min a b) (sym large) ∙ whole, ap (λ m. b % m) small ∙ mod_self b)
]

-- The size that is returned is positive, at most the size of the group and the number of heads, and
-- divides both, so that every rank has as many heads as any other.
pub effective_tp-divides :
    (tp_size kv_heads : ℕ) (is_mla : Bool) (size : ℕ)
    → effective_tp tp_size kv_heads is_mla ≡ ok size
    → (0 < size)
      × (size ≤ tp_size)
      × (size ≤ shared_heads kv_heads is_mla)
      × (tp_size % size ≡ 0)
      × (shared_heads kv_heads is_mla % size ≡ 0)
unfolding effective_tp
effective_tp-divides tp_size kv_heads is_mla size returned =
    let heads = shared_heads kv_heads is_mla in
    let same : size ≡ min tp_size heads = ground (arith, returned) in
    let whole : max tp_size heads % min tp_size heads ≡ 0 = ground (arith, returned) in
    let (first, second) = min-divides tp_size heads whole in
    (
      ground (arith, returned),
      ground (arith, returned),
      ground (arith, returned),
      ap (λ m. tp_size % m) same ∙ first,
      ap (λ m. heads % m) same ∙ second,
    )
