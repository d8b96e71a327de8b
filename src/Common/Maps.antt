-- ===== src/Common/Maps.antt =====
-- Python's `dict` and `set`. A dictionary is the list of its entries in order of insertion: a write
-- to a known key stays in its place. A set is the list of its members.
use mathlib.Core.Path.{◌≡◌, refl, sym, subst}
use mathlib.Core.Bool.{Bool, false, not, ◌||◌}
use mathlib.Core.List.{List, [], ◌∷◌, ◌++◌, map}
use mathlib.Core.Option.{Option, none, some}
use native.Mathlib.Omega.{arith}
use mathlib.Core.Logic.{inl, inr}
use mtsc.Common.Tests.{Bool-cases, Option-cases, Eq, ◌==◌, if◌then◌else◌, is_some}
use mtsc.Common.Lists.{keep_if}

abbrev pub Dict {ℓ} : Type ℓ → Type ℓ → Type ℓ
Dict K V = List (K × V)

module _ {ℓ} {K V : Type ℓ} ⦃e : Eq K⦄ where
  -- d.get(k)
  unfoldable pub get : Dict K V → K → Option V
  get [] k = none
  get ((j, v) ∷ d) k = if j == k then some v else get d k

  -- k in d
  abbrev pub has : Dict K V → K → Bool
  has d k = is_some (get d k)

  -- d[k] = v
  unfoldable pub put : Dict K V → K → V → Dict K V
  put [] k v = (k, v) ∷ []
  put ((j, w) ∷ d) k v = if j == k then (j, v) ∷ d else (j, w) ∷ put d k v

  -- d.pop(k, None)
  unfoldable pub remove : Dict K V → K → Dict K V
  remove [] k = []
  remove ((j, w) ∷ d) k = let rest = remove d k in if j == k then rest else (j, w) ∷ rest

  -- d.setdefault(k, v)
  abbrev pub set_default : Dict K V → K → V → Dict K V
  set_default d k v = elim (get d k) [ none ↦ put d k v | some w ↦ d ]

  -- for k in ks: d.pop(k, None)
  unfoldable pub remove_all : Dict K V → List K → Dict K V
  remove_all d [] = d
  remove_all d (k ∷ ks) = remove_all (remove d k) ks

  abbrev pub keys : Dict K V → List K
  keys = map (λ entry. entry.0)

  abbrev pub values : Dict K V → List V
  values = map (λ entry. entry.1)

  pub get-put :
      (d : Dict K V) (k j : K) (v : V) → get (put d k v) j ≡ (if k == j then some v else get d j)
  unfolding get put
  get-put [] k j v = refl
  get-put ((i, w) ∷ d) k j v =
      ground (arith, get-put d k j v, e.beq_iff i k, e.beq_iff i j, e.beq_iff k j)

  pub get-remove :
      (d : Dict K V) (k j : K) → get (remove d k) j ≡ (if k == j then none else get d j)
  unfolding get remove
  get-remove [] k j = ground arith
  get-remove ((i, w) ∷ d) k j =
      ground (arith, get-remove d k j, e.beq_iff i k, e.beq_iff i j, e.beq_iff k j)

module _ {ℓ} {A : Type ℓ} ⦃e : Eq A⦄ where
  -- a in s
  unfoldable pub member : A → List A → Bool
  member a [] = false
  member a (x ∷ s) = x == a || member a s

  -- s.add(a)
  unfoldable pub add : List A → A → List A
  add s a = if member a s then s else s ++ a ∷ []

  -- s.discard(a)
  unfoldable pub discard : List A → A → List A
  discard [] a = []
  discard (x ∷ s) a = let rest = discard s a in if x == a then rest else x ∷ rest

  -- s.update(t), s | t
  unfoldable pub update : List A → List A → List A
  update s [] = s
  update s (a ∷ t) = update (add s a) t

  -- s.difference_update(t), s - t
  unfoldable pub difference : List A → List A → List A
  difference s t = keep_if (λ a. not (member a t)) s

  pub member-append : (a : A) (s t : List A) → member a (s ++ t) ≡ (member a s || member a t)
  unfolding member
  member-append a [] t = refl
  member-append a (x ∷ s) t = ground (arith, member-append a s t)

  pub member-add : (a b : A) (s : List A) → member a (add s b) ≡ (b == a || member a s)
  unfolding member add
  member-add a b s = ground (arith, member-append a s (b ∷ []), e.beq_iff b a)

  pub member-discard :
      (a b : A) (s : List A) → member a (discard s b) ≡ (if b == a then false else member a s)
  unfolding member discard
  member-discard a b [] = ground arith
  member-discard a b (x ∷ s) =
      ground (arith, member-discard a b s, e.beq_iff x b, e.beq_iff x a, e.beq_iff b a)

  pub member-update : (a : A) (s t : List A) → member a (update s t) ≡ (member a s || member a t)
  unfolding member update
  member-update a s [] = ground arith
  member-update a s (b ∷ t) = ground (arith, member-update a (add s b) t, member-add a b s)

  pub member-difference :
      (a : A) (s t : List A)
      → member a (difference s t) ≡ (if member a t then false else member a s)
  unfolding member difference
  member-difference a [] t = ground arith
  member-difference a (x ∷ s) t = ground (arith, member-difference a s t, e.beq_iff x a)

module _ {ℓ} {K V : Type ℓ} ⦃e : Eq K⦄ where
  pub get-remove_all :
      (d : Dict K V) (ks : List K) (j : K)
      → get (remove_all d ks) j ≡ (if member j ks then none else get d j)
  unfolding remove_all member
  get-remove_all d [] j = refl
  get-remove_all d (k ∷ ks) j = ground (arith, get-remove_all (remove d k) ks j, get-remove d k j)

module _ {ℓ κ} {A : Type ℓ} {K : Type κ} ⦃e : Eq K⦄ where
  -- What is left after dropping the entries whose key is in `gone`.
  pub member-keep_if :
      (key : A → K) (gone : List K) (j : K) (xs : List A)
      → member j (map key (keep_if (λ x. not (member (key x) gone)) xs))
        ≡ (if member j gone then false else member j (map key xs))
  unfolding member
  member-keep_if key gone j [] = ground arith
  member-keep_if key gone j (x ∷ xs) =
      ground (arith, member-keep_if key gone j xs, e.beq_iff (key x) j)

  -- What is filtered by other keys keeps all elements of this one, in their order.
  pub keep_if-keep_if :
      (key : A → K) (gone : List K) (j : K) (xs : List A)
      → member j gone ≡ false
      → keep_if (λ x. key x == j) (keep_if (λ x. not (member (key x) gone)) xs)
        ≡ keep_if (λ x. key x == j) xs
  keep_if-keep_if key gone j [] safe = refl
  keep_if-keep_if key gone j (x ∷ xs) safe = elim (Bool-cases (key x == j)) [
    | inl same ↦
        let own : member (key x) gone ≡ false =
          subst (λ k. member k gone ≡ false) (sym ((e.beq_iff (key x) j).0 same)) safe in
        ground (arith, same, own, keep_if-keep_if key gone j xs safe)
    | inr differ ↦ elim (Bool-cases (member (key x) gone)) [
      | inl dropped ↦ ground (arith, differ, dropped, keep_if-keep_if key gone j xs safe)
      | inr kept ↦ ground (arith, differ, kept, keep_if-keep_if key gone j xs safe)
    ]
  ]

module _ {ℓ} {K V : Type ℓ} ⦃e : Eq K⦄ where
  -- Each key stands once.
  abbrev pub Unique : Dict K V → Type ℓ
  Unique [] = Unit
  Unique ((k, v) ∷ d) = (get d k ≡ none) × Unique d

  pub put-Unique : (d : Dict K V) (k : K) (v : V) → Unique d → Unique (put d k v)
  unfolding put get
  put-Unique [] k v u = (refl, tt)
  put-Unique ((j, w) ∷ d) k v u =
      ground (arith, put-Unique d k v u.1, get-put d k j v, e.beq_iff j k, e.beq_iff k j)

  pub remove-Unique : (d : Dict K V) (k : K) → Unique d → Unique (remove d k)
  unfolding remove
  remove-Unique [] k u = tt
  remove-Unique ((j, w) ∷ d) k u =
      ground (arith, remove-Unique d k u.1, get-remove d k j, e.beq_iff j k, e.beq_iff k j)

-- f(x) where there is an x
abbrev pub map_option {ℓ κ} : {A : Type ℓ} {B : Type κ} → (A → B) → Option A → Option B
map_option f none = none
map_option f (some a) = some (f a)

module _ {ℓ} {K V : Type ℓ} ⦃e : Eq K⦄ where
  -- Changes the entry of a key, if there is one.
  unfoldable pub modify : Dict K V → K → (V → V) → Dict K V
  modify d k f = elim (get d k) [ none ↦ d | some v ↦ put d k (f v) ]

  pub get-modify :
      (d : Dict K V) (k j : K) (f : V → V)
      → get (modify d k f) j ≡ (if k == j then map_option f (get d j) else get d j)
  unfolding modify
  get-modify d k j f = elim (Option-cases (get d k)) [
    | inl missing ↦ ground (arith, missing, e.beq_iff k j)
    | inr (v, found) ↦ ground (arith, found, get-put d k j (f v), e.beq_iff k j)
  ]

  modify-Unique-found :
      (d : Dict K V) (k : K) (f : V → V) (found : Option V)
      → Unique d
      → Unique (elim found [ none ↦ d | some v ↦ put d k (f v) ])
  modify-Unique-found d k f none u = u
  modify-Unique-found d k f (some v) u = put-Unique d k (f v) u

  pub modify-Unique : (d : Dict K V) (k : K) (f : V → V) → Unique d → Unique (modify d k f)
  unfolding modify
  modify-Unique d k f u = modify-Unique-found d k f (get d k) u

-- The value there, or else the one given.
abbrev pub or_else {ℓ} : {V : Type ℓ} → Option V → V → V
or_else none v = v
or_else (some w) v = w

module _ {ℓ} {K V : Type ℓ} ⦃e : Eq K⦄ where
  pub get-set_default :
      (d : Dict K V) (k j : K) (v : V)
      → get (set_default d k v) j ≡ (if k == j then some (or_else (get d j) v) else get d j)
  get-set_default d k j v = elim (Option-cases (get d k)) [
    | inl missing ↦ ground (arith, missing, get-put d k j v, e.beq_iff k j)
    | inr (w, found) ↦ ground (arith, found, e.beq_iff k j)
  ]

  set_default-Unique-found :
      (d : Dict K V) (k : K) (v : V) (found : Option V)
      → Unique d
      → Unique (elim found [ none ↦ put d k v | some w ↦ d ])
  set_default-Unique-found d k v none u = put-Unique d k v u
  set_default-Unique-found d k v (some w) u = u

  pub set_default-Unique : (d : Dict K V) (k : K) (v : V) → Unique d → Unique (set_default d k v)
  set_default-Unique d k v u = set_default-Unique-found d k v (get d k) u
