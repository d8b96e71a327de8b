-- ===== src/Transfer/Runs/Bytes.antt =====
-- mtsc/kv_transfer.py: which bytes the copies of a run of blocks move.
use mtsc.Transfer.Regions.{can_coalesce_block_transfers}
use mtsc.Transfer.Runs.{
  run_copies, copies_of, block_copy, Layout, join_run, group_concurrent_contiguous, Pair, Copy,
}
use mtsc.Common.{
  subst, false, true, inr, inl, Bool-cases, Bool, append_assoc, append-nil, sym, ◌*◌, map, length,
  ◌≡◌, ◌∷◌, ◌∙◌, ◌+◌, ◌++◌, ℕ, zero, suc, refl, arith, ap, [], List, All,
}

-- The bytes of one copy, each with the place it goes to.
unfoldable pub span : ℕ → ℕ → ℕ → List (ℕ × ℕ)
span s d zero = []
span s d (suc n) = (s, d) ∷ span (suc s) (suc d) n

unfoldable pub bytes : List Copy → List (ℕ × ℕ)
unfolding span
bytes [] = []
bytes (copy ∷ copies) = span copy.src copy.dst copy.size ++ bytes copies

-- Each block follows the one before it at both ends.
abbrev pub IsRun : List Pair → Type 0
IsRun [] = Unit
IsRun (p ∷ []) = Unit
IsRun (p ∷ q ∷ run) = (q.0 ≡ suc p.0) × (q.1 ≡ suc p.1) × IsRun (q ∷ run)

suc_add : (m n : ℕ) → suc m + n ≡ suc (m + n)
suc_add m n = omega arith

-- The same bytes for equal addresses and sizes.
span-cong : {s s' d d' n n' : ℕ} → s ≡ s' → d ≡ d' → n ≡ n' → span s d n ≡ span s' d' n'
span-cong hs hd hn = cc

span-append : (s d m n : ℕ) → span s d (m + n) ≡ span s d m ++ span (s + m) (d + m) n
unfolding span
span-append s d zero n = ground arith
span-append s d (suc m) n =
    ap (span s d) (suc_add m n)
    ∙ ap (◌∷◌ (s, d)) (
        span-append (suc s) (suc d) m n
        ∙ ap (◌++◌ (span (suc s) (suc d) m)) (span-cong (omega arith) (omega arith) refl))

join_run-IsRun : (p : Pair) (runs : List (List Pair)) → All IsRun runs → All IsRun (join_run p runs)
unfolding join_run
join_run-IsRun p [] h = (tt, tt)
join_run-IsRun p ([] ∷ runs) h = (tt, h.1)
join_run-IsRun p ((q ∷ run) ∷ runs) h = ground arith

concat : List (List Pair) → List Pair
concat [] = []
concat (run ∷ runs) = run ++ concat runs

concat-join_run : (p : Pair) (runs : List (List Pair)) → concat (join_run p runs) ≡ p ∷ concat runs
unfolding join_run concat
concat-join_run p [] = refl
concat-join_run p ([] ∷ runs) = refl
concat-join_run p ((q ∷ run) ∷ runs) = ground arith

group_concurrent_contiguous-IsRun :
    (pairs : List Pair) → All IsRun (group_concurrent_contiguous pairs)
unfolding group_concurrent_contiguous
group_concurrent_contiguous-IsRun [] = tt
group_concurrent_contiguous-IsRun (p ∷ pairs) =
    join_run-IsRun p (group_concurrent_contiguous pairs) (group_concurrent_contiguous-IsRun pairs)

concat-group_concurrent_contiguous :
    (pairs : List Pair) → concat (group_concurrent_contiguous pairs) ≡ pairs
unfolding group_concurrent_contiguous concat
concat-group_concurrent_contiguous [] = refl
concat-group_concurrent_contiguous (p ∷ pairs) =
    concat-join_run p (group_concurrent_contiguous pairs)
    ∙ ap (◌∷◌ p) (concat-group_concurrent_contiguous pairs)

pub bytes-append : (xs ys : List Copy) → bytes (xs ++ ys) ≡ bytes xs ++ bytes ys
unfolding bytes
bytes-append [] ys = refl
bytes-append (x ∷ xs) ys =
    ap (◌++◌ (span x.src x.dst x.size)) (bytes-append xs ys)
    ∙ sym (append_assoc (span x.src x.dst x.size) (bytes xs) (bytes ys))

-- The bytes of a list of blocks, copied one by one.
abbrev pub block_bytes : Layout → List Pair → List (ℕ × ℕ)
block_bytes layout pairs = bytes (map (block_copy layout) pairs)

-- The layout of copies that take whole blocks.
flush : ℕ → ℕ → ℕ → Layout
flush local_addr remote_addr len = record {
  local_addr = local_addr;
  local_len = len;
  remote_addr = remote_addr;
  remote_len = len;
  src_offset = 0;
  dst_offset = 0;
  transfer_len = len;
}

next_addr : (a s len : ℕ) → a + s * len + len ≡ a + suc s * len
next_addr a s len = grind arith

mul_suc : (len n : ℕ) → len * suc n ≡ len + len * n
mul_suc len n = grind arith

first_bytes :
    (a r s d len : ℕ)
    → span (a + s * len + 0) (r + d * len + 0) len ≡ span (a + s * len) (r + d * len) len
first_bytes a r s d len = span-cong (omega arith) (omega arith) refl

next_bytes :
    (a r s d len n : ℕ) {s' d' : ℕ}
    → s' ≡ suc s
    → d' ≡ suc d
    → span (a + s * len + len) (r + d * len + len) n ≡ span (a + s' * len) (r + d' * len) n
next_bytes a r s d len n hs hd =
    span-cong (next_addr a s len ∙ ap (λ at. a + at * len) (sym hs))
      (next_addr r d len ∙ ap (λ at. r + at * len) (sym hd)) refl

whole_run :
    (a r len s d : ℕ) (run : List Pair)
    → IsRun ((s, d) ∷ run)
    → span (a + s * len) (r + d * len) (len * length ((s, d) ∷ run))
      ≡ block_bytes (flush a r len) ((s, d) ∷ run)
unfolding bytes block_copy flush
whole_run a r len s d [] h =
    span-cong (omega arith) (omega arith) (grind arith) ∙ sym (append-nil _)
whole_run a r len s d ((s', d') ∷ run) h =
    let rest = length ((s', d') ∷ run) in
    span-cong refl refl (mul_suc len rest)
    ∙ span-append (a + s * len) (r + d * len) len (len * rest)
    ∙ ap (λ x. x ++ span (a + s * len + len) (r + d * len + len) (len * rest))
        (sym (first_bytes a r s d len))
    ∙ ap (◌++◌ (span (a + s * len + 0) (r + d * len + 0) len))
        (next_bytes a r s d len (len * rest) h.0 h.1 ∙ whole_run a r len s' d' run h.2)

abbrev pub coalesces : Layout → Bool
coalesces layout =
    can_coalesce_block_transfers layout.local_len layout.remote_len layout.src_offset
      layout.dst_offset layout.transfer_len

coalesces-flush :
    (layout : Layout)
    → coalesces layout ≡ true
    → layout ≡ flush layout.local_addr layout.remote_addr layout.local_len
unfolding flush
coalesces-flush layout h = ground (arith, h)

map-append :
    (layout : Layout) (xs ys : List Pair)
    → map (block_copy layout) (xs ++ ys) ≡ map (block_copy layout) xs ++ map (block_copy layout) ys
map-append layout [] ys = refl
map-append layout (x ∷ xs) ys = ap (◌∷◌ (block_copy layout x)) (map-append layout xs ys)

run_copies-flush :
    (a r len : ℕ) (run : List Pair)
    → IsRun run
    → bytes (run_copies true (flush a r len) run) ≡ block_bytes (flush a r len) run
unfolding run_copies bytes flush
run_copies-flush a r len [] h = refl
run_copies-flush a r len ((s, d) ∷ run) h = append-nil _ ∙ whole_run a r len s d run h

run_copies-blocks :
    (layout : Layout) (run : List Pair)
    → bytes (run_copies false layout run) ≡ block_bytes layout run
unfolding run_copies
run_copies-blocks layout [] = refl
run_copies-blocks layout (p ∷ run) = refl

run_copies-bytes :
    (layout : Layout) (run : List Pair)
    → IsRun run
    → bytes (run_copies (coalesces layout) layout run) ≡ block_bytes layout run
run_copies-bytes layout run h = elim (Bool-cases (coalesces layout)) [
  | inl whole ↦
      ap (λ b. bytes (run_copies b layout run)) whole
      ∙ subst (λ l. bytes (run_copies true l run) ≡ block_bytes l run)
          (sym (coalesces-flush layout whole))
          (run_copies-flush layout.local_addr layout.remote_addr layout.local_len run h)
  | inr blocks ↦ ap (λ b. bytes (run_copies b layout run)) blocks ∙ run_copies-blocks layout run
]

copies_of-bytes :
    (layout : Layout) (runs : List (List Pair))
    → All IsRun runs
    → bytes (copies_of (coalesces layout) layout runs) ≡ block_bytes layout (concat runs)
unfolding copies_of concat
copies_of-bytes layout [] h = refl
copies_of-bytes layout (run ∷ runs) h =
    bytes-append (run_copies (coalesces layout) layout run)
      (copies_of (coalesces layout) layout runs)
    ∙ ground (
      arith,
      run_copies-bytes layout run h.0,
      copies_of-bytes layout runs h.1,
      bytes-append (map (block_copy layout) run) (map (block_copy layout) (concat runs)),
      map-append layout run (concat runs),
    )

-- For every layout and list of block pairs, the copies of the runs into which the pairs are grouped
-- move the same bytes to the same places, in the same order, as one copy for each pair, whether the
-- runs are coalesced or not.
pub copies_of-group_concurrent_contiguous :
    (layout : Layout) (pairs : List Pair)
    → bytes (copies_of (coalesces layout) layout (group_concurrent_contiguous pairs))
      ≡ bytes (map (block_copy layout) pairs)
copies_of-group_concurrent_contiguous layout pairs =
    copies_of-bytes layout (group_concurrent_contiguous pairs)
      (group_concurrent_contiguous-IsRun pairs)
    ∙ ap (block_bytes layout) (concat-group_concurrent_contiguous pairs)
