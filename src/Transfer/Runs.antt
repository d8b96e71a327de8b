-- ===== src/Transfer/Runs.antt =====
-- mtsc/kv_transfer.py: runs of blocks that are adjacent at both ends, and the copies they become.
use mtsc.Common.{
  nat_eq, string_eq, ◌∷◌, ◌==◌, ◌+◌, ◌++◌, ◌*◌, ◌&&◌, ℕ, suc, map, length, if◌then◌else◌, [], List,
  Bool,
}
pub mod Bytes

-- A source and a destination block.
abbrev pub Pair : Type 0
Pair = ℕ × ℕ

-- One WRITE: from address, to address, number of bytes.
pub record Copy : Type 0 where
  pub src : ℕ
  pub dst : ℕ
  pub size : ℕ

-- A pair stands before the runs of the later ones; it joins the first of them if that follows it.
unfoldable pub join_run : Pair → List (List Pair) → List (List Pair)
join_run p [] = (p ∷ []) ∷ []
join_run p ([] ∷ runs) = (p ∷ []) ∷ runs
join_run p ((q ∷ run) ∷ runs) =
    if q.0 == suc p.0 && q.1 == suc p.1 then (p ∷ q ∷ run) ∷ runs else (p ∷ []) ∷ (q ∷ run) ∷ runs

-- The two index lists as one list of pairs. It breaks where either difference is not 1.
unfoldable pub group_concurrent_contiguous : List Pair → List (List Pair)
group_concurrent_contiguous [] = []
group_concurrent_contiguous (p ∷ pairs) = join_run p (group_concurrent_contiguous pairs)

-- What the copies of a pair of regions have in common.
pub record Layout : Type 0 where
  pub local_addr : ℕ
  pub local_len : ℕ
  pub remote_addr : ℕ
  pub remote_len : ℕ
  pub src_offset : ℕ
  pub dst_offset : ℕ
  pub transfer_len : ℕ

unfoldable pub block_copy : Layout → Pair → Copy
block_copy layout (source, destination) = record {
  src = layout.local_addr + source * layout.local_len + layout.src_offset;
  dst = layout.remote_addr + destination * layout.remote_len + layout.dst_offset;
  size = layout.transfer_len;
}

-- One copy for a whole run, or one for each block of it.
unfoldable pub run_copies : Bool → Layout → List Pair → List Copy
unfolding block_copy
run_copies coalesce layout [] = []
run_copies coalesce layout ((source, destination) ∷ run) =
    if coalesce
    then record {
      src = layout.local_addr + source * layout.local_len;
      dst = layout.remote_addr + destination * layout.remote_len;
      size = layout.transfer_len * length ((source, destination) ∷ run);
    }
      ∷ []
    else map (block_copy layout) ((source, destination) ∷ run)

unfoldable pub copies_of : Bool → Layout → List (List Pair) → List Copy
copies_of coalesce layout [] = []
copies_of coalesce layout (run ∷ runs) =
    run_copies coalesce layout run ++ copies_of coalesce layout runs
