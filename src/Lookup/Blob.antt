-- ===== src/Lookup/Blob.antt =====
-- `_CompatBlobBlockHashes`: a sequence of hashes of one width, read from the bytes that hold them
-- one after the other.
use native.Mathlib.Nat.{mul-div_cancel}
use mtsc.Protocol.{BlockHash}
use mtsc.Common.{
  ◌≤◌, ◌-◌, index_error, int_eq, nat_eq, string_eq, ◌≡◌, ◌∷◌, ◌==◌, ◌<◌, ◌/◌, ◌+◌, ◌++◌, ◌*◌, ℤ, ℕ,
  zero, take, suc, subst, sub_ℕ, slice, refl, raise, pos, ok, negsuc, ltb, length-append, length,
  if◌then◌else◌, drop, arith, ap, [], Result, List, All,
}

-- b"".join(hashes)
unfoldable pub join : List BlockHash → List ℕ
join [] = []
join (h ∷ hs) = h ++ join hs

-- len(blob) // hash_len if hash_len else 0
unfoldable pub blob_length : List ℕ → ℕ → ℕ
blob_length blob width = if width == 0 then 0 else length blob / width

-- The hash at an offset that is in range.
abbrev blob_item : List ℕ → ℕ → ℕ → BlockHash
blob_item blob width index = slice (index * width) (index * width + width) blob

-- index + len(blob), for an index below 0
abbrev from_end : ℕ → ℤ → ℤ
from_end size (pos i) = pos i
from_end size (negsuc i) = sub_ℕ size (suc i)

abbrev blob_at : List ℕ → ℕ → ℤ → Result BlockHash
blob_at blob width (pos i) =
    if ltb i (blob_length blob width) then ok (blob_item blob width i) else raise (index_error "")
blob_at blob width (negsuc i) = raise (index_error "")

-- `__getitem__` of an index
unfoldable pub blob_get : List ℕ → ℕ → ℤ → Result BlockHash
blob_get blob width index = blob_at blob width (from_end (blob_length blob width) index)

abbrev blob_items : List ℕ → ℕ → ℕ → ℕ → List BlockHash
blob_items blob width start zero = []
blob_items blob width start (suc n) =
    blob_item blob width start ∷ blob_items blob width (suc start) n

-- What a loop over the sequence sees: the items from index 0 on.
unfoldable pub blob_hashes : List ℕ → ℕ → List BlockHash
blob_hashes blob width = blob_items blob width 0 (blob_length blob width)

abbrev pub OfWidth : ℕ → List BlockHash → Type 0
OfWidth width = All (λ (h : BlockHash). length h ≡ width)

length-join :
    (width : ℕ) (hs : List BlockHash) → OfWidth width hs → length (join hs) ≡ length hs * width
unfolding join
length-join width [] w = omega arith
length-join width (h ∷ hs) w =
    omega (arith, length-append h (join hs), length-join width hs w.1, w.0)

pub blob_length-join :
    (width : ℕ) (hs : List BlockHash)
    → 0 < width
    → OfWidth width hs
    → blob_length (join hs) width ≡ length hs
unfolding blob_length
blob_length-join width hs positive w =
    grind (arith, length-join width hs w, mul-div_cancel (length hs) positive)

take-append : (xs ys : List ℕ) → take (length xs) (xs ++ ys) ≡ xs
take-append [] ys = refl
take-append (x ∷ xs) ys = ap (◌∷◌ x) (take-append xs ys)

drop-append : (n : ℕ) (xs ys : List ℕ) → length xs ≤ n → drop n (xs ++ ys) ≡ drop (n - length xs) ys
drop-append n [] ys h = ground arith
drop-append zero (x ∷ xs) ys h = ground (arith, h)
drop-append (suc n) (x ∷ xs) ys h = ground (arith, drop-append n xs ys (omega (arith, h)))

first-item :
    (width : ℕ) (h : BlockHash) (rest : List ℕ)
    → length h ≡ width
    → blob_item (h ++ rest) width 0 ≡ h
first-item width h rest w =
    subst (λ (n : ℕ). blob_item (h ++ rest) n 0 ≡ h) w (ground (arith, take-append h rest))

later-item :
    (width index : ℕ) (h : BlockHash) (rest : List ℕ)
    → length h ≡ width
    → blob_item (h ++ rest) width (suc index) ≡ blob_item rest width index
later-item width index h rest w =
    subst (λ (n : ℕ). blob_item (h ++ rest) n (suc index) ≡ blob_item rest n index) w
      (ground (arith, drop-append (suc index * length h) h rest (grind arith)))

later-items :
    (width start n : ℕ) (h : BlockHash) (rest : List ℕ)
    → length h ≡ width
    → blob_items (h ++ rest) width (suc start) n ≡ blob_items rest width start n
later-items width start zero h rest w = refl
later-items width start (suc n) h rest w =
    cc (later-item width start h rest w, later-items width (suc start) n h rest w)

items-join :
    (width : ℕ) (hs : List BlockHash)
    → OfWidth width hs
    → blob_items (join hs) width 0 (length hs) ≡ hs
unfolding join
items-join width [] w = refl
items-join width (h ∷ hs) w = cc (
  first-item width h (join hs) w.0,
  later-items width 0 (length hs) h (join hs) w.0,
  items-join width hs w.1,
)

-- Hashes of one width are read back from their concatenation.
pub blob_hashes-join :
    (width : ℕ) (hs : List BlockHash)
    → 0 < width
    → OfWidth width hs
    → blob_hashes (join hs) width ≡ hs
unfolding blob_hashes
blob_hashes-join width hs positive w =
    let t = items-join width hs w in rw (blob_length-join width hs positive w) t
