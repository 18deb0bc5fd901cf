-- ===== src/Wire/Laws.antt =====
-- Round trips and bounds of csrc/utils/Serialize.h and csrc/utils/Numeric.h.
use native.Mathlib.Nat.{pow-suc}
use msopcom.Prelude.{
  ℕ, zero, suc, ◌+◌, ◌*◌, ◌/◌, ◌%◌, ◌^◌, ◌≤◌, ◌<◌, ◌≡◌, refl, ap, ◌∙◌, sym, List, ◌∷◌, ◌++◌, some,
  arith, length, length-append, take, drop, take-append, drop-append,
}
use msopcom.Wire.{
  Bytes, serialize, from_bytes, serialize_all, deserialize, ceil_by_align_size, align_down_size,
}

pub length-serialize : (w n : ℕ) → length (serialize w n) ≡ w
unfolding serialize
length-serialize zero n = refl
length-serialize (suc w) n = ap suc (length-serialize w (n / 256))

div_256-lt : (n m : ℕ) → n < m * 256 → n / 256 < m
div_256-lt n m h = omega arith

pub from_bytes-serialize : (w n : ℕ) → n < 256 ^ w → from_bytes (serialize w n) ≡ n
unfolding from_bytes serialize
from_bytes-serialize zero n h = omega arith
from_bytes-serialize (suc w) n h =
    omega (arith, from_bytes-serialize w (n / 256) (div_256-lt n (256 ^ w) (rw pow-suc at h)))

pub take-serialize : (w n : ℕ) (rest : Bytes) → take w (serialize w n ++ rest) ≡ serialize w n
take-serialize w n rest =
    ap (λ k. take k (serialize w n ++ rest)) (sym (length-serialize w n))
    ∙ take-append (serialize w n) rest

pub drop-serialize : (w n : ℕ) (rest : Bytes) → drop w (serialize w n ++ rest) ≡ rest
drop-serialize w n rest =
    ap (λ k. drop k (serialize w n ++ rest)) (sym (length-serialize w n))
    ∙ drop-append (serialize w n) rest

-- What `Serialize` writes at the head of a message, `Deserialize` of the same width reads back,
-- whatever follows.
pub deserialize-serialize :
    (w n : ℕ) (rest : Bytes) → n < 256 ^ w → deserialize w (serialize w n ++ rest) ≡ some n
unfolding deserialize
deserialize-serialize w n rest h = ground (
  arith,
  length-append (serialize w n) rest,
  length-serialize w n,
  take-serialize w n rest,
  from_bytes-serialize w n h,
)

pub length-serialize_all :
    (w v : ℕ) (vs : List (ℕ × ℕ))
    → length (serialize_all ((w, v) ∷ vs)) ≡ w + length (serialize_all vs)
unfolding serialize_all
length-serialize_all w v vs =
    omega (arith, length-append (serialize w v) (serialize_all vs), length-serialize w v)

-- Rounding up gives a multiple, no smaller than the value and less than one alignment above it,
-- provided the sum stays below 2 ^ 64.
pub ceil_by_align_size_bounds :
    (v : ℕ)
    → v + 32 ≤ 18446744073709551616
    → (v ≤ ceil_by_align_size 32 v)
      × (ceil_by_align_size 32 v < v + 32)
      × (ceil_by_align_size 32 v % 32 ≡ 0)
unfolding ceil_by_align_size
ceil_by_align_size_bounds v h = (omega arith, omega arith, omega arith)

pub align_down_size_bounds :
    (v : ℕ)
    → (align_down_size 32 v ≤ v) × (v < align_down_size 32 v + 32) × (align_down_size 32 v % 32 ≡ 0)
unfolding align_down_size
align_down_size_bounds v = (omega arith, omega arith, omega arith)
