-- ===== src/Wire.antt =====
-- csrc/utils/Serialize.h and csrc/utils/Numeric.h: values as bytes, and rounding to a multiple.
-- A byte string is a list of numbers below 256. An unsigned integer of `w` bytes is a number below
-- `256 ^ w`, stored with its low byte first, as on the little-endian hosts the program runs on.
pub mod Laws
use msopcom.Prelude.{
  ℕ, zero, suc, ◌+◌, ◌-◌, ◌*◌, ◌/◌, ◌%◌, List, [], ◌∷◌, ◌++◌, Option, none, some, ltb, length, take,
  if◌then◌else◌,
}

abbrev pub Bytes : Type 0
Bytes = List ℕ

-- `Serialize` of one unsigned integer of `w` bytes: its object representation.
pub serialize : ℕ → ℕ → Bytes
serialize zero n = []
serialize (suc w) n = n % 256 ∷ serialize w (n / 256)

-- The object whose representation the bytes are.
pub from_bytes : Bytes → ℕ
from_bytes [] = 0
from_bytes (b ∷ bs) = b + 256 * from_bytes bs

-- `Serialize` of several values, each of its own width.
pub serialize_all : List (ℕ × ℕ) → Bytes
serialize_all [] = []
serialize_all ((w, v) ∷ vs) = serialize w v ++ serialize_all vs

-- `Deserialize`: `none` is the result `false`, which leaves the value alone.
pub deserialize : ℕ → Bytes → Option ℕ
deserialize w msg = if ltb (length msg) w then none else some (from_bytes (take w msg))

-- `CeilByAlignSize<alignSize>` at an unsigned type of 64 bits, which wraps.
unfoldable pub ceil_by_align_size : ℕ → ℕ → ℕ
ceil_by_align_size align v =
    ((v + align + 18446744073709551615) % 18446744073709551616 / align * align)
    % 18446744073709551616

-- `AlignDownSize<alignSize>`.
pub align_down_size : ℕ → ℕ → ℕ
align_down_size align v = v - v % align
