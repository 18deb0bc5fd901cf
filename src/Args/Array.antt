-- ===== src/Args/Array.antt =====
-- csrc/runtime/inject_helpers/ArgsArrayContext.h and ArgsArrayContext.cpp: arguments given as an array
-- of pointers, packed into one buffer by the offsets and sizes of the kernel's parameters.
-- A pointer into the object's own buffer is its offset there, `none` for null. What a pointer of the
-- array points to is a list of bytes; an array that is shorter than the parameters reads as null.
-- Sums of `size_t` wrap at 2 ^ 64. A vector holds at most 2 ^ 63 - 1 bytes, for more the source throws;
-- that, and what a write behind the end of the buffer does, is not modelled.
pub mod Packing
pub mod Expansion
pub mod Stub
mod Tests
use msopcom.Prelude.{
  ℕ, zero, suc, ◌+◌, ◌-◌, ◌*◌, ◌/◌, ◌%◌, max, Bool, true, false, not, ◌&&◌, ◌||◌, Option, none,
  some, List, [], ◌∷◌, ◌++◌, map, nat_beq, ltb, if◌then◌else◌, length, take, drop, replicate,
  is_empty, get_elem?, value_or,
}
use msopcom.Wire.{Bytes, from_bytes}
use msopcom.MetaData.{AddrInfo}

pub record ArgsArrayContext : Type 0 where
  pub param_offsets : List ℕ
  pub param_sizes : List ℕ
  pub param_count : ℕ
  pub is_static_stub : Bool
  pub packed_args : Bytes
  pub mem_info_offset : ℕ
  pub args_array : List (Option ℕ)

-- A sum of `size_t`, and `totalSize` of `Init`.
abbrev pub sum_of : ℕ → ℕ → ℕ
sum_of a b = (a + b) % 18446744073709551616

pub total_size_of : List ℕ → List ℕ → ℕ
total_size_of [] sizes = 0
total_size_of (o ∷ os) [] = 0
total_size_of (o ∷ os) (n ∷ ns) = max (sum_of o n) (total_size_of os ns)

-- `std::copy_n` of a parameter's bytes to an offset of the buffer.
pub write_at : ℕ → Bytes → Bytes → Bytes
write_at offset p b = take offset b ++ (p ++ drop (offset + length p) b)

-- The loop of `Init` over `n` pointers: the buffer, or `none` at a null pointer.
pub pack : ℕ → List ℕ → List ℕ → List (Option Bytes) → Bytes → Option Bytes
pack zero os ns args b = some b
pack (suc n) [] ns args b = some b
pack (suc n) (o ∷ os) [] args b = some b
pack (suc n) (o ∷ os) (s ∷ ns) [] b = none
pack (suc n) (o ∷ os) (s ∷ ns) (none ∷ args) b = none
pack (suc n) (o ∷ os) (s ∷ ns) (some p ∷ args) b = pack n os ns args (write_at o (take s p) b)

-- `RebuildArgsArray`.
pub rebuild_args_array : ArgsArrayContext → ArgsArrayContext
rebuild_args_array c = record c {
  args_array =
      if is_empty c.packed_args
      then []
      else if c.is_static_stub
      then map some c.param_offsets
      else map some c.param_offsets
        ++ ((if ltb 0 c.mem_info_offset then some c.mem_info_offset else none) ∷ []);
}

-- `Create`, with `Init`; `args` is `none` for a null array.
pub create : Option (List (Option Bytes)) → ℕ → List ℕ → List ℕ → Bool → Option ArgsArrayContext
create none count os ns static = none
create (some args) count os ns static =
    let packed =
      pack (if static then count - 1 else count) os ns args (replicate (total_size_of os ns) 0) in
    if nat_beq count 0 || not (nat_beq (length os) count) || not (nat_beq (length ns) count)
    then none
    else elim packed [
      | none ↦ none
      | some b ↦ some (
          rebuild_args_array (record {
            param_offsets = os;
            param_sizes = ns;
            param_count = count;
            is_static_stub = static;
            packed_args = b;
            mem_info_offset = 0;
            args_array = [];
          }))
    ]

pub aligned_size : ℕ → ℕ
aligned_size n = sum_of n 7 / 8 * 8

-- `SetLastParam`: the result, the context and the offset that is stored.
pub set_last_param : Bytes → ArgsArrayContext → Bool × ArgsArrayContext × Option ℕ
set_last_param param c =
    let last = value_or 0 (get_elem? c.param_offsets (c.param_count - 1)) in
    if ltb (length c.packed_args) (sum_of last (length param)) then (false, c, none) else (
      true,
      rebuild_args_array
          (record c { packed_args = write_at last param c.packed_args; mem_info_offset = last }),
      some (last % 4294967296),
    )

-- `ExpandArgs`; the parameter is `none` for a null pointer.
unfoldable pub expand_args : Option Bytes → ArgsArrayContext → Bool × ArgsArrayContext × Option ℕ
expand_args none c = (false, c, none)
expand_args (some param) c =
    let size = aligned_size (length c.packed_args) in
    let grown = c.packed_args ++ replicate (sum_of size (length param) - length c.packed_args) 0 in
    if is_empty c.packed_args || is_empty param
    then (false, c, none)
    else if c.is_static_stub
    then set_last_param param c
    else (
      true,
      rebuild_args_array
          (record c { packed_args = write_at size param grown; mem_info_offset = size }),
      some (size % 4294967296),
    )

-- `GetLastParamOffset`.
pub get_last_param_offset : ArgsArrayContext → ℕ
get_last_param_offset c = aligned_size (length c.packed_args) % 4294967296

-- `GetParamOffsetByParamsNo`; `none` is the result `false`.
pub get_param_offset_by_params_no : ℕ → ArgsArrayContext → Option ℕ
get_param_offset_by_params_no params_no c =
    if nat_beq params_no 0 || ltb c.param_count params_no
    then none
    else get_elem? c.param_offsets (params_no - 1)

-- The loop of `Save`, from the `i`-th address on; it stops at the first one out of range.
pub save_loop : ArgsArrayContext → ℕ → List AddrInfo → Bool × List AddrInfo
save_loop c index [] = (true, [])
save_loop c index (a ∷ infos) =
    let offset = value_or 0 (get_elem? c.param_offsets index) in
    let rest = save_loop c (suc index) infos in
    if not (ltb index c.param_count)
    then (false, a ∷ infos)
    else if ltb (length c.packed_args) (sum_of offset 8)
    then (false, a ∷ infos)
    else (rest.0, record a { addr = from_bytes (take 8 (drop offset c.packed_args)) } ∷ rest.1)

-- `Clone`: a pointer into the buffer is an offset, so the copy's pointers are into the copy's buffer.
pub clone : ArgsArrayContext → ArgsArrayContext
clone = rebuild_args_array
