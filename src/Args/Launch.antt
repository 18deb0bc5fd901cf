-- ===== src/Args/Launch.antt =====
-- csrc/runtime/inject_helpers/LaunchArgs.cpp: the older form of a launch's arguments, and the
-- insertion of the pointer to the tool's memory behind their head.
-- `args` is the block that the arguments' pointer leads to, `none` for null; a host input is an offset
-- of a pointer with that of its data. Offsets are numbers below 2 ^ 32, and their sums wrap. The lock
-- makes each call one step.
pub mod Expanded
pub mod Calls
mod Tests
use msopcom.Prelude.{
  ℕ, ◌+◌, ◌-◌, ◌*◌, ◌/◌, ◌%◌, Bool, true, false, Option, none, some, List, [], ◌∷◌, ◌++◌, map,
  nat_beq, ltb, if◌then◌else◌, length, take, drop, replicate,
}
use msopcom.Wire.{Bytes, serialize}
use msopcom.Args.Raw.{PlaceHolder}

pub record LaunchArgs : Type 0 where
  pub args : Option Bytes
  pub host_input_info : Option (List PlaceHolder)
  pub args_size : ℕ
  pub tiling_addr_offset : ℕ
  pub tiling_data_offset : ℕ
  pub host_input_info_num : ℕ
  pub has_tiling : Bool
  pub is_no_need_h2d_copy : Bool

pub get_align_size : ℕ → ℕ
get_align_size s = (s + 7) % 4294967296 / 8 * 8

-- The data offset of the first host input.
abbrev pub first_data_offset : List PlaceHolder → ℕ
first_data_offset [] = 0
first_data_offset (p ∷ ps) = p.data_offset

-- The head behind which the pointer goes when there is a tiling; `overflow` is `NeedOverflowStatus`.
pub tiling_head : Bool → LaunchArgs → ℕ
tiling_head overflow a = (a.tiling_addr_offset + 8 + (if overflow then 8 else 0)) % 4294967296

-- `GetKernelParamNum`; `none` is a null pointer to the arguments.
pub get_kernel_param_num : Option LaunchArgs → ℕ
get_kernel_param_num none = 0
get_kernel_param_num (some a) =
    if a.has_tiling then (a.tiling_addr_offset / 8 + 1) % 4294967296 else elim a.host_input_info [
      | none ↦ get_align_size a.args_size / 8
      | some l ↦ first_data_offset l / 8
    ]

-- `GetArgsSize`.
pub get_args_size : Bool → LaunchArgs → ℕ
get_args_size overflow a =
    if a.has_tiling then get_align_size (tiling_head overflow a) else elim a.host_input_info [
      | none ↦ get_align_size a.args_size
      | some l ↦ get_align_size (first_data_offset l)
    ]

-- `FillArgsWithMemInfo`: the bytes with the offset of the pointer, or `none` for the result `false`.
pub fill_args_with_mem_info : Bytes → Bytes → ℕ → Option (Bytes × ℕ)
fill_args_with_mem_info args mem head =
    let aligned = get_align_size head in
    if ltb (length args) head
    then none
    else some (take head args ++ (replicate (aligned - head) 0 ++ (mem ++ drop head args)), aligned)

-- The bytes that `ExpandArgs` makes, with the offset of the pointer.
pub expanded_bytes : Bool → LaunchArgs → Bytes → Bytes → Option (Bytes × ℕ)
expanded_bytes overflow a args mem =
    if a.has_tiling
    then fill_args_with_mem_info args mem (tiling_head overflow a)
    else elim a.host_input_info [
      | none ↦
          let aligned = get_align_size a.args_size in
          some (args ++ (replicate (aligned - a.args_size) 0 ++ mem), aligned)
      | some l ↦ fill_args_with_mem_info args mem (first_data_offset l)
    ]

pub shift_data : PlaceHolder → PlaceHolder
shift_data p = record p { data_offset = (p.data_offset + 8) % 4294967296 }

-- The host inputs after the call: shifted, or as many empty ones as there are said to be.
pub shifted_inputs : LaunchArgs → List PlaceHolder
shifted_inputs a = elim a.host_input_info [
  | none ↦ replicate a.host_input_info_num (record { addr_offset = 0; data_offset = 0 })
  | some l ↦ map shift_data (take a.host_input_info_num l)
]

-- `ExpandArgs`: the result, the arguments and the offset when one is stored.
unfoldable pub expand_args : Bool → ℕ → LaunchArgs → Bool × LaunchArgs × Option ℕ
expand_args overflow mem_info a = elim a.args [
  | none ↦ (false, a, none)
  | some args ↦
      let made = expanded_bytes overflow a args (serialize 8 mem_info) in
      if nat_beq mem_info 0
      then (false, a, none)
      else if a.is_no_need_h2d_copy
      then (false, a, none)
      else if ltb 1073741824 a.args_size
      then (false, a, none)
      else elim made [
        | none ↦ (false, a, none)
        | some (bytes, offset) ↦ (
          true,
          record a {
            args = some bytes;
            args_size = length bytes % 4294967296;
            host_input_info = some (shifted_inputs a);
            tiling_data_offset =
                if a.has_tiling
                then (a.tiling_data_offset + 8) % 4294967296
                else a.tiling_data_offset;
          },
          some offset,
        )
      ]
]

-- The other `ExpandArgs`, of a block and its size, into a vector that held `old`: `resize` keeps what
-- the vector held.
pub expand_block : ℕ → Bytes → Bytes → Option (Bytes × ℕ)
expand_block mem_info old args =
    let aligned = get_align_size (length args) in
    let held = take (aligned + 8) old ++ replicate (aligned + 8 - length old) 0 in
    if nat_beq mem_info 0
    then none
    else if ltb 1073741824 (length args)
    then none
    else some (
      args ++ (take (aligned - length args) (drop (length args) held) ++ serialize 8 mem_info),
      aligned + 8,
    )
