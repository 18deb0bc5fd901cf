-- ===== src/MetaData.antt =====
-- csrc/runtime/inject_helpers/KernelMetaDataParser.h and KernelMetaDataParser.cpp: what the tool
-- reads from the metadata section of a kernel. The section is a list of bytes; `uint32_t` sums keep
-- their wrap-around, but for those within a subscript. A read behind the last byte, which C++ leaves undefined, is the outcome
-- `overread`. The loops take fuel; running out of it is the outcome `no_fuel`.
pub mod Turns
pub mod Args
pub mod Ending
pub mod Reads
mod Tests
use msopcom.Prelude.{
  ℕ, zero, suc, ◌+◌, ◌-◌, ◌*◌, ◌%◌, Bool, true, false, not, ◌&&◌, ◌||◌, List, [], ◌∷◌, ◌++◌, Option,
  none, some, nat_beq, nat_eq, ltb, if◌then◌else◌, lookup, insert, member, length, get_elem?,
  is_empty, is_some,
}
use msopcom.Wire.{Bytes}
use msopcom.Text.{find}

abbrev pub u32 : ℕ → ℕ
u32 n = n % 4294967296

-- `MemInfoDesc`, as far as the parser sets it.
pub data MemInfoDesc : Type 0 where
  input : MemInfoDesc
  hccl_mc2_context : MemInfoDesc

-- `AddrInfo`; the source of those made here is always `EXTRA`.
pub record AddrInfo : Type 0 where
  pub addr : ℕ
  pub byte_count : ℕ
  pub mem_info_desc : MemInfoDesc
  pub params_no : ℕ

-- `OpMemInfo`; `second_ptrs` has the dtype of each double pointer by the parameter's index.
pub record OpMemInfo : Type 0 where
  pub input_params_addr_infos : List AddrInfo
  pub second_ptrs : List (ℕ × ℕ)
  pub skip_num : ℕ
  pub tiling_data_size : ℕ
  pub tiling_params_no : ℕ
  pub is_tik : Bool
  pub has_mc2_ctx : Bool
  pub is_ffts : Bool

-- `OpMemInfo::Clear`.
abbrev pub cleared : OpMemInfo
cleared = record {
  input_params_addr_infos = [];
  second_ptrs = [];
  skip_num = 0;
  tiling_data_size = 0;
  tiling_params_no = 0;
  is_tik = false;
  has_mc2_ctx = false;
  is_ffts = false;
}

-- Two bytes, the low one first, and two bytes or more, the high one first.
pub little : Bytes → ℕ → Option ℕ
little m i = elim (get_elem? m i) [
  | none ↦ none
  | some a ↦ elim (get_elem? m (suc i)) [ none ↦ none | some b ↦ some (a + b * 256) ]
]

pub big : Bytes → ℕ → ℕ → ℕ → Option ℕ
big m i zero acc = some acc
big m i (suc k) acc = elim (get_elem? m i) [
  | none ↦ none
  | some a ↦ big m (suc i) k (acc * 256 + a)
]

-- `DfxTensorType`s with a handler, as the constructor registers them.
pub data Handler : Type 0 where
  meta_input : Handler
  meta_ffts : Handler
  meta_tiling : Handler
  meta_mc2_ctx : Handler

pub dfx_parser : ℕ → Option Handler
dfx_parser type =
    if nat_beq type 1 || nat_beq type 2 || nat_beq type 3 || nat_beq type 4 || nat_beq type 12
    then some meta_input
    else if nat_beq type 6
    then some meta_mc2_ctx
    else if nat_beq type 7
    then some meta_tiling
    else if nat_beq type 11
    then some meta_ffts
    else none

-- `IsSupportDfxPointPtr`.
pub is_support_dfx_point_ptr : ℕ → Bool
is_support_dfx_point_ptr type = nat_beq type 1 || nat_beq type 3 || nat_beq type 4

abbrev pub ascend310p : Bytes
ascend310p = b'A' ∷ b's' ∷ b'c' ∷ b'e' ∷ b'n' ∷ b'd' ∷ b'3' ∷ b'1' ∷ b'0' ∷ b'P' ∷ []

abbrev pub ascend950 : Bytes
ascend950 = b'A' ∷ b's' ∷ b'c' ∷ b'e' ∷ b'n' ∷ b'd' ∷ b'9' ∷ b'5' ∷ b'0' ∷ []

-- `NeedAddFftsAddr` and `SetFftsInfo` with its default magic.
pub need_add_ffts_addr : Bytes → Bool
need_add_ffts_addr soc_version =
    not (is_some (find soc_version ascend310p) || is_some (find soc_version ascend950))

pub set_ffts_info : Bytes → OpMemInfo → OpMemInfo
unfolding need_add_ffts_addr
set_ffts_info soc_version info =
    if not (need_add_ffts_addr soc_version)
    then info
    else if not (nat_beq info.skip_num 0)
    then record info { skip_num = 1; is_ffts = true }
    else record info { is_ffts = false }

-- The four handlers, at the index behind the parameter's header; `none` is an overread. The size of
-- `HcclCombinOpParam`, a type of the communication library, is an argument.
pub run_handler : Bytes → ℕ → Bytes → Handler → ℕ → ℕ → OpMemInfo → Option OpMemInfo
unfolding big set_ffts_info
run_handler soc_version combin_size m meta_input index params_no info =
    if ltb (length m) (u32 (8 + index)) then some info else elim (big m index 8 0) [
      | none ↦ none
      | some n ↦ some (record info {
        input_params_addr_infos =
            info.input_params_addr_infos
            ++ record { addr = 0; byte_count = n; mem_info_desc = input; params_no = params_no }
              ∷ [];
      })
    ]
run_handler soc_version combin_size m meta_ffts index params_no info =
    some (set_ffts_info soc_version info)
run_handler soc_version combin_size m meta_tiling index params_no info =
    if ltb (length m) (u32 (8 + index)) then some info else elim (big m index 8 0) [
      | none ↦ none
      | some n ↦ some (record info { tiling_data_size = n; tiling_params_no = params_no })
    ]
run_handler soc_version combin_size m meta_mc2_ctx index params_no info = some (record info {
  input_params_addr_infos =
      info.input_params_addr_infos
      ++ record {
        addr = 0;
        byte_count = combin_size;
        mem_info_desc = hccl_mc2_context;
        params_no = 0;
      }
        ∷ [];
  has_mc2_ctx = true;
})

-- One turn of the loop of `ParseKernelArgs`: the loop ends (by its test, `break` or `return`), goes
-- on, or reads behind the section.
pub data Turn : Type 0 where
  stop : ℕ → OpMemInfo → Turn
  again : ℕ → ℕ → OpMemInfo → Turn
  turn_overread : Turn

-- The second half of a turn: a double pointer's dtype is noted, unless one is, and the handler runs.
pub handle_param : Bytes → ℕ → Bytes → Handler → ℕ → ℕ → ℕ → ℕ → OpMemInfo → Turn
unfolding run_handler big
handle_param soc_version combin_size m h point_type count index params info =
    let noted : Option OpMemInfo =
      if nat_beq point_type 3
      then (elim (big m (index + 16) 8 0) [
        | none ↦ none
        | some n ↦ some (record info {
          second_ptrs =
              if member params info.second_ptrs
              then info.second_ptrs
              else insert params n info.second_ptrs;
        })
      ])
      else some info in
    elim noted [
      | none ↦ turn_overread
      | some i ↦ elim (run_handler soc_version combin_size m h (u32 (index + 8)) (suc params) i) [
        | none ↦ turn_overread
        | some j ↦ again (u32 (u32 (index + 8) + (count - 1) * 8)) (suc params) j
      ]
    ]

-- The first half, behind the count: the kind of pointer, the type's handler, and the type.
pub check_point : Bytes → ℕ → Bytes → Handler → ℕ → ℕ → ℕ → ℕ → OpMemInfo → Turn
unfolding handle_param is_support_dfx_point_ptr
check_point soc_version combin_size m h point_type count index params info =
    if not (is_support_dfx_point_ptr point_type)
    then stop index cleared
    else handle_param soc_version combin_size m h point_type count index params info

pub find_handler : Bytes → ℕ → Bytes → ℕ → ℕ → ℕ → ℕ → OpMemInfo → ℕ → Turn
unfolding check_point dfx_parser
find_handler soc_version combin_size m type count index params info point_type =
    elim (dfx_parser type) [
      | none ↦ stop (u32 (index + count * 8)) info
      | some h ↦ check_point soc_version combin_size m h point_type count index params info
    ]

pub read_point : Bytes → ℕ → Bytes → ℕ → ℕ → ℕ → OpMemInfo → ℕ → Turn
unfolding find_handler
read_point soc_version combin_size m count index params info type = elim (big m (index + 4) 2 0) [
  | none ↦ turn_overread
  | some point_type ↦ find_handler soc_version combin_size m type count index params info point_type
]

pub read_param : Bytes → ℕ → Bytes → ℕ → ℕ → ℕ → OpMemInfo → Turn
unfolding read_point
read_param soc_version combin_size m count index params info = elim (big m (index + 6) 2 0) [
  | none ↦ turn_overread
  | some type ↦ read_point soc_version combin_size m count index params info type
]

pub counted : Bytes → ℕ → Bytes → ℕ → ℕ → OpMemInfo → ℕ → Turn
unfolding read_param
counted soc_version combin_size m index params info count =
    if nat_beq count 0
    then again (u32 (index + 4)) params info
    else read_param soc_version combin_size m count (u32 (index + 4)) params info

pub args_turn : Bytes → ℕ → Bytes → ℕ → ℕ → ℕ → OpMemInfo → Turn
unfolding counted big
args_turn soc_version combin_size m range index params info =
    if not (ltb index range && ltb (u32 (index + 7)) (length m))
    then stop index info
    else elim (big m (index + 2) 2 0) [
      | none ↦ turn_overread
      | some count ↦ counted soc_version combin_size m index params info count
    ]

pub data Outcome (A : Type 0) : Type 0 where
  done : A → Outcome A
  overread : Outcome A
  no_fuel : Outcome A

pub args_loop : ℕ → Bytes → ℕ → Bytes → ℕ → ℕ → ℕ → OpMemInfo → Outcome (ℕ × OpMemInfo)
args_loop zero soc_version combin_size m range index params info = no_fuel
args_loop (suc fuel) soc_version combin_size m range index params info =
    elim (args_turn soc_version combin_size m range index params info) [
      | stop i out ↦ done (i, out)
      | again i p out ↦ args_loop fuel soc_version combin_size m range i p out
      | turn_overread ↦ overread
    ]

-- `ParseKernelArgs`.
pub parse_kernel_args : Bytes → ℕ → Bytes → ℕ → OpMemInfo → Outcome (ℕ × OpMemInfo)
unfolding args_loop little
parse_kernel_args soc_version combin_size m index info = elim (little m index) [
  | none ↦ overread
  | some dfx_len ↦
      args_loop (suc (length m)) soc_version combin_size m (u32 (dfx_len + u32 (index + 2)))
        (u32 (index + 2)) 0 info
]

-- One turn of the loop of `Parse`, at an index within the section's last byte.
pub data Record : Type 0 where
  parsed : Bool → OpMemInfo → Record
  next_record : ℕ → OpMemInfo → Record
  record_overread : Record
  record_no_fuel : Record

-- After the arguments of a kernel: they must have given an address.
pub after_args : Outcome (ℕ × OpMemInfo) → Record
after_args (done r) =
    if is_empty r.1.input_params_addr_infos then parsed false r.1 else next_record r.0 r.1
after_args overread = record_overread
after_args no_fuel = record_no_fuel

-- A record of another type is passed over.
pub skip_record : Bytes → ℕ → ℕ → OpMemInfo → Record
unfolding little
skip_record m type i info = elim (little m i) [
  | none ↦ record_overread
  | some len ↦
      next_record (u32 (i + (2 + len)))
        (if nat_beq type 6 then record info { is_tik = true } else info)
]

pub parse_type : Bytes → ℕ → Bytes → ℕ → OpMemInfo → ℕ → Record
unfolding parse_kernel_args after_args skip_record
parse_type soc_version combin_size m i info type =
    if ltb (length m) (u32 (i + 2))
    then parsed false info
    else if nat_beq type 4
    then after_args (parse_kernel_args soc_version combin_size m i info)
    else skip_record m type i info

pub parse_record : Bytes → ℕ → Bytes → ℕ → OpMemInfo → Record
unfolding parse_type little
parse_record soc_version combin_size m index info =
    if not (ltb index (length m - 1)) then parsed true info else elim (little m index) [
      | none ↦ record_overread
      | some type ↦ parse_type soc_version combin_size m (u32 (index + 2)) info type
    ]

pub parse_loop : ℕ → Bytes → ℕ → Bytes → ℕ → OpMemInfo → Outcome (Bool × OpMemInfo)
parse_loop zero soc_version combin_size m index info = no_fuel
parse_loop (suc fuel) soc_version combin_size m index info =
    elim (parse_record soc_version combin_size m index info) [
      | parsed result out ↦ done (result, out)
      | next_record i out ↦ parse_loop fuel soc_version combin_size m i out
      | record_overread ↦ overread
      | record_no_fuel ↦ no_fuel
    ]

-- `Parse`, with the metadata that `GetOpMemInfo` then returns.
pub parse : Bytes → ℕ → Bytes → Outcome (Bool × OpMemInfo)
unfolding parse_loop
parse soc_version combin_size m =
    if nat_beq (length m) 0
    then done (false, cleared)
    else parse_loop (length m) soc_version combin_size m 0 cleared
