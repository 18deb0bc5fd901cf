-- ===== src/Args/Handle.antt =====
-- csrc/runtime/inject_helpers/ArgsHandleContext.h and ArgsHandleContext.cpp: the arguments of a
-- kernel that are appended one by one, recorded so that they can be replayed on a new handle.
-- A handle or a pointer is a number, 0 for null. A user's pointer with a size is the bytes that it
-- points to; the runtime's calls are the fields of `ArgsRuntime`, over its state `S`, and give
-- an error code, 0 for success, before what they store.
pub mod Replay
pub mod Generated
pub mod Words
use msopcom.Prelude.{
  ℕ, zero, suc, ◌+◌, ◌-◌, ◌*◌, ◌/◌, Bool, true, false, Option, none, some, List, [], ◌∷◌, ◌++◌, map,
  ltb, nat_beq, if◌then◌else◌, length, take, drop, replicate,
}
use msopcom.Wire.{Bytes, from_bytes}
use msopcom.MetaData.{AddrInfo}

pub data ParamType : Type 0 where
  normal placeholder : ParamType

pub record ParamData : Type 0 where
  pub param_handle : ℕ
  pub param : Bytes
  pub param_type : ParamType
  pub src_buffer : ℕ

pub record ArgsHandleContext : Type 0 where
  pub params : List ParamData
  pub func_handle : ℕ
  pub args_handle : ℕ
  pub finalized : Bool

-- `CacheArgsAppendOp`; MAX_SINGLE_PARAM_SIZE is 4096.
unfoldable pub cache_args_append_op : Bytes → ℕ → ArgsHandleContext → ArgsHandleContext
cache_args_append_op bytes handle c = if ltb 4096 (length bytes) then c else record c {
  params =
      c.params
      ++ (record { param_handle = handle; param = bytes; param_type = normal; src_buffer = 0 }
          ∷ []);
}

-- `ExpandArgs`, whose result is always true.
pub expand_args : Bytes → ArgsHandleContext → ArgsHandleContext
expand_args bytes = cache_args_append_op bytes 0

-- `CacheArgsAppendPlaceholderOp`.
unfoldable pub cache_args_append_placeholder_op : ℕ → ArgsHandleContext → ArgsHandleContext
cache_args_append_placeholder_op handle c = record c {
  params =
      c.params
      ++ (record { param_handle = handle; param = []; param_type = placeholder; src_buffer = 0 }
          ∷ []);
}

-- The loops that change the first parameter of a handle and return.
unfoldable pub change_first : ℕ → (ParamData → ParamData) → List ParamData → List ParamData
change_first handle change [] = []
change_first handle change (p ∷ ps) =
    let rest = p ∷ change_first handle change ps in
    if nat_beq p.param_handle handle then change p ∷ ps else rest

-- `CacheArgsParaUpdateOp`.
unfoldable pub cache_args_para_update_op : ℕ → Bytes → ArgsHandleContext → ArgsHandleContext
cache_args_para_update_op handle bytes c = record c {
  params = change_first handle (λ p. record p { param = bytes }) c.params;
}

-- `std::vector::resize`.
unfoldable pub resize : ℕ → Bytes → Bytes
resize n b = take n b ++ replicate (n - length b) 0

-- `CacheArgsGetPlaceholderBufferOp`.
unfoldable pub cache_args_get_placeholder_buffer_op :
    ℕ → ℕ → ℕ → ArgsHandleContext → ArgsHandleContext
cache_args_get_placeholder_buffer_op handle size buffer c = record c {
  params =
      change_first handle (λ p. record p { src_buffer = buffer; param = resize size p.param })
        c.params;
}

-- One turn of the loop of `Finalize`; `memory` gives the bytes at an address.
unfoldable pub fetch : (ℕ → ℕ → Bytes) → ParamData → ParamData
fetch memory p = elim p.param_type [
  | normal ↦ p
  | placeholder ↦ record p { param = memory p.src_buffer (length p.param) }
]

-- `Finalize`.
unfoldable pub finalize : (ℕ → ℕ → Bytes) → ArgsHandleContext → ArgsHandleContext
finalize memory c = record c { params = map (fetch memory) c.params; finalized = true }

-- The search of `GetTilingData`.
first_placeholder : List ParamData → Option Bytes
first_placeholder [] = none
first_placeholder (p ∷ ps) = elim p.param_type [
  | placeholder ↦ some p.param
  | normal ↦ first_placeholder ps
]

-- `GetTilingData`; `none` is the result `false`.
pub get_tiling_data : ArgsHandleContext → Option Bytes
get_tiling_data c = if c.finalized then first_placeholder c.params else none

-- `CalcUserArgsSize`.
pub total_length : List ParamData → ℕ
total_length [] = 0
total_length (p ∷ ps) = length p.param + total_length ps

pub calc_user_args_size : ArgsHandleContext → ℕ
calc_user_args_size c = total_length c.params

-- The inner loop of `GetFlattenedParams`: `n` words of 8 bytes.
pub words : ℕ → Bytes → List Bytes
words zero b = []
words (suc n) b = take 8 b ∷ words n (drop 8 b)

-- `GetFlattenedParams`, of which only the bytes are read afterwards.
pub get_flattened_params : List ParamData → List Bytes
get_flattened_params [] = []
get_flattened_params (p ∷ ps) = elim p.param_type [
  | normal ↦ words (length p.param / 8) p.param ++ get_flattened_params ps
  | placeholder ↦ p.param ∷ get_flattened_params ps
]

-- The loop of `UpdateNormalTaskArgsAddr`, which stops at the first parameter that is no pointer.
pub assign_addrs : List Bytes → List AddrInfo → Bool × List AddrInfo
assign_addrs [] [] = (true, [])
assign_addrs (p ∷ ps) [] = (true, [])
assign_addrs [] (a ∷ more) = (false, a ∷ more)
assign_addrs (p ∷ ps) (a ∷ more) =
    let rest = assign_addrs ps more in
    if nat_beq (length p) 8
    then (rest.0, record a { addr = from_bytes p } ∷ rest.1)
    else (false, a ∷ more)

-- `UpdateNormalTaskArgsAddr`.
pub update_normal_task_args_addr : ArgsHandleContext → List AddrInfo → Bool × List AddrInfo
update_normal_task_args_addr c infos =
    let flat = get_flattened_params c.params in
    if ltb (length flat) (length infos) then (false, infos) else assign_addrs flat infos

-- The runtime's calls on a handle of arguments.
pub record ArgsRuntime (S : Type 0) : Type 0 where
  -- aclrtKernelArgsInit: the code and the new handle.
  pub args_init : S → ℕ → ℕ × ℕ × S
  -- aclrtKernelArgsAppend and aclrtKernelArgsAppendPlaceHolder: the code and the parameter's handle.
  pub args_append : S → ℕ → Bytes → ℕ × ℕ × S
  pub args_append_place_holder : S → ℕ → ℕ × ℕ × S
  -- aclrtKernelArgsGetPlaceHolderBuffer: the code and the buffer.
  pub args_get_place_holder_buffer : S → ℕ → ℕ → ℕ → ℕ × ℕ × S
  -- The bytes stored through a buffer.
  pub write_buffer : S → ℕ → Bytes → S
  -- aclrtKernelArgsFinalize.
  pub args_finalize : S → ℕ → ℕ × S

module _ {S : Type 0} (rt : ArgsRuntime S) where
  -- One append of `ReplayArgs`.
  pub replay_append : ℕ → ParamData → S → ℕ × ℕ × S
  replay_append args p s = elim p.param_type [
    | normal ↦ rt.args_append s args p.param
    | placeholder ↦ rt.args_append_place_holder s args
  ]

  -- The first loop of `ReplayArgs`: the parameters' handles, or `none` after a refused call.
  pub replay_appends : ℕ → List ParamData → S → Option (List ℕ) × S
  replay_appends args [] s = (some [], s)
  replay_appends args (p ∷ ps) s =
      let r = replay_append args p s in
      let rest = replay_appends args ps r.2 in
      if nat_beq r.0 0
      then (elim rest.0 [ none ↦ none | some handles ↦ some (r.1 ∷ handles) ], rest.1)
      else (none, r.2)

  -- The second loop of `ReplayArgs`.
  pub replay_buffers : ℕ → List ParamData → List ℕ → S → Bool × S
  replay_buffers args [] handles s = (true, s)
  replay_buffers args (p ∷ ps) [] s = (true, s)
  replay_buffers args (p ∷ ps) (h ∷ hs) s =
      let r = rt.args_get_place_holder_buffer s args h (length p.param) in
      let skipped = replay_buffers args ps hs s in
      let filled = replay_buffers args ps hs (rt.write_buffer r.2 r.1 p.param) in
      elim p.param_type [
        | normal ↦ skipped
        | placeholder ↦ if nat_beq r.0 0 then filled else (false, r.2)
      ]

  -- `ReplayArgs`.
  pub replay_args : ℕ → List ParamData → S → Bool × S
  replay_args args ps s =
      let appended = replay_appends args ps s in
      elim appended.0 [
        | none ↦ (false, appended.1)
        | some handles ↦ replay_buffers args ps handles appended.1
      ]

  -- `GenerateArgsHandle`.
  pub generate_args_handle : ArgsHandleContext → S → ℕ × S
  generate_args_handle c s =
      let made = rt.args_init s c.func_handle in
      let replayed = replay_args made.1 c.params made.2 in
      let ended = rt.args_finalize replayed.1 made.1 in
      if ltb 0 made.0
      then (0, made.2)
      else if replayed.0
      then if ltb 0 ended.0 then (0, ended.1) else (made.1, ended.1)
      else (0, replayed.1)
