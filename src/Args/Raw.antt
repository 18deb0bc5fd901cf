-- ===== src/Args/Raw.antt =====
-- csrc/runtime/inject_helpers/ArgsRawContext.h and ArgsRawContext.cpp: arguments that lie in one
-- block of memory, with placeholders that say at which offset a pointer stands (`addr_offset`) and at
-- which its data (`data_offset`), and the insertion of one more parameter.
-- A block is named by what `args_` points to: `copy_of o` and `expanded_of o` are the vectors
-- `argsCopy_` and `argsWithMemInfo_` of the object `o`, `address p` is a block outside of any object,
-- on the host or the device. The calls of the runtime are the fields of `RawRuntime` over a state `D`.
-- An offset is a number below 2 ^ 32, and its sums wrap.
pub mod Slices
pub mod Insertion
pub mod Cloning
use msopcom.Prelude.{
  ℕ, ◌+◌, ◌-◌, ◌*◌, ◌/◌, ◌%◌, max, Bool, true, false, ◌&&◌, ◌||◌, Option, none, some, List, [], ◌∷◌,
  ◌++◌, map, nat_beq, ltb, leb, if◌then◌else◌, length, take, drop, replicate, is_empty,
}
use msopcom.Wire.{Bytes, from_bytes, ceil_by_align_size}
use msopcom.MetaData.{AddrInfo}

pub record PlaceHolder : Type 0 where
  pub addr_offset : ℕ
  pub data_offset : ℕ

pub data Pointer : Type 0 where
  null : Pointer
  address : ℕ → Pointer
  copy_of : ℕ → Pointer
  expanded_of : ℕ → Pointer

-- `self` tells the objects apart; it stands for the object's own address.
pub record ArgsRawContext : Type 0 where
  pub self : ℕ
  pub args : Pointer
  pub args_size : ℕ
  pub is_device_args : Bool
  pub need_free : Bool
  pub args_with_mem_info : Bytes
  pub args_copy : Bytes
  pub place_holder_array : List PlaceHolder

abbrev pub not_null : Pointer → Bool
not_null null = false
not_null (address p) = true
not_null (copy_of o) = true
not_null (expanded_of o) = true

pub record RawRuntime (D : Type 0) : Type 0 where
  -- The bytes at an address, from the device or the host; a copy's error code is not looked at.
  pub bytes_at : D → Bool → ℕ → ℕ → Bytes
  -- What is read through a pointer into a vector that has been given up.
  pub stale : D → ℕ → Bytes
  -- aclrtMalloc: the code and the address; aclrtFree; aclrtMemcpy to the device, with its code.
  pub malloc : D → ℕ → ℕ × ℕ × D
  pub free : D → Pointer → D
  pub copy_to : D → ℕ → Bytes → ℕ × D

-- The constructor without placeholders.
unfoldable pub raw_of_block : ℕ → Pointer → ℕ → Bool → ArgsRawContext
raw_of_block self args size is_device = record {
  self = self;
  args = args;
  args_size = size;
  is_device_args = is_device;
  need_free = false;
  args_with_mem_info = [];
  args_copy = [];
  place_holder_array = [];
}

-- What the caller passes for `args` and `argsSize`: null with a size, or an address, which is not 0,
-- with the bytes there.
pub data HostArgs : Type 0 where
  null_args : ℕ → HostArgs
  block_at : ℕ → Bytes → HostArgs

-- The constructor with placeholders: a block that is not empty is copied.
unfoldable pub raw_of_host_args : ℕ → HostArgs → List PlaceHolder → ArgsRawContext
raw_of_host_args self (null_args size) holders = record (raw_of_block self null size false) {
  place_holder_array = holders;
}
raw_of_host_args self (block_at p []) holders = record (raw_of_block self (address p) 0 false) {
  place_holder_array = holders;
}
raw_of_host_args self (block_at p (b ∷ bytes)) holders =
    record (raw_of_block self (copy_of self) (length (b ∷ bytes)) false) {
      args_copy = b ∷ bytes;
      place_holder_array = holders;
    }

-- The last placeholder: the one with the greatest address offset, from the loop of `GetTilingData`.
unfoldable pub last_from : PlaceHolder → List PlaceHolder → PlaceHolder
last_from best [] = best
last_from best (p ∷ ps) = last_from (if ltb best.addr_offset p.addr_offset then p else best) ps

unfoldable pub last_placeholder : List PlaceHolder → PlaceHolder
last_placeholder = last_from (record { addr_offset = 0; data_offset = 0 })

-- `lastAddrOffset` of `InsertParam`.
unfoldable pub last_addr_offset : ℕ → List PlaceHolder → ℕ
last_addr_offset m [] = m
last_addr_offset m (p ∷ ps) = last_addr_offset (max m p.addr_offset) ps

-- The offset behind the last placeholder's pointer, and behind the overflow status when it is needed.
unfoldable pub behind_last : Bool → List PlaceHolder → ℕ
behind_last overflow holders =
    (last_addr_offset 0 holders + 8 + (if overflow then 8 else 0)) % 4294967296

-- The shifts of the placeholders' data.
pub shift_behind : ℕ → ℕ → PlaceHolder → PlaceHolder
shift_behind offset size p =
    if leb offset p.data_offset
    then record p { data_offset = (p.data_offset + size) % 4294967296 }
    else p

pub shift_all : ℕ → PlaceHolder → PlaceHolder
shift_all size p = record p { data_offset = (p.data_offset + size) % 4294967296 }

-- `CeilByAlignSize<8>` at a `uint32_t`.
unfoldable pub aligned : ℕ → ℕ
aligned n = (n + 7) % 4294967296 / 8 * 8

pub insert_at : ℕ → Bytes → Bytes → Bytes
insert_at offset param b = take offset b ++ (param ++ drop offset b)

-- How `InsertParam` ends: its result with the context, the offset when one was stored, and the
-- memory, or an insertion behind the end of the vector.
pub data Inserted (D : Type 0) : Type 0 where
  inserted : Bool → ArgsRawContext → Option ℕ → D → Inserted D
  behind_end : Inserted D

-- Where the parameter goes, with the placeholders after it: at a given offset, or at its default.
pub data Place : Type 0 where
  refused : Place
  at : ℕ → List PlaceHolder → Place

pub place : Option ℕ → Bool → ℕ → ℕ → List PlaceHolder → Place
place (some offset) overflow room size holders =
    if ltb room offset then refused else at offset (map (shift_behind offset size) holders)
place none overflow room size [] = at room []
place none overflow room size (p ∷ ps) =
    at (behind_last overflow (p ∷ ps)) (map (shift_all size) (p ∷ ps))

module _ {D : Type 0} (rt : RawRuntime D) where
  -- The `args_size` bytes at a pointer, for a reader in the object `c` whose vector
  -- `argsWithMemInfo_` now holds `expanded`.
  pub read_at : ArgsRawContext → Bytes → D → Pointer → Bytes
  read_at c expanded d null = []
  read_at c expanded d (address p) = rt.bytes_at d c.is_device_args p c.args_size
  read_at c expanded d (copy_of o) =
      if nat_beq o c.self then take c.args_size c.args_copy else rt.stale d c.args_size
  read_at c expanded d (expanded_of o) =
      if nat_beq o c.self then take c.args_size expanded else rt.stale d c.args_size

  pub read_args : ArgsRawContext → Bytes → D → Bytes
  unfolding read_at
  read_args c expanded d = read_at c expanded d c.args

  -- `FreeArgs`.
  pub free_args : ArgsRawContext → D → ArgsRawContext × D
  free_args c d =
      if c.need_free && not_null c.args
      then (record c { args = null; need_free = false }, rt.free d c.args)
      else (c, d)

  -- `~ArgsRawContext`.
  pub destroy : ArgsRawContext → D → D
  unfolding free_args
  destroy c d = (free_args c d).1

  -- The end of `InsertParam` for arguments on the device.
  pub to_device : ArgsRawContext → ℕ → D → Inserted D
  to_device c offset d =
      let freed = free_args c d in
      let made = rt.malloc freed.1 c.args_size in
      let held = record freed.0 { args = address made.1 } in
      let copied = rt.copy_to made.2 made.1 c.args_with_mem_info in
      if ltb 0 made.0
      then inserted false held (some offset) made.2
      else inserted (nat_beq copied.0 0) (record held { need_free = true }) (some offset) copied.1

  -- `argsWithMemInfo_` once it is cleared, resized and copied to: a source that is the vector itself
  -- is zero by then, and is given up when the vector has to grow.
  pub collected : ArgsRawContext → D → Bytes
  collected c d =
      let room = aligned c.args_size in
      let cleared =
        if leb room (length c.args_with_mem_info) then replicate room 0 else rt.stale d room in
      let b = read_args c cleared d in b ++ replicate (room - length b) 0

  -- `InsertParam` from the insertion on.
  pub grow : ArgsRawContext → Bytes → Bytes → ℕ → List PlaceHolder → D → Inserted D
  grow c b param offset holders d =
      let bytes = insert_at offset param b in
      let grown = record c {
        args_with_mem_info = bytes;
        args_size = length bytes % 4294967296;
        place_holder_array = holders;
      } in
      if ltb (length b) offset
      then behind_end
      else if c.is_device_args
      then to_device grown offset d
      else inserted true (record grown { args = expanded_of c.self }) (some offset) d

  -- `InsertParam`; `fixed` is the offset of `ExpandArgsAt`, `overflow` is `NeedOverflowStatus`, and
  -- MAX_ALL_PARAM_SIZE is 1 GiB.
  pub insert_param : Option ℕ → Bool → Bytes → ArgsRawContext → D → Inserted D
  insert_param fixed overflow param c d =
      let b = collected c d in
      if ltb 1073741824 c.args_size
      then inserted false (record c { args_with_mem_info = [] }) none d
      else elim (place fixed overflow (length b) (length param) c.place_holder_array) [
        | refused ↦ inserted false (record c { args_with_mem_info = b }) none d
        | at offset holders ↦ grow c b param offset holders d
      ]

  pub expand_args : Bool → Bytes → ArgsRawContext → D → Inserted D
  expand_args = insert_param none

  pub expand_args_at : ℕ → Bool → Bytes → ArgsRawContext → D → Inserted D
  expand_args_at offset = insert_param (some offset)

-- `GetTilingData` for a buffer of `size` bytes, with the bytes that `args_` points to; `none` is the
-- result `false`.
pub get_tiling_data : ℕ → Bytes → List PlaceHolder → Option Bytes
get_tiling_data size b holders =
    if is_empty holders || nat_beq size 0
    then none
    else some (take size (drop (last_placeholder holders).data_offset b))

-- `GetLastParamOffset`.
pub get_last_param_offset : Bool → ArgsRawContext → ℕ
get_last_param_offset overflow c =
    if ltb 1073741824 c.args_size
    then 0
    else if is_empty c.place_holder_array
    then aligned c.args_size
    else behind_last overflow c.place_holder_array

-- The loop of `Save` that reads the pointers from the arguments.
unfoldable pub assign_pointers : Bytes → List AddrInfo → List AddrInfo
assign_pointers b [] = []
assign_pointers b (a ∷ more) =
    record a { addr = from_bytes (take 8 b) } ∷ assign_pointers (drop 8 b) more

unfoldable pub save_pointers : Bytes → ℕ → List AddrInfo → List AddrInfo
save_pointers b skip_num = assign_pointers (drop (8 * skip_num) b)

-- `Clone` into the object `self`.
pub retarget : ℕ → ℕ → Pointer → Pointer
retarget old new null = null
retarget old new (address p) = address p
retarget old new (copy_of o) = copy_of (if nat_beq o old then new else o)
retarget old new (expanded_of o) = expanded_of (if nat_beq o old then new else o)

pub clone : ℕ → ArgsRawContext → ArgsRawContext
clone new c = record c { self = new; args = retarget c.self new c.args }
