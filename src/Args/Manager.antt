-- ===== src/Args/Manager.antt =====
-- csrc/runtime/inject_helpers/ArgsManager.cpp: the argument contexts by address, the records of adump
-- by their atomic index, and the search for such an index in the tiling data of a kernel.
-- A context is of any type `C`, an address is a number with 0 for null; `none` is a null result or an
-- empty `AdumpInfo`. Each operation holds its lock from start to end, and is one step.
pub mod Scan
use msopcom.Prelude.{
  ℕ, zero, suc, ◌+◌, ◌-◌, ◌%◌, Bool, true, false, not, ◌&&◌, ◌||◌, Option, none, some, List, [],
  nat_beq, ltb, leb, if◌then◌else◌, length, take, drop, get_or, is_empty, insert, lookup, nat_eq,
}
use msopcom.Wire.{Bytes, from_bytes}

pub record AdumpInfo : Type 0 where
  pub addr : ℕ
  pub args_space : ℕ

-- The state of `ArgsManager`.
pub record ArgsManager (C : Type 0) : Type 0 where
  pub contexts : List (ℕ × C)
  pub atomic_index_to_addr : List (ℕ × AdumpInfo)
  pub latest_atomic_index : ℕ
  pub args_size : ℕ
  pub through_adump : Bool

module _ {C : Type 0} where
  -- `CreateContext` of a block of arguments, with or without placeholders.
  pub create_context : ℕ → ℕ → C → ArgsManager C → Option C × ArgsManager C
  create_context args size ctx m =
      if nat_beq args 0 || nat_beq size 0
      then (none, m)
      else (some ctx, record m { contexts = insert args ctx m.contexts; args_size = size })

  -- `CreateContext` of a handle.
  pub create_handle_context : ℕ → ℕ → C → ArgsManager C → Option C × ArgsManager C
  create_handle_context func_handle args_handle ctx m =
      if nat_beq func_handle 0 || nat_beq args_handle 0
      then (none, m)
      else (some ctx, record m { contexts = insert args_handle ctx m.contexts })

  pub get_context : ℕ → ArgsManager C → Option C
  get_context args m = lookup args m.contexts

  -- `AddAdumpInfo`, `GetAdumpInfo` and `GetLatestAdumpInfo`, where `none` is an exception.
  pub add_adump_info : ℕ → AdumpInfo → ArgsManager C → ArgsManager C
  add_adump_info index info m = record m {
    atomic_index_to_addr = insert index info m.atomic_index_to_addr;
    latest_atomic_index = index;
  }

  pub get_adump_info : ℕ → ArgsManager C → Option AdumpInfo
  get_adump_info index m = lookup index m.atomic_index_to_addr

  pub get_latest_adump_info : ArgsManager C → Option AdumpInfo
  get_latest_adump_info m = lookup m.latest_atomic_index m.atomic_index_to_addr

-- The index at a position: META_MAGIC_NUM, whose low four bytes are zero, with the four bytes there.
unfoldable pub index_at : Bytes → ℕ → ℕ
index_at b a = 11936128515503554560 + from_bytes (take 4 (drop a b))

unfoldable pub is_magic : Bytes → ℕ → Bool
is_magic b i = nat_beq (get_or b i 0) 165

-- The counter of magic bytes, an `uint8_t`.
unfoldable pub counted : Bool → ℕ → ℕ
counted magic count = if magic then (count + 1) % 256 else 0

unfoldable pub or_else : Option AdumpInfo → Option AdumpInfo → Option AdumpInfo
or_else none other = other
or_else (some info) other = some info

module _ (get : ℕ → Option AdumpInfo) where
  -- The loop of `GetAdumpInfoFromTilingData`, for the rounds that are left.
  unfoldable pub scan : Bytes → ℕ → ℕ → ℕ → Option AdumpInfo
  scan b zero i count = none
  scan b (suc n) i count =
      let c = counted (is_magic b i) count in
      let passed = not (nat_beq c 4) || ltb i 7 in
      let rest = scan b n (i + 1) (if passed then c else c - 1) in
      if passed then rest else or_else (get (index_at b (i - 7))) rest

  -- `GetAdumpInfoFromTilingData` for a tiling data size of `size`.
  pub get_adump_info_from_tiling_data : Bool → ℕ → Bytes → Option AdumpInfo
  get_adump_info_from_tiling_data is_tik size b =
      if not is_tik && ltb size 8
      then none
      else or_else (if is_tik then none else get (from_bytes (take 8 (drop (size - 8) b))))
          (scan b (size - 4) 4 0)

-- `GetAdumpInfo` of the unnamed namespace, with the flag that it sets.
pub find_adump_info :
    {C : Type 0} → Bool → ℕ → Bytes → ArgsManager C → Option AdumpInfo × ArgsManager C
find_adump_info is_tik size b m =
    if is_empty m.atomic_index_to_addr then (none, record m { through_adump = false }) else (
      if nat_beq size 0 || ltb (length b) size
          then none
          else get_adump_info_from_tiling_data (λ index. get_adump_info index m) is_tik size b,
      record m { through_adump = true },
    )
