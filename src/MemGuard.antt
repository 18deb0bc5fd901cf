-- ===== src/MemGuard.antt =====
-- csrc/runtime/inject_helpers/MemGuard.h and MemGuard.cpp: guard areas round device buffers.
-- A buffer of the program is allocated with a guard area in front and behind; the program sees the
-- address behind the front area. Before a kernel the areas are filled with a pattern, and after it
-- they are compared with the pattern. Addresses and sizes are 64-bit numbers. Device memory is a
-- state `D` with the runtime's `memset` and its copy to the host as parameters. The device id of
-- the calling thread is an argument; the mutex is left out, since each operation holds it throughout.
pub mod Blocks
pub mod Checks
mod Tests
use msopcom.Prelude.{
  ℕ, zero, suc, ◌+◌, ◌-◌, ◌%◌, Bool, true, false, not, ◌&&◌, ◌||◌, List, [], ◌∷◌, ◌++◌, Option,
  none, some, nat_beq, nat_eq, ltb, if◌then◌else◌, lookup, insert, erase, length,
}
use msopcom.Wire.{ceil_by_align_size}

abbrev pub size_max : ℕ
size_max = 18446744073709551615

abbrev pub wrap : ℕ → ℕ
wrap n = n % 18446744073709551616

pub record GuardBlockInfo : Type 0 where
  pub real_ptr : ℕ
  pub user_size : ℕ
  pub front_guard_size : ℕ
  pub back_guard_size : ℕ
  pub front_err_start : ℕ
  pub back_err_start : ℕ
  pub front_err_bytes : ℕ
  pub back_err_bytes : ℕ

-- `GetFrontStart`, `GetUserAddr` and `GetBackStart`.
abbrev pub front_start : GuardBlockInfo → ℕ
front_start b = b.real_ptr

pub user_addr : GuardBlockInfo → ℕ
user_addr b = wrap (b.real_ptr + b.front_guard_size)

pub back_start : GuardBlockInfo → ℕ
back_start b = wrap (b.real_ptr + b.front_guard_size + b.user_size)

-- `MemoryGuard`; the map's first key is the device, its second the user's address.
pub record MemoryGuard : Type 0 where
  pub mem_guard_init : Bool
  pub mem_guard_enable : Bool
  pub front_size : ℕ
  pub back_size : ℕ
  pub pattern : ℕ
  pub guard_mem_map : List (ℕ × List (ℕ × GuardBlockInfo))

-- What `Init` asks: whether the tool is the sanitizer, and its configuration.
pub record Config : Type 0 where
  pub is_sanitizer : Bool
  pub mem_check : Bool
  pub gm_buffer_guard_size : ℕ

-- `SetGuardSizes`: both sizes are rounded up to multiples of `ALIGNMENT`.
pub set_guard_sizes : MemoryGuard → ℕ → ℕ → MemoryGuard
set_guard_sizes g front back = record g {
  front_size = ceil_by_align_size 32 front;
  back_size = ceil_by_align_size 32 back;
}

-- `Init`.
pub init : Config → MemoryGuard → MemoryGuard
unfolding set_guard_sizes
init c g =
    let started = record g { mem_guard_init = true } in
    if not c.is_sanitizer
    then started
    else if not c.mem_check
    then started
    else set_guard_sizes (record started { mem_guard_enable = true }) 0 c.gm_buffer_guard_size

-- `GetTotalSize`: the size to allocate for a request; the first request initialises.
pub ready : Config → MemoryGuard → MemoryGuard
ready c g = if g.mem_guard_init then g else init c g

pub total_size : MemoryGuard → ℕ → ℕ
total_size g user_size =
    if not g.mem_guard_enable
    then user_size
    else let guard_total = wrap (g.front_size + g.back_size) in
      if ltb (size_max - guard_total) user_size then size_max else wrap (guard_total + user_size)

pub get_total_size : Config → MemoryGuard → ℕ → MemoryGuard × ℕ
unfolding ready total_size
get_total_size c g user_size = (ready c g, total_size (ready c g) user_size)

-- The inner map of a device, which `[]` makes when it is missing.
pub device_map : ℕ → List (ℕ × List (ℕ × GuardBlockInfo)) → List (ℕ × GuardBlockInfo)
device_map dev m = elim (lookup dev m) [ none ↦ [] | some blocks ↦ blocks ]

-- The record that `MallocProc` makes of the allocated address.
abbrev pub new_block : MemoryGuard → ℕ → ℕ → GuardBlockInfo
new_block g real user_size = record {
  real_ptr = real;
  user_size = user_size;
  front_guard_size = g.front_size;
  back_guard_size = g.back_size;
  front_err_start = size_max;
  back_err_start = size_max;
  front_err_bytes = 0;
  back_err_bytes = 0;
}

-- `MallocProc`: the guard and the address that the program gets.
pub malloc_proc : MemoryGuard → ℕ → ℕ → ℕ → MemoryGuard × ℕ
unfolding device_map user_addr
malloc_proc g dev real user_size =
    if not g.mem_guard_enable
    then (g, real)
    else let b = new_block g real user_size in
      let blocks = insert (user_addr b) b (device_map dev g.guard_mem_map) in
      (record g { guard_mem_map = insert dev blocks g.guard_mem_map }, user_addr b)

-- `GetGuardBlockInfoByUserAddr`.
pub block_by_user_addr : MemoryGuard → ℕ → ℕ → Option GuardBlockInfo
block_by_user_addr g dev user_ptr = elim (lookup dev g.guard_mem_map) [
  | none ↦ none
  | some blocks ↦ lookup user_ptr blocks
]

-- `GetRealPtr`.
pub get_real_ptr : MemoryGuard → ℕ → ℕ → ℕ
unfolding block_by_user_addr
get_real_ptr g dev user_ptr =
    if not g.mem_guard_enable || nat_beq user_ptr 0
    then user_ptr
    else elim (block_by_user_addr g dev user_ptr) [ none ↦ user_ptr | some b ↦ b.real_ptr ]

-- `FreeProc`.
pub free_proc : MemoryGuard → ℕ → ℕ → MemoryGuard
free_proc g dev user_ptr =
    if not g.mem_guard_enable || nat_beq user_ptr 0 then g else elim (lookup dev g.guard_mem_map) [
      | none ↦ g
      | some blocks ↦ record g {
        guard_mem_map = insert dev (erase user_ptr blocks) g.guard_mem_map;
      }
    ]

-- `GetGuardMapSize` and `ClearGuardBlockMap`.
pub count_blocks : List (ℕ × List (ℕ × GuardBlockInfo)) → ℕ
count_blocks [] = 0
count_blocks ((d, blocks) ∷ m) = length blocks + count_blocks m

pub clear_guard_block_map : MemoryGuard → MemoryGuard
clear_guard_block_map g = record g { guard_mem_map = [] }

-- The loop of `CheckGuard` over the bytes copied out, from place `i` on, with the first place of a
-- wrong byte (-1 as yet) and the number of wrong bytes.
pub scan_guard : ℕ → List ℕ → ℕ → ℕ → ℕ → ℕ × ℕ
scan_guard pattern [] i start count = (start, count)
scan_guard pattern (b ∷ buf) i start count =
    let wrong = not (nat_beq b pattern) in
    scan_guard pattern buf (suc i) (if wrong && nat_beq start size_max then i else start)
      (if wrong then suc count else count)

-- `GMAddrOutOfBoundRecord`, as `GenGMAddrErr` fills it.
pub record OutOfBound : Type 0 where
  pub addr : ℕ
  pub size : ℕ
  pub out_addr : ℕ
  pub out_size : ℕ

pub gen_gm_addr_err : GuardBlockInfo → OutOfBound
unfolding user_addr
gen_gm_addr_err b = record {
  addr = user_addr b;
  size = b.user_size;
  out_addr = wrap (user_addr b + b.user_size + b.back_err_start);
  out_size = b.back_err_bytes;
}

module _ {D : Type 0} (memset : D → ℕ → ℕ → ℕ → D) where
  -- `FillGuard`: a failed `memset` only logs.
  pub fill_guard : MemoryGuard → D → ℕ → ℕ → D
  fill_guard g d start len =
      if not (nat_beq start 0) && ltb 0 len then memset d start g.pattern len else d

  pub fill_blocks : MemoryGuard → D → List (ℕ × GuardBlockInfo) → D
  unfolding fill_guard back_start
  fill_blocks g d [] = d
  fill_blocks g d ((a, b) ∷ blocks) =
      fill_blocks g
        (fill_guard g (fill_guard g d (front_start b) g.front_size) (back_start b) g.back_size)
        blocks

  pub fill_devices : MemoryGuard → D → List (ℕ × List (ℕ × GuardBlockInfo)) → D
  fill_devices g d [] = d
  fill_devices g d ((dev, blocks) ∷ m) = fill_devices g (fill_blocks g d blocks) m

  -- `FillAllMemGuard`.
  pub fill_all_mem_guard : MemoryGuard → D → D
  unfolding fill_devices
  fill_all_mem_guard g d = if not g.mem_guard_enable then d else fill_devices g d g.guard_mem_map

module _ {D : Type 0} (copy_out : D → ℕ → ℕ → Option (List ℕ)) where
  -- `CheckGuard`: the first wrong place, or -1, and the number of wrong bytes.
  pub check_guard : MemoryGuard → D → ℕ → ℕ → ℕ × ℕ
  unfolding scan_guard
  check_guard g d start len = if nat_beq len 0 then (size_max, 0) else elim (copy_out d start len) [
    | none ↦ (size_max, 0)
    | some buf ↦ scan_guard g.pattern buf 0 size_max 0
  ]

  -- One block of `CheckAllMemGuard`: the block with its results.
  pub check_block : MemoryGuard → D → GuardBlockInfo → GuardBlockInfo
  unfolding check_guard back_start
  check_block g d b =
      let front = check_guard g d (front_start b) g.front_size in
      let back = check_guard g d (back_start b) g.back_size in
      record b {
        front_err_start = front.0;
        front_err_bytes = front.1;
        back_err_start = back.0;
        back_err_bytes = back.1;
      }

  pub check_blocks :
      MemoryGuard → D → List (ℕ × GuardBlockInfo) → List (ℕ × GuardBlockInfo) × List OutOfBound
  check_blocks g d [] = ([], [])
  check_blocks g d ((a, b) ∷ blocks) =
      let rest = check_blocks g d blocks in
      let checked = check_block g d b in
      (
        (a, checked) ∷ rest.0,
        if nat_beq (wrap (checked.front_err_bytes + checked.back_err_bytes)) 0
            then rest.1
            else gen_gm_addr_err checked ∷ rest.1,
      )

  pub check_devices :
      MemoryGuard
      → D
      → List (ℕ × List (ℕ × GuardBlockInfo))
      → List (ℕ × List (ℕ × GuardBlockInfo)) × List OutOfBound
  unfolding check_blocks
  check_devices g d [] = ([], [])
  check_devices g d ((dev, blocks) ∷ m) =
      let rest = check_devices g d m in
      let checked = check_blocks g d blocks in ((dev, checked.0) ∷ rest.0, checked.1 ++ rest.1)

  -- `CheckAllMemGuard`: the guard with the results in its blocks, and the records sent to the tool.
  pub check_all_mem_guard : MemoryGuard → D → MemoryGuard × List OutOfBound
  unfolding check_devices
  check_all_mem_guard g d =
      if not g.mem_guard_enable
      then (g, [])
      else let r = check_devices g d g.guard_mem_map in (record g { guard_mem_map = r.0 }, r.1)
