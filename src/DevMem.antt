-- ===== src/DevMem.antt =====
-- csrc/runtime/inject_helpers/DevMemManager.h and DevMemManager.cpp: the one buffer on the device that
-- the tool's own records are written to, which is kept as long as it is large enough.
-- The runtime's allocator and its question for the thread's device are parameters over a state `D`;
-- an error code is a number, 0 for success, and `bad_alloc` stands for `ACL_ERROR_BAD_ALLOC`. The
-- device id -1 is `none`. The flags with their plain getters are fields.
pub mod Holding
mod Tests
use msopcom.Prelude.{
  ℕ, Bool, true, false, not, ◌&&◌, Option, none, some, nat_beq, leb, value_or, if◌then◌else◌,
}

pub record DevMemManager : Type 0 where
  pub mem_size : ℕ
  pub mem_ptr : ℕ
  pub is_memory_init : Bool
  pub is_skip_kernel : Bool
  pub device_id : Option ℕ

-- A result with the pointer stored through `memPtr`, when one is.
pub record Malloc (D : Type 0) : Type 0 where
  pub manager : DevMemManager
  pub memory : D
  pub error : ℕ
  pub stored : Option ℕ

pub same_device : ℕ → Option ℕ → Bool
same_device d none = false
same_device d (some e) = nat_beq d e

module _ {D : Type 0} (bad_alloc : ℕ) (get_device : D → Option ℕ)
    (malloc : D → ℕ → ℕ × Option ℕ × D) (free : D → ℕ → D) where
  -- `Free`.
  pub free_memory : DevMemManager → D → DevMemManager × D
  free_memory m d = (
    record m { mem_ptr = 0; mem_size = 0; device_id = none },
    if nat_beq m.mem_ptr 0 then d else free d m.mem_ptr,
  )

  -- `MallocMemory` behind its first two checks. The runtime gives an error code, the address
  -- that it stores through the pointer to `memPtr_`, if any, and the new state.
  pub malloc_on : ℕ → ℕ → DevMemManager → D → Malloc D
  unfolding same_device free_memory
  malloc_on device size m d =
      if same_device device m.device_id && leb size m.mem_size
      then record { manager = m; memory = d; error = 0; stored = some m.mem_ptr }
      else let freed = free_memory m d in
        let r = malloc freed.1 size in
        let held = record freed.0 { mem_ptr = value_or freed.0.mem_ptr r.1 } in
        if not (nat_beq r.0 0)
        then record { manager = held; memory = r.2; error = r.0; stored = none }
        else record {
          manager = record held {
            mem_size = size;
            is_memory_init = false;
            device_id = some device;
          };
          memory = r.2;
          error = 0;
          stored = some held.mem_ptr;
        }

  -- `MallocMemory`; `given` says that `memPtr` is not null.
  pub malloc_memory : Bool → ℕ → DevMemManager → D → Malloc D
  unfolding malloc_on
  malloc_memory given size m d =
      if not given
      then record { manager = m; memory = d; error = bad_alloc; stored = none }
      else elim (get_device d) [
        | none ↦ record { manager = m; memory = d; error = bad_alloc; stored = none }
        | some device ↦ malloc_on device size m d
      ]
