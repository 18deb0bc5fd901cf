-- ===== src/DevMem/Tests.antt =====
-- The law of csrc/runtime/inject_helpers/DevMemManager.cpp with a concrete allocator.
use msopcom.Prelude.{ℕ, suc, ◌-◌, true, false, Option, some}
use msopcom.DevMem.{DevMemManager}

-- An allocator that counts its buffers and never fails.
abbrev give : ℕ → ℕ → ℕ × Option ℕ × ℕ
give d n = (0, some 4096, suc d)

abbrev take_back : ℕ → ℕ → ℕ
take_back d p = d - 1

abbrev on_device : ℕ → Option ℕ
on_device d = some 0

abbrev in_use : ℕ → ℕ
in_use d = d

abbrev holding : DevMemManager
holding = record {
  mem_size = 64;
  mem_ptr = 4096;
  is_memory_init = true;
  is_skip_kernel = false;
  device_id = some 0;
}
