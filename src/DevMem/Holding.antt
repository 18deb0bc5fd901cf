-- ===== src/DevMem/Holding.antt =====
-- The buffer that csrc/runtime/inject_helpers/DevMemManager.cpp holds, against the allocator.
use msopcom.Prelude.{ℕ, suc, ◌≤◌, ◌≡◌, ◌≢◌, ◌⊎◌, Option, none, some}
use msopcom.DevMem.{DevMemManager, Malloc}

-- What is relied on in the runtime's allocator, with `live` the number of buffers in use: success is
-- the code 0, gives one buffer more and stores its address, which is not null; a failure gives no
-- buffer and stores nothing, or null; and freeing an address that is not null gives one buffer back.
pub record Allocates {D : Type 0} (live : D → ℕ) (malloc : D → ℕ → ℕ × Option ℕ × D)
    (free : D → ℕ → D) : Type 0 where
  pub succeeds :
      (d : D) (n : ℕ)
      → (malloc d n).0 ≡ 0
      → (p : ℕ) × ((malloc d n).1 ≡ some p) × (p ≢ 0) × (live (malloc d n).2 ≡ suc (live d))
  pub fails :
      (d : D) (n : ℕ)
      → (malloc d n).0 ≢ 0
      → (((malloc d n).1 ≡ none) ⊎ ((malloc d n).1 ≡ some 0)) × (live (malloc d n).2 ≡ live d)
  pub frees : (d : D) (p n : ℕ) → p ≢ 0 → live d ≡ suc n → live (free d p) ≡ n

-- The manager holds no buffer and none is in use, or it holds one and that one is in use.
abbrev pub Holds : {D : Type 0} → (D → ℕ) → DevMemManager → D → Type 0
Holds live m d =
    (m.mem_ptr ≡ 0) × (m.mem_size ≡ 0) × (m.device_id ≡ none) × (live d ≡ 0)
    ⊎ (m.mem_ptr ≢ 0) × (live d ≡ 1)

-- A call's result: the held buffer, large enough, or an error with no pointer stored.
abbrev pub Answers : {D : Type 0} → ℕ → Malloc D → Type 0
Answers size r =
    (r.error ≡ 0) × (r.stored ≡ some r.manager.mem_ptr) × (size ≤ r.manager.mem_size)
    ⊎ (r.error ≢ 0) × (r.stored ≡ none)

module _ {D : Type 0} (live : D → ℕ) (bad_alloc : ℕ) (get_device : D → Option ℕ)
    (malloc : D → ℕ → ℕ × Option ℕ × D) (free : D → ℕ → D) (c : Allocates live malloc free) where
  abbrev IsSound : ℕ → Malloc D → Type 0
  IsSound size r = Holds live r.manager r.memory × Answers size r
