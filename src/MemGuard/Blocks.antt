-- ===== src/MemGuard/Blocks.antt =====
-- The bookkeeping of csrc/runtime/inject_helpers/MemGuard.cpp: which real address belongs to a
-- user's address, and where the areas of an allocation lie.
use msopcom.Prelude.{
  ◌≢◌, inl, inr, ◌∙◌, Option-cases, Bool-cases, List, ℕ, ◌+◌, ◌-◌, ◌≤◌, ◌≡◌, refl, true, false,
  ◌&&◌, Option, none, some, arith, nat_beq, nat_eq, ltb, nat_beq_iff, if◌then◌else◌, lookup, insert,
  lookup-nil, subst, sym, ap, min, [], eq_refl, lookup-insert_self, erase, lookup-insert,
  lookup-erase,
}
use msopcom.MemGuard.{
  MemoryGuard, GuardBlockInfo, new_block, user_addr, back_start, total_size, malloc_proc,
  device_map, block_by_user_addr, get_real_ptr, free_proc, wrap, size_max,
}

malloc_proc_on :
    (g : MemoryGuard) (dev real size : ℕ)
    → g.mem_guard_enable ≡ true
    → let b = new_block g real size in
      let blocks = insert (user_addr b) b (device_map dev g.guard_mem_map) in
      malloc_proc g dev real size
      ≡ (record g { guard_mem_map = insert dev blocks g.guard_mem_map }, user_addr b)
unfolding malloc_proc
malloc_proc_on g dev real size e = rw e

lookup-or_nil :
    (ptr : ℕ) (o : Option (List (ℕ × GuardBlockInfo)))
    → lookup ptr (elim o [ none ↦ [] | some blocks ↦ blocks ])
      ≡ elim o [ none ↦ none | some blocks ↦ lookup ptr blocks ]
lookup-or_nil ptr none = lookup-nil ptr
lookup-or_nil ptr (some blocks) = refl

lookup-device_map :
    (dev ptr : ℕ) (m : List (ℕ × List (ℕ × GuardBlockInfo)))
    → lookup ptr (device_map dev m)
      ≡ elim (lookup dev m) [ none ↦ none | some blocks ↦ lookup ptr blocks ]
unfolding device_map
lookup-device_map dev ptr m = lookup-or_nil ptr (lookup dev m)

-- The block found after `MallocProc`: the new one at its device and address, and elsewhere what
-- was found before.
pub block-malloc_proc :
    (g : MemoryGuard) (dev real size dev' ptr : ℕ)
    → g.mem_guard_enable ≡ true
    → let r = malloc_proc g dev real size in
      block_by_user_addr r.0 dev' ptr ≡ (
        if nat_beq dev dev' && nat_beq r.1 ptr
        then some (new_block g real size)
        else block_by_user_addr g dev' ptr)
unfolding block_by_user_addr
block-malloc_proc g dev real size dev' ptr e =
    let b = new_block g real size in
    let blocks = insert (user_addr b) b (device_map dev g.guard_mem_map) in
    subst
      (λ r.
        block_by_user_addr r.0 dev' ptr
        ≡ (if nat_beq dev dev' && nat_beq r.1 ptr then some b else block_by_user_addr g dev' ptr))
      (sym (malloc_proc_on g dev real size e))
      (elim (Bool-cases (nat_beq dev dev')) [
        | inl same ↦
            subst
              (λ d.
                (elim (lookup d (insert dev blocks g.guard_mem_map)) [
                  | none ↦ none
                  | some found ↦ lookup ptr found
                ])
                ≡ (if nat_beq dev d && nat_beq (user_addr b) ptr
                    then some b
                    else block_by_user_addr g d ptr))
              ((nat_beq_iff dev dev').0 same)
              (rw (
                lookup-insert_self dev blocks g.guard_mem_map,
                lookup-insert (user_addr b) ptr b (device_map dev g.guard_mem_map),
                lookup-device_map dev ptr g.guard_mem_map,
                eq_refl dev,
              ))
        | inr other ↦ rw (block_by_user_addr, lookup-insert dev dev' blocks g.guard_mem_map, other)
      ])

pub block-free_proc :
    (g : MemoryGuard) (dev p dev' ptr : ℕ)
    → g.mem_guard_enable ≡ true
    → p ≢ 0
    → block_by_user_addr (free_proc g dev p) dev' ptr
      ≡ (if nat_beq dev dev' && nat_beq p ptr then none else block_by_user_addr g dev' ptr)
unfolding free_proc block_by_user_addr
block-free_proc g dev p dev' ptr e nz = elim (Option-cases (lookup dev g.guard_mem_map)) [
  | inl missing ↦ ground (arith, e, nz, missing)
  | inr (blocks, found) ↦ ground (
    arith,
    e,
    nz,
    found,
    lookup-insert dev dev' (erase p blocks) g.guard_mem_map,
    lookup-erase p ptr blocks,
  )
]

enable-malloc_proc :
    (g : MemoryGuard) (dev real size : ℕ)
    → (malloc_proc g dev real size).0.mem_guard_enable ≡ g.mem_guard_enable
unfolding malloc_proc
enable-malloc_proc g dev real size = ground arith

enable-free_proc :
    (g : MemoryGuard) (dev p : ℕ) → (free_proc g dev p).mem_guard_enable ≡ g.mem_guard_enable
unfolding free_proc
enable-free_proc g dev p = ground arith

-- With the guard on and a user address that is not 0: after an allocation on a device, its user
-- address leads to the real address there, and every other address, or the same one on another
-- device, leads where it led before; and after it is freed, the user address leads to itself, and
-- the others again where they led before the allocation.
pub get_real_ptr-malloc_proc :
    (g : MemoryGuard) (dev real size dev' ptr : ℕ)
    → g.mem_guard_enable ≡ true
    → (malloc_proc g dev real size).1 ≢ 0
    → let (h, user) = malloc_proc g dev real size in
      (get_real_ptr h dev' ptr
        ≡ (if nat_beq dev dev' && nat_beq user ptr then real else get_real_ptr g dev' ptr))
      × (get_real_ptr (free_proc h dev user) dev' ptr
          ≡ (if nat_beq dev dev' && nat_beq user ptr then ptr else get_real_ptr g dev' ptr))
unfolding get_real_ptr
get_real_ptr-malloc_proc g dev real size dev' ptr e nz =
    let (h, user) = malloc_proc g dev real size in
    let on = enable-malloc_proc g dev real size ∙ e in
    (
      ground (arith, e, nz, on, block-malloc_proc g dev real size dev' ptr e),
      ground (
        arith,
        e,
        nz,
        on,
        enable-free_proc h dev user,
        block-malloc_proc g dev real size dev' ptr e,
        block-free_proc h dev user dev' ptr on nz,
      ),
    )

le_of : (a b : ℕ) → ltb a b ≡ false → b ≤ a
le_of a b e = ground (arith, e)

wrap_small : (n : ℕ) → n ≤ size_max → wrap n ≡ n
wrap_small n le = omega (arith, le)

-- With the guard on, and area sizes whose sum fits 64 bits, the size asked for is the sum of the
-- areas and the user's size, or the largest number when that sum does not fit.
pub total_size-min :
    (g : MemoryGuard) (size : ℕ)
    → g.mem_guard_enable ≡ true
    → g.front_size + g.back_size ≤ size_max
    → total_size g size ≡ min (g.front_size + size + g.back_size) size_max
unfolding total_size
total_size-min g size e fits =
    let guards = g.front_size + g.back_size in
    let small = wrap_small guards fits in
    elim (Bool-cases (ltb (size_max - guards) size)) [
      | inl over ↦ rw (e, small, over) (ground (arith, over))
      | inr under ↦
          let all_small = le_of (size_max - guards) size under in
          rw (e, small, under, wrap_small (guards + size) (omega (arith, all_small, fits)))
            (omega (arith, all_small, fits))
    ]

-- With the guard on, an allocation of the size asked for, at an address from which front area, user's
-- size and back area fit the address space: the user's area begins behind the front area, the back
-- area behind the user's area, and the back area ends where the allocation ends.
pub total_size_areas :
    (g : MemoryGuard) (real size : ℕ)
    → g.mem_guard_enable ≡ true
    → real + (g.front_size + size + g.back_size) ≤ size_max
    → let b = new_block g real size in
      (user_addr b ≡ real + g.front_size)
      × (back_start b ≡ user_addr b + size)
      × (back_start b + g.back_size ≡ real + total_size g size)
unfolding user_addr back_start
total_size_areas g real size e fits =
    let first = wrap_small (real + g.front_size) (omega (arith, fits)) in
    let last = wrap_small (real + g.front_size + size) (omega (arith, fits)) in
    (
      first,
      last ∙ ap (λ a. a + size) (sym first),
      ap (λ a. a + g.back_size) last
          ∙ omega (arith, fits, total_size-min g size e (omega (arith, fits))),
    )
