-- ===== src/MemGuard/Checks.antt =====
-- What csrc/runtime/inject_helpers/MemGuard.cpp finds when it compares the guard areas with the
-- pattern: `CheckGuard` and `CheckAllMemGuard`.
use msopcom.Prelude.{
  ℕ, suc, ◌+◌, ◌≤◌, ◌≡◌, inl, inr, refl, ap, not, ◌&&◌, List, [], ◌∷◌, ◌++◌, Option, none, some,
  arith, nat_beq, if◌then◌else◌, length, map, Bool-cases, Option-cases,
}
use msopcom.MemGuard.{
  MemoryGuard, GuardBlockInfo, OutOfBound, front_start, back_start, scan_guard, check_guard,
  check_block, check_blocks, check_devices, check_all_mem_guard, size_max, wrap, gen_gm_addr_err,
}

-- The number of bytes of an area that differ from the pattern, and the place of the first of
-- them, counted from `i`, or `size_max`.
pub wrong_bytes : ℕ → List ℕ → ℕ
wrong_bytes p [] = 0
wrong_bytes p (b ∷ buf) = (if nat_beq b p then 0 else 1) + wrong_bytes p buf

pub first_wrong : ℕ → List ℕ → ℕ → ℕ
first_wrong p [] i = size_max
first_wrong p (b ∷ buf) i = if nat_beq b p then first_wrong p buf (suc i) else i

scan_guard_lem :
    (p : ℕ) (buf : List ℕ) (i start count : ℕ)
    → i + length buf ≤ size_max
    → scan_guard p buf i start count
      ≡ (if nat_beq start size_max then first_wrong p buf i else start, count + wrong_bytes p buf)
unfolding scan_guard wrong_bytes first_wrong
scan_guard_lem p [] i start count le = ground arith
scan_guard_lem p (b ∷ buf) i start count le =
    let s = if not (nat_beq b p) && nat_beq start size_max then i else start in
    let c = if not (nat_beq b p) then suc count else count in
    ground (arith, le, scan_guard_lem p buf (suc i) s c (omega (arith, le)))

wrong_bytes_le : (p : ℕ) (buf : List ℕ) → wrong_bytes p buf ≤ length buf
unfolding wrong_bytes
wrong_bytes_le p [] = omega arith
wrong_bytes_le p (b ∷ buf) = ground (arith, wrong_bytes_le p buf)

-- The bytes of an area as they are compared: none when the area is empty or cannot be copied.
pub area : {D : Type 0} → (D → ℕ → ℕ → Option (List ℕ)) → D → ℕ → ℕ → List ℕ
area copy_out d start len =
    if nat_beq len 0 then [] else elim (copy_out d start len) [ none ↦ [] | some buf ↦ buf ]

-- The blocks of the map, in the order in which they are checked.
pub blocks_of : List (ℕ × List (ℕ × GuardBlockInfo)) → List GuardBlockInfo
blocks_of [] = []
blocks_of ((dev, blocks) ∷ m) = map (λ x. x.1) blocks ++ blocks_of m

module _ {D : Type 0} (copy_out : D → ℕ → ℕ → Option (List ℕ)) where
  -- How many bytes of the two areas of a block differ from the pattern.
  pub spoilt : MemoryGuard → D → GuardBlockInfo → ℕ
  unfolding area
  spoilt g d b =
      wrong_bytes g.pattern (area copy_out d (front_start b) g.front_size)
      + wrong_bytes g.pattern (area copy_out d (back_start b) g.back_size)

  -- The records of the blocks that have such a byte.
  pub errors_of : MemoryGuard → D → List GuardBlockInfo → List OutOfBound
  errors_of g d [] = []
  errors_of g d (b ∷ bs) =
      let rest = errors_of g d bs in
      if nat_beq (spoilt g d b) 0 then rest else gen_gm_addr_err (check_block copy_out g d b) ∷ rest

-- What the runtime's copy to the host promises: as many bytes as were asked for.
pub record CopiesAll {D : Type 0} (copy_out : D → ℕ → ℕ → Option (List ℕ)) : Type 0 where
  pub length_is :
      (d : D) (start len : ℕ) (buf : List ℕ) → copy_out d start len ≡ some buf → length buf ≡ len

module _ {D : Type 0} (copy_out : D → ℕ → ℕ → Option (List ℕ)) (c : CopiesAll copy_out) where
  length-area : (d : D) (start len : ℕ) → length (area copy_out d start len) ≤ len
  unfolding area
  length-area d start len = elim (Option-cases (copy_out d start len)) [
    | inl failed ↦ ground (arith, failed)
    | inr (buf, copied) ↦ ground (arith, copied, c.length_is d start len buf copied)
  ]

  -- When the copy gives as many bytes as asked for, and at most 2 ^ 64 - 1, `CheckGuard` returns
  -- the place of the area's first wrong byte, or -1 when there is none, and the number of wrong
  -- bytes; an area that is empty or cannot be copied has none.
  pub check_guard_lem :
      (g : MemoryGuard) (d : D) (start len : ℕ)
      → len ≤ size_max
      → let bytes = area copy_out d start len in
        check_guard copy_out g d start len
        ≡ (first_wrong g.pattern bytes 0, wrong_bytes g.pattern bytes)
  unfolding check_guard area first_wrong wrong_bytes
  check_guard_lem g d start len le = elim (Bool-cases (nat_beq len 0)) [
    | inl empty ↦ rw empty
    | inr full ↦ elim (Option-cases (copy_out d start len)) [
      | inl failed ↦ rw (full, failed)
      | inr (buf, copied) ↦
          rw
            (
              full,
              copied,
              scan_guard_lem g.pattern buf 0 size_max 0
                  (omega (arith, le, c.length_is d start len buf copied)),
            )
            (ap (λ w. (first_wrong g.pattern buf 0, w)) (omega arith))
    ]
  ]

  check_block_bytes :
      (g : MemoryGuard) (d : D) (b : GuardBlockInfo)
      → g.front_size + g.back_size ≤ size_max
      → let r = check_block copy_out g d b in
        wrap (r.front_err_bytes + r.back_err_bytes) ≡ spoilt copy_out g d b
  unfolding check_block spoilt
  check_block_bytes g d b fits =
      let front = check_guard_lem g d (front_start b) g.front_size (omega (arith, fits)) in
      let back = check_guard_lem g d (back_start b) g.back_size (omega (arith, fits)) in
      rw (front, back)
        (omega (
          arith,
          fits,
          wrong_bytes_le g.pattern (area copy_out d (front_start b) g.front_size),
          wrong_bytes_le g.pattern (area copy_out d (back_start b) g.back_size),
          length-area d (front_start b) g.front_size,
          length-area d (back_start b) g.back_size,
        ))

  errors_of-append :
      (g : MemoryGuard) (d : D) (bs cs : List GuardBlockInfo)
      → errors_of copy_out g d (bs ++ cs) ≡ errors_of copy_out g d bs ++ errors_of copy_out g d cs
  unfolding errors_of
  errors_of-append g d [] cs = refl
  errors_of-append g d (b ∷ bs) cs = elim (Bool-cases (nat_beq (spoilt copy_out g d b) 0)) [
    | inl whole ↦ rw (whole, errors_of-append g d bs cs)
    | inr hurt ↦ rw (hurt, errors_of-append g d bs cs)
  ]

  check_blocks_errors :
      (g : MemoryGuard) (d : D) (blocks : List (ℕ × GuardBlockInfo))
      → g.front_size + g.back_size ≤ size_max
      → (check_blocks copy_out g d blocks).1 ≡ errors_of copy_out g d (map (λ x. x.1) blocks)
  unfolding check_blocks errors_of
  check_blocks_errors g d [] fits = refl
  check_blocks_errors g d ((a, b) ∷ blocks) fits =
      rw (check_block_bytes g d b fits, check_blocks_errors g d blocks fits)

  check_devices_errors :
      (g : MemoryGuard) (d : D) (m : List (ℕ × List (ℕ × GuardBlockInfo)))
      → g.front_size + g.back_size ≤ size_max
      → (check_devices copy_out g d m).1 ≡ errors_of copy_out g d (blocks_of m)
  unfolding check_devices blocks_of errors_of
  check_devices_errors g d [] fits = refl
  check_devices_errors g d ((dev, blocks) ∷ m) fits = rw (
    errors_of-append g d (map (λ x. x.1) blocks) (blocks_of m),
    check_blocks_errors g d blocks fits,
    check_devices_errors g d m fits,
  )

  -- When the copy gives as many bytes as asked for, and the two area sizes fit 64 bits together,
  -- `CheckAllMemGuard` with the guard on reports exactly the blocks in whose two areas some byte
  -- differs from the pattern, in the map's order; with the guard off it reports nothing.
  pub check_all_mem_guard_lem :
      (g : MemoryGuard) (d : D)
      → g.front_size + g.back_size ≤ size_max
      → (check_all_mem_guard copy_out g d).1
        ≡ (if g.mem_guard_enable then errors_of copy_out g d (blocks_of g.guard_mem_map) else [])
  unfolding check_all_mem_guard
  check_all_mem_guard_lem g d fits = elim (Bool-cases g.mem_guard_enable) [
    | inl on ↦ simp (on, check_devices_errors g d g.guard_mem_map fits)
    | inr off ↦ simp off
  ]
