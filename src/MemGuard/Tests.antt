-- ===== src/MemGuard/Tests.antt =====
-- The laws of csrc/runtime/inject_helpers/MemGuard.cpp at a concrete guard.
use msopcom.Prelude.{
  ℕ, zero, suc, ◌≡◌, ◌≢◌, refl, ap, arith, true, false, List, [], ◌∷◌, Option, none, some, nat_beq,
  if◌then◌else◌, ◌&&◌, length, replicate, subst,
}
use msopcom.MemGuard.{
  Config, get_total_size, init, count_blocks, clear_guard_block_map, fill_all_mem_guard,
  fill_blocks, gen_gm_addr_err, MemoryGuard, new_block, malloc_proc, free_proc, get_real_ptr,
  check_all_mem_guard,
}
use msopcom.Wire.{ceil_by_align_size}
use msopcom.MemGuard.Blocks.{get_real_ptr-malloc_proc}
use msopcom.MemGuard.Checks.{CopiesAll, errors_of, blocks_of, check_all_mem_guard_lem}

abbrev guarded : MemoryGuard
guarded = record {
  mem_guard_init = true;
  mem_guard_enable = true;
  front_size = 0;
  back_size = 32;
  pattern = 90;
  guard_mem_map = [];
}

abbrev with_block : MemoryGuard
with_block = record guarded { guard_mem_map = (0, (4096, new_block guarded 4096 100) ∷ []) ∷ [] }

-- A memory that holds the same byte everywhere; the state is that byte.
abbrev copy_same : ℕ → ℕ → ℕ → Option (List ℕ)
copy_same d start len = some (replicate len d)

length_same : (d len : ℕ) → length (replicate len d) ≡ len
length_same d zero = refl
length_same d (suc n) = ap suc (length_same d n)

abbrev value : Option (List ℕ) → List ℕ
value none = []
value (some xs) = xs

copy_same-CopiesAll : CopiesAll copy_same
copy_same-CopiesAll = record {
  length_is = λ d start len buf e. subst (λ x. length x ≡ len) (ap value e) (length_same d len);
}

check_all_mem_guard_lem_example : (check_all_mem_guard copy_same with_block 7).1 ≡ (
    if with_block.mem_guard_enable
    then errors_of copy_same with_block 7 (blocks_of with_block.guard_mem_map)
    else [])
check_all_mem_guard_lem_example =
    check_all_mem_guard_lem copy_same copy_same-CopiesAll with_block 7 (omega arith)

not_null : (malloc_proc guarded 0 4096 100).1 ≢ 0
unfolding malloc_proc
not_null e = ground (arith, e)

get_real_ptr-malloc_proc_example :
    let (h, user) = malloc_proc guarded 0 4096 100 in
    (get_real_ptr h 0 4096
      ≡ (if nat_beq 0 0 && nat_beq user 4096 then 4096 else get_real_ptr guarded 0 4096))
    × (get_real_ptr (free_proc h 0 user) 0 4096
        ≡ (if nat_beq 0 0 && nat_beq user 4096 then 4096 else get_real_ptr guarded 0 4096))
get_real_ptr-malloc_proc_example = get_real_ptr-malloc_proc guarded 0 4096 100 0 4096 refl not_null

-- A sanitizer with memory checks and areas of 40 bytes, rounded up to 64.
abbrev checking : Config
checking = record { is_sanitizer = true; mem_check = true; gm_buffer_guard_size = 40 }

get_total_size_first :
    (get_total_size checking
      (record guarded { mem_guard_init = false; mem_guard_enable = false })
      100).1
    ≡ 164
unfolding get_total_size init ceil_by_align_size
get_total_size_first = refl

count_blocks_cleared : count_blocks (clear_guard_block_map with_block).guard_mem_map ≡ 0
unfolding count_blocks clear_guard_block_map
count_blocks_cleared = refl

-- Memory as the list of the fills that were made.
abbrev log_fill : List (ℕ × ℕ × ℕ) → ℕ → ℕ → ℕ → List (ℕ × ℕ × ℕ)
log_fill d start pattern len = (start, pattern, len) ∷ d

fill_all_mem_guard_back : fill_all_mem_guard log_fill with_block [] ≡ (4196, 90, 32) ∷ []
unfolding fill_all_mem_guard fill_blocks
fill_all_mem_guard_back = refl

gen_gm_addr_err_out :
    (gen_gm_addr_err
      (record (new_block guarded 4096 100) { back_err_start = 3; back_err_bytes = 2 })).out_addr
    ≡ 4199
unfolding gen_gm_addr_err
gen_gm_addr_err_out = refl
