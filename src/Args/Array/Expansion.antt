-- ===== src/Args/Array/Expansion.antt =====
-- ExpandArgs on the packed arguments of csrc/runtime/inject_helpers/ArgsArrayContext.cpp.
use msopcom.Prelude.{
  Apart, ℕ, suc, ◌+◌, ◌-◌, ◌%◌, ◌≤◌, ◌<◌, ◌≡◌, inr, refl, sym, ap, subst, ◌∙◌, arith, Bool, true,
  false, Option, some, List, [], ◌∷◌, ◌++◌, map, append-nil, nat_beq, nat_beq_iff, ltb, length,
  replicate, is_empty, All, length-append, length-replicate,
}
use msopcom.Wire.{Bytes}
use msopcom.Args.Array.{
  ArgsArrayContext, sum_of, total_size_of, write_at, pack, rebuild_args_array, create, aligned_size,
  expand_args,
}
use msopcom.Args.Array.Packing.{
  Slots, offsets, sizes, pointers, Reads, IsLaid, IsWithin, size_max, packed, pack-packed,
  length-packed, packed-Reads, Reads-append, Reads-write_at, total_size_bounds, length-write_at,
  take-drop-write_at,
}

pub nat_beq_refl : (n : ℕ) → nat_beq n n ≡ true
nat_beq_refl n = (nat_beq_iff n n).1 refl

pub length-offsets : (ls : Slots) → length (offsets ls) ≡ length ls
length-offsets [] = refl
length-offsets (t ∷ ls) = ap suc (length-offsets ls)

pub length-sizes : (ls : Slots) → length (sizes ls) ≡ length ls
length-sizes [] = refl
length-sizes (t ∷ ls) = ap suc (length-sizes ls)

pub is_empty-length {ℓ} : {A : Type ℓ} (xs : List A) → 0 < length xs → is_empty xs ≡ false
is_empty-length [] h = absurd (omega arith)
is_empty-length (x ∷ xs) h = refl

aligned_size_bounds :
    (n : ℕ) → n ≤ size_max → (n ≤ aligned_size n) × (aligned_size n ≤ size_max + 1)
unfolding aligned_size
aligned_size_bounds n h = (omega arith, omega arith)

-- The context of the arguments `ls`.
abbrev pub built : Slots → ArgsArrayContext
built ls = rebuild_args_array (record {
  param_offsets = offsets ls;
  param_sizes = sizes ls;
  param_count = length ls;
  is_static_stub = false;
  packed_args = packed ls (replicate (total_size_of (offsets ls) (sizes ls)) 0);
  mem_info_offset = 0;
  args_array = [];
})

create-built :
    (ls : Slots)
    → 0 < length ls
    → create (some (pointers ls)) (length ls) (offsets ls) (sizes ls) false ≡ some (built ls)
unfolding create
create-built ls some_slot =
    let zeros : Bytes = replicate (total_size_of (offsets ls) (sizes ls)) 0 in
    let filled : pack (length ls) (offsets ls) (sizes ls) (pointers ls) zeros
        ≡ some (packed ls zeros) =
      rw (append-nil (offsets ls), append-nil (sizes ls), append-nil (pointers ls)) at
        (pack-packed ls [] [] [] zeros) in
    let positive : nat_beq (length ls) 0 ≡ false = ground (arith, some_slot) in
    let os : nat_beq (length (offsets ls)) (length ls) ≡ true =
      ap (λ n. nat_beq n (length ls)) (length-offsets ls) ∙ nat_beq_refl (length ls) in
    let ns : nat_beq (length (sizes ls)) (length ls) ≡ true =
      ap (λ n. nat_beq n (length ls)) (length-sizes ls) ∙ nat_beq_refl (length ls) in
    rw (positive, os, ns, filled) refl

total_size-le :
    (ls : Slots) → IsWithin size_max ls → total_size_of (offsets ls) (sizes ls) ≤ size_max
unfolding total_size_of
total_size-le [] small = omega arith
total_size-le ((o, p) ∷ ls) small = omega (arith, small.0, total_size-le ls small.1)

-- Slots within a size are apart from what stands behind it.
clear_before :
    (ls : Slots) (n size m : ℕ)
    → n ≤ size
    → IsWithin n ls
    → All (λ t. Apart size m t.0 (length t.1)) ls
clear_before [] n size m h within = tt
clear_before ((o, p) ∷ ls) n size m h within =
    (inr (omega (arith, within.0)), clear_before ls n size m h within.1)

-- The context with one more parameter, behind `n` bytes of arguments.
abbrev expanded : ArgsArrayContext → Bytes → ℕ → ArgsArrayContext
expanded c param n =
    let size = aligned_size n in
    rebuild_args_array (record c {
      packed_args =
          write_at size param (c.packed_args ++ replicate (sum_of size (length param) - n) 0);
      mem_info_offset = size;
    })

expand_args-expanded :
    (c : ArgsArrayContext) (param : Bytes) (n : ℕ)
    → c.is_static_stub ≡ false
    → length c.packed_args ≡ n
    → 0 < n
    → 0 < length param
    → expand_args (some param) c ≡ (true, expanded c param n, some (aligned_size n % 4294967296))
unfolding expand_args
expand_args-expanded c param n dynamic long some_byte some_param =
    let full : is_empty c.packed_args ≡ false =
      is_empty-length c.packed_args (subst (λ k. 0 < k) (sym long) some_byte) in
    let given : is_empty param ≡ false = is_empty-length param some_param in
    let answer = λ (k : ℕ).
      let r : Bool × ArgsArrayContext × Option ℕ =
        (true, expanded c param k, some (aligned_size k % 4294967296)) in
      r in
    let equation : expand_args (some param) c ≡ answer (length c.packed_args) =
      simp (expand_args, full, given, dynamic) in
    equation ∙ ap answer long

-- The arguments are packed with each parameter at its offset and, when they are not empty, ExpandArgs adds one behind
-- them, at the next multiple of 8: provided the kernel's parameters do not overlap and neither the end of one nor the new one's size reaches 2 ^ 63, every parameter
-- is still read at its offset, the new one at the offset that is stored (when below 2 ^ 32), and the array of
-- pointers points to all of them in order.
pub expand_args-create :
    (ls : Slots) (param : Bytes)
    → IsLaid ls
    → IsWithin size_max ls
    → 0 < length ls
    → 0 < total_size_of (offsets ls) (sizes ls)
    → 0 < length param
    → length param ≤ size_max
    → let size = aligned_size (total_size_of (offsets ls) (sizes ls)) in
      (c d : ArgsArrayContext) × (create
          (some (pointers ls))
          (length ls)
          (offsets ls)
          (sizes ls)
          false
        ≡ some c)
      × (expand_args (some param) c ≡ (true, d, some (size % 4294967296)))
      × (d.args_array ≡ map some (offsets ls) ++ (some size ∷ []))
      × All (Reads d.packed_args) ls
      × Reads d.packed_args (size, param)
unfolding expand_args rebuild_args_array
expand_args-create ls param laid small some_slot some_byte some_param few =
    let total = total_size_of (offsets ls) (sizes ls) in
    let size = aligned_size total in
    let zeros : Bytes = replicate total 0 in
    let b = packed ls zeros in
    let long : length zeros ≡ total = length-replicate {A = ℕ} total 0 in
    let within : IsWithin (length zeros) ls =
      subst (λ n. IsWithin n ls) (sym long) (total_size_bounds ls small) in
    let length_b : length b ≡ total = length-packed ls zeros within ∙ long in
    let more : Bytes = replicate (sum_of size (length param) - total) 0 in
    let grown : Bytes = b ++ more in
    let bounds = aligned_size_bounds total (total_size-le ls small) in
    let bound = bounds.0 in
    let length_grown : length grown ≡ size + length param = omega (
      arith,
      length-append b more,
      length_b,
      length-replicate {A = ℕ} (sum_of size (length param) - total) 0,
      bounds,
      few,
    ) in
    let fits : size + length param ≤ length grown = omega (arith, length_grown) in
    let new = write_at size param grown in
    let full : is_empty new ≡ false =
      is_empty-length new (omega (arith, length-write_at size param grown fits, length_grown)) in
    let set : ltb 0 size ≡ true = ground (arith, bound, some_byte) in
    let reads : All (Reads b) ls = packed-Reads ls zeros within laid in
    let within_b : IsWithin (length b) ls =
      subst (λ n. IsWithin n ls) (sym length_b) (total_size_bounds ls small) in
    (
      built ls,
      expanded (built ls) param total,
      create-built ls some_slot,
      expand_args-expanded (built ls) param total refl length_b some_byte some_param,
      rw (full, set) refl,
      Reads-write_at ls size param grown fits
          (clear_before ls total size (length param) bound (total_size_bounds ls small))
          (Reads-append ls b more within_b reads),
      take-drop-write_at size param grown fits,
    )
