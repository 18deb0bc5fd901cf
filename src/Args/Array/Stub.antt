-- ===== src/Args/Array/Stub.antt =====
-- ExpandArgs of csrc/runtime/inject_helpers/ArgsArrayContext.cpp when the stub was put into the kernel
-- by the compiler: the kernel then has one parameter more than the array of pointers.
use msopcom.Prelude.{
  Apart, ℕ, suc, ◌+◌, ◌-◌, ◌%◌, ◌≤◌, ◌<◌, ◌≡◌, refl, sym, ap, ap₂, subst, ◌∙◌, arith, max, true,
  false, some, List, [], ◌∷◌, ◌++◌, map, append-nil, nat_beq, ltb, length, replicate, is_empty, All,
  length-append, length-replicate, get_elem?, value_or,
}
use msopcom.Wire.{Bytes}
use msopcom.Args.Array.{
  ArgsArrayContext, sum_of, total_size_of, write_at, pack, rebuild_args_array, create,
  set_last_param, expand_args,
}
use msopcom.Args.Array.Packing.{
  Slots, offsets, sizes, pointers, Reads, IsLaid, IsWithin, size_max, IsWithin-le, packed,
  pack-packed, length-packed, packed-Reads, Reads-write_at, length-write_at, take-drop-write_at,
}
use msopcom.Args.Array.Expansion.{nat_beq_refl, length-offsets, length-sizes, is_empty-length}

-- The kernel's offsets and sizes: those of the arguments, and the last slot's.
abbrev pub all_offsets : Slots → ℕ → List ℕ
all_offsets ls o = offsets ls ++ (o ∷ [])

abbrev pub all_sizes : Slots → ℕ → List ℕ
all_sizes ls room = sizes ls ++ (room ∷ [])

abbrev total : Slots → ℕ → ℕ → ℕ
total ls o room = total_size_of (all_offsets ls o) (all_sizes ls room)

total_bounds :
    (ls : Slots) (o room : ℕ)
    → IsWithin size_max ls
    → o + room ≤ size_max
    → IsWithin (total ls o room) ls × (o + room ≤ total ls o room)
unfolding total_size_of
total_bounds [] o room small last = (tt, omega arith)
total_bounds ((a, p) ∷ ls) o room small last =
    let rest = total ls o room in
    let ih = total_bounds ls o room small.1 last in
    (
      (
        omega (arith, small.0),
        IsWithin-le ls rest (max (sum_of a (length p)) rest) (omega arith) ih.0,
      ),
      omega (arith, ih.1),
    )

get_elem?-last : (ls : Slots) (o : ℕ) → get_elem? (all_offsets ls o) (length ls) ≡ some o
get_elem?-last [] o = refl
get_elem?-last (t ∷ ls) o = get_elem?-last ls o

-- The context of the arguments `ls`, whose last slot is still empty.
abbrev stub : Slots → ℕ → ℕ → ArgsArrayContext
stub ls o room = rebuild_args_array (record {
  param_offsets = all_offsets ls o;
  param_sizes = all_sizes ls room;
  param_count = suc (length ls);
  is_static_stub = true;
  packed_args = packed ls (replicate (total ls o room) 0);
  mem_info_offset = 0;
  args_array = [];
})

create-stub :
    (ls : Slots) (o room : ℕ)
    → create (some (pointers ls)) (suc (length ls)) (all_offsets ls o) (all_sizes ls room) true
      ≡ some (stub ls o room)
unfolding create
create-stub ls o room =
    let count = suc (length ls) in
    let zeros : Bytes = replicate (total ls o room) 0 in
    let one_less : suc (length ls) - 1 ≡ length ls = omega arith in
    let filled : pack (suc (length ls) - 1) (all_offsets ls o) (all_sizes ls room) (pointers ls)
          zeros
        ≡ some (packed ls zeros) =
      ap₂ (λ n args. pack n (all_offsets ls o) (all_sizes ls room) args zeros) one_less
        (sym (append-nil (pointers ls)))
      ∙ pack-packed ls (o ∷ []) (room ∷ []) [] zeros in
    let long_os : length (all_offsets ls o) ≡ count =
      omega (arith, length-append (offsets ls) (o ∷ []), length-offsets ls) in
    let long_ns : length (all_sizes ls room) ≡ count =
      omega (arith, length-append (sizes ls) (room ∷ []), length-sizes ls) in
    let positive : nat_beq (suc (length ls)) 0 ≡ false = ground arith in
    let os : nat_beq (length (all_offsets ls o)) count ≡ true =
      ap (λ n. nat_beq n count) long_os ∙ nat_beq_refl count in
    let ns : nat_beq (length (all_sizes ls room)) count ≡ true =
      ap (λ n. nat_beq n count) long_ns ∙ nat_beq_refl count in
    rw (positive, os, ns, filled) refl

-- The array has one pointer less than the kernel has parameters, they do not overlap, and
-- each of them, the last slot as well, ends below 2 ^ 63. Then
-- Create packs the arguments, and ExpandArgs puts a parameter that fits into the last slot there:
-- every argument is still read at its offset, the new one at the last offset, which is the one that
-- is stored (when below 2 ^ 32), and the pointers are those of the kernel's parameters.
pub expand_args-create_stub :
    (ls : Slots) (o room : ℕ) (param : Bytes)
    → IsLaid ls
    → All (λ t. Apart o (length param) t.0 (length t.1)) ls
    → IsWithin size_max ls
    → o + room ≤ size_max
    → 0 < length param
    → length param ≤ room
    → (c d : ArgsArrayContext) × (create
          (some (pointers ls))
          (suc (length ls))
          (all_offsets ls o)
          (all_sizes ls room)
          true
        ≡ some c)
      × (expand_args (some param) c ≡ (true, d, some (o % 4294967296)))
      × (d.args_array ≡ map some (all_offsets ls o))
      × All (Reads d.packed_args) ls
      × Reads d.packed_args (o, param)
unfolding expand_args set_last_param rebuild_args_array
expand_args-create_stub ls o room param laid apart ends end some_param small =
    let n = total ls o room in
    let zeros : Bytes = replicate n 0 in
    let b = packed ls zeros in
    let bounds = total_bounds ls o room ends end in
    let long : length zeros ≡ n = length-replicate {A = ℕ} n 0 in
    let within : IsWithin (length zeros) ls = subst (λ k. IsWithin k ls) (sym long) bounds.0 in
    let length_b : length b ≡ n = length-packed ls zeros within ∙ long in
    let fits : o + length param ≤ length b = omega (arith, length_b, bounds) in
    let new = write_at o param b in
    let full_b : is_empty b ≡ false = is_empty-length b (omega (arith, fits)) in
    let full : is_empty new ≡ false =
      is_empty-length new (omega (arith, length-write_at o param b fits, fits)) in
    let given : is_empty param ≡ false = is_empty-length param some_param in
    let one_less : suc (length ls) - 1 ≡ length ls = omega arith in
    let last : value_or 0 (get_elem? (all_offsets ls o) (suc (length ls) - 1)) ≡ o =
      ap (λ k. value_or 0 (get_elem? (all_offsets ls o) k)) one_less
      ∙ ap (value_or 0) (get_elem?-last ls o) in
    let room_left : ltb (length b) (sum_of o (length param)) ≡ false =
      ground (arith, fits, end, small) in
    let d : ArgsArrayContext =
      rebuild_args_array (record (stub ls o room) { packed_args = new; mem_info_offset = o }) in
    (
      stub ls o room,
      d,
      create-stub ls o room,
      rw (full_b, given, last, room_left) refl,
      rw full refl,
      Reads-write_at ls o param b fits apart (packed-Reads ls zeros within laid),
      take-drop-write_at o param b fits,
    )
