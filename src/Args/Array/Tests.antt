-- ===== src/Args/Array/Tests.antt =====
-- The laws of csrc/runtime/inject_helpers/ArgsArrayContext.cpp at concrete arguments.
use msopcom.Prelude.{◌%◌, ◌≡◌, inr, arith, true, false, some, [], ◌∷◌, ◌++◌, map, length, All}
use msopcom.Args.Array.{ArgsArrayContext, total_size_of, create, aligned_size, expand_args}
use msopcom.Args.Array.Packing.{Slots, offsets, sizes, pointers, Reads}
use msopcom.Args.Array.Expansion.{expand_args-create}
use msopcom.Args.Array.Stub.{all_offsets, all_sizes, expand_args-create_stub}

-- Two parameters, of 2 bytes at 0 and of 3 at 4.
abbrev two : Slots
two = (0, 1 ∷ 2 ∷ []) ∷ (4, 3 ∷ 4 ∷ 5 ∷ []) ∷ []

expand_args-create_example :
    let size = aligned_size (total_size_of (offsets two) (sizes two)) in
    (c d : ArgsArrayContext) × (create
        (some (pointers two))
        (length two)
        (offsets two)
        (sizes two)
        false
      ≡ some c)
    × (expand_args (some (9 ∷ [])) c ≡ (true, d, some (size % 4294967296)))
    × (d.args_array ≡ map some (offsets two) ++ (some size ∷ []))
    × All (Reads d.packed_args) two
    × Reads d.packed_args (size, 9 ∷ [])
unfolding total_size_of
expand_args-create_example =
    expand_args-create two (9 ∷ []) ((inr (omega arith), tt), (tt, tt))
      (omega arith, (omega arith, tt)) (omega arith) (omega arith) (omega arith) (omega arith)

expand_args-create_stub_example :
    (c d : ArgsArrayContext) × (create
        (some (pointers two))
        3
        (all_offsets two 8)
        (all_sizes two 8)
        true
      ≡ some c)
    × (expand_args (some (9 ∷ [])) c ≡ (true, d, some (8 % 4294967296)))
    × (d.args_array ≡ map some (all_offsets two 8))
    × All (Reads d.packed_args) two
    × Reads d.packed_args (8, 9 ∷ [])
expand_args-create_stub_example =
    expand_args-create_stub two 8 8 (9 ∷ []) ((inr (omega arith), tt), (tt, tt))
      (inr (omega arith), (inr (omega arith), tt)) (omega arith, (omega arith, tt)) (omega arith)
      (omega arith) (omega arith)
