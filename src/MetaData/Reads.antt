-- ===== src/MetaData/Reads.antt =====
-- What the loop of `ParseKernelArgs` in
-- csrc/runtime/inject_helpers/KernelMetaDataParser.cpp reads near the end of the section.
use msopcom.Prelude.{
  ℕ, zero, suc, ◌+◌, ◌≤◌, ◌<◌, ◌≡◌, ◌≢◌, refl, inl, inr, arith, true, false, ◌&&◌, [], ◌∷◌, none,
  some, nat_beq, ltb, length, get_elem?, Option-cases,
}
use msopcom.Wire.{Bytes}
use msopcom.MetaData.{u32, big, OpMemInfo, turn_overread, args_turn, counted, read_param}

get_elem?_behind : (m : Bytes) (i : ℕ) → length m ≤ i → get_elem? m i ≡ none
get_elem?_behind [] i behind = refl
get_elem?_behind (b ∷ m) zero behind = ground (arith, behind)
get_elem?_behind (b ∷ m) (suc i) behind = get_elem?_behind m i (omega (arith, behind))

big_behind : (m : Bytes) (i : ℕ) → length m ≤ i + 1 → big m i 2 0 ≡ none
unfolding big
big_behind m i behind = elim (Option-cases (get_elem? m i)) [
  | inl missing ↦ rw (big, missing)
  | inr (a, first) ↦ rw (big, first, get_elem?_behind m (suc i) (omega (arith, behind)))
]

read_param_behind :
    (soc : Bytes) (size : ℕ) (m : Bytes) (count index params : ℕ) (info : OpMemInfo)
    → length m ≤ index + 7
    → read_param soc size m count index params info ≡ turn_overread
unfolding read_param
read_param_behind soc size m count index params info behind =
    rw (read_param, big_behind m (index + 6) (omega (arith, behind)))

-- The loop's own test, that the index plus 7 lies in the section, does not cover what the turn
-- reads: in a section shorter than 2 ^ 31, a turn that the test lets in, at a parameter whose
-- count is not 0, reads behind the section when that has fewer than 12 bytes from the index on.
pub args_turn_overread :
    (soc : Bytes) (size : ℕ) (m : Bytes) (range index params count : ℕ) (info : OpMemInfo)
    → length m < 2147483648
    → index < range
    → index + 7 < length m
    → length m < index + 12
    → big m (index + 2) 2 0 ≡ some count
    → count ≢ 0
    → args_turn soc size m range index params info ≡ turn_overread
unfolding args_turn counted
args_turn_overread soc size m range index params count info short inside enough few read nonzero =
    let passed : (ltb index range && ltb (u32 (index + 7)) (length m)) ≡ true =
      ground (arith, short, inside, enough) in
    let some_words : nat_beq count 0 ≡ false = ground (arith, nonzero) in
    rw (args_turn, passed, read, counted, some_words)
      (read_param_behind soc size m count (u32 (index + 4)) params info
        (omega (arith, short, enough, few)))
