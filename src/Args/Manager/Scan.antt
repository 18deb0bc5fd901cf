-- ===== src/Args/Manager/Scan.antt =====
-- The search for an atomic index of csrc/runtime/inject_helpers/ArgsManager.cpp, which counts magic
-- bytes as it goes, against a search that looks at each position by itself.
use msopcom.Prelude.{
  ℕ, zero, suc, ◌+◌, ◌-◌, ◌≡◌, inl, inr, refl, sym, ap, ap₂, ◌∙◌, arith, Bool, true, false, not,
  ◌&&◌, ◌||◌, Option, none, nat_beq, ltb, if◌then◌else◌, take, drop, Bool-cases,
}
use msopcom.Wire.{Bytes, from_bytes}
use msopcom.Args.Manager.{
  AdumpInfo, index_at, is_magic, counted, or_else, scan, get_adump_info_from_tiling_data,
}

-- An index at position `a`: the four bytes after the first four are all magic.
abbrev pub is_index : Bytes → ℕ → Bool
is_index b a = is_magic b (a + 4) && is_magic b (a + 5) && is_magic b (a + 6) && is_magic b (a + 7)

module _ (get : ℕ → Option AdumpInfo) where
  -- The record of the first position, among `n` from `a` on, whose index has one.
  pub search_index : Bytes → ℕ → ℕ → Option AdumpInfo
  search_index b zero a = none
  search_index b (suc n) a =
      let rest = search_index b n (a + 1) in
      if is_index b a then or_else (get (index_at b a)) rest else rest

-- The length of the run of magic bytes that ends a window of three.
unfoldable run_of : Bool → Bool → Bool → ℕ
run_of w x true = if x then if w then 3 else 2 else 1
run_of w x false = 0

abbrev run : Bytes → ℕ → ℕ
run b a = run_of (is_magic b (a + 4)) (is_magic b (a + 5)) (is_magic b (a + 6))

-- The counter after one round, behind the seventh byte.
abbrev settled : ℕ → ℕ
settled c = if not (nat_beq c 4) then c else c - 1

counted-run_of :
    (w x y z : Bool)
    → let c = counted z (run_of w x y) in
      (not (nat_beq c 4) ≡ not (w && x && y && z)) × (settled c ≡ run_of x y z)
unfolding counted run_of
counted-run_of true true true true = (refl, refl)
counted-run_of false true true true = (refl, refl)
counted-run_of true false true true = (refl, refl)
counted-run_of false false true true = (refl, refl)
counted-run_of w x false true = ground arith
counted-run_of w x y false = ground arith

run-suc :
    (b : Bytes) (a : ℕ)
    → run_of (is_magic b (a + 5)) (is_magic b (a + 6)) (is_magic b (a + 7)) ≡ run b (a + 1)
run-suc b a =
    let five : a + 5 ≡ a + 1 + 4 = omega arith in
    let six : a + 6 ≡ a + 1 + 5 = omega arith in
    let seven : a + 7 ≡ a + 1 + 6 = omega arith in rw (five, six, seven) refl

counted_thrice : (w x y : Bool) → counted y (counted x (counted w 0)) ≡ run_of w x y
unfolding counted run_of
counted_thrice true true true = refl
counted_thrice false true true = refl
counted_thrice true false true = refl
counted_thrice false false true = refl
counted_thrice w x false = refl

module _ (get : ℕ → Option AdumpInfo) where
  scan-none : (b : Bytes) (i count : ℕ) → scan get b 0 i count ≡ none
  unfolding scan
  scan-none b i count = refl

  scan-search_index :
      (b : Bytes) (n a : ℕ) → scan get b n (a + 7) (run b a) ≡ search_index get b n a
  unfolding scan search_index
  scan-search_index b zero a = refl
  scan-search_index b (suc n) a =
      let round =
        counted-run_of (is_magic b (a + 4)) (is_magic b (a + 5)) (is_magic b (a + 6))
          (is_magic b (a + 7)) in
      let c = counted (is_magic b (a + 7)) (run b a) in
      let late : ltb (a + 7) 7 ≡ false = ground arith in
      let back : a + 7 - 7 ≡ a = omega arith in
      let further : a + 7 + 1 ≡ a + 1 + 7 = omega arith in
      let ih : scan get b n (a + 7 + 1) (settled c) ≡ search_index get b n (a + 1) =
        ap₂ (scan get b n) further (round.1 ∙ run-suc b a) ∙ scan-search_index b n (a + 1) in
      let later = search_index get b n (a + 1) in
      -- The round, by its two tests.
      let turn = λ (p q : Bool).
        let rest = scan get b n (a + 7 + 1) (if p || q then c else c - 1) in
        if p || q then rest else or_else (get (index_at b (a + 7 - 7))) rest in
      elim (Bool-cases (is_index b a)) [
        | inl hit ↦
            let four : not (nat_beq c 4) ≡ false = round.0 ∙ ap not hit in
            let rest : scan get b n (a + 7 + 1) (c - 1) ≡ later =
              ap (λ p. scan get b n (a + 7 + 1) (if p then c else c - 1)) (sym four) ∙ ih in
            ap₂ turn four late
            ∙ ap₂ (λ i r. or_else (get (index_at b i)) r) back rest
            ∙ ap (λ p. if p then or_else (get (index_at b a)) later else later) (sym hit)
        | inr miss ↦
            let other : not (nat_beq c 4) ≡ true = round.0 ∙ ap not miss in
            let rest : scan get b n (a + 7 + 1) c ≡ later =
              ap (λ p. scan get b n (a + 7 + 1) (if p then c else c - 1)) (sym other) ∙ ih in
            ap₂ turn other late
            ∙ rest
            ∙ ap (λ p. if p then or_else (get (index_at b a)) later else later) (sym miss)
      ]

  -- A round before the seventh byte only counts.
  scan_early :
      (b : Bytes) (n i count : ℕ)
      → ltb i 7 ≡ true
      → scan get b (suc n) i count ≡ scan get b n (i + 1) (counted (is_magic b i) count)
  unfolding scan
  scan_early b n i count early =
      let c = counted (is_magic b i) count in
      let passed : (not (nat_beq c 4) || ltb i 7) ≡ true = ground (arith, early) in
      ap
        (λ p.
          let rest = scan get b n (i + 1) (if p then c else c - 1) in
          if p then rest else or_else (get (index_at b (i - 7))) rest)
        passed

  scan_from_four : (b : Bytes) (n : ℕ) → scan get b n 4 0 ≡ search_index get b (n - 3) 0
  unfolding search_index
  scan_from_four b zero = scan-none b 4 0
  scan_from_four b (suc zero) = scan_early b 0 4 0 refl ∙ scan-none b 5 (counted (is_magic b 4) 0)
  scan_from_four b (suc (suc zero)) =
      let one = counted (is_magic b 4) 0 in
      scan_early b 1 4 0 refl
      ∙ scan_early b 0 5 one refl
      ∙ scan-none b 6 (counted (is_magic b 5) one)
  scan_from_four b (suc (suc (suc n))) =
      let one = counted (is_magic b 4) 0 in
      let two = counted (is_magic b 5) one in
      let left : suc (suc (suc n)) - 3 ≡ n = omega arith in
      scan_early b (suc (suc n)) 4 0 refl
      ∙ scan_early b (suc n) 5 one refl
      ∙ scan_early b n 6 two refl
      ∙ ap (scan get b n 7) (counted_thrice (is_magic b 4) (is_magic b 5) (is_magic b 6))
      ∙ scan-search_index b n 0
      ∙ ap (λ k. search_index get b k 0) (sym left)

  -- GetAdumpInfoFromTilingData answers nothing when the operator is not of TIK and the size is below 8. Otherwise it
  -- answers the record of the last eight bytes' index, unless the operator is of TIK, and when
  -- there is none the record of the first position whose index has one, where an index is four
  -- bytes followed by four magic ones, all within the size: the running counter misses no position and
  -- finds no other, also where more than four magic bytes follow each other.
  pub get_adump_info_from_tiling_data-search_index :
      (is_tik : Bool) (size : ℕ) (b : Bytes)
      → get_adump_info_from_tiling_data get is_tik size b ≡ (
          if not is_tik && ltb size 8
          then none
          else or_else
              (if is_tik then none else get (from_bytes (take 8 (drop (size - 8) b))))
              (search_index get b (size - 7) 0))
  unfolding get_adump_info_from_tiling_data
  get_adump_info_from_tiling_data-search_index is_tik size b =
      let left : size - 4 - 3 ≡ size - 7 = omega arith in
      ap
        (λ r.
          if not is_tik && ltb size 8
          then none
          else or_else (if is_tik then none else get (from_bytes (take 8 (drop (size - 8) b)))) r)
        (scan_from_four b (size - 4) ∙ ap (λ k. search_index get b k 0) left)
