-- ===== src/MetaData/Ending.antt =====
-- The loop of `Parse` in csrc/runtime/inject_helpers/KernelMetaDataParser.cpp against its fuel: how
-- the index moves from record to record.
use msopcom.Prelude.{
  ℕ, zero, suc, ◌+◌, ◌-◌, ◌*◌, ◌≤◌, ◌<◌, ◌≡◌, ◌≢◌, refl, sym, subst, inl, inr, arith, Bool, true,
  false, not, [], ◌∷◌, Option, none, some, nat_beq, ltb, if◌then◌else◌, length, Bool-cases,
  is_empty,
}
use msopcom.Wire.{Bytes}
use msopcom.MetaData.{
  u32, little, OpMemInfo, parse_kernel_args, Record, parsed, next_record, after_args, skip_record,
  parse_type, record_overread, record_no_fuel, parse_record, parse_loop, parse, Outcome, done,
  overread, no_fuel, cleared,
}
use msopcom.MetaData.Turns.{IsBytes, little_two}
use msopcom.MetaData.Args.{IsEnded, parse_kernel_args-IsEnded}

-- How a turn of `Parse` moves the index on.
abbrev RecordMoves : ℕ → Record → Type 0
RecordMoves index (parsed result out) = Unit
RecordMoves index (next_record i out) = (index + 2 ≤ i) × (i < 2149000000)
RecordMoves index record_overread = Unit
RecordMoves index record_no_fuel = ⊥

RecordMoves-if :
    (index : ℕ) (b : Bool) (x y : Record)
    → RecordMoves index x
    → RecordMoves index y
    → RecordMoves index (if b then x else y)
RecordMoves-if index true x y mx my = mx
RecordMoves-if index false x y mx my = my

RecordMoves-read :
    (index : ℕ) (o : Option ℕ) (rest : ℕ → Record)
    → ((n : ℕ) → o ≡ some n → RecordMoves index (rest n))
    → RecordMoves index (elim o [ none ↦ record_overread | some n ↦ rest n ])
RecordMoves-read index none rest moves = tt
RecordMoves-read index (some n) rest moves = moves n refl

after_args-Moves :
    (index i : ℕ) (o : Outcome (ℕ × OpMemInfo))
    → index + 2 ≤ i
    → IsEnded i o
    → RecordMoves index (after_args o)
unfolding after_args
after_args-Moves index i (done r) far (on, below) =
    RecordMoves-if index (is_empty r.1.input_params_addr_infos) (parsed false r.1)
      (next_record r.0 r.1) tt (omega (arith, far, on), below)
after_args-Moves index i overread far ended = tt
after_args-Moves index i no_fuel far ended = ended

skip_record-Moves :
    (index : ℕ) (m : Bytes) (type i : ℕ) (info : OpMemInfo)
    → IsBytes m
    → index + 2 ≤ i
    → i < 2147483650
    → RecordMoves index (skip_record m type i info)
unfolding skip_record
skip_record-Moves index m type i info bytes far low =
    RecordMoves-read index (little m i)
      (λ len.
        next_record (u32 (i + (2 + len)))
          (if nat_beq type 6 then record info { is_tik = true } else info))
      (λ len e. (
        omega (arith, far, low, little_two m i len bytes e),
        omega (arith, low, little_two m i len bytes e),
      ))

parse_record-Moves :
    (soc : Bytes) (size : ℕ) (m : Bytes) (index : ℕ) (info : OpMemInfo)
    → IsBytes m
    → length m < 2147483648
    → index < length m
    → RecordMoves index (parse_record soc size m index info)
unfolding parse_record parse_type
parse_record-Moves soc size m index info bytes short inside =
    let i = u32 (index + 2) in
    let far : index + 2 ≤ i = omega (arith, short, inside) in
    let low : i < 2147483650 = omega (arith, short, inside) in
    let args : ℕ → Record = λ type.
      if nat_beq type 4
      then after_args (parse_kernel_args soc size m i info)
      else skip_record m type i info in
    RecordMoves-if index (not (ltb index (length m - 1))) (parsed true info)
      (elim (little m index) [
        | none ↦ record_overread
        | some type ↦ parse_type soc size m i info type
      ])
      tt
      (RecordMoves-read index (little m index) (parse_type soc size m i info) (λ type e.
        RecordMoves-if index (ltb (length m) (u32 (i + 2))) (parsed false info) (args type) tt (
          RecordMoves-if index (nat_beq type 4) (after_args (parse_kernel_args soc size m i info))
            (skip_record m type i info)
            (after_args-Moves index i (parse_kernel_args soc size m i info) far
              (parse_kernel_args-IsEnded soc size m i info bytes short low))
            (skip_record-Moves index m type i info bytes far low))))

-- The outcome is the code's own.
abbrev IsDecided : Outcome (Bool × OpMemInfo) → Type 0
IsDecided (done a) = Unit
IsDecided overread = Unit
IsDecided no_fuel = ⊥

IsDecided-record :
    (index : ℕ) (r : Record) (rest : ℕ → OpMemInfo → Outcome (Bool × OpMemInfo))
    → RecordMoves index r
    → ((i : ℕ) (out : OpMemInfo) → index + 2 ≤ i → i < 2149000000 → IsDecided (rest i out))
    → IsDecided (elim r [
      | parsed result out ↦ done (result, out)
      | next_record i out ↦ rest i out
      | record_overread ↦ overread
      | record_no_fuel ↦ no_fuel
    ])
IsDecided-record index (parsed result out) rest moves ends = tt
IsDecided-record index (next_record i out) rest (on, below) ends = ends i out on below
IsDecided-record index record_overread rest moves ends = tt
IsDecided-record index record_no_fuel rest moves ends = moves

parse_record_out :
    (soc : Bytes) (size : ℕ) (m : Bytes) (index : ℕ) (info : OpMemInfo)
    → length m ≤ index + 1
    → parse_record soc size m index info ≡ parsed true info
unfolding parse_record
parse_record_out soc size m index info out =
    let past : ltb index (length m - 1) ≡ false = ground (arith, out) in rw (parse_record, past)

parse_record-Moves_any :
    (soc : Bytes) (size : ℕ) (m : Bytes) (index : ℕ) (info : OpMemInfo)
    → IsBytes m
    → length m < 2147483648
    → RecordMoves index (parse_record soc size m index info)
parse_record-Moves_any soc size m index info bytes short =
    elim (Bool-cases (ltb index (length m))) [
      | inl inside ↦ parse_record-Moves soc size m index info bytes short (ground (arith, inside))
      | inr outside ↦
          subst (RecordMoves index)
            (sym (parse_record_out soc size m index info (ground (arith, outside)))) tt
    ]

parse_loop-IsDecided :
    (fuel : ℕ) (soc : Bytes) (size : ℕ) (m : Bytes) (index : ℕ) (info : OpMemInfo)
    → IsBytes m
    → length m < 2147483648
    → length m ≤ index + 2 * fuel + 1
    → IsDecided (parse_loop (suc fuel) soc size m index info)
unfolding parse_loop
parse_loop-IsDecided zero soc size m index info bytes short enough =
    subst
      (λ r. IsDecided (elim r [
        | parsed result out ↦ done (result, out)
        | next_record i out ↦ parse_loop zero soc size m i out
        | record_overread ↦ overread
        | record_no_fuel ↦ no_fuel
      ]))
      (sym (parse_record_out soc size m index info (omega (arith, enough)))) tt
parse_loop-IsDecided (suc fuel) soc size m index info bytes short enough =
    IsDecided-record index (parse_record soc size m index info) (parse_loop (suc fuel) soc size m)
      (parse_record-Moves_any soc size m index info bytes short)
      (λ i out on below.
        parse_loop-IsDecided fuel soc size m i out bytes short (omega (arith, on, enough)))

not_zero : (n : ℕ) → nat_beq (suc n) 0 ≡ false
not_zero n = ground arith

parse-IsDecided :
    (soc : Bytes) (size : ℕ) (m : Bytes)
    → IsBytes m
    → length m < 2147483648
    → IsDecided (parse soc size m)
unfolding parse
parse-IsDecided soc size [] bytes short = tt
parse-IsDecided soc size (b ∷ m) bytes short =
    let whole = parse_loop (suc (length m)) soc size (b ∷ m) 0 cleared in
    subst (λ x. IsDecided (if x then done (false, cleared) else whole)) (sym (not_zero (length m)))
      (parse_loop-IsDecided (length m) soc size (b ∷ m) 0 cleared bytes short (omega arith))

-- On a section of bytes, shorter than 2 ^ 31, `Parse` comes to an end: neither of its loops runs
-- out of the fuel that the section's length gives.
pub parse_ends :
    (soc : Bytes) (size : ℕ) (m : Bytes)
    → IsBytes m
    → length m < 2147483648
    → parse soc size m ≢ no_fuel
parse_ends soc size m bytes short stuck =
    subst IsDecided stuck (parse-IsDecided soc size m bytes short)
