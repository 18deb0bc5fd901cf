-- ===== src/MetaData/Args.antt =====
-- The loop of `ParseKernelArgs` in csrc/runtime/inject_helpers/KernelMetaDataParser.cpp against its
-- fuel: how the index moves from turn to turn.
use msopcom.Prelude.{
  ℕ, zero, suc, ◌+◌, ◌*◌, ◌≤◌, ◌<◌, ◌≡◌, sym, subst, inl, inr, arith, false, ◌&&◌, Option, none,
  some, ltb, length, Bool-cases,
}
use msopcom.Wire.{Bytes}
use msopcom.MetaData.{
  u32, little, OpMemInfo, Turn, stop, again, turn_overread, args_turn, args_loop, parse_kernel_args,
  Outcome, done, overread, no_fuel,
}
use msopcom.MetaData.Turns.{IsBytes, Moves, args_turn-Moves}

-- The loop's outcome: it is not out of fuel, and its index has not moved back.
abbrev pub IsEnded : ℕ → Outcome (ℕ × OpMemInfo) → Type 0
IsEnded index (done r) = (index ≤ r.0) × (r.0 < 2149000000)
IsEnded index overread = Unit
IsEnded index no_fuel = ⊥

args_turn_out :
    (soc : Bytes) (size : ℕ) (m : Bytes) (range index params : ℕ) (info : OpMemInfo)
    → index < 2149000000
    → length m ≤ index
    → args_turn soc size m range index params info ≡ stop index info
unfolding args_turn
args_turn_out soc size m range index params info low out =
    let past : (ltb index range && ltb (u32 (index + 7)) (length m)) ≡ false =
      ground (arith, low, out) in
    rw (args_turn, past)

IsEnded-trans : (i j : ℕ) (o : Outcome (ℕ × OpMemInfo)) → i ≤ j → IsEnded j o → IsEnded i o
IsEnded-trans i j (done r) far (on, below) = (omega (arith, far, on), below)
IsEnded-trans i j overread far ended = tt
IsEnded-trans i j no_fuel far ended = ended

-- A turn that moves on, and then a rest that ends whenever the turn goes on.
IsEnded-turn :
    (index : ℕ) (t : Turn) (rest : ℕ → ℕ → OpMemInfo → Outcome (ℕ × OpMemInfo))
    → Moves index t
    → ((i p : ℕ) (out : OpMemInfo) → index + 4 ≤ i → i < 2149000000 → IsEnded i (rest i p out))
    → IsEnded index (elim t [
      | stop i out ↦ done (i, out)
      | again i p out ↦ rest i p out
      | turn_overread ↦ overread
    ])
IsEnded-turn index (stop i out) rest moves ends = moves
IsEnded-turn index (again i p out) rest (on, below) ends =
    IsEnded-trans index i (rest i p out) (omega (arith, on)) (ends i p out on below)
IsEnded-turn index turn_overread rest moves ends = tt

-- Wherever the index is: inside the section a turn moves on, and behind it the loop stops.
args_turn-Moves_any :
    (soc : Bytes) (size : ℕ) (m : Bytes) (range index params : ℕ) (info : OpMemInfo)
    → IsBytes m
    → length m < 2147483648
    → index < 2149000000
    → Moves index (args_turn soc size m range index params info)
args_turn-Moves_any soc size m range index params info bytes short low =
    elim (Bool-cases (ltb index (length m))) [
      | inl inside ↦
          args_turn-Moves soc size m range index params info bytes (ground (arith, short, inside))
      | inr outside ↦
          subst (Moves index)
            (sym (args_turn_out soc size m range index params info low (ground (arith, outside))))
            (omega arith, low)
    ]

args_loop-IsEnded :
    (fuel : ℕ) (soc : Bytes) (size : ℕ) (m : Bytes) (range index params : ℕ) (info : OpMemInfo)
    → IsBytes m
    → length m < 2147483648
    → index < 2149000000
    → length m ≤ index + 4 * fuel
    → IsEnded index (args_loop (suc fuel) soc size m range index params info)
unfolding args_loop
args_loop-IsEnded zero soc size m range index params info bytes short low enough =
    subst
      (λ t. IsEnded index (elim t [
        | stop i out ↦ done (i, out)
        | again i p out ↦ args_loop zero soc size m range i p out
        | turn_overread ↦ overread
      ]))
      (sym (args_turn_out soc size m range index params info low (omega (arith, enough))))
      (omega arith, low)
args_loop-IsEnded (suc fuel) soc size m range index params info bytes short low enough =
    IsEnded-turn index (args_turn soc size m range index params info)
      (args_loop (suc fuel) soc size m range)
      (args_turn-Moves_any soc size m range index params info bytes short low)
      (λ i p out on below.
        args_loop-IsEnded fuel soc size m range i p out bytes short below
          (omega (arith, on, enough)))

IsEnded-read :
    (index : ℕ) (o : Option ℕ) (rest : ℕ → Outcome (ℕ × OpMemInfo))
    → ((n : ℕ) → IsEnded index (rest n))
    → IsEnded index (elim o [ none ↦ overread | some n ↦ rest n ])
IsEnded-read index none rest ends = tt
IsEnded-read index (some n) rest ends = ends n

pub parse_kernel_args-IsEnded :
    (soc : Bytes) (size : ℕ) (m : Bytes) (index : ℕ) (info : OpMemInfo)
    → IsBytes m
    → length m < 2147483648
    → index < 2147483650
    → IsEnded index (parse_kernel_args soc size m index info)
unfolding parse_kernel_args
parse_kernel_args-IsEnded soc size m index info bytes short low =
    let start = u32 (index + 2) in
    let loop : ℕ → Outcome (ℕ × OpMemInfo) =
      λ dfx_len. args_loop (suc (length m)) soc size m (u32 (dfx_len + start)) start 0 info in
    IsEnded-read index (little m index) loop (λ dfx_len.
      IsEnded-trans index start (loop dfx_len) (omega (arith, low)) (
        args_loop-IsEnded (length m) soc size m (u32 (dfx_len + start)) start 0 info bytes short
          (omega (arith, low)) (omega arith)))
