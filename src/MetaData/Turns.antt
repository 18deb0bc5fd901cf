-- ===== src/MetaData/Turns.antt =====
-- One turn of the loop of `ParseKernelArgs` in
-- csrc/runtime/inject_helpers/KernelMetaDataParser.cpp, and how far it moves the index.
use msopcom.Prelude.{
  ℕ, zero, suc, ◌+◌, ◌-◌, ◌*◌, ◌≤◌, ◌<◌, ◌≡◌, refl, inl, inr, arith, Bool, true, false, not, ◌&&◌,
  [], ◌∷◌, Option, none, some, nat_beq, ltb, if◌then◌else◌, length, get_elem?, All, Option-cases,
}
use msopcom.Wire.{Bytes}
use msopcom.MetaData.{
  u32, little, big, OpMemInfo, Turn, stop, again, turn_overread, Handler, handle_param, run_handler,
  read_param, read_point, find_handler, check_point, counted, args_turn, dfx_parser,
  is_support_dfx_point_ptr, cleared,
}

-- The values of the section are bytes.
abbrev pub IsBytes : Bytes → Type 0
IsBytes m = All (λ b. b < 256) m

byte_at : (m : Bytes) (i a : ℕ) → IsBytes m → get_elem? m i ≡ some a → a < 256
byte_at [] i a bytes e = ground (arith, e)
byte_at (b ∷ m) zero a (low, bytes) e = ground (arith, low, e)
byte_at (b ∷ m) (suc i) a (low, bytes) e = byte_at m i a bytes e

big_two : (m : Bytes) (i n : ℕ) → IsBytes m → big m i 2 0 ≡ some n → n < 65536
unfolding big
big_two m i n bytes e = elim (Option-cases (get_elem? m i)) [
  | inl missing ↦ ground (arith, missing, e)
  | inr (a, first) ↦ elim (Option-cases (get_elem? m (suc i))) [
    | inl missing ↦ ground (arith, first, missing, e)
    | inr (b, second) ↦
        ground
          (arith, first, second, e, byte_at m i a bytes first, byte_at m (suc i) b bytes second)
  ]
]

pub little_two : (m : Bytes) (i n : ℕ) → IsBytes m → little m i ≡ some n → n < 65536
unfolding little
little_two m i n bytes e = elim (Option-cases (get_elem? m i)) [
  | inl missing ↦ ground (arith, missing, e)
  | inr (a, first) ↦ elim (Option-cases (get_elem? m (suc i))) [
    | inl missing ↦ ground (arith, first, missing, e)
    | inr (b, second) ↦
        ground
          (arith, first, second, e, byte_at m i a bytes first, byte_at m (suc i) b bytes second)
  ]
]

-- How far a turn of `ParseKernelArgs` moves the index on.
abbrev pub Moves : ℕ → Turn → Type 0
Moves index (stop i out) = (index ≤ i) × (i < 2149000000)
Moves index (again i p out) = (index + 4 ≤ i) × (i < 2149000000)
Moves index turn_overread = Unit

Moves-again :
    (index i p : ℕ) (o : Option OpMemInfo)
    → (index + 4 ≤ i) × (i < 2149000000)
    → Moves index (elim o [ none ↦ turn_overread | some j ↦ again i p j ])
Moves-again index i p none far = tt
Moves-again index i p (some j) far = far

Moves-twice :
    (index i p : ℕ) (noted : Option OpMemInfo) (f : OpMemInfo → Option OpMemInfo)
    → (index + 4 ≤ i) × (i < 2149000000)
    → Moves index (elim noted [
      | none ↦ turn_overread
      | some x ↦ elim (f x) [ none ↦ turn_overread | some j ↦ again i p j ]
    ])
Moves-twice index i p none f far = tt
Moves-twice index i p (some x) f far = Moves-again index i p (f x) far

handle_param-Moves :
    (soc : Bytes) (size : ℕ) (m : Bytes) (h : Handler) (point_type count index params : ℕ)
    (info : OpMemInfo)
    → index < 2147483652
    → count < 65536
    → Moves index (handle_param soc size m h point_type count index params info)
unfolding handle_param
handle_param-Moves soc size m h point_type count index params info low few =
    Moves-twice index (u32 (u32 (index + 8) + (count - 1) * 8)) (suc params) _
      (run_handler soc size m h (u32 (index + 8)) (suc params))
      (omega (arith, low, few), omega (arith, low, few))

-- A read that fails ends the turn; the rest depends on what was read.
Moves-read :
    (index : ℕ) (o : Option ℕ) (next : ℕ → Turn)
    → ((n : ℕ) → o ≡ some n → Moves index (next n))
    → Moves index (elim o [ none ↦ turn_overread | some n ↦ next n ])
Moves-read index none next moves = tt
Moves-read index (some n) next moves = moves n refl

Moves-handler :
    (index i : ℕ) (info : OpMemInfo) (o : Option Handler) (next : Handler → Turn)
    → (index ≤ i) × (i < 2149000000)
    → ((h : Handler) → Moves index (next h))
    → Moves index (elim o [ none ↦ stop i info | some h ↦ next h ])
Moves-handler index i info none next far moves = far
Moves-handler index i info (some h) next far moves = moves h

Moves-if :
    (index : ℕ) (b : Bool) (x y : Turn)
    → Moves index x
    → Moves index y
    → Moves index (if b then x else y)
Moves-if index true x y mx my = mx
Moves-if index false x y mx my = my

check_point-Moves :
    (soc : Bytes) (size : ℕ) (m : Bytes) (h : Handler) (point_type count index params : ℕ)
    (info : OpMemInfo)
    → index < 2147483652
    → count < 65536
    → Moves index (check_point soc size m h point_type count index params info)
unfolding check_point
check_point-Moves soc size m h point_type count index params info low few =
    Moves-if index (not (is_support_dfx_point_ptr point_type)) (stop index cleared)
      (handle_param soc size m h point_type count index params info)
      (omega arith, omega (arith, low))
      (handle_param-Moves soc size m h point_type count index params info low few)

find_handler-Moves :
    (soc : Bytes) (size : ℕ) (m : Bytes) (type count index params : ℕ) (info : OpMemInfo)
    (point_type : ℕ)
    → index < 2147483652
    → count < 65536
    → Moves index (find_handler soc size m type count index params info point_type)
unfolding find_handler
find_handler-Moves soc size m type count index params info point_type low few =
    Moves-handler index (u32 (index + count * 8)) info (dfx_parser type)
      (λ h. check_point soc size m h point_type count index params info)
      (omega (arith, low, few), omega (arith, low, few))
      (λ h. check_point-Moves soc size m h point_type count index params info low few)

read_param-Moves :
    (soc : Bytes) (size : ℕ) (m : Bytes) (count index params : ℕ) (info : OpMemInfo)
    → index < 2147483652
    → count < 65536
    → Moves index (read_param soc size m count index params info)
unfolding read_param read_point
read_param-Moves soc size m count index params info low few =
    Moves-read index (big m (index + 6) 2 0) (read_point soc size m count index params info)
      (λ type _.
        Moves-read index (big m (index + 4) 2 0)
          (find_handler soc size m type count index params info)
          (λ point_type _.
            find_handler-Moves soc size m type count index params info point_type low few))

Moves-trans : (i j : ℕ) (t : Turn) → i + 4 ≤ j → Moves j t → Moves i t
Moves-trans i j (stop k out) far (on, below) = (omega (arith, far, on), below)
Moves-trans i j (again k p out) far (on, below) = (omega (arith, far, on), below)
Moves-trans i j turn_overread far moves = tt

counted-Moves :
    (soc : Bytes) (size : ℕ) (m : Bytes) (index params : ℕ) (info : OpMemInfo) (count : ℕ)
    → index < 2147483648
    → count < 65536
    → Moves index (counted soc size m index params info count)
unfolding counted
counted-Moves soc size m index params info count low few =
    Moves-if index (nat_beq count 0) (again (u32 (index + 4)) params info)
      (read_param soc size m count (u32 (index + 4)) params info)
      (omega (arith, low), omega (arith, low))
      (Moves-trans index (u32 (index + 4))
        (read_param soc size m count (u32 (index + 4)) params info) (omega (arith, low))
        (read_param-Moves soc size m count (u32 (index + 4)) params info (omega (arith, low)) few))

pub args_turn-Moves :
    (soc : Bytes) (size : ℕ) (m : Bytes) (range index params : ℕ) (info : OpMemInfo)
    → IsBytes m
    → index < 2147483648
    → Moves index (args_turn soc size m range index params info)
unfolding args_turn
args_turn-Moves soc size m range index params info bytes low =
    Moves-if index (not (ltb index range && ltb (u32 (index + 7)) (length m))) (stop index info)
      (elim (big m (index + 2) 2 0) [
        | none ↦ turn_overread
        | some count ↦ counted soc size m index params info count
      ])
      (omega arith, omega (arith, low))
      (Moves-read index (big m (index + 2) 2 0) (counted soc size m index params info) (λ count e.
        counted-Moves soc size m index params info count low (big_two m (index + 2) count bytes e)))
