-- ===== src/Text/Number.antt =====
-- `StringToNum` of csrc/utils/Ustring.h against `std::to_string`.
use native.Mathlib.Nat.{pow-suc}
use msopcom.Prelude.{
  ℕ, zero, suc, ◌+◌, ◌-◌, ◌*◌, ◌/◌, ◌%◌, ◌^◌, ◌≤◌, ◌<◌, ◌≡◌, refl, ap, ◌∙◌, inl, inr, Bool, true,
  false, ◌≢◌, nat_beq, get_elem?, [], ◌∷◌, ◌++◌, none, some, arith, ltb, if◌then◌else◌, all,
  Bool-cases, length, length-append,
}
use msopcom.Wire.{Bytes}
use msopcom.Text.{string_to_num, decimal_value, is_digit, unsigned_part, starts_with, is_digit_char}

-- `std::to_string` of an unsigned number, with a digit for each unit of fuel.
unfoldable pub to_string : ℕ → ℕ → Bytes
to_string zero n = []
to_string (suc fuel) n =
    let high = to_string fuel (n / 10) in
    if ltb n 10 then (b'0' + n) ∷ [] else high ++ (b'0' + n % 10) ∷ []

decimal_value-append :
    (m : ℕ) (xs ys : Bytes) → decimal_value m (xs ++ ys) ≡ decimal_value (decimal_value m xs) ys
unfolding decimal_value
decimal_value-append m [] ys = refl
decimal_value-append m (c ∷ xs) ys = decimal_value-append (m * 10 + (c - b'0')) xs ys

div_10-lt : (n m : ℕ) → n < m * 10 → n / 10 < m
div_10-lt n m h = omega arith

decimal_value-to_string : (fuel n : ℕ) → n < 10 ^ fuel → decimal_value 0 (to_string fuel n) ≡ n
unfolding decimal_value to_string
decimal_value-to_string zero n h = omega arith
decimal_value-to_string (suc fuel) n h = elim (Bool-cases (ltb n 10)) [
  | inl e ↦ rw e (omega arith)
  | inr e ↦ rw e (
      decimal_value-append 0 (to_string fuel (n / 10)) ((b'0' + n % 10) ∷ [])
      ∙ omega (
        arith,
        decimal_value-to_string fuel (n / 10) (div_10-lt n (10 ^ fuel) (rw pow-suc at h)),
      ))
]

all-append :
    (p : ℕ → Bool) (xs ys : Bytes) → all p xs ≡ true → all p ys ≡ true → all p (xs ++ ys) ≡ true
all-append p [] ys h k = k
all-append p (x ∷ xs) ys h k = ground (arith, all-append p xs ys)

to_string_digits : (fuel n : ℕ) → all is_digit_char (to_string fuel n) ≡ true
unfolding to_string is_digit_char
to_string_digits zero n = refl
to_string_digits (suc fuel) n = elim (Bool-cases (ltb n 10)) [
  | inl e ↦ rw e (ground arith)
  | inr e ↦ rw e (
      all-append _ (to_string fuel (n / 10)) ((b'0' + n % 10) ∷ []) (to_string_digits fuel (n / 10))
        (ground arith))
]

length-to_string :
    (fuel n : ℕ) → (length (to_string fuel n) ≤ fuel) × (0 < fuel → 0 < length (to_string fuel n))
unfolding to_string
length-to_string zero n = (omega arith, λ h. h)
length-to_string (suc fuel) n = elim (Bool-cases (ltb n 10)) [
  | inl e ↦ rw e (omega arith, λ h. omega arith)
  | inr e ↦ rw e (
    omega (
      arith,
      length-append (to_string fuel (n / 10)) ((b'0' + n % 10) ∷ []),
      (length-to_string fuel (n / 10)).0,
    ),
    λ h. omega (arith, length-append (to_string fuel (n / 10)) ((b'0' + n % 10) ∷ [])),
  )
]

-- A text of digits only is read as it stands.
string_to_num_digits :
    (bits : ℕ) (str : Bytes)
    → all is_digit_char str ≡ true
    → 0 < length str
    → length str ≤ 4294967295
    → string_to_num bits str ≡ (
        if nat_beq bits 8
        then get_elem? str 0
        else if ltb (decimal_value 0 str) (2 ^ bits)
        then some (decimal_value 0 str)
        else none)
unfolding string_to_num is_digit unsigned_part starts_with is_digit_char
string_to_num_digits bits [] d h k = elim h [ ]
string_to_num_digits bits (c ∷ str) d h k = ground arith

-- A number printed by `std::to_string` is read back by `StringToNum` exactly when it fits the
-- type, if that is no character type of 8 bits: below `2 ^ bits` it is the result, and from there on
-- reading fails.
pub string_to_num-to_string :
    (bits fuel n : ℕ)
    → 0 < fuel
    → fuel ≤ 4294967295
    → n < 10 ^ fuel
    → bits ≢ 8
    → string_to_num bits (to_string fuel n) ≡ (if ltb n (2 ^ bits) then some n else none)
string_to_num-to_string bits fuel n pos few h wide =
    let number : nat_beq bits 8 ≡ false = ground (arith, wide) in
    string_to_num_digits bits (to_string fuel n) (to_string_digits fuel n)
      ((length-to_string fuel n).1 pos) (omega (arith, (length-to_string fuel n).0))
    ∙ rw number
        (ap (λ m. if ltb m (2 ^ bits) then some m else none) (decimal_value-to_string fuel n h))
