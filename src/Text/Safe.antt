-- ===== src/Text/Safe.antt =====
-- `ToSafeString` of csrc/utils/Ustring.h.
use msopcom.Prelude.{
  ℕ, ◌≡◌, refl, ap, inl, inr, [], ◌∷◌, ◌++◌, Option, none, some, arith, All, Option-cases, nat_eq,
  list_eq,
}
use msopcom.Wire.{Bytes}
use msopcom.Text.{replacement, to_safe_string}

abbrev pub IsSafe : Bytes → Type 0
IsSafe = All (λ c. replacement c ≡ none)

All-append : (xs ys : Bytes) → IsSafe xs → IsSafe ys → IsSafe (xs ++ ys)
All-append [] ys h k = k
All-append (x ∷ xs) ys h k = (h.0, All-append xs ys h.1 k)

abbrev IsSafeOption : Option Bytes → Type 0
IsSafeOption none = Unit
IsSafeOption (some r) = IsSafe r

replacement-IsSafe : (c : ℕ) → IsSafeOption (replacement c)
unfolding replacement
replacement-IsSafe c = ground arith

to_safe_string-IsSafe : (str : Bytes) → IsSafe (to_safe_string str)
unfolding to_safe_string
to_safe_string-IsSafe [] = tt
to_safe_string-IsSafe (c ∷ str) = elim (Option-cases (replacement c)) [
  | inl e ↦ rw (e, to_safe_string) (e, to_safe_string-IsSafe str)
  | inr (r, e) ↦
      rw (e, to_safe_string)
        (All-append r _ (rw e at (replacement-IsSafe c)) (to_safe_string-IsSafe str))
]

to_safe_string_of_IsSafe : (str : Bytes) → IsSafe str → to_safe_string str ≡ str
unfolding to_safe_string
to_safe_string_of_IsSafe [] h = refl
to_safe_string_of_IsSafe (c ∷ str) h =
    rw (h.0, to_safe_string) (ap (λ t. c ∷ t) (to_safe_string_of_IsSafe str h.1))

-- `ToSafeString` leaves no byte that would have to be replaced, and does nothing the second time.
pub to_safe_string_lem :
    (str : Bytes)
    → IsSafe (to_safe_string str) × (to_safe_string (to_safe_string str) ≡ to_safe_string str)
to_safe_string_lem str = (
  to_safe_string-IsSafe str,
  to_safe_string_of_IsSafe (to_safe_string str) (to_safe_string-IsSafe str),
)
