-- ===== src/Text/Split.antt =====
-- `SplitString` of csrc/utils/Ustring.cpp against `Join` of csrc/utils/Ustring.h.
use msopcom.Prelude.{
  ℕ, ◌≡◌, refl, sym, ap, ◌∙◌, inl, inr, false, List, [], ◌∷◌, ◌++◌, append-nil, append_assoc,
  nat_beq, All, is_empty, Bool-cases, eq_refl, nat_eq,
}
use msopcom.Wire.{Bytes}
use msopcom.Text.{split_from, split_string, join}

-- No byte of the token is the separator.
abbrev pub Lacks : ℕ → Bytes → Type 0
Lacks sep = All (λ c. nat_beq c sep ≡ false)

-- The last token is not empty, if there is one.
abbrev pub EndsFull : List Bytes → Type 0
EndsFull [] = Unit
EndsFull (x ∷ []) = is_empty x ≡ false
EndsFull (x ∷ y ∷ xs) = EndsFull (y ∷ xs)

split_from-token :
    (sep : ℕ) (token x rest : Bytes)
    → Lacks sep x
    → split_from sep token (x ++ rest) ≡ split_from sep (token ++ x) rest
unfolding split_from
split_from-token sep token [] rest l = ap (λ t. split_from sep t rest) (sym (append-nil token))
split_from-token sep token (c ∷ x) rest l = rw (l.0) (
    split_from-token sep (token ++ c ∷ []) x rest l.1
    ∙ ap (λ t. split_from sep t rest) (append_assoc token (c ∷ []) x))

split_from-sep :
    (sep : ℕ) (token rest : Bytes)
    → split_from sep token (sep ∷ rest) ≡ token ∷ split_from sep [] rest
unfolding split_from
split_from-sep sep token rest = rw (eq_refl sep)

split_from-end : (sep : ℕ) (x : Bytes) → is_empty x ≡ false → split_from sep x [] ≡ x ∷ []
unfolding split_from
split_from-end sep x h = rw h

-- The tokens of a joined text are the texts that were joined, provided that none holds the
-- separator and that the last is not empty.
pub split_string-join :
    (sep : ℕ) (tokens : List Bytes)
    → All (Lacks sep) tokens
    → EndsFull tokens
    → split_string (join tokens (sep ∷ [])) sep ≡ tokens
unfolding split_string join
split_string-join sep [] l f = refl
split_string-join sep (x ∷ []) l f =
    ap (split_from sep []) (sym (append-nil x))
    ∙ split_from-token sep [] x [] l.0
    ∙ split_from-end sep x f
split_string-join sep (x ∷ y ∷ xs) l f =
    split_from-token sep [] x (sep ∷ join (y ∷ xs) (sep ∷ [])) l.0
    ∙ split_from-sep sep x (join (y ∷ xs) (sep ∷ []))
    ∙ ap (λ t. x ∷ t) (split_string-join sep (y ∷ xs) l.1 f)

All-snoc : (sep c : ℕ) (x : Bytes) → Lacks sep x → nat_beq c sep ≡ false → Lacks sep (x ++ c ∷ [])
All-snoc sep c [] l h = (h, tt)
All-snoc sep c (y ∷ x) l h = (l.0, All-snoc sep c x l.1 h)

pub split_from-Lacks :
    (sep : ℕ) (token str : Bytes) → Lacks sep token → All (Lacks sep) (split_from sep token str)
unfolding split_from
split_from-Lacks sep [] [] l = tt
split_from-Lacks sep (c ∷ token) [] l = (l, tt)
split_from-Lacks sep token (c ∷ str) l = elim (Bool-cases (nat_beq c sep)) [
  | inl e ↦ rw e (l, split_from-Lacks sep [] str tt)
  | inr e ↦ rw e (split_from-Lacks sep (token ++ c ∷ []) str (All-snoc sep c token l e))
]
