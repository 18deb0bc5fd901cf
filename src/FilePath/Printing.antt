-- ===== src/FilePath/Printing.antt =====
-- The constructor of csrc/utils/Path.cpp against `ToString`.
use msopcom.Prelude.{
  ℕ, ◌≡◌, refl, sym, ap, ◌∙◌, inl, inr, Bool, true, false, List, [], ◌∷◌, ◌++◌, append-nil,
  append_assoc, nat_eq, list_eq, ◌==◌, All, nat_beq, is_empty, Bool-cases, ap₂,
}
use msopcom.Wire.{Bytes}
use msopcom.Text.{join, strip, strip_left, strip_right}
use msopcom.FilePath.{FilePath, current_segment, keep, scan, starts_at_root, of_string, to_string}

-- A segment that the constructor keeps: not empty, not ".", and with no separator.
pub record IsSegment (s : Bytes) : Type 0 where
  pub full : is_empty s ≡ false
  pub named : (s == current_segment) ≡ false
  pub whole : All (λ c. nat_beq c b'/' ≡ false) s

-- Whether a text begins or ends with a space, which the constructor strips.
abbrev pub ends_blank : Bytes → Bool
ends_blank [] = false
ends_blank (c ∷ []) = nat_beq c b' '
ends_blank (c ∷ d ∷ s) = ends_blank (d ∷ s)

abbrev pub begins_blank : Bytes → Bool
begins_blank [] = false
begins_blank (c ∷ s) = nat_beq c b' '

scan-segment :
    (s x rest : Bytes)
    → All (λ c. nat_beq c b'/' ≡ false) x
    → scan s (x ++ rest) ≡ scan (s ++ x) rest
unfolding scan
scan-segment s [] rest l = ap (λ t. scan t rest) (sym (append-nil s))
scan-segment s (c ∷ x) rest l =
    rw l.0
      (scan-segment (s ++ c ∷ []) x rest l.1 ∙ ap (λ t. scan t rest) (append_assoc s (c ∷ []) x))

keep_lem : (s : Bytes) (rest : List Bytes) → IsSegment s → keep s rest ≡ s ∷ rest
unfolding keep
keep_lem s rest i = rw (i.full, i.named)

scan-join : (xs : List Bytes) → All IsSegment xs → scan [] (join xs (b'/' ∷ [])) ≡ xs
unfolding scan join
scan-join [] a = refl
scan-join (x ∷ []) a =
    ap (scan []) (sym (append-nil x)) ∙ scan-segment [] x [] a.0.whole ∙ keep_lem x [] a.0
scan-join (x ∷ y ∷ xs) a =
    scan-segment [] x (b'/' ∷ join (y ∷ xs) (b'/' ∷ [])) a.0.whole
    ∙ keep_lem x (scan [] (join (y ∷ xs) (b'/' ∷ []))) a.0
    ∙ ap (λ t. x ∷ t) (scan-join (y ∷ xs) a.1)

strip_left_lem : (s : Bytes) → begins_blank s ≡ false → strip_left s ≡ s
unfolding strip_left
strip_left_lem [] b = refl
strip_left_lem (c ∷ s) b = rw b

strip_right_lem : (s : Bytes) → ends_blank s ≡ false → strip_right s ≡ s
unfolding strip_right
strip_right_lem [] e = refl
strip_right_lem (c ∷ []) e = rw e
strip_right_lem (c ∷ d ∷ s) e = rw (strip_right_lem (d ∷ s) e)

strip_lem : (s : Bytes) → begins_blank s ≡ false → ends_blank s ≡ false → strip s ≡ s
unfolding strip
strip_lem s b e = ap strip_right (strip_left_lem s b) ∙ strip_right_lem s e

of_string_lem :
    (s : Bytes)
    → begins_blank s ≡ false
    → ends_blank s ≡ false
    → of_string s ≡ record { is_absolute = starts_at_root s; route = scan [] s }
unfolding of_string
of_string_lem s b e =
    ap (λ t. record { is_absolute = starts_at_root t; route = scan [] t }) (strip_lem s b e)

not_at_root :
    (x : Bytes) (xs : List Bytes) → IsSegment x → starts_at_root (join (x ∷ xs) (b'/' ∷ [])) ≡ false
unfolding starts_at_root join
not_at_root [] xs i = absurd (cc i.full)
not_at_root (c ∷ x) [] i = i.whole.0
not_at_root (c ∷ x) (y ∷ xs) i = i.whole.0

abbrev path : Bool → List Bytes → FilePath
path rooted route = record { is_absolute = rooted; route = route }

round_trip :
    (rooted : Bool) (route : List Bytes)
    → All IsSegment route
    → begins_blank (to_string (path rooted route)) ≡ false
    → ends_blank (to_string (path rooted route)) ≡ false
    → of_string (to_string (path rooted route)) ≡ path rooted route
unfolding to_string
round_trip true route a b e =
    of_string_lem (b'/' ∷ join route (b'/' ∷ [])) b e
    ∙ ap₂ path (unfold starts_at_root in refl) (unfold scan in scan-join route a)
round_trip false [] a b e =
    unfold of_string scan starts_at_root strip strip_left strip_right keep in refl
round_trip false (x ∷ xs) a b e =
    of_string_lem (join (x ∷ xs) (b'/' ∷ [])) b e
    ∙ ap₂ path (not_at_root x xs a.0) (scan-join (x ∷ xs) a)

-- A path of segments that are not empty, not "." and without separators is read back from its
-- text, absolute or relative, if the text neither begins nor ends with a space.
pub of_string-to_string :
    (p : FilePath)
    → All IsSegment p.route
    → begins_blank (to_string p) ≡ false
    → ends_blank (to_string p) ≡ false
    → of_string (to_string p) ≡ p
of_string-to_string p a b e = round_trip p.is_absolute p.route a b e

keep-All :
    (s : Bytes) (rest : List Bytes)
    → All (λ c. nat_beq c b'/' ≡ false) s
    → All IsSegment rest
    → All IsSegment (keep s rest)
unfolding keep
keep-All s rest l a = elim (Bool-cases (is_empty s)) [
  | inl e ↦ rw e a
  | inr e ↦ elim (Bool-cases (s == current_segment)) [
    | inl f ↦ rw (e, f) a
    | inr f ↦ rw (e, f) (record { full = e; named = f; whole = l }, a)
  ]
]

snoc-All :
    (s : Bytes) (c : ℕ)
    → All (λ d. nat_beq d b'/' ≡ false) s
    → nat_beq c b'/' ≡ false
    → All (λ d. nat_beq d b'/' ≡ false) (s ++ c ∷ [])
snoc-All [] c l h = (h, tt)
snoc-All (x ∷ s) c l h = (l.0, snoc-All s c l.1 h)

scan-All : (s text : Bytes) → All (λ c. nat_beq c b'/' ≡ false) s → All IsSegment (scan s text)
unfolding scan
scan-All s [] l = keep-All s [] l tt
scan-All s (c ∷ text) l = elim (Bool-cases (nat_beq c b'/')) [
  | inl e ↦ rw e (keep-All s (scan [] text) l (scan-All [] text tt))
  | inr e ↦ rw e (scan-All (s ++ c ∷ []) text (snoc-All s c l e))
]

-- Whatever the text, the constructor gives segments only: none is empty, none is ".", and none
-- holds a separator.
pub of_string-All : (text : Bytes) → All IsSegment (of_string text).route
unfolding of_string
of_string-All text = scan-All [] (strip text) tt
