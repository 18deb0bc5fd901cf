-- ===== src/Args/Raw/Slices.antt =====
-- Where the bytes of a block are found after the insertion of csrc/runtime/inject_helpers/ArgsRawContext.cpp,
-- and its last placeholder after the shifts.
use msopcom.Prelude.{
  ℕ, zero, suc, ◌+◌, ◌-◌, ◌≤◌, ◌<◌, ◌≡◌, ◌⊎◌, inl, inr, refl, sym, ap, ap₂, ◌∙◌, arith, List, [],
  ◌∷◌, ◌++◌, map, leb, ltb, if◌then◌else◌, length, take, drop, length-append, length-take,
  length-drop, drop-append, take-append, take-append_short, drop-drop, Bool-cases,
}
use msopcom.Wire.{Bytes}
use msopcom.Args.Raw.{PlaceHolder, last_from, last_placeholder, shift_behind, insert_at}

pub length-take_le {ℓ} : {A : Type ℓ} (n : ℕ) (b : List A) → n ≤ length b → length (take n b) ≡ n
length-take_le n b h = length-take n b ∙ omega arith

pub drop-insert_at :
    (offset : ℕ) (param b : Bytes)
    → offset ≤ length b
    → drop offset (insert_at offset param b) ≡ param ++ drop offset b
unfolding insert_at
drop-insert_at offset param b h =
    ap (λ n. drop n (insert_at offset param b)) (sym (length-take_le offset b h))
    ∙ drop-append (take offset b) (param ++ drop offset b)

-- The parameter stands at its offset.
pub take-drop-insert_at :
    (offset : ℕ) (param b : Bytes)
    → offset ≤ length b
    → take (length param) (drop offset (insert_at offset param b)) ≡ param
take-drop-insert_at offset param b h =
    ap (take (length param)) (drop-insert_at offset param b h) ∙ take-append param (drop offset b)

-- What lay at or behind the offset has moved by the parameter's length.
pub drop-insert_at_behind :
    (offset x : ℕ) (param b : Bytes)
    → offset ≤ length b
    → offset ≤ x
    → drop (x + length param) (insert_at offset param b) ≡ drop x b
drop-insert_at_behind offset x param b h behind =
    let moved = insert_at offset param b in
    let sum : x + length param ≡ offset + (length param + (x - offset)) = omega arith in
    let whole : offset + (x - offset) ≡ x = omega arith in
    ap (λ n. drop n moved) sum
    ∙ sym (drop-drop offset (length param + (x - offset)) moved)
    ∙ ap (drop (length param + (x - offset))) (drop-insert_at offset param b h)
    ∙ sym (drop-drop (length param) (x - offset) (param ++ drop offset b))
    ∙ ap (drop (x - offset)) (drop-append param (drop offset b))
    ∙ drop-drop offset (x - offset) b
    ∙ ap (λ n. drop n b) whole

-- What lay before the offset is where it was.
pub take-drop-append_short {ℓ} :
    {A : Type ℓ} (n x : ℕ) (xs ys : List A)
    → x + n ≤ length xs
    → take n (drop x (xs ++ ys)) ≡ take n (drop x xs)
take-drop-append_short n zero xs ys h = take-append_short n xs ys (omega arith)
take-drop-append_short n (suc x) [] ys h = let none_left : n ≡ 0 = omega arith in rw none_left refl
take-drop-append_short n (suc x) (a ∷ xs) ys h = take-drop-append_short n x xs ys (omega arith)

pub take-drop-take {ℓ} :
    {A : Type ℓ} (n x m : ℕ) (b : List A)
    → x + n ≤ m
    → take n (drop x (take m b)) ≡ take n (drop x b)
take-drop-take zero x m b h = refl
take-drop-take (suc n) zero zero b h = absurd (omega arith)
take-drop-take (suc n) zero (suc m) [] h = refl
take-drop-take (suc n) zero (suc m) (y ∷ b) h =
    ap (λ t. y ∷ t) (take-drop-take n 0 m b (omega arith))
take-drop-take (suc n) (suc x) zero b h = absurd (omega arith)
take-drop-take (suc n) (suc x) (suc m) [] h = refl
take-drop-take (suc n) (suc x) (suc m) (y ∷ b) h = take-drop-take (suc n) x m b (omega arith)

pub take-drop-insert_at_before :
    (offset n x : ℕ) (param b : Bytes)
    → offset ≤ length b
    → x + n ≤ offset
    → take n (drop x (insert_at offset param b)) ≡ take n (drop x b)
unfolding insert_at
take-drop-insert_at_before offset n x param b h before =
    take-drop-append_short n x (take offset b) (param ++ drop offset b)
      (rw (length-take_le offset b h) before)
    ∙ take-drop-take n x offset b before

pub length-insert_at :
    (offset : ℕ) (param b : Bytes)
    → offset ≤ length b
    → length (insert_at offset param b) ≡ length b + length param
unfolding insert_at
length-insert_at offset param b h = omega (
  arith,
  length-append (take offset b) (param ++ drop offset b),
  length-append param (drop offset b),
  length-take_le offset b h,
  length-drop offset b,
)

-- A change that keeps every pointer's offset changes the last placeholder with the others.
module _ (change : PlaceHolder → PlaceHolder)
    (keeps : (p : PlaceHolder) → (change p).addr_offset ≡ p.addr_offset) where
  last_from-map :
      (best new : PlaceHolder) (ps : List PlaceHolder)
      → new.addr_offset ≡ best.addr_offset
      → (last_from best ps ≡ best) × (last_from new (map change ps) ≡ new)
        ⊎ (last_from new (map change ps) ≡ change (last_from best ps))
  unfolding last_from
  last_from-map best new [] e = inl (refl, refl)
  last_from-map best new (p ∷ ps) e =
      let same : ltb new.addr_offset (change p).addr_offset ≡ ltb best.addr_offset p.addr_offset =
        ap₂ ltb e (keeps p) in
      elim (Bool-cases (ltb best.addr_offset p.addr_offset)) [
        | inl greater ↦
            let before : last_from best (p ∷ ps) ≡ last_from p ps =
              ap (λ t. last_from (if t then p else best) ps) greater in
            let after : last_from new (change p ∷ map change ps)
                ≡ last_from (change p) (map change ps) =
              ap (λ t. last_from (if t then change p else new) (map change ps)) (same ∙ greater) in
            inr (
              after
              ∙ elim (last_from-map p (change p) ps (keeps p)) [
                | inl stays ↦ stays.1 ∙ ap change (sym stays.0)
                | inr follows ↦ follows
              ]
              ∙ ap change (sym before))
        | inr other ↦
            let before : last_from best (p ∷ ps) ≡ last_from best ps =
              ap (λ t. last_from (if t then p else best) ps) other in
            let after : last_from new (change p ∷ map change ps) ≡ last_from new (map change ps) =
              ap (λ t. last_from (if t then change p else new) (map change ps)) (same ∙ other) in
            elim (last_from-map best new ps e) [
              | inl stays ↦ inl (before ∙ stays.0, after ∙ stays.1)
              | inr follows ↦ inr (after ∙ follows ∙ ap change (sym before))
            ]
      ]

  pub last_placeholder-map :
      (holders : List PlaceHolder)
      → 0 < (last_placeholder holders).addr_offset
      → last_placeholder (map change holders) ≡ change (last_placeholder holders)
  unfolding last_placeholder
  last_placeholder-map holders positive =
      let zero_holder : PlaceHolder = record { addr_offset = 0; data_offset = 0 } in
      elim (last_from-map zero_holder zero_holder holders refl) [
        | inl stays ↦
            let none_set = ap (λ (p : PlaceHolder). p.addr_offset) stays.0 in
            absurd (omega (arith, none_set))
        | inr follows ↦ follows
      ]

pub shift_behind_keeps :
    (offset size : ℕ) (p : PlaceHolder) → (shift_behind offset size p).addr_offset ≡ p.addr_offset
unfolding shift_behind
shift_behind_keeps offset size p = elim (Bool-cases (leb offset p.data_offset)) [
  | inl behind ↦ ground (arith, behind)
  | inr before ↦ ground (arith, before)
]
