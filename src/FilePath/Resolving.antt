-- ===== src/FilePath/Resolving.antt =====
-- `Path::Resolved` of csrc/utils/Path.cpp: the loop in place, and a walk with a stack.
use msopcom.Prelude.{
  ℕ, suc, ◌+◌, ◌-◌, ◌≡◌, refl, sym, ap, ◌∙◌, inl, inr, false, List, [], ◌∷◌, ◌++◌, append_assoc,
  arith, nat_eq, list_eq, ◌==◌, if◌then◌else◌, All, length, take, get_or, Bool-cases, length-append,
  ap₂,
}
use msopcom.Wire.{Bytes}
use msopcom.FilePath.{FilePath, parent_segment, set_at, resolve_loop, resolved, absolute, pop_back}

-- The specification: a parent segment removes the segment before it, if there is one.
pub walk : List Bytes → List Bytes → List Bytes
walk done [] = done
walk done (s ∷ rest) = walk (if s == parent_segment then pop_back done else done ++ s ∷ []) rest

get_or-append :
    (xs : List Bytes) (y : Bytes) (ys : List Bytes) (d : Bytes)
    → get_or (xs ++ y ∷ ys) (length xs) d ≡ y
get_or-append [] y ys d = refl
get_or-append (x ∷ xs) y ys d = get_or-append xs y ys d

set_at-append :
    (xs : List Bytes) (y v : Bytes) (ys : List Bytes)
    → set_at (xs ++ y ∷ ys) (length xs) v ≡ xs ++ v ∷ ys
unfolding set_at
set_at-append [] y v ys = refl
set_at-append (x ∷ xs) y v ys = ap (λ t. x ∷ t) (set_at-append xs y v ys)

take_prefix : (xs ys : List Bytes) → take (length xs) (xs ++ ys) ≡ xs
take_prefix [] ys = refl
take_prefix (x ∷ xs) ys = ap (λ t. x ∷ t) (take_prefix xs ys)

-- A list that is not empty is what `pop_back` leaves, and its last element.
pop_back_split :
    (x : Bytes) (xs : List Bytes)
    → (l : Bytes) × (x ∷ xs ≡ pop_back (x ∷ xs) ++ l ∷ [])
      × (length (pop_back (x ∷ xs)) ≡ length xs)
unfolding pop_back
pop_back_split x [] = (x, refl, refl)
pop_back_split x (y ∷ ys) = let (l, e, n) = pop_back_split y ys in (l, ap (λ t. x ∷ t) e, ap suc n)

-- The array holds what is kept, some segments already read, and what is left to read.
record Holds (kept junk rest arr : List Bytes) (fast slow : ℕ) : Type 0 where
  arr_lem : arr ≡ kept ++ (junk ++ rest)
  fast_lem : fast ≡ length kept + length junk
  slow_lem : slow ≡ length kept

read_lem :
    (kept junk : List Bytes) (s : Bytes) (rest arr : List Bytes) (fast slow : ℕ)
    → Holds kept junk (s ∷ rest) arr fast slow
    → get_or arr fast [] ≡ s
read_lem kept junk s rest arr fast slow h =
    ap₂ (λ a i. get_or a i []) (h.arr_lem ∙ sym (append_assoc kept junk (s ∷ rest)))
      (h.fast_lem ∙ sym (length-append kept junk))
    ∙ get_or-append (kept ++ junk) s rest []

-- A kept segment goes to the place behind those kept before.
keep_lem :
    (kept junk : List Bytes) (s : Bytes) (rest arr : List Bytes) (fast slow : ℕ)
    → Holds kept junk (s ∷ rest) arr fast slow
    → (junk' : List Bytes) × Holds
        (kept ++ s ∷ [])
        junk'
        rest
        (set_at arr slow s)
        (suc fast)
        (suc slow)
keep_lem kept [] s rest arr fast slow h = (
  [],
  record {
    arr_lem =
        ap₂ (λ a i. set_at a i s) h.arr_lem h.slow_lem
        ∙ set_at-append kept s s rest
        ∙ sym (append_assoc kept (s ∷ []) rest);
    fast_lem = omega (arith, h.fast_lem, length-append kept (s ∷ []));
    slow_lem = omega (arith, h.slow_lem, length-append kept (s ∷ []));
  },
)
keep_lem kept (j ∷ js) s rest arr fast slow h = (
  js ++ s ∷ [],
  record {
    arr_lem =
        ap₂ (λ a i. set_at a i s) h.arr_lem h.slow_lem
        ∙ set_at-append kept j s (js ++ s ∷ rest)
        ∙ ap (λ t. kept ++ s ∷ t) (sym (append_assoc js (s ∷ []) rest))
        ∙ sym (append_assoc kept (s ∷ []) ((js ++ s ∷ []) ++ rest));
    fast_lem = omega (arith, h.fast_lem, length-append kept (s ∷ []), length-append js (s ∷ []));
    slow_lem = omega (arith, h.slow_lem, length-append kept (s ∷ []));
  },
)

-- A parent segment only moves the place back.
drop_lem :
    (kept junk : List Bytes) (s : Bytes) (rest arr : List Bytes) (fast slow : ℕ)
    → Holds kept junk (s ∷ rest) arr fast slow
    → (junk' : List Bytes) × Holds (pop_back kept) junk' rest arr (suc fast) (slow - 1)
unfolding pop_back
drop_lem [] junk s rest arr fast slow h = (
  junk ++ s ∷ [],
  record {
    arr_lem = h.arr_lem ∙ sym (append_assoc junk (s ∷ []) rest);
    fast_lem = omega (arith, h.fast_lem, length-append junk (s ∷ []));
    slow_lem = omega (arith, h.slow_lem);
  },
)
drop_lem (x ∷ xs) junk s rest arr fast slow h =
    let (l, e, n) = pop_back_split x xs in
    (
      l ∷ (junk ++ s ∷ []),
      record {
        arr_lem =
            h.arr_lem
            ∙ ap (λ t. t ++ (junk ++ s ∷ rest)) e
            ∙ append_assoc (pop_back (x ∷ xs)) (l ∷ []) (junk ++ s ∷ rest)
            ∙ ap (λ t. pop_back (x ∷ xs) ++ l ∷ t) (sym (append_assoc junk (s ∷ []) rest));
        fast_lem = omega (arith, h.fast_lem, n, length-append junk (s ∷ []));
        slow_lem = omega (arith, h.slow_lem, n);
      },
    )

resolve_step :
    (left fast slow : ℕ) (arr : List Bytes) (s : Bytes)
    → get_or arr fast [] ≡ s
    → resolve_loop (suc left) fast slow arr
      ≡ resolve_loop left
          (suc fast)
          (if s == parent_segment then slow - 1 else suc slow)
          (if s == parent_segment then arr else set_at arr slow s)
unfolding resolve_loop
resolve_step left fast slow arr s e =
    ap
      (λ x.
        resolve_loop left (suc fast) (if x == parent_segment then slow - 1 else suc slow)
          (if x == parent_segment then arr else set_at arr slow x))
      e

resolve_loop-walk :
    (kept junk rest arr : List Bytes) (fast slow : ℕ)
    → Holds kept junk rest arr fast slow
    → resolve_loop (length rest) fast slow arr ≡ walk kept rest
unfolding resolve_loop walk
resolve_loop-walk kept junk [] arr fast slow h =
    ap₂ take h.slow_lem h.arr_lem ∙ take_prefix kept (junk ++ [])
resolve_loop-walk kept junk (s ∷ rest) arr fast slow h = elim (Bool-cases (s == parent_segment)) [
  | inl up ↦
      let (junk', h') = drop_lem kept junk s rest arr fast slow h in
      resolve_step (length rest) fast slow arr s (read_lem kept junk s rest arr fast slow h)
      ∙ rw up (resolve_loop-walk (pop_back kept) junk' rest arr (suc fast) (slow - 1) h')
  | inr down ↦
      let (junk', h') = keep_lem kept junk s rest arr fast slow h in
      resolve_step (length rest) fast slow arr s (read_lem kept junk s rest arr fast slow h)
      ∙ rw down (
          resolve_loop-walk (kept ++ s ∷ []) junk' rest (set_at arr slow s) (suc fast) (suc slow)
            h')
]

-- `Resolved` works in place, with one index that reads and one that writes; its segments are those
-- of the walk along the absolute path with a stack, in which ".." takes the last segment off, and
-- nothing off at the root.
pub resolved-walk :
    (cwd : Bytes) (p : FilePath) → (resolved cwd p).route ≡ walk [] (absolute cwd p).route
unfolding resolved
resolved-walk cwd p =
    resolve_loop-walk [] [] (absolute cwd p).route (absolute cwd p).route 0 0
      (record { arr_lem = refl; fast_lem = refl; slow_lem = refl })

abbrev pub IsNotParent : Bytes → Type 0
IsNotParent s = (s == parent_segment) ≡ false

pop_back-All : (xs : List Bytes) → All IsNotParent xs → All IsNotParent (pop_back xs)
unfolding pop_back
pop_back-All [] a = tt
pop_back-All (x ∷ []) a = tt
pop_back-All (x ∷ y ∷ xs) a = (a.0, pop_back-All (y ∷ xs) a.1)

snoc-All :
    (s : Bytes) (xs : List Bytes)
    → All IsNotParent xs
    → IsNotParent s
    → All IsNotParent (xs ++ s ∷ [])
snoc-All s [] a h = (h, tt)
snoc-All s (x ∷ xs) a h = (a.0, snoc-All s xs a.1 h)

walk-All : (kept rest : List Bytes) → All IsNotParent kept → All IsNotParent (walk kept rest)
unfolding walk
walk-All kept [] a = a
walk-All kept (s ∷ rest) a = elim (Bool-cases (s == parent_segment)) [
  | inl e ↦ rw e (walk-All (pop_back kept) rest (pop_back-All kept a))
  | inr e ↦ rw e (walk-All (kept ++ s ∷ []) rest (snoc-All s kept a e))
]

-- No segment of a resolved path is "..".
pub resolved-IsNotParent : (cwd : Bytes) (p : FilePath) → All IsNotParent (resolved cwd p).route
resolved-IsNotParent cwd p = rw (resolved-walk cwd p) (walk-All [] (absolute cwd p).route tt)
