-- ===== src/Args/Array/Packing.antt =====
-- Create and ExpandArgs of csrc/runtime/inject_helpers/ArgsArrayContext.cpp: where the parameters are.
use msopcom.Prelude.{
  Apart, ℕ, ◌+◌, ◌-◌, ◌≤◌, ◌≡◌, inl, inr, refl, sym, ap, subst, ◌∙◌, arith, max, Option, some, List,
  [], ◌∷◌, ◌++◌, length, take, drop, All, length-append, length-drop, take-length, drop-append,
  take-append, drop-drop,
}
use msopcom.Wire.{Bytes}
use msopcom.Args.Raw.Slices.{length-take_le, take-drop-append_short, take-drop-take}
use msopcom.Args.Array.{sum_of, total_size_of, write_at, pack}

pub length-write_at :
    (o : ℕ) (p b : Bytes) → o + length p ≤ length b → length (write_at o p b) ≡ length b
unfolding write_at
length-write_at o p b h = omega (
  arith,
  length-append (take o b) (p ++ drop (o + length p) b),
  length-append p (drop (o + length p) b),
  length-take_le o b (omega arith),
  length-drop (o + length p) b,
)

drop-write_at :
    (o : ℕ) (p b : Bytes)
    → o + length p ≤ length b
    → drop o (write_at o p b) ≡ p ++ drop (o + length p) b
unfolding write_at
drop-write_at o p b h =
    let fits : o ≤ length b = omega arith in
    ap (λ n. drop n (write_at o p b)) (sym (length-take_le o b fits))
    ∙ drop-append (take o b) (p ++ drop (o + length p) b)

pub take-drop-write_at :
    (o : ℕ) (p b : Bytes) → o + length p ≤ length b → take (length p) (drop o (write_at o p b)) ≡ p
take-drop-write_at o p b h =
    ap (take (length p)) (drop-write_at o p b h) ∙ take-append p (drop (o + length p) b)

-- Bytes apart from what is written are as before.
pub take-drop-write_at-Apart :
    (o a m : ℕ) (p b : Bytes)
    → o + length p ≤ length b
    → Apart o (length p) a m
    → take m (drop a (write_at o p b)) ≡ take m (drop a b)
unfolding write_at
take-drop-write_at-Apart o a m p b h (inr before) =
    let fits : o ≤ length b = omega arith in
    let short : a + m ≤ length (take o b) = omega (arith, length-take_le o b fits) in
    take-drop-append_short m a (take o b) (p ++ drop (o + length p) b) short
    ∙ take-drop-take m a o b before
take-drop-write_at-Apart o a m p b h (inl behind) =
    let w = write_at o p b in
    let gap = a - (o + length p) in
    let sum : a ≡ o + (length p + gap) = omega arith in
    let whole : o + length p + gap ≡ a = omega arith in
    ap (take m) (
      ap (λ n. drop n w) sum
      ∙ sym (drop-drop o (length p + gap) w)
      ∙ ap (drop (length p + gap)) (drop-write_at o p b h)
      ∙ sym (drop-drop (length p) gap (p ++ drop (o + length p) b))
      ∙ ap (drop gap) (drop-append p (drop (o + length p) b))
      ∙ drop-drop (o + length p) gap b
      ∙ ap (λ n. drop n b) whole)

-- Slots of a buffer: an offset and the bytes there.
abbrev pub Slots : Type 0
Slots = List (ℕ × Bytes)

abbrev pub offsets : Slots → List ℕ
offsets [] = []
offsets ((o, p) ∷ ls) = o ∷ offsets ls

abbrev pub sizes : Slots → List ℕ
sizes [] = []
sizes ((o, p) ∷ ls) = length p ∷ sizes ls

abbrev pub pointers : Slots → List (Option Bytes)
pointers [] = []
pointers ((o, p) ∷ ls) = some p ∷ pointers ls

abbrev pub Reads : Bytes → ℕ × Bytes → Type 0
Reads b (o, p) = take (length p) (drop o b) ≡ p

-- Each slot is apart from those after it.
abbrev pub IsLaid : Slots → Type 0
IsLaid [] = Unit
IsLaid ((o, p) ∷ ls) = All (λ t. Apart t.0 (length t.1) o (length p)) ls × IsLaid ls

abbrev pub IsWithin : ℕ → Slots → Type 0
IsWithin n ls = All (λ t. t.0 + length t.1 ≤ n) ls

-- The buffer once all slots are written.
abbrev pub packed : Slots → Bytes → Bytes
packed [] b = b
packed ((o, p) ∷ ls) b = packed ls (write_at o p b)

pub pack-packed :
    (ls : Slots) (os ns : List ℕ) (args : List (Option Bytes)) (b : Bytes)
    → pack (length ls) (offsets ls ++ os) (sizes ls ++ ns) (pointers ls ++ args) b
      ≡ some (packed ls b)
unfolding pack
pack-packed [] os ns args b = refl
pack-packed ((o, p) ∷ ls) os ns args b =
    ap
      (λ q.
        pack (length ls) (offsets ls ++ os) (sizes ls ++ ns) (pointers ls ++ args) (write_at o q b))
      (take-length p)
    ∙ pack-packed ls os ns args (write_at o p b)

pub length-packed :
    (ls : Slots) (b : Bytes) → IsWithin (length b) ls → length (packed ls b) ≡ length b
length-packed [] b within = refl
length-packed ((o, p) ∷ ls) b within =
    let same = length-write_at o p b within.0 in
    length-packed ls (write_at o p b) (subst (λ n. IsWithin n ls) (sym same) within.1) ∙ same

packed-Apart :
    (ls : Slots) (a m : ℕ) (b : Bytes)
    → IsWithin (length b) ls
    → All (λ t. Apart t.0 (length t.1) a m) ls
    → take m (drop a (packed ls b)) ≡ take m (drop a b)
packed-Apart [] a m b within apart = refl
packed-Apart ((o, p) ∷ ls) a m b within apart =
    let same = length-write_at o p b within.0 in
    packed-Apart ls a m (write_at o p b) (subst (λ n. IsWithin n ls) (sym same) within.1) apart.1
    ∙ take-drop-write_at-Apart o a m p b within.0 apart.0

pub packed-Reads :
    (ls : Slots) (b : Bytes) → IsWithin (length b) ls → IsLaid ls → All (Reads (packed ls b)) ls
packed-Reads [] b within laid = tt
packed-Reads ((o, p) ∷ ls) b within laid =
    let same = length-write_at o p b within.0 in
    let later = subst (λ n. IsWithin n ls) (sym same) within.1 in
    (
      packed-Apart ls o (length p) (write_at o p b) later laid.0
          ∙ take-drop-write_at o p b within.0,
      packed-Reads ls (write_at o p b) later laid.1,
    )

-- What lies within a buffer is still read when another one follows it.
pub Reads-append :
    (ls : Slots) (b more : Bytes)
    → IsWithin (length b) ls
    → All (Reads b) ls
    → All (Reads (b ++ more)) ls
Reads-append [] b more within reads = tt
Reads-append ((o, p) ∷ ls) b more within reads = (
  take-drop-append_short (length p) o b more within.0 ∙ reads.0,
  Reads-append ls b more within.1 reads.1,
)

pub Reads-write_at :
    (ls : Slots) (o : ℕ) (p b : Bytes)
    → o + length p ≤ length b
    → All (λ t. Apart o (length p) t.0 (length t.1)) ls
    → All (Reads b) ls
    → All (Reads (write_at o p b)) ls
Reads-write_at [] o p b fits apart reads = tt
Reads-write_at ((a, q) ∷ ls) o p b fits apart reads = (
  take-drop-write_at-Apart o a (length q) p b fits apart.0 ∙ reads.0,
  Reads-write_at ls o p b fits apart.1 reads.1,
)

pub IsWithin-le : (ls : Slots) (n k : ℕ) → n ≤ k → IsWithin n ls → IsWithin k ls
IsWithin-le [] n k h within = tt
IsWithin-le (t ∷ ls) n k h within = (omega (arith, within.0), IsWithin-le ls n k h within.1)

-- The greatest size of a vector of bytes.
abbrev pub size_max : ℕ
size_max = 9223372036854775807

pub total_size_bounds :
    (ls : Slots) → IsWithin size_max ls → IsWithin (total_size_of (offsets ls) (sizes ls)) ls
unfolding total_size_of
total_size_bounds [] small = tt
total_size_bounds ((o, p) ∷ ls) small = (
  omega (arith, small.0),
  IsWithin-le ls (total_size_of (offsets ls) (sizes ls))
      (max (sum_of o (length p)) (total_size_of (offsets ls) (sizes ls))) (omega arith)
      (total_size_bounds ls small.1),
)
