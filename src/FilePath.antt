-- ===== src/FilePath.antt =====
-- csrc/utils/Path.cpp: a path as a list of segments.
-- The working directory that `getcwd` gives is an argument of `absolute`. `GetStat`, `Exists` and
-- the other questions to the file system are not modelled.
pub mod Printing
pub mod Resolving
mod Tests
use msopcom.Prelude.{
  ℕ, zero, suc, Bool, true, false, not, ◌&&◌, ◌||◌, List, [], ◌∷◌, ◌++◌, Option, none, some,
  nat_beq, nat_eq, list_eq, ◌==◌, is_empty, if◌then◌else◌, ltb, take, length, get_or, ◌-◌,
}
use msopcom.Wire.{Bytes}
use msopcom.Text.{strip, join as join_text}

pub record FilePath : Type 0 where
  pub is_absolute : Bool
  pub route : List Bytes

-- `CURRENT_SEGMENT` and `PARENT_SEGMENT`.
abbrev pub current_segment : Bytes
current_segment = b'.' ∷ []

abbrev pub parent_segment : Bytes
parent_segment = b'.' ∷ b'.' ∷ []

-- A segment that has been read is kept unless it is empty or ".".
pub keep : Bytes → List Bytes → List Bytes
keep segment rest = if is_empty segment || segment == current_segment then rest else segment ∷ rest

-- The scan of the constructor over the text, with the segment read so far.
pub scan : Bytes → Bytes → List Bytes
unfolding keep
scan segment [] = keep segment []
scan segment (c ∷ path) =
    let next = scan [] path in
    let longer = scan (segment ++ c ∷ []) path in
    if nat_beq c b'/' then keep segment next else longer

pub starts_at_root : Bytes → Bool
starts_at_root [] = false
starts_at_root (c ∷ path) = nat_beq c b'/'

-- The constructor from a string. The empty text is the current directory: no segments.
pub of_string : Bytes → FilePath
unfolding scan starts_at_root
of_string path = record { is_absolute = starts_at_root (strip path); route = scan [] (strip path) }

-- `ToString`.
unfoldable pub to_string : FilePath → Bytes
to_string p =
    if p.is_absolute
    then b'/' ∷ join_text p.route (b'/' ∷ [])
    else if is_empty p.route
    then current_segment
    else join_text p.route (b'/' ∷ [])

-- `Name`: the last segment.
pub last_of : List Bytes → Bytes
last_of [] = []
last_of (x ∷ []) = x
last_of (x ∷ y ∷ xs) = last_of (y ∷ xs)

pub name : FilePath → Bytes
unfolding last_of
name p = last_of p.route

-- `Parent`: all but the last segment.
pub pop_back : List Bytes → List Bytes
pop_back [] = []
pop_back (x ∷ []) = []
pop_back (x ∷ y ∷ xs) = x ∷ pop_back (y ∷ xs)

pub parent : FilePath → FilePath
unfolding pop_back
parent p = record p { route = pop_back p.route }

-- `operator/`.
infixl 70 ◌/◌
pub ◌/◌ : FilePath → FilePath → FilePath
p / q = if q.is_absolute then q else record p { route = p.route ++ q.route }

-- `Absolute`, in the directory `cwd`.
pub absolute : Bytes → FilePath → FilePath
unfolding of_string ◌/◌
absolute cwd p = of_string cwd / p

-- A write at a place of the array.
pub set_at : List Bytes → ℕ → Bytes → List Bytes
set_at [] i v = []
set_at (x ∷ xs) zero v = v ∷ xs
set_at (x ∷ xs) (suc i) v = x ∷ set_at xs i v

-- The loop of `Resolved`, in place: `fast` reads on, `slow` is where the next segment is kept. The
-- fuel is the number of segments that are left to read.
pub resolve_loop : ℕ → ℕ → ℕ → List Bytes → List Bytes
unfolding set_at
resolve_loop zero fast slow route = take slow route
resolve_loop (suc left) fast slow route =
    let segment = get_or route fast [] in
    let route' = if segment == parent_segment then route else set_at route slow segment in
    let slow' = if segment == parent_segment then slow - 1 else suc slow in
    resolve_loop left (suc fast) slow' route'

-- `Resolved`.
pub resolved : Bytes → FilePath → FilePath
unfolding absolute resolve_loop
resolved cwd p = record (absolute cwd p) {
  route = resolve_loop (length (absolute cwd p).route) 0 0 (absolute cwd p).route;
}
