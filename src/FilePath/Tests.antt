-- ===== src/FilePath/Tests.antt =====
-- The laws of csrc/utils/Path.cpp at concrete paths.
use msopcom.Prelude.{◌≡◌, refl, true, false, [], ◌∷◌}
use msopcom.Wire.{Bytes}
use msopcom.FilePath.{name, parent, FilePath, of_string, to_string, resolved, absolute}
use msopcom.Text.{join}
use msopcom.FilePath.Resolving.{walk, resolved-walk}
use msopcom.FilePath.Printing.{IsSegment, of_string-to_string, begins_blank, ends_blank}

-- "/tmp", and the path "x/../../y".
abbrev tmp : Bytes
tmp = b'/' ∷ b't' ∷ b'm' ∷ b'p' ∷ []

abbrev upwards : FilePath
upwards = record {
  is_absolute = false;
  route = (b'x' ∷ []) ∷ (b'.' ∷ b'.' ∷ []) ∷ (b'.' ∷ b'.' ∷ []) ∷ (b'y' ∷ []) ∷ [];
}

resolved-walk_example : (resolved tmp upwards).route ≡ walk [] (absolute tmp upwards).route
resolved-walk_example = resolved-walk tmp upwards

abbrev two_segments : FilePath
two_segments = record { is_absolute = true; route = (b'a' ∷ []) ∷ (b'b' ∷ b'c' ∷ []) ∷ [] }

a-IsSegment : IsSegment (b'a' ∷ [])
a-IsSegment = record { full = refl; named = refl; whole = (refl, tt) }

bc-IsSegment : IsSegment (b'b' ∷ b'c' ∷ [])
bc-IsSegment = record { full = refl; named = refl; whole = (refl, (refl, tt)) }

begins_full : begins_blank (to_string two_segments) ≡ false
unfolding to_string join
begins_full = refl

ends_full : ends_blank (to_string two_segments) ≡ false
unfolding to_string join
ends_full = refl

of_string-to_string_example : of_string (to_string two_segments) ≡ two_segments
of_string-to_string_example =
    of_string-to_string two_segments (a-IsSegment, (bc-IsSegment, tt)) begins_full ends_full

name_last : name two_segments ≡ b'b' ∷ b'c' ∷ []
unfolding name
name_last = refl

parent_shorter : (parent two_segments).route ≡ (b'a' ∷ []) ∷ []
unfolding parent
parent_shorter = refl
