-- ===== src/Text/Tests.antt =====
-- The laws of csrc/utils/Ustring.h and csrc/utils/Ustring.cpp at concrete texts.
use msopcom.Prelude.{◌≡◌, refl, [], ◌∷◌, some, none, arith, ltb, ◌^◌, if◌then◌else◌}
use msopcom.Text.{
  get_valid_length, remove_suffix, extract_obj_name, format_name_for_log, string_to_num,
}
use msopcom.Text.Number.{to_string, string_to_num-to_string}

string_to_num-to_string_example :
    string_to_num 16 (to_string 3 300) ≡ (if ltb 300 (2 ^ 16) then some 300 else none)
string_to_num-to_string_example =
    string_to_num-to_string 16 3 300 (omega arith) (omega arith) (omega arith) (omega arith)

get_valid_length_to_zero : get_valid_length (some (1 ∷ 0 ∷ 2 ∷ [])) 3 ≡ 1
unfolding get_valid_length
get_valid_length_to_zero = refl

remove_suffix_found : remove_suffix (b'a' ∷ b'.' ∷ b'o' ∷ []) ((b'.' ∷ b'o' ∷ []) ∷ []) ≡ b'a' ∷ []
unfolding remove_suffix
remove_suffix_found = refl

extract_obj_name_between :
    extract_obj_name (b'x' ∷ b'(' ∷ b'y' ∷ b')' ∷ []) (b'(' ∷ []) (b')' ∷ []) ≡ b'y' ∷ []
unfolding extract_obj_name
extract_obj_name_between = refl

format_name_for_log_empty : format_name_for_log [] ≡ []
unfolding format_name_for_log
format_name_for_log_empty = refl
