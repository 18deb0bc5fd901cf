-- ===== src/Text.antt =====
-- csrc/utils/Ustring.h and csrc/utils/Ustring.cpp: the string helpers of the library.
-- A `std::string` is the list of its bytes.
pub mod Split
pub mod Number
pub mod Safe
mod Tests
use Prim.Native.Nat.{bit_xor}
use msopcom.Prelude.{
  ℕ, zero, suc, ◌+◌, ◌-◌, ◌*◌, ◌/◌, ◌%◌, ◌^◌, min, Bool, true, false, not, ◌&&◌, ◌||◌, List, [],
  ◌∷◌, ◌++◌, Option, none, some, length, ltb, leb, nat_beq, get_elem?, nat_eq, list_eq, ◌==◌, take,
  drop, is_empty, all, if◌then◌else◌,
}
use msopcom.Wire.{Bytes}

-- `std::string::find`, from position `at` on.
pub starts_with : Bytes → Bytes → Bool
starts_with str [] = true
starts_with [] (p ∷ prefix) = false
starts_with (c ∷ str) (p ∷ prefix) = nat_beq c p && starts_with str prefix

pub find_from : Bytes → Bytes → ℕ → Option ℕ
find_from [] pattern at = if is_empty pattern then some at else none
find_from (c ∷ str) pattern at =
    if starts_with (c ∷ str) pattern then some at else find_from str pattern (suc at)

pub find : Bytes → Bytes → Option ℕ
find str pattern = find_from str pattern 0

-- `EndsWith`.
pub ends_with : Bytes → Bytes → Bool
ends_with full ending =
    leb (length ending) (length full) && (drop (length full - length ending) full == ending)

-- `isdigit` and `isalnum` in the "C" locale.
pub is_digit_char : ℕ → Bool
is_digit_char c = leb b'0' c && leb c b'9'

pub is_alnum : ℕ → Bool
unfolding is_digit_char
is_alnum c = is_digit_char c || (leb b'a' c && leb c b'z') || (leb b'A' c && leb c b'Z')

-- The digits behind an optional sign.
pub unsigned_part : Bytes → Bytes
unsigned_part [] = []
unsigned_part (c ∷ cs) = if nat_beq c b'-' || nat_beq c b'+' then cs else c ∷ cs

-- `IsDigit`.
pub is_digit : Bytes → Bool
unfolding unsigned_part is_digit_char
is_digit digit =
    if is_empty (unsigned_part digit) || ltb 4294967295 (length digit)
    then false
    else all is_digit_char (unsigned_part digit)

-- `CheckInputStringValid`.
unfoldable pub check_input_string_valid : Bytes → ℕ → Bool
unfolding is_alnum
check_input_string_valid input limit =
    if is_empty input
    then false
    else if ltb limit (length input)
    then false
    else all (λ c. is_alnum c || nat_beq c b'_') input

-- `SplitString` into a vector: what repeated `getline` reads, `token` being read so far.
pub split_from : ℕ → Bytes → Bytes → List Bytes
split_from sep token [] = if is_empty token then [] else token ∷ []
split_from sep token (c ∷ str) =
    let next = split_from sep [] str in
    let longer = split_from sep (token ++ c ∷ []) str in
    if nat_beq c sep then token ∷ next else longer

pub split_string : Bytes → ℕ → List Bytes
unfolding split_from
split_string str sep = split_from sep [] str

-- `Join`.
unfoldable pub join : List Bytes → Bytes → Bytes
join [] sep = []
join (x ∷ []) sep = x
join (x ∷ y ∷ xs) sep = x ++ (sep ++ join (y ∷ xs) sep)

-- `GetValidLength` of the `max_len` bytes at a pointer, which may be null; 64-bit subtraction.
pub index_of_zero : Bytes → ℕ → ℕ
index_of_zero str zero = 0
index_of_zero [] (suc n) = 0
index_of_zero (c ∷ str) (suc n) = if nat_beq c 0 then 0 else suc (index_of_zero str n)

pub get_valid_length : Option Bytes → ℕ → ℕ
unfolding index_of_zero
get_valid_length none max_len = 0
get_valid_length (some str) max_len =
    min (index_of_zero str max_len) ((max_len + 18446744073709551615) % 18446744073709551616)

-- `RemoveSuffix`: the first suffix of the list that fits is cut off.
pub remove_first : Bytes → List Bytes → Bytes
unfolding ends_with
remove_first str [] = str
remove_first str (suffix ∷ suffixes) =
    if ends_with str suffix
    then take (length str - length suffix) str
    else remove_first str suffixes

pub remove_suffix : Bytes → List Bytes → Bytes
unfolding remove_first
remove_suffix str suffixes = if is_empty str then str else remove_first str suffixes

-- `ExtractObjName`: the length of the name is a difference of two `size_t`, which wraps.
pub extract_obj_name : Bytes → Bytes → Bytes → Bytes
unfolding find find_from starts_with
extract_obj_name str prefix suffix = elim (find str prefix) [
  | none ↦ []
  | some p ↦ elim (find str suffix) [
    | none ↦ []
    | some s ↦
        let start = p + length prefix in
        take ((s + 18446744073709551616 - start) % 18446744073709551616) (drop start str)
  ]
]

-- `GetInvalidChar`, and what each is replaced by.
pub replacement : ℕ → Option Bytes
replacement c =
    if nat_beq c 10
    then some (b'\\' ∷ b'n' ∷ [])
    else if nat_beq c 12
    then some (b'\\' ∷ b'f' ∷ [])
    else if nat_beq c 13
    then some (b'\\' ∷ b'r' ∷ [])
    else if nat_beq c 8
    then some (b'\\' ∷ b'b' ∷ [])
    else if nat_beq c 9
    then some (b'\\' ∷ b't' ∷ [])
    else if nat_beq c 11
    then some (b'\\' ∷ b'v' ∷ [])
    else if nat_beq c 127
    then some (b'\\' ∷ b'u' ∷ b'0' ∷ b'0' ∷ b'7' ∷ b'F' ∷ [])
    else none

-- `ToSafeString`: the loop goes on behind each replacement.
pub to_safe_string : Bytes → Bytes
unfolding replacement
to_safe_string [] = []
to_safe_string (c ∷ str) = elim (replacement c) [
  | none ↦ c ∷ to_safe_string str
  | some r ↦ r ++ to_safe_string str
]

-- `FormatNameForLog`: the 32-bit FNV-1a hash in hexadecimal digits.
pub fnv_hash : ℕ → Bytes → ℕ
fnv_hash hash [] = hash
fnv_hash hash (c ∷ str) = fnv_hash ((bit_xor hash c * 16777619) % 4294967296) str

pub hex_digit : ℕ → ℕ
hex_digit d = if ltb d 10 then b'0' + d else b'a' + d - 10

pub hex_digits : ℕ → ℕ → Bytes → Bytes
unfolding hex_digit
hex_digits zero hash out = out
hex_digits (suc n) hash out = hex_digits n (hash / 16) (hex_digit (hash % 16) ∷ out)

pub format_name_for_log : Bytes → Bytes
unfolding fnv_hash hex_digits
format_name_for_log str =
    if is_empty str
    then []
    else (b'h' ∷ b'a' ∷ b's' ∷ b'h' ∷ b'=' ∷ []) ++ hex_digits 8 (fnv_hash 2166136261 str) []

-- `Strip` with its default set, the space.
unfoldable pub strip_left : Bytes → Bytes
strip_left [] = []
strip_left (c ∷ str) = if nat_beq c b' ' then strip_left str else c ∷ str

unfoldable pub strip_right : Bytes → Bytes
strip_right [] = []
strip_right (c ∷ str) =
    let rest = strip_right str in if is_empty rest && nat_beq c b' ' then [] else c ∷ rest

unfoldable pub strip : Bytes → Bytes
unfolding strip_left strip_right
strip str = strip_right (strip_left str)

-- The value of decimal digits.
pub decimal_value : ℕ → Bytes → ℕ
decimal_value n [] = n
decimal_value n (c ∷ str) = decimal_value (n * 10 + (c - b'0')) str

-- `StringToNum` at an unsigned type of `bits` bits; reading fails on overflow. The type of 8 bits is
-- a character, of which `>>` reads one. `none` is `false`.
pub string_to_num : ℕ → Bytes → Option ℕ
unfolding is_digit decimal_value
string_to_num bits str =
    if not (is_digit str)
    then none
    else if starts_with str (b'-' ∷ [])
    then none
    else if nat_beq bits 8
    then get_elem? str 0
    else let n = decimal_value 0 (unsigned_part str) in if ltb n (2 ^ bits) then some n else none
