-- ===== src/MetaData/Tests.antt =====
-- The laws of csrc/runtime/inject_helpers/KernelMetaDataParser.cpp at concrete sections.
use msopcom.Prelude.{◌≡◌, ◌≢◌, refl, arith, [], ◌∷◌, some}
use msopcom.Wire.{Bytes}
use msopcom.MetaData.{cleared, parse, no_fuel, args_turn, turn_overread, big}
use msopcom.MetaData.Turns.{IsBytes}
use msopcom.MetaData.Ending.{parse_ends}
use msopcom.MetaData.Reads.{args_turn_overread}

-- One record of type 4 whose arguments take 16 bytes: an input of 32 bytes.
abbrev one_input : Bytes
one_input =
    4 ∷ 0 ∷ 16 ∷ 0 ∷ 0 ∷ 0 ∷ 0 ∷ 2 ∷ 0 ∷ 0 ∷ 0 ∷ 0 ∷ 0 ∷ 1 ∷ 0 ∷ 2 ∷ 0 ∷ 0 ∷ 0 ∷ 0 ∷ 0 ∷ 0 ∷ 0 ∷ 32
    ∷ []

its-IsBytes : IsBytes one_input
its-IsBytes = ground arith

parse_ends_example : parse [] 64 one_input ≢ no_fuel
parse_ends_example = parse_ends [] 64 one_input its-IsBytes (omega arith)

-- Eight bytes of arguments, of which the count at bytes 2 and 3 is 1.
abbrev cut_short : Bytes
cut_short = 0 ∷ 0 ∷ 0 ∷ 1 ∷ 0 ∷ 0 ∷ 0 ∷ 0 ∷ []

its_count : big cut_short 2 2 0 ≡ some 1
unfolding big
its_count = refl

args_turn_overread_example : args_turn [] 64 cut_short 8 0 0 cleared ≡ turn_overread
args_turn_overread_example =
    args_turn_overread [] 64 cut_short 8 0 0 1 cleared (omega arith) (omega arith) (omega arith)
      (omega arith) its_count (ground arith)
