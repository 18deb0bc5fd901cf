-- ===== src/Args/Tests.antt =====
-- The laws of the argument contexts at concrete arguments.
use msopcom.Prelude.{
  ℕ, ◌≡◌, inl, inr, refl, ap, arith, Bool, true, false, Option, none, some, List, [], ◌∷◌, ◌++◌,
  ltb, nat_beq, length, replicate, if◌then◌else◌, Bool-cases,
}
use msopcom.Wire.{Bytes}
use msopcom.Args.Handle.{normal, placeholder, ArgsHandleContext, ArgsRuntime, generate_args_handle}
use msopcom.MetaData.{AddrInfo, MemInfoDesc}
use msopcom.Args.Raw.{
  PlaceHolder, ArgsRawContext, RawRuntime, expanded_of, address, block_at, raw_of_block,
  raw_of_host_args, aligned, inserted, expand_args_at, insert_at, read_args, clone, destroy,
}
use msopcom.Args.Raw.Cloning.{IsInside, IsOwn, read_args-clone, destroy-clone, expand_args_at_again}
use msopcom.Args.Manager.{AdumpInfo, or_else, get_adump_info_from_tiling_data}
use msopcom.Args.Manager.Scan.{search_index, get_adump_info_from_tiling_data-search_index}
use msopcom.Args.Handle.Replay.{Slot, value, buffer, replace_at, Builds, Counted}
use msopcom.Args.Handle.Generated.{Generated, generate_args_handle-Generated}

-- A runtime with one handle that holds at most four parameters.
abbrev Board : Type 0
Board = List Slot × Bool

abbrev added : Slot → Board → ℕ × ℕ × Board
added a s =
    if ltb (length s.0) 4 then (0, length s.0, (s.0 ++ (a ∷ []), s.1)) else (1, 0, (s.0, true))

abbrev board : ArgsRuntime Board
board = record {
  args_init = λ s f. (0, 1, ([], s.1));
  args_append = λ s h b. added (value b) s;
  args_append_place_holder = λ s h. added (buffer []) s;
  args_get_place_holder_buffer = λ s h p n. (0, p, s);
  write_buffer = λ s p b. (replace_at p (buffer b) s.0, s.1);
  args_finalize = λ s h. (0, s);
}

abbrev held : Board → ℕ → List Slot
held s h = s.0

abbrev place : Board → ℕ → ℕ → Option ℕ
place s h p = some p

abbrev was_refused : Board → Bool
was_refused s = s.1

added_holds :
    (a : Slot) (s : Board)
    → (added a s).0 ≡ 0
    → ((added a s).2.0 ≡ s.0 ++ (a ∷ [])) × ((added a s).1 ≡ length s.0)
added_holds a s e = elim (Bool-cases (ltb (length s.0) 4)) [
  | inl room ↦ ground (arith, room)
  | inr full ↦ ground (arith, full, e)
]

added-Counted : (a : Slot) (s : Board) → Counted was_refused (added a s).0 s (added a s).2
added-Counted a s = elim (Bool-cases (ltb (length s.0) 4)) [
  | inl room ↦ ground (arith, room)
  | inr full ↦ ground (arith, full)
]

board-Builds : Builds board held place was_refused
board-Builds = record {
  init = λ s f e. (ground arith, refl);
  init_counted = λ s f. (λ e. refl, λ e. absurd (e refl));
  append = λ s h b e. let a = added_holds (value b) s e in (a.0, ap some a.1);
  append_counted = λ s h b. added-Counted (value b) s;
  append_keeps = λ s h p i b at. at;
  append_place_holder = λ s h e. let a = added_holds (buffer []) s e in (a.0, ap some a.1);
  append_place_holder_counted = λ s h. added-Counted (buffer []) s;
  append_place_holder_keeps = λ s h p i at. at;
  get_buffer = λ s h p i b at e. ap (λ k. replace_at k (buffer b) s.0) (same p i at);
  get_buffer_counted = λ s h p n. (λ e. refl, λ e. absurd (e refl));
  get_buffer_keeps = λ s h p n q i b at. at;
  write_counted = λ s p b. refl;
  finish_counted = λ s h. (λ e. refl, λ e. absurd (e refl));
  finish = λ s h e. refl;
}
  where
    same : (p i : ℕ) → ◌≡◌ {A = Option ℕ} (some p) (some i) → p ≡ i
    same p i at = cc

-- Two words and a placeholder of two bytes.
abbrev two_words : ArgsHandleContext
two_words = record {
  params =
      record { param_handle = 7; param = 1 ∷ 2 ∷ []; param_type = normal; src_buffer = 0 }
      ∷ record { param_handle = 8; param = 3 ∷ 4 ∷ []; param_type = placeholder; src_buffer = 5 }
      ∷ [];
  func_handle = 2;
  args_handle = 3;
  finalized = true;
}

generate_args_handle-Generated_example :
    Generated board held place was_refused board-Builds two_words.params
      (generate_args_handle board two_words ([], false))
generate_args_handle-Generated_example =
    generate_args_handle-Generated board held place was_refused board-Builds two_words ([], false)
      refl

abbrev two_pointers : ArgsHandleContext
two_pointers = record {
  params =
      record {
        param_handle = 7;
        param = 1 ∷ 0 ∷ 0 ∷ 0 ∷ 0 ∷ 0 ∷ 0 ∷ 0 ∷ 2 ∷ 0 ∷ 0 ∷ 0 ∷ 0 ∷ 0 ∷ 0 ∷ 0 ∷ [];
        param_type = normal;
        src_buffer = 0;
      }
      ∷ [];
  func_handle = 2;
  args_handle = 3;
  finalized = true;
}

abbrev one_info : List AddrInfo
one_info =
    record { addr = 0; byte_count = 32; mem_info_desc = MemInfoDesc.input; params_no = 0 } ∷ []

-- A runtime that notes what it frees.
abbrev noting : RawRuntime (List ℕ)
noting = record {
  bytes_at = λ d is_device p n. [];
  stale = λ d n. [];
  malloc = λ d n. (0, 64, d);
  free = λ d p. 1 ∷ d;
  copy_to = λ d p b. (0, d);
}

-- Two pointers, the second one to the two bytes of data behind them.
abbrev launch_args : Bytes
launch_args = 0 ∷ 0 ∷ 0 ∷ 0 ∷ 0 ∷ 0 ∷ 0 ∷ 0 ∷ 0 ∷ 0 ∷ 0 ∷ 0 ∷ 0 ∷ 0 ∷ 0 ∷ 0 ∷ 5 ∷ 6 ∷ []

abbrev launch_holders : List PlaceHolder
launch_holders = record { addr_offset = 8; data_offset = 16 } ∷ []

abbrev start : ArgsRawContext
start = raw_of_host_args 1 (block_at 32 launch_args) launch_holders

abbrev new_param : Bytes
new_param = 9 ∷ 9 ∷ 9 ∷ 9 ∷ 9 ∷ 9 ∷ 9 ∷ 9 ∷ []

read_args-clone_example :
    IsOwn 2 (clone 2 start).args
    × (¬ IsInside 1 (clone 2 start).args)
    × (read_args noting (clone 2 start) start.args_with_mem_info []
        ≡ read_args noting start start.args_with_mem_info [])
unfolding raw_of_host_args raw_of_block
read_args-clone_example = read_args-clone noting 2 start [] refl (omega arith)

-- Arguments that an expansion has moved to the address 64 of the device.
abbrev moved : ArgsRawContext
moved = record {
  self = 1;
  args = address 64;
  args_size = 8;
  is_device_args = true;
  need_free = true;
  args_with_mem_info = new_param;
  args_copy = [];
  place_holder_array = [];
}

destroy-clone_example :
    destroy noting moved (destroy noting (clone 2 moved) [])
    ≡ noting.free (noting.free [] (address 64)) (address 64)
destroy-clone_example = destroy-clone noting 2 64 moved [] refl refl

abbrev expanded : ArgsRawContext
expanded = record moved { args = expanded_of 1; is_device_args = false; need_free = false }

expand_args_at_again_example :
    (e : ArgsRawContext) × (expand_args_at noting 8 false new_param expanded []
      ≡ inserted true e (some 8) [])
    × (e.args ≡ expanded_of 1)
    × (e.args_with_mem_info ≡ insert_at 8 new_param (replicate 8 0))
unfolding aligned
expand_args_at_again_example =
    expand_args_at_again noting 8 false new_param expanded [] refl refl refl (omega arith) refl
      (omega arith)

-- Six magic bytes behind four others: indices at two positions, of which the second one has a record.
abbrev tiling : Bytes
tiling = 1 ∷ 2 ∷ 3 ∷ 4 ∷ 165 ∷ 165 ∷ 165 ∷ 165 ∷ 165 ∷ 165 ∷ []

abbrev one_record : ℕ → Option AdumpInfo
one_record index =
    if nat_beq index 11936128518268150530 then some (record { addr = 64; args_space = 2 }) else none

get_adump_info_from_tiling_data-search_index_example :
    get_adump_info_from_tiling_data one_record true 10 tiling
    ≡ or_else none (search_index one_record tiling 3 0)
unfolding or_else
get_adump_info_from_tiling_data-search_index_example =
    get_adump_info_from_tiling_data-search_index one_record true 10 tiling
