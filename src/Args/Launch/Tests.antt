-- ===== src/Args/Launch/Tests.antt =====
-- The laws of csrc/runtime/inject_helpers/LaunchArgs.cpp at concrete arguments.
use msopcom.Prelude.{true, false, none, some, [], ◌∷◌}
use msopcom.Wire.{Bytes}
use msopcom.Args.Launch.{LaunchArgs}

-- A pointer to a tiling of 2 bytes.
abbrev bytes : Bytes
bytes = 0 ∷ 0 ∷ 0 ∷ 0 ∷ 0 ∷ 0 ∷ 0 ∷ 0 ∷ 5 ∷ 6 ∷ []

abbrev tiled : LaunchArgs
tiled = record {
  args = some bytes;
  host_input_info = none;
  args_size = 10;
  tiling_addr_offset = 0;
  tiling_data_offset = 8;
  host_input_info_num = 0;
  has_tiling = true;
  is_no_need_h2d_copy = false;
}
