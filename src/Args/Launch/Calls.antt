-- ===== src/Args/Launch/Calls.antt =====
-- ExpandArgs of csrc/runtime/inject_helpers/LaunchArgs.cpp as a whole.
use msopcom.Prelude.{◌+◌, ◌%◌, some, if◌then◌else◌, length}
use msopcom.Wire.{Bytes}
use msopcom.Args.Launch.{LaunchArgs, shifted_inputs}

-- The arguments after the call.
abbrev changed : LaunchArgs → Bytes → LaunchArgs
changed a new = record a {
  args = some new;
  args_size = length new % 4294967296;
  host_input_info = some (shifted_inputs a);
  tiling_data_offset =
      if a.has_tiling then (a.tiling_data_offset + 8) % 4294967296 else a.tiling_data_offset;
}
