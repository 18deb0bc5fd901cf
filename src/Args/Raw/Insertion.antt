-- ===== src/Args/Raw/Insertion.antt =====
-- ExpandArgs and ExpandArgsAt of csrc/runtime/inject_helpers/ArgsRawContext.cpp on the arguments of a
-- launch: the new parameter, and the tiling data of the last placeholder.
use msopcom.Prelude.{ℕ, ◌-◌, ◌≡◌, Bool, false, List, [], ◌++◌, length, take, drop, replicate}
use msopcom.Wire.{Bytes}
use msopcom.Args.Raw.{
  PlaceHolder, ArgsRawContext, expanded_of, RawRuntime, copy_of, aligned, get_tiling_data,
}

-- The arguments, filled up with zeros to a multiple of 8 bytes.
abbrev padded : Bytes → Bytes
padded bytes = bytes ++ replicate (aligned (length bytes) - length bytes) 0

-- The context of a block that is not empty.
abbrev copied : ℕ → Bytes → List PlaceHolder → ArgsRawContext
copied self bytes holders = record {
  self = self;
  args = copy_of self;
  args_size = length bytes;
  is_device_args = false;
  need_free = false;
  args_with_mem_info = [];
  args_copy = bytes;
  place_holder_array = holders;
}

-- The context that holds `bytes` with one more parameter at `offset`.
abbrev pub IsExpanded : ℕ → ℕ → Bytes → Bytes → List PlaceHolder → ℕ → ArgsRawContext → Type 0
IsExpanded self offset param bytes holders size c =
    (c.args ≡ expanded_of self)
    × (c.args_size ≡ length c.args_with_mem_info)
    × (take (length param) (drop offset c.args_with_mem_info) ≡ param)
    × (get_tiling_data size c.args_with_mem_info c.place_holder_array
        ≡ get_tiling_data size bytes holders)

module _ {D : Type 0} (rt : RawRuntime D) (self : ℕ) (overflow : Bool) (param bytes : Bytes)
    (holders : List PlaceHolder) (d : D) where
  abbrev start : ArgsRawContext
  start = copied self bytes holders
