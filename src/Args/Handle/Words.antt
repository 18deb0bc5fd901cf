-- ===== src/Args/Handle/Words.antt =====
-- The addresses that UpdateNormalTaskArgsAddr of csrc/runtime/inject_helpers/ArgsHandleContext.cpp
-- finds in the recorded parameters, against those that Save of ArgsRawContext.cpp reads from a block.
use msopcom.Prelude.{◌%◌, ◌≡◌, List, [], ◌∷◌, ◌++◌, length}
use msopcom.Wire.{Bytes}
use msopcom.Args.Handle.{ParamData, normal}

-- A parameter of whole words that is no placeholder.
abbrev pub IsWhole : ParamData → Type 0
IsWhole p = (p.param_type ≡ normal) × (length p.param % 8 ≡ 0)

-- The parameters one behind the other.
abbrev pub contents : List ParamData → Bytes
contents [] = []
contents (p ∷ ps) = p.param ++ contents ps
