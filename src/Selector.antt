-- ===== src/Selector.antt =====
-- csrc/core/FuncSelector.h and FuncSelector.cpp: which tool the library works for; and
-- csrc/runtime/inject_helpers/KernelMatcher.h and KernelMatcher.cpp: which launches a tool follows.
pub mod Choice
use msopcom.Prelude.{
  ℕ, Bool, true, false, not, ◌&&◌, ◌||◌, Option, nat_beq, if◌then◌else◌, is_empty, is_some,
}
use msopcom.Wire.{Bytes}
use msopcom.Text.{find}

-- `ToolType`.
pub data ToolType : Type 0 where
  nothing : ToolType
  prof : ToolType
  sanitizer : ToolType
  test : ToolType

pub same_tool : ToolType → ToolType → Bool
same_tool nothing nothing = true
same_tool prof prof = true
same_tool sanitizer sanitizer = true
same_tool test test = true
same_tool a b = false

pub record FuncSelector : Type 0 where
  pub tool_type : ToolType
  pub sub_type : ToolType

-- `Set`.
pub set : ToolType → FuncSelector → FuncSelector
set t s = record s { tool_type = t }

-- `Reset`, for the test type only.
pub reset : ToolType → FuncSelector → Bool × FuncSelector
reset t s =
    if not (same_tool s.tool_type test) then (false, s) else (true, record s { sub_type = t })

-- `Match`.
pub matches : ToolType → FuncSelector → Bool
unfolding same_tool
matches t s =
    if same_tool s.tool_type nothing
    then false
    else if same_tool s.tool_type test
    then same_tool s.sub_type t
    else same_tool s.tool_type t

-- `KernelMatcher::Config`.
pub record MatchConfig : Type 0 where
  pub launch_id : ℕ
  pub reg_id : ℕ
  pub kernel_name : Bytes

abbrev pub any_id : ℕ
any_id = 18446744073709551615

-- `IsMatchAll`.
pub is_match_all : MatchConfig → Bool
is_match_all c = nat_beq c.launch_id any_id && is_empty c.kernel_name && nat_beq c.reg_id any_id

-- `KernelMatcher::Match`.
pub match_launch : MatchConfig → ℕ → Bytes → Bool
unfolding is_match_all
match_launch c launch name =
    if is_match_all c
    then true
    else if not (nat_beq c.launch_id any_id)
    then nat_beq launch c.launch_id
    else if not (is_empty c.kernel_name)
    then is_some (find name c.kernel_name)
    else false
