-- ===== src/Selector/Choice.antt =====
-- How the tests of csrc/core/FuncSelector.cpp and csrc/runtime/inject_helpers/KernelMatcher.cpp
-- follow from the configuration.
use msopcom.Prelude.{ℕ, ◌≡◌, refl, arith, false, nat_beq, if◌then◌else◌, is_some, is_empty}
use msopcom.Wire.{Bytes}
use msopcom.Text.{find}
use msopcom.Selector.{
  ToolType, nothing, prof, sanitizer, test, FuncSelector, same_tool, set, reset, matches,
  MatchConfig, match_launch, any_id,
}

-- After `Set`, the tool that was set matches and each other does not, unless it is the type none or
-- the test type: after none nothing matches, and under the test type a following `Reset` succeeds
-- and decides alone. For every other type `Reset` fails and changes nothing.
pub matches-set :
    (t sub other : ToolType) (s : FuncSelector)
    → let (accepted, after) = reset sub (set t s) in
      (matches other (set nothing s) ≡ false)
      × (accepted ≡ same_tool t test)
      × (matches other after ≡ (
          if same_tool t nothing
          then false
          else (if same_tool t test then same_tool sub other else same_tool t other)))
unfolding matches set reset same_tool
matches-set nothing sub other s = (refl, refl, refl)
matches-set prof sub other s = (refl, refl, refl)
matches-set sanitizer sub other s = (refl, refl, refl)
matches-set test sub other s = (refl, refl, refl)

-- A launch is followed by its id when the configuration gives one, whatever else it gives; else by
-- its name when it gives one; and else exactly when it gives no registration id either.
pub match_launch_order :
    (c : MatchConfig) (launch : ℕ) (name : Bytes)
    → match_launch c launch name ≡ (
        if nat_beq c.launch_id any_id
        then (if is_empty c.kernel_name
            then nat_beq c.reg_id any_id
            else is_some (find name c.kernel_name))
        else nat_beq launch c.launch_id)
unfolding match_launch
match_launch_order c launch name = ground arith
