-- ===== src/Managers/Tests.antt =====
-- The laws of the managers at a concrete sequence of calls.
use msopcom.Prelude.{
  ℕ, ◌≡◌, refl, ap, ◌∙◌, Option, none, some, List, [], ◌∷◌, false, lookup, lookup-insert_self,
  nat_eq,
}
use msopcom.Wire.{Bytes}
use msopcom.Managers.{
  RegisterContext, FuncContext, stub, LaunchContext, Managers, Call, register_data, find_func,
  launch, registered, create_func, create_func_of, create_from_data, fresh, step, run, get_register,
  get_func, create_launch, get_launch, get_func_by_entry,
}
use msopcom.Managers.Launches.{get_launch-run}
use msopcom.Managers.Registrations.{run-reg_id, get_func_by_entry-run}

abbrev keep_all : Bytes → Option Bytes
keep_all b = some b

abbrev no_file : Bytes → Option Bytes
no_file path = none

-- Two binaries, the first one registered twice, and a function of it.
abbrev calls : List (Call ℕ)
calls =
    register_data (1 ∷ []) 5 0
    ∷ register_data (2 ∷ []) 6 0
    ∷ register_data (3 ∷ []) 5 0
    ∷ find_func 5 (stub []) 7
    ∷ []

abbrev five : RegisterContext Bytes
five = record { reg_id = 2; magic = 0; bin_handle = 5; binary = 3 ∷ [] }

abbrev seven : FuncContext Bytes
seven = record { register_context = five; func_kind = stub []; func_handle = 7 }

abbrev ready : Managers ℕ Bytes
ready = run keep_all no_file calls fresh

five_found : get_register 5 ready.register_manager ≡ some five
unfolding run step create_from_data registered fresh get_register
five_found = lookup-insert_self 5 five _

run-reg_id_example : ◌≡◌ {A = ℕ} 5 5
run-reg_id_example = run-reg_id keep_all no_file calls 5 5 five five five_found five_found refl

seven_found : get_func 7 ready.func_manager ≡ some seven
unfolding run step create_from_data registered create_func create_func_of fresh get_func
    get_register
seven_found =
    ap
      (λ r.
        lookup 7 (create_func_of r (stub []) 7 (fresh {A = ℕ} {B = Bytes}).func_manager).1.funcs)
      five_found
    ∙ lookup-insert_self 7 seven []

get_launch-run_example :
    (ctx : LaunchContext ℕ Bytes) × ((create_launch false
        (get_func 7 ready.func_manager)
        (some 9)
        1
        0
        none
        ready.launch_manager).0
      ≡ some ctx)
    × (ctx.func_ctx ≡ seven)
    × (ctx.args_ctx ≡ 9)
    × (get_launch ctx.launch_id
          (run keep_all no_file (launch false 7 (some 9) 1 0 none ∷ calls) ready).launch_manager
        ≡ some ctx)
get_launch-run_example =
    get_launch-run keep_all no_file false 7 1 0 none seven 9 calls ready seven_found

get_func_by_entry-run_example : get_func_by_entry 5 0 ready.func_manager ≡ none
get_func_by_entry-run_example = get_func_by_entry-run keep_all no_file calls 5 0
