-- ===== src/Replacement/Tests.antt =====
-- The laws of the replacement at a concrete sequence of calls.
use msopcom.Prelude.{
  ℕ, ◌≡◌, refl, arith, ◌&&◌, nat_beq, if◌then◌else◌, false, Option, none, some, List, [], ◌∷◌, true,
  ◌≢◌,
}
use msopcom.Selector.{MatchConfig, any_id}
use msopcom.Replacement.{
  KernelReplaceTask, create_handle, get_register_id_at, register_binary, KernelContext,
  KernelReplacement, Step, init_with, create, release, run, unused,
}
use msopcom.Replacement.Sharing.{is_wanted, create_handle-run}
use msopcom.Replacement.Pairs.{IsHeld, nothing, opened, run-IsHeld}

abbrev all_launches : MatchConfig
all_launches = record { launch_id = any_id; reg_id = any_id; kernel_name = [] }

abbrev one_kernel : KernelContext
one_kernel = record {
  launch_events = record { hdl = 70; kernel_name = 97 ∷ [] } ∷ [];
  stub_info = [];
  hdl_to_reg_id = (70, 0) ∷ [];
  register_events = record { magic = 3; version = 1; bytes = 1 ∷ [] } ∷ [];
}

-- The first creation fails in the runtime, the second gives a handle, the third finds it.
abbrev steps : List Step
steps =
    init_with (47 ∷ []) all_launches
    ∷ create one_kernel (9 ∷ []) none true 0
    ∷ create one_kernel (9 ∷ []) (some 500) true 0
    ∷ create one_kernel (9 ∷ []) (some 600) true 0
    ∷ release one_kernel 70
    ∷ []

no_error : ◌≢◌ {A = Option ℕ} none (some 0)
no_error e = cc

no_zero : (n : ℕ) → n ≢ 0 → some n ≢ some 0
no_zero n e f = absurd (e cc)

run-IsHeld_example : IsHeld (run steps unused)
run-IsHeld_example =
    run-IsHeld steps unused
      (
        tt,
        (
          no_error,
          (no_zero 500 (λ e. omega (arith, e)), (no_zero 600 (λ e. omega (arith, e)), (tt, tt))),
        ),
      )
      (nothing, refl)

-- A state with the kernel replaced, and creations for two of its launches.
abbrev task : KernelReplaceTask
task = record {
  kernel_path = 47 ∷ [];
  bin = record { magic = 3; version = 1; bytes = 9 ∷ [] };
  handle = 500;
}

abbrev busy : KernelReplacement
busy = record {
  old_kernel_reg_id = 0;
  kernel_path = 47 ∷ [];
  matcher = some all_launches;
  replace_task = some task;
  calls = register_binary false task.bin 500 ∷ [];
}

abbrev later : List Step
later = init_with [] all_launches ∷ init_with (47 ∷ []) all_launches ∷ []

create_handle-run_example :
    (create_handle one_kernel (8 ∷ []) (some 600) true 0 (run later busy) ≡ (
      if is_wanted one_kernel true 0 (run later busy) && nat_beq 0 (get_register_id_at 0 one_kernel)
          then (true, some 500)
          else (false, none),
      run later busy,
    ))
    × ((run later busy).replace_task ≡ some task)
    × ((run later busy).calls ≡ busy.calls)
create_handle-run_example =
    create_handle-run later task busy refl
      (opened false task.bin 500 [] (λ e. omega (arith, e)) nothing, refl) tt one_kernel (8 ∷ [])
      (some 600) true 0
