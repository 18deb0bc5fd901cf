-- ===== src/Replacement/Pairs.antt =====
-- The registrations of csrc/runtime/inject_helpers/KernelReplacement.cpp over any sequence of its calls.
use msopcom.Prelude.{
  ℕ, ◌≡◌, ◌≢◌, refl, sym, subst, ap, ◌∙◌, Bool, true, false, not, ◌||◌, Option, none, some, List,
  [], ◌∷◌, if◌then◌else◌, is_empty, is_some, nat_beq, nat_beq_iff,
}
use msopcom.Wire.{Bytes}
use msopcom.Selector.{any_id}
use msopcom.Replacement.{
  DevBinary, KernelContext, RuntimeCall, KernelReplaceTask, KernelReplacement, Step, init_with,
  create, release, register_binary, unregister_binary, init, destroy, new_task, run_registered,
  run_event, run_task, settled, create_task, create_known, is_refused, held_handle, create_handle,
  release_task, release_handle, step, run, get_register_event, follows, get_launch_name,
  get_register_id_at,
}

-- Every registration gave a handle that is not null and was undone before the next one, but the
-- last one, whose handle is given, `none` when that was undone too.
pub data IsPaired : List RuntimeCall → Option ℕ → Type 0 where
  nothing : IsPaired [] none
  opened :
      (with_stub : Bool) (bin : DevBinary) (h : ℕ) (calls : List RuntimeCall)
      → h ≢ 0
      → IsPaired calls none
      → IsPaired (register_binary with_stub bin h ∷ calls) (some h)
  closed :
      (h : ℕ) (calls : List RuntimeCall)
      → IsPaired calls (some h)
      → IsPaired (unregister_binary h ∷ calls) none

abbrev pub held : Option KernelReplaceTask → Option ℕ
held none = none
held (some t) = some t.handle

-- The registration that was not undone is that of the task, and there is a task exactly when there
-- is an id of the kernel that it replaces.
abbrev pub IsHeld : KernelReplacement → Type 0
IsHeld s =
    IsPaired s.calls (held s.replace_task)
    × (is_some s.replace_task ≡ not (nat_beq s.old_kernel_reg_id any_id))

-- The runtime gives no null handle.
abbrev pub IsGiven : Step → Type 0
IsGiven (create k content answer given launch) = answer ≢ some 0
IsGiven x = Unit

abbrev pub AreGiven : List Step → Type 0
AreGiven [] = Unit
AreGiven (x ∷ xs) = IsGiven x × AreGiven xs

either :
    {A : Type 0} (P : A → Type 0) (b : Bool) (x y : A)
    → (b ≡ true → P x)
    → (b ≡ false → P y)
    → P (if b then x else y)
either P true x y f g = f refl
either P false x y f g = g refl

not_null : {calls : List RuntimeCall} {h : ℕ} → IsPaired calls (some h) → h ≢ 0
not_null (opened w b h c nonzero p) = nonzero

destroy-IsPaired :
    (t : Option KernelReplaceTask) (calls : List RuntimeCall)
    → IsPaired calls (held t)
    → IsPaired (destroy t calls) none
unfolding destroy
destroy-IsPaired none calls p = p
destroy-IsPaired (some t) calls p =
    either (λ c. IsPaired c none) (nat_beq t.handle 0) calls (unregister_binary t.handle ∷ calls)
      (λ e. absurd (not_null p ((nat_beq_iff t.handle 0).0 e))) (λ e. closed t.handle calls p)

-- What a run leaves behind, where the task's handle was null.
abbrev IsRun : Bool × KernelReplaceTask × List RuntimeCall → Type 0
IsRun (true, t, calls) = IsPaired calls (some t.handle)
IsRun (false, t, calls) = (t.handle ≡ 0) × IsPaired calls none

run_task-IsRun :
    (k : KernelContext) (content : Bytes) (answer : Option ℕ) (reg_id : ℕ) (with_stub : Bool)
    → (path : Bytes) (calls : List RuntimeCall) → answer ≢ some 0
    → IsPaired calls none
    → IsRun (run_task k content answer reg_id with_stub (new_task path) calls)
unfolding run_task run_event run_registered new_task
run_task-IsRun k content answer reg_id with_stub path calls given p =
    of_event (get_register_event reg_id k) answer given
  where
    of_answer :
        (answer : Option ℕ) (bin : DevBinary)
        → answer ≢ some 0
        → IsRun (run_registered answer with_stub bin (new_task path) calls)
    of_answer none bin given = (refl, p)
    of_answer (some h) bin given = opened with_stub bin h calls (λ e. given (ap some e)) p

    of_event :
        (event : Option DevBinary) (answer : Option ℕ)
        → answer ≢ some 0
        → IsRun (run_event event content answer with_stub (new_task path) calls)
    of_event none answer given = (refl, p)
    of_event (some old) answer given =
        either IsRun (is_empty content) _ _ (λ e. (refl, p))
          (λ e. of_answer answer (record old { bytes = content }) given)

pub bool_clash : true ≡ false → ⊥
bool_clash e = cc

is_not : (id : ℕ) → nat_beq id any_id ≡ false → true ≡ not (nat_beq id any_id)
is_not id e = ap not (sym e)

settled-IsHeld :
    (r : Bool × KernelReplaceTask × List RuntimeCall) (reg_id : ℕ) (s : KernelReplacement)
    → nat_beq reg_id any_id ≡ false
    → nat_beq s.old_kernel_reg_id any_id ≡ true
    → IsRun r
    → IsHeld (settled r reg_id s).1
unfolding settled destroy
settled-IsHeld (true, t, calls) reg_id s known unset p = (p, is_not reg_id known)
settled-IsHeld (false, t, calls) reg_id s known unset (null, p) = (
  either (λ c. IsPaired c none) (nat_beq t.handle 0) calls _ (λ e. p)
      (λ e. absurd (bool_clash (sym ((nat_beq_iff t.handle 0).1 null) ∙ e))),
  ap not (sym unset),
)

or_false : (a b : Bool) → (a || b) ≡ false → b ≡ false
or_false false b e = e
or_false true b e = absurd (bool_clash e)

not-false : (b : Bool) → not b ≡ false → b ≡ true
not-false true e = refl
not-false false e = absurd (bool_clash e)

create_known-IsHeld :
    (k : KernelContext) (content : Bytes) (answer : Option ℕ) (reg_id : ℕ) (s : KernelReplacement)
    → answer ≢ some 0
    → nat_beq reg_id any_id ≡ false
    → IsHeld s
    → IsHeld (create_known k content answer reg_id s).1
unfolding create_known create_task
create_known-IsHeld k content answer reg_id s valid known h =
    let calls = destroy s.replace_task s.calls in
    let result = run_task k content answer reg_id false (new_task s.kernel_path) calls in
    either (λ (r : (Bool × Option ℕ) × KernelReplacement). IsHeld r.1)
      (not (nat_beq s.old_kernel_reg_id any_id))
      (held_handle s.replace_task s.old_kernel_reg_id reg_id, s) (settled result reg_id s) (λ e. h)
      (λ e.
        settled-IsHeld result reg_id s known (not-false (nat_beq s.old_kernel_reg_id any_id) e) (
          run_task-IsRun k content answer reg_id false s.kernel_path calls valid
            (destroy-IsPaired s.replace_task s.calls h.0)))

known_id :
    (k : KernelContext) (given : Bool) (launch : ℕ) (s : KernelReplacement)
    → is_refused k given launch s ≡ false
    → nat_beq (get_register_id_at launch k) any_id ≡ false
unfolding is_refused
known_id k given launch s e =
    let name = get_launch_name any_id k in
    let known = nat_beq (get_register_id_at launch k) any_id in
    let last = not (follows s.matcher launch name) in
    or_false (not given || is_empty s.kernel_path || last) known e

create_handle-IsHeld :
    (k : KernelContext) (content : Bytes) (answer : Option ℕ) (given : Bool) (launch : ℕ)
    → (s : KernelReplacement) → answer ≢ some 0
    → IsHeld s
    → IsHeld (create_handle k content answer given launch s).1
unfolding create_handle
create_handle-IsHeld k content answer given launch s valid h =
    either (λ (r : (Bool × Option ℕ) × KernelReplacement). IsHeld r.1) (is_refused k given launch s)
      ((false, none), s) (create_known k content answer (get_register_id_at launch k) s) (λ e. h)
      (λ e.
        create_known-IsHeld k content answer (get_register_id_at launch k) s valid
          (known_id k given launch s e) h)

release_task-IsHeld :
    (t : Option KernelReplaceTask) (reg_id : ℕ) (s : KernelReplacement)
    → t ≡ s.replace_task
    → IsHeld s
    → IsHeld (release_task t reg_id s).1
unfolding release_task
release_task-IsHeld none reg_id s same h = h
release_task-IsHeld (some t) reg_id s same h =
    either (λ (r : Bool × KernelReplacement). IsHeld r.1)
      (nat_beq reg_id any_id || not (nat_beq reg_id s.old_kernel_reg_id)) (false, s)
      (
        true,
        record s {
          replace_task = none;
          calls = destroy (some t) s.calls;
          old_kernel_reg_id = any_id;
        },
      )
      (λ e. h)
      (λ e. (
        destroy-IsPaired (some t) s.calls (subst (λ o. IsPaired s.calls (held o)) (sym same) h.0),
        refl,
      ))

step-IsHeld : (x : Step) (s : KernelReplacement) → IsGiven x → IsHeld s → IsHeld (step x s)
unfolding step init release_handle
step-IsHeld (init_with path config) s given h = h
step-IsHeld (create k content answer g launch) s given h =
    create_handle-IsHeld k content answer g launch s given h
step-IsHeld (release k handle) s given h = release_task-IsHeld s.replace_task _ s refl h

-- Over any sequence of calls in which the runtime gives no null handle, every registered kernel is
-- unregistered once before the next one is registered, and the one that is not is the task's.
-- There is a task exactly when there is an id of the kernel that it replaces.
pub run-IsHeld :
    (xs : List Step) (s : KernelReplacement) → AreGiven xs → IsHeld s → IsHeld (run xs s)
unfolding run
run-IsHeld [] s given h = h
run-IsHeld (x ∷ xs) s given h = run-IsHeld xs (step x s) given.1 (step-IsHeld x s given.0 h)
