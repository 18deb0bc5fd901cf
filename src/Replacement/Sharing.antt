-- ===== src/Replacement/Sharing.antt =====
-- How the kernel that csrc/runtime/inject_helpers/KernelReplacement.cpp has registered serves later launches.
use msopcom.Prelude.{
  ℕ, ◌≡◌, refl, sym, ap, subst, ◌∙◌, arith, Bool, true, false, not, ◌&&◌, ◌||◌, Option, none, some,
  List, [], ◌∷◌, is_some, is_empty, nat_beq, inl, inr, if◌then◌else◌, Bool-cases,
}
use msopcom.Wire.{Bytes}
use msopcom.Selector.{any_id}
use msopcom.Replacement.{
  KernelContext, RuntimeCall, KernelReplaceTask, KernelReplacement, Step, init_with, create,
  release, init, is_refused, follows, create_known, held_handle, create_handle, get_launch_name,
  get_register_id_at, step, run,
}
use msopcom.Replacement.Pairs.{IsHeld, bool_clash}

-- No handle is released.
abbrev pub AreKept : List Step → Type 0
AreKept [] = Unit
AreKept (release k handle ∷ xs) = ⊥
AreKept (x ∷ xs) = AreKept xs

-- The task and the id of the kernel that it replaces, with the calls of the runtime so far.
abbrev IsServed : KernelReplaceTask → ℕ → List RuntimeCall → KernelReplacement → Type 0
IsServed t old calls s = (s.replace_task ≡ some t) × (s.old_kernel_reg_id ≡ old) × (s.calls ≡ calls)

-- What CreateHandle asks of a launch before it looks at the kernel's id.
abbrev pub is_wanted : KernelContext → Bool → ℕ → KernelReplacement → Bool
is_wanted k given launch s =
    given && not (is_empty s.kernel_path) && follows s.matcher launch (get_launch_name any_id k)

decided :
    (given empty follow any same : Bool) (y n : Bool × Option ℕ)
    → (any ≡ true → same ≡ false)
    → (if not given || empty || not follow || any then n else if same then y else n)
      ≡ (if given && not empty && follow && same then y else n)
decided false empty follow any same y n h = refl
decided true true follow any same y n h = refl
decided true false false any same y n h = refl
decided true false true false same y n h = refl
decided true false true true same y n h = sym (rw (h refl) refl)

create_handle-held_handle :
    (k : KernelContext) (content : Bytes) (answer : Option ℕ) (given : Bool) (launch : ℕ)
    → (s : KernelReplacement) → nat_beq s.old_kernel_reg_id any_id ≡ false
    → create_handle k content answer given launch s ≡ (
      if is_refused k given launch s
          then (false, none)
          else held_handle s.replace_task s.old_kernel_reg_id (get_register_id_at launch k),
      s,
    )
unfolding create_handle create_known
create_handle-held_handle k content answer given launch s known =
    elim (Bool-cases (is_refused k given launch s)) [
      | inl refused ↦ rw (create_handle, refused) refl
      | inr taken ↦ rw (create_handle, create_known, taken, known) refl
    ]

run-IsServed :
    (xs : List Step) (t : KernelReplaceTask) (old : ℕ) (calls : List RuntimeCall)
    → (s : KernelReplacement) → AreKept xs
    → nat_beq old any_id ≡ false
    → IsServed t old calls s
    → IsServed t old calls (run xs s)
unfolding run step init
run-IsServed [] t old calls s kept known h = h
run-IsServed (init_with path config ∷ xs) t old calls s kept known h =
    run-IsServed xs t old calls (init path config s) kept known h
run-IsServed (create k content answer g launch ∷ xs) t old calls s kept known h =
    let set : nat_beq s.old_kernel_reg_id any_id ≡ false = ap (λ n. nat_beq n any_id) h.1 ∙ known in
    let same = create_handle-held_handle k content answer g launch s set in
    run-IsServed xs t old calls (create_handle k content answer g launch s).1 kept known
      (subst (λ (r : (Bool × Option ℕ) × KernelReplacement). IsServed t old calls r.1) (sym same) h)
run-IsServed (release k handle ∷ xs) t old calls s kept known h = absurd kept

held_handle-answer :
    (o : Option KernelReplaceTask) (t : KernelReplaceTask) (old reg_id : ℕ)
    → o ≡ some t
    → held_handle o old reg_id
      ≡ (if nat_beq old reg_id then (true, some t.handle) else (false, none))
unfolding held_handle
held_handle-answer o t old reg_id e = rw e refl

-- While a kernel is replaced, and after any further calls that release no handle, CreateHandle
-- gives the handle of the one task when it is given a place for it, the path is not empty, the
-- matcher takes the launch and the launch's kernel is the one that is replaced; otherwise it refuses.
-- In either case nothing is asked of the runtime since, and the state stays as it is.
pub create_handle-run :
    (xs : List Step) (t : KernelReplaceTask) (s : KernelReplacement)
    → s.replace_task ≡ some t
    → IsHeld s
    → AreKept xs
    → (k : KernelContext) (content : Bytes) (answer : Option ℕ) (given : Bool) (launch : ℕ)
    → (create_handle k content answer given launch (run xs s) ≡ (
      if is_wanted k given launch (run xs s)
            && nat_beq s.old_kernel_reg_id (get_register_id_at launch k)
          then (true, some t.handle)
          else (false, none),
      run xs s,
    ))
      × ((run xs s).replace_task ≡ some t)
      × ((run xs s).calls ≡ s.calls)
unfolding is_refused
create_handle-run xs t s has h kept k content answer given launch =
    let q = run xs s in
    let old = s.old_kernel_reg_id in
    let id = get_register_id_at launch k in
    let follow = follows q.matcher launch (get_launch_name any_id k) in
    let known : nat_beq old any_id ≡ false =
      not-true (nat_beq old any_id) (sym h.1 ∙ ap is_some has) in
    let served = run-IsServed xs t old s.calls s kept known (has, refl, refl) in
    let set : nat_beq q.old_kernel_reg_id any_id ≡ false =
      ap (λ n. nat_beq n any_id) served.1 ∙ known in
    let clash : nat_beq id any_id ≡ true → nat_beq old id ≡ false = λ e. ground (arith, e, known) in
    let found : held_handle q.replace_task q.old_kernel_reg_id id
        ≡ (if nat_beq old id then (true, some t.handle) else (false, none)) =
      held_handle-answer q.replace_task t q.old_kernel_reg_id id served.0
      ∙ ap (λ n. if nat_beq n id then (true, some t.handle) else (false, none)) served.1 in
    (
      create_handle-held_handle k content answer given launch q set
          ∙ ap
              (λ (y : Bool × Option ℕ).
                (if is_refused k given launch q then (false, none) else y, q))
              found
          ∙ ap (λ (y : Bool × Option ℕ). (y, q))
              (decided given (is_empty q.kernel_path) follow (nat_beq id any_id) (nat_beq old id)
                (true, some t.handle) (false, none) clash),
      served.0,
      served.2,
    )
  where
    not-true : (b : Bool) → not b ≡ true → b ≡ false
    not-true false e = refl
    not-true true e = absurd (bool_clash (sym e))
