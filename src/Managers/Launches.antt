-- ===== src/Managers/Launches.antt =====
-- The launches of csrc/runtime/inject_helpers/LaunchManager.cpp over any sequence of calls.
use msopcom.Prelude.{
  ℕ, suc, ◌+◌, ◌≡◌, refl, sym, ap, ◌∙◌, arith, Bool, true, Option, none, some, List, [], ◌∷◌, ◌++◌,
  append-nil, append_assoc, ltb, length, get_elem?, length-append,
}
use msopcom.Wire.{Bytes}
use msopcom.Managers.{
  FuncContext, LaunchContext, LaunchManager, Managers, Call, get_func, stream_info, create_launch,
  get_launch, step, run, register_data, register_file, register_cached, cache_data, find_func,
  launch,
}

get_elem?-append {ℓ} :
    {A : Type ℓ} (xs : List A) (x : A) (ys : List A)
    → get_elem? (xs ++ (x ∷ ys)) (length xs) ≡ some x
get_elem?-append [] x ys = refl
get_elem?-append (y ∷ xs) x ys = get_elem?-append xs x ys

module _ {A B : Type 0} where
  -- A manager whose launches are those of another one and more.
  abbrev Extends : LaunchManager A B → LaunchManager A B → Type 0
  Extends m n = (more : List (LaunchContext A B)) × (n.launches ≡ m.launches ++ more)

  Extends-refl : (m : LaunchManager A B) → Extends m m
  Extends-refl m = ([], sym (append-nil m.launches))

  create_launch-Extends :
      (is_sanitizer : Bool) (f : Option (FuncContext B)) (a : Option A) (dim stream : ℕ)
      (cfg : Option ℕ) (m : LaunchManager A B)
      → Extends m (create_launch is_sanitizer f a dim stream cfg m).1
  unfolding create_launch
  create_launch-Extends is_sanitizer none a dim stream cfg m = Extends-refl m
  create_launch-Extends is_sanitizer (some f) none dim stream cfg m = Extends-refl m
  create_launch-Extends is_sanitizer (some f) (some a) dim stream cfg m = (
    record {
      func_ctx = f;
      args_ctx = a;
      block_dim = dim;
      launch_stream = stream;
      is_sink = (stream_info stream m).binded;
      launch_id = length m.launches;
    }
        ∷ [],
    refl,
  )

  get_launch-Extends :
      (m n : LaunchManager A B) (front : List (LaunchContext A B)) (ctx : LaunchContext A B)
      → m.launches ≡ front ++ (ctx ∷ [])
      → Extends m n
      → get_launch (length front) n ≡ some ctx
  unfolding get_launch
  get_launch-Extends m n front ctx held (more, longer) =
      let whole : n.launches ≡ front ++ (ctx ∷ more) =
        longer ∙ ap (λ l. l ++ more) held ∙ append_assoc front (ctx ∷ []) more in
      let size : length n.launches ≡ length front + suc (length more) =
        ap length whole ∙ length-append front (ctx ∷ more) in
      let inside : ltb (length front) (length n.launches) ≡ true = ground (arith, size) in
      rw inside (ap (λ l. get_elem? l (length front)) whole ∙ get_elem?-append front ctx more)

module _ {A B : Type 0} (init : Bytes → Option B) (read_binary : Bytes → Option Bytes) where
  step-Extends :
      (c : Call A) (m : Managers A B)
      → Extends m.launch_manager (step init read_binary c m).launch_manager
  unfolding step
  step-Extends (register_data bytes handle magic) m = Extends-refl m.launch_manager
  step-Extends (register_file path handle magic) m = Extends-refl m.launch_manager
  step-Extends (register_cached bin handle magic) m = Extends-refl m.launch_manager
  step-Extends (cache_data bin bytes) m = Extends-refl m.launch_manager
  step-Extends (find_func bin kind handle) m = Extends-refl m.launch_manager
  step-Extends (launch is_sanitizer handle args dim stream cfg) m =
      create_launch-Extends is_sanitizer (get_func handle m.func_manager) args dim stream cfg
        m.launch_manager

  run-Extends :
      (cs : List (Call A)) (m : Managers A B)
      → Extends m.launch_manager (run init read_binary cs m).launch_manager
  unfolding run
  run-Extends [] m = Extends-refl m.launch_manager
  run-Extends (c ∷ cs) m =
      let one = step-Extends c m in
      let more = run-Extends cs (step init read_binary c m) in
      (
        one.0 ++ more.0,
        more.1 ∙ ap (λ l. l ++ more.0) one.1 ∙ append_assoc m.launch_manager.launches one.0 more.0,
      )

  -- In any state, a launch of a known function with known arguments gives a context that GetContext
  -- finds by its launch id, then and after any further calls of the managers; it holds the
  -- function that its handle names and the arguments of the call.
  pub get_launch-run :
      (is_sanitizer : Bool) (handle dim stream : ℕ) (cfg : Option ℕ) (f : FuncContext B) (a : A)
      (cs : List (Call A)) (m : Managers A B)
      → get_func handle m.func_manager ≡ some f
      → (ctx : LaunchContext A B) × ((create_launch is_sanitizer
            (get_func handle m.func_manager)
            (some a)
            dim
            stream
            cfg
            m.launch_manager).0
          ≡ some ctx)
        × (ctx.func_ctx ≡ f)
        × (ctx.args_ctx ≡ a)
        × (get_launch ctx.launch_id
              (run init read_binary
                (launch is_sanitizer handle (some a) dim stream cfg ∷ cs)
                m).launch_manager
            ≡ some ctx)
  unfolding create_launch run step
  get_launch-run is_sanitizer handle dim stream cfg f a cs m known =
      let l = m.launch_manager in
      let ctx : LaunchContext A B = record {
        func_ctx = f;
        args_ctx = a;
        block_dim = dim;
        launch_stream = stream;
        is_sink = (stream_info stream l).binded;
        launch_id = length l.launches;
      } in
      let call = launch is_sanitizer handle (some a) dim stream cfg in
      let after : Managers A B = step init read_binary call m in
      let made =
        λ (o : Option (FuncContext B)). create_launch is_sanitizer o (some a) dim stream cfg l in
      let held : after.launch_manager.launches ≡ l.launches ++ (ctx ∷ []) =
        ap (λ o. (made o).1.launches) known in
      (
        ctx,
        ap (λ o. (made o).0) known,
        refl,
        refl,
        get_launch-Extends after.launch_manager (run init read_binary cs after).launch_manager
            l.launches ctx held (run-Extends cs after),
      )
