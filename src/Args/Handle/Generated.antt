-- ===== src/Args/Handle/Generated.antt =====
-- The handle that GenerateArgsHandle of csrc/runtime/inject_helpers/ArgsHandleContext.cpp gives: its
-- buffers, and the call as a whole.
use msopcom.Prelude.{
  ℕ, suc, ◌≡◌, ◌≢◌, ◌⊎◌, inl, inr, refl, sym, ap, subst, ◌∙◌, arith, Bool, true, false, Option,
  List, [], ◌∷◌, ◌++◌, append_assoc, nat_beq, ltb, length, length-append, Bool-cases,
}
use msopcom.Args.Handle.{
  ParamType, normal, placeholder, ParamData, ArgsHandleContext, ArgsRuntime, replay_appends,
  replay_buffers, replay_args, generate_args_handle,
}
use msopcom.Args.Handle.Replay.{
  Slot, value, buffer, slot_of, blank_of, slots, blanks, replace_at, replace_at-append, Builds,
  Named, Kept, replay_appends-Appended,
}

ParamType-cases : (k : ParamType) → (k ≡ normal) ⊎ (k ≡ placeholder)
ParamType-cases normal = inl refl
ParamType-cases placeholder = inr refl

length-snoc {ℓ} : {A : Type ℓ} (xs : List A) (a : A) → suc (length xs) ≡ length (xs ++ (a ∷ []))
length-snoc xs a = rw (length-append xs (a ∷ [])) (omega arith)

module _ {S : Type 0} (rt : ArgsRuntime S) (holds : S → ℕ → List Slot)
    (position : S → ℕ → ℕ → Option ℕ) (refused : S → Bool)
    (c : Builds rt holds position refused) where
  abbrev Names : S → ℕ → ℕ → List ℕ → List ParamData → Type 0
  Names = Named rt holds position refused c

  Kept-Names :
      (s t : S) (h n : ℕ) (hs : List ℕ) (ps : List ParamData)
      → Kept rt holds position refused c s h t
      → Names s h n hs ps
      → Names t h n hs ps
  Kept-Names s t h n [] [] kept named = tt
  Kept-Names s t h n [] (p ∷ ps) kept named = elim named [ ]
  Kept-Names s t h n (x ∷ hs) [] kept named = elim named [ ]
  Kept-Names s t h n (x ∷ hs) (p ∷ ps) kept named =
      (kept x n named.0, Kept-Names s t h (suc n) hs ps kept named.1)

  abbrev Filled : ℕ → List Slot → List ParamData → Bool × S → Type 0
  Filled h front ps r =
      (r.0 ≡ false) × (refused r.1 ≡ true)
      ⊎ (r.0 ≡ true) × (refused r.1 ≡ false) × (holds r.1 h ≡ front ++ slots ps)

  -- A slot that was passed belongs to the front.
  Filled-step :
      (h : ℕ) (front : List Slot) (a : Slot) (p : ParamData) (ps : List ParamData) (r : Bool × S)
      → a ≡ slot_of p.param_type p.param
      → Filled h (front ++ (a ∷ [])) ps r
      → Filled h front (p ∷ ps) r
  Filled-step h front a p ps r e (inl bad) = inl bad
  Filled-step h front a p ps r e (inr (ok, fine, held)) = inr (
    ok,
    fine,
    held ∙ append_assoc front (a ∷ []) (slots ps) ∙ ap (λ t. front ++ (t ∷ slots ps)) e,
  )

  replay_buffers-Filled :
      (h : ℕ) (ps : List ParamData) (hs : List ℕ) (front : List Slot) (s : S)
      → refused s ≡ false
      → Names s h (length front) hs ps
      → holds s h ≡ front ++ blanks ps
      → Filled h front ps (replay_buffers rt h ps hs s)
  unfolding replay_buffers
  replay_buffers-Filled h [] hs front s fine named held = inr (refl, fine, held)
  replay_buffers-Filled h (p ∷ ps) [] front s fine named held = elim named [ ]
  replay_buffers-Filled h (p ∷ ps) (x ∷ hs) front s fine named held =
      let b = p.param in
      let blank = blank_of p.param_type b in
      elim (ParamType-cases p.param_type) [
        | inl kind ↦
            let passed : List Slot = front ++ (value b ∷ []) in
            let equation : replay_buffers rt h (p ∷ ps) (x ∷ hs) s ≡ replay_buffers rt h ps hs s =
              simp (replay_buffers, kind) in
            let kept : holds s h ≡ passed ++ blanks ps =
              held
              ∙ ap (λ k. front ++ (blank_of k b ∷ blanks ps)) kind
              ∙ sym (append_assoc front (value b ∷ []) (blanks ps)) in
            subst (Filled h front (p ∷ ps)) (sym equation) (
              Filled-step h front (value b) p ps (replay_buffers rt h ps hs s)
                (ap (λ k. slot_of k b) (sym kind))
                (replay_buffers-Filled h ps hs passed s fine
                  (subst (λ n. Names s h n hs ps) (length-snoc front (value b)) named.1) kept))
        | inr kind ↦
            let r : ℕ × ℕ × S = rt.args_get_place_holder_buffer s h x (length b) in
            let t : S = rt.write_buffer r.2 r.1 b in
            let counted = c.get_buffer_counted s h x (length b) in
            let passed : List Slot = front ++ (buffer b ∷ []) in
            elim (Bool-cases (nat_beq r.0 0)) [
              | inl good ↦
                  let code : r.0 ≡ 0 = ground (arith, good) in
                  let equation : replay_buffers rt h (p ∷ ps) (x ∷ hs) s
                      ≡ replay_buffers rt h ps hs t =
                    simp (replay_buffers, kind, good) in
                  let kept : holds t h ≡ passed ++ blanks ps =
                    c.get_buffer s h x (length front) b named.0 code
                    ∙ ap (replace_at (length front) (buffer b)) held
                    ∙ replace_at-append front (blanks ps) blank (buffer b)
                    ∙ sym (append_assoc front (buffer b ∷ []) (blanks ps)) in
                  let names : Names t h (length passed) hs ps =
                    Kept-Names s t h (length passed) hs ps
                      (λ q i at. c.get_buffer_keeps s h x (length b) q i b at)
                      (subst (λ n. Names s h n hs ps) (length-snoc front (buffer b)) named.1) in
                  subst (Filled h front (p ∷ ps)) (sym equation) (
                    Filled-step h front (buffer b) p ps (replay_buffers rt h ps hs t)
                      (ap (λ k. slot_of k b) (sym kind))
                      (replay_buffers-Filled h ps hs passed t
                        (c.write_counted r.2 r.1 b ∙ counted.0 code ∙ fine) names kept))
              | inr bad ↦
                  let equation : replay_buffers rt h (p ∷ ps) (x ∷ hs) s ≡ (false, r.2) =
                    simp (replay_buffers, kind, bad) in
                  subst (Filled h front (p ∷ ps)) (sym equation)
                    (inl (refl, counted.1 (λ zero_code. ground (arith, bad, zero_code))))
            ]
      ]

  replay_args-Filled :
      (h : ℕ) (ps : List ParamData) (s : S)
      → refused s ≡ false
      → holds s h ≡ []
      → Filled h [] ps (replay_args rt h ps s)
  unfolding replay_args
  replay_args-Filled h ps s fine empty =
      let first : Option (List ℕ) × S = replay_appends rt h ps s in
      elim (replay_appends-Appended rt holds position refused c h ps s fine) [
        | inl (e, counted) ↦
            let equation : replay_args rt h ps s ≡ (false, first.1) = rw (replay_args, e) in
            subst (Filled h [] ps) (sym equation) (inl (refl, counted))
        | inr (hs, e, still, held, named, kept) ↦
            let equation : replay_args rt h ps s ≡ replay_buffers rt h ps hs first.1 =
              rw (replay_args, e) in
            subst (Filled h [] ps) (sym equation) (
              replay_buffers-Filled h ps hs [] first.1 still
                (subst (λ l. Names first.1 h (length l) hs ps) empty named)
                (held ∙ ap (λ l. l ++ blanks ps) empty))
      ]

  abbrev pub Generated : List ParamData → ℕ × S → Type 0
  Generated ps r =
      (r.0 ≡ 0) × (refused r.1 ≡ true)
      ⊎ (r.0 ≢ 0) × (refused r.1 ≡ false) × (holds r.1 r.0 ≡ slots ps)

  -- Provided no call was refused before, the runtime's calls do what is documented, and a refused call is counted, GenerateArgsHandle
  -- either gives null, and then the runtime refused one of its calls, or it gives a handle that is
  -- not null, and then no call was refused and the new handle holds the recorded parameters in
  -- their order: each normal one as a value, each placeholder with its bytes in its buffer.
  pub generate_args_handle-Generated :
      (ctx : ArgsHandleContext) (s : S)
      → refused s ≡ false
      → Generated ctx.params (generate_args_handle rt ctx s)
  unfolding generate_args_handle
  generate_args_handle-Generated ctx s fine =
      let made : ℕ × ℕ × S = rt.args_init s ctx.func_handle in
      let h = made.1 in
      let replayed : Bool × S = replay_args rt h ctx.params made.2 in
      let ended : ℕ × S = rt.args_finalize replayed.1 h in
      let counted = c.init_counted s ctx.func_handle in
      elim (Bool-cases (ltb 0 made.0)) [
        | inl bad ↦
            let equation : generate_args_handle rt ctx s ≡ (0, made.2) =
              rw (generate_args_handle, bad) in
            subst (Generated ctx.params) (sym equation)
              (inl (refl, counted.1 (λ code. ground (arith, bad, code))))
        | inr good ↦
            let code : made.0 ≡ 0 = ground (arith, good) in
            let new = c.init s ctx.func_handle code in
            elim (replay_args-Filled h ctx.params made.2 (counted.0 code ∙ fine) new.1) [
              | inl (failed, was_refused) ↦
                  let equation : generate_args_handle rt ctx s ≡ (0, replayed.1) =
                    rw (generate_args_handle, good, failed) in
                  subst (Generated ctx.params) (sym equation) (inl (refl, was_refused))
              | inr (worked, still, held) ↦ elim (Bool-cases (ltb 0 ended.0)) [
                | inl bad ↦
                    let equation : generate_args_handle rt ctx s ≡ (0, ended.1) =
                      rw (generate_args_handle, good, worked, bad) in
                    subst (Generated ctx.params) (sym equation) (
                      inl (
                        refl,
                        (c.finish_counted replayed.1 h).1 (λ code. ground (arith, bad, code)),
                      ))
                | inr ok ↦
                    let last : ended.0 ≡ 0 = ground (arith, ok) in
                    let equation : generate_args_handle rt ctx s ≡ (h, ended.1) =
                      rw (generate_args_handle, good, worked, ok) in
                    subst (Generated ctx.params) (sym equation) (
                      inr (
                        new.0,
                        (c.finish_counted replayed.1 h).0 last ∙ still,
                        c.finish replayed.1 h last ∙ held,
                      ))
              ]
            ]
      ]
