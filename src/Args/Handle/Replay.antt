-- ===== src/Args/Handle/Replay.antt =====
-- What GenerateArgsHandle of csrc/runtime/inject_helpers/ArgsHandleContext.cpp builds on a new
-- handle, against what the runtime promises of its calls.
use msopcom.Prelude.{
  ℕ, zero, suc, ◌≡◌, ◌≢◌, ◌⊎◌, inl, inr, refl, sym, ap, subst, ◌∙◌, arith, Bool, true, false,
  Option, none, some, List, [], ◌∷◌, ◌++◌, append_assoc, append-nil, nat_beq, length, length-append,
  Bool-cases,
}
use msopcom.Wire.{Bytes}
use msopcom.Args.Handle.{
  ParamType, normal, placeholder, ParamData, ArgsRuntime, replay_append, replay_appends,
}

-- What a handle holds at one position: a value, or a placeholder with what its buffer holds.
pub data Slot : Type 0 where
  value : Bytes → Slot
  buffer : Bytes → Slot

abbrev pub slot_of : ParamType → Bytes → Slot
slot_of normal b = value b
slot_of placeholder b = buffer b

abbrev pub blank_of : ParamType → Bytes → Slot
blank_of normal b = value b
blank_of placeholder b = buffer []

abbrev pub slots : List ParamData → List Slot
slots [] = []
slots (p ∷ ps) = slot_of p.param_type p.param ∷ slots ps

abbrev pub blanks : List ParamData → List Slot
blanks [] = []
blanks (p ∷ ps) = blank_of p.param_type p.param ∷ blanks ps

abbrev pub replace_at {ℓ} : {A : Type ℓ} → ℕ → A → List A → List A
replace_at n a [] = []
replace_at zero a (x ∷ xs) = a ∷ xs
replace_at (suc n) a (x ∷ xs) = x ∷ replace_at n a xs

pub replace_at-append {ℓ} :
    {A : Type ℓ} (xs ys : List A) (old new : A)
    → replace_at (length xs) new (xs ++ (old ∷ ys)) ≡ xs ++ (new ∷ ys)
replace_at-append [] ys old new = refl
replace_at-append (x ∷ xs) ys old new = ap (λ t. x ∷ t) (replace_at-append xs ys old new)

-- A call that answers `code` and leads from one state to another is counted when it is refused.
abbrev pub Counted : {S : Type 0} → (S → Bool) → ℕ → S → S → Type 0
Counted refused code s t = (code ≡ 0 → refused t ≡ refused s) × (code ≢ 0 → refused t ≡ true)

-- What is relied on in the runtime. `holds` is what a handle holds, `position` where the
-- parameter of a parameter's handle stands, and `refused` whether a call was refused so far. A new
-- handle is not null and holds nothing, an append puts one slot behind the others, and a buffer that
-- was got for a placeholder, filled with as many bytes as asked for, is that placeholder's.
pub record Builds {S : Type 0} (rt : ArgsRuntime S) (holds : S → ℕ → List Slot)
    (position : S → ℕ → ℕ → Option ℕ) (refused : S → Bool) : Type 0 where
  pub init :
      (s : S) (f : ℕ)
      → (rt.args_init s f).0 ≡ 0
      → ((rt.args_init s f).1 ≢ 0) × (holds (rt.args_init s f).2 (rt.args_init s f).1 ≡ [])
  pub init_counted : (s : S) (f : ℕ) → Counted refused (rt.args_init s f).0 s (rt.args_init s f).2
  pub append :
      (s : S) (h : ℕ) (b : Bytes)
      → (rt.args_append s h b).0 ≡ 0
      → let t = (rt.args_append s h b).2 in
        (holds t h ≡ holds s h ++ (value b ∷ []))
        × (position t h (rt.args_append s h b).1 ≡ some (length (holds s h)))
  pub append_counted :
      (s : S) (h : ℕ) (b : Bytes)
      → Counted refused (rt.args_append s h b).0 s (rt.args_append s h b).2
  pub append_keeps :
      (s : S) (h p i : ℕ) (b : Bytes)
      → position s h p ≡ some i
      → position (rt.args_append s h b).2 h p ≡ some i
  pub append_place_holder :
      (s : S) (h : ℕ)
      → (rt.args_append_place_holder s h).0 ≡ 0
      → let t = (rt.args_append_place_holder s h).2 in
        (holds t h ≡ holds s h ++ (buffer [] ∷ []))
        × (position t h (rt.args_append_place_holder s h).1 ≡ some (length (holds s h)))
  pub append_place_holder_counted :
      (s : S) (h : ℕ)
      → Counted refused (rt.args_append_place_holder s h).0 s (rt.args_append_place_holder s h).2
  pub append_place_holder_keeps :
      (s : S) (h p i : ℕ)
      → position s h p ≡ some i
      → position (rt.args_append_place_holder s h).2 h p ≡ some i
  pub get_buffer :
      (s : S) (h p i : ℕ) (b : Bytes)
      → position s h p ≡ some i
      → (rt.args_get_place_holder_buffer s h p (length b)).0 ≡ 0
      → let r = rt.args_get_place_holder_buffer s h p (length b) in
        holds (rt.write_buffer r.2 r.1 b) h ≡ replace_at i (buffer b) (holds s h)
  pub get_buffer_counted :
      (s : S) (h p n : ℕ)
      → let r = rt.args_get_place_holder_buffer s h p n in Counted refused r.0 s r.2
  pub get_buffer_keeps :
      (s : S) (h p n q i : ℕ) (b : Bytes)
      → position s h q ≡ some i
      → let r = rt.args_get_place_holder_buffer s h p n in
        position (rt.write_buffer r.2 r.1 b) h q ≡ some i
  pub write_counted : (s : S) (p : ℕ) (b : Bytes) → refused (rt.write_buffer s p b) ≡ refused s
  pub finish_counted :
      (s : S) (h : ℕ) → Counted refused (rt.args_finalize s h).0 s (rt.args_finalize s h).1
  pub finish :
      (s : S) (h : ℕ) → (rt.args_finalize s h).0 ≡ 0 → holds (rt.args_finalize s h).1 h ≡ holds s h

module _ {S : Type 0} (rt : ArgsRuntime S) (holds : S → ℕ → List Slot)
    (position : S → ℕ → ℕ → Option ℕ) (refused : S → Bool)
    (c : Builds rt holds position refused) where
  -- The parameters' handles name consecutive positions.
  abbrev pub Named : S → ℕ → ℕ → List ℕ → List ParamData → Type 0
  Named s h n [] [] = Unit
  Named s h n [] (p ∷ ps) = ⊥
  Named s h n (x ∷ xs) [] = ⊥
  Named s h n (x ∷ xs) (p ∷ ps) = (position s h x ≡ some n) × Named s h (suc n) xs ps

  abbrev Grown : S → ℕ → Slot → ℕ × ℕ × S → Type 0
  Grown s h slot r =
      (holds r.2 h ≡ holds s h ++ (slot ∷ [])) × (position r.2 h r.1 ≡ some (length (holds s h)))

  abbrev pub Kept : S → ℕ → S → Type 0
  Kept s h t = (p i : ℕ) → position s h p ≡ some i → position t h p ≡ some i

  replay_append-Grown :
      (h : ℕ) (kind : ParamType) (p : ParamData) (s : S)
      → p.param_type ≡ kind
      → let r = replay_append rt h p s in
        (r.0 ≡ 0 → Grown s h (blank_of kind p.param) r) × Counted refused r.0 s r.2 × Kept s h r.2
  unfolding replay_append
  replay_append-Grown h normal p s e =
      let equation : replay_append rt h p s ≡ rt.args_append s h p.param = rw (replay_append, e) in
      subst
        (λ (r : ℕ × ℕ × S).
          (r.0 ≡ 0 → Grown s h (value p.param) r) × Counted refused r.0 s r.2 × Kept s h r.2)
        (sym equation)
        (
          c.append s h p.param,
          c.append_counted s h p.param,
          λ x i at. c.append_keeps s h x i p.param at,
        )
  replay_append-Grown h placeholder p s e =
      let equation : replay_append rt h p s ≡ rt.args_append_place_holder s h =
        rw (replay_append, e) in
      subst
        (λ (r : ℕ × ℕ × S).
          (r.0 ≡ 0 → Grown s h (buffer []) r) × Counted refused r.0 s r.2 × Kept s h r.2)
        (sym equation)
        (
          c.append_place_holder s h,
          c.append_place_holder_counted s h,
          λ x i at. c.append_place_holder_keeps s h x i at,
        )

  abbrev pub Appended : S → ℕ → List ParamData → Option (List ℕ) × S → Type 0
  Appended s h ps r =
      (r.0 ≡ none) × (refused r.1 ≡ true)
      ⊎ (hs : List ℕ) × (r.0 ≡ some hs)
        × (refused r.1 ≡ false)
        × (holds r.1 h ≡ holds s h ++ blanks ps)
        × Named r.1 h (length (holds s h)) hs ps
        × Kept s h r.1

  length-Grown :
      (s : S) (h : ℕ) (slot : Slot) (r : ℕ × ℕ × S)
      → Grown s h slot r
      → length (holds r.2 h) ≡ suc (length (holds s h))
  length-Grown s h slot r g = rw (g.0, length-append (holds s h) (slot ∷ [])) (omega arith)

  pub replay_appends-Appended :
      (h : ℕ) (ps : List ParamData) (s : S)
      → refused s ≡ false
      → Appended s h ps (replay_appends rt h ps s)
  unfolding replay_appends
  replay_appends-Appended h [] s fine =
      inr ([], refl, fine, sym (append-nil (holds s h)), tt, λ p i at. at)
  replay_appends-Appended h (p ∷ ps) s fine =
      let r : ℕ × ℕ × S = replay_append rt h p s in
      let rest : Option (List ℕ) × S = replay_appends rt h ps r.2 in
      let g = replay_append-Grown h p.param_type p s refl in
      elim (Bool-cases (nat_beq r.0 0)) [
        | inr bad ↦
            let equation : replay_appends rt h (p ∷ ps) s ≡ (none, r.2) =
              rw (replay_appends, bad) in
            subst (Appended s h (p ∷ ps)) (sym equation)
              (inl (refl, g.1.1 (λ zero_code. ground (arith, bad, zero_code))))
        | inl good ↦
            let code : r.0 ≡ 0 = ground (arith, good) in
            let grown : Grown s h (blank_of p.param_type p.param) r = g.0 code in
            elim (replay_appends-Appended h ps r.2 (g.1.0 code ∙ fine)) [
              | inl (e, counted) ↦
                  let equation : replay_appends rt h (p ∷ ps) s ≡ (none, rest.1) =
                    rw (replay_appends, good, e) in
                  subst (Appended s h (p ∷ ps)) (sym equation) (inl (refl, counted))
              | inr (hs, e, still, held, named, kept) ↦
                  let equation : replay_appends rt h (p ∷ ps) s ≡ (some (r.1 ∷ hs), rest.1) =
                    rw (replay_appends, good, e) in
                  let more : holds rest.1 h ≡ holds s h ++ blanks (p ∷ ps) =
                    held
                    ∙ ap (λ t. t ++ blanks ps) grown.0
                    ∙ append_assoc (holds s h) (blank_of p.param_type p.param ∷ []) (blanks ps) in
                  let names : Named rest.1 h (suc (length (holds s h))) hs ps =
                    subst (λ n. Named rest.1 h n hs ps)
                      (length-Grown s h (blank_of p.param_type p.param) r grown) named in
                  subst (Appended s h (p ∷ ps)) (sym equation) (
                    inr (
                      r.1 ∷ hs,
                      refl,
                      still,
                      more,
                      (kept r.1 (length (holds s h)) grown.1, names),
                      λ q i at. kept q i (g.2 q i at),
                    ))
            ]
      ]
