-- ===== src/Args/Launch/Expanded.antt =====
-- What ExpandArgs of csrc/runtime/inject_helpers/LaunchArgs.cpp makes of a launch's arguments.
use msopcom.Prelude.{
  ℕ, ◌+◌, ◌-◌, ◌≤◌, ◌≡◌, inl, inr, refl, sym, ap, ap₂, ◌∙◌, arith, Bool, false, none, some, ◌++◌,
  append-nil, append_assoc, ltb, if◌then◌else◌, length, take, drop, replicate, length-append,
  length-replicate, length-drop, take-length, drop-length, drop-append, take-append, drop-drop,
  Bool-cases, Option-cases,
}
use msopcom.Wire.{Bytes}
use msopcom.Args.Raw.Slices.{length-take_le, take-drop-append_short, take-drop-take}
use msopcom.Args.Launch.{
  LaunchArgs, get_align_size, first_data_offset, tiling_head, get_args_size,
  fill_args_with_mem_info, expanded_bytes,
}

-- The arguments before the inserted pointer.
unfoldable pub head_size : Bool → LaunchArgs → ℕ
head_size overflow a =
    if a.has_tiling
    then tiling_head overflow a
    else elim a.host_input_info [ none ↦ a.args_size | some l ↦ first_data_offset l ]

-- The arguments with the pointer behind a head, which is filled up to a multiple of 8.
abbrev pub filled : Bytes → Bytes → ℕ → Bytes
filled args mem head =
    take head args ++ (replicate (get_align_size head - head) 0 ++ (mem ++ drop head args))

pub get_args_size-head_size :
    (overflow : Bool) (a : LaunchArgs)
    → get_args_size overflow a ≡ get_align_size (head_size overflow a)
unfolding get_args_size head_size
get_args_size-head_size overflow a = elim (Bool-cases a.has_tiling) [
  | inl tiling ↦ rw tiling refl
  | inr no_tiling ↦ elim (Option-cases a.host_input_info) [
    | inl missing ↦ simp (no_tiling, missing)
    | inr (l, e) ↦ simp (no_tiling, e)
  ]
]

pub get_align_size_bounds :
    (n : ℕ) → n ≤ 1073741824 → (n ≤ get_align_size n) × (get_align_size n ≤ n + 7)
unfolding get_align_size
get_align_size_bounds n h = (omega arith, omega arith)

fill_args_with_mem_info_lem :
    (args mem : Bytes) (head : ℕ)
    → head ≤ length args
    → fill_args_with_mem_info args mem head ≡ some (filled args mem head, get_align_size head)
unfolding fill_args_with_mem_info
fill_args_with_mem_info_lem args mem head within =
    let inside : ltb (length args) head ≡ false = ground (arith, within) in rw inside refl

-- Without a head of its own the pointer goes behind all arguments.
filled_end :
    (args mem : Bytes)
    → args ++ (replicate (get_align_size (length args) - length args) 0 ++ mem)
      ≡ filled args mem (length args)
filled_end args mem =
    let gap : Bytes = replicate (get_align_size (length args) - length args) 0 in
    ap₂ (λ t r. t ++ (gap ++ r)) (sym (take-length args))
      (sym (append-nil mem) ∙ ap (λ r. mem ++ r) (sym (drop-length args)))

pub expanded_bytes_lem :
    (overflow : Bool) (a : LaunchArgs) (args mem : Bytes) (head : ℕ)
    → a.args_size ≡ length args
    → head_size overflow a ≡ head
    → head ≤ length args
    → expanded_bytes overflow a args mem ≡ some (filled args mem head, get_align_size head)
unfolding expanded_bytes head_size
expanded_bytes_lem overflow a args mem head size e within = elim (Bool-cases a.has_tiling) [
  | inl tiling ↦
      let here : head_size overflow a ≡ tiling_head overflow a = simp (head_size, tiling) refl in
      let made : expanded_bytes overflow a args mem
          ≡ fill_args_with_mem_info args mem (tiling_head overflow a) =
        simp (expanded_bytes, tiling) refl in
      made
      ∙ ap (fill_args_with_mem_info args mem) (sym here ∙ e)
      ∙ fill_args_with_mem_info_lem args mem head within
  | inr no_tiling ↦ elim (Option-cases a.host_input_info) [
    | inl missing ↦
        let here : head_size overflow a ≡ a.args_size = simp (head_size, no_tiling, missing) refl in
        let whole : length args ≡ head = sym size ∙ sym here ∙ e in
        let made : expanded_bytes overflow a args mem
            ≡ some (
              args ++ (replicate (get_align_size a.args_size - a.args_size) 0 ++ mem),
              get_align_size a.args_size,
            ) =
          simp (expanded_bytes, no_tiling, missing) refl in
        made
        ∙ ap (λ n. some (args ++ (replicate (get_align_size n - n) 0 ++ mem), get_align_size n))
            size
        ∙ ap (λ b. some (b, get_align_size (length args))) (filled_end args mem)
        ∙ ap (λ n. some (filled args mem n, get_align_size n)) whole
    | inr (l, given) ↦
        let here : head_size overflow a ≡ first_data_offset l =
          simp (head_size, no_tiling, given) refl in
        let made : expanded_bytes overflow a args mem
            ≡ fill_args_with_mem_info args mem (first_data_offset l) =
          simp (expanded_bytes, no_tiling, given) refl in
        made
        ∙ ap (fill_args_with_mem_info args mem) (sym here ∙ e)
        ∙ fill_args_with_mem_info_lem args mem head within
  ]
]

-- Where the bytes of the arguments and of the pointer are.
module _ (args mem : Bytes) (head : ℕ) (within : head ≤ length args)
    (fits : head ≤ get_align_size head) where
  abbrev pub gap : Bytes
  gap = replicate (get_align_size head - head) 0

  length-filled_head : length (take head args ++ gap) ≡ get_align_size head
  length-filled_head = omega (
    arith,
    length-append (take head args) gap,
    length-take_le head args within,
    length-replicate {A = ℕ} (get_align_size head - head) 0,
    fits,
  )

  drop-filled : drop (get_align_size head) (filled args mem head) ≡ mem ++ drop head args
  drop-filled =
      ap (drop (get_align_size head))
        (sym (append_assoc (take head args) gap (mem ++ drop head args)))
      ∙ ap (λ n. drop n ((take head args ++ gap) ++ (mem ++ drop head args)))
          (sym length-filled_head)
      ∙ drop-append (take head args ++ gap) (mem ++ drop head args)

  pub take-drop-filled : take (length mem) (drop (get_align_size head) (filled args mem head)) ≡ mem
  take-drop-filled = ap (take (length mem)) drop-filled ∙ take-append mem (drop head args)

  -- What is behind the head has moved by the pointer and by what fills the head up.
  pub drop-filled_behind :
      (y : ℕ)
      → head ≤ y
      → drop (y + (get_align_size head - head) + length mem) (filled args mem head) ≡ drop y args
  drop-filled_behind y behind =
      let new = filled args mem head in
      let sum : y + (get_align_size head - head) + length mem
          ≡ get_align_size head + (length mem + (y - head)) =
        omega (arith, fits) in
      let whole : head + (y - head) ≡ y = omega arith in
      ap (λ n. drop n new) sum
      ∙ sym (drop-drop (get_align_size head) (length mem + (y - head)) new)
      ∙ ap (drop (length mem + (y - head))) drop-filled
      ∙ sym (drop-drop (length mem) (y - head) (mem ++ drop head args))
      ∙ ap (drop (y - head)) (drop-append mem (drop head args))
      ∙ drop-drop head (y - head) args
      ∙ ap (λ n. drop n args) whole

  pub take-drop-filled_before :
      (x n : ℕ) → x + n ≤ head → take n (drop x (filled args mem head)) ≡ take n (drop x args)
  take-drop-filled_before x n before =
      let short : x + n ≤ length (take head args) =
        omega (arith, length-take_le head args within) in
      take-drop-append_short n x (take head args) (gap ++ (mem ++ drop head args)) short
      ∙ take-drop-take n x head args before

  pub length-filled :
      length (filled args mem head) ≡ length args + (get_align_size head - head) + length mem
  length-filled = omega (
    arith,
    length-append (take head args) (gap ++ (mem ++ drop head args)),
    length-append gap (mem ++ drop head args),
    length-append mem (drop head args),
    length-take_le head args within,
    length-drop head args,
    length-replicate {A = ℕ} (get_align_size head - head) 0,
  )
