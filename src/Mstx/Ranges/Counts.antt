-- ===== src/Mstx/Ranges/Counts.antt =====
-- The counts of open messages of csrc/runtime/inject_helpers/MsTx.cpp under `MstxRangeAdd` and
-- `MstxRangeEnd`.
use msopcom.Prelude.{
  ℕ, suc, ◌-◌, ◌≡◌, inl, inr, refl, ap, ap₂, subst, ◌∙◌, arith, true, ◌&&◌, List, [], ◌∷◌, none,
  some, nat_beq, nat_beq_iff, nat_eq, list_eq, ◌==◌, eq_refl, if◌then◌else◌, value_or, lookup,
  insert, erase, lookup-insert, lookup-erase, lookup-nil, Bool-cases, list_beq_iff, Option-cases,
  any, is_empty,
}
use msopcom.Wire.{Bytes}
use msopcom.Mstx.{MsTx}
use msopcom.Mstx.Ranges.{
  count_or_zero, usage_or_nil, count_up, lower, store_usage, mstx_range_end, thread_usage,
}

-- How often a thread has a message open.
pub count : ℕ → Bytes → MsTx → ℕ
count thread message s = count_or_zero message (usage_or_nil thread s)

count_or_zero-insert :
    (m m' : Bytes) (n : ℕ) (u : List (Bytes × ℕ))
    → count_or_zero m' (insert m n u) ≡ (if m == m' then n else count_or_zero m' u)
unfolding count_or_zero
count_or_zero-insert m m' n u = elim (Bool-cases (m == m')) [
  | inl same ↦ rw (count_or_zero, lookup-insert m m' n u, same)
  | inr other ↦ rw (count_or_zero, lookup-insert m m' n u, other)
]

count_or_zero-erase :
    (m m' : Bytes) (u : List (Bytes × ℕ))
    → count_or_zero m' (erase m u) ≡ (if m == m' then 0 else count_or_zero m' u)
unfolding count_or_zero
count_or_zero-erase m m' u = elim (Bool-cases (m == m')) [
  | inl same ↦ rw (count_or_zero, lookup-erase m m' u, same)
  | inr other ↦ rw (count_or_zero, lookup-erase m m' u, other)
]

count_or_zero-lower :
    (m m' : Bytes) (n : ℕ) (u : List (Bytes × ℕ))
    → count_or_zero m' (lower m n u) ≡ (if m == m' then n - 1 else count_or_zero m' u)
unfolding lower
count_or_zero-lower m m' n u =
    ground (arith, count_or_zero-insert m m' (n - 1) u, count_or_zero-erase m m' u)

count_or_zero-nil : (m : Bytes) → count_or_zero m [] ≡ 0
unfolding count_or_zero
count_or_zero-nil m = ap (value_or 0) (lookup-nil m)

usage_or_nil-insert :
    (t t' : ℕ) (u : List (Bytes × ℕ)) (s : MsTx)
    → usage_or_nil t' (record s { usage_count = insert t u s.usage_count })
      ≡ (if nat_beq t t' then u else usage_or_nil t' s)
unfolding usage_or_nil
usage_or_nil-insert t t' u s = elim (Bool-cases (nat_beq t t')) [
  | inl same ↦ rw (usage_or_nil, lookup-insert t t' u s.usage_count, same)
  | inr other ↦ rw (usage_or_nil, lookup-insert t t' u s.usage_count, other)
]

usage_or_nil-erase :
    (t t' : ℕ) (s : MsTx)
    → usage_or_nil t' (record s { usage_count = erase t s.usage_count })
      ≡ (if nat_beq t t' then [] else usage_or_nil t' s)
unfolding usage_or_nil
usage_or_nil-erase t t' s = elim (Bool-cases (nat_beq t t')) [
  | inl same ↦ rw (usage_or_nil, lookup-erase t t' s.usage_count, same)
  | inr other ↦ rw (usage_or_nil, lookup-erase t t' s.usage_count, other)
]

is_empty-nil : {A : Type 0} (xs : List A) → is_empty xs ≡ true → xs ≡ []
is_empty-nil [] e = refl
is_empty-nil (x ∷ xs) e = ground (arith, e)

usage_or_nil-store_usage :
    (t t' : ℕ) (u : List (Bytes × ℕ)) (s : MsTx)
    → usage_or_nil t' (store_usage t u s) ≡ (if nat_beq t t' then u else usage_or_nil t' s)
unfolding store_usage
usage_or_nil-store_usage t t' u s = elim (Bool-cases (is_empty u)) [
  | inl empty ↦ rw (is_empty-nil u empty) (usage_or_nil-erase t t' s)
  | inr full ↦ rw full (usage_or_nil-insert t t' u s)
]

pub count-count_up :
    (t t' : ℕ) (m m' : Bytes) (s : MsTx)
    → count t' m' (count_up t m s)
      ≡ (if nat_beq t t' && m == m' then suc (count t m s) else count t' m' s)
unfolding count count_up
count-count_up t t' m m' s =
    let u = usage_or_nil t s in
    let n = suc (count_or_zero m u) in
    elim (Bool-cases (nat_beq t t')) [
      | inl same ↦
          subst
            (λ d.
              count_or_zero m'
                (usage_or_nil d (record s { usage_count = insert t (insert m n u) s.usage_count }))
              ≡ (if nat_beq t d && m == m' then n else count_or_zero m' (usage_or_nil d s)))
            ((nat_beq_iff t t').0 same)
            (rw
              (usage_or_nil-insert t t (insert m n u) s, eq_refl t, count_or_zero-insert m m' n u))
      | inr other ↦ rw (usage_or_nil-insert t t' (insert m n u) s, other)
    ]

-- The counts see only the usage map.
pub count-cong :
    (t : ℕ) (m : Bytes) (r s : MsTx) → r.usage_count ≡ s.usage_count → count t m r ≡ count t m s
unfolding count usage_or_nil
count-cong t m r s e = ap (λ x. count_or_zero m (value_or [] (lookup t x))) e

count-store_usage :
    (t t' : ℕ) (m m' : Bytes) (n : ℕ) (u : List (Bytes × ℕ)) (s : MsTx)
    → thread_usage t s ≡ some u
    → lookup m u ≡ some n
    → count t' m' (store_usage t (lower m n u) s)
      ≡ (if nat_beq t t' && m == m' then count t m s - 1 else count t' m' s)
unfolding count usage_or_nil count_or_zero
count-store_usage t t' m m' n u s at found =
    let u_is : usage_or_nil t s ≡ u = rw (usage_or_nil, at) in
    let n_is : count_or_zero m u ≡ n = rw (count_or_zero, found) in
    elim (Bool-cases (nat_beq t t')) [
      | inl same ↦
          subst
            (λ d. count_or_zero m' (usage_or_nil d (store_usage t (lower m n u) s)) ≡ (
              if nat_beq t d && m == m'
              then count_or_zero m (usage_or_nil t s) - 1
              else count_or_zero m' (usage_or_nil d s)))
            ((nat_beq_iff t t').0 same)
            (rw (usage_or_nil-store_usage t t (lower m n u) s, eq_refl t, u_is, n_is)
              (count_or_zero-lower m m' n u))
      | inr other ↦ rw (usage_or_nil-store_usage t t' (lower m n u) s, other)
    ]

pub same_count :
    (t t' : ℕ) (m m' : Bytes) (s : MsTx)
    → (nat_beq t t' && m == m') ≡ true
    → count t m s ≡ count t' m' s
same_count t t' m m' s same =
    let both : (t ≡ t') × (m ≡ m') = ground (arith, same, nat_beq_iff t t', list_beq_iff m m') in
    ap₂ (λ x y. count x y s) both.0 both.1

none_open :
    (t t' : ℕ) (m m' : Bytes) (s : MsTx)
    → count t m s ≡ 0
    → count t' m' s ≡ (if nat_beq t t' && m == m' then count t m s - 1 else count t' m' s)
none_open t t' m m' s zero_count = ground (arith, zero_count, same_count t t' m m' s)

count_idle : (t : ℕ) (m : Bytes) (s : MsTx) → thread_usage t s ≡ none → count t m s ≡ 0
unfolding count usage_or_nil
count_idle t m s idle = rw idle (count_or_zero-nil m)

count_absent :
    (t : ℕ) (m : Bytes) (s : MsTx) (u : List (Bytes × ℕ))
    → thread_usage t s ≡ some u
    → lookup m u ≡ none
    → count t m s ≡ 0
unfolding count usage_or_nil count_or_zero
count_absent t m s u busy absent = rw (busy, absent)

-- `MstxRangeEnd` on every branch: an unknown id and a range marked invalid leave every count; else
-- the ending thread's count of the range's message goes down by one, not below 0, and no other
-- count changes.
pub count-mstx_range_end :
    (t id t' : ℕ) (m' : Bytes) (s : MsTx)
    → count t' m' (mstx_range_end t id s).1 ≡ (elim (lookup id s.active_messages) [
      | none ↦ count t' m' s
      | some m ↦
          if any (λ i. nat_beq i id) s.invalid_range_ids
          then count t' m' s
          else (if nat_beq t t' && m == m' then count t m s - 1 else count t' m' s)
    ])
unfolding mstx_range_end
count-mstx_range_end t id t' m' s = elim (Option-cases (lookup id s.active_messages)) [
  | inl unknown ↦ rw (mstx_range_end, unknown)
  | inr (m, known) ↦
      let closed = record s { active_messages = erase id s.active_messages } in
      elim (Bool-cases (any (λ i. nat_beq i id) s.invalid_range_ids)) [
        | inl invalid ↦ rw (mstx_range_end, known, invalid) (count-cong t' m' closed s refl)
        | inr valid ↦ elim (Option-cases (thread_usage t s)) [
          | inl idle ↦
              rw (mstx_range_end, known, valid, idle)
                (count-cong t' m' closed s refl ∙ none_open t t' m m' s (count_idle t m s idle))
          | inr (u, busy) ↦ elim (Option-cases (lookup m u)) [
            | inl absent ↦
                rw (mstx_range_end, known, valid, busy, absent)
                  (count-cong t' m' closed s refl
                    ∙ none_open t t' m m' s (count_absent t m s u busy absent))
            | inr (n, present) ↦
                rw (mstx_range_end, known, valid, busy, present)
                  (count-store_usage t t' m m' n u closed busy present
                    ∙ ap₂ (λ x y. if nat_beq t t' && m == m' then x - 1 else y)
                        (count-cong t m closed s refl) (count-cong t' m' closed s refl))
          ]
        ]
      ]
]
