-- ===== src/Mstx/Ranges/Closing.antt =====
-- A range of csrc/runtime/inject_helpers/MsTx.cpp from `MstxRangeAdd` to `MstxRangeEnd`.
use msopcom.Prelude.{
  ℕ, suc, ◌<◌, ◌≡◌, inl, inr, refl, sym, ap₂, subst, ◌∙◌, arith, true, false, ◌&&◌, List, none,
  nat_beq, nat_beq_iff, nat_eq, list_eq, ◌==◌, eq_refl, if◌then◌else◌, lookup-insert_self, lookup,
  insert, lookup-insert, lookup-erase, Bool-cases, Option-cases, any,
}
use msopcom.Wire.{Bytes}
use msopcom.Mstx.{MsTx}
use msopcom.Mstx.Ranges.{count_up, add_range, store_usage, mstx_range_end, thread_usage}
use msopcom.Mstx.Ranges.Counts.{count, count-cong, count-count_up, count-mstx_range_end, same_count}

unknown_closed :
    {V : Type 0} (k j : ℕ) (xs : List (ℕ × V))
    → lookup k xs ≡ none
    → lookup j xs ≡ (if nat_beq k j then none else lookup j xs)
unknown_closed k j xs missing = elim (Bool-cases (nat_beq k j)) [
  | inl same ↦ rw same (subst (λ x. lookup x xs ≡ none) ((nat_beq_iff k j).0 same) missing)
  | inr other ↦ rw other
]

-- `MstxRangeEnd` also closes exactly the id that it is given.
active-mstx_range_end :
    (t id id' : ℕ) (s : MsTx)
    → lookup id' (mstx_range_end t id s).1.active_messages
      ≡ (if nat_beq id id' then none else lookup id' s.active_messages)
unfolding mstx_range_end store_usage
active-mstx_range_end t id id' s =
    let erased = lookup-erase id id' s.active_messages in
    elim (Option-cases (lookup id s.active_messages)) [
      | inl unknown ↦ rw (mstx_range_end, unknown) (unknown_closed id id' s.active_messages unknown)
      | inr (m, known) ↦ elim (Bool-cases (any (λ i. nat_beq i id) s.invalid_range_ids)) [
        | inl invalid ↦ rw (mstx_range_end, known, invalid) erased
        | inr valid ↦ elim (Option-cases (thread_usage t s)) [
          | inl idle ↦ rw (mstx_range_end, known, valid, idle) erased
          | inr (u, busy) ↦ elim (Option-cases (lookup m u)) [
            | inl absent ↦ rw (mstx_range_end, known, valid, busy, absent) erased
            | inr (n, present) ↦ rw (mstx_range_end, known, valid, busy, present) erased
          ]
        ]
      ]
    ]

-- The state that `MstxRangeAdd` leaves for a valid range.
abbrev opened : ℕ → Bytes → MsTx → MsTx
opened t m s =
    let active = record s { active_messages = insert s.range_id m s.active_messages } in
    record (count_up t m active) { range_id = suc s.range_id }

count-opened :
    (t t' : ℕ) (m m' : Bytes) (s : MsTx)
    → count t' m' (opened t m s)
      ≡ (if nat_beq t t' && m == m' then suc (count t m s) else count t' m' s)
count-opened t t' m m' s =
    let active = record s { active_messages = insert s.range_id m s.active_messages } in
    count-cong t' m' (opened t m s) (count_up t m active) refl
    ∙ count-count_up t t' m m' active
    ∙ ap₂ (λ x y. if nat_beq t t' && m == m' then suc x else y) (count-cong t m active s refl)
        (count-cong t' m' active s refl)

count-opened_self : (t : ℕ) (m : Bytes) (s : MsTx) → count t m (opened t m s) ≡ suc (count t m s)
count-opened_self t m s = count-opened t t m m s ∙ rw (eq_refl t, eq_refl m)

count-closed :
    (t t' : ℕ) (m m' : Bytes) (s : MsTx)
    → any (λ i. nat_beq i s.range_id) s.invalid_range_ids ≡ false
    → count t' m' (mstx_range_end t s.range_id (opened t m s)).1 ≡ count t' m' s
unfolding count_up
count-closed t t' m m' s fresh =
    count-mstx_range_end t s.range_id t' m' (opened t m s)
    ∙ rw (lookup-insert_self s.range_id m s.active_messages, fresh)
        (ground (arith, count-opened t t' m m' s, count-opened_self t m s, same_count t t' m m' s))

-- A valid range that a thread opens, below the limit of the ids and with an id that is not marked
-- invalid, is closed again by the same thread's `MstxRangeEnd` of the id that it got: every
-- thread's count of every message is what it was, and no other id's message has changed.
pub mstx_range_end-add_range :
    (t t' id' : ℕ) (m m' : Bytes) (s : MsTx)
    → s.range_id < 18446744073709551615
    → any (λ i. nat_beq i s.range_id) s.invalid_range_ids ≡ false
    → let (id, opened) = add_range true t m s in
      (count t m opened ≡ suc (count t m s))
      × (count t' m' (mstx_range_end t id opened).1 ≡ count t' m' s)
      × (lookup id' (mstx_range_end t id opened).1.active_messages
          ≡ (if nat_beq id id' then none else lookup id' s.active_messages))
unfolding add_range
mstx_range_end-add_range t t' id' m m' s below fresh =
    let below_limit : nat_beq s.range_id 18446744073709551615 ≡ false = ground (arith, below) in
    let equation : add_range true t m s ≡ (s.range_id, opened t m s) = rw below_limit in
    let reopened = lookup-insert s.range_id id' m s.active_messages in
    subst
      (λ r.
        (count t m r.1 ≡ suc (count t m s))
        × (count t' m' (mstx_range_end t r.0 r.1).1 ≡ count t' m' s)
        × (lookup id' (mstx_range_end t r.0 r.1).1.active_messages
            ≡ (if nat_beq r.0 id' then none else lookup id' s.active_messages)))
      (sym equation)
      (
        count-opened_self t m s,
        count-closed t t' m m' s fresh,
        active-mstx_range_end t s.range_id id' (opened t m s) ∙ ground (arith, reopened),
      )
