-- ===== src/Mstx/Ranges.antt =====
-- csrc/runtime/inject_helpers/MsTx.cpp: the ranges that the program's threads open and close.
-- The configuration that `ProfConfig` holds is an argument, and so is the calling thread.
pub mod Counts
pub mod Closing
use msopcom.Prelude.{
  ℕ, suc, ◌-◌, Bool, true, false, not, ◌&&◌, ◌||◌, List, [], ◌∷◌, ◌++◌, Option, none, some, nat_beq,
  nat_eq, list_eq, ◌==◌, if◌then◌else◌, value_or, lookup, insert, erase, member, any, is_empty, ltb,
}
use msopcom.Wire.{Bytes}
use msopcom.Text.{split_string}
use msopcom.Mstx.{MsTx}

pub record ProfConfig : Type 0 where
  pub is_range_replay : Bool
  pub is_mstx_enable : Bool
  pub mstx_enabled_message : Bytes

-- The messages that the thread has open, with how often each; `none` when it has no entry.
abbrev pub thread_usage : ℕ → MsTx → Option (List (Bytes × ℕ))
thread_usage thread s = lookup thread s.usage_count

-- `mstxRangeMessageUsageCountMap_[threadId]`, which makes an empty entry when there is none.
pub usage_or_nil : ℕ → MsTx → List (Bytes × ℕ)
usage_or_nil thread s = value_or [] (thread_usage thread s)

pub count_or_zero : Bytes → List (Bytes × ℕ) → ℕ
count_or_zero message u = value_or 0 (lookup message u)

-- The list of the enabled messages is split from the configuration at its first use.
unfoldable pub init_enabled : ProfConfig → MsTx → MsTx
init_enabled c s = if s.is_mstx_enabled_message_init then s else record s {
  enabled_message_list = s.enabled_message_list ++ split_string c.mstx_enabled_message b'|';
  is_mstx_enabled_message_init = true;
}

-- `IsMessageEnable`.
pub is_message_enable : ProfConfig → Bytes → MsTx → Bool × MsTx
is_message_enable c message s =
    if is_empty c.mstx_enabled_message
    then (true, s)
    else (any (λ m. m == message) (init_enabled c s).enabled_message_list, init_enabled c s)

-- `IsInMstxRange`.
pub is_in_mstx_range : ProfConfig → ℕ → MsTx → Bool × MsTx
is_in_mstx_range c thread s =
    if not c.is_mstx_enable
    then (true, s)
    else if is_empty c.mstx_enabled_message
    then (elim (thread_usage thread s) [ none ↦ false | some u ↦ not (is_empty u) ], s)
    else (
      any (λ m. elim (thread_usage thread s) [ none ↦ false | some u ↦ member m u ])
          (init_enabled c s).enabled_message_list,
      init_enabled c s,
    )

-- The range is valid, and what the two tests leave of the state.
pub range_validity : ProfConfig → ℕ → Bytes → MsTx → Bool × MsTx
unfolding is_message_enable is_in_mstx_range
range_validity c thread message s =
    if not c.is_range_replay
    then (true, s)
    else let enabled = is_message_enable c message s in
      let inside = is_in_mstx_range c thread enabled.1 in
      if not enabled.0 then (false, enabled.1) else (not inside.0, inside.1)

-- `mstxRangeMessageUsageCountMap_[threadId][message]++`.
unfoldable pub count_up : ℕ → Bytes → MsTx → MsTx
unfolding usage_or_nil count_or_zero
count_up thread message s =
    let u = usage_or_nil thread s in
    record s {
      usage_count = insert thread (insert message (suc (count_or_zero message u)) u) s.usage_count;
    }

-- The part of `MstxRangeAdd` that the second lock guards, with the validity that was found.
pub add_range : Bool → ℕ → Bytes → MsTx → ℕ × MsTx
unfolding count_up
add_range valid thread message s =
    if nat_beq s.range_id 18446744073709551615
    then (18446744073709551615, s)
    else let active = record s { active_messages = insert s.range_id message s.active_messages } in
      let marked =
        if valid
        then count_up thread message active
        else record active { invalid_range_ids = s.range_id ∷ s.invalid_range_ids } in
      (s.range_id, record marked { range_id = suc s.range_id })

-- `MstxRangeAdd`.
unfoldable pub mstx_range_add : ProfConfig → ℕ → Bytes → MsTx → ℕ × MsTx
unfolding range_validity add_range
mstx_range_add c thread message s =
    let v = range_validity c thread message s in add_range v.0 thread message v.1

-- A map without its empty value, as the last test of `MstxRangeEnd` leaves the thread's entry.
pub store_usage : ℕ → List (Bytes × ℕ) → MsTx → MsTx
store_usage thread u s = record s {
  usage_count = if is_empty u then erase thread s.usage_count else insert thread u s.usage_count;
}

-- The entry of a message with its count lowered, and taken out at 0.
pub lower : Bytes → ℕ → List (Bytes × ℕ) → List (Bytes × ℕ)
lower message n u = if nat_beq (n - 1) 0 then erase message u else insert message (n - 1) u

-- The part of `MstxRangeEnd` under the lock; the Boolean says that it did not return, so that the
-- capture of a range replay follows.
pub mstx_range_end : ℕ → ℕ → MsTx → Bool × MsTx
unfolding store_usage lower
mstx_range_end thread id s = elim (lookup id s.active_messages) [
  | none ↦ (false, s)
  | some message ↦
      let closed = record s { active_messages = erase id s.active_messages } in
      if any (λ i. nat_beq i id) s.invalid_range_ids
      then (false, closed)
      else elim (thread_usage thread s) [
        | none ↦ (false, closed)
        | some u ↦ elim (lookup message u) [
          | none ↦ (false, closed)
          | some n ↦ (true, store_usage thread (lower message n u) closed)
        ]
      ]
]
