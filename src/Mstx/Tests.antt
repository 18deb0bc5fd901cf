-- ===== src/Mstx/Tests.antt =====
-- The laws of csrc/runtime/inject_helpers/MsTx.cpp at concrete calls.
use msopcom.Prelude.{
  ℕ, suc, ◌≡◌, refl, arith, true, false, List, [], ◌∷◌, none, some, nat_beq, nat_eq, list_eq,
  pair_eq, ◌==◌, if◌then◌else◌, ◌&&◌, ◌-◌, any, lookup, lookup-nil, lookup-cons, ◌∙◌, subst, sym,
  value_or, is_some,
}
use msopcom.Wire.{Bytes}
use msopcom.Mstx.{mstx_attr_reset, MsTx, HeapRangeDesc, VirtualRangeDesc}
use msopcom.Mstx.Ranges.{ProfConfig, mstx_range_add, add_range, mstx_range_end}
use msopcom.Mstx.Ranges.Counts.{count, count-mstx_range_end}
use msopcom.Mstx.Ranges.Closing.{mstx_range_end-add_range}
use msopcom.Mstx.Heaps.{is_domain_exist, mstx_mem_heap_register, mstx_mem_heap_unregister, without}
use msopcom.Mstx.Heaps.Laws.{IsUndoneBy, mstx_mem_heap_unregister-register}
use msopcom.Mstx.Regions.{
  mstx_mem_regions_register, mstx_mem_permissions_assign, mstx_mem_regions_unregister,
}
use msopcom.Mstx.Regions.Laws.{handles, descs_of, Distinct}
use msopcom.Mstx.Regions.Batches.{mstx_mem_regions_lifetime}

abbrev started : MsTx
started = record {
  is_mstx_init = true;
  is_mstx_enabled_message_init = false;
  enabled_message_list = [];
  usage_count = [];
  active_messages = [];
  invalid_range_ids = [];
  range_id = 0;
  name_to_domain = [];
  domain_to_name = [];
  heap_descs = [];
  domain_heaps = [];
  domain_regions = [];
  region_descs = [];
}

-- The messages "a" and "b".
abbrev a : Bytes
a = b'a' ∷ []

abbrev b : Bytes
b = b'b' ∷ []

mstx_range_end-add_range_example :
    let (id, opened) = add_range true 3 a started in
    (count 3 a opened ≡ suc (count 3 a started))
    × (count 4 b (mstx_range_end 3 id opened).1 ≡ count 4 b started)
    × (lookup 0 (mstx_range_end 3 id opened).1.active_messages
        ≡ (if nat_beq id 0 then none else lookup 0 started.active_messages))
mstx_range_end-add_range_example = mstx_range_end-add_range 3 4 0 a b started (omega arith) refl

-- Thread 3 has "a" open, as range 0.
abbrev one_open : MsTx
one_open = record started {
  active_messages = (0, a) ∷ [];
  usage_count = (3, (a, 1) ∷ []) ∷ [];
  range_id = 1;
}

count-mstx_range_end_example :
    count 3 a (mstx_range_end 3 0 one_open).1 ≡ (elim (lookup 0 one_open.active_messages) [
      | none ↦ count 3 a one_open
      | some m ↦
          if any (λ i. nat_beq i 0) one_open.invalid_range_ids
          then count 3 a one_open
          else (if nat_beq 3 3 && m == a then count 3 m one_open - 1 else count 3 a one_open)
    ])
count-mstx_range_end_example = count-mstx_range_end 3 0 3 a one_open

abbrev range : VirtualRangeDesc
range = record { device_id = 0; ptr = 4096; size = 256 }

abbrev heap_desc : HeapRangeDesc
heap_desc = record { heap_usage = 0; mem_type = 0; range_desc = range }

global_exists : is_domain_exist 0 started ≡ true
unfolding is_domain_exist
global_exists = refl

no_heaps : lookup (0, 64) started.heap_descs ≡ none
no_heaps = lookup-nil (0, 64)

no_listed :
    without 64 (value_or [] (lookup 0 started.domain_heaps))
    ≡ value_or [] (lookup 0 started.domain_heaps)
unfolding without
no_listed =
    let listed : lookup 0 started.domain_heaps ≡ none = lookup-nil 0 in
    subst (λ o. without 64 (value_or [] o) ≡ value_or [] o) (sym listed) refl

mstx_mem_heap_unregister-register_example :
    let (handle, registered) = mstx_mem_heap_register 64 0 (some heap_desc) started in
    IsUndoneBy 0 (0, 64) 0 heap_desc handle started (mstx_mem_heap_unregister 0 handle registered)
mstx_mem_heap_unregister-register_example =
    mstx_mem_heap_unregister-register 64 0 0 (0, 64) heap_desc started global_exists (ground arith)
      no_heaps no_listed

abbrev two_regions : List (ℕ × VirtualRangeDesc)
two_regions = (16, range) ∷ (32, range) ∷ []

all-Distinct : Distinct two_regions
all-Distinct = (lookup-cons 32 16 range [] ∙ lookup-nil 16, (lookup-nil 32, tt))

mstx_mem_regions_lifetime_example :
    let (info, registered) = mstx_mem_regions_register 0 true 0 two_regions started in
    let (found, left) = mstx_mem_regions_unregister 0 true (handles two_regions) registered in
    (info.success ≡ true)
    × (mstx_mem_permissions_assign 0 true (handles two_regions) registered
        ≡ (descs_of two_regions, true))
    × (found ≡ some (descs_of two_regions))
    × (lookup 16 left.region_descs
        ≡ (if is_some (lookup 16 two_regions) then none else lookup 16 started.region_descs))
mstx_mem_regions_lifetime_example =
    mstx_mem_regions_lifetime 0 0 16 two_regions started global_exists refl all-Distinct

-- A forced reset leaves the ids of invalid ranges, while it starts again from id 0.
mstx_attr_reset_forced :
    let s = mstx_attr_reset true (record one_open { invalid_range_ids = 0 ∷ [] }) in
    (s.range_id ≡ 0) × (s.invalid_range_ids ≡ 0 ∷ [])
unfolding mstx_attr_reset
mstx_attr_reset_forced = (refl, refl)

-- With range replay and marks off the thread is always in a range, so that a new one is invalid.
abbrev replay_off : ProfConfig
replay_off = record { is_range_replay = true; is_mstx_enable = false; mstx_enabled_message = [] }

mstx_range_add_invalid : (mstx_range_add replay_off 3 a started).1.invalid_range_ids ≡ 0 ∷ []
unfolding mstx_range_add
mstx_range_add_invalid = refl
