-- ===== src/Mstx/Heaps.antt =====
-- csrc/runtime/inject_helpers/MsTx.cpp: the domains, and the heaps that are registered in them.
pub mod Laws
use msopcom.Prelude.{
  ℕ, Bool, true, false, not, ◌&&◌, ◌||◌, List, [], ◌∷◌, ◌++◌, Option, none, some, nat_beq, nat_eq,
  list_eq, pair_eq, if◌then◌else◌, lookup, insert, erase, member, value_or,
}
use msopcom.Wire.{Bytes}
use msopcom.Text.{check_input_string_valid}
use msopcom.Mstx.{MsTx, HeapRangeDesc}

-- `MstxDomainCreateA`; `fresh` is the address of the object made when the name is new.
pub mstx_domain_create : ℕ → Bytes → MsTx → ℕ × MsTx
mstx_domain_create fresh name s =
    if not (check_input_string_valid name 1023)
    then (0, s)
    else elim (lookup name s.name_to_domain) [
      | none ↦ (
        fresh,
        record s {
          name_to_domain = insert name fresh s.name_to_domain;
          domain_to_name = insert fresh name s.domain_to_name;
        },
      )
      | some domain ↦ (domain, record s { domain_to_name = insert domain name s.domain_to_name })
    ]

-- `IsDomainExist`: 0 is the global domain.
unfoldable pub is_domain_exist : ℕ → MsTx → Bool
is_domain_exist domain s = nat_beq domain 0 || member domain s.domain_to_name

-- `MstxMemHeapRegister`; the description is `none` when it or its type-specific part is null, and
-- `fresh` is the address of the new heap.
pub mstx_mem_heap_register : ℕ → ℕ → Option HeapRangeDesc → MsTx → ℕ × MsTx
unfolding is_domain_exist
mstx_mem_heap_register fresh domain desc s =
    if not (is_domain_exist domain s) then (0, s) else elim desc [
      | none ↦ (0, s)
      | some d ↦ (
        fresh,
        record s {
          domain_heaps =
              insert domain (value_or [] (lookup domain s.domain_heaps) ++ fresh ∷ [])
                s.domain_heaps;
          heap_descs = insert (domain, fresh) d s.heap_descs;
        },
      )
    ]

-- The loop of `MstxMemHeapUnregister` that takes the heap out of the domain's list.
unfoldable pub without : ℕ → List ℕ → List ℕ
without heap [] = []
without heap (h ∷ hs) = let rest = without heap hs in if nat_beq h heap then rest else h ∷ rest

-- `MstxMemHeapUnregister`: the description found, when it succeeds.
pub mstx_mem_heap_unregister : ℕ → ℕ → MsTx → Option HeapRangeDesc × MsTx
unfolding is_domain_exist without
mstx_mem_heap_unregister domain heap s =
    if not (is_domain_exist domain s) || nat_beq heap 0
    then (none, s)
    else elim (lookup (domain, heap) s.heap_descs) [
      | none ↦ (none, s)
      | some d ↦ elim (lookup domain s.domain_heaps) [
        | none ↦ (none, s)
        | some heaps ↦ (
          some d,
          record s {
            domain_heaps = insert domain (without heap heaps) s.domain_heaps;
            heap_descs = erase (domain, heap) s.heap_descs;
          },
        )
      ]
    ]
