-- ===== src/Mstx/Regions.antt =====
-- csrc/runtime/inject_helpers/MsTx.cpp: memory regions, registered in a batch with handles, taken
-- out by handle, and looked up for the permissions that a batch assigns.
pub mod Laws
pub mod Batches
use msopcom.Prelude.{
  ℕ, Bool, true, false, not, ◌&&◌, ◌||◌, List, [], ◌∷◌, ◌++◌, Option, none, some, nat_beq, nat_eq,
  pair_eq, is_some, if◌then◌else◌, lookup, insert, erase, value_or,
}
use msopcom.Mstx.{MsTx, VirtualRangeDesc}
use msopcom.Mstx.Heaps.{is_domain_exist, without}

-- `MstxMemRegionRef`: by pointer or by handle.
pub data RegionRef : Type 0 where
  by_pointer : ℕ → RegionRef
  by_handle : ℕ → RegionRef

-- `MemRegionsBelongInfo`.
pub record BelongInfo : Type 0 where
  pub addr : ℕ
  pub size : ℕ
  pub success : Bool

pub refused_info : BelongInfo
refused_info = record { addr = 0; size = 0; success = false }

-- The loop of `MstxMemRegionsRegister`; each region comes with the address that `new` returns for
-- its handle.
pub register_all : ℕ → List (ℕ × VirtualRangeDesc) → MsTx → MsTx
register_all domain [] s = s
register_all domain ((handle, d) ∷ regions) s = register_all domain regions (record s {
  domain_regions =
      insert domain (value_or [] (lookup domain s.domain_regions) ++ handle ∷ []) s.domain_regions;
  region_descs = insert handle d s.region_descs;
})

-- `MstxMemRegionsRegister`; `legal` says that the batch and its two arrays are not null. The
-- domain's list is made even when the batch is empty.
pub mstx_mem_regions_register :
    ℕ → Bool → ℕ → List (ℕ × VirtualRangeDesc) → MsTx → BelongInfo × MsTx
unfolding is_domain_exist register_all
mstx_mem_regions_register domain legal heap regions s =
    if not (is_domain_exist domain s) || not legal
    then (refused_info, s)
    else let found = lookup (domain, heap) s.heap_descs in
      if not (nat_beq heap 0) && not (is_some found)
      then (refused_info, s)
      else let listed = record s {
        domain_regions =
            insert domain (value_or [] (lookup domain s.domain_regions)) s.domain_regions;
      } in
        (
          elim found [
            | none ↦ record { addr = 0; size = 0; success = true }
            | some d ↦ record { addr = d.range_desc.ptr; size = d.range_desc.size; success = true }
          ],
          register_all domain regions listed,
        )

-- `UpdateRegionsUnregisterInfo`: the descriptions gathered so far come first.
pub update_regions_unregister_info :
    ℕ → ℕ → List VirtualRangeDesc × MsTx → List VirtualRangeDesc × MsTx
unfolding without
update_regions_unregister_info domain handle (descs, s) =
    let kept = record s {
      domain_regions =
          insert domain (without handle (value_or [] (lookup domain s.domain_regions)))
            s.domain_regions;
    } in
    elim (lookup handle s.region_descs) [
      | none ↦ (descs, kept)
      | some d ↦ (descs ++ d ∷ [], record kept { region_descs = erase handle s.region_descs })
    ]

-- The loop of `MstxMemRegionsUnregister`: a reference by pointer is passed over.
pub unregister_all :
    ℕ → List RegionRef → List VirtualRangeDesc × MsTx → List VirtualRangeDesc × MsTx
unfolding update_regions_unregister_info
unregister_all domain [] acc = acc
unregister_all domain (by_pointer p ∷ refs) acc = unregister_all domain refs acc
unregister_all domain (by_handle h ∷ refs) acc =
    unregister_all domain refs (update_regions_unregister_info domain h acc)

-- `MstxMemRegionsUnregister`: `none` is the result `false`.
pub mstx_mem_regions_unregister :
    ℕ → Bool → List RegionRef → MsTx → Option (List VirtualRangeDesc) × MsTx
unfolding unregister_all is_domain_exist
mstx_mem_regions_unregister domain legal refs s =
    if not (is_domain_exist domain s) || not legal || not (is_some (lookup domain s.domain_regions))
    then (none, s)
    else let r = unregister_all domain refs ([], s) in (some r.0, r.1)

-- The loop of `MstxMemPermissionsAssign`: the descriptions, and whether all were found.
pub assign_all : List RegionRef → MsTx → List VirtualRangeDesc × Bool
assign_all [] s = ([], true)
assign_all (by_pointer p ∷ refs) s = ([], false)
assign_all (by_handle h ∷ refs) s = elim (lookup h s.region_descs) [
  | none ↦ ([], false)
  | some d ↦ (d ∷ (assign_all refs s).0, (assign_all refs s).1)
]

-- `MstxMemPermissionsAssign`.
pub mstx_mem_permissions_assign : ℕ → Bool → List RegionRef → MsTx → List VirtualRangeDesc × Bool
unfolding assign_all is_domain_exist
mstx_mem_permissions_assign domain legal refs s =
    if not (is_domain_exist domain s) || not legal || not (is_some (lookup domain s.domain_regions))
    then ([], false)
    else assign_all refs s
