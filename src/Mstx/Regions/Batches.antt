-- ===== src/Mstx/Regions/Batches.antt =====
-- A batch of regions of csrc/runtime/inject_helpers/MsTx.cpp through `MstxMemRegionsRegister`,
-- `MstxMemPermissionsAssign` and `MstxMemRegionsUnregister`.
use msopcom.Prelude.{
  ℕ, ◌≡◌, refl, sym, ap, subst, ◌∙◌, arith, true, ◌||◌, List, [], ◌∷◌, ◌++◌, none, some, nat_beq,
  nat_eq, pair_eq, if◌then◌else◌, lookup, insert, value_or, is_some, Bool-cases, Option-cases, inl,
  inr, lookup-insert_self,
}
use msopcom.Mstx.{MsTx, VirtualRangeDesc}
use msopcom.Mstx.Heaps.{is_domain_exist}
use msopcom.Mstx.Heaps.Laws.{is_domain_exist-cong}
use msopcom.Mstx.Regions.{
  register_all, unregister_all, assign_all, mstx_mem_regions_register, mstx_mem_permissions_assign,
  mstx_mem_regions_unregister,
}
use msopcom.Mstx.Regions.Laws.{
  handles, descs_of, Distinct, register_all_keeps, register_all-Holds, assign_all-Holds,
  unregister_all_held,
}

register_all_domains :
    (domain : ℕ) (regions : List (ℕ × VirtualRangeDesc)) (s : MsTx)
    → (register_all domain regions s).domain_to_name ≡ s.domain_to_name
unfolding register_all
register_all_domains domain [] s = refl
register_all_domains domain ((k, d) ∷ regions) s = register_all_domains domain regions _

register_all_listed :
    (domain : ℕ) (regions : List (ℕ × VirtualRangeDesc)) (s : MsTx)
    → is_some (lookup domain s.domain_regions) ≡ true
    → is_some (lookup domain (register_all domain regions s).domain_regions) ≡ true
unfolding register_all
register_all_listed domain [] s listed = listed
register_all_listed domain ((k, d) ∷ regions) s listed = register_all_listed domain regions _ (
    ap is_some (
      lookup-insert_self domain (value_or [] (lookup domain s.domain_regions) ++ k ∷ [])
        s.domain_regions))

others_kept :
    (domain h : ℕ) (regions : List (ℕ × VirtualRangeDesc)) (s : MsTx)
    → (if is_some (lookup h regions)
        then none
        else lookup h (register_all domain regions s).region_descs)
      ≡ (if is_some (lookup h regions) then none else lookup h s.region_descs)
others_kept domain h regions s = elim (Option-cases (lookup h regions)) [
  | inl absent ↦ rw absent (register_all_keeps domain h regions s absent)
  | inr (d, present) ↦ rw present
]

-- The state in which `MstxMemRegionsRegister` starts its loop.
abbrev listed : ℕ → MsTx → MsTx
listed domain s = record s {
  domain_regions = insert domain (value_or [] (lookup domain s.domain_regions)) s.domain_regions;
}

register_accepted :
    (domain heap : ℕ) (regions : List (ℕ × VirtualRangeDesc)) (s : MsTx)
    → is_domain_exist domain s ≡ true
    → (nat_beq heap 0 || is_some (lookup (domain, heap) s.heap_descs)) ≡ true
    → let r = mstx_mem_regions_register domain true heap regions s in
      (r.0.success ≡ true) × (r.1 ≡ register_all domain regions (listed domain s))
unfolding mstx_mem_regions_register
register_accepted domain heap regions s exists known =
    elim (Option-cases (lookup (domain, heap) s.heap_descs)) [
      | inl missing ↦
          let is_null : nat_beq heap 0 ≡ true = ground (arith, known, missing) in
          (
            rw (mstx_mem_regions_register, exists, missing, is_null),
            rw (mstx_mem_regions_register, exists, missing, is_null),
          )
      | inr (d, found) ↦ elim (Bool-cases (nat_beq heap 0)) [
        | inl is_null ↦ (
          rw (mstx_mem_regions_register, exists, found, is_null),
          rw (mstx_mem_regions_register, exists, found, is_null),
        )
        | inr other ↦ (
          rw (mstx_mem_regions_register, exists, found, other),
          rw (mstx_mem_regions_register, exists, found, other),
        )
      ]
    ]

assign_accepted :
    (domain : ℕ) (regions : List (ℕ × VirtualRangeDesc)) (s : MsTx)
    → is_domain_exist domain s ≡ true
    → is_some (lookup domain s.domain_regions) ≡ true
    → mstx_mem_permissions_assign domain true (handles regions) s ≡ assign_all (handles regions) s
unfolding mstx_mem_permissions_assign
assign_accepted domain regions s exists has = rw (exists, has)

unregister_accepted :
    (domain : ℕ) (regions : List (ℕ × VirtualRangeDesc)) (s : MsTx)
    → is_domain_exist domain s ≡ true
    → is_some (lookup domain s.domain_regions) ≡ true
    → mstx_mem_regions_unregister domain true (handles regions) s
      ≡ (let r = unregister_all domain (handles regions) ([], s) in (some r.0, r.1))
unfolding mstx_mem_regions_unregister
unregister_accepted domain regions s exists has = rw (exists, has)

-- A batch of regions with handles that are all different, registered in a domain that exists, with
-- the null heap or a heap of that domain: the registering succeeds; a permission batch of the
-- same handles gets exactly the regions' descriptions, in order; and unregistering them returns
-- those descriptions, takes each of the handles out, and leaves every other handle's description
-- as it was before.
pub mstx_mem_regions_lifetime :
    (domain heap h : ℕ) (regions : List (ℕ × VirtualRangeDesc)) (s : MsTx)
    → is_domain_exist domain s ≡ true
    → (nat_beq heap 0 || is_some (lookup (domain, heap) s.heap_descs)) ≡ true
    → Distinct regions
    → let (info, registered) = mstx_mem_regions_register domain true heap regions s in
      let (found, left) = mstx_mem_regions_unregister domain true (handles regions) registered in
      (info.success ≡ true)
      × (mstx_mem_permissions_assign domain true (handles regions) registered
          ≡ (descs_of regions, true))
      × (found ≡ some (descs_of regions))
      × (lookup h left.region_descs
          ≡ (if is_some (lookup h regions) then none else lookup h s.region_descs))
mstx_mem_regions_lifetime domain heap h regions s exists known distinct =
    let registered = register_all domain regions (listed domain s) in
    let (success, registered_is) = register_accepted domain heap regions s exists known in
    let exists' =
      is_domain_exist-cong domain registered s
        (register_all_domains domain regions (listed domain s))
      ∙ exists in
    let has = register_all_listed domain regions (listed domain s) (
      ap is_some (
        lookup-insert_self domain (value_or [] (lookup domain s.domain_regions))
          s.domain_regions)) in
    let holds = register_all-Holds domain regions (listed domain s) distinct in
    let (found, left) = unregister_all_held domain h regions [] registered distinct holds in
    let unregistered = unregister_accepted domain regions registered exists' has in
    (
      success,
      subst
          (λ r.
            mstx_mem_permissions_assign domain true (handles regions) r ≡ (descs_of regions, true))
          (sym registered_is)
          (assign_accepted domain regions registered exists' has
            ∙ assign_all-Holds regions registered holds),
      subst
          (λ r.
            (mstx_mem_regions_unregister domain true (handles regions) r).0
            ≡ some (descs_of regions))
          (sym registered_is) (ap (λ r. r.0) unregistered ∙ ap some found),
      subst
          (λ r.
            lookup h (mstx_mem_regions_unregister domain true (handles regions) r).1.region_descs
            ≡ (if is_some (lookup h regions) then none else lookup h s.region_descs))
          (sym registered_is)
          (ap (λ r. lookup h r.1.region_descs) unregistered
            ∙ left
            ∙ others_kept domain h regions (listed domain s)),
    )
