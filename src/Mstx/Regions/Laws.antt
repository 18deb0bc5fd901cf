-- ===== src/Mstx/Regions/Laws.antt =====
-- The loops over a batch of regions in csrc/runtime/inject_helpers/MsTx.cpp.
use msopcom.Prelude.{
  ℕ, ◌≡◌, refl, sym, subst, ◌∙◌, arith, true, false, List, [], ◌∷◌, ◌++◌, append_assoc, none, some,
  map, nat_beq, nat_eq, if◌then◌else◌, lookup, insert, erase, lookup-insert, lookup-cons,
  lookup-nil, value_or, append-nil, is_some, lookup-insert_self, lookup-erase,
}
use msopcom.Mstx.Heaps.{without}
use msopcom.Mstx.{MsTx, VirtualRangeDesc}
use msopcom.Mstx.Regions.{
  RegionRef, by_handle, register_all, unregister_all, update_regions_unregister_info, assign_all,
}

-- The handles of a batch.
abbrev pub handles : List (ℕ × VirtualRangeDesc) → List RegionRef
handles [] = []
handles ((h, d) ∷ regions) = by_handle h ∷ handles regions

pub descs_of : List (ℕ × VirtualRangeDesc) → List VirtualRangeDesc
descs_of = map (λ r. r.1)

-- No handle occurs twice, as `new` returns different addresses.
abbrev pub Distinct : List (ℕ × VirtualRangeDesc) → Type 0
Distinct [] = Unit
Distinct ((h, d) ∷ regions) = (lookup h regions ≡ none) × Distinct regions

-- Each region of a batch is registered under its handle.
abbrev pub Holds : List (ℕ × VirtualRangeDesc) → MsTx → Type 0
Holds [] s = Unit
Holds ((h, d) ∷ regions) s = (lookup h s.region_descs ≡ some d) × Holds regions s

other_key :
    (h k : ℕ) (d : VirtualRangeDesc) (regions : List (ℕ × VirtualRangeDesc))
    → lookup h ((k, d) ∷ regions) ≡ none
    → (nat_beq k h ≡ false) × (lookup h regions ≡ none)
other_key h k d regions absent = ground (arith, absent, lookup-cons k h d regions)

pub register_all_keeps :
    (domain h : ℕ) (regions : List (ℕ × VirtualRangeDesc)) (s : MsTx)
    → lookup h regions ≡ none
    → lookup h (register_all domain regions s).region_descs ≡ lookup h s.region_descs
unfolding register_all
register_all_keeps domain h [] s absent = refl
register_all_keeps domain h ((k, d) ∷ regions) s absent =
    let (differs, absent') = other_key h k d regions absent in
    let added = record s {
      domain_regions =
          insert domain (value_or [] (lookup domain s.domain_regions) ++ k ∷ []) s.domain_regions;
      region_descs = insert k d s.region_descs;
    } in
    register_all_keeps domain h regions added absent'
    ∙ rw (lookup-insert k h d s.region_descs, differs)

pub register_all-Holds :
    (domain : ℕ) (regions : List (ℕ × VirtualRangeDesc)) (s : MsTx)
    → Distinct regions
    → Holds regions (register_all domain regions s)
unfolding register_all
register_all-Holds domain [] s distinct = tt
register_all-Holds domain ((k, d) ∷ regions) s (absent, distinct) =
    let added = record s {
      domain_regions =
          insert domain (value_or [] (lookup domain s.domain_regions) ++ k ∷ []) s.domain_regions;
      region_descs = insert k d s.region_descs;
    } in
    (
      register_all_keeps domain k regions added absent ∙ lookup-insert_self k d s.region_descs,
      register_all-Holds domain regions added distinct,
    )

pub assign_all-Holds :
    (regions : List (ℕ × VirtualRangeDesc)) (s : MsTx)
    → Holds regions s
    → assign_all (handles regions) s ≡ (descs_of regions, true)
unfolding assign_all descs_of
assign_all-Holds [] s holds = refl
assign_all-Holds ((h, d) ∷ regions) s (held, holds) =
    rw (assign_all, held, assign_all-Holds regions s holds)

-- The state after one handle is taken out.
abbrev taken : ℕ → ℕ → MsTx → MsTx
taken domain h s = record s {
  domain_regions =
      insert domain (without h (value_or [] (lookup domain s.domain_regions))) s.domain_regions;
  region_descs = erase h s.region_descs;
}

update_held :
    (domain h : ℕ) (d : VirtualRangeDesc) (descs : List VirtualRangeDesc) (s : MsTx)
    → lookup h s.region_descs ≡ some d
    → update_regions_unregister_info domain h (descs, s) ≡ (descs ++ d ∷ [], taken domain h s)
unfolding update_regions_unregister_info
update_held domain h d descs s held = rw (update_regions_unregister_info, held)

taken-Holds :
    (domain h : ℕ) (regions : List (ℕ × VirtualRangeDesc)) (s : MsTx)
    → lookup h regions ≡ none
    → Holds regions s
    → Holds regions (taken domain h s)
taken-Holds domain h [] s absent holds = tt
taken-Holds domain h ((k, d) ∷ regions) s absent (held, holds) =
    let (differs, absent') = other_key h k d regions absent in
    (
      ground (arith, differs, held, lookup-erase h k s.region_descs),
      taken-Holds domain h regions s absent' holds,
    )

-- What a batch's unregistering finds and leaves, against the state that it starts from.
pub unregister_all_held :
    (domain h : ℕ) (regions : List (ℕ × VirtualRangeDesc)) (descs : List VirtualRangeDesc)
    (s : MsTx)
    → Distinct regions
    → Holds regions s
    → let r = unregister_all domain (handles regions) (descs, s) in
      (r.0 ≡ descs ++ descs_of regions)
      × (lookup h r.1.region_descs
          ≡ (if is_some (lookup h regions) then none else lookup h s.region_descs))
unfolding unregister_all descs_of
unregister_all_held domain h [] descs s distinct holds = (sym (append-nil descs), rw (lookup-nil h))
unregister_all_held domain h ((k, d) ∷ regions) descs s (absent, distinct) (held, holds) =
    let (found, left) =
      unregister_all_held domain h regions (descs ++ d ∷ []) (taken domain k s) distinct
        (taken-Holds domain k regions s absent holds) in
    subst
      (λ acc.
        let r = unregister_all domain (handles regions) acc in
        (r.0 ≡ descs ++ (d ∷ descs_of regions))
        × (lookup h r.1.region_descs
            ≡ (if is_some (lookup h ((k, d) ∷ regions)) then none else lookup h s.region_descs)))
      (sym (update_held domain k d descs s held))
      (
        found ∙ append_assoc descs (d ∷ []) (descs_of regions),
        left ∙ ground (arith, lookup-cons k h d regions, lookup-erase k h s.region_descs),
      )
