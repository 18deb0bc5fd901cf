-- ===== src/Mstx/Heaps/Laws.antt =====
-- The domains and heaps of csrc/runtime/inject_helpers/MsTx.cpp, by name and by address.
use msopcom.Prelude.{
  append-nil, ℕ, ◌≡◌, ◌≢◌, inl, inr, refl, sym, ap, subst, ◌∙◌, arith, Bool, true, false, ◌||◌,
  List, [], ◌∷◌, ◌++◌, Option, none, some, nat_beq, nat_eq, list_eq, pair_eq, if◌then◌else◌, lookup,
  insert, erase, member, value_or, lookup-erase-insert, value_or-lookup-insert_back,
  lookup-erase_self, lookup-insert_self, member-insert_self, Bool-cases, Option-cases, eq_refl,
}
use msopcom.Wire.{Bytes}
use msopcom.Text.{check_input_string_valid}
use msopcom.Mstx.{MsTx, HeapRangeDesc}
use msopcom.Mstx.Heaps.{
  mstx_domain_create, is_domain_exist, mstx_mem_heap_register, mstx_mem_heap_unregister, without,
}

true_right : (b : Bool) → (b || true) ≡ true
true_right true = refl
true_right false = refl

create_old :
    (fresh domain : ℕ) (name : Bytes) (s : MsTx)
    → check_input_string_valid name 1023 ≡ true
    → lookup name s.name_to_domain ≡ some domain
    → mstx_domain_create fresh name s
      ≡ (domain, record s { domain_to_name = insert domain name s.domain_to_name })
unfolding mstx_domain_create
create_old fresh domain name s good old = rw (good, old)

create_new :
    (fresh : ℕ) (name : Bytes) (s : MsTx)
    → check_input_string_valid name 1023 ≡ true
    → lookup name s.name_to_domain ≡ none
    → mstx_domain_create fresh name s ≡ (
      fresh,
      record s {
        name_to_domain = insert name fresh s.name_to_domain;
        domain_to_name = insert fresh name s.domain_to_name;
      },
    )
unfolding mstx_domain_create
create_new fresh name s good new = rw (good, new)

create_bad :
    (fresh : ℕ) (name : Bytes) (s : MsTx)
    → check_input_string_valid name 1023 ≡ false
    → mstx_domain_create fresh name s ≡ (0, s)
unfolding mstx_domain_create
create_bad fresh name s bad = rw bad

-- What a call for a valid name leaves: the domain exists, and its name leads to it.
abbrev IsDomainOf : Bytes → ℕ × MsTx → Type 0
IsDomainOf name (domain, s) =
    (is_domain_exist domain s ≡ true) × (lookup name s.name_to_domain ≡ some domain)

create-IsDomainOf :
    (fresh : ℕ) (name : Bytes) (s : MsTx)
    → check_input_string_valid name 1023 ≡ true
    → IsDomainOf name (mstx_domain_create fresh name s)
unfolding is_domain_exist
create-IsDomainOf fresh name s good = elim (Option-cases (lookup name s.name_to_domain)) [
  | inl new ↦ subst (IsDomainOf name) (sym (create_new fresh name s good new)) (
    rw (member-insert_self fresh name s.domain_to_name) (true_right (nat_beq fresh 0)),
    lookup-insert_self name fresh s.name_to_domain,
  )
  | inr (domain, old) ↦
      subst (IsDomainOf name) (sym (create_old fresh domain name s good old))
        (rw (member-insert_self domain name s.domain_to_name) (true_right (nat_beq domain 0)), old)
]

-- A valid name gives a domain that exists from then on, and gives the same one at the next call,
-- wherever that call's object would lie; an invalid name gives the null pointer and changes
-- nothing.
pub mstx_domain_create_again :
    (fresh later : ℕ) (name : Bytes) (s : MsTx)
    → let (domain, created) = mstx_domain_create fresh name s in
      if check_input_string_valid name 1023
      then (is_domain_exist domain created ≡ true)
        × ((mstx_domain_create later name created).0 ≡ domain)
      else (mstx_domain_create fresh name s ≡ (0, s))
mstx_domain_create_again fresh later name s =
    elim (Bool-cases (check_input_string_valid name 1023)) [
      | inr bad ↦ rw bad (create_bad fresh name s bad)
      | inl good ↦
          let (domain, created) = mstx_domain_create fresh name s in
          let (exists, kept) = create-IsDomainOf fresh name s good in
          rw good (exists, ap (λ r. r.0) (create_old later domain name created good kept))
    ]

without-append :
    (heap : ℕ) (xs ys : List ℕ) → without heap (xs ++ ys) ≡ without heap xs ++ without heap ys
unfolding without
without-append heap [] ys = refl
without-append heap (x ∷ xs) ys = elim (Bool-cases (nat_beq x heap)) [
  | inl same ↦ rw (same, without-append heap xs ys)
  | inr other ↦ rw (other, without-append heap xs ys)
]

without-push : (heap : ℕ) (xs : List ℕ) → without heap xs ≡ xs → without heap (xs ++ heap ∷ []) ≡ xs
unfolding without
without-push heap xs absent =
    without-append heap xs (heap ∷ []) ∙ (rw (eq_refl heap, absent) (append-nil xs))

unregister_found :
    (domain heap : ℕ) (d : HeapRangeDesc) (hs : List ℕ) (s : MsTx)
    → is_domain_exist domain s ≡ true
    → heap ≢ 0
    → lookup (domain, heap) s.heap_descs ≡ some d
    → lookup domain s.domain_heaps ≡ some hs
    → mstx_mem_heap_unregister domain heap s ≡ (
      some d,
      record s {
        domain_heaps = insert domain (without heap hs) s.domain_heaps;
        heap_descs = erase (domain, heap) s.heap_descs;
      },
    )
unfolding mstx_mem_heap_unregister
unregister_found domain heap d hs s exists nonzero described listed =
    let not_null : nat_beq heap 0 ≡ false = ground (arith, nonzero) in
    rw (exists, not_null, described, listed)

unregister_unknown :
    (domain heap : ℕ) (s : MsTx)
    → is_domain_exist domain s ≡ true
    → heap ≢ 0
    → lookup (domain, heap) s.heap_descs ≡ none
    → mstx_mem_heap_unregister domain heap s ≡ (none, s)
unfolding mstx_mem_heap_unregister
unregister_unknown domain heap s exists nonzero unknown =
    let not_null : nat_beq heap 0 ≡ false = ground (arith, nonzero) in
    rw (exists, not_null, unknown)

pub is_domain_exist-cong :
    (domain : ℕ) (r s : MsTx)
    → r.domain_to_name ≡ s.domain_to_name
    → is_domain_exist domain r ≡ is_domain_exist domain s
unfolding is_domain_exist
is_domain_exist-cong domain r s e = ap (λ m. nat_beq domain 0 || member domain m) e

-- What unregistering a heap leaves, against the state `s` before it was registered.
pub IsUndoneBy : ℕ → ℕ × ℕ → ℕ → HeapRangeDesc → ℕ → MsTx → Option HeapRangeDesc × MsTx → Type 0
IsUndoneBy domain key dom' d handle s (found, back) =
    (found ≡ some d)
    × (lookup key back.heap_descs ≡ lookup key s.heap_descs)
    × (value_or [] (lookup dom' back.domain_heaps) ≡ value_or [] (lookup dom' s.domain_heaps))
    × (mstx_mem_heap_unregister domain handle back ≡ (none, back))

-- A heap that is registered in a domain that exists, under an address that is neither null nor in
-- use there, is unregistered again with the description that it was registered with; then every
-- key's description and every domain's heaps are those from before, and unregistering it again
-- finds no heap and changes nothing.
pub mstx_mem_heap_unregister-register :
    (heap domain dom' : ℕ) (key : ℕ × ℕ) (d : HeapRangeDesc) (s : MsTx)
    → is_domain_exist domain s ≡ true
    → heap ≢ 0
    → lookup (domain, heap) s.heap_descs ≡ none
    → without heap (value_or [] (lookup domain s.domain_heaps))
      ≡ value_or [] (lookup domain s.domain_heaps)
    → let (handle, registered) = mstx_mem_heap_register heap domain (some d) s in
      IsUndoneBy domain key dom' d handle s (mstx_mem_heap_unregister domain handle registered)
unfolding mstx_mem_heap_register IsUndoneBy
mstx_mem_heap_unregister-register heap domain dom' key d s exists nonzero unused absent =
    let heaps = value_or [] (lookup domain s.domain_heaps) in
    let registered = record s {
      domain_heaps = insert domain (heaps ++ heap ∷ []) s.domain_heaps;
      heap_descs = insert (domain, heap) d s.heap_descs;
    } in
    let back = record registered {
      domain_heaps = insert domain (without heap (heaps ++ heap ∷ [])) registered.domain_heaps;
      heap_descs = erase (domain, heap) registered.heap_descs;
    } in
    let first : mstx_mem_heap_register heap domain (some d) s ≡ (heap, registered) = rw exists in
    let second =
      unregister_found domain heap d (heaps ++ heap ∷ []) registered
        (is_domain_exist-cong domain registered s refl ∙ exists) nonzero
        (lookup-insert_self (domain, heap) d s.heap_descs)
        (lookup-insert_self domain (heaps ++ heap ∷ []) s.domain_heaps) in
    subst (λ r. IsUndoneBy domain key dom' d r.0 s (mstx_mem_heap_unregister domain r.0 r.1))
      (sym first)
      (subst (IsUndoneBy domain key dom' d heap s) (sym second) (
        refl,
        lookup-erase-insert (domain, heap) key d s.heap_descs unused,
        subst
            (λ hs.
              value_or [] (lookup dom' (insert domain hs registered.domain_heaps))
              ≡ value_or [] (lookup dom' s.domain_heaps))
            (sym (without-push heap heaps absent))
            (value_or-lookup-insert_back domain dom' [] (heaps ++ heap ∷ []) s.domain_heaps),
        unregister_unknown domain heap back (is_domain_exist-cong domain back s refl ∙ exists)
            nonzero (lookup-erase_self (domain, heap) registered.heap_descs),
      ))
