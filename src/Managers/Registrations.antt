-- ===== src/Managers/Registrations.antt =====
-- The ids of csrc/runtime/inject_helpers/RegisterManager.cpp and the lookups of FuncManager.cpp over any
-- sequence of calls.
use msopcom.Prelude.{
  ℕ, ◌<◌, ◌≡◌, inl, inr, refl, sym, ap, subst, ◌∙◌, arith, Option, none, some, List, [], ◌∷◌,
  if◌then◌else◌, lookup, insert, nat_eq, pair_eq, eq_cases, lookup-insert, lookup-nil, is_empty,
  value_or, Bool-cases, ltb, length, ◌⊎◌,
}
use msopcom.Wire.{Bytes}
use msopcom.Managers.{
  RegisterContext, RegisterManager, FuncKind, FuncManager, Managers, Call, registered, get_register,
  cache_elf_data, init_file, create_func, create_func_of, get_func_at, get_func_by_entry,
  create_from_data, create_from_file, create_from_cache, fresh, step, run, register_data,
  register_file, register_cached, cache_data, find_func, launch,
}

some-inj {ℓ} : {A : Type ℓ} (a b : A) → some a ≡ some b → a ≡ b
some-inj a b e = cc

module _ {B : Type 0} where
  -- Every id was given out, and to one handle only.
  abbrev IsNumbered : RegisterManager B → Type 0
  IsNumbered m =
      ((k : ℕ) (a : RegisterContext B)
        → lookup k m.registers ≡ some a
        → a.reg_id < m.current_reg_id)
      × ((j k : ℕ) (a b : RegisterContext B)
          → lookup j m.registers ≡ some a
          → lookup k m.registers ≡ some b
          → a.reg_id ≡ b.reg_id
          → j ≡ k)

  -- What a handle leads to after a registration.
  found :
      (handle k : ℕ) (new a : RegisterContext B) (m : RegisterManager B)
      → lookup k (insert handle new m.registers) ≡ some a
      → (handle ≡ k) × (new ≡ a) ⊎ (lookup k m.registers ≡ some a)
  found handle k new a m e = elim (eq_cases handle k) [
    | inl (test, same) ↦ inl (
      same,
      some-inj new a (
          ap (λ t. if t then some new else lookup k m.registers) (sym test)
          ∙ sym (lookup-insert handle k new m.registers)
          ∙ e),
    )
    | inr (test, other) ↦ inr (
        ap (λ t. if t then some new else lookup k m.registers) (sym test)
        ∙ sym (lookup-insert handle k new m.registers)
        ∙ e)
  ]

  registered-IsNumbered :
      (made : Option B) (handle magic : ℕ) (m : RegisterManager B)
      → IsNumbered m
      → IsNumbered (registered made handle magic m).1
  unfolding registered
  registered-IsNumbered none handle magic m h = h
  registered-IsNumbered (some b) handle magic m h =
      let new : RegisterContext B = record {
        reg_id = m.current_reg_id;
        magic = magic;
        bin_handle = handle;
        binary = b;
      } in
      let id = λ (c : RegisterContext B). c.reg_id in
      (
        λ k a e. elim (found handle k new a m e) [
          | inl (at_k, is_new) ↦ let number = ap id is_new in omega (arith, number)
          | inr old ↦ let older = h.0 k a old in omega (arith, older)
        ],
        λ j k a c ej ek same. elim (found handle j new a m ej) [
          | inl (at_j, a_new) ↦ elim (found handle k new c m ek) [
            | inl (at_k, c_new) ↦ sym at_j ∙ at_k
            | inr old ↦
                let older = h.0 k c old in
                let number = ap id a_new in absurd (omega (arith, older, number, same))
          ]
          | inr old_a ↦ elim (found handle k new c m ek) [
            | inl (at_k, c_new) ↦
                let older = h.0 j a old_a in
                let number = ap id c_new in absurd (omega (arith, older, number, same))
            | inr old_c ↦ h.1 j k a c old_a old_c same
          ]
        ],
      )

  cache_elf_data-IsNumbered :
      (bin : ℕ) (bytes : Bytes) (m : RegisterManager B)
      → IsNumbered m
      → IsNumbered (cache_elf_data bin bytes m)
  unfolding cache_elf_data
  cache_elf_data-IsNumbered bin bytes m h = elim (Bool-cases (ltb 32212254720 (length bytes))) [
    | inl large ↦
        let same : cache_elf_data bin bytes m ≡ m = rw (cache_elf_data, large) refl in
        subst IsNumbered (sym same) h
    | inr small ↦
        let kept : RegisterManager B = record m {
          temp_elf_data = insert bin bytes m.temp_elf_data;
        } in
        let cached : cache_elf_data bin bytes m ≡ kept = rw (cache_elf_data, small) refl in
        subst IsNumbered (sym cached) h
  ]

  table-create_func_of :
      (r : Option (RegisterContext B)) (kind : FuncKind) (handle : ℕ) (m : FuncManager B)
      → (create_func_of r kind handle m).1.fake_func_handle_table ≡ m.fake_func_handle_table
  unfolding create_func_of
  table-create_func_of none kind handle m = refl
  table-create_func_of (some r) kind handle m = refl

module _ {A B : Type 0} (init : Bytes → Option B) (read_binary : Bytes → Option Bytes) where
  step-IsNumbered :
      (c : Call A) (m : Managers A B)
      → IsNumbered m.register_manager
      → IsNumbered (step init read_binary c m).register_manager
  unfolding step create_from_data create_from_file create_from_cache
  step-IsNumbered (register_data bytes handle magic) m h =
      registered-IsNumbered (init bytes) handle magic m.register_manager h
  step-IsNumbered (register_file path handle magic) m h =
      registered-IsNumbered (init_file init read_binary (read_binary path)) handle magic
        m.register_manager h
  step-IsNumbered (register_cached bin handle magic) m h =
      let r = m.register_manager in
      let bytes = value_or [] (lookup bin r.temp_elf_data) in
      registered-IsNumbered (if is_empty bytes then none else init bytes) handle magic
        (record r { temp_elf_data = insert bin bytes r.temp_elf_data }) h
  step-IsNumbered (cache_data bin bytes) m h =
      cache_elf_data-IsNumbered bin bytes m.register_manager h
  step-IsNumbered (find_func bin kind handle) m h = h
  step-IsNumbered (launch is_sanitizer handle args dim stream cfg) m h = h

  run-IsNumbered :
      (cs : List (Call A)) (m : Managers A B)
      → IsNumbered m.register_manager
      → IsNumbered (run init read_binary cs m).register_manager
  unfolding run
  run-IsNumbered [] m h = h
  run-IsNumbered (c ∷ cs) m h =
      run-IsNumbered cs (step init read_binary c m) (step-IsNumbered c m h)

  -- After any sequence of calls, two handles whose contexts have the same registration id are the
  -- same handle, although a handle may be registered again and a registration may fail.
  pub run-reg_id :
      (cs : List (Call A)) (j k : ℕ) (a b : RegisterContext B)
      → get_register j (run init read_binary cs fresh).register_manager ≡ some a
      → get_register k (run init read_binary cs fresh).register_manager ≡ some b
      → a.reg_id ≡ b.reg_id
      → j ≡ k
  unfolding get_register fresh
  run-reg_id cs j k a b =
      let none_yet : (i : ℕ) (c : RegisterContext B)
          → lookup {V = RegisterContext B} i [] ≡ some c
          → ⊥ =
        λ i c e. let e' = sym (lookup-nil i) ∙ e in cc in
      (run-IsNumbered cs fresh
          (λ i c e. absurd (none_yet i c e), λ i l c d e f same. absurd (none_yet i c e))).1
        j k a b

  has_no_entries :
      (cs : List (Call A)) (m : Managers A B)
      → m.func_manager.fake_func_handle_table ≡ []
      → (run init read_binary cs m).func_manager.fake_func_handle_table ≡ []
  unfolding run step create_func
  has_no_entries [] m h = h
  has_no_entries (find_func bin kind handle ∷ cs) m h =
      has_no_entries cs (step init read_binary (find_func bin kind handle) m) (
        table-create_func_of (lookup bin m.register_manager.registers) kind handle m.func_manager
        ∙ h)
  has_no_entries (register_data bytes handle magic ∷ cs) m h =
      has_no_entries cs (step init read_binary (register_data bytes handle magic) m) h
  has_no_entries (register_file path handle magic ∷ cs) m h =
      has_no_entries cs (step init read_binary (register_file path handle magic) m) h
  has_no_entries (register_cached bin handle magic ∷ cs) m h =
      has_no_entries cs (step init read_binary (register_cached bin handle magic) m) h
  has_no_entries (cache_data bin bytes ∷ cs) m h =
      has_no_entries cs (step init read_binary (cache_data bin bytes) m) h
  has_no_entries (launch is_sanitizer handle args dim stream cfg ∷ cs) m h =
      has_no_entries cs (step init read_binary (launch is_sanitizer handle args dim stream cfg) m) h

  -- After any sequence of calls, also those that make a context for a binary and an entry, the lookup by a
  -- binary and an entry finds nothing: no call writes the table that it goes through.
  pub get_func_by_entry-run :
      (cs : List (Call A)) (bin_handle entry : ℕ)
      → get_func_by_entry bin_handle entry (run init read_binary cs fresh).func_manager ≡ none
  unfolding get_func_by_entry get_func_at fresh
  get_func_by_entry-run cs bin_handle entry =
      let m = (run init read_binary cs fresh).func_manager in
      let nothing : lookup (bin_handle, entry) m.fake_func_handle_table ≡ none =
        ap (lookup (bin_handle, entry)) (has_no_entries cs fresh refl)
        ∙ lookup-nil (bin_handle, entry) in
      ap (λ o. get_func_at o m) nothing
