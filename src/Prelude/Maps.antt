-- ===== src/Prelude/Maps.antt =====
-- Dictionaries as association lists: `find`, `[]=` and `erase` of the source's maps.
use mathlib.Core.Path.{◌≡◌, refl, ap, sym, ◌∙◌}
use mathlib.Core.Logic.{inl, inr}
use mathlib.Core.Bool.{Bool, true}
use mathlib.Core.List.{List, [], ◌∷◌}
use mathlib.Core.Option.{Option, none, some}
use native.Mathlib.Omega.{arith}
use msopcom.Prelude.Tests.{if◌then◌else◌, value_or, is_some}
use msopcom.Prelude.Keys.{Key, ◌==◌, eq_refl, eq_cases}

module _ {ℓ κ} {K : Type ℓ} {V : Type κ} ⦃e : Key K⦄ where
  pub insert : K → V → List (K × V) → List (K × V)
  insert key val [] = (key, val) ∷ []
  insert key val ((k, old) ∷ rest) =
      let kept = (k, old) ∷ insert key val rest in if k == key then (key, val) ∷ rest else kept

  pub lookup : K → List (K × V) → Option V
  lookup key [] = none
  lookup key ((k, val) ∷ rest) = let later = lookup key rest in if k == key then some val else later

  pub erase : K → List (K × V) → List (K × V)
  erase k [] = []
  erase k ((j, w) ∷ m) = let rest = erase k m in if j == k then rest else (j, w) ∷ rest

  pub member : K → List (K × V) → Bool
  member k m = is_some (lookup k m)

  pub lookup-nil : (k : K) → let m : List (K × V) = [] in lookup k m ≡ none
  unfolding lookup
  lookup-nil k = refl

  pub lookup-cons :
      (k j : K) (v : V) (m : List (K × V))
      → lookup j ((k, v) ∷ m) ≡ (if k == j then some v else lookup j m)
  unfolding lookup
  lookup-cons k j v m = refl

  pub lookup-insert :
      (k j : K) (v : V) (m : List (K × V))
      → lookup j (insert k v m) ≡ (if k == j then some v else lookup j m)
  unfolding lookup insert
  lookup-insert key other val [] = refl
  lookup-insert key other val ((k, old) ∷ rest) =
      let step = lookup-insert key other val rest in
      ground (arith, step, e.equal_iff k key, e.equal_iff k other, e.equal_iff key other)

  pub lookup-insert_self : (k : K) (v : V) (m : List (K × V)) → lookup k (insert k v m) ≡ some v
  lookup-insert_self k v m = rw (lookup-insert k k v m, eq_refl k)

  pub member-insert_self : (k : K) (v : V) (m : List (K × V)) → member k (insert k v m) ≡ true
  unfolding member
  member-insert_self k v m = ap is_some (lookup-insert_self k v m)

  pub lookup-erase :
      (k j : K) (m : List (K × V)) → lookup j (erase k m) ≡ (if k == j then none else lookup j m)
  unfolding lookup erase
  lookup-erase k j [] = ground arith
  lookup-erase k j ((i, w) ∷ m) =
      ground (arith, e.equal_iff k j, e.equal_iff i k, e.equal_iff i j, lookup-erase k j m)

  pub lookup-erase_self : (k : K) (m : List (K × V)) → lookup k (erase k m) ≡ none
  lookup-erase_self k m = rw (lookup-erase k k m, eq_refl k)

  -- Taking out a key that was just added, where there was none.
  pub lookup-erase-insert :
      (k j : K) (v : V) (m : List (K × V))
      → lookup k m ≡ none
      → lookup j (erase k (insert k v m)) ≡ lookup j m
  lookup-erase-insert k j v m missing = elim (eq_cases k j) [
    | inl (e, same) ↦
        rw (lookup-erase k j (insert k v m), e) (sym missing ∙ ap (λ x. lookup x m) same)
    | inr (e, other) ↦ rw (lookup-erase k j (insert k v m), e, lookup-insert k j v m, e)
  ]

  -- Putting back what a key held, or the default that stood for it.
  pub value_or-lookup-insert_back :
      (k j : K) (d v : V) (m : List (K × V))
      → value_or d (lookup j (insert k (value_or d (lookup k m)) (insert k v m)))
        ≡ value_or d (lookup j m)
  value_or-lookup-insert_back k j d v m =
      let held = value_or d (lookup k m) in
      elim (eq_cases k j) [
        | inl (e, same) ↦
            rw (lookup-insert k j held (insert k v m), e) (ap (λ x. value_or d (lookup x m)) same)
        | inr (e, other) ↦ rw (lookup-insert k j held (insert k v m), e, lookup-insert k j v m, e)
      ]
