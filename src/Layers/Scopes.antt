-- ===== src/Layers/Scopes.antt =====
-- The guards of csrc/core/HijackedLayerManager.cpp, and its test against the table.
use msopcom.Prelude.{
  ◌≡◌, ◌↔◌, ◌⊎◌, inl, inr, refl, arith, Bool, true, List, [], ◌∷◌, ◌++◌, some, nat_eq, list_eq,
  ◌==◌, lookup, any, Bool-cases, Option-cases,
}
use msopcom.Wire.{Bytes}
use msopcom.Layers.Names.{get_acl_to_runtime_map}
use msopcom.Layers.{
  any_parent, parent_in_call_stack, Scope, finished, asks, guarded, run_scope, push, pop,
}

-- The table says that `p` calls `func`.
abbrev pub Calls : Bytes → Bytes → Type 0
Calls p func =
    (lower : List Bytes) × (lookup p get_acl_to_runtime_map ≡ some lower)
    × (any (λ l. l == func) lower ≡ true)

-- Some interface of the stack calls `func`.
abbrev pub IsCovered : Bytes → List Bytes → Type 0
IsCovered func [] = ⊥
IsCovered func (p ∷ layers) = Calls p func ⊎ IsCovered func layers

covered_found :
    (func : Bytes) (layers : List Bytes)
    → IsCovered func layers
    → any_parent get_acl_to_runtime_map func layers ≡ true
unfolding any_parent
covered_found func [] covered = elim covered [ ]
covered_found func (p ∷ layers) (inl (lower, at, calls)) = rw (any_parent, at, calls)
covered_found func (p ∷ layers) (inr covered) =
    elim (Option-cases (lookup p get_acl_to_runtime_map)) [
      | inl other ↦ rw (any_parent, other) (covered_found func layers covered)
      | inr (lower, at) ↦ elim (Bool-cases (any (λ l. l == func) lower)) [
        | inl calls ↦ rw (any_parent, at, calls)
        | inr passes ↦ rw (any_parent, at, passes) (covered_found func layers covered)
      ]
    ]

found-IsCovered :
    (func : Bytes) (layers : List Bytes)
    → any_parent get_acl_to_runtime_map func layers ≡ true
    → IsCovered func layers
unfolding any_parent
found-IsCovered func [] found = ground (arith, found)
found-IsCovered func (p ∷ layers) found = elim (Option-cases (lookup p get_acl_to_runtime_map)) [
  | inl other ↦ inr (found-IsCovered func layers (ground (arith, found, other)))
  | inr (lower, at) ↦ elim (Bool-cases (any (λ l. l == func) lower)) [
    | inl calls ↦ inl (lower, at, calls)
    | inr passes ↦ inr (found-IsCovered func layers (ground (arith, found, at, passes)))
  ]
]

-- An interface is reported as covered exactly when some interface of the stack, at any depth, calls
-- it by the table.
pub parent_in_call_stack-IsCovered :
    (func : Bytes) (layers : List Bytes)
    → (parent_in_call_stack func layers ≡ true) ↔ IsCovered func layers
unfolding parent_in_call_stack
parent_in_call_stack-IsCovered func [] = (λ e. ground (arith, e), λ c. elim c [ ])
parent_in_call_stack-IsCovered func (p ∷ layers) =
    (found-IsCovered func (p ∷ layers), covered_found func (p ∷ layers))

-- The answers by the scopes around each question alone.
pub answers : Scope → List Bytes → List Bool
answers finished around = []
answers (asks func rest) around = parent_in_call_stack func around ∷ answers rest around
answers (guarded func body rest) around = answers body (func ∷ around) ++ answers rest around

-- However a thread's guards nest, the stack at the end is the one at the start, and every question
-- is answered by the interfaces whose guards are around it, and those of the stack at the start.
pub run_scope-answers :
    (s : Scope) (layers : List Bytes) → run_scope s layers ≡ (answers s layers, layers)
unfolding run_scope answers push pop
run_scope-answers finished layers = refl
run_scope-answers (asks func rest) layers = rw (run_scope-answers rest layers)
run_scope-answers (guarded func body rest) layers =
    rw (run_scope-answers body (func ∷ layers), run_scope-answers rest layers)
