-- ===== src/Layers.antt =====
-- csrc/core/HijackedLayerManager.h and HijackedLayerManager.cpp: the stack of the intercepted
-- interfaces that a thread is in, and the test whether one of them covers a lower interface.
pub mod Names
pub mod Scopes
mod Tests
use msopcom.Prelude.{
  Bool, true, false, List, [], ◌∷◌, ◌++◌, Option, none, some, nat_eq, list_eq, ◌==◌, lookup, any,
  if◌then◌else◌, is_empty,
}
use msopcom.Wire.{Bytes}
use msopcom.Layers.Names.{get_acl_to_runtime_map}

-- `Push` and `Pop`; the first of the list is the innermost.
pub push : Bytes → List Bytes → List Bytes
push func layers = func ∷ layers

pub pop : List Bytes → List Bytes
pop [] = []
pop (l ∷ layers) = layers

-- The loop of `ParentInCallStack` over the stack.
pub any_parent : List (Bytes × List Bytes) → Bytes → List Bytes → Bool
any_parent table func [] = false
any_parent table func (p ∷ layers) =
    let rest = any_parent table func layers in
    elim (lookup p table) [
      | none ↦ rest
      | some lower ↦ if any (λ l. l == func) lower then true else rest
    ]

-- `ParentInCallStack`.
pub parent_in_call_stack : Bytes → List Bytes → Bool
unfolding any_parent get_acl_to_runtime_map
parent_in_call_stack func layers =
    if is_empty layers then false else any_parent get_acl_to_runtime_map func layers

-- `InCallStack`.
pub in_call_stack : Bytes → List Bytes → Bool
in_call_stack func layers = any (λ l. l == func) layers

-- What a thread does inside its scopes: it asks whether an interface is covered and goes on, or it
-- enters an interface, whose body runs under a `LayerGuard`, and goes on behind it.
pub data Scope : Type 0 where
  finished : Scope
  asks : Bytes → Scope → Scope
  guarded : Bytes → Scope → Scope → Scope

-- The answers it gets and the stack it leaves. The constructor of `LayerGuard` pushes the interface,
-- and its destructor pops.
pub run_scope : Scope → List Bytes → List Bool × List Bytes
unfolding push pop parent_in_call_stack
run_scope finished layers = ([], layers)
run_scope (asks func rest) layers =
    let r = run_scope rest layers in (parent_in_call_stack func layers ∷ r.0, r.1)
run_scope (guarded func body rest) layers =
    let inside = run_scope body (push func layers) in
    let r = run_scope rest (pop inside.1) in (inside.0 ++ r.0, r.1)
