-- ===== src/Layers/Tests.antt =====
-- The laws of csrc/core/HijackedLayerManager.cpp at concrete interfaces.
use msopcom.Prelude.{refl, ◌≡◌, ◌↔◌, true, [], ◌∷◌}
use msopcom.Layers.{in_call_stack, parent_in_call_stack, Scope, finished, asks, guarded, run_scope}
use msopcom.Layers.Names.{aclrt_malloc_impl, aclrt_free_impl, rt_malloc}
use msopcom.Layers.Scopes.{IsCovered, parent_in_call_stack-IsCovered, answers, run_scope-answers}

parent_in_call_stack-IsCovered_example :
    (parent_in_call_stack rt_malloc (aclrt_free_impl ∷ aclrt_malloc_impl ∷ []) ≡ true)
    ↔ IsCovered rt_malloc (aclrt_free_impl ∷ aclrt_malloc_impl ∷ [])
parent_in_call_stack-IsCovered_example =
    parent_in_call_stack-IsCovered rt_malloc (aclrt_free_impl ∷ aclrt_malloc_impl ∷ [])

-- An allocation that calls the runtime's, and then the runtime's alone.
abbrev two_calls : Scope
two_calls = guarded aclrt_malloc_impl (asks rt_malloc finished) (asks rt_malloc finished)

run_scope-answers_example : run_scope two_calls [] ≡ (answers two_calls [], [])
run_scope-answers_example = run_scope-answers two_calls []

in_call_stack_found : in_call_stack rt_malloc (aclrt_free_impl ∷ rt_malloc ∷ []) ≡ true
unfolding in_call_stack
in_call_stack_found = refl
