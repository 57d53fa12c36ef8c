-- ===== src/AuthFlow/Crate.antt =====
-- missing-new-admin-auth/src/lib.rs, `check_crate_post`, and `is_soroban_function` of
-- nightly/2026-05-28/common/analysis/src/soroban_utils/mod.rs: the entry points of a contract, and
-- the warnings about what they reach. The path of a function is a parameter, and so is the order in
-- which a set is walked.
pub mod Warned
use scout_audit.Base.{
  ℕ, zero, suc, String, Bool, true, false, not, ◌&&◌, ◌||◌, Option, none, some, List, [], ◌∷◌, ◌++◌,
  map, contains, and_then, is_empty, char_eq, length, if◌then◌else◌,
}
use Prim.Native.String
use scout_audit.AuthFlow.Mir.{BitSet, Span, Location, TyCtxt, Body}
use scout_audit.AuthFlow.Domain.{Sink, FnSummary}
use scout_audit.AuthFlow.Places.Tables.{Keyed}
use scout_audit.AuthFlow.Analysis.{AuthFlowAnalysis}
use scout_audit.AuthFlow.Engine.{Results}
use scout_audit.AuthFlow.Functions.{
  MissingNewAdminAuth, initial_summaries, summaries_loop, lint_pass,
}
use scout_audit.AuthFlow.Functions.Slots.{slots}
use scout_audit.AuthFlow.Entries.{reach_loop}
use scout_audit.AuthFlow.Entries.Reached.{pending}

abbrev strip_colon : String → Option String
strip_colon String.[] = none
strip_colon (String.◌∷◌ c s) = if char_eq c ":" then some s else none

-- `s.rsplitn(2, "::")`: what stands before and after the last separator
abbrev rsplit_path : String → Option (String × String)
rsplit_path String.[] = none
rsplit_path (String.◌∷◌ c s) = elim (rsplit_path s) [
  | some (path, name) ↦ some (String.◌∷◌ c path, name)
  | none ↦
      if char_eq c ":"
      then elim (strip_colon s) [ none ↦ none | some name ↦ some ("", name) ]
      else none
]

-- the functions that the contract macros make of one entry point
unfoldable pub patterns : String → String → List String
patterns contract_path function_name =
    String.◌++◌ contract_path (String.◌++◌ "Client::<'a>::try_" function_name)
    ∷ String.◌++◌ contract_path (String.◌++◌ "::" function_name)
    ∷ String.◌++◌ contract_path (String.◌++◌ "::spec_xdr_" function_name)
    ∷ String.◌++◌ contract_path (String.◌++◌ "Client::<'a>::" function_name)
    ∷ []

unfoldable pub all_in : List String → List String → Bool
all_in checked_functions [] = true
all_in checked_functions (pattern_ ∷ rest) =
    contains checked_functions pattern_ && all_in checked_functions rest

unfoldable pub is_soroban_function : (ℕ → String) → List String → ℕ → Bool
unfolding patterns all_in
is_soroban_function def_path_str checked_functions function_def_id =
    elim (rsplit_path (def_path_str function_def_id)) [
      | none ↦ false
      | some (contract_path, function_name) ↦
          if is_empty function_name || is_empty contract_path
          then false
          else all_in checked_functions (patterns contract_path function_name)
    ]

module _ (B : BitSet) (tcx : TyCtxt) (iterate_to_fixpoint : AuthFlowAnalysis B → Results B)
    (optimized_mir : ℕ → Option Body) (self : MissingNewAdminAuth)
    (set_order : List ℕ → List ℕ) where
  -- What an entry point reaches, in the order of the set, and the summaries, with the fuel that the
  -- two loops need.
  unfoldable pub summaries_of : ℕ → Option (List ℕ × Keyed ℕ (FnSummary B))
  unfolding reach_loop summaries_loop initial_summaries
  summaries_of def_id =
      and_then
        (reach_loop self (suc (suc (suc (pending self.function_call_graph [])))) (def_id ∷ []) [])
        λ set.
          let reachable = set_order set in
          and_then
            (summaries_loop B tcx iterate_to_fixpoint optimized_mir self
              (suc (length (slots self.params reachable))) reachable
              (initial_summaries B tcx iterate_to_fixpoint optimized_mir self reachable []))
            λ summaries. some (reachable, summaries)

  module _ (hash_order : Keyed Location (List Sink) → Keyed Location (List Sink))
      (def_path_str : ℕ → String) where
    -- The loop over the checked functions.
    unfoldable pub check_functions : List String → List (String × ℕ) → Option (List Span)
    unfolding is_soroban_function summaries_of lint_pass
    check_functions checked_names [] = some []
    check_functions checked_names ((name, def_id) ∷ rest) =
        let later = check_functions checked_names rest in
        if not (is_soroban_function def_path_str checked_names def_id)
        then later
        else and_then (summaries_of def_id) λ found. and_then later λ spans. some (
            lint_pass B tcx iterate_to_fixpoint optimized_mir self hash_order found.0 found.1
            ++ spans)

    unfoldable pub check_crate_post : Option (List Span)
    unfolding check_functions
    check_crate_post =
        check_functions (map (λ (f : String × ℕ). f.0) self.checked_functions)
          self.checked_functions
