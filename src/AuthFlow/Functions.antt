-- ===== src/AuthFlow/Functions.antt =====
-- missing-new-admin-auth/src/lib.rs, `check_crate_post`: the summaries of the functions that an
-- entry point reaches, computed until none changes, and then the warnings. `optimized_mir` gives
-- the body of a function of this crate.
pub mod Slots
pub mod Differ
pub mod Support
pub mod Step
pub mod Passes
pub mod Stops
pub mod Reports
use scout_audit.Base.{
  ℕ, zero, suc, String, Bool, true, false, not, ◌&&◌, Option, none, some, List, [], ◌∷◌, ◌++◌,
  nat_eq, length, if◌then◌else◌,
}
use scout_audit.AuthFlow.Mir.{BitSet, Span, Location, TyCtxt, Body}
use scout_audit.AuthFlow.Domain.{ParamInfo, Sink, AuthEvent, CallSite, FnSummary, empty}
use scout_audit.AuthFlow.Places.Tables.{Keyed, lookup, put}
use scout_audit.AuthFlow.Analysis.{AuthFlowAnalysis}
use scout_audit.AuthFlow.Engine.{Results}
use scout_audit.AuthFlow.Summary.{compute_summary_for_fn, lint_sinks_for_fn}

pub record MissingNewAdminAuth : Type 0 where
  pub checked_functions : List (String × ℕ)
  pub params : Keyed ℕ (List ParamInfo)
  pub sinks : Keyed ℕ (List Sink)
  pub auth_events : Keyed ℕ (List AuthEvent)
  pub function_call_graph : Keyed ℕ (List ℕ)
  pub call_sites : Keyed ℕ (List CallSite)

unfoldable pub get_vec_slice {ℓ} : {V : Type ℓ} → Keyed ℕ (List V) → ℕ → List V
get_vec_slice map key = elim (lookup nat_eq map key) [ none ↦ [] | some values ↦ values ]

-- `==` on two summaries
abbrev pub same_summary : (B : BitSet) → FnSummary B → FnSummary B → Bool
same_summary B a b =
    B.same a.must_auth_params b.must_auth_params
    && (if a.must_auth_current_admin
        then b.must_auth_current_admin
        else not b.must_auth_current_admin)

module _ (B : BitSet) (tcx : TyCtxt) (iterate_to_fixpoint : AuthFlowAnalysis B → Results B)
    (optimized_mir : ℕ → Option Body) (self : MissingNewAdminAuth) where
  -- The loop that gives each function with known parameters an empty summary.
  unfoldable pub initial_summaries : List ℕ → Keyed ℕ (FnSummary B) → Keyed ℕ (FnSummary B)
  unfolding empty
  initial_summaries [] summaries = summaries
  initial_summaries (def_id ∷ reachable) summaries = elim (lookup nat_eq self.params def_id) [
    | none ↦ initial_summaries reachable summaries
    | some params ↦
        initial_summaries reachable (put nat_eq summaries def_id (empty B (length params)))
  ]

  unfoldable pub new_summary : ℕ → List ParamInfo → Body → Keyed ℕ (FnSummary B) → FnSummary B
  unfolding get_vec_slice compute_summary_for_fn
  new_summary def_id params body summaries =
      compute_summary_for_fn B tcx iterate_to_fixpoint body params
        (get_vec_slice self.auth_events def_id) (get_vec_slice self.call_sites def_id) summaries

  -- `summaries.get(def_id) != Some(&new_summary)`, and then the insertion
  unfoldable pub replace :
      ℕ → FnSummary B → Keyed ℕ (FnSummary B) → Bool → Keyed ℕ (FnSummary B) × Bool
  replace def_id summary summaries changed = elim (lookup nat_eq summaries def_id) [
    | none ↦ (put nat_eq summaries def_id summary, true)
    | some old ↦
        if same_summary B old summary
        then (summaries, changed)
        else (put nat_eq summaries def_id summary, true)
  ]

  -- The loop over the functions that are reachable: the summaries, and whether one changed.
  unfoldable pub pass : List ℕ → Keyed ℕ (FnSummary B) → Bool → Keyed ℕ (FnSummary B) × Bool
  unfolding new_summary replace
  pass [] summaries changed = (summaries, changed)
  pass (def_id ∷ reachable) summaries changed = elim (lookup nat_eq self.params def_id) [
    | none ↦ pass reachable summaries changed
    | some params ↦ elim (optimized_mir def_id) [
      | none ↦ pass reachable summaries changed
      | some body ↦
          let (now, grown) =
            replace def_id (new_summary def_id params body summaries) summaries changed in
          pass reachable now grown
    ]
  ]

  -- The loop that ends where a pass changes nothing. Each turn takes one unit of fuel.
  unfoldable pub summaries_loop :
      ℕ → List ℕ → Keyed ℕ (FnSummary B) → Option (Keyed ℕ (FnSummary B))
  unfolding pass
  summaries_loop zero reachable summaries = none
  summaries_loop (suc fuel) reachable summaries =
      let (now, changed) = pass reachable summaries false in
      let rest = summaries_loop fuel reachable now in if not changed then some now else rest

  -- The last loop over the functions: the warnings.
  unfoldable pub lint_pass :
      (Keyed Location (List Sink) → Keyed Location (List Sink))
      → List ℕ
      → Keyed ℕ (FnSummary B)
      → List Span
  unfolding get_vec_slice lint_sinks_for_fn
  lint_pass hash_order [] summaries = []
  lint_pass hash_order (def_id ∷ reachable) summaries =
      elim (lookup nat_eq self.params def_id) [
        | none ↦ []
        | some params ↦ elim (optimized_mir def_id) [
          | none ↦ []
          | some body ↦
              lint_sinks_for_fn B tcx iterate_to_fixpoint hash_order body params
                (get_vec_slice self.auth_events def_id) (get_vec_slice self.sinks def_id)
                (get_vec_slice self.call_sites def_id) summaries
        ]
      ]
      ++ lint_pass hash_order reachable summaries
