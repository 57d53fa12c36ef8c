-- ===== src/AuthFlow/Summary.antt =====
-- missing-new-admin-auth/src/mir_auth_flow.rs: what is promised of a function, and the warnings
-- about its sinks. The engine, and the order in which a `HashMap` is walked, are parameters.
pub mod Promises
pub mod Warnings
pub mod Monotone
pub mod Events
use scout_audit.Base.{
  ℕ, zero, suc, Bool, true, false, not, ◌||◌, Option, none, some, List, [], ◌∷◌, ◌++◌, foldl,
  length, filter_map, if◌then◌else◌,
}
use scout_audit.AuthFlow.Mir.{BitSet, Span, Location, TyCtxt, BasicBlockData, Body}
use scout_audit.AuthFlow.Domain.{ParamInfo, Sink, AuthEvent, CallSite, AuthDomain, FnSummary}
use scout_audit.AuthFlow.Places.{
  map_events_to_locations, map_sinks_to_locations, map_callsites_to_blocks,
}
use scout_audit.AuthFlow.Places.Tables.{Keyed}
use scout_audit.AuthFlow.Analysis.{AuthFlowAnalysis, is_summary_exit, address_param_set}
use scout_audit.AuthFlow.Engine.{Results, end_of}

-- The sinks of a state whose parameter, or the admin that is stored, may not have signed.
unfoldable pub lint_sink : (B : BitSet) → AuthDomain B → Sink → Option Span
lint_sink B state sink = elim sink.param_index [
  | none ↦ none
  | some param_idx ↦
      if B.contains state.unauth_params param_idx || state.current_admin_unauth
      then some sink.span
      else none
]

module _ (B : BitSet) where
  -- The loop over the locations of sinks.
  unfoldable pub lint_loop : Results B → Keyed Location (List Sink) → List Span
  unfolding lint_sink
  lint_loop results [] = []
  lint_loop results ((loc, sinks_here) ∷ rest) =
      filter_map (lint_sink B (results.before loc)) sinks_here ++ lint_loop results rest

  -- what is left of the promises at one exit
  unfoldable pub at_exit : AuthDomain B → FnSummary B → FnSummary B
  at_exit state summary = record {
    must_auth_params = foldl B.remove summary.must_auth_params (B.iter state.unauth_params);
    must_auth_current_admin =
        if state.current_admin_unauth then false else summary.must_auth_current_admin;
  }

  -- The loop over the blocks, from number `bb` on.
  unfoldable pub exits_from : Results B → ℕ → List BasicBlockData → FnSummary B → FnSummary B
  unfolding is_summary_exit at_exit
  exits_from results bb [] summary = summary
  exits_from results bb (bb_data ∷ blocks) summary = exits_from results (suc bb) blocks (
      if not (is_summary_exit bb_data.terminator)
      then summary
      else at_exit (results.after (end_of bb bb_data)) summary)

module _ (B : BitSet) (tcx : TyCtxt) where
  unfoldable pub analysis_of :
      Body
      → List ParamInfo
      → List AuthEvent
      → List CallSite
      → Keyed ℕ (FnSummary B)
      → AuthFlowAnalysis B
  unfolding address_param_set map_events_to_locations map_callsites_to_blocks
  analysis_of body params events callsites fn_summaries = record {
    tcx = tcx;
    body = body;
    param_count = length params;
    address_params = address_param_set B params;
    auth_events_by_loc = map_events_to_locations body events;
    callsite_by_block = map_callsites_to_blocks body callsites;
    fn_summaries = fn_summaries;
  }

module _ (B : BitSet) (tcx : TyCtxt) (iterate_to_fixpoint : AuthFlowAnalysis B → Results B) where
  unfoldable pub compute_summary_for_fn :
      Body → List ParamInfo → List AuthEvent → List CallSite → Keyed ℕ (FnSummary B) → FnSummary B
  unfolding analysis_of exits_from
  compute_summary_for_fn body params events callsites fn_summaries =
      let results =
        iterate_to_fixpoint (analysis_of B tcx body params events callsites fn_summaries) in
      exits_from B results 0 body
        (record { must_auth_params = address_param_set B params; must_auth_current_admin = true })

  -- The spans that `span_lint_and_help` is called with.
  unfoldable pub lint_sinks_for_fn :
      (Keyed Location (List Sink) → Keyed Location (List Sink))
      → Body
      → List ParamInfo
      → List AuthEvent
      → List Sink
      → List CallSite
      → Keyed ℕ (FnSummary B)
      → List Span
  unfolding analysis_of map_sinks_to_locations lint_loop
  lint_sinks_for_fn hash_order body params events sinks callsites fn_summaries =
      let results =
        iterate_to_fixpoint (analysis_of B tcx body params events callsites fn_summaries) in
      lint_loop B results (hash_order (map_sinks_to_locations body sinks))
