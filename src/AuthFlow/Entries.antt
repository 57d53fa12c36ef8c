-- ===== src/AuthFlow/Entries.antt =====
-- missing-new-admin-auth/src/lib.rs, `check_crate_post`: the functions that an entry point reaches.
pub mod Reached
use scout_audit.Base.{
  ℕ, zero, suc, String, Bool, true, false, not, ◌&&◌, Option, none, some, List, [], ◌∷◌, ◌++◌,
  nat_eq, any, filter, map, contains, and_then, if◌then◌else◌,
}
use scout_audit.AuthFlow.Mir.{BitSet, Span, Location, TyCtxt, Body}
use scout_audit.AuthFlow.Domain.{Sink}
use scout_audit.AuthFlow.Places.Tables.{Keyed}
use scout_audit.AuthFlow.Analysis.{AuthFlowAnalysis}
use scout_audit.AuthFlow.Engine.{Results}
use scout_audit.AuthFlow.Functions.{
  MissingNewAdminAuth, get_vec_slice, initial_summaries, summaries_loop, lint_pass,
}
use scout_audit.Graph.Walk.{push_all}

-- `HashSet::contains` on numbers
abbrev pub has : List ℕ → ℕ → Bool
has set n = any (λ m. nat_eq m n) set

module _ (self : MissingNewAdminAuth) where
  -- The loop over the stack, whose top is the head of the list. A function that has no callees in
  -- the map has none to push.
  unfoldable pub reach_loop : ℕ → List ℕ → List ℕ → Option (List ℕ)
  unfolding get_vec_slice push_all
  reach_loop zero stack reachable = none
  reach_loop (suc fuel) [] reachable = some reachable
  reach_loop (suc fuel) (current ∷ stack) reachable =
      let seen = reach_loop fuel stack reachable in
      let set = current ∷ reachable in
      let new =
        reach_loop fuel
          (push_all
            (filter (λ callee. not (has set callee))
              (get_vec_slice self.function_call_graph current))
            stack)
          set in
      if has reachable current then seen else new
