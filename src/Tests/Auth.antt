-- ===== src/Tests/Auth.antt =====
-- The detector of missing signatures on a function of two blocks: its parameter signs in the first,
-- and is stored in the second, where the admin that was stored before has not signed.
use mathlib.Core.List.Memᴰ
use mathlib.Core.Option.{some-injective, none-ne-some}
use scout_audit.Base.{
  String, map, ℕ, zero, suc, ◌≡◌, refl, sym, ◌∙◌, ap, ◌↔◌, inl, inr, Bool, true, false, ◌&&◌,
  Option, none, some, List, [], ◌∷◌, Memᴰ, any, nat_eq, nat_eq_iff, arith, Bool-cases, get_elem?,
  subst, ⊎_elim, if◌then◌else◌,
}
use scout_audit.AuthFlow.Mir.{
  Span, TyCtxt, other_statement, storage_live, other_terminator, BasicBlockData, Body, single,
  no_edges, same_location,
}
use scout_audit.Tests.Bits.{bits}
use scout_audit.AuthFlow.Domain.{
  ParamInfo, Sink, AuthEvent, AuthDomain, FnSummary, param, join, promised,
}
use scout_audit.AuthFlow.Places.{map_events_to_locations}
use scout_audit.AuthFlow.Analysis.{
  AuthFlowAnalysis, initialize_start_block, bottom_value, apply_primary_statement_effect,
  apply_primary_terminator_effect, terminator_edges, address_param_set, is_summary_exit,
}
use scout_audit.AuthFlow.Engine.{
  Results, IsFixpoint, initial, propagate, leaving, block_end, run_to, targets,
}
use scout_audit.AuthFlow.Summary.{
  analysis_of, compute_summary_for_fn, lint_sinks_for_fn, exits_from, at_exit,
}
use scout_audit.AuthFlow.Summary.Promises.{SignsOnExit, compute_summary_for_fn-promised}
use scout_audit.AuthFlow.Summary.Warnings.{IsExposed, lint_sinks_for_fn-IsExposed}
use scout_audit.AuthFlow.Functions.{
  MissingNewAdminAuth, get_vec_slice, summaries_loop, initial_summaries, lint_pass,
}
use scout_audit.AuthFlow.Functions.Support.{IsSolver}
use scout_audit.AuthFlow.Functions.Stops.{IsExact, summaries_loop-IsExact}
use scout_audit.AuthFlow.Functions.Reports.{IsReportedFor, mem-lint_pass}
use scout_audit.AuthFlow.Functions.Slots.{slots}
use scout_audit.AuthFlow.Entries.{reach_loop}
use scout_audit.AuthFlow.Entries.Reached.{Collects, pending, reach_loop-Reach}
use scout_audit.AuthFlow.Crate.{all_in, check_crate_post, is_soroban_function, patterns}
use scout_audit.AuthFlow.Crate.Warned.{IsWarned, check_crate_post-IsWarned}
use scout_audit.AuthFlow.Summary.Events.{signs_in-executed}
use scout_audit.AuthFlow.Places.{find_best_location_for_event}
use scout_audit.AuthFlow.Places.Best.{Finds, find_best_location_for_event-shortest}
use scout_audit.AuthFlow.Places.Tables.{at_key, Keyed, lookup}
use scout_audit.AuthFlow.Engine.Paths.{executed, signs_in}
use scout_audit.AuthFlow.Analysis.Effects.{signs, starts}

abbrev block0 : BasicBlockData
block0 = record {
  statements =
      record { kind = other_statement; span = record { lo = 10; hi = 20 } }
      ∷ record { kind = storage_live; span = record { lo = 12; hi = 18 } }
      ∷ [];
  terminator = record {
    kind = other_terminator;
    span = record { lo = 30; hi = 40 };
    successors = 1 ∷ [];
    edges = single 1;
  };
}

abbrev block1 : BasicBlockData
block1 = record {
  statements = record { kind = other_statement; span = record { lo = 50; hi = 60 } } ∷ [];
  terminator = record {
    kind = other_terminator;
    span = record { lo = 70; hi = 71 };
    successors = [];
    edges = no_edges;
  };
}

abbrev body : Body
body = block0 ∷ block1 ∷ []

abbrev pub tcx : TyCtxt
tcx = record { try_eval_bits = λ c. none }

abbrev params : List ParamInfo
params = record { hir_id = 7; is_address = true; is_privileged_name = true } ∷ []

abbrev events : List AuthEvent
events =
    record { param_index = some 0; span = record { lo = 12; hi = 18 }; is_current_admin = false }
    ∷ []

abbrev sink : Sink
sink = record { param_index = some 0; span = record { lo = 52; hi = 58 } }

abbrev self : Keyed ℕ (FnSummary bits) → AuthFlowAnalysis bits
self summaries = analysis_of bits tcx body params events [] summaries

abbrev first : AuthFlowAnalysis bits → ℕ → AuthDomain bits
first a c =
    if nat_eq c 0 then initialize_start_block bits a (bottom_value bits a) else bottom_value bits a

abbrev entry : AuthFlowAnalysis bits → ℕ → AuthDomain bits
entry a c =
    if nat_eq c 1
    then (join bits (first a c) (leaving bits a false (first a 0) 0 block0)).0
    else first a c

-- what the engine makes of the two blocks
abbrev engine : AuthFlowAnalysis bits → Results bits
engine a = record {
  before = λ loc. run_to bits a (entry a loc.block) loc.block loc.statement_index;
  after = λ loc. elim (get_elem? body loc.block) [
    | none ↦ bottom_value bits a
    | some bb_data ↦ (block_end bits a (entry a loc.block) loc.block bb_data).0
  ];
}

module _ (s : Keyed ℕ (FnSummary bits)) where
  edges-block_end :
      (state : AuthDomain bits) (b : ℕ) (bb_data : BasicBlockData)
      → (block_end bits (self s) state b bb_data).1
        ≡ terminator_edges bits (self s) bb_data.terminator b
  unfolding block_end apply_primary_terminator_effect
  edges-block_end state b bb_data = refl

  no_more :
      (join bits (entry (self s) 1) (leaving bits (self s) false (entry (self s) 0) 0 block0)).1
      ≡ false
  unfolding join leaving block_end apply_primary_terminator_effect initialize_start_block
      bottom_value run_to apply_primary_statement_effect analysis_of address_param_set
      map_events_to_locations
  no_more = refl

  -- nothing more flows along the edges of a block
  abbrev IsStableFor : ℕ → BasicBlockData → Type 0
  IsStableFor b bb_data =
      (t : ℕ) (returned : Bool)
      → Memᴰ t (targets returned (terminator_edges bits (self s) bb_data.terminator b))
      → (join bits (entry (self s) t)
          (leaving bits (self s) returned (entry (self s) b) b bb_data)).1
        ≡ false

  stable0 : IsStableFor 0 block0
  unfolding terminator_edges
  stable0 t true m = absurd (Memᴰ.not-nil m)
  stable0 t false m =
      ⊎_elim
        (λ e.
          subst
            (λ x.
              (join bits (entry (self s) x)
                (leaving bits (self s) false (entry (self s) 0) 0 block0)).1
              ≡ false)
            (sym e) no_more)
        (λ n. absurd (Memᴰ.not-nil n)) (Memᴰ.cases_cons m)

  stable1 : IsStableFor 1 block1
  unfolding terminator_edges
  stable1 t true m = absurd (Memᴰ.not-nil m)
  stable1 t false m = absurd (Memᴰ.not-nil m)

  stable :
      (b : ℕ) (bb_data : BasicBlockData) → get_elem? body b ≡ some bb_data → IsStableFor b bb_data
  stable zero bb_data e = subst (IsStableFor 0) (some-injective _ _ e) stable0
  stable (suc zero) bb_data e = subst (IsStableFor 1) (some-injective _ _ e) stable1
  stable (suc (suc b)) bb_data e = absurd (none-ne-some _ e)

  flows : Memᴰ 1 (targets false (block_end bits (self s) (first (self s) 0) 0 block0).1)
  unfolding block_end apply_primary_terminator_effect terminator_edges
  flows = Memᴰ.head refl

  fixpoint : IsFixpoint bits (self s) (engine (self s))
  unfolding analysis_of
  fixpoint = record {
    entry = entry (self s);
    iterates = propagate initial 0 1 false block0 refl flows;
    stable = λ b t returned bb_data _ e m.
        stable b bb_data e t returned (
          subst (λ x. Memᴰ t (targets returned x)) (edges-block_end (entry (self s) b) b bb_data)
            m);
    before-run_to = λ b i. refl;
    after-block_end = λ b bb_data e. rw e refl;
  }

compute_summary_for_fn-promised_example :
    (promised bits (param 0) (compute_summary_for_fn bits tcx engine body params events [] [])
      ≡ true)
    ↔ ((starts params (param 0) ≡ true) × SignsOnExit bits (self []) (param 0))
compute_summary_for_fn-promised_example =
    compute_summary_for_fn-promised bits tcx engine body params events [] [] (param 0) (fixpoint [])

lint_sinks_for_fn-IsExposed_example :
    Memᴰ sink.span (lint_sinks_for_fn bits tcx engine (λ t. t) body params events (sink ∷ []) [] [])
    ↔ ((s : Sink) × Memᴰ s (sink ∷ []) × (s.span ≡ sink.span) × IsExposed bits (self []) s)
lint_sinks_for_fn-IsExposed_example =
    lint_sinks_for_fn-IsExposed bits tcx engine (λ t. t) body params events (sink ∷ []) [] []
      sink.span (λ t loc s. (λ h. h, λ h. h)) (fixpoint [])

find_best_location_for_event-shortest_example : Finds body (record { lo = 12; hi = 18 })
find_best_location_for_event-shortest_example =
    find_best_location_for_event-shortest body (record { lo = 12; hi = 18 })

signs_in-executed_example :
    signs_in bits (self []) (param 0) (executed (record { block = 0; statement_index = 0 }))
    ≡ any
        (λ (event : AuthEvent).
          at_key same_location
            (find_best_location_for_event body event.span)
            (record { block = 0; statement_index = 0 })
          && signs (param 0) event)
        events
signs_in-executed_example =
    signs_in-executed bits tcx body params events [] [] (param 0)
      (record { block = 0; statement_index = 0 })

-- The parameter that signs is promised; the sink is reported, since the stored admin did not sign.
promised_parameter :
    promised bits (param 0) (compute_summary_for_fn bits tcx engine body params events [] []) ≡ true
unfolding compute_summary_for_fn exits_from is_summary_exit at_exit block_end
    apply_primary_terminator_effect join leaving initialize_start_block bottom_value run_to
    apply_primary_statement_effect analysis_of address_param_set map_events_to_locations
promised_parameter = refl

abbrev detector : MissingNewAdminAuth
detector = record {
  checked_functions =
      ("token::TokenClient::<'a>::try_set_admin", 7)
      ∷ ("token::Token::set_admin", 5)
      ∷ ("token::Token::spec_xdr_set_admin", 8)
      ∷ ("token::TokenClient::<'a>::set_admin", 9)
      ∷ [];
  params = (5, params) ∷ [];
  sinks = (5, sink ∷ []) ∷ [];
  auth_events = (5, events) ∷ [];
  function_call_graph = (5, 6 ∷ 5 ∷ []) ∷ [];
  call_sites = [];
}

abbrev mir : ℕ → Option Body
mir d = if nat_eq d 5 then some body else none

abbrev Solved : Keyed ℕ (FnSummary bits) → ℕ → List ParamInfo → Body → Type 0
Solved s d ps b =
    IsFixpoint bits
      (analysis_of bits tcx b ps (get_vec_slice detector.auth_events d)
        (get_vec_slice detector.call_sites d) s)
      (engine (
        analysis_of bits tcx b ps (get_vec_slice detector.auth_events d)
          (get_vec_slice detector.call_sites d) s))

solved : (s : Keyed ℕ (FnSummary bits)) → Solved s 5 params body
unfolding get_vec_slice
solved s = fixpoint s

-- the one function of the crate has these facts
solver : IsSolver bits tcx engine mir detector
unfolding IsSolver
solver d ps b s known local = elim (Bool-cases (nat_eq d 5)) [
  | inl q ↦
      let five = (nat_eq_iff d 5).0 q in
      let e = some-injective _ _ (sym (ap (λ x. lookup nat_eq detector.params x) five) ∙ known) in
      let f = some-injective _ _ (sym (ap mir five) ∙ local) in
      subst (λ x. Solved s x ps b) (sym five)
        (subst (λ x. Solved s 5 x b) e (subst (λ x. Solved s 5 params x) f (solved s)))
  | inr q ↦ absurd (none-ne-some _ (rw (q) at local))
]

summaries_loop-IsExact_example :
    (s : Keyed ℕ (FnSummary bits)) × (summaries_loop bits tcx engine mir detector 3
        (5 ∷ [])
        (initial_summaries bits tcx engine mir detector (5 ∷ []) [])
      ≡ some s)
    × ((d : ℕ) → Memᴰ d (5 ∷ []) → IsExact bits tcx engine mir detector (5 ∷ []) s d)
unfolding slots
summaries_loop-IsExact_example =
    summaries_loop-IsExact bits tcx engine mir detector (5 ∷ []) 3 (omega arith) solver

mem-lint_pass_example :
    Memᴰ sink.span (lint_pass bits tcx engine mir detector (λ t. t) (5 ∷ []) []) ↔ (
      (d : ℕ) × Memᴰ d (5 ∷ [])
      × IsReportedFor bits tcx engine mir detector (λ t. t) [] sink.span d)
mem-lint_pass_example =
    mem-lint_pass bits tcx engine mir detector (λ t. t) [] sink.span (5 ∷ []) solver
      (λ t loc s. (λ h. h, λ h. h))

reach_loop-Reach_example : Collects detector 5 (reach_loop detector 5 (5 ∷ []) [])
unfolding pending
reach_loop-Reach_example = reach_loop-Reach detector 5 5 (omega arith)

reached : reach_loop detector 5 (5 ∷ []) [] ≡ some (6 ∷ 5 ∷ [])
unfolding reach_loop
reached = refl

abbrev path_of : ℕ → String
path_of d = if nat_eq d 5 then "token::Token::set_admin" else "token::other"

abbrev names : List String
names = map (λ (f : String × ℕ). f.0) detector.checked_functions

check_crate_post-IsWarned_example :
    (spans : List Span) × (check_crate_post bits tcx engine mir detector (λ r. r) (λ t. t) path_of
      ≡ some spans)
    × ((span : Span)
        → Memᴰ span spans
          ↔ IsWarned bits tcx engine mir detector
              (λ r. r)
              (λ t. t)
              path_of
              names
              detector.checked_functions
              span)
check_crate_post-IsWarned_example =
    check_crate_post-IsWarned bits tcx engine mir detector (λ r. r) (λ t. t) path_of solver
      (λ r f. (λ m. m, λ m. m)) (λ t loc s. (λ h. h, λ h. h))

-- only the second function is an entry point
entry_point : is_soroban_function path_of names 5 ≡ true
unfolding is_soroban_function patterns all_in
entry_point = refl

-- The sink is reported, since the stored admin does not sign.
reports :
    check_crate_post bits tcx engine mir detector (λ r. r) (λ t. t) path_of ≡ some (sink.span ∷ [])
unfolding check_crate_post reach_loop summaries_loop pending slots lint_pass lint_sinks_for_fn
    compute_summary_for_fn exits_from is_summary_exit at_exit block_end
    apply_primary_terminator_effect join leaving initialize_start_block bottom_value run_to
    apply_primary_statement_effect analysis_of address_param_set map_events_to_locations
reports = refl
