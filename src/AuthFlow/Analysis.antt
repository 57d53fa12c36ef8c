-- ===== src/AuthFlow/Analysis.antt =====
-- missing-new-admin-auth/src/mir_auth_flow.rs: `AuthFlowAnalysis` and its transfer functions.
use scout_audit.Base.{
  ℕ, zero, suc, Bool, true, false, not, ◌&&◌, Option, none, some, List, [], ◌∷◌, nat_eq, get_elem?,
  and_then, if◌then◌else◌, foldl, length, map,
}
pub mod Effects
use mathlib.Core.Option
use scout_audit.AuthFlow.Mir.{
  BitSet, Location, Statement, StatementKind, assign, Place, Rvalue, use_operand, Operand, copy,
  move, constant, runtime_checks, Const, SwitchTargets, TyCtxt, TerminatorKind, switch_int,
  Terminator, TerminatorEdges, single, Body, same_location,
}
use scout_audit.AuthFlow.Domain.{ParamInfo, AuthEvent, CallSite, AuthDomain, FnSummary}
use scout_audit.AuthFlow.Places.Tables.{Keyed, lookup}

pub record AuthFlowAnalysis (B : BitSet) : Type 0 where
  pub tcx : TyCtxt
  pub body : Body
  pub param_count : ℕ
  pub address_params : B.Set
  pub auth_events_by_loc : Keyed Location (List AuthEvent)
  pub callsite_by_block : Keyed ℕ CallSite
  pub fn_summaries : Keyed ℕ (FnSummary B)

unfoldable pub is_empty_projection : Place → Bool
is_empty_projection place = elim place.projection [ [] ↦ true | ◌∷◌ _ _ ↦ false ]

-- the value that an assignment gives, where it is a constant
unfoldable pub const_of_rvalue : Rvalue → Option Const
const_of_rvalue (use_operand (constant c)) = some c
const_of_rvalue _ = none

-- The loop over the statements: the last assignment to the whole local decides.
unfoldable pub last_const : ℕ → List Statement → Option Const → Option Const
unfolding is_empty_projection const_of_rvalue
last_const local [] last = last
last_const local (stmt ∷ statements) last = last_const local statements (elim stmt.kind [
  | assign lhs rvalue ↦
      if not (nat_eq lhs.local local && is_empty_projection lhs)
      then last
      else const_of_rvalue rvalue
  | _ ↦ last
])

module _ (B : BitSet) where
  unfoldable pub apply_event : AuthDomain B → AuthEvent → AuthDomain B
  apply_event state event = record {
    unauth_params = elim event.param_index [
      | none ↦ state.unauth_params
      | some param_idx ↦ B.remove state.unauth_params param_idx
    ];
    current_admin_unauth = if event.is_current_admin then false else state.current_admin_unauth;
  }

  unfoldable pub apply_auth_events : AuthFlowAnalysis B → AuthDomain B → Location → AuthDomain B
  unfolding apply_event
  apply_auth_events self state loc = elim (lookup same_location self.auth_events_by_loc loc) [
    | none ↦ state
    | some events ↦ foldl apply_event state events
  ]

  unfoldable pub bottom_value : AuthFlowAnalysis B → AuthDomain B
  bottom_value self = record {
    unauth_params = B.new_empty self.param_count;
    current_admin_unauth = false;
  }

  unfoldable pub initialize_start_block : AuthFlowAnalysis B → AuthDomain B → AuthDomain B
  initialize_start_block self state = record {
    unauth_params = self.address_params;
    current_admin_unauth = true;
  }

  unfoldable pub apply_primary_statement_effect :
      AuthFlowAnalysis B → AuthDomain B → Location → AuthDomain B
  unfolding apply_auth_events
  apply_primary_statement_effect self state loc = apply_auth_events self state loc

  -- The loop over the arguments of a call, from number `callee_idx` on.
  unfoldable pub apply_args : FnSummary B → ℕ → List (Option ℕ) → B.Set → B.Set
  apply_args summary callee_idx [] params = params
  apply_args summary callee_idx (arg ∷ args) params = apply_args summary (suc callee_idx) args (
      if B.contains summary.must_auth_params callee_idx
      then elim arg [ none ↦ params | some caller_idx ↦ B.remove params caller_idx ]
      else params)

  unfoldable pub apply_call_return_effect : AuthFlowAnalysis B → AuthDomain B → ℕ → AuthDomain B
  unfolding apply_args
  apply_call_return_effect self state block = elim (lookup nat_eq self.callsite_by_block block) [
    | none ↦ state
    | some callsite ↦ elim (lookup nat_eq self.fn_summaries callsite.callee_def_id) [
      | none ↦ state
      | some summary ↦ record {
        unauth_params = apply_args summary 0 callsite.arg_to_param state.unauth_params;
        current_admin_unauth =
            if summary.must_auth_current_admin then false else state.current_admin_unauth;
      }
    ]
  ]

  unfoldable pub const_bits_from_place : AuthFlowAnalysis B → ℕ → Place → Option ℕ
  unfolding is_empty_projection last_const
  const_bits_from_place self block place =
      if not (is_empty_projection place)
      then none
      else and_then (get_elem? self.body block) λ bb_data.
        and_then (last_const place.local bb_data.statements none) self.tcx.try_eval_bits

  unfoldable pub const_switch_target : AuthFlowAnalysis B → ℕ → Operand → SwitchTargets → Option ℕ
  unfolding const_bits_from_place
  const_switch_target self block discr targets =
      and_then
        (elim discr [
          | constant c ↦ self.tcx.try_eval_bits c
          | copy place ↦ const_bits_from_place self block place
          | move place ↦ const_bits_from_place self block place
          | runtime_checks ↦ none
        ])
        λ bits. some (targets.target_for_value bits)

  -- where control goes: to one block, where the value that is switched on is known
  unfoldable pub terminator_edges : AuthFlowAnalysis B → Terminator → ℕ → TerminatorEdges
  unfolding const_switch_target
  terminator_edges self term block = elim term.kind [
    | switch_int discr targets ↦ elim (const_switch_target self block discr targets) [
      | some target ↦ single target
      | none ↦ term.edges
    ]
    | _ ↦ term.edges
  ]

  unfoldable pub apply_primary_terminator_effect :
      AuthFlowAnalysis B → AuthDomain B → Terminator → Location → AuthDomain B × TerminatorEdges
  unfolding apply_auth_events terminator_edges
  apply_primary_terminator_effect self state term loc =
      (apply_auth_events self state loc, terminator_edges self term loc.block)

unfoldable pub is_summary_exit : Terminator → Bool
is_summary_exit term = elim term.successors [ [] ↦ true | ◌∷◌ _ _ ↦ false ]

-- The loop over the parameters, from number `i` on.
unfoldable pub address_params_from : (B : BitSet) → ℕ → List ParamInfo → B.Set → B.Set
address_params_from B i [] set = set
address_params_from B i (p ∷ params) set =
    address_params_from B (suc i) params (if p.is_address then B.insert set i else set)

unfoldable pub address_param_set : (B : BitSet) → List ParamInfo → B.Set
unfolding address_params_from
address_param_set B params = address_params_from B 0 params (B.new_empty (length params))
