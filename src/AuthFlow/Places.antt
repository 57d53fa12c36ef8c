-- ===== src/AuthFlow/Places.antt =====
-- missing-new-admin-auth/src/mir_auth_flow.rs: where in a body the facts about its source belong.
use scout_audit.Base.{
  ℕ, zero, suc, ◌+◌, ◌-◌, ◌≡◌, Bool, true, false, not, ◌&&◌, ◌||◌, Option, none, some, List, [],
  ◌∷◌, ◌++◌, nat_eq, leb, ltb, get_elem?, length, if◌then◌else◌,
}
pub mod Best
pub mod InBody
pub mod Tables
use mathlib.Core.Option
use scout_audit.AuthFlow.Mir.{
  Span, Location, Statement, StatementKind, storage_live, storage_dead, nop, TerminatorKind, call,
  Operand, constant, Const, val, fn_def, Ty, Terminator, BasicBlockData, Body, same_location,
}
use scout_audit.AuthFlow.Domain.{AuthEvent, CallSite, Sink}
use scout_audit.AuthFlow.Places.Tables.{Keyed, push_at, put}

unfoldable pub spans_overlap : Span → Span → Bool
spans_overlap a b = leb a.lo b.hi && leb b.lo a.hi

-- The subtraction stops at 0, as `saturating_sub` does.
unfoldable pub span_len : Span → ℕ
span_len span = span.hi - span.lo

unfoldable pub fn_of_ty : Ty → Option ℕ
fn_of_ty (fn_def def_id) = some def_id
fn_of_ty _ = none

unfoldable pub fn_of_operand : Operand → Option ℕ
unfolding fn_of_ty
fn_of_operand (constant (val _ ty)) = fn_of_ty ty
fn_of_operand _ = none

unfoldable pub call_def_id : Terminator → Option ℕ
unfolding fn_of_operand
call_def_id term = elim term.kind [ call func ↦ fn_of_operand func | _ ↦ none ]

-- the statements that are not looked at
unfoldable pub is_marker : StatementKind → Bool
is_marker storage_live = true
is_marker storage_dead = true
is_marker nop = true
is_marker _ = false

-- `best.is_none_or(…)`, and the new best
unfoldable pub better : Span → Location → Span → Option (Location × Span) → Option (Location × Span)
unfolding spans_overlap span_len
better target loc span best = if not (spans_overlap span target) then best else elim best [
  | none ↦ some (loc, span)
  | some found ↦ if ltb (span_len span) (span_len found.1) then some (loc, span) else some found
]

-- The loop over a block's statements, from number `idx` on.
unfoldable pub best_statement :
    Span → ℕ → ℕ → List Statement → Option (Location × Span) → Option (Location × Span)
unfolding is_marker better
best_statement target bb idx [] best = best
best_statement target bb idx (stmt ∷ statements) best =
    best_statement target bb (suc idx) statements (
      if is_marker stmt.kind
      then best
      else better target (record { block = bb; statement_index = idx }) stmt.span best)

-- The loop over the blocks, from number `bb` on.
unfoldable pub best_block :
    Span → ℕ → List BasicBlockData → Option (Location × Span) → Option (Location × Span)
unfolding best_statement better
best_block target bb [] best = best
best_block target bb (bb_data ∷ blocks) best = best_block target (suc bb) blocks (
    better target (record { block = bb; statement_index = length bb_data.statements })
      bb_data.terminator.span (best_statement target bb 0 bb_data.statements best))

unfoldable pub find_best_location_for_event : Body → Span → Option Location
unfolding best_block
find_best_location_for_event body target =
    Option.map (λ (found : Location × Span). found.0) (best_block target 0 body none)

-- `map.entry(loc).or_default().push(event.clone())` for each event that has a location
unfoldable pub map_events_to_locations : Body → List AuthEvent → Keyed Location (List AuthEvent)
unfolding find_best_location_for_event
map_events_to_locations body events =
    push_at same_location (λ (event : AuthEvent). find_best_location_for_event body event.span)
      events []

unfoldable pub map_sinks_to_locations : Body → List Sink → Keyed Location (List Sink)
unfolding find_best_location_for_event
map_sinks_to_locations body sinks =
    push_at same_location (λ (sink : Sink). find_best_location_for_event body sink.span) sinks []

-- The loop over the call sites for one block: the shortest that overlaps, the first of these.
unfoldable pub best_callsite : Span → ℕ → List CallSite → Option CallSite → Option CallSite
unfolding spans_overlap span_len
best_callsite term_span callee_def_id [] best = best
best_callsite term_span callee_def_id (callsite ∷ callsites) best =
    best_callsite term_span callee_def_id callsites (
      if not (nat_eq callsite.callee_def_id callee_def_id)
      then best
      else if not (spans_overlap term_span callsite.span)
      then best
      else elim best [
        | none ↦ some callsite
        | some best_cs ↦
            if ltb (span_len callsite.span) (span_len best_cs.span)
            then some callsite
            else some best_cs
      ])

-- the call site of one block
unfoldable pub callsite_of : List CallSite → BasicBlockData → Option CallSite
unfolding call_def_id best_callsite
callsite_of callsites bb_data = elim (call_def_id bb_data.terminator) [
  | none ↦ none
  | some callee_def_id ↦ best_callsite bb_data.terminator.span callee_def_id callsites none
]

unfoldable pub callsites_from : List CallSite → ℕ → List BasicBlockData → Keyed ℕ CallSite
unfolding callsite_of
callsites_from callsites bb [] = []
callsites_from callsites bb (bb_data ∷ blocks) = elim (callsite_of callsites bb_data) [
  | none ↦ callsites_from callsites (suc bb) blocks
  | some best ↦ (bb, best) ∷ callsites_from callsites (suc bb) blocks
]

unfoldable pub map_callsites_to_blocks : Body → List CallSite → Keyed ℕ CallSite
unfolding callsites_from
map_callsites_to_blocks body callsites = callsites_from callsites 0 body
