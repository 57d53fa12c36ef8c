-- ===== src/AuthFlow/Engine.antt =====
-- What the data-flow engine of `rustc_mir_dataflow` is relied on for, as its documentation states
-- it: from the bottom state everywhere and the initial state at the start block, it joins the state
-- that leaves a block into the entries of the blocks it goes on to, until nothing grows; a cursor
-- then shows the state before and after each location.
pub mod Paths
pub mod Exact
use scout_audit.Base.{
  ℕ, zero, suc, ◌≡◌, Bool, true, false, Option, none, some, List, [], ◌∷◌, Memᴰ, nat_eq, get_elem?,
  length, if◌then◌else◌,
}
use scout_audit.AuthFlow.Mir.{
  BitSet, Location, Const, SwitchTargets, TerminatorEdges, no_edges, single, double,
  assign_on_return, switch_edges, BasicBlockData, statement_count,
}
use scout_audit.AuthFlow.Domain.{AuthDomain, join}
use scout_audit.AuthFlow.Analysis.{
  AuthFlowAnalysis, bottom_value, initialize_start_block, apply_primary_statement_effect,
  apply_primary_terminator_effect, apply_call_return_effect, terminator_edges,
}

-- the cursor after `seek_before_primary_effect` and after `seek_after_primary_effect`
pub record Results (B : BitSet) : Type 0 where
  pub before : Location → AuthDomain B
  pub after : Location → AuthDomain B

abbrev pub optional : Option ℕ → List ℕ
optional none = []
optional (some t) = t ∷ []

-- The blocks that follow directly, and those that follow a call's return.
abbrev pub targets : Bool → TerminatorEdges → List ℕ
targets false no_edges = []
targets false (single t) = t ∷ []
targets false (double t u) = t ∷ u ∷ []
targets false (assign_on_return ts cleanup) = optional cleanup
targets false (switch_edges ts) = ts
targets true (assign_on_return ts cleanup) = ts
targets true _ = []

-- the location of a block's terminator
abbrev pub end_of : ℕ → BasicBlockData → Location
end_of b bb_data = record { block = b; statement_index = length bb_data.statements }

module _ (B : BitSet) (self : AuthFlowAnalysis B) where
  -- the state before statement `i` of block `b`, from the state at its entry
  unfoldable pub run_to : AuthDomain B → ℕ → ℕ → AuthDomain B
  run_to s b zero = s
  run_to s b (suc i) =
      apply_primary_statement_effect B self (run_to s b i)
        (record { block = b; statement_index = i })

  -- the state that leaves the block, and where control goes
  unfoldable pub block_end : AuthDomain B → ℕ → BasicBlockData → AuthDomain B × TerminatorEdges
  unfolding run_to
  block_end s b bb_data =
      apply_primary_terminator_effect B self (run_to s b (length bb_data.statements))
        bb_data.terminator (end_of b bb_data)

  unfoldable pub leaving : Bool → AuthDomain B → ℕ → BasicBlockData → AuthDomain B
  unfolding block_end
  leaving false s b bb_data = (block_end s b bb_data).0
  leaving true s b bb_data = apply_call_return_effect B self (block_end s b bb_data).0 b

  -- the entry states that the engine passes through
  pub data Iterates : (ℕ → AuthDomain B) → Type 0 where
    initial : Iterates (λ c.
        if nat_eq c 0
        then initialize_start_block B self (bottom_value B self)
        else bottom_value B self)
    propagate :
        {entry : ℕ → AuthDomain B}
        → Iterates entry
        → (b t : ℕ) (returned : Bool) (bb_data : BasicBlockData)
        → get_elem? self.body b ≡ some bb_data
        → Memᴰ t (targets returned (block_end (entry b) b bb_data).1)
        → Iterates (λ c.
          if nat_eq c t
          then (join B (entry c) (leaving returned (entry b) b bb_data)).0
          else entry c)

  -- the blocks that control can come to
  pub data Visits : ℕ → Type 0 where
    start : Visits 0
    along :
        {b : ℕ}
        → Visits b
        → (t : ℕ) (returned : Bool) (bb_data : BasicBlockData)
        → get_elem? self.body b ≡ some bb_data
        → Memᴰ t (targets returned (terminator_edges B self bb_data.terminator b))
        → Visits t

  -- The engine has stopped, and these are its results.
  pub record IsFixpoint (r : Results B) : Type 0 where
    pub entry : ℕ → AuthDomain B
    pub iterates : Iterates entry
    pub stable :
        (b t : ℕ) (returned : Bool) (bb_data : BasicBlockData)
        → Visits b
        → get_elem? self.body b ≡ some bb_data
        → Memᴰ t (targets returned (block_end (entry b) b bb_data).1)
        → (join B (entry t) (leaving returned (entry b) b bb_data)).1 ≡ false
    pub before-run_to :
        (b i : ℕ) → r.before (record { block = b; statement_index = i }) ≡ run_to (entry b) b i
    pub after-block_end :
        (b : ℕ) (bb_data : BasicBlockData)
        → get_elem? self.body b ≡ some bb_data
        → r.after (end_of b bb_data) ≡ (block_end (entry b) b bb_data).0
