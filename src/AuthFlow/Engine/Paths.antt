-- ===== src/AuthFlow/Engine/Paths.antt =====
-- The runs of a body as paths, and who signs on them.
use scout_audit.Base.{
  ℕ, suc, ◌<◌, ◌≡◌, Bool, true, false, some, List, [], ◌∷◌, Memᴰ, get_elem?, length, any,
}
use scout_audit.AuthFlow.Mir.{BitSet, Location, BasicBlockData, same_location}
use scout_audit.AuthFlow.Domain.{Signer, unsigned}
use scout_audit.AuthFlow.Places.Tables.{values_at}
use scout_audit.AuthFlow.Analysis.{
  AuthFlowAnalysis, terminator_edges, initialize_start_block, bottom_value,
}
use scout_audit.AuthFlow.Analysis.Effects.{signs, return_signs}
use scout_audit.AuthFlow.Engine.{targets, end_of}

-- A location that is executed, and the return of the call that ends a block.
pub data Step : Type 0 where
  executed : Location → Step
  call_returned : ℕ → Step

module _ (B : BitSet) (self : AuthFlowAnalysis B) where
  abbrev pub Follows : Bool → BasicBlockData → ℕ → ℕ → Type 0
  Follows returned bb_data b t =
      Memᴰ t (targets returned (terminator_edges B self bb_data.terminator b))

  -- the ways to come before statement `i` of block `b`, with their steps, the last first
  pub data Run : ℕ → ℕ → List Step → Type 0 where
    begin : Run 0 0 []
    next :
        {b i : ℕ} {l : List Step} {bb_data : BasicBlockData}
        → Run b i l
        → get_elem? self.body b ≡ some bb_data
        → i < length bb_data.statements
        → Run b (suc i) (executed (record { block = b; statement_index = i }) ∷ l)
    go_on :
        {b t : ℕ} {l : List Step} {bb_data : BasicBlockData}
        → Run b (length bb_data.statements) l
        → get_elem? self.body b ≡ some bb_data
        → Follows false bb_data b t
        → Run t 0 (executed (end_of b bb_data) ∷ l)
    come_back :
        {b t : ℕ} {l : List Step} {bb_data : BasicBlockData}
        → Run b (length bb_data.statements) l
        → get_elem? self.body b ≡ some bb_data
        → Follows true bb_data b t
        → Run t 0 (call_returned b ∷ executed (end_of b bb_data) ∷ l)

  -- whether the signer signs in this step
  abbrev pub signs_in : Signer → Step → Bool
  signs_in w (executed loc) = any (signs w) (values_at same_location self.auth_events_by_loc loc)
  signs_in w (call_returned b) = return_signs B w self b

  -- a path to this place on which the signer, who is to sign, does not
  unfoldable pub Unsigned : Signer → ℕ → ℕ → Type 0
  Unsigned w b i =
      (l : List Step) × Run b i l
      × (unsigned B w (initialize_start_block B self (bottom_value B self)) ≡ true)
      × (any (signs_in w) l ≡ false)
