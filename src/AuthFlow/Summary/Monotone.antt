-- ===== src/AuthFlow/Summary/Monotone.antt =====
-- The summary of a caller, when more is promised of the functions that it calls.
use mathlib.Core.Bool.{false≢true}
use scout_audit.Base.{
  ℕ, suc, ◌≡◌, refl, sym, ◌∙◌, ap, inl, inr, Bool, true, false, ◌&&◌, ◌||◌, Option, none, some,
  List, [], ◌∷◌, nat_eq, any, Option-cases, arith,
}
use scout_audit.AuthFlow.Mir.{BitSet, TyCtxt, Body, BasicBlockData}
use scout_audit.AuthFlow.Domain.{
  FnSummary, Signer, param, current_admin, promised, ParamInfo, AuthEvent, CallSite,
}
use scout_audit.AuthFlow.Places.Tables.{Keyed, lookup}
use scout_audit.AuthFlow.Analysis.{
  AuthFlowAnalysis, terminator_edges, const_switch_target, const_bits_from_place,
}
use scout_audit.AuthFlow.Analysis.Effects.{is_some_of, hands_over, call_signs, return_signs}
use scout_audit.AuthFlow.Engine.{Results, IsFixpoint, end_of}
use scout_audit.AuthFlow.Engine.Paths.{
  Step, executed, call_returned, Run, begin, next, go_on, come_back, signs_in,
}
use scout_audit.AuthFlow.Summary.{analysis_of, compute_summary_for_fn}
use scout_audit.AuthFlow.Summary.Promises.{SignsOnExit, compute_summary_for_fn-promised}

module _ (B : BitSet) where
  -- whether the summaries promise the signature of this function
  unfoldable pub promised_in : Keyed ℕ (FnSummary B) → ℕ → Signer → Bool
  promised_in summaries def_id w = elim (lookup nat_eq summaries def_id) [
    | none ↦ false
    | some summary ↦ promised B w summary
  ]

  -- every promise of the first summaries is one of the second
  unfoldable pub Grows : Keyed ℕ (FnSummary B) → Keyed ℕ (FnSummary B) → Type 0
  Grows old new =
      (def_id : ℕ) (w : Signer) → promised_in old def_id w ≡ true → promised_in new def_id w ≡ true

  abbrev hands : Keyed ℕ (FnSummary B) → ℕ → ℕ → List (Option ℕ) → ℕ → Bool
  hands summaries def_id i [] p = false
  hands summaries def_id i (arg ∷ args) p =
      (promised_in summaries def_id (param i) && is_some_of arg p)
      || hands summaries def_id (suc i) args p

  hands-none :
      (summaries : Keyed ℕ (FnSummary B)) (def_id i : ℕ) (args : List (Option ℕ)) (p : ℕ)
      → lookup nat_eq summaries def_id ≡ none
      → hands summaries def_id i args p ≡ false
  unfolding promised_in
  hands-none summaries def_id i [] p e = refl
  hands-none summaries def_id i (arg ∷ args) p e =
      rw (e, hands, promised_in) (hands-none summaries def_id (suc i) args p e)

  hands-some :
      (summaries : Keyed ℕ (FnSummary B)) (def_id i : ℕ) (args : List (Option ℕ)) (p : ℕ)
      {summary : FnSummary B}
      → lookup nat_eq summaries def_id ≡ some summary
      → hands summaries def_id i args p ≡ hands_over B summary i args p
  unfolding promised_in
  hands-some summaries def_id i [] p e = refl
  hands-some summaries def_id i (arg ∷ args) p {summary} e =
      rw (e, hands, promised_in)
        (ap (λ b. (B.contains summary.must_auth_params i && is_some_of arg p) || b)
          (hands-some summaries def_id (suc i) args p e))

  hands-Grows :
      (old new : Keyed ℕ (FnSummary B)) (def_id i : ℕ) (args : List (Option ℕ)) (p : ℕ)
      → Grows old new
      → hands old def_id i args p ≡ true
      → hands new def_id i args p ≡ true
  unfolding Grows
  hands-Grows old new def_id i [] p g h = h
  hands-Grows old new def_id i (arg ∷ args) p g h =
      ground (arith, hands-Grows old new def_id (suc i) args p g, g def_id (param i))

  -- whether a call has the signer sign, by what is promised of the function that is called
  abbrev calls_sign : Keyed ℕ (FnSummary B) → Signer → CallSite → Bool
  calls_sign summaries (param p) callsite =
      hands summaries callsite.callee_def_id 0 callsite.arg_to_param p
  calls_sign summaries current_admin callsite =
      promised_in summaries callsite.callee_def_id current_admin

  call_signs-hands :
      (w : Signer) (summaries : Keyed ℕ (FnSummary B)) (callsite : CallSite) {summary : FnSummary B}
      → lookup nat_eq summaries callsite.callee_def_id ≡ some summary
      → call_signs B w callsite summary ≡ calls_sign summaries w callsite
  unfolding promised_in
  call_signs-hands (param p) summaries callsite f =
      sym (hands-some summaries callsite.callee_def_id 0 callsite.arg_to_param p f)
  call_signs-hands current_admin summaries callsite f = rw (f, promised_in) refl

  no_call_signs :
      (w : Signer) (summaries : Keyed ℕ (FnSummary B)) (callsite : CallSite)
      → lookup nat_eq summaries callsite.callee_def_id ≡ none
      → calls_sign summaries w callsite ≡ false
  unfolding promised_in
  no_call_signs (param p) summaries callsite f =
      hands-none summaries callsite.callee_def_id 0 callsite.arg_to_param p f
  no_call_signs current_admin summaries callsite f = rw (f, promised_in) refl

  return_signs-callsite :
      (w : Signer) (self : AuthFlowAnalysis B) (b : ℕ) {callsite : CallSite}
      → lookup nat_eq self.callsite_by_block b ≡ some callsite
      → return_signs B w self b ≡ calls_sign self.fn_summaries w callsite
  unfolding return_signs
  return_signs-callsite w self b {callsite} e =
      elim (Option-cases (lookup nat_eq self.fn_summaries callsite.callee_def_id)) [
        | inl f ↦ rw (e, f, return_signs) (sym (no_call_signs w self.fn_summaries callsite f))
        | inr (summary, f) ↦
            rw (e, f, return_signs) (call_signs-hands w self.fn_summaries callsite f)
      ]

  return_signs-none :
      (w : Signer) (self : AuthFlowAnalysis B) (b : ℕ)
      → lookup nat_eq self.callsite_by_block b ≡ none
      → return_signs B w self b ≡ false
  unfolding return_signs
  return_signs-none w self b e = rw (e, return_signs) refl

  calls_sign-Grows :
      (old new : Keyed ℕ (FnSummary B)) (w : Signer) (callsite : CallSite)
      → Grows old new
      → calls_sign old w callsite ≡ true
      → calls_sign new w callsite ≡ true
  unfolding Grows
  calls_sign-Grows old new (param p) callsite g h =
      hands-Grows old new callsite.callee_def_id 0 callsite.arg_to_param p g h
  calls_sign-Grows old new current_admin callsite g h = g callsite.callee_def_id current_admin h

module _ (B : BitSet) (tcx : TyCtxt) (body : Body) (params : List ParamInfo)
    (events : List AuthEvent) (callsites : List CallSite) (old new : Keyed ℕ (FnSummary B)) where
  abbrev with : Keyed ℕ (FnSummary B) → AuthFlowAnalysis B
  with = analysis_of B tcx body params events callsites

  return_signs-Grows :
      (w : Signer) (b : ℕ)
      → Grows B old new
      → return_signs B w (with old) b ≡ true
      → return_signs B w (with new) b ≡ true
  unfolding return_signs analysis_of
  return_signs-Grows w b g h = elim (Option-cases (lookup nat_eq (with old).callsite_by_block b)) [
    | inl e ↦ absurd (false≢true (sym (return_signs-none B w (with old) b e) ∙ h))
    | inr (callsite, e) ↦
        return_signs-callsite B w (with new) b e
        ∙ calls_sign-Grows B old new w callsite g
            (sym (return_signs-callsite B w (with old) b e) ∙ h)
  ]

  any_signs-Grows :
      (w : Signer) (l : List Step)
      → Grows B old new
      → any (signs_in B (with old) w) l ≡ true
      → any (signs_in B (with new) w) l ≡ true
  unfolding analysis_of
  any_signs-Grows w [] g h = h
  any_signs-Grows w (executed loc ∷ l) g h = ground (arith, any_signs-Grows w l g)
  any_signs-Grows w (call_returned b ∷ l) g h =
      ground (arith, any_signs-Grows w l g, return_signs-Grows w b g)

  same_edges :
      (bb_data : BasicBlockData) (b : ℕ)
      → terminator_edges B (with old) bb_data.terminator b
        ≡ terminator_edges B (with new) bb_data.terminator b
  unfolding terminator_edges const_switch_target const_bits_from_place analysis_of
  same_edges bb_data b = refl

  Run-same : {b i : ℕ} {l : List Step} → Run B (with new) b i l → Run B (with old) b i l
  unfolding analysis_of
  Run-same begin = begin
  Run-same (next p e lt) = next (Run-same p) e lt
  Run-same (go_on {b} {bb_data = bb_data} p e m) =
      go_on (Run-same p) e (rw (same_edges bb_data b) m)
  Run-same (come_back {b} {bb_data = bb_data} p e m) =
      come_back (Run-same p) e (rw (same_edges bb_data b) m)

  SignsOnExit-Grows :
      (w : Signer) → Grows B old new → SignsOnExit B (with old) w → SignsOnExit B (with new) w
  unfolding analysis_of
  SignsOnExit-Grows w g h b bb_data l e x p =
      any_signs-Grows w (executed (end_of b bb_data) ∷ l) g (h b bb_data l e x (Run-same p))

-- What the engine is relied on for given, a function of which more is promised among the summaries
-- of those that it calls has itself no less promised.
pub compute_summary_for_fn-Grows :
    (B : BitSet) (tcx : TyCtxt) (iterate_to_fixpoint : AuthFlowAnalysis B → Results B) (body : Body)
    (params : List ParamInfo) (events : List AuthEvent) (callsites : List CallSite)
    (old new : Keyed ℕ (FnSummary B)) (w : Signer)
    → ((s : Keyed ℕ (FnSummary B))
        → IsFixpoint B
            (analysis_of B tcx body params events callsites s)
            (iterate_to_fixpoint (analysis_of B tcx body params events callsites s)))
    → Grows B old new
    → promised B w
        (compute_summary_for_fn B tcx iterate_to_fixpoint body params events callsites old)
      ≡ true
    → promised B w
        (compute_summary_for_fn B tcx iterate_to_fixpoint body params events callsites new)
      ≡ true
compute_summary_for_fn-Grows B tcx iterate_to_fixpoint body params events callsites old new w engine
      g h =
    let exact = λ (s : Keyed ℕ (FnSummary B)).
      compute_summary_for_fn-promised B tcx iterate_to_fixpoint body params events callsites s w
        (engine s) in
    let (st, runs) = (exact old).0 h in
    (exact new).1 (st, SignsOnExit-Grows B tcx body params events callsites old new w g runs)
