-- ===== src/AuthFlow/Functions/Step.antt =====
-- The summary of one function is computed again, and replaced where it is another.
use mathlib.Core.Bool.{false≢true}
use mathlib.Core.Option.{some-injective}
use scout_audit.Base.{
  ℕ, ◌<◌, ◌≡◌, refl, sym, ◌∙◌, ap, ◌⊎◌, inl, inr, Bool, true, false, Option, some, List, Memᴰ,
  nat_eq, nat_eq_iff, Bool-cases, length,
}
use scout_audit.AuthFlow.Mir.{BitSet, TyCtxt, Body}
use scout_audit.AuthFlow.Domain.{FnSummary, Signer, promised, ParamInfo}
use scout_audit.AuthFlow.Places.Tables.{Keyed, lookup, put}
use scout_audit.AuthFlow.Analysis.{AuthFlowAnalysis}
use scout_audit.AuthFlow.Engine.{Results}
use scout_audit.AuthFlow.Summary.Monotone.{promised_in, Grows}
use scout_audit.AuthFlow.Functions.{MissingNewAdminAuth, same_summary, new_summary, replace}
use scout_audit.AuthFlow.Functions.Slots.{slots, missing, missing-new, mem-slots}
use scout_audit.AuthFlow.Functions.Differ.{IsNew, differ}
use scout_audit.AuthFlow.Functions.Support.{
  lookup-put, promised_in-put, Grows-refl, IsSolver, IsSupported, IsPresent, new_summary-Grows,
  new_summary-IsInRange,
}

module _ (B : BitSet) (tcx : TyCtxt) (iterate_to_fixpoint : AuthFlowAnalysis B → Results B)
    (optimized_mir : ℕ → Option Body) (self : MissingNewAdminAuth) (reachable : List ℕ) where
  -- the invariant of the loop
  abbrev pub Keeps : Keyed ℕ (FnSummary B) → Type 0
  Keeps s =
      IsSupported B tcx iterate_to_fixpoint optimized_mir self s
      × IsPresent B tcx iterate_to_fixpoint optimized_mir self reachable s

  -- from one table of summaries to the next: no promise is lost, and if it is said that something
  -- changed, then fewer promises are missing, else the table is the same
  pub record Moves (old : Keyed ℕ (FnSummary B)) (before : Bool)
      (new : Keyed ℕ (FnSummary B) × Bool) : Type 0 where
    pub grows : Grows B old new.0
    pub keeps : Keeps new.0
    pub changed :
        new.1 ≡ true
        → (before ≡ true)
          ⊎ (missing B new.0 (slots self.params reachable)
              < missing B old (slots self.params reachable))
    pub unchanged : new.1 ≡ false → (before ≡ false) × (new.0 ≡ old)

  pub stays : (s : Keyed ℕ (FnSummary B)) (b : Bool) → Keeps s → Moves s b (s, b)
  stays s b k = record {
    grows = Grows-refl B s;
    keeps = k;
    changed = inl;
    unchanged = λ h. (h, refl);
  }

  module _ (solver : IsSolver B tcx iterate_to_fixpoint optimized_mir self) (d : ℕ)
      (ps : List ParamInfo) (body : Body) (known : lookup nat_eq self.params d ≡ some ps)
      (local : optimized_mir d ≡ some body) (s : Keyed ℕ (FnSummary B)) (k : Keeps s) where
    abbrev fresh : FnSummary B
    fresh = new_summary B tcx iterate_to_fixpoint optimized_mir self d ps body s

    abbrev updated : Keyed ℕ (FnSummary B)
    updated = put nat_eq s d fresh

    grows_updated : Grows B s updated
    unfolding Grows IsSupported
    grows_updated e w h = elim (Bool-cases (nat_eq d e)) [
      | inl q ↦
          promised_in-put B s d fresh e w
          ∙ rw q (
              k.0 d ps body w known local
                (ap (λ x. promised_in B s x w) ((nat_eq_iff d e).0 q) ∙ h))
      | inr q ↦ promised_in-put B s d fresh e w ∙ rw q h
    ]

    same_fresh :
        (e : ℕ) (qs : List ParamInfo) (other : Body) (w : Signer)
        → d ≡ e
        → ps ≡ qs
        → body ≡ other
        → promised B w fresh
          ≡ promised B w (new_summary B tcx iterate_to_fixpoint optimized_mir self e qs other s)
    same_fresh e qs other w a b c =
        ap
          (λ x. promised B w (new_summary B tcx iterate_to_fixpoint optimized_mir self x ps body s))
          a
        ∙ ap
            (λ x.
              promised B w (new_summary B tcx iterate_to_fixpoint optimized_mir self e x body s))
            b
        ∙ ap (λ x. promised B w (new_summary B tcx iterate_to_fixpoint optimized_mir self e qs x s))
            c

    IsSupported-updated : IsSupported B tcx iterate_to_fixpoint optimized_mir self updated
    unfolding IsSupported
    IsSupported-updated e qs other w known' local' h =
        new_summary-Grows B tcx iterate_to_fixpoint optimized_mir self e qs other s updated w solver
          known' local' grows_updated
          (elim (Bool-cases (nat_eq d e)) [
            | inl q ↦
                let same = (nat_eq_iff d e).0 q in
                sym (
                  same_fresh e qs other w same
                    (some-injective _ _ (sym known ∙ ap (lookup nat_eq self.params) same ∙ known'))
                    (some-injective _ _ (sym local ∙ ap optimized_mir same ∙ local')))
                ∙ (rw q at (sym (promised_in-put B s d fresh e w) ∙ h))
            | inr q ↦
                k.0 e qs other w known' local' (rw q at (sym (promised_in-put B s d fresh e w) ∙ h))
          ])

    IsPresent-updated : IsPresent B tcx iterate_to_fixpoint optimized_mir self reachable updated
    unfolding IsPresent
    IsPresent-updated e qs m known' = elim (Bool-cases (nat_eq d e)) [
      | inl q ↦ (fresh, lookup-put s d fresh e ∙ rw q refl)
      | inr q ↦ let (f, h) = k.1 e qs m known' in (f, lookup-put s d fresh e ∙ rw q h)
    ]

    -- what was promised of this function is still
    more :
        {old : FnSummary B}
        → lookup nat_eq s d ≡ some old
        → (w : Signer) → promised B w old ≡ true
        → promised B w fresh ≡ true
    unfolding IsSupported promised_in
    more e w h = k.0 d ps body w known local (rw (e, promised_in) h)

    fewer :
        {old : FnSummary B}
        → Memᴰ d reachable
        → lookup nat_eq s d ≡ some old
        → same_summary B old fresh ≡ false
        → missing B updated (slots self.params reachable)
          < missing B s (slots self.params reachable)
    unfolding IsNew promised_in
    fewer {old} m e h =
        let (w, range, (a, b)) =
          differ B old fresh (more e) (length ps)
            (λ w.
              new_summary-IsInRange B tcx iterate_to_fixpoint optimized_mir self d ps body s w
                solver known local)
            h in
        missing-new B s updated (slots self.params reachable) (d, w) grows_updated
          (mem-slots self.params reachable d w ps m known range) (rw (e, promised_in) a)
          (promised_in-put B s d fresh d w ∙ rw ((nat_eq_iff d d).1 refl) b)

    pub replace-Moves :
        (before : Bool)
        → Memᴰ d reachable
        → Moves s before (replace B tcx iterate_to_fixpoint optimized_mir self d fresh s before)
    unfolding replace IsPresent
    replace-Moves before m =
        let (old, e) = k.1 d ps m known in
        elim (Bool-cases (same_summary B old fresh)) [
          | inl q ↦ rw (e, q, replace) (stays s before k)
          | inr q ↦ rw (e, q, replace) (moved old e q)
        ]
      where
        moved :
            (old : FnSummary B)
            → lookup nat_eq s d ≡ some old
            → same_summary B old fresh ≡ false
            → Moves s before (updated, true)
        moved old e q = record {
          grows = grows_updated;
          keeps = (IsSupported-updated, IsPresent-updated);
          changed = λ _. inr (fewer m e q);
          unchanged = λ h. absurd (false≢true (sym h));
        }
