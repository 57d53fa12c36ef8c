-- ===== src/AuthFlow/Functions/Passes.antt =====
-- One pass over the functions, and the number of promises that are missing.
use mathlib.Core.Bool.{false≢true}
use mathlib.Core.List.Memᴰ
use mathlib.Core.Option.{some-injective, none-ne-some}
use scout_audit.Base.{
  ℕ, ◌≡◌, refl, sym, ◌∙◌, ap, ◌⊎◌, inl, inr, ⊎_elim, Bool, true, false, Option, none, some, List,
  [], ◌∷◌, Memᴰ, nat_eq, Option-cases, Bool-cases, arith, subst,
}
use scout_audit.AuthFlow.Mir.{BitSet, TyCtxt, Body}
use scout_audit.AuthFlow.Domain.{FnSummary, ParamInfo}
use scout_audit.AuthFlow.Places.Tables.{Keyed, lookup}
use scout_audit.AuthFlow.Analysis.{AuthFlowAnalysis}
use scout_audit.AuthFlow.Engine.{Results}
use scout_audit.AuthFlow.Functions.{MissingNewAdminAuth, same_summary, new_summary, replace, pass}
use scout_audit.AuthFlow.Functions.Slots.{slots, missing-Grows}
use scout_audit.AuthFlow.Functions.Support.{Grows-trans, IsSolver}
use scout_audit.AuthFlow.Functions.Step.{Keeps, Moves, stays, replace-Moves}

module _ (B : BitSet) (tcx : TyCtxt) (iterate_to_fixpoint : AuthFlowAnalysis B → Results B)
    (optimized_mir : ℕ → Option Body) (self : MissingNewAdminAuth) (reachable : List ℕ) where
  abbrev Step : Keyed ℕ (FnSummary B) → Bool → Keyed ℕ (FnSummary B) × Bool → Type 0
  Step = Moves B tcx iterate_to_fixpoint optimized_mir self reachable

  and_then_step :
      {s : Keyed ℕ (FnSummary B)} {b : Bool} {t u : Keyed ℕ (FnSummary B) × Bool}
      → Step s b t
      → Step t.0 t.1 u
      → Step s b u
  and_then_step {s} {b} {t} {u} one two = record {
    grows = Grows-trans B s t.0 u.0 one.grows two.grows;
    keeps = two.keeps;
    changed = λ h.
        let le = missing-Grows B s t.0 (slots self.params reachable) one.grows in
        let le' = missing-Grows B t.0 u.0 (slots self.params reachable) two.grows in
        ⊎_elim (λ f. ⊎_elim inl (λ lt. inr (omega arith)) (one.changed f)) (λ lt. inr (omega arith))
          (two.changed h);
    unchanged = λ h. let (f, e) = two.unchanged h in let (g, e') = one.unchanged f in (g, e ∙ e');
  }

  pub pass-Moves :
      (ds : List ℕ) (s : Keyed ℕ (FnSummary B)) (before : Bool)
      → IsSolver B tcx iterate_to_fixpoint optimized_mir self
      → ((d : ℕ) → Memᴰ d ds → Memᴰ d reachable)
      → Keeps B tcx iterate_to_fixpoint optimized_mir self reachable s
      → Step s before (pass B tcx iterate_to_fixpoint optimized_mir self ds s before)
  unfolding pass
  pass-Moves [] s before solver sub k =
      stays B tcx iterate_to_fixpoint optimized_mir self reachable s before k
  pass-Moves (d ∷ ds) s before solver sub k =
      let skip = pass-Moves ds s before solver (λ x m. sub x (Memᴰ.tail m)) k in
      elim (Option-cases (lookup nat_eq self.params d)) [
        | inl e ↦ rw (e, pass) skip
        | inr (ps, e) ↦ elim (Option-cases (optimized_mir d)) [
          | inl f ↦ rw (e, f, pass) skip
          | inr (body, f) ↦
              let one =
                replace-Moves B tcx iterate_to_fixpoint optimized_mir self reachable solver d ps
                  body e f s k before (sub d (Memᴰ.head refl)) in
              rw (e, f, pass)
                (and_then_step one
                  (pass-Moves ds _ _ solver (λ x m. sub x (Memᴰ.tail m)) one.keeps))
        ]
      ]

  -- the summary of this function, computed again, is the same
  abbrev pub IsSettled : Keyed ℕ (FnSummary B) → ℕ → Type 0
  IsSettled s d =
      (ps : List ParamInfo) (body : Body)
      → lookup nat_eq self.params d ≡ some ps
      → optimized_mir d ≡ some body
      → (f : FnSummary B) × (lookup nat_eq s d ≡ some f)
        × (same_summary B f (new_summary B tcx iterate_to_fixpoint optimized_mir self d ps body s)
            ≡ true)

  replace-settled :
      (d : ℕ) (f : FnSummary B) (s : Keyed ℕ (FnSummary B)) (before : Bool)
      → (replace B tcx iterate_to_fixpoint optimized_mir self d f s before).1 ≡ false
      → (old : FnSummary B) × (lookup nat_eq s d ≡ some old) × (same_summary B old f ≡ true)
  unfolding replace
  replace-settled d f s before h = elim (Option-cases (lookup nat_eq s d)) [
    | inl e ↦ absurd (false≢true (sym (rw (e, replace) at h)))
    | inr (old, e) ↦ elim (Bool-cases (same_summary B old f)) [
      | inl q ↦ (old, e, q)
      | inr q ↦ absurd (false≢true (sym (rw (e, q, replace) at h)))
    ]
  ]

  module _ (solver : IsSolver B tcx iterate_to_fixpoint optimized_mir self) where
    pass-replace :
        (d : ℕ) (ds : List ℕ) (s : Keyed ℕ (FnSummary B)) (before : Bool) (ps : List ParamInfo)
        (body : Body)
        → lookup nat_eq self.params d ≡ some ps
        → optimized_mir d ≡ some body
        → pass B tcx iterate_to_fixpoint optimized_mir self (d ∷ ds) s before ≡ (
            let r =
              replace B tcx iterate_to_fixpoint optimized_mir self d
                (new_summary B tcx iterate_to_fixpoint optimized_mir self d ps body s)
                s
                before in
            pass B tcx iterate_to_fixpoint optimized_mir self ds r.0 r.1)
    unfolding pass
    pass-replace d ds s before ps body e f = rw (e, f, pass) refl

    pass-skip :
        (d : ℕ) (ds : List ℕ) (s : Keyed ℕ (FnSummary B)) (before : Bool)
        → (lookup nat_eq self.params d ≡ none) ⊎ (optimized_mir d ≡ none)
        → pass B tcx iterate_to_fixpoint optimized_mir self (d ∷ ds) s before
          ≡ pass B tcx iterate_to_fixpoint optimized_mir self ds s before
    unfolding pass
    pass-skip d ds s before (inl e) = rw (e, pass) refl
    pass-skip d ds s before (inr f) = elim (Option-cases (lookup nat_eq self.params d)) [
      | inl e ↦ rw (e, pass) refl
      | inr (ps, e) ↦ rw (e, f, pass) refl
    ]

    IsSettled-at :
        (d : ℕ) (s : Keyed ℕ (FnSummary B)) (ps : List ParamInfo) (body : Body)
        → lookup nat_eq self.params d ≡ some ps
        → optimized_mir d ≡ some body
        → (f : FnSummary B) × (lookup nat_eq s d ≡ some f)
          × (same_summary B f (new_summary B tcx iterate_to_fixpoint optimized_mir self d ps body s)
              ≡ true)
        → IsSettled s d
    IsSettled-at d s ps body e f (old, q, same) qs other known local = (
      old,
      q,
      subst
          (λ x.
            same_summary B old (new_summary B tcx iterate_to_fixpoint optimized_mir self d qs x s)
            ≡ true)
          (some-injective _ _ (sym f ∙ local))
          (subst
            (λ x.
              same_summary B old
                (new_summary B tcx iterate_to_fixpoint optimized_mir self d x body s)
              ≡ true)
            (some-injective _ _ (sym e ∙ known)) same),
    )

    -- a pass that changes nothing leaves the first function settled, and is one over the others
    first-IsSettled :
        (d : ℕ) (ds : List ℕ) (s : Keyed ℕ (FnSummary B)) (before : Bool)
        → ((x : ℕ) → Memᴰ x (d ∷ ds) → Memᴰ x reachable)
        → Keeps B tcx iterate_to_fixpoint optimized_mir self reachable s
        → (pass B tcx iterate_to_fixpoint optimized_mir self (d ∷ ds) s before).1 ≡ false
        → IsSettled s d
          × ((b : Bool) × ((pass B tcx iterate_to_fixpoint optimized_mir self ds s b).1 ≡ false))
    first-IsSettled d ds s before sub k h = elim (Option-cases (lookup nat_eq self.params d)) [
      | inl e ↦ (
        λ ps body known. absurd (none-ne-some _ (sym e ∙ known)),
        (before, rw (pass-skip d ds s before (inl e)) at h),
      )
      | inr (ps, e) ↦ elim (Option-cases (optimized_mir d)) [
        | inl f ↦ (
          λ qs body known local. absurd (none-ne-some _ (sym f ∙ local)),
          (before, rw (pass-skip d ds s before (inr f)) at h),
        )
        | inr (body, f) ↦
            let fresh = new_summary B tcx iterate_to_fixpoint optimized_mir self d ps body s in
            let r = replace B tcx iterate_to_fixpoint optimized_mir self d fresh s before in
            let one =
              replace-Moves B tcx iterate_to_fixpoint optimized_mir self reachable solver d ps body
                e f s k before (sub d (Memᴰ.head refl)) in
            let h' =
              ap (λ (x : Keyed ℕ (FnSummary B) × Bool). x.1)
                (sym (pass-replace d ds s before ps body e f))
              ∙ h in
            let (rf, _) =
              (pass-Moves ds r.0 r.1 solver (λ x m. sub x (Memᴰ.tail m)) one.keeps).unchanged h' in
            let (_, same) = one.unchanged rf in
            (
              IsSettled-at d s ps body e f (replace-settled d fresh s before rf),
              (
                r.1,
                subst (λ x. (pass B tcx iterate_to_fixpoint optimized_mir self ds x r.1).1 ≡ false)
                    same h',
              ),
            )
      ]
    ]

    pub pass-IsSettled :
        (ds : List ℕ) (s : Keyed ℕ (FnSummary B)) (before : Bool)
        → ((x : ℕ) → Memᴰ x ds → Memᴰ x reachable)
        → Keeps B tcx iterate_to_fixpoint optimized_mir self reachable s
        → (pass B tcx iterate_to_fixpoint optimized_mir self ds s before).1 ≡ false
        → (d : ℕ) → Memᴰ d ds
        → IsSettled s d
    pass-IsSettled [] s before sub k h d m = absurd (Memᴰ.not-nil m)
    pass-IsSettled (x ∷ ds) s before sub k h d m =
        let (here, (b, h')) = first-IsSettled x ds s before sub k h in
        ⊎_elim (λ e. subst (IsSettled s) (sym e) here)
          (λ t. pass-IsSettled ds s b (λ y n. sub y (Memᴰ.tail n)) k h' d t) (Memᴰ.cases_cons m)
