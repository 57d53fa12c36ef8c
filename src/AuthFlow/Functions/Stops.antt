-- ===== src/AuthFlow/Functions/Stops.antt =====
-- The end of the loop over the summaries, and the summaries that it leaves.
use mathlib.Core.Bool.{false≢true}
use mathlib.Core.List.Memᴰ
use mathlib.Core.Option.{none-ne-some}
use scout_audit.Base.{
  ℕ, zero, suc, ◌≤◌, ◌<◌, ◌≡◌, refl, sym, ◌∙◌, ap, ◌↔◌, ◌⊎◌, inl, inr, ⊎_elim, true, false, Option,
  some, List, [], ◌∷◌, Memᴰ, nat_eq, nat_eq_iff, Option-cases, Bool-cases, arith, length,
}
use scout_audit.AuthFlow.Mir.{BitSet, TyCtxt, Body}
use scout_audit.AuthFlow.Domain.{
  FnSummary, Signer, param, current_admin, promised, empty, ParamInfo,
}
use scout_audit.AuthFlow.Places.Tables.{Keyed, lookup, put}
use scout_audit.AuthFlow.Analysis.{AuthFlowAnalysis}
use scout_audit.AuthFlow.Analysis.Effects.{starts}
use scout_audit.AuthFlow.Engine.{Results}
use scout_audit.AuthFlow.Summary.{analysis_of}
use scout_audit.AuthFlow.Summary.Promises.{SignsOnExit, compute_summary_for_fn-promised}
use scout_audit.AuthFlow.Summary.Monotone.{promised_in}
use scout_audit.AuthFlow.Functions.{
  MissingNewAdminAuth, get_vec_slice, same_summary, initial_summaries, new_summary, pass,
  summaries_loop,
}
use scout_audit.AuthFlow.Functions.Slots.{Slot, slots, missing}
use scout_audit.AuthFlow.Functions.Support.{
  lookup-put, promised_in-put, IsSolver, IsSupported, IsPresent,
}
use scout_audit.AuthFlow.Functions.Step.{Keeps}
use scout_audit.AuthFlow.Functions.Passes.{IsSettled, pass-Moves, pass-IsSettled}

module _ (B : BitSet) (tcx : TyCtxt) (iterate_to_fixpoint : AuthFlowAnalysis B → Results B)
    (optimized_mir : ℕ → Option Body) (self : MissingNewAdminAuth) (reachable : List ℕ) where
  -- The loop returns summaries that it would not change.
  abbrev Stops : Option (Keyed ℕ (FnSummary B)) → Type 0
  Stops result =
      (s : Keyed ℕ (FnSummary B)) × (result ≡ some s)
      × ((d : ℕ)
          → Memᴰ d reachable
          → IsSettled B tcx iterate_to_fixpoint optimized_mir self reachable s d)

  loop-Stops :
      (fuel : ℕ) (s : Keyed ℕ (FnSummary B))
      → IsSolver B tcx iterate_to_fixpoint optimized_mir self
      → Keeps B tcx iterate_to_fixpoint optimized_mir self reachable s
      → missing B s (slots self.params reachable) < fuel
      → Stops (summaries_loop B tcx iterate_to_fixpoint optimized_mir self fuel reachable s)
  unfolding summaries_loop
  loop-Stops zero s solver k lt = absurd (omega arith)
  loop-Stops (suc fuel) s solver k lt =
      let moves =
        pass-Moves B tcx iterate_to_fixpoint optimized_mir self reachable reachable s false solver
          (λ x m. m) k in
      elim (Bool-cases (pass B tcx iterate_to_fixpoint optimized_mir self reachable s false).1) [
        | inl e ↦ rw (e) (
            loop-Stops fuel _ solver moves.keeps
              (⊎_elim (λ f. absurd (false≢true f)) (λ less. omega arith) (moves.changed e)))
        | inr e ↦ rw (e) (
          s,
          ap some (moves.unchanged e).1,
          pass-IsSettled B tcx iterate_to_fixpoint optimized_mir self reachable solver reachable s
              false (λ x m. m) k e,
        )
      ]

  promised-empty : (n : ℕ) (w : Signer) → promised B w (empty B n) ≡ false
  unfolding empty
  promised-empty n (param p) = B.contains-new_empty n p
  promised-empty n current_admin = refl

  -- at first nothing is promised, and every function has a summary
  abbrev IsBlank : Keyed ℕ (FnSummary B) → Type 0
  IsBlank s = (d : ℕ) (w : Signer) → promised_in B s d w ≡ false

  initial-IsBlank :
      (ds : List ℕ) (s : Keyed ℕ (FnSummary B))
      → IsBlank s
      → IsBlank (initial_summaries B tcx iterate_to_fixpoint optimized_mir self ds s)
  unfolding initial_summaries
  initial-IsBlank [] s k = k
  initial-IsBlank (x ∷ ds) s k = elim (Option-cases (lookup nat_eq self.params x)) [
    | inl e ↦ rw (e, initial_summaries) (initial-IsBlank ds s k)
    | inr (ps, e) ↦ rw (e, initial_summaries) (initial-IsBlank ds _ (blank_put s x (length ps) k))
  ]
    where
      blank_put :
          (s : Keyed ℕ (FnSummary B)) (x n : ℕ) → IsBlank s → IsBlank (put nat_eq s x (empty B n))
      blank_put s x n k d w =
          promised_in-put B s x (empty B n) d w
          ∙ ⊎_elim (λ q. rw q (promised-empty n w)) (λ q. rw q (k d w)) (Bool-cases (nat_eq x d))

  initial-IsPresent :
      (ds : List ℕ) (s : Keyed ℕ (FnSummary B)) (d : ℕ) (ps : List ParamInfo)
      → Memᴰ d ds ⊎ ((f : FnSummary B) × (lookup nat_eq s d ≡ some f))
      → lookup nat_eq self.params d ≡ some ps
      → (f : FnSummary B) × (lookup nat_eq
            (initial_summaries B tcx iterate_to_fixpoint optimized_mir self ds s)
            d
          ≡ some f)
  unfolding initial_summaries
  initial-IsPresent [] s d ps (inl m) e = absurd (Memᴰ.not-nil m)
  initial-IsPresent [] s d ps (inr f) e = f
  initial-IsPresent (x ∷ ds) s d ps m e = elim (Option-cases (lookup nat_eq self.params x)) [
    | inl f ↦
        rw (f, initial_summaries)
          (initial-IsPresent ds s d ps
            (⊎_elim
              (λ n.
                ⊎_elim
                  (λ q.
                    absurd (none-ne-some _ (sym f ∙ ap (lookup nat_eq self.params) (sym q) ∙ e)))
                  inl (Memᴰ.cases_cons n))
              inr m)
            e)
    | inr (qs, f) ↦
        rw (f, initial_summaries)
          (initial-IsPresent ds _ d ps
            (elim (Bool-cases (nat_eq x d)) [
              | inl q ↦
                  inr (empty B (length qs), lookup-put s x (empty B (length qs)) d ∙ rw q refl)
              | inr q ↦
                  ⊎_elim
                    (λ n.
                      ⊎_elim (λ same. absurd (false≢true (sym q ∙ (nat_eq_iff x d).1 (sym same))))
                        inl (Memᴰ.cases_cons n))
                    (λ (g, h). inr (g, lookup-put s x (empty B (length qs)) d ∙ rw q h)) m
            ])
            e)
  ]

  initial-Keeps :
      Keeps B tcx iterate_to_fixpoint optimized_mir self reachable
        (initial_summaries B tcx iterate_to_fixpoint optimized_mir self reachable [])
  unfolding IsSupported IsPresent promised_in
  initial-Keeps = (
    λ d ps body w _ _ h.
        absurd (false≢true (sym (initial-IsBlank reachable [] (λ d w. refl) d w) ∙ h)),
    λ d ps m e. initial-IsPresent reachable [] d ps (inl m) e,
  )

  same_summary-promised :
      (f g : FnSummary B) (w : Signer) → same_summary B f g ≡ true → promised B w f ≡ promised B w g
  same_summary-promised f g (param p) h =
      (B.same_iff f.must_auth_params g.must_auth_params).0 (ground arith) p
  same_summary-promised f g current_admin h = ground arith

  missing-length : (s : Keyed ℕ (FnSummary B)) (all : List Slot) → missing B s all ≤ length all
  unfolding missing
  missing-length s [] = omega arith
  missing-length s ((d, w) ∷ all) = ground (arith, missing-length s all)

  -- what the summary of this function promises is what holds on every run of it
  unfoldable pub IsExact : Keyed ℕ (FnSummary B) → ℕ → Type 0
  IsExact s d =
      (ps : List ParamInfo) (body : Body) (w : Signer)
      → lookup nat_eq self.params d ≡ some ps
      → optimized_mir d ≡ some body
      → (promised_in B s d w ≡ true) ↔ (
          (starts ps w ≡ true)
          × SignsOnExit B
              (analysis_of B tcx body ps (get_vec_slice self.auth_events d)
                (get_vec_slice self.call_sites d) s)
              w)

  settled-IsExact :
      (s : Keyed ℕ (FnSummary B)) (d : ℕ)
      → IsSolver B tcx iterate_to_fixpoint optimized_mir self
      → IsSettled B tcx iterate_to_fixpoint optimized_mir self reachable s d
      → IsExact s d
  unfolding IsExact IsSolver promised_in new_summary
  settled-IsExact s d solver settled ps body w known local =
      let (f, e, same) = settled ps body known local in
      rw (e, promised_in)
        (rw
          (same_summary-promised f
            (new_summary B tcx iterate_to_fixpoint optimized_mir self d ps body s) w same)
          (compute_summary_for_fn-promised B tcx iterate_to_fixpoint body ps
            (get_vec_slice self.auth_events d) (get_vec_slice self.call_sites d) s w
            (solver d ps body s known local)))

  -- What the engine is relied on for given for the functions of the crate, the loop over the
  -- summaries ends within as many turns as there are signers of the functions that are reachable, and
  -- one more; each summary of such a function then promises of exactly those signers that they have
  -- signed who are to sign, and who sign on every run to an exit, calls counting as the summaries say.
  pub summaries_loop-IsExact :
      (fuel : ℕ)
      → length (slots self.params reachable) < fuel
      → IsSolver B tcx iterate_to_fixpoint optimized_mir self
      → (s : Keyed ℕ (FnSummary B)) × (summaries_loop B tcx iterate_to_fixpoint optimized_mir self
            fuel reachable
            (initial_summaries B tcx iterate_to_fixpoint optimized_mir self reachable [])
          ≡ some s)
        × ((d : ℕ) → Memᴰ d reachable → IsExact s d)
  summaries_loop-IsExact fuel enough solver =
      let start = initial_summaries B tcx iterate_to_fixpoint optimized_mir self reachable [] in
      let few = missing-length start (slots self.params reachable) in
      let (s, e, settled) = loop-Stops fuel start solver initial-Keeps (omega arith) in
      (s, e, λ d m. settled-IsExact s d solver (settled d m))
