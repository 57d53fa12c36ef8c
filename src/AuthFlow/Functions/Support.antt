-- ===== src/AuthFlow/Functions/Support.antt =====
-- What is kept while the summaries are computed again and again.
use scout_audit.Base.{
  ℕ, ◌≡◌, refl, inl, inr, true, Option, some, List, [], ◌∷◌, Memᴰ, nat_eq, Bool-cases, arith,
  length, if◌then◌else◌,
}
use scout_audit.AuthFlow.Mir.{BitSet, TyCtxt, Body}
use scout_audit.AuthFlow.Domain.{FnSummary, Signer, promised, ParamInfo}
use scout_audit.AuthFlow.Places.Tables.{Keyed, lookup, put}
use scout_audit.AuthFlow.Analysis.{AuthFlowAnalysis}
use scout_audit.AuthFlow.Engine.{Results, IsFixpoint}
use scout_audit.AuthFlow.Summary.{analysis_of}
use scout_audit.AuthFlow.Summary.Promises.{compute_summary_for_fn-promised}
use scout_audit.AuthFlow.Summary.Monotone.{promised_in, Grows, compute_summary_for_fn-Grows}
use scout_audit.AuthFlow.Functions.{MissingNewAdminAuth, get_vec_slice, new_summary}
use scout_audit.AuthFlow.Functions.Slots.{IsInRange}
use scout_audit.AuthFlow.Functions.Differ.{starts-IsInRange}

pub lookup-put {ℓ} :
    {V : Type ℓ} (m : Keyed ℕ V) (k : ℕ) (v : V) (j : ℕ)
    → lookup nat_eq (put nat_eq m k v) j ≡ (if nat_eq k j then some v else lookup nat_eq m j)
lookup-put [] k v j = refl
lookup-put ((i, w) ∷ m) k v j = ground (arith, lookup-put m k v j)

module _ (B : BitSet) where
  pub promised_in-put :
      (s : Keyed ℕ (FnSummary B)) (d : ℕ) (f : FnSummary B) (e : ℕ) (w : Signer)
      → promised_in B (put nat_eq s d f) e w
        ≡ (if nat_eq d e then promised B w f else promised_in B s e w)
  unfolding promised_in
  promised_in-put s d f e w = elim (Bool-cases (nat_eq d e)) [
    | inl q ↦ rw (lookup-put s d f e, q, promised_in) refl
    | inr q ↦ rw (lookup-put s d f e, q, promised_in) refl
  ]

  pub Grows-refl : (s : Keyed ℕ (FnSummary B)) → Grows B s s
  unfolding Grows
  Grows-refl s d w h = h

  pub Grows-trans : (a b c : Keyed ℕ (FnSummary B)) → Grows B a b → Grows B b c → Grows B a c
  unfolding Grows
  Grows-trans a b c g h d w p = h d w (g d w p)

module _ (B : BitSet) (tcx : TyCtxt) (iterate_to_fixpoint : AuthFlowAnalysis B → Results B)
    (optimized_mir : ℕ → Option Body) (self : MissingNewAdminAuth) where
  -- what the engine is relied on for, for each function of the crate
  unfoldable pub IsSolver : Type 0
  IsSolver =
      (d : ℕ) (ps : List ParamInfo) (body : Body) (s : Keyed ℕ (FnSummary B))
      → lookup nat_eq self.params d ≡ some ps
      → optimized_mir d ≡ some body
      → IsFixpoint B
          (analysis_of B tcx body ps (get_vec_slice self.auth_events d)
            (get_vec_slice self.call_sites d) s)
          (iterate_to_fixpoint (
            analysis_of B tcx body ps (get_vec_slice self.auth_events d)
              (get_vec_slice self.call_sites d) s))

  -- each promise is one that the function, computed again, still makes
  unfoldable pub IsSupported : Keyed ℕ (FnSummary B) → Type 0
  IsSupported s =
      (d : ℕ) (ps : List ParamInfo) (body : Body) (w : Signer)
      → lookup nat_eq self.params d ≡ some ps
      → optimized_mir d ≡ some body
      → promised_in B s d w ≡ true
      → promised B w (new_summary B tcx iterate_to_fixpoint optimized_mir self d ps body s) ≡ true

  -- each function with known parameters has a summary
  unfoldable pub IsPresent : List ℕ → Keyed ℕ (FnSummary B) → Type 0
  IsPresent reachable s =
      (d : ℕ) (ps : List ParamInfo)
      → Memᴰ d reachable
      → lookup nat_eq self.params d ≡ some ps
      → (f : FnSummary B) × (lookup nat_eq s d ≡ some f)

  pub new_summary-Grows :
      (d : ℕ) (ps : List ParamInfo) (body : Body) (old new : Keyed ℕ (FnSummary B)) (w : Signer)
      → IsSolver
      → lookup nat_eq self.params d ≡ some ps
      → optimized_mir d ≡ some body
      → Grows B old new
      → promised B w (new_summary B tcx iterate_to_fixpoint optimized_mir self d ps body old) ≡ true
      → promised B w (new_summary B tcx iterate_to_fixpoint optimized_mir self d ps body new) ≡ true
  unfolding IsSolver new_summary
  new_summary-Grows d ps body old new w solver e m g h =
      compute_summary_for_fn-Grows B tcx iterate_to_fixpoint body ps
        (get_vec_slice self.auth_events d) (get_vec_slice self.call_sites d) old new w
        (λ s. solver d ps body s e m) g h

  pub new_summary-IsInRange :
      (d : ℕ) (ps : List ParamInfo) (body : Body) (s : Keyed ℕ (FnSummary B)) (w : Signer)
      → IsSolver
      → lookup nat_eq self.params d ≡ some ps
      → optimized_mir d ≡ some body
      → promised B w (new_summary B tcx iterate_to_fixpoint optimized_mir self d ps body s) ≡ true
      → IsInRange (length ps) w
  unfolding IsSolver new_summary
  new_summary-IsInRange d ps body s w solver e m h =
      starts-IsInRange ps w
        ((compute_summary_for_fn-promised B tcx iterate_to_fixpoint body ps
            (get_vec_slice self.auth_events d) (get_vec_slice self.call_sites d) s w
            (solver d ps body s e m)).0
          h).0
