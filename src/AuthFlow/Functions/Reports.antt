-- ===== src/AuthFlow/Functions/Reports.antt =====
-- The last loop over the functions, and the sinks that it reports.
use mathlib.Core.List.Memᴰ
use mathlib.Core.Option.{some-injective, none-ne-some}
use scout_audit.Base.{
  ℕ, ◌≡◌, refl, sym, ◌∙◌, ◌↔◌, inl, inr, ⊎_elim, Option, none, some, List, [], ◌∷◌, Memᴰ,
  Memᴰ-append, nat_eq, Option-cases, subst,
}
use scout_audit.AuthFlow.Mir.{BitSet, Span, Location, TyCtxt, Body}
use scout_audit.AuthFlow.Domain.{FnSummary, ParamInfo, Sink}
use scout_audit.AuthFlow.Places.Tables.{Keyed, lookup, Holds}
use scout_audit.AuthFlow.Analysis.{AuthFlowAnalysis}
use scout_audit.AuthFlow.Engine.{Results}
use scout_audit.AuthFlow.Summary.{analysis_of, lint_sinks_for_fn}
use scout_audit.AuthFlow.Summary.Warnings.{IsExposed, lint_sinks_for_fn-IsExposed}
use scout_audit.AuthFlow.Functions.{MissingNewAdminAuth, get_vec_slice, lint_pass}
use scout_audit.AuthFlow.Functions.Support.{IsSolver}

module _ (B : BitSet) (tcx : TyCtxt) (iterate_to_fixpoint : AuthFlowAnalysis B → Results B)
    (optimized_mir : ℕ → Option Body) (self : MissingNewAdminAuth)
    (hash_order : Keyed Location (List Sink) → Keyed Location (List Sink))
    (s : Keyed ℕ (FnSummary B)) (span : Span) where
  -- a sink of this function is exposed, and has this span
  abbrev Exposes : ℕ → List ParamInfo → Body → Type 0
  Exposes d ps body =
      (sink : Sink) × Memᴰ sink (get_vec_slice self.sinks d)
      × (sink.span ≡ span)
      × IsExposed B
          (analysis_of B tcx body ps (get_vec_slice self.auth_events d)
            (get_vec_slice self.call_sites d) s)
          sink

  -- the function's parameters and its body are known, and it exposes a sink
  abbrev pub IsReportedFor : ℕ → Type 0
  IsReportedFor d =
      (ps : List ParamInfo) × (body : Body) × (lookup nat_eq self.params d ≡ some ps)
      × (optimized_mir d ≡ some body)
      × Exposes d ps body

  abbrev warnings_of : ℕ → List Span
  warnings_of d = elim (lookup nat_eq self.params d) [
    | none ↦ []
    | some params ↦ elim (optimized_mir d) [
      | none ↦ []
      | some body ↦
          lint_sinks_for_fn B tcx iterate_to_fixpoint hash_order body params
            (get_vec_slice self.auth_events d) (get_vec_slice self.sinks d)
            (get_vec_slice self.call_sites d) s
    ]
  ]

  mem-warnings_of :
      (d : ℕ)
      → IsSolver B tcx iterate_to_fixpoint optimized_mir self
      → ((table : Keyed Location (List Sink)) (loc : Location) (sink : Sink)
          → Holds loc sink (hash_order table) ↔ Holds loc sink table)
      → Memᴰ span (warnings_of d) ↔ IsReportedFor d
  unfolding IsSolver
  mem-warnings_of d solver walk = elim (Option-cases (lookup nat_eq self.params d)) [
    | inl e ↦ (
      λ m. absurd (Memᴰ.not-nil (rw (e, warnings_of) at m)),
      λ (ps, body, known, _, _). absurd (none-ne-some _ (sym e ∙ known)),
    )
    | inr (ps, e) ↦ elim (Option-cases (optimized_mir d)) [
      | inl f ↦ (
        λ m. absurd (Memᴰ.not-nil (rw (e, f, warnings_of) at m)),
        λ (qs, body, _, local, _). absurd (none-ne-some _ (sym f ∙ local)),
      )
      | inr (body, f) ↦
          let (to, from) =
            lint_sinks_for_fn-IsExposed B tcx iterate_to_fixpoint hash_order body ps
              (get_vec_slice self.auth_events d) (get_vec_slice self.sinks d)
              (get_vec_slice self.call_sites d) s span walk (solver d ps body s e f) in
          rw (e, f, warnings_of)
            (
              λ m. (ps, body, refl, refl, to m),
              λ (qs, other, known, local, x). from (
                  subst (λ y. Exposes d ps y) (sym (some-injective _ _ local))
                    (subst (λ y. Exposes d y other) (sym (some-injective _ _ known)) x)),
            )
    ]
  ]

  -- What the engine is relied on for given for the functions of the crate, and a walk of a map that
  -- meets the entries that are in it, the spans that the last loop reports are exactly those of the
  -- exposed sinks of the functions it goes over whose parameters and body are known.
  pub mem-lint_pass :
      (reachable : List ℕ)
      → IsSolver B tcx iterate_to_fixpoint optimized_mir self
      → ((table : Keyed Location (List Sink)) (loc : Location) (sink : Sink)
          → Holds loc sink (hash_order table) ↔ Holds loc sink table)
      → Memᴰ span (lint_pass B tcx iterate_to_fixpoint optimized_mir self hash_order reachable s)
        ↔ ((d : ℕ) × Memᴰ d reachable × IsReportedFor d)
  unfolding lint_pass
  mem-lint_pass [] solver walk =
      (λ m. absurd (Memᴰ.not-nil m), λ (d, m, _). absurd (Memᴰ.not-nil m))
  mem-lint_pass (x ∷ reachable) solver walk =
      let here = mem-warnings_of x solver walk in
      let there = mem-lint_pass reachable solver walk in
      let split =
        Memᴰ-append span (warnings_of x)
          (lint_pass B tcx iterate_to_fixpoint optimized_mir self hash_order reachable s) in
      (
        λ m.
            ⊎_elim (λ n. (x, Memᴰ.head refl, here.0 n))
              (λ n. let (d, k, r) = there.0 n in (d, Memᴰ.tail k, r)) (split.0 m),
        λ (d, m, r). split.1 (
            ⊎_elim (λ q. inl (here.1 (subst IsReportedFor q r))) (λ k. inr (there.1 (d, k, r)))
              (Memᴰ.cases_cons m)),
      )
