-- ===== src/AuthFlow/Crate/Warned.antt =====
-- `check_crate_post` against the sinks of the functions that entry points reach.
use mathlib.Core.Bool.{false≢true}
use mathlib.Core.List.Memᴰ
use mathlib.Core.Option.{some-injective}
use scout_audit.Base.{
  ℕ, suc, ◌≡◌, refl, sym, ◌∙◌, ap, subst, ◌↔◌, ◌⊎◌, inl, inr, ⊎_elim, String, true, false, Option,
  some, List, [], ◌∷◌, ◌++◌, Memᴰ, Memᴰ-append, map, Bool-cases, length, arith,
}
use scout_audit.Graph.Walk.Correct.{Reach}
use scout_audit.AuthFlow.Mir.{BitSet, Span, Location, TyCtxt, Body}
use scout_audit.AuthFlow.Domain.{Sink, FnSummary}
use scout_audit.AuthFlow.Places.Tables.{Keyed, Holds}
use scout_audit.AuthFlow.Analysis.{AuthFlowAnalysis}
use scout_audit.AuthFlow.Engine.{Results}
use scout_audit.AuthFlow.Functions.{MissingNewAdminAuth, lint_pass}
use scout_audit.AuthFlow.Functions.Slots.{slots}
use scout_audit.AuthFlow.Functions.Support.{IsSolver}
use scout_audit.AuthFlow.Functions.Stops.{IsExact, summaries_loop-IsExact}
use scout_audit.AuthFlow.Functions.Reports.{IsReportedFor, mem-lint_pass}
use scout_audit.AuthFlow.Entries.Reached.{callees_of, pending, reach_loop-Reach}
use scout_audit.AuthFlow.Crate.{
  is_soroban_function, summaries_of, check_functions, check_crate_post,
}

module _ (B : BitSet) (tcx : TyCtxt) (iterate_to_fixpoint : AuthFlowAnalysis B → Results B)
    (optimized_mir : ℕ → Option Body) (self : MissingNewAdminAuth)
    (set_order : List ℕ → List ℕ) where
  abbrev Found : Type 0
  Found = List ℕ × Keyed ℕ (FnSummary B)

  -- what an entry point reaches by calls, and exact summaries of it
  unfoldable pub IsAnalysed : ℕ → Found → Type 0
  IsAnalysed d found =
      ((f : ℕ) → Memᴰ f found.0 ↔ Reach (callees_of self) d f)
      × ((f : ℕ)
          → Memᴰ f found.0
          → IsExact B tcx iterate_to_fixpoint optimized_mir self found.0 found.1 f)

  summaries_of-IsAnalysed :
      (d : ℕ)
      → IsSolver B tcx iterate_to_fixpoint optimized_mir self
      → ((set : List ℕ) (f : ℕ) → Memᴰ f (set_order set) ↔ Memᴰ f set)
      → (found : Found) × (summaries_of B tcx iterate_to_fixpoint optimized_mir self set_order d
          ≡ some found)
        × IsAnalysed d found
  unfolding summaries_of IsAnalysed
  summaries_of-IsAnalysed d solver walk =
      let (set, e, reached) =
        reach_loop-Reach self d (suc (suc (suc (pending self.function_call_graph []))))
          (omega arith) in
      let (s, h, exact) =
        summaries_loop-IsExact B tcx iterate_to_fixpoint optimized_mir self (set_order set)
          (suc (length (slots self.params (set_order set)))) (omega arith) solver in
      (
        (set_order set, s),
        rw (e, h) refl,
        (
          λ f. (λ m. (reached f).0 ((walk set f).0 m), λ r. (walk set f).1 ((reached f).1 r)),
          exact,
        ),
      )

  module _ (hash_order : Keyed Location (List Sink) → Keyed Location (List Sink))
      (def_path_str : ℕ → String) where
    -- this function is an entry point, and reaches a function that exposes a sink of this span
    unfoldable pub WarnsFor : List String → ℕ → Span → Type 0
    WarnsFor checked_names d span =
        (found : Found) × (f : ℕ) × (is_soroban_function def_path_str checked_names d ≡ true)
        × (summaries_of B tcx iterate_to_fixpoint optimized_mir self set_order d ≡ some found)
        × IsAnalysed d found
        × Reach (callees_of self) d f
        × IsReportedFor B tcx iterate_to_fixpoint optimized_mir self hash_order found.1 span f

    -- one of these functions warns
    abbrev pub IsWarned : List String → List (String × ℕ) → Span → Type 0
    IsWarned checked_names functions span =
        (name : String) × (d : ℕ) × Memᴰ (name, d) functions × WarnsFor checked_names d span

    IsWarned-cons :
        (names : List String) (name : String) (d : ℕ) (rest : List (String × ℕ)) (span : Span)
        → IsWarned names ((name, d) ∷ rest) span
          ↔ (WarnsFor names d span ⊎ IsWarned names rest span)
    IsWarned-cons names name d rest span = (
      λ (n, e, m, w).
          ⊎_elim (λ q. inl (subst (λ x. WarnsFor names x span) (ap (λ (x : String × ℕ). x.1) q) w))
            (λ k. inr (n, e, k, w)) (Memᴰ.cases_cons m),
      ⊎_elim (λ w. (name, d, Memᴰ.head refl, w)) (λ (n, e, m, w). (n, e, Memᴰ.tail m, w)),
    )

    WarnsFor-lint_pass :
        (names : List String) (d : ℕ) (span : Span) (found : Found)
        → IsSolver B tcx iterate_to_fixpoint optimized_mir self
        → ((table : Keyed Location (List Sink)) (loc : Location) (sink : Sink)
            → Holds loc sink (hash_order table) ↔ Holds loc sink table)
        → is_soroban_function def_path_str names d ≡ true
        → summaries_of B tcx iterate_to_fixpoint optimized_mir self set_order d ≡ some found
        → IsAnalysed d found
        → Memᴰ span
            (lint_pass B tcx iterate_to_fixpoint optimized_mir self hash_order found.0 found.1)
          ↔ WarnsFor names d span
    unfolding WarnsFor IsAnalysed
    WarnsFor-lint_pass names d span found solver walk h e analysed =
        let reports =
          mem-lint_pass B tcx iterate_to_fixpoint optimized_mir self hash_order found.1 span found.0
            solver walk in
        (
          λ m. let (f, k, r) = reports.0 m in (found, f, h, e, analysed, (analysed.0 f).0 k, r),
          λ (other, f, _, e', _, r, w). reports.1 (
            f,
            (analysed.0 f).1 r,
            subst
                (λ (x : Found).
                  IsReportedFor B tcx iterate_to_fixpoint optimized_mir self hash_order x.1 span f)
                (some-injective _ _ (sym e' ∙ e)) w,
          ),
        )

    not-WarnsFor :
        (names : List String) (d : ℕ) (span : Span)
        → is_soroban_function def_path_str names d ≡ false
        → ¬ WarnsFor names d span
    unfolding WarnsFor
    not-WarnsFor names d span h (_, _, h', _, _, _, _) = false≢true (sym h ∙ h')

    check_functions-IsWarned :
        (names : List String) (functions : List (String × ℕ))
        → IsSolver B tcx iterate_to_fixpoint optimized_mir self
        → ((set : List ℕ) (f : ℕ) → Memᴰ f (set_order set) ↔ Memᴰ f set)
        → ((table : Keyed Location (List Sink)) (loc : Location) (sink : Sink)
            → Holds loc sink (hash_order table) ↔ Holds loc sink table)
        → (spans : List Span) × (check_functions B tcx iterate_to_fixpoint optimized_mir self
              set_order hash_order def_path_str names functions
            ≡ some spans)
          × ((span : Span) → Memᴰ span spans ↔ IsWarned names functions span)
    unfolding check_functions
    check_functions-IsWarned names [] solver order walk =
        ([], refl, λ span. (λ m. absurd (Memᴰ.not-nil m), λ (_, _, m, _). absurd (Memᴰ.not-nil m)))
    check_functions-IsWarned names ((name, d) ∷ rest) solver order walk =
        let (spans, e, later) = check_functions-IsWarned names rest solver order walk in
        elim (Bool-cases (is_soroban_function def_path_str names d)) [
          | inr h ↦ (
            spans,
            rw h e,
            λ span.
                let (to, from) = IsWarned-cons names name d rest span in
                (
                  λ m. from (inr ((later span).0 m)),
                  λ w.
                      (later span).1
                        (⊎_elim (λ x. absurd (not-WarnsFor names d span h x)) (λ x. x) (to w)),
                ),
          )
          | inl h ↦
              let (found, g, analysed) = summaries_of-IsAnalysed d solver order in
              let here =
                lint_pass B tcx iterate_to_fixpoint optimized_mir self hash_order found.0 found.1 in
              (
                here ++ spans,
                rw (h, e, g) refl,
                λ span.
                    let (to, from) = IsWarned-cons names name d rest span in
                    let split = Memᴰ-append span here spans in
                    let own = WarnsFor-lint_pass names d span found solver walk h g analysed in
                    (
                      λ m.
                          from
                            (⊎_elim (λ x. inl (own.0 x)) (λ x. inr ((later span).0 x)) (split.0 m)),
                      λ w.
                          split.1
                            (⊎_elim (λ x. inl (own.1 x)) (λ x. inr ((later span).1 x)) (to w)),
                    ),
              )
        ]

    -- What the engine is relied on for given for the functions of the crate, and walks of sets and
    -- maps that meet what is in them, `check_crate_post` ends, and the spans that it reports are
    -- exactly those of the exposed sinks of the functions that entry points reach by calls, the
    -- summaries of the functions that one entry point reaches being exact.
    pub check_crate_post-IsWarned :
        IsSolver B tcx iterate_to_fixpoint optimized_mir self
        → ((set : List ℕ) (f : ℕ) → Memᴰ f (set_order set) ↔ Memᴰ f set)
        → ((table : Keyed Location (List Sink)) (loc : Location) (sink : Sink)
            → Holds loc sink (hash_order table) ↔ Holds loc sink table)
        → (spans : List Span) × (check_crate_post B tcx iterate_to_fixpoint optimized_mir self
              set_order hash_order def_path_str
            ≡ some spans)
          × ((span : Span)
              → Memᴰ span spans
                ↔ IsWarned
                    (map (λ (f : String × ℕ). f.0) self.checked_functions)
                    self.checked_functions
                    span)
    unfolding check_crate_post
    check_crate_post-IsWarned =
        check_functions-IsWarned (map (λ (f : String × ℕ). f.0) self.checked_functions)
          self.checked_functions
