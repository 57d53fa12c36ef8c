-- ===== src/AuthFlow/Summary/Warnings.antt =====
-- Which sinks are reported, against the runs that come to them.
use mathlib.Core.Bool.{false≢true}
use mathlib.Core.List.Memᴰ
use mathlib.Core.Option.{some-injective, none-ne-some}
use scout_audit.Base.{
  ℕ, ◌≡◌, refl, sym, ◌∙◌, ap, subst, ◌↔◌, ◌⊎◌, inl, inr, ⊎_elim, Bool, true, false, ◌||◌, Option,
  none, some, List, [], ◌∷◌, Memᴰ, Memᴰ-append, Option-cases, arith, if◌then◌else◌, filter_map,
}
use scout_audit.AuthFlow.Mir.{BitSet, Span, Location, TyCtxt, Body, same_location}
use scout_audit.AuthFlow.Domain.{
  AuthDomain, FnSummary, param, current_admin, unsigned, ParamInfo, AuthEvent, CallSite, Sink,
}
use scout_audit.AuthFlow.Places.Tables.{Keyed, Holds, Holds-push_at, not-Holds-nil}
use scout_audit.AuthFlow.Places.{find_best_location_for_event, map_sinks_to_locations}
use scout_audit.AuthFlow.Places.InBody.{same_location_iff, find_best_location_for_event-in_body}
use scout_audit.AuthFlow.Analysis.{AuthFlowAnalysis}
use scout_audit.AuthFlow.Engine.{IsFixpoint, Results}
use scout_audit.AuthFlow.Engine.Paths.{Unsigned}
use scout_audit.AuthFlow.Engine.Exact.{before-Unsigned}
use scout_audit.AuthFlow.Summary.{lint_sink, lint_loop, analysis_of, lint_sinks_for_fn}

mem-filter_map {ℓ κ} :
    {A : Type ℓ} {C : Type κ} (f : A → Option C) (c : C) (xs : List A)
    → Memᴰ c (filter_map f xs) ↔ ((a : A) × Memᴰ a xs × (f a ≡ some c))
mem-filter_map f c [] = (λ m. absurd (Memᴰ.not-nil m), λ (a, m, _). absurd (Memᴰ.not-nil m))
mem-filter_map f c (x ∷ xs) = elim (Option-cases (f x)) [
  | inl e ↦
      rw (e, filter_map)
        (
          λ m. let (a, k, h) = (mem-filter_map f c xs).0 m in (a, Memᴰ.tail k, h),
          λ (a, m, h).
              ⊎_elim (λ q. absurd (none-ne-some _ (sym e ∙ ap f (sym q) ∙ h)))
                (λ k. (mem-filter_map f c xs).1 (a, k, h)) (Memᴰ.cases_cons m),
        )
  | inr (d, e) ↦
      rw (e, filter_map)
        (
          λ m.
              ⊎_elim (λ q. (x, Memᴰ.head refl, e ∙ ap some (sym q)))
                (λ k. let (a, n, h) = (mem-filter_map f c xs).0 k in (a, Memᴰ.tail n, h))
                (Memᴰ.cases_cons m),
          λ (a, m, h).
              ⊎_elim (λ q. Memᴰ.head (some-injective _ _ (sym h ∙ ap f q ∙ e)))
                (λ k. Memᴰ.tail ((mem-filter_map f c xs).1 (a, k, h))) (Memᴰ.cases_cons m),
        )
]

some_if :
    {A : Type 0} (c : Bool) (x y : A)
    → ((if c then some x else none) ≡ some y) ↔ ((c ≡ true) × (x ≡ y))
some_if true x y = (λ h. (refl, some-injective _ _ h), λ (_, e). ap some e)
some_if false x y = (λ h. absurd (none-ne-some _ h), λ (e, _). absurd (false≢true e))

or_cases : (a b : Bool) → ((a || b) ≡ true) ↔ ((a ≡ true) ⊎ (b ≡ true))
or_cases a b = ground arith

module _ (B : BitSet) where
  -- this sink, at this location, is what the span is reported for
  abbrev ReportedAt : Results B → Span → Location → Sink → Type 0
  ReportedAt r span loc sink = lint_sink B (r.before loc) sink ≡ some span

  mem-lint_loop :
      (r : Results B) (table : Keyed Location (List Sink)) (span : Span)
      → Memᴰ span (lint_loop B r table)
        ↔ ((loc : Location) × (sink : Sink) × Holds loc sink table × ReportedAt r span loc sink)
  unfolding lint_loop Holds
  mem-lint_loop r [] span =
      (λ m. absurd (Memᴰ.not-nil m), λ (loc, sink, (vs, m, _), _). absurd (Memᴰ.not-nil m))
  mem-lint_loop r ((l, sinks) ∷ table) span =
      let here = mem-filter_map (lint_sink B (r.before l)) span sinks in
      let there = mem-lint_loop r table span in
      (
        λ m.
            ⊎_elim (λ k. let (sink, n, h) = here.0 k in (l, sink, (sinks, Memᴰ.head refl, n), h))
              (λ k.
                let (loc, sink, (vs, n, o), h) = there.0 k in (loc, sink, (vs, Memᴰ.tail n, o), h))
              ((Memᴰ-append span (filter_map (lint_sink B (r.before l)) sinks)
                  (lint_loop B r table)).0
                m),
        λ (loc, sink, (vs, n, o), h).
            (Memᴰ-append span (filter_map (lint_sink B (r.before l)) sinks) (lint_loop B r table)).1
              (⊎_elim
                (λ q. inl (
                  here.1 (
                    sink,
                    subst (Memᴰ sink) (ap (λ (x : Location × List Sink). x.1) q) o,
                    subst (λ (x : Location). ReportedAt r span x sink)
                        (ap (λ (x : Location × List Sink). x.0) q) h,
                  )))
                (λ k. inr (there.1 (loc, sink, (vs, k, o), h))) (Memᴰ.cases_cons n)),
      )

  lint_sink-cases :
      (state : AuthDomain B) (sink : Sink) (span : Span)
      → (lint_sink B state sink ≡ some span) ↔ (
          (p : ℕ) × (sink.param_index ≡ some p)
          × (sink.span ≡ span)
          × ((unsigned B (param p) state ≡ true) ⊎ (unsigned B current_admin state ≡ true)))
  unfolding lint_sink
  lint_sink-cases state sink span =
      let flag = B.contains state.unauth_params in
      elim (Option-cases sink.param_index) [
        | inl e ↦
            rw (e, lint_sink)
              (λ h. absurd (none-ne-some _ h), λ (p, q, _, _). absurd (none-ne-some _ q))
        | inr (p, e) ↦
            rw (e, lint_sink)
              (
                λ h.
                    let (o, q) =
                      (some_if (flag p || state.current_admin_unauth) sink.span span).0 h in
                    (p, refl, q, (or_cases (flag p) state.current_admin_unauth).0 o),
                λ (p', q, same, o).
                    (some_if (flag p || state.current_admin_unauth) sink.span span).1 (
                      (or_cases (flag p) state.current_admin_unauth).1 (
                          subst (λ n. (flag n ≡ true) ⊎ (state.current_admin_unauth ≡ true))
                            (sym (some-injective _ _ q)) o),
                      same,
                    ),
              )
      ]

-- a run comes to the location on which the parameter, or the admin that is stored, does not sign
unfoldable pub SomeoneUnsigned : (B : BitSet) → AuthFlowAnalysis B → ℕ → Location → Type 0
SomeoneUnsigned B self p loc =
    Unsigned B self (param p) loc.block loc.statement_index
    ⊎ Unsigned B self current_admin loc.block loc.statement_index

unsigned-before :
    (B : BitSet) (self : AuthFlowAnalysis B) {r : Results B} (p : ℕ) (span : Span) (loc : Location)
    → IsFixpoint B self r
    → find_best_location_for_event self.body span ≡ some loc
    → ((unsigned B (param p) (r.before loc) ≡ true)
        ⊎ (unsigned B current_admin (r.before loc) ≡ true))
      ↔ SomeoneUnsigned B self p loc
unfolding SomeoneUnsigned
unsigned-before B self p span loc fixpoint h =
    let (bb_data, e, le) = find_best_location_for_event-in_body self.body span loc h in
    let new = before-Unsigned B self fixpoint (param p) loc.block loc.statement_index e le in
    let old = before-Unsigned B self fixpoint current_admin loc.block loc.statement_index e le in
    (
      ⊎_elim (λ x. inl (new.0 x)) (λ x. inr (old.0 x)),
      ⊎_elim (λ x. inl (new.1 x)) (λ x. inr (old.1 x)),
    )

-- the sink stands at a location to which somebody comes unsigned
abbrev pub IsExposed : (B : BitSet) → AuthFlowAnalysis B → Sink → Type 0
IsExposed B self sink =
    (loc : Location) × (p : ℕ) × (find_best_location_for_event self.body sink.span ≡ some loc)
    × (sink.param_index ≡ some p)
    × SomeoneUnsigned B self p loc

-- What the engine is relied on for given, and a walk of a map that meets the entries that are in it,
-- the spans that are reported are exactly those of the sinks at whose best location a run comes on
-- which the parameter that is stored, or the admin that was stored before, does not sign.
pub lint_sinks_for_fn-IsExposed :
    (B : BitSet) (tcx : TyCtxt) (iterate_to_fixpoint : AuthFlowAnalysis B → Results B)
    (hash_order : Keyed Location (List Sink) → Keyed Location (List Sink)) (body : Body)
    (params : List ParamInfo) (events : List AuthEvent) (sinks : List Sink)
    (callsites : List CallSite) (fn_summaries : Keyed ℕ (FnSummary B)) (span : Span)
    → ((table : Keyed Location (List Sink)) (loc : Location) (sink : Sink)
        → Holds loc sink (hash_order table) ↔ Holds loc sink table)
    → IsFixpoint B
        (analysis_of B tcx body params events callsites fn_summaries)
        (iterate_to_fixpoint (analysis_of B tcx body params events callsites fn_summaries))
    → Memᴰ span (
        lint_sinks_for_fn B tcx iterate_to_fixpoint hash_order body params events sinks callsites
          fn_summaries)
      ↔ ((sink : Sink) × Memᴰ sink sinks
          × (sink.span ≡ span)
          × IsExposed B (analysis_of B tcx body params events callsites fn_summaries) sink)
unfolding lint_sinks_for_fn analysis_of map_sinks_to_locations
lint_sinks_for_fn-IsExposed B tcx iterate_to_fixpoint hash_order body params events sinks callsites
      fn_summaries span walk fixpoint =
    let self = analysis_of B tcx body params events callsites fn_summaries in
    let key = λ (sink : Sink). find_best_location_for_event body sink.span in
    let table = map_sinks_to_locations body sinks in
    let reports = mem-lint_loop B (iterate_to_fixpoint self) (hash_order table) span in
    let held = λ (loc : Location).
      λ (sink : Sink). Holds-push_at same_location same_location_iff key sinks [] loc sink in
    (
      λ m.
          let (loc, sink, h, rep) = reports.0 m in
          let (here, at) =
            ⊎_elim (λ n. absurd (not-Holds-nil loc sink n)) (λ x. x)
              ((held loc sink).0 ((walk table loc sink).0 h)) in
          let (p, e, same, o) = (lint_sink-cases B _ sink span).0 rep in
          (
            sink,
            here,
            same,
            (loc, p, at, e, (unsigned-before B self p sink.span loc fixpoint at).0 o),
          ),
      λ (sink, here, same, (loc, p, at, e, o)). reports.1 (
        loc,
        sink,
        (walk table loc sink).1 ((held loc sink).1 (inr (here, at))),
        (lint_sink-cases B _ sink span).1
            (p, e, same, (unsigned-before B self p sink.span loc fixpoint at).1 o),
      ),
    )
