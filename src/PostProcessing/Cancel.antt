-- ===== src/PostProcessing/Cancel.antt =====
-- What `process` keeps.
use mathlib.Core.Bool.{false≢true}
use mathlib.Core.Option.{some-injective}
use mathlib.Core.Option
use scout_audit.Base.{
  ◌≡◌, ◌≤◌, sym, ◌∙◌, ap, subst, String, Bool, true, false, not, Option, none, some, List, Memᴰ,
  inl, inr, ⊎_elim, ◌↔◌, ◌⊎◌, any, unwrap_or, mem_of_any, any_of_mem, mem-filter, ◌==◌, eq_iff,
  Bool-cases, Option-cases, arith, and_iff,
}
use scout_audit.Json.{Serde}
use scout_audit.Finding.{Finding}
use scout_audit.PostProcessing.{
  PostProcFinding, FileFindings, parse_finding, new_cache, no_findings, triggers, allows,
  include_parsed, should_include_finding, process,
}
use scout_audit.PostProcessing.Cache.{in_file, is_allow, mem-new_cache}

-- The warning `a` says that an `allow` is unnecessary, and `o` is a finding of the allowed lint,
-- in the same file and on common lines.
pub record Cancels (a o : PostProcFinding) : Type 0 where
  pub warning : is_allow a ≡ true
  pub other : is_allow o ≡ false
  pub file : a.file_name ≡ o.file_name
  pub lint : a.allowed_lint ≡ some o.detector
  pub first : a.span.0 ≤ o.span.1
  pub last : o.span.0 ≤ a.span.1

-- the two uses of the overlap test
triggers_iff :
    (c o : PostProcFinding)
    → is_allow c ≡ true
    → is_allow o ≡ false
    → o.file_name ≡ c.file_name
    → {l : String} → c.allowed_lint ≡ some l
    → (triggers l c o ≡ true) ↔ Cancels c o
unfolding triggers
triggers_iff c o w k file {l} e = (
  λ h. record {
    warning = w;
    other = k;
    file = sym file;
    lint = ground (arith, eq_iff o.detector l);
    first = ground arith;
    last = ground arith;
  },
  λ h. ground (arith, eq_iff o.detector l, h.lint, h.first, h.last),
)

lint_of_test :
    (o : Option String) (s : String)
    → unwrap_or (Option.map (λ (l : String). l == s) o) false ≡ true
    → o ≡ some s
lint_of_test none s h = cc
lint_of_test (some l) s h = ap some ((eq_iff l s).0 h)

allows_iff :
    (c a : PostProcFinding)
    → is_allow a ≡ true
    → is_allow c ≡ false
    → a.file_name ≡ c.file_name
    → (allows c a ≡ true) ↔ Cancels a c
unfolding allows
allows_iff c a w k file = (
  λ h. record {
    warning = w;
    other = k;
    file = file;
    lint = lint_of_test a.allowed_lint c.detector ((and_iff _ _).0 h).0;
    first = ground arith;
    last = ground arith;
  },
  λ h. rw h.lint (ground (arith, eq_iff c.detector c.detector, h.first, h.last)),
)

-- some finding of the list and this one cancel each other
abbrev pub IsCancelled : List Finding → PostProcFinding → Type 0
IsCancelled fs c =
    (d : PostProcFinding) × (g : Finding) × Memᴰ g fs
    × (parse_finding g ≡ some d)
    × (Cancels c d ⊎ Cancels d c)

abbrev file_of : List Finding → PostProcFinding → FileFindings
file_of fs c = in_file (new_cache fs).by_file c.file_name

include-some :
    (c : PostProcFinding) (ff : FileFindings) (l : String)
    → is_allow c ≡ true
    → c.allowed_lint ≡ some l
    → include_parsed c ff ≡ not (any (triggers l c) ff.other_findings)
unfolding include_parsed
include-some c ff l w e = simp (w, e)

include-none :
    (c : PostProcFinding) (ff : FileFindings)
    → is_allow c ≡ true
    → c.allowed_lint ≡ none
    → include_parsed c ff ≡ true
unfolding include_parsed
include-none c ff w e = simp (w, e)

include-finding :
    (c : PostProcFinding) (ff : FileFindings)
    → is_allow c ≡ false
    → include_parsed c ff ≡ not (any (allows c) ff.unnecessary_allows)
unfolding include_parsed
include-finding c ff o = simp o

not-eq-false : (b : Bool) → (not b ≡ false) ↔ (b ≡ true)
not-eq-false b = ground arith

include_warning :
    (fs : List Finding) (c : PostProcFinding)
    → is_allow c ≡ true
    → (include_parsed c (file_of fs c) ≡ false) ↔ IsCancelled fs c
include_warning fs c w = elim (Option-cases c.allowed_lint) [
  | inl e ↦ (
    λ h. absurd (false≢true (sym h ∙ include-none c (file_of fs c) w e)),
    λ (d, g, at_g, parsed, both). ⊎_elim (λ k. cc (k.lint)) (λ k. cc (k.other)) both,
  )
  | inr (l, e) ↦
      let shape = include-some c (file_of fs c) l w e in
      let hits = not-eq-false (any (triggers l c) (file_of fs c).other_findings) in
      (
        λ h.
            let (d, at_d, hit) =
              mem_of_any (triggers l c) (file_of fs c).other_findings (hits.0 (sym shape ∙ h)) in
            let (g, at_g, adds) = (mem-new_cache fs c.file_name false d).0 at_d in
            (d, g, at_g, adds.0, inl ((triggers_iff c d w adds.2 adds.1 e).0 hit)),
        λ (d, g, at_g, parsed, both).
            ⊎_elim
              (λ (k : Cancels c d).
                shape
                ∙ hits.1 (
                    any_of_mem (triggers l c) d (file_of fs c).other_findings
                      ((mem-new_cache fs c.file_name false d).1
                        (g, at_g, (parsed, sym k.file, k.other)))
                      ((triggers_iff c d w k.other (sym k.file) e).1 k)))
              (λ k. cc (k.other)) both,
      )
]

include_other :
    (fs : List Finding) (c : PostProcFinding)
    → is_allow c ≡ false
    → (include_parsed c (file_of fs c) ≡ false) ↔ IsCancelled fs c
include_other fs c o =
    let shape = include-finding c (file_of fs c) o in
    let hits = not-eq-false (any (allows c) (file_of fs c).unnecessary_allows) in
    (
      λ h.
          let (d, at_d, hit) =
            mem_of_any (allows c) (file_of fs c).unnecessary_allows (hits.0 (sym shape ∙ h)) in
          let (g, at_g, adds) = (mem-new_cache fs c.file_name true d).0 at_d in
          (d, g, at_g, adds.0, inr ((allows_iff c d adds.2 o adds.1).0 hit)),
      λ (d, g, at_g, parsed, both).
          ⊎_elim (λ k. cc (k.warning))
            (λ (k : Cancels d c).
              shape
              ∙ hits.1 (
                  any_of_mem (allows c) d (file_of fs c).unnecessary_allows
                    ((mem-new_cache fs c.file_name true d).1 (g, at_g, (parsed, k.file, k.warning)))
                    ((allows_iff c d k.warning o k.file).1 k)))
            both,
    )

-- a file that the cache does not have includes everything, and so does an empty one
include_empty : (c : PostProcFinding) → include_parsed c no_findings ≡ true
unfolding include_parsed
include_empty c = ground arith

should_include_parsed :
    (fs : List Finding) (f : Finding) (c : PostProcFinding)
    → parse_finding f ≡ some c
    → should_include_finding (new_cache fs) f ≡ include_parsed c (file_of fs c)
unfolding should_include_finding
should_include_parsed fs f c h = rw (h, should_include_finding) (ground (arith, include_empty c))

-- A finding that parses is left out exactly when some finding of the list cancels it or is
-- cancelled by it; one that does not parse is left out.
pub should_include_iff :
    (fs : List Finding) (f : Finding)
    → (should_include_finding (new_cache fs) f ≡ true)
      ↔ ((c : PostProcFinding) × (parse_finding f ≡ some c) × ¬ IsCancelled fs c)
should_include_iff fs f = elim (Option-cases (parse_finding f)) [
  | inl e ↦ (λ h. absurd (false≢true (sym (unparsed e) ∙ h)), λ (c, p, _). cc)
  | inr (c, e) ↦
      let spec = decided c in
      (
        λ h. (
          c,
          e,
          λ k. absurd (false≢true (sym (spec.1 k) ∙ (sym (should_include_parsed fs f c e) ∙ h))),
        ),
        λ (d, p, no_cancel).
            let same = some-injective _ _ (sym p ∙ e) in
            should_include_parsed fs f c e
            ∙ ⊎_elim (λ t. t)
                (λ t. absurd (no_cancel (subst (IsCancelled fs) (sym same) (spec.0 t))))
                (Bool-cases (include_parsed c (file_of fs c))),
      )
]
  where
    decided : (c : PostProcFinding) → (include_parsed c (file_of fs c) ≡ false) ↔ IsCancelled fs c
    decided c = ⊎_elim (include_warning fs c) (include_other fs c) (Bool-cases (is_allow c))

    unparsed : parse_finding f ≡ none → should_include_finding (new_cache fs) f ≡ false
    unparsed e = unfold should_include_finding in rw (e, should_include_finding)

module _ ⦃j : Serde⦄ where
  -- The findings that `process` keeps for the console are those of its input that parse and that
  -- no finding of the input cancels or is cancelled by.
  pub mem-process :
      (fs output : List Finding) (inside_vscode : Bool) (f : Finding)
      → Memᴰ f (process fs output inside_vscode).0
        ↔ (Memᴰ f fs × ((c : PostProcFinding) × (parse_finding f ≡ some c) × ¬ IsCancelled fs c))
  unfolding process
  mem-process fs output inside_vscode f =
      let kept = mem-filter (should_include_finding (new_cache fs)) f fs in
      let spec = should_include_iff fs f in
      (λ m. let (at_f, h) = kept.0 m in (at_f, spec.0 h), λ (at_f, h). kept.1 (at_f, spec.1 h))
