-- ===== src/PostProcessing/Cache.antt =====
-- What the cache holds of the parsed findings, by file and by kind.
use mathlib.Core.List.Memᴰ
use mathlib.Core.Bool.{false≢true}
use mathlib.Core.Option.{some-injective}
use scout_audit.Base.{
  ◌≡◌, refl, sym, ◌∙◌, ap, subst, String, Bool, true, false, some, List, [], ◌∷◌, ◌++◌, Memᴰ, inl,
  inr, ⊎_elim, ◌↔◌, ◌⊎◌, foldl, ◌==◌, eq_iff, Bool-cases, Option-cases, unwrap_or, arith,
  if◌then◌else◌,
}
use scout_audit.Base.Map
use scout_audit.Base.Map.{Map, get-insert}
use scout_audit.Finding.{Finding}
use scout_audit.PostProcessing.{
  PostProcFinding, FileFindings, parse_finding, add_finding, no_findings, cache_finding, new_cache,
}

-- the findings of one file; none for a file that the cache does not have
abbrev pub in_file : Map FileFindings → String → FileFindings
in_file m file = unwrap_or (Map.get m file) no_findings

abbrev pub is_allow : PostProcFinding → Bool
is_allow f = f.detector == "unnecessary_lint_allow"

-- the warnings about an `allow`, or the others
abbrev pub side : Bool → FileFindings → List PostProcFinding
side true ff = ff.unnecessary_allows
side false ff = ff.other_findings

mem-concat :
    (xs : List PostProcFinding) (p a : PostProcFinding)
    → Memᴰ a (xs ++ p ∷ []) ↔ (Memᴰ a xs ⊎ (p ≡ a))
mem-concat xs p a = (
  λ m. ⊎_elim inl (λ last. inr (sym (Memᴰ.eq_of_singleton last))) (Memᴰ.append_cases xs m),
  ⊎_elim (Memᴰ.append_left _) (λ e. Memᴰ.append_right xs (Memᴰ.head (sym e))),
)

side-add_finding :
    (b : Bool) (ff : FileFindings) (p a : PostProcFinding)
    → Memᴰ a (side b (add_finding ff p)) ↔ (Memᴰ a (side b ff) ⊎ ((p ≡ a) × (is_allow p ≡ b)))
unfolding add_finding
side-add_finding true ff p a = ground (arith, mem-concat ff.unnecessary_allows p a)
side-add_finding false ff p a = ground (arith, mem-concat ff.other_findings p a)

in_file-cache_finding :
    (m : Map FileFindings) (f : Finding) (p : PostProcFinding) (file : String)
    → parse_finding f ≡ some p
    → in_file (cache_finding m f) file
      ≡ (if p.file_name == file then add_finding (in_file m file) p else in_file m file)
unfolding cache_finding
in_file-cache_finding m f p file h =
    rw (h, cache_finding)
      (ground (
        arith,
        get-insert m p.file_name (add_finding (in_file m p.file_name) p) file,
        eq_iff p.file_name file,
      ))

-- what one finding adds to one side of one file
abbrev pub Adds : String → Bool → PostProcFinding → Finding → Type 0
Adds file b a f = (parse_finding f ≡ some a) × (a.file_name ≡ file) × (is_allow a ≡ b)

mem-cache_finding :
    (m : Map FileFindings) (f : Finding) (file : String) (b : Bool) (a : PostProcFinding)
    → Memᴰ a (side b (in_file (cache_finding m f) file))
      ↔ (Memᴰ a (side b (in_file m file)) ⊎ Adds file b a f)
mem-cache_finding m f file b a = elim (Option-cases (parse_finding f)) [
  | inl e ↦ unfold cache_finding in rw (e, cache_finding) (inl, ⊎_elim (λ k. k) (λ new. cc))
  | inr (p, e) ↦ rw (in_file-cache_finding m f p file e) (elim (Bool-cases (p.file_name == file)) [
    | inl same ↦ rw same (
      λ k.
          ⊎_elim inl
            (λ (here, kind). inr (
              e ∙ ap some here,
              ap (λ (t : PostProcFinding). t.file_name) (sym here)
                  ∙ (eq_iff p.file_name file).0 same,
              ap is_allow (sym here) ∙ kind,
            ))
            ((side-add_finding b (in_file m file) p a).0 k),
      ⊎_elim (λ old. (side-add_finding b (in_file m file) p a).1 (inl old))
          (λ (parsed, _, kind).
            let here = some-injective _ _ (sym e ∙ parsed) in
            (side-add_finding b (in_file m file) p a).1 (inr (here, ap is_allow here ∙ kind))),
    )
    | inr other ↦ rw other (
      inl,
      ⊎_elim (λ k. k)
          (λ (parsed, at_file, _).
            let here = some-injective _ _ (sym e ∙ parsed) in
            absurd (
              false≢true (
                sym other
                ∙ (eq_iff p.file_name file).1
                    (ap (λ (t : PostProcFinding). t.file_name) here ∙ at_file)))),
    )
  ])
]

mem-cache :
    (fs : List Finding) (m : Map FileFindings) (file : String) (b : Bool) (a : PostProcFinding)
    → Memᴰ a (side b (in_file (foldl cache_finding m fs) file))
      ↔ (Memᴰ a (side b (in_file m file)) ⊎ ((f : Finding) × Memᴰ f fs × Adds file b a f))
mem-cache [] m file b a = (inl, ⊎_elim (λ k. k) (λ new. absurd (Memᴰ.not-nil new.1)))
mem-cache (f ∷ fs) m file b a =
    let rest = mem-cache fs (cache_finding m f) file b a in
    let first = mem-cache_finding m f file b a in
    (
      λ k.
          ⊎_elim (λ old. ⊎_elim inl (λ new. inr (f, Memᴰ.head refl, new)) (first.0 old))
            (λ (g, at_g, new). inr (g, Memᴰ.tail at_g, new)) (rest.0 k),
      ⊎_elim (λ old. rest.1 (inl (first.1 (inl old))))
          (λ (g, at_g, new).
            ⊎_elim (λ same. rest.1 (inl (first.1 (inr (subst (Adds file b a) same new)))))
              (λ there. rest.1 (inr (g, there, new))) (Memᴰ.cases_cons at_g)),
    )

-- One side of one file holds what parses to a finding of that file and kind.
pub mem-new_cache :
    (fs : List Finding) (file : String) (b : Bool) (a : PostProcFinding)
    → Memᴰ a (side b (in_file (new_cache fs).by_file file))
      ↔ ((f : Finding) × Memᴰ f fs × Adds file b a f)
unfolding new_cache
mem-new_cache fs file b a = (
  λ k. ⊎_elim (λ old. absurd (none_yet b old)) (λ new. new) ((mem-cache fs [] file b a).0 k),
  λ new. (mem-cache fs [] file b a).1 (inr new),
)
  where
    none_yet : (c : Bool) → Memᴰ a (side c no_findings) → ⊥
    none_yet true m = Memᴰ.not-nil m
    none_yet false m = Memᴰ.not-nil m
