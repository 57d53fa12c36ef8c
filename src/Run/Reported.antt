-- ===== src/Run/Reported.antt =====
-- The findings that a run gives back.
use scout_audit.Base.{
  ◌↔◌, ◌∙◌, if◌then◌else◌, ℕ, ◌≡◌, refl, ap, subst, inl, inr, String, Bool, true, false, not, ◌&&◌,
  Option, none, some, List, Memᴰ, Result, ok, err, ◌>>=◌, >>=-eq-ok, ok-injective, Bool-cases,
  map_err, ok_or, filter, mem-filter, lines,
}
use scout_audit.Base.Map.{Map}
use scout_audit.Json.{Serde}
use scout_audit.Paths.{PathOps, FileSystem}
use scout_audit.Selection.{ScoutConfig}
use scout_audit.Cli.{Scout}
use scout_audit.Finding.{Finding, is_scout_finding}
use scout_audit.Crates.{get_crates}
use scout_audit.Crates.Split.{is_successful, split_findings-filter}
use mathlib.Core.Bool.{false≢true}
use scout_audit.PostProcessing.{process, new_cache, should_include_finding}
use scout_audit.Run.{
  ScoutResult, RunError, RunInfo, Stages, ensure, is_nil, crates_failed, nothing_analyzed,
  output_unreadable, run_dylint_failed, output_to_json, set_severity, has_allow_detector,
  post_process, write_output, report, analyse_output, analyse,
}

ensure-eq-ok {ℓ} :
    {B : Type ℓ} (b : Bool) (e : RunError) (k : Bool → Result RunError B) {r : B}
    → (ensure b e >>= k) ≡ ok r
    → (b ≡ true) × (k true ≡ ok r)
ensure-eq-ok true e k h = (refl, h)
ensure-eq-ok false e k h = cc

ok_or-eq-ok {ℓ} : {A : Type ℓ} {a : A} (o : Option A) (e : RunError) → ok_or o e ≡ ok a → o ≡ some a
ok_or-eq-ok (some _) e h = ap some (ok-injective h)
ok_or-eq-ok none e h = cc

map_err-eq-ok {ℓ κ} :
    {E : Type ℓ} {A : Type κ} {a : A} (r : Result E A) (f : E → RunError)
    → map_err f r ≡ ok a
    → r ≡ ok a
map_err-eq-ok (ok _) f h = ap ok (ok-injective h)
map_err-eq-ok (err _) f h = cc

not_both : (a b : Bool) → not (a && b) ≡ true → a && b ≡ false
not_both true true h = cc
not_both true false h = refl
not_both false b h = refl

module _ ⦃j : Serde⦄ (paths : PathOps) (fs : FileSystem) (from_utf8 : List ℕ → Option String)
    (from_yaml : String → Option ScoutConfig) (stages : Stages) where
  -- the findings of the detectors that were asked for whose crate name, with dashes in place of
  -- underscores, is not empty and is not marked as failed in the map
  abbrev pub asked_for : RunInfo → List Finding → Map Bool → List Finding
  asked_for i raw crates =
      filter (is_successful crates) (filter (λ f. is_scout_finding f i.filtered_detectors) raw)

  -- a finding of the output, of a detector that was asked for, whose crate name is not empty and not
  -- marked as failed, and which no other finding cancels where the cancelling detector runs
  abbrev pub IsReported : RunInfo → List Finding → Map Bool → Finding → Type 0
  IsReported i output crates f =
      Memᴰ f output
      × (is_scout_finding f i.filtered_detectors ≡ true)
      × (is_successful crates f ≡ true)
      × (has_allow_detector i.detectors_paths ≡ true
          → should_include_finding (new_cache (asked_for i output crates)) f ≡ true)

  post_process-asked_for :
      (i : RunInfo) (raw : List Finding) (crates : Map Bool) (text : String)
      → (post_process paths fs from_utf8 from_yaml stages i raw crates text).0 ≡ (
          if has_allow_detector i.detectors_paths
          then filter
              (should_include_finding (new_cache (asked_for i raw crates)))
              (asked_for i raw crates)
          else asked_for i raw crates)
  unfolding post_process process
  post_process-asked_for i raw crates text =
      ap (λ (z : List Finding × List Finding). shown z.0)
        (split_findings-filter (filter (λ f. is_scout_finding f i.filtered_detectors) raw) crates)
      ∙ elim (Bool-cases (has_allow_detector i.detectors_paths)) [
        | inl e ↦ rw e refl
        | inr e ↦ rw e refl
      ]
    where
      shown : List Finding → List Finding
      shown successful =
          (if has_allow_detector i.detectors_paths
            then process successful raw i.inside_vscode
            else (successful, text)).0

  mem-asked_for :
      (i : RunInfo) (raw : List Finding) (crates : Map Bool) (f : Finding)
      → Memᴰ f (asked_for i raw crates) ↔ (
          Memᴰ f raw
          × (is_scout_finding f i.filtered_detectors ≡ true)
          × (is_successful crates f ≡ true))
  mem-asked_for i raw crates f =
      let outer = mem-filter (is_successful crates) f _ in
      let inner = mem-filter (λ f. is_scout_finding f i.filtered_detectors) f raw in
      (
        λ m. let (k, c) = outer.0 m in let (r, a) = inner.0 k in (r, a, c),
        λ (r, a, c). outer.1 (inner.1 (r, a), c),
      )

  mem-post_process :
      (i : RunInfo) (raw : List Finding) (crates : Map Bool) (text : String) (f : Finding)
      → Memᴰ f (post_process paths fs from_utf8 from_yaml stages i raw crates text).0
        ↔ IsReported i raw crates f
  mem-post_process i raw crates text f =
      rw (post_process-asked_for i raw crates text)
        (elim (Bool-cases (has_allow_detector i.detectors_paths)) [
          | inl e ↦ rw e (
            λ m. let (k, kept) = cancelled.0 m in let (r, a, c) = asked.0 k in (r, a, c, λ _. kept),
            λ (r, a, c, kept). cancelled.1 (asked.1 (r, a, c), kept refl),
          )
          | inr e ↦ rw e (
            λ m. let (r, a, c) = asked.0 m in (r, a, c, λ h. absurd (false≢true h)),
            λ (r, a, c, _). asked.1 (r, a, c),
          )
        ])
    where
      asked : Memᴰ f (asked_for i raw crates) ↔ (
          Memᴰ f raw
          × (is_scout_finding f i.filtered_detectors ≡ true)
          × (is_successful crates f ≡ true))
      asked = mem-asked_for i raw crates f

      cancelled :
          Memᴰ f (
            filter
              (should_include_finding (new_cache (asked_for i raw crates)))
              (asked_for i raw crates))
          ↔ (Memᴰ f (asked_for i raw crates)
              × (should_include_finding (new_cache (asked_for i raw crates)) f ≡ true))
      cancelled = mem-filter (should_include_finding (new_cache (asked_for i raw crates))) f _

  -- There is a crate or an editor asks, the text is tagged and read again, and what is given back is
  -- what `IsReported` says.
  unfoldable pub Reports : RunInfo → String → List Finding → Map Bool → ScoutResult → Type 0
  Reports i raw raw_findings crates r =
      (is_nil crates && not i.inside_vscode ≡ false)
      × (text : String) × (output : List Finding) × (set_severity stages.to_uppercase
            i.filtered_detectors i.detectors_info raw_findings raw
          ≡ ok (text, output))
      × ((f : Finding) → Memᴰ f r.findings ↔ IsReported i output crates f)

  report-Reports :
      (opts : Scout) (i : RunInfo) (raw : String) (raw_findings : List Finding) (crates : Map Bool)
      (r : ScoutResult)
      → report paths fs from_utf8 from_yaml stages opts i raw raw_findings crates ≡ ok r
      → Reports i raw raw_findings crates r
  unfolding report Reports
  report-Reports opts i raw raw_findings crates r h =
      let (tagged, read, h1) =
        >>=-eq-ok
          (set_severity stages.to_uppercase i.filtered_detectors i.detectors_info raw_findings raw)
          written h in
      let out = post_process paths fs from_utf8 from_yaml stages i tagged.1 crates tagged.0 in
      let (some_crate, h2) =
        ensure-eq-ok (not (is_nil crates && not i.inside_vscode)) nothing_analyzed
          (λ _. finished tagged) h1 in
      let (_, _, e) =
        >>=-eq-ok (write_output paths fs from_utf8 from_yaml stages opts i tagged.1 crates out)
          (λ _. ok (record { findings = out.0; stdout_helper = out.1 })) h2 in
      (
        not_both (is_nil crates) (not i.inside_vscode) some_crate,
        tagged.0,
        tagged.1,
        read,
        λ f.
            subst (λ (z : ScoutResult). Memᴰ f z.findings ↔ IsReported i tagged.1 crates f)
              (ok-injective e) (mem-post_process i tagged.1 crates tagged.0 f),
      )
    where
      finished : String × List Finding → Result RunError ScoutResult
      finished tagged =
          let out = post_process paths fs from_utf8 from_yaml stages i tagged.1 crates tagged.0 in
          write_output paths fs from_utf8 from_yaml stages opts i tagged.1 crates out >>= λ _.
          ok (record { findings = out.0; stdout_helper = out.1 })

      written : String × List Finding → Result RunError ScoutResult
      written tagged = ensure (not (is_nil crates && not i.inside_vscode)) nothing_analyzed >>= λ _.
          finished tagged

  -- `run_dylint` wrote this text, and these are its findings and crates
  unfoldable pub Observed : Scout → RunInfo → String → List Finding → Map Bool → Type 0
  Observed opts i raw raw_findings crates =
      (stdout : String) × (stages.run_dylint i.toolchain i.detectors_paths opts i.inside_vscode
        ≡ some stdout)
      × (stages.temp_file_to_string stdout ≡ some raw)
      × (output_to_json (lines raw) ≡ ok raw_findings)
      × (get_crates stages.hash_order i.metadata stages.map_order raw_findings
            i.project_info.packages
          ≡ ok crates)

  -- When `run_scout` gives back the findings of an analysed project, the output of `run_dylint` has
  -- been read, its lines parsed, its crates found, and its text tagged and parsed again; there is a
  -- crate or an editor asks; and the findings are exactly those of the tagged output that are of a
  -- detector that was asked for, have a crate name that is not empty and, with dashes in place of
  -- underscores, not marked as failed in the map of crates, and, where the detector of unnecessary
  -- allows runs, are kept by the cache of such findings.
  pub analyse-Reports :
      (opts : Scout) (i : RunInfo) (r : ScoutResult)
      → analyse paths fs from_utf8 from_yaml stages opts i ≡ ok r
      → (raw : String) × (raw_findings : List Finding) × (crates : Map Bool) × Observed opts i raw
          raw_findings crates
        × Reports i raw raw_findings crates r
  unfolding analyse analyse_output Observed
  analyse-Reports opts i r h =
      let (stdout, e1, h1) =
        >>=-eq-ok
          (ok_or (stages.run_dylint i.toolchain i.detectors_paths opts i.inside_vscode)
            run_dylint_failed)
          of_stdout h in
      let (raw, e2, h2) =
        >>=-eq-ok (ok_or (stages.temp_file_to_string stdout) output_unreadable)
          (analyse_output paths fs from_utf8 from_yaml stages opts i) h1 in
      let (raw_findings, e3, h3) = >>=-eq-ok (output_to_json (lines raw)) (of_findings raw) h2 in
      let (crates, e4, h4) =
        >>=-eq-ok (crates_of raw_findings)
          (report paths fs from_utf8 from_yaml stages opts i raw raw_findings) h3 in
      (
        raw,
        raw_findings,
        crates,
        (stdout, ok_or-eq-ok _ _ e1, ok_or-eq-ok _ _ e2, e3, map_err-eq-ok _ _ e4),
        report-Reports opts i raw raw_findings crates r h4,
      )
    where
      crates_of : List Finding → Result RunError (Map Bool)
      crates_of raw_findings = map_err crates_failed (
          get_crates stages.hash_order i.metadata stages.map_order raw_findings
            i.project_info.packages)

      of_findings : String → List Finding → Result RunError ScoutResult
      of_findings raw raw_findings =
          crates_of raw_findings
          >>= report paths fs from_utf8 from_yaml stages opts i raw raw_findings

      of_stdout : String → Result RunError ScoutResult
      of_stdout stdout =
          ok_or (stages.temp_file_to_string stdout) output_unreadable
          >>= analyse_output paths fs from_utf8 from_yaml stages opts i
