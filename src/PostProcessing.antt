-- ===== src/PostProcessing.antt =====
-- scout/core/post_processing.rs: a finding and the `unnecessary_lint_allow` warning about an
-- `allow` of the same lint cancel one another where their lines overlap.
use scout_audit.Base.{
  ℕ, String, Bool, true, false, not, ◌&&◌, Option, none, some, List, [], ◌∷◌, ◌++◌, ◌==◌, and_then,
  unwrap_or, any, filter, foldl, leb, split_char, get_elem?, map, join, if◌then◌else◌,
}
pub mod Cache
pub mod Cancel
use mathlib.Core.Option
use scout_audit.Base.Map
use scout_audit.Base.Map.{Map}
use scout_audit.Json.{get, at, as_str, as_u64, Serde}
use scout_audit.Finding.{Finding, code, spans, children, json}

pub record PostProcFinding : Type 0 where
  pub detector : String
  pub file_name : String
  pub span : ℕ × ℕ
  pub allowed_lint : Option String

pub record FileFindings : Type 0 where
  pub unnecessary_allows : List PostProcFinding
  pub other_findings : List PostProcFinding

pub record FindingsCache : Type 0 where
  pub by_file : Map FileFindings

-- the text between the first two backquotes of the first child's message
unfoldable pub allowed_lint_of : Finding → Option (Option String)
allowed_lint_of finding = and_then (children finding) λ cs. and_then (at cs 0) λ c.
    and_then (get c "message")
      λ m. some (and_then (as_str m) (λ msg. get_elem? (split_char "`" msg) 1))

-- A 64-bit `usize`: `usize::try_from` of a `u64` succeeds.
unfoldable pub parse_finding : Finding → Option PostProcFinding
unfolding code spans allowed_lint_of
parse_finding finding =
    let detector = code finding in
    and_then (spans finding) λ all_spans. and_then (at all_spans 0) λ span.
      and_then (and_then (get span "file_name") as_str) λ file_name.
        and_then (and_then (get span "line_start") as_u64) λ line_start.
          and_then (and_then (get span "line_end") as_u64) λ line_end.
            and_then
              (if detector == "unnecessary_lint_allow" then allowed_lint_of finding else some none)
              λ allowed_lint. some (record {
                detector = detector;
                file_name = file_name;
                span = (line_start, line_end);
                allowed_lint = allowed_lint;
              })

unfoldable pub add_finding : FileFindings → PostProcFinding → FileFindings
add_finding ff finding =
    if finding.detector == "unnecessary_lint_allow"
    then record ff { unnecessary_allows = ff.unnecessary_allows ++ finding ∷ [] }
    else record ff { other_findings = ff.other_findings ++ finding ∷ [] }

abbrev pub no_findings : FileFindings
no_findings = record { unnecessary_allows = []; other_findings = [] }

-- `entry(file_name).or_insert_with(…).add_finding(parsed)`
unfoldable pub cache_finding : Map FileFindings → Finding → Map FileFindings
unfolding parse_finding add_finding
cache_finding by_file finding = elim (parse_finding finding) [
  | none ↦ by_file
  | some parsed ↦
      Map.insert by_file parsed.file_name
        (add_finding (unwrap_or (Map.get by_file parsed.file_name) no_findings) parsed)
]

unfoldable pub new_cache : List Finding → FindingsCache
unfolding cache_finding
new_cache all_findings = record { by_file = foldl cache_finding [] all_findings }

unfoldable pub spans_overlap : ℕ × ℕ → ℕ × ℕ → Bool
spans_overlap span1 span2 = leb span1.0 span2.1 && leb span2.0 span1.1

-- whether `f` is a finding of the lint `allowed_lint` on the lines of `current`
unfoldable pub triggers : String → PostProcFinding → PostProcFinding → Bool
unfolding spans_overlap
triggers allowed_lint current f = f.detector == allowed_lint && spans_overlap f.span current.span

-- `allow.allowed_lint.as_ref() == Some(&detector)`, on the lines of `current`
unfoldable pub allows : PostProcFinding → PostProcFinding → Bool
unfolding spans_overlap
allows current allow =
    unwrap_or (Option.map (λ (l : String). l == current.detector) allow.allowed_lint) false
    && spans_overlap allow.span current.span

-- the decision about a parsed finding, given the findings of its file
unfoldable pub include_parsed : PostProcFinding → FileFindings → Bool
unfolding triggers allows
include_parsed current file_findings =
    if current.detector == "unnecessary_lint_allow"
    then elim current.allowed_lint [
      | some allowed_lint ↦ not (any (triggers allowed_lint current) file_findings.other_findings)
      | none ↦ true
    ]
    else not (any (allows current) file_findings.unnecessary_allows)

unfoldable pub should_include_finding : FindingsCache → Finding → Bool
unfolding parse_finding include_parsed
should_include_finding cache finding = elim (parse_finding finding) [
  | none ↦ false
  | some current ↦ elim (Map.get cache.by_file current.file_name) [
    | some file_findings ↦ include_parsed current file_findings
    | none ↦ true
  ]
]

unfoldable pub process : ⦃j : Serde⦄ → List Finding → List Finding → Bool → List Finding × String
unfolding new_cache should_include_finding json
process ⦃j⦄ successful_findings output inside_vscode =
    let cache = new_cache successful_findings in
    let output_vscode =
      if inside_vscode then filter (should_include_finding cache) output else [] in
    (
      filter (should_include_finding cache) successful_findings,
      join "\n" (map (λ f. j.to_string (json f)) output_vscode),
    )
