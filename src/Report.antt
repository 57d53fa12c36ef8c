-- ===== src/Report.antt =====
-- scout/output/raw_report.rs and the types of scout/output/report.rs: the report that is made of the
-- findings. Its table is that of `Table`.
pub mod Reading
pub mod Numbering
pub mod Categories
use scout_audit.Report.Reading.{
  ReportError, get_code, parse_error_message, extract_code_snippet, parse_span, parse_file_details,
}
use scout_audit.Base.{
  ℕ, zero, suc, ◌+◌, ◌-◌, String, Bool, true, false, not, Option, none, some, List, [], ◌∷◌, ◌++◌,
  map, foldl, Result, ok, err, ok_or, ◌>>=◌, and_then, unwrap_or, any, length, is_empty, ltb, ◌==◌,
  if◌then◌else◌,
}
use Prim.Native.Nat.{◌%◌, ◌^◌}
use Prim.Native.String
use mathlib.Core.List.{take, drop}
use scout_audit.Base.Map
use scout_audit.Base.Map.{Map}
use scout_audit.Json.{Value, array, null, Items, nil, cons, get, at, as_u64, Serde}
use scout_audit.Paths.{PathOps, FileSystem}
use scout_audit.Finding.{Finding, json_to_string, code, spans, message}
use scout_audit.Lints.{LintInfo, LintStore, find_by_id}
use scout_audit.Crates.{Package}
use scout_audit.Table.{Counts, bump, Table, construct_table}

-- scout/core/project_info.rs
pub record Project : Type 0 where
  pub name : String
  pub date : String
  pub workspace_root : String
  pub packages : List Package

pub record Vulnerability : Type 0 where
  pub id : String
  pub name : String
  pub short_message : String
  pub long_message : String
  pub severity : String
  pub help : String

pub record Category : Type 0 where
  pub id : String
  pub name : String
  pub vulnerabilities : List Vulnerability

pub record ReportFinding : Type 0 where
  pub id : ℕ
  pub occurrence_index : ℕ
  pub category_id : String
  pub vulnerability_id : String
  pub error_message : String
  pub span : String
  pub code_snippet : String
  pub krate : String
  pub file_path : String

-- `by_severity` always holds the four severities.
pub record Summary : Type 0 where
  pub executed_on : List Package
  pub total_vulnerabilities : ℕ
  pub by_severity : Counts
  pub table : Table

pub record Report : Type 0 where
  pub name : String
  pub date : String
  pub summary : Summary
  pub categories : List Category
  pub findings : List ReportFinding

-- `n as u32`, and addition on `u32`
unfoldable pub as_u32 : ℕ → ℕ
as_u32 n = n % 2 ^ 32

unfoldable pub vulnerability_from : LintInfo → Vulnerability
vulnerability_from l = record {
  id = l.id;
  name = l.name;
  short_message = l.short_message;
  long_message = l.long_message;
  severity = l.severity;
  help = l.help;
}

-- What the loop of `process_findings` makes of one message, given the numbers so far: nothing where
-- the store has no such lint, and an entry of the report otherwise.
module _ ⦃j : Serde⦄ (paths : PathOps) (fs : FileSystem) (from_utf8 : List ℕ → Option String)
    (workspace_root : String) (detector_info : LintStore) where
  unfoldable pub report_finding :
      ℕ → ℕ → String → LintInfo → Finding → Result ReportError ReportFinding
  unfolding parse_file_details parse_span extract_code_snippet parse_error_message as_u32
  report_finding id occurrence_index vulnerability_id lint finding = do
    details ← parse_file_details paths finding workspace_root
    let file_name = unwrap_or (paths.file_name details.absolute_path) ""
    code_snippet ← extract_code_snippet fs from_utf8 details.absolute_path finding
    ok (record {
      id = as_u32 id;
      occurrence_index = occurrence_index;
      category_id = lint.vulnerability_class;
      vulnerability_id = vulnerability_id;
      error_message = parse_error_message finding;
      span = parse_span finding file_name;
      code_snippet = code_snippet;
      krate = details.krate;
      file_path = details.relative_path;
    })

  -- the loop: `det_map` counts the entries of each lint
  unfoldable pub process_loop :
      ℕ → List Finding → Map ℕ → List ReportFinding → Result ReportError (List ReportFinding)
  unfolding report_finding get_code
  process_loop id [] det_map findings = ok findings
  process_loop id (finding ∷ rest) det_map findings = (get_code finding) >>= λ vulnerability_id.
      elim (find_by_id detector_info vulnerability_id) [
        | none ↦ process_loop (suc id) rest det_map findings
        | some lint ↦
            let index = as_u32 (unwrap_or (Map.get det_map vulnerability_id) 0 + 1) in
            (report_finding id index vulnerability_id lint finding) >>= λ entry.
            process_loop (suc id) rest (Map.insert det_map vulnerability_id index)
              (findings ++ entry ∷ [])
      ]

  unfoldable pub process_findings : List Finding → Result ReportError (List ReportFinding)
  unfolding process_loop
  process_findings scout_findings = process_loop 0 scout_findings [] []

-- `entry(class).or_insert_with(…)`, and the vulnerability pushed unless the category has it
unfoldable pub categorize : LintStore → Map Category → ReportFinding → Map Category
unfolding vulnerability_from
categorize detector_info categories finding =
    elim (find_by_id detector_info finding.vulnerability_id) [
      | none ↦ categories
      | some vuln_info ↦
          let category = unwrap_or (Map.get categories vuln_info.vulnerability_class) (record {
            id = vuln_info.vulnerability_class;
            name = vuln_info.name;
            vulnerabilities = [];
          }) in
          Map.insert categories vuln_info.vulnerability_class (
            if any (λ (v : Vulnerability). v.id == finding.vulnerability_id)
              category.vulnerabilities
            then category
            else record category {
              vulnerabilities = category.vulnerabilities ++ vulnerability_from vuln_info ∷ [];
            })
    ]

unfoldable pub categories_of : LintStore → List ReportFinding → Map Category
unfolding categorize
categories_of detector_info findings = foldl (categorize detector_info) [] findings

-- `map_order` is the iteration order of the `HashMap`.
unfoldable pub generate_categories :
    (Map Category → List (String × Category)) → LintStore → List ReportFinding → List Category
unfolding categories_of
generate_categories map_order detector_info findings =
    map (λ (e : String × Category). e.1) (map_order (categories_of detector_info findings))

-- the loop of `create_summary`
unfoldable pub count_severity : LintStore → Counts → ReportFinding → Counts
unfolding bump
count_severity detector_info by_severity finding =
    elim (find_by_id detector_info finding.vulnerability_id) [
      | none ↦ by_severity
      | some lint_info ↦ bump lint_info.severity by_severity
    ]

-- the four counts are `u32`
unfoldable pub counts_as_u32 : Counts → Counts
unfolding as_u32
counts_as_u32 c = record {
  critical = as_u32 c.critical;
  medium = as_u32 c.medium;
  minor = as_u32 c.minor;
  enhancement = as_u32 c.enhancement;
}

unfoldable pub create_summary :
    ⦃j : Serde⦄ → LintStore → Project → List ReportFinding → List Finding → Map Bool → Summary
unfolding count_severity counts_as_u32 as_u32 construct_table
create_summary detector_info info findings json_findings crates = record {
  executed_on = info.packages;
  total_vulnerabilities = as_u32 (length findings);
  by_severity = counts_as_u32 (
      foldl (count_severity detector_info)
        (record { critical = 0; medium = 0; minor = 0; enhancement = 0 }) findings);
  table = construct_table json_findings crates detector_info;
}

unfoldable pub generate_report :
    ⦃j : Serde⦄
    → PathOps
    → FileSystem
    → (List ℕ → Option String)
    → (Map Category → List (String × Category))
    → List Finding
    → Map Bool
    → Project
    → LintStore
    → Result ReportError Report
unfolding process_findings generate_categories create_summary
generate_report paths fs from_utf8 map_order json_findings crates info detector_info = do
  findings ← process_findings paths fs from_utf8 info.workspace_root detector_info json_findings
  ok (record {
    name = info.name;
    date = info.date;
    summary = create_summary detector_info info findings json_findings crates;
    categories = generate_categories map_order detector_info findings;
    findings = findings;
  })
