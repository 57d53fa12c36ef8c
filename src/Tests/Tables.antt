-- ===== src/Tests/Tables.antt =====
-- The table and the report of three findings.
use scout_audit.Base.{
  ◌≡◌, refl, sym, ℕ, true, false, none, some, List, [], ◌∷◌, Memᴰ, Bool, String, map, filter,
  length, get_elem?, byte_len, sorted, ok,
}
use scout_audit.Base.Map.{Map}
use scout_audit.Paths.{PathOps, FileSystem}
use scout_audit.Finding.{
  Finding, code, spans, json_to_string, reason, package_id, package_name, is_compiler_error,
  message,
}
use scout_audit.Lints.{LintInfo, LintStore, find_by_id}
use scout_audit.Crates.{get_crates}
use scout_audit.Table.{
  Counts, Cell, heading_row, importance, header, count_finding, count_findings, crate_row,
  construct_table, get_column_widths, pad, set_color, from_strings,
}
use scout_audit.Table.Severities.{is_counted, count_findings-number, count_finding-dash}
use scout_audit.Table.Shape.{construct_table-rows, construct_table-heading}
use scout_audit.Table.Align.{construct_table-aligned}
use scout_audit.Report.{ReportFinding, process_findings}
use scout_audit.Report.{vulnerability_from, categories_of}
use scout_audit.Report.Categories.{in_class, mem-categories_of}
use scout_audit.Lints.{insert, new}
use scout_audit.Lints.Laws.{IsKeyed, insert-IsKeyed}
use scout_audit.Filters.{print_separator}
use scout_audit.Filters.Separator.{strings, numbers, rule, print_separator-rule}
use scout_audit.Json.{Value, string, array, object, field, end}
use scout_audit.Base.{◌↔◌}
use scout_audit.Report.Numbering.{known_codes, known_ids, indices, process_findings-numbers}
use scout_audit.Tests.Data.{serde, unchanged, workspace, warning, analysed}

abbrev unwrap : LintInfo
unwrap = record {
  id = "unsafe_unwrap";
  name = "Unsafe unwrap";
  short_message = "text";
  long_message = "text";
  severity = "Medium";
  help = "text";
  vulnerability_class = "Error handling";
}

abbrev lints : LintStore
lints = record { lints = ("unsafe_unwrap", unwrap) ∷ [] }

abbrev findings : List Finding
findings =
    warning "contract" "unsafe_unwrap" 3 4
    ∷ warning "contract" "dead_code" 5 5
    ∷ warning "contract" "unsafe_unwrap" 8 8
    ∷ []

abbrev crates : Map Bool
crates = ("library", false) ∷ ("contract", true) ∷ []

count_findings-number_example :
    ((count_findings ⦃j = serde⦄ findings "contract" lints).critical
      ≡ length (filter (is_counted ⦃j = serde⦄ "contract" lints "Critical") findings))
    × ((count_findings ⦃j = serde⦄ findings "contract" lints).medium
        ≡ length (filter (is_counted ⦃j = serde⦄ "contract" lints "Medium") findings))
    × ((count_findings ⦃j = serde⦄ findings "contract" lints).minor
        ≡ length (filter (is_counted ⦃j = serde⦄ "contract" lints "Minor") findings))
    × ((count_findings ⦃j = serde⦄ findings "contract" lints).enhancement
        ≡ length (filter (is_counted ⦃j = serde⦄ "contract" lints "Enhancement") findings))
count_findings-number_example = count_findings-number ⦃j = serde⦄ "contract" lints findings

abbrev listed_map : Map Bool → List (String × Bool)
listed_map m = m

abbrev no_counts : Counts
no_counts = record { critical = 0; medium = 0; minor = 0; enhancement = 0 }

my_token_analysed :
    get_crates ⦃j = serde⦄ unchanged workspace listed_map
      (warning "my-token" "unsafe_unwrap" 1 1 ∷ [])
      (analysed "my-token" ∷ [])
    ≡ ok (("my_token", true) ∷ [])
unfolding get_crates reason package_id package_name is_compiler_error
my_token_analysed = refl

count_finding-dash_example :
    count_finding ⦃j = serde⦄ "my_token" lints no_counts (warning "my-token" "unsafe_unwrap" 1 1)
    ≡ no_counts
unfolding package_name
count_finding-dash_example =
    count_finding-dash ⦃j = serde⦄ unchanged workspace listed_map
      (warning "my-token" "unsafe_unwrap" 1 1 ∷ []) (analysed "my-token" ∷ []) lints
      (warning "my-token" "unsafe_unwrap" 1 1) "my_token" true no_counts my_token_analysed refl refl

construct_table-rows_example :
    (construct_table ⦃j = serde⦄ findings crates lints).rows
    ≡ map
        (crate_row ⦃j = serde⦄ findings crates lints)
        (sorted (map (λ (e : String × Bool). e.0) crates))
construct_table-rows_example = construct_table-rows ⦃j = serde⦄ findings crates lints

by_name : construct_table ⦃j = serde⦄ findings crates lints ≡ record {
  heading = heading_row;
  rows =
      from_strings ("contract" ∷ "Analyzed" ∷ "0" ∷ "2" ∷ "0" ∷ "0" ∷ [])
      ∷ crate_row ⦃j = serde⦄ findings crates lints "library"
      ∷ [];
}
unfolding construct_table package_name code find_by_id
by_name = refl

abbrev status : Cell
status = record { content = "Status"; shade = importance header }

construct_table-aligned_example :
    (ws : List ℕ) × (get_column_widths (construct_table ⦃j = serde⦄ findings crates lints)
      ≡ some ws)
    × (w : ℕ) × (get_elem? ws 1 ≡ some w)
    × (byte_len (pad status w) ≡ w)
unfolding set_color from_strings
construct_table-aligned_example =
    construct_table-aligned ⦃j = serde⦄ findings crates lints 1 heading_row status
      (Memᴰ.head (sym (construct_table-heading ⦃j = serde⦄ findings crates lints))) refl

abbrev paths : PathOps
paths = record {
  join = λ a b. b;
  parent = λ p. none;
  file_name = λ p. some "lib.rs";
  strip_prefix = λ a b. none;
  first_component = λ p. some "src";
}

abbrev disk : FileSystem
disk = record {
  exists = λ p. true;
  is_dir = λ p. false;
  is_file = λ p. true;
  read = λ p. some (102 ∷ 110 ∷ 32 ∷ 109 ∷ []);
}

abbrev entry : ℕ → ℕ → ReportFinding
entry id index = record {
  id = id;
  occurrence_index = index;
  category_id = "Error handling";
  vulnerability_id = "unsafe_unwrap";
  error_message = "text";
  span = "lib.rs:{}:{} - {}:{}";
  code_snippet = "fn ";
  krate = "src";
  file_path = "src/lib.rs";
}

two_entries :
    process_findings ⦃j = serde⦄ paths disk (λ bytes. some "fn ") "/work" lints findings
    ≡ ok (entry 0 1 ∷ entry 2 2 ∷ [])
unfolding process_findings code find_by_id spans message json_to_string
two_entries = refl

process_findings-numbers_example :
    (map (λ (r : ReportFinding). r.vulnerability_id) (entry 0 1 ∷ entry 2 2 ∷ [])
      ≡ known_codes lints findings)
    × (map (λ (r : ReportFinding). r.occurrence_index) (entry 0 1 ∷ entry 2 2 ∷ [])
        ≡ indices [] (known_codes lints findings))
    × (map (λ (r : ReportFinding). r.id) (entry 0 1 ∷ entry 2 2 ∷ []) ≡ known_ids lints 0 findings)
process_findings-numbers_example =
    process_findings-numbers ⦃j = serde⦄ paths disk (λ bytes. some "fn ") "/work" lints findings
      two_entries

lints-IsKeyed : IsKeyed lints
unfolding insert new find_by_id
lints-IsKeyed = insert-IsKeyed new unwrap (λ id l e. cc)

mem-categories_of_example :
    Memᴰ
      (vulnerability_from unwrap)
      (in_class (categories_of lints (entry 0 1 ∷ entry 2 2 ∷ [])) "Error handling")
    ↔ ((f : ReportFinding) × (l : LintInfo) × Memᴰ f (entry 0 1 ∷ entry 2 2 ∷ [])
        × (find_by_id lints f.vulnerability_id ≡ some l)
        × (l.vulnerability_class ≡ "Error handling")
        × (vulnerability_from l ≡ vulnerability_from unwrap))
mem-categories_of_example =
    mem-categories_of lints (entry 0 1 ∷ entry 2 2 ∷ []) "Error handling"
      (vulnerability_from unwrap) lints-IsKeyed

-- two columns of three and one bytes
abbrev summary : Value
summary = object (
    field "header_order" (array (strings ("Crate" ∷ "Status" ∷ [])))
      (field "widths" (array (numbers (3 ∷ 1 ∷ []))) end))

print_separator-rule_example :
    print_separator ⦃j = serde⦄ (("summary", summary) ∷ []) ≡ string (rule (3 ∷ 1 ∷ []))
print_separator-rule_example =
    print_separator-rule ⦃j = serde⦄ (("summary", summary) ∷ []) summary ("Crate" ∷ "Status" ∷ [])
      (3 ∷ 1 ∷ []) refl refl refl refl (refl, (refl, tt)) refl

drawn : print_separator ⦃j = serde⦄ (("summary", summary) ∷ []) ≡ string "+-----+---+"
unfolding print_separator
drawn = refl
