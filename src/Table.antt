-- ===== src/Table.antt =====
-- scout/output/table.rs: the summary table, with one row for each crate.
pub mod Severities
pub mod Shape
pub mod Align
use scout_audit.Base.{
  ℕ, zero, suc, ◌+◌, String, Bool, true, false, not, ◌&&◌, Option, none, some, List, [], ◌∷◌, ◌++◌,
  map, foldl, and_then, unwrap_or, length, get_elem?, is_empty, byte_len, nat_eq, ltb, show, sorted,
  ◌==◌, if◌then◌else◌,
}
use Prim.Native.String
use mathlib.Core.Option
use scout_audit.Base.Map
use scout_audit.Base.Map.{Map}
use scout_audit.Json.{Serde}
use scout_audit.Finding.{Finding, code, package_name}
use scout_audit.Lints.{LintStore, LintInfo, find_by_id}

pub data Color : Type 0 where
  no_color red green blue cyan yellow magenta : Color

pub data Importance : Type 0 where
  plain info header warning important error : Importance

pub data SemanticColor : Type 0 where
  default_color : SemanticColor
  color : Color → SemanticColor
  importance : Importance → SemanticColor

pub record Cell : Type 0 where
  pub content : String
  pub shade : SemanticColor

pub record Row : Type 0 where
  pub cells : List Cell

pub record Table : Type 0 where
  pub heading : Row
  pub rows : List Row

unfoldable pub from_string : String → Cell
from_string s = record { content = s; shade = default_color }

-- `ret.push(' ')` while the text is short of the width; each round adds one byte
unfoldable pub pad_loop : ℕ → ℕ → String → String
pad_loop zero to_width ret = ret
pad_loop (suc fuel) to_width ret =
    let more = pad_loop fuel to_width (String.◌++◌ ret " ") in
    if ltb (byte_len ret) to_width then more else ret

unfoldable pub pad : Cell → ℕ → String
unfolding pad_loop
pad cell to_width = pad_loop to_width to_width cell.content

unfoldable pub from_strings : List String → Row
unfolding from_string
from_strings xs = record { cells = map from_string xs }

unfoldable pub set_color : Row → SemanticColor → Row
set_color row c = record {
  cells = map (λ (cell : Cell). record { content = cell.content; shade = c }) row.cells;
}

unfoldable pub new_table : Row → Table
new_table heading = record { heading = heading; rows = [] }

-- A row of another length than the header's is dropped.
unfoldable pub add_row : Table → Row → Table
add_row table row =
    if not (nat_eq (length row.cells) (length table.heading.cells))
    then table
    else record table { rows = table.rows ++ row ∷ [] }

-- `max` over the rows of the length of a cell; `none` where a row has no such cell
unfoldable pub widest : ℕ → List Row → ℕ → Option ℕ
widest i [] max = some max
widest i (row ∷ rows) max =
    and_then (get_elem? row.cells i)
      λ cell. widest i rows (if ltb max (byte_len cell.content) then byte_len cell.content else max)

-- the loop over the columns i, i + 1, …, of which there are n
unfoldable pub widths_from : Table → ℕ → ℕ → Option (List ℕ)
unfolding widest
widths_from table i zero = some []
widths_from table i (suc n) = and_then (get_elem? table.heading.cells i) λ cell.
    and_then (widest i table.rows (byte_len cell.content))
      λ width. Option.map (λ ws. width ∷ ws) (widths_from table (suc i) n)

unfoldable pub get_column_widths : Table → Option (List ℕ)
unfolding widths_from
get_column_widths table = widths_from table 0 (length table.heading.cells)

-- the array of four counts
pub record Counts : Type 0 where
  pub critical : ℕ
  pub medium : ℕ
  pub minor : ℕ
  pub enhancement : ℕ

-- the `match` on the severity; other severities count nowhere
unfoldable pub bump : String → Counts → Counts
bump severity counts =
    if severity == "Critical"
    then record counts { critical = counts.critical + 1 }
    else if severity == "Medium"
    then record counts { medium = counts.medium + 1 }
    else if severity == "Minor"
    then record counts { minor = counts.minor + 1 }
    else if severity == "Enhancement"
    then record counts { enhancement = counts.enhancement + 1 }
    else counts

abbrev pub heading_row : Row
heading_row =
    set_color
      (from_strings ("Crate" ∷ "Status" ∷ "Critical" ∷ "Medium" ∷ "Minor" ∷ "Enhancement" ∷ []))
      (importance header)

module _ ⦃j : Serde⦄ where
  -- the body of the loop of `count_findings`
  unfoldable pub count_finding : String → LintStore → Counts → Finding → Counts
  unfolding bump
  count_finding crate_to_find detectors_info ret finding =
      if not (package_name finding == crate_to_find)
      then ret
      else if is_empty (code finding)
      then ret
      else elim (find_by_id detectors_info (code finding)) [
        | none ↦ ret
        | some detector ↦ bump detector.severity ret
      ]

  unfoldable pub count_findings : List Finding → String → LintStore → Counts
  unfolding count_finding
  count_findings findings crate_to_find detectors_info =
      foldl (count_finding crate_to_find detectors_info)
        (record { critical = 0; medium = 0; minor = 0; enhancement = 0 }) findings

  -- the row of one crate
  unfoldable pub crate_row : List Finding → Map Bool → LintStore → String → Row
  unfolding count_findings from_strings from_string
  crate_row findings crates detectors_info krate =
      let counts = count_findings findings krate detectors_info in
      if not (unwrap_or (Map.get crates krate) false)
      then record {
        cells =
            from_string krate
            ∷ record { content = "Compilation errors"; shade = importance error }
            ∷ from_string "N/A"
            ∷ from_string "N/A"
            ∷ from_string "N/A"
            ∷ from_string "N/A"
            ∷ [];
      }
      else from_strings (
          krate
          ∷ "Analyzed"
          ∷ show counts.critical
          ∷ show counts.medium
          ∷ show counts.minor
          ∷ show counts.enhancement
          ∷ [])

  unfoldable pub construct_table : List Finding → Map Bool → LintStore → Table
  unfolding crate_row add_row new_table set_color from_strings
  construct_table findings crates detectors_info =
      foldl (λ table krate. add_row table (crate_row findings crates detectors_info krate))
        (new_table heading_row) (sorted (map (λ (e : String × Bool). e.0) crates))
