-- ===== src/Report/Reading.antt =====
-- What scout/output/raw_report.rs reads from one message: its code, its file, its lines and the text
-- in the file.
use scout_audit.Base.{
  ℕ, zero, suc, ◌-◌, String, Option, none, some, List, [], ◌∷◌, Result, ok, err, ok_or, ◌>>=◌,
  and_then, unwrap_or, length, is_empty, ltb, if◌then◌else◌,
}
use Prim.Native.String
use scout_audit.Json.{Value, array, null, cons, get, at, as_u64, Serde}
use scout_audit.Paths.{PathOps, FileSystem}
use scout_audit.Finding.{Finding, json_to_string, code, spans, message}

pub record FileDetails : Type 0 where
  pub relative_path : String
  pub absolute_path : String
  pub krate : String

-- The errors of the report. `inverted_span` is the subtraction `byte_end - byte_start` below zero,
-- which panics.
pub data ReportError : Type 0 where
  no_category no_file_name no_span no_byte_start no_byte_end : ReportError
  not_opened not_read not_utf8 inverted_span : ReportError

unfoldable pub get_code : Finding → Result ReportError String
get_code finding = if is_empty (code finding) then err no_category else ok (code finding)

unfoldable pub parse_error_message : Finding → String
parse_error_message finding =
    if is_empty (message finding) then "Error message not available" else message finding

-- the bytes from a position on, of which there must be as many as are asked for
unfoldable pub read_exact : ℕ → ℕ → List ℕ → Option (List ℕ)
read_exact start len bytes =
    let rest = drop_bytes start bytes in
    if ltb (length rest) len then none else some (take_bytes len rest)
  where
    drop_bytes : ℕ → List ℕ → List ℕ
    drop_bytes n [] = []
    drop_bytes zero (b ∷ bs) = b ∷ bs
    drop_bytes (suc n) (b ∷ bs) = drop_bytes n bs

    take_bytes : ℕ → List ℕ → List ℕ
    take_bytes n [] = []
    take_bytes zero (b ∷ bs) = []
    take_bytes (suc n) (b ∷ bs) = b ∷ take_bytes n bs

-- `from_utf8` decodes bytes.
unfoldable pub extract_code_snippet :
    FileSystem → (List ℕ → Option String) → String → Finding → Result ReportError String
unfolding read_exact
extract_code_snippet fs from_utf8 file_path finding = do
  all_spans ← ok_or (spans finding) no_span
  first_span ← ok_or (at all_spans 0) no_span
  byte_start ← ok_or (and_then (get first_span "byte_start") as_u64) no_byte_start
  byte_end ← ok_or (and_then (get first_span "byte_end") as_u64) no_byte_end
  file ← ok_or (fs.read file_path) not_opened
  buffer ←
      (if ltb byte_end byte_start
        then err inverted_span
        else ok_or (read_exact byte_start (byte_end - byte_start) file) not_read)
  ok_or (from_utf8 buffer) not_utf8

module _ ⦃j : Serde⦄ where
  -- a field of the first span as it is printed, `null` where it is missing
  abbrev shown : Value → String → String
  shown span key = j.to_string (unwrap_or (get span key) null)

  unfoldable pub span_text : String → Value → String
  span_text file_name span = join_all (
      file_name
      ∷ ":"
      ∷ shown span "line_start"
      ∷ ":"
      ∷ shown span "column_start"
      ∷ " - "
      ∷ shown span "line_end"
      ∷ ":"
      ∷ shown span "column_end"
      ∷ [])
    where
      join_all : List String → String
      join_all [] = ""
      join_all (s ∷ ss) = String.◌++◌ s (join_all ss)

  unfoldable pub parse_span : Finding → String → String
  unfolding span_text
  parse_span finding file_name = elim (spans finding) [
    | some (array (cons span _)) ↦ span_text file_name span
    | _ ↦ "Span information not available"
  ]

  unfoldable pub parse_file_details : PathOps → Finding → String → Result ReportError FileDetails
  parse_file_details paths finding workspace_root = do
    all_spans ← ok_or (spans finding) no_file_name
    name ← ok_or (and_then (at all_spans 0) (λ span. get span "file_name")) no_file_name
    let relative_path = json_to_string name
    ok (record {
      relative_path = relative_path;
      absolute_path = paths.join workspace_root relative_path;
      krate = unwrap_or (paths.first_component relative_path) "";
    })
