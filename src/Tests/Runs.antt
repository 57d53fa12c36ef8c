-- ===== src/Tests/Runs.antt =====
-- A run in CI with one finding, and a run that asks for the version of the sources.
use Prim.Native.String
use scout_audit.Base.{
  Bool, ◌≡◌, ◌⊎◌, refl, ℕ, String, true, false, Option, none, some, List, [], ◌∷◌, ◌==◌, ok,
  contains_text, if◌then◌else◌,
}
use scout_audit.Base.Map.{Map}
use scout_audit.Json.{Serde}
use scout_audit.Paths.{PathOps, FileSystem}
use scout_audit.Selection.{ScoutConfig}
use scout_audit.Cli.{Scout, validate, get_fail_path, printed}
use scout_audit.Finding.{
  Finding, is_scout_finding, reason, package_id, package_name, is_compiler_error, code, message,
}
use scout_audit.Graph.{new, list_all_dependants}
use scout_audit.Graph.Walk.{walk, range}
use scout_audit.Lints.{LintInfo, find_by_id}
use scout_audit.Report.{Project}
use scout_audit.Run.{
  prepare_scout_input, RunInfo, ScoutResult, Stages, created, removed, run_scout, analyse,
}
use scout_audit.Run.FailFile.{IsClean, run_scout-fail_file}
use scout_audit.Run.Reported.{Observed, Reports, analyse-Reports}
use scout_audit.Tests.Data.{unchanged, workspace, warning, analysed}

abbrev unwrapped : Finding
unwrapped = warning "contract" "unsafe_unwrap" 3 4

-- every line that says `text` is the finding
abbrev serde : Serde
serde = record {
  to_string = λ v. "{}";
  from_str = λ s. if contains_text "text" s then some unwrapped.value else none;
}

abbrev disk : FileSystem
disk = record { exists = λ p. false; is_dir = λ p. false; is_file = λ p. false; read = λ p. none }

abbrev paths : PathOps
paths = record {
  join = λ a b. String.◌++◌ a (String.◌++◌ "/" b);
  parent = λ p. none;
  file_name = λ p. some p;
  strip_prefix = λ p root. none;
  first_component = λ p. some p;
}

abbrev utf8 : List ℕ → Option String
utf8 _ = none

abbrev yaml : String → Option ScoutConfig
yaml _ = none

abbrev lint : LintInfo
lint = record {
  id = "unsafe_unwrap";
  name = "Unsafe Unwrap";
  short_message = "";
  long_message = "";
  severity = "critical";
  help = "";
  vulnerability_class = "";
}

abbrev project : Project
project = record {
  name = "contract";
  date = "";
  workspace_root = "/work";
  packages = analysed "contract" ∷ analysed "library" ∷ [];
}

abbrev stages : Stages
stages = record {
  Config = String;
  source_digest = "digest";
  get_metadata = λ _. some workspace;
  rustup = printed none;
  cargo_config = true;
  detectors_config = λ _ _ _ _. some "";
  detector_names = λ _ _ _. some ("unsafe-unwrap" ∷ []);
  build = λ _ _ _ _. some ("libunsafe_unwrap.so" ∷ []);
  detectors_info = λ _ _ _. some (record { lints = ("unsafe_unwrap", lint) ∷ [] });
  pretty = λ _. "";
  get_info = λ _. some project;
  run_dylint = λ _ _ _ _. some "stdout";
  temp_file_to_string = λ _. some "text";
  write_stdout = λ _. true;
  render_report = λ _ _ _. true;
  generate_report = λ _ _ _ _ _ _ _. true;
  to_lowercase = λ s. s;
  to_uppercase = λ s. if s == "critical" then "CRITICAL" else s;
  hash_order = unchanged;
  map_order = λ m. m;
}

abbrev digest_opts : Scout
digest_opts = record {
  manifest_path = none;
  exclude = none;
  filter = none;
  list_detectors = false;
  args = [];
  output_format = [];
  output_path = none;
  local_detectors = none;
  verbose = false;
  toolchain = false;
  detectors_metadata = false;
  debug = false;
  src_hash = true;
  cicd = some "ci";
  scout_source = none;
}

abbrev opts : Scout
opts = record digest_opts { src_hash = false }

accepted : validate paths disk opts ≡ ok tt
unfolding validate
accepted = refl

fail_path : get_fail_path paths disk opts ≡ some "ci/FAIL"
unfolding get_fail_path
fail_path = refl

run_scout-fail_file_example :
    (((run_scout ⦃j = serde⦄ paths disk utf8 yaml stages opts).1
        ≡ created "ci/FAIL" ∷ removed "ci/FAIL" ∷ [])
      × IsClean ⦃j = serde⦄ paths disk utf8 yaml stages opts)
    ⊎ (((run_scout ⦃j = serde⦄ paths disk utf8 yaml stages opts).1 ≡ created "ci/FAIL" ∷ [])
        × ¬ IsClean ⦃j = serde⦄ paths disk utf8 yaml stages opts)
run_scout-fail_file_example =
    run_scout-fail_file ⦃j = serde⦄ paths disk utf8 yaml stages opts "ci/FAIL" fail_path accepted

abbrev run : RunInfo
run = record {
  inside_vscode = false;
  project_info = project;
  metadata = workspace;
  filtered_detectors = "unsafe-unwrap" ∷ [];
  detectors_info = record { lints = ("unsafe_unwrap", lint) ∷ [] };
  detectors_paths = "libunsafe_unwrap.so" ∷ [];
  output_format = [];
  toolchain = "nightly-2026-05-28";
}

abbrev outcome : ScoutResult
outcome = record { findings = unwrapped ∷ []; stdout_helper = "[CRITICAL] text" }

-- the finding is tagged, and it is reported
one_finding : analyse ⦃j = serde⦄ paths disk utf8 yaml stages opts run ≡ ok outcome
unfolding analyse is_scout_finding reason package_id package_name new list_all_dependants walk range
    is_compiler_error code message find_by_id
one_finding = refl

analyse-Reports_example :
    (raw : String) × (raw_findings : List Finding) × (crates : Map Bool) × Observed ⦃j = serde⦄
      paths disk utf8 yaml stages opts run raw raw_findings crates
    × Reports ⦃j = serde⦄ paths disk utf8 yaml stages run raw raw_findings crates outcome
analyse-Reports_example =
    analyse-Reports ⦃j = serde⦄ paths disk utf8 yaml stages opts run outcome one_finding

-- the finding is left, so the FAIL file stays
kept : (run_scout ⦃j = serde⦄ paths disk utf8 yaml stages opts).1 ≡ created "ci/FAIL" ∷ []
unfolding run_scout validate prepare_scout_input get_fail_path analyse is_scout_finding reason
    package_id package_name new list_all_dependants walk range is_compiler_error code message
    find_by_id mathlib.Core.List.flat_map
kept = refl

-- the version of the sources is printed, and the FAIL file stays
asked :
    (run_scout ⦃j = serde⦄ paths disk utf8 yaml stages digest_opts)
    ≡ (ok (record { findings = []; stdout_helper = "digest\n" }), created "ci/FAIL" ∷ [])
unfolding run_scout validate prepare_scout_input get_fail_path
asked = refl
