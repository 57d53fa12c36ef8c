-- ===== src/Run.antt =====
-- run.rs and result.rs: a run of scout-audit, from the options to the findings, with the FAIL file of
-- a run in CI. What other programs and the parts that are not modelled do is the record `Stages`;
-- the printing, the telemetry and the check for updates, whose failures are ignored, are left out.
pub mod FailFile
pub mod Reported
use scout_audit.Base.{
  ℕ, String, Bool, true, false, not, ◌&&◌, ◌||◌, Option, none, some, List, [], ◌∷◌, ◌++◌, Result,
  ok, err, ◌>>=◌, map_err, ok_or, filter, find, contains, contains_text, replace_text, lines,
  if◌then◌else◌,
}
use Prim.Native.String
use scout_audit.Base.Map.{Map}
use scout_audit.Json.{Serde, Value}
use scout_audit.Metadata.{Metadata}
use scout_audit.Paths.{PathOps, FileSystem}
use scout_audit.Finding.{Finding, is_scout_finding, code, message}
use scout_audit.Graph.{GraphError}
use scout_audit.Crates.{get_crates, split_findings}
use scout_audit.PostProcessing.{process}
use scout_audit.Lints.{LintStore, LintInfo, find_by_id}
use scout_audit.Selection.{
  OutputFormat, BlockChain, ScoutConfig, ProfileConfig, SelectionError, get_config,
  get_filtered_detectors, get_excluded_detectors,
}
use scout_audit.Cli.{
  Scout, CliError, BlockchainError, Rustup, validate, get_fail_path, prepare_args, get_toolchain,
  get_blockchain_dependency,
}
use scout_audit.Report.{Project}

pub record ScoutResult : Type 0 where
  pub findings : List Finding
  pub stdout_helper : String

unfoldable pub from_string : String → ScoutResult
from_string s = record { findings = []; stdout_helper = String.◌++◌ s "\n" }

-- The `ScoutError`s and the other errors of a run; `malformed_output` is the panic of `unwrap`.
pub data RunError : Type 0 where
  validate_failed : CliError → RunError
  blockchain_failed : BlockchainError → RunError
  selection_failed : SelectionError → RunError
  crates_failed : GraphError → RunError
  metadata_failed cargo_config_failed detectors_config_failed detector_names_failed : RunError
  build_detectors_failed detectors_info_failed project_info_failed run_dylint_failed : RunError
  output_unreadable malformed_output nothing_analyzed write_failed report_failed : RunError

pub record RunInfo : Type 0 where
  pub inside_vscode : Bool
  pub project_info : Project
  pub metadata : Metadata
  pub filtered_detectors : List String
  pub detectors_info : LintStore
  pub detectors_paths : List String
  pub output_format : List OutputFormat
  pub toolchain : String

-- `EitherInfoOrScoutResult`; the options, which `prepare_args` changes, go along.
pub data Prepared : Type 0 where
  info : RunInfo → Scout → Prepared
  scout_result : ScoutResult → Prepared

pub record Stages : Type 1 where
  pub Config : Type 0
  pub source_digest : String
  pub get_metadata : Option String → Option Metadata
  pub rustup : Rustup
  pub cargo_config : Bool
  pub detectors_config : BlockChain → String → Option String → Metadata → Option Config
  pub detector_names : Config → Metadata → String → Option (List String)
  pub build : Config → Metadata → String → List String → Option (List String)
  pub detectors_info : String → List String → Option String → Option LintStore
  pub pretty : LintStore → String
  pub get_info : Metadata → Option Project
  pub run_dylint : String → List String → Scout → Bool → Option String
  pub temp_file_to_string : String → Option String
  pub write_stdout : String → Bool
  pub render_report : List Finding → Map Bool → LintStore → Bool
  pub generate_report :
      List Finding
      → List Finding
      → Map Bool
      → Project
      → LintStore
      → Option String
      → List OutputFormat
      → Bool
  pub to_lowercase : String → String
  pub to_uppercase : String → String
  pub hash_order : List String → List String
  pub map_order : Map Bool → List (String × Bool)

-- What a run asks of the file system about the FAIL file; the answers are ignored.
pub data FileOp : Type 0 where
  created removed : String → FileOp

abbrev pub is_nil {ℓ} : {A : Type ℓ} → List A → Bool
is_nil [] = true
is_nil (_ ∷ _) = false

abbrev pub ensure : Bool → RunError → Result RunError Bool
ensure true e = ok true
ensure false e = err e

module _ ⦃j : Serde⦄ where
  -- `output_to_json`, and `Finding::new` on each value
  unfoldable pub output_to_json : List String → Result RunError (List Finding)
  output_to_json [] = ok []
  output_to_json (line ∷ rest) = do
    value ← ok_or (j.from_str line) malformed_output
    findings ← output_to_json rest
    ok (record { value = value } ∷ findings)

  -- the loop body of `set_severity`
  unfoldable pub tag_message :
      (String → String) → List String → LintStore → String → Finding → String
  tag_message to_uppercase detector_names detectors_info raw finding =
      if not (is_scout_finding finding detector_names)
      then raw
      else elim (find_by_id detectors_info (code finding)) [
        | none ↦ raw
        | some detector ↦
            let val = message finding in
            let tagged =
              String.◌++◌ "["
                (String.◌++◌ (to_uppercase detector.severity) (String.◌++◌ "] " val)) in
            if contains_text val raw && not (contains_text tagged raw)
            then replace_text val tagged raw
            else raw
      ]

  unfoldable pub tag_messages :
      (String → String) → List String → LintStore → List Finding → String → String
  unfolding tag_message
  tag_messages to_uppercase detector_names detectors_info [] raw = raw
  tag_messages to_uppercase detector_names detectors_info (finding ∷ findings) raw =
      tag_messages to_uppercase detector_names detectors_info findings
        (tag_message to_uppercase detector_names detectors_info raw finding)

  unfoldable pub set_severity :
      (String → String)
      → List String
      → LintStore
      → List Finding
      → String
      → Result RunError (String × List Finding)
  unfolding tag_messages output_to_json
  set_severity to_uppercase detector_names detectors_info raw_findings raw =
      let tagged = tag_messages to_uppercase detector_names detectors_info raw_findings raw in
      do findings ← output_to_json (lines tagged); ok (tagged, findings)

-- whether one of the paths names the detector of unnecessary allows
unfoldable pub has_allow_detector : List String → Bool
has_allow_detector [] = false
has_allow_detector (path ∷ paths) =
    contains_text "unnecessary_lint_allow" path || has_allow_detector paths

module _ ⦃j : Serde⦄ (paths : PathOps) (fs : FileSystem) (from_utf8 : List ℕ → Option String)
    (from_yaml : String → Option ScoutConfig) (stages : Stages) where
  -- the detectors that run: `--filter` before `--exclude`
  unfoldable pub select :
      Option String → Option String → List String → Result SelectionError (List String)
  unfolding get_filtered_detectors get_excluded_detectors
  select (some filter_arg) exclude names =
      get_filtered_detectors stages.to_lowercase filter_arg names
  select none (some excluded) names = ok (get_excluded_detectors stages.to_lowercase excluded names)
  select none none names = ok names

  -- `prepare_scout_input` once the detectors of the profile are known
  unfoldable pub load_detectors :
      Scout → Metadata → String → stages.Config → ProfileConfig → Result RunError Prepared
  unfolding select from_string
  load_detectors opts metadata toolchain config profile =
      if opts.list_detectors
      then ok (scout_result (record { findings = []; stdout_helper = "" }))
      else do
        filtered ← map_err selection_failed (select opts.filter opts.exclude profile.detector_names)
        built ← ok_or (stages.build config metadata toolchain filtered) build_detectors_failed
        lints ←
            ok_or (stages.detectors_info toolchain built opts.scout_source) detectors_info_failed
        if opts.detectors_metadata
            then ok (scout_result (from_string (stages.pretty lints)))
            else do
              project ← ok_or (stages.get_info metadata) project_info_failed
              ok (
                  info
                    (record {
                      inside_vscode = contains opts.args "--message-format=json";
                      project_info = project;
                      metadata = metadata;
                      filtered_detectors = filtered;
                      detectors_info = lints;
                      detectors_paths = built;
                      output_format = profile.output_format;
                      toolchain = toolchain;
                    })
                    opts)

  -- `prepare_scout_input` from the project's metadata on
  unfoldable pub prepare_project : Scout → Result RunError Prepared
  unfolding load_detectors get_blockchain_dependency prepare_args get_toolchain get_config
  prepare_project opts = do
    metadata ← ok_or (stages.get_metadata opts.manifest_path) metadata_failed
    blockchain ← map_err blockchain_failed (get_blockchain_dependency metadata)
    toolchain ← map_err blockchain_failed (get_toolchain stages.rustup)
    let opts' = prepare_args opts blockchain
    if opts'.toolchain then ok (scout_result (from_string toolchain)) else do
      _ ← ensure stages.cargo_config cargo_config_failed
      config ←
          ok_or (stages.detectors_config blockchain toolchain opts'.local_detectors metadata)
            detectors_config_failed
      names ← ok_or (stages.detector_names config metadata toolchain) detector_names_failed
      profile ← map_err selection_failed (
          get_config paths fs from_utf8 from_yaml
            (record {
              blockchain = blockchain;
              detector_names = names;
              output_format = opts'.output_format;
            })
            metadata)
      load_detectors opts' metadata toolchain config profile

  -- `prepare_scout_input` after the FAIL file is made
  unfoldable pub prepare_scout_input : Scout → Result RunError Prepared
  unfolding prepare_project from_string
  prepare_scout_input opts =
      if opts.src_hash
      then ok (scout_result (from_string stages.source_digest))
      else prepare_project opts

  -- what is left of the findings, and the output for an editor
  unfoldable pub post_process : RunInfo → List Finding → Map Bool → String → List Finding × String
  unfolding split_findings process has_allow_detector
  post_process i raw_findings crates text =
      let findings = filter (λ x. is_scout_finding x i.filtered_detectors) raw_findings in
      let successful = (split_findings findings crates).0 in
      if has_allow_detector i.detectors_paths
      then process successful raw_findings i.inside_vscode
      else (successful, text)

  -- writing the output for an editor, or the reports
  unfoldable pub write_output :
      Scout → RunInfo → List Finding → Map Bool → List Finding × String → Result RunError Bool
  write_output opts i raw_findings crates (console_findings, output) =
      if i.inside_vscode then ensure (stages.write_stdout output) write_failed else do
        _ ← ensure (stages.render_report console_findings crates i.detectors_info) report_failed
        ensure
            (stages.generate_report console_findings raw_findings crates i.project_info
              i.detectors_info opts.output_path i.output_format)
            report_failed

  -- `run_scout` once the crates are known
  unfoldable pub report :
      Scout → RunInfo → String → List Finding → Map Bool → Result RunError ScoutResult
  unfolding set_severity post_process write_output
  report opts i raw raw_findings crates = do
    tagged ← set_severity stages.to_uppercase i.filtered_detectors i.detectors_info raw_findings raw
    _ ← ensure (not (is_nil crates && not i.inside_vscode)) nothing_analyzed
    let out = post_process i tagged.1 crates tagged.0
    _ ← write_output opts i tagged.1 crates out
    ok (record { findings = out.0; stdout_helper = out.1 })

  -- `run_scout` on the output of `run_dylint`
  unfoldable pub analyse_output : Scout → RunInfo → String → Result RunError ScoutResult
  unfolding output_to_json get_crates report
  analyse_output opts i raw = do
    raw_findings ← output_to_json (lines raw)
    crates ← map_err crates_failed (
        get_crates stages.hash_order i.metadata stages.map_order raw_findings
          i.project_info.packages)
    report opts i raw raw_findings crates

  -- `run_scout` from `run_dylint` on
  unfoldable pub analyse : Scout → RunInfo → Result RunError ScoutResult
  unfolding analyse_output
  analyse opts i = do
    stdout ←
        ok_or (stages.run_dylint i.toolchain i.detectors_paths opts i.inside_vscode)
          run_dylint_failed
    raw ← ok_or (stages.temp_file_to_string stdout) output_unreadable
    analyse_output opts i raw

  abbrev pub fail_file : (String → FileOp) → Scout → List FileOp
  fail_file op opts = elim (get_fail_path paths fs opts) [ none ↦ [] | some path ↦ op path ∷ [] ]

  unfoldable pub run_scout : Scout → Result RunError ScoutResult × List FileOp
  run_scout opts = elim (validate paths fs opts) [
    | err e ↦ (err (validate_failed e), [])
    | ok _ ↦ elim (prepare_scout_input opts) [
      | err e ↦ (err e, fail_file created opts)
      | ok (scout_result r) ↦ (ok r, fail_file created opts)
      | ok (info i opts') ↦ elim (analyse opts' i) [
        | err e ↦ (err e, fail_file created opts)
        | ok r ↦ (
          ok r,
          fail_file created opts ++ (if is_nil r.findings then fail_file removed opts' else []),
        )
      ]
    ]
  ]
