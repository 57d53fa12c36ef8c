-- ===== src/Cli.antt =====
-- cli_args/mod.rs: the options of `cargo scout-audit`, the toolchain and the kind of project.
pub mod Laws
pub mod Toolchain
pub mod Validation
use scout_audit.Base.{
  ℕ, String, Bool, true, false, not, ◌&&◌, ◌||◌, ◌==◌, Option, none, some, List, [], ◌∷◌, ◌++◌,
  Result, ok, err, ◌>>=◌, and_then, any, find, filter_map, contains, byte_len, split_char, nat_eq,
  is_ascii_digit, all_chars, starts_with, if◌then◌else◌,
}
use Prim.Native.String
use scout_audit.Metadata.{Metadata, MetaPackage}
use scout_audit.Paths.{PathOps, FileSystem}
use scout_audit.Selection.{BlockChain, soroban, OutputFormat}
use mathlib.Core.Option
use mathlib.Core.List.{flat_map}

abbrev pub concat : String → String → String
concat = String.◌++◌

unfoldable pub get_detectors_path : BlockChain → String
get_detectors_path soroban = "soroban"

-- the tests on the parts that `split('-')` gives after `nightly`
unfoldable pub dated : String → String → String → Bool
dated year month day =
    nat_eq (byte_len year) 4
    && nat_eq (byte_len month) 2
    && nat_eq (byte_len day) 2
    && all_chars is_ascii_digit year
    && all_chars is_ascii_digit month
    && all_chars is_ascii_digit day

-- `format!("nightly-{year}-{month}-{day}")`
unfoldable pub nightly : String → String → String → String
nightly year month day =
    concat "nightly-" (concat year (concat "-" (concat month (concat "-" day))))

unfoldable pub parse_parts : List String → Option String
unfolding dated nightly
parse_parts (channel ∷ year ∷ month ∷ day ∷ _) =
    if not (channel == "nightly")
    then none
    else if dated year month day
    then some (nightly year month day)
    else none
parse_parts _ = none

unfoldable pub parse_nightly_toolchain : String → Option String
unfolding parse_parts
parse_nightly_toolchain active_toolchain = parse_parts (split_char "-" active_toolchain)

pub data CliError : Type 0 where
  output_path_is_directory : String → CliError
  scout_sources_path_does_not_exist : String → CliError
  scout_sources_path_is_not_directory : String → CliError
  local_detectors_path_does_not_exist : String → CliError
  local_detectors_path_is_not_directory : String → CliError
  manifest_path_does_not_exist : String → CliError
  manifest_path_is_not_file : String → CliError

pub data BlockchainError : Type 0 where
  unsupported_dependency toolchain_error : BlockchainError

-- What `rustup show active-toolchain` did: it could not be run, it failed, or it printed this,
-- of which `first_word` is the first part of `split_whitespace`.
pub data Rustup : Type 0 where
  not_run failed : Rustup
  printed : (first_word : Option String) → Rustup

unfoldable pub get_project_toolchain : Rustup → Result BlockchainError (Option String)
unfolding parse_nightly_toolchain
get_project_toolchain not_run = err toolchain_error
get_project_toolchain failed = ok none
get_project_toolchain (printed first_word) = ok (and_then first_word parse_nightly_toolchain)

unfoldable pub get_toolchain : Rustup → Result BlockchainError String
unfolding get_project_toolchain
get_toolchain rustup = do
  toolchain ← get_project_toolchain rustup
  ok (elim toolchain [ some t ↦ t | none ↦ "nightly-2026-05-28" ])

-- The names that the workspace's own packages declare as dependencies; the set is a list here.
unfoldable pub get_immediate_dependencies : Metadata → List String
get_immediate_dependencies metadata =
    flat_map (λ (p : MetaPackage). p.dependencies)
      (filter_map (λ x. find (λ (p : MetaPackage). p.id == x) metadata.packages)
        metadata.workspace_members)

unfoldable pub get_blockchain_dependency : Metadata → Result BlockchainError BlockChain
unfolding get_immediate_dependencies
get_blockchain_dependency metadata =
    if contains (get_immediate_dependencies metadata) "soroban-sdk"
    then ok soroban
    else err unsupported_dependency

pub record Scout : Type 0 where
  pub manifest_path : Option String
  pub exclude : Option String
  pub filter : Option String
  pub list_detectors : Bool
  pub args : List String
  pub output_format : List OutputFormat
  pub output_path : Option String
  pub local_detectors : Option String
  pub verbose : Bool
  pub toolchain : Bool
  pub detectors_metadata : Bool
  pub debug : Bool
  pub src_hash : Bool
  pub cicd : Option String
  pub scout_source : Option String

unfoldable pub has_target_arg : List String → Bool
has_target_arg args = any (λ arg. arg == "--target" || starts_with "--target=" arg) args

unfoldable pub prepare_args : Scout → BlockChain → Scout
unfolding has_target_arg
prepare_args opts soroban =
    let args =
      if not (has_target_arg opts.args)
      then opts.args ++ ("--target=wasm32v1-none" ∷ "--no-default-features" ∷ [])
      else opts.args in
    record opts { args = if not opts.debug then args ++ ("--release" ∷ []) else args }

module _ (paths : PathOps) (fs : FileSystem) where
  unfoldable pub check_output : Option String → Result CliError (Unit {0})
  check_output none = ok tt
  check_output (some path) = if fs.is_dir path then err (output_path_is_directory path) else ok tt

  -- the test that two of the paths share, with their two errors
  unfoldable pub check_dir :
      (String → CliError) → (String → CliError) → Option String → Result CliError (Unit {0})
  check_dir missing not_dir none = ok tt
  check_dir missing not_dir (some path) =
      if not (fs.exists path)
      then err (missing path)
      else if not (fs.is_dir path)
      then err (not_dir path)
      else ok tt

  unfoldable pub check_manifest : Option String → Result CliError (Unit {0})
  check_manifest none = ok tt
  check_manifest (some path) =
      if not (fs.exists path)
      then err (manifest_path_does_not_exist path)
      else if not (fs.is_file path)
      then err (manifest_path_is_not_file path)
      else ok tt

  unfoldable pub validate : Scout → Result CliError (Unit {0})
  unfolding check_output check_dir check_manifest
  validate opts = do
    _ ← check_output opts.output_path
    _ ←
        check_dir scout_sources_path_does_not_exist scout_sources_path_is_not_directory
          opts.scout_source
    _ ←
        check_dir local_detectors_path_does_not_exist local_detectors_path_is_not_directory
          opts.local_detectors
    check_manifest opts.manifest_path

  unfoldable pub get_fail_path : Scout → Option String
  get_fail_path opts = Option.map (λ path. paths.join path "FAIL") opts.cicd
