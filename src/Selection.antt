-- ===== src/Selection.antt =====
-- util/detectors.rs and config/mod.rs: which detectors run, by `--filter`, by `--exclude`, and by the
-- project's configuration file.
pub mod Config
pub mod Laws
use scout_audit.Base.{
  ℕ, String, Bool, true, false, not, Option, none, some, List, [], ◌∷◌, ◌++◌, map, Result, ok, err,
  ◌>>=◌, and_then, filter, find, filter_map, contains, is_empty, split_char, trim, replace_char,
  if◌then◌else◌,
}
use scout_audit.Metadata.{Metadata, MetaPackage}
use scout_audit.Paths.{PathOps, FileSystem}
use mathlib.Core.Option

-- cli_args/mod.rs
pub data OutputFormat : Type 0 where
  html json raw_json raw_single_json unfiltered_json markdown markdown_github sarif pdf :
      OutputFormat

pub data BlockChain : Type 0 where
  soroban : BlockChain

-- The `anyhow` errors: an unknown name in `--filter`, or a configuration file that cannot be read,
-- does not parse, or excludes an unknown name.
pub data SelectionError : Type 0 where
  no_such_detector unreadable_config malformed_config unknown_excluded : String → SelectionError

-- the closure of `try_fold`, over the parsed names
unfoldable pub push_known :
    List String → List String → List String → Result SelectionError (List String)
push_known detectors_set [] acc = ok acc
push_known detectors_set (detector ∷ parsed) acc =
    if contains detectors_set detector
    then push_known detectors_set parsed (acc ++ detector ∷ [])
    else err (no_such_detector detector)

-- `to_lowercase` is that of Rust's `str`, which follows the Unicode tables.
module _ (to_lowercase : String → String) where
  unfoldable pub parse_detectors : String → List String
  parse_detectors detectors =
      filter (λ s. not (is_empty s))
        (map (λ detector. replace_char "_" "-" (trim detector))
          (split_char "," (to_lowercase detectors)))

  unfoldable pub get_filtered_detectors : String → List String → Result SelectionError (List String)
  unfolding parse_detectors push_known
  get_filtered_detectors filter_arg detectors_names =
      push_known detectors_names (parse_detectors filter_arg) []

  unfoldable pub get_excluded_detectors : String → List String → List String
  unfolding parse_detectors
  get_excluded_detectors excluded detectors_names =
      let excluded_set = parse_detectors excluded in
      filter (λ name. not (contains excluded_set name)) detectors_names

pub record ScoutConfig : Type 0 where
  pub exclude : List String
  pub output_format : List OutputFormat

pub record ProfileConfig : Type 0 where
  pub blockchain : BlockChain
  pub detector_names : List String
  pub output_format : List OutputFormat

unfoldable pub validate_config : ProfileConfig → List String → Result SelectionError (Unit {0})
validate_config profile [] = ok tt
validate_config profile (excluded ∷ rest) =
    if contains profile.detector_names excluded
    then validate_config profile rest
    else err (unknown_excluded excluded)

-- `from_utf8` decodes a file's bytes, and `from_yaml` is `serde_yaml::from_str`.
module _ (paths : PathOps) (fs : FileSystem) (from_utf8 : List ℕ → Option String)
    (from_yaml : String → Option ScoutConfig) where
  abbrev pub config_in : String → String
  config_in dir = paths.join (paths.join dir ".scout-audit") "config.yaml"

  unfoldable pub find_config_path : Metadata → Option String
  find_config_path metadata = find fs.exists (
      filter_map (λ x. x)
        (Option.map config_in
            (and_then metadata.root_package (λ (p : MetaPackage). paths.parent p.manifest_path))
          ∷ some (config_in metadata.workspace_root)
          ∷ []))

  unfoldable pub read_config : String → Result SelectionError ScoutConfig
  read_config path = elim (and_then (fs.read path) from_utf8) [
    | none ↦ err (unreadable_config path)
    | some contents ↦ elim (from_yaml contents) [
      | none ↦ err (malformed_config path)
      | some config ↦ ok config
    ]
  ]

  unfoldable pub load_project_config :
      ProfileConfig → Metadata → Result SelectionError (Option ScoutConfig)
  unfolding find_config_path read_config validate_config
  load_project_config profile metadata = elim (find_config_path metadata) [
    | none ↦ ok none
    | some path ↦ do
      config ← read_config path
      _ ← validate_config profile config.exclude
      ok (some config)
  ]

  -- what `get_config` makes of the configuration
  abbrev pub apply_config : ProfileConfig → Option ScoutConfig → ProfileConfig
  apply_config profile none = profile
  apply_config profile (some config) = record {
    blockchain = profile.blockchain;
    detector_names = filter (λ name. not (contains config.exclude name)) profile.detector_names;
    output_format = config.output_format;
  }

  unfoldable pub get_config : ProfileConfig → Metadata → Result SelectionError ProfileConfig
  unfolding load_project_config
  get_config profile metadata = do
    config ← load_project_config profile metadata
    ok (apply_config profile config)
