-- ===== src/Tests/Options.antt =====
-- The options of one run, and two toolchains.
use scout_audit.Base.{
  ◌≡◌, ◌↔◌, refl, true, false, not, none, some, List, [], ◌∷◌, ◌++◌, ◌||◌, String, ok, contains,
  any, if◌then◌else◌,
}
use scout_audit.Selection.{soroban}
use scout_audit.Cli.{printed, get_toolchain, Scout, prepare_args, get_blockchain_dependency}
use scout_audit.Cli.Laws.{
  is_target, targets, prepare_args-extends, get_blockchain_dependency-Declares, Declares,
}
use scout_audit.Base.{◌==◌}
use scout_audit.Paths.{PathOps, FileSystem}
use scout_audit.Cli.{validate}
use scout_audit.Cli.Validation.{is_valid, validate-ok}
use scout_audit.Tests.Data.{workspace}

toolchain_of_project :
    get_toolchain (printed (some "nightly-2025-08-07-x86_64-unknown-linux-gnu"))
    ≡ ok "nightly-2025-08-07"
unfolding get_toolchain
toolchain_of_project = refl

abbrev opts : Scout
opts = record {
  manifest_path = none;
  exclude = none;
  filter = none;
  list_detectors = false;
  args = "--locked" ∷ [];
  output_format = [];
  output_path = none;
  local_detectors = none;
  verbose = false;
  toolchain = false;
  detectors_metadata = false;
  debug = false;
  src_hash = false;
  cicd = none;
  scout_source = none;
}

prepare_args-extends_example :
    ((extra : List String) × ((prepare_args opts soroban).args ≡ ("--locked" ∷ []) ++ extra))
    × (targets (prepare_args opts soroban).args ≡ (
        if any is_target ("--locked" ∷ [])
        then targets ("--locked" ∷ [])
        else "--target=wasm32v1-none" ∷ []))
    × (contains (prepare_args opts soroban).args "--no-default-features" ≡ (
        not (any is_target ("--locked" ∷ []))
        || contains ("--locked" ∷ []) "--no-default-features"))
    × (contains (prepare_args opts soroban).args "--release"
        ≡ (not false || contains ("--locked" ∷ []) "--release"))
    × (record (prepare_args opts soroban) { args = "--locked" ∷ [] } ≡ opts)
prepare_args-extends_example = prepare_args-extends opts

get_blockchain_dependency-Declares_example :
    (get_blockchain_dependency workspace ≡ ok soroban) ↔ Declares workspace "soroban-sdk"
get_blockchain_dependency-Declares_example = get_blockchain_dependency-Declares workspace

-- a disk with one directory and one file
abbrev disk : FileSystem
disk = record {
  exists = λ p. p == "rules" || p == "Cargo.toml";
  is_dir = λ p. p == "rules";
  is_file = λ p. p == "Cargo.toml";
  read = λ p. none;
}

abbrev paths : PathOps
paths = record {
  join = λ a b. b;
  parent = λ p. none;
  file_name = λ p. some p;
  strip_prefix = λ p root. none;
  first_component = λ p. some p;
}

abbrev local_opts : Scout
local_opts = record opts { manifest_path = some "Cargo.toml"; local_detectors = some "rules" }

validate-ok_example :
    (validate paths disk local_opts ≡ ok tt) ↔ (is_valid paths disk local_opts ≡ true)
validate-ok_example = validate-ok paths disk local_opts

accepted : validate paths disk local_opts ≡ ok tt
unfolding validate
accepted = refl
