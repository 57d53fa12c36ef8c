-- ===== src/Tests/Places.antt =====
-- The packages of the workspace, and the place of its detectors.
use scout_audit.Base.{◌≡◌, refl, true, none, some, List, [], ◌∷◌, String, ok, map}
use scout_audit.Paths.{PathOps}
use scout_audit.Crates.{Package}
use scout_audit.Cli.{printed, dated, nightly, get_toolchain}
use scout_audit.Projects.{package_ids, collect_packages, get_detector_path}
use scout_audit.Projects.Laws.{
  name_of, collect_packages-ids, date, detectors_of, get_detector_path-date,
}
use scout_audit.Tests.Data.{workspace}

abbrev paths : PathOps
paths = record {
  join = λ a b. b;
  parent = λ p. none;
  file_name = λ p. some p;
  strip_prefix = λ p root. some "Cargo.toml";
  first_component = λ p. some p;
}

abbrev collected : String → Package
collected name = record {
  name = name;
  id = name;
  relative_path = "Cargo.toml";
  absolute_path = "/work/Cargo.toml";
}

members_collected :
    collect_packages paths workspace ≡ ok (collected "contract" ∷ collected "library" ∷ [])
unfolding collect_packages
members_collected = refl

collect_packages-ids_example :
    (ids : List String) × (package_ids workspace ≡ ok ids)
    × (map (λ (p : Package). p.id) (collected "contract" ∷ collected "library" ∷ []) ≡ ids)
    × (map (λ (p : Package). some p.name) (collected "contract" ∷ collected "library" ∷ [])
        ≡ map (name_of workspace) ids)
collect_packages-ids_example =
    collect_packages-ids paths workspace (collected "contract" ∷ collected "library" ∷ [])
      members_collected

default_toolchain : get_toolchain (printed (some "stable")) ≡ ok "nightly-2026-05-28"
unfolding get_toolchain
default_toolchain = refl

get_detector_path-date_example :
    (year : String) × (month : String) × (day : String) × (dated year month day ≡ true)
    × ("nightly-2026-05-28" ≡ nightly year month day)
    × (get_detector_path "nightly-2026-05-28" "soroban"
        ≡ detectors_of (date year month day) "soroban")
get_detector_path-date_example =
    get_detector_path-date (printed (some "stable")) "nightly-2026-05-28" "soroban"
      default_toolchain

found_there :
    get_detector_path "nightly-2026-05-28" "soroban" ≡ "nightly/2026-05-28/detectors/soroban"
unfolding get_detector_path
found_there = refl
