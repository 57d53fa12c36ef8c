-- ===== src/Tests/Built.antt =====
-- Libraries of detectors for Rust and for Soroban, with packages of one name.
use scout_audit.Base.{◌≡◌, ◌↔◌, Memᴰ, refl, String, none, some, List, [], ◌∷◌, ◌==◌, if◌then◌else◌}
use scout_audit.Paths.{PathOps}
use scout_audit.Metadata.{MetaPackage}
use scout_audit.Libraries.{DetectorLibrary, detector_type, deduplicate_libraries}
use scout_audit.Libraries.Kept.{chosen, deduplicate_libraries-chosen}

abbrev paths : PathOps
paths = record {
  join = λ a b. b;
  parent = λ p. none;
  file_name = λ p. some p;
  strip_prefix = λ p root. none;
  first_component = λ p. some p;
}

-- a directory is named here by its kind, and stands under the root
abbrev ancestors : String → List String
ancestors p = (if p == "contracts" then "soroban" else p) ∷ "detectors" ∷ []

abbrev pkg : String → String → MetaPackage
pkg name id = record { id = id; name = name; manifest_path = "Cargo.toml"; dependencies = [] }

abbrev library : String → List MetaPackage → DetectorLibrary
library root packages = record {
  root = root;
  toolchain = "nightly-2026-05-28";
  target_dir = "target";
  metadata = record {
    packages = packages;
    resolve = none;
    workspace_members = [];
    workspace_default_members = [];
    root_package = none;
    workspace_root = root;
  };
}

abbrev libraries : List DetectorLibrary
libraries =
    library "contracts" (pkg "overflow" "soroban" ∷ [])
    ∷ library "rust" (pkg "overflow" "rust" ∷ pkg "division" "rust" ∷ [])
    ∷ library "other" (pkg "overflow" "other" ∷ [])
    ∷ []

deduplicate_libraries-chosen_example :
    (((kept : DetectorLibrary) × Memᴰ kept
          (deduplicate_libraries paths ancestors (λ m. m) (λ m. m) libraries)
        × (kept.root ≡ "rust")
        × Memᴰ (pkg "division" "rust") kept.metadata.packages)
      ↔ ((l : DetectorLibrary) × (chosen paths ancestors (λ m. m) (λ m. m) libraries "division"
            ≡ some (pkg "division" "rust", l))
          × (l.root ≡ "rust")))
    × ((a b : DetectorLibrary)
        → Memᴰ a (deduplicate_libraries paths ancestors (λ m. m) (λ m. m) libraries)
        → Memᴰ b (deduplicate_libraries paths ancestors (λ m. m) (λ m. m) libraries)
        → a.root ≡ b.root
        → a ≡ b)
deduplicate_libraries-chosen_example =
    deduplicate_libraries-chosen paths ancestors (λ m. m) (λ m. m) libraries "rust"
      (pkg "division" "rust") (λ m e. (λ h. h, λ h. h)) (λ m e. (λ h. h, λ h. h))

-- the library for Rust keeps the package that no other has
deduplicated :
    deduplicate_libraries paths ancestors (λ m. m) (λ m. m) libraries
    ≡ library "contracts" (pkg "overflow" "soroban" ∷ [])
      ∷ library "rust" (pkg "division" "rust" ∷ [])
      ∷ []
unfolding deduplicate_libraries detector_type
deduplicated = refl
