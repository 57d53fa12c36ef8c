-- ===== src/Libraries.antt =====
-- scout/detectors/library.rs: the libraries of detectors, and packages of one name in several of them.
-- `Path::ancestors` and the iteration orders of the two hash maps are parameters.
pub mod Kept
pub mod Roots
pub mod Unique
use scout_audit.Base.{
  String, Bool, true, false, not, ◌||◌, Option, none, some, List, [], ◌∷◌, ◌++◌, ◌==◌, and_then,
  unwrap_or, find, contains, foldl, map, if◌then◌else◌,
}
use scout_audit.Base.Map
use scout_audit.Base.Map.{Map}
use scout_audit.Metadata.{MetaPackage, Metadata}
use scout_audit.Paths.{PathOps}

-- `DetectorLibrary` with the fields of its `Library`
pub record DetectorLibrary : Type 0 where
  pub root : String
  pub toolchain : String
  pub target_dir : String
  pub metadata : Metadata

-- the insertion in the loop over the packages of a library
unfoldable pub insert_package :
    String
    → DetectorLibrary
    → Map (MetaPackage × DetectorLibrary)
    → MetaPackage
    → Map (MetaPackage × DetectorLibrary)
insert_package detector_type library unique_packages pkg =
    let should_insert : Bool = elim (Map.get unique_packages pkg.name) [
      | none ↦ true
      | some _ ↦ not (detector_type == "rust")
    ] in
    if should_insert then Map.insert unique_packages pkg.name (pkg, library) else unique_packages

-- `entry(root).or_insert_with(…)`, and the push
unfoldable pub regroup : Map DetectorLibrary → MetaPackage × DetectorLibrary → Map DetectorLibrary
regroup result_libraries (pkg, library) =
    let entry =
      unwrap_or (Map.get result_libraries library.root)
        (record library { metadata = record library.metadata { packages = [] } }) in
    Map.insert result_libraries library.root (record entry {
      metadata = record entry.metadata { packages = entry.metadata.packages ++ pkg ∷ [] };
    })

module _ (paths : PathOps) (ancestors : String → List String) where
  -- a directory of detectors for Rust, or for a blockchain of `BlockChain::variants`
  abbrev pub is_kind : String → Bool
  is_kind path = elim (paths.file_name path) [
    | none ↦ false
    | some name ↦ name == "rust" || contains ("soroban" ∷ []) name
  ]

  -- the name of the nearest directory above that is of a kind of detectors
  unfoldable pub detector_type : DetectorLibrary → Option String
  detector_type library = and_then (find is_kind (ancestors library.root)) paths.file_name

  -- the loop body over the libraries
  unfoldable pub insert_library :
      Map (MetaPackage × DetectorLibrary) → DetectorLibrary → Map (MetaPackage × DetectorLibrary)
  unfolding insert_package
  insert_library unique_packages library = elim (detector_type library) [
    | none ↦ unique_packages
    | some t ↦ foldl (insert_package t library) unique_packages library.metadata.packages
  ]

  unfoldable pub unique_packages : List DetectorLibrary → Map (MetaPackage × DetectorLibrary)
  unfolding insert_library
  unique_packages libraries = foldl insert_library [] libraries

  unfoldable pub deduplicate_libraries :
      (Map (MetaPackage × DetectorLibrary) → Map (MetaPackage × DetectorLibrary))
      → (Map DetectorLibrary → Map DetectorLibrary)
      → List DetectorLibrary
      → List DetectorLibrary
  unfolding unique_packages regroup
  deduplicate_libraries map_order root_order libraries =
      map (λ e. e.1)
        (root_order (foldl regroup [] (map (λ e. e.1) (map_order (unique_packages libraries)))))
