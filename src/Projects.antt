-- ===== src/Projects.antt =====
-- scout/core/project_info.rs: the packages that are analysed; and scout/detectors/configuration.rs:
-- where the detectors of a toolchain are.
pub mod Laws
use scout_audit.Base.{
  String, Bool, true, false, Option, none, some, List, [], ◌∷◌, map, Result, ok, err, ok_or, ◌>>=◌,
  unwrap_or, find, strip_prefix, ◌==◌, if◌then◌else◌,
}
use scout_audit.Base.Map.{is_some}
use scout_audit.Metadata.{Metadata, MetaPackage}
use scout_audit.Paths.{PathOps}
use scout_audit.Crates.{Package}
use scout_audit.Cli.{concat}

pub data ProjectError : Type 0 where
  no_packages : ProjectError
  package_not_found : String → ProjectError

-- the ids of the packages
unfoldable pub package_ids : Metadata → Result ProjectError (List String)
package_ids metadata = elim metadata.root_package [
  | some root ↦ ok (root.id ∷ [])
  | none ↦ elim metadata.workspace_default_members [
    | [] ↦ err no_packages
    | member ∷ members ↦ ok (member ∷ members)
  ]
]

-- the package that is made of one id
unfoldable pub collect_package : PathOps → Metadata → String → Result ProjectError Package
collect_package paths metadata package_id = do
  found ←
      ok_or (find (λ (p : MetaPackage). p.id == package_id) metadata.packages)
        (package_not_found package_id)
  ok (record {
    name = found.name;
    id = package_id;
    absolute_path = found.manifest_path;
    relative_path =
        if is_some metadata.root_package
        then "./Cargo.toml"
        else unwrap_or (paths.strip_prefix found.manifest_path metadata.workspace_root)
            (unwrap_or (paths.file_name found.manifest_path) "Cargo.toml");
  })

-- the loop over the ids
unfoldable pub collect_loop : PathOps → Metadata → List String → Result ProjectError (List Package)
unfolding collect_package
collect_loop paths metadata [] = ok []
collect_loop paths metadata (package_id ∷ ids) =
    (collect_package paths metadata package_id) >>= λ p.
    (collect_loop paths metadata ids) >>= λ ps. ok (p ∷ ps)

unfoldable pub collect_packages : PathOps → Metadata → Result ProjectError (List Package)
unfolding package_ids collect_loop
collect_packages paths metadata = (package_ids metadata) >>= collect_loop paths metadata

-- `format!("{base}/{date}/detectors")`
unfoldable pub get_root_detector_path : String → String → String
get_root_detector_path base toolchain =
    let date =
      unwrap_or (strip_prefix "nightly-" toolchain)
        (if toolchain == "nightly" then "2026-05-28" else toolchain) in
    concat base (concat "/" (concat date "/detectors"))

unfoldable pub get_variable_detector_path : String → String → String → String
unfolding get_root_detector_path
get_variable_detector_path base toolchain subpath =
    concat (get_root_detector_path base toolchain) (concat "/" subpath)

unfoldable pub get_detector_path : String → String → String
unfolding get_variable_detector_path
get_detector_path toolchain subpath = get_variable_detector_path "nightly" toolchain subpath
