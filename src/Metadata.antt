-- ===== src/Metadata.antt =====
-- The part of `cargo_metadata::Metadata` that the program reads: data that `cargo metadata` prints.
use scout_audit.Base.{String, Option, List}

-- `resolve.nodes`: a resolved package and the ids of its dependencies
pub record Node : Type 0 where
  pub id : String
  pub dependencies : List String

-- `packages`: `dependencies` holds the declared dependencies' names
pub record MetaPackage : Type 0 where
  pub id : String
  pub name : String
  pub manifest_path : String
  pub dependencies : List String

pub record Metadata : Type 0 where
  pub packages : List MetaPackage
  pub resolve : Option (List Node)
  pub workspace_members : List String
  pub workspace_default_members : List String
  pub root_package : Option MetaPackage
  pub workspace_root : String
