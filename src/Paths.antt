-- ===== src/Paths.antt =====
-- The file system and the path functions of the standard library, as the program calls them.
use scout_audit.Base.{ℕ, String, Bool, Option, List}

-- `Path::join`, `parent`, `file_name`, `strip_prefix` and the first of `components()`
pub record PathOps : Type 0 where
  pub join : String → String → String
  pub parent : String → Option String
  pub file_name : String → Option String
  pub strip_prefix : String → String → Option String
  pub first_component : String → Option String

-- What the program sees of the disk at one moment.
pub record FileSystem : Type 0 where
  pub exists : String → Bool
  pub is_dir : String → Bool
  pub is_file : String → Bool
  pub read : String → Option (List ℕ)
