-- ===== src/Cli/Validation.antt =====
-- The options that are accepted.
use scout_audit.Base.{◌≡◌, String, Bool, true, Option, none, some, ok, ◌↔◌, ◌&&◌, not, arith}
use scout_audit.Paths.{PathOps, FileSystem}
use scout_audit.Cli.{Scout, check_output, check_dir, check_manifest, validate}

-- a test on a path, where it is given
abbrev pub holds : (String → Bool) → Option String → Bool
holds p none = true
holds p (some path) = p path

module _ (paths : PathOps) (fs : FileSystem) where
  -- what the disk has to have for the options
  abbrev pub is_valid : Scout → Bool
  is_valid opts =
      holds (λ p. not (fs.is_dir p)) opts.output_path
      && holds (λ p. fs.exists p && fs.is_dir p) opts.scout_source
      && holds (λ p. fs.exists p && fs.is_dir p) opts.local_detectors
      && holds (λ p. fs.exists p && fs.is_file p) opts.manifest_path

  -- `validate` accepts the options exactly when the output path, if given, is no directory, the
  -- sources of the detectors, if given, are directories, and the manifest, if given, is a file.
  pub validate-ok : (opts : Scout) → (validate paths fs opts ≡ ok tt) ↔ (is_valid opts ≡ true)
  unfolding validate check_output check_dir check_manifest
  validate-ok opts = ground arith
