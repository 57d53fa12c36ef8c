-- ===== src/Lints.antt =====
-- util/detectors_info.rs: what a detector says of itself, and how that is loaded from its library.
pub mod Laws
use scout_audit.Base.{
  ℕ, String, Bool, true, false, Option, none, some, List, [], ◌∷◌, ◌++◌, Result, ok, err, and_then,
}
use scout_audit.Base.Map
use scout_audit.Base.Map.{Map}

-- the bytes of a C string
abbrev pub CString : Type 0
CString = List ℕ

pub record RawLintInfo : Type 0 where
  pub id : CString
  pub name : CString
  pub short_message : CString
  pub long_message : CString
  pub severity : CString
  pub help : CString
  pub vulnerability_class : CString

pub record LintInfo : Type 0 where
  pub id : String
  pub name : String
  pub short_message : String
  pub long_message : String
  pub severity : String
  pub help : String
  pub vulnerability_class : String

pub record LintStore : Type 0 where
  pub lints : Map LintInfo

unfoldable pub new : LintStore
new = record { lints = [] }

unfoldable pub find_by_id : LintStore → String → Option LintInfo
find_by_id store id = Map.get store.lints id

unfoldable pub insert : LintStore → LintInfo → LintStore
insert store lint = record { lints = Map.insert store.lints lint.id lint }

-- The failures of `get_detectors_info`, with the path of the detector.
pub data LintError : Type 0 where
  not_loaded no_free_lint_info no_lint_info null_pointer not_converted : String → LintError

-- A loaded library: the symbols that it exports, and what its `lint_info` returns.
pub record Dylib : Type 0 where
  pub has_free_lint_info : Bool
  pub has_lint_info : Bool
  pub lint_info : Option RawLintInfo

-- What happens to the memory that a detector hands out.
pub data Event : Type 0 where
  received freed : String → Event

-- `to_str` is `CStr::to_str`, and `open` is `libloading::Library::new` with its symbols.
module _ (to_str : CString → Option String) (open_library : String → Option Dylib) where
  unfoldable pub try_from : RawLintInfo → Option LintInfo
  try_from info = and_then (to_str info.id) λ id. and_then (to_str info.name) λ name.
      and_then (to_str info.short_message) λ short_message.
        and_then (to_str info.long_message) λ long_message.
          and_then (to_str info.severity) λ severity. and_then (to_str info.help) λ help.
            and_then (to_str info.vulnerability_class) λ vulnerability_class. some (record {
              id = id;
              name = name;
              short_message = short_message;
              long_message = long_message;
              severity = severity;
              help = help;
              vulnerability_class = vulnerability_class;
            })

  -- The pointer is not null: it is converted, and freed whether or not that succeeds.
  unfoldable pub convert :
      String → RawLintInfo → List Event → Result LintError LintInfo × List Event
  unfolding try_from
  convert path raw log = elim (try_from raw) [
    | none ↦ (err (not_converted path), log ++ received path ∷ freed path ∷ [])
    | some lint ↦ (ok lint, log ++ received path ∷ freed path ∷ [])
  ]

  -- what the body of the loop makes of a loaded library
  unfoldable pub call_library :
      String
      → Bool
      → Bool
      → Option RawLintInfo
      → List Event
      → Result LintError LintInfo × List Event
  unfolding convert
  call_library path false has_lint_info raw log = (err (no_free_lint_info path), log)
  call_library path true false raw log = (err (no_lint_info path), log)
  call_library path true true none log = (err (null_pointer path), log)
  call_library path true true (some raw) log = convert path raw log

  -- the body of the loop
  unfoldable pub load_detector : String → List Event → Result LintError LintInfo × List Event
  unfolding call_library
  load_detector path log = elim (open_library path) [
    | none ↦ (err (not_loaded path), log)
    | some lib ↦ call_library path lib.has_free_lint_info lib.has_lint_info lib.lint_info log
  ]

  unfoldable pub load_all :
      List String → LintStore → List Event → Result LintError LintStore × List Event
  unfolding load_detector insert
  load_all [] store log = (ok store, log)
  load_all (path ∷ paths) store log =
      let (loaded, log') = load_detector path log in
      elim loaded [ err e ↦ (err e, log') | ok lint ↦ load_all paths (insert store lint) log' ]

  unfoldable pub get_detectors_info : List String → Result LintError LintStore × List Event
  unfolding load_all new
  get_detectors_info detectors_paths = load_all detectors_paths new []
