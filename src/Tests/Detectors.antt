-- ===== src/Tests/Detectors.antt =====
-- Selecting among three detectors, and loading two.
use scout_audit.Base.{
  ◌≡◌, refl, true, false, none, some, List, [], ◌∷◌, Memᴰ, ◌↔◌, String, Option, ok,
}
use scout_audit.Paths.{PathOps, FileSystem}
use scout_audit.Selection.{
  parse_detectors, get_filtered_detectors, get_excluded_detectors, ScoutConfig, ProfileConfig,
  soroban, html, json, get_config,
}
use scout_audit.Selection.Laws.{
  unknown, selected, get_filtered_detectors-selected, filter_or_exclude, underscore_not_selectable,
}
use scout_audit.Selection.Config.{Outcome, get_config-cases}
use scout_audit.Lints.{CString, RawLintInfo, LintStore, Dylib, get_detectors_info}
use scout_audit.Lints.Laws.{
  Balanced, trace, IsKeyed, get_detectors_info-Balanced, get_detectors_info-trace,
}
use scout_audit.Tests.Data.{workspace}

abbrev lower : String → String
lower s = s

abbrev names : List String
names = "unsafe-unwrap" ∷ "unused_return" ∷ "overflow-check" ∷ []

get_filtered_detectors-selected_example :
    get_filtered_detectors lower "unsafe_unwrap, nothing" names
    ≡ selected
        (unknown names (parse_detectors lower "unsafe_unwrap, nothing"))
        (parse_detectors lower "unsafe_unwrap, nothing")
get_filtered_detectors-selected_example =
    get_filtered_detectors-selected lower "unsafe_unwrap, nothing" names

unwrap_selected :
    get_filtered_detectors lower "unsafe_unwrap, overflow-check" names
    ≡ ok ("unsafe-unwrap" ∷ "overflow-check" ∷ [])
unfolding get_filtered_detectors
unwrap_selected = refl

filter_or_exclude_example :
    Memᴰ {A = String} "overflow-check" ("unsafe-unwrap" ∷ "overflow-check" ∷ [])
    ↔ ¬ Memᴰ {A = String} "overflow-check"
        (get_excluded_detectors lower "unsafe_unwrap, overflow-check" names)
filter_or_exclude_example =
    filter_or_exclude lower "unsafe_unwrap, overflow-check" names
      ("unsafe-unwrap" ∷ "overflow-check" ∷ []) "overflow-check" unwrap_selected
      (Memᴰ.tail (Memᴰ.tail (Memᴰ.head refl)))

underscore_not_selectable_example :
    (¬ Memᴰ {A = String} "unused_return" ("unsafe-unwrap" ∷ "overflow-check" ∷ []))
    × Memᴰ {A = String} "unused_return" (get_excluded_detectors lower "unused_return" names)
underscore_not_selectable_example =
    underscore_not_selectable lower "unsafe_unwrap, overflow-check" "unused_return" names
      ("unsafe-unwrap" ∷ "overflow-check" ∷ []) "unused_return" (Memᴰ.tail (Memᴰ.head refl)) refl
      unwrap_selected

abbrev paths : PathOps
paths = record {
  join = λ a b. b;
  parent = λ p. none;
  file_name = λ p. some p;
  strip_prefix = λ a b. none;
  first_component = λ p. some p;
}

abbrev disk : FileSystem
disk = record { exists = λ p. true; is_dir = λ p. false; is_file = λ p. true; read = λ p. some [] }

abbrev file_config : ScoutConfig
file_config = record { exclude = "overflow-check" ∷ []; output_format = html ∷ [] }

abbrev profile : ProfileConfig
profile = record { blockchain = soroban; detector_names = names; output_format = json ∷ [] }

abbrev configured : ProfileConfig
configured = record {
  blockchain = soroban;
  detector_names = "unsafe-unwrap" ∷ "unused_return" ∷ [];
  output_format = html ∷ [];
}

file_obeyed :
    get_config paths disk (λ bytes. some "") (λ text. some file_config) profile workspace
    ≡ ok configured
unfolding get_config
file_obeyed = refl

get_config-cases_example :
    Outcome paths disk (λ bytes. some "") (λ text. some file_config) profile workspace configured
get_config-cases_example =
    get_config-cases paths disk (λ bytes. some "") (λ text. some file_config) profile configured
      workspace file_obeyed

abbrev raw : RawLintInfo
raw = record {
  id = [];
  name = [];
  short_message = [];
  long_message = [];
  severity = [];
  help = [];
  vulnerability_class = [];
}

abbrev to_str : CString → Option String
to_str bytes = some "lint"

abbrev open_library : String → Option Dylib
open_library path =
    some (record { has_free_lint_info = true; has_lint_info = true; lint_info = some raw })

abbrev store : LintStore
store = record {
  lints =
      (
        "lint",
        record {
          id = "lint";
          name = "lint";
          short_message = "lint";
          long_message = "lint";
          severity = "lint";
          help = "lint";
          vulnerability_class = "lint";
        },
      )
      ∷ [];
}

get_detectors_info-Balanced_example :
    Balanced (get_detectors_info to_str open_library ("a.so" ∷ "b.so" ∷ [])).1
get_detectors_info-Balanced_example =
    get_detectors_info-Balanced to_str open_library ("a.so" ∷ "b.so" ∷ [])

both_loaded : (get_detectors_info to_str open_library ("a.so" ∷ "b.so" ∷ [])).0 ≡ ok store
unfolding get_detectors_info
both_loaded = refl

get_detectors_info-trace_example :
    ((get_detectors_info to_str open_library ("a.so" ∷ "b.so" ∷ [])).1
      ≡ trace ("a.so" ∷ "b.so" ∷ []))
    × IsKeyed store
get_detectors_info-trace_example =
    get_detectors_info-trace to_str open_library ("a.so" ∷ "b.so" ∷ []) store both_loaded
