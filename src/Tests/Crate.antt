-- ===== src/Tests/Crate.antt =====
-- The crates of the workspace, and their findings.
use scout_audit.Base.{
  ◌≡◌, refl, true, false, none, some, List, [], ◌∷◌, Memᴰ, ok, Bool, String, any, filter,
  if◌then◌else◌,
}
use scout_audit.Base.Map
use scout_audit.Base.Map.{Map}
use scout_audit.Json.{nil}
use scout_audit.Finding.{Finding, reason, package_id, package_name, is_compiler_error}
use scout_audit.Graph.{new, list_all_dependants}
use scout_audit.Graph.Walk.{walk, range}
use scout_audit.Crates.{get_crates_from_output, get_crates, split_findings, package_names}
use scout_audit.Crates.Verdict.{about, fails, get_crates_from_output-verdict}
use scout_audit.Crates.Split.{
  is_successful, is_failed, split_findings-filter, mem-split_findings_of_dash,
}
use scout_audit.Tests.Data.{
  serde, unchanged, workspace, compiler_message, warning, kit_error, analysed,
}

abbrev unchanged_map : Map Bool → List (String × Bool)
unchanged_map m = m

abbrev output : List Finding
output =
    warning "contract" "unsafe_unwrap" 3 4 ∷ kit_error ∷ warning "library" "unsafe_unwrap" 5 5 ∷ []

-- the error of the kit is one of both packages, and no later warning mends it
crates_of_output :
    get_crates_from_output ⦃j = serde⦄ unchanged workspace output
      (analysed "contract" ∷ analysed "library" ∷ [])
    ≡ ok (("contract", false) ∷ ("library", false) ∷ [])
unfolding get_crates_from_output reason package_id package_name new list_all_dependants walk range
    is_compiler_error
crates_of_output = refl

get_crates_from_output-verdict_example :
    Map.get (("contract", false) ∷ ("library", false) ∷ []) "library" ≡ (
      if any
        (fails ⦃j = serde⦄ unchanged workspace
          (package_names (analysed "contract" ∷ analysed "library" ∷ []))
          "library")
        output
      then some false
      else if any
          (about ⦃j = serde⦄ unchanged workspace
            (package_names (analysed "contract" ∷ analysed "library" ∷ []))
            "library")
          output
      then some true
      else none)
get_crates_from_output-verdict_example =
    get_crates_from_output-verdict ⦃j = serde⦄ unchanged workspace output
      (analysed "contract" ∷ analysed "library" ∷ []) "library" crates_of_output

split_findings-filter_example : split_findings ⦃j = serde⦄ output (("library", false) ∷ []) ≡ (
  filter (is_successful ⦃j = serde⦄ (("library", false) ∷ [])) output,
  filter (is_failed ⦃j = serde⦄ (("library", false) ∷ [])) output,
)
split_findings-filter_example = split_findings-filter ⦃j = serde⦄ output (("library", false) ∷ [])

-- a package whose name has a dash, and whose build fails
abbrev broken : Finding
broken = compiler_message "my-token" "E0425" "error" "src/lib.rs" 1 1 nil

my_token_failed :
    get_crates ⦃j = serde⦄ unchanged workspace unchanged_map
      (broken ∷ [])
      (analysed "my-token" ∷ [])
    ≡ ok (("my_token", false) ∷ [])
unfolding get_crates reason package_id package_name is_compiler_error
my_token_failed = refl

mem-split_findings_of_dash_example :
    Memᴰ broken (split_findings ⦃j = serde⦄ (broken ∷ []) (("my_token", false) ∷ [])).0
    × ¬ Memᴰ broken (split_findings ⦃j = serde⦄ (broken ∷ []) (("my_token", false) ∷ [])).1
unfolding package_name
mem-split_findings_of_dash_example =
    mem-split_findings_of_dash ⦃j = serde⦄ unchanged workspace unchanged_map (broken ∷ [])
      (broken ∷ []) (analysed "my-token" ∷ []) broken my_token_failed refl (Memᴰ.head refl)
