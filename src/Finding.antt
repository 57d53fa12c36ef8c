-- ===== src/Finding.antt =====
-- One line of the compiler's JSON output: scout/finding.rs and util/json.rs of the crate
-- apps/cargo-scout-audit/crates/cargo-scout-audit.
use scout_audit.Base.{
  String, Bool, false, ◌&&◌, Option, none, some, List, ◌==◌, Result, ok, err, ok_or, ◌>>=◌,
  and_then, unwrap_or, contains, replace_char, trim_char, if◌then◌else◌,
}
use scout_audit.Json.{Value, string, get, Serde}
use mathlib.Core.Option

-- util/json.rs
unfoldable pub json_to_string_exact : Value → Option String
json_to_string_exact (string s) = some s
json_to_string_exact _ = none

unfoldable pub json_to_string : ⦃j : Serde⦄ → Value → String
json_to_string (string s) = s
json_to_string ⦃j⦄ v = trim_char "\"" (j.to_string v)

unfoldable pub json_to_string_opt : ⦃j : Serde⦄ → Option Value → Option String
unfolding json_to_string
json_to_string_opt = Option.map (λ v. json_to_string v)

-- scout/finding.rs
pub record Finding : Type 0 where
  pub value : Value

unfoldable pub reason : Finding → String
unfolding json_to_string_exact
reason f = unwrap_or (and_then (get f.value "reason") json_to_string_exact) ""

unfoldable pub code_helper : Finding → Result (Unit {0}) String
unfolding json_to_string_exact
code_helper f = do
  message ← ok_or (get f.value "message") tt
  code ← ok_or (get message "code") tt
  code ← ok_or (get code "code") tt
  ok_or (json_to_string_exact code) tt

unfoldable pub code : Finding → String
unfolding code_helper
code f = elim (code_helper f) [ ok s ↦ s | err _ ↦ "" ]

unfoldable pub dashed_code : Finding → String
unfolding code
dashed_code f = replace_char "_" "-" (code f)

unfoldable pub is_scout_finding : Finding → List String → Bool
unfolding reason dashed_code
is_scout_finding f filtered_detectors =
    reason f == "compiler-message" && contains filtered_detectors (dashed_code f)

unfoldable pub is_compiler_error : Finding → Bool
unfolding reason json_to_string_exact
is_compiler_error f =
    if reason f == "compiler-message"
    then unwrap_or
        (Option.map (λ (x : String). x == "error")
          (and_then (and_then (get f.value "message") (λ x. get x "level")) json_to_string_exact))
        false
    else false

unfoldable pub package_name : ⦃j : Serde⦄ → Finding → String
unfolding json_to_string_opt
package_name f =
    unwrap_or (json_to_string_opt (and_then (get f.value "target") (λ x. get x "name"))) ""

unfoldable pub package_id : ⦃j : Serde⦄ → Finding → String
unfolding json_to_string_opt
package_id f = unwrap_or (json_to_string_opt (get f.value "package_id")) ""

unfoldable pub krate : ⦃j : Serde⦄ → Finding → String
unfolding package_name
krate f = replace_char "_" "-" (package_name f)

unfoldable pub json : Finding → Value
json f = f.value

unfoldable pub decompose : Finding → Value
decompose f = f.value

unfoldable pub spans : Finding → Option Value
spans f = and_then (get f.value "message") (λ x. get x "spans")

unfoldable pub message : Finding → String
unfolding json_to_string_exact
message f =
    unwrap_or
      (and_then (and_then (get f.value "message") (λ x. get x "message")) json_to_string_exact) ""

unfoldable pub rendered : Finding → String
unfolding json_to_string_exact
rendered f =
    unwrap_or
      (and_then (and_then (get f.value "message") (λ x. get x "rendered")) json_to_string_exact) ""

unfoldable pub children : Finding → Option Value
children f = and_then (get f.value "message") (λ x. get x "children")
