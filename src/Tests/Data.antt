-- ===== src/Tests/Data.antt =====
-- A workspace of three packages, and a few lines of compiler output about them.
use scout_audit.Base.{ℕ, String, List, [], ◌∷◌, none, some}
use scout_audit.Json.{Items, string, number, array, object, nil, cons, end, field, pos_int, Serde}
use scout_audit.Metadata.{Node, MetaPackage, Metadata}
use scout_audit.Finding.{Finding}
use scout_audit.Crates.{Package}

abbrev pub serde : Serde
serde = record { to_string = λ v. "{}"; from_str = λ s. none }

abbrev pub unchanged : List String → List String
unchanged xs = xs

abbrev pub listed : String → List String → MetaPackage
listed name deps = record {
  id = name;
  name = name;
  manifest_path = "/work/Cargo.toml";
  dependencies = deps;
}

-- the contract uses the library, and the library uses the kit
abbrev pub nodes : List Node
nodes =
    record { id = "contract"; dependencies = "library" ∷ [] }
    ∷ record { id = "library"; dependencies = "soroban-sdk" ∷ [] }
    ∷ record { id = "soroban-sdk"; dependencies = [] }
    ∷ []

abbrev pub workspace : Metadata
workspace = record {
  packages =
      listed "contract" ("library" ∷ [])
      ∷ listed "library" ("soroban-sdk" ∷ [])
      ∷ listed "soroban-sdk" []
      ∷ [];
  resolve = some nodes;
  workspace_members = "contract" ∷ "library" ∷ [];
  workspace_default_members = "contract" ∷ "library" ∷ [];
  root_package = none;
  workspace_root = "/work";
}

-- a compiler message of this package, with its code, level, file, lines and children
abbrev pub compiler_message : String → String → String → String → ℕ → ℕ → Items → Finding
compiler_message name lint level file first last helps = record {
  value = object (
      field "reason" (string "compiler-message") (
        field "package_id" (string name) (
          field "target" (object (field "name" (string name) end)) (
            field "message"
              (object (
                field "level" (string level) (
                  field "message" (string "text") (
                    field "code" (object (field "code" (string lint) end)) (
                      field "spans"
                        (array (
                          cons
                            (object (
                              field "file_name" (string file) (
                                field "line_start" (number (pos_int first)) (
                                  field "line_end" (number (pos_int last)) (
                                    field "byte_start" (number (pos_int 0))
                                      (field "byte_end" (number (pos_int 3)) end))))))
                            nil))
                        (field "children" (array helps) end))))))
              end))));
}

abbrev pub warning : String → String → ℕ → ℕ → Finding
warning name lint first last = compiler_message name lint "warning" "src/lib.rs" first last nil

-- an error of the kit, which both other packages depend on
abbrev pub kit_error : Finding
kit_error = compiler_message "soroban-sdk" "E0425" "error" "src/env.rs" 1 1 nil

abbrev pub allow_warning : String → ℕ → ℕ → Finding
allow_warning text first last =
    compiler_message "contract" "unnecessary_lint_allow" "warning" "src/lib.rs" first last
      (cons (object (field "message" (string text) end)) nil)

abbrev pub analysed : String → Package
analysed name = record { name = name; id = name; relative_path = name; absolute_path = name }
