-- ===== src/Crates.antt =====
-- scout/core/findings.rs: which crates were analysed, and which findings belong to a crate that was.
pub mod Verdict
pub mod Split
pub mod Total
use scout_audit.Base.{
  String, Bool, true, false, not, Option, none, some, List, [], ◌∷◌, Result, ok, ◌>>=◌, foldl,
  unwrap_or, filter_map, is_empty, replace_char, ◌==◌, if◌then◌else◌,
}
use scout_audit.Base.Map
use scout_audit.Base.Map.{Map}
use scout_audit.Json.{Serde}
use scout_audit.Metadata.{Metadata}
use scout_audit.Finding.{Finding, reason, package_id, package_name, krate, is_compiler_error}
use scout_audit.Graph.{DependencyGraph, GraphError, new, list_all_dependants}

-- scout/output/report.rs
pub record Package : Type 0 where
  pub name : String
  pub id : String
  pub relative_path : String
  pub absolute_path : String

unfoldable pub normalize_crate_name : String → String
normalize_crate_name s = replace_char "-" "_" s

-- `package_ids`: the analysed packages' names by their ids
unfoldable pub package_names : List Package → Map String
package_names = foldl (λ m (p : Package). Map.insert m p.id p.name) []

-- the last loop of `get_crates_from_output`, over the crates that one message is about
unfoldable pub mark_affected : Bool → List String → Map Bool → Map Bool
mark_affected good [] ret = ret
mark_affected good (name ∷ names) ret =
    mark_affected good names
      (elim (Map.get ret name) [ some false ↦ ret | _ ↦ Map.insert ret name good ])

-- the graph is built when it is first needed
unfoldable pub get_graph :
    (List String → List String)
    → Metadata
    → Option DependencyGraph
    → Result GraphError DependencyGraph
get_graph hash_order metadata none = new hash_order metadata
get_graph hash_order metadata (some g) = ok g

-- the two loops of `get_crates`
unfoldable pub all_crates : List Package → Map Bool
unfolding normalize_crate_name
all_crates = foldl (λ m (p : Package). Map.insert m (normalize_crate_name p.name) true) []

unfoldable pub update_crates : List (String × Bool) → Map Bool → Map Bool
unfolding normalize_crate_name
update_crates [] ret = ret
update_crates ((name, good) ∷ rest) ret =
    let normalized = normalize_crate_name name in
    update_crates rest
      (if Map.contains_key ret normalized then Map.insert ret normalized good else ret)

-- `hash_order` is the iteration order of the `HashSet` of package ids.
module _ ⦃j : Serde⦄ (hash_order : List String → List String) (metadata : Metadata) where
  -- the crates that one compiler message is about, and the graph if it was built
  unfoldable pub affected_by :
      Map String
      → Finding
      → Option DependencyGraph
      → Result GraphError (List String × Option DependencyGraph)
  unfolding get_graph
  affected_by package_ids finding graph =
      if Map.contains_key package_ids (package_id finding)
      then (let name = package_name finding in
          if is_empty name then ok ([], graph) else ok (name ∷ [], graph))
      else do
        g ← get_graph hash_order metadata graph
        dependants ← list_all_dependants g (package_id finding)
        ok (filter_map (λ x. Map.get package_ids x) dependants, some g)

  unfoldable pub output_loop :
      Map String → List Finding → Option DependencyGraph → Map Bool → Result GraphError (Map Bool)
  unfolding affected_by mark_affected
  output_loop package_ids [] graph ret = ok ret
  output_loop package_ids (finding ∷ output) graph ret =
      if not (reason finding == "compiler-message")
      then output_loop package_ids output graph ret
      else (affected_by package_ids finding graph) >>= λ a.
          output_loop package_ids output a.1
            (mark_affected (not (is_compiler_error finding)) a.0 ret)

  unfoldable pub get_crates_from_output : List Finding → List Package → Result GraphError (Map Bool)
  unfolding output_loop package_names
  get_crates_from_output output packages = output_loop (package_names packages) output none []

  -- `map_order` is the iteration order of a `HashMap`
  unfoldable pub get_crates :
      (Map Bool → List (String × Bool)) → List Finding → List Package → Result GraphError (Map Bool)
  unfolding get_crates_from_output all_crates update_crates
  get_crates map_order findings packages = do
    seen ← get_crates_from_output findings packages
    ok (update_crates (map_order seen) (all_crates packages))

module _ ⦃j : Serde⦄ where
  -- `Vec::push` on one of two vectors, in the order of the findings
  unfoldable pub split_findings : List Finding → Map Bool → List Finding × List Finding
  unfolding krate
  split_findings [] crates = ([], [])
  split_findings (finding ∷ findings) crates =
      let (successful, failed) = split_findings findings crates in
      let name = krate finding in
      if is_empty name
      then (successful, failed)
      else if unwrap_or (Map.get crates name) true
      then (finding ∷ successful, failed)
      else (successful, finding ∷ failed)
