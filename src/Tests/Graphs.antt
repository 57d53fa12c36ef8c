-- ===== src/Tests/Graphs.antt =====
-- The graph of the workspace.
use scout_audit.Base.{◌≡◌, refl, true, false, none, List, [], ◌∷◌, Memᴰ, ◌↔◌, ok, Bool, String}
use scout_audit.Graph.{DependencyGraph, new, depends_on, list_all_dependants, number_from}
use scout_audit.Graph.Walk.{walk, range}
use scout_audit.Graph.Build.{new-IsBuilt}
use scout_audit.Graph.Depends.{Depends, depends_on-Depends}
use scout_audit.Graph.Searches.{list_all_dependants-depends_on}
use scout_audit.Base.Map.{Map}
use scout_audit.Crates.{get_crates_from_output}
use scout_audit.Crates.Total.{get_crates_from_output-ok}
use scout_audit.Tests.Data.{serde, kit_error, warning, analysed, unchanged, workspace, nodes}

abbrev graph : DependencyGraph
graph = record {
  packages_ids = "contract" ∷ "library" ∷ "soroban-sdk" ∷ [];
  packages_numbers_by_package_id = number_from 0 ("contract" ∷ "library" ∷ "soroban-sdk" ∷ []) [];
  connection_matrix = false ∷ true ∷ false ∷ false ∷ false ∷ true ∷ false ∷ false ∷ false ∷ [];
}

new-workspace : new unchanged workspace ≡ ok graph
unfolding new
new-workspace = refl

depends_on-Depends_example :
    (b : Bool) × (depends_on graph "contract" "soroban-sdk" none ≡ ok b)
    × ((b ≡ true) ↔ Depends nodes "contract" "soroban-sdk")
depends_on-Depends_example =
    depends_on-Depends unchanged workspace nodes graph "contract" "soroban-sdk"
      (refl, (refl, (refl, tt))) refl new-workspace (Memᴰ.head refl)
      (Memᴰ.tail (Memᴰ.tail (Memᴰ.head refl)))

list_all_dependants-depends_on_example :
    (ids : List String) × (list_all_dependants graph "soroban-sdk" ≡ ok ids)
    × (Memᴰ "contract" ids ↔ (depends_on graph "contract" "soroban-sdk" none ≡ ok true))
unfolding number_from
list_all_dependants-depends_on_example =
    list_all_dependants-depends_on graph
      (new-IsBuilt unchanged workspace nodes graph (refl, (refl, (refl, tt))) refl
        new-workspace).numbered
      "soroban-sdk" "contract" 2 0 refl refl

-- the errors of the kit concern every package that needs it
dependants_of_kit :
    list_all_dependants graph "soroban-sdk" ≡ ok ("contract" ∷ "library" ∷ "soroban-sdk" ∷ [])
unfolding list_all_dependants number_from walk range
dependants_of_kit = refl

get_crates_from_output-ok_example :
    (crates : Map Bool) × (get_crates_from_output ⦃j = serde⦄ unchanged workspace
        (kit_error ∷ warning "contract" "unsafe_unwrap" 3 4 ∷ [])
        (analysed "contract" ∷ [])
      ≡ ok crates)
get_crates_from_output-ok_example =
    get_crates_from_output-ok ⦃j = serde⦄ unchanged workspace nodes graph
      (kit_error ∷ warning "contract" "unsafe_unwrap" 3 4 ∷ []) (analysed "contract" ∷ [])
      (refl, (refl, (refl, tt))) refl new-workspace
