-- ===== src/Crates/Total.antt =====
-- When `get_crates_from_output` returns.
use scout_audit.Base.{
  ◌≡◌, refl, String, Bool, not, Option, none, some, List, [], ◌∷◌, ok, Bool-cases, Option-cases,
  inl, inr, ⊎_elim, ◌⊎◌, is_empty, filter_map, ◌==◌,
}
use scout_audit.Base.Map
use scout_audit.Base.Map.{Map}
use scout_audit.Json.{Serde}
use scout_audit.Metadata.{Node, Metadata}
use scout_audit.Finding.{Finding, reason, package_id, package_name, is_compiler_error}
use scout_audit.Graph.{DependencyGraph, new, list_all_dependants, list_dependants}
use scout_audit.Graph.Numbers.{Distinct, IsNumbered}
use scout_audit.Graph.Build.{ids_of, new-IsBuilt}
use scout_audit.Graph.Searches.{list_all_dependants-eq-Reach}
use scout_audit.Crates.{
  Package, get_graph, affected_by, output_loop, mark_affected, get_crates_from_output,
  package_names,
}

-- the search never runs out of fuel, and an unknown package has no dependants
list_all_dependants-ok :
    (g : DependencyGraph) (x : String)
    → IsNumbered g
    → (ids : List String) × (list_all_dependants g x ≡ ok ids)
unfolding list_all_dependants
list_all_dependants-ok g x numbered =
    elim (Option-cases (Map.get g.packages_numbers_by_package_id x)) [
      | inl e ↦ ([], rw (e, list_all_dependants, list_dependants) refl)
      | inr (i, e) ↦ let (ids, h, _) = list_all_dependants-eq-Reach g numbered x i e in (ids, h)
    ]

module _ ⦃j : Serde⦄ (hash_order : List String → List String) (metadata : Metadata)
    (package_ids : Map String) (g : DependencyGraph) (numbered : IsNumbered g)
    (built : new hash_order metadata ≡ ok g) where
  -- the graph was not needed yet, or it is the one that is built
  abbrev Kept : Option DependencyGraph → Type 0
  Kept graph = (graph ≡ none) ⊎ (graph ≡ some g)

  get_graph-ok :
      (graph : Option DependencyGraph) → Kept graph → get_graph hash_order metadata graph ≡ ok g
  unfolding get_graph
  get_graph-ok graph kept = ⊎_elim (λ e. rw e built) (λ e. rw e refl) kept

  affected_by-ok :
      (f : Finding) (graph : Option DependencyGraph)
      → Kept graph
      → (names : List String) × (after : Option DependencyGraph) × (affected_by hash_order metadata
            package_ids f graph
          ≡ ok (names, after))
        × Kept after
  unfolding affected_by
  affected_by-ok f graph kept = elim (Bool-cases (Map.contains_key package_ids (package_id f))) [
    | inl e ↦ elim (Bool-cases (is_empty (package_name f))) [
      | inl no_name ↦ ([], graph, rw (e, no_name) refl, kept)
      | inr named ↦ (package_name f ∷ [], graph, rw (e, named) refl, kept)
    ]
    | inr e ↦
        let (ids, listed) = list_all_dependants-ok g (package_id f) numbered in
        (
          filter_map (λ x. Map.get package_ids x) ids,
          some g,
          rw (e, get_graph-ok graph kept, listed) refl,
          inr refl,
        )
  ]

  output_loop-ok :
      (output : List Finding) (graph : Option DependencyGraph) (ret : Map Bool)
      → Kept graph
      → (crates : Map Bool) × (output_loop hash_order metadata package_ids output graph ret
          ≡ ok crates)
  unfolding output_loop
  output_loop-ok [] graph ret kept = (ret, refl)
  output_loop-ok (f ∷ output) graph ret kept =
      let (names, after, affected, kept') = affected_by-ok f graph kept in
      elim (Bool-cases (reason f == "compiler-message")) [
        | inr e ↦ rw e (output_loop-ok output graph ret kept)
        | inl e ↦
            rw (e, affected)
              (output_loop-ok output after (mark_affected (not (is_compiler_error f)) names ret)
                kept')
      ]

-- Where the graph can be built from resolved nodes, and iterating the set of ids repeats none of
-- them, `get_crates_from_output` returns a map for any messages and packages.
pub get_crates_from_output-ok :
    ⦃j : Serde⦄
    → (hash_order : List String → List String) (metadata : Metadata) (nodes : List Node)
      (g : DependencyGraph) (output : List Finding) (packages : List Package)
    → Distinct (ids_of hash_order metadata)
    → metadata.resolve ≡ some nodes
    → new hash_order metadata ≡ ok g
    → (crates : Map Bool) × (get_crates_from_output hash_order metadata output packages ≡ ok crates)
unfolding get_crates_from_output
get_crates_from_output-ok hash_order metadata nodes g output packages distinct resolved built =
    output_loop-ok hash_order metadata (package_names packages) g
      (new-IsBuilt hash_order metadata nodes g distinct resolved built).numbered built output none
      [] (inl refl)
