-- ===== src/Graph/Build.antt =====
-- `DependencyGraph::new`: the numbered graph, and what its matrix holds.
use mathlib.Core.Bool.{false≢true}
use scout_audit.Base.{
  ℕ, ◌+◌, ◌*◌, ◌<◌, ◌≡◌, sym, ◌∙◌, subst, String, Bool, true, false, some, List, [], Memᴰ, map, inr,
  ⊎_elim, ◌↔◌, replicate, length, length-replicate, ok, ok-injective, >>=-eq-ok,
}
use scout_audit.Base.Map
use scout_audit.Base.Map.{Map}
use scout_audit.Metadata.{Node, MetaPackage, Metadata}
use scout_audit.Graph.Cells.{Connects, IsMarked-connect_nodes, known-connect_nodes}
use scout_audit.Graph.{DependencyGraph, new, number_from, connect_nodes}
use scout_audit.Graph.Walk.Correct.{not-IsMarked-replicate}
use scout_audit.Graph.Range.{size, connected}
use scout_audit.Graph.Numbers.{IsNumbered, Distinct, number_from-inverts, lt-length_of_index}

-- The ids in the order in which the set of them is iterated.
abbrev pub ids_of : (List String → List String) → Metadata → List String
ids_of hash_order meta = hash_order (map (λ (x : MetaPackage). x.id) meta.packages)

-- The two maps are inverse to one another, and the matrix holds true at two numbers exactly when a
-- node with the first lists a dependency with the second.
pub record IsBuilt (nodes : List Node) (g : DependencyGraph) : Type 0 where
  pub numbered : IsNumbered g
  pub cells :
      (u v : ℕ)
      → v < size g
      → (connected g u v ≡ true) ↔ Connects g.packages_numbers_by_package_id nodes u v
  pub known :
      (node : Node) (dep : String)
      → Memᴰ node nodes
      → Memᴰ dep node.dependencies
      → (v : ℕ) × (Map.get g.packages_numbers_by_package_id dep ≡ some v)

abbrev made : List String → List Bool → DependencyGraph
made ids matrix = record {
  packages_ids = ids;
  packages_numbers_by_package_id = number_from 0 ids [];
  connection_matrix = matrix;
}

made-IsBuilt :
    (ids : List String) (nodes : List Node) (matrix : List Bool)
    → Distinct ids
    → connect_nodes
        (number_from 0 ids [])
        (length ids)
        nodes
        (replicate (length ids * length ids) false)
      ≡ ok matrix
    → IsBuilt nodes (made ids matrix)
made-IsBuilt ids nodes matrix d built =
    let inverts = λ (x : String) (k : ℕ). number_from-inverts ids x k d in
    let n : ℕ = length ids in
    record {
      numbered = record { id_of = λ x k. (inverts x k).0; number_of = λ x k. (inverts x k).1 };
      cells = λ u v hv.
          let cell =
            IsMarked-connect_nodes (number_from 0 ids []) n
              (λ x k h. lt-length_of_index x ids k ((inverts x k).0 h)) nodes
              (replicate (n * n) false) u v hv (length-replicate (n * n) false) built in
          (
            λ k.
                ⊎_elim
                  (λ old.
                    absurd (false≢true (sym (not-IsMarked-replicate (n * n) (u * n + v)) ∙ old)))
                  (λ new. new) (cell.0 k),
            λ c. cell.1 (inr c),
          );
      known = λ node dep.
          known-connect_nodes (number_from 0 ids []) n nodes (replicate (n * n) false) node dep
            built;
    }

-- Where `new` succeeds on resolved nodes and the set's iteration repeats no id, the graph is built
-- from those nodes.
pub new-IsBuilt :
    (hash_order : List String → List String) (meta : Metadata) (nodes : List Node)
    (g : DependencyGraph)
    → Distinct (ids_of hash_order meta)
    → meta.resolve ≡ some nodes
    → new hash_order meta ≡ ok g
    → IsBuilt nodes g
unfolding new
new-IsBuilt hash_order meta nodes g d resolved h =
    let ids : List String = ids_of hash_order meta in
    let (matrix, built, e) =
      >>=-eq-ok
        (connect_nodes (number_from 0 ids []) (length ids) nodes
          (replicate (length ids * length ids) false))
        (λ m. ok (made ids m)) (rw resolved at h) in
    subst (IsBuilt nodes) (ok-injective e) (made-IsBuilt ids nodes matrix d built)
