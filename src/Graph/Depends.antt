-- ===== src/Graph/Depends.antt =====
-- `depends_on` against the resolved dependencies of `cargo metadata`.
use mathlib.Core.Option.{some-injective}
use scout_audit.Base.{
  ℕ, ◌≡◌, refl, sym, ◌∙◌, subst, String, Bool, true, none, some, List, Memᴰ, ◌↔◌, ok,
}
use scout_audit.Base.Map
use scout_audit.Metadata.{Node, Metadata}
use scout_audit.Graph.{DependencyGraph, new, depends_on, get_dependencies}
use scout_audit.Graph.Walk.Correct.{Reach, here, step}
use scout_audit.Graph.Numbers.{Distinct, index_of_mem, lt-length_of_index}
use scout_audit.Graph.Range.{mem-get_dependencies}
use scout_audit.Graph.Build.{IsBuilt, new-IsBuilt, ids_of}
use scout_audit.Graph.Searches.{depends_on-eq-Reach}

-- The packages that a package needs, itself among them: chains of resolved dependencies.
pub data Depends (nodes : List Node) (x : String) : String → Type 0 where
  itself : Depends nodes x x
  through :
      {z : String} (node : Node)
      → Depends nodes x node.id
      → Memᴰ node nodes
      → Memᴰ z node.dependencies
      → Depends nodes x z

module _ (nodes : List Node) (g : DependencyGraph) (built : IsBuilt nodes g) where
  open g use {packages_numbers_by_package_id}
  open built use {numbered, cells, known}

  same_id :
      (x y : String) {i j : ℕ}
      → Map.get packages_numbers_by_package_id x ≡ some i
      → Map.get packages_numbers_by_package_id y ≡ some j
      → i ≡ j
      → x ≡ y
  same_id x y {i} {j} hx hy e =
      some-injective _ _ (sym (numbered.id_of x i hx) ∙ rw e (numbered.id_of y j hy))

  Depends-Reach :
      (x : String) (i : ℕ)
      → Map.get packages_numbers_by_package_id x ≡ some i
      → {j : ℕ} → Reach (get_dependencies g) i j
      → (y : String) → Map.get packages_numbers_by_package_id y ≡ some j
      → Depends nodes x y
  Depends-Reach x i hx here y hy = subst (Depends nodes x) (same_id x y hx hy refl) itself
  Depends-Reach x i hx (step {u} {v} r m) y hy =
      let (hu, hv, marked) = (mem-get_dependencies g u v).0 m in
      let (node, at_node, at_u, listed) = (cells u v hv).0 marked in
      let (dep, at_dep, at_v) = listed in
      subst (Depends nodes x) (same_id dep y at_v hy refl)
        (through node (Depends-Reach x i hx r node.id at_u) at_node at_dep)

  Reach-Depends :
      (x : String) (i : ℕ)
      → Map.get packages_numbers_by_package_id x ≡ some i
      → {y : String} → Depends nodes x y
      → (j : ℕ) × (Map.get packages_numbers_by_package_id y ≡ some j)
        × Reach (get_dependencies g) i j
  Reach-Depends x i hx itself = (i, hx, here)
  Reach-Depends x i hx (through {z} node d at_node at_dep) =
      let (u, hu, r) = Reach-Depends x i hx d in
      let (v, hv) = known node z at_node at_dep in
      let below = λ (w : String) (k : ℕ) (h : Map.get packages_numbers_by_package_id w ≡ some k).
        lt-length_of_index w g.packages_ids k (numbered.id_of w k h) in
      (
        v,
        hv,
        step r (
            (mem-get_dependencies g u v).1 (
              below node.id u hu,
              below z v hv,
              (cells u v (below z v hv)).1 (node, at_node, hu, (z, at_dep, hv)),
            )),
      )

-- Where `new` succeeds on resolved nodes, and iterating the set of ids repeats none of them,
-- `depends_on` with no `direct` flag answers for any two of these ids, and it answers true exactly
-- when a chain of resolved dependencies leads from the first to the second, or they are one.
pub depends_on-Depends :
    (hash_order : List String → List String) (meta : Metadata) (nodes : List Node)
    (g : DependencyGraph) (x y : String)
    → Distinct (ids_of hash_order meta)
    → meta.resolve ≡ some nodes
    → new hash_order meta ≡ ok g
    → Memᴰ x g.packages_ids
    → Memᴰ y g.packages_ids
    → (b : Bool) × (depends_on g x y none ≡ ok b) × ((b ≡ true) ↔ Depends nodes x y)
depends_on-Depends hash_order meta nodes g x y d resolved h mx my =
    let built = new-IsBuilt hash_order meta nodes g d resolved h in
    let (i, at_i) = index_of_mem x g.packages_ids mx in
    let (j, at_j) = index_of_mem y g.packages_ids my in
    let hx = built.numbered.number_of x i at_i in
    let hy = built.numbered.number_of y j at_j in
    let (b, e, r) = depends_on-eq-Reach g built.numbered x y i j hx hy in
    (
      b,
      e,
      (
        λ t. Depends-Reach nodes g built x i hx (r.0 t) y hy,
        λ dep.
            let (k, hk, walk) = Reach-Depends nodes g built x i hx dep in
            r.1 (subst (Reach (get_dependencies g) i) (some-injective _ _ (sym hk ∙ hy)) walk),
      ),
    )
