-- ===== src/Graph.antt =====
-- util/dependencies.rs: the dependency graph as a matrix, and its two searches. A `HashSet` is
-- iterated in an order that the program does not fix: `hash_order` is the list that
-- `collect::<HashSet<_>>()` and `iter()` make of a list.
pub mod Walk
pub mod Numbers
pub mod Range
pub mod Searches
pub mod Cells
pub mod Build
pub mod Depends
use scout_audit.Base.{
  ℕ, zero, suc, ◌+◌, ◌*◌, String, Bool, true, false, ◌||◌, Option, none, some, List, [], ◌∷◌, map,
  foldl, Result, ok, err, ok_or, ◌>>=◌, unwrap_or, length, get_or, set, replicate, filter, nat_eq,
  leb, if◌then◌else◌,
}
use scout_audit.Base.Map
use scout_audit.Base.Map.{Map}
use scout_audit.Metadata.{Node, MetaPackage, Metadata}
use Walk.{range, walk, Outcome, found, finished, out_of_fuel}

pub record DependencyGraph : Type 0 where
  pub packages_ids : List String
  pub packages_numbers_by_package_id : Map ℕ
  pub connection_matrix : List Bool

pub data GraphError : Type 0 where
  no_resolution unknown_node stuck : GraphError
  unknown_dependency unknown_package : String → GraphError

-- `enumerate()`, `map` and `collect()` into a `HashMap`
unfoldable pub number_from : ℕ → List String → Map ℕ → Map ℕ
number_from i [] m = m
number_from i (x ∷ xs) m = number_from (suc i) xs (Map.insert m x i)

-- the loop over one node's dependencies
unfoldable pub connect_all : Map ℕ → ℕ → ℕ → List String → List Bool → Result GraphError (List Bool)
connect_all numbers n package_number [] matrix = ok matrix
connect_all numbers n package_number (dep ∷ deps) matrix = elim (Map.get numbers dep) [
  | none ↦ err (unknown_dependency dep)
  | some d ↦ connect_all numbers n package_number deps (set matrix (package_number * n + d) true)
]

-- the loop over the resolved nodes
unfoldable pub connect_nodes : Map ℕ → ℕ → List Node → List Bool → Result GraphError (List Bool)
unfolding connect_all
connect_nodes numbers n [] matrix = ok matrix
connect_nodes numbers n (node ∷ nodes) matrix =
    (do
      package_number ← ok_or (Map.get numbers node.id) unknown_node
      connect_all numbers n package_number node.dependencies matrix)
    >>= connect_nodes numbers n nodes

unfoldable pub new : (List String → List String) → Metadata → Result GraphError DependencyGraph
unfolding number_from connect_nodes
new hash_order meta = do
  nodes ← ok_or meta.resolve no_resolution
  let packages_ids = hash_order (map (λ (x : MetaPackage). x.id) meta.packages)
  let numbers = number_from 0 packages_ids []
  let n = length packages_ids
  connection_matrix ← connect_nodes numbers n nodes (replicate (n * n) false)
  ok (record {
    packages_ids = packages_ids;
    packages_numbers_by_package_id = numbers;
    connection_matrix = connection_matrix;
  })

-- what the two functions return after their loop
abbrev pub answer : Outcome → Result GraphError Bool
answer found = ok true
answer (finished _) = ok false
answer out_of_fuel = err stuck

abbrev pub flags_of : Outcome → Option (List Bool)
flags_of (finished visited) = some visited
flags_of _ = none

-- the ids at the marked numbers, in the order of the numbers
unfoldable pub marked_ids : List Bool → List String → List String
marked_ids [] xs = []
marked_ids (b ∷ bs) [] = []
marked_ids (true ∷ bs) (x ∷ xs) = x ∷ marked_ids bs xs
marked_ids (false ∷ bs) (x ∷ xs) = marked_ids bs xs

module _ (g : DependencyGraph) where
  open g use {packages_ids, packages_numbers_by_package_id, connection_matrix}

  -- The callback is called on these, in this order.
  unfoldable pub get_dependencies : ℕ → List ℕ
  get_dependencies package_number =
      let n = length packages_ids in
      if leb n package_number
      then []
      else filter (λ i. get_or connection_matrix (package_number * n + i) false) (range n)

  unfoldable pub get_dependents : ℕ → List ℕ
  get_dependents package_number =
      let n = length packages_ids in
      if leb n package_number
      then []
      else filter (λ i. get_or connection_matrix (package_number + i * n) false) (range n)

  -- Enough for every loop: a package is expanded once, and pushes at most n packages.
  abbrev pub fuel : ℕ
  fuel = length packages_ids * length packages_ids + 1

  abbrev pub unvisited : List Bool
  unvisited = replicate (length packages_ids) false

  unfoldable pub depends_on : String → String → Option Bool → Result GraphError Bool
  unfolding get_dependencies
  depends_on package_id dependency_to_check direct = do
    start ← ok_or (Map.get packages_numbers_by_package_id package_id) (unknown_package package_id)
    target ←
        ok_or (Map.get packages_numbers_by_package_id dependency_to_check)
          (unknown_package dependency_to_check)
    if unwrap_or direct false
        then ok (foldl (λ ret dep. ret || nat_eq dep target) false (get_dependencies start))
        else answer (walk get_dependencies (λ top. nat_eq top target) fuel unvisited (start ∷ []))

  -- `visited` after the search; `none` stands for a search that is still running
  unfoldable pub mark_dependents : ℕ → Bool → Option (List Bool)
  unfolding get_dependents
  mark_dependents start direct =
      if direct
      then some (foldl (λ visited dep. set visited dep true) unvisited (get_dependents start))
      else flags_of (walk get_dependents (λ _. false) fuel unvisited (start ∷ []))

  unfoldable pub list_dependants : String → Option Bool → Result GraphError (List String)
  unfolding mark_dependents marked_ids
  list_dependants package_id direct = elim (Map.get packages_numbers_by_package_id package_id) [
    | none ↦ ok []
    | some start ↦ elim (mark_dependents start (unwrap_or direct false)) [
      | none ↦ err stuck
      | some visited ↦ ok (marked_ids visited packages_ids)
    ]
  ]

  unfoldable pub list_all_dependants : String → Result GraphError (List String)
  unfolding list_dependants
  list_all_dependants package_id = list_dependants package_id (some false)
