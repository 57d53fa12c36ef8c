-- ===== src/Graph/Range.antt =====
-- `(0..n).filter(…)`: what the graph's neighbour lists hold.
use mathlib.Core.List.Memᴰ
use native.Mathlib.Nat.{add_comm}
use scout_audit.Base.{
  ℕ, zero, suc, ◌+◌, ◌*◌, ◌≤◌, ◌<◌, ◌≡◌, refl, Bool, true, false, [], ◌↔◌, inl, inr, ⊎_elim, Memᴰ,
  mem-filter, length-filter, length, filter, get_or, arith, leb, Bool-cases, if◌then◌else◌,
}
use scout_audit.Graph.{DependencyGraph, get_dependencies, get_dependents}
use scout_audit.Graph.Walk.{range, range_from}
use scout_audit.Graph.Walk.Correct.{IsBounded}

mem-range_from : (i k v : ℕ) → Memᴰ v (range_from i k) ↔ ((i ≤ v) × (v < i + k))
unfolding range_from
mem-range_from i zero v = (λ m. absurd (Memᴰ.not-nil m), λ h. absurd (omega arith))
mem-range_from i (suc k) v = (
  λ m.
      ⊎_elim (λ e. (omega arith, omega arith))
        (λ t. let h = (mem-range_from (suc i) k v).0 t in (omega arith, omega arith))
        (Memᴰ.cases_cons m),
  λ h. elim (Bool-cases (leb v i)) [
    | inl e ↦ let same : v ≡ i = ground arith in Memᴰ.head same
    | inr e ↦ Memᴰ.tail ((mem-range_from (suc i) k v).1 (ground arith, omega arith))
  ],
)

pub mem-range : (n v : ℕ) → Memᴰ v (range n) ↔ (v < n)
unfolding range
mem-range n v = (
  λ m. let h = (mem-range_from 0 n v).0 m in omega arith,
  λ h. (mem-range_from 0 n v).1 (omega arith, omega arith),
)

length-range_from : (i k : ℕ) → length (range_from i k) ≡ k
unfolding range_from
length-range_from i zero = refl
length-range_from i (suc k) = omega (arith, length-range_from (suc i) k)

pub length-range : (n : ℕ) → length (range n) ≡ n
unfolding range
length-range n = length-range_from 0 n

-- a neighbour list: nothing out of range, else the numbers that pass the test
module _ (n : ℕ) (p : ℕ → Bool) where
  mem-guarded :
      (u v : ℕ)
      → Memᴰ v (if leb n u then [] else filter p (range n)) ↔ ((u < n) × (v < n) × (p v ≡ true))
  mem-guarded u v = elim (Bool-cases (leb n u)) [
    | inl e ↦ rw e (λ m. absurd (Memᴰ.not-nil m), λ h. absurd (ground arith))
    | inr e ↦ rw e (
      λ m. let h = (mem-filter p v (range n)).0 m in (ground arith, (mem-range n v).0 h.0, h.1),
      λ h. (mem-filter p v (range n)).1 ((mem-range n v).1 h.1, h.2),
    )
  ]

  length-guarded : (u : ℕ) → length (if leb n u then [] else filter p (range n)) ≤ n
  length-guarded u = ground (arith, length-filter p (range n), length-range n)

module _ (g : DependencyGraph) where
  abbrev pub size : ℕ
  size = length g.packages_ids

  -- the matrix at row u and column v
  abbrev pub connected : ℕ → ℕ → Bool
  connected u v = get_or g.connection_matrix (u * size + v) false

  pub mem-get_dependencies :
      (u v : ℕ) → Memᴰ v (get_dependencies g u) ↔ ((u < size) × (v < size) × (connected u v ≡ true))
  unfolding get_dependencies
  mem-get_dependencies u v = mem-guarded size (λ i. connected u i) u v

  pub mem-get_dependents :
      (u v : ℕ) → Memᴰ v (get_dependents g u) ↔ ((u < size) × (v < size) × (connected v u ≡ true))
  unfolding get_dependents
  mem-get_dependents u v =
      rw (add_comm (v * size) u)
        (mem-guarded size (λ i. get_or g.connection_matrix (u + i * size) false) u v)

  pub dependencies-IsBounded : IsBounded (get_dependencies g) size
  unfolding get_dependencies
  dependencies-IsBounded = record {
    below = λ u v m. ((mem-get_dependencies u v).0 m).1;
    few = λ u. length-guarded size (λ i. connected u i) u;
  }

  pub dependents-IsBounded : IsBounded (get_dependents g) size
  unfolding get_dependents
  dependents-IsBounded = record {
    below = λ u v m. ((mem-get_dependents u v).0 m).1;
    few = λ u. length-guarded size (λ i. get_or g.connection_matrix (u + i * size) false) u;
  }
