-- ===== src/Graph/Walk.antt =====
-- The search loop of util/dependencies.rs, over any successor function. `depends_on` and
-- `list_dependants` run the same loop; only `depends_on` makes the test `stop`.
pub mod Correct
use scout_audit.Base.{ℕ, zero, suc, Bool, true, false, List, [], ◌∷◌, foldl, get_or, set}

unfoldable pub range_from : ℕ → ℕ → List ℕ
range_from i zero = []
range_from i (suc k) = i ∷ range_from (suc i) k

-- `0..n`
unfoldable pub range : ℕ → List ℕ
unfolding range_from
range n = range_from 0 n

-- The stack's top is the head of the list.
unfoldable pub push_all : List ℕ → List ℕ → List ℕ
push_all deps stack = foldl (λ s dep. dep ∷ s) stack deps

pub data Outcome : Type 0 where
  found : Outcome
  finished : List Bool → Outcome
  out_of_fuel : Outcome

module _ (next : ℕ → List ℕ) (stop : ℕ → Bool) where
  unfoldable pub walk : ℕ → List Bool → List ℕ → Outcome
  unfolding push_all
  walk zero visited [] = finished visited
  walk zero visited (_ ∷ _) = out_of_fuel
  walk (suc fuel) visited [] = finished visited
  walk (suc fuel) visited (top ∷ stack) = elim (stop top) [
    | true ↦ found
    | false ↦ elim (get_or visited top false) [
      | true ↦ walk fuel visited stack
      | false ↦ walk fuel (set visited top true) (push_all (next top) stack)
    ]
  ]
