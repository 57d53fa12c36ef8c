-- ===== src/Graph/Cells.antt =====
-- The cells of the matrix that `connect_nodes` sets.
use mathlib.Core.List.Memᴰ
use mathlib.Core.Option.{some-injective}
use scout_audit.Base.{
  ℕ, ◌+◌, ◌*◌, ◌≤◌, ◌<◌, ◌≡◌, refl, sym, ◌∙◌, ap, ap₂, subst, String, Bool, true, some, List, [],
  ◌∷◌, Memᴰ, inl, inr, ⊎_elim, ◌↔◌, ◌⊎◌, set, length, length-set, arith, ok, ok-injective,
  >>=-eq-ok, Option-cases,
}
use scout_audit.Base.Map
use scout_audit.Base.Map.{Map}
use scout_audit.Metadata.{Node}
use scout_audit.Graph.{connect_all, connect_nodes}
use scout_audit.Graph.Walk.Correct.{IsMarked, IsMarked-set}
use scout_audit.Graph.Range.{size}

-- a cell of the matrix determines its row and its column
index_lt : (i j n : ℕ) → i < n → j < n → i * n + j < n * n
index_lt i j n hi hj = grind arith

row_le : (i i' j j' n : ℕ) → j < n → j' < n → i * n + j ≡ i' * n + j' → i ≤ i'
row_le i i' j j' n hj hj' e = grind arith

cell_inj : (i i' j j' n : ℕ) → j < n → j' < n → i * n + j ≡ i' * n + j' → (i ≡ i') × (j ≡ j')
cell_inj i i' j j' n hj hj' e =
    let same : i ≡ i' =
      omega (arith, row_le i i' j j' n hj hj' e, row_le i' i j' j n hj' hj (sym e)) in
    (same, omega (arith, ap (λ (t : ℕ). t * n) same))

-- some id of the list has this number
abbrev pub Numbered : Map ℕ → List String → ℕ → Type 0
Numbered numbers deps v = (dep : String) × Memᴰ dep deps × (Map.get numbers dep ≡ some v)

-- some node with the first number lists a dependency with the second
abbrev pub Connects : Map ℕ → List Node → ℕ → ℕ → Type 0
Connects numbers nodes u v =
    (node : Node) × Memᴰ node nodes
    × (Map.get numbers node.id ≡ some u)
    × Numbered numbers node.dependencies v

module _ (numbers : Map ℕ) (n : ℕ)
    (bound : (x : String) (k : ℕ) → Map.get numbers x ≡ some k → k < n) where
  length-connect_all :
      (p : ℕ) (deps : List String) (m : List Bool) {m' : List Bool}
      → connect_all numbers n p deps m ≡ ok m'
      → length m' ≡ length m
  unfolding connect_all
  length-connect_all p [] m h = ap length (sym (ok-injective h))
  length-connect_all p (dep ∷ deps) m h = elim (Option-cases (Map.get numbers dep)) [
    | inl e ↦ cc (rw (e, connect_all) at h)
    | inr (d, e) ↦
        length-connect_all p deps (set m (p * n + d) true) (rw (e, connect_all) at h)
        ∙ length-set m (p * n + d) true
  ]

  IsMarked-connect_all :
      (p : ℕ) (deps : List String) (m : List Bool) {m' : List Bool} (u v : ℕ)
      → p < n
      → v < n
      → length m ≡ n * n
      → connect_all numbers n p deps m ≡ ok m'
      → IsMarked m' (u * n + v) ↔ (IsMarked m (u * n + v) ⊎ ((u ≡ p) × Numbered numbers deps v))
  unfolding connect_all
  IsMarked-connect_all p [] m u v hp hv size h = (
    λ k. inl (subst (λ (t : List Bool). IsMarked t (u * n + v)) (sym (ok-injective h)) k),
    ⊎_elim (λ k. subst (λ (t : List Bool). IsMarked t (u * n + v)) (ok-injective h) k)
        (λ new. absurd (Memᴰ.not-nil new.1.1)),
  )
  IsMarked-connect_all p (dep ∷ deps) m {m'} u v hp hv size h =
      elim (Option-cases (Map.get numbers dep)) [
        | inl e ↦ cc (rw (e, connect_all) at h)
        | inr (d, e) ↦
            let rest =
              IsMarked-connect_all p deps (set m (p * n + d) true) u v hp hv
                (length-set m (p * n + d) true ∙ size) (rw (e, connect_all) at h) in
            let cell =
              IsMarked-set m (p * n + d) (u * n + v)
                (omega (arith, size, index_lt p d n hp (bound dep d e))) in
            (
              λ k.
                  ⊎_elim
                    (λ old.
                      ⊎_elim inl
                        (λ same.
                          let (row, column) = cell_inj u p v d n hv (bound dep d e) same in
                          inr (row, (dep, Memᴰ.head refl, e ∙ ap some (sym column))))
                        (cell.0 old))
                    (λ new. inr (new.0, (new.1.0, Memᴰ.tail new.1.1, new.1.2))) (rest.0 k),
              ⊎_elim (λ old. rest.1 (inl (cell.1 (inl old))))
                  (λ new.
                    ⊎_elim
                      (λ same.
                        let column =
                          some-injective _ _ (sym new.1.2 ∙ ap (Map.get numbers) same ∙ e) in
                        rest.1 (inl (cell.1 (inr (ap₂ (λ (a b : ℕ). a * n + b) new.0 column)))))
                      (λ later. rest.1 (inr (new.0, (new.1.0, later, new.1.2))))
                      (Memᴰ.cases_cons new.1.1)),
            )
      ]

  pub IsMarked-connect_nodes :
      (nodes : List Node) (m : List Bool) {m' : List Bool} (u v : ℕ)
      → v < n
      → length m ≡ n * n
      → connect_nodes numbers n nodes m ≡ ok m'
      → IsMarked m' (u * n + v) ↔ (IsMarked m (u * n + v) ⊎ Connects numbers nodes u v)
  unfolding connect_nodes
  IsMarked-connect_nodes [] m u v hv size h = (
    λ k. inl (subst (λ (t : List Bool). IsMarked t (u * n + v)) (sym (ok-injective h)) k),
    ⊎_elim (λ k. subst (λ (t : List Bool). IsMarked t (u * n + v)) (ok-injective h) k)
        (λ new. absurd (Memᴰ.not-nil new.1)),
  )
  IsMarked-connect_nodes (node ∷ nodes) m {m'} u v hv size h =
      elim (Option-cases (Map.get numbers node.id)) [
        | inl e ↦ cc (rw e at h)
        | inr (p, e) ↦
            let (m₁, here, later) =
              >>=-eq-ok (connect_all numbers n p node.dependencies m)
                (connect_nodes numbers n nodes) (rw e at h) in
            let rest =
              IsMarked-connect_nodes nodes m₁ u v hv
                (length-connect_all p node.dependencies m here ∙ size) later in
            let first =
              IsMarked-connect_all p node.dependencies m u v (bound node.id p e) hv size here in
            (
              λ k.
                  ⊎_elim
                    (λ old.
                      ⊎_elim inl (λ new. inr (node, Memᴰ.head refl, e ∙ ap some (sym new.0), new.1))
                        (first.0 old))
                    (λ new. inr (new.0, Memᴰ.tail new.1, new.2, new.3)) (rest.0 k),
              ⊎_elim (λ old. rest.1 (inl (first.1 (inl old))))
                  (λ new.
                    ⊎_elim
                      (λ same. rest.1 (
                        inl (
                          first.1 (
                            inr (
                              some-injective _ _
                                  (sym new.2 ∙ ap (λ (t : Node). Map.get numbers t.id) same ∙ e),
                              subst (λ (t : Node). Numbered numbers t.dependencies v) same new.3,
                            )))))
                      (λ there. rest.1 (inr (new.0, there, new.2, new.3))) (Memᴰ.cases_cons new.1)),
            )
      ]

known-connect_all :
    (numbers : Map ℕ) (n p : ℕ) (deps : List String) (m : List Bool) {m' : List Bool} (dep : String)
    → connect_all numbers n p deps m ≡ ok m'
    → Memᴰ dep deps
    → (v : ℕ) × (Map.get numbers dep ≡ some v)
unfolding connect_all
known-connect_all numbers n p [] m dep h mem = absurd (Memᴰ.not-nil mem)
known-connect_all numbers n p (d ∷ deps) m dep h mem = elim (Option-cases (Map.get numbers d)) [
  | inl e ↦ cc (rw (e, connect_all) at h)
  | inr (v, e) ↦
      ⊎_elim (λ same. (v, rw same e))
        (known-connect_all numbers n p deps (set m (p * n + v) true) dep (rw (e, connect_all) at h))
        (Memᴰ.cases_cons mem)
]

pub known-connect_nodes :
    (numbers : Map ℕ) (n : ℕ) (nodes : List Node) (m : List Bool) {m' : List Bool} (node : Node)
    (dep : String)
    → connect_nodes numbers n nodes m ≡ ok m'
    → Memᴰ node nodes
    → Memᴰ dep node.dependencies
    → (v : ℕ) × (Map.get numbers dep ≡ some v)
unfolding connect_nodes
known-connect_nodes numbers n [] m node dep h mem at_dep = absurd (Memᴰ.not-nil mem)
known-connect_nodes numbers n (first ∷ nodes) m node dep h mem at_dep =
    elim (Option-cases (Map.get numbers first.id)) [
      | inl e ↦ cc (rw e at h)
      | inr (p, e) ↦
          let (m₁, here, later) =
            >>=-eq-ok (connect_all numbers n p first.dependencies m) (connect_nodes numbers n nodes)
              (rw e at h) in
          ⊎_elim
            (λ same.
              known-connect_all numbers n p first.dependencies m dep here
                (subst (λ (t : Node). Memᴰ dep t.dependencies) same at_dep))
            (λ there. known-connect_nodes numbers n nodes m₁ node dep later there at_dep)
            (Memᴰ.cases_cons mem)
    ]
