-- ===== src/Graph/Searches.antt =====
-- `depends_on` and `list_dependants` against reachability in the matrix, and against each other.
use mathlib.Core.List.Memᴰ
use mathlib.Core.Bool.{false≢true}
use mathlib.Core.Option.{some-injective}
use scout_audit.Base.{
  ℕ, zero, suc, ◌<◌, ◌≡◌, refl, sym, ◌∙◌, ap, subst, String, Bool, true, false, none, some, List,
  [], ◌∷◌, Memᴰ, ⊎_elim, ◌↔◌, get_elem?, ok, ok-injective, nat_eq, nat_eq_iff,
}
use scout_audit.Base.Map
use scout_audit.Graph.{
  DependencyGraph, get_dependencies, get_dependents, depends_on, marked_ids, list_dependants,
  list_all_dependants, answer, flags_of,
}
use scout_audit.Graph.Walk.{Outcome}
use scout_audit.Graph.Walk.Correct.{
  Reach, here, step, Answer, met, all, Complete, walk_correct, IsMarked,
}
use scout_audit.Graph.Numbers.{IsNumbered, lt-length_of_index}
use scout_audit.Graph.Range.{
  size, mem-get_dependencies, mem-get_dependents, dependencies-IsBounded, dependents-IsBounded,
}

answer-walk :
    (next : ℕ → List ℕ) (n i j : ℕ) {o : Outcome}
    → Answer next (λ top. nat_eq top j) n i o
    → (b : Bool) × (answer o ≡ ok b) × ((b ≡ true) ↔ Reach next i j)
answer-walk next n i j (met t r e) =
    (true, refl, (λ _. subst (Reach next i) ((nat_eq_iff t j).0 e) r, λ _. refl))
answer-walk next n i j (all _ c) =
    (false, refl, (λ h. cc, λ r. sym (c.no_stop j r) ∙ (nat_eq_iff j j).1 refl))

flags-walk :
    (next : ℕ → List ℕ) (n i : ℕ) {o : Outcome}
    → Answer next (λ _. false) n i o
    → (visited : List Bool) × (flags_of o ≡ some visited) × Complete next (λ _. false) n i visited
flags-walk next n i (met t r e) = absurd (false≢true e)
flags-walk next n i (all visited c) = (visited, refl, c)

index_of_IsMarked :
    (bs : List Bool) (xs : List String) (x : String)
    → Memᴰ x (marked_ids bs xs)
    → (k : ℕ) × (get_elem? xs k ≡ some x) × IsMarked bs k
unfolding marked_ids
index_of_IsMarked [] xs x m = absurd (Memᴰ.not-nil m)
index_of_IsMarked (b ∷ bs) [] x m = absurd (Memᴰ.not-nil m)
index_of_IsMarked (true ∷ bs) (y ∷ xs) x m =
    ⊎_elim (λ e. (0, ap some (sym e), refl))
      (λ t. let (k, h, f) = index_of_IsMarked bs xs x t in (suc k, h, f)) (Memᴰ.cases_cons m)
index_of_IsMarked (false ∷ bs) (y ∷ xs) x m =
    let (k, h, f) = index_of_IsMarked bs xs x m in (suc k, h, f)

mem_of_marked :
    (bs : List Bool) (xs : List String) (x : String) (k : ℕ)
    → get_elem? xs k ≡ some x
    → IsMarked bs k
    → Memᴰ x (marked_ids bs xs)
unfolding marked_ids
mem_of_marked [] xs x k h f = absurd (false≢true f)
mem_of_marked (b ∷ bs) [] x k h f = cc
mem_of_marked (true ∷ bs) (y ∷ xs) x zero h f = Memᴰ.head (sym (some-injective _ _ h))
mem_of_marked (true ∷ bs) (y ∷ xs) x (suc k) h f = Memᴰ.tail (mem_of_marked bs xs x k h f)
mem_of_marked (false ∷ bs) (y ∷ xs) x zero h f = absurd (false≢true f)
mem_of_marked (false ∷ bs) (y ∷ xs) x (suc k) h f = mem_of_marked bs xs x k h f

-- one step in front of a walk
prepend : {next : ℕ → List ℕ} {u v w : ℕ} → Memᴰ v (next u) → Reach next v w → Reach next u w
prepend m here = step here m
prepend m (step r e) = step (prepend m r) e

module _ (g : DependencyGraph) where
  -- the two neighbour functions are converse to one another
  reversed : {i k : ℕ} → Reach (get_dependents g) i k → Reach (get_dependencies g) k i
  reversed here = here
  reversed (step {u} {v} r m) =
      let h = (mem-get_dependents g u v).0 m in
      prepend ((mem-get_dependencies g v u).1 (h.1, h.0, h.2)) (reversed r)

  reversed_back : {i k : ℕ} → Reach (get_dependencies g) i k → Reach (get_dependents g) k i
  reversed_back here = here
  reversed_back (step {u} {v} r m) =
      let h = (mem-get_dependencies g u v).0 m in
      prepend ((mem-get_dependents g v u).1 (h.1, h.0, h.2)) (reversed_back r)

  module _ (numbered : IsNumbered g) where
    open g use {packages_ids, packages_numbers_by_package_id}

    number-lt-size :
        (x : String) (i : ℕ) → Map.get packages_numbers_by_package_id x ≡ some i → i < size g
    number-lt-size x i h = lt-length_of_index x packages_ids i (numbered.id_of x i h)

    -- On a numbered graph, between two known packages, `depends_on` with no `direct` flag returns
    -- a Boolean, which is true exactly when the second can be reached from the first along the
    -- matrix.
    pub depends_on-eq-Reach :
        (x y : String) (i j : ℕ)
        → Map.get packages_numbers_by_package_id x ≡ some i
        → Map.get packages_numbers_by_package_id y ≡ some j
        → (b : Bool) × (depends_on g x y none ≡ ok b)
          × ((b ≡ true) ↔ Reach (get_dependencies g) i j)
    unfolding depends_on
    depends_on-eq-Reach x y i j hx hy =
        let (b, e, r) = answer-walk (get_dependencies g) (size g) i j (
          walk_correct (get_dependencies g) (λ top. nat_eq top j) (size g) i
            (dependencies-IsBounded g) (number-lt-size x i hx)) in
        (b, rw (hx, hy) e, r)

    -- On a numbered graph `list_all_dependants` of a known package returns ids, and an id is among
    -- them exactly when it stands at a number that can be reached against the edges.
    pub list_all_dependants-eq-Reach :
        (x : String) (i : ℕ)
        → Map.get packages_numbers_by_package_id x ≡ some i
        → (ids : List String) × (list_all_dependants g x ≡ ok ids)
          × ((y : String) (k : ℕ)
              → Map.get packages_numbers_by_package_id y ≡ some k
              → Memᴰ y ids ↔ Reach (get_dependents g) i k)
    unfolding list_all_dependants
    list_all_dependants-eq-Reach x i hx =
        let (visited, e, c) = flags-walk (get_dependents g) (size g) i (
          walk_correct (get_dependents g) (λ _. false) (size g) i (dependents-IsBounded g)
            (number-lt-size x i hx)) in
        (
          marked_ids visited packages_ids,
          rw (hx, list_all_dependants, list_dependants, e),
          λ y k hy. (
            λ m.
                let (k', h, f) = index_of_IsMarked visited packages_ids y m in
                let same = some-injective _ _ (sym (numbered.number_of y k' h) ∙ hy) in
                subst (Reach (get_dependents g) i) same ((c.exact k').0 f),
            λ r. mem_of_marked visited packages_ids y k (numbered.id_of y k hy) ((c.exact k).1 r),
          ),
        )

    -- On a numbered graph, for two known packages x and y, `list_all_dependants` of x returns ids,
    -- and y is among them exactly when `depends_on` answers that y depends on x.
    pub list_all_dependants-depends_on :
        (x y : String) (i k : ℕ)
        → Map.get packages_numbers_by_package_id x ≡ some i
        → Map.get packages_numbers_by_package_id y ≡ some k
        → (ids : List String) × (list_all_dependants g x ≡ ok ids)
          × (Memᴰ y ids ↔ (depends_on g y x none ≡ ok true))
    list_all_dependants-depends_on x y i k hx hy =
        let (ids, e, listed) = list_all_dependants-eq-Reach x i hx in
        let (b, eq, r) = depends_on-eq-Reach y x k i hy hx in
        (
          ids,
          e,
          (
            λ m. eq ∙ ap ok (r.1 (reversed ((listed y k hy).0 m))),
            λ h. (listed y k hy).1 (reversed_back (r.0 (ok-injective (sym eq ∙ h)))),
          ),
        )
