-- ===== src/Graph/Numbers.antt =====
-- The numbering of the packages: `packages_ids` and `packages_numbers_by_package_id`.
use mathlib.Core.List.Memᴰ
use mathlib.Core.Option.{some-injective, none-ne-some}
use scout_audit.Base.{
  ℕ, zero, suc, ◌+◌, ◌<◌, ◌≡◌, refl, sym, ◌∙◌, ap, subst, String, true, false, some, List, [], ◌∷◌,
  Memᴰ, inl, inr, ◌↔◌, get_elem?, length, contains, mem_of_contains, Bool-cases, arith, eq_iff,
}
use scout_audit.Base.Map
use scout_audit.Base.Map.{Map, get-insert}
use scout_audit.Graph.{DependencyGraph, number_from}

-- no id twice, as in a list that was made of a set
abbrev pub Distinct : List String → Type 0
Distinct [] = Unit
Distinct (x ∷ xs) = (contains xs x ≡ false) × Distinct xs

get-number_from_absent :
    (i : ℕ) (xs : List String) (m : Map ℕ) (x : String)
    → contains xs x ≡ false
    → Map.get (number_from i xs m) x ≡ Map.get m x
unfolding number_from
get-number_from_absent i [] m x h = refl
get-number_from_absent i (y ∷ xs) m x h =
    ground (arith, get-number_from_absent (suc i) xs (Map.insert m y i) x, get-insert m y i x)

pub index_of_mem : (x : String) (xs : List String) → Memᴰ x xs → (k : ℕ) × (get_elem? xs k ≡ some x)
index_of_mem x [] m = absurd (Memᴰ.not-nil m)
index_of_mem x (y ∷ xs) (Memᴰ.head e) = (0, ap some (sym e))
index_of_mem x (y ∷ xs) (Memᴰ.tail m) = let (k, h) = index_of_mem x xs m in (suc k, h)

pub contains_of_index :
    (x : String) (xs : List String) (k : ℕ) → get_elem? xs k ≡ some x → contains xs x ≡ true
contains_of_index x [] k h = cc
contains_of_index x (y ∷ xs) zero h = ground (arith, eq_iff y x)
contains_of_index x (y ∷ xs) (suc k) h = ground (arith, contains_of_index x xs k h)

pub lt-length_of_index {ℓ} :
    {A : Type ℓ} (x : A) (xs : List A) (k : ℕ) → get_elem? xs k ≡ some x → k < length xs
lt-length_of_index x [] k h = cc
lt-length_of_index x (y ∷ xs) zero h = omega arith
lt-length_of_index x (y ∷ xs) (suc k) h = omega (arith, lt-length_of_index x xs k h)

get-number_from_present :
    (i : ℕ) (xs : List String) (m : Map ℕ) (x : String) (k : ℕ)
    → Distinct xs
    → get_elem? xs k ≡ some x
    → Map.get (number_from i xs m) x ≡ some (i + k)
unfolding number_from
get-number_from_present i [] m x k d h = cc
get-number_from_present i (y ∷ xs) m x zero d h =
    ground (
      arith,
      get-number_from_absent (suc i) xs (Map.insert m y i) y,
      get-insert m y i y,
      eq_iff y y,
    )
get-number_from_present i (y ∷ xs) m x (suc k) d h =
    ground (arith, get-number_from_present (suc i) xs (Map.insert m y i) x k)

-- Both directions of the numbering, and the size of the matrix.
pub record IsNumbered (g : DependencyGraph) : Type 0 where
  pub id_of :
      (x : String) (k : ℕ)
      → Map.get g.packages_numbers_by_package_id x ≡ some k
      → get_elem? g.packages_ids k ≡ some x
  pub number_of :
      (x : String) (k : ℕ)
      → get_elem? g.packages_ids k ≡ some x
      → Map.get g.packages_numbers_by_package_id x ≡ some k

pub number_from-inverts :
    (xs : List String) (x : String) (k : ℕ)
    → Distinct xs
    → (Map.get (number_from 0 xs []) x ≡ some k) ↔ (get_elem? xs k ≡ some x)
number_from-inverts xs x k d = (
  λ h. elim (Bool-cases (contains xs x)) [
    | inl e ↦
        let (i, at_i) = index_of_mem x xs (mem_of_contains xs x e) in
        let same = some-injective _ _ (sym (get-number_from_present 0 xs [] x i d at_i) ∙ h) in
        let e : i ≡ k = omega (arith, same) in subst (λ t. get_elem? xs t ≡ some x) e at_i
    | inr e ↦ absurd (none-ne-some k (sym (get-number_from_absent 0 xs [] x e) ∙ h))
  ],
  λ h. get-number_from_present 0 xs [] x k d h ∙ ap some (omega arith),
)
