-- ===== src/Base/Map/Entries.antt =====
-- The entries of a map whose keys differ, as `insert` makes it.
use mathlib.Core.Path.{◌≡◌, refl, sym, ◌∙◌, ap}
use mathlib.Core.Option.{none, some, some-injective, none-ne-some}
use mathlib.Core.List.{[], ◌∷◌, Memᴰ}
use mathlib.Core.List.Memᴰ
use mathlib.Core.Logic.{◌↔◌, inl, inr}
use Prim.Native.String.{String}
use native.Mathlib.Omega.{arith}
use text.Mathlib.Text.{◌==◌}
use text.Mathlib.TextEquality.{eq_iff}
use scout_audit.Base.Tests.{Bool-cases}
use scout_audit.Base.Map.{Map, get, insert, get-insert}

module _ {ℓ} {V : Type ℓ} where
  abbrev pub DistinctKeys : Map V → Type ℓ
  DistinctKeys [] = Unit {ℓ}
  DistinctKeys ((j, _) ∷ m) = (get m j ≡ none) × DistinctKeys m

  pub insert-DistinctKeys :
      (m : Map V) (k : String) (v : V) → DistinctKeys m → DistinctKeys (insert m k v)
  insert-DistinctKeys [] k v h = (refl, tt)
  insert-DistinctKeys ((j, w) ∷ m) k v (new, h) = elim (Bool-cases (j == k)) [
    | inl e ↦ rw e (new, h)
    | inr e ↦ rw e (
      ground (arith, get-insert m k v j, eq_iff j k, eq_iff k j, new),
      insert-DistinctKeys m k v h,
    )
  ]

  mem_of_get : (m : Map V) (k : String) (v : V) → get m k ≡ some v → Memᴰ (k, v) m
  mem_of_get [] k v e = absurd (none-ne-some _ e)
  mem_of_get ((j, w) ∷ m) k v e = elim (Bool-cases (j == k)) [
    | inl q ↦ Memᴰ.head (cc ((eq_iff j k).0 q, some-injective _ _ (rw q at e)))
    | inr q ↦ Memᴰ.tail (mem_of_get m k v (rw q at e))
  ]

  get_of_mem : (m : Map V) (k : String) (v : V) → DistinctKeys m → Memᴰ (k, v) m → get m k ≡ some v
  get_of_mem [] k v h m = absurd (Memᴰ.not-nil m)
  get_of_mem ((j, w) ∷ m) k v (new, h) i = elim (Memᴰ.cases_cons i) [
    | inl same ↦
        rw ((eq_iff j k).1 (sym (ap (λ (e : String × V). e.0) same)))
          (ap some (sym (ap (λ (e : String × V). e.1) same)))
    | inr later ↦ elim (Bool-cases (j == k)) [
      | inl q ↦
          absurd
            (none-ne-some _ (sym new ∙ ap (get m) ((eq_iff j k).0 q) ∙ get_of_mem m k v h later))
      | inr q ↦ rw q (get_of_mem m k v h later)
    ]
  ]

  pub mem-get :
      (m : Map V) (k : String) (v : V) → DistinctKeys m → Memᴰ (k, v) m ↔ (get m k ≡ some v)
  mem-get m k v h = (get_of_mem m k v h, mem_of_get m k v)
