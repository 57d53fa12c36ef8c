-- ===== src/Libraries/Roots.antt =====
-- The libraries by their roots: the packages that `regroup` puts together.
use mathlib.Core.Option.{some-injective}
use scout_audit.Base.{
  ◌≡◌, refl, sym, ◌∙◌, ap, inl, inr, String, Bool, Option, none, some, List, [], ◌∷◌, ◌++◌, ◌==◌,
  eq_iff, filter, foldl, map, Option-cases, Bool-cases, if◌then◌else◌, arith,
}
use mathlib.Core.List.{append_assoc, append-nil}
use scout_audit.Base.Map
use scout_audit.Base.Map.{Map, get-insert}
use scout_audit.Base.Map.Entries.{DistinctKeys, insert-DistinctKeys}
use scout_audit.Metadata.{MetaPackage}
use scout_audit.Libraries.{DetectorLibrary, insert_package, regroup}

abbrev pub Kept : Type 0
Kept = MetaPackage × DetectorLibrary

abbrev pub packages_of : Option DetectorLibrary → List MetaPackage
packages_of none = []
packages_of (some l) = l.metadata.packages

abbrev pub stands_under : String → Kept → Bool
stands_under root (_, l) = l.root == root

-- the library of a root with one more package
abbrev grown : Option DetectorLibrary → Kept → DetectorLibrary
grown none (p, l) = record l { metadata = record l.metadata { packages = [] ++ p ∷ [] } }
grown (some e) (p, l) = record e {
  metadata = record e.metadata { packages = e.metadata.packages ++ p ∷ [] };
}

insert-grown :
    (m : Map DetectorLibrary) (e : Kept)
    → regroup m e ≡ Map.insert m e.1.root (grown (Map.get m e.1.root) e)
unfolding regroup
insert-grown m (p, l) = elim (Option-cases (Map.get m l.root)) [
  | inl q ↦ rw (q, regroup, grown) refl
  | inr (x, q) ↦ rw (q, regroup, grown) refl
]

get-regroup :
    (m : Map DetectorLibrary) (e : Kept) (root : String)
    → Map.get (regroup m e) root
      ≡ (if stands_under root e then some (grown (Map.get m e.1.root) e) else Map.get m root)
get-regroup m e root =
    ap (λ x. Map.get x root) (insert-grown m e)
    ∙ get-insert m e.1.root (grown (Map.get m e.1.root) e) root

packages-grown :
    (o : Option DetectorLibrary) (e : Kept)
    → packages_of (some (grown o e)) ≡ packages_of o ++ e.0 ∷ []
packages-grown none e = refl
packages-grown (some l) e = refl

grown-root :
    (o : Option DetectorLibrary) (e : Kept)
    → ((l : DetectorLibrary) → o ≡ some l → l.root ≡ e.1.root)
    → (grown o e).root ≡ e.1.root
grown-root none e h = refl
grown-root (some l) e h = h l refl

packages-regroup :
    (m : Map DetectorLibrary) (e : Kept) (root : String)
    → packages_of (Map.get (regroup m e) root) ≡ (
        if stands_under root e
        then packages_of (Map.get m root) ++ e.0 ∷ []
        else packages_of (Map.get m root))
packages-regroup m e root =
    ap packages_of (get-regroup m e root) ∙ elim (Bool-cases (stands_under root e)) [
      | inl q ↦ rw q (
          packages-grown (Map.get m e.1.root) e
          ∙ ap (λ k. packages_of (Map.get m k) ++ e.0 ∷ []) ((eq_iff e.1.root root).0 q))
      | inr q ↦ rw q refl
    ]

-- the packages under a root are those that were kept for it, in their order
pub packages-foldl :
    (es : List Kept) (m : Map DetectorLibrary) (root : String)
    → packages_of (Map.get (foldl regroup m es) root)
      ≡ packages_of (Map.get m root) ++ map (λ (e : Kept). e.0) (filter (stands_under root) es)
packages-foldl [] m root = sym (append-nil _)
packages-foldl (e ∷ es) m root =
    packages-foldl es (regroup m e) root
    ∙ ap (λ x. x ++ map (λ (k : Kept). k.0) (filter (stands_under root) es))
        (packages-regroup m e root)
    ∙ elim (Bool-cases (stands_under root e)) [
      | inl q ↦ rw q (append_assoc (packages_of (Map.get m root)) (e.0 ∷ []) _)
      | inr q ↦ rw q refl
    ]

abbrev pub Rooted : Map DetectorLibrary → Type 0
Rooted m = (root : String) (l : DetectorLibrary) → Map.get m root ≡ some l → l.root ≡ root

pub regroup-Rooted : (m : Map DetectorLibrary) (e : Kept) → Rooted m → Rooted (regroup m e)
regroup-Rooted m e h root kept q = elim (Bool-cases (stands_under root e)) [
  | inl here ↦
      let now = rw here at (sym (get-regroup m e root) ∙ q) in
      ap (λ (x : DetectorLibrary). x.root) (sym (some-injective _ _ now))
      ∙ grown-root (Map.get m e.1.root) e (h e.1.root)
      ∙ (eq_iff e.1.root root).0 here
  | inr other ↦ h root kept (rw other at (sym (get-regroup m e root) ∙ q))
]

pub regroup-DistinctKeys :
    (m : Map DetectorLibrary) (e : Kept) → DistinctKeys m → DistinctKeys (regroup m e)
unfolding regroup
regroup-DistinctKeys m (p, l) h = insert-DistinctKeys m l.root _ h

pub insert_package-DistinctKeys :
    (t : String) (l : DetectorLibrary) (m : Map Kept) (p : MetaPackage)
    → DistinctKeys m
    → DistinctKeys (insert_package t l m p)
unfolding insert_package
insert_package-DistinctKeys t l m p h = ground (arith, h, insert-DistinctKeys m p.name (p, l) h)

-- what holds of each step holds of a loop
pub foldl-keeps {ℓ κ μ} :
    {A : Type ℓ} {M : Type κ} (P : M → Type μ) (f : M → A → M)
    → ((m : M) (a : A) → P m → P (f m a))
    → (xs : List A) (m : M) → P m
    → P (foldl f m xs)
foldl-keeps P f step [] m h = h
foldl-keeps P f step (a ∷ xs) m h = foldl-keeps P f step xs (f m a) (step m a h)
