-- ===== src/Libraries/Kept.antt =====
-- The libraries that `deduplicate_libraries` returns, and the packages in them.
use mathlib.Core.Option.{some-injective, none-ne-some}
use mathlib.Core.List.Memᴰ
use scout_audit.Base.{
  ◌≡◌, refl, sym, ◌∙◌, ap, subst, ◌↔◌, inl, inr, String, Option, none, some, List, [], ◌∷◌, Memᴰ,
  eq_iff, filter, mem-filter, foldl, map, Option-cases, arith,
}
use scout_audit.Base.Map
use scout_audit.Base.Map.{Map, get-insert}
use scout_audit.Base.Map.Entries.{DistinctKeys, mem-get}
use scout_audit.Metadata.{MetaPackage}
use scout_audit.Paths.{PathOps}
use scout_audit.Libraries.{
  DetectorLibrary, insert_package, regroup, insert_library, unique_packages, deduplicate_libraries,
  detector_type,
}
use scout_audit.Libraries.Unique.{
  Candidate, candidates, find_last, find_first, is_named, is_specific, or_else,
  unique_packages-chosen,
}
use scout_audit.Libraries.Roots.{
  Kept, packages_of, stands_under, Rooted, packages-foldl, regroup-Rooted, regroup-DistinctKeys,
  insert_package-DistinctKeys, foldl-keeps,
}

find_last-named :
    (name : String) (cs : List Candidate) (e : Kept)
    → find_last (is_specific name) cs ≡ some e
    → e.0.name ≡ name
find_last-named name [] e h = absurd (none-ne-some _ h)
find_last-named name (c ∷ cs) e h =
    ground (arith, find_last-named name cs e, eq_iff c.pkg.name name)

find_first-named :
    (name : String) (cs : List Candidate) (e : Kept)
    → find_first (is_named name) cs ≡ some e
    → e.0.name ≡ name
find_first-named name [] e h = absurd (none-ne-some _ h)
find_first-named name (c ∷ cs) e h =
    ground (arith, find_first-named name cs e, eq_iff c.pkg.name name)

-- walking a map meets its entries, and nothing else
abbrev pub Meets {ℓ} : {V : Type ℓ} → (Map V → Map V) → Type ℓ
Meets {V = V} order = (m : Map V) (e : String × V) → Memᴰ e (order m) ↔ Memᴰ e m

module _ (paths : PathOps) (ancestors : String → List String) (map_order : Map Kept → Map Kept)
    (root_order : Map DetectorLibrary → Map DetectorLibrary) where
  -- the package that is kept under a name, and its library
  abbrev pub chosen : List DetectorLibrary → String → Option Kept
  chosen libraries name =
      or_else (find_last (is_specific name) (candidates paths ancestors libraries))
        (find_first (is_named name) (candidates paths ancestors libraries))

  chosen-named :
      (libraries : List DetectorLibrary) (name : String) (e : Kept)
      → chosen libraries name ≡ some e
      → e.0.name ≡ name
  chosen-named libraries name e h =
      elim (Option-cases (find_last (is_specific name) (candidates paths ancestors libraries))) [
        | inl q ↦
            find_first-named name (candidates paths ancestors libraries) e (rw (q, chosen) at h)
        | inr (x, q) ↦
            find_last-named name (candidates paths ancestors libraries) e (q ∙ rw (q, chosen) at h)
      ]

  insert_library-DistinctKeys :
      (m : Map Kept) (l : DetectorLibrary)
      → DistinctKeys m
      → DistinctKeys (insert_library paths ancestors m l)
  unfolding insert_library
  insert_library-DistinctKeys m l h = elim (Option-cases (detector_type paths ancestors l)) [
    | inl e ↦ rw (e, insert_library) h
    | inr (t, e) ↦
        rw (e, insert_library)
          (foldl-keeps DistinctKeys (insert_package t l)
            (λ x p k. insert_package-DistinctKeys t l x p k) l.metadata.packages m h)
  ]

  kept : List DetectorLibrary → List Kept
  kept libraries = map (λ e. e.1) (map_order (unique_packages paths ancestors libraries))

  by_root : List DetectorLibrary → Map DetectorLibrary
  by_root libraries = foldl regroup [] (kept libraries)

  unique_packages-DistinctKeys :
      (libraries : List DetectorLibrary) → DistinctKeys (unique_packages paths ancestors libraries)
  unfolding unique_packages
  unique_packages-DistinctKeys libraries =
      foldl-keeps DistinctKeys (insert_library paths ancestors) insert_library-DistinctKeys
        libraries [] tt

  by_root-DistinctKeys : (libraries : List DetectorLibrary) → DistinctKeys (by_root libraries)
  unfolding by_root
  by_root-DistinctKeys libraries =
      foldl-keeps DistinctKeys regroup regroup-DistinctKeys (kept libraries) [] tt

  by_root-Rooted : (libraries : List DetectorLibrary) → Rooted (by_root libraries)
  unfolding by_root
  by_root-Rooted libraries =
      foldl-keeps Rooted regroup regroup-Rooted (kept libraries) []
        (λ r l e. absurd (none-ne-some _ e))

  -- the packages that are kept are those that are chosen under their names
  mem-kept :
      (libraries : List DetectorLibrary) (e : Kept)
      → Meets map_order
      → Memᴰ e (kept libraries) ↔ (chosen libraries e.0.name ≡ some e)
  unfolding kept
  mem-kept libraries e met =
      let all = unique_packages paths ancestors libraries in
      let distinct = unique_packages-DistinctKeys libraries in
      (
        λ m.
            let (x, i, q) = Memᴰ.of_map (λ (y : String × Kept). y.1) (map_order all) m in
            let got =
              sym (unique_packages-chosen paths ancestors libraries x.0)
              ∙ (mem-get all x.0 x.1 distinct).0 ((met all x).0 i) in
            subst (λ (y : Kept). chosen libraries y.0.name ≡ some y) q
              (ap (chosen libraries) (chosen-named libraries x.0 x.1 got) ∙ got),
        λ h.
            Memᴰ.map (λ (y : String × Kept). y.1)
              ((met all (e.0.name, e)).1 (
                (mem-get all e.0.name e distinct).1
                  (unique_packages-chosen paths ancestors libraries e.0.name ∙ h))),
      )

  mem-by_root :
      (libraries : List DetectorLibrary) (l : DetectorLibrary)
      → Meets root_order
      → Memᴰ l (deduplicate_libraries paths ancestors map_order root_order libraries)
        ↔ (Map.get (by_root libraries) l.root ≡ some l)
  unfolding deduplicate_libraries by_root kept
  mem-by_root libraries l met =
      let all = by_root libraries in
      let distinct = by_root-DistinctKeys libraries in
      (
        λ m.
            let (x, i, q) =
              Memᴰ.of_map (λ (y : String × DetectorLibrary). y.1) (root_order all) m in
            let got = (mem-get all x.0 x.1 distinct).0 ((met all x).0 i) in
            subst (λ (y : DetectorLibrary). Map.get all y.root ≡ some y) q
              (ap (Map.get all) (by_root-Rooted libraries x.0 x.1 got) ∙ got),
        λ h.
            Memᴰ.map (λ (y : String × DetectorLibrary). y.1)
              ((met all (l.root, l)).1 ((mem-get all l.root l distinct).1 h)),
      )

  packages_under : List DetectorLibrary → String → List MetaPackage
  packages_under libraries root = packages_of (Map.get (by_root libraries) root)

  -- the packages under a root are those that are chosen, of a library with the root
  mem-packages_under :
      (libraries : List DetectorLibrary) (root : String) (p : MetaPackage)
      → Meets map_order
      → Memᴰ p (packages_under libraries root)
        ↔ ((l : DetectorLibrary) × (chosen libraries p.name ≡ some (p, l)) × (l.root ≡ root))
  unfolding packages_under by_root
  mem-packages_under libraries root p met =
      let same = packages-foldl (kept libraries) [] root in
      (
        λ m.
            let (e, i, q) =
              Memᴰ.of_map (λ (e : Kept). e.0) (filter (stands_under root) (kept libraries))
                (subst (Memᴰ p) same m) in
            let (k, here) = (mem-filter (stands_under root) e (kept libraries)).0 i in
            (
              e.1,
              subst (λ (x : MetaPackage). chosen libraries x.name ≡ some (x, e.1)) q
                  ((mem-kept libraries e met).0 k),
              (eq_iff e.1.root root).0 here,
            ),
        λ (l, c, r). subst (Memᴰ p) (sym same) (
            Memᴰ.map (λ (e : Kept). e.0)
              ((mem-filter (stands_under root) (p, l) (kept libraries)).1
                ((mem-kept libraries (p, l) met).1 c, (eq_iff l.root root).1 r))),
      )

  -- Walks of the two maps that meet their entries given, a package stands in a library that
  -- `deduplicate_libraries` returns under a root exactly when it is the one chosen under its name, out
  -- of a library with that root: the last package of detectors for a blockchain that has the name,
  -- and where there is none, the first package of detectors for Rust that has it; the libraries that
  -- stand under no directory of a known kind do not count. No two of the libraries that are returned
  -- have the same root.
  pub deduplicate_libraries-chosen :
      (libraries : List DetectorLibrary) (root : String) (p : MetaPackage)
      → Meets map_order
      → Meets root_order
      → (((kept : DetectorLibrary) × Memᴰ kept
              (deduplicate_libraries paths ancestors map_order root_order libraries)
            × (kept.root ≡ root)
            × Memᴰ p kept.metadata.packages)
          ↔ ((l : DetectorLibrary) × (chosen libraries p.name ≡ some (p, l)) × (l.root ≡ root)))
        × ((a b : DetectorLibrary)
            → Memᴰ a (deduplicate_libraries paths ancestors map_order root_order libraries)
            → Memᴰ b (deduplicate_libraries paths ancestors map_order root_order libraries)
            → a.root ≡ b.root
            → a ≡ b)
  unfolding packages_under
  deduplicate_libraries-chosen libraries root p met met' =
      let under = mem-packages_under libraries root p met in
      (
        (
          λ (k, m, r, i).
              let got =
                ap (Map.get (by_root libraries)) (sym r) ∙ (mem-by_root libraries k met').0 m in
              under.0 (subst (λ o. Memᴰ p (packages_of o)) (sym got) i),
          λ h. standing (Map.get (by_root libraries) root) refl (under.1 h),
        ),
        λ a b m n r. some-injective _ _ (
            sym ((mem-by_root libraries a met').0 m)
            ∙ ap (Map.get (by_root libraries)) r
            ∙ (mem-by_root libraries b met').0 n),
      )
    where
      standing :
          (o : Option DetectorLibrary)
          → Map.get (by_root libraries) root ≡ o
          → Memᴰ p (packages_of o)
          → (kept : DetectorLibrary) × Memᴰ kept
              (deduplicate_libraries paths ancestors map_order root_order libraries)
            × (kept.root ≡ root)
            × Memᴰ p kept.metadata.packages
      standing none e i = absurd (Memᴰ.not-nil i)
      standing (some k) e i =
          let here = by_root-Rooted libraries root k e in
          (k, (mem-by_root libraries k met').1 (ap (Map.get (by_root libraries)) here ∙ e), here, i)
