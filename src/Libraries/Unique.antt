-- ===== src/Libraries/Unique.antt =====
-- Which package the libraries of detectors keep under a name.
use scout_audit.Base.{
  ◌≡◌, refl, sym, ◌∙◌, ap, String, Bool, not, ◌&&◌, Option, none, some, List, [], ◌∷◌, ◌++◌, ◌==◌,
  inl, inr, Option-cases, foldl, map, if◌then◌else◌, arith,
}
use mathlib.Core.List.{flat_map}
use text.Mathlib.TextEquality.{eq_iff}
use scout_audit.Base.Map
use scout_audit.Base.Map.{Map}
use scout_audit.Metadata.{MetaPackage}
use scout_audit.Paths.{PathOps}
use scout_audit.Libraries.{
  DetectorLibrary, insert_package, detector_type, insert_library, unique_packages,
}

-- a package of a library, with the kind of the library's detectors
pub record Candidate : Type 0 where
  pub kind : String
  pub pkg : MetaPackage
  pub library : DetectorLibrary

abbrev pub is_named : String → Candidate → Bool
is_named name c = c.pkg.name == name

-- a package with this name, of detectors for a blockchain
abbrev pub is_specific : String → Candidate → Bool
is_specific name c = c.pkg.name == name && not (c.kind == "rust")

abbrev pub find_last : (Candidate → Bool) → List Candidate → Option (MetaPackage × DetectorLibrary)
find_last p [] = none
find_last p (c ∷ cs) = elim (find_last p cs) [
  | some e ↦ some e
  | none ↦ if p c then some (c.pkg, c.library) else none
]

abbrev pub find_first : (Candidate → Bool) → List Candidate → Option (MetaPackage × DetectorLibrary)
find_first p [] = none
find_first p (c ∷ cs) = if p c then some (c.pkg, c.library) else find_first p cs

abbrev pub or_else :
    Option (MetaPackage × DetectorLibrary)
    → Option (MetaPackage × DetectorLibrary)
    → Option (MetaPackage × DetectorLibrary)
or_else (some e) _ = some e
or_else none o = o

abbrev insert_candidate :
    Map (MetaPackage × DetectorLibrary) → Candidate → Map (MetaPackage × DetectorLibrary)
insert_candidate m c = insert_package c.kind c.library m c.pkg

get-insert_candidates :
    (cs : List Candidate) (m : Map (MetaPackage × DetectorLibrary)) (name : String)
    → Map.get (foldl insert_candidate m cs) name
      ≡ or_else
          (find_last (is_specific name) cs)
          (or_else (Map.get m name) (find_first (is_named name) cs))
unfolding insert_package
get-insert_candidates [] m name = ground arith
get-insert_candidates (c ∷ cs) m name = ground (
  arith,
  get-insert_candidates cs (insert_candidate m c) name,
  Map.get-insert m c.pkg.name (c.pkg, c.library) name,
  eq_iff c.pkg.name name,
)

foldl-append :
    (m : Map (MetaPackage × DetectorLibrary)) (cs ds : List Candidate)
    → foldl insert_candidate m (cs ++ ds) ≡ foldl insert_candidate (foldl insert_candidate m cs) ds
foldl-append m [] ds = refl
foldl-append m (c ∷ cs) ds = foldl-append (insert_candidate m c) cs ds

foldl-map :
    (t : String) (l : DetectorLibrary) (m : Map (MetaPackage × DetectorLibrary))
    (ps : List MetaPackage)
    → foldl (insert_package t l) m ps
      ≡ foldl insert_candidate m (map (λ p. record { kind = t; pkg = p; library = l }) ps)
foldl-map t l m [] = refl
foldl-map t l m (p ∷ ps) = foldl-map t l (insert_package t l m p) ps

module _ (paths : PathOps) (ancestors : String → List String) where
  -- the packages of the library, if its detectors are of a known kind
  abbrev pub candidates_of : DetectorLibrary → List Candidate
  candidates_of l = elim (detector_type paths ancestors l) [
    | none ↦ []
    | some t ↦ map (λ p. record { kind = t; pkg = p; library = l }) l.metadata.packages
  ]

  unfoldable pub candidates : List DetectorLibrary → List Candidate
  candidates = flat_map candidates_of

  insert_library-candidates :
      (m : Map (MetaPackage × DetectorLibrary)) (l : DetectorLibrary)
      → insert_library paths ancestors m l ≡ foldl insert_candidate m (candidates_of l)
  unfolding insert_library
  insert_library-candidates m l = elim (Option-cases (detector_type paths ancestors l)) [
    | inl e ↦ rw (e, insert_library, candidates_of) refl
    | inr (t, e) ↦ rw (e, insert_library, candidates_of) (foldl-map t l m l.metadata.packages)
  ]

  foldl-insert_library :
      (m : Map (MetaPackage × DetectorLibrary)) (ls : List DetectorLibrary)
      → foldl (insert_library paths ancestors) m ls ≡ foldl insert_candidate m (candidates ls)
  unfolding candidates flat_map
  foldl-insert_library m [] = refl
  foldl-insert_library m (l ∷ ls) =
      foldl-insert_library (insert_library paths ancestors m l) ls
      ∙ ap (λ x. foldl insert_candidate x (candidates ls)) (insert_library-candidates m l)
      ∙ sym (foldl-append m (candidates_of l) (candidates ls))

  -- Which entry `unique_packages` has under a name.
  pub unique_packages-chosen :
      (libraries : List DetectorLibrary) (name : String)
      → Map.get (unique_packages paths ancestors libraries) name
        ≡ or_else
            (find_last (is_specific name) (candidates libraries))
            (find_first (is_named name) (candidates libraries))
  unfolding unique_packages
  unique_packages-chosen libraries name =
      ap (λ m. Map.get m name) (foldl-insert_library [] libraries)
      ∙ get-insert_candidates (candidates libraries) [] name
