-- ===== src/Table/Severities.antt =====
-- `count_findings` against the findings of each severity, and dashes in the names of packages.
use mathlib.Core.Bool.{false≢true}
use scout_audit.Base.{
  subst, ℕ, ◌+◌, ◌≡◌, refl, sym, ◌∙◌, ap, String, Bool, true, false, not, ◌&&◌, none, some, List,
  [], ◌∷◌, foldl, length, filter, is_empty, contains_char, inl, inr, arith, ◌==◌, eq_iff,
  Bool-cases, Option-cases, if◌then◌else◌, ok,
}
use scout_audit.Base.Map
use scout_audit.Base.Map.{Map}
use scout_audit.Json.{Serde}
use scout_audit.Metadata.{Metadata}
use scout_audit.Finding.{Finding, code, package_name}
use scout_audit.Lints.{LintStore, find_by_id}
use scout_audit.Crates.{Package, get_crates}
use scout_audit.Crates.Split.{get_crates-NoDash}
use scout_audit.Table.{Counts, bump, count_finding, count_findings}

-- the severity of the lint that a code stands for
abbrev pub has_severity : LintStore → String → String → Bool
has_severity store severity id = elim (find_by_id store id) [
  | none ↦ false
  | some d ↦ d.severity == severity
]

zero_add : (n : ℕ) → 0 + n ≡ n
zero_add n = omega arith

-- A severity is one of the four, which no two of them are, or passes none of the tests.
only_one : (s a b : String) → s == a ≡ true → (a == b) ≡ false → s == b ≡ false
only_one s a b h other = subst (λ (t : String). (t == b) ≡ false) (sym ((eq_iff s a).0 h)) other

critical-bump :
    (s : String) (c : Counts)
    → (bump s c).critical ≡ c.critical + (if s == "Critical" then 1 else 0)
unfolding bump
critical-bump s c = ground arith

medium-bump :
    (s : String) (c : Counts) → (bump s c).medium ≡ c.medium + (if s == "Medium" then 1 else 0)
unfolding bump
medium-bump s c = ground (arith, only_one s "Critical" "Medium")

minor-bump :
    (s : String) (c : Counts) → (bump s c).minor ≡ c.minor + (if s == "Minor" then 1 else 0)
unfolding bump
minor-bump s c = ground (arith, only_one s "Critical" "Minor", only_one s "Medium" "Minor")

enhancement-bump :
    (s : String) (c : Counts)
    → (bump s c).enhancement ≡ c.enhancement + (if s == "Enhancement" then 1 else 0)
unfolding bump
enhancement-bump s c = ground (
  arith,
  only_one s "Critical" "Enhancement",
  only_one s "Medium" "Enhancement",
  only_one s "Minor" "Enhancement",
)

module _ ⦃j : Serde⦄ (krate : String) (store : LintStore) where
  -- a finding of this crate whose lint has this severity
  abbrev pub is_counted : String → Finding → Bool
  is_counted severity f =
      package_name f == krate && not (is_empty (code f)) && has_severity store severity (code f)

  abbrev number : String → List Finding → ℕ
  number severity fs = length (filter (is_counted severity) fs)

  -- one field of the counts, which one finding of one severity raises
  counted-foldl :
      (field : Counts → ℕ) (severity : String)
      → ((c : Counts) (f : Finding)
          → field (count_finding krate store c f)
            ≡ field c + (if is_counted severity f then 1 else 0))
      → (c : Counts) (fs : List Finding)
      → field (foldl (count_finding krate store) c fs) ≡ field c + number severity fs
  counted-foldl field severity step c [] = omega arith
  counted-foldl field severity step c (f ∷ fs) =
      ground (arith, counted-foldl field severity step (count_finding krate store c f) fs, step c f)

  critical-count_finding :
      (c : Counts) (f : Finding)
      → (count_finding krate store c f).critical
        ≡ c.critical + (if is_counted "Critical" f then 1 else 0)
  unfolding count_finding
  critical-count_finding c f = elim (Option-cases (find_by_id store (code f))) [
    | inl e ↦ rw (e, count_finding) (ground arith)
    | inr (d, e) ↦ rw (e, count_finding) (ground (arith, critical-bump d.severity c))
  ]

  medium-count_finding :
      (c : Counts) (f : Finding)
      → (count_finding krate store c f).medium ≡ c.medium + (if is_counted "Medium" f then 1 else 0)
  unfolding count_finding
  medium-count_finding c f = elim (Option-cases (find_by_id store (code f))) [
    | inl e ↦ rw (e, count_finding) (ground arith)
    | inr (d, e) ↦ rw (e, count_finding) (ground (arith, medium-bump d.severity c))
  ]

  minor-count_finding :
      (c : Counts) (f : Finding)
      → (count_finding krate store c f).minor ≡ c.minor + (if is_counted "Minor" f then 1 else 0)
  unfolding count_finding
  minor-count_finding c f = elim (Option-cases (find_by_id store (code f))) [
    | inl e ↦ rw (e, count_finding) (ground arith)
    | inr (d, e) ↦ rw (e, count_finding) (ground (arith, minor-bump d.severity c))
  ]

  enhancement-count_finding :
      (c : Counts) (f : Finding)
      → (count_finding krate store c f).enhancement
        ≡ c.enhancement + (if is_counted "Enhancement" f then 1 else 0)
  unfolding count_finding
  enhancement-count_finding c f = elim (Option-cases (find_by_id store (code f))) [
    | inl e ↦ rw (e, count_finding) (ground arith)
    | inr (d, e) ↦ rw (e, count_finding) (ground (arith, enhancement-bump d.severity c))
  ]

  -- Each of the four counts is the number of the findings of the crate, with a code, whose lint is
  -- in the store with that severity.
  pub count_findings-number :
      (fs : List Finding)
      → ((count_findings fs krate store).critical ≡ length (filter (is_counted "Critical") fs))
        × ((count_findings fs krate store).medium ≡ length (filter (is_counted "Medium") fs))
        × ((count_findings fs krate store).minor ≡ length (filter (is_counted "Minor") fs))
        × ((count_findings fs krate store).enhancement
            ≡ length (filter (is_counted "Enhancement") fs))
  unfolding count_findings
  count_findings-number fs = (
    counted-foldl (λ (c : Counts). c.critical) "Critical" critical-count_finding _ fs ∙ zero_add _,
    counted-foldl (λ (c : Counts). c.medium) "Medium" medium-count_finding _ fs ∙ zero_add _,
    counted-foldl (λ (c : Counts). c.minor) "Minor" minor-count_finding _ fs ∙ zero_add _,
    counted-foldl (λ (c : Counts). c.enhancement) "Enhancement" enhancement-count_finding _ fs
        ∙ zero_add _,
  )

module _ ⦃j : Serde⦄ (hash_order : List String → List String) (metadata : Metadata)
    (map_order : Map Bool → List (String × Bool)) where
  -- A finding whose package name has a dash is counted in the row of no crate that `get_crates`
  -- returned.
  pub count_finding-dash :
      (output : List Finding) (packages : List Package) (store : LintStore) (f : Finding)
      (krate : String) (good : Bool) (c : Counts) {crates : Map Bool}
      → get_crates hash_order metadata map_order output packages ≡ ok crates
      → contains_char "-" (package_name f) ≡ true
      → Map.get crates krate ≡ some good
      → count_finding krate store c f ≡ c
  unfolding count_finding
  count_finding-dash output packages store f krate good c h dash key =
      let clean =
        get_crates-NoDash hash_order metadata map_order output packages h krate good key in
      elim (Bool-cases (package_name f == krate)) [
        | inl e ↦ absurd (
            false≢true (
              sym clean
              ∙ ap (contains_char "-") (sym ((eq_iff (package_name f) krate).0 e))
              ∙ dash))
        | inr e ↦ rw e refl
      ]
