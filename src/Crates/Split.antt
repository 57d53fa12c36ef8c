-- ===== src/Crates/Split.antt =====
-- `split_findings` and `get_crates`: the keys of the map of crates, and the names that are looked up.
use mathlib.Core.Bool.{false≢true}
use scout_audit.Base.{
  ◌≡◌, refl, sym, ◌∙◌, ap, subst, String, Bool, true, false, not, ◌&&◌, ◌||◌, none, some, List, [],
  ◌∷◌, Memᴰ, ok, ok-injective, >>=-eq-ok, filter, mem-filter, is_empty, replace_char, contains_char,
  contains_char-replace_char, char_eq, foldl, ◌==◌, eq_iff, Bool-cases, unwrap_or, arith,
  Option-cases, inl, inr,
}
use scout_audit.Base.Map
use scout_audit.Base.Map.{Map, get-insert}
use scout_audit.Json.{Serde}
use scout_audit.Metadata.{Metadata}
use scout_audit.Finding.{Finding, package_name, krate}
use scout_audit.Crates.{
  Package, normalize_crate_name, all_crates, update_crates, get_crates_from_output, get_crates,
  split_findings,
}

-- No key of the map holds a dash.
abbrev pub NoDash : Map Bool → Type 0
NoDash m = (k : String) (v : Bool) → Map.get m k ≡ some v → contains_char "-" k ≡ false

no-dash_of_normalize : (s : String) → contains_char "-" (normalize_crate_name s) ≡ false
unfolding normalize_crate_name
no-dash_of_normalize s = contains_char-replace_char "-" "_" s refl

insert-NoDash :
    (m : Map Bool) (s : String) (b : Bool)
    → NoDash m
    → NoDash (Map.insert m (normalize_crate_name s) b)
insert-NoDash m s b h k v e = elim (Bool-cases (normalize_crate_name s == k)) [
  | inl same ↦
      ap (contains_char "-") (sym ((eq_iff (normalize_crate_name s) k).0 same))
      ∙ no-dash_of_normalize s
  | inr other ↦ h k v (sym (ground (arith, get-insert m (normalize_crate_name s) b k)) ∙ e)
]

all_crates-NoDash :
    (packages : List Package) (m : Map Bool)
    → NoDash m
    → NoDash (foldl (λ r (p : Package). Map.insert r (normalize_crate_name p.name) true) m packages)
all_crates-NoDash [] m h = h
all_crates-NoDash (p ∷ packages) m h =
    all_crates-NoDash packages (Map.insert m (normalize_crate_name p.name) true)
      (insert-NoDash m p.name true h)

update_crates-NoDash :
    (entries : List (String × Bool)) (m : Map Bool) → NoDash m → NoDash (update_crates entries m)
unfolding update_crates
update_crates-NoDash [] m h = h
update_crates-NoDash ((name, good) ∷ entries) m h =
    elim (Bool-cases (Map.contains_key m (normalize_crate_name name))) [
      | inl e ↦ rw e (
          update_crates-NoDash entries (Map.insert m (normalize_crate_name name) good)
            (insert-NoDash m name good h))
      | inr e ↦ rw e (update_crates-NoDash entries m h)
    ]

-- The names that `split_findings` looks up hold dashes in place of underscores.
dash_of_krate :
    (s : String)
    → (contains_char "_" s || contains_char "-" s) ≡ true
    → contains_char "-" (replace_char "_" "-" s) ≡ true
dash_of_krate String.[] h = h
dash_of_krate (String.◌∷◌ c s) h = elim (Bool-cases (char_eq c "_")) [
  | inl e ↦ rw e refl
  | inr e ↦ rw e (or_right (char_eq c "-") (λ k. dash_of_krate s k) (rw e at h))
]
  where
    or_right :
        (b : Bool)
        → ((contains_char "_" s || contains_char "-" s) ≡ true
            → contains_char "-" (replace_char "_" "-" s) ≡ true)
        → (contains_char "_" s || (b || contains_char "-" s)) ≡ true
        → (b || contains_char "-" (replace_char "_" "-" s)) ≡ true
    or_right true ih k = refl
    or_right false ih k = ih k

not-is_empty_of_dash : (s : String) → contains_char "-" s ≡ true → is_empty s ≡ false
not-is_empty_of_dash String.[] h = cc
not-is_empty_of_dash (String.◌∷◌ c s) h = refl

absent_of_dash :
    (crates : Map Bool) (k : String)
    → NoDash crates
    → contains_char "-" k ≡ true
    → Map.get crates k ≡ none
absent_of_dash crates k clean h = elim (Option-cases (Map.get crates k)) [
  | inl e ↦ e
  | inr (v, e) ↦ absurd (false≢true (sym (clean k v e) ∙ h))
]

module _ ⦃j : Serde⦄ where
  -- whether a finding goes to the first list, or to the second
  abbrev pub is_successful : Map Bool → Finding → Bool
  is_successful crates f = not (is_empty (krate f)) && unwrap_or (Map.get crates (krate f)) true

  abbrev pub is_failed : Map Bool → Finding → Bool
  is_failed crates f = not (is_empty (krate f)) && not (unwrap_or (Map.get crates (krate f)) true)

  -- `split_findings` sorts the findings with a crate name into those whose crate is not marked as
  -- failed and the others, each in their order, and drops the findings with no crate name.
  pub split_findings-filter :
      (findings : List Finding) (crates : Map Bool)
      → split_findings findings crates
        ≡ (filter (is_successful crates) findings, filter (is_failed crates) findings)
  unfolding split_findings
  split_findings-filter [] crates = refl
  split_findings-filter (f ∷ findings) crates =
      ground (arith, split_findings-filter findings crates)

module _ ⦃j : Serde⦄ (hash_order : List String → List String) (metadata : Metadata)
    (map_order : Map Bool → List (String × Bool)) where
  pub get_crates-NoDash :
      (findings : List Finding) (packages : List Package) {crates : Map Bool}
      → get_crates hash_order metadata map_order findings packages ≡ ok crates
      → NoDash crates
  unfolding get_crates
  get_crates-NoDash findings packages h =
      let (seen, _, e) =
        >>=-eq-ok (get_crates_from_output hash_order metadata findings packages)
          (λ seen. ok (update_crates (map_order seen) (all_crates packages))) h in
      subst NoDash (ok-injective e) (
        update_crates-NoDash (map_order seen) (all_crates packages)
          (unfold all_crates in all_crates-NoDash packages [] (λ k v e. cc)))

  -- A finding of the list whose package name has an underscore or a dash is put with the successful
  -- ones and not with the failed ones, whatever status the map that `get_crates` returned gives to
  -- its crate.
  pub mem-split_findings_of_dash :
      (findings output : List Finding) (packages : List Package) (f : Finding) {crates : Map Bool}
      → get_crates hash_order metadata map_order output packages ≡ ok crates
      → (contains_char "_" (package_name f) || contains_char "-" (package_name f)) ≡ true
      → Memᴰ f findings
      → Memᴰ f (split_findings findings crates).0 × ¬ Memᴰ f (split_findings findings crates).1
  mem-split_findings_of_dash findings output packages f {crates} h dash m =
      let clean = get_crates-NoDash output packages h in
      let has_dash : contains_char "-" (krate f) ≡ true =
        unfold krate in dash_of_krate (package_name f) dash in
      let named = not-is_empty_of_dash (krate f) has_dash in
      let absent = absent_of_dash crates (krate f) clean has_dash in
      rw (split_findings-filter findings crates) (
        (mem-filter (is_successful crates) f findings).1 (m, rw (named, absent) refl),
        λ k. absurd (
            false≢true
              (sym (rw (named, absent) refl) ∙ ((mem-filter (is_failed crates) f findings).0 k).1)),
      )
