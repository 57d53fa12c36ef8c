-- ===== src/Projects/Laws.antt =====
-- The packages that `collect_packages` returns, and the path of the detectors of a toolchain.
use text.Mathlib.TextLemmas.{cons-append, nil-append}
use scout_audit.Base.{
  ◌≡◌, sym, ◌∙◌, ap, ap₂, String, true, Option, some, List, [], ◌∷◌, map, ok, ◌>>=◌, arith,
  >>=-eq-ok, ok-injective, find, strip_prefix, ◌==◌, Option-cases, inl, inr, unwrap_or,
  if◌then◌else◌,
}
use mathlib.Core.Option
use scout_audit.Metadata.{Metadata, MetaPackage}
use scout_audit.Paths.{PathOps}
use scout_audit.Crates.{Package}
use scout_audit.Cli.{concat, dated, Rustup, get_toolchain, nightly, parse_nightly_toolchain}
use scout_audit.Cli.Toolchain.{get_toolchain-dated, parse_parts-some}
use scout_audit.Base.{split_char}
use scout_audit.Projects.{
  package_ids, collect_package, collect_loop, collect_packages, get_detector_path,
}

-- the name of the first package with an id
abbrev pub name_of : Metadata → String → Option String
name_of metadata id =
    Option.map (λ (p : MetaPackage). p.name)
      (find (λ (p : MetaPackage). p.id == id) metadata.packages)

module _ (paths : PathOps) (metadata : Metadata) where
  collect_package-name :
      (id : String) {p : Package}
      → collect_package paths metadata id ≡ ok p
      → (p.id ≡ id) × (some p.name ≡ name_of metadata id)
  unfolding collect_package
  collect_package-name id h =
      elim (Option-cases (find (λ (q : MetaPackage). q.id == id) metadata.packages)) [
        | inl e ↦ cc (rw (e, collect_package) at h)
        | inr (q, e) ↦
            let same = ok-injective (rw (e, collect_package) at h) in
            (
              sym (ap (λ (r : Package). r.id) same),
              sym (ap (λ (r : Package). some r.name) same)
                  ∙ sym (ap (Option.map (λ (r : MetaPackage). r.name)) e),
            )
      ]

  collect_loop-ids :
      (ids : List String) {ps : List Package}
      → collect_loop paths metadata ids ≡ ok ps
      → (map (λ (p : Package). p.id) ps ≡ ids)
        × (map (λ (p : Package). some p.name) ps ≡ map (name_of metadata) ids)
  unfolding collect_loop
  collect_loop-ids [] h =
      let e = ok-injective h in
      (sym (ap (map (λ (p : Package). p.id)) e), sym (ap (map (λ (p : Package). some p.name)) e))
  collect_loop-ids (id ∷ ids) h =
      let (p, made, rest) =
        >>=-eq-ok (collect_package paths metadata id)
          (λ q. (collect_loop paths metadata ids) >>= λ qs. ok (q ∷ qs)) h in
      let (ps, looped, e) =
        >>=-eq-ok (collect_loop paths metadata ids) (λ (qs : List Package). ok (p ∷ qs)) rest in
      let (same_id, same_name) = collect_package-name id made in
      let (all_ids, all_names) = collect_loop-ids ids looped in
      let whole = sym (ok-injective e) in
      (
        ap (map (λ (q : Package). q.id)) whole
            ∙ ap₂ (λ (x : String) (xs : List String). x ∷ xs) same_id all_ids,
        ap (map (λ (q : Package). some q.name)) whole
            ∙ ap₂ (λ (x : Option String) (xs : List (Option String)). x ∷ xs) same_name all_names,
      )

  -- Where `collect_packages` returns, there are ids to collect, the packages have these ids in their
  -- order, and each has the name of the first package of the metadata with its id.
  pub collect_packages-ids :
      (ps : List Package)
      → collect_packages paths metadata ≡ ok ps
      → (ids : List String) × (package_ids metadata ≡ ok ids)
        × (map (λ (p : Package). p.id) ps ≡ ids)
        × (map (λ (p : Package). some p.name) ps ≡ map (name_of metadata) ids)
  unfolding collect_packages
  collect_packages-ids ps h =
      let (ids, asked, looped) = >>=-eq-ok (package_ids metadata) (collect_loop paths metadata) h in
      let (all_ids, all_names) = collect_loop-ids ids looped in (ids, asked, all_ids, all_names)

strip_prefix-concat : (p s : String) → strip_prefix p (concat p s) ≡ some s
strip_prefix-concat String.[] s = ap some (nil-append s)
strip_prefix-concat (String.◌∷◌ c p) s =
    rw (cons-append c p s) (ground (arith, strip_prefix-concat p s))

-- the date of a toolchain, and the detectors of that date
abbrev pub date : String → String → String → String
date year month day = concat year (concat "-" (concat month (concat "-" day)))

abbrev pub detectors_of : String → String → String
detectors_of d subpath =
    concat (concat "nightly" (concat "/" (concat d "/detectors"))) (concat "/" subpath)

-- Whatever `rustup` does, the detectors of a toolchain that `get_toolchain` returns stand under the
-- date of that toolchain.
pub get_detector_path-date :
    (rustup : Rustup) (toolchain subpath : String)
    → get_toolchain rustup ≡ ok toolchain
    → (year : String) × (month : String) × (day : String) × (dated year month day ≡ true)
      × (toolchain ≡ nightly year month day)
      × (get_detector_path toolchain subpath ≡ detectors_of (date year month day) subpath)
unfolding get_detector_path parse_nightly_toolchain nightly
get_detector_path-date rustup toolchain subpath h =
    let (year, month, day, good, e) =
      parse_parts-some (split_char "-" toolchain) ((get_toolchain-dated rustup).1 toolchain h) in
    (
      year,
      month,
      day,
      good,
      sym e,
      ap (λ (t : String). get_detector_path t subpath) (sym e)
          ∙ ap
              (λ (o : Option String).
                detectors_of
                  (unwrap_or o (
                    if nightly year month day == "nightly"
                    then "2026-05-28"
                    else nightly year month day))
                  subpath)
              (strip_prefix-concat "nightly-" (date year month day)),
    )
