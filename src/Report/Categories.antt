-- ===== src/Report/Categories.antt =====
-- `generate_categories`, class by class.
use mathlib.Core.List.Memᴰ
use mathlib.Core.Bool.{false≢true}
use mathlib.Core.Option.{some-injective}
use scout_audit.Base.{
  ◌≡◌, refl, sym, ◌∙◌, ap, subst, String, Bool, true, false, Option, none, some, List, [], ◌∷◌,
  ◌++◌, Memᴰ, foldl, any, mem_of_any, ◌==◌, eq_iff, Bool-cases, Option-cases, ◌↔◌, ◌⊎◌, inl, inr,
  ⊎_elim, if◌then◌else◌,
}
use scout_audit.Base.Map
use scout_audit.Base.Map.{Map, get-insert}
use scout_audit.Lints.{LintInfo, LintStore, find_by_id}
use scout_audit.Lints.Laws.{IsKeyed}
use scout_audit.Report.{
  Vulnerability, Category, ReportFinding, vulnerability_from, categorize, categories_of,
}

-- the vulnerabilities under a class
abbrev vulnerabilities_of : Option Category → List Vulnerability
vulnerabilities_of none = []
vulnerabilities_of (some c) = c.vulnerabilities

abbrev pub in_class : Map Category → String → List Vulnerability
in_class m class = vulnerabilities_of (Map.get m class)

-- the new list of the class of a lint
abbrev extended : LintInfo → ReportFinding → List Vulnerability → List Vulnerability
extended l f vs =
    if any (λ (v : Vulnerability). v.id == f.vulnerability_id) vs
    then vs
    else vs ++ vulnerability_from l ∷ []

in_class-insert :
    (m : Map Category) (k : String) (c : Category) (class : String)
    → in_class (Map.insert m k c) class
      ≡ (if k == class then c.vulnerabilities else in_class m class)
in_class-insert m k c class = ap vulnerabilities_of (get-insert m k c class) ∙ either (k == class)
  where
    either :
        (b : Bool)
        → vulnerabilities_of (if b then some c else Map.get m class)
          ≡ (if b then c.vulnerabilities else in_class m class)
    either true = refl
    either false = refl

pushed :
    (b : Bool) (c : Category) (v : Vulnerability)
    → (if b then c else record c { vulnerabilities = c.vulnerabilities ++ v ∷ [] }).vulnerabilities
      ≡ (if b then c.vulnerabilities else c.vulnerabilities ++ v ∷ [])
pushed true c v = refl
pushed false c v = refl

module _ (store : LintStore) where
  in_class-categorize :
      (m : Map Category) (f : ReportFinding) (l : LintInfo) (class : String)
      → find_by_id store f.vulnerability_id ≡ some l
      → in_class (categorize store m f) class ≡ (
          if l.vulnerability_class == class
          then extended l f (in_class m l.vulnerability_class)
          else in_class m class)
  unfolding categorize
  in_class-categorize m f l class e = elim (Option-cases (Map.get m l.vulnerability_class)) [
    | inl none_yet ↦
        rw (e, categorize) (rw none_yet (in_class-insert m l.vulnerability_class _ class))
    | inr (c, held) ↦
        rw (e, categorize)
          (rw held (
            in_class-insert m l.vulnerability_class _ class
            ∙ ap
                (λ (vs : List Vulnerability).
                  if l.vulnerability_class == class then vs else in_class m class)
                (pushed (any (λ (v : Vulnerability). v.id == f.vulnerability_id) c.vulnerabilities)
                  c (vulnerability_from l))))
  ]

  -- every entry comes from the lint that the store has under its id
  abbrev Held : Map Category → Type 0
  Held m =
      (class : String) (v : Vulnerability)
      → Memᴰ v (in_class m class)
      → (l : LintInfo) × (find_by_id store v.id ≡ some l) × (v ≡ vulnerability_from l)

  -- what one finding adds to a class
  abbrev Gives : String → Vulnerability → ReportFinding → Type 0
  Gives class v f =
      (l : LintInfo) × (find_by_id store f.vulnerability_id ≡ some l)
      × (l.vulnerability_class ≡ class)
      × (vulnerability_from l ≡ v)

  mem-extended :
      (vs : List Vulnerability) (f : ReportFinding) (l : LintInfo) (v : Vulnerability)
      → ((u : Vulnerability)
          → Memᴰ u vs
          → (l' : LintInfo) × (find_by_id store u.id ≡ some l') × (u ≡ vulnerability_from l'))
      → find_by_id store f.vulnerability_id ≡ some l
      → Memᴰ v (extended l f vs) ↔ (Memᴰ v vs ⊎ (vulnerability_from l ≡ v))
  mem-extended vs f l v held e =
      elim (Bool-cases (any (λ (u : Vulnerability). u.id == f.vulnerability_id) vs)) [
        | inl there ↦ rw there (
          inl,
          ⊎_elim (λ m. m)
              (λ new.
                let (u, m, same) =
                  mem_of_any (λ (u : Vulnerability). u.id == f.vulnerability_id) vs there in
                let (l', found, from) = held u m in
                let one = some-injective l' l (
                  sym found
                  ∙ ap (find_by_id store) ((eq_iff u.id f.vulnerability_id).0 same)
                  ∙ e) in
                subst (λ (t : Vulnerability). Memᴰ t vs) (from ∙ ap vulnerability_from one ∙ new)
                  m),
        )
        | inr absent ↦ rw absent (
          λ m. ⊎_elim inl (λ last. inr (sym (Memᴰ.eq_of_singleton last))) (Memᴰ.append_cases vs m),
          ⊎_elim (Memᴰ.append_left _) (λ new. Memᴰ.append_right vs (Memᴰ.head (sym new))),
        )
      ]

  same_map :
      (m : Map Category) (f : ReportFinding)
      → find_by_id store f.vulnerability_id ≡ none
      → categorize store m f ≡ m
  unfolding categorize
  same_map m f e = rw (e, categorize) refl

  mem-categorize :
      (m : Map Category) (f : ReportFinding) (class : String) (v : Vulnerability)
      → Held m
      → Memᴰ v (in_class (categorize store m f) class)
        ↔ (Memᴰ v (in_class m class) ⊎ Gives class v f)
  mem-categorize m f class v held = elim (Option-cases (find_by_id store f.vulnerability_id)) [
    | inl e ↦ rw (same_map m f e) (inl, ⊎_elim (λ k. k) (λ (l, found, _, _). cc (sym found ∙ e)))
    | inr (l, e) ↦ rw (in_class-categorize m f l class e) (of_class l e)
  ]
    where
      of_class :
          (l : LintInfo)
          → find_by_id store f.vulnerability_id ≡ some l
          → Memᴰ v (
              if l.vulnerability_class == class
              then extended l f (in_class m l.vulnerability_class)
              else in_class m class)
            ↔ (Memᴰ v (in_class m class) ⊎ Gives class v f)
      of_class l e = elim (Bool-cases (l.vulnerability_class == class)) [
        | inl c ↦
            let same = (eq_iff l.vulnerability_class class).0 c in
            let spec =
              mem-extended (in_class m l.vulnerability_class) f l v (held l.vulnerability_class)
                e in
            rw c (
              λ k.
                  ⊎_elim (λ old. inl (subst (λ (t : String). Memᴰ v (in_class m t)) same old))
                    (λ new. inr (l, e, same, new)) (spec.0 k),
              ⊎_elim
                  (λ old.
                    spec.1 (inl (subst (λ (t : String). Memᴰ v (in_class m t)) (sym same) old)))
                  (λ (l', e', _, new).
                    spec.1 (inr (ap vulnerability_from (some-injective l l' (sym e ∙ e')) ∙ new))),
            )
        | inr c ↦ rw c (
          inl,
          ⊎_elim (λ k. k)
              (λ (l', e', k', _). absurd (
                false≢true (
                  sym c
                  ∙ (eq_iff l.vulnerability_class class).1 (
                      ap (λ (t : LintInfo). t.vulnerability_class)
                        (some-injective l l' (sym e ∙ e'))
                      ∙ k')))),
        )
      ]

  module _ (keyed : IsKeyed store) where
    categorize-Held : (m : Map Category) (f : ReportFinding) → Held m → Held (categorize store m f)
    unfolding vulnerability_from
    categorize-Held m f held class v k =
        ⊎_elim (held class v)
          (λ (l, e, _, same). (
            l,
            ap (find_by_id store)
                  (ap (λ (t : Vulnerability). t.id) (sym same) ∙ keyed f.vulnerability_id l e)
                ∙ e,
            sym same,
          ))
          ((mem-categorize m f class v held).0 k)

    mem-categories :
        (fs : List ReportFinding) (m : Map Category) (class : String) (v : Vulnerability)
        → Held m
        → Memᴰ v (in_class (foldl (categorize store) m fs) class)
          ↔ (Memᴰ v (in_class m class) ⊎ ((f : ReportFinding) × Memᴰ f fs × Gives class v f))
    mem-categories [] m class v held = (inl, ⊎_elim (λ k. k) (λ (f, k, _). absurd (Memᴰ.not-nil k)))
    mem-categories (f ∷ fs) m class v held =
        let first = mem-categorize m f class v held in
        let rest = mem-categories fs (categorize store m f) class v (categorize-Held m f held) in
        (
          λ k.
              ⊎_elim (λ here. ⊎_elim inl (λ new. inr (f, Memᴰ.head refl, new)) (first.0 here))
                (λ (g, there, new). inr (g, Memᴰ.tail there, new)) (rest.0 k),
          ⊎_elim (λ old. rest.1 (inl (first.1 (inl old))))
              (λ (g, there, new).
                ⊎_elim (λ same. rest.1 (inl (first.1 (inr (subst (Gives class v) same new)))))
                  (λ later. rest.1 (inr (g, later, new))) (Memᴰ.cases_cons there)),
        )

-- With a store whose lints stand under their own ids, the vulnerabilities of a class are exactly
-- those of the lints of that class that the findings are of.
pub mem-categories_of :
    (store : LintStore) (fs : List ReportFinding) (class : String) (v : Vulnerability)
    → IsKeyed store
    → Memᴰ v (in_class (categories_of store fs) class) ↔ (
        (f : ReportFinding) × (l : LintInfo) × Memᴰ f fs
        × (find_by_id store f.vulnerability_id ≡ some l)
        × (l.vulnerability_class ≡ class)
        × (vulnerability_from l ≡ v))
unfolding categories_of
mem-categories_of store fs class v keyed =
    let spec = mem-categories store keyed fs [] class v (λ c u k. absurd (Memᴰ.not-nil k)) in
    (
      λ k.
          ⊎_elim (λ old. absurd (Memᴰ.not-nil old))
            (λ (f, m, (l, e, c, same)). (f, l, m, e, c, same)) (spec.0 k),
      λ (f, l, m, e, c, same). spec.1 (inr (f, m, (l, e, c, same))),
    )
