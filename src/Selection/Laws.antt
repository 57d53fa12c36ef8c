-- ===== src/Selection/Laws.antt =====
-- Selecting detectors by name.
use mathlib.Core.List.Memᴰ
use mathlib.Core.Bool.{false≢true}
use scout_audit.Base.{
  ◌≡◌, refl, sym, ◌∙◌, ap, subst, String, Bool, true, false, not, Option, none, some, List, [], ◌∷◌,
  ◌++◌, Memᴰ, ◌↔◌, inl, inr, ⊎_elim, Result, ok, err, ok-injective, find, mem-filter, contains,
  contains_of_mem, mem_of_contains, is_empty, contains_char, replace_char, split_char,
  contains_char-replace_char, Bool-cases, trim,
}
use mathlib.Core.List.{append_assoc, append-nil}
use scout_audit.Selection.{
  SelectionError, no_such_detector, parse_detectors, push_known, get_filtered_detectors,
  get_excluded_detectors,
}

-- The first parsed name that is not among the available ones.
abbrev pub unknown : List String → List String → Option String
unknown names parsed = find (λ d. not (contains names d)) parsed

-- An unknown name is an error, and without one the names are selected.
abbrev pub selected : Option String → List String → Result SelectionError (List String)
selected none ds = ok ds
selected (some d) ds = err (no_such_detector d)

push_known-eq :
    (names parsed acc : List String)
    → push_known names parsed acc ≡ selected (unknown names parsed) (acc ++ parsed)
unfolding push_known
push_known-eq names [] acc = ap ok (sym (append-nil acc))
push_known-eq names (d ∷ parsed) acc = elim (Bool-cases (contains names d)) [
  | inl e ↦ rw e (
      push_known-eq names parsed (acc ++ d ∷ [])
      ∙ ap (selected (unknown names parsed)) (append_assoc acc (d ∷ []) parsed))
  | inr e ↦ rw e refl
]

selected-eq-ok :
    (o : Option String) (parsed : List String) {ds : List String}
    → selected o parsed ≡ ok ds
    → parsed ≡ ds
selected-eq-ok none parsed h = ok-injective h
selected-eq-ok (some d) parsed h = cc

module _ (to_lowercase : String → String) where
  -- `--filter` selects the parsed names, repetitions included and in their order, where all of
  -- them are available; otherwise it fails with the first that is not.
  pub get_filtered_detectors-selected :
      (arg : String) (names : List String)
      → get_filtered_detectors to_lowercase arg names
        ≡ selected
            (unknown names (parse_detectors to_lowercase arg))
            (parse_detectors to_lowercase arg)
  unfolding get_filtered_detectors
  get_filtered_detectors-selected arg names =
      push_known-eq names (parse_detectors to_lowercase arg) []

  -- Where `--filter` accepts an argument, each available detector is either selected by it or left
  -- by `--exclude` with the same argument, and never both.
  pub filter_or_exclude :
      (arg : String) (names ds : List String) (n : String)
      → get_filtered_detectors to_lowercase arg names ≡ ok ds
      → Memᴰ n names
      → Memᴰ n ds ↔ ¬ Memᴰ n (get_excluded_detectors to_lowercase arg names)
  unfolding get_excluded_detectors
  filter_or_exclude arg names ds n h m =
      let parsed : List String = parse_detectors to_lowercase arg in
      let same =
        selected-eq-ok (unknown names parsed) parsed
          (sym (get_filtered_detectors-selected arg names) ∙ h) in
      let kept = mem-filter (λ (name : String). not (contains parsed name)) n names in
      (
        λ k q.
            let found = contains_of_mem parsed n (subst (Memᴰ n) (sym same) k) in
            absurd (false≢true (sym (ap not found) ∙ (kept.0 q).1)),
        λ no.
            ⊎_elim (λ e. subst (Memᴰ n) same (mem_of_contains parsed n e))
              (λ e. absurd (no (kept.1 (m, ap not e)))) (Bool-cases (contains parsed n)),
      )

  -- A parsed name is not empty and holds no underscore.
  parsed_clean :
      (arg d : String)
      → Memᴰ d (parse_detectors to_lowercase arg)
      → (is_empty d ≡ false) × (contains_char "_" d ≡ false)
  unfolding parse_detectors
  parsed_clean arg d m =
      let parts = split_char "," (to_lowercase arg) in
      let (at_d, named) = (mem-filter (λ (s : String). not (is_empty s)) d _).0 m in
      let (part, _, e) = Memᴰ.of_map (λ (x : String). replace_char "_" "-" (trim x)) parts at_d in
      (
        not_true (is_empty d) named,
        ap (contains_char "_") (sym e) ∙ contains_char-replace_char "_" "-" (trim part) refl,
      )
    where
      not_true : (b : Bool) → not b ≡ true → b ≡ false
      not_true true h = cc
      not_true false h = refl

  -- A detector whose package name has an underscore is not among what `--filter` selects, and
  -- `--exclude` leaves it, whatever the arguments.
  pub underscore_not_selectable :
      (arg arg' : String) (names ds : List String) (n : String)
      → Memᴰ n names
      → contains_char "_" n ≡ true
      → get_filtered_detectors to_lowercase arg names ≡ ok ds
      → (¬ Memᴰ n ds) × Memᴰ n (get_excluded_detectors to_lowercase arg' names)
  unfolding get_excluded_detectors
  underscore_not_selectable arg arg' names ds n m h e =
      let parsed : List String = parse_detectors to_lowercase arg in
      let parsed' : List String = parse_detectors to_lowercase arg' in
      let same =
        selected-eq-ok (unknown names parsed) parsed
          (sym (get_filtered_detectors-selected arg names) ∙ e) in
      (
        λ k. not_parsed arg (subst (Memᴰ n) (sym same) k),
        (mem-filter (λ (name : String). not (contains parsed' name)) n names).1 (
          m,
          ⊎_elim (λ c. absurd (not_parsed arg' (mem_of_contains parsed' n c))) (λ c. ap not c)
              (Bool-cases (contains parsed' n)),
        ),
      )
    where
      not_parsed : (a : String) → ¬ Memᴰ n (parse_detectors to_lowercase a)
      not_parsed a k = false≢true (sym (parsed_clean a n k).1 ∙ h)
