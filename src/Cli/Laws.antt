-- ===== src/Cli/Laws.antt =====
-- The arguments for `cargo check`, and the kind of project.
use mathlib.Core.List.Memᴰ
use scout_audit.Base.{
  ◌≡◌, refl, sym, ◌∙◌, ap, subst, String, Bool, true, false, not, ◌||◌, ◌==◌, Option, none, some,
  List, [], ◌∷◌, ◌++◌, Memᴰ, ◌↔◌, inl, inr, ◌⊎◌, Result, ok, err, unwrap_or, Bool-cases,
  Option-cases, any, filter_map-none, filter_map-some, contains, contains_of_mem, mem_of_contains,
  find, filter, starts_with, filter_map, arith, if◌then◌else◌,
}
use mathlib.Core.List.{flat_map, append-nil, append_assoc}
use scout_audit.Metadata.{Metadata, MetaPackage}
use scout_audit.Selection.{BlockChain, soroban}
use scout_audit.Cli.{
  Scout, has_target_arg, prepare_args, get_immediate_dependencies, get_blockchain_dependency,
  BlockchainError, unsupported_dependency,
}

any-append {ℓ} :
    {A : Type ℓ} (p : A → Bool) (xs ys : List A) → any p (xs ++ ys) ≡ any p xs || any p ys
any-append p [] ys = refl
any-append p (x ∷ xs) ys = ground (arith, any-append p xs ys)

contains-append :
    (xs ys : List String) (k : String) → contains (xs ++ ys) k ≡ contains xs k || contains ys k
contains-append [] ys k = refl
contains-append (x ∷ xs) ys k = ground (arith, contains-append xs ys k)

filter-append {ℓ} :
    {A : Type ℓ} (p : A → Bool) (xs ys : List A) → filter p (xs ++ ys) ≡ filter p xs ++ filter p ys
filter-append p [] ys = refl
filter-append p (x ∷ xs) ys = elim (Bool-cases (p x)) [
  | inl e ↦ rw e (ap (List.◌∷◌ x) (filter-append p xs ys))
  | inr e ↦ rw e (filter-append p xs ys)
]

filter-any {ℓ} : {A : Type ℓ} (p : A → Bool) (xs : List A) → any p xs ≡ false → filter p xs ≡ []
filter-any p [] h = refl
filter-any p (x ∷ xs) h = ground (arith, filter-any p xs)

-- the arguments that name a target
abbrev pub is_target : String → Bool
is_target arg = arg == "--target" || starts_with "--target=" arg

abbrev pub targets : List String → List String
targets args = filter is_target args

-- the two additions of `prepare_args`
abbrev soroban_args : List String → List String
soroban_args args =
    if has_target_arg args then [] else "--target=wasm32v1-none" ∷ "--no-default-features" ∷ []

abbrev release_args : Bool → List String
release_args debug = if debug then [] else "--release" ∷ []

prepare_args-append :
    (opts : Scout)
    → (prepare_args opts soroban).args
      ≡ opts.args ++ (soroban_args opts.args ++ release_args opts.debug)
unfolding prepare_args has_target_arg
prepare_args-append opts = ground (
  arith,
  append-nil opts.args,
  append_assoc opts.args ("--target=wasm32v1-none" ∷ "--no-default-features" ∷ [])
      ("--release" ∷ []),
)

or_false : (b : Bool) → (b || false) ≡ b
or_false true = refl
or_false false = refl

or_true : (b : Bool) → (b || true) ≡ true
or_true true = refl
or_true false = refl

targets-added :
    (args : List String) (debug : Bool)
    → targets (args ++ (soroban_args args ++ release_args debug))
      ≡ (if any is_target args then targets args else "--target=wasm32v1-none" ∷ [])
unfolding has_target_arg
targets-added args true = filter-append is_target args _ ∙ elim (Bool-cases (any is_target args)) [
  | inl e ↦ rw e (append-nil (targets args))
  | inr e ↦ rw (e, filter-any is_target args e) refl
]
targets-added args false = filter-append is_target args _ ∙ elim (Bool-cases (any is_target args)) [
  | inl e ↦ rw e (append-nil (targets args))
  | inr e ↦ rw (e, filter-any is_target args e) refl
]

contains-added :
    (args : List String) (debug : Bool)
    → (contains (args ++ (soroban_args args ++ release_args debug)) "--no-default-features"
        ≡ (not (any is_target args) || contains args "--no-default-features"))
      × (contains (args ++ (soroban_args args ++ release_args debug)) "--release"
          ≡ (not debug || contains args "--release"))
unfolding has_target_arg
contains-added args true = elim (Bool-cases (any is_target args)) [
  | inl e ↦ rw e (contains-append args _ _ ∙ or_false _, contains-append args _ _ ∙ or_false _)
  | inr e ↦ rw e (contains-append args _ _ ∙ or_true _, contains-append args _ _ ∙ or_false _)
]
contains-added args false = elim (Bool-cases (any is_target args)) [
  | inl e ↦ rw e (contains-append args _ _ ∙ or_false _, contains-append args _ _ ∙ or_true _)
  | inr e ↦ rw e (contains-append args _ _ ∙ or_true _, contains-append args _ _ ∙ or_true _)
]

-- The prepared arguments are those given with more behind them; the targets that they name are those
-- that were given, or where none was, `wasm32v1-none` alone; default features are turned off where
-- no target was given; they ask for a release build unless a debug build was asked for; and the
-- other options stay as they are.
pub prepare_args-extends :
    (opts : Scout)
    → ((extra : List String) × ((prepare_args opts soroban).args ≡ opts.args ++ extra))
      × (targets (prepare_args opts soroban).args
          ≡ (if any is_target opts.args then targets opts.args else "--target=wasm32v1-none" ∷ []))
      × (contains (prepare_args opts soroban).args "--no-default-features"
          ≡ (not (any is_target opts.args) || contains opts.args "--no-default-features"))
      × (contains (prepare_args opts soroban).args "--release"
          ≡ (not opts.debug || contains opts.args "--release"))
      × (record (prepare_args opts soroban) { args = opts.args } ≡ opts)
unfolding prepare_args
prepare_args-extends opts =
    let args = prepare_args-append opts in
    let (features, release) = contains-added opts.args opts.debug in
    (
      (soroban_args opts.args ++ release_args opts.debug, args),
      ap targets args ∙ targets-added opts.args opts.debug,
      ap (λ (l : List String). contains l "--no-default-features") args ∙ features,
      ap (λ (l : List String). contains l "--release") args ∙ release,
      refl,
    )

module _ (metadata : Metadata) where
  -- a workspace member that is found, and declares the dependency
  pub record Declares (dep : String) : Type 0 where
    pub member : String
    pub package_of : MetaPackage
    pub is_member : Memᴰ member metadata.workspace_members
    pub is_found : find (λ (p : MetaPackage). p.id == member) metadata.packages ≡ some package_of
    pub declared : Memᴰ dep package_of.dependencies

  abbrev found : String → Option MetaPackage
  found x = find (λ (p : MetaPackage). p.id == x) metadata.packages

  abbrev declared_by : List String → List String
  declared_by members = flat_map (λ (p : MetaPackage). p.dependencies) (filter_map found members)

  mem-declared_by :
      (dep : String) (members : List String)
      → Memᴰ dep (declared_by members) ↔ (
          (x : String) × (p : MetaPackage) × Memᴰ x members
          × (found x ≡ some p)
          × Memᴰ dep p.dependencies)
  unfolding flat_map
  mem-declared_by dep [] =
      (λ m. absurd (Memᴰ.not-nil m), λ (x, p, m, h, d). absurd (Memᴰ.not-nil m))
  mem-declared_by dep (x ∷ members) = elim (Option-cases (found x)) [
    | inl e ↦ rw (filter_map-none found x members e) (
      λ m. let (y, p, n, h, d) = (mem-declared_by dep members).0 m in (y, p, Memᴰ.tail n, h, d),
      λ (y, p, n, h, d).
          (mem-declared_by dep members).1 (y, p, later y p e (Memᴰ.cases_cons n) h, h, d),
    )
    | inr (q, e) ↦ rw (filter_map-some found x members e) (
      λ m. elim (Memᴰ.append_cases q.dependencies m) [
        | inl d ↦ (x, q, Memᴰ.head refl, e, d)
        | inr r ↦
            let (y, p, n, h, d) = (mem-declared_by dep members).0 r in (y, p, Memᴰ.tail n, h, d)
      ],
      λ (y, p, n, h, d). elim (Memᴰ.cases_cons n) [
        | inl y≡x ↦ Memᴰ.append_left (declared_by members) (
            subst (λ (r : MetaPackage). Memᴰ dep r.dependencies)
              (ap (λ (o : Option MetaPackage). unwrap_or o q) (sym h ∙ ap found y≡x ∙ e)) d)
        | inr k ↦ Memᴰ.append_right q.dependencies ((mem-declared_by dep members).1 (y, p, k, h, d))
      ],
    )
  ]
    where
      later :
          (y : String) (p : MetaPackage)
          → found x ≡ none
          → (y ≡ x) ⊎ Memᴰ y members
          → found y ≡ some p
          → Memᴰ y members
      later y p e (inl y≡x) h = cc (sym e ∙ sym (ap found y≡x) ∙ h)
      later y p e (inr k) h = k

  -- A project is taken for a Soroban project exactly when some member of its workspace declares the
  -- dependency `soroban-sdk`.
  pub get_blockchain_dependency-Declares :
      (get_blockchain_dependency metadata ≡ ok soroban) ↔ Declares "soroban-sdk"
  unfolding get_blockchain_dependency
  get_blockchain_dependency-Declares =
      let spec = mem-declared_by "soroban-sdk" metadata.workspace_members in
      (
        λ h.
            let (x, p, m, f, d) = spec.0 (
              mem_of_contains (get_immediate_dependencies metadata) "soroban-sdk"
                (if_ok (contains (get_immediate_dependencies metadata) "soroban-sdk") h)) in
            record { member = x; package_of = p; is_member = m; is_found = f; declared = d },
        λ h.
            rw
              (contains_of_mem (get_immediate_dependencies metadata) "soroban-sdk"
                (spec.1 (h.member, h.package_of, h.is_member, h.is_found, h.declared)))
              refl,
      )
    where
      if_ok :
          (b : Bool)
          → ◌≡◌ {A = Result BlockchainError BlockChain}
              (if b then ok soroban else err unsupported_dependency)
              (ok soroban)
          → b ≡ true
      if_ok true h = refl
      if_ok false h = cc
