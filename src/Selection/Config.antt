-- ===== src/Selection/Config.antt =====
-- `get_config` against the files that may hold the project's configuration.
use mathlib.Core.Option
use mathlib.Core.Option.{some-injective}
use scout_audit.Base.{
  ◌≡◌, refl, sym, ap, subst, ◌∙◌, String, true, false, not, Option, none, some, List, [], ◌∷◌, ◌⊎◌,
  inl, inr, Result, ok, err, ok-injective, and_then, filter, filter_map, find, contains, ℕ,
  Bool-cases, >>=-eq-ok, ◌>>=◌, Option-cases,
}
use scout_audit.Metadata.{Metadata, MetaPackage}
use scout_audit.Paths.{PathOps, FileSystem}
use scout_audit.Selection.{
  SelectionError, ScoutConfig, ProfileConfig, validate_config, get_config, config_in,
  load_project_config, find_config_path, read_config, apply_config,
}
use scout_audit.Selection.Laws.{unknown}

validate_config-unknown :
    (profile : ProfileConfig) (excluded : List String)
    → validate_config profile excluded ≡ ok tt
    → unknown profile.detector_names excluded ≡ none
unfolding validate_config
validate_config-unknown profile [] h = refl
validate_config-unknown profile (x ∷ excluded) h =
    elim (Bool-cases (contains profile.detector_names x)) [
      | inl e ↦ rw e (validate_config-unknown profile excluded (rw e at h))
      | inr e ↦ cc (rw e at h)
    ]

-- the end of `load_project_config`, after the validation
abbrev validated :
    Result SelectionError (Unit {0}) → ScoutConfig → Result SelectionError (Option ScoutConfig)
validated r c = r >>= λ _. ok (some c)

validated-eq-ok :
    (r : Result SelectionError (Unit {0})) (c : ScoutConfig) {config : Option ScoutConfig}
    → validated r c ≡ ok config
    → (r ≡ ok tt) × (some c ≡ config)
validated-eq-ok (ok u) c h = (refl, ok-injective h)
validated-eq-ok (err e) c h = cc

module _ (paths : PathOps) (fs : FileSystem) (from_utf8 : List ℕ → Option String)
    (from_yaml : String → Option ScoutConfig) where
  -- the place of the file in the root package, and in the workspace
  abbrev pub in_package : Metadata → Option String
  in_package metadata =
      Option.map (config_in paths fs from_utf8 from_yaml)
        (and_then metadata.root_package (λ (p : MetaPackage). paths.parent p.manifest_path))

  abbrev pub in_workspace : Metadata → String
  in_workspace metadata = config_in paths fs from_utf8 from_yaml metadata.workspace_root

  abbrev pub NotInPackage : Metadata → Type 0
  NotInPackage metadata = (path : String) → in_package metadata ≡ some path → fs.exists path ≡ false

  -- there is no configuration file
  abbrev pub NoFile : Metadata → Type 0
  NoFile metadata = NotInPackage metadata × (fs.exists (in_workspace metadata) ≡ false)

  -- the configuration file: that of the root package, and without it that of the workspace
  abbrev pub FileAt : Metadata → String → Type 0
  FileAt metadata path =
      (fs.exists path ≡ true)
      × ((in_package metadata ≡ some path)
          ⊎ ((path ≡ in_workspace metadata) × NotInPackage metadata))

  abbrev found_in : Option String → String → Option String
  found_in o path = find fs.exists (filter_map (λ x. x) (o ∷ some path ∷ []))

  abbrev Found : Option String → String → Type 0
  Found o w =
      ((found_in o w ≡ none)
        × ((path : String) → o ≡ some path → fs.exists path ≡ false)
        × (fs.exists w ≡ false))
      ⊎ ((path : String) × (found_in o w ≡ some path)
          × (fs.exists path ≡ true)
          × ((o ≡ some path) ⊎ ((path ≡ w) × ((p : String) → o ≡ some p → fs.exists p ≡ false))))

  Found-cases : (o : Option String) (w : String) → Found o w
  Found-cases none w = elim (Bool-cases (fs.exists w)) [
    | inl e ↦ inr (w, rw e refl, e, inr (refl, λ p h. cc))
    | inr e ↦ inl (rw e refl, λ p h. cc, e)
  ]
  Found-cases (some p) w = elim (Bool-cases (fs.exists p)) [
    | inl e ↦ inr (p, rw e refl, e, inl refl)
    | inr e ↦ elim (Bool-cases (fs.exists w)) [
      | inl f ↦ inr (
        w,
        rw (e, f) refl,
        f,
        inr (refl, λ q h. subst (λ x. fs.exists x ≡ false) (some-injective _ _ h) e),
      )
      | inr f ↦
          inl (rw (e, f) refl, λ q h. subst (λ x. fs.exists x ≡ false) (some-injective _ _ h) e, f)
    ]
  ]

  -- what the file at a path holds
  pub record Holds (path : String) (config : ScoutConfig) : Type 0 where
    pub bytes : List ℕ
    pub text : String
    pub is_read : fs.read path ≡ some bytes
    pub decodes : from_utf8 bytes ≡ some text
    pub parses : from_yaml text ≡ some config

  read_config-Holds :
      (path : String) (config : ScoutConfig)
      → read_config paths fs from_utf8 from_yaml path ≡ ok config
      → Holds path config
  unfolding read_config
  read_config-Holds path config h = elim (Option-cases (fs.read path)) [
    | inl e ↦ cc (rw (e, read_config) at h)
    | inr (bytes, e) ↦ elim (Option-cases (from_utf8 bytes)) [
      | inl f ↦ cc (rw (e, f, read_config) at h)
      | inr (text, f) ↦ elim (Option-cases (from_yaml text)) [
        | inl g ↦ cc (rw (e, f, g, read_config) at h)
        | inr (c, g) ↦ record {
          bytes = bytes;
          text = text;
          is_read = e;
          decodes = f;
          parses =
              subst (λ (x : ScoutConfig). from_yaml text ≡ some x)
                (ok-injective (rw (e, f, g, read_config) at h)) g;
        }
      ]
    ]
  ]

  -- what a configuration makes of the profile
  pub record IsConfiguredBy (config : ScoutConfig) (profile result : ProfileConfig) : Type 0 where
    pub all_known : unknown profile.detector_names config.exclude ≡ none
    pub detectors :
        result.detector_names ≡ filter (λ n. not (contains config.exclude n)) profile.detector_names
    pub formats : result.output_format ≡ config.output_format
    pub same_blockchain : result.blockchain ≡ profile.blockchain

  -- the outcome of `get_config`
  abbrev pub Outcome : ProfileConfig → Metadata → ProfileConfig → Type 0
  Outcome profile metadata result =
      (NoFile metadata × (result ≡ profile))
      ⊎ ((path : String) × (config : ScoutConfig) × FileAt metadata path
          × Holds path config
          × IsConfiguredBy config profile result)

  loaded :
      (profile result : ProfileConfig) (metadata : Metadata) (path : String)
      → find_config_path paths fs from_utf8 from_yaml metadata ≡ some path
      → get_config paths fs from_utf8 from_yaml profile metadata ≡ ok result
      → (config : ScoutConfig) × Holds path config × IsConfiguredBy config profile result
  unfolding get_config load_project_config
  loaded profile result metadata path e h =
      let (config, h1, same) =
        >>=-eq-ok (load_project_config paths fs from_utf8 from_yaml profile metadata)
          (λ (c : Option ScoutConfig). ok (apply_config paths fs from_utf8 from_yaml profile c))
          h in
      let (c, is_read, rest) =
        >>=-eq-ok (read_config paths fs from_utf8 from_yaml path)
          (λ (c : ScoutConfig). validated (validate_config profile c.exclude) c)
          (rw (e, load_project_config) at h1) in
      let (checked, now) = validated-eq-ok (validate_config profile c.exclude) c rest in
      let applied =
        ap (λ o. apply_config paths fs from_utf8 from_yaml profile o) now ∙ ok-injective same in
      (
        c,
        read_config-Holds path c is_read,
        record {
          all_known = validate_config-unknown profile c.exclude checked;
          detectors = ap (λ (r : ProfileConfig). r.detector_names) (sym applied);
          formats = ap (λ (r : ProfileConfig). r.output_format) (sym applied);
          same_blockchain = ap (λ (r : ProfileConfig). r.blockchain) (sym applied);
        },
      )

  unchanged :
      (profile result : ProfileConfig) (metadata : Metadata)
      → find_config_path paths fs from_utf8 from_yaml metadata ≡ none
      → get_config paths fs from_utf8 from_yaml profile metadata ≡ ok result
      → result ≡ profile
  unfolding get_config load_project_config
  unchanged profile result metadata e h =
      sym (ok-injective (rw (e, get_config, load_project_config) at h))

  -- Where `get_config` returns, either neither the root package nor the workspace has a
  -- configuration file, and the profile is unchanged; or one has, that of the root package before
  -- that of the workspace, and with the configuration that the file holds, all that it excludes are
  -- available detectors, the detectors that are left are the others in their order, and the output
  -- formats are those of the file, whatever was asked for on the command line.
  pub get_config-cases :
      (profile result : ProfileConfig) (metadata : Metadata)
      → get_config paths fs from_utf8 from_yaml profile metadata ≡ ok result
      → Outcome profile metadata result
  unfolding find_config_path
  get_config-cases profile result metadata h =
      elim (Found-cases (in_package metadata) (in_workspace metadata)) [
        | inl (e, no_package, no_workspace) ↦
            inl ((no_package, no_workspace), unchanged profile result metadata e h)
        | inr (path, e, here, which) ↦
            let (config, holds, configured) = loaded profile result metadata path e h in
            inr (path, config, (here, which), holds, configured)
      ]
