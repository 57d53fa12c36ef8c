-- ===== src/Run/FailFile.antt =====
-- The FAIL file of a run in CI.
use scout_audit.Base.{
  ℕ, ◌≡◌, refl, ◌∙◌, ap₂, ◌⊎◌, inl, inr, String, true, false, Option, some, List, [], ◌∷◌, ◌++◌,
  Result, ok, err, Result-cases, Bool-cases, arith, if◌then◌else◌,
}
use scout_audit.Json.{Serde}
use scout_audit.Metadata.{Metadata}
use scout_audit.Paths.{PathOps, FileSystem}
use scout_audit.Selection.{BlockChain, soroban, ScoutConfig, ProfileConfig}
use scout_audit.Cli.{Scout, validate, get_fail_path, prepare_args}
use scout_audit.Run.{
  ScoutResult, RunError, RunInfo, Prepared, info, scout_result, Stages, FileOp, created, removed,
  is_nil, load_detectors, prepare_project, prepare_scout_input, analyse, fail_file, run_scout,
}

-- the options that go along are for the same directory of the FAIL file
abbrev KeepsCicd : Option String → Result RunError Prepared → Type 0
KeepsCicd c r = (i : RunInfo) (o : Scout) → r ≡ ok (info i o) → o.cicd ≡ c

prepare_args-cicd : (opts : Scout) (b : BlockChain) → (prepare_args opts b).cicd ≡ opts.cicd
unfolding prepare_args
prepare_args-cicd opts soroban = refl

ap2_append : {xs xs' ys ys' : List FileOp} → xs ≡ xs' → ys ≡ ys' → xs ++ ys ≡ xs' ++ ys'
ap2_append p q = ap₂ (λ x y. x ++ y) p q

module _ ⦃j : Serde⦄ (paths : PathOps) (fs : FileSystem) (from_utf8 : List ℕ → Option String)
    (from_yaml : String → Option ScoutConfig) (stages : Stages) where
  load_detectors-KeepsCicd :
      (opts : Scout) (metadata : Metadata) (toolchain : String) (config : stages.Config)
      (profile : ProfileConfig)
      → KeepsCicd opts.cicd (
          load_detectors paths fs from_utf8 from_yaml stages opts metadata toolchain config profile)
  unfolding load_detectors
  load_detectors-KeepsCicd opts metadata toolchain config profile i o h = ground arith

  prepare_project-KeepsCicd :
      (opts : Scout)
      → KeepsCicd opts.cicd (prepare_project paths fs from_utf8 from_yaml stages opts)
  unfolding prepare_project load_detectors prepare_args
  prepare_project-KeepsCicd opts i o h = ground arith

  prepare_scout_input-KeepsCicd :
      (opts : Scout)
      → KeepsCicd opts.cicd (prepare_scout_input paths fs from_utf8 from_yaml stages opts)
  unfolding prepare_scout_input
  prepare_scout_input-KeepsCicd opts i o h = ground (arith, prepare_project-KeepsCicd opts i o)

  -- the run analyses the project, and ends with no finding
  unfoldable pub IsClean : Scout → Type 0
  IsClean opts =
      (i : RunInfo) × (o : Scout) × (r : ScoutResult) × (prepare_scout_input paths fs from_utf8
          from_yaml stages opts
        ≡ ok (info i o))
      × (analyse paths fs from_utf8 from_yaml stages o i ≡ ok r)
      × (is_nil r.findings ≡ true)

  same_fail_file :
      (op : String → FileOp) (opts o : Scout)
      → o.cicd ≡ opts.cicd
      → fail_file paths fs from_utf8 from_yaml stages op o
        ≡ fail_file paths fs from_utf8 from_yaml stages op opts
  unfolding get_fail_path
  same_fail_file op opts o e = rw (e, fail_file, get_fail_path) refl

  one_op :
      (op : String → FileOp) (opts : Scout) (path : String)
      → get_fail_path paths fs opts ≡ some path
      → fail_file paths fs from_utf8 from_yaml stages op opts ≡ op path ∷ []
  one_op op opts path e = rw (e, fail_file) refl

  -- what the run asked for about the file
  abbrev ops : Scout → List FileOp
  ops opts = (run_scout paths fs from_utf8 from_yaml stages opts).1

  abbrev prepared : Scout → Result RunError Prepared
  prepared = prepare_scout_input paths fs from_utf8 from_yaml stages

  abbrev analysed : Scout → RunInfo → Result RunError ScoutResult
  analysed = analyse paths fs from_utf8 from_yaml stages

  abbrev file_op : (String → FileOp) → Scout → List FileOp
  file_op = fail_file paths fs from_utf8 from_yaml stages

  ops-not_prepared :
      (opts : Scout) (x : RunError)
      → validate paths fs opts ≡ ok tt
      → prepared opts ≡ err x
      → (ops opts ≡ file_op created opts) × ¬ IsClean opts
  unfolding run_scout IsClean
  ops-not_prepared opts x v f = (rw (v, f, ops, run_scout) refl, λ (_, _, _, g, _, _). cc)

  ops-early :
      (opts : Scout) (r : ScoutResult)
      → validate paths fs opts ≡ ok tt
      → prepared opts ≡ ok (scout_result r)
      → (ops opts ≡ file_op created opts) × ¬ IsClean opts
  unfolding run_scout IsClean
  ops-early opts r v f = (rw (v, f, ops, run_scout) refl, λ (_, _, _, g, _, _). cc)

  ops-not_analysed :
      (opts o : Scout) (i : RunInfo) (x : RunError)
      → validate paths fs opts ≡ ok tt
      → prepared opts ≡ ok (info i o)
      → analysed o i ≡ err x
      → (ops opts ≡ file_op created opts) × ¬ IsClean opts
  unfolding run_scout IsClean
  ops-not_analysed opts o i x v f a =
      (rw (v, f, a, ops, run_scout) refl, λ (i', o', r, g, b, _). cc)

  ops-analysed :
      (opts o : Scout) (i : RunInfo) (r : ScoutResult)
      → validate paths fs opts ≡ ok tt
      → prepared opts ≡ ok (info i o)
      → analysed o i ≡ ok r
      → ops opts ≡ file_op created opts ++ (if is_nil r.findings then file_op removed o else [])
  unfolding run_scout
  ops-analysed opts o i r v f a = rw (v, f, a, ops, run_scout) refl

  IsClean-nil :
      (opts o : Scout) (i : RunInfo) (r : ScoutResult)
      → prepared opts ≡ ok (info i o)
      → analysed o i ≡ ok r
      → is_nil r.findings ≡ true
      → IsClean opts
  unfolding IsClean
  IsClean-nil opts o i r f a n = (i, o, r, f, a, n)

  IsClean-some :
      (opts o : Scout) (i : RunInfo) (r : ScoutResult)
      → prepared opts ≡ ok (info i o)
      → analysed o i ≡ ok r
      → is_nil r.findings ≡ false
      → ¬ IsClean opts
  unfolding IsClean
  IsClean-some opts o i r f a n (i', o', r', f', a', n') = cc

  -- With `--cicd` and options that `validate` accepts, the FAIL file is made, and it is removed just
  -- if the project is analysed and no finding is left; an error on the way, or an option that asks
  -- for something else than an analysis, leaves it.
  pub run_scout-fail_file :
      (opts : Scout) (path : String)
      → get_fail_path paths fs opts ≡ some path
      → validate paths fs opts ≡ ok tt
      → ((ops opts ≡ created path ∷ removed path ∷ []) × IsClean opts)
        ⊎ ((ops opts ≡ created path ∷ []) × ¬ IsClean opts)
  run_scout-fail_file opts path e v = elim (Result-cases (prepared opts)) [
    | inr (x, f) ↦ left (ops-not_prepared opts x v f)
    | inl (scout_result r, f) ↦ left (ops-early opts r v f)
    | inl (info i o, f) ↦ elim (Result-cases (analysed o i)) [
      | inr (x, a) ↦ left (ops-not_analysed opts o i x v f a)
      | inl (r, a) ↦ done i o r f a (Bool-cases (is_nil r.findings))
    ]
  ]
    where
      left :
          (ops opts ≡ file_op created opts) × ¬ IsClean opts
          → ((ops opts ≡ created path ∷ removed path ∷ []) × IsClean opts)
            ⊎ ((ops opts ≡ created path ∷ []) × ¬ IsClean opts)
      left (q, n) = inr (q ∙ one_op created opts path e, n)

      done :
          (i : RunInfo) (o : Scout) (r : ScoutResult)
          → prepared opts ≡ ok (info i o)
          → analysed o i ≡ ok r
          → (is_nil r.findings ≡ true) ⊎ (is_nil r.findings ≡ false)
          → ((ops opts ≡ created path ∷ removed path ∷ []) × IsClean opts)
            ⊎ ((ops opts ≡ created path ∷ []) × ¬ IsClean opts)
      done i o r f a (inl n) = inl (
        ops-analysed opts o i r v f a
            ∙ rw n (
                ap2_append (one_op created opts path e) (
                  same_fail_file removed opts o (prepare_scout_input-KeepsCicd opts i o f)
                  ∙ one_op removed opts path e)),
        IsClean-nil opts o i r f a n,
      )
      done i o r f a (inr n) = inr (
        ops-analysed opts o i r v f a ∙ rw n (ap2_append (one_op created opts path e) refl),
        IsClean-some opts o i r f a n,
      )
