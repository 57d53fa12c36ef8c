-- ===== src/Lints/Laws.antt =====
-- The store of lints and its keys, and what a detector hands out and is given back.
use scout_audit.Base.{
  ◌≡◌, refl, sym, ◌∙◌, ap, subst, String, Bool, true, false, Option, none, some, List, [], ◌∷◌,
  ◌++◌, Result, ok, err, ◌==◌, eq_iff, Bool-cases, Option-cases, inl, inr, ◌⊎◌, ok-injective,
  Result-cases, ⊎_elim, arith,
}
use mathlib.Core.List.{append_assoc, append-nil}
use mathlib.Core.Option.{some-injective}
use scout_audit.Base.Map.{get-insert}
use scout_audit.Lints.{
  LintInfo, LintStore, LintError, RawLintInfo, Dylib, Event, received, freed, CString, new,
  find_by_id, insert, call_library, not_loaded, no_free_lint_info, no_lint_info, null_pointer,
  load_detector, load_all, get_detectors_info,
}

-- Every lint stands under its own id.
abbrev pub IsKeyed : LintStore → Type 0
IsKeyed store = (id : String) (l : LintInfo) → find_by_id store id ≡ some l → l.id ≡ id

pub insert-IsKeyed : (store : LintStore) (l : LintInfo) → IsKeyed store → IsKeyed (insert store l)
unfolding find_by_id insert
insert-IsKeyed store l h id l' e = elim (Bool-cases (l.id == id)) [
  | inl same ↦
      let got = sym (get-insert store.lints l.id l id) ∙ e in
      ap (λ (t : LintInfo). t.id) (sym (some-injective l l' (rw same at got)))
      ∙ (eq_iff l.id id).0 same
  | inr other ↦ let got = sym (get-insert store.lints l.id l id) ∙ e in h id l' (rw other at got)
]

-- Whatever is received is freed before anything else is received.
pub data Balanced : List Event → Type 0 where
  none_held : Balanced []
  held :
      {log : List Event} (path : String)
      → Balanced log
      → Balanced (received path ∷ freed path ∷ log)

Balanced-append : {a b : List Event} → Balanced a → Balanced b → Balanced (a ++ b)
Balanced-append none_held h = h
Balanced-append (held path g) h = held path (Balanced-append g h)

-- the events of detectors that were all loaded
abbrev pub trace : List String → List Event
trace [] = []
trace (path ∷ paths) = received path ∷ freed path ∷ trace paths

-- one detector is received and freed, or hands out nothing and fails
abbrev OneStep : String → List Event → Result LintError LintInfo × List Event → Type 0
OneStep path log r =
    (r.1 ≡ log ++ received path ∷ freed path ∷ [])
    ⊎ ((r.1 ≡ log) × ((e : LintError) × (r.0 ≡ err e)))

step_Balanced :
    (path : String) (log : List Event) (r : Result LintError LintInfo × List Event)
    → OneStep path log r
    → Balanced log
    → Balanced r.1
step_Balanced path log r step h =
    ⊎_elim (λ e. subst Balanced (sym e) (Balanced-append h (held path none_held)))
      (λ (e, _). subst Balanced (sym e) h) step

module _ (to_str : CString → Option String) (open_library : String → Option Dylib) where
  call_library-OneStep :
      (path : String) (f g : Bool) (raw : Option RawLintInfo) (log : List Event)
      → OneStep path log (call_library to_str open_library path f g raw log)
  unfolding call_library
  call_library-OneStep path false g raw log = inr (refl, (no_free_lint_info path, refl))
  call_library-OneStep path true false raw log = inr (refl, (no_lint_info path, refl))
  call_library-OneStep path true true none log = inr (refl, (null_pointer path, refl))
  call_library-OneStep path true true (some raw) log = inl (ground arith)

  load_detector-OneStep :
      (path : String) (log : List Event)
      → OneStep path log (load_detector to_str open_library path log)
  unfolding load_detector
  load_detector-OneStep path log = elim (Option-cases (open_library path)) [
    | inl e ↦ rw (e, load_detector) (inr (refl, (not_loaded path, refl)))
    | inr (lib, e) ↦
        rw (e, load_detector)
          (call_library-OneStep path lib.has_free_lint_info lib.has_lint_info lib.lint_info log)
  ]

  -- The result of the loop: the events stay balanced, and a store means that every detector was
  -- received and freed once, and that the store is keyed.
  record Loaded (paths : List String) (log : List Event)
      (r : Result LintError LintStore × List Event) : Type 0 where
    balanced : Balanced log → Balanced r.1
    complete : (store : LintStore) → r.0 ≡ ok store → (r.1 ≡ log ++ trace paths) × IsKeyed store

  load_all-Loaded :
      (paths : List String) (store : LintStore) (log : List Event)
      → IsKeyed store
      → Loaded paths log (load_all to_str open_library paths store log)
  unfolding load_all
  load_all-Loaded [] store log keyed = record {
    balanced = λ h. h;
    complete = λ store' e. (sym (append-nil log), subst IsKeyed (ok-injective e) keyed);
  }
  load_all-Loaded (path ∷ paths) store log keyed =
      let step = load_detector-OneStep path log in
      elim (Result-cases (load_detector to_str open_library path log).0) [
        | inr (e, failed) ↦
            rw (failed, load_all)
              (record {
                balanced =
                    λ h. step_Balanced path log (load_detector to_str open_library path log) step h;
                complete = λ store' k. cc;
              })
        | inl (lint, loaded) ↦
            let rest =
              load_all-Loaded paths (insert store lint)
                (load_detector to_str open_library path log).1 (insert-IsKeyed store lint keyed) in
            rw (loaded, load_all)
              (record {
                balanced = λ h.
                    rest.balanced
                      (step_Balanced path log (load_detector to_str open_library path log) step h);
                complete = λ store' k.
                    let (events, keyed') = rest.complete store' k in
                    (
                      events
                          ∙ ⊎_elim
                              (λ here.
                                ap (λ (l : List Event). l ++ trace paths) here
                                ∙ append_assoc log (received path ∷ freed path ∷ []) (trace paths))
                              (λ (_, (e, failed)). cc) step,
                      keyed',
                    );
              })
      ]

  -- `get_detectors_info` frees what a detector hands out before it asks the next one, also where
  -- it fails.
  pub get_detectors_info-Balanced :
      (paths : List String) → Balanced (get_detectors_info to_str open_library paths).1
  unfolding get_detectors_info find_by_id
  get_detectors_info-Balanced paths =
      (load_all-Loaded paths new [] (λ id l e. cc)).balanced none_held

  -- Where `get_detectors_info` returns a store, it has received from and freed for every detector
  -- once, in order, and every lint of the store stands under its own id.
  pub get_detectors_info-trace :
      (paths : List String) (store : LintStore)
      → (get_detectors_info to_str open_library paths).0 ≡ ok store
      → ((get_detectors_info to_str open_library paths).1 ≡ trace paths) × IsKeyed store
  unfolding get_detectors_info find_by_id
  get_detectors_info-trace paths store h =
      (load_all-Loaded paths new [] (λ id l e. cc)).complete store h
