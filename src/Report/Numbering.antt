-- ===== src/Report/Numbering.antt =====
-- `process_findings`: which messages enter the report, and how they are numbered.
use mathlib.Core.List.{append_assoc, append-nil}
use scout_audit.Base.{
  subst, ℕ, suc, ◌+◌, ◌≡◌, refl, sym, ◌∙◌, ap, ap₂, String, Bool, Option, none, some, List, [], ◌∷◌,
  ◌++◌, map, length, filter, unwrap_or, ok, >>=-eq-ok, ok-injective, is_empty, arith, ◌==◌, eq_iff,
  Bool-cases, Option-cases, inl, inr, if◌then◌else◌,
}
use scout_audit.Base.Map
use scout_audit.Base.Map.{Map, get-insert, is_some}
use scout_audit.Json.{Serde}
use scout_audit.Paths.{PathOps, FileSystem}
use scout_audit.Finding.{Finding, code}
use scout_audit.Lints.{LintInfo, LintStore, find_by_id}
use scout_audit.Report.Reading.{get_code, parse_file_details, extract_code_snippet}
use scout_audit.Report.{ReportFinding, as_u32, report_finding, process_loop, process_findings}

-- the number of times that a lint stands in a list
abbrev pub count : String → List String → ℕ
count c codes = length (filter (λ k. k == c) codes)

-- Each lint's occurrences are numbered from 1 on, in `u32`, given those seen before.
abbrev pub indices : List String → List String → List ℕ
indices seen [] = []
indices seen (c ∷ codes) = as_u32 (count c seen + 1) ∷ indices (seen ++ c ∷ []) codes

abbrev pub is_known : LintStore → String → Bool
is_known store c = is_some (find_by_id store c)

-- the messages whose lint the store has, by their codes and by their positions
abbrev pub known_codes : LintStore → List Finding → List String
known_codes store fs = filter (is_known store) (map code fs)

abbrev pub known_ids : LintStore → ℕ → List Finding → List ℕ
known_ids store id [] = []
known_ids store id (f ∷ fs) =
    if is_known store (code f)
    then as_u32 id ∷ known_ids store (suc id) fs
    else known_ids store (suc id) fs

count-append :
    (c k : String) (codes : List String)
    → count c (codes ++ k ∷ []) ≡ count c codes + (if k == c then 1 else 0)
count-append c k [] = ground arith
count-append c k (x ∷ codes) = ground (arith, count-append c k codes)

as_u32-suc : (n : ℕ) → as_u32 (as_u32 n + 1) ≡ as_u32 (n + 1)
unfolding as_u32
as_u32-suc n = omega arith

get_code-eq : (f : Finding) {c : String} → get_code f ≡ ok c → code f ≡ c
unfolding get_code
get_code-eq f h = elim (Bool-cases (is_empty (code f))) [
  | inl e ↦ cc (rw e at h)
  | inr e ↦ ok-injective (rw e at h)
]

-- `det_map` holds how often each lint was seen.
abbrev Counted : Map ℕ → List String → Type 0
Counted det_map seen = (c : String) → unwrap_or (Map.get det_map c) 0 ≡ as_u32 (count c seen)

Counted-insert :
    (det_map : Map ℕ) (seen : List String) (k : String)
    → Counted det_map seen
    → Counted (Map.insert det_map k (as_u32 (unwrap_or (Map.get det_map k) 0 + 1))) (seen ++ k ∷ [])
Counted-insert det_map seen k h c =
    let index : ℕ = as_u32 (unwrap_or (Map.get det_map k) 0 + 1) in
    ap (λ (o : Option ℕ). unwrap_or o 0) (get-insert det_map k index c)
    ∙ elim (Bool-cases (k == c)) [
      | inl e ↦
          rw (count-append c k seen, e)
            (ap (λ (n : ℕ). as_u32 (n + 1)) (h k)
              ∙ as_u32-suc (count k seen)
              ∙ ap (λ (t : String). as_u32 (count t seen + 1)) ((eq_iff k c).0 e))
      | inr e ↦ rw (count-append c k seen, e) (h c ∙ ap as_u32 (omega arith))
    ]

module _ (store : LintStore) (f : Finding) (fs : List Finding) where
  unknown_codes :
      find_by_id store (code f) ≡ none → known_codes store (f ∷ fs) ≡ known_codes store fs
  unknown_codes e = rw e refl

  unknown_ids :
      (id : ℕ)
      → find_by_id store (code f) ≡ none
      → known_ids store id (f ∷ fs) ≡ known_ids store (suc id) fs
  unknown_ids id e = rw e refl

  some_codes :
      {lint : LintInfo}
      → find_by_id store (code f) ≡ some lint
      → known_codes store (f ∷ fs) ≡ code f ∷ known_codes store fs
  some_codes e = rw e refl

  some_ids :
      {lint : LintInfo} (id : ℕ)
      → find_by_id store (code f) ≡ some lint
      → known_ids store id (f ∷ fs) ≡ as_u32 id ∷ known_ids store (suc id) fs
  some_ids id e = rw e refl

-- the entries that a run of the loop adds
record Entered (store : LintStore) (id : ℕ) (fs : List Finding) (seen : List String)
    (acc out : List ReportFinding) : Type 0 where
  new : List ReportFinding
  longer : out ≡ acc ++ new
  codes : map (λ (r : ReportFinding). r.vulnerability_id) new ≡ known_codes store fs
  occurrences :
      map (λ (r : ReportFinding). r.occurrence_index) new ≡ indices seen (known_codes store fs)
  ids : map (λ (r : ReportFinding). r.id) new ≡ known_ids store id fs

-- one message more in front, whose lint the store does not have, or has
Entered-unknown :
    (store : LintStore) (id : ℕ) (f : Finding) (fs : List Finding) (seen : List String)
    (acc out : List ReportFinding)
    → find_by_id store (code f) ≡ none
    → Entered store (suc id) fs seen acc out
    → Entered store id (f ∷ fs) seen acc out
Entered-unknown store id f fs seen acc out missing r = record {
  new = r.new;
  longer = r.longer;
  codes = r.codes ∙ sym (unknown_codes store f fs missing);
  occurrences = r.occurrences ∙ ap (indices seen) (sym (unknown_codes store f fs missing));
  ids = r.ids ∙ sym (unknown_ids store f fs id missing);
}

Entered-known :
    (store : LintStore) (id : ℕ) (f : Finding) (fs : List Finding) (seen : List String)
    (acc out : List ReportFinding) (entry : ReportFinding) {lint : LintInfo}
    → find_by_id store (code f) ≡ some lint
    → entry.vulnerability_id ≡ code f
    → entry.occurrence_index ≡ as_u32 (count (code f) seen + 1)
    → entry.id ≡ as_u32 id
    → Entered store (suc id) fs (seen ++ code f ∷ []) (acc ++ entry ∷ []) out
    → Entered store id (f ∷ fs) seen acc out
Entered-known store id f fs seen acc out entry there vulnerability occurrence number r = record {
  new = entry ∷ r.new;
  longer = r.longer ∙ append_assoc acc (entry ∷ []) r.new;
  codes =
      ap₂ (λ (x : String) (xs : List String). x ∷ xs) vulnerability r.codes
      ∙ sym (some_codes store f fs there);
  occurrences =
      ap₂ (λ (x : ℕ) (xs : List ℕ). x ∷ xs) occurrence r.occurrences
      ∙ ap (indices seen) (sym (some_codes store f fs there));
  ids = ap₂ (λ (x : ℕ) (xs : List ℕ). x ∷ xs) number r.ids ∙ sym (some_ids store f fs id there);
}

module _ ⦃j : Serde⦄ (paths : PathOps) (fs : FileSystem) (from_utf8 : List ℕ → Option String)
    (root : String) (store : LintStore) where
  report_finding-numbers :
      (id index : ℕ) (c : String) (lint : LintInfo) (f : Finding) {entry : ReportFinding}
      → report_finding paths fs from_utf8 root store id index c lint f ≡ ok entry
      → (entry.vulnerability_id ≡ c) × (entry.occurrence_index ≡ index) × (entry.id ≡ as_u32 id)
  unfolding report_finding
  report_finding-numbers id index c lint f h =
      let (details, _, rest) = >>=-eq-ok (parse_file_details paths f root) _ h in
      let (snippet, _, e) =
        >>=-eq-ok (extract_code_snippet fs from_utf8 details.absolute_path f) _ rest in
      let same = ok-injective e in
      (
        sym (ap (λ (r : ReportFinding). r.vulnerability_id) same),
        sym (ap (λ (r : ReportFinding). r.occurrence_index) same),
        sym (ap (λ (r : ReportFinding). r.id) same),
      )

  process_loop-Entered :
      (id : ℕ) (findings : List Finding) (det_map : Map ℕ) (seen : List String)
      (acc : List ReportFinding) {out : List ReportFinding}
      → Counted det_map seen
      → process_loop paths fs from_utf8 root store id findings det_map acc ≡ ok out
      → Entered store id findings seen acc out
  unfolding process_loop
  process_loop-Entered id [] det_map seen acc counted h = record {
    new = [];
    longer = sym (ok-injective h) ∙ sym (append-nil acc);
    codes = refl;
    occurrences = refl;
    ids = refl;
  }
  process_loop-Entered id (f ∷ findings) det_map seen acc {out} counted h =
      let (c, coded, rest) = >>=-eq-ok (get_code f) _ h in
      let same = get_code-eq f coded in
      elim (Option-cases (find_by_id store c)) [
        | inl e ↦
            Entered-unknown store id f findings seen acc out (ap (find_by_id store) same ∙ e)
              (process_loop-Entered (suc id) findings det_map seen acc counted (rw e at rest))
        | inr (lint, e) ↦
            let index : ℕ = as_u32 (unwrap_or (Map.get det_map c) 0 + 1) in
            let (entry, entered, more) =
              >>=-eq-ok (report_finding paths fs from_utf8 root store id index c lint f) _
                (rw e at rest) in
            let (vulnerability, occurrence, number) =
              report_finding-numbers id index c lint f entered in
            let r =
              process_loop-Entered (suc id) findings (Map.insert det_map c index) (seen ++ c ∷ [])
                (acc ++ entry ∷ []) (Counted-insert det_map seen c counted) more in
            Entered-known store id f findings seen acc out entry (ap (find_by_id store) same ∙ e)
              (vulnerability ∙ sym same)
              (occurrence
                ∙ step c counted
                ∙ ap (λ (k : String). as_u32 (count k seen + 1)) (sym same))
              number
              (subst
                (λ (k : String).
                  Entered store (suc id) findings (seen ++ k ∷ []) (acc ++ entry ∷ []) out)
                (sym same) r)
      ]
    where
      step :
          (c : String)
          → Counted det_map seen
          → as_u32 (unwrap_or (Map.get det_map c) 0 + 1) ≡ as_u32 (count c seen + 1)
      step c k = ap (λ (n : ℕ). as_u32 (n + 1)) (k c) ∙ as_u32-suc (count c seen)

  -- Where `process_findings` returns entries, they are those of the messages whose lint is in the
  -- store, in their order; each has the position of its message among all, and the number of its
  -- occurrence among the entries of the same lint from 1 on, both in `u32`.
  pub process_findings-numbers :
      (findings : List Finding) {out : List ReportFinding}
      → process_findings paths fs from_utf8 root store findings ≡ ok out
      → (map (λ (r : ReportFinding). r.vulnerability_id) out ≡ known_codes store findings)
        × (map (λ (r : ReportFinding). r.occurrence_index) out
            ≡ indices [] (known_codes store findings))
        × (map (λ (r : ReportFinding). r.id) out ≡ known_ids store 0 findings)
  unfolding process_findings as_u32
  process_findings-numbers findings h =
      let r = process_loop-Entered 0 findings [] [] [] (λ c. refl) h in
      (
        ap (map (λ (r : ReportFinding). r.vulnerability_id)) r.longer ∙ r.codes,
        ap (map (λ (r : ReportFinding). r.occurrence_index)) r.longer ∙ r.occurrences,
        ap (map (λ (r : ReportFinding). r.id)) r.longer ∙ r.ids,
      )
