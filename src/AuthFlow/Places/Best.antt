-- ===== src/AuthFlow/Places/Best.antt =====
-- `find_best_location_for_event` against the places of a body that overlap the span.
use mathlib.Core.Bool.{false≢true}
use mathlib.Core.List.Memᴰ
use mathlib.Core.Option.{some-injective, none-ne-some}
use scout_audit.Base.{
  ℕ, suc, ◌≤◌, ◌≡◌, refl, sym, ◌∙◌, ap, subst, ◌⊎◌, inl, inr, ⊎_elim, true, false, Option, none,
  some, List, [], ◌∷◌, ◌++◌, Memᴰ, foldl, length, ltb, Bool-cases, Option-cases, arith,
  if◌then◌else◌,
}
use scout_audit.AuthFlow.Mir.{Span, Location, Statement, BasicBlockData, Body}
use scout_audit.AuthFlow.Places.{
  spans_overlap, span_len, is_marker, better, best_statement, best_block,
  find_best_location_for_event,
}

-- The places of a body: its statements that are no markers, and its terminators.
unfoldable pub statement_places : ℕ → ℕ → List Statement → List (Location × Span)
statement_places bb idx [] = []
statement_places bb idx (stmt ∷ statements) =
    let rest = statement_places bb (suc idx) statements in
    if is_marker stmt.kind
    then rest
    else (record { block = bb; statement_index = idx }, stmt.span) ∷ rest

unfoldable pub places_from : ℕ → List BasicBlockData → List (Location × Span)
unfolding statement_places
places_from bb [] = []
places_from bb (bb_data ∷ blocks) =
    statement_places bb 0 bb_data.statements
    ++ (record { block = bb; statement_index = length bb_data.statements }, bb_data.terminator.span)
      ∷ places_from (suc bb) blocks

unfoldable pub places : Body → List (Location × Span)
unfolding places_from
places body = places_from 0 body

-- the better one of each in turn
abbrev improve : Span → Option (Location × Span) → Location × Span → Option (Location × Span)
improve target best place = better target place.0 place.1 best

foldl-append {ℓ κ} :
    {A : Type ℓ} {C : Type κ} (f : C → A → C) (c : C) (xs ys : List A)
    → foldl f c (xs ++ ys) ≡ foldl f (foldl f c xs) ys
foldl-append f c [] ys = refl
foldl-append f c (x ∷ xs) ys = foldl-append f (f c x) xs ys

best_statement-foldl :
    (target : Span) (bb idx : ℕ) (statements : List Statement) (best : Option (Location × Span))
    → best_statement target bb idx statements best
      ≡ foldl (improve target) best (statement_places bb idx statements)
unfolding best_statement statement_places
best_statement-foldl target bb idx [] best = refl
best_statement-foldl target bb idx (stmt ∷ statements) best =
    elim (Bool-cases (is_marker stmt.kind)) [
      | inl e ↦ rw (e) (best_statement-foldl target bb (suc idx) statements best)
      | inr e ↦ rw (e) (
          best_statement-foldl target bb (suc idx) statements
            (better target (record { block = bb; statement_index = idx }) stmt.span best))
    ]

best_block-foldl :
    (target : Span) (bb : ℕ) (blocks : List BasicBlockData) (best : Option (Location × Span))
    → best_block target bb blocks best ≡ foldl (improve target) best (places_from bb blocks)
unfolding best_block places_from
best_block-foldl target bb [] best = refl
best_block-foldl target bb (bb_data ∷ blocks) best =
    best_block-foldl target (suc bb) blocks _
    ∙ ap
        (λ (b : Option (Location × Span)).
          foldl (improve target)
            (better target (record { block = bb; statement_index = length bb_data.statements })
              bb_data.terminator.span b)
            (places_from (suc bb) blocks))
        (best_statement-foldl target bb 0 bb_data.statements best)
    ∙ sym (foldl-append (improve target) best (statement_places bb 0 bb_data.statements) _)

-- what one more place does to a best one
improve-some :
    (target : Span) (found place : Location × Span)
    → (now : Location × Span) × (improve target (some found) place ≡ some now)
      × (span_len now.1 ≤ span_len found.1)
      × (spans_overlap place.1 target ≡ true → span_len now.1 ≤ span_len place.1)
      × ((now ≡ found) ⊎ ((now ≡ place) × (spans_overlap place.1 target ≡ true)))
unfolding better
improve-some target found place = elim (Bool-cases (spans_overlap place.1 target)) [
  | inr e ↦ (found, rw (e) refl, omega arith, λ h. absurd (false≢true (sym e ∙ h)), inl refl)
  | inl e ↦ elim (Bool-cases (ltb (span_len place.1) (span_len found.1))) [
    | inl f ↦ (place, rw (e, f) refl, ground (arith, f), λ _. omega arith, inr (refl, e))
    | inr f ↦ (found, rw (e, f) refl, omega arith, λ _. ground (arith, f), inl refl)
  ]
]

-- a best place that is no longer than this one, if this one overlaps
abbrev Covers : Span → Option (Location × Span) → Location × Span → Type 0
Covers target best place =
    spans_overlap place.1 target ≡ true
    → (found : Location × Span) × (best ≡ some found) × (span_len found.1 ≤ span_len place.1)

Covers-improve :
    (target : Span) (best : Option (Location × Span)) (new place : Location × Span)
    → Covers target best place
    → Covers target (improve target best new) place
Covers-improve target none new place c h = let (f, e, _) = c h in cc
Covers-improve target (some found) new place c h =
    let (f, e, le) = c h in
    let (now, q, shorter, _, _) = improve-some target found new in
    (
      now,
      q,
      let k = ap (λ (x : Location × Span). span_len x.1) (some-injective _ _ e) in omega arith,
    )

Covers-new :
    (target : Span) (best : Option (Location × Span)) (new : Location × Span)
    → Covers target (improve target best new) new
unfolding better
Covers-new target none new h = (new, rw (h) refl, omega arith)
Covers-new target (some found) new h =
    let (now, q, _, shorter, _) = improve-some target found new in (now, q, shorter h)

Covers-foldl :
    (target : Span) (ps : List (Location × Span)) (best : Option (Location × Span))
    (place : Location × Span)
    → Covers target best place ⊎ Memᴰ place ps
    → Covers target (foldl (improve target) best ps) place
Covers-foldl target [] best place (inl c) = c
Covers-foldl target [] best place (inr m) = absurd (Memᴰ.not-nil m)
Covers-foldl target (p ∷ ps) best place (inl c) =
    Covers-foldl target ps _ place (inl (Covers-improve target best p place c))
Covers-foldl target (p ∷ ps) best place (inr m) = Covers-foldl target ps _ place (
    ⊎_elim
      (λ e. inl (
        subst (λ (x : Location × Span). Covers target (improve target best p) x) (sym e)
          (Covers-new target best p)))
      inr (Memᴰ.cases_cons m))

improve-none :
    (target : Span) (place found : Location × Span)
    → improve target none place ≡ some found
    → (found ≡ place) × (spans_overlap place.1 target ≡ true)
unfolding better
improve-none target place found h = elim (Bool-cases (spans_overlap place.1 target)) [
  | inl e ↦ (sym (some-injective _ _ (rw (e) at h)), e)
  | inr e ↦ absurd (none-ne-some _ (rw (e) at h))
]

unfoldable Comes :
    Span → List (Location × Span) → Option (Location × Span) → Location × Span → Type 0
Comes target ps best found =
    (best ≡ some found) ⊎ (Memᴰ found ps × (spans_overlap found.1 target ≡ true))

Comes-from :
    (target : Span) (ps : List (Location × Span)) (best : Option (Location × Span))
    (found : Location × Span)
    → foldl (improve target) best ps ≡ some found
    → Comes target ps best found
unfolding Comes
Comes-from target [] best found h = inl h
Comes-from target (p ∷ ps) best found h =
    ⊎_elim (λ e. here best e) (λ (m, o). inr (Memᴰ.tail m, o))
      (Comes-from target ps (improve target best p) found h)
  where
    here :
        (best : Option (Location × Span))
        → improve target best p ≡ some found
        → (best ≡ some found) ⊎ (Memᴰ found (p ∷ ps) × (spans_overlap found.1 target ≡ true))
    here none e =
        let (same, o) = improve-none target p found e in
        inr (Memᴰ.head same, ap (λ (x : Location × Span). spans_overlap x.1 target) same ∙ o)
    here (some f) e =
        let (now, q, _, _, from) = improve-some target f p in
        let same = some-injective _ _ (sym e ∙ q) in
        ⊎_elim (λ old. inl (ap some (sym (same ∙ old))))
          (λ (new, o). inr (
            Memᴰ.head (same ∙ new),
            ap (λ (x : Location × Span). spans_overlap x.1 target) (same ∙ new) ∙ o,
          ))
          from

Comes-none :
    (target : Span) (ps : List (Location × Span)) (found : Location × Span)
    → Comes target ps none found
    → Memᴰ found ps × (spans_overlap found.1 target ≡ true)
unfolding Comes
Comes-none target ps found c = ⊎_elim (λ e. absurd (none-ne-some _ e)) (λ m. m) c

-- the best location is that of a shortest place that overlaps the span
abbrev pub Finds : Body → Span → Type 0
Finds body target =
    ((find_best_location_for_event body target ≡ none)
      × ((place : Location × Span)
          → Memᴰ place (places body)
          → spans_overlap place.1 target ≡ false))
    ⊎ ((found : Location × Span) × (find_best_location_for_event body target ≡ some found.0)
        × Memᴰ found (places body)
        × (spans_overlap found.1 target ≡ true)
        × ((place : Location × Span)
            → Memᴰ place (places body)
            → spans_overlap place.1 target ≡ true
            → span_len found.1 ≤ span_len place.1))

-- Where no location is found, no place of the body overlaps the span; else the location is that of a
-- place that overlaps it, and no place that overlaps it is shorter.
pub find_best_location_for_event-shortest : (body : Body) (target : Span) → Finds body target
unfolding find_best_location_for_event places
find_best_location_for_event-shortest body target =
    elim (Option-cases (best_block target 0 body none)) [
      | inl e ↦ inl (
        rw (e) refl,
        λ place m. elim (Bool-cases (spans_overlap place.1 target)) [
          | inl o ↦
              let (f, q, _) = Covers-foldl target (places_from 0 body) none place (inr m) o in
              absurd (none-ne-some _ (sym e ∙ best_block-foldl target 0 body none ∙ q))
          | inr o ↦ o
        ],
      )
      | inr (found, e) ↦
          let same = sym (best_block-foldl target 0 body none) ∙ e in
          let (m, o) =
            Comes-none target (places_from 0 body) found
              (Comes-from target (places_from 0 body) none found same) in
          inr (
            found,
            rw (e) refl,
            m,
            o,
            λ place k q.
                let (f, q, le) = Covers-foldl target (places_from 0 body) none place (inr k) q in
                let eq =
                  ap (λ (x : Location × Span). span_len x.1) (some-injective _ _ (sym q ∙ same)) in
                omega arith,
          )
    ]
