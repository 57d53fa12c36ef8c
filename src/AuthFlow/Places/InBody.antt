-- ===== src/AuthFlow/Places/InBody.antt =====
-- The places of a body, and its blocks and statements.
use mathlib.Core.List.Memᴰ
use mathlib.Core.Option.{some-injective, none-ne-some}
use scout_audit.Base.{
  ℕ, ap₂, and_iff, nat_eq, nat_eq_iff, ◌↔◌, suc, ◌+◌, ◌≤◌, ◌≡◌, refl, sym, ◌∙◌, ap, subst, inl, inr,
  ⊎_elim, true, some, List, [], ◌∷◌, Memᴰ, length, get_elem?, Bool-cases, arith,
}
use scout_audit.AuthFlow.Mir.{Span, Location, Statement, BasicBlockData, Body, same_location}
use scout_audit.AuthFlow.Places.{is_marker, find_best_location_for_event}
use scout_audit.AuthFlow.Places.Best.{
  statement_places, places_from, places, find_best_location_for_event-shortest,
}

statement_places-in_body :
    (bb idx : ℕ) (statements : List Statement) (place : Location × Span)
    → Memᴰ place (statement_places bb idx statements)
    → (place.0.block ≡ bb) × (place.0.statement_index ≤ idx + length statements)
unfolding statement_places
statement_places-in_body bb idx [] place m = absurd (Memᴰ.not-nil m)
statement_places-in_body bb idx (stmt ∷ statements) place m =
    elim (Bool-cases (is_marker stmt.kind)) [
      | inl e ↦
          let (b, le) = statement_places-in_body bb (suc idx) statements place (rw (e) at m) in
          (b, omega arith)
      | inr e ↦
          ⊎_elim
            (λ q. (
              ap (λ (x : Location × Span). x.0.block) q,
              let k = ap (λ (x : Location × Span). x.0.statement_index) q in omega arith,
            ))
            (λ t.
              let (b, le) = statement_places-in_body bb (suc idx) statements place t in
              (b, omega arith))
            (Memᴰ.cases_cons (rw (e) at m))
    ]

-- the block of a place, where the first block has number `bb`
abbrev InBlocks : ℕ → List BasicBlockData → Location × Span → Type 0
InBlocks bb blocks place =
    (i : ℕ) × (bb_data : BasicBlockData) × (place.0.block ≡ bb + i)
    × (get_elem? blocks i ≡ some bb_data)
    × (place.0.statement_index ≤ length bb_data.statements)

places_from-InBlocks :
    (bb : ℕ) (blocks : List BasicBlockData) (place : Location × Span)
    → Memᴰ place (places_from bb blocks)
    → InBlocks bb blocks place
unfolding places_from
places_from-InBlocks bb [] place m = absurd (Memᴰ.not-nil m)
places_from-InBlocks bb (bb_data ∷ blocks) place m =
    ⊎_elim
      (λ s.
        let (b, le) = statement_places-in_body bb 0 bb_data.statements place s in
        (0, bb_data, omega (arith, b), refl, omega arith))
      (λ t.
        ⊎_elim
          (λ q.
            let b = ap (λ (x : Location × Span). x.0.block) q in
            let i = ap (λ (x : Location × Span). x.0.statement_index) q in
            (0, bb_data, omega arith, refl, omega arith))
          (λ u.
            let (i, x, b, e, le) = places_from-InBlocks (suc bb) blocks place u in
            (suc i, x, omega (arith, b), e, le))
          (Memᴰ.cases_cons t))
      (Memᴰ.append_cases (statement_places bb 0 bb_data.statements) m)

abbrev location : ℕ → ℕ → Location
location block index = record { block = block; statement_index = index }

pub same_location_iff : (a b : Location) → (same_location a b ≡ true) ↔ (a ≡ b)
same_location_iff a b = (
  λ h.
      let (e, f) =
        (and_iff (nat_eq a.block b.block) (nat_eq a.statement_index b.statement_index)).0 h in
      ap₂ location ((nat_eq_iff a.block b.block).0 e)
        ((nat_eq_iff a.statement_index b.statement_index).0 f),
  λ e. (and_iff (nat_eq a.block b.block) (nat_eq a.statement_index b.statement_index)).1 (
    (nat_eq_iff a.block b.block).1 (ap (λ (x : Location). x.block) e),
    (nat_eq_iff a.statement_index b.statement_index).1 (ap (λ (x : Location). x.statement_index) e),
  ),
)

-- a location that is found is within the body
pub find_best_location_for_event-in_body :
    (body : Body) (target : Span) (loc : Location)
    → find_best_location_for_event body target ≡ some loc
    → (bb_data : BasicBlockData) × (get_elem? body loc.block ≡ some bb_data)
      × (loc.statement_index ≤ length bb_data.statements)
unfolding places
find_best_location_for_event-in_body body target loc h =
    ⊎_elim (λ (e, _). absurd (none-ne-some _ (sym e ∙ h)))
      (λ (found, e, m, _, _).
        let (i, bb_data, b, g, le) = places_from-InBlocks 0 body found m in
        let same = some-injective _ _ (sym e ∙ h) in
        (
          bb_data,
          subst (λ n. get_elem? body n ≡ some bb_data)
              (let k = ap (λ (l : Location). l.block) same in omega arith) g,
          let k = ap (λ (l : Location). l.statement_index) same in omega arith,
        ))
      (find_best_location_for_event-shortest body target)
