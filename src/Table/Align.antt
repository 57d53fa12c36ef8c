-- ===== src/Table/Align.antt =====
-- The widths of the table's columns, and the padding of its cells.
use mathlib.Core.List.Memᴰ
use text.Mathlib.TextLemmas.{cons-append, nil-append}
use mathlib.Core.Option.{some-injective}
use scout_audit.Base.{
  ℕ, zero, suc, ◌+◌, ◌≤◌, ◌<◌, ◌≡◌, refl, sym, ◌∙◌, ap, ap₂, subst, sorted, String, Bool, some,
  List, [], ◌∷◌, map, length, get_elem?, byte_len, ltb, arith, Bool-cases, inl, inr, ⊎_elim, Memᴰ,
  if◌then◌else◌,
}
use Prim.Native.String
use mathlib.Core.List.Memᴰ
use scout_audit.Base.Map.{Map}
use scout_audit.Json.{Serde}
use scout_audit.Finding.{Finding}
use scout_audit.Lints.{LintStore}
use scout_audit.Table.{
  Cell, Row, Table, pad_loop, pad, widest, widths_from, get_column_widths, from_strings, set_color,
  crate_row, heading_row, construct_table,
}
use scout_audit.Graph.Numbers.{lt-length_of_index}
use scout_audit.Table.Shape.{six_cells, construct_table-rows, construct_table-heading}

byte_len-append : (s t : String) → byte_len (String.◌++◌ s t) ≡ byte_len s + byte_len t
byte_len-append String.[] t = ap byte_len (nil-append t) ∙ omega arith
byte_len-append (String.◌∷◌ c s) t =
    ap byte_len (cons-append c s t) ∙ omega (arith, byte_len-append s t)

-- Padding reaches the width exactly where the fuel covers what is missing.
byte_len-pad_loop :
    (fuel w : ℕ) (s : String)
    → byte_len s ≤ w
    → w ≤ byte_len s + fuel
    → byte_len (pad_loop fuel w s) ≡ w
unfolding pad_loop
byte_len-pad_loop zero w s h enough = omega arith
byte_len-pad_loop (suc fuel) w s h enough = elim (Bool-cases (ltb (byte_len s) w)) [
  | inl e ↦ rw e (
      byte_len-pad_loop fuel w (String.◌++◌ s " ") (ground (arith, byte_len-append s " "))
        (ground (arith, byte_len-append s " ")))
  | inr e ↦ rw e (ground arith)
]

-- the most that a cell of column i holds is at most w
Fits : ℕ → ℕ → List Row → Type 0
Fits i w rows =
    (row : Row) (cell : Cell)
    → Memᴰ row rows
    → get_elem? row.cells i ≡ some cell
    → byte_len cell.content ≤ w

IsRectangular : ℕ → List Row → Type 0
IsRectangular n rows = (row : Row) → Memᴰ row rows → length row.cells ≡ n

some_of_lt :
    (cells : List Cell) (i : ℕ) → i < length cells → (cell : Cell) × (get_elem? cells i ≡ some cell)
some_of_lt [] i h = absurd (omega arith)
some_of_lt (c ∷ cells) zero h = (c, refl)
some_of_lt (c ∷ cells) (suc i) h = some_of_lt cells i (omega arith)

cons-Fits :
    (i w : ℕ) (row : Row) (rows : List Row) (cell : Cell)
    → get_elem? row.cells i ≡ some cell
    → byte_len cell.content ≤ w
    → Fits i w rows
    → Fits i w (row ∷ rows)
unfolding Fits
cons-Fits i w row rows cell at_i h fits r c k at_c =
    ⊎_elim
      (λ here.
        subst (λ (t : Cell). byte_len t.content ≤ w)
          (some-injective _ _ (sym at_i ∙ ap (λ (t : Row). get_elem? t.cells i) (sym here) ∙ at_c))
          h)
      (λ there. fits r c there at_c) (Memᴰ.cases_cons k)

-- column i has width w, and the columns behind it those of ws
cons_cover :
    (i n w : ℕ) (ws : List ℕ) (rows : List Row)
    → Fits i w rows
    → ((k : ℕ) → k < n → (v : ℕ) × (get_elem? ws k ≡ some v) × Fits (suc i + k) v rows)
    → (k : ℕ) → k < suc n
    → (v : ℕ) × (get_elem? (w ∷ ws) k ≡ some v) × Fits (i + k) v rows
cons_cover i n w ws rows fits rest zero h = (w, refl, subst (λ j. Fits j w rows) (omega arith) fits)
cons_cover i n w ws rows fits rest (suc k) h =
    let (v, e, f) = rest k (omega arith) in (v, e, subst (λ j. Fits j v rows) (omega arith) f)

-- the running maximum
larger : (m b : ℕ) → (m ≤ (if ltb m b then b else m)) × (b ≤ (if ltb m b then b else m))
larger m b = (ground arith, ground arith)

widest-Fits :
    (n i : ℕ) (rows : List Row) (m : ℕ)
    → i < n
    → IsRectangular n rows
    → (w : ℕ) × (widest i rows m ≡ some w) × (m ≤ w) × Fits i w rows
unfolding widest Fits IsRectangular
widest-Fits n i [] m h shape = (m, refl, omega arith, λ row cell k. absurd (Memᴰ.not-nil k))
widest-Fits n i (row ∷ rows) m h shape =
    let (cell, at_i) =
      some_of_lt row.cells i (subst (λ (t : ℕ). i < t) (sym (shape row (Memᴰ.head refl))) h) in
    let more : ℕ = if ltb m (byte_len cell.content) then byte_len cell.content else m in
    let (w, e, above, fits) = widest-Fits n i rows more h (λ r k. shape r (Memᴰ.tail k)) in
    (
      w,
      rw (at_i, widest) e,
      omega (arith, above, (larger m (byte_len cell.content)).0),
      cons-Fits i w row rows cell at_i (omega (arith, above, (larger m (byte_len cell.content)).1))
          fits,
    )

module _ (t : Table) (shape : IsRectangular (length t.heading.cells) (t.heading ∷ t.rows)) where
  -- the widths of the columns from i on
  widths_from-Fits :
      (i n : ℕ)
      → i + n ≡ length t.heading.cells
      → (ws : List ℕ) × (widths_from t i n ≡ some ws)
        × ((k : ℕ)
            → k < n
            → (w : ℕ) × (get_elem? ws k ≡ some w) × Fits (i + k) w (t.heading ∷ t.rows))
  unfolding widths_from Fits IsRectangular
  widths_from-Fits i zero h = ([], refl, λ k lt. absurd (omega arith))
  widths_from-Fits i (suc n) h =
      let (cell, at_i) = some_of_lt t.heading.cells i (omega arith) in
      let (w, e, above, fits) =
        widest-Fits (length t.heading.cells) i t.rows (byte_len cell.content) (omega arith)
          (λ r k. shape r (Memᴰ.tail k)) in
      let (ws, rest, cover) = widths_from-Fits (suc i) n (omega arith) in
      (
        w ∷ ws,
        rw (at_i, widths_from) (rw (e, rest) refl),
        cons_cover i n w ws (t.heading ∷ t.rows)
            (cons-Fits i w t.heading t.rows cell at_i above fits) cover,
      )

  columns-aligned :
      (i : ℕ) (row : Row) (cell : Cell)
      → Memᴰ row (t.heading ∷ t.rows)
      → get_elem? row.cells i ≡ some cell
      → (ws : List ℕ) × (get_column_widths t ≡ some ws)
        × (w : ℕ) × (get_elem? ws i ≡ some w)
        × (byte_len (pad cell w) ≡ w)
  unfolding get_column_widths pad Fits IsRectangular
  columns-aligned i row cell m at_i =
      let (ws, e, cover) = widths_from-Fits 0 (length t.heading.cells) (omega arith) in
      let (w, at_w, fits) =
        cover i (omega (arith, shape row m, lt-length_of_index cell row.cells i at_i)) in
      let short = fits row cell m (ap (get_elem? row.cells) (omega arith) ∙ at_i) in
      (ws, e, w, at_w, byte_len-pad_loop w w cell.content short (omega arith))

module _ ⦃j : Serde⦄ (findings : List Finding) (crates : Map Bool) (store : LintStore) where
  table_shape : IsRectangular 6 (
      heading_row
      ∷ map (crate_row findings crates store) (sorted (map (λ (e : String × Bool). e.0) crates)))
  unfolding IsRectangular set_color from_strings
  table_shape row m =
      ⊎_elim (λ here. ap (λ (r : Row). length r.cells) here)
        (λ there.
          let (k, _, e) =
            Memᴰ.of_map (crate_row findings crates store)
              (sorted (map (λ (e : String × Bool). e.0) crates)) there in
          ap (λ (r : Row). length r.cells) (sym e) ∙ six_cells findings crates store k)
        (Memᴰ.cases_cons m)

  -- The widths of the columns are found, and any cell of the heading or of a row is padded to exactly
  -- the width of its column.
  pub construct_table-aligned :
      (i : ℕ) (row : Row) (cell : Cell)
      → Memᴰ row (
          (construct_table findings crates store).heading
          ∷ (construct_table findings crates store).rows)
      → get_elem? row.cells i ≡ some cell
      → (ws : List ℕ) × (get_column_widths (construct_table findings crates store) ≡ some ws)
        × (w : ℕ) × (get_elem? ws i ≡ some w)
        × (byte_len (pad cell w) ≡ w)
  unfolding IsRectangular set_color from_strings
  construct_table-aligned i row cell m at_i =
      columns-aligned (construct_table findings crates store)
        (λ r k.
          table_shape r (
            subst (λ (rows : List Row). Memᴰ r rows)
              (ap₂ (λ (h : Row) (rows : List Row). h ∷ rows)
                (construct_table-heading findings crates store)
                (construct_table-rows findings crates store))
              k)
          ∙ sym six_columns)
        i row cell m at_i
    where
      six_columns : length (construct_table findings crates store).heading.cells ≡ 6
      six_columns = ap (λ (r : Row). length r.cells) (construct_table-heading findings crates store)
