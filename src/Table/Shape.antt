-- ===== src/Table/Shape.antt =====
-- The rows of the table.
use mathlib.Core.List.{append_assoc, append-nil}
use scout_audit.Base.{
  ℕ, ◌≡◌, refl, sym, ◌∙◌, ap, String, Bool, false, List, [], ◌∷◌, ◌++◌, foldl, map, length,
  unwrap_or, arith, Bool-cases, inl, inr, sorted,
}
use scout_audit.Base.Map
use scout_audit.Base.Map.{Map}
use scout_audit.Json.{Serde}
use scout_audit.Finding.{Finding}
use scout_audit.Lints.{LintStore}
use scout_audit.Table.{
  Row, Table, from_strings, set_color, new_table, add_row, crate_row, heading_row, construct_table,
}

add_row-heading : (t : Table) (r : Row) → (add_row t r).heading ≡ t.heading
unfolding add_row
add_row-heading t r = ground arith

add_row-rows :
    (t : Table) (r : Row)
    → length r.cells ≡ length t.heading.cells
    → (add_row t r).rows ≡ t.rows ++ r ∷ []
unfolding add_row
add_row-rows t r h = ground arith

module _ (row_of : String → Row) where
  -- adding rows that all fit
  rows-foldl :
      (n : ℕ) (fit : (k : String) → length (row_of k).cells ≡ n) (t : Table) (ks : List String)
      → length t.heading.cells ≡ n
      → ((foldl (λ table k. add_row table (row_of k)) t ks).rows ≡ t.rows ++ map row_of ks)
        × ((foldl (λ table k. add_row table (row_of k)) t ks).heading ≡ t.heading)
  rows-foldl n fit t [] h = (sym (append-nil t.rows), refl)
  rows-foldl n fit t (k ∷ ks) h =
      let heading = add_row-heading t (row_of k) in
      let (rows, same) =
        rows-foldl n fit (add_row t (row_of k)) ks (ap (λ (r : Row). length r.cells) heading ∙ h) in
      (
        rows
            ∙ ap (λ (l : List Row). l ++ map row_of ks) (add_row-rows t (row_of k) (fit k ∙ sym h))
            ∙ append_assoc t.rows (row_of k ∷ []) (map row_of ks),
        same ∙ heading,
      )

module _ ⦃j : Serde⦄ (findings : List Finding) (crates : Map Bool) (store : LintStore) where
  pub six_cells : (krate : String) → length (crate_row findings crates store krate).cells ≡ 6
  unfolding crate_row from_strings
  six_cells krate = elim (Bool-cases (unwrap_or (Map.get crates krate) false)) [
    | inl e ↦ rw e refl
    | inr e ↦ rw e refl
  ]

  -- The table has the row of each crate, in the order of their names, and no row was dropped.
  pub construct_table-rows :
      (construct_table findings crates store).rows
      ≡ map (crate_row findings crates store) (sorted (map (λ (e : String × Bool). e.0) crates))
  unfolding construct_table new_table set_color from_strings
  construct_table-rows =
      (rows-foldl (crate_row findings crates store) 6 six_cells (new_table heading_row)
        (sorted (map (λ (e : String × Bool). e.0) crates)) refl).0

  pub construct_table-heading : (construct_table findings crates store).heading ≡ heading_row
  unfolding construct_table new_table set_color from_strings
  construct_table-heading =
      (rows-foldl (crate_row findings crates store) 6 six_cells (new_table heading_row)
        (sorted (map (λ (e : String × Bool). e.0) crates)) refl).1
