-- ===== src/Filters/Separator.antt =====
-- The separator that is drawn for a table in the order of its header.
use mathlib.Core.Option
use scout_audit.Base.{
  ℕ, zero, suc, ◌+◌, ◌≡◌, refl, sym, ◌∙◌, ap, String, none, some, List, [], ◌∷◌, map, length,
  get_elem?, arith,
}
use scout_audit.Base.Map
use scout_audit.Base.Map.{Map}
use scout_audit.Json.{
  Value, string, number, array, pos_int, Items, item?, items, from_items, get, Serde,
}
use scout_audit.Graph.{number_from}
use scout_audit.Graph.Numbers.{Distinct, number_from-inverts}
use scout_audit.Graph.Walk.{range_from}
use scout_audit.Filters.{
  orders_from, header_to_orders, names_of, default_header_order, order_indices, process_order,
  dashes, segments, separator, json_to_int, print_separator,
}

abbrev pub strings : List String → Items
strings names = from_items (map string names)

abbrev pub numbers : List ℕ → Items
numbers ws = from_items (map (λ w. number (pos_int w)) ws)

-- for each width that many dashes and two more, and a plus
abbrev segments_of : List ℕ → String
segments_of [] = ""
segments_of (w ∷ ws) = dashes (w + 2) (String.◌∷◌ "+" (segments_of ws))

abbrev pub rule : List ℕ → String
rule ws = String.◌∷◌ "+" (segments_of ws)

items-from_items : (vs : List Value) → items (from_items vs) ≡ vs
items-from_items [] = refl
items-from_items (v ∷ vs) = ap (λ (l : List Value). v ∷ l) (items-from_items vs)

orders_from-strings :
    (i : ℕ) (names : List String) (m : Map ℕ)
    → orders_from i (map string names) m ≡ number_from i names m
unfolding orders_from number_from
orders_from-strings i [] m = refl
orders_from-strings i (x ∷ names) m = orders_from-strings (suc i) names (Map.insert m x i)

-- the number behind i, and behind its successor
add_zero : (i : ℕ) → i + 0 ≡ i
add_zero i = omega arith

zero_add : (k : ℕ) → 0 + k ≡ k
zero_add k = omega arith

add_suc : (i k : ℕ) → i + suc k ≡ suc i + k
add_suc i k = omega arith

names_of-strings : (names : List String) → names_of (map string names) ≡ names
unfolding names_of
names_of-strings [] = refl
names_of-strings (x ∷ names) = ap (λ (l : List String). x ∷ l) (names_of-strings names)

-- names that the map numbers from i on
order_indices-range :
    (m : Map ℕ) (i : ℕ) (names : List String)
    → ((k : ℕ) (x : String) → get_elem? names k ≡ some x → Map.get m x ≡ some (i + k))
    → order_indices m names ≡ some (range_from i (length names))
unfolding order_indices range_from
order_indices-range m i [] h = refl
order_indices-range m i (x ∷ names) h =
    let first = h 0 x refl ∙ ap some (add_zero i) in
    let rest =
      order_indices-range m (suc i) names (λ k y e. h (suc k) y e ∙ ap some (add_suc i k)) in
    rw (first, order_indices) (rw rest refl)

segments-range :
    (widths : Items) (i : ℕ) (ws : List ℕ)
    → ((k w : ℕ) → get_elem? ws k ≡ some w → item? widths (i + k) ≡ some (number (pos_int w)))
    → segments widths (range_from i (length ws)) ≡ some (segments_of ws)
unfolding segments range_from json_to_int
segments-range widths i [] h = refl
segments-range widths i (w ∷ ws) h =
    let first = ap (item? widths) (sym (add_zero i)) ∙ h 0 w refl in
    let rest =
      segments-range widths (suc i) ws
        (λ k v e. ap (item? widths) (sym (add_suc i k)) ∙ h (suc k) v e) in
    rw (first, segments) (rw rest refl)

item-numbers :
    (ws : List ℕ) (k w : ℕ)
    → get_elem? ws k ≡ some w
    → item? (numbers ws) k ≡ some (number (pos_int w))
item-numbers [] k w h = cc
item-numbers (v ∷ ws) zero w h = ap (Option.map (λ (n : ℕ). number (pos_int n))) h
item-numbers (v ∷ ws) (suc k) w h = item-numbers ws k w h

process_order-default :
    ⦃j : Serde⦄
    → (values : Map Value) (names : List String) → Map.get values "order" ≡ none
    → Distinct names
    → process_order values (array (strings names)) ≡ some (range_from 0 (length names))
unfolding process_order header_to_orders default_header_order
process_order-default values names none_given d =
    rw
      (
        none_given,
        items-from_items (map string names),
        orders_from-strings 0 names [],
        names_of-strings names,
      )
      (order_indices-range (number_from 0 names []) 0 names
        (λ k x e. (number_from-inverts names x k d).1 e ∙ ap some (sym (zero_add k))))

-- Where no order is given, and the header's names differ from one another and are as many as the
-- widths, the separator has a segment for each column in the order of the header: as many dashes as
-- the column is wide and two more, between pluses.
pub print_separator-rule :
    ⦃j : Serde⦄
    → (values : Map Value) (summary : Value) (names : List String) (ws : List ℕ)
    → Map.get values "summary" ≡ some summary
    → Map.get values "order" ≡ none
    → get summary "header_order" ≡ some (array (strings names))
    → get summary "widths" ≡ some (array (numbers ws))
    → Distinct names
    → length names ≡ length ws
    → print_separator values ≡ string (rule ws)
unfolding print_separator separator
print_separator-rule values summary names ws at_summary no_order header widths d same =
    rw (at_summary, header, widths, print_separator)
      (rw (process_order-default values names no_order d, same)
        (rw
          (
            segments-range (numbers ws) 0 ws
                (λ k w e. ap (item? (numbers ws)) (zero_add k) ∙ item-numbers ws k w e),
            separator,
          )
          refl))
