-- ===== src/Filters.antt =====
-- scout/output/table.rs: the functions that the templates of the table call. A template's arguments
-- are a map of values, and `COLOR_MAP` is an argument.
pub mod Separator
use scout_audit.Base.{
  ℕ, zero, suc, ◌+◌, String, Bool, true, false, Option, none, some, List, [], ◌∷◌, ◌++◌, map,
  Result, ok, err, ok_or, ◌>>=◌, unwrap_or, byte_len, ltb, length, show, ◌==◌, if◌then◌else◌,
}
use Prim.Native.String
use scout_audit.Base.Map
use scout_audit.Base.Map.{Map}
use scout_audit.Json.{
  Value, null, bool, number, string, array, object, Number, pos_int, neg_int, float, Items, nil,
  cons, Fields, field?, item?, get, items, Serde,
}
use scout_audit.Finding.{json_to_string}
use scout_audit.Table.{Color, no_color, red, green, blue, cyan, yellow, magenta, pad_loop}

-- `Color::to_string`
unfoldable pub color_name : Color → String
color_name no_color = "default"
color_name red = "red"
color_name green = "green"
color_name blue = "blue"
color_name cyan = "cyan"
color_name yellow = "yellow"
color_name magenta = "magenta"

-- the colour that a text names, as `get_color` and `set_color_maps` read it
unfoldable pub named_color : String → Option Color
named_color name =
    if name == "red"
    then some red
    else if name == "green"
    then some green
    else if name == "blue"
    then some blue
    else if name == "cyan"
    then some cyan
    else if name == "yellow"
    then some yellow
    else if name == "magenta"
    then some magenta
    else none

-- the first value of `COLOR_MAP`
abbrev pub color_map : Map Color
color_map =
    ("info", blue)
    ∷ ("header", green)
    ∷ ("warning", yellow)
    ∷ ("important", red)
    ∷ ("error", red)
    ∷ []

unfoldable pub map_importance : Map Color → String → Color
map_importance colors importance = unwrap_or (Map.get colors importance) no_color

unfoldable pub get_color : Map Color → Fields → Color
unfolding named_color map_importance
get_color colors o = elim (field? o "color") [
  | some (string color) ↦ unwrap_or (named_color color) no_color
  | _ ↦ elim (field? o "importance") [
    | some (string importance) ↦ map_importance colors importance
    | _ ↦ no_color
  ]
]

unfoldable pub json_to_int : Value → ℕ
json_to_int (number (pos_int n)) = n
json_to_int _ = 0

-- the content of a cell, with blanks up to its width where that is asked for
unfoldable pub padded : ⦃j : Serde⦄ → Fields → Bool → Value → String
unfolding json_to_int pad_loop
padded o false content = json_to_string content
padded o true content = elim (field? o "w") [
  | none ↦ json_to_string content
  | some w ↦ pad_loop (json_to_int w) (json_to_int w) (json_to_string content)
]

-- `paint` is the terminal formatter.
unfoldable pub process_object_console :
    ⦃j : Serde⦄ → (Color → String → String) → Map Color → Fields → Bool → String
unfolding padded get_color
process_object_console paint colors o pad = elim (field? o "content") [
  | none ↦ ""
  | some content ↦ paint (get_color colors o) (padded o pad content)
]

abbrev concat_all : List String → String
concat_all [] = ""
concat_all (s ∷ ss) = String.◌++◌ s (concat_all ss)

unfoldable pub styled : Color → String → String
unfolding color_name
styled no_color text = text
styled color text =
    concat_all ("<span style=\"color:" ∷ color_name color ∷ "\">" ∷ text ∷ "</span>" ∷ [])

unfoldable pub process_object_md : ⦃j : Serde⦄ → Map Color → Fields → Bool → String
unfolding padded get_color styled
process_object_md colors o pad = elim (field? o "content") [
  | none ↦ ""
  | some content ↦ styled (get_color colors o) (padded o pad content)
]

unfoldable pub filter_cell_wrapper : ⦃j : Serde⦄ → Map Value → (Fields → String) → Value
filter_cell_wrapper ⦃j⦄ values cb = elim (Map.get values "cell") [
  | none ↦ string ""
  | some cell ↦ elim cell [
    | null ↦ string ""
    | bool true ↦ string "true"
    | bool false ↦ string "false"
    | number n ↦ string (j.to_string (number n))
    | string s ↦ string s
    | array _ ↦ string ""
    | object o ↦ string (cb o)
  ]
]

-- `values` is iterated as the list gives it.
unfoldable pub set_color_maps : List (String × Value) → Map Color → Map Color
unfolding named_color
set_color_maps [] colors = colors
set_color_maps ((k, string v) ∷ values) colors =
    set_color_maps values (elim (named_color v) [ none ↦ colors | some c ↦ Map.insert colors k c ])
set_color_maps (_ ∷ values) colors = set_color_maps values colors

-- the numbers of the columns from i on, by their names
unfoldable pub orders_from : ℕ → List Value → Map ℕ → Map ℕ
orders_from i [] ret = ret
orders_from i (string content ∷ cells) ret = orders_from (suc i) cells (Map.insert ret content i)
orders_from i (_ ∷ cells) ret = orders_from (suc i) cells ret

unfoldable pub header_to_orders : Value → Map ℕ
unfolding orders_from
header_to_orders (array cells) = orders_from 0 (items cells) []
header_to_orders _ = []

unfoldable pub names_of : List Value → List String
names_of [] = []
names_of (string content ∷ cells) = content ∷ names_of cells
names_of (_ ∷ cells) = names_of cells

unfoldable pub default_header_order : Value → List String
unfolding names_of
default_header_order (array cells) = names_of (items cells)
default_header_order _ = []

-- the last loop of `process_order`; an unknown name is the error
unfoldable pub order_indices : Map ℕ → List String → Option (List ℕ)
order_indices header_order [] = some []
order_indices header_order (o ∷ order) = elim (Map.get header_order o) [
  | none ↦ none
  | some i ↦ elim (order_indices header_order order) [ none ↦ none | some is ↦ some (i ∷ is) ]
]

unfoldable pub process_order : ⦃j : Serde⦄ → Map Value → Value → Option (List ℕ)
unfolding header_to_orders default_header_order order_indices
process_order values header =
    order_indices (header_to_orders header) (elim (Map.get values "order") [
      | some (array o) ↦ map (λ v. json_to_string v) (items o)
      | _ ↦ default_header_order header
    ])

-- `ret.push('-')` that many times, in front of what follows
unfoldable pub dashes : ℕ → String → String
dashes zero rest = rest
dashes (suc n) rest = String.◌∷◌ "-" (dashes n rest)

-- what is pushed after the first plus; `none` where a column has no width
-- The sum of `u64` is one of ℕ here: widths are lengths of texts, far below its end.
unfoldable pub segments : Items → List ℕ → Option String
unfolding dashes json_to_int
segments widths [] = some ""
segments widths (i ∷ order) = elim (item? widths i) [
  | none ↦ none
  | some w ↦ elim (segments widths order) [
    | none ↦ none
    | some rest ↦ some (dashes (json_to_int w + 2) (String.◌∷◌ "+" rest))
  ]
]

-- with the order of the columns and their widths
unfoldable pub separator : Option (List ℕ) → Items → String
unfolding segments
separator none widths = ""
separator (some order) widths = elim (segments widths order) [
  | none ↦ ""
  | some s ↦ String.◌∷◌ "+" s
]

unfoldable pub print_separator : ⦃j : Serde⦄ → Map Value → Value
unfolding process_order separator
print_separator values = elim (Map.get values "summary") [
  | none ↦ string ""
  | some summary ↦ elim (get summary "header_order") [
    | none ↦ string ""
    | some header ↦ elim (get summary "widths") [
      | some (array widths) ↦ string (separator (process_order values header) widths)
      | _ ↦ string ""
    ]
  ]
]
