-- ===== src/Base/Replace.antt =====
-- `contains`, `replace` and `lines` of Rust's `str`.
use Prim.Native.Nat.{ℕ, zero, suc}
use Prim.Native.String.{String, [], ◌∷◌, ◌++◌}
use mathlib.Core.Bool.{Bool, ◌||◌}
use mathlib.Core.List.{List}
use scout_audit.Base.Tests.{if◌then◌else◌}
use scout_audit.Base.Text.{is_empty, char_eq, starts_with, split_char}

abbrev pub contains_text : String → String → Bool
contains_text part [] = is_empty part
contains_text part (c ∷ s) = starts_with part (c ∷ s) || contains_text part s

abbrev pub char_count : String → ℕ
char_count [] = zero
char_count (c ∷ s) = suc (char_count s)

-- A text of no characters stands before each character and at the end.
abbrev pub between : String → String → String
between by [] = by
between by (c ∷ s) = by ++ (c ∷ between by s)

-- The characters of an occurrence, after its first, are skipped.
abbrev pub replace_from : String → String → ℕ → String → String
replace_from part by skip [] = []
replace_from part by (suc skip) (c ∷ s) = replace_from part by skip s
replace_from part by zero (c ∷ s) =
    let after = replace_from part by (pred (char_count part)) s in
    let next = replace_from part by zero s in
    if starts_with part (c ∷ s) then by ++ after else c ∷ next
  where
    pred : ℕ → ℕ
    pred zero = zero
    pred (suc n) = n

abbrev pub replace_text : String → String → String → String
replace_text part by s = if is_empty part then between by s else replace_from part by zero s

abbrev pub strip_cr : String → String
strip_cr [] = []
strip_cr (c ∷ s) = if is_empty s then (if char_eq c "\r" then [] else c ∷ []) else c ∷ strip_cr s

-- The text after the last line break is a line only if it is not empty.
abbrev pub strip_last : List String → List String
strip_last List.[] = List.[]
strip_last (List.◌∷◌ line List.[]) = if is_empty line then List.[] else List.◌∷◌ line List.[]
strip_last (List.◌∷◌ line (List.◌∷◌ next rest)) =
    List.◌∷◌ (strip_cr line) (strip_last (List.◌∷◌ next rest))

abbrev pub lines : String → List String
lines s = strip_last (split_char "\n" s)
