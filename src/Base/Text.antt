-- ===== src/Base/Text.antt =====
-- The functions of Rust's `str` that the program calls, over the characters of a text.
use Prim.Native.Nat.{ℕ, ◌+◌}
use Prim.Native.Char.{Char, code}
use Prim.Native.String.{String, [], ◌∷◌, ◌++◌}
use mathlib.Core.Path.{◌≡◌, refl, sym}
use mathlib.Core.Logic.{inl, inr}
use mathlib.Core.Bool.{Bool, true, false, ◌&&◌, ◌||◌, false≢true}
use mathlib.Core.Option.{Option, none, some}
use mathlib.Core.List.{List, Memᴰ}
use mathlib.Core.List.Memᴰ
use native.Mathlib.Omega.{arith}
use text.Mathlib.Text.{◌==◌}
use text.Mathlib.TextEquality.{eq_iff}
use scout_audit.Base.Tests.{nat_eq, ltb, leb, if◌then◌else◌, Bool-cases}

abbrev pub char_eq : Char → Char → Bool
char_eq c d = nat_eq (code c) (code d)

abbrev pub is_empty : String → Bool
is_empty [] = true
is_empty (_ ∷ _) = false

-- `s.replace(from, to)` where both are one character
abbrev pub replace_char : Char → Char → String → String
replace_char from to [] = []
replace_char from to (c ∷ s) = (if char_eq c from then to else c) ∷ replace_char from to s

-- `s.contains(c)` for one character
abbrev pub contains_char : Char → String → Bool
contains_char d [] = false
contains_char d (c ∷ s) = char_eq c d || contains_char d s

-- The bytes that UTF-8 takes for a code point.
abbrev pub utf8_len : ℕ → ℕ
utf8_len n = if ltb n 0x80 then 1 else if ltb n 0x800 then 2 else if ltb n 0x10000 then 3 else 4

-- `s.len()`: bytes, not characters
abbrev pub byte_len : String → ℕ
byte_len [] = 0
byte_len (c ∷ s) = utf8_len (code c) + byte_len s

-- `s.split(sep)` at one character: one more part than there are separators
abbrev pub split_push : Char → List String → List String
split_push c List.[] = List.◌∷◌ (c ∷ []) List.[]
split_push c (List.◌∷◌ part rest) = List.◌∷◌ (c ∷ part) rest

abbrev pub split_char : Char → String → List String
split_char sep [] = List.◌∷◌ [] List.[]
split_char sep (c ∷ s) =
    let rest = split_char sep s in if char_eq c sep then List.◌∷◌ [] rest else split_push c rest

-- `s.trim_matches(c)` for one character
abbrev pub trim_start_char : Char → String → String
trim_start_char d [] = []
trim_start_char d (c ∷ s) = if char_eq c d then trim_start_char d s else c ∷ s

abbrev pub trim_end_char : Char → String → String
trim_end_char d [] = []
trim_end_char d (c ∷ s) =
    let rest = trim_end_char d s in
    if is_empty rest then (if char_eq c d then [] else c ∷ []) else c ∷ rest

abbrev pub trim_char : Char → String → String
trim_char d s = trim_end_char d (trim_start_char d s)

-- membership in a `Vec<String>` or a `HashSet<String>`
abbrev pub contains : List String → String → Bool
contains List.[] k = false
contains (List.◌∷◌ j xs) k = j == k || contains xs k

-- A character that was replaced by another is gone.
pub contains_char-replace_char :
    (c d : Char) (s : String) → char_eq d c ≡ false → contains_char c (replace_char c d s) ≡ false
contains_char-replace_char c d [] h = refl
contains_char-replace_char c d (x ∷ s) h = ground (arith, contains_char-replace_char c d s h)

pub mem_of_contains : (xs : List String) (k : String) → contains xs k ≡ true → Memᴰ k xs
mem_of_contains List.[] k h = absurd (false≢true h)
mem_of_contains (List.◌∷◌ x xs) k h = elim (Bool-cases (x == k)) [
  | inl e ↦ Memᴰ.head (sym ((eq_iff x k).0 e))
  | inr e ↦ Memᴰ.tail (mem_of_contains xs k (rw e at h))
]

pub contains_of_mem : (xs : List String) (k : String) → Memᴰ k xs → contains xs k ≡ true
contains_of_mem List.[] k m = absurd (Memᴰ.not-nil m)
contains_of_mem (List.◌∷◌ x xs) k (Memᴰ.head e) = ground (arith, (eq_iff x k).1 (sym e))
contains_of_mem (List.◌∷◌ x xs) k (Memᴰ.tail m) = ground (arith, contains_of_mem xs k m)

-- `parts.join(sep)`
abbrev pub join : String → List String → String
join sep List.[] = []
join sep (List.◌∷◌ s List.[]) = s
join sep (List.◌∷◌ s (List.◌∷◌ t rest)) = s ++ (sep ++ join sep (List.◌∷◌ t rest))

-- `char::is_whitespace`: Unicode's White_Space property
abbrev pub is_whitespace : Char → Bool
is_whitespace c =
    let n = code c in
    (leb 0x09 n && leb n 0x0d)
    || nat_eq n 0x20
    || nat_eq n 0x85
    || nat_eq n 0xa0
    || nat_eq n 0x1680
    || (leb 0x2000 n && leb n 0x200a)
    || nat_eq n 0x2028
    || nat_eq n 0x2029
    || nat_eq n 0x202f
    || nat_eq n 0x205f
    || nat_eq n 0x3000

-- `s.trim()`
abbrev pub trim_start : String → String
trim_start [] = []
trim_start (c ∷ s) = if is_whitespace c then trim_start s else c ∷ s

abbrev pub trim_end : String → String
trim_end [] = []
trim_end (c ∷ s) =
    let rest = trim_end s in
    if is_empty rest then (if is_whitespace c then [] else c ∷ []) else c ∷ rest

abbrev pub trim : String → String
trim s = trim_end (trim_start s)

-- `char::is_ascii_digit`, and `s.chars().all(p)`
abbrev pub is_ascii_digit : Char → Bool
is_ascii_digit c = leb b'0' (code c) && leb (code c) b'9'

abbrev pub all_chars : (Char → Bool) → String → Bool
all_chars p [] = true
all_chars p (c ∷ s) = p c && all_chars p s

-- `s.starts_with(prefix)` and `s.strip_prefix(prefix)`
abbrev pub strip_prefix : String → String → Option String
strip_prefix [] s = some s
strip_prefix (p ∷ ps) [] = none
strip_prefix (p ∷ ps) (c ∷ s) = if char_eq p c then strip_prefix ps s else none

abbrev pub starts_with : String → String → Bool
starts_with prefix s = elim (strip_prefix prefix s) [ none ↦ false | some _ ↦ true ]
