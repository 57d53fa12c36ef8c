-- ===== src/Base/Print.antt =====
-- `format!("{n}")` of a number, and the order of texts.
use Prim.Native.Nat.{ℕ, zero, suc, ◌/◌, ◌%◌, Ordering}
use Prim.Native.String as Text
use Prim.Native.String.{String}
use mathlib.Core.List.{List, [], ◌∷◌, Memᴰ}
use mathlib.Core.Path.{◌≡◌}
use mathlib.Core.Bool.{Bool, true, false}
use mathlib.Core.Logic.{◌↔◌, ◌⊎◌}
use native.Mathlib.Omega.{arith}
use scout_audit.Base.Tests.{ltb, if◌then◌else◌}
use scout_audit.Base.Lists.{get_or, Memᴰ-cons}

abbrev digit : ℕ → String
digit n = get_or ("0" ∷ "1" ∷ "2" ∷ "3" ∷ "4" ∷ "5" ∷ "6" ∷ "7" ∷ "8" ∷ "9" ∷ []) n "9"

-- the digits in front of those already written; one round for each unit is more than enough
abbrev show_loop : ℕ → ℕ → String → String
show_loop zero n written = written
show_loop (suc fuel) n written =
    let longer = Text.◌++◌ (digit (n % 10)) written in
    if ltb n 10 then longer else show_loop fuel (n / 10) longer

abbrev pub show : ℕ → String
show n = show_loop (suc n) n ""

-- `String: Ord`, by the bytes of the UTF-8
abbrev pub text_leb : String → String → Bool
text_leb s t = elim (Text.compare s t) [ Ordering.gt ↦ false | _ ↦ true ]

abbrev insert_text : String → List String → List String
insert_text s [] = s ∷ []
insert_text s (t ∷ ts) = if text_leb s t then s ∷ t ∷ ts else t ∷ insert_text s ts

-- `Itertools::sorted` on texts
abbrev pub sorted : List String → List String
sorted [] = []
sorted (s ∷ ss) = insert_text s (sorted ss)

mem-insert_text :
    (k s : String) (ts : List String) → Memᴰ k (insert_text s ts) ↔ ((k ≡ s) ⊎ Memᴰ k ts)
mem-insert_text k s [] = Memᴰ-cons k s []
mem-insert_text k s (t ∷ ts) = ground (
  arith,
  mem-insert_text k s ts,
  Memᴰ-cons k s (t ∷ ts),
  Memᴰ-cons k t ts,
  Memᴰ-cons k t (insert_text s ts),
)

-- Sorting keeps the elements.
pub mem-sorted : (k : String) (ss : List String) → Memᴰ k (sorted ss) ↔ Memᴰ k ss
mem-sorted k [] = (λ m. m, λ m. m)
mem-sorted k (s ∷ ss) =
    ground (arith, mem-insert_text k s (sorted ss), mem-sorted k ss, Memᴰ-cons k s ss)
