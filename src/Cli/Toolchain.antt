-- ===== src/Cli/Toolchain.antt =====
-- The toolchain that is read from `rustup`, or taken in its place.
use text.Mathlib.TextLemmas.{cons-append, nil-append, append_assoc}
use scout_audit.Base.{
  ◌≡◌, subst, refl, sym, ◌∙◌, ap, String, true, false, ◌==◌, ◌↔◌, Option, Result, err, none, some,
  List, [], ◌∷◌, ok, ok-injective, Bool-cases, Option-cases, inl, inr, contains_char, char_eq,
  split_char, all_chars, is_ascii_digit, arith,
}
use mathlib.Core.Option.{some-injective}
use scout_audit.Cli.{
  concat, dated, nightly, parse_parts, parse_nightly_toolchain, Rustup, not_run, failed, printed,
  get_toolchain, BlockchainError, toolchain_error,
}

no-dash_of_digits : (s : String) → all_chars is_ascii_digit s ≡ true → contains_char "-" s ≡ false
no-dash_of_digits String.[] h = refl
no-dash_of_digits (String.◌∷◌ c s) h = ground (arith, no-dash_of_digits s)

split_char-none : (s : String) → contains_char "-" s ≡ false → split_char "-" s ≡ s ∷ []
split_char-none String.[] h = refl
split_char-none (String.◌∷◌ c s) h = elim (Bool-cases (char_eq c "-")) [
  | inl e ↦ cc (rw e at h)
  | inr e ↦ rw (e, split_char-none s (rw e at h)) refl
]

-- A part with no dash is what `split` gives first.
split_char-part :
    (a b : String)
    → contains_char "-" a ≡ false
    → split_char "-" (concat a (concat "-" b)) ≡ a ∷ split_char "-" b
split_char-part String.[] b h =
    ap (split_char "-")
      (nil-append (concat "-" b) ∙ cons-append "-" String.[] b ∙ ap (String.◌∷◌ "-") (nil-append b))
split_char-part (String.◌∷◌ c a) b h = elim (Bool-cases (char_eq c "-")) [
  | inl e ↦ cc (rw e at h)
  | inr e ↦ rw (cons-append c a (concat "-" b)) (rw (e, split_char-part a b (rw e at h)) refl)
]

dated_digits :
    (year month day : String)
    → dated year month day ≡ true
    → (contains_char "-" year ≡ false)
      × (contains_char "-" month ≡ false)
      × (contains_char "-" day ≡ false)
unfolding dated
dated_digits year month day h =
    ground (arith, no-dash_of_digits year, no-dash_of_digits month, no-dash_of_digits day)

split_char-nightly :
    (year month day : String)
    → dated year month day ≡ true
    → split_char "-" (nightly year month day) ≡ "nightly" ∷ year ∷ month ∷ day ∷ []
unfolding nightly
split_char-nightly year month day h =
    let (y, m, d) = dated_digits year month day h in
    ap (split_char "-")
      (append_assoc "nightly" "-" (concat year (concat "-" (concat month (concat "-" day)))))
    ∙ split_char-part "nightly" (concat year (concat "-" (concat month (concat "-" day)))) refl
    ∙ ap (λ (l : List String). "nightly" ∷ l)
        (split_char-part year (concat month (concat "-" day)) y
          ∙ ap (λ (l : List String). year ∷ l)
              (split_char-part month day m
                ∙ ap (λ (l : List String). month ∷ l) (split_char-none day d)))

parse_parts-dated :
    (year month day : String)
    → dated year month day ≡ true
    → parse_parts ("nightly" ∷ year ∷ month ∷ day ∷ []) ≡ some (nightly year month day)
unfolding parse_parts
parse_parts-dated year month day h = rw h refl

-- What is parsed is a date that passed the tests, in the text that names it.
pub parse_parts-some :
    (parts : List String) {t : String}
    → parse_parts parts ≡ some t
    → (year : String) × (month : String) × (day : String) × (dated year month day ≡ true)
      × (nightly year month day ≡ t)
unfolding parse_parts
parse_parts-some [] h = cc
parse_parts-some (a ∷ []) h = cc
parse_parts-some (a ∷ b ∷ []) h = cc
parse_parts-some (a ∷ b ∷ c ∷ []) h = cc
parse_parts-some (channel ∷ year ∷ month ∷ day ∷ rest) h =
    elim (Bool-cases (channel == "nightly")) [
      | inr e ↦ cc (rw e at h)
      | inl e ↦ elim (Bool-cases (dated year month day)) [
        | inr f ↦ cc (rw (e, f) at h)
        | inl f ↦ (year, month, day, f, some-injective _ _ (rw (e, f) at h))
      ]
    ]

-- A toolchain that was parsed parses to itself.
parse_nightly_toolchain_idem :
    (s : String) {t : String}
    → parse_nightly_toolchain s ≡ some t
    → parse_nightly_toolchain t ≡ some t
unfolding parse_nightly_toolchain
parse_nightly_toolchain_idem s h =
    let (year, month, day, good, e) = parse_parts-some (split_char "-" s) h in
    rw (sym e) (
      ap parse_parts (split_char-nightly year month day good)
      ∙ parse_parts-dated year month day good)

default_dated : parse_nightly_toolchain "nightly-2026-05-28" ≡ some "nightly-2026-05-28"
unfolding parse_nightly_toolchain parse_parts
default_dated = refl

-- what is returned where nothing was parsed, and otherwise
abbrev returned : Option String → String
returned none = "nightly-2026-05-28"
returned (some t) = t

returned_dated :
    (s : String)
    → parse_nightly_toolchain (returned (parse_nightly_toolchain s))
      ≡ some (returned (parse_nightly_toolchain s))
returned_dated s = elim (Option-cases (parse_nightly_toolchain s)) [
  | inl e ↦ rw e default_dated
  | inr (t, e) ↦ rw e (parse_nightly_toolchain_idem s e)
]

abbrev IsDated : Result BlockchainError String → Type 0
IsDated r = (t : String) → r ≡ ok t → parse_nightly_toolchain t ≡ some t

printed-returned :
    (word : String)
    → get_toolchain (printed (some word)) ≡ ok (returned (parse_nightly_toolchain word))
unfolding get_toolchain
printed-returned word = elim (Option-cases (parse_nightly_toolchain word)) [
  | inl e ↦ rw e refl
  | inr (t, e) ↦ rw e refl
]

get_toolchain-err :
    (rustup : Rustup) → (get_toolchain rustup ≡ err toolchain_error) ↔ (rustup ≡ not_run)
unfolding get_toolchain
get_toolchain-err not_run = (λ _. refl, λ _. refl)
get_toolchain-err failed = (λ h. cc, λ h. cc)
get_toolchain-err (printed none) = (λ h. cc, λ h. cc)
get_toolchain-err (printed (some word)) = (λ h. cc (sym (printed-returned word) ∙ h), λ h. cc)

get_toolchain-printed :
    (rustup : Rustup) (word t : String)
    → rustup ≡ printed (some word)
    → parse_nightly_toolchain word ≡ some t
    → get_toolchain rustup ≡ ok t
get_toolchain-printed rustup word t e h =
    ap get_toolchain e ∙ printed-returned word ∙ ap (λ o. ok (returned o)) h

get_toolchain-IsDated : (rustup : Rustup) → IsDated (get_toolchain rustup)
unfolding get_toolchain
get_toolchain-IsDated not_run t h = cc
get_toolchain-IsDated failed t h =
    subst (λ (x : String). parse_nightly_toolchain x ≡ some x) (ok-injective h) default_dated
get_toolchain-IsDated (printed none) t h =
    subst (λ (x : String). parse_nightly_toolchain x ≡ some x) (ok-injective h) default_dated
get_toolchain-IsDated (printed (some word)) t h =
    subst (λ (x : String). parse_nightly_toolchain x ≡ some x)
      (ok-injective (sym (printed-returned word) ∙ h)) (returned_dated word)

pub get_toolchain-dated :
    (rustup : Rustup)
    → ((get_toolchain rustup ≡ err toolchain_error) ↔ (rustup ≡ not_run))
      × ((t : String) → get_toolchain rustup ≡ ok t → parse_nightly_toolchain t ≡ some t)
      × ((word t : String)
          → rustup ≡ printed (some word)
          → parse_nightly_toolchain word ≡ some t
          → get_toolchain rustup ≡ ok t)
get_toolchain-dated rustup =
    (get_toolchain-err rustup, get_toolchain-IsDated rustup, get_toolchain-printed rustup)
