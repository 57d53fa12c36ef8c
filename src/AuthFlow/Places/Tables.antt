-- ===== src/AuthFlow/Places/Tables.antt =====
-- `HashMap` under keys that are no texts, as an association list.
use mathlib.Core.List.Memᴰ
use mathlib.Core.Bool.{false≢true}
use mathlib.Core.Option.{some-injective}
use scout_audit.Base.{
  ◌≡◌, refl, sym, ◌∙◌, ap, ◌↔◌, ◌⊎◌, inl, inr, ⊎_elim, Bool, true, false, ◌&&◌, ◌||◌, Option, none,
  some, List, [], ◌∷◌, ◌++◌, Memᴰ, if◌then◌else◌, arith, Bool-cases, Option-cases, any, subst,
  Memᴰ-cons,
}

abbrev pub Keyed {ℓ} : Type 0 → Type ℓ → Type ℓ
Keyed K V = List (K × V)

module _ {ℓ} {K : Type 0} {V : Type ℓ} (same : K → K → Bool) where
  abbrev pub lookup : Keyed K V → K → Option V
  lookup [] k = none
  lookup ((j, v) ∷ m) k = if same j k then some v else lookup m k

  abbrev pub put : Keyed K V → K → V → Keyed K V
  put [] k v = (k, v) ∷ []
  put ((j, w) ∷ m) k v = if same j k then (j, v) ∷ m else (j, w) ∷ put m k v

  -- `map.entry(k).or_default().push(v)`
  abbrev pub push_one : Keyed K (List V) → K → V → Keyed K (List V)
  push_one [] k v = (k, v ∷ []) ∷ []
  push_one ((j, vs) ∷ m) k v = if same j k then (j, vs ++ v ∷ []) ∷ m else (j, vs) ∷ push_one m k v

  -- the same for each value that has a key
  abbrev pub push_at : (V → Option K) → List V → Keyed K (List V) → Keyed K (List V)
  push_at key [] m = m
  push_at key (v ∷ vs) m = elim (key v) [
    | none ↦ push_at key vs m
    | some k ↦ push_at key vs (push_one m k v)
  ]

  -- the values under a key, as `get` finds them
  abbrev pub values_at : Keyed K (List V) → K → List V
  values_at [] k = []
  values_at ((j, vs) ∷ m) k = if same j k then vs else values_at m k

-- whether the key of a value is this one
abbrev pub at_key : {K : Type 0} → (K → K → Bool) → Option K → K → Bool
at_key same none k = false
at_key same (some j) k = same j k

-- a list of values stands under a key, and this one is in it
unfoldable pub Holds {ℓ} : {K : Type 0} {V : Type ℓ} → K → V → Keyed K (List V) → Type ℓ
Holds {V} k v m = (vs : List V) × Memᴰ (k, vs) m × Memᴰ v vs

mem-snoc {ℓ} : {A : Type ℓ} (a x : A) (xs : List A) → Memᴰ a (xs ++ x ∷ []) ↔ (Memᴰ a xs ⊎ (a ≡ x))
mem-snoc a x xs = (
  λ m.
      ⊎_elim inl (λ n. inr (⊎_elim (λ e. e) (λ z. absurd (Memᴰ.not-nil z)) (Memᴰ.cases_cons n)))
        (Memᴰ.append_cases xs m),
  ⊎_elim (Memᴰ.append_left _) (λ e. Memᴰ.append_right xs (Memᴰ.head e)),
)

mem-one {ℓ} : {A : Type ℓ} (a x : A) → Memᴰ a (x ∷ []) ↔ (a ≡ x)
mem-one a x = (λ n. ⊎_elim (λ e. e) (λ z. absurd (Memᴰ.not-nil z)) (Memᴰ.cases_cons n), Memᴰ.head)

pub not-Holds-nil {ℓ} : {K : Type 0} {V : Type ℓ} (k : K) (w : V) → ¬ Holds k w []
unfolding Holds
not-Holds-nil k w (vs, m, _) = Memᴰ.not-nil m

any-append {ℓ} :
    {A : Type ℓ} (p : A → Bool) (xs ys : List A) → any p (xs ++ ys) ≡ (any p xs || any p ys)
any-append p [] ys = refl
any-append p (x ∷ xs) ys = ground (arith, any-append p xs ys)

module _ {K : Type 0} (same : K → K → Bool)
    (same_iff : (a b : K) → (same a b ≡ true) ↔ (a ≡ b)) where
  apart : (i j k : K) → same i j ≡ false → same i k ≡ true → same j k ≡ false
  apart i j k e h = elim (Bool-cases (same j k)) [
    | inl f ↦
        absurd
          (false≢true (sym e ∙ (same_iff i j).1 ((same_iff i k).0 h ∙ sym ((same_iff j k).0 f))))
    | inr f ↦ f
  ]

module _ {ℓ} {K : Type 0} {V : Type ℓ} (same : K → K → Bool) where
  pub values_at-lookup :
      (m : Keyed K (List V)) (k : K)
      → ((lookup same m k ≡ none) × (values_at same m k ≡ []))
        ⊎ (lookup same m k ≡ some (values_at same m k))
  values_at-lookup [] k = inl (refl, refl)
  values_at-lookup ((j, vs) ∷ m) k = elim (Bool-cases (same j k)) [
    | inl e ↦ inr (rw (e) refl)
    | inr e ↦ rw (e) (values_at-lookup m k)
  ]

module _ {ℓ} {K : Type 0} {V : Type ℓ} (same : K → K → Bool)
    (same_iff : (a b : K) → (same a b ≡ true) ↔ (a ≡ b)) where
  any-push_one :
      (p : V → Bool) (m : Keyed K (List V)) (j k : K) (v : V)
      → any p (values_at same (push_one same m j v) k)
        ≡ (any p (values_at same m k) || (same j k && p v))
  any-push_one p [] j k v = ground arith
  any-push_one p ((i, vs) ∷ m) j k v = elim (Bool-cases (same i j)) [
    | inl e ↦
        ground (arith, ap (λ (x : K). same x k) ((same_iff i j).0 e), any-append p vs (v ∷ []))
    | inr e ↦ rw (e, push_one) (ground (arith, any-push_one p m j k v, apart same same_iff i j k e))
  ]

  pub any-push_at :
      (p : V → Bool) (key : V → Option K) (vs : List V) (m : Keyed K (List V)) (k : K)
      → any p (values_at same (push_at same key vs m) k)
        ≡ (any p (values_at same m k) || any (λ v. at_key same (key v) k && p v) vs)
  any-push_at p key [] m k = ground arith
  any-push_at p key (v ∷ vs) m k = elim (Option-cases (key v)) [
    | inl e ↦ rw (e, push_at) (any-push_at p key vs m k)
    | inr (j, e) ↦
        rw (e, push_at)
          (ground (arith, any-push_at p key vs (push_one same m j v) k, any-push_one p m j k v))
  ]

  Holds-cons :
      (m : Keyed K (List V)) (j k : K) (w : V) (vs : List V)
      → Holds k w ((j, vs) ∷ m) ↔ (((k ≡ j) × Memᴰ w vs) ⊎ Holds k w m)
  unfolding Holds
  Holds-cons m j k w vs = (
    λ (us, h, r).
        ⊎_elim
          (λ e.
            inl (ap (λ (x : K × List V). x.0) e, subst (Memᴰ w) (ap (λ (x : K × List V). x.1) e) r))
          (λ t. inr (us, t, r)) (Memᴰ.cases_cons h),
    ⊎_elim (λ (e, r). (vs, Memᴰ.head (ap (λ (x : K). (x, vs)) e), r))
        (λ (us, t, r). (us, Memᴰ.tail t, r)),
  )

  Holds-push_one :
      (m : Keyed K (List V)) (j k : K) (w v : V)
      → Holds k w (push_one same m j v) ↔ (Holds k w m ⊎ ((k ≡ j) × (w ≡ v)))
  Holds-push_one [] j k w v =
      ground (arith, Holds-cons [] j k w (v ∷ []), mem-one w v, not-Holds-nil k w)
  Holds-push_one ((i, vs) ∷ m) j k w v = elim (Bool-cases (same i j)) [
    | inl e ↦
        rw (e, push_one)
          (ground (
            arith,
            (same_iff i j).0 e,
            ap (λ (x : K). k ≡ x) ((same_iff i j).0 e),
            Holds-cons m i k w (vs ++ v ∷ []),
            Holds-cons m i k w vs,
            mem-snoc w v vs,
          ))
    | inr e ↦
        rw (e, push_one)
          (ground (
            arith,
            Holds-cons (push_one same m j v) i k w vs,
            Holds-cons m i k w vs,
            Holds-push_one m j k w v,
          ))
  ]

  key_here :
      (key : V → Option K) (v w : V) (j k : K)
      → key v ≡ some j
      → ((k ≡ j) × (w ≡ v)) ↔ ((w ≡ v) × (key w ≡ some k))
  key_here key v w j k e = (
    λ (a, b). (b, ap key b ∙ e ∙ ap some (sym a)),
    λ (b, f). (some-injective _ _ (sym f ∙ ap key b ∙ e), b),
  )

  key_none : (key : V → Option K) (v w : V) (k : K) → key v ≡ none → w ≡ v → ¬ (key w ≡ some k)
  key_none key v w k e b f = cc

  pub Holds-push_at :
      (key : V → Option K) (vs : List V) (m : Keyed K (List V)) (k : K) (w : V)
      → Holds k w (push_at same key vs m) ↔ (Holds k w m ⊎ (Memᴰ w vs × (key w ≡ some k)))
  Holds-push_at key [] m k w = (inl, ⊎_elim (λ h. h) (λ (h, _). absurd (Memᴰ.not-nil h)))
  Holds-push_at key (v ∷ vs) m k w = elim (Option-cases (key v)) [
    | inl e ↦
        rw (e, push_at)
          (ground (arith, Holds-push_at key vs m k w, Memᴰ-cons w v vs, key_none key v w k e))
    | inr (j, e) ↦
        rw (e, push_at)
          (ground (
            arith,
            Holds-push_at key vs (push_one same m j v) k w,
            Memᴰ-cons w v vs,
            key_here key v w j k e,
            Holds-push_one m j k w v,
          ))
  ]
