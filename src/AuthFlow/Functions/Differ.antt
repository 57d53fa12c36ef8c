-- ===== src/AuthFlow/Functions/Differ.antt =====
-- Summaries that are not the same, and what more one of them promises.
use mathlib.Core.Bool.{false≢true}
use scout_audit.Base.{
  ℕ, zero, suc, ◌+◌, ◌<◌, ◌≡◌, sym, ◌∙◌, ◌⊎◌, inl, inr, ⊎_elim, true, false, List, [], ◌∷◌, nat_eq,
  nat_eq_iff, Bool-cases, arith, length, subst,
}
use scout_audit.AuthFlow.Mir.{BitSet}
use scout_audit.AuthFlow.Domain.{FnSummary, Signer, param, current_admin, promised, ParamInfo}
use scout_audit.AuthFlow.Analysis.Effects.{starts, address_at}
use scout_audit.AuthFlow.Functions.{same_summary}
use scout_audit.AuthFlow.Functions.Slots.{IsInRange}

address_at-in_range :
    (i : ℕ) (params : List ParamInfo) (p : ℕ) → address_at i params p ≡ true → p < i + length params
address_at-in_range i [] p h = absurd (false≢true h)
address_at-in_range i (x ∷ params) p h = elim (Bool-cases (nat_eq i p)) [
  | inl e ↦ let k = (nat_eq_iff i p).0 e in omega arith
  | inr e ↦ let k = address_at-in_range (suc i) params p (ground arith) in omega (arith, k)
]

pub starts-IsInRange :
    (params : List ParamInfo) (w : Signer) → starts params w ≡ true → IsInRange (length params) w
starts-IsInRange params (param p) h = omega (arith, address_at-in_range 0 params p h)
starts-IsInRange params current_admin h = omega arith

module _ (B : BitSet) (old new : FnSummary B)
    (more : (w : Signer) → promised B w old ≡ true → promised B w new ≡ true) where
  -- a signer that only the second promises
  unfoldable pub IsNew : Signer → Type 0
  IsNew w = (promised B w old ≡ false) × (promised B w new ≡ true)

  IsNew-or_same :
      (p : ℕ)
      → IsNew (param p) ⊎ (B.contains old.must_auth_params p ≡ B.contains new.must_auth_params p)
  unfolding IsNew
  IsNew-or_same p = elim (Bool-cases (B.contains old.must_auth_params p)) [
    | inl e ↦ inr (e ∙ sym (more (param p) e))
    | inr e ↦ elim (Bool-cases (B.contains new.must_auth_params p)) [
      | inl f ↦ inl (e, f)
      | inr f ↦ inr (e ∙ sym f)
    ]
  ]

  first-IsNew :
      (n : ℕ)
      → ((p : ℕ) × (p < n) × IsNew (param p))
        ⊎ ((p : ℕ) → p < n → B.contains old.must_auth_params p ≡ B.contains new.must_auth_params p)
  first-IsNew zero = inr (λ p lt. absurd (omega arith))
  first-IsNew (suc n) =
      ⊎_elim (λ (p, lt, q). inl (p, omega arith, q))
        (λ below.
          ⊎_elim (λ q. inl (n, omega arith, q))
            (λ at. inr λ p lt. elim (Bool-cases (nat_eq p n)) [
              | inl e ↦
                  subst (λ x. B.contains old.must_auth_params x ≡ B.contains new.must_auth_params x)
                    (sym ((nat_eq_iff p n).0 e)) at
              | inr e ↦ below p (ground arith)
            ])
            (IsNew-or_same n))
        (first-IsNew n)

  -- parameters that are out of range are promised by neither
  everywhere :
      (n : ℕ)
      → ((w : Signer) → promised B w new ≡ true → IsInRange n w)
      → ((p : ℕ) → p < n → B.contains old.must_auth_params p ≡ B.contains new.must_auth_params p)
      → (p : ℕ) → B.contains old.must_auth_params p ≡ B.contains new.must_auth_params p
  unfolding IsNew
  everywhere n range below p =
      ⊎_elim (λ (_, q). below p (range (param p) q)) (λ e. e) (IsNew-or_same p)

  flag_differs :
      B.same old.must_auth_params new.must_auth_params ≡ true
      → same_summary B old new ≡ false
      → (old.must_auth_current_admin ≡ false) × (new.must_auth_current_admin ≡ true)
  flag_differs s h = ground (arith, more current_admin)

  pub differ :
      (n : ℕ)
      → ((w : Signer) → promised B w new ≡ true → IsInRange n w)
      → same_summary B old new ≡ false
      → (w : Signer) × IsInRange n w × IsNew w
  unfolding IsNew
  differ n range h =
      ⊎_elim (λ (p, lt, q). (param p, lt, q))
        (λ below.
          let s =
            (B.same_iff old.must_auth_params new.must_auth_params).1 (everywhere n range below) in
          (current_admin, omega arith, flag_differs s h))
        (first-IsNew n)
