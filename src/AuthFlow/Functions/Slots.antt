-- ===== src/AuthFlow/Functions/Slots.antt =====
-- How many signatures are not promised yet.
use mathlib.Core.List.Memᴰ
use scout_audit.Base.{
  ℕ, zero, suc, ◌+◌, ◌≤◌, ◌<◌, ◌≡◌, refl, sym, ◌∙◌, ap, inl, inr, true, false, none, some, List, [],
  ◌∷◌, ◌++◌, Memᴰ, nat_eq, nat_eq_iff, Option-cases, Bool-cases, arith, length, subst,
  if◌then◌else◌,
}
use scout_audit.AuthFlow.Mir.{BitSet}
use scout_audit.AuthFlow.Domain.{FnSummary, Signer, param, current_admin, ParamInfo}
use scout_audit.AuthFlow.Places.Tables.{Keyed, lookup}
use scout_audit.AuthFlow.Summary.Monotone.{promised_in, Grows}

-- A function and a signer.
abbrev pub Slot : Type 0
Slot = ℕ × Signer

unfoldable pub param_slots : ℕ → ℕ → ℕ → List Slot
param_slots def_id i zero = []
param_slots def_id i (suc n) = (def_id, param i) ∷ param_slots def_id (suc i) n

-- the signers of the functions whose parameters are known
unfoldable pub slots : Keyed ℕ (List ParamInfo) → List ℕ → List Slot
unfolding param_slots
slots params [] = []
slots params (def_id ∷ reachable) = elim (lookup nat_eq params def_id) [
  | none ↦ slots params reachable
  | some ps ↦ (def_id, current_admin) ∷ param_slots def_id 0 (length ps) ++ slots params reachable
]

module _ (B : BitSet) where
  unfoldable pub missing : Keyed ℕ (FnSummary B) → List Slot → ℕ
  missing summaries [] = 0
  missing summaries ((def_id, w) ∷ rest) =
      if promised_in B summaries def_id w
      then missing summaries rest
      else suc (missing summaries rest)

  pub missing-Grows :
      (old new : Keyed ℕ (FnSummary B)) (all : List Slot)
      → Grows B old new
      → missing new all ≤ missing old all
  unfolding missing Grows
  missing-Grows old new [] g = omega arith
  missing-Grows old new ((d, w) ∷ rest) g = ground (arith, missing-Grows old new rest g, g d w)

  -- a promise that is new makes the number fall
  pub missing-new :
      (old new : Keyed ℕ (FnSummary B)) (all : List Slot) (slot : Slot)
      → Grows B old new
      → Memᴰ slot all
      → promised_in B old slot.0 slot.1 ≡ false
      → promised_in B new slot.0 slot.1 ≡ true
      → missing new all < missing old all
  unfolding missing Grows
  missing-new old new [] slot g m a b = absurd (Memᴰ.not-nil m)
  missing-new old new ((d, w) ∷ rest) slot g (Memᴰ.head e) a b =
      let a' = ap (λ (x : Slot). promised_in B old x.0 x.1) (sym e) ∙ a in
      let b' = ap (λ (x : Slot). promised_in B new x.0 x.1) (sym e) ∙ b in
      ground (arith, missing-Grows old new rest g)
  missing-new old new ((d, w) ∷ rest) slot g (Memᴰ.tail m) a b =
      ground (arith, missing-new old new rest slot g m a b, g d w)

mem-param_slots :
    (def_id i n p : ℕ) → i ≤ p → p < i + n → Memᴰ (def_id, param p) (param_slots def_id i n)
unfolding param_slots
mem-param_slots def_id i zero p le lt = absurd (omega arith)
mem-param_slots def_id i (suc n) p le lt = elim (Bool-cases (nat_eq p i)) [
  | inl e ↦ Memᴰ.head (ap (λ (x : ℕ). (def_id, param x)) ((nat_eq_iff p i).0 e))
  | inr e ↦ Memᴰ.tail (mem-param_slots def_id (suc i) n p (ground arith) (omega arith))
]

-- a signer that may be promised
abbrev pub IsInRange : ℕ → Signer → Type 0
IsInRange n (param p) = p < n
IsInRange n current_admin = 0 ≤ n

own_slots :
    (def_id n : ℕ) (w : Signer) (rest : List Slot)
    → IsInRange n w
    → Memᴰ (def_id, w) ((def_id, current_admin) ∷ param_slots def_id 0 n ++ rest)
own_slots def_id n current_admin rest lt = Memᴰ.head refl
own_slots def_id n (param p) rest lt =
    Memᴰ.tail (Memᴰ.append_left rest (mem-param_slots def_id 0 n p (omega arith) (omega arith)))

pub mem-slots :
    (params : Keyed ℕ (List ParamInfo)) (reachable : List ℕ) (def_id : ℕ) (w : Signer)
    (ps : List ParamInfo)
    → Memᴰ def_id reachable
    → lookup nat_eq params def_id ≡ some ps
    → IsInRange (length ps) w
    → Memᴰ (def_id, w) (slots params reachable)
unfolding slots
mem-slots params [] def_id w ps m e lt = absurd (Memᴰ.not-nil m)
mem-slots params (d ∷ reachable) def_id w ps (Memᴰ.head q) e lt =
    let e' = ap (lookup nat_eq params) (sym q) ∙ e in
    rw (e', slots)
      (subst
        (λ x.
          Memᴰ (x, w) ((d, current_admin) ∷ param_slots d 0 (length ps) ++ slots params reachable))
        (sym q) (own_slots d (length ps) w (slots params reachable) lt))
mem-slots params (d ∷ reachable) def_id w ps (Memᴰ.tail m) e lt =
    let there = mem-slots params reachable def_id w ps m e lt in
    elim (Option-cases (lookup nat_eq params d)) [
      | inl f ↦ rw (f, slots) there
      | inr (qs, f) ↦
          rw (f, slots) (Memᴰ.tail (Memᴰ.append_right (param_slots d 0 (length qs)) there))
    ]
