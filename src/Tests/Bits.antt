-- ===== src/Tests/Bits.antt =====
-- The bit sets of the examples: lists of numbers.
use mathlib.Core.Bool.{false≢true}
use scout_audit.Base.{
  ℕ, ◌≡◌, refl, sym, ◌∙◌, ap, ◌↔◌, inl, inr, Bool, true, false, not, ◌&&◌, ◌||◌, List, [], ◌∷◌,
  ◌++◌, Memᴰ, any, filter, nat_eq, nat_eq_iff, arith, Bool-cases, any_of_mem, mem_of_any, subst,
}
use scout_audit.AuthFlow.Mir.{BitSet}

-- sets of numbers as lists
abbrev pub in_list : List ℕ → ℕ → Bool
in_list s p = any (λ q. nat_eq q p) s

pub in_list-remove :
    (s : List ℕ) (q p : ℕ)
    → in_list (filter (λ x. not (nat_eq x q)) s) p ≡ (in_list s p && not (nat_eq q p))
in_list-remove [] q p = ground arith
in_list-remove (x ∷ s) q p = ground (arith, in_list-remove s q p)

pub in_list-append : (s t : List ℕ) (p : ℕ) → in_list (s ++ t) p ≡ (in_list s p || in_list t p)
in_list-append [] t p = refl
in_list-append (x ∷ s) t p = ground (arith, in_list-append s t p)

abbrev pub grows : List ℕ → List ℕ → Bool
grows s t = any (λ p. not (in_list s p)) t

pub mem-in_list : (s : List ℕ) (p : ℕ) → Memᴰ p s ↔ (in_list s p ≡ true)
mem-in_list s p = (
  λ m. any_of_mem (λ q. nat_eq q p) p s m ((nat_eq_iff p p).1 refl),
  λ h.
      let (q, m, e) = mem_of_any (λ q. nat_eq q p) s h in
      subst (λ x. Memᴰ x s) ((nat_eq_iff q p).0 e) m,
)

pub grows_iff :
    (s t : List ℕ) → (grows s t ≡ false) ↔ ((p : ℕ) → in_list t p ≡ true → in_list s p ≡ true)
grows_iff s t = (
  λ h p e. elim (Bool-cases (in_list s p)) [
    | inl q ↦ q
    | inr q ↦ absurd (
        false≢true
          (sym h ∙ any_of_mem (λ x. not (in_list s x)) p t ((mem-in_list t p).1 e) (ap not q)))
  ],
  λ h. elim (Bool-cases (any (λ x. not (in_list s x)) t)) [
    | inr q ↦ q
    | inl q ↦
        let (p, m, e) = mem_of_any (λ x. not (in_list s x)) t q in
        let k = h p ((mem-in_list t p).0 m) in absurd (ground arith)
  ],
)

abbrev pub equal : List ℕ → List ℕ → Bool
equal s t = not (grows s t) && not (grows t s)

pub equal_iff : (s t : List ℕ) → (equal s t ≡ true) ↔ ((p : ℕ) → in_list s p ≡ in_list t p)
equal_iff s t = (
  λ h p. ground (arith, (grows_iff s t).0 (ground arith) p, (grows_iff t s).0 (ground arith) p),
  λ h.
      let a = (grows_iff s t).1 (λ p e. h p ∙ e) in
      let b = (grows_iff t s).1 (λ p e. sym (h p) ∙ e) in ground arith,
)

abbrev pub bits : BitSet
bits = record {
  Set = List ℕ;
  new_empty = λ n. [];
  insert = λ s q. q ∷ s;
  remove = λ s q. filter (λ x. not (nat_eq x q)) s;
  contains = in_list;
  union = λ s t. (s ++ t, grows s t);
  iter = λ s. s;
  same = equal;
  contains-new_empty = λ n p. refl;
  contains-insert = λ s q p. refl;
  contains-remove = in_list-remove;
  contains-union = in_list-append;
  union-changed = grows_iff;
  same_iff = equal_iff;
  mem-iter = mem-in_list;
}
