-- ===== src/Graph/Walk/Correct.antt =====
-- What the search finds, and the fuel that it needs.
use mathlib.Core.Bool.{false≢true}
use mathlib.Core.List.Memᴰ
use scout_audit.Base.{
  ℕ, zero, suc, ◌+◌, ◌*◌, ◌≤◌, ◌<◌, ◌≡◌, refl, sym, ◌∙◌, subst, Bool, true, false, List, [], ◌∷◌,
  ◌↔◌, ◌⊎◌, inl, inr, ⊎_elim, Memᴰ, Memᴰ-cons, get_or, set, length, length-set, length-replicate,
  ap, arith, Bool-cases, replicate,
}
use scout_audit.Graph.Walk.{walk, push_all, Outcome, found, finished}

-- the walks along `next` from `src`
pub data Reach (next : ℕ → List ℕ) (src : ℕ) : ℕ → Type 0 where
  here : Reach next src src
  step : {u v : ℕ} → Reach next src u → Memᴰ v (next u) → Reach next src v

-- the flags that are still false
abbrev pub unseen : List Bool → ℕ
unseen [] = 0
unseen (false ∷ bs) = suc (unseen bs)
unseen (true ∷ bs) = unseen bs

abbrev pub IsMarked : List Bool → ℕ → Type 0
IsMarked visited v = get_or visited v false ≡ true

pub unseen-replicate : (n : ℕ) → unseen (replicate n false) ≡ n
unseen-replicate zero = refl
unseen-replicate (suc n) = omega (arith, unseen-replicate n)

pub not-IsMarked-replicate : (n v : ℕ) → get_or (replicate n false) v false ≡ false
not-IsMarked-replicate zero v = refl
not-IsMarked-replicate (suc n) zero = refl
not-IsMarked-replicate (suc n) (suc v) = not-IsMarked-replicate n v

pub unseen-set :
    (flags : List Bool) (k : ℕ)
    → get_or flags k false ≡ false
    → k < length flags
    → unseen flags ≡ suc (unseen (set flags k true))
unseen-set [] k clear h = absurd (omega arith)
unseen-set (true ∷ flags) zero clear h = cc
unseen-set (true ∷ flags) (suc k) clear h = unseen-set flags k clear (omega arith)
unseen-set (false ∷ flags) zero clear h = refl
unseen-set (false ∷ flags) (suc k) clear h = omega (arith, unseen-set flags k clear (omega arith))

pub IsMarked-set :
    (bs : List Bool) (i v : ℕ)
    → i < length bs
    → IsMarked (set bs i true) v ↔ (IsMarked bs v ⊎ (v ≡ i))
IsMarked-set [] i v h = absurd (omega arith)
IsMarked-set (b ∷ bs) zero zero h = (λ _. inr refl, λ _. refl)
IsMarked-set (b ∷ bs) zero (suc v) h = (inl, ⊎_elim (λ p. p) (λ e. absurd (omega arith)))
IsMarked-set (b ∷ bs) (suc i) zero h = (inl, ⊎_elim (λ p. p) (λ e. absurd (omega arith)))
IsMarked-set (b ∷ bs) (suc i) (suc v) h = ground (arith, IsMarked-set bs i v)

pub length-push_all :
    (deps stack : List ℕ) → length (push_all deps stack) ≡ length deps + length stack
unfolding push_all
length-push_all [] stack = omega arith
length-push_all (d ∷ deps) stack = omega (arith, length-push_all deps (d ∷ stack))

pub mem-push_all :
    (deps stack : List ℕ) (v : ℕ) → Memᴰ v (push_all deps stack) ↔ (Memᴰ v deps ⊎ Memᴰ v stack)
unfolding push_all
mem-push_all [] stack v = (inr, ⊎_elim (λ m. absurd (Memᴰ.not-nil m)) (λ m. m))
mem-push_all (d ∷ deps) stack v =
    ground (arith, mem-push_all deps (d ∷ stack) v, Memᴰ-cons v d deps, Memᴰ-cons v d stack)

-- An expansion clears one flag, and that pays for the at most n numbers that it pushes.
shrinks :
    {a b n k p f : ℕ} (s : ℕ)
    → suc a ≡ b
    → p ≡ k + s
    → k ≤ n
    → b * n + suc s ≤ suc f
    → a * n + p ≤ f
shrinks {n} s e l few le = omega (arith, ap (λ (t : ℕ). t * n) e)

-- every successor is one of the n numbers, and there are at most n
pub record IsBounded (next : ℕ → List ℕ) (n : ℕ) : Type 0 where
  pub below : (u v : ℕ) → Memᴰ v (next u) → v < n
  pub few : (u : ℕ) → length (next u) ≤ n

-- The answer of a search from `src`: a stop that it met, or the flags of what can be reached.
module _ (next : ℕ → List ℕ) (stop : ℕ → Bool) (n : ℕ) (src : ℕ) where
  pub record Complete (visited : List Bool) : Type 0 where
    pub size : length visited ≡ n
    pub exact : (v : ℕ) → IsMarked visited v ↔ Reach next src v
    pub no_stop : (v : ℕ) → Reach next src v → stop v ≡ false

  pub data Answer : Outcome → Type 0 where
    met : (t : ℕ) → Reach next src t → stop t ≡ true → Answer found
    all : (visited : List Bool) → Complete visited → Answer (finished visited)

  record Inv (visited : List Bool) (stack : List ℕ) : Type 0 where
    size : length visited ≡ n
    source : IsMarked visited src ⊎ Memᴰ src stack
    queued : (v : ℕ) → Memᴰ v stack → Reach next src v × (v < n)
    sound : (v : ℕ) → IsMarked visited v → Reach next src v
    closed : (u v : ℕ) → IsMarked visited u → Memᴰ v (next u) → Memᴰ v stack ⊎ IsMarked visited v
    passed : (v : ℕ) → IsMarked visited v → stop v ≡ false

  complete :
      (visited : List Bool) → Inv visited [] → {v : ℕ} → Reach next src v → IsMarked visited v
  complete visited h here = ⊎_elim (λ m. m) (λ q. absurd (Memᴰ.not-nil q)) h.source
  complete visited h (step {u} {v} p edge) =
      ⊎_elim (λ q. absurd (Memᴰ.not-nil q)) (λ m. m) (h.closed u v (complete visited h p) edge)

  finish : (visited : List Bool) → Inv visited [] → Answer (finished visited)
  finish visited h = all visited (record {
    size = h.size;
    exact = λ v. (h.sound v, complete visited h);
    no_stop = λ v r. h.passed v (complete visited h r);
  })

  skip :
      (visited : List Bool) (top : ℕ) (stack : List ℕ)
      → IsMarked visited top
      → Inv visited (top ∷ stack)
      → Inv visited stack
  skip visited top stack m h = record {
    size = h.size;
    source = ground (arith, h.source, Memᴰ-cons src top stack);
    queued = λ v q. h.queued v (Memᴰ.tail q);
    sound = h.sound;
    closed = λ u v mu edge. ground (arith, h.closed u v, Memᴰ-cons v top stack);
    passed = h.passed;
  }

  expand :
      IsBounded next n
      → (visited : List Bool) (top : ℕ) (stack : List ℕ) → stop top ≡ false
      → Inv visited (top ∷ stack)
      → Inv (set visited top true) (push_all (next top) stack)
  expand b visited top stack e h =
      let (to_top, top_lt) = h.queued top (Memᴰ.head refl) in
      let flags = λ (v : ℕ). IsMarked-set visited top v (omega (arith, h.size)) in
      let queue = λ (v : ℕ). mem-push_all (next top) stack v in
      record {
        size = length-set visited top true ∙ h.size;
        source = ground (arith, h.source, flags src, queue src, Memᴰ-cons src top stack);
        queued = λ v q.
            ⊎_elim (λ m. (step to_top m, b.below top v m)) (λ m. h.queued v (Memᴰ.tail m))
              ((queue v).0 q);
        sound =
            λ v m. ⊎_elim (h.sound v) (λ e. subst (Reach next src) (sym e) to_top) ((flags v).0 m);
        closed = λ u v m edge.
            ⊎_elim
              (λ old.
                ground (arith, h.closed u v old edge, flags v, queue v, Memᴰ-cons v top stack))
              (λ new. inl ((queue v).1 (inl (subst (λ w. Memᴰ v (next w)) new edge))))
              ((flags u).0 m);
        passed = λ v m. ⊎_elim (h.passed v) (λ eq. rw eq e) ((flags v).0 m);
      }

  walk_answers :
      IsBounded next n
      → (fuel : ℕ) (visited : List Bool) (stack : List ℕ) → Inv visited stack
      → unseen visited * n + length stack ≤ fuel
      → Answer (walk next stop fuel visited stack)
  unfolding walk
  walk_answers b zero visited [] h le = finish visited h
  walk_answers b zero visited (top ∷ stack) h le = absurd (omega arith)
  walk_answers b (suc fuel) visited [] h le = finish visited h
  walk_answers b (suc fuel) visited (top ∷ stack) h le = elim (Bool-cases (stop top)) [
    | inl e ↦ rw (e, walk) (met top (h.queued top (Memᴰ.head refl)).0 e)
    | inr e ↦ elim (Bool-cases (get_or visited top false)) [
      | inl m ↦
          rw (e, walk, m)
            (walk_answers b fuel visited stack (skip visited top stack m h) (omega arith))
      | inr m ↦
          rw (e, walk, m)
            (walk_answers b fuel (set visited top true) (push_all (next top) stack)
              (expand b visited top stack e h)
              (shrinks (length stack)
                (sym (
                  unseen-set visited top m
                    (omega (arith, h.size, (h.queued top (Memᴰ.head refl)).1))))
                (length-push_all (next top) stack) (b.few top) le))
    ]
  ]

  -- With n rounds for each of the n numbers the search ends, and its answer is right.
  pub walk_correct :
      IsBounded next n
      → src < n
      → Answer (walk next stop (n * n + 1) (replicate n false) (src ∷ []))
  walk_correct b h =
      walk_answers b (n * n + 1) (replicate n false) (src ∷ [])
        (record {
          size = length-replicate n false;
          source = inr (Memᴰ.head refl);
          queued = λ v q.
              let e = Memᴰ.eq_of_singleton q in
              (subst (Reach next src) (sym e) here, omega (arith, e));
          sound = λ v m. absurd (false≢true (sym (not-IsMarked-replicate n v) ∙ m));
          closed = λ u v m edge. absurd (false≢true (sym (not-IsMarked-replicate n u) ∙ m));
          passed = λ v m. absurd (false≢true (sym (not-IsMarked-replicate n v) ∙ m));
        })
        (rw unseen-replicate (omega arith))
