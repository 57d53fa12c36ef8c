-- ===== src/AuthFlow/Entries/Reached.antt =====
-- The loop over the stack against the functions that are reached by calls.
use mathlib.Core.List.Memᴰ
use scout_audit.Base.{
  ℕ, zero, suc, ◌+◌, ◌≤◌, ◌<◌, ◌≡◌, refl, sym, ◌∙◌, ap, subst, ◌↔◌, ◌⊎◌, inl, inr, ⊎_elim, true,
  false, not, Option, some, List, [], ◌∷◌, Memᴰ, nat_eq, nat_eq_iff, any_of_mem, mem_of_any, filter,
  mem-filter, length-filter, Bool-cases, length, arith, if◌then◌else◌,
}
use scout_audit.Graph.Walk.{push_all}
use scout_audit.Graph.Walk.Correct.{Reach, here, step, length-push_all, mem-push_all}
use scout_audit.AuthFlow.Places.Tables.{Keyed}
use scout_audit.AuthFlow.Functions.{MissingNewAdminAuth, get_vec_slice}
use scout_audit.AuthFlow.Entries.{has, reach_loop}

has_iff : (set : List ℕ) (n : ℕ) → (has set n ≡ true) ↔ Memᴰ n set
has_iff set n = (
  λ h.
      let (m, k, e) = mem_of_any (λ x. nat_eq x n) set h in
      subst (λ x. Memᴰ x set) ((nat_eq_iff m n).0 e) k,
  λ k. any_of_mem (λ x. nat_eq x n) n set k ((nat_eq_iff n n).1 refl),
)

-- the calls of the functions that are not in the set yet
unfoldable pub pending : Keyed ℕ (List ℕ) → List ℕ → ℕ
pending [] set = 0
pending ((f, callees) ∷ graph) set =
    if has set f then pending graph set else length callees + pending graph set

pending-more :
    (graph : Keyed ℕ (List ℕ)) (set : List ℕ) (f : ℕ) → pending graph (f ∷ set) ≤ pending graph set
unfolding pending
pending-more [] set f = omega arith
pending-more ((g, callees) ∷ graph) set f = ground (arith, pending-more graph set f)

slice-here :
    (g : ℕ) (callees : List ℕ) (graph : Keyed ℕ (List ℕ)) (f : ℕ)
    → nat_eq g f ≡ true
    → get_vec_slice ((g, callees) ∷ graph) f ≡ callees
unfolding get_vec_slice
slice-here g callees graph f e = rw (e, get_vec_slice) refl

slice-later :
    (g : ℕ) (callees : List ℕ) (graph : Keyed ℕ (List ℕ)) (f : ℕ)
    → nat_eq g f ≡ false
    → get_vec_slice ((g, callees) ∷ graph) f ≡ get_vec_slice graph f
unfolding get_vec_slice
slice-later g callees graph f e = rw (e, get_vec_slice) refl

-- the calls of one function pay for what it pushes
pending-expanded :
    (graph : Keyed ℕ (List ℕ)) (set : List ℕ) (f : ℕ)
    → has set f ≡ false
    → length (get_vec_slice graph f) + pending graph (f ∷ set) ≤ pending graph set
unfolding pending get_vec_slice
pending-expanded [] set f h = omega arith
pending-expanded ((g, callees) ∷ graph) set f h = elim (Bool-cases (nat_eq g f)) [
  | inl e ↦
      let same = (nat_eq_iff g f).0 e in
      let a = ap length (slice-here g callees graph f e) in
      let b = ap (has set) same ∙ h in
      let c = (nat_eq_iff f g).1 (sym same) in ground (arith, pending-more graph set f)
  | inr e ↦
      let a = ap length (slice-later g callees graph f e) in
      ground (arith, pending-expanded graph set f h)
]

-- the calls of a function
abbrev pub callees_of : MissingNewAdminAuth → ℕ → List ℕ
callees_of self = get_vec_slice self.function_call_graph

module _ (self : MissingNewAdminAuth) (entry : ℕ) where
  -- what holds of the stack and the set while the loop runs
  record IsSearching (stack reachable : List ℕ) : Type 0 where
    pub on_stack : (v : ℕ) → Memᴰ v stack → Reach (callees_of self) entry v
    pub in_set : (v : ℕ) → Memᴰ v reachable → Reach (callees_of self) entry v
    pub closed :
        (u v : ℕ) → Memᴰ u reachable → Memᴰ v (callees_of self u) → Memᴰ v reachable ⊎ Memᴰ v stack
    pub started : Memᴰ entry reachable ⊎ Memᴰ entry stack

  -- The set that the loop returns.
  abbrev pub Collects : Option (List ℕ) → Type 0
  Collects result =
      (reachable : List ℕ) × (result ≡ some reachable)
      × ((v : ℕ) → Memᴰ v reachable ↔ Reach (callees_of self) entry v)

  all_reached :
      (reachable : List ℕ) (v : ℕ)
      → IsSearching [] reachable
      → Reach (callees_of self) entry v
      → Memᴰ v reachable
  all_reached reachable v i here = ⊎_elim (λ m. m) (λ m. absurd (Memᴰ.not-nil m)) i.started
  all_reached reachable v i (step {u} r m) =
      ⊎_elim (λ n. n) (λ n. absurd (Memᴰ.not-nil n)) (i.closed u v (all_reached reachable u i r) m)

  abbrev unseen_callees : ℕ → List ℕ → List ℕ
  unseen_callees current reachable =
      filter (λ callee. not (has (current ∷ reachable) callee)) (callees_of self current)

  skip :
      (current : ℕ) (stack reachable : List ℕ)
      → has reachable current ≡ true
      → IsSearching (current ∷ stack) reachable
      → IsSearching stack reachable
  skip current stack reachable h i = record {
    on_stack = λ v m. i.on_stack v (Memᴰ.tail m);
    in_set = i.in_set;
    closed = λ u v m n. ⊎_elim inl (λ k. popped v k) (i.closed u v m n);
    started = ⊎_elim inl (λ k. popped entry k) i.started;
  }
    where
      popped : (v : ℕ) → Memᴰ v (current ∷ stack) → Memᴰ v reachable ⊎ Memᴰ v stack
      popped v m =
          ⊎_elim
            (λ e. inl (subst (λ x. Memᴰ x reachable) (sym e) ((has_iff reachable current).0 h))) inr
            (Memᴰ.cases_cons m)

  expand :
      (current : ℕ) (stack reachable : List ℕ)
      → IsSearching (current ∷ stack) reachable
      → IsSearching (push_all (unseen_callees current reachable) stack) (current ∷ reachable)
  expand current stack reachable i = record {
    on_stack = λ v m.
        ⊎_elim
          (λ n.
            step (i.on_stack current (Memᴰ.head refl))
              ((mem-filter (λ callee. not (has (current ∷ reachable) callee)) v
                  (callees_of self current)).0
                n).0)
          (λ n. i.on_stack v (Memᴰ.tail n))
          ((mem-push_all (unseen_callees current reachable) stack v).0 m);
    in_set = λ v m.
        ⊎_elim
          (λ e. subst (Reach (callees_of self) entry) (sym e) (i.on_stack current (Memᴰ.head refl)))
          (i.in_set v) (Memᴰ.cases_cons m);
    closed = λ u v m n.
        ⊎_elim (λ e. pushed v (subst (λ x. Memᴰ v (callees_of self x)) e n))
          (λ k. ⊎_elim (λ a. inl (Memᴰ.tail a)) (λ a. kept v a) (i.closed u v k n))
          (Memᴰ.cases_cons m);
    started = ⊎_elim (λ a. inl (Memᴰ.tail a)) (λ a. kept entry a) i.started;
  }
    where
      kept :
          (v : ℕ)
          → Memᴰ v (current ∷ stack)
          → Memᴰ v (current ∷ reachable)
            ⊎ Memᴰ v (push_all (unseen_callees current reachable) stack)
      kept v m =
          ⊎_elim (λ e. inl (Memᴰ.head e))
            (λ n. inr ((mem-push_all (unseen_callees current reachable) stack v).1 (inr n)))
            (Memᴰ.cases_cons m)

      pushed :
          (v : ℕ)
          → Memᴰ v (callees_of self current)
          → Memᴰ v (current ∷ reachable)
            ⊎ Memᴰ v (push_all (unseen_callees current reachable) stack)
      pushed v m = elim (Bool-cases (has (current ∷ reachable) v)) [
        | inl e ↦ inl ((has_iff (current ∷ reachable) v).0 e)
        | inr e ↦ inr (
            (mem-push_all (unseen_callees current reachable) stack v).1 (
              inl (
                (mem-filter (λ callee. not (has (current ∷ reachable) callee)) v
                    (callees_of self current)).1
                  (m, ap not e))))
      ]

  loop-Collects :
      (fuel : ℕ) (stack reachable : List ℕ)
      → IsSearching stack reachable
      → length stack + pending self.function_call_graph reachable < fuel
      → Collects (reach_loop self fuel stack reachable)
  unfolding reach_loop
  loop-Collects zero stack reachable i lt = absurd (omega arith)
  loop-Collects (suc fuel) [] reachable i lt =
      (reachable, refl, λ v. (i.in_set v, all_reached reachable v i))
  loop-Collects (suc fuel) (current ∷ stack) reachable i lt =
      elim (Bool-cases (has reachable current)) [
        | inl e ↦
            rw (e)
              (loop-Collects fuel stack reachable (skip current stack reachable e i) (omega arith))
        | inr e ↦
            let size = length-push_all (unseen_callees current reachable) stack in
            let few =
              length-filter (λ callee. not (has (current ∷ reachable) callee))
                (callees_of self current) in
            let paid = pending-expanded self.function_call_graph reachable current e in
            rw (e) (loop-Collects fuel _ _ (expand current stack reachable i) (omega arith))
      ]

  -- With fuel for the entry point and for every call of the crate, and one more, the loop over the
  -- stack ends, and its set has exactly the functions that the entry point reaches by calls.
  pub reach_loop-Reach :
      (fuel : ℕ)
      → suc (pending self.function_call_graph []) < fuel
      → Collects (reach_loop self fuel (entry ∷ []) [])
  reach_loop-Reach fuel enough =
      loop-Collects fuel (entry ∷ []) []
        (record {
          on_stack = λ v m.
              ⊎_elim (λ e. subst (Reach (callees_of self) entry) (sym e) here)
                (λ n. absurd (Memᴰ.not-nil n)) (Memᴰ.cases_cons m);
          in_set = λ v m. absurd (Memᴰ.not-nil m);
          closed = λ u v m n. absurd (Memᴰ.not-nil m);
          started = inr (Memᴰ.head refl);
        })
        (omega arith)
