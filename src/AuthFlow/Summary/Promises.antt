-- ===== src/AuthFlow/Summary/Promises.antt =====
-- What a summary promises, against the runs to an exit.
use mathlib.Core.Bool.{false≢true}
use mathlib.Core.Option.{some-injective}
use scout_audit.Base.{
  ℕ, zero, suc, ◌+◌, ◌≡◌, refl, sym, ◌∙◌, ap, subst, ◌↔◌, inl, inr, true, false, not, ◌&&◌, some,
  List, [], ◌∷◌, Memᴰ, nat_eq, nat_eq_iff, get_elem?, length, any, Bool-cases, arith, foldl,
  any_of_mem, mem_of_any,
}
use scout_audit.AuthFlow.Mir.{BitSet, BasicBlockData, TyCtxt, Body}
use scout_audit.AuthFlow.Domain.{
  AuthDomain, FnSummary, Signer, param, current_admin, unsigned, promised, ParamInfo, AuthEvent,
  CallSite,
}
use scout_audit.AuthFlow.Places.Tables.{Keyed}
use scout_audit.AuthFlow.Analysis.{
  AuthFlowAnalysis, initialize_start_block, bottom_value, is_summary_exit, address_param_set,
}
use scout_audit.AuthFlow.Analysis.Effects.{starts, contains-address_param_set}
use scout_audit.AuthFlow.Engine.{end_of, IsFixpoint, Results}
use scout_audit.AuthFlow.Engine.Paths.{Step, executed, Run, signs_in, Unsigned}
use scout_audit.AuthFlow.Engine.Exact.{unsigned-block_end, before-Unsigned}
use scout_audit.AuthFlow.Summary.{at_exit, exits_from, analysis_of, compute_summary_for_fn}

module _ (B : BitSet) where
  contains-remove_all :
      (ps : List ℕ) (set : B.Set) (p : ℕ)
      → B.contains (foldl B.remove set ps) p ≡ (B.contains set p && not (any (λ q. nat_eq q p) ps))
  contains-remove_all [] set p = ground arith
  contains-remove_all (q ∷ ps) set p =
      ground (arith, contains-remove_all ps (B.remove set q) p, B.contains-remove set q p)

  any-iter : (s : B.Set) (p : ℕ) → any (λ q. nat_eq q p) (B.iter s) ≡ B.contains s p
  any-iter s p = elim (Bool-cases (any (λ q. nat_eq q p) (B.iter s))) [
    | inl e ↦
        let (q, m, h) = mem_of_any (λ q. nat_eq q p) (B.iter s) e in
        e ∙ sym ((B.mem-iter s p).0 (subst (λ x. Memᴰ x (B.iter s)) ((nat_eq_iff q p).0 h) m))
    | inr e ↦ elim (Bool-cases (B.contains s p)) [
      | inl h ↦ absurd (
          false≢true (
            sym e
            ∙ any_of_mem (λ q. nat_eq q p) p (B.iter s) ((B.mem-iter s p).1 h)
                ((nat_eq_iff p p).1 refl)))
      | inr h ↦ e ∙ sym h
    ]
  ]

  promised-at_exit :
      (w : Signer) (state : AuthDomain B) (f : FnSummary B)
      → promised B w (at_exit B state f) ≡ (promised B w f && not (unsigned B w state))
  unfolding at_exit
  promised-at_exit (param p) state f = ground (
    arith,
    contains-remove_all (B.iter state.unauth_params) f.must_auth_params p,
    any-iter state.unauth_params p,
  )
  promised-at_exit current_admin state f = ground arith

  -- nobody is unsigned at an exit among these blocks, the first of which has number `bb`
  abbrev SignsAtExits : Signer → Results B → ℕ → List BasicBlockData → Type 0
  SignsAtExits w r bb blocks =
      (i : ℕ) (bb_data : BasicBlockData)
      → get_elem? blocks i ≡ some bb_data
      → is_summary_exit bb_data.terminator ≡ true
      → unsigned B w (r.after (end_of (bb + i) bb_data)) ≡ false

  SignsAtExits-cons :
      (w : Signer) (r : Results B) (bb : ℕ) (bb_data : BasicBlockData)
      (blocks : List BasicBlockData)
      → SignsAtExits w r bb (bb_data ∷ blocks) ↔ (
          (is_summary_exit bb_data.terminator ≡ true
            → unsigned B w (r.after (end_of bb bb_data)) ≡ false)
          × SignsAtExits w r (suc bb) blocks)
  SignsAtExits-cons w r bb bb_data blocks = (
    λ h. (
      λ e.
          subst (λ n. unsigned B w (r.after (end_of n bb_data)) ≡ false) (omega arith)
            (h 0 bb_data refl e),
      λ i x e q.
          subst (λ n. unsigned B w (r.after (end_of n x)) ≡ false) (omega arith) (h (suc i) x e q),
    ),
    λ (here, there). later here there,
  )
    where
      later :
          (is_summary_exit bb_data.terminator ≡ true
            → unsigned B w (r.after (end_of bb bb_data)) ≡ false)
          → SignsAtExits w r (suc bb) blocks
          → SignsAtExits w r bb (bb_data ∷ blocks)
      later here there zero x e q =
          subst (λ n. unsigned B w (r.after (end_of n x)) ≡ false) (omega arith)
            (subst (λ y. unsigned B w (r.after (end_of bb y)) ≡ false) (some-injective _ _ e)
              (here (
                ap (λ (y : BasicBlockData). is_summary_exit y.terminator) (some-injective _ _ e)
                ∙ q)))
      later here there (suc i) x e q =
          subst (λ n. unsigned B w (r.after (end_of n x)) ≡ false) (omega arith) (there i x e q)

  promised-exits_from :
      (w : Signer) (r : Results B) (bb : ℕ) (blocks : List BasicBlockData) (f : FnSummary B)
      → (promised B w (exits_from B r bb blocks f) ≡ true)
        ↔ ((promised B w f ≡ true) × SignsAtExits w r bb blocks)
  unfolding exits_from
  promised-exits_from w r bb [] f = (λ h. (h, λ i bb_data e. cc), λ h. h.0)
  promised-exits_from w r bb (bb_data ∷ blocks) f =
      elim (Bool-cases (is_summary_exit bb_data.terminator)) [
        | inl e ↦
            rw (e, exits_from)
              (let ih =
                  promised-exits_from w r (suc bb) blocks
                    (at_exit B (r.after (end_of bb bb_data)) f) in
                let q = promised-at_exit w (r.after (end_of bb bb_data)) f in
                let (to, from) = SignsAtExits-cons w r bb bb_data blocks in
                (
                  λ h.
                      let (p, rest) = ih.0 h in
                      (ground (arith, q), from (λ _. ground (arith, q), rest)),
                  λ (p, all).
                      let (here, rest) = to all in ih.1 (let n = here e in ground (arith, q), rest),
                ))
        | inr e ↦
            rw (e, exits_from)
              (let ih = promised-exits_from w r (suc bb) blocks f in
                let (to, from) = SignsAtExits-cons w r bb bb_data blocks in
                (
                  λ h.
                      let (p, rest) = ih.0 h in
                      (p, from (λ x. absurd (false≢true (sym e ∙ x)), rest)),
                  λ (p, all). ih.1 (p, (to all).1),
                ))
      ]

module _ (B : BitSet) (self : AuthFlowAnalysis B) where
  -- after the terminator of a block
  pub after-Unsigned :
      {r : Results B} (fixpoint : IsFixpoint B self r) (w : Signer) (b : ℕ)
      {bb_data : BasicBlockData}
      → get_elem? self.body b ≡ some bb_data
      → (unsigned B w (r.after (end_of b bb_data)) ≡ true) ↔ (
          (l : List Step) × Run B self b (length bb_data.statements) l
          × (unsigned B w (initialize_start_block B self (bottom_value B self)) ≡ true)
          × (any (signs_in B self w) (executed (end_of b bb_data) ∷ l) ≡ false))
  unfolding Unsigned
  after-Unsigned {r} fixpoint w b {bb_data} e =
      let q = unsigned-block_end B self w (fixpoint.entry b) b bb_data in
      let known = before-Unsigned B self fixpoint w b (length bb_data.statements) e (omega arith) in
      let at = fixpoint.before-run_to b (length bb_data.statements) in
      rw (fixpoint.after-block_end b bb_data e) (
        λ h.
            let (l, p, st, c) = known.0 (rw at (ground (arith, q))) in
            (l, p, st, ground (arith, q)),
        λ (l, p, st, c).
            let k = known.1 (l, p, st, ground arith) in let k' = rw at at k in ground (arith, q),
      )

-- on each run through a block that control does not leave for another, the signer signs
abbrev pub SignsOnExit : (B : BitSet) → AuthFlowAnalysis B → Signer → Type 0
SignsOnExit B self w =
    (b : ℕ) (bb_data : BasicBlockData) (l : List Step)
    → get_elem? self.body b ≡ some bb_data
    → is_summary_exit bb_data.terminator ≡ true
    → Run B self b (length bb_data.statements) l
    → any (signs_in B self w) (executed (end_of b bb_data) ∷ l) ≡ true

-- at the exits nobody is unsigned just if every run there has a signature
SignsAtExits-SignsOnExit :
    (B : BitSet) (self : AuthFlowAnalysis B) {r : Results B} (w : Signer)
    → IsFixpoint B self r
    → unsigned B w (initialize_start_block B self (bottom_value B self)) ≡ true
    → SignsAtExits B w r 0 self.body ↔ SignsOnExit B self w
SignsAtExits-SignsOnExit B self {r} w fixpoint st = (
  λ h b bb_data l e x p.
      elim (Bool-cases (any (signs_in B self w) (executed (end_of b bb_data) ∷ l))) [
        | inl signed ↦ signed
        | inr clear ↦ absurd (
            false≢true (
              sym (
                subst (λ n. unsigned B w (r.after (end_of n bb_data)) ≡ false) (omega arith)
                  (h b bb_data e x))
              ∙ (after-Unsigned B self fixpoint w b e).1 (l, p, st, clear)))
      ],
  λ h b bb_data e x. elim (Bool-cases (unsigned B w (r.after (end_of b bb_data)))) [
    | inl open_still ↦
        let (l, p, _, clear) = (after-Unsigned B self fixpoint w b e).0 open_still in
        absurd (false≢true (sym clear ∙ h b bb_data l e x p))
    | inr closed ↦
        subst (λ n. unsigned B w (r.after (end_of n bb_data)) ≡ false) (omega arith) closed
  ],
)

module _ (B : BitSet) (tcx : TyCtxt) (iterate_to_fixpoint : AuthFlowAnalysis B → Results B)
    (body : Body) (params : List ParamInfo) (events : List AuthEvent) (callsites : List CallSite)
    (fn_summaries : Keyed ℕ (FnSummary B)) where
  abbrev analysis : AuthFlowAnalysis B
  analysis = analysis_of B tcx body params events callsites fn_summaries

  pub unsigned-initialize :
      (w : Signer)
      → unsigned B w (initialize_start_block B analysis (bottom_value B analysis)) ≡ starts params w
  unfolding initialize_start_block analysis_of
  unsigned-initialize (param p) = contains-address_param_set B params p
  unsigned-initialize current_admin = refl

  promised-first :
      (w : Signer) {s : B.Set}
      → s ≡ address_param_set B params
      → promised B w (record { must_auth_params = s; must_auth_current_admin = true })
        ≡ starts params w
  promised-first (param p) e = rw e (contains-address_param_set B params p)
  promised-first current_admin e = refl

  -- What the engine is relied on for given, a summary promises of exactly those signers that they
  -- have signed who are to sign, and who sign on every run of the body to an exit.
  pub compute_summary_for_fn-promised :
      (w : Signer)
      → IsFixpoint B analysis (iterate_to_fixpoint analysis)
      → (promised B w (
            compute_summary_for_fn B tcx iterate_to_fixpoint body params events callsites
              fn_summaries)
          ≡ true)
        ↔ ((starts params w ≡ true) × SignsOnExit B analysis w)
  unfolding compute_summary_for_fn analysis_of
  compute_summary_for_fn-promised w fixpoint =
      let ex = promised-exits_from B w (iterate_to_fixpoint analysis) 0 body (record {
        must_auth_params = address_param_set B params;
        must_auth_current_admin = true;
      }) in
      (
        λ h.
            let (p, all) = ex.0 h in
            let st = sym (promised-first w refl) ∙ p in
            (
              st,
              (SignsAtExits-SignsOnExit B analysis w fixpoint (unsigned-initialize w ∙ st)).0 all,
            ),
        λ (st, all). ex.1 (
          promised-first w refl ∙ st,
          (SignsAtExits-SignsOnExit B analysis w fixpoint (unsigned-initialize w ∙ st)).1 all,
        ),
      )
