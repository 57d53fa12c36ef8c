-- ===== src/AuthFlow/Engine/Exact.antt =====
-- The engine's results against the runs of a body.
use mathlib.Core.Bool.{false≢true}
use scout_audit.Base.{
  ℕ, zero, suc, ◌≤◌, ◌≡◌, refl, sym, ◌∙◌, subst, ◌↔◌, inl, inr, Bool, true, false, not, ◌&&◌, some,
  List, [], ◌∷◌, Memᴰ, nat_eq, nat_eq_iff, get_elem?, length, any, Bool-cases, arith,
}
use scout_audit.AuthFlow.Mir.{BitSet, BasicBlockData}
use scout_audit.AuthFlow.Domain.{AuthDomain, Signer, unsigned, unsigned-join, join-changed}
use scout_audit.AuthFlow.Analysis.{
  AuthFlowAnalysis, terminator_edges, initialize_start_block, bottom_value,
  apply_primary_statement_effect, apply_primary_terminator_effect,
}
use scout_audit.AuthFlow.Analysis.Effects.{
  unsigned-apply_auth_events, unsigned-bottom_value, unsigned-apply_call_return_effect,
}
use scout_audit.AuthFlow.Engine.{
  targets, end_of, run_to, block_end, leaving, Iterates, initial, propagate, Visits, start, along,
  IsFixpoint, Results,
}
use scout_audit.AuthFlow.Engine.Paths.{
  Step, executed, call_returned, Follows, Run, begin, next, go_on, come_back, signs_in, Unsigned,
}

module _ (B : BitSet) (self : AuthFlowAnalysis B) where
  -- the steps of a block's end
  abbrev leaving_steps : Bool → ℕ → BasicBlockData → List Step → List Step
  leaving_steps false b bb_data l = executed (end_of b bb_data) ∷ l
  leaving_steps true b bb_data l = call_returned b ∷ executed (end_of b bb_data) ∷ l

  go :
      {b t : ℕ} {l : List Step} {bb_data : BasicBlockData} (returned : Bool)
      → Run B self b (length bb_data.statements) l
      → get_elem? self.body b ≡ some bb_data
      → Follows B self returned bb_data b t
      → Run B self t 0 (leaving_steps returned b bb_data l)
  go false p e m = go_on p e m
  go true p e m = come_back p e m

  unsigned-statement :
      (w : Signer) (s : AuthDomain B) (b i : ℕ)
      → unsigned B w (run_to B self s b (suc i)) ≡ (
          unsigned B w (run_to B self s b i)
          && not (signs_in B self w (executed (record { block = b; statement_index = i }))))
  unfolding run_to apply_primary_statement_effect
  unsigned-statement w s b i =
      unsigned-apply_auth_events B w self (run_to B self s b i)
        (record { block = b; statement_index = i })

  pub unsigned-block_end :
      (w : Signer) (s : AuthDomain B) (b : ℕ) (bb_data : BasicBlockData)
      → unsigned B w (block_end B self s b bb_data).0 ≡ (
          unsigned B w (run_to B self s b (length bb_data.statements))
          && not (signs_in B self w (executed (end_of b bb_data))))
  unfolding block_end apply_primary_terminator_effect
  unsigned-block_end w s b bb_data =
      unsigned-apply_auth_events B w self (run_to B self s b (length bb_data.statements))
        (end_of b bb_data)

  edges-block_end :
      (s : AuthDomain B) (b : ℕ) (bb_data : BasicBlockData)
      → (block_end B self s b bb_data).1 ≡ terminator_edges B self bb_data.terminator b
  unfolding block_end apply_primary_terminator_effect
  edges-block_end s b bb_data = refl

  -- who is unsigned where a block is left, by the steps of its end
  unsigned-leaving :
      (w : Signer) (returned : Bool) (s : AuthDomain B) (b : ℕ) (bb_data : BasicBlockData)
      (l : List Step)
      → (unsigned B w (leaving B self returned s b bb_data) && not (any (signs_in B self w) l)) ≡ (
          unsigned B w (run_to B self s b (length bb_data.statements))
          && not (any (signs_in B self w) (leaving_steps returned b bb_data l)))
  unfolding leaving
  unsigned-leaving w false s b bb_data l = ground (arith, unsigned-block_end w s b bb_data)
  unsigned-leaving w true s b bb_data l = ground (
    arith,
    unsigned-block_end w s b bb_data,
    unsigned-apply_call_return_effect B w self (block_end B self s b bb_data).0 b,
  )

  -- the state at the start block's entry is never less than the initial one
  start_in :
      {entry : ℕ → AuthDomain B} (w : Signer)
      → Iterates B self entry
      → unsigned B w (initialize_start_block B self (bottom_value B self)) ≡ true
      → unsigned B w (entry 0) ≡ true
  start_in w initial h = h
  start_in w (propagate {entry} r b t returned bb_data e m) h = elim (Bool-cases (nat_eq 0 t)) [
    | inl z ↦ rw (z) (
        ground (
          arith,
          start_in w r h,
          unsigned-join B w (entry 0) (leaving B self returned (entry b) b bb_data),
        ))
    | inr z ↦ rw (z) (start_in w r h)
  ]

  Visits-Run : {b i : ℕ} {l : List Step} → Run B self b i l → Visits B self b
  Visits-Run begin = start
  Visits-Run (next p e h) = Visits-Run p
  Visits-Run (go_on p e m) = along (Visits-Run p) _ false _ e m
  Visits-Run (come_back p e m) = along (Visits-Run p) _ true _ e m

  -- what leaves a block is in the entry of the blocks that follow
  arrives :
      {r : Results B} (w : Signer) (fixpoint : IsFixpoint B self r) {b t : ℕ} {l : List Step}
      {bb_data : BasicBlockData} (returned : Bool)
      → Run B self b (length bb_data.statements) l
      → get_elem? self.body b ≡ some bb_data
      → Follows B self returned bb_data b t
      → unsigned B w (leaving B self returned (fixpoint.entry b) b bb_data) ≡ true
      → unsigned B w (fixpoint.entry t) ≡ true
  arrives w fixpoint {b} {t} {bb_data = bb_data} returned p e m h =
      (join-changed B (fixpoint.entry t) (leaving B self returned (fixpoint.entry b) b bb_data)).0
        (fixpoint.stable b t returned bb_data (Visits-Run p) e (
          subst (λ edges. Memᴰ t (targets returned edges))
            (sym (edges-block_end (fixpoint.entry b) b bb_data)) m))
        w h

  pub unsigned_of_Run :
      {r : Results B} (w : Signer) (fixpoint : IsFixpoint B self r) {b i : ℕ} {l : List Step}
      → Run B self b i l
      → unsigned B w (initialize_start_block B self (bottom_value B self)) ≡ true
      → any (signs_in B self w) l ≡ false
      → unsigned B w (run_to B self (fixpoint.entry b) b i) ≡ true
  unfolding run_to
  unsigned_of_Run w fixpoint begin h c = start_in w fixpoint.iterates h
  unsigned_of_Run w fixpoint (next {b} {i} {l} p e lt) h c =
      ground (arith, unsigned_of_Run w fixpoint p h, unsigned-statement w (fixpoint.entry b) b i)
  unsigned_of_Run w fixpoint (go_on {b} {l = l} {bb_data} p e m) h c =
      arrives w fixpoint false p e m (
        ground (
          arith,
          unsigned_of_Run w fixpoint p h,
          unsigned-leaving w false (fixpoint.entry b) b bb_data l,
        ))
  unsigned_of_Run w fixpoint (come_back {b} {l = l} {bb_data} p e m) h c =
      arrives w fixpoint true p e m (
        ground (
          arith,
          unsigned_of_Run w fixpoint p h,
          unsigned-leaving w true (fixpoint.entry b) b bb_data l,
        ))

  -- a run within a block
  run_of_statements :
      (w : Signer) (s : AuthDomain B) (b i : ℕ) {bb_data : BasicBlockData}
      → get_elem? self.body b ≡ some bb_data
      → i ≤ length bb_data.statements
      → (unsigned B w s ≡ true → Unsigned B self w b 0)
      → unsigned B w (run_to B self s b i) ≡ true
      → Unsigned B self w b i
  unfolding Unsigned run_to
  run_of_statements w s b zero e le here h = here h
  run_of_statements w s b (suc i) e le here h =
      let q = unsigned-statement w s b i in
      let (l, p, st, c) = run_of_statements w s b i e (omega arith) here (ground (arith, q)) in
      (_, next p e (omega arith), st, ground (arith, q))

  -- a run through a block and on to the next
  run_on :
      (w : Signer) (s : AuthDomain B) (b t : ℕ) (returned : Bool) {bb_data : BasicBlockData}
      → get_elem? self.body b ≡ some bb_data
      → Memᴰ t (targets returned (block_end B self s b bb_data).1)
      → (unsigned B w s ≡ true → Unsigned B self w b 0)
      → unsigned B w (leaving B self returned s b bb_data) ≡ true
      → Unsigned B self w t 0
  unfolding Unsigned
  run_on w s b t returned {bb_data} e m here h =
      let q = unsigned-leaving w returned s b bb_data in
      let (l, p, st, c) =
        run_of_statements w s b (length bb_data.statements) e (omega arith) here
          (ground (arith, q [])) in
      (
        leaving_steps returned b bb_data l,
        go returned p e
            (subst (λ edges. Memᴰ t (targets returned edges)) (edges-block_end s b bb_data) m),
        st,
        ground (arith, q l),
      )

  run_of_unsigned :
      {entry : ℕ → AuthDomain B} (w : Signer) (b : ℕ)
      → Iterates B self entry
      → unsigned B w (entry b) ≡ true
      → Unsigned B self w b 0
  unfolding Unsigned
  run_of_unsigned w b initial h = elim (Bool-cases (nat_eq b 0)) [
    | inl z ↦
        subst (λ (c : ℕ). Unsigned B self w c 0) (sym ((nat_eq_iff b 0).0 z))
          ([], begin, rw (z) at h, refl)
    | inr z ↦ absurd (false≢true (sym (unsigned-bottom_value B w self) ∙ (rw (z) at h)))
  ]
  run_of_unsigned w c (propagate {entry} r b t returned bb_data e m) h =
      elim (Bool-cases (nat_eq c t)) [
        | inr z ↦ run_of_unsigned w c r (rw (z) at h)
        | inl z ↦ elim (Bool-cases (unsigned B w (entry c))) [
          | inl old ↦ run_of_unsigned w c r old
          | inr new ↦
              subst (λ (c : ℕ). Unsigned B self w c 0) (sym ((nat_eq_iff c t).0 z))
                (run_on w (entry b) b t returned e m (run_of_unsigned w b r) (
                  ground (
                    arith,
                    rw (z) at h,
                    unsigned-join B w (entry c) (leaving B self returned (entry b) b bb_data),
                  )))
        ]
      ]

  -- Before a location of a block, a signer is unsigned just if a run comes there on which the
  -- signer, who is to sign, does not.
  pub before-Unsigned :
      {r : Results B} (fixpoint : IsFixpoint B self r) (w : Signer) (b i : ℕ)
      {bb_data : BasicBlockData}
      → get_elem? self.body b ≡ some bb_data
      → i ≤ length bb_data.statements
      → (unsigned B w (r.before (record { block = b; statement_index = i })) ≡ true)
        ↔ Unsigned B self w b i
  unfolding Unsigned
  before-Unsigned {r} fixpoint w b i e le = rw (fixpoint.before-run_to b i) (
    run_of_statements w (fixpoint.entry b) b i e le (run_of_unsigned w b fixpoint.iterates),
    λ (l, p, st, c). unsigned_of_Run w fixpoint p st c,
  )
