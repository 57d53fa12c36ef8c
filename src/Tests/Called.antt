-- ===== src/Tests/Called.antt =====
-- The detector of missing signatures on a function that calls another one and returns: the parameter
-- is handed over to the call, and it signs there.
use mathlib.Core.Bool.{false≢true}
use mathlib.Core.List.Memᴰ
use mathlib.Core.Option.{some-injective, none-ne-some}
use scout_audit.Base.{
  ℕ, zero, suc, ◌≡◌, refl, sym, Bool, true, false, some, none, List, [], ◌∷◌, Memᴰ, nat_eq, arith,
  get_elem?, subst, ⊎_elim, if◌then◌else◌, Bool-cases, inl, inr,
}
use scout_audit.AuthFlow.Mir.{
  call, constant, val, fn_def, other_terminator, assign_on_return, no_edges, BasicBlockData, Body,
}
use scout_audit.AuthFlow.Domain.{
  ParamInfo, CallSite, AuthDomain, FnSummary, Signer, param, current_admin, join, promised,
}
use scout_audit.AuthFlow.Places.Tables.{Keyed}
use scout_audit.AuthFlow.Places.{map_callsites_to_blocks, map_events_to_locations}
use scout_audit.AuthFlow.Analysis.{
  AuthFlowAnalysis, initialize_start_block, bottom_value, apply_primary_statement_effect,
  apply_primary_terminator_effect, apply_call_return_effect, terminator_edges, address_param_set,
  is_summary_exit,
}
use scout_audit.AuthFlow.Engine.{
  Results, IsFixpoint, initial, propagate, leaving, block_end, run_to, targets,
}
use scout_audit.AuthFlow.Summary.{analysis_of, compute_summary_for_fn, exits_from, at_exit}
use scout_audit.AuthFlow.Summary.Monotone.{Grows, promised_in, compute_summary_for_fn-Grows}
use scout_audit.Tests.Bits.{bits}
use scout_audit.Tests.Auth.{tcx}

abbrev calling : BasicBlockData
calling = record {
  statements = [];
  terminator = record {
    kind = call (constant (val 0 (fn_def 9)));
    span = record { lo = 30; hi = 40 };
    successors = 1 ∷ [];
    edges = assign_on_return (1 ∷ []) none;
  };
}

abbrev returning : BasicBlockData
returning = record {
  statements = [];
  terminator = record {
    kind = other_terminator;
    span = record { lo = 70; hi = 71 };
    successors = [];
    edges = no_edges;
  };
}

abbrev body : Body
body = calling ∷ returning ∷ []

abbrev params : List ParamInfo
params = record { hir_id = 7; is_address = true; is_privileged_name = true } ∷ []

abbrev callsites : List CallSite
callsites =
    record { callee_def_id = 9; arg_to_param = some 0 ∷ []; span = record { lo = 32; hi = 38 } }
    ∷ []

-- the function that is called promises the signature of its parameter, and then another one too
abbrev old : Keyed ℕ (FnSummary bits)
old = (9, record { must_auth_params = 0 ∷ []; must_auth_current_admin = false }) ∷ []

abbrev new : Keyed ℕ (FnSummary bits)
new = (9, record { must_auth_params = 0 ∷ []; must_auth_current_admin = true }) ∷ []

abbrev self : Keyed ℕ (FnSummary bits) → AuthFlowAnalysis bits
self summaries = analysis_of bits tcx body params [] callsites summaries

abbrev first : AuthFlowAnalysis bits → ℕ → AuthDomain bits
first a c =
    if nat_eq c 0 then initialize_start_block bits a (bottom_value bits a) else bottom_value bits a

abbrev entry : AuthFlowAnalysis bits → ℕ → AuthDomain bits
entry a c =
    if nat_eq c 1
    then (join bits (first a c) (leaving bits a true (first a 0) 0 calling)).0
    else first a c

-- what the engine makes of the two blocks
abbrev engine : AuthFlowAnalysis bits → Results bits
engine a = record {
  before = λ loc. run_to bits a (entry a loc.block) loc.block loc.statement_index;
  after = λ loc. elim (get_elem? body loc.block) [
    | none ↦ bottom_value bits a
    | some bb_data ↦ (block_end bits a (entry a loc.block) loc.block bb_data).0
  ];
}

-- A state that was joined already does not grow.
join-joined : (s t : AuthDomain bits) → (join bits (join bits s t).0 t).1 ≡ false
unfolding join
join-joined s t =
    let still =
      (bits.union-changed (bits.union s.unauth_params t.unauth_params).0 t.unauth_params).1
        (λ p h. ground (arith, h, bits.contains-union s.unauth_params t.unauth_params p)) in
    elim (Bool-cases s.current_admin_unauth) [
      | inl a ↦ rw (a, join) still
      | inr a ↦ elim (Bool-cases t.current_admin_unauth) [
        | inl b ↦ rw (a, b, join) still
        | inr b ↦ rw (a, b, join) still
      ]
    ]

module _ (s : Keyed ℕ (FnSummary bits)) where
  edges-block_end :
      (state : AuthDomain bits) (b : ℕ) (bb_data : BasicBlockData)
      → (block_end bits (self s) state b bb_data).1
        ≡ terminator_edges bits (self s) bb_data.terminator b
  unfolding block_end apply_primary_terminator_effect
  edges-block_end state b bb_data = refl

  abbrev IsStableFor : ℕ → BasicBlockData → Type 0
  IsStableFor b bb_data =
      (t : ℕ) (returned : Bool)
      → Memᴰ t (targets returned (terminator_edges bits (self s) bb_data.terminator b))
      → (join bits (entry (self s) t)
          (leaving bits (self s) returned (entry (self s) b) b bb_data)).1
        ≡ false

  stable0 : IsStableFor 0 calling
  unfolding terminator_edges
  stable0 t false m = absurd (Memᴰ.not-nil m)
  stable0 t true m =
      ⊎_elim
        (λ e.
          subst
            (λ x.
              (join bits (entry (self s) x)
                (leaving bits (self s) true (entry (self s) 0) 0 calling)).1
              ≡ false)
            (sym e)
            (join-joined (first (self s) 1)
              (leaving bits (self s) true (first (self s) 0) 0 calling)))
        (λ n. absurd (Memᴰ.not-nil n)) (Memᴰ.cases_cons m)

  stable1 : IsStableFor 1 returning
  unfolding terminator_edges
  stable1 t true m = absurd (Memᴰ.not-nil m)
  stable1 t false m = absurd (Memᴰ.not-nil m)

  stable :
      (b : ℕ) (bb_data : BasicBlockData) → get_elem? body b ≡ some bb_data → IsStableFor b bb_data
  stable zero bb_data e = subst (IsStableFor 0) (some-injective _ _ e) stable0
  stable (suc zero) bb_data e = subst (IsStableFor 1) (some-injective _ _ e) stable1
  stable (suc (suc b)) bb_data e = absurd (none-ne-some _ e)

  flows : Memᴰ 1 (targets true (block_end bits (self s) (first (self s) 0) 0 calling).1)
  unfolding block_end apply_primary_terminator_effect terminator_edges
  flows = Memᴰ.head refl

  fixpoint : IsFixpoint bits (self s) (engine (self s))
  unfolding analysis_of
  fixpoint = record {
    entry = entry (self s);
    iterates = propagate initial 0 1 true calling refl flows;
    stable = λ b t returned bb_data _ e m.
        stable b bb_data e t returned (
          subst (λ x. Memᴰ t (targets returned x)) (edges-block_end (entry (self s) b) b bb_data)
            m);
    before-run_to = λ b i. refl;
    after-block_end = λ b bb_data e. rw e refl;
  }

old-new : Grows bits old new
unfolding Grows promised_in
old-new d w h = elim (Bool-cases (nat_eq 9 d)) [
  | inr e ↦ absurd (false≢true (rw (e, promised_in) at h))
  | inl e ↦ rw (e, promised_in) (more w (rw (e, promised_in) at h))
]
  where
    more :
        (w : Signer)
        → promised bits w (record { must_auth_params = 0 ∷ []; must_auth_current_admin = false })
          ≡ true
        → promised bits w (record { must_auth_params = 0 ∷ []; must_auth_current_admin = true })
          ≡ true
    more (param p) k = k
    more current_admin k = refl

promised_by_call :
    promised bits (param 0) (compute_summary_for_fn bits tcx engine body params [] callsites old)
    ≡ true
unfolding compute_summary_for_fn exits_from is_summary_exit at_exit block_end
    apply_primary_terminator_effect join leaving initialize_start_block bottom_value run_to
    apply_primary_statement_effect analysis_of address_param_set map_events_to_locations
    apply_call_return_effect map_callsites_to_blocks
promised_by_call = refl

compute_summary_for_fn-Grows_example :
    promised bits (param 0) (compute_summary_for_fn bits tcx engine body params [] callsites new)
    ≡ true
compute_summary_for_fn-Grows_example =
    compute_summary_for_fn-Grows bits tcx engine body params [] callsites old new (param 0) fixpoint
      old-new promised_by_call

-- without the call's promise there is none
not_promised :
    promised bits (param 0) (compute_summary_for_fn bits tcx engine body params [] callsites [])
    ≡ false
unfolding compute_summary_for_fn exits_from is_summary_exit at_exit block_end
    apply_primary_terminator_effect join leaving initialize_start_block bottom_value run_to
    apply_primary_statement_effect analysis_of address_param_set map_events_to_locations
    apply_call_return_effect map_callsites_to_blocks
not_promised = refl
