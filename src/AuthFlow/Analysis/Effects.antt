-- ===== src/AuthFlow/Analysis/Effects.antt =====
-- The transfer functions of the analysis, signer by signer.
use scout_audit.Base.{
  ℕ, suc, ◌≡◌, refl, Bool, true, false, not, ◌&&◌, ◌||◌, Option, none, some, List, [], ◌∷◌, nat_eq,
  if◌then◌else◌, foldl, length, any, Option-cases, inl, inr, arith,
}
use scout_audit.AuthFlow.Mir.{BitSet, Location, same_location}
use scout_audit.AuthFlow.Domain.{
  ParamInfo, AuthEvent, CallSite, AuthDomain, FnSummary, Signer, param, current_admin, unsigned,
}
use scout_audit.AuthFlow.Places.Tables.{lookup, values_at, values_at-lookup}
use scout_audit.AuthFlow.Analysis.{
  AuthFlowAnalysis, apply_event, apply_auth_events, bottom_value, apply_args,
  apply_call_return_effect, address_params_from, address_param_set,
}

abbrev pub is_some_of : Option ℕ → ℕ → Bool
is_some_of none p = false
is_some_of (some q) p = nat_eq q p

-- whether an event is the signature of this signer
abbrev pub signs : Signer → AuthEvent → Bool
signs (param p) event = is_some_of event.param_index p
signs current_admin event = event.is_current_admin

module _ (B : BitSet) where
  -- whether a call hands parameter `p` over as an argument that the callee, from `callee_idx` on, has sign
  abbrev pub hands_over : FnSummary B → ℕ → List (Option ℕ) → ℕ → Bool
  hands_over summary callee_idx [] p = false
  hands_over summary callee_idx (arg ∷ args) p =
      (B.contains summary.must_auth_params callee_idx && is_some_of arg p)
      || hands_over summary (suc callee_idx) args p

  -- whether a call of a function with this summary has the signer sign
  abbrev pub call_signs : Signer → CallSite → FnSummary B → Bool
  call_signs (param p) callsite summary = hands_over summary 0 callsite.arg_to_param p
  call_signs current_admin callsite summary = summary.must_auth_current_admin

abbrev pub address_at : ℕ → List ParamInfo → ℕ → Bool
address_at i [] p = false
address_at i (x ∷ params) p = (x.is_address && nat_eq i p) || address_at (suc i) params p

-- who is to sign at all
abbrev pub starts : List ParamInfo → Signer → Bool
starts params (param p) = address_at 0 params p
starts params current_admin = true

module _ (B : BitSet) where
  unsigned-apply_event :
      (w : Signer) (s : AuthDomain B) (event : AuthEvent)
      → unsigned B w (apply_event B s event) ≡ (unsigned B w s && not (signs w event))
  unfolding apply_event
  unsigned-apply_event (param p) s event = elim (Option-cases event.param_index) [
    | inl e ↦ rw (e) (ground arith)
    | inr (q, e) ↦ rw (e) (B.contains-remove s.unauth_params q p)
  ]
  unsigned-apply_event current_admin s event = ground arith

  unsigned-events :
      (w : Signer) (events : List AuthEvent) (s : AuthDomain B)
      → unsigned B w (foldl (apply_event B) s events)
        ≡ (unsigned B w s && not (any (signs w) events))
  unsigned-events w [] s = ground arith
  unsigned-events w (event ∷ events) s =
      ground
        (arith, unsigned-events w events (apply_event B s event), unsigned-apply_event w s event)

  unsigned-apply_args :
      (summary : FnSummary B) (i : ℕ) (args : List (Option ℕ)) (params : B.Set) (p : ℕ)
      → B.contains (apply_args B summary i args params) p
        ≡ (B.contains params p && not (hands_over B summary i args p))
  unfolding apply_args
  unsigned-apply_args summary i [] params p = ground arith
  unsigned-apply_args summary i (none ∷ args) params p =
      ground (arith, unsigned-apply_args summary (suc i) args params p)
  unsigned-apply_args summary i (some q ∷ args) params p = ground (
    arith,
    unsigned-apply_args summary (suc i) args params p,
    unsigned-apply_args summary (suc i) args (B.remove params q) p,
    B.contains-remove params q p,
  )

  contains-address_params_from :
      (i : ℕ) (params : List ParamInfo) (set : B.Set) (p : ℕ)
      → B.contains (address_params_from B i params set) p
        ≡ (B.contains set p || address_at i params p)
  unfolding address_params_from
  contains-address_params_from i [] set p = ground arith
  contains-address_params_from i (x ∷ params) set p = ground (
    arith,
    contains-address_params_from (suc i) params set p,
    contains-address_params_from (suc i) params (B.insert set i) p,
    B.contains-insert set i p,
  )

  pub contains-address_param_set :
      (params : List ParamInfo) (p : ℕ)
      → B.contains (address_param_set B params) p ≡ address_at 0 params p
  unfolding address_param_set
  contains-address_param_set params p = ground (
    arith,
    contains-address_params_from 0 params (B.new_empty (length params)) p,
    B.contains-new_empty (length params) p,
  )

  pub unsigned-apply_auth_events :
      (w : Signer) (self : AuthFlowAnalysis B) (s : AuthDomain B) (loc : Location)
      → unsigned B w (apply_auth_events B self s loc) ≡ (
          unsigned B w s
          && not (any (signs w) (values_at same_location self.auth_events_by_loc loc)))
  unfolding apply_auth_events
  unsigned-apply_auth_events w self s loc =
      elim (values_at-lookup same_location self.auth_events_by_loc loc) [
        | inl (e, f) ↦ rw (e, f, apply_auth_events) (ground arith)
        | inr e ↦
            rw (e, apply_auth_events)
              (unsigned-events w (values_at same_location self.auth_events_by_loc loc) s)
      ]

  pub unsigned-bottom_value :
      (w : Signer) (self : AuthFlowAnalysis B) → unsigned B w (bottom_value B self) ≡ false
  unfolding bottom_value
  unsigned-bottom_value (param p) self = B.contains-new_empty self.param_count p
  unsigned-bottom_value current_admin self = refl

  -- whether the call that ends a block has the signer sign before it returns
  unfoldable pub return_signs : Signer → AuthFlowAnalysis B → ℕ → Bool
  return_signs w self block = elim (lookup nat_eq self.callsite_by_block block) [
    | none ↦ false
    | some callsite ↦ elim (lookup nat_eq self.fn_summaries callsite.callee_def_id) [
      | none ↦ false
      | some summary ↦ call_signs B w callsite summary
    ]
  ]

  unsigned-call :
      (w : Signer) (callsite : CallSite) (summary : FnSummary B) (s : AuthDomain B)
      → unsigned B w (record {
        unauth_params = apply_args B summary 0 callsite.arg_to_param s.unauth_params;
        current_admin_unauth =
            if summary.must_auth_current_admin then false else s.current_admin_unauth;
      })
        ≡ (unsigned B w s && not (call_signs B w callsite summary))
  unsigned-call (param p) callsite summary s =
      unsigned-apply_args summary 0 callsite.arg_to_param s.unauth_params p
  unsigned-call current_admin callsite summary s = ground arith

  pub unsigned-apply_call_return_effect :
      (w : Signer) (self : AuthFlowAnalysis B) (s : AuthDomain B) (block : ℕ)
      → unsigned B w (apply_call_return_effect B self s block)
        ≡ (unsigned B w s && not (return_signs w self block))
  unfolding apply_call_return_effect return_signs
  unsigned-apply_call_return_effect w self s block =
      elim (Option-cases (lookup nat_eq self.callsite_by_block block)) [
        | inl e ↦ rw (e, apply_call_return_effect, return_signs) (ground arith)
        | inr (callsite, e) ↦
            elim (Option-cases (lookup nat_eq self.fn_summaries callsite.callee_def_id)) [
              | inl f ↦ rw (e, f, apply_call_return_effect, return_signs) (ground arith)
              | inr (summary, f) ↦
                  rw (e, f, apply_call_return_effect, return_signs)
                    (unsigned-call w callsite summary s)
            ]
      ]
