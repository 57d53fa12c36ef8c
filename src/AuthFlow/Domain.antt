-- ===== src/AuthFlow/Domain.antt =====
-- missing-new-admin-auth/src/mir_auth_flow.rs and types.rs: the state of the analysis and its join,
-- what is known of a called function, and the facts that the visitor of the source collects.
use scout_audit.Base.{
  ℕ, ◌≡◌, ◌↔◌, Bool, true, false, not, ◌&&◌, ◌||◌, Option, List, if◌then◌else◌, arith,
}
use scout_audit.AuthFlow.Mir.{BitSet, Span}

pub record ParamInfo : Type 0 where
  pub hir_id : ℕ
  pub is_address : Bool
  pub is_privileged_name : Bool

pub record Sink : Type 0 where
  pub param_index : Option ℕ
  pub span : Span

pub record AuthEvent : Type 0 where
  pub param_index : Option ℕ
  pub span : Span
  pub is_current_admin : Bool

pub record CallSite : Type 0 where
  pub callee_def_id : ℕ
  pub arg_to_param : List (Option ℕ)
  pub span : Span

pub record AuthDomain (B : BitSet) : Type 0 where
  pub unauth_params : B.Set
  pub current_admin_unauth : Bool

pub record FnSummary (B : BitSet) : Type 0 where
  pub must_auth_params : B.Set
  pub must_auth_current_admin : Bool

-- Who is to sign: a parameter of the function, or the admin that is stored.
pub data Signer : Type 0 where
  param : ℕ → Signer
  current_admin : Signer

module _ (B : BitSet) where
  -- The state after the join, and whether it grew.
  unfoldable pub join : AuthDomain B → AuthDomain B → AuthDomain B × Bool
  join s other =
      let (params, changed) = B.union s.unauth_params other.unauth_params in
      if not s.current_admin_unauth && other.current_admin_unauth
      then (record { unauth_params = params; current_admin_unauth = true }, true)
      else (
        record { unauth_params = params; current_admin_unauth = s.current_admin_unauth },
        changed,
      )

  unfoldable pub empty : ℕ → FnSummary B
  empty param_count = record {
    must_auth_params = B.new_empty param_count;
    must_auth_current_admin = false;
  }

  -- whether the state holds that this signer may not have signed
  abbrev pub unsigned : Signer → AuthDomain B → Bool
  unsigned (param p) s = B.contains s.unauth_params p
  unsigned current_admin s = s.current_admin_unauth

  -- whether the summary promises that this signer has signed
  abbrev pub promised : Signer → FnSummary B → Bool
  promised (param p) f = B.contains f.must_auth_params p
  promised current_admin f = f.must_auth_current_admin

  pub unsigned-join :
      (w : Signer) (s t : AuthDomain B) → unsigned w (join s t).0 ≡ (unsigned w s || unsigned w t)
  unfolding join
  unsigned-join (param p) s t = ground (arith, B.contains-union s.unauth_params t.unauth_params p)
  unsigned-join current_admin s t = ground arith

  params_same :
      (s t : AuthDomain B)
      → (join s t).1 ≡ false
      → (B.union s.unauth_params t.unauth_params).1 ≡ false
  unfolding join
  params_same s t h = ground arith

  admin_same :
      (s t : AuthDomain B)
      → (join s t).1 ≡ false
      → t.current_admin_unauth ≡ true
      → s.current_admin_unauth ≡ true
  unfolding join
  admin_same s t h e = ground arith

  same-join :
      (s t : AuthDomain B)
      → (B.union s.unauth_params t.unauth_params).1 ≡ false
      → (t.current_admin_unauth ≡ true → s.current_admin_unauth ≡ true)
      → (join s t).1 ≡ false
  unfolding join
  same-join s t h e = ground (arith, e)

  grown :
      (s t : AuthDomain B)
      → (join s t).1 ≡ false
      → (w : Signer) → unsigned w t ≡ true
      → unsigned w s ≡ true
  grown s t h (param p) e =
      (B.union-changed s.unauth_params t.unauth_params).0 (params_same s t h) p e
  grown s t h current_admin e = admin_same s t h e

  pub join-changed :
      (s t : AuthDomain B)
      → ((join s t).1 ≡ false) ↔ ((w : Signer) → unsigned w t ≡ true → unsigned w s ≡ true)
  join-changed s t = (
    grown s t,
    λ h.
        same-join s t ((B.union-changed s.unauth_params t.unauth_params).1 (λ p e. h (param p) e))
          (h current_admin),
  )
