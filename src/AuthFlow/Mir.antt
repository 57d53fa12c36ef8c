-- ===== src/AuthFlow/Mir.antt =====
-- What missing-new-admin-auth/src/mir_auth_flow.rs reads of rustc's intermediate representation:
-- the bodies of functions as data, and the bit sets of `rustc_index` as an interface with their
-- documented laws. Indices are within the sets' sizes; out of them the sets panic.
use scout_audit.Base.{
  ℕ, ◌≡◌, ◌↔◌, Bool, true, false, not, ◌&&◌, ◌||◌, Option, none, some, List, Memᴰ, nat_eq,
  get_elem?, length,
}

-- `DenseBitSet<ParamIndex>`; `same` is `==` on sets of one size. The flag of `union` says whether the first set grew.
pub record BitSet : Type 1 where
  pub Set : Type 0
  pub new_empty : ℕ → Set
  pub insert : Set → ℕ → Set
  pub remove : Set → ℕ → Set
  pub contains : Set → ℕ → Bool
  pub union : Set → Set → Set × Bool
  pub iter : Set → List ℕ
  pub same : Set → Set → Bool
  pub contains-new_empty : (n p : ℕ) → contains (new_empty n) p ≡ false
  pub contains-insert : (s : Set) (q p : ℕ) → contains (insert s q) p ≡ (nat_eq q p || contains s p)
  pub contains-remove :
      (s : Set) (q p : ℕ) → contains (remove s q) p ≡ (contains s p && not (nat_eq q p))
  pub contains-union :
      (s t : Set) (p : ℕ) → contains (union s t).0 p ≡ (contains s p || contains t p)
  pub union-changed :
      (s t : Set) → ((union s t).1 ≡ false) ↔ ((p : ℕ) → contains t p ≡ true → contains s p ≡ true)
  pub same_iff : (s t : Set) → (same s t ≡ true) ↔ ((p : ℕ) → contains s p ≡ contains t p)
  pub mem-iter : (s : Set) (p : ℕ) → Memᴰ p (iter s) ↔ (contains s p ≡ true)

pub record Span : Type 0 where
  pub lo : ℕ
  pub hi : ℕ

pub record Location : Type 0 where
  pub block : ℕ
  pub statement_index : ℕ

-- The types of constants: that of a function, with its `DefId`, and all others.
pub data Ty : Type 0 where
  fn_def : ℕ → Ty
  other_ty : Ty

-- `Const::Val`, and the constants that are not evaluated yet.
pub data Const : Type 0 where
  val : ℕ → Ty → Const
  other_const : ℕ → Const

pub record Place : Type 0 where
  pub local : ℕ
  pub projection : List ℕ

pub data Operand : Type 0 where
  copy move : Place → Operand
  constant : Const → Operand
  runtime_checks : Operand

pub data Rvalue : Type 0 where
  use_operand : Operand → Rvalue
  other_rvalue : Rvalue

pub data StatementKind : Type 0 where
  storage_live storage_dead nop : StatementKind
  assign : Place → Rvalue → StatementKind
  other_statement : StatementKind

pub record Statement : Type 0 where
  pub kind : StatementKind
  pub span : Span

-- `SwitchTargets`, of which the program only asks the target of a value.
pub record SwitchTargets : Type 0 where
  pub target_for_value : ℕ → ℕ

-- `TyCtxt`, with the method of constants that the program calls.
pub record TyCtxt : Type 0 where
  pub try_eval_bits : Const → Option ℕ

pub data TerminatorKind : Type 0 where
  call : Operand → TerminatorKind
  switch_int : Operand → SwitchTargets → TerminatorKind
  other_terminator : TerminatorKind

-- The blocks that control can go on to. A call's return edge is apart from its cleanup.
pub data TerminatorEdges : Type 0 where
  no_edges : TerminatorEdges
  single : ℕ → TerminatorEdges
  double : ℕ → ℕ → TerminatorEdges
  assign_on_return : List ℕ → Option ℕ → TerminatorEdges
  switch_edges : List ℕ → TerminatorEdges

-- A terminator with what its methods `successors` and `edges` return.
pub record Terminator : Type 0 where
  pub kind : TerminatorKind
  pub span : Span
  pub successors : List ℕ
  pub edges : TerminatorEdges

pub record BasicBlockData : Type 0 where
  pub statements : List Statement
  pub terminator : Terminator

-- `body.basic_blocks`
abbrev pub Body : Type 0
Body = List BasicBlockData

abbrev pub statement_count : Body → ℕ → ℕ
statement_count body b = elim (get_elem? body b) [
  | none ↦ 0
  | some bb_data ↦ length bb_data.statements
]

abbrev pub same_location : Location → Location → Bool
same_location a b = nat_eq a.block b.block && nat_eq a.statement_index b.statement_index
