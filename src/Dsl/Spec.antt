-- ===== src/Dsl/Spec.antt =====
-- The parsed `fsm!` table (obzenflow-fsm-macros/src/parse.rs), over any types of syntax.
use obzenflow_fsm.Prelude.{Option, List}

pub record TimeoutSpec (Expr : Type 0) : Type 0 where
  pub duration : Expr
  pub handler : Expr

pub record OnHandler (SynPath Expr : Type 0) : Type 0 where
  pub event_path : SynPath
  pub handler : Expr

pub record StateBlock (SynPath Expr : Type 0) : Type 0 where
  pub state_path : SynPath
  pub handlers : List (OnHandler SynPath Expr)
  pub timeout : Option (TimeoutSpec Expr)
  pub entry : Option Expr
  pub exit : Option Expr

pub record FsmSpec (Ty SynPath Expr : Type 0) : Type 0 where
  pub state_ty : Ty
  pub event_ty : Ty
  pub context_ty : Ty
  pub action_ty : Ty
  pub initial_expr : Expr
  pub states : List (StateBlock SynPath Expr)
  pub unhandled : Option Expr
