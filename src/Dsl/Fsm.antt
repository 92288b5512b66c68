-- ===== src/Dsl/Fsm.antt =====
-- `fsm!` (obzenflow-fsm-macros/src/lib.rs): parse the table, expand it; and what running the
-- expansion gives.
pub mod Machines
pub mod Total
pub mod Dispatch
pub mod Reorder
pub mod Patterns
use mathlib.Core.Option
use obzenflow_fsm.Prelude.{ℕ, String, Option, none, some, List}
use obzenflow_fsm.Types.{StateVariant}
use obzenflow_fsm.Machine.{StateMachine}
use obzenflow_fsm.Builder
use obzenflow_fsm.Builder.{Outcome}
use obzenflow_fsm.Dsl.Syn.{Syn, ParseError, Parsed, parsed, failed}
use obzenflow_fsm.Dsl.Parse.{parse}
use obzenflow_fsm.Dsl.Spec.{FsmSpec}
use obzenflow_fsm.Dsl.Codegen
use obzenflow_fsm.Dsl.Codegen.{Expansion, Stmt, expand_fsm_spec}
use obzenflow_fsm.Dsl.Eval.{Values, run}

-- What the macro leaves in the place of its call: an error for the compiler, or a block of
-- statements that ends in `builder.build()`; or it panics.
pub data Expanded (Own Ty SynPath Expr : Type 0) : Type 0 where
  compile_error : ParseError Own → Expanded Own Ty SynPath Expr
  block : List (Stmt Ty SynPath Expr) → Expanded Own Ty SynPath Expr
  panicked : String → Expanded Own Ty SynPath Expr

abbrev pub in_place :
    {Own Ty SynPath Expr : Type 0}
    → Expansion (List (Stmt Ty SynPath Expr))
    → Expanded Own Ty SynPath Expr
in_place (Codegen.expanded stmts) = block stmts
in_place (Codegen.panicked message) = panicked message

abbrev pub expand_parsed :
    {Own Stream Ty SynPath Expr : Type 0}
    → (SynPath → List String)
    → Parsed Own (FsmSpec Ty SynPath Expr × Stream)
    → Expanded Own Ty SynPath Expr
expand_parsed segments (failed e) = compile_error e
expand_parsed segments (parsed (spec, rest)) = in_place (expand_fsm_spec segments spec)

unfoldable pub fsm :
    (syn : Syn) → (fuel : ℕ) → syn.Stream → Expanded syn.Own syn.Ty syn.ExprPath syn.Expr
fsm syn fuel input = expand_parsed syn.segments (parse syn fuel input)

-- Running the block, at a time of the clock; `none` is a block that does not type-check.
unfoldable pub run_block :
    {Ty SynPath Expr S E C A : Type 0} ⦃sv : StateVariant S⦄
    → Values Expr S E C A
    → List (Stmt Ty SynPath Expr)
    → (now : ℕ) → Option (Outcome (StateMachine S E C A))
run_block values stmts now =
    Option.map (λ builder. Builder.build builder now) (run values stmts none)
