-- ===== src/Dsl/Expand/Blocks.antt =====
-- The whole expansion, run: the checks, the builder of the initial state, and the blocks in order.
use mathlib.Core.Option
use obzenflow_fsm.Prelude.{
  String, Option, none, some, List, [], ◌∷◌, ◌++◌, ◌≡◌, refl, ap, ◌∙◌, string_equality,
  pair_equality,
}
use obzenflow_fsm.Builder
use obzenflow_fsm.Builder.{FsmBuilder}
use obzenflow_fsm.Dsl.Spec.{StateBlock, FsmSpec}
use obzenflow_fsm.Dsl.Codegen.{
  expanded, Stmt, require_derived_state, require_derived_event, new_builder, last, unhandled_stmts,
  expand_blocks, expand_fsm_spec,
}
use obzenflow_fsm.Dsl.Eval.{Values, stmt, run}
use obzenflow_fsm.Dsl.Expand.{
  block_stmts, expand_block-named, add_block, add_blocks, stmt-configure, run-event_checks,
  run-append,
}

-- The builder that the table starts from: its initial state, and its hook if it has one.
abbrev pub start :
    {Ty SynPath Expr S E C A : Type 0}
    → Values Expr S E C A
    → FsmSpec Ty SynPath Expr
    → FsmBuilder S E C A
start values spec = record (Builder.new (values.initial spec.initial_expr)) {
  unhandled_handler = Option.map values.unhandled spec.unhandled;
}

-- Every path has a last segment, and `name` gives its identifier.
module _ {Ty SynPath Expr S E C A : Type 0} (segments : SynPath → List String)
    (name : SynPath → String) (named : (p : SynPath) → last (segments p) ≡ some (name p))
    (values : Values Expr S E C A) where
  run-block_stmts :
      (st ev : Ty) (k : StateBlock SynPath Expr) (b : FsmBuilder S E C A)
      → run values (block_stmts name st ev k) (some b) ≡ some (add_block name values b k)
  unfolding run stmt
  run-block_stmts st ev k b =
      run-event_checks name values ev k.handlers _ (some b) ∙ stmt-configure name values Ty b k

  -- The expansion of the blocks exists, and adds them to the builder one after the other.
  run-expand_blocks :
      (st ev : Ty) (ks : List (StateBlock SynPath Expr)) (b : FsmBuilder S E C A)
      → (stmts : List (Stmt Ty SynPath Expr)) × (expand_blocks segments st ev ks ≡ expanded stmts)
        × (run values stmts (some b) ≡ some (add_blocks name values b ks))
  unfolding expand_blocks add_blocks
  run-expand_blocks st ev [] b = ([], refl, unfold run in refl)
  run-expand_blocks st ev (k ∷ ks) b =
      let (stmts, p, q) = run-expand_blocks st ev ks (add_block name values b k) in
      (
        block_stmts name st ev k ++ stmts,
        rw (expand_block-named segments name named st ev k, p),
        run-append name values (block_stmts name st ev k) stmts (some b)
            ∙ ap (run values stmts) (run-block_stmts st ev k b)
            ∙ q,
      )

  run-unhandled :
      (b : FsmBuilder S E C A) (u : Option Expr) (rest : List (Stmt Ty SynPath Expr))
      → b.unhandled_handler ≡ none
      → run values (unhandled_stmts u ++ rest) (some b)
        ≡ run values rest (some (record b { unhandled_handler = Option.map values.unhandled u }))
  unfolding run stmt Builder.when_unhandled
  run-unhandled b none rest h =
      ap (λ o. run values rest (some (record b { unhandled_handler = o }))) h
  run-unhandled b (some e) rest h = refl

  -- The macro expands every table, without a panic, to statements that type-check as calls of the
  -- builder and leave the builder to which the table's blocks were added in order.
  pub run-expand_fsm_spec :
      (spec : FsmSpec Ty SynPath Expr)
      → (stmts : List (Stmt Ty SynPath Expr)) × (expand_fsm_spec segments spec ≡ expanded stmts)
        × (run values stmts none ≡ some (add_blocks name values (start values spec) spec.states))
  unfolding expand_fsm_spec
  run-expand_fsm_spec spec =
      let (blocks, p, q) =
        run-expand_blocks spec.state_ty spec.event_ty spec.states (start values spec) in
      (
        require_derived_state spec.state_ty
            ∷ require_derived_event spec.event_ty
            ∷ new_builder spec.state_ty spec.event_ty spec.context_ty spec.action_ty
                spec.initial_expr
            ∷ (unhandled_stmts spec.unhandled ++ blocks),
        rw p,
        unfold run stmt Builder.new in
            run-unhandled (Builder.new (values.initial spec.initial_expr)) spec.unhandled blocks
              refl
            ∙ q,
      )
