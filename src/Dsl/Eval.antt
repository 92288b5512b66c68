-- ===== src/Dsl/Eval.antt =====
-- What the expansion of `fsm!` does when it runs: its statements drive the builder. The checks
-- that only the compiler makes (the derived traits, the patterns) leave no trace.
use obzenflow_fsm.Prelude.{ℕ, Option, none, some, List, [], ◌∷◌}
use obzenflow_fsm.Types.{TransitionHandler, StateHandler, TimeoutHandler, UnhandledHandler}
use obzenflow_fsm.Builder
use obzenflow_fsm.Builder.{FsmBuilder, WhenBuilder, TimeoutBuilder}
use obzenflow_fsm.Builder.When
use obzenflow_fsm.Builder.Timeout
use obzenflow_fsm.Dsl.Codegen.{
  HookCall, on_entry, on_exit, ChainCall, when, timeout, on, done, Stmt, require_derived_state,
  require_derived_event, new_builder, when_unhandled, matches_state, matches_event, configure,
}

-- The values of the expressions that a table is written with. They are the host's code.
pub record Values (Expr S E C A : Type 0) : Type 0 where
  pub initial : Expr → S
  pub transition : Expr → TransitionHandler S E C A
  pub hook : Expr → StateHandler S C A
  pub duration : Expr → ℕ
  pub timeout_handler : Expr → TimeoutHandler S C A
  pub unhandled : Expr → UnhandledHandler S E C

-- The value that a chain of calls has come to: each builder has its own methods.
pub data Stage (S E C A : Type 0) : Type 0 where
  in_fsm : FsmBuilder S E C A → Stage S E C A
  in_when : WhenBuilder S E C A → Stage S E C A
  in_timeout : TimeoutBuilder S E C A → Stage S E C A

module _ {Expr S E C A : Type 0} (values : Values Expr S E C A) where
  -- `none` is a method that the builder does not have.
  unfoldable pub call : ChainCall Expr → Stage S E C A → Option (Stage S E C A)
  call (when name) (in_fsm b) = some (in_when (Builder.when b name))
  call (timeout d h) (in_when b) =
      some (in_timeout (When.timeout b (values.duration d) (values.timeout_handler h)))
  call (on name h) (in_when b) = some (in_when (When.on b name (values.transition h)))
  call (on name h) (in_timeout b) = some (in_timeout (Timeout.on b name (values.transition h)))
  call done (in_when b) = some (in_fsm (When.done b))
  call done (in_timeout b) = some (in_fsm (Timeout.done b))
  call _ _ = none

  unfoldable pub chain : List (ChainCall Expr) → Stage S E C A → Option (Stage S E C A)
  chain [] stage = some stage
  chain (c ∷ cs) stage = elim (call c stage) [ none ↦ none | some next ↦ chain cs next ]

  unfoldable pub hooks : List (HookCall Expr) → FsmBuilder S E C A → FsmBuilder S E C A
  hooks [] b = b
  hooks (on_entry name h ∷ hs) b = hooks hs (Builder.on_entry b name (values.hook h))
  hooks (on_exit name h ∷ hs) b = hooks hs (Builder.on_exit b name (values.hook h))

  abbrev pub finished : Option (Stage S E C A) → Option (FsmBuilder S E C A)
  finished (some (in_fsm b)) = some b
  finished _ = none

  -- One statement, on the variable `builder`, which is `none` before it is declared.
  unfoldable pub stmt :
      {Ty SynPath : Type 0}
      → Stmt Ty SynPath Expr
      → Option (FsmBuilder S E C A)
      → Option (FsmBuilder S E C A)
  stmt (require_derived_state t) b = b
  stmt (require_derived_event t) b = b
  stmt (new_builder st ev cx ac e) b = some (Builder.new (values.initial e))
  stmt (when_unhandled h) (some b) = some (Builder.when_unhandled b (values.unhandled h))
  stmt (matches_state t p) b = b
  stmt (matches_event t p) b = b
  stmt (configure hs cs) (some b) = finished (chain cs (in_fsm (hooks hs b)))
  stmt _ none = none

  unfoldable pub run :
      {Ty SynPath : Type 0}
      → List (Stmt Ty SynPath Expr)
      → Option (FsmBuilder S E C A)
      → Option (FsmBuilder S E C A)
  run [] b = b
  run (s ∷ ss) b = run ss (stmt s b)
