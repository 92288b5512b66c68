-- ===== src/MacroGuide.antt =====
-- obzenflow-fsm-macros/src/lib.rs: the example of the documentation of `fsm!`.
pub mod Served
use obzenflow_fsm.Prelude.{ℕ, String, some, none, List, [], ◌∷◌, ◌≡◌}
use obzenflow_fsm.Exec.{ok, Exec}
use obzenflow_fsm.Types.{StateVariant, EventVariant, World, TransitionHandler, UnhandledHandler}
use obzenflow_fsm.Dsl.Syn.{Syn}
use obzenflow_fsm.Dsl.Spec.{FsmSpec}
use obzenflow_fsm.Dsl.Eval.{Values}
use obzenflow_fsm.Dsl.Spelling.{Spelling}

pub data State : Type 0 where
  idle : State

pub data Event : Type 0 where
  start : Event

pub data Action : Type 0 where
  noop : Action

pub data Context : Type 0 where
  context : Context

abbrev pub state_name : State → String
state_name idle = "Idle"

abbrev pub event_name : Event → String
event_name start = "Start"

instance abbrev pub state_variant : StateVariant State
state_variant = record { variant_name = state_name }

instance abbrev pub event_variant : EventVariant Event
event_variant = record { variant_name = event_name }

abbrev pub execute : Action → Exec (World Context) Unit
execute noop w = (ok tt, w)

abbrev pub starting : TransitionHandler State Event Context Action
starting state event w = (ok (record { next_state = idle; actions = noop ∷ [] }), w)

-- The handler of `unhandled`.
abbrev pub ignoring : UnhandledHandler State Event Context
ignoring state event w = (ok tt, w)

-- The expressions that the table is written with.
pub data GuideExpr : Type 0 where
  initial on_start on_unhandled : GuideExpr

module _ (syn : Syn) (written : Spelling syn GuideExpr) where
  abbrev pub guide_table : FsmSpec syn.Ty syn.ExprPath syn.Expr
  guide_table = record {
    state_ty = written.ty "State";
    event_ty = written.ty "Event";
    context_ty = written.ty "Context";
    action_ty = written.ty "Action";
    initial_expr = written.expr initial;
    states =
        record {
          state_path = written.path "State" "Idle";
          handlers =
              record { event_path = written.path "Event" "Start"; handler = written.expr on_start }
              ∷ [];
          timeout = none;
          entry = none;
          exit = none;
        }
        ∷ [];
    unhandled = some (written.expr on_unhandled);
  }

  -- What the table's expressions evaluate to.
  pub record Evaluates (values : Values syn.Expr State Event Context Action) : Type 0 where
    pub initial_value : values.initial (written.expr initial) ≡ idle
    pub on_start_value : values.transition (written.expr on_start) ≡ starting
    pub on_unhandled_value : values.unhandled (written.expr on_unhandled) ≡ ignoring
