-- ===== src/CountTest.antt =====
-- src/lib.rs: the machine of the tests of the crate root.
pub mod Served
pub mod Once
use obzenflow_fsm.Prelude.{ℕ, String, none, List, [], ◌∷◌, ◌≡◌}
use obzenflow_fsm.Exec.{ok, Exec}
use obzenflow_fsm.Types.{StateVariant, EventVariant, World, FsmAction, TransitionHandler}
use obzenflow_fsm.Dsl.Syn.{Syn}
use obzenflow_fsm.Dsl.Spec.{FsmSpec}
use obzenflow_fsm.Dsl.Eval.{Values}
use obzenflow_fsm.Dsl.Spelling.{Spelling}

-- `Idle` and `Active { count }`, a number of 32 bits.
pub data TestState : Type 0 where
  idle : TestState
  active : (count : ℕ) → TestState

pub data TestEvent : Type 0 where
  start : TestEvent

pub data TestAction : Type 0 where
  log : String → TestAction

pub record TestContext : Type 0 where
  pub total : ℕ

abbrev pub test_state_name : TestState → String
test_state_name idle = "Idle"
test_state_name (active count) = "Active"

abbrev pub test_event_name : TestEvent → String
test_event_name start = "Start"

instance abbrev pub test_state_variant : StateVariant TestState
test_state_variant = record { variant_name = test_state_name }

instance abbrev pub test_event_variant : EventVariant TestEvent
test_event_variant = record { variant_name = test_event_name }

abbrev pub starting_test : TransitionHandler TestState TestEvent TestContext TestAction
starting_test state event w =
    (ok (record { next_state = active 0; actions = log "Starting" ∷ [] }), w)

-- The expressions that the table is written with.
pub data TestExpr : Type 0 where
  initial starting : TestExpr

module _ (syn : Syn) (written : Spelling syn TestExpr) where
  abbrev pub count_test_table : FsmSpec syn.Ty syn.ExprPath syn.Expr
  count_test_table = record {
    state_ty = written.ty "TestState";
    event_ty = written.ty "TestEvent";
    context_ty = written.ty "TestContext";
    action_ty = written.ty "TestAction";
    initial_expr = written.expr initial;
    states =
        record {
          state_path = written.path "TestState" "Idle";
          handlers =
              record {
                event_path = written.path "TestEvent" "Start";
                handler = written.expr starting;
              }
              ∷ [];
          timeout = none;
          entry = none;
          exit = none;
        }
        ∷ [];
    unhandled = none;
  }

  -- What the table's expressions evaluate to.
  pub record Evaluates (values : Values syn.Expr TestState TestEvent TestContext TestAction)
      : Type 0 where
    pub initial_value : values.initial (written.expr initial) ≡ idle
    pub starting_value : values.transition (written.expr starting) ≡ starting_test
