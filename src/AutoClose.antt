-- ===== src/AutoClose.antt =====
-- The door of the chapter on timeouts of the crate's guide (src/lib.rs): ten milliseconds after it
-- was opened, a poll closes it. Nothing in it awaits, so that its handlers and actions take no
-- time; a tick of the clock is a millisecond.
pub mod View
pub mod Steps
pub mod Sessions
use obzenflow_fsm.Prelude.{ℕ, ◌+◌, String, none, some, List, [], ◌∷◌, ◌++◌, ◌≡◌}
use obzenflow_fsm.Exec.{FsmResult, ok, err, Exec}
use obzenflow_fsm.Types.{
  StateVariant, EventVariant, World, FsmAction, TransitionHandler, TimeoutHandler,
}
use obzenflow_fsm.Machine.{Run, handle, check_timeout, execute_actions}
use obzenflow_fsm.Dsl.Syn.{Syn}
use obzenflow_fsm.Dsl.Spec.{FsmSpec}
use obzenflow_fsm.Dsl.Eval.{Values}
use obzenflow_fsm.Dsl.Spelling.{Spelling}

-- `Closed` and `Open`.
pub data DoorState : Type 0 where
  closed opened : DoorState

-- `Open`.
pub data DoorEvent : Type 0 where
  to_open : DoorEvent

pub data DoorAction : Type 0 where
  log : String → DoorAction

pub record DoorContext : Type 0 where
  pub log : List String

abbrev pub state_variant_name : DoorState → String
state_variant_name closed = "Closed"
state_variant_name opened = "Open"

abbrev pub event_variant_name : DoorEvent → String
event_variant_name to_open = "Open"

instance abbrev pub door_state_variant : StateVariant DoorState
door_state_variant = record { variant_name = state_variant_name }

instance abbrev pub door_event_variant : EventVariant DoorEvent
door_event_variant = record { variant_name = event_variant_name }

abbrev pub execute : DoorAction → Exec (World DoorContext) Unit
execute (log msg) w = (ok tt, record w { context = record { log = w.context.log ++ msg ∷ [] } })

instance abbrev pub door_action : FsmAction DoorContext DoorAction
door_action = record { execute = execute }

abbrev pub opening_door : TransitionHandler DoorState DoorEvent DoorContext DoorAction
opening_door state event w = (ok (record { next_state = opened; actions = log "Opened" ∷ [] }), w)

abbrev pub auto_closing : TimeoutHandler DoorState DoorContext DoorAction
auto_closing state w = (ok (record { next_state = closed; actions = log "Auto-closed" ∷ [] }), w)

-- The expressions that the table is written with.
pub data DoorExpr : Type 0 where
  initial opening ten_millis closing : DoorExpr

module _ (syn : Syn) (written : Spelling syn DoorExpr) where
  abbrev pub door_table : FsmSpec syn.Ty syn.ExprPath syn.Expr
  door_table = record {
    state_ty = written.ty "DoorState";
    event_ty = written.ty "DoorEvent";
    context_ty = written.ty "DoorContext";
    action_ty = written.ty "DoorAction";
    initial_expr = written.expr initial;
    states =
        record {
          state_path = written.path "DoorState" "Closed";
          handlers =
              record {
                event_path = written.path "DoorEvent" "Open";
                handler = written.expr opening;
              }
              ∷ [];
          timeout = none;
          entry = none;
          exit = none;
        }
        ∷ record {
          state_path = written.path "DoorState" "Open";
          handlers = [];
          timeout =
              some (record { duration = written.expr ten_millis; handler = written.expr closing });
          entry = none;
          exit = none;
        }
        ∷ [];
    unhandled = none;
  }

  -- What the table's expressions evaluate to.
  pub record Evaluates (values : Values syn.Expr DoorState DoorEvent DoorContext DoorAction)
      : Type 0 where
    pub initial_value : values.initial (written.expr initial) ≡ closed
    pub opening_value : values.transition (written.expr opening) ≡ opening_door
    pub ten_millis_value : values.duration (written.expr ten_millis) ≡ 10
    pub closing_value : values.timeout_handler (written.expr closing) ≡ auto_closing

-- What a host does with the door: `door.handle(DoorEvent::Open, …)`, `door.check_timeout(…)`, and
-- `tokio::time::sleep(…)`.
pub data Command : Type 0 where
  open_it poll_it : Command
  sleep : ℕ → Command

abbrev pub obey : Command → Exec (Run DoorState DoorEvent DoorContext DoorAction) (List DoorAction)
obey open_it s = handle to_open s
obey poll_it s = check_timeout s
obey (sleep d) s = (ok [], record s { world = record s.world { clock = s.clock + d } })

-- `door.execute_actions(actions, …)`, unless the call was an error.
abbrev pub perform :
    FsmResult (List DoorAction)
    → Run DoorState DoorEvent DoorContext DoorAction
    → Run DoorState DoorEvent DoorContext DoorAction
perform (ok actions) s = record s { world = (execute_actions actions s.world).1 }
perform (err e) s = s

unfoldable pub session :
    List Command
    → Run DoorState DoorEvent DoorContext DoorAction
    → List (FsmResult (List DoorAction)) × Run DoorState DoorEvent DoorContext DoorAction
session [] s = ([], s)
session (c ∷ cs) s =
    let (r, u) = obey c s in let (rs, end) = session cs (perform r u) in (r ∷ rs, end)
