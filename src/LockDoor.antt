-- ===== src/LockDoor.antt =====
-- src/builder.rs: the door of the tests of the builder.
pub mod Served
pub mod Since
use obzenflow_fsm.Prelude.{ℕ, String, none, List, [], ◌∷◌, ◌≡◌}
use obzenflow_fsm.Exec.{ok, Exec}
use obzenflow_fsm.Types.{StateVariant, EventVariant, World, FsmAction, TransitionHandler}
use obzenflow_fsm.Dsl.Syn.{Syn}
use obzenflow_fsm.Dsl.Spec.{FsmSpec}
use obzenflow_fsm.Dsl.Eval.{Values}
use obzenflow_fsm.Dsl.Spelling.{Spelling}

-- `Closed`, `Open { since }` and `Locked`. An `Instant` is a tick of the clock.
pub data DoorState : Type 0 where
  closed : DoorState
  opened : (since : ℕ) → DoorState
  locked : DoorState

-- `Open`, `Close`, `Lock` and `Unlock`.
pub data DoorEvent : Type 0 where
  to_open to_close to_lock to_unlock : DoorEvent

pub data DoorAction : Type 0 where
  ring : DoorAction
  log : String → DoorAction

pub data DoorContext : Type 0 where
  door_context : DoorContext

abbrev pub door_state_name : DoorState → String
door_state_name closed = "Closed"
door_state_name (opened since) = "Open"
door_state_name locked = "Locked"

abbrev pub door_event_name : DoorEvent → String
door_event_name to_open = "Open"
door_event_name to_close = "Close"
door_event_name to_lock = "Lock"
door_event_name to_unlock = "Unlock"

instance abbrev pub door_state_variant : StateVariant DoorState
door_state_variant = record { variant_name = door_state_name }

instance abbrev pub door_event_variant : EventVariant DoorEvent
door_event_variant = record { variant_name = door_event_name }

-- `since: Instant::now()`
abbrev pub opening_door : TransitionHandler DoorState DoorEvent DoorContext DoorAction
opening_door state event w =
    (ok (record { next_state = opened w.clock; actions = ring ∷ log "Door opened" ∷ [] }), w)

abbrev pub locking_door : TransitionHandler DoorState DoorEvent DoorContext DoorAction
locking_door state event w =
    (ok (record { next_state = locked; actions = log "Door locked" ∷ [] }), w)

abbrev pub closing_door : TransitionHandler DoorState DoorEvent DoorContext DoorAction
closing_door state event w =
    (ok (record { next_state = closed; actions = log "Door closed" ∷ [] }), w)

abbrev pub unlocking_door : TransitionHandler DoorState DoorEvent DoorContext DoorAction
unlocking_door state event w =
    (ok (record { next_state = closed; actions = log "Door unlocked" ∷ [] }), w)

-- The expressions that the table is written with.
pub data DoorExpr : Type 0 where
  initial opening locking closing unlocking : DoorExpr

module _ (syn : Syn) (written : Spelling syn DoorExpr) where
  abbrev pub lock_door_table : FsmSpec syn.Ty syn.ExprPath syn.Expr
  lock_door_table = record {
    state_ty = written.ty "DoorState";
    event_ty = written.ty "DoorEvent";
    context_ty = written.ty "DoorContext";
    action_ty = written.ty "DoorAction";
    initial_expr = written.expr initial;
    states =
        record {
          state_path = written.path "DoorState" "Closed";
          handlers =
              record {
                event_path = written.path "DoorEvent" "Open";
                handler = written.expr opening;
              }
              ∷ record {
                event_path = written.path "DoorEvent" "Lock";
                handler = written.expr locking;
              }
              ∷ [];
          timeout = none;
          entry = none;
          exit = none;
        }
        ∷ record {
          state_path = written.path "DoorState" "Open";
          handlers =
              record {
                event_path = written.path "DoorEvent" "Close";
                handler = written.expr closing;
              }
              ∷ [];
          timeout = none;
          entry = none;
          exit = none;
        }
        ∷ record {
          state_path = written.path "DoorState" "Locked";
          handlers =
              record {
                event_path = written.path "DoorEvent" "Unlock";
                handler = written.expr unlocking;
              }
              ∷ [];
          timeout = none;
          entry = none;
          exit = none;
        }
        ∷ [];
    unhandled = none;
  }

  -- What the table's expressions evaluate to.
  pub record Evaluates (values : Values syn.Expr DoorState DoorEvent DoorContext DoorAction)
      : Type 0 where
    pub initial_value : values.initial (written.expr initial) ≡ closed
    pub opening_value : values.transition (written.expr opening) ≡ opening_door
    pub locking_value : values.transition (written.expr locking) ≡ locking_door
    pub closing_value : values.transition (written.expr closing) ≡ closing_door
    pub unlocking_value : values.transition (written.expr unlocking) ≡ unlocking_door
