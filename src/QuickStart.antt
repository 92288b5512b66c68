-- ===== src/QuickStart.antt =====
-- src/lib.rs: the first example of the guide, a door with its `fsm!` table and its `main`.
pub mod Visits
use obzenflow_fsm.Prelude.{String, Option, none, some, List, [], ◌∷◌, ◌++◌, ◌≡◌}
use obzenflow_fsm.Exec.{FsmResult, ok, err, Exec}
use obzenflow_fsm.Types.{StateVariant, EventVariant, World, FsmAction, TransitionHandler}
use obzenflow_fsm.Machine.{execute_actions}
use obzenflow_fsm.Machine.Serve.{Task, done, call, work, and_then}
use obzenflow_fsm.Dsl.Syn.{Syn}
use obzenflow_fsm.Dsl.Spec.{FsmSpec}
use obzenflow_fsm.Dsl.Eval.{Values}
use obzenflow_fsm.Dsl.Spelling.{Spelling}

-- `Closed` and `Open`.
pub data DoorState : Type 0 where
  closed opened : DoorState

-- `Open` and `Close`.
pub data DoorEvent : Type 0 where
  to_open to_close : DoorEvent

pub data DoorAction : Type 0 where
  ring : DoorAction
  log : String → DoorAction

pub record DoorContext : Type 0 where
  pub log : List String

abbrev pub door_state_name : DoorState → String
door_state_name closed = "Closed"
door_state_name opened = "Open"

abbrev pub door_event_name : DoorEvent → String
door_event_name to_open = "Open"
door_event_name to_close = "Close"

instance abbrev pub door_state_variant : StateVariant DoorState
door_state_variant = record { variant_name = door_state_name }

instance abbrev pub door_event_variant : EventVariant DoorEvent
door_event_variant = record { variant_name = door_event_name }

-- `ctx.log.push(line)`
abbrev pub push : String → World DoorContext → World DoorContext
push line w = record w { context = record { log = w.context.log ++ line ∷ [] } }

abbrev pub execute : DoorAction → Exec (World DoorContext) Unit
execute ring w = (ok tt, push "Ring!" w)
execute (log msg) w = (ok tt, push msg w)

abbrev pub door_action : FsmAction DoorContext DoorAction
door_action = record { execute = execute }

abbrev pub opening_door : TransitionHandler DoorState DoorEvent DoorContext DoorAction
opening_door state event w =
    (ok (record { next_state = opened; actions = ring ∷ log "Door opened" ∷ [] }), w)

abbrev pub closing_door : TransitionHandler DoorState DoorEvent DoorContext DoorAction
closing_door state event w =
    (ok (record { next_state = closed; actions = log "Door closed" ∷ [] }), w)

-- `main`, for any events: `door.handle(event, &mut ctx).await?`, and with the actions
-- `door.execute_actions(actions, &mut ctx).await?`.
unfoldable pub visit : List DoorEvent → Task DoorEvent DoorContext DoorAction
visit [] = done (ok tt)
visit (event ∷ events) = call (some event) (λ r. and_then r (λ actions.
    work (λ w. (execute_actions ⦃fa = door_action⦄ actions w).1)
      (λ w. and_then (execute_actions ⦃fa = door_action⦄ actions w).0 (λ u. visit events))))

-- The expressions that the table is written with.
pub data DoorExpr : Type 0 where
  initial opening closing : DoorExpr

module _ (syn : Syn) (written : Spelling syn DoorExpr) where
  abbrev pub door_table : FsmSpec syn.Ty syn.ExprPath syn.Expr
  door_table = record {
    state_ty = written.ty "DoorState";
    event_ty = written.ty "DoorEvent";
    context_ty = written.ty "DoorContext";
    action_ty = written.ty "DoorAction";
    initial_expr = written.expr initial;
    states =
        record {
          state_path = written.path "DoorState" "Closed";
          handlers =
              record {
                event_path = written.path "DoorEvent" "Open";
                handler = written.expr opening;
              }
              ∷ [];
          timeout = none;
          entry = none;
          exit = none;
        }
        ∷ record {
          state_path = written.path "DoorState" "Open";
          handlers =
              record {
                event_path = written.path "DoorEvent" "Close";
                handler = written.expr closing;
              }
              ∷ [];
          timeout = none;
          entry = none;
          exit = none;
        }
        ∷ [];
    unhandled = none;
  }

  -- What the table's expressions evaluate to.
  pub record Evaluates (values : Values syn.Expr DoorState DoorEvent DoorContext DoorAction)
      : Type 0 where
    pub initial_value : values.initial (written.expr initial) ≡ closed
    pub opening_value : values.transition (written.expr opening) ≡ opening_door
    pub closing_value : values.transition (written.expr closing) ≡ closing_door
