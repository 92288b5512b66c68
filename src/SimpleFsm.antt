-- ===== src/SimpleFsm.antt =====
-- examples/simple_fsm.rs: a door, its actions and its `fsm!` table. The log is behind a lock of
-- tokio's, which is a parameter, the ticks until the lock is granted; no other task has the log.
pub mod Sessions
use obzenflow_fsm.Prelude.{ℕ, ◌+◌, String, some, none, List, [], ◌∷◌, ◌++◌, ◌≡◌}
use obzenflow_fsm.Exec.{FsmResult, ok, err, Exec}
use obzenflow_fsm.Types.{StateVariant, EventVariant, World, FsmAction, TransitionHandler}
use obzenflow_fsm.Machine.{execute_actions}
use obzenflow_fsm.Machine.Serve.{Program, done, call, work}
use obzenflow_fsm.Dsl.Syn.{Syn}
use obzenflow_fsm.Dsl.Spec.{FsmSpec}
use obzenflow_fsm.Dsl.Eval.{Values}
use obzenflow_fsm.Dsl.Spelling.{Spelling}

-- `Closed` and `Open`.
pub data DoorState : Type 0 where
  closed opened : DoorState

-- `Open` and `Close`.
pub data DoorEvent : Type 0 where
  to_open to_close : DoorEvent

pub data DoorAction : Type 0 where
  ring : DoorAction
  log : String → DoorAction

pub record DoorContext : Type 0 where
  pub log : List String

abbrev pub door_state_name : DoorState → String
door_state_name closed = "Closed"
door_state_name opened = "Open"

abbrev pub door_event_name : DoorEvent → String
door_event_name to_open = "Open"
door_event_name to_close = "Close"

instance abbrev pub door_state_variant : StateVariant DoorState
door_state_variant = record { variant_name = door_state_name }

instance abbrev pub door_event_variant : EventVariant DoorEvent
door_event_variant = record { variant_name = door_event_name }

-- The expressions that the table is written with.
pub data DoorExpr : Type 0 where
  initial opening closing : DoorExpr

module _ (lock_wait : World DoorContext → ℕ) where
  -- `ctx.log.write().await.push(line)`
  abbrev pub push : String → World DoorContext → World DoorContext
  push line w = record {
    context = record { log = w.context.log ++ line ∷ [] };
    clock = w.clock + lock_wait w;
  }

  abbrev pub execute : DoorAction → Exec (World DoorContext) Unit
  execute ring w = (ok tt, push "Ring!" w)
  execute (log msg) w = (ok tt, push msg w)

  abbrev pub door_action : FsmAction DoorContext DoorAction
  door_action = record { execute = execute }

  abbrev pub opening_door : TransitionHandler DoorState DoorEvent DoorContext DoorAction
  opening_door state event w =
      (ok (record { next_state = opened; actions = ring ∷ [] }), push "Opening door" w)

  abbrev pub closing_door : TransitionHandler DoorState DoorEvent DoorContext DoorAction
  closing_door state event w =
      (ok (record { next_state = closed; actions = log "Door closed" ∷ [] }), push "Closing door" w)

  -- A host that feeds events in turn and, as in the guide of src/lib.rs, executes the actions that
  -- each returns. It goes on after an error.
  abbrev pub perform :
      FsmResult (List DoorAction)
      → Program DoorEvent DoorContext DoorAction Unit
      → Program DoorEvent DoorContext DoorAction Unit
  perform (ok actions) rest =
      work (λ w. (execute_actions ⦃fa = door_action⦄ actions w).1) (λ w. rest)
  perform (err e) rest = rest

  unfoldable pub session : List DoorEvent → Program DoorEvent DoorContext DoorAction Unit
  session [] = done tt
  session (event ∷ events) = call (some event) (λ r. perform r (session events))

module _ (syn : Syn) (written : Spelling syn DoorExpr) where
  abbrev pub door_table : FsmSpec syn.Ty syn.ExprPath syn.Expr
  door_table = record {
    state_ty = written.ty "DoorState";
    event_ty = written.ty "DoorEvent";
    context_ty = written.ty "DoorContext";
    action_ty = written.ty "DoorAction";
    initial_expr = written.expr initial;
    states =
        record {
          state_path = written.path "DoorState" "Closed";
          handlers =
              record {
                event_path = written.path "DoorEvent" "Open";
                handler = written.expr opening;
              }
              ∷ [];
          timeout = none;
          entry = none;
          exit = none;
        }
        ∷ record {
          state_path = written.path "DoorState" "Open";
          handlers =
              record {
                event_path = written.path "DoorEvent" "Close";
                handler = written.expr closing;
              }
              ∷ [];
          timeout = none;
          entry = none;
          exit = none;
        }
        ∷ [];
    unhandled = none;
  }

  -- What the table's expressions evaluate to.
  pub record Evaluates (lock_wait : World DoorContext → ℕ)
      (values : Values syn.Expr DoorState DoorEvent DoorContext DoorAction) : Type 0 where
    pub initial_value : values.initial (written.expr initial) ≡ closed
    pub opening_value : values.transition (written.expr opening) ≡ opening_door lock_wait
    pub closing_value : values.transition (written.expr closing) ≡ closing_door lock_wait
