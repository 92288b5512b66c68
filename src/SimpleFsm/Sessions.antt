-- ===== src/SimpleFsm/Sessions.antt =====
-- What a host sees of the door of examples/simple_fsm.rs, whatever events it feeds.
use obzenflow_fsm.Prelude.{
  ℕ, ◌<◌, String, Bool, true, false, none, some, List, [], ◌∷◌, ◌++◌, append_assoc, append-nil, ◌≡◌,
  refl, sym, ap, ◌∙◌, inl, if◌then◌else◌, string_equality, pair_equality,
}
use obzenflow_fsm.Error.{unhandled_event}
use obzenflow_fsm.Exec.{FsmResult, ok, err}
use obzenflow_fsm.Types.{World, TransitionHandler}
use obzenflow_fsm.Machine.{StateMachine, execute_actions}
use obzenflow_fsm.Machine.Serve.{serve, machine_service}
use obzenflow_fsm.Machine.Rules.Plain.{Step, step_service, state_of, Does}
use obzenflow_fsm.Builder.{returned}
use obzenflow_fsm.Dsl.Syn.{Syn, Tokens}
use obzenflow_fsm.Dsl.Codegen.{last}
use obzenflow_fsm.Dsl.Eval.{Values}
use obzenflow_fsm.Dsl.Spelling.{Spelling, name-path}
use obzenflow_fsm.Dsl.Tables.{TableRow, last_row, repeats, table_rows}
use obzenflow_fsm.Dsl.Parse.Print.{to_decls, rounds}
use obzenflow_fsm.Dsl.Fsm.Machines.{FsmGives}
use obzenflow_fsm.Dsl.Meaning.Plain.{plain_machine}
use obzenflow_fsm.SimpleFsm.{
  DoorState, closed, opened, DoorEvent, to_open, to_close, DoorAction, ring, log, DoorContext,
  door_state_name, door_event_name, door_state_variant, door_event_variant, push, opening_door,
  closing_door, session, DoorExpr, door_table, Evaluates,
}

-- The door as a user sees it: the last command decides whether it is open, and a command counts
-- only if it differs from the one before it.
abbrev after : DoorEvent → DoorState
after to_open = opened
after to_close = closed

abbrev same : DoorEvent → DoorEvent → Bool
same to_open to_open = true
same to_close to_close = true
same _ _ = false

abbrev pub last_command : DoorEvent → List DoorEvent → DoorEvent
last_command before [] = before
last_command before (e ∷ es) = last_command e es

-- The lines that one accepted command leaves in the log, and the actions that it returns.
abbrev lines : DoorEvent → List String
lines to_open = "Opening door" ∷ "Ring!" ∷ []
lines to_close = "Closing door" ∷ "Door closed" ∷ []

abbrev actions_of : DoorEvent → List DoorAction
actions_of to_open = ring ∷ []
actions_of to_close = log "Door closed" ∷ []

abbrev answer : DoorEvent → DoorEvent → FsmResult (List DoorAction)
answer before e =
    if same before e
    then err (unhandled_event (door_state_name (after before)) (door_event_name e))
    else ok (actions_of e)

abbrev entry : DoorEvent → DoorEvent → List String
entry before e = if same before e then [] else lines e

abbrev answers : DoorEvent → List DoorEvent → List (FsmResult (List DoorAction))
answers before [] = []
answers before (e ∷ es) = answer before e ∷ answers e es

abbrev log_of : DoorEvent → List DoorEvent → List String
log_of before [] = []
log_of before (e ∷ es) = entry before e ++ log_of e es

-- What a session shows, against the user's view.
pub record Shows (before : DoorEvent) (events : List DoorEvent) (w : World DoorContext)
    (end : (List (FsmResult (List DoorAction)) × Unit {0}) × (DoorState × World DoorContext))
    : Type 0 where
  pub results : end.0.0 ≡ answers before events
  pub state : end.1.0 ≡ after (last_command before events)
  pub logged : end.1.1.context.log ≡ w.context.log ++ log_of before events

module _ (lock_wait : World DoorContext → ℕ) where
  abbrev step : Step DoorState DoorEvent DoorContext DoorAction
  step closed to_open w = some ((opened, ring ∷ []), push lock_wait "Opening door" w)
  step opened to_close w = some ((closed, log "Door closed" ∷ []), push lock_wait "Closing door" w)
  step _ _ w = none

  steps-Shows :
      (before : DoorEvent) (events : List DoorEvent) (w : World DoorContext)
      → Shows before events w
          (serve (step_service step) (session lock_wait events) (after before, w))
  unfolding serve session execute_actions
  steps-Shows before [] w = record { results = refl; state = refl; logged = sym (append-nil _) }
  steps-Shows to_open (to_open ∷ es) w =
      let rest = steps-Shows to_open es w in
      record {
        results = ap (λ rs. answer to_open to_open ∷ rs) rest.results;
        state = rest.state;
        logged = rest.logged;
      }
  steps-Shows to_close (to_close ∷ es) w =
      let rest = steps-Shows to_close es w in
      record {
        results = ap (λ rs. answer to_close to_close ∷ rs) rest.results;
        state = rest.state;
        logged = rest.logged;
      }
  steps-Shows to_close (to_open ∷ es) w =
      let rest =
        steps-Shows to_open es (push lock_wait "Ring!" (push lock_wait "Opening door" w)) in
      record {
        results = ap (λ rs. ok (actions_of to_open) ∷ rs) rest.results;
        state = rest.state;
        logged = rest.logged ∙ simp append_assoc;
      }
  steps-Shows to_open (to_close ∷ es) w =
      let rest =
        steps-Shows to_close es (push lock_wait "Door closed" (push lock_wait "Closing door" w)) in
      record {
        results = ap (λ rs. ok (actions_of to_close) ∷ rs) rest.results;
        state = rest.state;
        logged = rest.logged ∙ simp append_assoc;
      }

module _ (syn : Syn) (name : syn.ExprPath → String)
    (named : (p : syn.ExprPath) → last (syn.segments p) ≡ some (name p))
    (written : Spelling syn DoorExpr) (lock_wait : World DoorContext → ℕ)
    (values : Values syn.Expr DoorState DoorEvent DoorContext DoorAction)
    (evaluates : Evaluates syn written lock_wait values) where
  abbrev rows : List (TableRow (TransitionHandler DoorState DoorEvent DoorContext DoorAction))
  rows =
      record { timed = false; key = ("Closed", "Open"); handler = opening_door lock_wait }
      ∷ record { timed = false; key = ("Open", "Close"); handler = closing_door lock_wait }
      ∷ []

  table_rows-door : table_rows name values (door_table syn written).states ≡ rows
  unfolding table_rows
  table_rows-door =
      simp (name-path syn written name named, evaluates.opening_value, evaluates.closing_value)

  row-Does :
      (state : DoorState) (event : DoorEvent) (w : World DoorContext)
      → Does none
          (last_row rows (door_state_name state, door_event_name event) none)
          state
          event
          w
          (step lock_wait state event w)
  unfolding last_row
  row-Does closed to_open w = refl
  row-Does closed to_close w = refl
  row-Does opened to_open w = refl
  row-Does opened to_close w = refl

  -- The door's table, written as tokens: `fsm!` gives a machine, and whatever events a host feeds
  -- it, executing the actions that come back: a command that repeats the one before it (at first,
  -- one to close) is an error and changes nothing, any other returns its action; the door is in the
  -- state of the last command; and the log grows by the two lines of each accepted command, in
  -- order.
  pub door-Shows :
      (tokens : Tokens syn) (fuel : ℕ) (enough : rounds (to_decls (door_table syn written)) < fuel)
      (w : World DoorContext) (events : List DoorEvent)
      → (m : StateMachine DoorState DoorEvent DoorContext DoorAction) × FsmGives syn tokens name
          named values
          (door_table syn written)
          fuel
          w.clock
          enough
          (returned m)
        × (let (x, end) =
              serve machine_service
                (session lock_wait events)
                (record { machine = m; world = w }) in
            Shows to_close events w (x, state_of end))
  unfolding repeats
  door-Shows tokens fuel enough w events =
      let (m, gives, same) =
        plain_machine syn tokens name named values (door_table syn written) fuel w.clock enough
          (step lock_wait) ((refl, refl, refl), ((refl, refl, refl), tt))
          (λ state event u. rw table_rows-door (row-Does state event u)) w
          (session lock_wait events) (rw table_rows-door refl)
          (inl (rw (table_rows-door, evaluates.initial_value) refl)) (rw table_rows-door refl) in
      (m, gives, rw (same, evaluates.initial_value) (steps-Shows lock_wait to_close events w))
