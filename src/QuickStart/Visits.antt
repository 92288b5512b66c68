-- ===== src/QuickStart/Visits.antt =====
-- What `main` of the guide's first example does with the door, whatever events it feeds.
use obzenflow_fsm.Prelude.{
  ℕ, ◌<◌, String, Bool, true, false, none, some, List, [], ◌∷◌, ◌++◌, append_assoc, append-nil, ◌≡◌,
  refl, sym, ap, ◌∙◌, inl, if◌then◌else◌, string_equality, pair_equality,
}
use obzenflow_fsm.Error.{unhandled_event}
use obzenflow_fsm.Exec.{FsmResult, ok, err}
use obzenflow_fsm.Types.{World, TransitionHandler}
use obzenflow_fsm.Machine.{StateMachine, execute_actions}
use obzenflow_fsm.Machine.Serve.{serve, machine_service}
use obzenflow_fsm.Builder.{returned}
use obzenflow_fsm.Dsl.Syn.{Syn, Tokens}
use obzenflow_fsm.Dsl.Codegen.{last}
use obzenflow_fsm.Dsl.Eval.{Values}
use obzenflow_fsm.Dsl.Spelling.{Spelling, name-path}
use obzenflow_fsm.Dsl.Tables.{TableRow, last_row, repeats, table_rows}
use obzenflow_fsm.Dsl.Parse.Print.{to_decls, rounds}
use obzenflow_fsm.Dsl.Fsm.Machines.{FsmGives}
use obzenflow_fsm.Machine.Rules.Plain.{Step, step_service, state_of, Does}
use obzenflow_fsm.Dsl.Meaning.Plain.{plain_machine}
use obzenflow_fsm.QuickStart.{
  DoorState, closed, opened, DoorEvent, to_open, to_close, DoorAction, ring, log, DoorContext,
  door_state_name, door_event_name, door_state_variant, door_event_variant, push, opening_door,
  closing_door, visit, DoorExpr, door_table, Evaluates,
}

-- The door as a user sees it. A command to do what was done last is refused, and `main` ends there.
abbrev after : DoorEvent → DoorState
after to_open = opened
after to_close = closed

abbrev same : DoorEvent → DoorEvent → Bool
same to_open to_open = true
same to_close to_close = true
same _ _ = false

abbrev actions_of : DoorEvent → List DoorAction
actions_of to_open = ring ∷ log "Door opened" ∷ []
actions_of to_close = log "Door closed" ∷ []

abbrev lines : DoorEvent → List String
lines to_open = "Ring!" ∷ "Door opened" ∷ []
lines to_close = "Door closed" ∷ []

abbrev results_of : DoorEvent → List DoorEvent → List (FsmResult (List DoorAction))
results_of before [] = []
results_of before (e ∷ es) =
    let rest = results_of e es in
    if same before e
    then err (unhandled_event (door_state_name (after before)) (door_event_name e)) ∷ []
    else (ok (actions_of e) ∷ rest)

-- What `main` returns.
abbrev outcome : DoorEvent → List DoorEvent → FsmResult {0} Unit
outcome before [] = ok tt
outcome before (e ∷ es) =
    let rest = outcome e es in
    if same before e
    then err (unhandled_event (door_state_name (after before)) (door_event_name e))
    else rest

-- The last command that was obeyed, and what was logged.
abbrev obeyed : DoorEvent → List DoorEvent → DoorEvent
obeyed before [] = before
obeyed before (e ∷ es) = let rest = obeyed e es in if same before e then before else rest

abbrev log_of : DoorEvent → List DoorEvent → List String
log_of before [] = []
log_of before (e ∷ es) = let rest = log_of e es in if same before e then [] else lines e ++ rest

-- What a visit shows, against the user's view.
pub record Visited (before : DoorEvent) (events : List DoorEvent) (w : World DoorContext)
    (end : (List (FsmResult (List DoorAction)) × FsmResult {0} Unit)
      × (DoorState × World DoorContext))
    : Type 0 where
  pub results : end.0.0 ≡ results_of before events
  pub returns : end.0.1 ≡ outcome before events
  pub state : end.1.0 ≡ after (obeyed before events)
  pub logged : end.1.1.context.log ≡ w.context.log ++ log_of before events

abbrev step : Step DoorState DoorEvent DoorContext DoorAction
step closed to_open w = some ((opened, ring ∷ log "Door opened" ∷ []), w)
step opened to_close w = some ((closed, log "Door closed" ∷ []), w)
step _ _ w = none

visit-Visited :
    (before : DoorEvent) (events : List DoorEvent) (w : World DoorContext)
    → Visited before events w (serve (step_service step) (visit events) (after before, w))
unfolding serve visit execute_actions
visit-Visited to_open [] w = record {
  results = refl;
  returns = refl;
  state = refl;
  logged = sym (append-nil _);
}
visit-Visited to_close [] w = record {
  results = refl;
  returns = refl;
  state = refl;
  logged = sym (append-nil _);
}
visit-Visited to_open (to_open ∷ es) w = record {
  results = refl;
  returns = refl;
  state = refl;
  logged = sym (append-nil _);
}
visit-Visited to_close (to_close ∷ es) w = record {
  results = refl;
  returns = refl;
  state = refl;
  logged = sym (append-nil _);
}
visit-Visited to_close (to_open ∷ es) w =
    let rest = visit-Visited to_open es (push "Door opened" (push "Ring!" w)) in
    record {
      results = ap (λ rs. ok (actions_of to_open) ∷ rs) rest.results;
      returns = rest.returns;
      state = rest.state;
      logged = rest.logged ∙ simp append_assoc;
    }
visit-Visited to_open (to_close ∷ es) w =
    let rest = visit-Visited to_close es (push "Door closed" w) in
    record {
      results = ap (λ rs. ok (actions_of to_close) ∷ rs) rest.results;
      returns = rest.returns;
      state = rest.state;
      logged = rest.logged ∙ append_assoc w.context.log ("Door closed" ∷ []) (log_of to_close es);
    }

module _ (syn : Syn) (name : syn.ExprPath → String)
    (named : (p : syn.ExprPath) → last (syn.segments p) ≡ some (name p))
    (written : Spelling syn DoorExpr)
    (values : Values syn.Expr DoorState DoorEvent DoorContext DoorAction)
    (evaluates : Evaluates syn written values) where
  abbrev rows : List (TableRow (TransitionHandler DoorState DoorEvent DoorContext DoorAction))
  rows =
      record { timed = false; key = ("Closed", "Open"); handler = opening_door }
      ∷ record { timed = false; key = ("Open", "Close"); handler = closing_door }
      ∷ []

  table_rows-door : table_rows name values (door_table syn written).states ≡ rows
  unfolding table_rows
  table_rows-door =
      simp (name-path syn written name named, evaluates.opening_value, evaluates.closing_value)

  row-Does :
      (state : DoorState) (event : DoorEvent) (w : World DoorContext)
      → Does none
          (last_row rows (door_state_name state, door_event_name event) none)
          state
          event
          w
          (step state event w)
  unfolding last_row
  row-Does closed to_open w = refl
  row-Does closed to_close w = refl
  row-Does opened to_open w = refl
  row-Does opened to_close w = refl

  -- The guide's first door, its table written as tokens: `fsm!` gives a machine, and `main`, with
  -- any events in place of its two, gets the actions of each event until one repeats the event
  -- before it (at first, one to close): that is an error, `main` ends, and the door and the log
  -- stay. The state is that of the last event obeyed, and the log has grown by "Ring!" and "Door
  -- opened" for each opening and by "Door closed" for each closing, in order.
  pub visit_door :
      (tokens : Tokens syn) (fuel : ℕ) (enough : rounds (to_decls (door_table syn written)) < fuel)
      (w : World DoorContext) (events : List DoorEvent)
      → (m : StateMachine DoorState DoorEvent DoorContext DoorAction) × FsmGives syn tokens name
          named values
          (door_table syn written)
          fuel
          w.clock
          enough
          (returned m)
        × (let (x, end) =
              serve machine_service (visit events) (record { machine = m; world = w }) in
            Visited to_close events w (x, state_of end))
  unfolding repeats
  visit_door tokens fuel enough w events =
      let (m, gives, same) =
        plain_machine syn tokens name named values (door_table syn written) fuel w.clock enough step
          ((refl, refl, refl), ((refl, refl, refl), tt))
          (λ state event u. rw table_rows-door (row-Does state event u)) w (visit events)
          (rw table_rows-door refl) (inl (rw (table_rows-door, evaluates.initial_value) refl))
          (rw table_rows-door refl) in
      (m, gives, rw (same, evaluates.initial_value) (visit-Visited to_close events w))
