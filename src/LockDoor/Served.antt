-- ===== src/LockDoor/Served.antt =====
-- The door of the tests of src/builder.rs as an automaton, for any host.
use obzenflow_fsm.Prelude.{
  ℕ, ◌<◌, String, false, none, some, List, [], ◌∷◌, ◌≡◌, refl, ap, ◌∙◌, inl, string_equality,
  pair_equality,
}
use obzenflow_fsm.Types.{World, TransitionHandler}
use obzenflow_fsm.Machine.{StateMachine}
use obzenflow_fsm.Machine.Serve.{Program, serve, machine_service}
use obzenflow_fsm.Builder.{returned}
use obzenflow_fsm.Dsl.Syn.{Syn, Tokens}
use obzenflow_fsm.Dsl.Codegen.{last}
use obzenflow_fsm.Dsl.Eval.{Values}
use obzenflow_fsm.Dsl.Spelling.{Spelling, name-path}
use obzenflow_fsm.Dsl.Tables.{TableRow, last_row, repeats, table_rows}
use obzenflow_fsm.Dsl.Parse.Print.{to_decls, rounds}
use obzenflow_fsm.Dsl.Fsm.Machines.{FsmGives}
use obzenflow_fsm.Machine.Rules.Plain.{Step, step_service, state_of, Does}
use obzenflow_fsm.Dsl.Meaning.Plain.{plain_machine}
use obzenflow_fsm.LockDoor.{
  DoorState, closed, opened, locked, DoorEvent, to_open, to_close, to_lock, to_unlock, DoorAction,
  ring, log, DoorContext, door_state_variant, door_event_variant, opening_door, locking_door,
  closing_door, unlocking_door, DoorExpr, lock_door_table, Evaluates,
}

-- The automaton that the test has in mind.
abbrev pub lock_door_step : Step DoorState DoorEvent DoorContext DoorAction
lock_door_step closed to_open w = some ((opened w.clock, ring ∷ log "Door opened" ∷ []), w)
lock_door_step closed to_lock w = some ((locked, log "Door locked" ∷ []), w)
lock_door_step (opened since) to_close w = some ((closed, log "Door closed" ∷ []), w)
lock_door_step locked to_unlock w = some ((closed, log "Door unlocked" ∷ []), w)
lock_door_step _ _ w = none

module _ (syn : Syn) (name : syn.ExprPath → String)
    (named : (p : syn.ExprPath) → last (syn.segments p) ≡ some (name p))
    (written : Spelling syn DoorExpr)
    (values : Values syn.Expr DoorState DoorEvent DoorContext DoorAction)
    (evaluates : Evaluates syn written values) where
  abbrev rows : List (TableRow (TransitionHandler DoorState DoorEvent DoorContext DoorAction))
  rows =
      record { timed = false; key = ("Closed", "Open"); handler = opening_door }
      ∷ record { timed = false; key = ("Closed", "Lock"); handler = locking_door }
      ∷ record { timed = false; key = ("Open", "Close"); handler = closing_door }
      ∷ record { timed = false; key = ("Locked", "Unlock"); handler = unlocking_door }
      ∷ []

  table_rows-lock_door : table_rows name values (lock_door_table syn written).states ≡ rows
  unfolding table_rows
  table_rows-lock_door = simp (
    name-path syn written name named,
    evaluates.opening_value,
    evaluates.locking_value,
    evaluates.closing_value,
    evaluates.unlocking_value,
  )

  row-Does :
      (state : DoorState) (event : DoorEvent) (w : World DoorContext)
      → Does none
          (last_row rows
            (door_state_variant.variant_name state, door_event_variant.variant_name event)
            none)
          state
          event
          w
          (lock_door_step state event w)
  unfolding last_row
  row-Does closed to_open w = refl
  row-Does closed to_close w = refl
  row-Does closed to_lock w = refl
  row-Does closed to_unlock w = refl
  row-Does (opened since) to_open w = refl
  row-Does (opened since) to_close w = refl
  row-Does (opened since) to_lock w = refl
  row-Does (opened since) to_unlock w = refl
  row-Does locked to_open w = refl
  row-Does locked to_close w = refl
  row-Does locked to_lock w = refl
  row-Does locked to_unlock w = refl

  -- The test's table, written as tokens: `fsm!` gives a machine, and any host, whatever it feeds and
  -- polls and does in between, sees the automaton: it opens and locks a closed door, closes an open
  -- one and unlocks a locked one, and any other event is an error that changes nothing. `since` is
  -- the time of the opening.
  pub lock_door :
      {R : Type 0} (tokens : Tokens syn) (fuel : ℕ)
      (enough : rounds (to_decls (lock_door_table syn written)) < fuel) (w : World DoorContext)
      (program : Program DoorEvent DoorContext DoorAction R)
      → (m : StateMachine DoorState DoorEvent DoorContext DoorAction) × FsmGives syn tokens name
          named values
          (lock_door_table syn written)
          fuel
          w.clock
          enough
          (returned m)
        × (let (x, end) = serve machine_service program (record { machine = m; world = w }) in
            (x, state_of end) ≡ serve (step_service lock_door_step) program (closed, w))
  unfolding repeats
  lock_door tokens fuel enough w program =
      let (m, gives, same) =
        plain_machine syn tokens name named values (lock_door_table syn written) fuel w.clock enough
          lock_door_step ((refl, refl, refl), ((refl, refl, refl), ((refl, refl, refl), tt)))
          (λ state event u. rw table_rows-lock_door (row-Does state event u)) w program
          (rw table_rows-lock_door refl)
          (inl (rw (table_rows-lock_door, evaluates.initial_value) refl))
          (rw table_rows-lock_door refl) in
      (
        m,
        gives,
        same ∙ ap (λ s. serve (step_service lock_door_step) program (s, w)) evaluates.initial_value,
      )
