-- ===== src/Tests/LockDoored.antt =====
-- The door of the tests of src/builder.rs in the toy syntax, and its theorem there.
use obzenflow_fsm.Prelude.{
  ℕ, ◌<◌, ◌+◌, String, some, [], ◌≡◌, refl, ◌==◌, if◌then◌else◌, arith, string_equality,
}
use obzenflow_fsm.Exec.{ok}
use obzenflow_fsm.Types.{World}
use obzenflow_fsm.Machine.{StateMachine}
use obzenflow_fsm.Machine.Serve.{IsForward, Program, done, call, work, serve, machine_service}
use obzenflow_fsm.Machine.Rules.Plain.{step_service, state_of}
use obzenflow_fsm.Builder.{returned}
use obzenflow_fsm.Dsl.Eval.{Values}
use obzenflow_fsm.Dsl.Spelling.{Spelling}
use obzenflow_fsm.Dsl.Parse.Print
use obzenflow_fsm.Dsl.Parse.Print.{to_decls, rounds}
use obzenflow_fsm.Dsl.Fsm.Machines.{FsmGives}
use obzenflow_fsm.Tests.Toy.{toy, toy_tokens}
use obzenflow_fsm.Tests.Table.{path_name, named}
use obzenflow_fsm.LockDoor.{
  DoorState, closed, DoorEvent, to_open, to_lock, to_unlock, DoorAction, DoorContext, door_context,
  door_state_variant, door_event_variant, DoorExpr, initial, opening, locking, closing, unlocking,
  opening_door, locking_door, closing_door, unlocking_door, lock_door_table, Evaluates,
}
use obzenflow_fsm.LockDoor.Since.{OpenedBefore, lock_door-OpenedBefore}
use obzenflow_fsm.LockDoor.Served.{lock_door_step, lock_door}

abbrev expr_text : DoorExpr → String
expr_text initial = "DoorState::Closed"
expr_text opening = "opening"
expr_text locking = "locking"
expr_text closing = "closing"
expr_text unlocking = "unlocking"

abbrev spelling : Spelling toy DoorExpr
spelling = record {
  ty = λ t. t;
  path = λ t v. (t, v);
  expr = expr_text;
  segments-path = λ t v. refl;
}

abbrev values : Values String DoorState DoorEvent DoorContext DoorAction
values = record {
  initial = λ e. closed;
  transition = λ e.
      if e == "opening"
      then opening_door
      else if e == "locking"
      then locking_door
      else if e == "closing"
      then closing_door
      else unlocking_door;
  hook = λ e state w. (ok [], w);
  duration = λ e. 0;
  timeout_handler = λ e state w. (ok (record { next_state = state; actions = [] }), w);
  unhandled = λ e state event w. (ok tt, w);
}

evaluates : Evaluates toy spelling values
evaluates = record {
  initial_value = refl;
  opening_value = refl;
  locking_value = refl;
  closing_value = refl;
  unlocking_value = refl;
}

table_rounds : rounds (to_decls (lock_door_table toy spelling)) < 30
unfolding to_decls Print.to_rows
table_rounds = omega arith

abbrev fresh : World DoorContext
fresh = record { context = door_context; clock = 12 }

-- Locks the door, tries to open it, unlocks it, and opens it if that is done.
abbrev come_in : Program DoorEvent DoorContext DoorAction ℕ
come_in = call (some to_lock) (λ r. call (some to_open) (λ r.
    call (some to_unlock)
      (λ r. work (λ w. record w { clock = 20 }) (λ w. call (some to_open) (λ r. done 4)))))

-- Opens the door and waits.
abbrev late : Program DoorEvent DoorContext DoorAction ℕ
late = call (some to_open) (λ r. work (λ w. record w { clock = w.clock + 5 }) (λ w. done 1))

late-IsForward : IsForward late
late-IsForward = λ r. (λ w. omega arith, λ w. tt)

lock_door_example :
    (m : StateMachine DoorState DoorEvent DoorContext DoorAction) × FsmGives toy toy_tokens
      path_name named values
      (lock_door_table toy spelling)
      30
      12
      table_rounds
      (returned m)
    × (let (x, end) = serve machine_service come_in (record { machine = m; world = fresh }) in
        (x, state_of end) ≡ serve (step_service lock_door_step) come_in (closed, fresh))
lock_door_example =
    lock_door toy path_name named spelling values evaluates toy_tokens 30 table_rounds fresh come_in

lock_door-OpenedBefore_example :
    (m : StateMachine DoorState DoorEvent DoorContext DoorAction) × FsmGives toy toy_tokens
      path_name named values
      (lock_door_table toy spelling)
      30
      12
      table_rounds
      (returned m)
    × OpenedBefore (state_of (serve machine_service late (record { machine = m; world = fresh })).1)
lock_door-OpenedBefore_example =
    lock_door-OpenedBefore toy path_name named spelling values evaluates toy_tokens 30 table_rounds
      fresh late late-IsForward
