-- ===== src/Tests/Door.antt =====
-- The door of examples/simple_fsm.rs in the toy syntax, and its theorem there.
use obzenflow_fsm.Prelude.{
  ℕ, ◌<◌, String, some, [], ◌∷◌, ◌≡◌, refl, ◌==◌, if◌then◌else◌, arith, string_equality,
}
use obzenflow_fsm.Exec.{ok}
use obzenflow_fsm.Types.{World}
use obzenflow_fsm.Machine.{StateMachine}
use obzenflow_fsm.Machine.Serve.{serve, machine_service}
use obzenflow_fsm.Machine.Rules.Plain.{state_of}
use obzenflow_fsm.Builder.{returned}
use obzenflow_fsm.Dsl.Codegen.{last}
use obzenflow_fsm.Dsl.Eval.{Values}
use obzenflow_fsm.Dsl.Spelling.{Spelling}
use obzenflow_fsm.Dsl.Parse.Print
use obzenflow_fsm.Dsl.Parse.Print.{to_decls, rounds}
use obzenflow_fsm.Dsl.Fsm.Machines.{FsmGives}
use obzenflow_fsm.Tests.Toy.{toy, toy_tokens}
use obzenflow_fsm.SimpleFsm.{
  DoorState, closed, DoorEvent, to_open, to_close, DoorAction, DoorContext, door_state_variant,
  door_event_variant, DoorExpr, initial, opening, closing, opening_door, closing_door, session,
  door_table, Evaluates,
}
use obzenflow_fsm.SimpleFsm.Sessions.{Shows, door-Shows}

abbrev expr_text : DoorExpr → String
expr_text initial = "DoorState::Closed"
expr_text opening = "opening"
expr_text closing = "closing"

abbrev spelling : Spelling toy DoorExpr
spelling = record {
  ty = λ t. t;
  path = λ t v. (t, v);
  expr = expr_text;
  segments-path = λ t v. refl;
}

-- Every lock takes two ticks.
abbrev two_ticks : World DoorContext → ℕ
two_ticks w = 2

abbrev values : Values String DoorState DoorEvent DoorContext DoorAction
values = record {
  initial = λ e. closed;
  transition = λ e. if e == "opening" then opening_door two_ticks else closing_door two_ticks;
  hook = λ e state w. (ok [], w);
  duration = λ e. 0;
  timeout_handler = λ e state w. (ok (record { next_state = state; actions = [] }), w);
  unhandled = λ e state event w. (ok tt, w);
}

evaluates : Evaluates toy spelling two_ticks values
evaluates = record { initial_value = refl; opening_value = refl; closing_value = refl }

abbrev path_name : String × String → String
path_name p = p.1

named : (p : String × String) → last (toy.segments p) ≡ some (path_name p)
named p = refl

door_rounds : rounds (to_decls (door_table toy spelling)) < 20
unfolding to_decls Print.to_rows
door_rounds = omega arith

abbrev at_noon : World DoorContext
at_noon = record { context = record { log = [] }; clock = 12 }

door-Shows_example :
    (m : StateMachine DoorState DoorEvent DoorContext DoorAction) × FsmGives toy toy_tokens
      path_name named values
      (door_table toy spelling)
      20
      12
      door_rounds
      (returned m)
    × (let (x, end) =
          serve machine_service
            (session two_ticks (to_open ∷ to_open ∷ to_close ∷ []))
            (record { machine = m; world = at_noon }) in
        Shows to_close (to_open ∷ to_open ∷ to_close ∷ []) at_noon (x, state_of end))
door-Shows_example =
    door-Shows toy path_name named spelling two_ticks values evaluates toy_tokens 20 door_rounds
      at_noon (to_open ∷ to_open ∷ to_close ∷ [])
