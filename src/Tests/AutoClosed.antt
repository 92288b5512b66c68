-- ===== src/Tests/AutoClosed.antt =====
-- The auto-closing door of the guide in the toy syntax: opened twice, polled too early, and polled
-- at its deadline.
use obzenflow_fsm.Prelude.{◌<◌, String, some, List, [], ◌∷◌, ◌≡◌, refl, arith}
use obzenflow_fsm.Exec.{ok}
use obzenflow_fsm.Types.{World}
use obzenflow_fsm.Machine.{StateMachine}
use obzenflow_fsm.Builder.{returned}
use obzenflow_fsm.Dsl.Codegen.{last}
use obzenflow_fsm.Dsl.Eval.{Values}
use obzenflow_fsm.Dsl.Spelling.{Spelling}
use obzenflow_fsm.Dsl.Parse.Print
use obzenflow_fsm.Dsl.Parse.Print.{to_decls, rounds}
use obzenflow_fsm.Dsl.Fsm.Machines.{FsmGives}
use obzenflow_fsm.Tests.Toy.{toy, toy_tokens}
use obzenflow_fsm.AutoClose.{
  DoorState, closed, DoorEvent, DoorAction, DoorContext, door_state_variant, door_event_variant,
  DoorExpr, initial, opening, ten_millis, closing, opening_door, auto_closing, door_table,
  Evaluates, Command, open_it, poll_it, sleep, session,
}
use obzenflow_fsm.AutoClose.View.{shut, Shows}
use obzenflow_fsm.AutoClose.Sessions.{session-Shows}

abbrev expr_text : DoorExpr → String
expr_text initial = "DoorState::Closed"
expr_text opening = "opening"
expr_text ten_millis = "Duration::from_millis(10)"
expr_text closing = "closing"

abbrev spelling : Spelling toy DoorExpr
spelling = record {
  ty = λ t. t;
  path = λ t v. (t, v);
  expr = expr_text;
  segments-path = λ t v. refl;
}

abbrev values : Values String DoorState DoorEvent DoorContext DoorAction
values = record {
  initial = λ e. closed;
  transition = λ e. opening_door;
  hook = λ e state w. (ok [], w);
  duration = λ e. 10;
  timeout_handler = λ e. auto_closing;
  unhandled = λ e state event w. (ok tt, w);
}

evaluates : Evaluates toy spelling values
evaluates = record {
  initial_value = refl;
  opening_value = refl;
  ten_millis_value = refl;
  closing_value = refl;
}

abbrev path_name : String × String → String
path_name p = p.1

named : (p : String × String) → last (toy.segments p) ≡ some (path_name p)
named p = refl

door_rounds : rounds (to_decls (door_table toy spelling)) < 20
unfolding to_decls Print.to_rows Print.timeout_rows
door_rounds = omega arith

abbrev at_noon : World DoorContext
at_noon = record { context = record { log = [] }; clock = 12 }

abbrev visit : List Command
visit = open_it ∷ sleep 4 ∷ open_it ∷ poll_it ∷ sleep 6 ∷ poll_it ∷ []

session-Shows_example :
    (m : StateMachine DoorState DoorEvent DoorContext DoorAction) × FsmGives toy toy_tokens
      path_name named values
      (door_table toy spelling)
      20
      12
      door_rounds
      (returned m)
    × Shows visit shut
        (record { machine = m; world = at_noon })
        (session visit (record { machine = m; world = at_noon }))
session-Shows_example =
    session-Shows toy path_name named spelling values evaluates toy_tokens 20 door_rounds at_noon
      visit
