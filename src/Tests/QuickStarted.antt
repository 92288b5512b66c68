-- ===== src/Tests/QuickStarted.antt =====
-- The guide's first door in the toy syntax, and its theorem there.
use obzenflow_fsm.Prelude.{◌<◌, String, [], ◌∷◌, refl, ◌==◌, if◌then◌else◌, arith, string_equality}
use obzenflow_fsm.Exec.{ok}
use obzenflow_fsm.Types.{World}
use obzenflow_fsm.Machine.{StateMachine}
use obzenflow_fsm.Machine.Serve.{serve, machine_service}
use obzenflow_fsm.Machine.Rules.Plain.{state_of}
use obzenflow_fsm.Builder.{returned}
use obzenflow_fsm.Dsl.Eval.{Values}
use obzenflow_fsm.Dsl.Spelling.{Spelling}
use obzenflow_fsm.Dsl.Parse.Print
use obzenflow_fsm.Dsl.Parse.Print.{to_decls, rounds}
use obzenflow_fsm.Dsl.Fsm.Machines.{FsmGives}
use obzenflow_fsm.Tests.Toy.{toy, toy_tokens}
use obzenflow_fsm.Tests.Table.{path_name, named}
use obzenflow_fsm.QuickStart.{
  DoorState, closed, DoorEvent, to_open, to_close, DoorAction, DoorContext, door_state_variant,
  door_event_variant, DoorExpr, initial, opening, closing, opening_door, closing_door, visit,
  door_table, Evaluates,
}
use obzenflow_fsm.QuickStart.Visits.{Visited, visit_door}

abbrev expr_text : DoorExpr → String
expr_text initial = "DoorState::Closed"
expr_text opening = "opening"
expr_text closing = "closing"

abbrev spelling : Spelling toy DoorExpr
spelling = record {
  ty = λ t. t;
  path = λ t v. (t, v);
  expr = expr_text;
  segments-path = λ t v. refl;
}

abbrev values : Values String DoorState DoorEvent DoorContext DoorAction
values = record {
  initial = λ e. closed;
  transition = λ e. if e == "opening" then opening_door else closing_door;
  hook = λ e state w. (ok [], w);
  duration = λ e. 0;
  timeout_handler = λ e state w. (ok (record { next_state = state; actions = [] }), w);
  unhandled = λ e state event w. (ok tt, w);
}

evaluates : Evaluates toy spelling values
evaluates = record { initial_value = refl; opening_value = refl; closing_value = refl }

table_rounds : rounds (to_decls (door_table toy spelling)) < 30
unfolding to_decls Print.to_rows
table_rounds = omega arith

abbrev fresh : World DoorContext
fresh = record { context = record { log = [] }; clock = 12 }

visit_door_example :
    (m : StateMachine DoorState DoorEvent DoorContext DoorAction) × FsmGives toy toy_tokens
      path_name named values
      (door_table toy spelling)
      30
      12
      table_rounds
      (returned m)
    × (let (x, end) =
          serve machine_service
            (visit (to_open ∷ to_close ∷ to_close ∷ to_open ∷ []))
            (record { machine = m; world = fresh }) in
        Visited to_close (to_open ∷ to_close ∷ to_close ∷ to_open ∷ []) fresh (x, state_of end))
visit_door_example =
    visit_door toy path_name named spelling values evaluates toy_tokens 30 table_rounds fresh
      (to_open ∷ to_close ∷ to_close ∷ to_open ∷ [])
