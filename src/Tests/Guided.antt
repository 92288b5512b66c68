-- ===== src/Tests/Guided.antt =====
-- The example of the documentation of `fsm!` in the toy syntax, and its theorem there.
use obzenflow_fsm.Prelude.{ℕ, ◌<◌, String, some, none, [], ◌≡◌, refl, arith, string_equality}
use obzenflow_fsm.Exec.{ok}
use obzenflow_fsm.Types.{World}
use obzenflow_fsm.Machine.{StateMachine}
use obzenflow_fsm.Machine.Serve.{Program, done, call, serve, machine_service}
use obzenflow_fsm.Builder.{returned}
use obzenflow_fsm.Dsl.Eval.{Values}
use obzenflow_fsm.Dsl.Spelling.{Spelling}
use obzenflow_fsm.Dsl.Parse.Print
use obzenflow_fsm.Dsl.Parse.Print.{to_decls, rounds}
use obzenflow_fsm.Dsl.Fsm.Machines.{FsmGives}
use obzenflow_fsm.Tests.Toy.{toy, toy_tokens}
use obzenflow_fsm.Tests.Table.{path_name, named}
use obzenflow_fsm.Machine.Rules.Plain.{state_of}
use obzenflow_fsm.MacroGuide.{
  State, idle, Event, start, Action, Context, context, state_variant, event_variant, GuideExpr,
  initial, on_start, on_unhandled, starting, guide_table, Evaluates,
}
use obzenflow_fsm.MacroGuide.Served.{recite, guide_served}

abbrev expr_text : GuideExpr → String
expr_text initial = "State::Idle"
expr_text on_start = "start"
expr_text on_unhandled = "ignore"

abbrev spelling : Spelling toy GuideExpr
spelling = record {
  ty = λ t. t;
  path = λ t v. (t, v);
  expr = expr_text;
  segments-path = λ t v. refl;
}

abbrev values : Values String State Event Context Action
values = record {
  initial = λ e. idle;
  transition = λ e. starting;
  hook = λ e state w. (ok [], w);
  duration = λ e. 0;
  timeout_handler = λ e state w. (ok (record { next_state = state; actions = [] }), w);
  unhandled = λ e state event w. (ok tt, w);
}

evaluates : Evaluates toy spelling values
evaluates = record { initial_value = refl; on_start_value = refl; on_unhandled_value = refl }

table_rounds : rounds (to_decls (guide_table toy spelling)) < 30
unfolding to_decls Print.to_rows
table_rounds = omega arith

abbrev fresh : World Context
fresh = record { context = context; clock = 12 }

-- Starts, and starts again.
abbrev start_twice : Program Event Context Action ℕ
start_twice = call (some start) (λ r. call none (λ r. call (some start) (λ r. done 3)))

guide_served_example :
    (m : StateMachine State Event Context Action) × FsmGives toy toy_tokens path_name named values
      (guide_table toy spelling)
      30
      12
      table_rounds
      (returned m)
    × (let (x, end) = serve machine_service start_twice (record { machine = m; world = fresh }) in
        (x ≡ (recite start_twice fresh).0) × (state_of end ≡ (idle, (recite start_twice fresh).1)))
guide_served_example =
    guide_served toy path_name named spelling values evaluates toy_tokens 30 table_rounds fresh
      start_twice
