-- ===== src/Tests/Counted.antt =====
-- The machine of the tests of src/lib.rs in the toy syntax, and its theorem there.
use obzenflow_fsm.Prelude.{ℕ, ◌<◌, String, some, none, [], refl, arith, string_equality}
use obzenflow_fsm.Exec.{ok}
use obzenflow_fsm.Types.{World}
use obzenflow_fsm.Machine.{StateMachine}
use obzenflow_fsm.Machine.Serve.{Program, done, call, serve, machine_service}
use obzenflow_fsm.Builder.{returned}
use obzenflow_fsm.Dsl.Eval.{Values}
use obzenflow_fsm.Dsl.Spelling.{Spelling}
use obzenflow_fsm.Dsl.Parse.Print
use obzenflow_fsm.Dsl.Parse.Print.{to_decls, rounds}
use obzenflow_fsm.Dsl.Fsm.Machines.{FsmGives}
use obzenflow_fsm.Tests.Toy.{toy, toy_tokens}
use obzenflow_fsm.Tests.Table.{path_name, named}
use obzenflow_fsm.CountTest.{
  TestState, idle, TestEvent, start, TestAction, TestContext, test_state_variant,
  test_event_variant, TestExpr, initial, starting, starting_test, count_test_table, Evaluates,
}
use obzenflow_fsm.CountTest.Once.{all_actions, IsOnce, count_test-IsOnce}

abbrev expr_text : TestExpr → String
expr_text initial = "TestState::Idle"
expr_text starting = "starting"

abbrev spelling : Spelling toy TestExpr
spelling = record {
  ty = λ t. t;
  path = λ t v. (t, v);
  expr = expr_text;
  segments-path = λ t v. refl;
}

abbrev values : Values String TestState TestEvent TestContext TestAction
values = record {
  initial = λ e. idle;
  transition = λ e. starting_test;
  hook = λ e state w. (ok [], w);
  duration = λ e. 0;
  timeout_handler = λ e state w. (ok (record { next_state = state; actions = [] }), w);
  unhandled = λ e state event w. (ok tt, w);
}

evaluates : Evaluates toy spelling values
evaluates = record { initial_value = refl; starting_value = refl }

table_rounds : rounds (to_decls (count_test_table toy spelling)) < 30
unfolding to_decls Print.to_rows
table_rounds = omega arith

abbrev fresh : World TestContext
fresh = record { context = record { total = 0 }; clock = 12 }

-- Starts, and starts again.
abbrev start_twice : Program TestEvent TestContext TestAction ℕ
start_twice = call (some start) (λ r. call none (λ r. call (some start) (λ r. done 3)))

count_test-IsOnce_example :
    (m : StateMachine TestState TestEvent TestContext TestAction) × FsmGives toy toy_tokens
      path_name named values
      (count_test_table toy spelling)
      30
      12
      table_rounds
      (returned m)
    × (let ((answers, x), end) =
          serve machine_service start_twice (record { machine = m; world = fresh }) in
        IsOnce (all_actions answers) end.current_state)
count_test-IsOnce_example =
    count_test-IsOnce toy path_name named spelling values evaluates toy_tokens 30 table_rounds fresh
      start_twice
