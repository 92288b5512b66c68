-- ===== src/CountTest/Served.antt =====
-- The machine of the tests of src/lib.rs as an automaton, for any host.
use obzenflow_fsm.Prelude.{
  ℕ, ◌<◌, String, false, none, some, List, [], ◌∷◌, ◌≡◌, refl, ap, ◌∙◌, inl, string_equality,
  pair_equality,
}
use obzenflow_fsm.Types.{World, TransitionHandler}
use obzenflow_fsm.Machine.{StateMachine}
use obzenflow_fsm.Machine.Serve.{Program, serve, machine_service}
use obzenflow_fsm.Builder.{returned}
use obzenflow_fsm.Dsl.Syn.{Syn, Tokens}
use obzenflow_fsm.Dsl.Codegen.{last}
use obzenflow_fsm.Dsl.Eval.{Values}
use obzenflow_fsm.Dsl.Spelling.{Spelling, name-path}
use obzenflow_fsm.Dsl.Tables.{TableRow, last_row, repeats, table_rows}
use obzenflow_fsm.Dsl.Parse.Print.{to_decls, rounds}
use obzenflow_fsm.Dsl.Fsm.Machines.{FsmGives}
use obzenflow_fsm.Machine.Rules.Plain.{Step, step_service, state_of, Does}
use obzenflow_fsm.Dsl.Meaning.Plain.{plain_machine}
use obzenflow_fsm.CountTest.{
  TestState, idle, active, TestEvent, start, TestAction, log, TestContext, test_state_variant,
  test_event_variant, starting_test, TestExpr, count_test_table, Evaluates,
}

-- The automaton that the test has in mind.
abbrev pub count_test_step : Step TestState TestEvent TestContext TestAction
count_test_step idle start w = some ((active 0, log "Starting" ∷ []), w)
count_test_step (active count) start w = none

module _ (syn : Syn) (name : syn.ExprPath → String)
    (named : (p : syn.ExprPath) → last (syn.segments p) ≡ some (name p))
    (written : Spelling syn TestExpr)
    (values : Values syn.Expr TestState TestEvent TestContext TestAction)
    (evaluates : Evaluates syn written values) where
  abbrev rows : List (TableRow (TransitionHandler TestState TestEvent TestContext TestAction))
  rows = record { timed = false; key = ("Idle", "Start"); handler = starting_test } ∷ []

  table_rows-count_test : table_rows name values (count_test_table syn written).states ≡ rows
  unfolding table_rows
  table_rows-count_test = simp (name-path syn written name named, evaluates.starting_value)

  row-Does :
      (state : TestState) (event : TestEvent) (w : World TestContext)
      → Does none
          (last_row rows
            (test_state_variant.variant_name state, test_event_variant.variant_name event)
            none)
          state
          event
          w
          (count_test_step state event w)
  unfolding last_row
  row-Does idle start w = refl
  row-Does (active count) start w = refl

  -- The test's table, written as tokens: `fsm!` gives a machine, and any host, whatever it feeds and
  -- polls and does in between, sees the automaton: the first `Start` makes it active with count 0
  -- and returns one action, and any later one is an error that changes nothing.
  pub count_test :
      {R : Type 0} (tokens : Tokens syn) (fuel : ℕ)
      (enough : rounds (to_decls (count_test_table syn written)) < fuel) (w : World TestContext)
      (program : Program TestEvent TestContext TestAction R)
      → (m : StateMachine TestState TestEvent TestContext TestAction) × FsmGives syn tokens name
          named values
          (count_test_table syn written)
          fuel
          w.clock
          enough
          (returned m)
        × (let (x, end) = serve machine_service program (record { machine = m; world = w }) in
            (x, state_of end) ≡ serve (step_service count_test_step) program (idle, w))
  unfolding repeats
  count_test tokens fuel enough w program =
      let (m, gives, same) =
        plain_machine syn tokens name named values (count_test_table syn written) fuel w.clock
          enough count_test_step ((refl, refl, refl), tt)
          (λ state event u. rw table_rows-count_test (row-Does state event u)) w program
          (rw table_rows-count_test refl)
          (inl (rw (table_rows-count_test, evaluates.initial_value) refl))
          (rw table_rows-count_test refl) in
      (
        m,
        gives,
        same
            ∙ ap (λ s. serve (step_service count_test_step) program (s, w)) evaluates.initial_value,
      )
