-- ===== src/CountTest/Once.antt =====
-- The machine of the tests of src/lib.rs starts once, whatever its host does.
use obzenflow_fsm.Prelude.{
  ℕ, ◌<◌, String, some, none, List, [], ◌∷◌, ◌++◌, ◌≡◌, ap, sym, subst, refl, string_equality,
  pair_equality,
}
use obzenflow_fsm.Exec.{FsmResult, ok, err}
use obzenflow_fsm.Types.{World}
use obzenflow_fsm.Machine.{StateMachine}
use obzenflow_fsm.Machine.Serve.{Program, done, call, work, answer, serve, machine_service}
use obzenflow_fsm.Machine.Rules.Plain.{step_service}
use obzenflow_fsm.Builder.{returned}
use obzenflow_fsm.Dsl.Syn.{Syn, Tokens}
use obzenflow_fsm.Dsl.Codegen.{last}
use obzenflow_fsm.Dsl.Eval.{Values}
use obzenflow_fsm.Dsl.Spelling.{Spelling}
use obzenflow_fsm.Dsl.Parse.Print.{to_decls, rounds}
use obzenflow_fsm.Dsl.Fsm.Machines.{FsmGives}
use obzenflow_fsm.CountTest.{
  TestState, idle, active, TestEvent, start, TestAction, log, TestContext, test_state_variant,
  test_event_variant, TestExpr, count_test_table, Evaluates,
}
use obzenflow_fsm.CountTest.Served.{count_test_step, count_test}

-- All the actions of some answers.
abbrev pub all_actions : List (FsmResult (List TestAction)) → List TestAction
all_actions [] = []
all_actions (ok actions ∷ answers) = actions ++ all_actions answers
all_actions (err e ∷ answers) = all_actions answers

-- No action in the first state, and the one action of its row in the other.
abbrev pub IsOnce : List TestAction → TestState → Type 0
IsOnce actions idle = actions ≡ []
IsOnce actions (active count) = (count ≡ 0) × (actions ≡ log "Starting" ∷ [])

-- Once active, the machine only refuses events.
stays_active :
    {R : Type 0} (program : Program TestEvent TestContext TestAction R) (w : World TestContext)
    → let ((answers, x), (state, v)) = serve (step_service count_test_step) program (active 0, w) in
      (all_actions answers ≡ []) × (state ≡ active 0)
unfolding serve
stays_active (done x) w = (refl, refl)
stays_active (call none next) w = stays_active (next (ok [])) w
stays_active (call (some start) next) w =
    stays_active (next (answer (step_service count_test_step) (some start) (active 0, w)).0) w
stays_active (work g next) w = stays_active (next w) (g w)

serve-IsOnce :
    {R : Type 0} (program : Program TestEvent TestContext TestAction R) (w : World TestContext)
    → let ((answers, x), (state, v)) = serve (step_service count_test_step) program (idle, w) in
      IsOnce (all_actions answers) state
unfolding serve
serve-IsOnce (done x) w = refl
serve-IsOnce (call none next) w = serve-IsOnce (next (ok [])) w
serve-IsOnce (call (some start) next) w =
    let rest =
      serve (step_service count_test_step) (next (ok (log "Starting" ∷ []))) (active 0, w) in
    let (none_more, still) = stays_active (next (ok (log "Starting" ∷ []))) w in
    subst (λ s. IsOnce (log "Starting" ∷ all_actions rest.0.0) s) (sym still)
      (refl, ap (λ l. log "Starting" ∷ l) none_more)
serve-IsOnce (work g next) w = serve-IsOnce (next w) (g w)

module _ (syn : Syn) (name : syn.ExprPath → String)
    (named : (p : syn.ExprPath) → last (syn.segments p) ≡ some (name p))
    (written : Spelling syn TestExpr)
    (values : Values syn.Expr TestState TestEvent TestContext TestAction)
    (evaluates : Evaluates syn written values) where
  -- The test's table, written as tokens: `fsm!` gives a machine, and of any host, whatever it feeds
  -- and polls and does in between: either the machine is still idle at the end and no answer had an
  -- action, or it is active with count 0 and the answers have had one action in all, the one that
  -- logs "Starting".
  pub count_test-IsOnce :
      {R : Type 0} (tokens : Tokens syn) (fuel : ℕ)
      (enough : rounds (to_decls (count_test_table syn written)) < fuel) (w : World TestContext)
      (program : Program TestEvent TestContext TestAction R)
      → (m : StateMachine TestState TestEvent TestContext TestAction) × FsmGives syn tokens name
          named values
          (count_test_table syn written)
          fuel
          w.clock
          enough
          (returned m)
        × (let ((answers, x), end) =
              serve machine_service program (record { machine = m; world = w }) in
            IsOnce (all_actions answers) end.current_state)
  count_test-IsOnce tokens fuel enough w program =
      let (m, gives, same) =
        count_test syn name named written values evaluates tokens fuel enough w program in
      (m, gives, subst (λ y. IsOnce (all_actions y.0.0) y.1.0) (sym same) (serve-IsOnce program w))
