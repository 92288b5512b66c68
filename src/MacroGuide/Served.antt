-- ===== src/MacroGuide/Served.antt =====
-- The example of the documentation of `fsm!` with any host.
use obzenflow_fsm.Prelude.{
  ℕ, ◌<◌, String, false, none, some, List, [], ◌∷◌, ◌≡◌, refl, ap, ◌∙◌, inl, string_equality,
  pair_equality,
}
use obzenflow_fsm.Exec.{FsmResult, ok}
use obzenflow_fsm.Types.{World, TransitionHandler}
use obzenflow_fsm.Machine.{StateMachine}
use obzenflow_fsm.Machine.Serve.{Program, done, call, work, serve, machine_service}
use obzenflow_fsm.Builder.{returned}
use obzenflow_fsm.Dsl.Syn.{Syn, Tokens}
use obzenflow_fsm.Dsl.Codegen.{last}
use obzenflow_fsm.Dsl.Eval.{Values}
use obzenflow_fsm.Dsl.Spelling.{Spelling, name-path}
use obzenflow_fsm.Dsl.Tables.{TableRow, last_row, repeats, table_rows}
use obzenflow_fsm.Dsl.Parse.Print.{to_decls, rounds}
use obzenflow_fsm.Dsl.Fsm.Machines.{FsmGives}
use obzenflow_fsm.Machine.Rules.Plain.{Step, step_service, state_of, Does}
use obzenflow_fsm.Dsl.Meaning.Plain.{plain_machine}
use obzenflow_fsm.MacroGuide.{
  State, idle, Event, start, Action, noop, Context, state_variant, event_variant, starting,
  GuideExpr, on_unhandled, guide_table, Evaluates,
}

-- The automaton of the example.
abbrev pub guide_step : Step State Event Context Action
guide_step idle start w = some ((idle, noop ∷ []), w)

-- A host alone with a script of the answers: the one action for an event, none for a poll. The
-- answers it was given, its result, and the world that its own work leads to.
unfoldable pub recite :
    {R : Type 0}
    → Program Event Context Action R
    → World Context
    → (List (FsmResult (List Action)) × R) × World Context
recite (done x) w = (([], x), w)
recite (call (some start) next) w =
    let ((answers, x), v) = recite (next (ok (noop ∷ []))) w in ((ok (noop ∷ []) ∷ answers, x), v)
recite (call none next) w =
    let ((answers, x), v) = recite (next (ok [])) w in ((ok [] ∷ answers, x), v)
recite (work g next) w = recite (next w) (g w)

serve-recite :
    {R : Type 0} (program : Program Event Context Action R) (w : World Context)
    → serve (step_service guide_step) program (idle, w)
      ≡ ((recite program w).0, (idle, (recite program w).1))
unfolding serve recite
serve-recite (done x) w = refl
serve-recite (call none next) w =
    ap (λ y. ((ok [] ∷ y.0.0, y.0.1), y.1)) (serve-recite (next (ok [])) w)
serve-recite (call (some start) next) w =
    ap (λ y. ((ok (noop ∷ []) ∷ y.0.0, y.0.1), y.1)) (serve-recite (next (ok (noop ∷ []))) w)
serve-recite (work g next) w = serve-recite (next w) (g w)

module _ (syn : Syn) (name : syn.ExprPath → String)
    (named : (p : syn.ExprPath) → last (syn.segments p) ≡ some (name p))
    (written : Spelling syn GuideExpr) (values : Values syn.Expr State Event Context Action)
    (evaluates : Evaluates syn written values) where
  abbrev rows : List (TableRow (TransitionHandler State Event Context Action))
  rows = record { timed = false; key = ("Idle", "Start"); handler = starting } ∷ []

  table_rows-guide : table_rows name values (guide_table syn written).states ≡ rows
  unfolding table_rows
  table_rows-guide = simp (name-path syn written name named, evaluates.on_start_value)

  row-Does :
      (state : State) (event : Event) (w : World Context)
      → Does
          (some (values.unhandled (written.expr on_unhandled)))
          (last_row rows (state_variant.variant_name state, event_variant.variant_name event) none)
          state
          event
          w
          (guide_step state event w)
  unfolding last_row
  row-Does idle start w = refl

  guide_automaton :
      {R : Type 0} (tokens : Tokens syn) (fuel : ℕ)
      (enough : rounds (to_decls (guide_table syn written)) < fuel) (w : World Context)
      (program : Program Event Context Action R)
      → (m : StateMachine State Event Context Action) × FsmGives syn tokens name named values
          (guide_table syn written)
          fuel
          w.clock
          enough
          (returned m)
        × (let (x, end) = serve machine_service program (record { machine = m; world = w }) in
            (x, state_of end) ≡ serve (step_service guide_step) program (idle, w))
  unfolding repeats
  guide_automaton tokens fuel enough w program =
      let (m, gives, same) =
        plain_machine syn tokens name named values (guide_table syn written) fuel w.clock enough
          guide_step ((refl, refl, refl), tt)
          (λ state event u. rw table_rows-guide (row-Does state event u)) w program
          (rw table_rows-guide refl) (inl (rw (table_rows-guide, evaluates.initial_value) refl))
          (rw table_rows-guide refl) in
      (
        m,
        gives,
        same ∙ ap (λ s. serve (step_service guide_step) program (s, w)) evaluates.initial_value,
      )

  -- The table of the example, written as tokens: `fsm!` gives a machine, and any host, whatever it
  -- feeds and polls and does in between, has the one action of the handler for an answer to each
  -- event and the empty list to each poll: its answers, its result and the world that it leaves are
  -- those it has with a script of these answers alone, and the machine's state is the initial one.
  pub guide_served :
      {R : Type 0} (tokens : Tokens syn) (fuel : ℕ)
      (enough : rounds (to_decls (guide_table syn written)) < fuel) (w : World Context)
      (program : Program Event Context Action R)
      → (m : StateMachine State Event Context Action) × FsmGives syn tokens name named values
          (guide_table syn written)
          fuel
          w.clock
          enough
          (returned m)
        × (let (x, end) = serve machine_service program (record { machine = m; world = w }) in
            (x ≡ (recite program w).0) × (state_of end ≡ (idle, (recite program w).1)))
  guide_served tokens fuel enough w program =
      let (m, gives, same) = guide_automaton tokens fuel enough w program in
      let agree = same ∙ serve-recite program w in
      (m, gives, (ap (λ y. y.0) agree, ap (λ y. y.1) agree))
