-- ===== src/Dsl/Meaning/Plain.antt =====
-- Tables with no entry and exit hooks and no timeouts: `fsm!` gives automata for them.
use mathlib.Core.Option
use obzenflow_fsm.Prelude.{
  ℕ, ◌<◌, String, Option, none, some, List, [], ◌∷◌, ◌≡◌, refl, ap, ◌∙◌, arith, string_equality,
  pair_equality, All,
}
use obzenflow_fsm.Types.{StateVariant, EventVariant, World}
use obzenflow_fsm.Machine.{StateMachine, deadline}
use obzenflow_fsm.Machine.Serve.{Program, serve, machine_service}
use obzenflow_fsm.Machine.Rules.{begin}
use obzenflow_fsm.Machine.Rules.Plain.{
  Step, step_service, state_of, IsBare, Does, rules-step_service,
}
use obzenflow_fsm.Builder.{returned}
use obzenflow_fsm.Dsl.Syn.{Syn, Tokens}
use obzenflow_fsm.Dsl.Spec.{StateBlock, FsmSpec}
use obzenflow_fsm.Dsl.Codegen.{last}
use obzenflow_fsm.Dsl.Eval.{Values}
use obzenflow_fsm.Dsl.Tables.{repeats, last_block, table_rows}
use obzenflow_fsm.Dsl.Parse.Print.{to_decls, rounds}
use obzenflow_fsm.Dsl.Fsm.Machines.{FsmGives, TableHasWayOut, fsm_machine}
use obzenflow_fsm.Dsl.Fsm.Dispatch.{NoWildcard}
use obzenflow_fsm.Dsl.Meaning.{row_of, table_rules}
use obzenflow_fsm.Dsl.Meaning.Refines.{fsm_means}

abbrev pub HasNoParts : {SynPath Expr : Type 0} → StateBlock SynPath Expr → Type 0
HasNoParts b = (b.timeout ≡ none) × (b.entry ≡ none) × (b.exit ≡ none)

last_block-none :
    {SynPath Expr X : Type 0} (name : SynPath → String) (part : StateBlock SynPath Expr → Option X)
    (bs : List (StateBlock SynPath Expr)) (n : String)
    → All (λ b. part b ≡ none) bs
    → last_block name part bs n none ≡ none
unfolding last_block
last_block-none name part [] n all = refl
last_block-none name part (b ∷ bs) n (p, all) =
    rw p (ground (arith, last_block-none name part bs n all))

module _ {Ty SynPath Expr S E C A : Type 0} ⦃sv : StateVariant S⦄ ⦃ev : EventVariant E⦄
    (name : SynPath → String) (values : Values Expr S E C A) (spec : FsmSpec Ty SynPath Expr)
    (bare : All HasNoParts spec.states) where
  no_part :
      {X : Type 0} (part : StateBlock SynPath Expr → Option X) (state : S)
      → ((b : StateBlock SynPath Expr) → HasNoParts b → part b ≡ none)
      → last_block name part spec.states (sv.variant_name state) none ≡ none
  no_part part state h =
      last_block-none name part spec.states (sv.variant_name state) (each spec.states bare)
    where
      each : (bs : List (StateBlock SynPath Expr)) → All HasNoParts bs → All (λ b. part b ≡ none) bs
      each [] all = tt
      each (b ∷ bs) (p, all) = (h b p, each bs all)

  table_rules-IsBare : IsBare (table_rules {E = E} name values spec)
  table_rules-IsBare = record {
    no_exit = λ state. no_part _ state (λ b h. rw (h.2) refl);
    no_entry = λ state. no_part _ state (λ b h. rw (h.1) refl);
    no_timeout = λ state. no_part _ state (λ b h. rw (h.0) refl);
  }

module _ {S E C A : Type 0} ⦃sv : StateVariant S⦄ ⦃ev : EventVariant E⦄ (syn : Syn)
    (tokens : Tokens syn) (name : syn.ExprPath → String)
    (named : (p : syn.ExprPath) → last (syn.segments p) ≡ some (name p))
    (values : Values syn.Expr S E C A) (spec : FsmSpec syn.Ty syn.ExprPath syn.Expr) (fuel now : ℕ)
    (enough : rounds (to_decls spec) < fuel) (step : Step S E C A)
    (bare : All HasNoParts spec.states)
    (does : (state : S) (event : E) (w : World C)
      → Does
          (Option.map values.unhandled spec.unhandled)
          (row_of name values spec state event)
          state
          event
          w
          (step state event w)) where
  -- A table with no timeouts and no entry and exit hooks, and with no hook for unhandled events
  -- unless all events have rows, whose rows do what `step` says, with no row twice or for
  -- `_` and a row for the initial state: `fsm!` gives a machine that serves any host as the
  -- automaton does.
  pub plain_machine :
      {R : Type 0} (w : World C) (program : Program E C A R)
      → repeats [] (table_rows name values spec.states) ≡ []
      → TableHasWayOut name values spec
      → NoWildcard (table_rows name values spec.states)
      → (m : StateMachine S E C A) × FsmGives syn tokens name named values spec fuel now enough
          (returned m)
        × (let (x, end) = serve machine_service program (record { machine = m; world = w }) in
            (x, state_of end)
            ≡ serve (step_service step) program (values.initial spec.initial_expr, w))
  plain_machine w program unique way_out plain =
      let (m, gives, of) =
        fsm_machine syn tokens name named values spec fuel now enough unique way_out in
      let means =
        fsm_means syn tokens name named values spec fuel now enough m w program gives plain in
      let rules = table_rules {E = E} name values spec in
      let initial = values.initial spec.initial_expr in
      let is_bare = table_rules-IsBare name values spec bare in
      let off = ap (λ o. deadline o now) (is_bare.no_timeout initial) in
      (
        m,
        gives,
        ap (λ x. (x.0, (x.1.state, x.1.world))) means
            ∙ rules-step_service rules step is_bare does program (begin rules initial now w)
                (unfold deadline in off),
      )
