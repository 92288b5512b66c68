-- ===== src/Dsl/Meaning/Refines.antt =====
-- The machine that `fsm!` gives for a table does what the table means.
use obzenflow_fsm.Prelude.{
  ℕ, ◌<◌, String, Option, none, some, ◌≡◌, ap, refl, ◌∙◌, string_equality, pair_equality,
}
use obzenflow_fsm.Types.{StateVariant, EventVariant, World}
use obzenflow_fsm.Machine.{StateMachine, Run}
use obzenflow_fsm.Machine.Host.{AnyStep, Reach, tables-Reach}
use obzenflow_fsm.Machine.Serve.{Program, serve, machine_service}
use obzenflow_fsm.Machine.Tables.{tables}
use obzenflow_fsm.Machine.Rules.{or_else, rules_service, begin}
use obzenflow_fsm.Machine.Rules.Refines.{conf, seen, rules_of, machine-rules_service}
use obzenflow_fsm.Builder.{returned}
use obzenflow_fsm.Dsl.Syn.{Syn, Tokens}
use obzenflow_fsm.Dsl.Spec.{FsmSpec}
use obzenflow_fsm.Dsl.Codegen.{last}
use obzenflow_fsm.Dsl.Eval.{Values}
use obzenflow_fsm.Dsl.Tables.{table_rows}
use obzenflow_fsm.Dsl.Parse.Print.{to_decls, rounds}
use obzenflow_fsm.Dsl.Fsm.Machines.{IsMachineOf, FsmGives, returned-IsMachineOf}
use obzenflow_fsm.Dsl.Fsm.Dispatch.{NoWildcard, last_row-wildcard}
use obzenflow_fsm.Dsl.Meaning.{row_of, table_rules}

or_else-none : {X : Type 0} (x : Option X) → or_else x none ≡ x
or_else-none none = refl
or_else-none (some x) = refl

module _ {Ty SynPath Expr S E C A : Type 0} ⦃sv : StateVariant S⦄ ⦃ev : EventVariant E⦄
    (name : SynPath → String) (values : Values Expr S E C A) (spec : FsmSpec Ty SynPath Expr)
    (start : ℕ) (m : StateMachine S E C A) (of : IsMachineOf name values spec start m)
    (plain : NoWildcard (table_rows name values spec.states)) where
  row-tables :
      (state : S) (event : E)
      → (rules_of (tables m)).row state event ≡ row_of name values spec state event
  row-tables state event =
      let wild =
        of.transitions ("_", ev.variant_name event)
        ∙ last_row-wildcard (table_rows name values spec.states) (ev.variant_name event) none
            plain in
      rw wild (or_else-none _ ∙ of.transitions (sv.variant_name state, ev.variant_name event))

  -- The tables of a table's machine say what the table says.
  tables-table_rules : rules_of (tables m) ≡ table_rules name values spec
  tables-table_rules i = record {
    row = λ state event. row-tables state event i;
    exit = λ state. of.exits (sv.variant_name state) i;
    entry = λ state. of.entries (sv.variant_name state) i;
    timeout = λ state. of.timeouts (sv.variant_name state) i;
    unhandled = of.unhandled i;
  }

module _ {S E C A : Type 0} ⦃sv : StateVariant S⦄ ⦃ev : EventVariant E⦄ (syn : Syn)
    (tokens : Tokens syn) (name : syn.ExprPath → String)
    (named : (p : syn.ExprPath) → last (syn.segments p) ≡ some (name p))
    (values : Values syn.Expr S E C A) (spec : FsmSpec syn.Ty syn.ExprPath syn.Expr) (fuel now : ℕ)
    (enough : rounds (to_decls spec) < fuel) where
  -- A machine that `fsm!` gives for a table that has no row for a state called `_`, and any host
  -- that feeds it events and polls it, choosing each call by the answers before and by the world,
  -- and that changes the world in between as it likes: the answers to all the calls, errors
  -- included, the host's result, and the state, the deadline and the world at the end are those of
  -- the interpreter of the table's rules, which has no builder, maps or names in it.
  pub fsm_means :
      {R : Type 0} (m : StateMachine S E C A) (w : World C) (program : Program E C A R)
      → FsmGives syn tokens name named values spec fuel now enough (returned m)
      → NoWildcard (table_rows name values spec.states)
      → seen (serve machine_service program (record { machine = m; world = w }))
        ≡ serve
            (rules_service (table_rules name values spec))
            program
            (begin (table_rules {E = E} name values spec) (values.initial spec.initial_expr) now w)
  fsm_means m w program gives plain =
      let of = returned-IsMachineOf syn tokens name named values spec fuel now enough m gives in
      let rules = table_rules {E = E} name values spec in
      machine-rules_service program (record { machine = m; world = w }) ∙ (λ i.
        serve (rules_service (tables-table_rules name values spec now m of plain i)) program
          (record { state = of.initial i; timer = of.timer i; world = w }))

  -- A machine that `fsm!` gives for a table that has no row for a state called `_`, after any steps
  -- of its host, calls that it drops at any point included: from there on, any host program has the
  -- answers and the result, and leaves the state, the deadline and the world, that it has and leaves
  -- with the interpreter of the table's rules, started in the machine's state with its deadline.
  pub fsm_means_after :
      {R : Type 0} (m : StateMachine S E C A) (w : World C) (s : Run S E C A)
      (program : Program E C A R)
      → FsmGives syn tokens name named values spec fuel now enough (returned m)
      → Reach AnyStep (record { machine = m; world = w }) s
      → NoWildcard (table_rows name values spec.states)
      → seen (serve machine_service program s)
        ≡ serve (rules_service (table_rules name values spec)) program (conf s)
  fsm_means_after m w s program gives steps plain =
      let of = returned-IsMachineOf syn tokens name named values spec fuel now enough m gives in
      machine-rules_service program s
      ∙ ap (λ rules. serve (rules_service rules) program (conf s))
          (ap rules_of (tables-Reach steps) ∙ tables-table_rules name values spec now m of plain)
