-- ===== src/Dsl/Fsm/Dispatch.antt =====
-- How the machine of an `fsm!` table handles an event.
use obzenflow_fsm.Prelude.{
  ℕ, ◌<◌, String, false, Option, none, some, List, [], ◌∷◌, ◌≡◌, refl, ap, ◌∙◌, inl, inr, ◌==◌, any,
  arith, string_equality, pair_equality, Bool-cases, Option-cases,
}
use obzenflow_fsm.HashMap
use obzenflow_fsm.Exec.{Exec}
use obzenflow_fsm.Types.{StateVariant, EventVariant, World, TransitionHandler, UnhandledHandler}
use obzenflow_fsm.Machine.{StateMachine, Run, handle, fire_event, unhandled}
use obzenflow_fsm.Machine.Dispatch.{fire_of_Picks, unhandled_of_PicksNone}
use obzenflow_fsm.Machine.Tables.{tables}
use obzenflow_fsm.Dsl.Spec.{FsmSpec}
use obzenflow_fsm.Dsl.Eval.{Values}
use obzenflow_fsm.Dsl.Tables.{TableRow, last_row, table_rows}
use obzenflow_fsm.Dsl.Fsm.Machines.{IsMachineOf, FsmGives, returned-IsMachineOf}
use obzenflow_fsm.Dsl.Syn.{Syn, Tokens}
use obzenflow_fsm.Dsl.Codegen.{last}
use obzenflow_fsm.Dsl.Parse.Print.{to_decls, rounds}
use obzenflow_fsm.Builder.{returned}
use obzenflow_fsm.Machine.Host.{AnyStep, Reach, tables-Reach}
use mathlib.Core.Option

-- No row is for the state `_`, which is the builder's name for any state.
abbrev pub NoWildcard : {H : Type 0} → List (TableRow H) → Type 0
NoWildcard rows = any (λ r. r.key.0 == "_") rows ≡ false

pub last_row-wildcard :
    {H : Type 0} (rows : List (TableRow H)) (event : String) (found : Option H)
    → NoWildcard rows
    → last_row rows ("_", event) found ≡ found
unfolding last_row
last_row-wildcard [] event found h = refl
last_row-wildcard (r ∷ rows) event found h = elim (Bool-cases (r.key.0 == "_")) [
  | inl p ↦ ground arith
  | inr p ↦ rw p (last_row-wildcard rows event found (rw p at h))
]

module _ {S E C A : Type 0} ⦃sv : StateVariant S⦄ ⦃ev : EventVariant E⦄ where
  -- The handler of a row, or else the hook for unhandled events, or else the error.
  abbrev pub row_or_hook :
      Option (TransitionHandler S E C A)
      → Option (UnhandledHandler S E C)
      → E
      → Exec (Run S E C A) (List A)
  row_or_hook (some handler) hook event = fire_event handler event
  row_or_hook none hook event = unhandled hook event

  pub handle_of_table :
      {Ty SynPath Expr : Type 0} (name : SynPath → String) (values : Values Expr S E C A)
      (spec : FsmSpec Ty SynPath Expr) (now : ℕ) (m : StateMachine S E C A) (s : Run S E C A)
      (event : E)
      → IsMachineOf name values spec now m
      → tables s.machine ≡ tables m
      → NoWildcard (table_rows name values spec.states)
      → handle event s
        ≡ row_or_hook
            (last_row
              (table_rows name values spec.states)
              (sv.variant_name s.current_state, ev.variant_name event)
              none)
            (Option.map values.unhandled spec.unhandled)
            event
            s
  handle_of_table name values spec now m s event of same plain =
      let rows = table_rows name values spec.states in
      let key : String × String = (sv.variant_name s.current_state, ev.variant_name event) in
      let at = λ (k : String × String). ap (λ t. HashMap.get t.0 k) same ∙ of.transitions k in
      elim (Option-cases (last_row rows key none)) [
        | inr (h, p) ↦ rw p (fire_of_Picks event s h (inl (at key ∙ p)))
        | inl p ↦ rw p (
            unhandled_of_PicksNone event s (Option.map values.unhandled spec.unhandled)
              (
                at key ∙ p,
                at ("_", ev.variant_name event)
                    ∙ last_row-wildcard rows (ev.variant_name event) none plain,
              )
              (ap (λ t. t.4) same ∙ of.unhandled))
      ]

module _ {S E C A : Type 0} ⦃sv : StateVariant S⦄ ⦃ev : EventVariant E⦄ (syn : Syn)
    (tokens : Tokens syn) (name : syn.ExprPath → String)
    (named : (p : syn.ExprPath) → last (syn.segments p) ≡ some (name p))
    (values : Values syn.Expr S E C A) (spec : FsmSpec syn.Ty syn.ExprPath syn.Expr) (fuel now : ℕ)
    (enough : rounds (to_decls spec) < fuel) where
  -- A machine that `fsm!` gives for a table that has no row for a state called `_`, after any steps
  -- of its host, calls that it drops included: an event runs the handler of the table's last row
  -- for the current state's and the event's names, and if there is none it goes to the table's
  -- `unhandled` hook, or is an error if the table has no hook.
  pub fsm_dispatch :
      (m : StateMachine S E C A) (w : World C) (s : Run S E C A) (event : E)
      → FsmGives syn tokens name named values spec fuel now enough (returned m)
      → Reach AnyStep (record { machine = m; world = w }) s
      → NoWildcard (table_rows name values spec.states)
      → handle event s
        ≡ row_or_hook
            (last_row
              (table_rows name values spec.states)
              (sv.variant_name s.current_state, ev.variant_name event)
              none)
            (Option.map values.unhandled spec.unhandled)
            event
            s
  fsm_dispatch m w s event gives steps plain =
      handle_of_table name values spec now m s event
        (returned-IsMachineOf syn tokens name named values spec fuel now enough m gives)
        (tables-Reach steps) plain
