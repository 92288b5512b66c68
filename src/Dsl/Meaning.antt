-- ===== src/Dsl/Meaning.antt =====
-- What a table means: rules for its states, read from the table itself, with no names of builders,
-- maps or machines.
pub mod Refines
pub mod Plain
use mathlib.Core.Option
use obzenflow_fsm.Prelude.{ℕ, String, Option, none, string_equality, pair_equality}
use obzenflow_fsm.Types.{
  StateVariant, EventVariant, TransitionHandler, StateHandler, TimeoutHandler,
}
use obzenflow_fsm.Machine.Rules.{Rules}
use obzenflow_fsm.Dsl.Spec.{FsmSpec}
use obzenflow_fsm.Dsl.Eval.{Values}
use obzenflow_fsm.Dsl.Tables.{last_row, last_block, table_rows, entry_part, exit_part, timeout_part}

module _ {Ty SynPath Expr S E C A : Type 0} ⦃sv : StateVariant S⦄ ⦃ev : EventVariant E⦄
    (name : SynPath → String) (values : Values Expr S E C A) (spec : FsmSpec Ty SynPath Expr) where
  -- What the table has for a state, and for a state and an event: of its blocks and rows for them,
  -- the last.
  abbrev pub row_of : S → E → Option (TransitionHandler S E C A)
  row_of state event =
      last_row (table_rows name values spec.states) (sv.variant_name state, ev.variant_name event)
        none

  abbrev pub exit_of : S → Option (StateHandler S C A)
  exit_of state = last_block name (exit_part name values) spec.states (sv.variant_name state) none

  abbrev pub entry_of : S → Option (StateHandler S C A)
  entry_of state = last_block name (entry_part name values) spec.states (sv.variant_name state) none

  abbrev pub timeout_of : S → Option (ℕ × TimeoutHandler S C A)
  timeout_of state =
      last_block name (timeout_part name values) spec.states (sv.variant_name state) none

  abbrev pub table_rules : Rules S E C A
  table_rules = record {
    row = row_of;
    exit = exit_of;
    entry = entry_of;
    timeout = timeout_of;
    unhandled = Option.map values.unhandled spec.unhandled;
  }
