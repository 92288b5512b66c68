-- ===== src/Dsl/Tables.antt =====
-- A table by itself: the handlers that its rows put under each key, with no builder and no code.
use obzenflow_fsm.Prelude.{
  ℕ, String, Bool, Option, none, some, List, [], ◌∷◌, ◌++◌, ◌==◌, if◌then◌else◌, any, is_some,
  string_equality, pair_equality,
}
use mathlib.Core.Option
use obzenflow_fsm.Types.{TransitionHandler, StateHandler, TimeoutHandler}
use obzenflow_fsm.Dsl.Spec.{OnHandler, StateBlock}
use obzenflow_fsm.Dsl.Eval.{Values}

-- An `on` row of a table: whether its block has a timeout, the names of its state and event, and
-- its handler.
pub record TableRow (H : Type 0) : Type 0 where
  pub timed : Bool
  pub key : String × String
  pub handler : H

module _ {H : Type 0} where
  -- The handler of the last row with the key.
  unfoldable pub last_row : List (TableRow H) → String × String → Option H → Option H
  last_row [] k found = found
  last_row (r ∷ rs) k found = last_row rs k (if r.key == k then some r.handler else found)

  -- The keys of the rows that repeat an earlier row's key, for the rows of blocks with no timeout.
  unfoldable pub repeats : List (String × String) → List (TableRow H) → List (String × String)
  repeats seen [] = []
  repeats seen (r ∷ rs) =
      let rest = repeats (r.key ∷ seen) rs in
      if r.timed then rest else if any (λ k. k == r.key) seen then r.key ∷ rest else rest

abbrev pub override : {X : Type 0} → Option X → Option X → Option X
override none found = found
override (some x) found = some x

module _ {SynPath Expr X : Type 0} (name : SynPath → String)
    (part : StateBlock SynPath Expr → Option X) where
  -- What the last block of a state, among those that have the part, puts there.
  unfoldable pub last_block : List (StateBlock SynPath Expr) → String → Option X → Option X
  last_block [] state found = found
  last_block (b ∷ bs) state found =
      last_block bs state (if name b.state_path == state then override (part b) found else found)

module _ {SynPath Expr S E C A : Type 0} (name : SynPath → String)
    (values : Values Expr S E C A) where
  abbrev pub handler_rows :
      Bool → String → List (OnHandler SynPath Expr) → List (TableRow (TransitionHandler S E C A))
  handler_rows timed state [] = []
  handler_rows timed state (h ∷ hs) =
      record {
        timed = timed;
        key = (state, name h.event_path);
        handler = values.transition h.handler;
      }
      ∷ handler_rows timed state hs

  abbrev pub block_rows : StateBlock SynPath Expr → List (TableRow (TransitionHandler S E C A))
  block_rows b = handler_rows (is_some b.timeout) (name b.state_path) b.handlers

  -- The `on` rows of a table, in order.
  unfoldable pub table_rows :
      List (StateBlock SynPath Expr) → List (TableRow (TransitionHandler S E C A))
  table_rows [] = []
  table_rows (b ∷ bs) = block_rows b ++ table_rows bs

  abbrev pub entry_part : StateBlock SynPath Expr → Option (StateHandler S C A)
  entry_part b = Option.map values.hook b.entry

  abbrev pub exit_part : StateBlock SynPath Expr → Option (StateHandler S C A)
  exit_part b = Option.map values.hook b.exit

  abbrev pub timeout_part : StateBlock SynPath Expr → Option (ℕ × TimeoutHandler S C A)
  timeout_part b =
      Option.map (λ t. (values.duration t.duration, values.timeout_handler t.handler)) b.timeout
