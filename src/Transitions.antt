-- ===== src/Transitions.antt =====
-- src/transitions.rs: constructors for the transition that a handler returns. `clone` is the
-- identity.
use obzenflow_fsm.Prelude.{List, []}
use obzenflow_fsm.Types.{Transition}

module _ {ℓ} {S A : Type ℓ} where
  unfoldable pub goto : S → Transition S A
  goto state = record { next_state = state; actions = [] }

  unfoldable pub goto_with_actions : S → List A → Transition S A
  goto_with_actions state actions = record { next_state = state; actions = actions }

  unfoldable pub stay : S → Transition S A
  stay current_state = record { next_state = current_state; actions = [] }

  unfoldable pub stay_with_actions : S → List A → Transition S A
  stay_with_actions current_state actions = record { next_state = current_state; actions = actions }
