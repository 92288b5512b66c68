-- ===== src/Types/To.antt =====
-- `Transition::to` and the methods of `TransitionBuilder` (src/types.rs). `self` is moved into
-- each method, so a method returns the new builder.
use obzenflow_fsm.Prelude.{List, [], ◌∷◌, ◌++◌}
use obzenflow_fsm.Types.{Transition, TransitionBuilder}

module _ {ℓ} {S A : Type ℓ} where
  unfoldable pub to : S → TransitionBuilder S A
  to next_state = record { next_state = next_state; actions = [] }

  unfoldable pub with_actions : TransitionBuilder S A → List A → TransitionBuilder S A
  with_actions self actions = record self { actions = actions }

  unfoldable pub with_action : TransitionBuilder S A → A → TransitionBuilder S A
  with_action self action = record self { actions = self.actions ++ action ∷ [] }

  unfoldable pub build : TransitionBuilder S A → Transition S A
  build self = record { next_state = self.next_state; actions = self.actions }
