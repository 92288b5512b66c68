-- ===== src/Types/Stay.antt =====
-- `Transition::stay` and the methods of `StayBuilder` (src/types.rs).
use obzenflow_fsm.Prelude.{List, [], ◌∷◌, ◌++◌}
use obzenflow_fsm.Types.{Transition, StayBuilder}

module _ {ℓ} {S A : Type ℓ} where
  unfoldable pub stay : StayBuilder S A
  stay = record { actions = [] }

  unfoldable pub with_actions : StayBuilder S A → List A → StayBuilder S A
  with_actions self actions = record self { actions = actions }

  unfoldable pub with_action : StayBuilder S A → A → StayBuilder S A
  with_action self action = record self { actions = self.actions ++ action ∷ [] }

  unfoldable pub in_state : StayBuilder S A → S → Transition S A
  in_state self current_state = record { next_state = current_state; actions = self.actions }
