-- ===== src/Types/Chains.antt =====
-- Chains of the transition builders' methods, and the shorthands of src/transitions.rs.
use obzenflow_fsm.Prelude.{List, [], ◌∷◌, ◌++◌, ◌≡◌, refl, sym, ap, ◌∙◌, append-nil, append_assoc}
use obzenflow_fsm.Types.{TransitionBuilder, StayBuilder}
use obzenflow_fsm.Types.To
use obzenflow_fsm.Types.Stay
use obzenflow_fsm.Transitions

-- A call of `with_actions` or of `with_action` in a chain.
pub data Given {ℓ} (A : Type ℓ) : Type ℓ where
  gave_list : List A → Given A
  gave_one : A → Given A

-- Adds actions one by one.
abbrev pub singly {ℓ} : {A : Type ℓ} → List A → List (Given A)
singly [] = []
singly (a ∷ actions) = gave_one a ∷ singly actions

module _ {ℓ} {S A : Type ℓ} where
  abbrev pub chain : TransitionBuilder S A → List (Given A) → TransitionBuilder S A
  chain b [] = b
  chain b (gave_list actions ∷ calls) = chain (To.with_actions b actions) calls
  chain b (gave_one action ∷ calls) = chain (To.with_action b action) calls

  abbrev pub stay_chain : StayBuilder S A → List (Given A) → StayBuilder S A
  stay_chain b [] = b
  stay_chain b (gave_list actions ∷ calls) = stay_chain (Stay.with_actions b actions) calls
  stay_chain b (gave_one action ∷ calls) = stay_chain (Stay.with_action b action) calls

  chain-singly :
      (b : TransitionBuilder S A) (xs : List A)
      → chain b (singly xs) ≡ record b { actions = b.actions ++ xs }
  unfolding To.with_action
  chain-singly b [] = ap (λ l. record b { actions = l }) (sym (append-nil b.actions))
  chain-singly b (x ∷ xs) =
      chain-singly (To.with_action b x) xs
      ∙ ap (λ l. record b { actions = l }) (append_assoc b.actions (x ∷ []) xs)

  stay_chain-singly :
      (b : StayBuilder S A) (xs : List A)
      → stay_chain b (singly xs) ≡ record b { actions = b.actions ++ xs }
  unfolding Stay.with_action
  stay_chain-singly b [] = ap (λ l. record b { actions = l }) (sym (append-nil b.actions))
  stay_chain-singly b (x ∷ xs) =
      stay_chain-singly (Stay.with_action b x) xs
      ∙ ap (λ l. record b { actions = l }) (append_assoc b.actions (x ∷ []) xs)

  -- A list replaces all that the calls before it gave, and what comes after it is added.
  chain-gave_list :
      (b : TransitionBuilder S A) (before : List (Given A)) (xs ys : List A)
      → To.build (chain b (before ++ gave_list xs ∷ singly ys))
        ≡ Transitions.goto_with_actions b.next_state (xs ++ ys)
  unfolding To.with_actions To.with_action To.build Transitions.goto_with_actions To.to
  chain-gave_list b [] xs ys = rw chain-singly refl
  chain-gave_list b (gave_list actions ∷ before) xs ys =
      chain-gave_list (To.with_actions b actions) before xs ys
  chain-gave_list b (gave_one action ∷ before) xs ys =
      chain-gave_list (To.with_action b action) before xs ys

  stay_chain-gave_list :
      (b : StayBuilder S A) (before : List (Given A)) (s : S) (xs ys : List A)
      → Stay.in_state (stay_chain b (before ++ gave_list xs ∷ singly ys)) s
        ≡ Transitions.stay_with_actions s (xs ++ ys)
  unfolding Stay.with_actions Stay.in_state Transitions.stay_with_actions Stay.stay
  stay_chain-gave_list b [] s xs ys = rw stay_chain-singly refl
  stay_chain-gave_list b (gave_list actions ∷ before) s xs ys =
      stay_chain-gave_list (Stay.with_actions b actions) before s xs ys
  stay_chain-gave_list b (gave_one action ∷ before) s xs ys =
      stay_chain-gave_list (Stay.with_action b action) before s xs ys

  -- After `to`, and after `stay`, any chain of calls of `with_actions` and `with_action` builds the
  -- transition that `goto_with_actions`, or `stay_with_actions`, makes of the actions of its last
  -- `with_actions` and those added singly after it, in that order, whatever calls came before that
  -- one; and with no `with_actions` at all, of the actions added, in their order.
  pub chains :
      (s : S) (before : List (Given A)) (xs ys : List A)
      → (To.build (chain (To.to s) (before ++ gave_list xs ∷ singly ys))
          ≡ Transitions.goto_with_actions s (xs ++ ys))
        × (Stay.in_state (stay_chain Stay.stay (before ++ gave_list xs ∷ singly ys)) s
            ≡ Transitions.stay_with_actions s (xs ++ ys))
        × (To.build (chain (To.to s) (singly ys)) ≡ Transitions.goto_with_actions s ys)
        × (Stay.in_state (stay_chain Stay.stay (singly ys)) s ≡ Transitions.stay_with_actions s ys)
  unfolding To.to To.with_actions To.build Stay.stay Stay.with_actions Stay.in_state
      Transitions.goto_with_actions Transitions.stay_with_actions
  chains s before xs ys = (
    chain-gave_list (To.to s) before xs ys,
    stay_chain-gave_list Stay.stay before s xs ys,
    rw chain-singly refl,
    rw stay_chain-singly refl,
  )
