-- ===== src/Tests/Replayed.antt =====
-- The lamp under hosts with different worlds.
use obzenflow_fsm.Prelude.{
  ◌+◌, String, subst, none, [], ◌∷◌, ◌≡◌, refl, inl, inr, string_equality, pair_equality,
}
use obzenflow_fsm.HashMap
use obzenflow_fsm.HashMap.{HashMap}
use obzenflow_fsm.Types.{StateHandler, TransitionHandler}
use obzenflow_fsm.Machine.Replay.{IsPure, HasPureHandlers, feed, feed-worlds}
use obzenflow_fsm.Tests.Engine.{found-cases}
use obzenflow_fsm.Tests.Lamp.{
  Lamp, dark, Touch, press, hit, look, lamp_variant, touch_variant, Log, on_press, on_hit,
  enter_lit, lamp, world, dark_run, entries, leave_dark, enter_broken,
}

abbrev TransitionIsPure : TransitionHandler Lamp Touch Log String → Type 0
TransitionIsPure h = (state : Lamp) (event : Touch) → IsPure (h state event)

abbrev HookIsPure : StateHandler Lamp Log String → Type 0
HookIsPure h = (state : Lamp) → IsPure (h state)

lamp-HasPureHandlers : HasPureHandlers (lamp dark entries none)
lamp-HasPureHandlers = record {
  transitions = λ k h p. elim (found-cases ("Dark", "Press") on_press _ k h p) [
    | inl e ↦ subst TransitionIsPure e (λ state event v w. refl)
    | inr q ↦ elim (found-cases ("_", "Hit") on_hit [] k h q) [
      | inl e ↦ subst TransitionIsPure e (λ state event v w. refl)
      | inr r ↦ unfold HashMap.get in cc
    ]
  ];
  entries = λ n h p. elim (found-cases "Lit" enter_lit _ n h p) [
    | inl e ↦ subst HookIsPure e (λ state v w. refl)
    | inr q ↦ elim (found-cases "Broken" enter_broken [] n h q) [
      | inl e ↦ subst HookIsPure e (λ state v w. refl)
      | inr r ↦ unfold HashMap.get in cc
    ]
  ];
  exits = λ n h p. elim (found-cases "Dark" leave_dark [] n h p) [
    | inl e ↦ subst HookIsPure e (λ state v w. refl)
    | inr r ↦ unfold HashMap.get in cc
  ];
  unhandled = λ h p. cc;
}

-- The host of one run does nothing; that of the other has filled the log and let time pass.
feed-worlds_example :
    ((feed (λ n. world ("busy" ∷ []) (100 + n)) (press ∷ look ∷ hit ∷ []) dark_run).0
      ≡ (feed (λ n. world [] 3) (press ∷ look ∷ hit ∷ []) dark_run).0)
    × ((feed
          (λ n. world ("busy" ∷ []) (100 + n))
          (press ∷ look ∷ hit ∷ [])
          dark_run).1.current_state
        ≡ (feed (λ n. world [] 3) (press ∷ look ∷ hit ∷ []) dark_run).1.current_state)
feed-worlds_example =
    feed-worlds (λ n. world [] 3) (λ n. world ("busy" ∷ []) (100 + n)) (press ∷ look ∷ hit ∷ [])
      dark_run lamp-HasPureHandlers
