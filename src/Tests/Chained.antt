-- ===== src/Tests/Chained.antt =====
-- A chain of builder calls for the lamp, with handlers for any state, and its theorem.
use obzenflow_fsm.Prelude.{
  ℕ, String, List, false, true, some, none, refl, ◌≡◌, ◌≢◌, ◌+◌, [], ◌∷◌, ◌++◌,
}
use obzenflow_fsm.Machine.Serve.{Program, done, call, work}
use obzenflow_fsm.Builder.{FsmBuilder, WhenBuilder, TimeoutBuilder, new, when, from_any, on_entry}
use obzenflow_fsm.Builder.When
use obzenflow_fsm.Builder.Timeout
use obzenflow_fsm.Builder.History.{
  Call, latest, MadeBy, by_new, by_on, by_timeout, by_timed_on, by_entry, repeated, stays, verdict,
  gave_on, gave_timeout, gave_entry,
}
use obzenflow_fsm.Builder.History.Means.{Makes, built_means}
use obzenflow_fsm.Builder.History.Wildcard.{from_any-timeout_ignored}
use obzenflow_fsm.Tests.Lamp.{
  Lamp, dark, lit, broken, Touch, press, hit, Log, lamp_variant, touch_variant, on_press, on_hit,
  enter_lit, burn_out, world,
}

-- `FsmBuilder::new(Dark).when("Dark").on("Press", …)`
abbrev pressed : WhenBuilder Lamp Touch Log String
pressed = When.on (when (new dark) "Dark") "Press" on_press

-- `.done().when("Lit").timeout(10, …).on("Press", …)`
abbrev timed : TimeoutBuilder Lamp Touch Log String
timed = When.timeout (when (When.done pressed) "Lit") 10 burn_out

abbrev timed_pressed : TimeoutBuilder Lamp Touch Log String
timed_pressed = Timeout.on timed "Press" on_press

-- `.done().from_any().on("Hit", …).done().on_entry("Lit", …)`
abbrev chain : FsmBuilder Lamp Touch Log String
chain =
    on_entry (When.done (When.on (from_any (Timeout.done timed_pressed)) "Hit" on_hit)) "Lit"
      enter_lit

abbrev history : List (Call Lamp Touch Log String)
history =
    gave_entry "Lit" enter_lit
    ∷ gave_on false ("_", "Hit") on_hit
    ∷ gave_on true ("Lit", "Press") on_press
    ∷ gave_timeout "Lit" 10 burn_out
    ∷ gave_on false ("Dark", "Press") on_press
    ∷ []

chain_made : MadeBy dark chain history
unfolding when from_any When.done Timeout.done When.timeout Timeout.on When.on
chain_made = by_entry "Lit" enter_lit (
    by_on (from_any (Timeout.done timed_pressed)) "Hit" on_hit (
      by_timed_on timed "Press" on_press (
        by_timeout (when (When.done pressed) "Lit") 10 burn_out
          (by_on (when (new dark) "Dark") "Press" on_press by_new))))

-- Presses, waits until the timeout, polls and hits.
abbrev use_lamp : Program Touch Log String ℕ
use_lamp = call (some press) (λ r.
    work (λ w. record w { clock = 20 + w.clock })
      (λ w. call none (λ r. call (some hit) (λ r. done 3))))

built_means_example :
    Makes dark history chain 3
      (world [] 3)
      use_lamp
      (verdict (repeated history) (stays dark history))
built_means_example = built_means dark chain history 3 (world [] 3) use_lamp chain_made

-- The calls are accepted.
fine : verdict (repeated history) (stays dark history) ≡ none
unfolding repeated latest
fine = refl

-- `.from_any().timeout(5, …).done().on_entry("Lit", …)` after that.
abbrev timed_any : FsmBuilder Lamp Touch Log String
timed_any = on_entry (Timeout.done (When.timeout (from_any chain) 5 burn_out)) "Lit" enter_lit

timed_any-made :
    MadeBy dark timed_any (gave_entry "Lit" enter_lit ∷ [] ++ gave_timeout "_" 5 burn_out ∷ history)
unfolding from_any Timeout.done When.timeout
timed_any-made = by_entry "Lit" enter_lit (by_timeout (from_any chain) 5 burn_out chain_made)

lamp_named : (state : Lamp) → "_" ≢ lamp_variant.variant_name state
lamp_named dark h = cc
lamp_named lit h = cc
lamp_named broken h = cc

from_any-timeout_ignored_example :
    Makes dark (gave_entry "Lit" enter_lit ∷ [] ++ history) timed_any 3 (world [] 3) use_lamp (
      verdict
        (repeated (gave_entry "Lit" enter_lit ∷ [] ++ history))
        (stays dark (gave_entry "Lit" enter_lit ∷ [] ++ history)))
from_any-timeout_ignored_example =
    from_any-timeout_ignored dark timed_any (gave_entry "Lit" enter_lit ∷ []) history 5 burn_out 3
      (world [] 3) use_lamp lamp_named timed_any-made
