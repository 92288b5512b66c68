-- ===== src/Tests/Built.antt =====
-- Builders, and the theorems on the builder at them.
use obzenflow_fsm.Prelude.{
  String, some, List, [], ◌∷◌, ◌++◌, ◌==◌, ◌≡◌, refl, inl, inr, if◌then◌else◌, string_equality,
  pair_equality,
}
use obzenflow_fsm.HashMap
use obzenflow_fsm.Exec.{ok}
use obzenflow_fsm.Types.To
use obzenflow_fsm.Types.Stay
use obzenflow_fsm.Types.Chains.{Given, gave_list, gave_one, singly, chain, stay_chain, chains}
use obzenflow_fsm.Transitions
use obzenflow_fsm.Machine.{StateMachine}
use obzenflow_fsm.Builder
use obzenflow_fsm.Builder.{FsmBuilder, WhenBuilder, TimeoutBuilder, try_build}
use obzenflow_fsm.Builder.When
use obzenflow_fsm.Builder.Timeout
use obzenflow_fsm.Builder.Duplicates.{on-on_replaced}
use obzenflow_fsm.Builder.Validation.{machine_of, try_build_ok_iff}
use obzenflow_fsm.Tests.Lamp.{Lamp, dark, lit, Touch, lamp_variant, Log, on_press, on_hit, burn_out}

abbrev LampBuilder : Type 0
LampBuilder = FsmBuilder Lamp Touch Log String

abbrev empty : LampBuilder
empty = Builder.new dark

abbrev in_dark : WhenBuilder Lamp Touch Log String
in_dark = record { builder = empty; state_name = "Dark" }

-- One handler for the initial state.
abbrev once : LampBuilder
once = (When.on in_dark "Press" on_press).builder

abbrev in_lit : TimeoutBuilder Lamp Touch Log String
in_lit = When.timeout (record { builder = once; state_name = "Lit" }) 10 burn_out

abbrev lit_machine : StateMachine Lamp Touch Log String
lit_machine = machine_of in_lit.builder 3

in_lit_builds : try_build in_lit.builder 3 ≡ ok lit_machine
unfolding Builder.new When.on When.timeout HashMap.get HashMap.insert
in_lit_builds = (try_build_ok_iff in_lit.builder 3 lit_machine).1 (refl, inr (inl refl), refl)

on-on_replaced_example :
    (m : StateMachine Lamp Touch Log String) × (try_build
        (Timeout.on (Timeout.on in_lit "Press" on_press) "Press" on_hit).builder
        3
      ≡ ok m)
    × ((key : String × String)
        → HashMap.get m.transitions key ≡ (
            if ("Lit", "Press") == key
            then some on_hit
            else HashMap.get lit_machine.transitions key))
    × (record m { transitions = lit_machine.transitions } ≡ lit_machine)
unfolding When.timeout
on-on_replaced_example = on-on_replaced in_lit "Press" on_press on_hit 3 lit_machine in_lit_builds

abbrev one : List String
one = "a" ∷ []

abbrev two : List String
two = "b" ∷ "c" ∷ []

-- Calls before the list.
abbrev earlier : List (Given String)
earlier = gave_one "d" ∷ gave_list two ∷ []

chains_example :
    (To.build (chain (To.to lit) (earlier ++ gave_list one ∷ singly two))
      ≡ Transitions.goto_with_actions lit (one ++ two))
    × (Stay.in_state (stay_chain Stay.stay (earlier ++ gave_list one ∷ singly two)) lit
        ≡ Transitions.stay_with_actions lit (one ++ two))
    × (To.build (chain (To.to lit) (singly two)) ≡ Transitions.goto_with_actions lit two)
    × (Stay.in_state (stay_chain Stay.stay (singly two)) lit
        ≡ Transitions.stay_with_actions lit two)
chains_example = chains lit earlier one two
