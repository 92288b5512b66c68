-- ===== src/Tests/Reordered.antt =====
-- The lamp's table with its blocks in the other order.
use obzenflow_fsm.Prelude.{
  ℕ, ◌+◌, ◌<◌, String, none, some, List, [], ◌∷◌, ◌≡◌, ◌≢◌, refl, false, true, inl, arith,
  string_equality, pair_equality,
}
use obzenflow_fsm.Machine.{StateMachine}
use obzenflow_fsm.Exec.{FsmResult, ok, err}
use obzenflow_fsm.Machine.Serve.{Program, done, call, work, serve, machine_service}
use obzenflow_fsm.Machine.Rules.Refines.{seen}
use obzenflow_fsm.Builder.{returned}
use obzenflow_fsm.Dsl.Tables.{repeats, table_rows}
use obzenflow_fsm.Dsl.Parse.Print
use obzenflow_fsm.Dsl.Parse.Print.{to_decls, rounds}
use obzenflow_fsm.Dsl.Fsm.Machines.{IsMachineOf, FsmGives, TableHasWayOut, fsm_machine}
use obzenflow_fsm.Dsl.Fsm.Reorder
use obzenflow_fsm.Dsl.Fsm.Reorder.{fsm-Reorder}
use obzenflow_fsm.Tests.Toy.{toy, toy_tokens}
use obzenflow_fsm.Tests.Lamp.{Lamp, Touch, press, hit, lamp_variant, touch_variant, Log, world}
use obzenflow_fsm.Tests.Table.{
  Spec, values, path_name, named, dark_block, lit_block, spec_of, spec, spec_rounds, given,
}

abbrev turned : Spec
turned = spec_of (lit_block ∷ dark_block ∷ [])

turned_rounds : rounds (to_decls turned) < 20
unfolding to_decls Print.to_rows
turned_rounds = omega arith

turned_unique : repeats [] (table_rows path_name values turned.states) ≡ []
unfolding repeats table_rows
turned_unique = refl

turned-TableHasWayOut : TableHasWayOut path_name values turned
unfolding table_rows
turned-TableHasWayOut = inl refl

abbrev given_turned :
    (m : StateMachine Lamp Touch Log String) × FsmGives toy toy_tokens path_name named values turned
      20 3 turned_rounds
      (returned m)
    × IsMachineOf path_name values turned 3 m
given_turned =
    fsm_machine toy toy_tokens path_name named values turned 20 3 turned_rounds turned_unique
      turned-TableHasWayOut

dark-ne-lit : ◌≢◌ {A = String} "Dark" "Lit"
dark-ne-lit e = let h : false ≡ true = (string_equality.beq_iff "Dark" "Lit").1 e in cc

-- Presses, waits if that was no error, polls and hits.
abbrev go_on : FsmResult (List String) → Program Touch Log String ℕ
go_on (ok actions) =
    work (λ w. record w { clock = 10 + w.clock })
      (λ w. call none (λ r. call (some hit) (λ r. done 3)))
go_on (err e) = done 1

fsm-Reorder_example :
    seen (
      serve machine_service
        (call (some press) go_on)
        (record { machine = given.0; world = world [] 3 }))
    ≡ seen (
        serve machine_service
          (call (some press) go_on)
          (record { machine = given_turned.0; world = world [] 3 }))
fsm-Reorder_example =
    fsm-Reorder toy toy_tokens path_name named values spec (lit_block ∷ dark_block ∷ []) 20 3
      spec_rounds turned_rounds given.0 given_turned.0 (world [] 3) (call (some press) go_on)
      (Reorder.swap dark_block lit_block [] dark-ne-lit) given.1 given_turned.1
