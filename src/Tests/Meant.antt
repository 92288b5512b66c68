-- ===== src/Tests/Meant.antt =====
-- The lamp's table, served to a host that presses, polls and hits, and the meaning of the table.
use obzenflow_fsm.Prelude.{ℕ, ◌+◌, some, none, [], ◌≡◌, String, List, string_equality}
use obzenflow_fsm.Exec.{FsmResult, ok, err}
use obzenflow_fsm.Types.{World}
use obzenflow_fsm.Machine.{handle}
use obzenflow_fsm.Machine.Serve.{Program, done, call, work, serve, machine_service}
use obzenflow_fsm.Machine.Rules.{rules_service, begin}
use obzenflow_fsm.Dsl.Meaning.{table_rules}
use obzenflow_fsm.Dsl.Meaning.Refines.{fsm_means, fsm_means_after}
use obzenflow_fsm.Machine.Rules.Refines.{conf, seen}
use obzenflow_fsm.Tests.Toy.{toy, toy_tokens}
use obzenflow_fsm.Tests.Lamp.{dark, Touch, press, hit, Log, lamp_variant, touch_variant, world}
use obzenflow_fsm.Tests.Table.{
  values, path_name, named, spec, spec_rounds, no_wildcard, given, given_run, pressed_once,
}

-- Ten ticks pass after every call.
abbrev wait : World Log → World Log
wait w = record w { clock = 10 + w.clock }

-- Presses, polls, and after a poll with no error hits. It counts its calls.
abbrev knock : FsmResult (List String) → Program Touch Log String ℕ
knock (ok actions) = work wait (λ w. call (some hit) (λ r. done 3))
knock (err e) = done 2

abbrev try_lamp : Program Touch Log String ℕ
try_lamp = call (some press) (λ r. work wait (λ w. call none knock))

fsm_means_example :
    seen (serve machine_service try_lamp (record { machine = given.0; world = world [] 3 }))
    ≡ serve
        (rules_service (table_rules path_name values spec))
        try_lamp
        (begin (table_rules path_name values spec) dark 3 (world [] 3))
fsm_means_example =
    fsm_means toy toy_tokens path_name named values spec 20 3 spec_rounds given.0 (world [] 3)
      try_lamp given.1 no_wildcard

fsm_means_after_example :
    seen (serve machine_service try_lamp (handle press given_run).1)
    ≡ serve
        (rules_service (table_rules path_name values spec))
        try_lamp
        (conf (handle press given_run).1)
fsm_means_after_example =
    fsm_means_after toy toy_tokens path_name named values spec 20 3 spec_rounds given.0 (world [] 3)
      (handle press given_run).1 try_lamp given.1 pressed_once no_wildcard
