-- ===== src/Tests/Supervised.antt =====
-- The lamp under the supervisor of the guide.
use obzenflow_fsm.Prelude.{
  ◌+◌, ◌≤◌, String, none, [], ◌∷◌, ◌≡◌, refl, arith, ◌==◌, if◌then◌else◌, string_equality,
}
use obzenflow_fsm.Error.{FsmError, handler_error}
use obzenflow_fsm.Exec.{ok, err, Exec, ◌>>=◌, ◌>>◌}
use obzenflow_fsm.Types.{World, FsmAction}
use obzenflow_fsm.Machine.{new, handle, execute_actions}
use obzenflow_fsm.Machine.Tables.{tables}
use obzenflow_fsm.Machine.Timers.{IsArmed}
use obzenflow_fsm.Machine.Actions.{FirstFailure}
use obzenflow_fsm.Supervisor.{execute_or_report, rounds}
use obzenflow_fsm.Supervisor.Batches.{run_actions, report-FirstFailure}
use obzenflow_fsm.Supervisor.Runs.{Monotone, new-rounds-IsArmed}
use obzenflow_fsm.Machine.Serve.{result_of}
use obzenflow_fsm.Machine.Rules.{rules_service, begin}
use obzenflow_fsm.Machine.Rules.Refines.{seen}
use obzenflow_fsm.Dsl.Meaning.{table_rules}
use obzenflow_fsm.Supervisor.Hosted.{supervise, supervised_means}
use obzenflow_fsm.Tests.Toy.{toy, toy_tokens}
use obzenflow_fsm.Tests.Table.{values, path_name, named, spec, spec_rounds, no_wildcard, given}
use obzenflow_fsm.Tests.Engine.{entries_succeed}
use obzenflow_fsm.Tests.Lamp.{
  Touch, dark, transitions, sound_entries, exits, timeouts, press, hit, Log, note, world, dark_run,
  lamp_variant, touch_variant,
}

-- The action "bad" fails, and any other is a line of the log.
abbrev do_line : String → Exec (World Log) Unit
do_line action w =
    if action == "bad" then (err (handler_error "bad action"), w) else (ok tt, note action w)

instance abbrev logging : FsmAction Log String
logging = record { execute = do_line }

do_line-Monotone : (action : String) → Monotone (do_line action)
do_line-Monotone action w = ground arith

-- A press for every event, which comes after two ticks; an error is a hit.
abbrev presses : World Log → Touch × World Log
presses w = (press, record w { clock = w.clock + 2 })

presses_wait : (w : World Log) → w.clock ≤ (presses w).1.clock
presses_wait w = omega arith

abbrev broken_glass : FsmError → Touch
broken_glass e = hit

first_bad :
    FirstFailure {A = String}
      ("a" ∷ "bad" ∷ "b" ∷ [])
      (world [] 3)
      (handler_error "bad action")
      (world ("a" ∷ []) 4)
unfolding execute_actions
first_bad = record {
  before = "a" ∷ [];
  action = "bad";
  after = "b" ∷ [];
  split = refl;
  reached = world ("a" ∷ []) 4;
  succeeded = refl;
  failed = refl;
}

report-FirstFailure_example :
    execute_or_report broken_glass ("a" ∷ "bad" ∷ "b" ∷ []) dark_run
    ≡ (do
      failure_actions ← handle (broken_glass (handler_error "bad action"))
      run_actions failure_actions
      execute_or_report broken_glass first_bad.after)
        (record dark_run { world = world ("a" ∷ []) 4 })
report-FirstFailure_example =
    report-FirstFailure broken_glass ("a" ∷ "bad" ∷ "b" ∷ []) dark_run (handler_error "bad action")
      (world ("a" ∷ []) 4) first_bad

new-rounds-IsArmed_example :
    let m = new dark transitions sound_entries exits timeouts none 3 in
    let u = (rounds broken_glass presses 3 (record { machine = m; world = world [] 3 })).1 in
    (tables u.machine ≡ tables m) × IsArmed u.machine
new-rounds-IsArmed_example =
    new-rounds-IsArmed do_line-Monotone broken_glass presses presses_wait dark transitions
      sound_entries exits timeouts none (world [] 3) 3 entries_succeed

-- The lamp's table under the supervisor.
supervised_means_example :
    seen (rounds broken_glass presses 2 (record { machine = given.0; world = world [] 3 }))
    ≡ result_of
        (rules_service (table_rules path_name values spec))
        (supervise broken_glass presses 2)
        (begin (table_rules path_name values spec) dark 3 (world [] 3))
supervised_means_example =
    supervised_means toy toy_tokens path_name named values spec 20 3 spec_rounds broken_glass
      presses given.0 (world [] 3) 2 given.1 no_wildcard
