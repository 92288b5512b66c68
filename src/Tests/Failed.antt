-- ===== src/Tests/Failed.antt =====
-- Calls on the lamp whose handlers fail.
use obzenflow_fsm.Prelude.{
  ℕ, String, Option, some, [], ◌∷◌, ◌≡◌, refl, ◌⊎◌, inr, string_equality, pair_equality,
}
use obzenflow_fsm.HashMap
use obzenflow_fsm.HashMap.{HashMap}
use obzenflow_fsm.Error.{handler_error}
use obzenflow_fsm.Exec.{ok, err}
use obzenflow_fsm.Types.{Transition, World, TransitionHandler, TimeoutHandler}
use obzenflow_fsm.Machine.{
  Run, run_hook, deadline, apply_transition, fire, poll, check_timeout, fire_event, on_wildcard,
  on_exact, handle,
}
use obzenflow_fsm.Machine.Dispatch.{Picks}
use obzenflow_fsm.Machine.Poll.{Elapsed}
use obzenflow_fsm.Machine.Failures.{
  EntryFailed, handle_error, check_timeout_error, polled_by, entry_failure-timer,
}
use obzenflow_fsm.Tests.Lamp.{
  Lamp, dark, lit, broken, Touch, hit, lamp_variant, touch_variant, Log, on_hit, exits, timeouts,
  lamp, world, run, dark_run, lit_run, broken_run, entries,
}

-- A hit: the wildcard's handler, then the entry hook fails, in the new state.
was_hit : handle hit dark_run ≡ (err (handler_error "no bulb"), broken_run 3)
unfolding handle on_exact on_wildcard fire_event apply_transition run_hook HashMap.get deadline
was_hit = refl

-- The timeout's transition goes to a state whose entry hook fails.
abbrev crash : TimeoutHandler Lamp Log String
crash state w = (ok (record { next_state = broken; actions = [] }), w)

abbrev doomed : Option ℕ → Lamp → World Log → Run Lamp Touch Log String
doomed timer state w =
    run (record (lamp state entries timer) { timeout_handlers = ("Lit", (10, crash)) ∷ [] }) w

crashed :
    check_timeout (doomed (some 15) lit (world [] 20))
    ≡ (err (handler_error "no bulb"), doomed (some 15) broken (world [] 20))
unfolding check_timeout poll fire apply_transition run_hook HashMap.get deadline
crashed = refl

handle_error_example :
    ((broken_run 3).machine ≡ dark_run.machine)
    ⊎ ((handler : TransitionHandler Lamp Touch Log String) × (t : Transition Lamp String)
        × (w : World Log) × Picks dark_run hit handler
        × (handler dark hit dark_run.world ≡ (ok t, w))
        × EntryFailed dark_run.machine t (handler_error "no bulb") (broken_run 3))
handle_error_example = handle_error hit dark_run (broken_run 3) (handler_error "no bulb") was_hit

check_timeout_error_example :
    let s = doomed (some 15) lit (world [] 20) in
    let u = doomed (some 15) broken (world [] 20) in
    (u.machine ≡ s.machine)
    ⊎ ((handler : TimeoutHandler Lamp Log String) × (t : Transition Lamp String) × (w : World Log)
        × Elapsed s handler
        × (handler lit s.world ≡ (ok t, w))
        × EntryFailed s.machine t (handler_error "no bulb") u)
check_timeout_error_example =
    check_timeout_error (doomed (some 15) lit (world [] 20)) (doomed (some 15) broken (world [] 20))
      (handler_error "no bulb") crashed

-- The broken lamp has a timeout of five ticks, and at 15 the deadline of the lit one comes.
hit_while_lit : Picks (lit_run 6) hit on_hit
unfolding HashMap.get
hit_while_lit = inr (refl, refl)

left_lit : run_hook (HashMap.get exits "Lit") lit (lit_run 6).world ≡ (ok [], (lit_run 6).world)
unfolding HashMap.get run_hook
left_lit = refl

broke_while_lit :
    run_hook (HashMap.get entries "Broken") broken (lit_run 6).world
    ≡ (err (handler_error "no bulb"), (lit_run 6).world)
unfolding HashMap.get run_hook
broke_while_lit = refl

entry_failure-timer_example :
    let u = record (handle hit (lit_run 6)).1 { world = world [] 15 } in
    ((handle hit (lit_run 6)).0 ≡ err (handler_error "no bulb"))
    × (u.current_state ≡ broken)
    × (check_timeout u ≡ polled_by (some 15) (HashMap.get timeouts "Broken") u)
entry_failure-timer_example =
    entry_failure-timer hit (lit_run 6) on_hit (record { next_state = broken; actions = [] })
      (lit_run 6).world [] (lit_run 6).world (handler_error "no bulb") (lit_run 6).world
      (world [] 15) hit_while_lit refl left_lit broke_while_lit
