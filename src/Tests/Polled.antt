-- ===== src/Tests/Polled.antt =====
-- Polls of the lamp.
use obzenflow_fsm.Prelude.{ℕ, ◌+◌, some, [], ◌≡◌, refl, arith, string_equality}
use obzenflow_fsm.HashMap
use obzenflow_fsm.Types.{World}
use obzenflow_fsm.Machine.Polling.{FiresAt, polls-FiresAt}
use obzenflow_fsm.Tests.Lamp.{Log, burn_out, timeouts, world, lit_run, lamp_variant, touch_variant}

found_burn_out : HashMap.get timeouts "Lit" ≡ some (10, burn_out)
unfolding HashMap.get
found_burn_out = refl

-- A poll at 8 and every four ticks after it.
abbrev every_four : ℕ → World Log
every_four j = world [] (8 + (j + (j + (j + j))))

polls-FiresAt_example : (k : ℕ) × FiresAt every_four 3 15 burn_out (lit_run 5) k
polls-FiresAt_example =
    polls-FiresAt 3 every_four 15 10 burn_out (lit_run 5) refl found_burn_out (omega arith)
