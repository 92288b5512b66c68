-- ===== src/Tests/Dropped.antt =====
-- Calls on the lamp that are dropped.
use obzenflow_fsm.Prelude.{
  String, none, some, ◌≡◌, refl, ◌⊎◌, inl, inr, string_equality, pair_equality,
}
use obzenflow_fsm.HashMap
use obzenflow_fsm.Types.{Transition}
use obzenflow_fsm.Machine.Suspend.{
  and_then, IsPoint, await_future, hook_future, transition_future, event_future, exact_future,
  handle_future,
}
use obzenflow_fsm.Machine.Calls.{Leads, answer_future-IsPoint}
use obzenflow_fsm.Machine.Drops.{IsEntering}
use obzenflow_fsm.Tests.Lamp.{
  Lamp, lit, press, lamp_variant, touch_variant, lamp, entries, dark_run,
}

-- The third point of a press: the lamp is lit, and its timer is not set yet.
half_lit : IsPoint (lamp lit entries none) (handle_future press dark_run)
unfolding IsPoint handle_future exact_future event_future await_future and_then transition_future
    hook_future HashMap.get
half_lit = inr (inr (inl refl))

answer_future-IsPoint_example :
    (lamp lit entries none ≡ dark_run.machine)
    ⊎ ((t : Transition Lamp String) × Leads (some press) dark_run t
        × IsEntering dark_run.machine t (lamp lit entries none))
answer_future-IsPoint_example =
    answer_future-IsPoint (some press) dark_run (lamp lit entries none) half_lit
