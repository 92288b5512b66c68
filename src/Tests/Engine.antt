-- ===== src/Tests/Engine.antt =====
-- Runs of the lamp, and the theorems on the engine at them.
use obzenflow_fsm.Prelude.{
  ◌+◌, ◌≤◌, ◌<◌, String, Equality, ◌==◌, subst, Bool-cases, none, some, List, [], ◌∷◌, ◌++◌, ◌≡◌,
  refl, ◌↔◌, ◌⊎◌, inl, inr, arith, if◌then◌else◌, string_equality, pair_equality,
}
use obzenflow_fsm.HashMap
use obzenflow_fsm.HashMap.{HashMap}
use obzenflow_fsm.Error.{handler_error}
use obzenflow_fsm.Exec.{ok, err}
use obzenflow_fsm.Types.{Transition, World, FsmAction, StateHandler}
use obzenflow_fsm.Machine.{
  Run, run_hook, deadline, apply_transition, fire, poll, check_timeout, fire_event, on_exact,
  handle, execute_actions, new,
}
use obzenflow_fsm.Machine.Apply.{Applies, apply_transition_iff}
use obzenflow_fsm.Machine.Dispatch.{Handles, handle_iff}
use obzenflow_fsm.Machine.Poll.{Polls, TimesOut, check_timeout_iff}
use obzenflow_fsm.Machine.Timers.{EntriesSucceed, IsArmed}
use obzenflow_fsm.Machine.Host
use obzenflow_fsm.Machine.Host.{HostStep, Reach, new-Reach-IsArmed}
use obzenflow_fsm.Machine.Calls.{IsIdle, HasHandler, answer-IsFresh}
use obzenflow_fsm.Machine.Deadlines.{IsFresh, check_timeout-window}
use obzenflow_fsm.Machine.Actions.{FirstFailure, execute_actions_error_iff}
use obzenflow_fsm.Tests.Lamp.{
  Lamp, dark, lit, Touch, press, lamp_variant, touch_variant, Log, on_press, enter_lit, burn_out,
  transitions, sound_entries, exits, timeouts, lamp, world, run, dark_run, lit_run, entries, note,
}

abbrev woken : List String
woken = "wake" ∷ "light" ∷ "click" ∷ []

abbrev good : List String
good = "a" ∷ []

abbrev bad : List String
bad = "bad" ∷ "b" ∷ []

abbrev sleeping : List String
sleeping = "sleep" ∷ []

-- A press: the exit hook, the entry hook and the transition give their actions in that order, and
-- the timer starts at the time after the entry hook.
pressed : handle press dark_run ≡ (ok ("wake" ∷ "light" ∷ "click" ∷ []), lit_run 5)
unfolding handle on_exact fire_event apply_transition run_hook HashMap.get deadline
pressed = refl

slept :
    check_timeout (lit_run 15)
    ≡ (ok ("sleep" ∷ []), run (lamp dark entries none) (lit_run 15).world)
unfolding check_timeout poll fire apply_transition run_hook HashMap.get deadline
slept = refl

abbrev Succeeds : StateHandler Lamp Log String → Type 0
Succeeds h =
    (state : Lamp) (v : World Log)
    → (xs : List String) × (v' : World Log) × (h state v ≡ (ok xs, v'))

-- A handler that a lookup gives is that of the first entry, or is in the rest.
pub found-cases :
    {K V : Type 0} ⦃e : Equality K⦄ (j : K) (v : V) (m : HashMap K V) (k : K) (h : V)
    → HashMap.get ((j, v) ∷ m) k ≡ some h
    → (v ≡ h) ⊎ (HashMap.get m k ≡ some h)
unfolding HashMap.get
found-cases j v m k h p = elim (Bool-cases (j == k)) [
  | inl q ↦ inl (ground arith)
  | inr q ↦ inr (ground arith)
]

pub entries_succeed :
    EntriesSucceed (new {E = Touch} dark transitions sound_entries exits timeouts none 3)
unfolding new HashMap.get
entries_succeed name handler p = elim (found-cases "Lit" enter_lit [] name handler p) [
  | inl e ↦ subst Succeeds e (λ state v. ("light" ∷ [], (enter_lit state v).1, refl))
  | inr q ↦ cc
]

abbrev started : Run Lamp Touch Log String
started = run (new dark transitions sound_entries exits timeouts none 3) (world [] 3)

abbrev host_steps : Reach HostStep started (check_timeout (handle press started).1).1
host_steps = Host.next (Host.next Host.here (Host.feed press refl)) (Host.poll refl)

pressed_safely : handle press (run (lamp dark sound_entries none) (world [] 3)) ≡ (
  ok ("wake" ∷ "light" ∷ "click" ∷ []),
  run (lamp lit sound_entries (some 15)) (lit_run 5).world,
)
unfolding handle on_exact fire_event apply_transition run_hook HashMap.get deadline
pressed_safely = refl

found_press : HashMap.get transitions ("Dark", "Press") ≡ some on_press
unfolding HashMap.get
found_press = refl

found_burn_out : HashMap.get timeouts "Lit" ≡ some (10, burn_out)
unfolding HashMap.get
found_burn_out = refl

abbrev light_up : Transition Lamp String
light_up = record { next_state = lit; actions = "click" ∷ [] }

abbrev pressed_run : Run Lamp Touch Log String
pressed_run = run (lamp dark entries none) (world ("pressed" ∷ []) 4)

lit_up : apply_transition light_up pressed_run ≡ (ok woken, lit_run 5)
unfolding apply_transition run_hook HashMap.get deadline
lit_up = refl

-- An action is a line for the log; the action `bad` fails.
instance abbrev logging : FsmAction Log String
logging = record {
  execute = λ action w.
      if action == "bad" then (err (handler_error "bad action"), w) else (ok tt, note action w);
}

apply_transition_iff_example :
    (apply_transition (record { next_state = lit; actions = "click" ∷ [] }) dark_run
      ≡ (ok ("wake" ∷ "light" ∷ "click" ∷ []), lit_run 4))
    ↔ Applies
        (record { next_state = lit; actions = "click" ∷ [] })
        dark_run
        (ok ("wake" ∷ "light" ∷ "click" ∷ []))
        (lit_run 4)
apply_transition_iff_example =
    apply_transition_iff (record { next_state = lit; actions = "click" ∷ [] }) dark_run
      (ok ("wake" ∷ "light" ∷ "click" ∷ [])) (lit_run 4)

handle_iff_example :
    (handle press dark_run ≡ (ok ("wake" ∷ "light" ∷ "click" ∷ []), lit_run 5))
    ↔ Handles press dark_run (ok ("wake" ∷ "light" ∷ "click" ∷ [])) (lit_run 5)
handle_iff_example = handle_iff press dark_run (ok ("wake" ∷ "light" ∷ "click" ∷ [])) (lit_run 5)

abbrev asleep : Run Lamp Touch Log String
asleep = run (lamp dark entries none) (lit_run 15).world

check_timeout_iff_example :
    (check_timeout (lit_run 15) ≡ (ok ("sleep" ∷ []), asleep))
    ↔ Polls (lit_run 15) (ok ("sleep" ∷ [])) asleep
check_timeout_iff_example = check_timeout_iff (lit_run 15) (ok ("sleep" ∷ [])) asleep

new-Reach-IsArmed_example : IsArmed (check_timeout (handle press started).1).1.machine
new-Reach-IsArmed_example =
    new-Reach-IsArmed dark transitions sound_entries exits timeouts none (world [] 3)
      entries_succeed host_steps

check_timeout-window_example :
    (((lit_run 15).clock < (lit_run 5).clock + 10)
      × (check_timeout (lit_run 15) ≡ (ok [], lit_run 15)))
    ⊎ (((lit_run 5).clock + 10 ≤ (lit_run 15).clock)
        × TimesOut burn_out
            (lit_run 15)
            (check_timeout (lit_run 15)).0
            (check_timeout (lit_run 15)).1)
check_timeout-window_example =
    check_timeout-window light_up pressed_run (lit_run 5) woken (lit_run 15).world 10 burn_out
      lit_up found_burn_out

execute_actions_error_iff_example :
    (execute_actions (good ++ bad) (world [] 0) ≡ (err (handler_error "bad action"), world good 1))
    ↔ FirstFailure (good ++ bad) (world [] 0) (handler_error "bad action") (world good 1)
execute_actions_error_iff_example =
    execute_actions_error_iff (good ++ bad) (world [] 0) (handler_error "bad action") (world good 1)

answer-IsFresh_example :
    IsIdle (some press) dark_run woken (lit_run 5)
    ⊎ (HasHandler (some press) dark_run × IsFresh (lit_run 5))
answer-IsFresh_example = answer-IsFresh (some press) dark_run (lit_run 5) woken pressed
