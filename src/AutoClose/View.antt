-- ===== src/AutoClose/View.antt =====
-- The guide's door as its user sees it, with no machine.
use obzenflow_fsm.Prelude.{
  ℕ, ◌+◌, String, Option, none, some, List, [], ◌∷◌, ◌++◌, ◌≡◌, leb, if◌then◌else◌, string_equality,
  pair_equality,
}
use obzenflow_fsm.Error.{unhandled_event}
use obzenflow_fsm.Exec.{FsmResult, ok, err}
use obzenflow_fsm.Machine.{Run}
use obzenflow_fsm.AutoClose.{
  DoorState, closed, opened, DoorEvent, DoorAction, log, DoorContext, door_state_variant,
  door_event_variant, door_action, Command, open_it, poll_it, sleep,
}

-- The door as a user sees it: it is shut, or open with a time from which on a poll shuts it.
pub data View : Type 0 where
  shut : View
  open_until : ℕ → View

-- What a command at a time does to the door, to the time, and to the log, and what it returns.
abbrev pub next : Command → View → ℕ → View
next open_it shut now = open_until (now + 10)
next open_it (open_until t) now = open_until t
next poll_it shut now = shut
next poll_it (open_until t) now = if leb t now then shut else open_until t
next (sleep d) v now = v

abbrev pub tick : Command → ℕ → ℕ
tick (sleep d) now = now + d
tick _ now = now

abbrev pub line : Command → View → ℕ → List String
line open_it shut now = "Opened" ∷ []
line poll_it (open_until t) now = if leb t now then "Auto-closed" ∷ [] else []
line _ _ now = []

abbrev pub answer : Command → View → ℕ → FsmResult (List DoorAction)
answer open_it shut now = ok (log "Opened" ∷ [])
answer open_it (open_until t) now = err (unhandled_event "Open" "Open")
answer poll_it shut now = ok []
answer poll_it (open_until t) now = if leb t now then ok (log "Auto-closed" ∷ []) else ok []
answer (sleep d) v now = ok []

-- The same for a list of commands.
abbrev pub finally : List Command → View → ℕ → View
finally [] v now = v
finally (c ∷ cs) v now = finally cs (next c v now) (tick c now)

abbrev pub lines : List Command → View → ℕ → List String
lines [] v now = []
lines (c ∷ cs) v now = line c v now ++ lines cs (next c v now) (tick c now)

abbrev pub answers : List Command → View → ℕ → List (FsmResult (List DoorAction))
answers [] v now = []
answers (c ∷ cs) v now = answer c v now ∷ answers cs (next c v now) (tick c now)

abbrev pub state_of : View → DoorState
state_of shut = closed
state_of (open_until t) = opened

abbrev pub timer_of : View → Option ℕ
timer_of shut = none
timer_of (open_until t) = some t

abbrev pub Door : Type 0
Door = Run DoorState DoorEvent DoorContext DoorAction

-- What a session shows, against the user's view of a door that starts as `v`.
pub record Shows (commands : List Command) (v : View) (start : Door)
    (end : List (FsmResult (List DoorAction)) × Door) : Type 0 where
  pub results : end.0 ≡ answers commands v start.clock
  pub state : end.1.current_state ≡ state_of (finally commands v start.clock)
  pub timer : end.1.state_timeout ≡ timer_of (finally commands v start.clock)
  pub logged : end.1.context.log ≡ start.context.log ++ lines commands v start.clock
