-- ===== src/Tests/Lamp.antt =====
-- A lamp: pressing turns it on for ten ticks, after which it turns itself off; a hit breaks it in
-- any state, and the entry handler of the broken state fails. The context is a log.
use obzenflow_fsm.Prelude.{ℕ, ◌+◌, String, Option, none, some, List, [], ◌∷◌, ◌++◌}
use obzenflow_fsm.Error.{handler_error}
use obzenflow_fsm.Exec.{ok, err}
use obzenflow_fsm.Types.{
  StateVariant, EventVariant, World, TransitionHandler, StateHandler, TimeoutHandler,
}
use obzenflow_fsm.Machine.{TransitionMap, StateHandlerMap, TimeoutHandlerMap, StateMachine, Run}

pub data Lamp : Type 0 where
  dark lit broken : Lamp

pub data Touch : Type 0 where
  press hit look : Touch

abbrev pub lamp_name : Lamp → String
lamp_name dark = "Dark"
lamp_name lit = "Lit"
lamp_name broken = "Broken"

abbrev pub touch_name : Touch → String
touch_name press = "Press"
touch_name hit = "Hit"
touch_name look = "Look"

instance abbrev pub lamp_variant : StateVariant Lamp
lamp_variant = record { variant_name = lamp_name }

instance abbrev pub touch_variant : EventVariant Touch
touch_variant = record { variant_name = touch_name }

abbrev pub Log : Type 0
Log = List String

-- Writes a line to the log and takes a tick.
abbrev pub note : String → World Log → World Log
note line w = record { context = w.context ++ line ∷ []; clock = 1 + w.clock }

abbrev pub on_press : TransitionHandler Lamp Touch Log String
on_press state event w =
    (ok (record { next_state = lit; actions = "click" ∷ [] }), note "pressed" w)

abbrev pub on_hit : TransitionHandler Lamp Touch Log String
on_hit state event w = (ok (record { next_state = broken; actions = [] }), w)

abbrev pub enter_lit : StateHandler Lamp Log String
enter_lit state w = (ok ("light" ∷ []), note "entered" w)

abbrev pub enter_broken : StateHandler Lamp Log String
enter_broken state w = (err (handler_error "no bulb"), w)

abbrev pub leave_dark : StateHandler Lamp Log String
leave_dark state w = (ok ("wake" ∷ []), w)

abbrev pub burn_out : TimeoutHandler Lamp Log String
burn_out state w = (ok (record { next_state = dark; actions = "sleep" ∷ [] }), w)

abbrev pub transitions : TransitionMap Lamp Touch Log String
transitions = (("Dark", "Press"), on_press) ∷ (("_", "Hit"), on_hit) ∷ []

abbrev pub entries : StateHandlerMap Lamp Log String
entries = ("Lit", enter_lit) ∷ ("Broken", enter_broken) ∷ []

-- Without the handler that fails.
abbrev pub sound_entries : StateHandlerMap Lamp Log String
sound_entries = ("Lit", enter_lit) ∷ []

abbrev pub exits : StateHandlerMap Lamp Log String
exits = ("Dark", leave_dark) ∷ []

abbrev pub timeouts : TimeoutHandlerMap Lamp Log String
timeouts = ("Lit", (10, burn_out)) ∷ ("Broken", (5, burn_out)) ∷ []

abbrev pub lamp :
    Lamp → StateHandlerMap Lamp Log String → Option ℕ → StateMachine Lamp Touch Log String
lamp state entry timer = record {
  current_state = state;
  transitions = transitions;
  entry_handlers = entry;
  exit_handlers = exits;
  timeout_handlers = timeouts;
  unhandled_handler = none;
  state_timeout = timer;
}

abbrev pub world : Log → ℕ → World Log
world log now = record { context = log; clock = now }

abbrev pub run : StateMachine Lamp Touch Log String → World Log → Run Lamp Touch Log String
run m w = record { machine = m; world = w }

-- Dark at time 3, and lit since time 5.
abbrev pub dark_run : Run Lamp Touch Log String
dark_run = run (lamp dark entries none) (world [] 3)

abbrev pub lit_run : ℕ → Run Lamp Touch Log String
lit_run now = run (lamp lit entries (some 15)) (world ("pressed" ∷ "entered" ∷ []) now)

abbrev pub broken_run : ℕ → Run Lamp Touch Log String
broken_run now = run (lamp broken entries none) (world [] now)
