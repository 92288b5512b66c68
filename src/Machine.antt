-- ===== src/Machine.antt =====
-- src/machine.rs: the engine. An `async fn(&mut self, …, context: &mut C)` is an action over
-- `Run`, the machine beside the world that its futures change. `Arc` is the identity.
pub mod Apply
pub mod Lookups
pub mod Serve
pub mod Calls
pub mod Rules
pub mod Polling
pub mod Suspend
pub mod Drops
pub mod Finish
pub mod Replay
pub mod Actions
pub mod Host
pub mod Failures
pub mod Deadlines
pub mod Timers
pub mod Tables
pub mod Poll
pub mod Dispatch
use obzenflow_fsm.Prelude.{
  ℕ, ◌+◌, String, Option, none, some, List, [], ◌∷◌, ◌++◌, leb, if◌then◌else◌, string_equality,
  pair_equality,
}
use obzenflow_fsm.HashMap
use obzenflow_fsm.HashMap.{HashMap}
use obzenflow_fsm.Error.{unhandled_event}
use obzenflow_fsm.Exec.{Exec, pure, raise, gets, modify, ◌>>=◌, ◌>>◌}
use obzenflow_fsm.Types.{
  Transition, StateVariant, EventVariant, World, FsmAction, TransitionHandler, StateHandler,
  TimeoutHandler, UnhandledHandler,
}

abbrev pub TransitionMap : Type 0 → Type 0 → Type 0 → Type 0 → Type 0
TransitionMap S E C A = HashMap (String × String) (TransitionHandler S E C A)

abbrev pub StateHandlerMap : Type 0 → Type 0 → Type 0 → Type 0
StateHandlerMap S C A = HashMap String (StateHandler S C A)

abbrev pub TimeoutHandlerMap : Type 0 → Type 0 → Type 0 → Type 0
TimeoutHandlerMap S C A = HashMap String (ℕ × TimeoutHandler S C A)

pub record StateMachine (S E C A : Type 0) : Type 0 where
  pub current_state : S
  pub transitions : TransitionMap S E C A
  pub entry_handlers : StateHandlerMap S C A
  pub exit_handlers : StateHandlerMap S C A
  pub timeout_handlers : TimeoutHandlerMap S C A
  pub unhandled_handler : Option (UnhandledHandler S E C)
  pub state_timeout : Option ℕ

pub record Run (S E C A : Type 0) : Type 0 where
  pub machine : StateMachine S E C A
  pub open machine use *
  pub world : World C
  pub open world use *

-- `get(name).map(|(duration, _)| Instant::now() + *duration)`
unfoldable pub deadline {ℓ} : {H : Type ℓ} → Option (ℕ × H) → ℕ → Option ℕ
deadline none now = none
deadline (some (duration, _)) now = some (now + duration)

-- `if let Some(handler) = … { handler(&self.current_state, context).await? }`, or no actions.
unfoldable pub run_hook :
    {S C A : Type 0} → Option (StateHandler S C A) → S → Exec (World C) (List A)
run_hook none state = pure []
run_hook (some handler) state = handler state

module _ {S E C A : Type 0} where
  -- Awaiting a handler: it has `&self.current_state` and `&mut context`, and not the machine.
  abbrev pub await : {B : Type 0} → (S → Exec (World C) B) → Exec (Run S E C A) B
  await handler s = let (r, w) = handler s.current_state s.world in (r, record s { world = w })

  set_state : S → Run S E C A → Run S E C A
  set_state next s = record s { machine = record s.machine { current_state = next } }

  set_timeout : String → Run S E C A → Run S E C A
  unfolding deadline
  set_timeout name s = record s {
    machine = record s.machine {
      state_timeout = deadline (HashMap.get s.timeout_handlers name) s.clock;
    };
  }

  unfoldable pub state : StateMachine S E C A → S
  state self = self.current_state

module _ {S E C A : Type 0} ⦃sv : StateVariant S⦄ where
  state_name : Run S E C A → String
  state_name s = sv.variant_name s.current_state

  unfoldable pub new :
      S
      → TransitionMap S E C A
      → StateHandlerMap S C A
      → StateHandlerMap S C A
      → TimeoutHandlerMap S C A
      → Option (UnhandledHandler S E C)
      → (now : ℕ) → StateMachine S E C A
  unfolding deadline
  new initial_state transitions entry_handlers exit_handlers timeout_handlers unhandled now =
      record {
        current_state = initial_state;
        transitions = transitions;
        entry_handlers = entry_handlers;
        exit_handlers = exit_handlers;
        timeout_handlers = timeout_handlers;
        unhandled_handler = unhandled;
        state_timeout = deadline (HashMap.get timeout_handlers (sv.variant_name initial_state)) now;
      }

  unfoldable pub apply_transition : Transition S A → Exec (Run S E C A) (List A)
  unfolding set_state set_timeout state_name
  apply_transition t = do
    old_state_name ← gets state_name
    let new_state_name = sv.variant_name t.next_state
    exit_handler ← gets (λ s. HashMap.get s.exit_handlers old_state_name)
    exit_actions ← await (run_hook exit_handler)
    modify (set_state t.next_state)
    entry_handler ← gets (λ s. HashMap.get s.entry_handlers new_state_name)
    entry_actions ← await (run_hook entry_handler)
    modify (set_timeout new_state_name)
    pure ((exit_actions ++ entry_actions) ++ t.actions)

  -- `if let Some((_, handler)) = … { … return self.apply_transition(…) }`, or no actions
  unfoldable pub fire : Option (ℕ × TimeoutHandler S C A) → Exec (Run S E C A) (List A)
  fire none = pure []
  fire (some (_, handler)) = do transition ← await handler; apply_transition transition

  unfoldable pub poll : Option ℕ → Exec (Run S E C A) (List A)
  unfolding state_name
  poll none = pure []
  poll (some timeout_instant) = do
    now ← gets (λ s. s.clock)
    name ← gets state_name
    handler ← gets (λ s. HashMap.get s.timeout_handlers name)
    if leb timeout_instant now then fire handler else pure []

  unfoldable pub check_timeout : Exec (Run S E C A) (List A)
  unfolding poll
  check_timeout s = poll s.state_timeout s

module _ {S E C A : Type 0} ⦃sv : StateVariant S⦄ ⦃ev : EventVariant E⦄ where
  -- Running the handler that dispatch has found.
  unfoldable pub fire_event : TransitionHandler S E C A → E → Exec (Run S E C A) (List A)
  fire_event handler event = do
    transition ← await (λ state. handler state event)
    apply_transition transition

  unfoldable pub unhandled : Option (UnhandledHandler S E C) → E → Exec (Run S E C A) (List A)
  unfolding state_name
  unhandled (some handler) event s = (do await (λ state. handler state event); pure []) s
  unhandled none event s = raise (unhandled_event (state_name s) (ev.variant_name event)) s

  unfoldable pub on_wildcard : Option (TransitionHandler S E C A) → E → Exec (Run S E C A) (List A)
  on_wildcard (some handler) event s = fire_event handler event s
  on_wildcard none event s = unhandled s.unhandled_handler event s

  unfoldable pub on_exact : Option (TransitionHandler S E C A) → E → Exec (Run S E C A) (List A)
  on_exact (some handler) event s = fire_event handler event s
  on_exact none event s =
      on_wildcard (HashMap.get s.transitions ("_", ev.variant_name event)) event s

  unfoldable pub handle : E → Exec (Run S E C A) (List A)
  unfolding state_name
  handle event s =
      on_exact (HashMap.get s.transitions (state_name s, ev.variant_name event)) event s

-- Stops at the first action that fails. The machine is only borrowed.
unfoldable pub execute_actions : {C A : Type 0} ⦃fa : FsmAction C A⦄ → List A → Exec (World C) Unit
execute_actions [] = pure tt
execute_actions ⦃fa⦄ (action ∷ actions) = do fa.execute action; execute_actions actions
