-- ===== src/Machine/Rules.antt =====
-- What a machine does, with no maps and no names: an interpreter of the rules for its states. The
-- engine is compared with it in Machine/Rules/Refines.antt.
pub mod Refines
pub mod Plain
use obzenflow_fsm.Prelude.{ℕ, Option, none, some, List, [], ◌++◌, leb, if◌then◌else◌}
use obzenflow_fsm.Error.{unhandled_event}
use obzenflow_fsm.Exec.{Exec, pure, raise, modify, ◌>>=◌, ◌>>◌}
use obzenflow_fsm.Types.{
  Transition, StateVariant, EventVariant, World, TransitionHandler, StateHandler, TimeoutHandler,
  UnhandledHandler,
}
use obzenflow_fsm.Machine.{deadline, run_hook}
use obzenflow_fsm.Machine.Serve.{Service}

-- The second where the first has nothing.
abbrev pub or_else : {X : Type 0} → Option X → Option X → Option X
or_else (some x) y = some x
or_else none y = y

-- The handlers for a state, and for a state and an event.
pub record Rules (S E C A : Type 0) : Type 0 where
  pub row : S → E → Option (TransitionHandler S E C A)
  pub exit : S → Option (StateHandler S C A)
  pub entry : S → Option (StateHandler S C A)
  pub timeout : S → Option (ℕ × TimeoutHandler S C A)
  pub unhandled : Option (UnhandledHandler S E C)

-- A state, its deadline, and the world.
pub record Conf (S C : Type 0) : Type 0 where
  pub state : S
  pub timer : Option ℕ
  pub world : World C

module _ {S E C A : Type 0} ⦃sv : StateVariant S⦄ ⦃ev : EventVariant E⦄
    (rules : Rules S E C A) where
  -- Code of the host's that runs in the current state.
  abbrev pub within : {B : Type 0} → (S → Exec (World C) B) → Exec (Conf S C) B
  within code c = let (r, w) = code c.state c.world in (r, record c { world = w })

  -- Leaving the state, and entering the next one, whose countdown starts when its hook is done.
  unfoldable pub enter : Transition S A → Exec (Conf S C) (List A)
  enter t = do
    leaving ← within (λ state. run_hook (rules.exit state) state)
    modify (λ c. record c { state = t.next_state })
    entering ← within (λ state. run_hook (rules.entry state) state)
    modify (λ c. record c { timer = deadline (rules.timeout t.next_state) c.world.clock })
    pure ((leaving ++ entering) ++ t.actions)

  -- No row: the hook for unhandled events, or an error.
  abbrev pub rejected : Option (UnhandledHandler S E C) → E → Exec (Conf S C) (List A)
  rejected (some hook) event = do within (λ state. hook state event); pure []
  rejected none event =
      λ c. raise (unhandled_event (sv.variant_name c.state) (ev.variant_name event)) c

  abbrev pub on_row : Option (TransitionHandler S E C A) → E → Exec (Conf S C) (List A)
  on_row (some handler) event = do t ← within (λ state. handler state event); enter t
  on_row none event = rejected rules.unhandled event

  unfoldable pub on_event : E → Exec (Conf S C) (List A)
  on_event event c = on_row (rules.row c.state event) event c

  abbrev pub on_timeout : Option (ℕ × TimeoutHandler S C A) → Exec (Conf S C) (List A)
  on_timeout (some (_, handler)) = do t ← within handler; enter t
  on_timeout none = pure []

  abbrev pub on_deadline : Option ℕ → Exec (Conf S C) (List A)
  on_deadline none c = pure [] c
  on_deadline (some i) c =
      if leb i c.world.clock then on_timeout (rules.timeout c.state) c else pure [] c

  unfoldable pub on_poll : Exec (Conf S C) (List A)
  on_poll c = on_deadline c.timer c

  -- The rules, for a host.
  abbrev pub rules_service : Service (Conf S C) E C A
  rules_service = record {
    event = on_event;
    poll = on_poll;
    world = λ c. c.world;
    work = λ g c. record c { world = g c.world };
  }

  -- A state that is entered at a time, with no hook.
  abbrev pub begin : S → (now : ℕ) → World C → Conf S C
  begin state now w = record {
    state = state;
    timer = deadline (rules.timeout state) now;
    world = w;
  }
