-- ===== src/Machine/Suspend.antt =====
-- src/machine.rs as futures: each `.await` of a host's handler is a point at which the call can be
-- suspended, and dropped by its caller. While a handler's future is pending, only the world
-- changes.
use obzenflow_fsm.Prelude.{
  ℕ, Option, none, some, List, [], ◌++◌, ◌≡◌, ◌⊎◌, leb, if◌then◌else◌, string_equality,
  pair_equality,
}
use obzenflow_fsm.HashMap
use obzenflow_fsm.Error.{unhandled_event}
use obzenflow_fsm.Exec.{FsmResult, ok, err, Exec}
use obzenflow_fsm.Types.{
  Transition, StateVariant, EventVariant, World, TransitionHandler, StateHandler, TimeoutHandler,
  UnhandledHandler,
}
use obzenflow_fsm.Machine.{StateMachine, Run, await, set_state, set_timeout, state_name}

-- A future over a state `M`: it is ready, or pending, with what stays of it (`X`) if it is dropped.
pub data Future (X M B : Type 0) : Type 0 where
  ready : FsmResult B → M → Future X M B
  pending : X → Future X M B → Future X M B

-- `?` after an await.
unfoldable pub and_then : {X M A B : Type 0} → Future X M A → (A → M → Future X M B) → Future X M B
and_then (ready (ok a) m) f = f a m
and_then (ready (err e) m) f = ready (err e) m
and_then (pending x rest) f = pending x (and_then rest f)

-- Polling to the end.
unfoldable pub finish : {X M B : Type 0} → Future X M B → FsmResult B × M
finish (ready r m) = (r, m)
finish (pending x rest) = finish rest

-- The future is suspended somewhere with `x`.
unfoldable pub IsPoint : {X M B : Type 0} → X → Future X M B → Type 0
IsPoint x (ready r m) = ⊥
IsPoint x (pending y rest) = (x ≡ y) ⊎ IsPoint x rest

-- A call on a machine, which leaves the machine alone if it is dropped.
abbrev pub Call : Type 0 → Type 0 → Type 0 → Type 0 → Type 0 → Type 0
Call S E C A B = Run S E C A → Future (StateMachine S E C A) (Run S E C A) B

module _ {S E C A : Type 0} where
  unfoldable pub await_future : {B : Type 0} → (S → Exec (World C) B) → Call S E C A B
  await_future handler s = let (r, s') = await handler s in pending s.machine (ready r s')

  unfoldable pub hook_future : Option (StateHandler S C A) → Call S E C A (List A)
  hook_future none s = ready (ok []) s
  hook_future (some handler) s = await_future handler s

module _ {S E C A : Type 0} ⦃sv : StateVariant S⦄ where
  unfoldable pub transition_future : Transition S A → Call S E C A (List A)
  unfolding set_state set_timeout state_name
  transition_future t s =
      let new_state_name = sv.variant_name t.next_state in
      and_then (hook_future (HashMap.get s.exit_handlers (state_name s)) s) (λ exit_actions s.
        let s = set_state t.next_state s in
        and_then (hook_future (HashMap.get s.entry_handlers new_state_name) s) (λ entry_actions s.
          ready (ok ((exit_actions ++ entry_actions) ++ t.actions)) (set_timeout new_state_name s)))

  unfoldable pub fire_future : Option (ℕ × TimeoutHandler S C A) → Call S E C A (List A)
  fire_future none s = ready (ok []) s
  fire_future (some (duration, handler)) s = and_then (await_future handler s) transition_future

  unfoldable pub poll_future : Option ℕ → Call S E C A (List A)
  unfolding state_name
  poll_future none s = ready (ok []) s
  poll_future (some timeout_instant) s =
      if leb timeout_instant s.clock
      then fire_future (HashMap.get s.timeout_handlers (state_name s)) s
      else ready (ok []) s

  unfoldable pub check_timeout_future : Call S E C A (List A)
  check_timeout_future s = poll_future s.state_timeout s

module _ {S E C A : Type 0} ⦃sv : StateVariant S⦄ ⦃ev : EventVariant E⦄ where
  unfoldable pub event_future : TransitionHandler S E C A → E → Call S E C A (List A)
  event_future handler event s =
      and_then (await_future (λ state. handler state event) s) transition_future

  unfoldable pub unhandled_future : Option (UnhandledHandler S E C) → E → Call S E C A (List A)
  unfolding state_name
  unhandled_future (some handler) event s =
      and_then (await_future (λ state. handler state event) s) (λ x s. ready (ok []) s)
  unhandled_future none event s =
      ready (err (unhandled_event (state_name s) (ev.variant_name event))) s

  unfoldable pub wildcard_future : Option (TransitionHandler S E C A) → E → Call S E C A (List A)
  wildcard_future (some handler) event s = event_future handler event s
  wildcard_future none event s = unhandled_future s.unhandled_handler event s

  unfoldable pub exact_future : Option (TransitionHandler S E C A) → E → Call S E C A (List A)
  exact_future (some handler) event s = event_future handler event s
  exact_future none event s =
      wildcard_future (HashMap.get s.transitions ("_", ev.variant_name event)) event s

  unfoldable pub handle_future : E → Call S E C A (List A)
  unfolding state_name
  handle_future event s =
      exact_future (HashMap.get s.transitions (state_name s, ev.variant_name event)) event s
