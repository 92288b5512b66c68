-- ===== src/Machine/Calls.antt =====
-- Events and polls together: what each of the two calls that a host makes of a machine leaves.
use obzenflow_fsm.Prelude.{Option, none, some, List, [], ◌≡◌, ◌⊎◌, inl, inr}
use obzenflow_fsm.Exec.{ok}
use obzenflow_fsm.Types.{
  Transition, StateVariant, EventVariant, World, TransitionHandler, TimeoutHandler,
}
use obzenflow_fsm.Machine.{StateMachine, Run}
use obzenflow_fsm.Machine.Serve.{answer, machine_service}
use obzenflow_fsm.Machine.Dispatch.{Picks, PicksNone}
use obzenflow_fsm.Machine.Poll.{Pending, Elapsed}
use obzenflow_fsm.Machine.Deadlines.{IsFresh, handle-IsFresh, check_timeout-IsFresh}
use obzenflow_fsm.Machine.Suspend.{Future, IsPoint, handle_future, check_timeout_future}
use obzenflow_fsm.Machine.Drops.{IsEntering, handle_future-IsPoint, check_timeout_future-IsPoint}

module _ {S E C A : Type 0} ⦃sv : StateVariant S⦄ ⦃ev : EventVariant E⦄ where
  -- No handler is for the event, and the hook took it; or no timeout is due.
  abbrev pub IsIdle : Option E → Run S E C A → List A → Run S E C A → Type 0
  IsIdle (some event) s actions u = PicksNone s event × (actions ≡ []) × (u.machine ≡ s.machine)
  IsIdle none s actions u = Pending s × (actions ≡ []) × (u ≡ s)

  -- A handler is for the call.
  abbrev pub HasHandler : Option E → Run S E C A → Type 0
  HasHandler (some event) s = (handler : TransitionHandler S E C A) × Picks s event handler
  HasHandler none s = (handler : TimeoutHandler S C A) × Elapsed s handler

  -- After an event or a poll that returned without error: either no handler was for it, no action
  -- is returned, and the machine is as before, after a poll the world too; or a handler was, and
  -- the timer of the state that was entered starts at the clock's time, and is off if that state
  -- has no timeout.
  pub answer-IsFresh :
      (question : Option E) (s u : Run S E C A) (actions : List A)
      → answer machine_service question s ≡ (ok actions, u)
      → IsIdle question s actions u ⊎ (HasHandler question s × IsFresh u)
  answer-IsFresh (some event) s u actions h = elim (handle-IsFresh event s u actions h) [
    | inl idle ↦ inl idle
    | inr (handler, picks, fresh) ↦ inr ((handler, picks), fresh)
  ]
  answer-IsFresh none s u actions h = elim (check_timeout-IsFresh s u actions h) [
    | inl idle ↦ inl idle
    | inr (handler, due, fresh) ↦ inr ((handler, due), fresh)
  ]

  -- The call as a future.
  abbrev pub answer_future :
      Option E → Run S E C A → Future (StateMachine S E C A) (Run S E C A) (List A)
  answer_future (some event) s = handle_future event s
  answer_future none s = check_timeout_future s

  -- The handler for the call returns the transition.
  abbrev pub Leads : Option E → Run S E C A → Transition S A → Type 0
  Leads (some event) s t =
      (handler : TransitionHandler S E C A) × (w : World C) × Picks s event handler
      × (handler s.current_state event s.world ≡ (ok t, w))
  Leads none s t =
      (handler : TimeoutHandler S C A) × (w : World C) × Elapsed s handler
      × (handler s.current_state s.world ≡ (ok t, w))

  -- An event or a poll that is dropped while a handler is pending leaves the machine as it was, or
  -- the handler for it has returned a transition, and the machine is in the state that this leads
  -- to with all else as before, the deadline included: that state's entry handler was pending.
  pub answer_future-IsPoint :
      (question : Option E) (s : Run S E C A) (x : StateMachine S E C A)
      → IsPoint x (answer_future question s)
      → (x ≡ s.machine) ⊎ ((t : Transition S A) × Leads question s t × IsEntering s.machine t x)
  answer_future-IsPoint (some event) s x h = elim (handle_future-IsPoint event s x h) [
    | inl same ↦ inl same
    | inr (handler, t, w, picks, p, entering) ↦ inr (t, (handler, w, picks, p), entering)
  ]
  answer_future-IsPoint none s x h = elim (check_timeout_future-IsPoint s x h) [
    | inl same ↦ inl same
    | inr (handler, t, w, due, p, entering) ↦ inr (t, (handler, w, due, p), entering)
  ]
