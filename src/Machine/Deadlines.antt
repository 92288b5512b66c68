-- ===== src/Machine/Deadlines.antt =====
-- When a timeout fires.
use obzenflow_fsm.Prelude.{
  ℕ, ◌+◌, ◌≤◌, ◌<◌, some, List, [], ◌≡◌, refl, sym, ap, subst, ◌∙◌, ◌⊎◌, inl, inr, arith,
  string_equality, leb, Bool-cases,
}
use obzenflow_fsm.HashMap
use obzenflow_fsm.Exec.{FsmResult, ok}
use obzenflow_fsm.Types.{
  Transition, StateVariant, EventVariant, World, TransitionHandler, TimeoutHandler,
}
use obzenflow_fsm.Machine.{Run, deadline, apply_transition, handle, check_timeout}
use obzenflow_fsm.Machine.Apply.{Applies, exit_failed, entry_failed, applied, apply_transition_iff}
use obzenflow_fsm.Machine.Dispatch
use obzenflow_fsm.Machine.Dispatch.{Handles, Picks, PicksNone, handle_iff}
use obzenflow_fsm.Machine.Poll
use obzenflow_fsm.Machine.Poll.{
  Polls, Pending, Elapsed, check_timeout_iff, TimesOut, check_timeout-TimesOut, idle_of_Pending,
}
use obzenflow_fsm.Machine.Tables.{tables-Applies}

module _ {S E C A : Type 0} ⦃sv : StateVariant S⦄ where
  -- The timer that a state has when it has just been entered, at the time of the clock.
  abbrev pub IsFresh : Run S E C A → Type 0
  IsFresh u =
      u.state_timeout
      ≡ deadline (HashMap.get u.timeout_handlers (sv.variant_name u.current_state)) u.clock

  Applies-IsFresh :
      (t : Transition S A) {s : Run S E C A} {r : FsmResult (List A)} {u : Run S E C A}
      {actions : List A}
      → Applies t s r u
      → r ≡ ok actions
      → (u.current_state ≡ t.next_state) × IsFresh u
  Applies-IsFresh t (exit_failed e w p er eu) h = cc
  Applies-IsFresh t (entry_failed xs w e w' p p' er eu) h = cc
  Applies-IsFresh t (applied xs w ys w' p p' er eu) h =
      subst (λ x. (x.current_state ≡ t.next_state) × IsFresh x) (sym eu) (refl, refl)

  -- After an event that was handled without error: either no handler was found, the hook took the
  -- event, and the machine is as before with no action, or a handler was found and the timer of
  -- the state that was entered starts at the clock's time, and is off if it has no timeout.
  pub handle-IsFresh :
      ⦃ev : EventVariant E⦄ (event : E) (s u : Run S E C A) (actions : List A)
      → handle event s ≡ (ok actions, u)
      → (PicksNone s event × (actions ≡ []) × (u.machine ≡ s.machine))
        ⊎ ((handler : TransitionHandler S E C A) × Picks s event handler × IsFresh u)
  handle-IsFresh event s u actions h = go ((handle_iff event s (ok actions) u).0 h) refl
    where
      go :
          {r : FsmResult (List A)}
          → Handles event s r u
          → r ≡ ok actions
          → (PicksNone s event × (actions ≡ []) × (u.machine ≡ s.machine))
            ⊎ ((handler : TransitionHandler S E C A) × Picks s event handler × IsFresh u)
      go (Dispatch.handler_failed handler e w h p er eu) q = cc
      go (Dispatch.moved handler t w h p a) q = inr (handler, h, (Applies-IsFresh t a q).1)
      go (Dispatch.hook_failed handler e w h o p er eu) q = cc
      go (Dispatch.hooked handler w h o p er eu) q =
          inl (h, cc, ap (λ (x : Run S E C A). x.machine) eu)
      go (Dispatch.rejected h o er eu) q = cc

  -- After a poll that returned without error: either nothing was due, no action is returned and
  -- nothing changed, or the timeout handler ran and the timer of the state that was entered starts
  -- at the clock's time, and is off if it has no timeout.
  pub check_timeout-IsFresh :
      (s u : Run S E C A) (actions : List A)
      → check_timeout s ≡ (ok actions, u)
      → (Pending s × (actions ≡ []) × (u ≡ s))
        ⊎ ((handler : TimeoutHandler S C A) × Elapsed s handler × IsFresh u)
  check_timeout-IsFresh s u actions h = go ((check_timeout_iff s (ok actions) u).0 h) refl
    where
      go :
          {r : FsmResult (List A)}
          → Polls s r u
          → r ≡ ok actions
          → (Pending s × (actions ≡ []) × (u ≡ s))
            ⊎ ((handler : TimeoutHandler S C A) × Elapsed s handler × IsFresh u)
      go (Poll.idle h er eu) q = inl (h, cc, eu)
      go (Poll.handler_failed handler e w h p er eu) q = cc
      go (Poll.moved handler t w h p a) q = inr (handler, h, (Applies-IsFresh t a q).1)

  -- A transition that ends without error, into a state with a timeout of `duration`, and any later
  -- poll of the machine that it leaves, with no other call in between and in any world: while less
  -- than `duration` has passed on the clock since the transition's end, the poll returns no action
  -- and changes nothing; from then on it runs the timeout handler, and ends with the handler's
  -- error, or with the transition that the handler returns applied to the machine.
  pub check_timeout-window :
      (t : Transition S A) (s u : Run S E C A) (actions : List A) (w : World C) (duration : ℕ)
      (handler : TimeoutHandler S C A)
      → apply_transition t s ≡ (ok actions, u)
      → HashMap.get s.timeout_handlers (sv.variant_name t.next_state) ≡ some (duration, handler)
      → let v = record u { world = w } in
        ((w.clock < u.clock + duration) × (check_timeout v ≡ (ok [], v)))
        ⊎ ((u.clock + duration ≤ w.clock)
            × TimesOut handler v (check_timeout v).0 (check_timeout v).1)
  unfolding deadline
  check_timeout-window t s u actions w duration handler done found =
      let applies = (apply_transition_iff t s (ok actions) u).0 done in
      let (there, fresh) = Applies-IsFresh t applies refl in
      let v = record u { world = w } in
      let here : HashMap.get u.timeout_handlers (sv.variant_name u.current_state)
          ≡ some (duration, handler) =
        (λ i. HashMap.get (tables-Applies t applies i).3 (sv.variant_name (there i))) ∙ found in
      let armed : u.state_timeout ≡ some (u.clock + duration) =
        fresh ∙ ap (λ o. deadline o u.clock) here in
      elim (Bool-cases (leb (u.clock + duration) w.clock)) [
        | inl due ↦ inr (
          ground arith,
          check_timeout-TimesOut v handler
              ((u.clock + duration, armed, ground arith), (duration, here)),
        )
        | inr early ↦
            inl (
              ground arith,
              idle_of_Pending v (inr (inl (u.clock + duration, armed, ground arith))),
            )
      ]
