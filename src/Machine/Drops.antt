-- ===== src/Machine/Drops.antt =====
-- Calls of the engine that are dropped while a handler is pending.
use obzenflow_fsm.Prelude.{
  ℕ, Option, none, some, List, ◌≡◌, refl, sym, ap, subst, ◌∙◌, ◌⊎◌, inl, inr, arith, leb,
  string_equality, pair_equality, Option-cases, Bool-cases,
}
use obzenflow_fsm.HashMap
use obzenflow_fsm.Exec.{FsmResult-cases, ok, err, Exec}
use obzenflow_fsm.Types.{
  Transition, StateVariant, EventVariant, World, TransitionHandler, StateHandler, TimeoutHandler,
  UnhandledHandler,
}
use obzenflow_fsm.Machine.{StateMachine, Run, set_state, state_name}
use obzenflow_fsm.Machine.Dispatch.{Picks}
use obzenflow_fsm.Machine.Poll.{Elapsed}
use obzenflow_fsm.Machine.Suspend.{
  Future, ready, pending, and_then, finish, IsPoint, await_future, hook_future, transition_future,
  fire_future, poll_future, check_timeout_future, event_future, unhandled_future, wildcard_future,
  exact_future, handle_future,
}
use obzenflow_fsm.Machine.Finish.{finish-await_future, finish-hook_future}

module _ {X M A B : Type 0} where
  -- A point of the whole is one of the first part, or of the second after the first has succeeded.
  and_then-IsPoint :
      (x : X) (future : Future X M A) (f : A → M → Future X M B)
      → IsPoint x (and_then future f)
      → IsPoint x future ⊎ ((a : A) × (m : M) × (finish future ≡ (ok a, m)) × IsPoint x (f a m))
  unfolding finish and_then IsPoint
  and_then-IsPoint x (ready (ok a) m) f h = inr (a, m, refl, h)
  and_then-IsPoint x (ready (err e) m) f h = absurd h
  and_then-IsPoint x (pending y rest) f (inl p) = inl (inl p)
  and_then-IsPoint x (pending y rest) f (inr h) = elim (and_then-IsPoint x rest f h) [
    | inl p ↦ inl (inr p)
    | inr p ↦ inr p
  ]

module _ {S E C A : Type 0} where
  hook_future-IsPoint :
      (o : Option (StateHandler S C A)) (s : Run S E C A) (x : StateMachine S E C A)
      → IsPoint x (hook_future o s)
      → x ≡ s.machine
  unfolding hook_future await_future IsPoint
  hook_future-IsPoint none s x h = absurd h
  hook_future-IsPoint (some f) s x (inl p) = p
  hook_future-IsPoint (some f) s x (inr h) = absurd h

module _ {S E C A : Type 0} ⦃sv : StateVariant S⦄ where
  -- The machine is in the state that `t` leads to, with all else as before, the deadline included:
  -- the entry handler of that state is pending.
  abbrev pub IsEntering : StateMachine S E C A → Transition S A → StateMachine S E C A → Type 0
  IsEntering m t x =
      ((handler : StateHandler S C A) × (HashMap.get m.entry_handlers (sv.variant_name t.next_state)
          ≡ some handler))
      × (x ≡ record m { current_state = t.next_state })

  machine-hook_future :
      (o : Option (StateHandler S C A)) (s u : Run S E C A) (xs : List A)
      → finish (hook_future o s) ≡ (ok xs, u)
      → u.machine ≡ s.machine
  machine-hook_future o s u xs h =
      ap (λ x. x.1.machine) (sym h) ∙ ap (λ x. x.1.machine) (finish-hook_future o s)

  hook_future-some :
      (o : Option (StateHandler S C A)) (s : Run S E C A) (x : StateMachine S E C A)
      → IsPoint x (hook_future o s)
      → (handler : StateHandler S C A) × (o ≡ some handler)
  unfolding hook_future IsPoint
  hook_future-some none s x h = absurd h
  hook_future-some (some f) s x h = (f, refl)

  transition_future-IsPoint :
      (t : Transition S A) (s : Run S E C A) (x : StateMachine S E C A)
      → IsPoint x (transition_future t s)
      → (x ≡ s.machine) ⊎ IsEntering s.machine t x
  unfolding transition_future set_state
  transition_future-IsPoint t s x h = elim (and_then-IsPoint x (hook_future _ s) _ h) [
    | inl p ↦ inl (hook_future-IsPoint _ s x p)
    | inr (xs, u, e, p) ↦
        let same = machine-hook_future _ s u xs e in
        elim (and_then-IsPoint x (hook_future _ (set_state t.next_state u)) _ p) [
          | inl q ↦ inr (
              subst (λ m. IsEntering m t x) same
                (hook_future-some _ _ x q, hook_future-IsPoint _ _ x q))
          | inr (ys, w, e', q) ↦ absurd (unfold IsPoint in q)
        ]
  ]

  -- The call's own handler is pending, or its transition is.
  fire-IsPoint :
      (handler : S → Exec (World C) (Transition S A)) (s : Run S E C A) (x : StateMachine S E C A)
      → IsPoint x (and_then (await_future handler s) transition_future)
      → (x ≡ s.machine)
        ⊎ ((t : Transition S A) × (w : World C) × (handler s.current_state s.world ≡ (ok t, w))
            × IsEntering s.machine t x)
  fire-IsPoint handler s x h = elim (and_then-IsPoint x (await_future handler s) _ h) [
    | inl p ↦ unfold await_future IsPoint in elim p [ inl q ↦ inl q | inr q ↦ absurd q ]
    | inr (t, u, e, p) ↦
        let done = sym (finish-await_future handler s) ∙ e in
        let same : u.machine ≡ s.machine = ap (λ y. y.1.machine) (sym done) in
        elim (transition_future-IsPoint t u x p) [
          | inl q ↦ inl (q ∙ same)
          | inr q ↦ inr (
            t,
            (handler s.current_state s.world).1,
            λ i. (ap (λ y. y.0) done i, (handler s.current_state s.world).1),
            subst (λ m. IsEntering m t x) same q,
          )
        ]
  ]

  poll_future-IsPoint :
      (i : ℕ) (s : Run S E C A) (x : StateMachine S E C A)
      → s.state_timeout ≡ some i
      → IsPoint x (poll_future (some i) s)
      → (x ≡ s.machine)
        ⊎ ((handler : TimeoutHandler S C A) × (t : Transition S A) × (w : World C) × Elapsed s
              handler
            × (handler s.current_state s.world ≡ (ok t, w))
            × IsEntering s.machine t x)
  unfolding poll_future fire_future state_name
  poll_future-IsPoint i s x e h = elim (Bool-cases (leb i s.clock)) [
    | inr early ↦ absurd (unfold IsPoint in (rw early at h))
    | inl due ↦
        let h' = rw due at h in
        elim (Option-cases (HashMap.get s.timeout_handlers (sv.variant_name s.current_state))) [
          | inl p ↦ absurd (unfold IsPoint in (rw p at h'))
          | inr (dh, p) ↦ elim (fire-IsPoint dh.1 s x (rw p at h')) [
            | inl q ↦ inl q
            | inr (t, w, q, r) ↦ inr (dh.1, t, w, ((i, e, ground arith), (dh.0, p)), q, r)
          ]
        ]
  ]

  -- A poll that is dropped while a handler is pending leaves the machine as it was, or the timeout
  -- handler has returned a transition, and the machine is in the state that it leads to with all
  -- else as before, the deadline included: that state's entry handler was pending.
  pub check_timeout_future-IsPoint :
      (s : Run S E C A) (x : StateMachine S E C A)
      → IsPoint x (check_timeout_future s)
      → (x ≡ s.machine)
        ⊎ ((handler : TimeoutHandler S C A) × (t : Transition S A) × (w : World C) × Elapsed s
              handler
            × (handler s.current_state s.world ≡ (ok t, w))
            × IsEntering s.machine t x)
  unfolding check_timeout_future
  check_timeout_future-IsPoint s x h = elim (Option-cases s.state_timeout) [
    | inl p ↦ absurd (unfold poll_future IsPoint in (subst (λ o. IsPoint x (poll_future o s)) p h))
    | inr (i, p) ↦ poll_future-IsPoint i s x p (subst (λ o. IsPoint x (poll_future o s)) p h)
  ]

module _ {S E C A : Type 0} ⦃sv : StateVariant S⦄ ⦃ev : EventVariant E⦄ where
  event_future-IsPoint :
      (handler : TransitionHandler S E C A) (event : E) (s : Run S E C A) (x : StateMachine S E C A)
      → Picks s event handler
      → IsPoint x (event_future handler event s)
      → (x ≡ s.machine)
        ⊎ ((handler : TransitionHandler S E C A) × (t : Transition S A) × (w : World C) × Picks s
              event handler
            × (handler s.current_state event s.world ≡ (ok t, w))
            × IsEntering s.machine t x)
  unfolding event_future
  event_future-IsPoint handler event s x picks h =
      elim (fire-IsPoint (λ state. handler state event) s x h) [
        | inl p ↦ inl p
        | inr (t, w, e, p) ↦ inr (handler, t, w, picks, e, p)
      ]

  unhandled_future-IsPoint :
      (o : Option (UnhandledHandler S E C)) (event : E) (s : Run S E C A) (x : StateMachine S E C A)
      → IsPoint x (unhandled_future o event s)
      → x ≡ s.machine
  unfolding unhandled_future IsPoint await_future and_then
  unhandled_future-IsPoint none event s x h = absurd h
  unhandled_future-IsPoint (some f) event s x (inl p) = p
  unhandled_future-IsPoint (some f) event s x (inr h) =
      elim (FsmResult-cases (f s.current_state event s.world).0) [
        | inl (a, p) ↦ absurd (rw p at h)
        | inr (e, p) ↦ absurd (rw p at h)
      ]

  -- An event's call that is dropped while a handler is pending leaves the machine as it was, or the
  -- handler that dispatch picks has returned a transition, and the machine is in the state that it
  -- leads to with all else as before, the deadline included: that state's entry handler was
  -- pending.
  pub handle_future-IsPoint :
      (event : E) (s : Run S E C A) (x : StateMachine S E C A)
      → IsPoint x (handle_future event s)
      → (x ≡ s.machine)
        ⊎ ((handler : TransitionHandler S E C A) × (t : Transition S A) × (w : World C) × Picks s
              event handler
            × (handler s.current_state event s.world ≡ (ok t, w))
            × IsEntering s.machine t x)
  unfolding handle_future exact_future wildcard_future state_name
  handle_future-IsPoint event s x h =
      let name = ev.variant_name event in
      elim (Option-cases (HashMap.get s.transitions (sv.variant_name s.current_state, name))) [
        | inr (f, p) ↦ event_future-IsPoint f event s x (inl p) (rw p at h)
        | inl p ↦
            let h' = rw p at h in
            elim (Option-cases (HashMap.get s.transitions ("_", name))) [
              | inr (f, q) ↦ event_future-IsPoint f event s x (inr (p, q)) (rw q at h')
              | inl q ↦ inl (unhandled_future-IsPoint s.unhandled_handler event s x (rw q at h'))
            ]
      ]
