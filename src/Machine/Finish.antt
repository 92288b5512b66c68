-- ===== src/Machine/Finish.antt =====
-- The futures of the engine, polled to the end.
use obzenflow_fsm.Prelude.{
  ℕ, Option, none, some, ◌≡◌, refl, ap, ◌∙◌, inl, inr, leb, string_equality, pair_equality,
  Option-cases, Bool-cases,
}
use obzenflow_fsm.HashMap
use obzenflow_fsm.Exec.{FsmResult, FsmResult-cases, ok, err, Exec}
use obzenflow_fsm.Exec
use obzenflow_fsm.Types.{
  Transition, StateVariant, EventVariant, World, TransitionHandler, StateHandler, TimeoutHandler,
  UnhandledHandler,
}
use obzenflow_fsm.Machine.{
  Run, run_hook, await, set_state, state_name, apply_transition, fire, poll, check_timeout,
  fire_event, unhandled, on_wildcard, on_exact, handle,
}
use obzenflow_fsm.Machine.Suspend.{
  Future, ready, pending, and_then, finish, await_future, hook_future, transition_future,
  fire_future, poll_future, check_timeout_future, event_future, unhandled_future, wildcard_future,
  exact_future, handle_future,
}

module _ {X M A B : Type 0} where
  finish-and_then :
      (future : Future X M A) (f : A → M → Future X M B) (g : A → Exec M B)
      → ((a : A) (m : M) → finish (f a m) ≡ g a m)
      → finish (and_then future f) ≡ Exec.continue (finish future).0 g (finish future).1
  unfolding finish and_then
  finish-and_then (ready (ok a) m) f g h = h a m
  finish-and_then (ready (err e) m) f g h = refl
  finish-and_then (pending x rest) f g h = finish-and_then rest f g h

  finish-bind :
      (future : Future X M A) (f : A → M → Future X M B) (m : Exec M A) (g : A → Exec M B) (s : M)
      → finish future ≡ m s
      → ((a : A) (u : M) → finish (f a u) ≡ g a u)
      → finish (and_then future f) ≡ Exec.◌>>=◌ m g s
  finish-bind future f m g s e h =
      finish-and_then future f g h ∙ ap (λ x. Exec.continue x.0 g x.1) e

module _ {S E C A : Type 0} where
  pub finish-hook_future :
      (o : Option (StateHandler S C A)) (s : Run S E C A)
      → finish (hook_future o s) ≡ await (run_hook o) s
  unfolding finish hook_future await_future run_hook
  finish-hook_future none s = refl
  finish-hook_future (some h) s = refl

module _ {S E C A : Type 0} ⦃sv : StateVariant S⦄ where
  finish-transition_future :
      (t : Transition S A) (s : Run S E C A) → finish (transition_future t s) ≡ apply_transition t s
  unfolding transition_future apply_transition finish
  finish-transition_future t s =
      finish-bind (hook_future _ s) _ (await (run_hook _)) _ s (finish-hook_future _ s)
        (λ exit_actions u.
          let v = set_state t.next_state u in
          finish-bind (hook_future _ v) _ (await (run_hook _)) _ v (finish-hook_future _ v)
            (λ entry_actions w. refl))

  pub finish-await_future :
      {B : Type 0} (handler : S → Exec (World C) B) (s : Run S E C A)
      → finish (await_future handler s) ≡ await handler s
  unfolding finish await_future
  finish-await_future handler s = refl

  finish-fire_future :
      (o : Option (ℕ × TimeoutHandler S C A)) (s : Run S E C A)
      → finish (fire_future {E = E} o s) ≡ fire o s
  unfolding fire_future fire
  finish-fire_future none s = unfold finish in refl
  finish-fire_future (some (d, h)) s =
      finish-bind (await_future h s) _ (await h) apply_transition s (finish-await_future h s)
        (λ t u. finish-transition_future t u)

  finish-poll_future : (o : Option ℕ) (s : Run S E C A) → finish (poll_future o s) ≡ poll o s
  unfolding poll_future poll
  finish-poll_future none s = unfold finish in refl
  finish-poll_future (some i) s = elim (Bool-cases (leb i s.clock)) [
    | inl due ↦ rw due (finish-fire_future _ s)
    | inr early ↦ rw early (unfold finish in refl)
  ]

  finish-check_timeout_future :
      (s : Run S E C A) → finish (check_timeout_future s) ≡ check_timeout s
  unfolding check_timeout_future check_timeout
  finish-check_timeout_future s = finish-poll_future s.state_timeout s

module _ {S E C A : Type 0} ⦃sv : StateVariant S⦄ ⦃ev : EventVariant E⦄ where
  finish-event_future :
      (handler : TransitionHandler S E C A) (event : E) (s : Run S E C A)
      → finish (event_future handler event s) ≡ fire_event handler event s
  unfolding event_future fire_event
  finish-event_future handler event s =
      finish-bind (await_future _ s) _ (await (λ state. handler state event)) apply_transition s
        (finish-await_future _ s) (λ t u. finish-transition_future t u)

  finish-unhandled_future :
      (o : Option (UnhandledHandler S E C)) (event : E) (s : Run S E C A)
      → finish (unhandled_future o event s) ≡ unhandled o event s
  unfolding unhandled_future unhandled finish
  finish-unhandled_future none event s = refl
  finish-unhandled_future (some h) event s =
      finish-bind (await_future _ s) _ (await (λ state. h state event)) _ s
        (finish-await_future _ s) (λ x u. refl)

  finish-handle_future :
      (event : E) (s : Run S E C A) → finish (handle_future event s) ≡ handle event s
  unfolding handle_future handle exact_future on_exact wildcard_future on_wildcard state_name
  finish-handle_future event s =
      let name = ev.variant_name event in
      elim (Option-cases (HashMap.get s.transitions (sv.variant_name s.current_state, name))) [
        | inr (h, p) ↦ rw p (finish-event_future h event s)
        | inl p ↦ rw p (elim (Option-cases (HashMap.get s.transitions ("_", name))) [
          | inr (h, q) ↦ rw q (finish-event_future h event s)
          | inl q ↦ rw q (finish-unhandled_future s.unhandled_handler event s)
        ])
      ]

  -- The futures of an event and of a poll, each polled to its end, give the result and the state of
  -- `handle` and of `check_timeout`.
  futures_finish :
      (event : E) (s : Run S E C A)
      → (finish (handle_future event s) ≡ handle event s)
        × (finish (check_timeout_future s) ≡ check_timeout s)
  futures_finish event s = (finish-handle_future event s, finish-check_timeout_future s)
