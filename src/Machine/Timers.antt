-- ===== src/Machine/Timers.antt =====
-- The timer of a machine, and the current state's timeout.
use obzenflow_fsm.Prelude.{
  ℕ, String, Option, none, some, List, ◌≡◌, refl, sym, subst, inl, inr, string_equality, is_some,
  Option-cases,
}
use obzenflow_fsm.HashMap
use obzenflow_fsm.Error.{FsmError}
use obzenflow_fsm.Exec.{FsmResult, ok, err}
use obzenflow_fsm.Types.{
  Transition, StateVariant, EventVariant, World, StateHandler, UnhandledHandler,
}
use obzenflow_fsm.Machine.{
  TransitionMap, StateHandlerMap, TimeoutHandlerMap, StateMachine, Run, deadline, run_hook, new,
  handle, check_timeout,
}
use obzenflow_fsm.Machine.Apply.{Applies, exit_failed, entry_failed, applied}
use obzenflow_fsm.Machine.Dispatch
use obzenflow_fsm.Machine.Dispatch.{Handles, handle_iff}
use obzenflow_fsm.Machine.Poll
use obzenflow_fsm.Machine.Poll.{Polls, check_timeout_iff}

-- Every entry handler of the machine returns its actions, and no error.
abbrev pub EntriesSucceed : {S E C A : Type 0} → StateMachine S E C A → Type 0
EntriesSucceed {S} {C = C} {A = A} m =
    (name : String) (handler : StateHandler S C A)
    → HashMap.get m.entry_handlers name ≡ some handler
    → (state : S) (w : World C) → (xs : List A) × (w' : World C) × (handler state w ≡ (ok xs, w'))

is_some-deadline {ℓ} :
    {H : Type ℓ} (o : Option (ℕ × H)) (now : ℕ) → is_some (deadline o now) ≡ is_some o
unfolding deadline
is_some-deadline none now = refl
is_some-deadline (some dh) now = refl

module _ {S E C A : Type 0} ⦃sv : StateVariant S⦄ where
  -- A deadline is set exactly if the current state has a timeout.
  abbrev pub IsArmed : StateMachine S E C A → Type 0
  IsArmed m =
      is_some m.state_timeout
      ≡ is_some (HashMap.get m.timeout_handlers (sv.variant_name m.current_state))

  pub new-IsArmed :
      (initial : S) (transitions : TransitionMap S E C A) (entries exits : StateHandlerMap S C A)
      (timeouts : TimeoutHandlerMap S C A) (unhandled : Option (UnhandledHandler S E C)) (now : ℕ)
      → IsArmed (new initial transitions entries exits timeouts unhandled now)
  unfolding new
  new-IsArmed initial transitions entries exits timeouts unhandled now =
      is_some-deadline (HashMap.get timeouts (sv.variant_name initial)) now

  not-entry_failed :
      (m : StateMachine S E C A) (name : String) (state : S) (w : World C) (e : FsmError)
      (w' : World C)
      → EntriesSucceed m
      → run_hook (HashMap.get m.entry_handlers name) state w ≡ (err e, w')
      → ⊥
  unfolding run_hook
  not-entry_failed m name state w e w' good p =
      elim (Option-cases (HashMap.get m.entry_handlers name)) [
        | inl q ↦ cc
        | inr (h, q) ↦ let (xs, v, r) = good name h q state w in cc
      ]

  Applies-IsArmed :
      (t : Transition S A) {s : Run S E C A} {r : FsmResult (List A)} {u : Run S E C A}
      → EntriesSucceed s.machine
      → IsArmed s.machine
      → Applies t s r u
      → IsArmed u.machine
  Applies-IsArmed t good h (exit_failed e w p er eu) = subst (λ x. IsArmed x.machine) (sym eu) h
  Applies-IsArmed t {s} good h (entry_failed xs w e w' p p' er eu) =
      absurd (not-entry_failed s.machine (sv.variant_name t.next_state) t.next_state w e w' good p')
  Applies-IsArmed t {s} good h (applied xs w ys w' p p' er eu) =
      subst (λ x. IsArmed x.machine) (sym eu)
        (is_some-deadline (HashMap.get s.timeout_handlers (sv.variant_name t.next_state)) w'.clock)

  pub check_timeout-IsArmed :
      (s : Run S E C A)
      → EntriesSucceed s.machine
      → IsArmed s.machine
      → IsArmed (check_timeout s).1.machine
  check_timeout-IsArmed s good armed = go ((check_timeout_iff s _ _).0 refl)
    where
      go : {r : FsmResult (List A)} {u : Run S E C A} → Polls s r u → IsArmed u.machine
      go (Poll.idle h er eu) = subst (λ x. IsArmed x.machine) (sym eu) armed
      go (Poll.handler_failed handler e w h p er eu) = subst (λ x. IsArmed x.machine) (sym eu) armed
      go (Poll.moved handler t w h p a) = Applies-IsArmed t good armed a

  pub handle-IsArmed :
      ⦃ev : EventVariant E⦄ (event : E) (s : Run S E C A)
      → EntriesSucceed s.machine
      → IsArmed s.machine
      → IsArmed (handle event s).1.machine
  handle-IsArmed event s good armed = go ((handle_iff event s _ _).0 refl)
    where
      go : {r : FsmResult (List A)} {u : Run S E C A} → Handles event s r u → IsArmed u.machine
      go (Dispatch.handler_failed handler e w h p er eu) =
          subst (λ x. IsArmed x.machine) (sym eu) armed
      go (Dispatch.moved handler t w h p a) = Applies-IsArmed t good armed a
      go (Dispatch.hook_failed handler e w h o p er eu) =
          subst (λ x. IsArmed x.machine) (sym eu) armed
      go (Dispatch.hooked handler w h o p er eu) = subst (λ x. IsArmed x.machine) (sym eu) armed
      go (Dispatch.rejected h o er eu) = subst (λ x. IsArmed x.machine) (sym eu) armed
