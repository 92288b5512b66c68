-- ===== src/Supervisor/Runs.antt =====
-- The supervisor's loop as a host: what it does to the machine, it does by whole steps.
use obzenflow_fsm.Prelude.{
  ℕ, zero, suc, ◌≤◌, List, [], ◌∷◌, ◌≡◌, Option, refl, inl, inr, string_equality,
}
use obzenflow_fsm.Error.{FsmError}
use obzenflow_fsm.Exec.{FsmResult, ok, err, Exec, ◌>>=◌, FsmResult-cases}
use obzenflow_fsm.Types.{StateVariant, EventVariant, World, FsmAction, UnhandledHandler}
use obzenflow_fsm.Machine.{
  TransitionMap, StateHandlerMap, TimeoutHandlerMap, Run, new, handle, check_timeout,
}
use obzenflow_fsm.Machine.Host
use obzenflow_fsm.Machine.Host.{HostStep, Reach, AnyStep-Reach, tables-Reach, new-Reach-IsArmed}
use obzenflow_fsm.Machine.Tables.{tables}
use obzenflow_fsm.Machine.Timers.{EntriesSucceed, IsArmed}
use obzenflow_fsm.Supervisor.{
  act, execute_each, on_failure, reported, execute_or_report, received, round, rounds,
}

-- The clock does not go back.
abbrev pub Monotone : {C B : Type 0} → Exec (World C) B → Type 0
Monotone {C} m = (w : World C) → w.clock ≤ (m w).1.clock

module _ {S E C A : Type 0} ⦃sv : StateVariant S⦄ ⦃ev : EventVariant E⦄ where
  Reach-trans : {s t u : Run S E C A} → Reach HostStep s t → Reach HostStep t u → Reach HostStep s u
  Reach-trans r Host.here = r
  Reach-trans r (Host.next r' step) = Host.next (Reach-trans r r') step

  -- The action moves the machine by host steps only, whatever it returns.
  abbrev Along : {B : Type 0} → Exec (Run S E C A) B → Type 0
  Along m = (s : Run S E C A) → Reach HostStep s (m s).1

  Along-bind :
      {B D : Type 0} (m : Exec (Run S E C A) B) (f : B → Exec (Run S E C A) D)
      → Along m
      → ((b : B) → Along (f b))
      → Along (m >>= f)
  Along-bind m f hm hf s = elim (FsmResult-cases (m s).0) [
    | inl (b, p) ↦ rw p (Reach-trans (hm s) (hf b (m s).1))
    | inr (e, p) ↦ rw p (hm s)
  ]

  step : {s u : Run S E C A} → HostStep s u → Reach HostStep s u
  step h = Host.next Host.here h

  module _ ⦃fa : FsmAction C A⦄ (ticks : (a : A) → Monotone (fa.execute a))
      (failure_event : FsmError → E) where
    Along-act : (a : A) → Along (act a)
    Along-act a s = step (Host.work (fa.execute a s.world).1 (ticks a s.world) refl)

    Along-execute_each : (xs : List A) → Along (execute_each xs)
    unfolding execute_each
    Along-execute_each [] = λ s. Host.here
    Along-execute_each (x ∷ xs) =
        Along-bind (act x) (λ u. execute_each xs) (Along-act x) (λ u. Along-execute_each xs)

    Along-on_failure : (e : FsmError) → Along (on_failure failure_event e)
    Along-on_failure e =
        Along-bind (handle (failure_event e)) execute_each
          (λ s. step (Host.feed (failure_event e) refl)) Along-execute_each

    Along-reported : (r : FsmResult (Unit {0})) → Along (reported failure_event r)
    Along-reported (ok x) = λ s. Host.here
    Along-reported (err e) = Along-on_failure e

    Along-execute_or_report : (xs : List A) → Along (execute_or_report failure_event xs)
    unfolding execute_or_report
    Along-execute_or_report [] = λ s. Host.here
    Along-execute_or_report (x ∷ xs) =
        Along-bind _ (λ u. execute_or_report failure_event xs)
          (λ s. Reach-trans (Along-act x s) (Along-reported (act x s).0 (act x s).1))
          (λ u. Along-execute_or_report xs)

    module _ (receive : World C → E × World C)
        (waits : (w : World C) → w.clock ≤ (receive w).1.clock) where
      Along-received : Along (received failure_event receive)
      Along-received s = step (Host.work (receive s.world).1 (waits s.world) refl)

      Along-round : Along (round failure_event receive)
      unfolding round
      Along-round =
          Along-bind check_timeout _ (λ s. step (Host.poll refl))
            (λ timeout_actions.
              Along-bind (execute_each timeout_actions) _ (Along-execute_each timeout_actions) (λ u.
                Along-bind (received failure_event receive)
                  (λ event. handle event >>= execute_or_report failure_event) Along-received
                  (λ event.
                    Along-bind (handle event) (execute_or_report failure_event)
                      (λ s. step (Host.feed event refl)) Along-execute_or_report)))

      -- A run of any number of rounds is one that a host makes by events, polls and work.
      rounds-Reach :
          (n : ℕ) (s : Run S E C A) → Reach HostStep s (rounds failure_event receive n s).1
      unfolding rounds
      rounds-Reach zero = λ s. Host.here
      rounds-Reach (suc n) =
          Along-bind (round failure_event receive) (λ u. rounds failure_event receive n) Along-round
            (λ u. rounds-Reach n)

      -- A new machine whose entry handlers return no errors, after any number of rounds of the
      -- supervisor's loop, whatever fails in them, if neither the actions nor the wait for an event
      -- turn the clock back: its handler tables are those it was made with, and a deadline is set
      -- exactly while its current state has a timeout.
      pub new-rounds-IsArmed :
          (initial : S) (transitions : TransitionMap S E C A)
          (entries exits : StateHandlerMap S C A) (timeouts : TimeoutHandlerMap S C A)
          (unhandled : Option (UnhandledHandler S E C)) (w : World C) (n : ℕ)
          → EntriesSucceed (new initial transitions entries exits timeouts unhandled w.clock)
          → let m = new initial transitions entries exits timeouts unhandled w.clock in
            let u = (rounds failure_event receive n (record { machine = m; world = w })).1 in
            (tables u.machine ≡ tables m) × IsArmed u.machine
      new-rounds-IsArmed initial transitions entries exits timeouts unhandled w n good =
          let m = new initial transitions entries exits timeouts unhandled w.clock in
          let run = rounds-Reach n (record { machine = m; world = w }) in
          (
            tables-Reach (AnyStep-Reach run),
            new-Reach-IsArmed initial transitions entries exits timeouts unhandled w good run,
          )
