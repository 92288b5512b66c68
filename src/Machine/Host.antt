-- ===== src/Machine/Host.antt =====
-- A host that drives a machine: events, polls, calls that it drops, and its own work in between, in
-- any order. The host's work is the execution of actions and all else that changes the world; it
-- has no access to the machine.
use obzenflow_fsm.Prelude.{
  ◌≤◌, Option, some, ◌≡◌, refl, inl, inr, sym, ap, subst, ◌∙◌, string_equality,
}
use obzenflow_fsm.HashMap
use obzenflow_fsm.Types.{StateVariant, EventVariant, World, UnhandledHandler}
use obzenflow_fsm.Machine.{
  TransitionMap, StateHandlerMap, TimeoutHandlerMap, StateMachine, Run, new, handle, check_timeout,
}
use obzenflow_fsm.Machine.Suspend.{IsPoint, handle_future, check_timeout_future}
use obzenflow_fsm.Machine.Drops.{handle_future-IsPoint, check_timeout_future-IsPoint}
use obzenflow_fsm.Machine.Tables.{tables, tables-handle, tables-check_timeout}
use obzenflow_fsm.Machine.Timers.{
  EntriesSucceed, IsArmed, handle-IsArmed, check_timeout-IsArmed, new-IsArmed,
}

module _ {S E C A : Type 0} ⦃sv : StateVariant S⦄ ⦃ev : EventVariant E⦄ where
  -- One step, whether the call returns actions or an error.
  pub data HostStep (s u : Run S E C A) : Type 0 where
    feed : (event : E) → u ≡ (handle event s).1 → HostStep s u
    poll : u ≡ (check_timeout s).1 → HostStep s u
    work : (w : World C) → s.clock ≤ w.clock → u ≡ record s { world = w } → HostStep s u

  -- A step that the host may cut short: it drops the call while a handler is pending, whatever that
  -- handler has done to the world by then.
  pub data AnyStep (s u : Run S E C A) : Type 0 where
    whole : HostStep s u → AnyStep s u
    drop_feed :
        (event : E) (x : StateMachine S E C A) (w : World C)
        → IsPoint x (handle_future event s)
        → s.clock ≤ w.clock
        → u ≡ record { machine = x; world = w }
        → AnyStep s u
    drop_poll :
        (x : StateMachine S E C A) (w : World C)
        → IsPoint x (check_timeout_future s)
        → s.clock ≤ w.clock
        → u ≡ record { machine = x; world = w }
        → AnyStep s u

  -- Any number of steps.
  pub data Reach (Step : Run S E C A → Run S E C A → Type 0) (s : Run S E C A)
      : Run S E C A → Type 0 where
    here : Reach Step s s
    next : {t u : Run S E C A} → Reach Step s t → Step t u → Reach Step s u

  tables-HostStep : {s u : Run S E C A} → HostStep s u → tables u.machine ≡ tables s.machine
  tables-HostStep {s} (feed event e) = ap (λ x. tables x.machine) e ∙ tables-handle event s
  tables-HostStep {s} (poll e) = ap (λ x. tables x.machine) e ∙ tables-check_timeout s
  tables-HostStep (work w h e) = ap (λ x. tables x.machine) e

  tables-AnyStep : {s u : Run S E C A} → AnyStep s u → tables u.machine ≡ tables s.machine
  tables-AnyStep (whole step) = tables-HostStep step
  tables-AnyStep {s} (drop_feed event x w point le e) =
      ap (λ y. tables y.machine) e ∙ elim (handle_future-IsPoint event s x point) [
        | inl same ↦ ap tables same
        | inr (h, t, v, picks, p, (entering, moved)) ↦ ap tables moved
      ]
  tables-AnyStep {s} (drop_poll x w point le e) =
      ap (λ y. tables y.machine) e ∙ elim (check_timeout_future-IsPoint s x point) [
        | inl same ↦ ap tables same
        | inr (h, t, v, elapsed, p, (entering, moved)) ↦ ap tables moved
      ]

  -- Whatever the host does, calls that it drops included, the handler tables of the machine stay
  -- those it started with.
  pub tables-Reach : {s u : Run S E C A} → Reach AnyStep s u → tables u.machine ≡ tables s.machine
  tables-Reach here = refl
  tables-Reach (next r step) = tables-AnyStep step ∙ tables-Reach r

  pub AnyStep-Reach : {s u : Run S E C A} → Reach HostStep s u → Reach AnyStep s u
  AnyStep-Reach here = here
  AnyStep-Reach (next r step) = next (AnyStep-Reach r) (whole step)

  EntriesSucceed-tables :
      (m n : StateMachine S E C A) → tables n ≡ tables m → EntriesSucceed m → EntriesSucceed n
  EntriesSucceed-tables m n e good name handler h =
      good name handler (subst (λ x. HashMap.get x.1 name ≡ some handler) e h)

  IsArmed-HostStep :
      {s u : Run S E C A}
      → EntriesSucceed s.machine
      → IsArmed s.machine
      → HostStep s u
      → IsArmed u.machine
  IsArmed-HostStep {s} good h (feed event e) =
      subst (λ x. IsArmed x.machine) (sym e) (handle-IsArmed event s good h)
  IsArmed-HostStep {s} good h (poll e) =
      subst (λ x. IsArmed x.machine) (sym e) (check_timeout-IsArmed s good h)
  IsArmed-HostStep good h (work w le e) = subst (λ x. IsArmed x.machine) (sym e) h

  IsArmed-Reach :
      {s u : Run S E C A}
      → EntriesSucceed s.machine
      → IsArmed s.machine
      → Reach HostStep s u
      → IsArmed u.machine
  IsArmed-Reach good h here = h
  IsArmed-Reach {s} good h (next {t} r step) =
      IsArmed-HostStep
        (EntriesSucceed-tables s.machine t.machine (tables-Reach (AnyStep-Reach r)) good)
        (IsArmed-Reach good h r) step

  -- A new machine whose entry handlers return no errors has, whatever the host and the other
  -- handlers do, a deadline set exactly while its current state has a timeout, if the host drops no
  -- call.
  pub new-Reach-IsArmed :
      (initial : S) (transitions : TransitionMap S E C A) (entries exits : StateHandlerMap S C A)
      (timeouts : TimeoutHandlerMap S C A) (unhandled : Option (UnhandledHandler S E C))
      (w : World C) {u : Run S E C A}
      → EntriesSucceed (new initial transitions entries exits timeouts unhandled w.clock)
      → Reach HostStep
          (record {
            machine = new initial transitions entries exits timeouts unhandled w.clock;
            world = w;
          })
          u
      → IsArmed u.machine
  new-Reach-IsArmed initial transitions entries exits timeouts unhandled w good =
      IsArmed-Reach good (new-IsArmed initial transitions entries exits timeouts unhandled w.clock)
