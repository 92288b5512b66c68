-- ===== src/Machine/Tables.antt =====
-- The tables that the builder filled, across the operations of the engine.
use obzenflow_fsm.Prelude.{Option, List, ◌≡◌, refl, ap}
use obzenflow_fsm.Exec.{FsmResult}
use obzenflow_fsm.Types.{Transition, StateVariant, EventVariant, UnhandledHandler}
use obzenflow_fsm.Machine.{
  TransitionMap, StateHandlerMap, TimeoutHandlerMap, StateMachine, Run, handle, check_timeout,
}
use obzenflow_fsm.Machine.Apply.{Applies, exit_failed, entry_failed, applied}
use obzenflow_fsm.Machine.Dispatch
use obzenflow_fsm.Machine.Dispatch.{Handles, handle_iff}
use obzenflow_fsm.Machine.Poll
use obzenflow_fsm.Machine.Poll.{Polls, check_timeout_iff}

abbrev pub Tables : Type 0 → Type 0 → Type 0 → Type 0 → Type 0
Tables S E C A =
    TransitionMap S E C A
    × StateHandlerMap S C A
    × StateHandlerMap S C A
    × TimeoutHandlerMap S C A
    × Option (UnhandledHandler S E C)

abbrev pub tables : {S E C A : Type 0} → StateMachine S E C A → Tables S E C A
tables m =
    (m.transitions, m.entry_handlers, m.exit_handlers, m.timeout_handlers, m.unhandled_handler)

abbrev of_run : {S E C A : Type 0} → Run S E C A → Tables S E C A
of_run s = tables s.machine

module _ {S E C A : Type 0} ⦃sv : StateVariant S⦄ where
  pub tables-Applies :
      (t : Transition S A) {s : Run S E C A} {r : FsmResult (List A)} {u : Run S E C A}
      → Applies t s r u
      → tables u.machine ≡ tables s.machine
  tables-Applies t (exit_failed e w p er eu) = ap of_run eu
  tables-Applies t (entry_failed xs w e w' p p' er eu) = ap of_run eu
  tables-Applies t (applied xs w ys w' p p' er eu) = ap of_run eu

  -- A poll leaves every handler table as it was, whatever it returns.
  pub tables-check_timeout :
      (s : Run S E C A) → tables (check_timeout s).1.machine ≡ tables s.machine
  tables-check_timeout s = go ((check_timeout_iff s _ _).0 refl)
    where
      go :
          {r : FsmResult (List A)} {u : Run S E C A}
          → Polls s r u
          → tables u.machine ≡ tables s.machine
      go (Poll.idle h er eu) = ap of_run eu
      go (Poll.handler_failed handler e w h p er eu) = ap of_run eu
      go (Poll.moved handler t w h p a) = tables-Applies t a

  -- Handling an event leaves every handler table as it was, whatever it returns.
  pub tables-handle :
      ⦃ev : EventVariant E⦄ (event : E) (s : Run S E C A)
      → tables (handle event s).1.machine ≡ tables s.machine
  tables-handle event s = go ((handle_iff event s _ _).0 refl)
    where
      go :
          {r : FsmResult (List A)} {u : Run S E C A}
          → Handles event s r u
          → tables u.machine ≡ tables s.machine
      go (Dispatch.handler_failed handler e w h p er eu) = ap of_run eu
      go (Dispatch.moved handler t w h p a) = tables-Applies t a
      go (Dispatch.hook_failed handler e w h o p er eu) = ap of_run eu
      go (Dispatch.hooked handler w h o p er eu) = ap of_run eu
      go (Dispatch.rejected h o er eu) = ap of_run eu
