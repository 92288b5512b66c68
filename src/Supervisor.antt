-- ===== src/Supervisor.antt =====
-- The supervisor of the crate's guide (src/lib.rs, "Supervisor / host loop pattern"): it polls,
-- executes, receives an event and feeds it, and turns an action that fails into an event. What it
-- receives, and the event for an error, are the host's: parameters.
pub mod Batches
pub mod Runs
pub mod Hosted
use obzenflow_fsm.Prelude.{ℕ, zero, suc, List, [], ◌∷◌}
use obzenflow_fsm.Error.{FsmError}
use obzenflow_fsm.Exec.{FsmResult, ok, err, Exec, pure, ◌>>=◌, ◌>>◌}
use obzenflow_fsm.Types.{StateVariant, EventVariant, World, FsmAction}
use obzenflow_fsm.Machine.{Run, handle, check_timeout}

module _ {S E C A : Type 0} ⦃fa : FsmAction C A⦄ where
  -- `action.execute(&mut context).await`
  abbrev pub act : A → Exec (Run S E C A) Unit
  act action s = let (r, w) = fa.execute action s.world in (r, record s { world = w })

  -- `for action in actions { action.execute(&mut context).await?; }`
  unfoldable pub execute_each : List A → Exec (Run S E C A) Unit
  execute_each [] = pure tt
  execute_each (action ∷ actions) = do act action; execute_each actions

module _ {S E C A : Type 0} ⦃sv : StateVariant S⦄ ⦃ev : EventVariant E⦄ ⦃fa : FsmAction C A⦄
    (failure_event : FsmError → E) where
  -- The body of `if let Err(e) = action.execute(&mut context).await { … }`.
  abbrev pub on_failure : FsmError → Exec (Run S E C A) Unit
  on_failure e = do failure_actions ← handle (failure_event e); execute_each failure_actions

  abbrev pub reported : FsmResult (Unit {0}) → Exec (Run S E C A) Unit
  reported (ok x) = pure tt
  reported (err e) = on_failure e

  -- `for action in actions { if let Err(e) = … }`
  unfoldable pub execute_or_report : List A → Exec (Run S E C A) Unit
  execute_or_report [] = pure tt
  execute_or_report (action ∷ actions) = do
    (λ s. let (r, u) = act action s in reported r u)
    execute_or_report actions

  module _ (receive : World C → E × World C) where
    abbrev pub received : Exec (Run S E C A) E
    received s = let (event, w) = receive s.world in (ok event, record s { world = w })

    -- One round of the `loop`.
    unfoldable pub round : Exec (Run S E C A) Unit
    round = do
      timeout_actions ← check_timeout
      execute_each timeout_actions
      event ← received
      actions ← handle event
      execute_or_report actions

    -- The first rounds of the `loop`, which only an error leaves.
    unfoldable pub rounds : ℕ → Exec (Run S E C A) Unit
    rounds zero = pure tt
    rounds (suc n) = do round; rounds n
