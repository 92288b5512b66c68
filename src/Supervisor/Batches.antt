-- ===== src/Supervisor/Batches.antt =====
-- What a supervisor does with the actions of an event, beside `execute_actions`.
use obzenflow_fsm.Prelude.{List, [], ◌∷◌, ◌++◌, ◌≡◌, refl, ap, ◌∙◌, inl, inr, arith}
use obzenflow_fsm.Error.{FsmError}
use obzenflow_fsm.Exec.{ok, Exec, ◌>>=◌, ◌>>◌, FsmResult-cases}
use obzenflow_fsm.Types.{StateVariant, EventVariant, World, FsmAction}
use obzenflow_fsm.Machine.{Run, handle, execute_actions}
use obzenflow_fsm.Machine.Actions.{FirstFailure}
use obzenflow_fsm.Supervisor.{execute_each, on_failure, execute_or_report}

module _ {S E C A : Type 0} ⦃fa : FsmAction C A⦄ where
  -- The loop that stops at an error is `execute_actions`.
  pub execute_each-execute_actions :
      (xs : List A) (s : Run S E C A)
      → execute_each xs s
        ≡ ((execute_actions xs s.world).0, record s { world = (execute_actions xs s.world).1 })
  unfolding execute_each execute_actions
  execute_each-execute_actions [] s = refl
  execute_each-execute_actions (x ∷ xs) s = elim (FsmResult-cases (fa.execute x s.world).0) [
    | inl (a, p) ↦
        rw p (execute_each-execute_actions xs (record s { world = (fa.execute x s.world).1 }))
    | inr (e, p) ↦ rw p refl
  ]

-- The machine's own `execute_actions`, in the world of a run.
abbrev pub run_actions : {S E C A : Type 0} ⦃fa : FsmAction C A⦄ → List A → Exec (Run S E C A) Unit
run_actions actions s = let (r, w) = execute_actions actions s.world in (r, record s { world = w })

module _ {S E C A : Type 0} ⦃sv : StateVariant S⦄ ⦃ev : EventVariant E⦄ ⦃fa : FsmAction C A⦄
    (failure_event : FsmError → E) where
  -- Actions that all succeed leave no trace of the reports.
  succeeding :
      (xs ys : List A) (s : Run S E C A) (w : World C)
      → execute_actions xs s.world ≡ (ok tt, w)
      → execute_or_report failure_event (xs ++ ys) s
        ≡ execute_or_report failure_event ys (record s { world = w })
  unfolding execute_or_report execute_actions
  succeeding [] ys s w h =
      let same : s.world ≡ w = ground arith in
      ap (λ v. execute_or_report failure_event ys (record s { world = v })) same
  succeeding (x ∷ xs) ys s w h = elim (FsmResult-cases (fa.execute x s.world).0) [
    | inl (a, p) ↦
        rw p (succeeding xs ys (record s { world = (fa.execute x s.world).1 }) w (rw p at h))
    | inr (e, p) ↦ absurd (ground arith)
  ]

  reporting :
      (e : FsmError) (rest : List A) (s : Run S E C A)
      → (on_failure failure_event e >> execute_or_report failure_event rest) s
        ≡ (do
          failure_actions ← handle (failure_event e)
          run_actions failure_actions
          execute_or_report failure_event rest)
            s
  reporting e rest s = elim (FsmResult-cases (handle (failure_event e) s).0) [
    | inl (ys, p) ↦ rw p (rw execute_each-execute_actions refl)
    | inr (e', p) ↦ rw p refl
  ]

  -- A list with a first action that fails, after which `execute_actions` would stop: the
  -- supervisor executes the actions before it as `execute_actions` does, feeds the event for the
  -- error to the machine, executes the actions that it returns as `execute_actions` does, and goes
  -- on with the actions after the failed one, in the world and the state that it has come to. An
  -- error of the machine, or of an action that it returned, ends all of it with that error.
  pub report-FirstFailure :
      (xs : List A) (s : Run S E C A) (e : FsmError) (w : World C)
      (first : FirstFailure xs s.world e w)
      → execute_or_report failure_event xs s
        ≡ (do
          failure_actions ← handle (failure_event e)
          run_actions failure_actions
          execute_or_report failure_event first.after)
            (record s { world = w })
  unfolding execute_or_report
  report-FirstFailure xs s e w first = rw first.split (
      succeeding first.before (first.action ∷ first.after) s first.reached first.succeeded
      ∙ rw first.failed (reporting e first.after (record s { world = w })))
