-- ===== src/Machine/Apply.antt =====
-- `apply_transition` against the rules of a transition: one rule for each way that it can end.
use obzenflow_fsm.Prelude.{
  none, List, [], ◌++◌, ◌≡◌, refl, subst, ◌↔◌, inl, inr, arith, string_equality,
}
use obzenflow_fsm.HashMap
use obzenflow_fsm.Error.{FsmError}
use obzenflow_fsm.Exec.{FsmResult, ok, err, FsmResult-cases}
use obzenflow_fsm.Types.{Transition, StateVariant, World}
use obzenflow_fsm.Machine.{Run, deadline, run_hook, apply_transition}

module _ {S E C A : Type 0} ⦃sv : StateVariant S⦄ where
  -- The exit handler of the old state runs in the old state, then the state changes, then the
  -- entry handler of the new state runs in the new state, then the timer is set from the clock.
  pub data Applies (t : Transition S A) (s : Run S E C A) (r : FsmResult (List A)) (u : Run S E C A)
      : Type 0 where
    exit_failed :
        (e : FsmError) (w : World C)
        → run_hook
            (HashMap.get s.exit_handlers (sv.variant_name s.current_state))
            s.current_state
            s.world
          ≡ (err e, w)
        → r ≡ err e
        → u ≡ record s { world = w }
        → Applies t s r u
    entry_failed :
        (xs : List A) (w : World C) (e : FsmError) (w' : World C)
        → run_hook
            (HashMap.get s.exit_handlers (sv.variant_name s.current_state))
            s.current_state
            s.world
          ≡ (ok xs, w)
        → run_hook (HashMap.get s.entry_handlers (sv.variant_name t.next_state)) t.next_state w
          ≡ (err e, w')
        → r ≡ err e
        → u ≡ record { machine = record s.machine { current_state = t.next_state }; world = w' }
        → Applies t s r u
    applied :
        (xs : List A) (w : World C) (ys : List A) (w' : World C)
        → run_hook
            (HashMap.get s.exit_handlers (sv.variant_name s.current_state))
            s.current_state
            s.world
          ≡ (ok xs, w)
        → run_hook (HashMap.get s.entry_handlers (sv.variant_name t.next_state)) t.next_state w
          ≡ (ok ys, w')
        → r ≡ ok ((xs ++ ys) ++ t.actions)
        → u ≡ record {
          machine = record s.machine {
            current_state = t.next_state;
            state_timeout =
                deadline (HashMap.get s.timeout_handlers (sv.variant_name t.next_state)) w'.clock;
          };
          world = w';
        }
        → Applies t s r u

  pub apply_transition-Applies :
      (t : Transition S A) (s : Run S E C A)
      → Applies t s (apply_transition t s).0 (apply_transition t s).1
  unfolding apply_transition
  apply_transition-Applies t s =
      let h = HashMap.get s.exit_handlers (sv.variant_name s.current_state) in
      let (q, w) = run_hook h s.current_state s.world in
      let g = HashMap.get s.entry_handlers (sv.variant_name t.next_state) in
      let (q', w') = run_hook g t.next_state w in
      elim (FsmResult-cases q) [
        | inr (e, p) ↦ rw p (exit_failed e w (ground arith) refl refl)
        | inl (xs, p) ↦ rw p (elim (FsmResult-cases q') [
          | inr (e, p') ↦ rw p' (entry_failed xs w e w' (ground arith) (ground arith) refl refl)
          | inl (ys, p') ↦ rw p' (applied xs w ys w' (ground arith) (ground arith) refl refl)
        ])
      ]

  Applies-apply_transition :
      (t : Transition S A) (s : Run S E C A) (r : FsmResult (List A)) (u : Run S E C A)
      → Applies t s r u
      → apply_transition t s ≡ (r, u)
  unfolding apply_transition
  Applies-apply_transition t s r u (exit_failed e w p er eu) = rw (er, eu, p)
  Applies-apply_transition t s r u (entry_failed xs w e w' p p' er eu) = rw (er, eu, p, p')
  Applies-apply_transition t s r u (applied xs w ys w' p p' er eu) = rw (er, eu, p, p')

  -- `apply_transition` ends with a result and a state exactly when the rules of a transition
  -- derive them: from every state and for every transition, whatever the handlers do.
  pub apply_transition_iff :
      (t : Transition S A) (s : Run S E C A) (r : FsmResult (List A)) (u : Run S E C A)
      → (apply_transition t s ≡ (r, u)) ↔ Applies t s r u
  apply_transition_iff t s r u = (
    λ e. subst (λ x. Applies t s x.0 x.1) e (apply_transition-Applies t s),
    Applies-apply_transition t s r u,
  )

  -- Between states with no hooks, a transition returns its own actions, and sets the state and the
  -- timer.
  pub apply_transition_bare :
      (t : Transition S A) (s : Run S E C A)
      → HashMap.get s.exit_handlers (sv.variant_name s.current_state) ≡ none
      → HashMap.get s.entry_handlers (sv.variant_name t.next_state) ≡ none
      → apply_transition t s ≡ (
        ok t.actions,
        record s {
          machine = record s.machine {
            current_state = t.next_state;
            state_timeout =
                deadline (HashMap.get s.timeout_handlers (sv.variant_name t.next_state)) s.clock;
          };
        },
      )
  unfolding run_hook
  apply_transition_bare t s exit entry =
      Applies-apply_transition t s _ _
        (applied [] s.world [] s.world (rw exit refl) (rw entry refl) refl refl)
