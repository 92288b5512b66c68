-- ===== src/Machine/Failures.antt =====
-- What an error leaves behind.
use obzenflow_fsm.Prelude.{
  ℕ, Option, none, some, List, [], ◌≡◌, refl, sym, ap, subst, ◌∙◌, ◌⊎◌, inl, inr, leb,
  if◌then◌else◌, arith, string_equality,
}
use obzenflow_fsm.HashMap
use obzenflow_fsm.Error.{FsmError}
use obzenflow_fsm.Exec.{FsmResult, ok, err}
use obzenflow_fsm.Types.{
  Transition, StateVariant, EventVariant, World, TransitionHandler, TimeoutHandler,
}
use obzenflow_fsm.Machine.{
  StateMachine, Run, run_hook, state_name, handle, check_timeout, poll, fire,
}
use obzenflow_fsm.Machine.Apply.{Applies, exit_failed, entry_failed, applied}
use obzenflow_fsm.Machine.Dispatch
use obzenflow_fsm.Machine.Dispatch.{Handles, Picks, handle_iff}
use obzenflow_fsm.Machine.Poll
use obzenflow_fsm.Machine.Poll.{Polls, Elapsed, check_timeout_iff}

module _ {S E C A : Type 0} ⦃sv : StateVariant S⦄ where
  -- The entry handler of the state that `t` leads to returned `e`, and the machine is in that
  -- state with all else as it was in `m`, the deadline included.
  abbrev pub EntryFailed : StateMachine S E C A → Transition S A → FsmError → Run S E C A → Type 0
  EntryFailed m t e u =
      ((w : World C) × (run_hook (HashMap.get m.entry_handlers (sv.variant_name t.next_state))
            t.next_state w
          ≡ (err e, u.world)))
      × (u.machine ≡ record m { current_state = t.next_state })

  Applies-error :
      (t : Transition S A) {s : Run S E C A} {r : FsmResult (List A)} {u : Run S E C A}
      {e : FsmError}
      → Applies t s r u
      → r ≡ err e
      → (u.machine ≡ s.machine) ⊎ EntryFailed s.machine t e u
  Applies-error t (exit_failed e w p er eu) q = inl (ap (λ x. x.machine) eu)
  Applies-error t {s} {u = u} {e = d} (entry_failed xs w e w' p p' er eu) q =
      inr ((w, cc (ap (λ (x : Run S E C A). x.world) eu)), ap (λ x. x.machine) eu)
  Applies-error t (applied xs w ys w' p p' er eu) q = cc

  -- An event that ends in an error leaves the machine as it was, but for one case: the entry
  -- handler of the state that the transition leads to returned that error, and the machine is in
  -- that state with all else as before, the deadline included.
  pub handle_error :
      ⦃ev : EventVariant E⦄ (event : E) (s u : Run S E C A) (e : FsmError)
      → handle event s ≡ (err e, u)
      → (u.machine ≡ s.machine)
        ⊎ ((handler : TransitionHandler S E C A) × (t : Transition S A) × (w : World C) × Picks s
              event handler
            × (handler s.current_state event s.world ≡ (ok t, w))
            × EntryFailed s.machine t e u)
  handle_error event s u e h = go ((handle_iff event s (err e) u).0 h) refl
    where
      go :
          {r : FsmResult (List A)}
          → Handles event s r u
          → r ≡ err e
          → (u.machine ≡ s.machine)
            ⊎ ((handler : TransitionHandler S E C A) × (t : Transition S A) × (w : World C) × Picks
                  s event handler
                × (handler s.current_state event s.world ≡ (ok t, w))
                × EntryFailed s.machine t e u)
      go (Dispatch.handler_failed handler d w h p er eu) q = inl (ap (λ x. x.machine) eu)
      go (Dispatch.moved handler t w h p a) q = elim (Applies-error t a q) [
        | inl same ↦ inl same
        | inr failed ↦ inr (handler, t, w, h, p, failed)
      ]
      go (Dispatch.hook_failed handler d w h o p er eu) q = inl (ap (λ x. x.machine) eu)
      go (Dispatch.hooked handler w h o p er eu) q = cc
      go (Dispatch.rejected h o er eu) q = inl (ap (λ x. x.machine) eu)

  -- A poll that ends in an error leaves the machine as it was, its deadline included, so that the
  -- next poll is due again, but for one case: the entry handler of the state that the
  -- timeout's transition leads to returned that error, and the machine is in that state with all
  -- else as before.
  pub check_timeout_error :
      (s u : Run S E C A) (e : FsmError)
      → check_timeout s ≡ (err e, u)
      → (u.machine ≡ s.machine)
        ⊎ ((handler : TimeoutHandler S C A) × (t : Transition S A) × (w : World C) × Elapsed s
              handler
            × (handler s.current_state s.world ≡ (ok t, w))
            × EntryFailed s.machine t e u)
  check_timeout_error s u e h = go ((check_timeout_iff s (err e) u).0 h) refl
    where
      go :
          {r : FsmResult (List A)}
          → Polls s r u
          → r ≡ err e
          → (u.machine ≡ s.machine)
            ⊎ ((handler : TimeoutHandler S C A) × (t : Transition S A) × (w : World C) × Elapsed s
                  handler
                × (handler s.current_state s.world ≡ (ok t, w))
                × EntryFailed s.machine t e u)
      go (Poll.idle h er eu) q = cc
      go (Poll.handler_failed handler d w h p er eu) q = inl (ap (λ x. x.machine) eu)
      go (Poll.moved handler t w h p a) q = elim (Applies-error t a q) [
        | inl same ↦ inl same
        | inr failed ↦ inr (handler, t, w, h, p, failed)
      ]

  -- What a poll does of a machine with this deadline, if it has one, and with this timeout of its
  -- current state, if that has one.
  abbrev pub polled_by :
      Option ℕ → Option (ℕ × TimeoutHandler S C A) → Run S E C A → FsmResult (List A) × Run S E C A
  polled_by none timeout v = (ok [], v)
  polled_by (some i) timeout v = if leb i v.clock then fire timeout v else (ok [], v)

  pub poll-polled_by :
      (o : Option ℕ) (v : Run S E C A)
      → poll o v ≡ polled_by o (HashMap.get v.timeout_handlers (sv.variant_name v.current_state)) v
  unfolding poll state_name
  poll-polled_by none v = refl
  poll-polled_by (some i) v = ground arith

  -- After the error of an entry handler: the machine is in the new state, with the deadline of the
  -- old one. A poll at any later time is idle if the old state had no deadline, though the new
  -- state may have a timeout. Otherwise it runs the timeout handler of the new state, if that has
  -- one, once the old deadline has come, whatever the new state's duration.
  pub entry_failure-timer :
      ⦃ev : EventVariant E⦄ (event : E) (s : Run S E C A) (handler : TransitionHandler S E C A)
      (t : Transition S A) (w : World C) (xs : List A) (v : World C) (e : FsmError) (v' : World C)
      (later : World C)
      → Picks s event handler
      → handler s.current_state event s.world ≡ (ok t, w)
      → run_hook (HashMap.get s.exit_handlers (sv.variant_name s.current_state)) s.current_state w
        ≡ (ok xs, v)
      → run_hook (HashMap.get s.entry_handlers (sv.variant_name t.next_state)) t.next_state v
        ≡ (err e, v')
      → let u = record (handle event s).1 { world = later } in
        ((handle event s).0 ≡ err e)
        × (u.current_state ≡ t.next_state)
        × (check_timeout u
            ≡ polled_by s.state_timeout
                (HashMap.get s.timeout_handlers (sv.variant_name t.next_state))
                u)
  unfolding check_timeout
  entry_failure-timer event s handler t w xs v e v' later h p exits enters =
      let u : Run S E C A = record {
        machine = record s.machine { current_state = t.next_state };
        world = v';
      } in
      let done : handle event s ≡ (err e, u) =
        (handle_iff event s (err e) u).1
          (Dispatch.moved handler t w h p (entry_failed xs v e v' exits enters refl refl)) in
      subst
        (λ (x : FsmResult (List A) × Run S E C A).
          (x.0 ≡ err e)
          × (x.1.current_state ≡ t.next_state)
          × (check_timeout (record x.1 { world = later })
              ≡ polled_by s.state_timeout
                  (HashMap.get s.timeout_handlers (sv.variant_name t.next_state))
                  (record x.1 { world = later })))
        (sym done) (refl, refl, poll-polled_by s.state_timeout (record u { world = later }))

  -- In a machine that had no deadline, no poll after such an error runs a timeout handler.
  entry_failure-no_timer :
      ⦃ev : EventVariant E⦄ (event : E) (s : Run S E C A) (handler : TransitionHandler S E C A)
      (t : Transition S A) (w : World C) (xs : List A) (v : World C) (e : FsmError) (v' : World C)
      → Picks s event handler
      → handler s.current_state event s.world ≡ (ok t, w)
      → run_hook (HashMap.get s.exit_handlers (sv.variant_name s.current_state)) s.current_state w
        ≡ (ok xs, v)
      → run_hook (HashMap.get s.entry_handlers (sv.variant_name t.next_state)) t.next_state v
        ≡ (err e, v')
      → s.state_timeout ≡ none
      → (later : World C)
      → let u = record (handle event s).1 { world = later } in check_timeout u ≡ (ok [], u)
  entry_failure-no_timer event s handler t w xs v e v' h p exits enters off later =
      let u = record (handle event s).1 { world = later } in
      (entry_failure-timer event s handler t w xs v e v' later h p exits enters).2
      ∙ ap (λ o. polled_by o (HashMap.get s.timeout_handlers (sv.variant_name t.next_state)) u) off
