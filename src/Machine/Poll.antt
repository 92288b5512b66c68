-- ===== src/Machine/Poll.antt =====
-- `check_timeout` against the rules of a poll.
use obzenflow_fsm.Prelude.{
  ℕ, ◌≤◌, ◌<◌, Option, none, some, List, [], ◌≡◌, refl, sym, subst, ◌↔◌, ◌⊎◌, inl, inr, arith,
  string_equality, leb, Option-cases, Bool-cases,
}
use obzenflow_fsm.HashMap
use obzenflow_fsm.Error.{FsmError}
use obzenflow_fsm.Exec.{FsmResult, ok, err, FsmResult-cases}
use obzenflow_fsm.Types.{Transition, StateVariant, World, TimeoutHandler}
use obzenflow_fsm.Machine.{Run, check_timeout, fire, poll}
use obzenflow_fsm.Machine.Apply.{Applies, apply_transition_iff}

module _ {S E C A : Type 0} ⦃sv : StateVariant S⦄ where
  -- The deadline has come, and the current state has a timeout handler.
  abbrev pub Elapsed : Run S E C A → TimeoutHandler S C A → Type 0
  Elapsed s handler =
      ((instant : ℕ) × (s.state_timeout ≡ some instant) × (instant ≤ s.clock))
      × ((duration : ℕ) × (HashMap.get s.timeout_handlers (sv.variant_name s.current_state)
            ≡ some (duration, handler)))

  abbrev pub Pending : Run S E C A → Type 0
  Pending s =
      (s.state_timeout ≡ none)
      ⊎ ((instant : ℕ) × (s.state_timeout ≡ some instant) × (s.clock < instant))
      ⊎ (HashMap.get s.timeout_handlers (sv.variant_name s.current_state) ≡ none)

  pub data Polls (s : Run S E C A) (r : FsmResult (List A)) (u : Run S E C A) : Type 0 where
    idle : Pending s → r ≡ ok [] → u ≡ s → Polls s r u
    handler_failed :
        (handler : TimeoutHandler S C A) (e : FsmError) (w : World C)
        → Elapsed s handler
        → handler s.current_state s.world ≡ (err e, w)
        → r ≡ err e
        → u ≡ record s { world = w }
        → Polls s r u
    moved :
        (handler : TimeoutHandler S C A) (t : Transition S A) (w : World C)
        → Elapsed s handler
        → handler s.current_state s.world ≡ (ok t, w)
        → Applies t (record s { world = w }) r u
        → Polls s r u

  fire-Polls :
      (d : ℕ) (handler : TimeoutHandler S C A) (s : Run S E C A)
      → Elapsed s handler
      → Polls s (fire (some (d, handler)) s).0 (fire (some (d, handler)) s).1
  unfolding fire
  fire-Polls d handler s h =
      let (q, w) = handler s.current_state s.world in
      elim (FsmResult-cases q) [
        | inr (e, p) ↦ rw p (handler_failed handler e w h (ground arith) refl refl)
        | inl (t, p) ↦
            rw p (moved handler t w h (ground arith) ((apply_transition_iff t _ _ _).0 refl))
      ]

  poll-Polls :
      (i : ℕ) (s : Run S E C A)
      → s.state_timeout ≡ some i
      → Polls s (poll (some i) s).0 (poll (some i) s).1
  unfolding poll fire
  poll-Polls i s h = elim (Bool-cases (leb i s.clock)) [
    | inr late ↦ rw late (idle (inr (inl (i, h, ground arith))) refl refl)
    | inl due ↦
        rw due
          (elim (Option-cases (HashMap.get s.timeout_handlers (sv.variant_name s.current_state))) [
            | inl p ↦ rw p (idle (inr (inr p)) refl refl)
            | inr (dh, p) ↦ rw p (fire-Polls dh.0 dh.1 s ((i, h, ground arith), (dh.0, p)))
          ])
  ]

  check_timeout-Polls : (s : Run S E C A) → Polls s (check_timeout s).0 (check_timeout s).1
  unfolding check_timeout
  check_timeout-Polls s =
      let step = λ (o : Option ℕ). Polls s (poll o s).0 (poll o s).1 in
      elim (Option-cases s.state_timeout) [
        | inl p ↦ subst step (sym p) (unfold poll in idle (inl p) refl refl)
        | inr (i, p) ↦ subst step (sym p) (poll-Polls i s p)
      ]

  pub fire_of_Elapsed :
      (s : Run S E C A) (handler : TimeoutHandler S C A) (h : Elapsed s handler)
      → check_timeout s ≡ fire (some (h.1.0, handler)) s
  unfolding check_timeout poll
  fire_of_Elapsed s handler ((i, p, due), (d, q)) =
      subst (λ o. poll o s ≡ fire (some (d, handler)) s) (sym p) (rw q (ground arith))

  pub idle_of_Pending : (s : Run S E C A) → Pending s → check_timeout s ≡ (ok [], s)
  unfolding check_timeout poll fire
  idle_of_Pending s (inl p) = subst (λ o. poll o s ≡ (ok [], s)) (sym p) refl
  idle_of_Pending s (inr (inl (i, p, early))) =
      subst (λ o. poll o s ≡ (ok [], s)) (sym p) (ground arith)
  idle_of_Pending s (inr (inr q)) = elim (Option-cases s.state_timeout) [
    | inl p ↦ subst (λ o. poll o s ≡ (ok [], s)) (sym p) refl
    | inr (i, p) ↦ subst (λ o. poll o s ≡ (ok [], s)) (sym p) (rw q (ground arith))
  ]

  Polls-check_timeout :
      (s : Run S E C A) (r : FsmResult (List A)) (u : Run S E C A)
      → Polls s r u
      → check_timeout s ≡ (r, u)
  unfolding fire
  Polls-check_timeout s r u (idle h er eu) = rw (er, eu) (idle_of_Pending s h)
  Polls-check_timeout s r u (handler_failed handler e w h p er eu) =
      rw (fire_of_Elapsed s handler h, er, eu, p)
  Polls-check_timeout s r u (moved handler t w h p a) =
      rw (fire_of_Elapsed s handler h, p) ((apply_transition_iff t _ r u).1 a)

  -- `check_timeout` ends with a result and a state exactly when the rules of a poll derive them:
  -- it is idle with no deadline, before the deadline, or in a state with no timeout handler, and
  -- otherwise runs the current state's timeout handler and its transition.
  pub check_timeout_iff :
      (s : Run S E C A) (r : FsmResult (List A)) (u : Run S E C A)
      → (check_timeout s ≡ (r, u)) ↔ Polls s r u
  check_timeout_iff s r u =
      (λ e. subst (λ x. Polls s x.0 x.1) e (check_timeout-Polls s), Polls-check_timeout s r u)

  -- A timeout handler runs in the current state, with its error or the transition that it leads to.
  pub data TimesOut (handler : TimeoutHandler S C A) (s : Run S E C A) (r : FsmResult (List A))
      (u : Run S E C A) : Type 0 where
    failing :
        (e : FsmError) (w : World C)
        → handler s.current_state s.world ≡ (err e, w)
        → r ≡ err e
        → u ≡ record s { world = w }
        → TimesOut handler s r u
    moving :
        (t : Transition S A) (w : World C)
        → handler s.current_state s.world ≡ (ok t, w)
        → Applies t (record s { world = w }) r u
        → TimesOut handler s r u

  -- A poll of a machine whose deadline has come runs its timeout handler.
  pub check_timeout-TimesOut :
      (s : Run S E C A) (handler : TimeoutHandler S C A)
      → Elapsed s handler
      → TimesOut handler s (check_timeout s).0 (check_timeout s).1
  unfolding fire
  check_timeout-TimesOut s handler h =
      let (q, w) = handler s.current_state s.world in
      subst (λ x. TimesOut handler s x.0 x.1) (sym (fire_of_Elapsed s handler h))
        (elim (FsmResult-cases q) [
          | inr (e, p) ↦ rw p (failing e w (ground arith) refl refl)
          | inl (t, p) ↦ rw p (moving t w (ground arith) ((apply_transition_iff t _ _ _).0 refl))
        ])
