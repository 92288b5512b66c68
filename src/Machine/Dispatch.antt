-- ===== src/Machine/Dispatch.antt =====
-- `handle` against the rules of dispatch.
use obzenflow_fsm.Prelude.{
  Option, none, some, List, [], ◌≡◌, refl, subst, ◌↔◌, ◌⊎◌, inl, inr, arith, string_equality,
  pair_equality, Option-cases,
}
use obzenflow_fsm.HashMap
use obzenflow_fsm.Error.{FsmError, unhandled_event}
use obzenflow_fsm.Exec.{FsmResult, ok, err, FsmResult-cases}
use obzenflow_fsm.Types.{
  Transition, StateVariant, EventVariant, World, TransitionHandler, UnhandledHandler,
}
use obzenflow_fsm.Machine.{Run, handle, fire_event, unhandled, on_wildcard, on_exact}
use obzenflow_fsm.Machine.Apply.{Applies, apply_transition_iff}

module _ {S E C A : Type 0} ⦃sv : StateVariant S⦄ ⦃ev : EventVariant E⦄ where
  -- The handler of the state and the event, or else that of any state and the event.
  abbrev pub Picks : Run S E C A → E → TransitionHandler S E C A → Type 0
  Picks s event handler =
      let name = ev.variant_name event in
      let exact = HashMap.get s.transitions (sv.variant_name s.current_state, name) in
      (exact ≡ some handler)
      ⊎ ((exact ≡ none) × (HashMap.get s.transitions ("_", name) ≡ some handler))

  abbrev pub PicksNone : Run S E C A → E → Type 0
  PicksNone s event =
      let name = ev.variant_name event in
      (HashMap.get s.transitions (sv.variant_name s.current_state, name) ≡ none)
      × (HashMap.get s.transitions ("_", name) ≡ none)

  pub data Handles (event : E) (s : Run S E C A) (r : FsmResult (List A)) (u : Run S E C A)
      : Type 0 where
    handler_failed :
        (handler : TransitionHandler S E C A) (e : FsmError) (w : World C)
        → Picks s event handler
        → handler s.current_state event s.world ≡ (err e, w)
        → r ≡ err e
        → u ≡ record s { world = w }
        → Handles event s r u
    moved :
        (handler : TransitionHandler S E C A) (t : Transition S A) (w : World C)
        → Picks s event handler
        → handler s.current_state event s.world ≡ (ok t, w)
        → Applies t (record s { world = w }) r u
        → Handles event s r u
    hook_failed :
        (handler : UnhandledHandler S E C) (e : FsmError) (w : World C)
        → PicksNone s event
        → s.unhandled_handler ≡ some handler
        → handler s.current_state event s.world ≡ (err e, w)
        → r ≡ err e
        → u ≡ record s { world = w }
        → Handles event s r u
    hooked :
        (handler : UnhandledHandler S E C) (w : World C)
        → PicksNone s event
        → s.unhandled_handler ≡ some handler
        → handler s.current_state event s.world ≡ (ok tt, w)
        → r ≡ ok []
        → u ≡ record s { world = w }
        → Handles event s r u
    rejected :
        PicksNone s event
        → s.unhandled_handler ≡ none
        → r ≡ err (unhandled_event (sv.variant_name s.current_state) (ev.variant_name event))
        → u ≡ s
        → Handles event s r u

  fire_event-Handles :
      (handler : TransitionHandler S E C A) (event : E) (s : Run S E C A)
      → Picks s event handler
      → Handles event s (fire_event handler event s).0 (fire_event handler event s).1
  unfolding fire_event
  fire_event-Handles handler event s h =
      let (q, w) = handler s.current_state event s.world in
      elim (FsmResult-cases q) [
        | inr (e, p) ↦ rw p (handler_failed handler e w h (ground arith) refl refl)
        | inl (t, p) ↦
            rw p (moved handler t w h (ground arith) ((apply_transition_iff t _ _ _).0 refl))
      ]

  unhandled-Handles :
      (o : Option (UnhandledHandler S E C)) (event : E) (s : Run S E C A)
      → PicksNone s event
      → s.unhandled_handler ≡ o
      → Handles event s (unhandled o event s).0 (unhandled o event s).1
  unfolding unhandled
  unhandled-Handles none event s h p = rejected h p refl refl
  unhandled-Handles (some handler) event s h p =
      let (q, w) = handler s.current_state event s.world in
      elim (FsmResult-cases q) [
        | inr (e, p') ↦ rw p' (hook_failed handler e w h p (ground arith) refl refl)
        | inl (x, p') ↦ rw p' (hooked handler w h p (ground arith) refl refl)
      ]

  handle-Handles :
      (event : E) (s : Run S E C A) → Handles event s (handle event s).0 (handle event s).1
  unfolding handle on_exact on_wildcard
  handle-Handles event s =
      let name = ev.variant_name event in
      elim (Option-cases (HashMap.get s.transitions (sv.variant_name s.current_state, name))) [
        | inr (h, p) ↦ rw p (fire_event-Handles h event s (inl p))
        | inl p ↦ rw p (elim (Option-cases (HashMap.get s.transitions ("_", name))) [
          | inr (h, p') ↦ rw p' (fire_event-Handles h event s (inr (p, p')))
          | inl p' ↦ rw p' (unhandled-Handles s.unhandled_handler event s (p, p') refl)
        ])
      ]

  pub fire_of_Picks :
      (event : E) (s : Run S E C A) (handler : TransitionHandler S E C A)
      → Picks s event handler
      → handle event s ≡ fire_event handler event s
  unfolding handle on_exact on_wildcard
  fire_of_Picks event s handler (inl p) = rw p
  fire_of_Picks event s handler (inr (p, p')) = rw (p, p')

  pub unhandled_of_PicksNone :
      (event : E) (s : Run S E C A) (o : Option (UnhandledHandler S E C))
      → PicksNone s event
      → s.unhandled_handler ≡ o
      → handle event s ≡ unhandled o event s
  unfolding handle on_exact on_wildcard
  unhandled_of_PicksNone event s o h p =
      subst (λ x. handle event s ≡ unhandled x event s) p (rw (h.0, h.1))

  Handles-handle :
      (event : E) (s : Run S E C A) (r : FsmResult (List A)) (u : Run S E C A)
      → Handles event s r u
      → handle event s ≡ (r, u)
  unfolding fire_event unhandled
  Handles-handle event s r u (handler_failed handler e w h p er eu) =
      rw (fire_of_Picks event s handler h, er, eu, p)
  Handles-handle event s r u (moved handler t w h p a) =
      rw (fire_of_Picks event s handler h, p) ((apply_transition_iff t _ r u).1 a)
  Handles-handle event s r u (hook_failed handler e w h o p er eu) =
      rw (unhandled_of_PicksNone event s (some handler) h o, er, eu, p)
  Handles-handle event s r u (hooked handler w h o p er eu) =
      rw (unhandled_of_PicksNone event s (some handler) h o, er, eu, p)
  Handles-handle event s r u (rejected h o er eu) =
      rw (unhandled_of_PicksNone event s none h o, er, eu)

  -- `handle` ends with a result and a state exactly when the rules of dispatch derive them: the
  -- exact handler first, then the wildcard's, then the hook for unhandled events, then the error.
  pub handle_iff :
      (event : E) (s : Run S E C A) (r : FsmResult (List A)) (u : Run S E C A)
      → (handle event s ≡ (r, u)) ↔ Handles event s r u
  handle_iff event s r u = (
    λ e. subst (λ x. Handles event s x.0 x.1) e (handle-Handles event s),
    Handles-handle event s r u,
  )
