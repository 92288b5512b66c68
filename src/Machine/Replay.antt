-- ===== src/Machine/Replay.antt =====
-- Replay: runs of the same events in different worlds.
use obzenflow_fsm.Prelude.{
  ℕ, suc, String, Option, none, some, List, [], ◌∷◌, ◌≡◌, refl, ap, subst, ◌∙◌, inl, inr,
  string_equality, pair_equality,
}
use obzenflow_fsm.HashMap
use obzenflow_fsm.Exec.{Exec, FsmResult, ok, err}
use obzenflow_fsm.Types.{
  Transition, StateVariant, EventVariant, World, TransitionHandler, StateHandler, UnhandledHandler,
}
use obzenflow_fsm.Machine.{StateMachine, Run, run_hook, apply_transition, handle}
use obzenflow_fsm.Machine.Apply.{Applies, exit_failed, entry_failed, applied, apply_transition_iff}
use obzenflow_fsm.Machine.Dispatch.{Handles, Picks, PicksNone, handle_iff}
use obzenflow_fsm.Machine.Dispatch
use obzenflow_fsm.Machine.Tables.{tables, tables-handle}

-- The result of a handler does not depend on the world.
abbrev pub IsPure : {M B : Type 0} → Exec M B → Type 0
IsPure {M} m = (v w : M) → (m v).0 ≡ (m w).0

IsPure-run_hook :
    {S C A : Type 0} (o : Option (StateHandler S C A)) (s : S)
    → ((h : StateHandler S C A) → o ≡ some h → IsPure (h s))
    → IsPure (run_hook o s)
unfolding run_hook
IsPure-run_hook none s good v w = refl
IsPure-run_hook (some h) s good v w = good h refl v w

-- A pure handler's result in one world, carried to another.
carried :
    {C B : Type 0} (m : Exec (World C) B) (v w v' : World C) (r : FsmResult B)
    → IsPure m
    → m v ≡ (r, v')
    → m w ≡ (r, (m w).1)
carried m v w v' r good h = λ i. ((good w v ∙ ap (λ x. x.0) h) i, (m w).1)

module _ {S E C A : Type 0} where
  pub record HasPureHandlers (m : StateMachine S E C A) : Type 0 where
    pub transitions :
        (k : String × String) (h : TransitionHandler S E C A)
        → HashMap.get m.transitions k ≡ some h
        → (s : S) (e : E) → IsPure (h s e)
    pub entries :
        (n : String) (h : StateHandler S C A)
        → HashMap.get m.entry_handlers n ≡ some h
        → (s : S) → IsPure (h s)
    pub exits :
        (n : String) (h : StateHandler S C A)
        → HashMap.get m.exit_handlers n ≡ some h
        → (s : S) → IsPure (h s)
    pub unhandled :
        (h : UnhandledHandler S E C)
        → m.unhandled_handler ≡ some h
        → (s : S) (e : E) → IsPure (h s e)

  -- The same machine at another time and in another world: its timer may differ.
  abbrev pub elsewhere : Run S E C A → Option ℕ → World C → Run S E C A
  elsewhere s timer w = record { machine = record s.machine { state_timeout = timer }; world = w }

  -- Two runs that ended alike, but for the timer and the world.
  abbrev pub Alike : FsmResult (List A) × Run S E C A → FsmResult (List A) × Run S E C A → Type 0
  Alike x y = (x.0 ≡ y.0) × ((timer : Option ℕ) × (w : World C) × (x.1 ≡ elsewhere y.1 timer w))

module _ {S E C A : Type 0} ⦃sv : StateVariant S⦄ where
  abbrev exit_hook : Run S E C A → Exec (World C) (List A)
  exit_hook s =
      run_hook (HashMap.get s.exit_handlers (sv.variant_name s.current_state)) s.current_state

  abbrev entry_hook : Run S E C A → Transition S A → Exec (World C) (List A)
  entry_hook s t =
      run_hook (HashMap.get s.entry_handlers (sv.variant_name t.next_state)) t.next_state

  exit_pure : (s : Run S E C A) → HasPureHandlers s.machine → IsPure (exit_hook s)
  exit_pure s good = IsPure-run_hook _ s.current_state (λ h e. good.exits _ h e s.current_state)

  entry_pure :
      (s : Run S E C A) (t : Transition S A) → HasPureHandlers s.machine → IsPure (entry_hook s t)
  entry_pure s t good = IsPure-run_hook _ t.next_state (λ h e. good.entries _ h e t.next_state)

  Applies-Alike :
      (t : Transition S A) (s : Run S E C A) (timer : Option ℕ) (w : World C)
      (r : FsmResult (List A)) (u : Run S E C A)
      → HasPureHandlers s.machine
      → Applies t s r u
      → Alike (apply_transition t (elsewhere s timer w)) (r, u)
  Applies-Alike t s timer w r u good (exit_failed e v p er eu) =
      let exit = exit_hook s in
      let q = carried exit s.world w v (err e) (exit_pure s good) p in
      let s' = elsewhere s timer w in
      rw (er, eu, (apply_transition_iff t s' _ _).1 (exit_failed e (exit w).1 q refl refl))
        (refl, (timer, (exit w).1, refl))
  Applies-Alike t s timer w r u good (entry_failed xs v e v' p p' er eu) =
      let exit = exit_hook s in
      let q = carried exit s.world w v (ok xs) (exit_pure s good) p in
      let entry = entry_hook s t in
      let w' = (exit w).1 in
      let q' = carried entry v w' v' (err e) (entry_pure s t good) p' in
      let s' = elsewhere s timer w in
      rw
        (
          er,
          eu,
          (apply_transition_iff t s' _ _).1 (entry_failed xs w' e (entry w').1 q q' refl refl),
        )
        (refl, (timer, (entry w').1, refl))
  Applies-Alike t s timer w r u good (applied xs v ys v' p p' er eu) =
      let exit = exit_hook s in
      let q = carried exit s.world w v (ok xs) (exit_pure s good) p in
      let entry = entry_hook s t in
      let w' = (exit w).1 in
      let q' = carried entry v w' v' (ok ys) (entry_pure s t good) p' in
      let s' = elsewhere s timer w in
      rw (er, eu, (apply_transition_iff t s' _ _).1 (applied xs w' ys (entry w').1 q q' refl refl))
        (refl, (_, (entry w').1, refl))

module _ {S E C A : Type 0} ⦃sv : StateVariant S⦄ ⦃ev : EventVariant E⦄ where
  Picks-pure :
      (event : E) (s : Run S E C A) (h : TransitionHandler S E C A)
      → HasPureHandlers s.machine
      → Picks s event h
      → IsPure (h s.current_state event)
  Picks-pure event s h good (inl p) = good.transitions _ h p s.current_state event
  Picks-pure event s h good (inr (_, p)) = good.transitions _ h p s.current_state event

  Handles-Alike :
      (event : E) (s : Run S E C A) (timer : Option ℕ) (w : World C) (r : FsmResult (List A))
      (u : Run S E C A)
      → HasPureHandlers s.machine
      → Handles event s r u
      → Alike (handle event (elsewhere s timer w)) (r, u)
  Handles-Alike event s timer w r u good (Dispatch.handler_failed h e v picks p er eu) =
      let m = h s.current_state event in
      let q = carried m s.world w v (err e) (Picks-pure event s h good picks) p in
      rw
        (
          er,
          eu,
          (handle_iff event (elsewhere s timer w) _ _).1
              (Dispatch.handler_failed h e (m w).1 picks q refl refl),
        )
        (refl, (timer, (m w).1, refl))
  Handles-Alike event s timer w r u good (Dispatch.moved h t v picks p a) =
      let m = h s.current_state event in
      let q = carried m s.world w v (ok t) (Picks-pure event s h good picks) p in
      let after = elsewhere s timer (m w).1 in
      rw
        ((handle_iff event (elsewhere s timer w) _ _).1
          (Dispatch.moved h t (m w).1 picks q ((apply_transition_iff t after _ _).0 refl)))
        (Applies-Alike t (record s { world = v }) timer (m w).1 r u good a)
  Handles-Alike event s timer w r u good (Dispatch.hook_failed h e v none_ o p er eu) =
      let m = h s.current_state event in
      let q = carried m s.world w v (err e) (good.unhandled h o s.current_state event) p in
      rw
        (
          er,
          eu,
          (handle_iff event (elsewhere s timer w) _ _).1
              (Dispatch.hook_failed h e (m w).1 none_ o q refl refl),
        )
        (refl, (timer, (m w).1, refl))
  Handles-Alike event s timer w r u good (Dispatch.hooked h v none_ o p er eu) =
      let m = h s.current_state event in
      let q = carried m s.world w v (ok tt) (good.unhandled h o s.current_state event) p in
      rw
        (
          er,
          eu,
          (handle_iff event (elsewhere s timer w) _ _).1
              (Dispatch.hooked h (m w).1 none_ o q refl refl),
        )
        (refl, (timer, (m w).1, refl))
  Handles-Alike event s timer w r u good (Dispatch.rejected none_ o er eu) =
      rw
        (
          er,
          eu,
          (handle_iff event (elsewhere s timer w) _ _).1 (Dispatch.rejected none_ o refl refl),
        )
        (refl, (timer, w, refl))

  -- A sequence of events. `host n` is the world that the host leaves before the event at index n.
  unfoldable pub feed :
      (ℕ → World C) → List E → Run S E C A → List (FsmResult (List A)) × Run S E C A
  feed host [] s = ([], s)
  feed host (event ∷ events) s =
      let (r, u) = handle event (record s { world = host 0 }) in
      let (rs, v) = feed (λ n. host (suc n)) events u in (r ∷ rs, v)

  HasPureHandlers-tables :
      (m n : StateMachine S E C A) → tables n ≡ tables m → HasPureHandlers m → HasPureHandlers n
  HasPureHandlers-tables m n e good = record {
    transitions = λ k h p. good.transitions k h (subst (λ x. HashMap.get x.0 k ≡ some h) e p);
    entries = λ k h p. good.entries k h (subst (λ x. HashMap.get x.1 k ≡ some h) e p);
    exits = λ k h p. good.exits k h (subst (λ x. HashMap.get x.2 k ≡ some h) e p);
    unhandled = λ h p. good.unhandled h (subst (λ x. x.4 ≡ some h) e p);
  }

  handle-Alike :
      (event : E) (s : Run S E C A) (timer : Option ℕ) (v w : World C)
      → HasPureHandlers s.machine
      → Alike (handle event (elsewhere s timer w)) (handle event (record s { world = v }))
  handle-Alike event s timer v w good =
      Handles-Alike event (record s { world = v }) timer w _ _ good
        ((handle_iff event _ _ _).0 refl)

  feed-hosts :
      (v w : ℕ → World C) (events : List E) (s t : Run S E C A) (timer : Option ℕ) (z : World C)
      → HasPureHandlers s.machine
      → t ≡ elsewhere s timer z
      → ((feed w events t).0 ≡ (feed v events s).0)
        × ((feed w events t).1.current_state ≡ (feed v events s).1.current_state)
  unfolding feed
  feed-hosts v w [] s t timer z good p = (refl, ap (λ x. x.current_state) p)
  feed-hosts v w (event ∷ events) s t timer z good p =
      let (result, (timer', z', after)) = handle-Alike event s timer (v 0) (w 0) good in
      let pure' =
        HasPureHandlers-tables s.machine _ (tables-handle event (record s { world = v 0 })) good in
      let here = ap (λ x. handle event (record x { world = w 0 })) p in
      let (results, states) =
        feed-hosts (λ n. v (suc n)) (λ n. w (suc n)) events _ _ timer' z' pure'
          (ap (λ x. x.1) here ∙ after) in
      (λ i. ((ap (λ x. x.0) here ∙ result) i ∷ results i), states)

  -- If no handler's result depends on the world, then the results of a sequence of events, errors
  -- included, and the state at its end are the same whatever the host does to the world, the clock
  -- included, before each event.
  pub feed-worlds :
      (v w : ℕ → World C) (events : List E) (s : Run S E C A)
      → HasPureHandlers s.machine
      → ((feed w events s).0 ≡ (feed v events s).0)
        × ((feed w events s).1.current_state ≡ (feed v events s).1.current_state)
  feed-worlds v w events s good = feed-hosts v w events s s s.state_timeout s.world good refl
