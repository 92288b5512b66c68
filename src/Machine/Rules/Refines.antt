-- ===== src/Machine/Rules/Refines.antt =====
-- A machine does what its tables say: the interpreter of Machine/Rules.antt.
use obzenflow_fsm.Prelude.{
  ℕ, Option, none, some, List, ◌≡◌, refl, ap, ◌∙◌, inl, inr, leb, string_equality, pair_equality,
  Option-cases, Bool-cases,
}
use obzenflow_fsm.HashMap
use obzenflow_fsm.Exec.{FsmResult, FsmResult-cases}
use obzenflow_fsm.Types.{
  Transition, StateVariant, EventVariant, TimeoutHandler, TransitionHandler, UnhandledHandler,
}
use obzenflow_fsm.Machine.{
  Run, apply_transition, fire, check_timeout, fire_event, unhandled, on_exact, on_wildcard, handle,
}
use obzenflow_fsm.Machine.Apply.{Applies, exit_failed, entry_failed, applied, apply_transition_iff}
use obzenflow_fsm.Machine.Failures.{polled_by, poll-polled_by}
use obzenflow_fsm.Machine.Serve.{Program, serve, answer, machine_service, serve-simulates}
use obzenflow_fsm.Machine.Tables.{Tables, tables, tables-handle, tables-check_timeout}
use obzenflow_fsm.Machine.Rules.{
  Rules, Conf, or_else, enter, rejected, on_row, on_event, on_timeout, on_deadline, on_poll,
  rules_service,
}

module _ {S E C A : Type 0} where
  -- What rules are about, of a run.
  abbrev pub conf : Run S E C A → Conf S C
  conf s = record { state = s.current_state; timer = s.state_timeout; world = s.world }

  abbrev pub seen {ℓ} : {R : Type ℓ} → R × Run S E C A → R × Conf S C
  seen (r, u) = (r, conf u)

module _ {S E C A : Type 0} ⦃sv : StateVariant S⦄ ⦃ev : EventVariant E⦄ where
  -- What the tables have for a state and an event: for the state, or else for `_`, any state.
  abbrev pub rules_of : Tables S E C A → Rules S E C A
  rules_of t = record {
    row = λ state event.
        or_else (HashMap.get t.0 (sv.variant_name state, ev.variant_name event))
          (HashMap.get t.0 ("_", ev.variant_name event));
    exit = λ state. HashMap.get t.2 (sv.variant_name state);
    entry = λ state. HashMap.get t.1 (sv.variant_name state);
    timeout = λ state. HashMap.get t.3 (sv.variant_name state);
    unhandled = t.4;
  }

  abbrev own_rules : Run S E C A → Rules S E C A
  own_rules s = rules_of (tables s.machine)

  apply_transition-enter :
      (t : Transition S A) (s : Run S E C A)
      → seen (apply_transition t s) ≡ enter (own_rules s) t (conf s)
  apply_transition-enter t s = go ((apply_transition_iff t s _ _).0 refl)
    where
      go :
          {r : FsmResult (List A)} {u : Run S E C A}
          → Applies t s r u
          → seen (r, u) ≡ enter (own_rules s) t (conf s)
      go (exit_failed e w p er eu) = rw (er, eu) (unfold enter in rw p refl)
      go (entry_failed xs w e w' p q er eu) = rw (er, eu) (unfold enter in rw (p, q) refl)
      go (applied xs w ys w' p q er eu) = rw (er, eu) (unfold enter in rw (p, q) refl)

  fire_event-on_row :
      (handler : TransitionHandler S E C A) (event : E) (s : Run S E C A)
      → seen (fire_event handler event s) ≡ on_row (own_rules s) (some handler) event (conf s)
  unfolding fire_event
  fire_event-on_row handler event s =
      let (q, w) = handler s.current_state event s.world in
      elim (FsmResult-cases q) [
        | inl (t, p) ↦ rw p (apply_transition-enter t (record s { world = w }))
        | inr (e, p) ↦ rw p refl
      ]

  unhandled-rejected :
      (o : Option (UnhandledHandler S E C)) (event : E) (s : Run S E C A)
      → seen (unhandled o event s) ≡ rejected (own_rules s) o event (conf s)
  unfolding unhandled
  unhandled-rejected none event s = refl
  unhandled-rejected (some hook) event s =
      elim (FsmResult-cases (hook s.current_state event s.world).0) [
        | inl (x, p) ↦ rw p refl
        | inr (e, p) ↦ rw p refl
      ]

  handle-on_event :
      (event : E) (s : Run S E C A) → seen (handle event s) ≡ on_event (own_rules s) event (conf s)
  unfolding handle on_exact on_wildcard on_event
  handle-on_event event s =
      let name = ev.variant_name event in
      let wild = HashMap.get s.transitions ("_", name) in
      elim (Option-cases (HashMap.get s.transitions (sv.variant_name s.current_state, name))) [
        | inr (h, p) ↦ rw p (fire_event-on_row h event s)
        | inl p ↦ rw p (elim (Option-cases wild) [
          | inr (h, q) ↦ rw q (fire_event-on_row h event s)
          | inl q ↦ rw q (unhandled-rejected s.unhandled_handler event s)
        ])
      ]

  fire-on_timeout :
      (o : Option (ℕ × TimeoutHandler S C A)) (s : Run S E C A)
      → seen (fire o s) ≡ on_timeout (own_rules s) o (conf s)
  unfolding fire
  fire-on_timeout none s = refl
  fire-on_timeout (some (d, handler)) s =
      let (q, w) = handler s.current_state s.world in
      elim (FsmResult-cases q) [
        | inl (t, p) ↦ rw p (apply_transition-enter t (record s { world = w }))
        | inr (e, p) ↦ rw p refl
      ]

  check_timeout-on_poll :
      (s : Run S E C A) → seen (check_timeout s) ≡ on_poll (own_rules s) (conf s)
  unfolding check_timeout on_poll
  check_timeout-on_poll s = ap seen (poll-polled_by s.state_timeout s) ∙ due s.state_timeout
    where
      due :
          (o : Option ℕ)
          → seen (polled_by o (HashMap.get s.timeout_handlers (sv.variant_name s.current_state)) s)
            ≡ on_deadline (own_rules s) o (conf s)
      due none = refl
      due (some i) = elim (Bool-cases (leb i s.clock)) [
        | inl late ↦ rw late (fire-on_timeout _ s)
        | inr early ↦ rw early refl
      ]

  -- A machine serves any host as its tables say.
  pub machine-rules_service :
      {R : Type 0} (program : Program E C A R) (s : Run S E C A)
      → seen (serve machine_service program s)
        ≡ serve (rules_service (own_rules s)) program (conf s)
  machine-rules_service program s =
      serve-simulates machine_service (rules_service (own_rules s)) conf
        (λ u. tables u.machine ≡ tables s.machine) holds (λ g u h. h) answers (λ g u. refl)
        (λ u. refl) program s refl
    where
      holds :
          (question : Option E) (u : Run S E C A)
          → tables u.machine ≡ tables s.machine
          → tables (answer machine_service question u).1.machine ≡ tables s.machine
      holds (some event) u h = tables-handle event u ∙ h
      holds none u h = tables-check_timeout u ∙ h

      answers :
          (question : Option E) (u : Run S E C A)
          → tables u.machine ≡ tables s.machine
          → seen (answer machine_service question u)
            ≡ answer (rules_service (own_rules s)) question (conf u)
      answers (some event) u h =
          handle-on_event event u ∙ ap (λ t. on_event (rules_of t) event (conf u)) h
      answers none u h = check_timeout-on_poll u ∙ ap (λ t. on_poll (rules_of t) (conf u)) h
