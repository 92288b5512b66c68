-- ===== src/Machine/Rules/Plain.antt =====
-- Rules with no entry and exit hooks and no timeouts: automata that answer each event by a step, or with an error.
use obzenflow_fsm.Prelude.{Option, none, some, List, [], ◌≡◌, refl}
use obzenflow_fsm.Error.{unhandled_event}
use obzenflow_fsm.Exec.{FsmResult, ok, err}
use obzenflow_fsm.Types.{
  Transition, StateVariant, EventVariant, World, TransitionHandler, UnhandledHandler,
}
use obzenflow_fsm.Machine.{Run, deadline, run_hook}
use obzenflow_fsm.Machine.Serve.{Service, Program, serve, answer, serve-simulates}
use obzenflow_fsm.Machine.Rules.{Rules, Conf, enter, on_row, on_event, on_poll, rules_service}

-- What an event does in a state and a world: the next state and the actions, with the world that
-- the handler leaves; nothing, if no row is for it.
abbrev pub Step : (S E C A : Type 0) → Type 0
Step S E C A = S → E → World C → Option ((S × List A) × World C)

module _ {S E C A : Type 0} ⦃sv : StateVariant S⦄ ⦃ev : EventVariant E⦄ where
  abbrev pub stepped :
      Option ((S × List A) × World C) → E → S × World C → FsmResult (List A) × (S × World C)
  stepped none event (state, w) =
      (err (unhandled_event (sv.variant_name state) (ev.variant_name event)), (state, w))
  stepped (some ((next, actions), w)) event c = (ok actions, (next, w))

  -- The automaton, for a host. A poll does nothing.
  abbrev pub step_service : Step S E C A → Service (S × World C) E C A
  step_service step = record {
    event = λ event c. stepped (step c.0 event c.1) event c;
    poll = λ c. (ok [], c);
    world = λ c. c.1;
    work = λ g c. (c.0, g c.1);
  }

  -- The state and the world of a machine.
  abbrev pub state_of : Run S E C A → S × World C
  state_of s = (s.current_state, s.world)

pub record IsBare {S E C A : Type 0} (rules : Rules S E C A) : Type 0 where
  pub no_exit : (state : S) → rules.exit state ≡ none
  pub no_entry : (state : S) → rules.entry state ≡ none
  pub no_timeout : (state : S) → rules.timeout state ≡ none

-- The row, or its absence where there is no hook, does what the step says.
abbrev pub Does :
    {S E C A : Type 0}
    → Option (UnhandledHandler S E C)
    → Option (TransitionHandler S E C A)
    → S
    → E
    → World C
    → Option ((S × List A) × World C)
    → Type 0
Does hook none state event w none = hook ≡ none
Does hook none state event w (some x) = ⊥
Does hook (some handler) state event w none = ⊥
Does hook (some handler) state event w (some ((next, actions), w')) =
    handler state event w ≡ (ok (record { next_state = next; actions = actions }), w')

module _ {S E C A : Type 0} ⦃sv : StateVariant S⦄ ⦃ev : EventVariant E⦄ (rules : Rules S E C A)
    (step : Step S E C A) (bare : IsBare rules)
    (does : (state : S) (event : E) (w : World C)
      → Does rules.unhandled (rules.row state event) state event w (step state event w)) where
  enter_bare :
      (t : Transition S A) (c : Conf S C)
      → enter rules t c ≡ (ok t.actions, record c { state = t.next_state; timer = none })
  unfolding enter run_hook deadline
  enter_bare t c =
      rw (bare.no_exit c.state, bare.no_entry t.next_state, bare.no_timeout t.next_state) refl

  -- The step's result, and still no deadline.
  abbrev Stepped :
      Option ((S × List A) × World C) → E → Conf S C → FsmResult (List A) × Conf S C → Type 0
  Stepped o event c x =
      ((x.0, (x.1.state, x.1.world)) ≡ stepped o event (c.state, c.world)) × (x.1.timer ≡ none)

  on_row-Stepped :
      (row : Option (TransitionHandler S E C A)) (o : Option ((S × List A) × World C)) (event : E)
      (c : Conf S C)
      → Does rules.unhandled row c.state event c.world o
      → c.timer ≡ none
      → Stepped o event c (on_row rules row event c)
  on_row-Stepped none none event c h off = rw h (refl, off)
  on_row-Stepped none (some x) event c h off = absurd h
  on_row-Stepped (some handler) none event c h off = absurd h
  on_row-Stepped (some handler) (some ((next, actions), w)) event c h off = rw h (
      rw (enter_bare (record { next_state = next; actions = actions }) (record c { world = w }))
        (refl, refl))

  answer-Stepped :
      (call : Option E) (c : Conf S C)
      → c.timer ≡ none
      → let (r, u) = answer (rules_service rules) call c in
        ((r, (u.state, u.world)) ≡ answer (step_service step) call (c.state, c.world))
        × (u.timer ≡ none)
  unfolding on_event on_poll
  answer-Stepped (some event) c off =
      on_row-Stepped (rules.row c.state event) (step c.state event c.world) event c
        (does c.state event c.world) off
  answer-Stepped none c off = rw off (refl, refl)

  -- The rules serve any host as the automaton does.
  pub rules-step_service :
      {R : Type 0} (program : Program E C A R) (c : Conf S C)
      → c.timer ≡ none
      → let (x, end) = serve (rules_service rules) program c in
        (x, (end.state, end.world)) ≡ serve (step_service step) program (c.state, c.world)
  rules-step_service program c off =
      serve-simulates (rules_service rules) (step_service step) (λ u. (u.state, u.world))
        (λ u. u.timer ≡ none) (λ call u h. (answer-Stepped call u h).1) (λ g u h. h)
        (λ call u h. (answer-Stepped call u h).0) (λ g u. refl) (λ u. refl) program c off
