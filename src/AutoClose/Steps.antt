-- ===== src/AutoClose/Steps.antt =====
-- What one command does to the machine of the guide's door.
use obzenflow_fsm.Prelude.{
  ℕ, ◌+◌, ◌≤◌, ◌<◌, String, false, none, some, List, [], ◌∷◌, ◌++◌, append-nil, ◌≡◌, refl, sym, ap,
  ◌∙◌, inl, inr, leb, arith, string_equality, pair_equality, Bool-cases,
}
use obzenflow_fsm.HashMap
use obzenflow_fsm.Error.{unhandled_event}
use obzenflow_fsm.Exec.{FsmResult, ok, err}
use obzenflow_fsm.Types.{TransitionHandler}
use obzenflow_fsm.Machine.{
  StateMachine, deadline, fire, fire_event, unhandled, handle, check_timeout, execute_actions,
}
use obzenflow_fsm.Machine.Apply.{apply_transition_bare}
use obzenflow_fsm.Machine.Poll.{fire_of_Elapsed, idle_of_Pending}
use obzenflow_fsm.Machine.Tables.{tables}
use obzenflow_fsm.Builder.{returned}
use obzenflow_fsm.Dsl.Syn.{Syn, Tokens}
use obzenflow_fsm.Dsl.Codegen.{last}
use obzenflow_fsm.Dsl.Eval.{Values}
use obzenflow_fsm.Dsl.Spelling.{Spelling, name-path}
use obzenflow_fsm.Dsl.Tables.{TableRow, last_row, repeats, last_block, table_rows}
use obzenflow_fsm.Dsl.Parse.Print.{to_decls, rounds}
use obzenflow_fsm.Dsl.Fsm.Machines.{IsMachineOf, FsmGives, fsm_machine}
use obzenflow_fsm.Dsl.Fsm.Dispatch.{row_or_hook, handle_of_table}
use obzenflow_fsm.AutoClose.{
  DoorState, closed, opened, DoorEvent, to_open, DoorAction, log, DoorContext, state_variant_name,
  door_state_variant, door_event_variant, door_action, opening_door, auto_closing, DoorExpr,
  door_table, Evaluates, Command, open_it, poll_it, sleep, obey, perform,
}
use obzenflow_fsm.AutoClose.View.{
  View, shut, open_until, next, tick, line, answer, state_of, timer_of, Door,
}

module _ (syn : Syn) (name : syn.ExprPath → String)
    (named : (p : syn.ExprPath) → last (syn.segments p) ≡ some (name p))
    (written : Spelling syn DoorExpr)
    (values : Values syn.Expr DoorState DoorEvent DoorContext DoorAction)
    (evaluates : Evaluates syn written values) where
  abbrev rows : List (TableRow (TransitionHandler DoorState DoorEvent DoorContext DoorAction))
  rows = record { timed = false; key = ("Closed", "Open"); handler = opening_door } ∷ []

  table_rows-door : table_rows name values (door_table syn written).states ≡ rows
  unfolding table_rows
  table_rows-door = simp (name-path syn written name named, evaluates.opening_value)

  pub door_machine :
      (tokens : Tokens syn) (fuel now : ℕ)
      (enough : rounds (to_decls (door_table syn written)) < fuel)
      → (m : StateMachine DoorState DoorEvent DoorContext DoorAction) × FsmGives syn tokens name
          named values
          (door_table syn written)
          fuel
          now
          enough
          (returned m)
        × IsMachineOf name values (door_table syn written) now m
  unfolding repeats
  door_machine tokens fuel now enough =
      fsm_machine syn tokens name named values (door_table syn written) fuel now enough
        (rw table_rows-door refl) (inl (rw (table_rows-door, evaluates.initial_value)))

  module _ (m : StateMachine DoorState DoorEvent DoorContext DoorAction) (start : ℕ)
      (of : IsMachineOf name values (door_table syn written) start m) where
    -- The machine is in the state of the view, with its deadline.
    pub record At (v : View) (now : ℕ) (s : Door) : Type 0 where
      pub here : s.current_state ≡ state_of v
      pub timer : s.state_timeout ≡ timer_of v
      pub time : s.clock ≡ now
      pub held : tables s.machine ≡ tables m

    no_entry :
        (s : Door) (n : String)
        → tables s.machine ≡ tables m
        → HashMap.get s.entry_handlers n ≡ none
    unfolding last_block
    no_entry s n held = ap (λ t. HashMap.get t.1 n) held ∙ of.entries n ∙ ground arith

    no_exit :
        (s : Door) (n : String) → tables s.machine ≡ tables m → HashMap.get s.exit_handlers n ≡ none
    unfolding last_block
    no_exit s n held = ap (λ t. HashMap.get t.2 n) held ∙ of.exits n ∙ ground arith

    open_timeout :
        (s : Door)
        → tables s.machine ≡ tables m
        → HashMap.get s.timeout_handlers "Open" ≡ some (10, auto_closing)
    unfolding last_block
    open_timeout s held =
        ap (λ t. HashMap.get t.3 "Open") held
        ∙ of.timeouts "Open"
        ∙ simp
            (name-path syn written name named, evaluates.ten_millis_value, evaluates.closing_value)

    closed_timeout :
        (s : Door) → tables s.machine ≡ tables m → HashMap.get s.timeout_handlers "Closed" ≡ none
    unfolding last_block
    closed_timeout s held =
        ap (λ t. HashMap.get t.3 "Closed") held
        ∙ of.timeouts "Closed"
        ∙ simp (name-path syn written name named)

    handles :
        (v : View) (now : ℕ) (s : Door)
        → At v now s
        → handle to_open s
          ≡ row_or_hook
              (last_row rows (state_variant_name (state_of v), "Open") none)
              none
              to_open
              s
    handles v now s at =
        handle_of_table name values (door_table syn written) start m s to_open of at.held
          (rw table_rows-door refl)
        ∙ rw (table_rows-door, at.here) refl

    opens :
        (now : ℕ) (s : Door)
        → At shut now s
        → handle to_open s ≡ (
          ok (log "Opened" ∷ []),
          record s {
            machine = record s.machine { current_state = opened; state_timeout = some (now + 10) };
          },
        )
    unfolding last_row fire_event deadline
    opens now s at =
        handles shut now s at
        ∙ apply_transition_bare (record { next_state = opened; actions = log "Opened" ∷ [] }) s
            (no_exit s (state_variant_name s.current_state) at.held) (no_entry s "Open" at.held)
        ∙ rw (open_timeout s at.held, at.time) refl

    refuses :
        (t now : ℕ) (s : Door)
        → At (open_until t) now s
        → handle to_open s ≡ (err (unhandled_event "Open" "Open"), s)
    unfolding last_row unhandled
    refuses t now s at =
        handles (open_until t) now s at
        ∙ ap (λ x. (err (unhandled_event (state_variant_name x) "Open"), s)) at.here

    closes :
        (t now : ℕ) (s : Door)
        → At (open_until t) now s
        → t ≤ now
        → check_timeout s ≡ (
          ok (log "Auto-closed" ∷ []),
          record s { machine = record s.machine { current_state = closed; state_timeout = none } },
        )
    unfolding fire deadline
    closes t now s at due =
        fire_of_Elapsed s auto_closing (
          (t, at.timer, rw at.time due),
          (
            10,
            ap (λ x. HashMap.get s.timeout_handlers (state_variant_name x)) at.here
                ∙ open_timeout s at.held,
          ),
        )
        ∙ apply_transition_bare (record { next_state = closed; actions = log "Auto-closed" ∷ [] }) s
            (no_exit s (state_variant_name s.current_state) at.held) (no_entry s "Closed" at.held)
        ∙ rw (closed_timeout s at.held) refl

    -- One command: what it returns, the door, and the lines that its actions log.
    pub record Steps (c : Command) (v : View) (now : ℕ) (s : Door)
        (x : FsmResult (List DoorAction) × Door) : Type 0 where
      pub result : x.0 ≡ answer c v now
      pub at : At (next c v now) (tick c now) (perform x.0 x.1)
      pub logged : (perform x.0 x.1).context.log ≡ s.context.log ++ line c v now

    pub step :
        (c : Command) (v : View) (now : ℕ) (s : Door) → At v now s → Steps c v now s (obey c s)
    unfolding execute_actions
    step open_it shut now s at = rw (opens now s at) (record {
      result = refl;
      at = record { here = refl; timer = refl; time = at.time; held = at.held };
      logged = refl;
    })
    step open_it (open_until t) now s at =
        rw (refuses t now s at) (record { result = refl; at = at; logged = sym (append-nil _) })
    step poll_it shut now s at =
        rw (idle_of_Pending s (inl at.timer))
          (record { result = refl; at = at; logged = sym (append-nil _) })
    step poll_it (open_until t) now s at = elim (Bool-cases (leb t now)) [
      | inl due ↦ rw (closes t now s at (ground arith)) (record {
        result = rw due refl;
        at = rw due (record { here = refl; timer = refl; time = at.time; held = at.held });
        logged = rw due refl;
      })
      | inr early ↦
          rw (idle_of_Pending s (inr (inl (t, at.timer, rw at.time (ground arith))))) (record {
            result = rw early refl;
            at = rw early at;
            logged = rw early (sym (append-nil _));
          })
    ]
    step (sleep d) v now s at = record {
      result = refl;
      at = record {
        here = at.here;
        timer = at.timer;
        time = ap (λ x. x + d) at.time;
        held = at.held;
      };
      logged = sym (append-nil _);
    }
