-- ===== src/AutoClose/Sessions.antt =====
-- What a host sees of the door of the guide's chapter on timeouts, whatever it does and when.
use obzenflow_fsm.Prelude.{
  ℕ, ◌<◌, String, some, List, [], ◌∷◌, ◌++◌, append_assoc, append-nil, ◌≡◌, refl, sym, ap, subst,
  ◌∙◌, string_equality, pair_equality,
}
use obzenflow_fsm.Types.{World}
use obzenflow_fsm.Machine.{StateMachine, deadline}
use obzenflow_fsm.Builder.{returned}
use obzenflow_fsm.Dsl.Syn.{Syn, Tokens}
use obzenflow_fsm.Dsl.Codegen.{last}
use obzenflow_fsm.Dsl.Eval.{Values}
use obzenflow_fsm.Dsl.Spelling.{Spelling, name-path}
use obzenflow_fsm.Dsl.Tables.{last_block}
use obzenflow_fsm.Dsl.Parse.Print.{to_decls, rounds}
use obzenflow_fsm.Dsl.Fsm.Machines.{IsMachineOf, FsmGives}
use obzenflow_fsm.AutoClose.{
  DoorState, DoorEvent, DoorAction, DoorContext, door_state_variant, door_event_variant,
  door_action, DoorExpr, door_table, Evaluates, Command, obey, perform, session,
}
use obzenflow_fsm.AutoClose.View.{
  View, shut, next, tick, line, finally, lines, state_of, timer_of, Door, Shows,
}
use obzenflow_fsm.AutoClose.Steps.{At, door_machine, step}

module _ (syn : Syn) (name : syn.ExprPath → String)
    (named : (p : syn.ExprPath) → last (syn.segments p) ≡ some (name p))
    (written : Spelling syn DoorExpr)
    (values : Values syn.Expr DoorState DoorEvent DoorContext DoorAction)
    (evaluates : Evaluates syn written values) where
  module _ (m : StateMachine DoorState DoorEvent DoorContext DoorAction) (start : ℕ)
      (of : IsMachineOf name values (door_table syn written) start m) where
    At-Shows :
        (cs : List Command) (v : View) (s : Door)
        → At syn name named written values evaluates m start of v s.clock s
        → Shows cs v s (session cs s)
    unfolding session
    At-Shows [] v s at = record {
      results = refl;
      state = at.here;
      timer = at.timer;
      logged = sym (append-nil s.context.log);
    }
    At-Shows (c ∷ cs) v s at =
        let first = step syn name named written values evaluates m start of c v s.clock s at in
        let u = perform (obey c s).0 (obey c s).1 in
        let here : At syn name named written values evaluates m start of (next c v s.clock) u.clock
            u =
          subst (λ x. At syn name named written values evaluates m start of (next c v s.clock) x u)
            (sym first.at.time) first.at in
        let rest = At-Shows cs (next c v s.clock) u here in
        let now = first.at.time in
        record {
          results = cc (first.result, rest.results, now);
          state = rest.state ∙ ap (λ x. state_of (finally cs (next c v s.clock) x)) now;
          timer = rest.timer ∙ ap (λ x. timer_of (finally cs (next c v s.clock) x)) now;
          logged =
              rest.logged
              ∙ ap (λ x. u.context.log ++ lines cs (next c v s.clock) x) now
              ∙ ap (λ l. l ++ lines cs (next c v s.clock) (tick c s.clock)) first.logged
              ∙ append_assoc s.context.log (line c v s.clock)
                  (lines cs (next c v s.clock) (tick c s.clock));
        }

  -- The table of the guide's door, written as tokens: `fsm!` gives a machine, and whatever a host
  -- does with it, in any order and at any times, executing the actions that come back: opening a
  -- shut door gives it a deadline ten milliseconds later, and opening an open one is an error; a
  -- poll at or after the deadline shuts the door, and an earlier one does nothing; the machine is
  -- in that state with that deadline, and the log grows by a line for each opening and each
  -- closing, in order.
  pub session-Shows :
      (tokens : Tokens syn) (fuel : ℕ) (enough : rounds (to_decls (door_table syn written)) < fuel)
      (w : World DoorContext) (commands : List Command)
      → (m : StateMachine DoorState DoorEvent DoorContext DoorAction) × FsmGives syn tokens name
          named values
          (door_table syn written)
          fuel
          w.clock
          enough
          (returned m)
        × Shows commands shut
            (record { machine = m; world = w })
            (session commands (record { machine = m; world = w }))
  unfolding last_block deadline
  session-Shows tokens fuel enough w commands =
      let (m, gives, of) =
        door_machine syn name named written values evaluates tokens fuel w.clock enough in
      (
        m,
        gives,
        At-Shows m w.clock of commands shut (record { machine = m; world = w })
            (record {
              here = of.initial ∙ evaluates.initial_value;
              timer = of.timer ∙ simp (name-path syn written name named, evaluates.initial_value);
              time = refl;
              held = refl;
            }),
      )
