-- ===== src/LockDoor/Since.antt =====
-- The time that an open door of the tests of src/builder.rs has in its state.
use obzenflow_fsm.Prelude.{
  ℕ, ◌≤◌, ◌<◌, String, Option, some, none, ◌≡◌, sym, subst, arith, string_equality, pair_equality,
}
use obzenflow_fsm.Types.{World}
use obzenflow_fsm.Machine.{StateMachine}
use obzenflow_fsm.Machine.Serve.{
  Program, done, call, work, IsForward, answer, serve, machine_service,
}
use obzenflow_fsm.Machine.Rules.Plain.{step_service, state_of}
use obzenflow_fsm.Builder.{returned}
use obzenflow_fsm.Dsl.Syn.{Syn, Tokens}
use obzenflow_fsm.Dsl.Codegen.{last}
use obzenflow_fsm.Dsl.Eval.{Values}
use obzenflow_fsm.Dsl.Spelling.{Spelling}
use obzenflow_fsm.Dsl.Parse.Print.{to_decls, rounds}
use obzenflow_fsm.Dsl.Fsm.Machines.{FsmGives}
use obzenflow_fsm.LockDoor.{
  DoorState, closed, opened, locked, DoorEvent, to_open, to_close, to_lock, to_unlock, DoorAction,
  DoorContext, door_state_variant, door_event_variant, DoorExpr, lock_door_table, Evaluates,
}
use obzenflow_fsm.LockDoor.Served.{lock_door_step, lock_door}

-- An open door was opened at a time that is not to come.
abbrev pub OpenedBefore : DoorState × World DoorContext → Type 0
OpenedBefore (closed, w) = Unit
OpenedBefore (opened since, w) = since ≤ w.clock
OpenedBefore (locked, w) = Unit

answer-OpenedBefore :
    (question : Option DoorEvent) (state : DoorState) (w : World DoorContext)
    → OpenedBefore (state, w)
    → OpenedBefore (answer (step_service lock_door_step) question (state, w)).1
answer-OpenedBefore none state w h = h
answer-OpenedBefore (some to_open) closed w h = omega arith
answer-OpenedBefore (some to_lock) closed w h = tt
answer-OpenedBefore (some to_close) closed w h = tt
answer-OpenedBefore (some to_unlock) closed w h = tt
answer-OpenedBefore (some to_open) (opened since) w h = h
answer-OpenedBefore (some to_lock) (opened since) w h = h
answer-OpenedBefore (some to_close) (opened since) w h = tt
answer-OpenedBefore (some to_unlock) (opened since) w h = h
answer-OpenedBefore (some to_open) locked w h = tt
answer-OpenedBefore (some to_lock) locked w h = tt
answer-OpenedBefore (some to_close) locked w h = tt
answer-OpenedBefore (some to_unlock) locked w h = tt

work-OpenedBefore :
    (g : World DoorContext → World DoorContext) (state : DoorState) (w : World DoorContext)
    → w.clock ≤ (g w).clock
    → OpenedBefore (state, w)
    → OpenedBefore (state, g w)
work-OpenedBefore g closed w forward h = tt
work-OpenedBefore g (opened since) w forward h = omega arith
work-OpenedBefore g locked w forward h = tt

serve-OpenedBefore :
    {R : Type 0} (program : Program DoorEvent DoorContext DoorAction R)
    (s : DoorState × World DoorContext)
    → IsForward program
    → OpenedBefore s
    → OpenedBefore (serve (step_service lock_door_step) program s).1
unfolding serve
serve-OpenedBefore (done x) s forward h = h
serve-OpenedBefore (call question next) s forward h =
    let (r, u) = answer (step_service lock_door_step) question s in
    serve-OpenedBefore (next r) u (forward r) (answer-OpenedBefore question s.0 s.1 h)
serve-OpenedBefore (work g next) s (forward, rest) h =
    serve-OpenedBefore (next s.1) (s.0, g s.1) (rest s.1)
      (work-OpenedBefore g s.0 s.1 (forward s.1) h)

module _ (syn : Syn) (name : syn.ExprPath → String)
    (named : (p : syn.ExprPath) → last (syn.segments p) ≡ some (name p))
    (written : Spelling syn DoorExpr)
    (values : Values syn.Expr DoorState DoorEvent DoorContext DoorAction)
    (evaluates : Evaluates syn written values) where
  -- The door of the test, with any host whose own work does not set the clock back: when the host
  -- is done, a door that is open has a `since` that is not later than the clock.
  pub lock_door-OpenedBefore :
      {R : Type 0} (tokens : Tokens syn) (fuel : ℕ)
      (enough : rounds (to_decls (lock_door_table syn written)) < fuel) (w : World DoorContext)
      (program : Program DoorEvent DoorContext DoorAction R)
      → IsForward program
      → (m : StateMachine DoorState DoorEvent DoorContext DoorAction) × FsmGives syn tokens name
          named values
          (lock_door_table syn written)
          fuel
          w.clock
          enough
          (returned m)
        × OpenedBefore
            (state_of (serve machine_service program (record { machine = m; world = w })).1)
  lock_door-OpenedBefore tokens fuel enough w program forward =
      let (m, gives, same) =
        lock_door syn name named written values evaluates tokens fuel enough w program in
      (
        m,
        gives,
        subst (λ x. OpenedBefore x.1) (sym same)
            (serve-OpenedBefore program (closed, w) forward tt),
      )
