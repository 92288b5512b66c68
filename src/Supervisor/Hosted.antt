-- ===== src/Supervisor/Hosted.antt =====
-- The supervisor's loop as a program for anything that takes events and polls, and what it does
-- with the machine of an `fsm!` table.
use obzenflow_fsm.Prelude.{
  ℕ, zero, suc, ◌<◌, String, none, some, List, [], ◌∷◌, ◌≡◌, refl, sym, ap, ◌∙◌,
}
use obzenflow_fsm.Error.{FsmError}
use obzenflow_fsm.Exec.{FsmResult, ok, err, Exec, continue, ◌>>=◌, ◌>>◌}
use obzenflow_fsm.Types.{StateVariant, EventVariant, World, FsmAction}
use obzenflow_fsm.Machine.{StateMachine, Run, handle, check_timeout}
use obzenflow_fsm.Machine.Serve.{
  Task, done, call, work, and_then, serve, result_of, machine_service,
}
use obzenflow_fsm.Machine.Rules.{rules_service, begin}
use obzenflow_fsm.Machine.Rules.Refines.{seen}
use obzenflow_fsm.Builder.{returned}
use obzenflow_fsm.Dsl.Syn.{Syn, Tokens}
use obzenflow_fsm.Dsl.Spec.{FsmSpec}
use obzenflow_fsm.Dsl.Codegen.{last}
use obzenflow_fsm.Dsl.Eval.{Values}
use obzenflow_fsm.Dsl.Tables.{table_rows}
use obzenflow_fsm.Dsl.Parse.Print.{to_decls, rounds}
use obzenflow_fsm.Dsl.Fsm.Machines.{FsmGives}
use obzenflow_fsm.Dsl.Fsm.Dispatch.{NoWildcard}
use obzenflow_fsm.Dsl.Meaning.{table_rules}
use obzenflow_fsm.Dsl.Meaning.Refines.{fsm_means}
use obzenflow_fsm.Supervisor
use obzenflow_fsm.Supervisor.{
  act, execute_each, on_failure, reported, execute_or_report, received, round,
}

module _ {E C A : Type 0} where
  module _ ⦃fa : FsmAction C A⦄ where
    abbrev pub each_then : List A → Task E C A → Task E C A
    each_then [] rest = rest
    each_then (action ∷ actions) rest =
        work (λ w. (fa.execute action w).1)
          (λ w. and_then (fa.execute action w).0 (λ u. each_then actions rest))

    module _ (failure_event : FsmError → E) where
      abbrev pub failure_then : FsmResult (Unit {0}) → Task E C A → Task E C A
      failure_then (ok x) rest = rest
      failure_then (err e) rest =
          call (some (failure_event e)) (λ r. and_then r (λ actions. each_then actions rest))

      abbrev pub report_then : List A → Task E C A → Task E C A
      report_then [] rest = rest
      report_then (action ∷ actions) rest =
          work (λ w. (fa.execute action w).1)
            (λ w. failure_then (fa.execute action w).0 (report_then actions rest))

      module _ (receive : World C → E × World C) where
        abbrev pub feed_then : Task E C A → Task E C A
        feed_then rest =
            work (λ w. (receive w).1)
              (λ w.
                call (some (receive w).0) (λ r. and_then r (λ actions. report_then actions rest)))

        abbrev pub round_then : Task E C A → Task E C A
        round_then rest =
            call none (λ r. and_then r (λ actions. each_then actions (feed_then rest)))

        -- The rounds of the loop.
        unfoldable pub supervise : ℕ → Task E C A
        supervise zero = done (ok tt)
        supervise (suc n) = round_then (supervise n)

-- What comes after a step, taken together with the step.
continue-bind :
    {M B D X : Type 0} (r : FsmResult B) (f : B → Exec M D) (g : D → Exec M X) (h : B → Exec M X)
    (s : M)
    → ((x : B) → h x s ≡ (f x >>= g) s)
    → continue r h s ≡ (continue r f >>= g) s
continue-bind (ok x) f g h s p = p x
continue-bind (err e) f g h s p = refl

module _ {S E C A : Type 0} ⦃sv : StateVariant S⦄ ⦃ev : EventVariant E⦄ where
  abbrev play : Task E C A → Exec (Run S E C A) Unit
  play = result_of machine_service

  play-and_then :
      {B : Type 0} (r : FsmResult B) (rest : B → Task E C A) (s : Run S E C A)
      → play (and_then r rest) s ≡ continue r (λ x. play (rest x)) s
  unfolding serve
  play-and_then (ok x) rest s = refl
  play-and_then (err e) rest s = refl

  module _ ⦃fa : FsmAction C A⦄ where
    play-each_then :
        (actions : List A) (rest : Task E C A) (s : Run S E C A)
        → play (each_then actions rest) s ≡ (execute_each actions >>= (λ u. play rest)) s
    unfolding serve execute_each
    play-each_then [] rest s = refl
    play-each_then (action ∷ actions) rest s =
        let (r, u) = act action s in
        play-and_then r (λ x. each_then actions rest) u
        ∙ continue-bind r (λ x. execute_each actions) (λ x. play rest)
            (λ x. play (each_then actions rest)) u (λ x. play-each_then actions rest u)

    module _ (failure_event : FsmError → E) where
      play-failure_then :
          (r : FsmResult (Unit {0})) (rest : Task E C A) (s : Run S E C A)
          → play (failure_then failure_event r rest) s
            ≡ (reported failure_event r >>= (λ u. play rest)) s
      unfolding serve
      play-failure_then (ok x) rest s = refl
      play-failure_then (err e) rest s =
          let (r, u) = handle (failure_event e) s in
          play-and_then r (λ actions. each_then actions rest) u
          ∙ continue-bind r execute_each (λ x. play rest) (λ actions. play (each_then actions rest))
              u (λ actions. play-each_then actions rest u)

      play-report_then :
          (actions : List A) (rest : Task E C A) (s : Run S E C A)
          → play (report_then failure_event actions rest) s
            ≡ (execute_or_report failure_event actions >>= (λ u. play rest)) s
      unfolding serve execute_or_report
      play-report_then [] rest s = refl
      play-report_then (action ∷ actions) rest s =
          let (r, u) = act action s in
          let (q, v) = reported failure_event r u in
          play-failure_then r (report_then failure_event actions rest) u
          ∙ continue-bind q (λ x. execute_or_report failure_event actions) (λ x. play rest)
              (λ x. play (report_then failure_event actions rest)) v
              (λ x. play-report_then actions rest v)

      module _ (receive : World C → E × World C) where
        -- The second half of a round.
        abbrev fed : Exec (Run S E C A) Unit
        fed = do
          event ← received failure_event receive
          actions ← handle event
          execute_or_report failure_event actions

        play-feed_then :
            (rest : Task E C A) (s : Run S E C A)
            → play (feed_then failure_event receive rest) s ≡ (fed >>= (λ u. play rest)) s
        unfolding serve
        play-feed_then rest s =
            let (event, w) = receive s.world in
            let (r, u) = handle event (record s { world = w }) in
            play-and_then r (λ actions. report_then failure_event actions rest) u
            ∙ continue-bind r (execute_or_report failure_event) (λ x. play rest)
                (λ actions. play (report_then failure_event actions rest)) u
                (λ actions. play-report_then actions rest u)

        play-round_then :
            (rest : Task E C A) (s : Run S E C A)
            → play (round_then failure_event receive rest) s
              ≡ (round failure_event receive >>= (λ u. play rest)) s
        unfolding serve round
        play-round_then rest s =
            let (r, u) = check_timeout s in
            let later = feed_then failure_event receive rest in
            play-and_then r (λ actions. each_then actions later) u
            ∙ continue-bind r (λ actions. execute_each actions >> fed) (λ x. play rest)
                (λ actions. play (each_then actions later)) u
                (λ actions.
                  play-each_then actions later u
                  ∙ (let (q, v) = execute_each actions u in
                      continue-bind q (λ x. fed) (λ x. play rest) (λ x. play later) v
                        (λ x. play-feed_then rest v)))

        play-supervise :
            (n : ℕ) (s : Run S E C A)
            → play (supervise failure_event receive n) s
              ≡ Supervisor.rounds failure_event receive n s
        unfolding supervise Supervisor.rounds serve
        play-supervise zero s = refl
        play-supervise (suc n) s =
            play-round_then (supervise failure_event receive n) s
            ∙ (λ i. (round failure_event receive >>= (λ x u. play-supervise n u i)) s)

module _ {S E C A : Type 0} ⦃sv : StateVariant S⦄ ⦃ev : EventVariant E⦄ (syn : Syn)
    (tokens : Tokens syn) (name : syn.ExprPath → String)
    (named : (p : syn.ExprPath) → last (syn.segments p) ≡ some (name p))
    (values : Values syn.Expr S E C A) (spec : FsmSpec syn.Ty syn.ExprPath syn.Expr) (fuel now : ℕ)
    (enough : rounds (to_decls spec) < fuel) ⦃fa : FsmAction C A⦄ (failure_event : FsmError → E)
    (receive : World C → E × World C) where
  -- The supervisor's loop with a machine that `fsm!` gives, for a table that has no row for a state
  -- called `_`: after any number of rounds, or at the error that ended it, its result, and the
  -- state, the deadline and the world, are those of the same program run with the interpreter of
  -- the table.
  pub supervised_means :
      (m : StateMachine S E C A) (w : World C) (n : ℕ)
      → FsmGives syn tokens name named values spec fuel now enough (returned m)
      → NoWildcard (table_rows name values spec.states)
      → seen (Supervisor.rounds failure_event receive n (record { machine = m; world = w }))
        ≡ result_of
            (rules_service (table_rules name values spec))
            (supervise failure_event receive n)
            (begin (table_rules {E = E} name values spec) (values.initial spec.initial_expr) now w)
  supervised_means m w n gives plain =
      let task = supervise failure_event receive n in
      sym (ap seen (play-supervise failure_event receive n (record { machine = m; world = w })))
      ∙ ap (λ x. (x.0.1, x.1))
          (fsm_means syn tokens name named values spec fuel now enough m w task gives plain)
