-- ===== src/Machine/Actions.antt =====
-- `execute_actions`, and the first action that fails.
use obzenflow_fsm.Prelude.{List, [], ◌∷◌, ◌++◌, ◌≡◌, refl, ◌↔◌, inl, inr, arith}
use obzenflow_fsm.Error.{FsmError}
use obzenflow_fsm.Exec.{ok, err, ◌>>◌, FsmResult-cases}
use obzenflow_fsm.Types.{World, FsmAction}
use obzenflow_fsm.Machine.{execute_actions}

module _ {C A : Type 0} ⦃fa : FsmAction C A⦄ where
  -- Executing two lists one after the other is executing their concatenation, errors included.
  pub execute_actions-append :
      (xs ys : List A) (w : World C)
      → execute_actions (xs ++ ys) w ≡ (execute_actions xs >> execute_actions ys) w
  unfolding execute_actions
  execute_actions-append [] ys w = refl
  execute_actions-append (x ∷ xs) ys w = elim (FsmResult-cases (fa.execute x w).0) [
    | inl (a, p) ↦ rw p (execute_actions-append xs ys (fa.execute x w).1)
    | inr (e, p) ↦ rw p
  ]

  -- The list has a first action that fails, with `e`: all before it have been executed, and none
  -- after it.
  pub record FirstFailure (xs : List A) (w : World C) (e : FsmError) (w' : World C) : Type 0 where
    pub before : List A
    pub action : A
    pub after : List A
    pub split : xs ≡ before ++ action ∷ after
    pub reached : World C
    pub succeeded : execute_actions before w ≡ (ok tt, reached)
    pub failed : fa.execute action reached ≡ (err e, w')

  FirstFailure-of_error :
      (xs : List A) (w : World C) (e : FsmError) (w' : World C)
      → execute_actions xs w ≡ (err e, w')
      → FirstFailure xs w e w'
  unfolding execute_actions
  FirstFailure-of_error [] w e w' h = cc
  FirstFailure-of_error (x ∷ xs) w e w' h = elim (FsmResult-cases (fa.execute x w).0) [
    | inr (d, p) ↦ record {
      before = [];
      action = x;
      after = xs;
      split = refl;
      reached = w;
      succeeded = refl;
      failed = ground arith;
    }
    | inl (a, p) ↦
        let later = FirstFailure-of_error xs (fa.execute x w).1 e w' (rw p at h) in
        record {
          before = x ∷ later.before;
          action = later.action;
          after = later.after;
          split = cc (later.split);
          reached = later.reached;
          succeeded = rw p later.succeeded;
          failed = later.failed;
        }
  ]

  error_of_FirstFailure :
      (xs : List A) (w : World C) (e : FsmError) (w' : World C)
      → FirstFailure xs w e w'
      → execute_actions xs w ≡ (err e, w')
  error_of_FirstFailure xs w e w' f =
      rw (f.split, execute_actions-append, f.succeeded) (unfold execute_actions in rw f.failed)

  -- Executing a list ends in an error, in a world, exactly if some action of the list fails with
  -- that error in that world after all the actions before it have succeeded, and then none
  -- after it is executed.
  pub execute_actions_error_iff :
      (xs : List A) (w : World C) (e : FsmError) (w' : World C)
      → (execute_actions xs w ≡ (err e, w')) ↔ FirstFailure xs w e w'
  execute_actions_error_iff xs w e w' =
      (FirstFailure-of_error xs w e w', error_of_FirstFailure xs w e w')
