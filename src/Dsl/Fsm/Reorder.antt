-- ===== src/Dsl/Fsm/Reorder.antt =====
-- Tables whose `state` blocks stand in another order.
use obzenflow_fsm.Prelude.{
  ℕ, ◌<◌, String, Bool, true, false, Option, none, some, List, [], ◌∷◌, ◌++◌, ◌≡◌, ◌≢◌, refl, sym,
  ap, ◌∙◌, inl, inr, ◌==◌, is_some, arith, string_equality, pair_equality, Bool-cases,
}
use obzenflow_fsm.Types.{StateVariant, EventVariant, World, TransitionHandler}
use obzenflow_fsm.Machine.{StateMachine, deadline}
use obzenflow_fsm.Machine.Lookups.{SameLookups, serve-SameLookups}
use obzenflow_fsm.Machine.Serve.{Program, serve, machine_service}
use obzenflow_fsm.Machine.Rules.Refines.{seen}
use obzenflow_fsm.Builder.{returned}
use obzenflow_fsm.Dsl.Syn.{Syn, Tokens}
use obzenflow_fsm.Dsl.Spec.{OnHandler, StateBlock, FsmSpec}
use obzenflow_fsm.Dsl.Codegen.{last}
use obzenflow_fsm.Dsl.Eval.{Values}
use obzenflow_fsm.Dsl.Tables.{
  last_row, last_block, table_rows, block_rows, handler_rows, entry_part, exit_part, timeout_part,
}
use obzenflow_fsm.Dsl.Lookup.{last_row-append}
use obzenflow_fsm.Dsl.Parse.Print.{to_decls, rounds}
use obzenflow_fsm.Dsl.Fsm.Machines.{IsMachineOf, FsmGives, returned-IsMachineOf}

module _ {SynPath Expr : Type 0} (name : SynPath → String) where
  -- Blocks of different states change places; those of one state keep their order.
  pub data Reorder : List (StateBlock SynPath Expr) → List (StateBlock SynPath Expr) → Type 0 where
    same : {bs : List (StateBlock SynPath Expr)} → Reorder bs bs
    swap :
        (a b : StateBlock SynPath Expr) (bs : List (StateBlock SynPath Expr))
        → name a.state_path ≢ name b.state_path
        → Reorder (a ∷ b ∷ bs) (b ∷ a ∷ bs)
    later :
        (a : StateBlock SynPath Expr) {bs cs : List (StateBlock SynPath Expr)}
        → Reorder bs cs
        → Reorder (a ∷ bs) (a ∷ cs)
    twice :
        {ds bs cs : List (StateBlock SynPath Expr)} → Reorder ds bs → Reorder bs cs → Reorder ds cs

  last_block-Reorder :
      {X : Type 0} (part : StateBlock SynPath Expr → Option X)
      {bs cs : List (StateBlock SynPath Expr)} (n : String) (found : Option X)
      → Reorder bs cs
      → last_block name part bs n found ≡ last_block name part cs n found
  unfolding last_block
  last_block-Reorder part n found same = refl
  last_block-Reorder part n found (swap a b bs ne) = ap (last_block name part bs n) (
      ground (
        arith,
        ne,
        string_equality.beq_iff (name a.state_path) n,
        string_equality.beq_iff (name b.state_path) n,
      ))
  last_block-Reorder part n found (later a r) = last_block-Reorder part n _ r
  last_block-Reorder part n found (twice r r') =
      last_block-Reorder part n found r ∙ last_block-Reorder part n found r'

other_name : (x y s : String) → x ≢ y → (x == s) ≡ true → (y == s) ≡ false
other_name x y s ne h = ground (arith, ne, string_equality.beq_iff x s, string_equality.beq_iff y s)

module _ {SynPath Expr S E C A : Type 0} (name : SynPath → String)
    (values : Values Expr S E C A) where
  -- Rows of other states leave what was found.
  handler_rows-other :
      (timed : Bool) (hs : List (OnHandler SynPath Expr)) (state s event : String)
      (found : Option (TransitionHandler S E C A))
      → (state == s) ≡ false
      → last_row (handler_rows name values timed state hs) (s, event) found ≡ found
  unfolding last_row
  handler_rows-other timed [] state s event found h = refl
  handler_rows-other timed (x ∷ hs) state s event found h =
      handler_rows-other timed hs state s event _ h ∙ ground arith

  block_rows-other :
      (b : StateBlock SynPath Expr) (s event : String) (found : Option (TransitionHandler S E C A))
      → (name b.state_path == s) ≡ false
      → last_row (block_rows name values b) (s, event) found ≡ found
  block_rows-other b s event found h =
      handler_rows-other (is_some b.timeout) b.handlers (name b.state_path) s event found h

  last_row-swap :
      (a b : StateBlock SynPath Expr) (k : String × String)
      (found : Option (TransitionHandler S E C A))
      → name a.state_path ≢ name b.state_path
      → last_row (block_rows name values b) k (last_row (block_rows name values a) k found)
        ≡ last_row (block_rows name values a) k (last_row (block_rows name values b) k found)
  last_row-swap a b (s, event) found ne = elim (Bool-cases (name a.state_path == s)) [
    | inr other ↦
        let rows = block_rows name values b in
        ap (last_row rows (s, event)) (block_rows-other a s event found other)
        ∙ sym (block_rows-other a s event (last_row rows (s, event) found) other)
    | inl here ↦
        let rows = block_rows name values a in
        let other = other_name (name a.state_path) (name b.state_path) s ne here in
        block_rows-other b s event (last_row rows (s, event) found) other
        ∙ sym (ap (last_row rows (s, event)) (block_rows-other b s event found other))
  ]

  last_row-Reorder :
      {bs cs : List (StateBlock SynPath Expr)} (k : String × String)
      (found : Option (TransitionHandler S E C A))
      → Reorder name bs cs
      → last_row (table_rows name values bs) k found ≡ last_row (table_rows name values cs) k found
  unfolding table_rows
  last_row-Reorder k found same = refl
  last_row-Reorder k found (swap a b bs ne) =
      let rest = table_rows name values bs in
      let x = block_rows name values a in
      let y = block_rows name values b in
      last_row-append x (y ++ rest) k found
      ∙ last_row-append y rest k (last_row x k found)
      ∙ ap (last_row rest k) (last_row-swap a b k found ne)
      ∙ sym (last_row-append x rest k (last_row y k found))
      ∙ sym (last_row-append y (x ++ rest) k found)
  last_row-Reorder k found (later a {bs} {cs} r) =
      last_row-append (block_rows name values a) (table_rows name values bs) k found
      ∙ last_row-Reorder k _ r
      ∙ sym (last_row-append (block_rows name values a) (table_rows name values cs) k found)
  last_row-Reorder k found (twice r r') = last_row-Reorder k found r ∙ last_row-Reorder k found r'

  -- A machine of each of two tables that differ in the order of their blocks only.
  IsMachineOf-SameLookups :
      {Ty : Type 0} ⦃sv : StateVariant S⦄ (spec : FsmSpec Ty SynPath Expr)
      (bs : List (StateBlock SynPath Expr)) (now : ℕ) (m n : StateMachine S E C A)
      → Reorder name spec.states bs
      → IsMachineOf name values spec now m
      → IsMachineOf name values (record spec { states = bs }) now n
      → SameLookups m n
  IsMachineOf-SameLookups ⦃sv⦄ spec bs now m n r x y = record {
    current = x.initial ∙ sym y.initial;
    transitions = λ k. x.transitions k ∙ last_row-Reorder k none r ∙ sym (y.transitions k);
    entries = λ k.
        x.entries k ∙ last_block-Reorder name (entry_part name values) k none r ∙ sym (y.entries k);
    exits =
        λ k. x.exits k ∙ last_block-Reorder name (exit_part name values) k none r ∙ sym (y.exits k);
    timeouts = λ k.
        x.timeouts k
        ∙ last_block-Reorder name (timeout_part name values) k none r
        ∙ sym (y.timeouts k);
    unhandled = x.unhandled ∙ sym y.unhandled;
    timer =
        x.timer
        ∙ ap (λ o. deadline o now)
            (last_block-Reorder name (timeout_part name values)
              (sv.variant_name (values.initial spec.initial_expr)) none r)
        ∙ sym y.timer;
  }

module _ {S E C A : Type 0} ⦃sv : StateVariant S⦄ ⦃ev : EventVariant E⦄ (syn : Syn)
    (tokens : Tokens syn) (name : syn.ExprPath → String)
    (named : (p : syn.ExprPath) → last (syn.segments p) ≡ some (name p))
    (values : Values syn.Expr S E C A) (spec : FsmSpec syn.Ty syn.ExprPath syn.Expr)
    (bs : List (StateBlock syn.ExprPath syn.Expr)) (fuel now : ℕ)
    (enough : rounds (to_decls spec) < fuel)
    (enough' : rounds (to_decls (record spec { states = bs })) < fuel) where
  -- Two tables that differ in the order of their `state` blocks only, those of one state in the
  -- same order, and the machines that `fsm!` gives for them: any host, which may choose each call
  -- by the answers before and by the world, has the same answers and the same result with both,
  -- errors included, and leaves the same state, deadline and world.
  pub fsm-Reorder :
      {R : Type 0} (m n : StateMachine S E C A) (w : World C) (program : Program E C A R)
      → Reorder name spec.states bs
      → FsmGives syn tokens name named values spec fuel now enough (returned m)
      → FsmGives syn tokens name named values
          (record spec { states = bs })
          fuel
          now
          enough'
          (returned n)
      → seen (serve machine_service program (record { machine = m; world = w }))
        ≡ seen (serve machine_service program (record { machine = n; world = w }))
  fsm-Reorder m n w program order gives gives' =
      let spec' = record spec { states = bs } in
      serve-SameLookups program w m n (
        IsMachineOf-SameLookups name values spec bs now m n order
          (returned-IsMachineOf syn tokens name named values spec fuel now enough m gives)
          (returned-IsMachineOf syn tokens name named values spec' fuel now enough' n gives'))
