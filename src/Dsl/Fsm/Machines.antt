-- ===== src/Dsl/Fsm/Machines.antt =====
-- The machine that an `fsm!` table gives.
use mathlib.Core.Option
use obzenflow_fsm.Prelude.{
  ℕ, ◌<◌, String, true, none, some, List, [], ◌≡◌, refl, sym, ap, subst, ◌∙◌, ◌⊎◌, inl, inr, ◌==◌,
  any, is_some, arith, string_equality, pair_equality,
}
use obzenflow_fsm.HashMap
use obzenflow_fsm.Exec.{ok, FsmResult-cases}
use obzenflow_fsm.Types.{StateVariant}
use obzenflow_fsm.Machine
use obzenflow_fsm.Machine.{StateMachine, deadline}
use obzenflow_fsm.Builder
use obzenflow_fsm.Builder.{
  FsmBuilder, Outcome, returned, panicked, build, built, try_build, no_way_out,
}
use obzenflow_fsm.Builder.Validation.{machine_of, HasWayOut, try_build_ok_iff}
use obzenflow_fsm.Dsl.Syn.{Syn, Tokens}
use obzenflow_fsm.Dsl.Spec.{FsmSpec}
use obzenflow_fsm.Dsl.Codegen.{Stmt, last}
use obzenflow_fsm.Dsl.Eval.{Values}
use obzenflow_fsm.Dsl.Tables.{
  last_row, repeats, last_block, table_rows, entry_part, exit_part, timeout_part,
}
use obzenflow_fsm.Dsl.Expand.{add_blocks}
use obzenflow_fsm.Dsl.Expand.Blocks.{start, run-expand_fsm_spec}
use obzenflow_fsm.Dsl.Lookup.{
  transitions-add_blocks, duplicates-add_blocks, entries-add_blocks, exits-add_blocks,
  timeouts-add_blocks, rest_of-add_blocks, keys-add_blocks,
}
use obzenflow_fsm.Dsl.Parse.Print.{to_decls, rounds, put_table}
use obzenflow_fsm.Dsl.Parse.RoundTrip.{parse-put_spec}
use obzenflow_fsm.Dsl.Fsm.{block, fsm, run_block}

module _ {Ty SynPath Expr S E C A : Type 0} ⦃sv : StateVariant S⦄ (name : SynPath → String)
    (values : Values Expr S E C A) where
  -- A machine that holds what the table says: at each key the last of its rows, for each state
  -- the last entry handler, exit handler and timeout of its blocks, and the hook; it is in the
  -- initial state, with that state's deadline.
  pub record IsMachineOf (spec : FsmSpec Ty SynPath Expr) (now : ℕ) (m : StateMachine S E C A)
      : Type 0 where
    pub initial : m.current_state ≡ values.initial spec.initial_expr
    pub transitions :
        (k : String × String)
        → HashMap.get m.transitions k ≡ last_row (table_rows name values spec.states) k none
    pub entries :
        (n : String)
        → HashMap.get m.entry_handlers n
          ≡ last_block name (entry_part name values) spec.states n none
    pub exits :
        (n : String)
        → HashMap.get m.exit_handlers n ≡ last_block name (exit_part name values) spec.states n none
    pub timeouts :
        (n : String)
        → HashMap.get m.timeout_handlers n
          ≡ last_block name (timeout_part name values) spec.states n none
    pub unhandled : m.unhandled_handler ≡ Option.map values.unhandled spec.unhandled
    pub timer :
        m.state_timeout
        ≡ deadline
            (last_block name
              (timeout_part name values)
              spec.states
              (sv.variant_name (values.initial spec.initial_expr))
              none)
            now

  -- The initial state has a row, or a timeout.
  abbrev pub TableHasWayOut : FsmSpec Ty SynPath Expr → Type 0
  TableHasWayOut spec =
      let n = sv.variant_name (values.initial spec.initial_expr) in
      (any (λ r. r.key.0 == n) (table_rows name values spec.states) ≡ true)
      ⊎ (is_some (last_block name (timeout_part name values) spec.states n none) ≡ true)

  abbrev pub builder_of : FsmSpec Ty SynPath Expr → FsmBuilder S E C A
  builder_of spec = add_blocks name values (start values spec) spec.states

  pub duplicates-builder_of :
      (spec : FsmSpec Ty SynPath Expr)
      → (builder_of spec).duplicate_handlers ≡ repeats [] (table_rows name values spec.states)
  unfolding Builder.new
  duplicates-builder_of spec =
      duplicates-add_blocks name values (start values spec) [] spec.states
        (λ k. unfold HashMap.get in refl)

  pub initial-builder_of :
      (spec : FsmSpec Ty SynPath Expr)
      → (builder_of spec).initial_state ≡ values.initial spec.initial_expr
  unfolding Builder.new
  initial-builder_of spec = (rest_of-add_blocks name values (start values spec) spec.states).0

  pub strict-builder_of :
      (spec : FsmSpec Ty SynPath Expr) → (builder_of spec).strict_validation ≡ true
  unfolding Builder.new
  strict-builder_of spec = (rest_of-add_blocks name values (start values spec) spec.states).1

  timeouts-builder_of :
      (spec : FsmSpec Ty SynPath Expr) (n : String)
      → HashMap.get (builder_of spec).timeout_handlers n
        ≡ last_block name (timeout_part name values) spec.states n none
  unfolding Builder.new HashMap.get
  timeouts-builder_of spec n = timeouts-add_blocks name values (start values spec) spec.states n

  keys-builder_of :
      (spec : FsmSpec Ty SynPath Expr) (n : String)
      → any (λ k. k.0 == n) (HashMap.keys (builder_of spec).transitions)
        ≡ any (λ r. r.key.0 == n) (table_rows name values spec.states)
  unfolding Builder.new
  keys-builder_of spec n =
      keys-add_blocks name values (λ k. k.0 == n) (start values spec) spec.states ∙ ground arith

  -- The machine of the table's builder is the table's.
  machine_of-IsMachineOf :
      (spec : FsmSpec Ty SynPath Expr) (now : ℕ)
      → IsMachineOf spec now (machine_of (builder_of spec) now)
  unfolding Machine.new Builder.new HashMap.get
  machine_of-IsMachineOf spec now =
      let b = start values spec in
      let ks = spec.states in
      record {
        initial = initial-builder_of spec;
        transitions = transitions-add_blocks name values b ks;
        entries = entries-add_blocks name values b ks;
        exits = exits-add_blocks name values b ks;
        timeouts = timeouts-builder_of spec;
        unhandled = (rest_of-add_blocks name values b ks).2;
        timer =
            ap (λ o. deadline o now)
              (ap (λ s. HashMap.get (builder_of spec).timeout_handlers (sv.variant_name s))
                  (initial-builder_of spec)
                ∙ timeouts-builder_of spec (sv.variant_name (values.initial spec.initial_expr)));
      }

  HasWayOut-of_table :
      (spec : FsmSpec Ty SynPath Expr) → TableHasWayOut spec → HasWayOut (builder_of spec)
  HasWayOut-of_table spec (inl h) = inl (rw initial-builder_of (keys-builder_of spec _ ∙ h))
  HasWayOut-of_table spec (inr h) = inr (rw (initial-builder_of, timeouts-builder_of) h)

  pub table-of_HasWayOut :
      (spec : FsmSpec Ty SynPath Expr) → HasWayOut (builder_of spec) → TableHasWayOut spec
  table-of_HasWayOut spec (inl h) =
      inl (sym (keys-builder_of spec _) ∙ (rw initial-builder_of at h))
  table-of_HasWayOut spec (inr h) = inr (rw (initial-builder_of, timeouts-builder_of) at h)

try_build-of_build :
    {S E C A : Type 0} ⦃sv : StateVariant S⦄ (b : FsmBuilder S E C A) (now : ℕ)
    (m : StateMachine S E C A)
    → build b now ≡ returned m
    → try_build b now ≡ ok m
unfolding build built
try_build-of_build b now m h = elim (FsmResult-cases (try_build b now)) [
  | inl (n, p) ↦ ground arith
  | inr (e, p) ↦ ground arith
]

-- Running the expansion of any table builds the builder of its blocks.
module _ {S E C A : Type 0} ⦃sv : StateVariant S⦄ (syn : Syn) (tokens : Tokens syn)
    (name : syn.ExprPath → String)
    (named : (p : syn.ExprPath) → last (syn.segments p) ≡ some (name p))
    (values : Values syn.Expr S E C A) (spec : FsmSpec syn.Ty syn.ExprPath syn.Expr) (fuel now : ℕ)
    (enough : rounds (to_decls spec) < fuel) where
  -- The tokens of the table.
  abbrev pub written : syn.Stream
  written =
      put_table syn tokens spec.state_ty spec.event_ty spec.context_ty spec.action_ty
        spec.initial_expr (to_decls spec)

  -- The macro leaves a block, and running it ends in `end`.
  abbrev pub FsmGives : Outcome (StateMachine S E C A) → Type 0
  FsmGives end =
      (stmts : List (Stmt syn.Ty syn.ExprPath syn.Expr)) × (fsm syn fuel written ≡ block stmts)
      × (run_block values stmts now ≡ some end)

  fsm-build : FsmGives (build (builder_of name values spec) now)
  unfolding fsm run_block
  fsm-build =
      let (stmts, p, q) = run-expand_fsm_spec syn.segments name named values spec in
      (
        stmts,
        rw (parse-put_spec syn tokens fuel spec enough, p),
        ap (Option.map (λ b. build b now)) q,
      )

  pub fsm-outcome :
      (end : Outcome (StateMachine S E C A))
      → build (builder_of name values spec) now ≡ end
      → FsmGives end
  fsm-outcome end h = subst FsmGives h fsm-build

  -- A table, written as tokens, in which no row of a block without a timeout repeats the state and
  -- event of an earlier row, and whose initial state has a row or a timeout: `fsm!` gives a
  -- machine, and it is the table's.
  pub fsm_machine :
      repeats [] (table_rows name values spec.states) ≡ []
      → TableHasWayOut name values spec
      → (m : StateMachine S E C A) × FsmGives (returned m) × IsMachineOf name values spec now m
  unfolding build built
  fsm_machine unique way_out =
      let b = builder_of name values spec in
      (
        machine_of b now,
        fsm-outcome (returned (machine_of b now)) (
            ap built (
              (try_build_ok_iff b now (machine_of b now)).1 (
                duplicates-builder_of name values spec ∙ unique,
                inr (HasWayOut-of_table name values spec way_out),
                refl,
              ))),
        machine_of-IsMachineOf name values spec now,
      )

  -- Conversely, a machine that the block returns is the table's.
  pub returned-IsMachineOf :
      (m : StateMachine S E C A) → FsmGives (returned m) → IsMachineOf name values spec now m
  returned-IsMachineOf m (stmts, p, q) =
      let b = builder_of name values spec in
      let (stmts', p', q') = fsm-build in
      let same : stmts' ≡ stmts = cc in
      let ended : build b now ≡ returned m = cc (q', ap (λ x. run_block values x now) same, q) in
      subst (λ x. IsMachineOf name values spec now x)
        (((try_build_ok_iff b now m).0 (try_build-of_build b now m ended)).2)
        (machine_of-IsMachineOf name values spec now)
