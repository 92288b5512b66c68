-- ===== src/Dsl/Fsm/Total.antt =====
-- What `fsm!` gives for any table: a panic or a machine.
use obzenflow_fsm.Prelude.{
  ℕ, ◌<◌, String, ◌<>◌, Option, none, some, List, [], ◌∷◌, ◌≡◌, refl, sym, ap, ◌∙◌, inl, inr, ◌==◌,
  any, is_some, if◌then◌else◌, Bool-cases, string_equality, pair_equality,
}
use obzenflow_fsm.Error.{FsmError, duplicate_handler, builder_error, display}
use obzenflow_fsm.Types.{StateVariant}
use obzenflow_fsm.Machine.{StateMachine}
use obzenflow_fsm.Builder.Validation.{try_build_error_iff}
use obzenflow_fsm.Builder.{build, built, returned, panicked, no_way_out}
use obzenflow_fsm.Builder.History.{verdict}
use obzenflow_fsm.Dsl.Syn.{Syn, Tokens}
use obzenflow_fsm.Dsl.Spec.{FsmSpec}
use obzenflow_fsm.Dsl.Codegen.{last}
use obzenflow_fsm.Dsl.Eval.{Values}
use obzenflow_fsm.Dsl.Tables.{repeats, last_block, table_rows, timeout_part}
use obzenflow_fsm.Dsl.Parse.Print.{to_decls, rounds}
use obzenflow_fsm.Dsl.Fsm.Machines.{
  IsMachineOf, FsmGives, TableHasWayOut, builder_of, duplicates-builder_of, initial-builder_of,
  strict-builder_of, table-of_HasWayOut, fsm-outcome, fsm_machine,
}

module _ {S E C A : Type 0} ⦃sv : StateVariant S⦄ (syn : Syn) (tokens : Tokens syn)
    (name : syn.ExprPath → String)
    (named : (p : syn.ExprPath) → last (syn.segments p) ≡ some (name p))
    (values : Values syn.Expr S E C A) (spec : FsmSpec syn.Ty syn.ExprPath syn.Expr) (fuel now : ℕ)
    (enough : rounds (to_decls spec) < fuel) where
  -- A table in which a row of a block without a timeout repeats the state and event of an earlier
  -- row: the block that `fsm!` leaves panics, and names the first such row.
  fsm_duplicate :
      (key : String × String) (rest : List (String × String))
      → repeats [] (table_rows name values spec.states) ≡ key ∷ rest
      → FsmGives syn tokens name named values spec fuel now enough
          (panicked ("FsmBuilder::build failed: " <> display (duplicate_handler key.0 key.1)))
  unfolding build built
  fsm_duplicate key rest h =
      let b = builder_of name values spec in
      fsm-outcome syn tokens name named values spec fuel now enough _ (
        ap built (
          (try_build_error_iff b now (duplicate_handler key.0 key.1)).1
            (inl (key, rest, duplicates-builder_of name values spec ∙ h, refl))))

  -- A table with no such repeated row, whose initial state has neither a row nor a timeout: the
  -- block that `fsm!` leaves panics, and names that state.
  fsm-no_way_out :
      repeats [] (table_rows name values spec.states) ≡ []
      → ¬ TableHasWayOut name values spec
      → FsmGives syn tokens name named values spec fuel now enough (
          panicked (
            "FsmBuilder::build failed: "
            <> display (no_way_out (sv.variant_name (values.initial spec.initial_expr)))))
  unfolding build built
  fsm-no_way_out unique no_way =
      let b = builder_of name values spec in
      fsm-outcome syn tokens name named values spec fuel now enough _ (
        ap built (
          (try_build_error_iff b now
              (no_way_out (sv.variant_name (values.initial spec.initial_expr)))).1
            (inr (
              duplicates-builder_of name values spec ∙ unique,
              strict-builder_of name values spec,
              λ way. no_way (table-of_HasWayOut name values spec way),
              ap (λ s. no_way_out (sv.variant_name s)) (sym (initial-builder_of name values spec)),
            ))))

  -- The error for a table whose initial state has neither a row nor a timeout.
  abbrev pub table_stays : Option FsmError
  table_stays =
      let n = sv.variant_name (values.initial spec.initial_expr) in
      if any (λ r. r.key.0 == n) (table_rows name values spec.states)
      then none
      else if is_some (last_block name (timeout_part name values) spec.states n none)
      then none
      else some
          (builder_error ("No transitions or timeout configured for initial state '" <> n <> "'"))

  -- A panic with the error's message, or the table's machine.
  abbrev pub Gives : Option FsmError → Type 0
  Gives (some e) =
      FsmGives syn tokens name named values spec fuel now enough
        (panicked ("FsmBuilder::build failed: " <> display e))
  Gives none =
      (m : StateMachine S E C A) × FsmGives syn tokens name named values spec fuel now enough
        (returned m)
      × IsMachineOf name values spec now m

  -- Any table, written as tokens: if a row of a block without a timeout repeats the state and event
  -- of an earlier row, `fsm!` gives a panic with the message for the first such key; if none does
  -- and the initial state has neither a row nor a timeout, a panic with the message for that; and
  -- otherwise a machine, the table's.
  pub fsm_total : Gives (verdict (repeats [] (table_rows name values spec.states)) table_stays)
  fsm_total = go (repeats [] (table_rows name values spec.states)) refl
    where
      n : String
      n = sv.variant_name (values.initial spec.initial_expr)

      go :
          (l : List (String × String))
          → repeats [] (table_rows name values spec.states) ≡ l
          → Gives (verdict l table_stays)
      go (key ∷ rest) p = fsm_duplicate key rest p
      go [] p = elim (Bool-cases (any (λ r. r.key.0 == n) (table_rows name values spec.states))) [
        | inl q ↦ rw q (fsm_machine syn tokens name named values spec fuel now enough p (inl q))
        | inr q ↦
            elim (Bool-cases
              (is_some (last_block name (timeout_part name values) spec.states n none))) [
                | inl t ↦
                    rw (q, t)
                      (fsm_machine syn tokens name named values spec fuel now enough p (inr t))
                | inr t ↦
                    rw (q, t)
                      (fsm-no_way_out p (λ way. elim way [ inl h ↦ cc (h, q) | inr h ↦ cc (h, t) ]))
              ]
      ]
