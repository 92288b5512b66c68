-- ===== src/Dsl/Parse/RoundTrip.antt =====
-- Tables that are written down, and what is read back.
use obzenflow_fsm.Prelude.{
  ℕ, ◌<◌, ◌≡◌, refl, sym, ap, ◌∙◌, Option, none, some, List, [], ◌∷◌, ◌++◌, append-nil,
  append_assoc,
}
use obzenflow_fsm.Dsl.Syn.{Syn, Tokens, Parsed, parsed, failed}
use obzenflow_fsm.Dsl.Spec.{TimeoutSpec, OnHandler, StateBlock, FsmSpec}
use obzenflow_fsm.Dsl.Parse.{Decls, parse}
use obzenflow_fsm.Dsl.Parse.Print.{
  Row, on_rows, timeout_rows, entry_rows, exit_rows, unhandled_decls, state_decls, to_rows,
  to_decls, rounds, put_table,
}
use obzenflow_fsm.Dsl.Parse.Tables.{
  and_then, bare, add_row, add_rows, add_decl, add_decls, parse-put_table,
}

module _ {Own SynPath Expr : Type 0} where
  add_rows-append :
      (b : StateBlock SynPath Expr) (xs ys : List (Row SynPath Expr))
      → add_rows {Own = Own} b (xs ++ ys) ≡ and_then (add_rows b xs) (λ c. add_rows c ys)
  unfolding add_rows
  add_rows-append b [] ys = refl
  add_rows-append b (x ∷ xs) ys = go (add_row b x) (λ c. add_rows-append c xs ys)
    where
      go :
          (r : Parsed Own (StateBlock SynPath Expr))
          → ((c : StateBlock SynPath Expr)
              → add_rows {Own = Own} c (xs ++ ys) ≡ and_then (add_rows c xs) (λ d. add_rows d ys))
          → and_then r (λ c. add_rows c (xs ++ ys))
            ≡ and_then (and_then r (λ c. add_rows c xs)) (λ d. add_rows d ys)
      go (parsed c) rest = rest c
      go (failed e) rest = refl

  add_rows-on_rows :
      (b : StateBlock SynPath Expr) (hs : List (OnHandler SynPath Expr))
      → add_rows {Own = Own} b (on_rows hs) ≡ parsed (record b { handlers = b.handlers ++ hs })
  unfolding add_rows add_row on_rows
  add_rows-on_rows b [] = ap (λ l. parsed (record b { handlers = l })) (sym (append-nil b.handlers))
  add_rows-on_rows b (h ∷ hs) =
      add_rows-on_rows (record b { handlers = b.handlers ++ h ∷ [] }) hs
      ∙ ap (λ l. parsed (record b { handlers = l })) (append_assoc b.handlers (h ∷ []) hs)

  -- The rows that are there at most once, added to a block that has none of them.
  add_rows_rest :
      (p : SynPath) (hs : List (OnHandler SynPath Expr)) (t : Option (TimeoutSpec Expr))
      (e x : Option Expr)
      → add_rows {Own = Own}
          (record (bare p) { handlers = hs })
          (timeout_rows t ++ (entry_rows e ++ exit_rows x))
        ≡ parsed (record { state_path = p; handlers = hs; timeout = t; entry = e; exit = x })
  unfolding add_rows add_row timeout_rows entry_rows exit_rows
  add_rows_rest p hs none none none = refl
  add_rows_rest p hs none none (some x) = refl
  add_rows_rest p hs none (some e) none = refl
  add_rows_rest p hs none (some e) (some x) = refl
  add_rows_rest p hs (some t) none none = refl
  add_rows_rest p hs (some t) none (some x) = refl
  add_rows_rest p hs (some t) (some e) none = refl
  add_rows_rest p hs (some t) (some e) (some x) = refl

  add_rows-to_rows :
      (b : StateBlock SynPath Expr)
      → add_rows {Own = Own} (bare b.state_path) (to_rows b) ≡ parsed b
  unfolding to_rows
  add_rows-to_rows b =
      let rest =
        timeout_rows b.timeout ++ (entry_rows b.entry ++ exit_rows {SynPath = SynPath} b.exit) in
      add_rows-append (bare b.state_path) (on_rows b.handlers) rest
      ∙ ap (λ r. and_then r (λ c. add_rows c rest))
          (add_rows-on_rows (bare b.state_path) b.handlers)
      ∙ add_rows_rest b.state_path b.handlers b.timeout b.entry b.exit

  add_decls-state_decls :
      (found : Decls SynPath Expr) (bs : List (StateBlock SynPath Expr))
      → add_decls {Own = Own} found (state_decls bs)
        ≡ parsed (record found { states = found.states ++ bs })
  unfolding add_decls add_decl state_decls
  add_decls-state_decls found [] =
      ap (λ l. parsed (record found { states = l })) (sym (append-nil found.states))
  add_decls-state_decls found (b ∷ bs) = rw (add_rows-to_rows b) (
      add_decls-state_decls (record found { states = found.states ++ b ∷ [] }) bs
      ∙ ap (λ l. parsed (record found { states = l })) (append_assoc found.states (b ∷ []) bs))

  add_decls_all :
      (u : Option Expr) (bs : List (StateBlock SynPath Expr))
      → add_decls {Own = Own}
          (record { states = []; unhandled = none })
          (unhandled_decls u ++ state_decls bs)
        ≡ parsed (record { states = bs; unhandled = u })
  unfolding unhandled_decls
  add_decls_all none bs = add_decls-state_decls (record { states = []; unhandled = none }) bs
  add_decls_all (some e) bs =
      unfold add_decls add_decl in
      add_decls-state_decls (record { states = []; unhandled = some e }) bs

-- Every table, written as tokens, is parsed back to itself with no token left, given more fuel than
-- it has rows and declarations.
pub parse-put_spec :
    (syn : Syn) (tokens : Tokens syn) (fuel : ℕ) (spec : FsmSpec syn.Ty syn.ExprPath syn.Expr)
    → rounds (to_decls spec) < fuel
    → parse syn fuel (
        put_table syn tokens spec.state_ty spec.event_ty spec.context_ty spec.action_ty
          spec.initial_expr
          (to_decls spec))
      ≡ parsed (spec, tokens.empty)
parse-put_spec syn tokens fuel spec h =
    parse-put_table syn tokens fuel spec.state_ty spec.event_ty spec.context_ty spec.action_ty
      spec.initial_expr (to_decls spec) h
    ∙ unfold to_decls in rw (add_decls_all {Own = syn.Own} spec.unhandled spec.states)
