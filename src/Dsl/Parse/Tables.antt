-- ===== src/Dsl/Parse/Tables.antt =====
-- What the parser makes of a table that is written as tokens, whatever its rows.
use obzenflow_fsm.Prelude.{
  ℕ, zero, suc, ◌≤◌, ◌<◌, ◌≡◌, refl, ◌⊎◌, inl, inr, beq_refl, String, none, some, List, [], ◌∷◌,
  ◌++◌, if◌then◌else◌, is_some, arith, string_equality, Bool-cases,
}
use obzenflow_fsm.Dsl.Syn.{Syn, Tokens, ParseError, Parsed, new_spanned, parsed, failed}
use obzenflow_fsm.Dsl.Spec.{StateBlock, FsmSpec}
use obzenflow_fsm.Dsl.Parse.{
  Block, Decls, on_row, timeout_row, entry_row, exit_row, row, rows, within, state_decl,
  unhandled_decl, decl, decls, parse, expect, header_ty, header_expr,
}
use obzenflow_fsm.Dsl.Parse.Reads.{reads}
use obzenflow_fsm.Dsl.Parse.Print.{
  Row, Decl, on, timeout, on_entry, on_exit, state, unhandled, row_count, rounds, put_row, put_rows,
  put_decl, put_decls, put_header_ty, put_header_expr, put_table,
}

pub Parsed-cases :
    {Own A : Type 0} (x : Parsed Own A)
    → ((a : A) × (x ≡ parsed a)) ⊎ ((e : ParseError Own) × (x ≡ failed e))
Parsed-cases (parsed a) = inl (a, refl)
Parsed-cases (failed e) = inr (e, refl)

rounds-tail :
    {SynPath Expr : Type 0} (d : Decl SynPath Expr) (ds : List (Decl SynPath Expr))
    → rounds ds < rounds (d ∷ ds)
rounds-tail (state p rs) ds = omega arith
rounds-tail (unhandled e) ds = omega arith

-- The result of a step that may be refused.
abbrev pub and_then : {Own A B : Type 0} → Parsed Own A → (A → Parsed Own B) → Parsed Own B
and_then (parsed a) f = f a
and_then (failed e) f = failed e

abbrev refuse : {Own A : Type 0} → String → String → Parsed Own A
refuse ident message = failed (new_spanned ident message)

abbrev pub bare : {SynPath Expr : Type 0} → SynPath → StateBlock SynPath Expr
bare p = record { state_path = p; handlers = []; timeout = none; entry = none; exit = none }

module _ {Own SynPath Expr : Type 0} where
  -- A row added to a block: the rows for events are collected in order, and of each other kind
  -- there is at most one.
  unfoldable pub add_row :
      StateBlock SynPath Expr → Row SynPath Expr → Parsed Own (StateBlock SynPath Expr)
  add_row b (on p e) =
      parsed (record b { handlers = b.handlers ++ record { event_path = p; handler = e } ∷ [] })
  add_row b (timeout d h) =
      if is_some b.timeout
      then refuse "timeout" "duplicate `timeout` for state"
      else parsed (record b { timeout = some (record { duration = d; handler = h }) })
  add_row b (on_entry h) =
      if is_some b.entry
      then refuse "on_entry" "duplicate `on_entry` for state"
      else parsed (record b { entry = some h })
  add_row b (on_exit h) =
      if is_some b.exit
      then refuse "on_exit" "duplicate `on_exit` for state"
      else parsed (record b { exit = some h })

  unfoldable pub add_rows :
      StateBlock SynPath Expr → List (Row SynPath Expr) → Parsed Own (StateBlock SynPath Expr)
  add_rows b [] = parsed b
  add_rows b (r ∷ rs) = and_then (add_row b r) (λ c. add_rows c rs)

  unfoldable pub add_decl : Decls SynPath Expr → Decl SynPath Expr → Parsed Own (Decls SynPath Expr)
  add_decl found (state p rs) =
      and_then (add_rows (bare p) rs)
        (λ b. parsed (record found { states = found.states ++ b ∷ [] }))
  add_decl found (unhandled e) =
      if is_some found.unhandled
      then refuse "unhandled" "duplicate `unhandled` handler at top-level"
      else parsed (record found { unhandled = some e })

  unfoldable pub add_decls :
      Decls SynPath Expr → List (Decl SynPath Expr) → Parsed Own (Decls SynPath Expr)
  add_decls found [] = parsed found
  add_decls found (d ∷ ds) = and_then (add_decl found d) (λ f. add_decls f ds)

module _ (syn : Syn) (tokens : Tokens syn) where
  open syn use {Stream, Ty, Expr, ExprPath, Own}
  open tokens use {empty}

  -- A result with the stream that is left.
  abbrev with_rest : {A : Type 0} → Parsed Own A → Stream → Parsed Own (A × Stream)
  with_rest x s = and_then x (λ a. parsed (a, s))

  rows-put_row :
      (fuel : ℕ) (b : Block syn) (r : Row ExprPath Expr) (s : Stream)
      → rows syn (suc fuel) b (put_row syn tokens r s)
        ≡ and_then (add_row b r) (λ c. rows syn fuel c s)
  unfolding rows row on_row timeout_row entry_row exit_row put_row add_row
  rows-put_row fuel b (on p e) s = simp reads
  rows-put_row fuel b (timeout d h) s = elim (Bool-cases (is_some b.timeout)) [
    | inl p ↦ simp (reads, p)
    | inr p ↦ simp (reads, p)
  ]
  rows-put_row fuel b (on_entry h) s = elim (Bool-cases (is_some b.entry)) [
    | inl p ↦ simp (reads, p)
    | inr p ↦ simp (reads, p)
  ]
  rows-put_row fuel b (on_exit h) s = elim (Bool-cases (is_some b.exit)) [
    | inl p ↦ simp (reads, p)
    | inr p ↦ simp (reads, p)
  ]

  rows-put_rows :
      (fuel : ℕ) (b : Block syn) (rs : List (Row ExprPath Expr))
      → row_count rs < fuel
      → rows syn fuel b (put_rows syn tokens rs) ≡ with_rest (add_rows b rs) empty
  unfolding put_rows add_rows
  rows-put_rows zero b rs h = absurd (omega arith)
  rows-put_rows (suc fuel) b [] h = unfold rows in simp reads
  rows-put_rows (suc fuel) b (r ∷ rs) h =
      rw rows-put_row (go (add_row b r) (λ c. rows-put_rows fuel c rs (omega arith)))
    where
      go :
          (x : Parsed Own (Block syn))
          → ((c : Block syn)
              → rows syn fuel c (put_rows syn tokens rs) ≡ with_rest (add_rows c rs) empty)
          → and_then x (λ c. rows syn fuel c (put_rows syn tokens rs))
            ≡ with_rest (and_then x (λ c. add_rows c rs)) empty
      go (parsed c) rest = rest c
      go (failed e) rest = refl

  decls-put_decl :
      (inner fuel : ℕ) (found : Decls ExprPath Expr) (d : Decl ExprPath Expr)
      (ds : List (Decl ExprPath Expr)) (s : Stream)
      → rounds (d ∷ ds) ≤ inner
      → decls syn inner (suc fuel) found (put_decl syn tokens d s)
        ≡ and_then (add_decl found d) (λ f. decls syn inner fuel f s)
  unfolding decls decl state_decl unhandled_decl within put_decl add_decl
  decls-put_decl inner fuel found (unhandled e) ds s h =
      elim (Bool-cases (is_some found.unhandled)) [
        | inl p ↦ simp (reads, p)
        | inr p ↦ simp (reads, p)
      ]
  decls-put_decl inner fuel found (state p rs) ds s h =
      simp (reads, rows-put_rows inner (bare p) rs (omega arith))
        (elim (Parsed-cases (add_rows {Own = Own} (bare p) rs)) [
          | inl (b, q) ↦ rw q
          | inr (e, q) ↦ rw q
        ])

  decls-put_decls :
      (inner fuel : ℕ) (found : Decls ExprPath Expr) (ds : List (Decl ExprPath Expr))
      → rounds ds < fuel
      → rounds ds ≤ inner
      → decls syn inner fuel found (put_decls syn tokens ds) ≡ with_rest (add_decls found ds) empty
  unfolding put_decls add_decls
  decls-put_decls inner zero found ds h k = absurd (omega arith)
  decls-put_decls inner (suc fuel) found [] h k = unfold decls in simp reads
  decls-put_decls inner (suc fuel) found (d ∷ ds) h k =
      rw (decls-put_decl inner fuel found d ds (put_decls syn tokens ds) k) (
        go (add_decl found d) (λ f.
          decls-put_decls inner fuel f ds (omega (arith, rounds-tail d ds))
            (omega (arith, rounds-tail d ds))))
    where
      go :
          (x : Parsed Own (Decls ExprPath Expr))
          → ((f : Decls ExprPath Expr)
              → decls syn inner fuel f (put_decls syn tokens ds) ≡ with_rest (add_decls f ds) empty)
          → and_then x (λ f. decls syn inner fuel f (put_decls syn tokens ds))
            ≡ with_rest (and_then x (λ f. add_decls f ds)) empty
      go (parsed f) rest = rest f
      go (failed e) rest = refl

  header_ty-put_header_ty :
      (keyword message : String) (t : Ty) (s : Stream)
      → header_ty syn keyword message (put_header_ty syn tokens keyword t s) ≡ parsed (t, s)
  unfolding header_ty expect put_header_ty
  header_ty-put_header_ty keyword message t s = simp (reads, beq_refl)

  header_expr-put_header_expr :
      (keyword message : String) (e : Expr) (s : Stream)
      → header_expr syn keyword message (put_header_expr syn tokens keyword e s) ≡ parsed (e, s)
  unfolding header_expr expect put_header_expr
  header_expr-put_header_expr keyword message e s = simp (reads, beq_refl)

  -- The parsed table: the header's types and expression, and what the declarations add up to.
  abbrev pub table : Ty → Ty → Ty → Ty → Expr → Decls ExprPath Expr → FsmSpec Ty ExprPath Expr
  table st ev cx ac initial found = record {
    state_ty = st;
    event_ty = ev;
    context_ty = cx;
    action_ty = ac;
    initial_expr = initial;
    states = found.states;
    unhandled = found.unhandled;
  }

  -- Any table, written as tokens with its rows and declarations in any order, is parsed to the sum
  -- of its rows and declarations, or to the error of the first row or declaration that is there
  -- twice, given more fuel than it has rows and declarations.
  pub parse-put_table :
      (fuel : ℕ) (st ev cx ac : Ty) (initial : Expr) (ds : List (Decl ExprPath Expr))
      → rounds ds < fuel
      → parse syn fuel (put_table syn tokens st ev cx ac initial ds)
        ≡ and_then
            (add_decls (record { states = []; unhandled = none }) ds)
            (λ found. parsed (table st ev cx ac initial found, empty))
  unfolding parse put_table
  parse-put_table fuel st ev cx ac initial ds h =
      simp
        (
          header_ty-put_header_ty,
          header_expr-put_header_expr,
          decls-put_decls fuel fuel (record { states = []; unhandled = none }) ds h (omega arith),
        )
        (elim (Parsed-cases (add_decls {Own = Own} (record { states = []; unhandled = none }) ds)) [
          | inl (b, q) ↦ rw q
          | inr (e, q) ↦ rw q
        ])
