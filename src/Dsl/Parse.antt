-- ===== src/Dsl/Parse.antt =====
-- `impl Parse for FsmSpec` (obzenflow-fsm-macros/src/parse.rs). A loop takes fuel; how much is
-- enough stands in Dsl/Parse/Termination.antt.
pub mod Termination
pub mod Print
pub mod RoundTrip
pub mod Reads
pub mod Grammar
pub mod Tables
use obzenflow_fsm.Prelude.{
  ℕ, zero, suc, ◌⊎◌, inl, inr, String, Bool, Option, none, some, List, [], ◌∷◌, ◌++◌, ◌==◌,
  if◌then◌else◌, is_some, string_equality,
}
use obzenflow_fsm.Dsl.Syn.{Syn, ParseError, Parsed, own, new_spanned, out_of_fuel, parsed, failed}
use obzenflow_fsm.Dsl.Spec.{TimeoutSpec, OnHandler, StateBlock, FsmSpec}

abbrev pub Parser : Type 0 → Type 0 → Type 0 → Type 0
Parser Stream Own A = Stream → Parsed Own (A × Stream)

module _ {Stream Own A B : Type 0} where
  abbrev pub continue : Parsed Own (A × Stream) → (A → Stream → Parsed Own B) → Parsed Own B
  continue (parsed (a, r)) f = f a r
  continue (failed e) f = failed e

module _ {Stream Own A B : Type 0} where
  infixl 10 ◌>>=◌ ◌>>◌
  abbrev pub ◌>>=◌ : Parser Stream Own A → (A → Parser Stream Own B) → Parser Stream Own B
  ◌>>=◌ m f s = continue (m s) f

  abbrev pub ◌>>◌ : Parser Stream Own A → Parser Stream Own B → Parser Stream Own B
  m >> n = m >>= λ _. n

module _ {Stream Own A : Type 0} where
  abbrev pub pure : A → Parser Stream Own A
  pure a s = parsed (a, s)

  -- A parser of `syn`, whose errors `?` passes on.
  abbrev pub taken : Own ⊎ (A × Stream) → Parsed Own (A × Stream)
  taken (inl e) = failed (own e)
  taken (inr x) = parsed x

  abbrev pub take : (Stream → Own ⊎ (A × Stream)) → Parser Stream Own A
  take p s = taken (p s)

  -- `return Err(Error::new_spanned(ident, message))`
  abbrev pub spanned : String → String → Parser Stream Own A
  spanned ident message s = failed (new_spanned ident message)

-- What the top-level loop fills.
pub record Decls (SynPath Expr : Type 0) : Type 0 where
  pub states : List (StateBlock SynPath Expr)
  pub unhandled : Option Expr

module _ (syn : Syn) where
  open syn use {
    Stream, Ty, Expr, ExprPath, Own, is_empty, ident, colon, semi, fat_arrow, ty, expr, expr_path,
    braced,
  }

  abbrev pub Block : Type 0
  Block = StateBlock ExprPath Expr

  abbrev pub Spec : Type 0
  Spec = FsmSpec Ty ExprPath Expr

  expect : String → String → Parser Stream Own String
  expect keyword message = do id ← take ident; if id == keyword then pure id else spanned id message

  -- `keyword: Type;`
  header_ty : String → String → Parser Stream Own Ty
  unfolding expect
  header_ty keyword message = do expect keyword message; take colon; t ← take ty; take semi; pure t

  -- `initial: Expr;`
  header_expr : String → String → Parser Stream Own Expr
  unfolding expect
  header_expr keyword message = do
    expect keyword message
    take colon
    e ← take expr
    take semi
    pure e

  on_row : Block → Parser Stream Own Block
  on_row block = do
    event_path ← take expr_path
    take fat_arrow
    handler ← take expr
    take semi
    pure (record block {
      handlers = block.handlers ++ record { event_path = event_path; handler = handler } ∷ [];
    })

  timeout_row : String → Block → Parser Stream Own Block
  timeout_row kw block =
      if is_some block.timeout then spanned kw "duplicate `timeout` for state" else do
        duration ← take expr
        take fat_arrow
        handler ← take expr
        take semi
        pure (record block { timeout = some (record { duration = duration; handler = handler }) })

  entry_row : String → Block → Parser Stream Own Block
  entry_row kw block =
      if is_some block.entry
      then spanned kw "duplicate `on_entry` for state"
      else do handler ← take expr; take semi; pure (record block { entry = some handler })

  exit_row : String → Block → Parser Stream Own Block
  exit_row kw block =
      if is_some block.exit
      then spanned kw "duplicate `on_exit` for state"
      else do handler ← take expr; take semi; pure (record block { exit = some handler })

  -- The branches on `inner_kw`.
  row : String → Block → Parser Stream Own Block
  row kw block =
      if kw == "on"
      then on_row block
      else if kw == "timeout"
      then timeout_row kw block
      else if kw == "on_entry"
      then entry_row kw block
      else if kw == "on_exit"
      then exit_row kw block
      else spanned kw "expected `on`, `timeout`, `on_entry`, or `on_exit`"

  -- `while !content.is_empty()`
  pub rows : ℕ → Block → Parser Stream Own Block
  rows zero block content = failed out_of_fuel
  rows (suc fuel) block content =
      let more = (do kw ← take ident; changed ← row kw block; rows fuel changed) content in
      if is_empty content then pure block content else more

  -- The content of a block is parsed to its end, and the rest of the input goes on.
  within : ℕ → Block → Stream → Parser Stream Own Block
  within fuel block content rest = continue (rows fuel block content) (λ b _. parsed (b, rest))

  state_decl : ℕ → Decls ExprPath Expr → Parser Stream Own (Decls ExprPath Expr)
  state_decl fuel found = do
    state_path ← take expr_path
    content ← take braced
    block ←
        within fuel
          (record {
            state_path = state_path;
            handlers = [];
            timeout = none;
            entry = none;
            exit = none;
          })
          content
    pure (record found { states = found.states ++ block ∷ [] })

  unhandled_decl : String → Decls ExprPath Expr → Parser Stream Own (Decls ExprPath Expr)
  unhandled_decl kw found =
      if is_some found.unhandled
      then spanned kw "duplicate `unhandled` handler at top-level"
      else do
        take fat_arrow
        handler ← take expr
        take semi
        pure (record found { unhandled = some handler })

  -- The branches on `kw`.
  decl : ℕ → String → Decls ExprPath Expr → Parser Stream Own (Decls ExprPath Expr)
  decl fuel kw found =
      if kw == "state"
      then state_decl fuel found
      else if kw == "unhandled"
      then unhandled_decl kw found
      else spanned kw "expected `state` or `unhandled`"

  -- `while !input.is_empty()`; each block's loop has the same fuel, `inner`.
  decls : (inner fuel : ℕ) → Decls ExprPath Expr → Parser Stream Own (Decls ExprPath Expr)
  decls inner zero found input = failed out_of_fuel
  decls inner (suc fuel) found input =
      let more =
        (do kw ← take ident; changed ← decl inner kw found; decls inner fuel changed) input in
      if is_empty input then pure found input else more

  pub parse : ℕ → Parser Stream Own Spec
  parse fuel = do
    state_ty ← header_ty "state" "expected `state:`"
    event_ty ← header_ty "event" "expected `event:`"
    context_ty ← header_ty "context" "expected `context:`"
    action_ty ← header_ty "action" "expected `action:`"
    initial_expr ← header_expr "initial" "expected `initial:`"
    found ← decls fuel fuel (record { states = []; unhandled = none })
    pure (record {
      state_ty = state_ty;
      event_ty = event_ty;
      context_ty = context_ty;
      action_ty = action_ty;
      initial_expr = initial_expr;
      states = found.states;
      unhandled = found.unhandled;
    })
