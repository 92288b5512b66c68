-- ===== src/Dsl/Parse/Print.antt =====
-- Tables as text: rows and declarations in any order, written as tokens.
use obzenflow_fsm.Prelude.{ℕ, suc, ◌+◌, String, Option, none, some, List, [], ◌∷◌, ◌++◌}
use obzenflow_fsm.Dsl.Syn.{Syn, Tokens}
use obzenflow_fsm.Dsl.Spec.{TimeoutSpec, OnHandler, StateBlock, FsmSpec}

-- One row of a state block.
pub data Row (SynPath Expr : Type 0) : Type 0 where
  on : SynPath → Expr → Row SynPath Expr
  timeout : (duration handler : Expr) → Row SynPath Expr
  on_entry : Expr → Row SynPath Expr
  on_exit : Expr → Row SynPath Expr

-- One declaration after the header.
pub data Decl (SynPath Expr : Type 0) : Type 0 where
  state : SynPath → List (Row SynPath Expr) → Decl SynPath Expr
  unhandled : Expr → Decl SynPath Expr

module _ {SynPath Expr : Type 0} where
  unfoldable pub on_rows : List (OnHandler SynPath Expr) → List (Row SynPath Expr)
  on_rows [] = []
  on_rows (h ∷ hs) = on h.event_path h.handler ∷ on_rows hs

  unfoldable pub timeout_rows : Option (TimeoutSpec Expr) → List (Row SynPath Expr)
  timeout_rows none = []
  timeout_rows (some t) = timeout t.duration t.handler ∷ []

  unfoldable pub entry_rows : Option Expr → List (Row SynPath Expr)
  entry_rows none = []
  entry_rows (some e) = on_entry e ∷ []

  unfoldable pub exit_rows : Option Expr → List (Row SynPath Expr)
  exit_rows none = []
  exit_rows (some e) = on_exit e ∷ []

  unfoldable pub unhandled_decls : Option Expr → List (Decl SynPath Expr)
  unhandled_decls none = []
  unhandled_decls (some e) = unhandled e ∷ []

  -- One way to write a block, and a table.
  unfoldable pub to_rows : StateBlock SynPath Expr → List (Row SynPath Expr)
  unfolding on_rows timeout_rows entry_rows exit_rows
  to_rows b =
      on_rows b.handlers ++ (timeout_rows b.timeout ++ (entry_rows b.entry ++ exit_rows b.exit))

  unfoldable pub state_decls : List (StateBlock SynPath Expr) → List (Decl SynPath Expr)
  state_decls [] = []
  state_decls (b ∷ bs) = state b.state_path (to_rows b) ∷ state_decls bs

  unfoldable pub to_decls : {Ty : Type 0} → FsmSpec Ty SynPath Expr → List (Decl SynPath Expr)
  unfolding state_decls unhandled_decls
  to_decls spec = unhandled_decls spec.unhandled ++ state_decls spec.states

  -- How many rounds the parser's loops take in all.
  abbrev pub row_count : List (Row SynPath Expr) → ℕ
  row_count [] = 0
  row_count (r ∷ rs) = suc (row_count rs)

  abbrev pub rounds : List (Decl SynPath Expr) → ℕ
  rounds [] = 0
  rounds (state p rs ∷ ds) = suc (row_count rs + rounds ds)
  rounds (unhandled e ∷ ds) = suc (rounds ds)

module _ (syn : Syn) (tokens : Tokens syn) where
  open syn use {Stream, Ty, Expr, ExprPath}
  open tokens use {
    empty, put_ident, put_colon, put_semi, put_fat_arrow, put_ty, put_expr, put_expr_path,
    put_braced,
  }

  unfoldable pub put_row : Row ExprPath Expr → Stream → Stream
  put_row (on p e) s = put_ident "on" (put_expr_path p (put_fat_arrow (put_expr e (put_semi s))))
  put_row (timeout d h) s =
      put_ident "timeout" (put_expr d (put_fat_arrow (put_expr h (put_semi s))))
  put_row (on_entry h) s = put_ident "on_entry" (put_expr h (put_semi s))
  put_row (on_exit h) s = put_ident "on_exit" (put_expr h (put_semi s))

  unfoldable pub put_rows : List (Row ExprPath Expr) → Stream
  put_rows [] = empty
  put_rows (r ∷ rs) = put_row r (put_rows rs)

  unfoldable pub put_decl : Decl ExprPath Expr → Stream → Stream
  put_decl (state p rs) s = put_ident "state" (put_expr_path p (put_braced (put_rows rs) s))
  put_decl (unhandled e) s = put_ident "unhandled" (put_fat_arrow (put_expr e (put_semi s)))

  unfoldable pub put_decls : List (Decl ExprPath Expr) → Stream
  put_decls [] = empty
  put_decls (d ∷ ds) = put_decl d (put_decls ds)

  unfoldable pub put_header_ty : String → Ty → Stream → Stream
  put_header_ty keyword t s = put_ident keyword (put_colon (put_ty t (put_semi s)))

  unfoldable pub put_header_expr : String → Expr → Stream → Stream
  put_header_expr keyword e s = put_ident keyword (put_colon (put_expr e (put_semi s)))

  unfoldable pub put_table : (st ev cx ac : Ty) → Expr → List (Decl ExprPath Expr) → Stream
  unfolding put_header_ty put_header_expr
  put_table st ev cx ac initial ds = put_header_ty "state" st (
      put_header_ty "event" ev (
        put_header_ty "context" cx
          (put_header_ty "action" ac (put_header_expr "initial" initial (put_decls ds)))))
