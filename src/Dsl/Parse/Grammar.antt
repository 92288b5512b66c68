-- ===== src/Dsl/Parse/Grammar.antt =====
-- The grammar of a table, with no parser state, fuel or checks: which streams of tokens read as
-- which rows and declarations. A reading of `syn`'s is a token or a phrase of the grammar.
pub mod Rows
pub mod Sound
pub mod Complete
pub mod Accepts
use obzenflow_fsm.Prelude.{String, none, true, false, ◌≡◌, inr, List, [], ◌∷◌}
use obzenflow_fsm.Dsl.Syn.{Syn, parsed}
use obzenflow_fsm.Dsl.Spec.{FsmSpec}
use obzenflow_fsm.Dsl.Parse.{Decls}
use obzenflow_fsm.Dsl.Parse.Tables.{add_decls}
use obzenflow_fsm.Dsl.Parse.Print.{Row, Decl, on, timeout, on_entry, on_exit, state, unhandled}

module _ (syn : Syn) where
  open syn use {
    Stream, Ty, Expr, ExprPath, Own, is_empty, ident, colon, semi, fat_arrow, ty, expr, expr_path,
    braced,
  }

  abbrev pub Word : String → Stream → Stream → Type 0
  Word keyword s r = ident s ≡ inr (keyword, r)

  -- `expr;`
  abbrev pub Ending : Expr → Stream → Stream → Type 0
  Ending e s r = (t : Stream) × (expr s ≡ inr (e, t)) × (semi t ≡ inr (tt, r))

  -- `=> expr;`
  abbrev pub Arrow : Expr → Stream → Stream → Type 0
  Arrow e s r = (t : Stream) × (fat_arrow s ≡ inr (tt, t)) × Ending e t r

  -- `on path => expr;`, `timeout expr => expr;`, `on_entry expr;`, `on_exit expr;`
  abbrev pub RowAt : Row ExprPath Expr → Stream → Stream → Type 0
  RowAt (on p e) s r = (t u : Stream) × Word "on" s t × (expr_path t ≡ inr (p, u)) × Arrow e u r
  RowAt (timeout d e) s r =
      (t u : Stream) × Word "timeout" s t × (expr t ≡ inr (d, u)) × Arrow e u r
  RowAt (on_entry e) s r = (t : Stream) × Word "on_entry" s t × Ending e t r
  RowAt (on_exit e) s r = (t : Stream) × Word "on_exit" s t × Ending e t r

  -- Rows up to the end of the stream.
  abbrev pub RowsAt : List (Row ExprPath Expr) → Stream → Stream → Type 0
  RowsAt [] s r = (is_empty s ≡ true) × (r ≡ s)
  RowsAt (x ∷ xs) s r = (is_empty s ≡ false) × ((t : Stream) × RowAt x s t × RowsAt xs t r)

  -- `state path { rows }`, `unhandled => expr;`
  abbrev pub DeclAt : Decl ExprPath Expr → Stream → Stream → Type 0
  DeclAt (state p rs) s r =
      (t u content end : Stream) × Word "state" s t
      × (expr_path t ≡ inr (p, u))
      × (braced u ≡ inr (content, r))
      × RowsAt rs content end
  DeclAt (unhandled e) s r = (t : Stream) × Word "unhandled" s t × Arrow e t r

  abbrev pub DeclsAt : List (Decl ExprPath Expr) → Stream → Stream → Type 0
  DeclsAt [] s r = (is_empty s ≡ true) × (r ≡ s)
  DeclsAt (x ∷ xs) s r = (is_empty s ≡ false) × ((t : Stream) × DeclAt x s t × DeclsAt xs t r)

  -- `keyword: type;`
  abbrev pub HeaderTyAt : String → Ty → Stream → Stream → Type 0
  HeaderTyAt keyword x s r =
      (t u v : Stream) × Word keyword s t
      × (colon t ≡ inr (tt, u))
      × (ty u ≡ inr (x, v))
      × (semi v ≡ inr (tt, r))

  -- `keyword: expr;`
  abbrev pub HeaderExprAt : String → Expr → Stream → Stream → Type 0
  HeaderExprAt keyword x s r =
      (t u : Stream) × Word keyword s t × (colon t ≡ inr (tt, u)) × Ending x u r

  -- The header, in its order, and the declarations, in any.
  pub record TableAt (st ev cx ac : Ty) (initial : Expr) (ds : List (Decl ExprPath Expr))
      (s r : Stream) : Type 0 where
    pub s1 : Stream
    pub s2 : Stream
    pub s3 : Stream
    pub s4 : Stream
    pub s5 : Stream
    pub state_at : HeaderTyAt "state" st s s1
    pub event_at : HeaderTyAt "event" ev s1 s2
    pub context_at : HeaderTyAt "context" cx s2 s3
    pub action_at : HeaderTyAt "action" ac s3 s4
    pub initial_at : HeaderExprAt "initial" initial s4 s5
    pub decls_at : DeclsAt ds s5 r

  -- The stream reads as a table of the grammar with no row or declaration twice that can stand only
  -- once, and the table is the sum of its rows and declarations.
  pub record IsTable (s r : Stream) (spec : FsmSpec Ty ExprPath Expr) : Type 0 where
    pub decls_of : List (Decl ExprPath Expr)
    pub found : Decls ExprPath Expr
    pub at :
        TableAt spec.state_ty spec.event_ty spec.context_ty spec.action_ty spec.initial_expr
          decls_of s r
    pub sums :
        add_decls {Own = Own} (record { states = []; unhandled = none }) decls_of ≡ parsed found
    pub states_found : spec.states ≡ found.states
    pub unhandled_found : spec.unhandled ≡ found.unhandled
