-- ===== src/Dsl/Parse/Reads.antt =====
-- The laws of `Tokens` as lemmas, and the set of them.
use obzenflow_fsm.Prelude.{String, true, false, ◌≡◌, inr}
use obzenflow_fsm.Dsl.Syn.{Syn, Tokens}

module _ (syn : Syn) (tokens : Tokens syn) where
  open syn use {
    Stream, Ty, Expr, ExprPath, is_empty, ident, colon, semi, fat_arrow, ty, expr, expr_path,
    braced,
  }
  open tokens use {
    empty, put_ident, put_colon, put_semi, put_fat_arrow, put_ty, put_expr, put_expr_path,
    put_braced,
  }

  pub at_end : is_empty empty ≡ true
  at_end = tokens.is_empty-empty

  pub not_at_end : (x : String) (s : Stream) → is_empty (put_ident x s) ≡ false
  not_at_end = tokens.is_empty-put_ident

  pub read_ident : (x : String) (s : Stream) → ident (put_ident x s) ≡ inr (x, s)
  read_ident = tokens.ident-put_ident

  pub read_colon : (s : Stream) → colon (put_colon s) ≡ inr (tt, s)
  read_colon = tokens.colon-put_colon

  pub read_semi : (s : Stream) → semi (put_semi s) ≡ inr (tt, s)
  read_semi = tokens.semi-put_semi

  pub read_fat_arrow : (s : Stream) → fat_arrow (put_fat_arrow s) ≡ inr (tt, s)
  read_fat_arrow = tokens.fat_arrow-put_fat_arrow

  pub read_ty : (t : Ty) (s : Stream) → ty (put_ty t (put_semi s)) ≡ inr (t, put_semi s)
  read_ty = tokens.ty-put_ty

  pub read_expr_semi :
      (e : Expr) (s : Stream) → expr (put_expr e (put_semi s)) ≡ inr (e, put_semi s)
  read_expr_semi = tokens.expr-put_expr_semi

  pub read_expr_arrow :
      (e : Expr) (s : Stream) → expr (put_expr e (put_fat_arrow s)) ≡ inr (e, put_fat_arrow s)
  read_expr_arrow = tokens.expr-put_expr_arrow

  pub read_path_arrow :
      (p : ExprPath) (s : Stream)
      → expr_path (put_expr_path p (put_fat_arrow s)) ≡ inr (p, put_fat_arrow s)
  read_path_arrow = tokens.expr_path-put_arrow

  pub read_path_braced :
      (p : ExprPath) (c s : Stream)
      → expr_path (put_expr_path p (put_braced c s)) ≡ inr (p, put_braced c s)
  read_path_braced = tokens.expr_path-put_braced

  pub read_braced : (c s : Stream) → braced (put_braced c s) ≡ inr (c, s)
  read_braced = tokens.braced-put_braced

pub ruleset reads = (
  at_end, not_at_end, read_ident, read_colon, read_semi, read_fat_arrow, read_ty, read_expr_semi,
  read_expr_arrow, read_path_arrow, read_path_braced, read_braced,
)
