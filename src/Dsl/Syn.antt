-- ===== src/Dsl/Syn.antt =====
-- The crate `syn` as the macros use it: a stream of tokens, from which identifiers, punctuation,
-- types, expressions, paths and braced groups are parsed. It is not part of the repository, and
-- is a parameter: its operations, with what the macros rely on.
use obzenflow_fsm.Prelude.{ℕ, ◌≤◌, ◌<◌, String, Bool, true, false, ◌≡◌, ◌⊎◌, inr, List}

-- `syn::Error`: one of syn's own, or `Error::new_spanned(ident, message)`. `out_of_fuel` belongs to
-- the model's loops.
pub data ParseError (Own : Type 0) : Type 0 where
  own : Own → ParseError Own
  new_spanned : (ident message : String) → ParseError Own
  out_of_fuel : ParseError Own

pub data Parsed (Own A : Type 0) : Type 0 where
  parsed : A → Parsed Own A
  failed : ParseError Own → Parsed Own A

pub record Syn : Type 1 where
  pub Stream : Type 0
  pub Ty : Type 0
  pub Expr : Type 0
  pub ExprPath : Type 0
  pub Own : Type 0
  -- the identifiers of a path's segments
  pub segments : ExprPath → List String
  pub is_empty : Stream → Bool
  pub ident : Stream → Own ⊎ (String × Stream)
  pub colon : Stream → Own ⊎ (Unit {0} × Stream)
  pub semi : Stream → Own ⊎ (Unit {0} × Stream)
  pub fat_arrow : Stream → Own ⊎ (Unit {0} × Stream)
  pub ty : Stream → Own ⊎ (Ty × Stream)
  pub expr : Stream → Own ⊎ (Expr × Stream)
  pub expr_path : Stream → Own ⊎ (ExprPath × Stream)
  -- `braced!(content in input)`: the content, and what follows the group
  pub braced : Stream → Own ⊎ (Stream × Stream)

module _ (syn : Syn) where
  open syn use {
    Stream, Ty, Expr, ExprPath, is_empty, ident, colon, semi, fat_arrow, ty, expr, expr_path,
    braced,
  }

  -- A parser takes tokens from the front of its stream: it never gives any back, and an
  -- identifier and a braced group are at least one token.
  pub record Consumes : Type 0 where
    pub size : Stream → ℕ
    pub ident_lt : (s r : Stream) (x : String) → ident s ≡ inr (x, r) → size r < size s
    pub colon_le : (s r : Stream) (x : Unit) → colon s ≡ inr (x, r) → size r ≤ size s
    pub semi_le : (s r : Stream) (x : Unit) → semi s ≡ inr (x, r) → size r ≤ size s
    pub fat_arrow_le : (s r : Stream) (x : Unit) → fat_arrow s ≡ inr (x, r) → size r ≤ size s
    pub ty_le : (s r : Stream) (x : Ty) → ty s ≡ inr (x, r) → size r ≤ size s
    pub expr_le : (s r : Stream) (x : Expr) → expr s ≡ inr (x, r) → size r ≤ size s
    pub expr_path_le : (s r : Stream) (x : ExprPath) → expr_path s ≡ inr (x, r) → size r ≤ size s
    pub braced_lt : (s r c : Stream) → braced s ≡ inr (c, r) → (size r < size s) × (size c < size s)

  -- Tokens put in front of a stream, and that each parser reads its own back: a type up to a
  -- semicolon, an expression up to a semicolon or an arrow, a path up to an arrow or a brace.
  pub record Tokens : Type 0 where
    pub empty : Stream
    pub put_ident : String → Stream → Stream
    pub put_colon : Stream → Stream
    pub put_semi : Stream → Stream
    pub put_fat_arrow : Stream → Stream
    pub put_ty : Ty → Stream → Stream
    pub put_expr : Expr → Stream → Stream
    pub put_expr_path : ExprPath → Stream → Stream
    pub put_braced : Stream → Stream → Stream
    pub is_empty-empty : is_empty empty ≡ true
    pub is_empty-put_ident : (x : String) (s : Stream) → is_empty (put_ident x s) ≡ false
    pub ident-put_ident : (x : String) (s : Stream) → ident (put_ident x s) ≡ inr (x, s)
    pub colon-put_colon : (s : Stream) → colon (put_colon s) ≡ inr (tt, s)
    pub semi-put_semi : (s : Stream) → semi (put_semi s) ≡ inr (tt, s)
    pub fat_arrow-put_fat_arrow : (s : Stream) → fat_arrow (put_fat_arrow s) ≡ inr (tt, s)
    pub ty-put_ty : (t : Ty) (s : Stream) → ty (put_ty t (put_semi s)) ≡ inr (t, put_semi s)
    pub expr-put_expr_semi :
        (e : Expr) (s : Stream) → expr (put_expr e (put_semi s)) ≡ inr (e, put_semi s)
    pub expr-put_expr_arrow :
        (e : Expr) (s : Stream) → expr (put_expr e (put_fat_arrow s)) ≡ inr (e, put_fat_arrow s)
    pub expr_path-put_arrow :
        (p : ExprPath) (s : Stream)
        → expr_path (put_expr_path p (put_fat_arrow s)) ≡ inr (p, put_fat_arrow s)
    pub expr_path-put_braced :
        (p : ExprPath) (c s : Stream)
        → expr_path (put_expr_path p (put_braced c s)) ≡ inr (p, put_braced c s)
    pub braced-put_braced : (c s : Stream) → braced (put_braced c s) ≡ inr (c, s)
