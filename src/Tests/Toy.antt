-- ===== src/Tests/Toy.antt =====
-- A toy of `syn`, which shows that what is assumed of it can hold: a stream of tokens in which a
-- type, an expression and a path are one token each.
use obzenflow_fsm.Prelude.{
  ℕ, suc, ◌+◌, ◌≤◌, ◌<◌, String, Bool, true, false, [], ◌∷◌, ◌≡◌, refl, ◌⊎◌, inl, inr, arith,
}
use obzenflow_fsm.Dsl.Syn.{Syn, Consumes, Tokens}

pub data Stream : Type 0 where
  nil : Stream
  word : String → Stream → Stream
  colon_then semi_then arrow_then : Stream → Stream
  ty_then expr_then : String → Stream → Stream
  path_then : String × String → Stream → Stream
  group : (content rest : Stream) → Stream

abbrev pub nothing_left : Stream → Bool
nothing_left nil = true
nothing_left _ = false

abbrev pub no {ℓ} : {A : Type ℓ} → Unit {0} ⊎ A
no = inl tt

abbrev pub toy_ident : Stream → Unit {0} ⊎ (String × Stream)
toy_ident (word x s) = inr (x, s)
toy_ident _ = no

abbrev pub toy_colon : Stream → Unit {0} ⊎ (Unit {0} × Stream)
toy_colon (colon_then s) = inr (tt, s)
toy_colon _ = no

abbrev pub toy_semi : Stream → Unit {0} ⊎ (Unit {0} × Stream)
toy_semi (semi_then s) = inr (tt, s)
toy_semi _ = no

abbrev pub toy_arrow : Stream → Unit {0} ⊎ (Unit {0} × Stream)
toy_arrow (arrow_then s) = inr (tt, s)
toy_arrow _ = no

abbrev pub toy_ty : Stream → Unit {0} ⊎ (String × Stream)
toy_ty (ty_then x s) = inr (x, s)
toy_ty _ = no

abbrev pub toy_expr : Stream → Unit {0} ⊎ (String × Stream)
toy_expr (expr_then x s) = inr (x, s)
toy_expr _ = no

abbrev pub toy_path : Stream → Unit {0} ⊎ ((String × String) × Stream)
toy_path (path_then p s) = inr (p, s)
toy_path _ = no

abbrev pub toy_braced : Stream → Unit {0} ⊎ (Stream × Stream)
toy_braced (group c s) = inr (c, s)
toy_braced _ = no

-- A path is of two segments.
abbrev pub toy : Syn
toy = record {
  Stream = Stream;
  Ty = String;
  Expr = String;
  ExprPath = String × String;
  Own = Unit;
  segments = λ p. p.0 ∷ p.1 ∷ [];
  is_empty = nothing_left;
  ident = toy_ident;
  colon = toy_colon;
  semi = toy_semi;
  fat_arrow = toy_arrow;
  ty = toy_ty;
  expr = toy_expr;
  expr_path = toy_path;
  braced = toy_braced;
}

abbrev pub toy_tokens : Tokens toy
toy_tokens = record {
  empty = nil;
  put_ident = word;
  put_colon = colon_then;
  put_semi = semi_then;
  put_fat_arrow = arrow_then;
  put_ty = ty_then;
  put_expr = expr_then;
  put_expr_path = path_then;
  put_braced = group;
  is_empty-empty = refl;
  is_empty-put_ident = λ x s. refl;
  ident-put_ident = λ x s. refl;
  colon-put_colon = λ s. refl;
  semi-put_semi = λ s. refl;
  fat_arrow-put_fat_arrow = λ s. refl;
  ty-put_ty = λ t s. refl;
  expr-put_expr_semi = λ e s. refl;
  expr-put_expr_arrow = λ e s. refl;
  expr_path-put_arrow = λ p s. refl;
  expr_path-put_braced = λ p c s. refl;
  braced-put_braced = λ c s. refl;
}

abbrev pub toy_size : Stream → ℕ
toy_size nil = 0
toy_size (word x s) = suc (toy_size s)
toy_size (colon_then s) = suc (toy_size s)
toy_size (semi_then s) = suc (toy_size s)
toy_size (arrow_then s) = suc (toy_size s)
toy_size (ty_then x s) = suc (toy_size s)
toy_size (expr_then x s) = suc (toy_size s)
toy_size (path_then p s) = suc (toy_size s)
toy_size (group c s) = suc (toy_size c + toy_size s)

-- Each parser takes its token or fails.
abbrev pub Takes : {A : Type 0} → (Stream → Unit {0} ⊎ (A × Stream)) → Type 0
Takes {A} m = (s r : Stream) (x : A) → m s ≡ inr (x, r) → toy_size r < toy_size s

pub toy_ident-Takes : Takes toy_ident
toy_ident-Takes (word y s) r x h = ground arith
toy_ident-Takes _ r x h = cc

pub toy_colon-Takes : Takes toy_colon
toy_colon-Takes (colon_then s) r x h = ground arith
toy_colon-Takes _ r x h = cc

pub toy_semi-Takes : Takes toy_semi
toy_semi-Takes (semi_then s) r x h = ground arith
toy_semi-Takes _ r x h = cc

pub toy_arrow-Takes : Takes toy_arrow
toy_arrow-Takes (arrow_then s) r x h = ground arith
toy_arrow-Takes _ r x h = cc

pub toy_ty-Takes : Takes toy_ty
toy_ty-Takes (ty_then y s) r x h = ground arith
toy_ty-Takes _ r x h = cc

pub toy_expr-Takes : Takes toy_expr
toy_expr-Takes (expr_then y s) r x h = ground arith
toy_expr-Takes _ r x h = cc

pub toy_path-Takes : Takes toy_path
toy_path-Takes (path_then y s) r x h = ground arith
toy_path-Takes _ r x h = cc

pub takes_braced :
    (s r c : Stream)
    → toy_braced s ≡ inr (c, r)
    → (toy_size r < toy_size s) × (toy_size c < toy_size s)
takes_braced (group d s) r c h = ground arith
takes_braced _ r c h = cc

pub le_of_lt : (m n : ℕ) → m < n → m ≤ n
le_of_lt m n h = omega arith

abbrev pub toy_consumes : Consumes toy
toy_consumes = record {
  size = toy_size;
  ident_lt = λ s r x h. toy_ident-Takes s r x h;
  colon_le = λ s r x h. le_of_lt _ _ (toy_colon-Takes s r x h);
  semi_le = λ s r x h. le_of_lt _ _ (toy_semi-Takes s r x h);
  fat_arrow_le = λ s r x h. le_of_lt _ _ (toy_arrow-Takes s r x h);
  ty_le = λ s r x h. le_of_lt _ _ (toy_ty-Takes s r x h);
  expr_le = λ s r x h. le_of_lt _ _ (toy_expr-Takes s r x h);
  expr_path_le = λ s r x h. le_of_lt _ _ (toy_path-Takes s r x h);
  braced_lt = takes_braced;
}
