-- ===== src/Dsl/Parse/Termination.antt =====
-- The loops of the parser, and the tokens that are left.
use obzenflow_fsm.Prelude.{
  ℕ, zero, suc, ◌≤◌, ◌<◌, ◌≡◌, ◌≢◌, refl, ◌⊎◌, inl, inr, String, Bool, true, false, ◌==◌,
  if◌then◌else◌, arith, string_equality, Bool-cases,
}
use obzenflow_fsm.Dsl.Syn.{Syn, Consumes, Parsed, out_of_fuel, parsed, failed}
use obzenflow_fsm.Dsl.Parse.{
  Parser, Block, Decls, ◌>>=◌, continue, pure, taken, take, spanned, expect, header_ty, header_expr,
  on_row, timeout_row, entry_row, exit_row, row, rows, within, state_decl, unhandled_decl, decl,
  decls, parse,
}

module _ (syn : Syn) (laws : Consumes syn) where
  open syn use {
    Stream, Own, Expr, ExprPath, ident, colon, semi, fat_arrow, ty, expr, expr_path, braced,
  }
  open laws use {
    size, ident_lt, colon_le, semi_le, fat_arrow_le, ty_le, expr_le, expr_path_le, braced_lt,
  }

  -- A result with at most `k` tokens left, or an error other than the model's own.
  abbrev pub Ends : {A : Type 0} → ℕ → Parsed Own (A × Stream) → Type 0
  Ends k (parsed (a, r)) = size r ≤ k
  Ends k (failed e) = e ≢ out_of_fuel

  Ends-le : {A : Type 0} (j k : ℕ) (x : Parsed Own (A × Stream)) → j ≤ k → Ends j x → Ends k x
  Ends-le j k (parsed (a, r)) le h = omega arith
  Ends-le j k (failed e) le h = h

  Ends-continue :
      {A B : Type 0} (j k : ℕ) (x : Parsed Own (A × Stream)) (f : A → Parser Stream Own B)
      → Ends j x
      → ((a : A) (r : Stream) → size r ≤ j → Ends k (f a r))
      → Ends k (continue x f)
  Ends-continue j k (parsed (a, r)) f h g = g a r h
  Ends-continue j k (failed e) f h g = h

  Ends-taken :
      {A : Type 0} (k : ℕ) (x : Own ⊎ (A × Stream))
      → ((a : A) (r : Stream) → x ≡ inr (a, r) → size r ≤ k)
      → Ends k (taken x)
  Ends-taken k (inl e) h = λ p. cc
  Ends-taken k (inr (a, r)) h = h a r refl

  -- A parser that never runs out of fuel and gives no token back.
  record Halts {A : Type 0} (m : Parser Stream Own A) : Type 0 where
    at : (s : Stream) → Ends (size s) (m s)

  Halts-bind :
      {A B : Type 0} (m : Parser Stream Own A) (f : A → Parser Stream Own B)
      → Halts m
      → ((a : A) → Halts (f a))
      → Halts (m >>= f)
  Halts-bind m f hm hf = record {
    at = λ s.
        Ends-continue (size s) (size s) (m s) f (hm.at s)
          (λ a r le. Ends-le (size r) (size s) (f a r) le ((hf a).at r));
  }

  Halts-pure : {A : Type 0} (a : A) → Halts (pure a)
  Halts-pure a = record { at = λ s. omega arith }

  Halts-spanned : {A : Type 0} (x message : String) → Halts (spanned {A = A} x message)
  Halts-spanned x message = record { at = λ s p. cc }

  Halts-if :
      {A : Type 0} (b : Bool) (m n : Parser Stream Own A)
      → Halts m
      → Halts n
      → Halts (if b then m else n)
  Halts-if true m n hm hn = hm
  Halts-if false m n hm hn = hn

  Halts-take :
      {A : Type 0} (p : Stream → Own ⊎ (A × Stream))
      → ((s r : Stream) (x : A) → p s ≡ inr (x, r) → size r ≤ size s)
      → Halts (take p)
  Halts-take p h = record { at = λ s. Ends-taken (size s) (p s) (λ x r e. h s r x e) }

  Halts-ident : Halts (take ident)
  Halts-ident = Halts-take ident (λ s r x p. omega (arith, ident_lt s r x p))

  Halts-colon : Halts (take colon)
  Halts-colon = Halts-take colon colon_le

  Halts-semi : Halts (take semi)
  Halts-semi = Halts-take semi semi_le

  Halts-fat_arrow : Halts (take fat_arrow)
  Halts-fat_arrow = Halts-take fat_arrow fat_arrow_le

  Halts-ty : Halts (take ty)
  Halts-ty = Halts-take ty ty_le

  Halts-expr : Halts (take expr)
  Halts-expr = Halts-take expr expr_le

  Halts-expr_path : Halts (take expr_path)
  Halts-expr_path = Halts-take expr_path expr_path_le

  ruleset halts = (
    Halts-bind, Halts-pure, Halts-spanned, Halts-if, Halts-ident, Halts-colon, Halts-semi,
    Halts-fat_arrow, Halts-ty, Halts-expr, Halts-expr_path,
  )

  on_row-Halts : (block : Block syn) → Halts (on_row syn block)
  unfolding on_row
  on_row-Halts block = search halts depth 10

  timeout_row-Halts : (kw : String) (block : Block syn) → Halts (timeout_row syn kw block)
  unfolding timeout_row
  timeout_row-Halts kw block = search halts depth 10

  entry_row-Halts : (kw : String) (block : Block syn) → Halts (entry_row syn kw block)
  unfolding entry_row
  entry_row-Halts kw block = search halts depth 10

  exit_row-Halts : (kw : String) (block : Block syn) → Halts (exit_row syn kw block)
  unfolding exit_row
  exit_row-Halts kw block = search halts depth 10

  row-Halts : (kw : String) (block : Block syn) → Halts (row syn kw block)
  unfolding row
  row-Halts kw block =
      search (halts, on_row-Halts, timeout_row-Halts, entry_row-Halts, exit_row-Halts) depth 10

  -- One round of a loop: an identifier, what it announces, and the rounds that are left.
  round_Ends :
      {A B : Type 0} (s : Stream) (m : String → Parser Stream Own A) (f : A → Parser Stream Own B)
      → ((kw : String) (r : Stream) → size r < size s → Ends (size r) (m kw r))
      → ((a : A) (r : Stream) → size r < size s → Ends (size r) (f a r))
      → Ends (size s) ((do kw ← take ident; a ← m kw; f a) s)
  round_Ends {A} {B} s m f hm hf = go (ident s) (λ kw r p. ident_lt s r kw p)
    where
      go :
          (x : Own ⊎ (String × Stream))
          → ((kw : String) (r : Stream) → x ≡ inr (kw, r) → size r < size s)
          → Ends (size s) (continue (taken x) (λ kw. m kw >>= f))
      go (inl e) h = λ p. cc
      go (inr (kw, r)) h =
          let lt = h kw r refl in
          Ends-continue (size r) (size s) (m kw r) f (hm kw r lt)
            (λ a r' le. Ends-le (size r') (size s) (f a r') (omega arith) (hf a r' (omega arith)))

  rows-Ends :
      (fuel : ℕ) (block : Block syn) (s : Stream)
      → size s < fuel
      → Ends (size s) (rows syn fuel block s)
  unfolding rows
  rows-Ends zero block s h = absurd (omega arith)
  rows-Ends (suc fuel) block s h = elim (Bool-cases (syn.is_empty s)) [
    | inl p ↦ rw p (omega arith)
    | inr p ↦ rw p (
        round_Ends s (λ kw. row syn kw block) (rows syn fuel) (λ kw r lt. (row-Halts kw block).at r)
          (λ b r lt. rows-Ends fuel b r (omega arith)))
  ]

  within-Ends :
      (fuel : ℕ) (block : Block syn) (c r : Stream)
      → size c < fuel
      → Ends (size r) (within syn fuel block c r)
  unfolding within
  within-Ends fuel block c r h =
      Ends-continue (size c) (size r) (rows syn fuel block c) (λ b _. parsed (b, r))
        (rows-Ends fuel block c h) (λ b _ le. omega arith)

  -- The group of a state block, and what is done with its content.
  group_Ends :
      {B : Type 0} (s : Stream) (f : Stream → Parser Stream Own B)
      → ((c r : Stream) → size c < size s → size r < size s → Ends (size r) (f c r))
      → Ends (size s) ((take braced >>= f) s)
  group_Ends s f hf = go (braced s) (λ c r p. braced_lt s r c p)
    where
      go :
          (x : Own ⊎ (Stream × Stream))
          → ((c r : Stream) → x ≡ inr (c, r) → (size r < size s) × (size c < size s))
          → Ends (size s) (continue (taken x) f)
      go (inl e) h = λ p. cc
      go (inr (c, r)) h =
          let (lt, inside) = h c r refl in
          Ends-le (size r) (size s) (f c r) (omega arith) (hf c r inside lt)

  state_decl-Ends :
      (fuel : ℕ) (found : Decls ExprPath Expr) (s : Stream)
      → size s < fuel
      → Ends (size s) (state_decl syn fuel found s)
  unfolding state_decl
  state_decl-Ends fuel found s h =
      Ends-continue (size s) (size s) (take expr_path s) _ (Halts-expr_path.at s) (λ p r le.
        Ends-le (size r) (size s) _ le (
          group_Ends r _ (λ c r' inside lt.
            Ends-continue (size r') (size r') _ _ (within-Ends fuel _ c r' (omega arith))
              (λ b r'' le'. le'))))

  unhandled_decl-Halts :
      (kw : String) (found : Decls ExprPath Expr) → Halts (unhandled_decl syn kw found)
  unfolding unhandled_decl
  unhandled_decl-Halts kw found = search halts depth 10

  decl-Ends :
      (fuel : ℕ) (kw : String) (found : Decls ExprPath Expr) (s : Stream)
      → size s < fuel
      → Ends (size s) (decl syn fuel kw found s)
  unfolding decl
  decl-Ends fuel kw found s h = elim (Bool-cases (kw == "state")) [
    | inl p ↦ rw p (state_decl-Ends fuel found s h)
    | inr p ↦ rw p (
        let rest : Halts (
            if kw == "unhandled"
            then unhandled_decl syn kw found
            else spanned kw "expected `state` or `unhandled`") =
          search (halts, unhandled_decl-Halts) in
        rest.at s)
  ]

  decls-Ends :
      (inner fuel : ℕ) (found : Decls ExprPath Expr) (s : Stream)
      → size s < fuel
      → size s < inner
      → Ends (size s) (decls syn inner fuel found s)
  unfolding decls
  decls-Ends inner zero found s h k = absurd (omega arith)
  decls-Ends inner (suc fuel) found s h k = elim (Bool-cases (syn.is_empty s)) [
    | inl p ↦ rw p (omega arith)
    | inr p ↦ rw p (
        round_Ends s (λ kw. decl syn inner kw found) (decls syn inner fuel)
          (λ kw r lt. decl-Ends inner kw found r (omega arith))
          (λ d r lt. decls-Ends inner fuel d r (omega arith) (omega arith)))
  ]

  header_ty-Halts : (kw message : String) → Halts (header_ty syn kw message)
  unfolding header_ty expect
  header_ty-Halts kw message = search halts depth 10

  header_expr-Halts : (kw message : String) → Halts (header_expr syn kw message)
  unfolding header_expr expect
  header_expr-Halts kw message = search halts depth 10

  -- `m` and then `f` end, if what `f` gets is no more than what `m` was given.
  then_Ends :
      {A B : Type 0} (m : Parser Stream Own A) (f : A → Parser Stream Own B) (n : ℕ) (s : Stream)
      → Halts m
      → size s < n
      → ((a : A) (r : Stream) → size r < n → Ends (size r) (f a r))
      → Ends (size s) ((m >>= f) s)
  then_Ends m f n s hm h hf =
      Ends-continue (size s) (size s) (m s) f (hm.at s)
        (λ a r le. Ends-le (size r) (size s) (f a r) le (hf a r (omega arith)))

  -- With more fuel than the table has tokens, the parser ends with a table and no more tokens than
  -- it was given, or with an error of syn or of the macro: never for want of fuel.
  pub parse-Ends : (fuel : ℕ) (s : Stream) → size s < fuel → Ends (size s) (parse syn fuel s)
  unfolding parse
  parse-Ends fuel s h =
      then_Ends (header_ty syn "state" _) _ fuel s (header_ty-Halts _ _) h λ state_ty r h.
        then_Ends (header_ty syn "event" _) _ fuel r (header_ty-Halts _ _) h λ event_ty r h.
          then_Ends (header_ty syn "context" _) _ fuel r (header_ty-Halts _ _) h λ context_ty r h.
            then_Ends (header_ty syn "action" _) _ fuel r (header_ty-Halts _ _) h λ action_ty r h.
              then_Ends (header_expr syn "initial" _) _ fuel r (header_expr-Halts _ _) h
                λ initial r h.
                  Ends-continue (size r) (size r) _ _ (decls-Ends fuel fuel _ r h h)
                    (λ found r' le. le)
