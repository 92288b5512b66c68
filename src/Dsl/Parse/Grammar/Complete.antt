-- ===== src/Dsl/Parse/Grammar/Complete.antt =====
-- What is in the grammar, the parser reads, with fuel for every token.
use obzenflow_fsm.Prelude.{
  ℕ, zero, suc, ◌≤◌, ◌<◌, ◌≡◌, beq_refl, inl, inr, String, none, some, false, List, [], ◌∷◌, ◌++◌,
  is_some, arith, string_equality, Bool-cases,
}
use obzenflow_fsm.Dsl.Syn.{Syn, Consumes, parsed}
use obzenflow_fsm.Dsl.Parse.{
  Block, Spec, Decls, on_row, timeout_row, entry_row, exit_row, row, rows, within, state_decl,
  unhandled_decl, decl, decls, parse, expect, header_ty, header_expr,
}
use obzenflow_fsm.Dsl.Parse.Print.{Row, Decl, on, timeout, on_entry, on_exit, state, unhandled}
use obzenflow_fsm.Dsl.Parse.Tables.{
  and_then, add_row, add_rows, add_decl, add_decls, bare, Parsed-cases,
}
use obzenflow_fsm.Dsl.Parse.Grammar.{
  Ending, Arrow, RowAt, RowsAt, DeclAt, DeclsAt, HeaderTyAt, HeaderExprAt, IsTable,
}

module _ (syn : Syn) (laws : Consumes syn) where
  open syn use {
    Stream, Ty, Expr, ExprPath, Own, is_empty, ident, colon, semi, fat_arrow, ty, expr, expr_path,
    braced,
  }
  open laws use {
    size, ident_lt, colon_le, semi_le, fat_arrow_le, ty_le, expr_le, expr_path_le, braced_lt,
  }

  Ending-size : (e : Expr) (s r : Stream) → Ending syn e s r → size r ≤ size s
  Ending-size e s r (t, p, q) = omega (arith, expr_le s t e p, semi_le t r tt q)

  Arrow-size : (e : Expr) (s r : Stream) → Arrow syn e s r → size r ≤ size s
  Arrow-size e s r (t, p, a) = omega (arith, fat_arrow_le s t tt p, Ending-size e t r a)

  RowAt-size : (x : Row ExprPath Expr) (s r : Stream) → RowAt syn x s r → size r < size s
  RowAt-size (on p e) s r (t, u, w, q, a) =
      omega (arith, ident_lt s t "on" w, expr_path_le t u p q, Arrow-size e u r a)
  RowAt-size (timeout d e) s r (t, u, w, q, a) =
      omega (arith, ident_lt s t "timeout" w, expr_le t u d q, Arrow-size e u r a)
  RowAt-size (on_entry e) s r (t, w, a) =
      omega (arith, ident_lt s t "on_entry" w, Ending-size e t r a)
  RowAt-size (on_exit e) s r (t, w, a) =
      omega (arith, ident_lt s t "on_exit" w, Ending-size e t r a)

  DeclAt-size : (x : Decl ExprPath Expr) (s r : Stream) → DeclAt syn x s r → size r < size s
  DeclAt-size (state p xs) s r (t, u, content, end, w, q, g, at) =
      omega (arith, ident_lt s t "state" w, expr_path_le t u p q, (braced_lt u r content g).0)
  DeclAt-size (unhandled e) s r (t, w, a) =
      omega (arith, ident_lt s t "unhandled" w, Arrow-size e t r a)

  rows_row :
      (fuel : ℕ) (b : Block syn) (x : Row ExprPath Expr) (s r : Stream)
      → is_empty s ≡ false
      → RowAt syn x s r
      → rows syn (suc fuel) b s ≡ and_then (add_row b x) (λ c. rows syn fuel c r)
  unfolding rows row on_row timeout_row entry_row exit_row add_row
  rows_row fuel b (on p e) s r more (t, u, w, q, (v, a1, (v', a2, a3))) =
      simp (more, w, q, a1, a2, a3)
  rows_row fuel b (timeout d e) s r more (t, u, w, q, (v, a1, (v', a2, a3))) =
      elim (Bool-cases (is_some b.timeout)) [
        | inl i ↦ simp (more, i, w, q, a1, a2, a3)
        | inr i ↦ simp (more, i, w, q, a1, a2, a3)
      ]
  rows_row fuel b (on_entry e) s r more (t, w, (v', a2, a3)) = elim (Bool-cases (is_some b.entry)) [
    | inl i ↦ simp (more, i, w, a2, a3)
    | inr i ↦ simp (more, i, w, a2, a3)
  ]
  rows_row fuel b (on_exit e) s r more (t, w, (v', a2, a3)) = elim (Bool-cases (is_some b.exit)) [
    | inl i ↦ simp (more, i, w, a2, a3)
    | inr i ↦ simp (more, i, w, a2, a3)
  ]

  rows_complete :
      (fuel : ℕ) (b : Block syn) (xs : List (Row ExprPath Expr)) (b' : Block syn) (s r : Stream)
      → RowsAt syn xs s r
      → add_rows {Own = Own} b xs ≡ parsed b'
      → size s < fuel
      → rows syn fuel b s ≡ parsed (b', r)
  unfolding add_rows
  rows_complete zero b xs b' s r at sums h = absurd (omega arith)
  rows_complete (suc fuel) b [] b' s r (done, same) sums h =
      unfold rows in rw (done, same) (ground arith)
  rows_complete (suc fuel) b (x ∷ xs) b' s r (more, (t, row_at, rest)) sums h =
      rw (rows_row fuel b x s t more row_at) (elim (Parsed-cases (add_row {Own = Own} b x)) [
        | inl (c, p) ↦ rw p (
            rows_complete fuel c xs b' t r rest (rw p at sums)
              (omega (arith, RowAt-size x s t row_at)))
        | inr (e, p) ↦ let k = rw p at sums in absurd (cc)
      ])

  decls_decl :
      (inner fuel : ℕ) (found found' : Decls ExprPath Expr) (x : Decl ExprPath Expr) (s r : Stream)
      → is_empty s ≡ false
      → DeclAt syn x s r
      → size s < inner
      → add_decl {Own = Own} found x ≡ parsed found'
      → decls syn inner (suc fuel) found s ≡ decls syn inner fuel found' r
  unfolding decls decl state_decl unhandled_decl within add_decl
  decls_decl inner fuel found found' (unhandled e) s r more (t, w, (v, a1, (v', a2, a3))) h sums =
      elim (Bool-cases (is_some found.unhandled)) [
        | inl i ↦ let k = rw i at sums in absurd (cc)
        | inr i ↦
            let same : record found { unhandled = some e } ≡ found' = ground arith in
            simp (more, i, w, a1, a2, a3) (rw same)
      ]
  decls_decl inner fuel found found' (state p xs) s r more (t, u, content, end, w, q, g, at) h
        sums =
      elim (Parsed-cases (add_rows {Own = Own} (bare p) xs)) [
        | inr (e, k) ↦ let l = rw k at sums in absurd (cc)
        | inl (b, k) ↦
            let inside = rows_complete inner (bare p) xs b content end at k (
              omega (
                arith,
                ident_lt s t "state" w,
                expr_path_le t u p q,
                (braced_lt u r content g).1,
              )) in
            let same : record found { states = found.states ++ b ∷ [] } ≡ found' =
              ground (arith, k) in
            simp (more, w, q, g, inside) (rw same)
      ]

  decls_complete :
      (inner fuel : ℕ) (found : Decls ExprPath Expr) (xs : List (Decl ExprPath Expr))
      (found' : Decls ExprPath Expr) (s r : Stream)
      → DeclsAt syn xs s r
      → add_decls {Own = Own} found xs ≡ parsed found'
      → size s < fuel
      → size s < inner
      → decls syn inner fuel found s ≡ parsed (found', r)
  unfolding add_decls
  decls_complete inner zero found xs found' s r at sums h k = absurd (omega arith)
  decls_complete inner (suc fuel) found [] found' s r (done, same) sums h k =
      unfold decls in rw (done, same) (ground arith)
  decls_complete inner (suc fuel) found (x ∷ xs) found' s r (more, (t, decl_at, rest)) sums h k =
      elim (Parsed-cases (add_decl {Own = Own} found x)) [
        | inl (c, p) ↦
            let lt = DeclAt-size x s t decl_at in
            rw (decls_decl inner fuel found c x s t more decl_at k p) (
              decls_complete inner fuel c xs found' t r rest (rw p at sums) (omega arith)
                (omega arith))
        | inr (e, p) ↦ let k = rw p at sums in absurd (cc)
      ]

  header_ty_complete :
      (kw message : String) (x : Ty) (s r : Stream)
      → HeaderTyAt syn kw x s r
      → header_ty syn kw message s ≡ parsed (x, r)
  unfolding header_ty expect
  header_ty_complete kw message x s r (t, u, v, w, c, y, e) = simp (w, beq_refl, c, y, e)

  header_expr_complete :
      (kw message : String) (x : Expr) (s r : Stream)
      → HeaderExprAt syn kw x s r
      → header_expr syn kw message s ≡ parsed (x, r)
  unfolding header_expr expect
  header_expr_complete kw message x s r (t, u, w, c, (v, y, e)) = simp (w, beq_refl, c, y, e)

  HeaderTyAt-size :
      (kw : String) (x : Ty) (s r : Stream) → HeaderTyAt syn kw x s r → size r < size s
  HeaderTyAt-size kw x s r (t, u, v, w, c, y, e) =
      omega (arith, ident_lt s t kw w, colon_le t u tt c, ty_le u v x y, semi_le v r tt e)

  HeaderExprAt-size :
      (kw : String) (x : Expr) (s r : Stream) → HeaderExprAt syn kw x s r → size r < size s
  HeaderExprAt-size kw x s r (t, u, w, c, a) =
      omega (arith, ident_lt s t kw w, colon_le t u tt c, Ending-size x u r a)

  pub parse_complete :
      (fuel : ℕ) (s r : Stream) (spec : Spec syn)
      → IsTable syn s r spec
      → size s < fuel
      → parse syn fuel s ≡ parsed (spec, r)
  unfolding parse
  parse_complete fuel s r spec is h =
      let t = is.at in
      let less : size t.s5 < fuel = omega (
        arith,
        HeaderTyAt-size "state" spec.state_ty s t.s1 t.state_at,
        HeaderTyAt-size "event" spec.event_ty t.s1 t.s2 t.event_at,
        HeaderTyAt-size "context" spec.context_ty t.s2 t.s3 t.context_at,
        HeaderTyAt-size "action" spec.action_ty t.s3 t.s4 t.action_at,
        HeaderExprAt-size "initial" spec.initial_expr t.s4 t.s5 t.initial_at,
      ) in
      simp
        (
          header_ty_complete "state" _ spec.state_ty s t.s1 t.state_at,
          header_ty_complete "event" _ spec.event_ty t.s1 t.s2 t.event_at,
          header_ty_complete "context" _ spec.context_ty t.s2 t.s3 t.context_at,
          header_ty_complete "action" _ spec.action_ty t.s3 t.s4 t.action_at,
          header_expr_complete "initial" _ spec.initial_expr t.s4 t.s5 t.initial_at,
          decls_complete fuel fuel (record { states = []; unhandled = none }) is.decls_of is.found
              t.s5 r t.decls_at is.sums less less,
        )
        (rw (is.states_found, is.unhandled_found))
