-- ===== src/Dsl/Parse/Grammar/Sound.antt =====
-- What the parser accepts is in the grammar: declarations, the header and the table.
use obzenflow_fsm.Prelude.{
  ℕ, zero, suc, ◌≡◌, refl, ap, subst, inl, inr, String, true, none, List, [], ◌∷◌, ◌==◌, is_some,
  arith, string_equality, Bool-cases,
}
use obzenflow_fsm.Dsl.Syn.{Syn, parsed}
use obzenflow_fsm.Dsl.Parse.{
  Spec, Decls, continue, rows, within, state_decl, unhandled_decl, decl, decls, parse, expect,
  header_ty, header_expr,
}
use obzenflow_fsm.Dsl.Parse.Print.{Decl, state, unhandled}
use obzenflow_fsm.Dsl.Parse.Tables.{add_decl, add_decls, bare}
use obzenflow_fsm.Dsl.Parse.Grammar.{
  Word, Ending, DeclAt, DeclsAt, HeaderTyAt, HeaderExprAt, IsTable,
}
use obzenflow_fsm.Dsl.Parse.Grammar.Rows.{inv_bind, inv_taken, ending, arrow, rows_sound}

module _ (syn : Syn) where
  open syn use {
    Stream, Ty, Expr, ExprPath, Own, is_empty, ident, colon, semi, fat_arrow, ty, expr, expr_path,
    braced,
  }

  -- A declaration of the grammar that the table takes.
  abbrev DeclOf : Decls ExprPath Expr → Decls ExprPath Expr → Stream → Stream → Type 0
  DeclOf found found' s r =
      (x : Decl ExprPath Expr) × DeclAt syn x s r × (add_decl {Own = Own} found x ≡ parsed found')

  state_decl_sound :
      (fuel : ℕ) (found found' : Decls ExprPath Expr) (s t r : Stream)
      → Word syn "state" s t
      → state_decl syn fuel found t ≡ parsed (found', r)
      → DeclOf found found' s r
  unfolding state_decl within add_decl
  state_decl_sound fuel found found' s t r w h =
      let (p, u, q, h) = inv_taken (expr_path t) _ (found', r) h in
      let (content, v, g, h) = inv_taken (braced u) _ (found', r) h in
      let (b, v', k, h) =
        inv_bind (continue (rows syn fuel (bare p) content) (λ b _. parsed (b, v))) _ (found', r)
          h in
      let (b', end, k, h') =
        inv_bind (rows syn fuel (bare p) content) (λ b _. parsed (b, v)) (b, v') k in
      let (xs, at, all) = rows_sound syn fuel (bare p) b' content end k in
      let here : v ≡ r = ground arith in
      let same : b' ≡ b = ground arith in
      (
        state p xs,
        (t, u, content, end, w, q, subst (λ x. braced u ≡ inr (content, x)) here g, at),
        rw (all, same) (ground arith),
      )

  unhandled_decl_sound :
      (kw : String) (found found' : Decls ExprPath Expr) (s t r : Stream)
      → Word syn "unhandled" s t
      → unhandled_decl syn kw found t ≡ parsed (found', r)
      → DeclOf found found' s r
  unfolding unhandled_decl add_decl
  unhandled_decl_sound kw found found' s t r w h = elim (Bool-cases (is_some found.unhandled)) [
    | inl i ↦ let k = rw i at h in absurd (cc)
    | inr i ↦
        let (e, a, h) = arrow syn _ t found' r (rw i at h) in
        (unhandled e, (t, w, a), rw i (ap parsed h))
  ]

  decl_sound :
      (fuel : ℕ) (kw : String) (found found' : Decls ExprPath Expr) (s t r : Stream)
      → Word syn kw s t
      → decl syn fuel kw found t ≡ parsed (found', r)
      → DeclOf found found' s r
  unfolding decl
  decl_sound fuel kw found found' s t r w h = elim (Bool-cases (kw == "state")) [
    | inl i ↦ state_decl_sound fuel found found' s t r (read "state" i) (rw i at h)
    | inr i ↦ elim (Bool-cases (kw == "unhandled")) [
      | inl j ↦ unhandled_decl_sound kw found found' s t r (read "unhandled" j) (rw (i, j) at h)
      | inr j ↦ let none_left = rw (i, j) at h in absurd (cc)
    ]
  ]
    where
      read : (k : String) → (kw == k) ≡ true → Word syn k s t
      read k e = subst (λ x. Word syn x s t) ((string_equality.beq_iff kw k).0 e) w

  decls_sound :
      (inner fuel : ℕ) (found found' : Decls ExprPath Expr) (s r : Stream)
      → decls syn inner fuel found s ≡ parsed (found', r)
      → (xs : List (Decl ExprPath Expr)) × DeclsAt syn xs s r
        × (add_decls {Own = Own} found xs ≡ parsed found')
  unfolding decls add_decls
  decls_sound inner zero found found' s r h = absurd (cc)
  decls_sound inner (suc fuel) found found' s r h = elim (Bool-cases (is_empty s)) [
    | inl i ↦ let k = rw i at h in ([], (i, ground arith), ground arith)
    | inr i ↦
        let (kw, t, w, h) = inv_taken (ident s) _ (found', r) (rw i at h) in
        let (c, u, p, h) = inv_bind (decl syn inner kw found t) _ (found', r) h in
        let (x, at, added) = decl_sound inner kw found c s t u w p in
        let (xs, rest, all) = decls_sound inner fuel c found' u r h in
        (x ∷ xs, (i, (u, at, rest)), rw added all)
  ]

  expect_sound :
      (kw message k : String) (s t : Stream)
      → expect syn kw message s ≡ parsed (k, t)
      → Word syn kw s t
  unfolding expect
  expect_sound kw message k s t h =
      let (id, u, w, h) = inv_taken (ident s) _ (k, t) h in
      elim (Bool-cases (id == kw)) [
        | inl i ↦
            let g = rw i at h in
            let same : u ≡ t = ground arith in
            subst (λ x. Word syn kw s x) same
              (subst (λ x. Word syn x s u) ((string_equality.beq_iff id kw).0 i) w)
        | inr i ↦ let g = rw i at h in absurd (cc)
      ]

  header_ty_sound :
      (kw message : String) (x : Ty) (s r : Stream)
      → header_ty syn kw message s ≡ parsed (x, r)
      → HeaderTyAt syn kw x s r
  unfolding header_ty
  header_ty_sound kw message x s r h =
      let (k, t, p, h) = inv_bind (expect syn kw message s) _ (x, r) h in
      let (c, u, q, h) = inv_taken (colon t) _ (x, r) h in
      let (x', v, y, h) = inv_taken (ty u) _ (x, r) h in
      let (z, r', e, h) = inv_taken (semi v) _ (x, r) h in
      let read : ty u ≡ inr (x, v) = ground arith in
      let left : semi v ≡ inr (tt, r) = ground arith in
      (t, u, v, expect_sound kw message k s t p, q, read, left)

  header_expr_sound :
      (kw message : String) (x : Expr) (s r : Stream)
      → header_expr syn kw message s ≡ parsed (x, r)
      → HeaderExprAt syn kw x s r
  unfolding header_expr
  header_expr_sound kw message x s r h =
      let (k, t, p, h) = inv_bind (expect syn kw message s) _ (x, r) h in
      let (c, u, q, h) = inv_taken (colon t) _ (x, r) h in
      let (x', a, same) = ending syn (λ e. e) u x r h in
      (t, u, expect_sound kw message k s t p, q, subst (λ e. Ending syn e u r) same a)

  -- The parsed table: the header's types and expression, and what the declarations add up to.
  abbrev table_of : Ty → Ty → Ty → Ty → Expr → Decls ExprPath Expr → Spec syn
  table_of st ev cx ac initial found = record {
    state_ty = st;
    event_ty = ev;
    context_ty = cx;
    action_ty = ac;
    initial_expr = initial;
    states = found.states;
    unhandled = found.unhandled;
  }

  pub parse_sound :
      (fuel : ℕ) (s r : Stream) (spec : Spec syn)
      → parse syn fuel s ≡ parsed (spec, r)
      → IsTable syn s r spec
  unfolding parse
  parse_sound fuel s r spec h =
      let (st, s1, p1, h) = inv_bind (header_ty syn "state" _ s) _ (spec, r) h in
      let (ev, s2, p2, h) = inv_bind (header_ty syn "event" _ s1) _ (spec, r) h in
      let (cx, s3, p3, h) = inv_bind (header_ty syn "context" _ s2) _ (spec, r) h in
      let (ac, s4, p4, h) = inv_bind (header_ty syn "action" _ s3) _ (spec, r) h in
      let (initial, s5, p5, h) = inv_bind (header_expr syn "initial" _ s4) _ (spec, r) h in
      let (found, s6, p6, h) =
        inv_bind (decls syn fuel fuel (record { states = []; unhandled = none }) s5) _ (spec, r)
          h in
      let (ds, at, sums) =
        decls_sound fuel fuel (record { states = []; unhandled = none }) found s5 s6 p6 in
      let same : ◌≡◌ {A = Spec syn × Stream} (table_of st ev cx ac initial found, s6) (spec, r) =
        ground arith in
      subst (λ x. IsTable syn s x.1 x.0) same
        (record {
          decls_of = ds;
          found = found;
          at = record {
            s1 = s1;
            s2 = s2;
            s3 = s3;
            s4 = s4;
            s5 = s5;
            state_at = header_ty_sound "state" _ st s s1 p1;
            event_at = header_ty_sound "event" _ ev s1 s2 p2;
            context_at = header_ty_sound "context" _ cx s2 s3 p3;
            action_at = header_ty_sound "action" _ ac s3 s4 p4;
            initial_at = header_expr_sound "initial" _ initial s4 s5 p5;
            decls_at = at;
          };
          sums = sums;
          states_found = refl;
          unhandled_found = refl;
        })
