-- ===== src/Dsl/Parse/Grammar/Rows.antt =====
-- What the parser accepts is in the grammar: the rows of a block.
use obzenflow_fsm.Prelude.{
  ℕ, zero, suc, ◌≡◌, refl, ap, subst, ◌⊎◌, inl, inr, String, true, List, [], ◌∷◌, ◌==◌, is_some,
  arith, string_equality, Bool-cases,
}
use obzenflow_fsm.Dsl.Syn.{Syn, Parsed, parsed, failed}
use obzenflow_fsm.Dsl.Parse.{
  Parser, Block, continue, pure, ◌>>=◌, ◌>>◌, take, taken, on_row, timeout_row, entry_row, exit_row,
  row, rows,
}
use obzenflow_fsm.Dsl.Parse.Print.{Row, on, timeout, on_entry, on_exit}
use obzenflow_fsm.Dsl.Parse.Tables.{add_row, add_rows}
use obzenflow_fsm.Dsl.Parse.Grammar.{Word, Ending, Arrow, RowAt, RowsAt}

module _ {Stream Own : Type 0} where
  -- A chain that succeeds: its first parser does, and the rest does from there.
  pub inv_bind :
      {A B : Type 0} (m : Parsed Own (A × Stream)) (f : A → Parser Stream Own B) (y : B × Stream)
      → continue m f ≡ parsed y
      → (a : A) × (r : Stream) × (m ≡ parsed (a, r)) × (f a r ≡ parsed y)
  inv_bind (parsed (a, r)) f y h = (a, r, refl, h)
  inv_bind (failed e) f y h = absurd (cc)

  pub inv_taken :
      {A B : Type 0} (x : Own ⊎ (A × Stream)) (f : A → Parser Stream Own B) (y : B × Stream)
      → continue (taken x) f ≡ parsed y
      → (a : A) × (r : Stream) × (x ≡ inr (a, r)) × (f a r ≡ parsed y)
  inv_taken (inr (a, r)) f y h = (a, r, refl, h)
  inv_taken (inl e) f y h = absurd (cc)

module _ (syn : Syn) where
  open syn use {
    Stream, Ty, Expr, ExprPath, Own, is_empty, ident, colon, semi, fat_arrow, ty, expr, expr_path,
    braced,
  }

  pub ending :
      {B : Type 0} (k : Expr → B) (s : Stream) (b : B) (r : Stream)
      → (do e ← take expr; take semi; pure (k e)) s ≡ parsed (b, r)
      → (e : Expr) × Ending syn e s r × (k e ≡ b)
  ending k s b r h =
      let (e, t, p, h) = inv_taken (expr s) _ (b, r) h in
      let (u, v, q, h) = inv_taken (semi t) _ (b, r) h in
      let same : v ≡ r = ground arith in
      (e, (t, p, subst (λ x. semi t ≡ inr (tt, x)) same q), ground arith)

  pub arrow :
      {B : Type 0} (k : Expr → B) (s : Stream) (b : B) (r : Stream)
      → (do take fat_arrow; e ← take expr; take semi; pure (k e)) s ≡ parsed (b, r)
      → (e : Expr) × Arrow syn e s r × (k e ≡ b)
  arrow k s b r h =
      let (u, t, p, h) = inv_taken (fat_arrow s) _ (b, r) h in
      let (e, q, h) = ending k t b r h in (e, (t, p, q), h)

  -- A row of the grammar that the block takes.
  abbrev RowOf : Block syn → Block syn → Stream → Stream → Type 0
  RowOf b b' s r = (x : Row ExprPath Expr) × RowAt syn x s r × (add_row {Own = Own} b x ≡ parsed b')

  on_row_sound :
      (b b' : Block syn) (s t r : Stream)
      → Word syn "on" s t
      → on_row syn b t ≡ parsed (b', r)
      → RowOf b b' s r
  unfolding on_row add_row
  on_row_sound b b' s t r w h =
      let (p, u, q, h) = inv_taken (expr_path t) _ (b', r) h in
      let (e, a, h) = arrow _ u b' r h in (on p e, (t, u, w, q, a), ap parsed h)

  timeout_row_sound :
      (kw : String) (b b' : Block syn) (s t r : Stream)
      → Word syn "timeout" s t
      → timeout_row syn kw b t ≡ parsed (b', r)
      → RowOf b b' s r
  unfolding timeout_row add_row
  timeout_row_sound kw b b' s t r w h = elim (Bool-cases (is_some b.timeout)) [
    | inl i ↦ let k = rw i at h in absurd (cc)
    | inr i ↦
        let (d, u, q, h) = inv_taken (expr t) _ (b', r) (rw i at h) in
        let (e, a, h) = arrow _ u b' r h in (timeout d e, (t, u, w, q, a), rw i (ap parsed h))
  ]

  entry_row_sound :
      (kw : String) (b b' : Block syn) (s t r : Stream)
      → Word syn "on_entry" s t
      → entry_row syn kw b t ≡ parsed (b', r)
      → RowOf b b' s r
  unfolding entry_row add_row
  entry_row_sound kw b b' s t r w h = elim (Bool-cases (is_some b.entry)) [
    | inl i ↦ let k = rw i at h in absurd (cc)
    | inr i ↦
        let (e, a, h) = ending _ t b' r (rw i at h) in (on_entry e, (t, w, a), rw i (ap parsed h))
  ]

  exit_row_sound :
      (kw : String) (b b' : Block syn) (s t r : Stream)
      → Word syn "on_exit" s t
      → exit_row syn kw b t ≡ parsed (b', r)
      → RowOf b b' s r
  unfolding exit_row add_row
  exit_row_sound kw b b' s t r w h = elim (Bool-cases (is_some b.exit)) [
    | inl i ↦ let k = rw i at h in absurd (cc)
    | inr i ↦
        let (e, a, h) = ending _ t b' r (rw i at h) in (on_exit e, (t, w, a), rw i (ap parsed h))
  ]

  row_sound :
      (kw : String) (b b' : Block syn) (s t r : Stream)
      → Word syn kw s t
      → row syn kw b t ≡ parsed (b', r)
      → RowOf b b' s r
  unfolding row
  row_sound kw b b' s t r w h = elim (Bool-cases (kw == "on")) [
    | inl i ↦ on_row_sound b b' s t r (read "on" i) (rw i at h)
    | inr i ↦ elim (Bool-cases (kw == "timeout")) [
      | inl j ↦ timeout_row_sound kw b b' s t r (read "timeout" j) (rw (i, j) at h)
      | inr j ↦ elim (Bool-cases (kw == "on_entry")) [
        | inl k ↦ entry_row_sound kw b b' s t r (read "on_entry" k) (rw (i, j, k) at h)
        | inr k ↦ elim (Bool-cases (kw == "on_exit")) [
          | inl l ↦ exit_row_sound kw b b' s t r (read "on_exit" l) (rw (i, j, k, l) at h)
          | inr l ↦ let none_left = rw (i, j, k, l) at h in absurd (cc)
        ]
      ]
    ]
  ]
    where
      read : (k : String) → (kw == k) ≡ true → Word syn k s t
      read k e = subst (λ x. Word syn x s t) ((string_equality.beq_iff kw k).0 e) w

  pub rows_sound :
      (fuel : ℕ) (b b' : Block syn) (s r : Stream)
      → rows syn fuel b s ≡ parsed (b', r)
      → (xs : List (Row ExprPath Expr)) × RowsAt syn xs s r
        × (add_rows {Own = Own} b xs ≡ parsed b')
  unfolding rows add_rows
  rows_sound zero b b' s r h = absurd (cc)
  rows_sound (suc fuel) b b' s r h = elim (Bool-cases (is_empty s)) [
    | inl i ↦ let k = rw i at h in ([], (i, ground arith), ground arith)
    | inr i ↦
        let (kw, t, w, h) = inv_taken (ident s) _ (b', r) (rw i at h) in
        let (c, u, p, h) = inv_bind (row syn kw b t) _ (b', r) h in
        let (x, at, added) = row_sound kw b c s t u w p in
        let (xs, rest, all) = rows_sound fuel c b' u r h in
        (x ∷ xs, (i, (u, at, rest)), rw added all)
  ]
