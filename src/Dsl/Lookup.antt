-- ===== src/Dsl/Lookup.antt =====
-- Lookups in the builder that a table leaves.
use obzenflow_fsm.Prelude.{
  String, Bool, true, false, Option, none, some, List, [], ◌∷◌, ◌++◌, ◌≡◌, refl, sym, ap, ◌∙◌, ◌==◌,
  if◌then◌else◌, any, arith, append-nil, append_assoc, string_equality, pair_equality, Bool-cases,
  inl, inr,
}
use obzenflow_fsm.HashMap
use obzenflow_fsm.HashMap.{HashMap, get-insert, any-keys-insert}
use obzenflow_fsm.Machine.{StateHandlerMap, TimeoutHandlerMap}
use obzenflow_fsm.Types.{TransitionHandler, UnhandledHandler}
use obzenflow_fsm.Builder.{FsmBuilder}
use obzenflow_fsm.Dsl.Spec.{StateBlock}
use obzenflow_fsm.Dsl.Eval.{Values}
use obzenflow_fsm.Dsl.Tables.{
  TableRow, last_row, repeats, override, last_block, table_rows, block_rows, entry_part, exit_part,
  timeout_part,
}
use obzenflow_fsm.Dsl.Expand.{add_row, add_rows, put, add_block, add_blocks}

abbrev pub Key : Type 0
Key = String × String

note_step :
    (timed repeated : Bool) (noted : List Key) (k : Key) (rest : List Key)
    → (if timed then noted else if repeated then noted ++ k ∷ [] else noted) ++ rest
      ≡ noted ++ (if timed then rest else if repeated then k ∷ rest else rest)
note_step true repeated noted k rest = refl
note_step false true noted k rest = append_assoc noted (k ∷ []) rest
note_step false false noted k rest = refl

module _ {H : Type 0} where
  pub last_row-append :
      (xs ys : List (TableRow H)) (k : Key) (found : Option H)
      → last_row (xs ++ ys) k found ≡ last_row ys k (last_row xs k found)
  unfolding last_row
  last_row-append [] ys k found = refl
  last_row-append (x ∷ xs) ys k found = last_row-append xs ys k _

  -- The keys that have been seen after some rows, latest first.
  abbrev seen_after : List Key → List (TableRow H) → List Key
  seen_after seen [] = seen
  seen_after seen (r ∷ rs) = seen_after (r.key ∷ seen) rs

  repeats-append :
      (seen : List Key) (xs ys : List (TableRow H))
      → repeats seen (xs ++ ys) ≡ repeats seen xs ++ repeats (seen_after seen xs) ys
  unfolding repeats
  repeats-append seen [] ys = refl
  repeats-append seen (x ∷ xs) ys = ground (arith, repeats-append (x.key ∷ seen) xs ys)

module _ {S E C A : Type 0} where
  transitions-add_rows :
      (b : FsmBuilder S E C A) (rs : List (TableRow (TransitionHandler S E C A))) (k : Key)
      → HashMap.get (add_rows b rs).transitions k ≡ last_row rs k (HashMap.get b.transitions k)
  unfolding add_rows last_row
  transitions-add_rows b [] k = refl
  transitions-add_rows b (r ∷ rs) k =
      transitions-add_rows (add_row b r) rs k
      ∙ ap (last_row rs k) (unfold add_row in get-insert b.transitions r.key r.handler k)

  -- The keys in a builder's table are those that have been seen.
  abbrev pub Seen : FsmBuilder S E C A → List Key → Type 0
  Seen b seen = (k : Key) → HashMap.contains_key b.transitions k ≡ any (λ j. j == k) seen

  Seen-add_row :
      (b : FsmBuilder S E C A) (seen : List Key) (r : TableRow (TransitionHandler S E C A))
      → Seen b seen
      → Seen (add_row b r) (r.key ∷ seen)
  unfolding add_row
  Seen-add_row b seen r h k =
      rw (get-insert b.transitions r.key r.handler k)
        (elim (Bool-cases (r.key == k)) [ inl p ↦ rw p | inr p ↦ rw p (h k) ])

  Seen-add_rows :
      (b : FsmBuilder S E C A) (seen : List Key) (rs : List (TableRow (TransitionHandler S E C A)))
      → Seen b seen
      → Seen (add_rows b rs) (seen_after seen rs)
  unfolding add_rows
  Seen-add_rows b seen [] h = h
  Seen-add_rows b seen (r ∷ rs) h =
      Seen-add_rows (add_row b r) (r.key ∷ seen) rs (Seen-add_row b seen r h)

  duplicates-add_rows :
      (b : FsmBuilder S E C A) (seen : List Key) (rs : List (TableRow (TransitionHandler S E C A)))
      → Seen b seen
      → (add_rows b rs).duplicate_handlers ≡ b.duplicate_handlers ++ repeats seen rs
  unfolding add_rows repeats
  duplicates-add_rows b seen [] h = sym (append-nil b.duplicate_handlers)
  duplicates-add_rows b seen (r ∷ rs) h =
      duplicates-add_rows (add_row b r) (r.key ∷ seen) rs (Seen-add_row b seen r h)
      ∙ (unfold add_row in rw (h r.key) (note_step r.timed _ b.duplicate_handlers r.key _))

  -- What adding `on` rows leaves alone.
  abbrev others :
      FsmBuilder S E C A
      → S
        × StateHandlerMap S C A
        × StateHandlerMap S C A
        × TimeoutHandlerMap S C A
        × Bool
        × Option (UnhandledHandler S E C)
  others b = (
    b.initial_state, b.entry_handlers, b.exit_handlers, b.timeout_handlers, b.strict_validation,
    b.unhandled_handler,
  )

  others-add_rows :
      (b : FsmBuilder S E C A) (rs : List (TableRow (TransitionHandler S E C A)))
      → others (add_rows b rs) ≡ others b
  unfolding add_rows add_row
  others-add_rows b [] = refl
  others-add_rows b (r ∷ rs) = others-add_rows (add_row b r) rs

get-put :
    {V : Type 0} (m : HashMap String V) (j : String) (o : Option V) (k : String)
    → HashMap.get (put m j o) k ≡ (if j == k then override o (HashMap.get m k) else HashMap.get m k)
get-put m j none k = ground arith
get-put m j (some v) k = get-insert m j v k

module _ {SynPath Expr S E C A : Type 0} (name : SynPath → String)
    (values : Values Expr S E C A) where
  -- The builder of a block, before its `on` rows.
  abbrev with_parts : FsmBuilder S E C A → StateBlock SynPath Expr → FsmBuilder S E C A
  with_parts b k = record b {
    entry_handlers = put b.entry_handlers (name k.state_path) (entry_part name values k);
    exit_handlers = put b.exit_handlers (name k.state_path) (exit_part name values k);
    timeout_handlers = put b.timeout_handlers (name k.state_path) (timeout_part name values k);
  }

  -- The `on` rows of the blocks, under their keys: the last row of a key gives its handler.
  pub transitions-add_blocks :
      (b : FsmBuilder S E C A) (ks : List (StateBlock SynPath Expr)) (k : Key)
      → HashMap.get (add_blocks name values b ks).transitions k
        ≡ last_row (table_rows name values ks) k (HashMap.get b.transitions k)
  unfolding add_blocks add_block table_rows last_row
  transitions-add_blocks b [] k = refl
  transitions-add_blocks b (x ∷ ks) k =
      transitions-add_blocks (add_block name values b x) ks k
      ∙ ap (last_row (table_rows name values ks) k)
          (transitions-add_rows (with_parts b x) (block_rows name values x) k)
      ∙ sym (last_row-append (block_rows name values x) (table_rows name values ks) k _)

  pub duplicates-add_blocks :
      (b : FsmBuilder S E C A) (seen : List Key) (ks : List (StateBlock SynPath Expr))
      → Seen b seen
      → (add_blocks name values b ks).duplicate_handlers
        ≡ b.duplicate_handlers ++ repeats seen (table_rows name values ks)
  unfolding add_blocks add_block table_rows repeats
  duplicates-add_blocks b seen [] h = sym (append-nil b.duplicate_handlers)
  duplicates-add_blocks b seen (x ∷ ks) h =
      duplicates-add_blocks (add_block name values b x) (seen_after seen (block_rows name values x))
        ks (Seen-add_rows (with_parts b x) seen (block_rows name values x) h)
      ∙ ap
          (λ d.
            d ++ repeats (seen_after seen (block_rows name values x)) (table_rows name values ks))
          (duplicates-add_rows (with_parts b x) seen (block_rows name values x) h)
      ∙ append_assoc b.duplicate_handlers _ _
      ∙ ap (λ d. b.duplicate_handlers ++ d)
          (sym (repeats-append seen (block_rows name values x) (table_rows name values ks)))

  -- The entry handlers, exit handlers and timeouts of the blocks, under their states' names: the
  -- last block of a state that has one gives it.
  pub entries-add_blocks :
      (b : FsmBuilder S E C A) (ks : List (StateBlock SynPath Expr)) (state : String)
      → HashMap.get (add_blocks name values b ks).entry_handlers state
        ≡ last_block name (entry_part name values) ks state (HashMap.get b.entry_handlers state)
  unfolding add_blocks add_block last_block
  entries-add_blocks b [] state = refl
  entries-add_blocks b (x ∷ ks) state =
      entries-add_blocks (add_block name values b x) ks state
      ∙ ap (last_block name (entry_part name values) ks state) (
          ap (λ o. HashMap.get o.1 state)
            (others-add_rows (with_parts b x) (block_rows name values x))
          ∙ get-put b.entry_handlers (name x.state_path) (entry_part name values x) state)

  pub exits-add_blocks :
      (b : FsmBuilder S E C A) (ks : List (StateBlock SynPath Expr)) (state : String)
      → HashMap.get (add_blocks name values b ks).exit_handlers state
        ≡ last_block name (exit_part name values) ks state (HashMap.get b.exit_handlers state)
  unfolding add_blocks add_block last_block
  exits-add_blocks b [] state = refl
  exits-add_blocks b (x ∷ ks) state =
      exits-add_blocks (add_block name values b x) ks state
      ∙ ap (last_block name (exit_part name values) ks state) (
          ap (λ o. HashMap.get o.2 state)
            (others-add_rows (with_parts b x) (block_rows name values x))
          ∙ get-put b.exit_handlers (name x.state_path) (exit_part name values x) state)

  pub timeouts-add_blocks :
      (b : FsmBuilder S E C A) (ks : List (StateBlock SynPath Expr)) (state : String)
      → HashMap.get (add_blocks name values b ks).timeout_handlers state
        ≡ last_block name (timeout_part name values) ks state (HashMap.get b.timeout_handlers state)
  unfolding add_blocks add_block last_block
  timeouts-add_blocks b [] state = refl
  timeouts-add_blocks b (x ∷ ks) state =
      timeouts-add_blocks (add_block name values b x) ks state
      ∙ ap (last_block name (timeout_part name values) ks state) (
          ap (λ o. HashMap.get o.3 state)
            (others-add_rows (with_parts b x) (block_rows name values x))
          ∙ get-put b.timeout_handlers (name x.state_path) (timeout_part name values x) state)

  pub rest_of-add_blocks :
      (b : FsmBuilder S E C A) (ks : List (StateBlock SynPath Expr))
      → let c = add_blocks name values b ks in
        (c.initial_state ≡ b.initial_state)
        × (c.strict_validation ≡ b.strict_validation)
        × (c.unhandled_handler ≡ b.unhandled_handler)
  unfolding add_blocks add_block
  rest_of-add_blocks b [] = (refl, refl, refl)
  rest_of-add_blocks b (x ∷ ks) =
      let (p, q, r) = rest_of-add_blocks (add_block name values b x) ks in
      let same = others-add_rows (with_parts b x) (block_rows name values x) in
      (p ∙ ap (λ o. o.0) same, q ∙ ap (λ o. o.4) same, r ∙ ap (λ o. o.5) same)

any-append :
    {X : Type 0} (p : X → Bool) (xs ys : List X)
    → any p (xs ++ ys) ≡ (if any p xs then true else any p ys)
any-append p [] ys = refl
any-append p (x ∷ xs) ys = elim (Bool-cases (p x)) [
  | inl h ↦ rw h
  | inr h ↦ rw h (any-append p xs ys)
]

keys-add_rows :
    {S E C A : Type 0} (p : Key → Bool) (b : FsmBuilder S E C A)
    (rs : List (TableRow (TransitionHandler S E C A)))
    → any p (HashMap.keys (add_rows b rs).transitions)
      ≡ (if any (λ r. p r.key) rs then true else any p (HashMap.keys b.transitions))
unfolding add_rows add_row
keys-add_rows p b [] = refl
keys-add_rows p b (r ∷ rs) =
    rw (keys-add_rows p (add_row b r) rs, any-keys-insert p b.transitions r.key r.handler)
      (ground arith)

module _ {SynPath Expr S E C A : Type 0} (name : SynPath → String)
    (values : Values Expr S E C A) where
  pub keys-add_blocks :
      (p : Key → Bool) (b : FsmBuilder S E C A) (ks : List (StateBlock SynPath Expr))
      → any p (HashMap.keys (add_blocks name values b ks).transitions) ≡ (
          if any (λ r. p r.key) (table_rows name values ks)
          then true
          else any p (HashMap.keys b.transitions))
  unfolding add_blocks add_block table_rows
  keys-add_blocks p b [] = refl
  keys-add_blocks p b (x ∷ ks) =
      rw
        (
          keys-add_blocks p (add_block name values b x) ks,
          any-append (λ r. p r.key) (block_rows name values x) (table_rows name values ks),
          keys-add_rows p (with_parts name values b x) (block_rows name values x),
        )
        (ground arith)
