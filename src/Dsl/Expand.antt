-- ===== src/Dsl/Expand.antt =====
-- The expansion of a table, run: the builder that it leaves, block by block.
pub mod Blocks
use mathlib.Core.Option
use obzenflow_fsm.Prelude.{
  String, true, false, Option, none, some, List, [], ◌∷◌, ◌++◌, ◌≡◌, refl, ap, ◌∙◌, if◌then◌else◌,
  string_equality, pair_equality,
}
use obzenflow_fsm.HashMap
use obzenflow_fsm.HashMap.{HashMap}
use obzenflow_fsm.Types.{TransitionHandler}
use obzenflow_fsm.Builder
use obzenflow_fsm.Builder.{FsmBuilder}
use obzenflow_fsm.Builder.When
use obzenflow_fsm.Builder.Timeout
use obzenflow_fsm.Dsl.Spec.{TimeoutSpec, OnHandler, StateBlock, FsmSpec}
use obzenflow_fsm.Dsl.Codegen.{
  expanded, ChainCall, on, done, Stmt, require_derived_state, require_derived_event, new_builder,
  matches_state, matches_event, configure, last, entry_stmts, exit_stmts, timeout_chain,
  unhandled_stmts, expand_handlers, expand_block, expand_blocks, expand_fsm_spec,
}
use obzenflow_fsm.Dsl.Eval.{
  Values, in_fsm, in_when, in_timeout, call, finished, chain, hooks, stmt, run,
}
use obzenflow_fsm.Dsl.Tables.{
  TableRow, handler_rows, block_rows, entry_part, exit_part, timeout_part,
}

module _ {S E C A : Type 0} where
  -- An `on` row added to a builder: a repeated key is noted unless its block has a timeout.
  unfoldable pub add_row :
      FsmBuilder S E C A → TableRow (TransitionHandler S E C A) → FsmBuilder S E C A
  add_row b r = record b {
    duplicate_handlers =
        if r.timed
        then b.duplicate_handlers
        else if HashMap.contains_key b.transitions r.key
        then b.duplicate_handlers ++ r.key ∷ []
        else b.duplicate_handlers;
    transitions = HashMap.insert b.transitions r.key r.handler;
  }

  unfoldable pub add_rows :
      FsmBuilder S E C A → List (TableRow (TransitionHandler S E C A)) → FsmBuilder S E C A
  add_rows b [] = b
  add_rows b (r ∷ rs) = add_rows (add_row b r) rs

-- An insertion, if there is a value.
abbrev pub put : {V : Type 0} → HashMap String V → String → Option V → HashMap String V
put m k none = m
put m k (some v) = HashMap.insert m k v

module _ {SynPath Expr : Type 0} (name : SynPath → String) where
  -- The calls of a block's `on` rows, and the patterns that they check.
  abbrev pub on_calls : List (OnHandler SynPath Expr) → List (ChainCall Expr)
  on_calls [] = []
  on_calls (h ∷ hs) = on (name h.event_path) h.handler ∷ on_calls hs

  abbrev pub event_checks :
      {Ty : Type 0} → Ty → List (OnHandler SynPath Expr) → List (Stmt Ty SynPath Expr)
  event_checks ty [] = []
  event_checks ty (h ∷ hs) = matches_event ty h.event_path ∷ event_checks ty hs

  -- The statements of a block.
  abbrev pub block_stmts :
      {Ty : Type 0} → Ty → Ty → StateBlock SynPath Expr → List (Stmt Ty SynPath Expr)
  block_stmts st ev k =
      let state = name k.state_path in
      matches_state st k.state_path
      ∷ (event_checks ev k.handlers
          ++ configure (entry_stmts state k.entry ++ exit_stmts state k.exit)
              (timeout_chain state k.timeout ++ (on_calls k.handlers ++ done ∷ []))
            ∷ [])

-- Every path has a last segment, and `name` gives its identifier.
module _ {Ty SynPath Expr : Type 0} (segments : SynPath → List String) (name : SynPath → String)
    (named : (p : SynPath) → last (segments p) ≡ some (name p)) where
  expand_handlers-named :
      (ty : Ty) (hs : List (OnHandler SynPath Expr))
      → expand_handlers segments ty hs ≡ expanded (event_checks name ty hs, on_calls name hs)
  unfolding expand_handlers
  expand_handlers-named ty [] = refl
  expand_handlers-named ty (h ∷ hs) = rw (named h.event_path, expand_handlers-named ty hs)

  pub expand_block-named :
      (st ev : Ty) (k : StateBlock SynPath Expr)
      → expand_block segments st ev k ≡ expanded (block_stmts name st ev k)
  unfolding expand_block
  expand_block-named st ev k = rw (named k.state_path, expand_handlers-named ev k.handlers)

module _ {SynPath Expr S E C A : Type 0} (name : SynPath → String)
    (values : Values Expr S E C A) where
  -- A block added to a builder.
  unfoldable pub add_block : FsmBuilder S E C A → StateBlock SynPath Expr → FsmBuilder S E C A
  add_block b k =
      add_rows
        (record b {
          entry_handlers = put b.entry_handlers (name k.state_path) (entry_part name values k);
          exit_handlers = put b.exit_handlers (name k.state_path) (exit_part name values k);
          timeout_handlers =
              put b.timeout_handlers (name k.state_path) (timeout_part name values k);
        })
        (block_rows name values k)

  unfoldable pub add_blocks :
      FsmBuilder S E C A → List (StateBlock SynPath Expr) → FsmBuilder S E C A
  add_blocks b [] = b
  add_blocks b (k ∷ ks) = add_blocks (add_block b k) ks

  chain-on_when :
      (b : FsmBuilder S E C A) (state : String) (hs : List (OnHandler SynPath Expr))
      → chain values
          (on_calls name hs ++ done ∷ [])
          (in_when (record { builder = b; state_name = state }))
        ≡ some (in_fsm (add_rows b (handler_rows name values false state hs)))
  unfolding chain call When.on When.done add_rows add_row
  chain-on_when b state [] = refl
  chain-on_when b state (h ∷ hs) =
      chain-on_when
        (add_row b (record {
          timed = false;
          key = (state, name h.event_path);
          handler = values.transition h.handler;
        }))
        state hs

  chain-on_timeout :
      (b : FsmBuilder S E C A) (state : String) (hs : List (OnHandler SynPath Expr))
      → chain values
          (on_calls name hs ++ done ∷ [])
          (in_timeout (record { builder = b; state_name = state }))
        ≡ some (in_fsm (add_rows b (handler_rows name values true state hs)))
  unfolding chain call Timeout.on Timeout.done add_rows add_row
  chain-on_timeout b state [] = refl
  chain-on_timeout b state (h ∷ hs) =
      chain-on_timeout
        (add_row b (record {
          timed = true;
          key = (state, name h.event_path);
          handler = values.transition h.handler;
        }))
        state hs

  hooks-stmts :
      (b : FsmBuilder S E C A) (state : String) (e x : Option Expr)
      → hooks values (entry_stmts state e ++ exit_stmts state x) b ≡ record b {
        entry_handlers = put b.entry_handlers state (Option.map values.hook e);
        exit_handlers = put b.exit_handlers state (Option.map values.hook x);
      }
  unfolding hooks Builder.on_entry Builder.on_exit
  hooks-stmts b state none none = refl
  hooks-stmts b state none (some x) = refl
  hooks-stmts b state (some e) none = refl
  hooks-stmts b state (some e) (some x) = refl

  chain-timeout_chain :
      (b : FsmBuilder S E C A) (k : StateBlock SynPath Expr) (t : Option (TimeoutSpec Expr))
      → chain values
          (timeout_chain (name k.state_path) t ++ (on_calls name k.handlers ++ done ∷ []))
          (in_fsm b)
        ≡ some (
            in_fsm (
              add_rows
                (record b {
                  timeout_handlers =
                      put b.timeout_handlers
                        (name k.state_path)
                        (timeout_part name values (record k { timeout = t }));
                })
                (block_rows name values (record k { timeout = t }))))
  unfolding chain call Builder.when When.timeout
  chain-timeout_chain b k none = chain-on_when b (name k.state_path) k.handlers
  chain-timeout_chain b k (some t) =
      chain-on_timeout
        (record b {
          timeout_handlers =
              HashMap.insert b.timeout_handlers (name k.state_path)
                (values.duration t.duration, values.timeout_handler t.handler);
        })
        (name k.state_path) k.handlers

  -- The statement of a block adds the block.
  pub stmt-configure :
      (Ty : Type 0) (b : FsmBuilder S E C A) (k : StateBlock SynPath Expr)
      → stmt {S = S} {E = E} {C = C} {A = A} values {Ty = Ty} {SynPath = SynPath}
          (configure
            (entry_stmts (name k.state_path) k.entry ++ exit_stmts (name k.state_path) k.exit)
            (timeout_chain (name k.state_path) k.timeout
              ++ (on_calls name k.handlers ++ done ∷ [])))
          (some b)
        ≡ some (add_block b k)
  unfolding stmt add_block
  stmt-configure Ty b k =
      ap
        (λ x. finished values (
          chain values
            (timeout_chain (name k.state_path) k.timeout ++ (on_calls name k.handlers ++ done ∷ []))
            (in_fsm x)))
        (hooks-stmts b (name k.state_path) k.entry k.exit)
      ∙ ap (finished values) (
          chain-timeout_chain
            (record b {
              entry_handlers = put b.entry_handlers (name k.state_path) (entry_part name values k);
              exit_handlers = put b.exit_handlers (name k.state_path) (exit_part name values k);
            })
            k k.timeout)

  pub run-event_checks :
      {Ty : Type 0} (ty : Ty) (hs : List (OnHandler SynPath Expr))
      (rest : List (Stmt Ty SynPath Expr)) (b : Option (FsmBuilder S E C A))
      → run values (event_checks name ty hs ++ rest) b ≡ run values rest b
  unfolding run stmt
  run-event_checks ty [] rest b = refl
  run-event_checks ty (h ∷ hs) rest b = run-event_checks ty hs rest b

  pub run-append :
      {Ty : Type 0} (xs ys : List (Stmt Ty SynPath Expr)) (b : Option (FsmBuilder S E C A))
      → run values (xs ++ ys) b ≡ run values ys (run values xs b)
  unfolding run
  run-append [] ys b = refl
  run-append (x ∷ xs) ys b = run-append xs ys (stmt values x b)
