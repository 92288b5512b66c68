-- ===== src/Dsl/Codegen.antt =====
-- `expand_fsm_spec` (obzenflow-fsm-macros/src/codegen.rs): the statements of the block that `fsm!`
-- expands to, as data. `quote!` is a constructor for each shape of statement that it makes.
use obzenflow_fsm.Prelude.{String, Option, none, some, List, [], ◌∷◌, ◌++◌}
use obzenflow_fsm.Dsl.Spec.{TimeoutSpec, OnHandler, StateBlock, FsmSpec}

-- `panic!` in the macro: an `expect` that found `None`.
pub data Expansion (T : Type 0) : Type 0 where
  expanded : T → Expansion T
  panicked : String → Expansion T

infixl 10 ◌>>=◌
abbrev pub ◌>>=◌ : {A B : Type 0} → Expansion A → (A → Expansion B) → Expansion B
expanded a >>= f = f a
panicked message >>= f = panicked message

-- `b = b.on_entry(name, handler);` and `b = b.on_exit(name, handler);`
pub data HookCall (Expr : Type 0) : Type 0 where
  on_entry : String → Expr → HookCall Expr
  on_exit : String → Expr → HookCall Expr

-- One call of the chain `b.when(name).timeout(duration, handler).on(name, handler)….done()`.
pub data ChainCall (Expr : Type 0) : Type 0 where
  when : String → ChainCall Expr
  timeout : (duration handler : Expr) → ChainCall Expr
  on : String → Expr → ChainCall Expr
  done : ChainCall Expr

pub data Stmt (Ty SynPath Expr : Type 0) : Type 0 where
  -- `::obzenflow_fsm::internal::require_derived_state::<ty>();`, and for the event type
  require_derived_state : Ty → Stmt Ty SynPath Expr
  require_derived_event : Ty → Stmt Ty SynPath Expr
  -- `let mut builder = FsmBuilder::<…>::new(initial);`
  new_builder : (state_ty event_ty context_ty action_ty : Ty) → Expr → Stmt Ty SynPath Expr
  -- `builder = builder.when_unhandled(handler);`
  when_unhandled : Expr → Stmt Ty SynPath Expr
  -- `let _: fn(&ty) -> bool = |state| ::core::matches!(state, path { .. });`, and for an event
  matches_state : Ty → SynPath → Stmt Ty SynPath Expr
  matches_event : Ty → SynPath → Stmt Ty SynPath Expr
  -- `builder = { let mut b = builder; …hooks…; b = b…chain…; b };`
  configure : List (HookCall Expr) → List (ChainCall Expr) → Stmt Ty SynPath Expr

abbrev pub last : List String → Option String
last [] = none
last (x ∷ []) = some x
last (x ∷ y ∷ ys) = last (y ∷ ys)

abbrev pub or_panic : String → Option String → Expansion String
or_panic message none = panicked message
or_panic message (some name) = expanded name

-- `path.segments.last().expect(message).ident.to_string()`
pub path_name : {SynPath : Type 0} → (SynPath → List String) → String → SynPath → Expansion String
path_name segments message path = or_panic message (last (segments path))

abbrev pub timeout_chain :
    {Expr : Type 0} → String → Option (TimeoutSpec Expr) → List (ChainCall Expr)
timeout_chain name (some t) = when name ∷ timeout t.duration t.handler ∷ []
timeout_chain name none = when name ∷ []

abbrev pub entry_stmts : {Expr : Type 0} → String → Option Expr → List (HookCall Expr)
entry_stmts name (some handler) = on_entry name handler ∷ []
entry_stmts name none = []

abbrev pub exit_stmts : {Expr : Type 0} → String → Option Expr → List (HookCall Expr)
exit_stmts name (some handler) = on_exit name handler ∷ []
exit_stmts name none = []

abbrev pub unhandled_stmts : {Ty SynPath Expr : Type 0} → Option Expr → List (Stmt Ty SynPath Expr)
unhandled_stmts (some handler) = when_unhandled handler ∷ []
unhandled_stmts none = []

module _ {Ty SynPath Expr : Type 0} (segments : SynPath → List String) where
  -- The loop over a block's `on` rows: the patterns to check, and the calls of the chain.
  unfoldable pub expand_handlers :
      Ty
      → List (OnHandler SynPath Expr)
      → Expansion (List (Stmt Ty SynPath Expr) × List (ChainCall Expr))
  unfolding path_name
  expand_handlers event_ty [] = expanded ([], [])
  expand_handlers event_ty (h ∷ hs) = do
    name ← path_name segments "event path has at least one segment" h.event_path
    rest ← expand_handlers event_ty hs
    expanded (matches_event event_ty h.event_path ∷ rest.0, on name h.handler ∷ rest.1)

  -- One round of the loop over `spec.states`.
  unfoldable pub expand_block :
      Ty → Ty → StateBlock SynPath Expr → Expansion (List (Stmt Ty SynPath Expr))
  unfolding path_name
  expand_block state_ty event_ty b = do
    name ← path_name segments "state path has at least one segment" b.state_path
    rows ← expand_handlers event_ty b.handlers
    expanded (
        matches_state state_ty b.state_path
        ∷ (rows.0
            ++ configure (entry_stmts name b.entry ++ exit_stmts name b.exit)
                (timeout_chain name b.timeout ++ (rows.1 ++ done ∷ []))
              ∷ []))

  unfoldable pub expand_blocks :
      Ty → Ty → List (StateBlock SynPath Expr) → Expansion (List (Stmt Ty SynPath Expr))
  expand_blocks state_ty event_ty [] = expanded []
  expand_blocks state_ty event_ty (b ∷ bs) = do
    stmts ← expand_block state_ty event_ty b
    rest ← expand_blocks state_ty event_ty bs
    expanded (stmts ++ rest)

  -- The statements before the final `builder.build()`.
  unfoldable pub expand_fsm_spec : FsmSpec Ty SynPath Expr → Expansion (List (Stmt Ty SynPath Expr))
  expand_fsm_spec spec = do
    blocks ← expand_blocks spec.state_ty spec.event_ty spec.states
    expanded (
        require_derived_state spec.state_ty
        ∷ require_derived_event spec.event_ty
        ∷ new_builder spec.state_ty spec.event_ty spec.context_ty spec.action_ty spec.initial_expr
        ∷ (unhandled_stmts spec.unhandled ++ blocks))
