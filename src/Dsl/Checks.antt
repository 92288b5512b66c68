-- ===== src/Dsl/Checks.antt =====
-- What the compiler checks of the block that `fsm!` leaves, beyond the builder's calls: the derived
-- traits and the patterns (obzenflow-fsm-macros/src/codegen.rs; the traits are in src/lib.rs). The
-- compiler is a parameter.
use obzenflow_fsm.Prelude.{
  String, Bool, true, Option, none, some, List, [], ◌∷◌, ◌++◌, ◌≡◌, refl, subst, ◌∙◌, ◌↔◌, All,
  All-append, All-of_append,
}
use obzenflow_fsm.Dsl.Spec.{OnHandler, StateBlock, FsmSpec}
use obzenflow_fsm.Dsl.Codegen.{
  expanded, Stmt, require_derived_state, require_derived_event, new_builder, when_unhandled,
  matches_state, matches_event, configure, last, unhandled_stmts, expand_blocks, expand_fsm_spec,
}
use obzenflow_fsm.Dsl.Expand.{event_checks, block_stmts, expand_block-named}

-- Which types implement the two marker traits, and which enum's variant a path names in a pattern
-- `path { .. }`, after the imports in scope.
pub record Compiler (Ty SynPath : Type 0) : Type 0 where
  pub is_derived_state_variant : Ty → Bool
  pub is_derived_event_variant : Ty → Bool
  pub resolve : SynPath → Option (Ty × String)

module _ {Ty SynPath : Type 0} (rustc : Compiler Ty SynPath) where
  -- The path is a pattern of the enum.
  abbrev pub IsPattern : Ty → SynPath → Type 0
  IsPattern ty path = (variant : String) × (rustc.resolve path ≡ some (ty, variant))

module _ {Ty SynPath Expr : Type 0} (rustc : Compiler Ty SynPath) where
  abbrev pub Checks : Stmt Ty SynPath Expr → Type 0
  Checks (require_derived_state ty) = rustc.is_derived_state_variant ty ≡ true
  Checks (require_derived_event ty) = rustc.is_derived_event_variant ty ≡ true
  Checks (matches_state ty path) = IsPattern rustc ty path
  Checks (matches_event ty path) = IsPattern rustc ty path
  Checks (new_builder st ev cx ac e) = Unit
  Checks (when_unhandled e) = Unit
  Checks (configure hs cs) = Unit

  -- The state path of a block and the event path of each of its rows.
  abbrev pub BlockChecks : Ty → Ty → StateBlock SynPath Expr → Type 0
  BlockChecks state_ty event_ty b =
      IsPattern rustc state_ty b.state_path
      × All (λ h. IsPattern rustc event_ty h.event_path) b.handlers

  -- The state type and the event type derive their traits, and every path is a pattern.
  pub record TableChecks (spec : FsmSpec Ty SynPath Expr) : Type 0 where
    pub state_ty_derived : rustc.is_derived_state_variant spec.state_ty ≡ true
    pub event_ty_derived : rustc.is_derived_event_variant spec.event_ty ≡ true
    pub blocks : All (BlockChecks spec.state_ty spec.event_ty) spec.states

expanded-injective : {T : Type 0} {x y : T} → expanded x ≡ expanded y → x ≡ y
expanded-injective e = cc

module _ {Ty SynPath Expr : Type 0} (rustc : Compiler Ty SynPath) (segments : SynPath → List String)
    (name : SynPath → String) (named : (p : SynPath) → last (segments p) ≡ some (name p)) where
  abbrev blocks_stmts : Ty → Ty → List (StateBlock SynPath Expr) → List (Stmt Ty SynPath Expr)
  blocks_stmts st ev [] = []
  blocks_stmts st ev (b ∷ bs) = block_stmts name st ev b ++ blocks_stmts st ev bs

  expand_blocks-named :
      (st ev : Ty) (bs : List (StateBlock SynPath Expr))
      → expand_blocks segments st ev bs ≡ expanded (blocks_stmts st ev bs)
  unfolding expand_blocks
  expand_blocks-named st ev [] = refl
  expand_blocks-named st ev (b ∷ bs) =
      rw (expand_block-named segments name named st ev b, expand_blocks-named st ev bs)

  Checks-rows :
      (ev : Ty) (hs : List (OnHandler SynPath Expr))
      → All (Checks rustc) (event_checks name ev hs) ↔ All (λ h. IsPattern rustc ev h.event_path) hs
  Checks-rows ev [] = (λ h. tt, λ h. tt)
  Checks-rows ev (x ∷ hs) =
      let (to, from) = Checks-rows ev hs in (λ h. (h.0, to h.1), λ h. (h.0, from h.1))

  Checks-block :
      (st ev : Ty) (b : StateBlock SynPath Expr)
      → All (Checks rustc) (block_stmts name st ev b) ↔ BlockChecks rustc st ev b
  Checks-block st ev b =
      let (to, from) = Checks-rows ev b.handlers in
      let rows = event_checks name ev b.handlers in
      (
        λ h. (h.0, to (All-of_append (Checks rustc) rows _ h.1).0),
        λ h. (h.0, All-append (Checks rustc) rows _ (from h.1) (tt, tt)),
      )

  Checks-blocks :
      (st ev : Ty) (bs : List (StateBlock SynPath Expr))
      → All (Checks rustc) (blocks_stmts st ev bs) ↔ All (BlockChecks rustc st ev) bs
  Checks-blocks st ev [] = (λ h. tt, λ h. tt)
  Checks-blocks st ev (b ∷ bs) =
      let stmts = block_stmts name st ev b in
      let (to, from) = Checks-block st ev b in
      let (later, earlier) = Checks-blocks st ev bs in
      (
        λ h. let (x, y) = All-of_append (Checks rustc) stmts _ h in (to x, later y),
        λ h. All-append (Checks rustc) stmts _ (from h.0) (earlier h.1),
      )

  Checks-unhandled : (u : Option Expr) → All (Checks rustc) (unhandled_stmts {Ty = Ty} u)
  Checks-unhandled none = tt
  Checks-unhandled (some e) = (tt, tt)

  -- All statements of the expansion.
  abbrev table_stmts : FsmSpec Ty SynPath Expr → List (Stmt Ty SynPath Expr)
  table_stmts spec =
      require_derived_state spec.state_ty
      ∷ require_derived_event spec.event_ty
      ∷ new_builder spec.state_ty spec.event_ty spec.context_ty spec.action_ty spec.initial_expr
      ∷ (unhandled_stmts spec.unhandled ++ blocks_stmts spec.state_ty spec.event_ty spec.states)

  expanded_stmts :
      (spec : FsmSpec Ty SynPath Expr) → expanded (table_stmts spec) ≡ expand_fsm_spec segments spec
  unfolding expand_fsm_spec
  expanded_stmts spec = rw expand_blocks-named

  -- The checks that the compiler makes of the block that `fsm!` leaves for a table, beyond those of
  -- the builder's calls, succeed exactly if the state type and the event type derive their traits,
  -- each block's path is a pattern of the state type, and each row's path one of the event type.
  pub expansion-TableChecks :
      (spec : FsmSpec Ty SynPath Expr) (stmts : List (Stmt Ty SynPath Expr))
      → expand_fsm_spec segments spec ≡ expanded stmts
      → All (Checks rustc) stmts ↔ TableChecks rustc spec
  unfolding expand_fsm_spec
  expansion-TableChecks spec stmts e =
      let bs = blocks_stmts spec.state_ty spec.event_ty spec.states in
      let us = unhandled_stmts spec.unhandled in
      let (to, from) = Checks-blocks spec.state_ty spec.event_ty spec.states in
      let none_checked = Checks-unhandled spec.unhandled in
      subst (λ x. All (Checks rustc) x ↔ TableChecks rustc spec)
        (expanded-injective (expanded_stmts spec ∙ e))
        (
          λ (derived_s, (derived_e, (made, rest))). record {
            state_ty_derived = derived_s;
            event_ty_derived = derived_e;
            blocks = to (All-of_append (Checks rustc) us bs rest).1;
          },
          λ h. (
            h.state_ty_derived,
            (
              h.event_ty_derived,
              (tt, All-append (Checks rustc) us bs none_checked (from h.blocks)),
            ),
          ),
        )
