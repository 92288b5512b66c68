-- ===== src/Dsl/Fsm/Patterns.antt =====
-- The rows of a table as patterns. A row is written with paths, which the compiler checks as
-- patterns and the macro turns into names; a derived `variant_name` gives the names of values.
use mathlib.Core.Option
use obzenflow_fsm.Prelude.{
  ℕ, ◌<◌, String, Bool, false, Option, none, some, List, [], ◌∷◌, ◌≡◌, ◌≢◌, refl, sym, ap, ◌∙◌, inl,
  inr, ◌==◌, is_some, if◌then◌else◌, arith, string_equality, pair_equality, Bool-cases, All,
}
use obzenflow_fsm.Types.{StateVariant, EventVariant, World, TransitionHandler}
use obzenflow_fsm.Machine.{StateMachine, Run, handle, unhandled}
use obzenflow_fsm.Machine.Host.{AnyStep, Reach}
use obzenflow_fsm.Builder.{returned}
use obzenflow_fsm.Dsl.Syn.{Syn, Tokens}
use obzenflow_fsm.Dsl.Spec.{OnHandler, StateBlock, FsmSpec}
use obzenflow_fsm.Dsl.Codegen.{last}
use obzenflow_fsm.Dsl.Eval.{Values}
use obzenflow_fsm.Dsl.Tables.{last_row, handler_rows, block_rows, table_rows}
use obzenflow_fsm.Dsl.Lookup.{last_row-append}
use obzenflow_fsm.Dsl.Parse.Print.{to_decls, rounds}
use obzenflow_fsm.Dsl.Checks.{Compiler, IsPattern, BlockChecks, TableChecks}
use obzenflow_fsm.Dsl.Derive.{arms_of, match_self}
use obzenflow_fsm.Dsl.Derive.Names.{match_self-arms_of}
use obzenflow_fsm.Dsl.Fsm.Machines.{FsmGives}
use obzenflow_fsm.Dsl.Fsm.Dispatch.{NoWildcard, row_or_hook, fsm_dispatch}

-- `matches!(value, path { .. })`, for a value of the variant `ident`.
abbrev pub pattern_matches :
    {Ty SynPath : Type 0} → Compiler Ty SynPath → SynPath → (ident : String) → Bool
pattern_matches rustc path ident = elim (rustc.resolve path) [
  | none ↦ false
  | some (ty, variant) ↦ variant == ident
]

-- No import renames a variant: a path that names a variant ends in its identifier.
abbrev pub IsUnrenamed : {Ty SynPath : Type 0} → Compiler Ty SynPath → (SynPath → String) → Type 0
IsUnrenamed {Ty} {SynPath} rustc name =
    (p : SynPath) (ty : Ty) (variant : String)
    → rustc.resolve p ≡ some (ty, variant)
    → variant ≡ name p

-- The trait is derived for an enum of these variants: `variant_name` is the generated `match`.
abbrev pub IsDerivedFor : {X : Type 0} → List String → (X → String) → (X → String) → Type 0
IsDerivedFor {X} variants ident variant_name =
    (x : X) → match_self (arms_of variants) (ident x) ≡ some (variant_name x)

variant_name-ident :
    {X : Type 0} (variants : List String) (ident variant_name : X → String)
    → IsDerivedFor variants ident variant_name
    → (x : X) → variant_name x ≡ ident x
variant_name-ident variants ident variant_name derived x =
    let e = sym (match_self-arms_of variants (ident x)) ∙ derived x in ground arith

module _ {Ty SynPath Expr S E C A : Type 0} (rustc : Compiler Ty SynPath)
    (values : Values Expr S E C A) where
  -- The handler of the last row whose pattern matches the event.
  unfoldable pub last_on :
      List (OnHandler SynPath Expr)
      → (event : String) → Option (TransitionHandler S E C A)
      → Option (TransitionHandler S E C A)
  last_on [] event found = found
  last_on (h ∷ hs) event found = last_on hs event (
      if pattern_matches rustc h.event_path event
      then some (values.transition h.handler)
      else found)

  -- The handler of the last row of a table such that its block's pattern matches the state and its
  -- own the event, for a state and an event of these variants.
  unfoldable pub last_match :
      List (StateBlock SynPath Expr)
      → (state event : String) → Option (TransitionHandler S E C A)
      → Option (TransitionHandler S E C A)
  last_match [] state event found = found
  last_match (b ∷ bs) state event found =
      last_match bs state event
        (if pattern_matches rustc b.state_path state then last_on b.handlers event found else found)

  module _ (name : SynPath → String) (unrenamed : IsUnrenamed rustc name) where
    pattern_matches-name :
        (ty : Ty) (p : SynPath) (ident : String)
        → IsPattern rustc ty p
        → pattern_matches rustc p ident ≡ (name p == ident)
    pattern_matches-name ty p ident (variant, e) =
        rw (e, pattern_matches) (ap (λ x. x == ident) (unrenamed p ty variant e))

    last_row-last_on :
        (timed : Bool) (ty : Ty) (hs : List (OnHandler SynPath Expr)) (state s event : String)
        (found : Option (TransitionHandler S E C A))
        → All (λ h. IsPattern rustc ty h.event_path) hs
        → last_row (handler_rows name values timed state hs) (s, event) found
          ≡ (if state == s then last_on hs event found else found)
    unfolding last_row last_on
    last_row-last_on timed ty [] state s event found all = ground arith
    last_row-last_on timed ty (h ∷ hs) state s event found (p, all) =
        last_row-last_on timed ty hs state s event _ all
        ∙ rw (pattern_matches-name ty h.event_path event p)
            (elim (Bool-cases (state == s)) [ inl e ↦ rw e refl | inr e ↦ rw e refl ])

    last_row-last_match :
        (st ev : Ty) (bs : List (StateBlock SynPath Expr)) (state event : String)
        (found : Option (TransitionHandler S E C A))
        → All (BlockChecks rustc st ev) bs
        → last_row (table_rows name values bs) (state, event) found
          ≡ last_match bs state event found
    unfolding last_row table_rows last_match
    last_row-last_match st ev [] state event found all = refl
    last_row-last_match st ev (b ∷ bs) state event found ((p, rows), all) =
        last_row-append (block_rows name values b) (table_rows name values bs) (state, event) found
        ∙ last_row-last_match st ev bs state event _ all
        ∙ ap (last_match bs state event) (
            last_row-last_on (is_some b.timeout) ev b.handlers (name b.state_path) state event found
              rows
            ∙ rw (pattern_matches-name st b.state_path state p))

-- No row of the table is written with a path that ends in the event's name.
abbrev pub NoRowNamed :
    {SynPath Expr : Type 0} → (SynPath → String) → List (StateBlock SynPath Expr) → String → Type 0
NoRowNamed name bs event = All (λ b. All (λ h. name h.event_path ≢ event) b.handlers) bs

module _ {SynPath Expr S E C A : Type 0} (name : SynPath → String)
    (values : Values Expr S E C A) where
  handler_rows-NoRowNamed :
      (timed : Bool) (state s event : String) (hs : List (OnHandler SynPath Expr))
      (found : Option (TransitionHandler S E C A))
      → All (λ h. name h.event_path ≢ event) hs
      → last_row (handler_rows name values timed state hs) (s, event) found ≡ found
  unfolding last_row
  handler_rows-NoRowNamed timed state s event [] found all = refl
  handler_rows-NoRowNamed timed state s event (h ∷ hs) found (ne, all) =
      handler_rows-NoRowNamed timed state s event hs _ all
      ∙ ground (arith, string_equality.beq_iff (name h.event_path) event)

  table_rows-NoRowNamed :
      (bs : List (StateBlock SynPath Expr)) (s event : String)
      → NoRowNamed name bs event
      → last_row (table_rows name values bs) (s, event) none ≡ none
  unfolding last_row table_rows
  table_rows-NoRowNamed [] s event all = refl
  table_rows-NoRowNamed (b ∷ bs) s event (rows, all) =
      last_row-append (block_rows name values b) (table_rows name values bs) (s, event) none
      ∙ ap (last_row (table_rows name values bs) (s, event)) (
          handler_rows-NoRowNamed (is_some b.timeout) (name b.state_path) s event b.handlers none
            rows)
      ∙ table_rows-NoRowNamed bs s event all

module _ {S E C A : Type 0} ⦃sv : StateVariant S⦄ ⦃ev : EventVariant E⦄ (syn : Syn)
    (tokens : Tokens syn) (name : syn.ExprPath → String)
    (named : (p : syn.ExprPath) → last (syn.segments p) ≡ some (name p))
    (values : Values syn.Expr S E C A) (spec : FsmSpec syn.Ty syn.ExprPath syn.Expr) (fuel now : ℕ)
    (enough : rounds (to_decls spec) < fuel) (rustc : Compiler syn.Ty syn.ExprPath)
    (states events : List String) (state_ident : S → String) (event_ident : E → String)
    (state_derived : IsDerivedFor states state_ident sv.variant_name)
    (event_derived : IsDerivedFor events event_ident ev.variant_name) where
  -- A machine that `fsm!` gives for a table whose block the compiler accepts, with derived traits,
  -- no renaming imports, and no row for a state called `_`, after any steps of its host, calls that
  -- it drops included: an event runs the handler of the last row whose patterns match the current
  -- state and the event, and if there is none it goes to the table's `unhandled` hook, or is an
  -- error if the table has no hook.
  pub fsm_patterns :
      (m : StateMachine S E C A) (w : World C) (s : Run S E C A) (event : E)
      → FsmGives syn tokens name named values spec fuel now enough (returned m)
      → Reach AnyStep (record { machine = m; world = w }) s
      → NoWildcard (table_rows name values spec.states)
      → TableChecks rustc spec
      → IsUnrenamed rustc name
      → handle event s
        ≡ row_or_hook
            (last_match rustc values spec.states
              (state_ident s.current_state)
              (event_ident event)
              none)
            (Option.map values.unhandled spec.unhandled)
            event
            s
  fsm_patterns m w s event gives steps plain checks unrenamed =
      fsm_dispatch syn tokens name named values spec fuel now enough m w s event gives steps plain
      ∙ ap (λ row. row_or_hook row (Option.map values.unhandled spec.unhandled) event s)
          (rw
            (
              variant_name-ident states state_ident sv.variant_name state_derived s.current_state,
              variant_name-ident events event_ident ev.variant_name event_derived event,
            )
            (last_row-last_match rustc values name unrenamed spec.state_ty spec.event_ty spec.states
              (state_ident s.current_state) (event_ident event) none checks.blocks))

  -- A machine that `fsm!` gives, with derived traits, for a table whose block the compiler accepts,
  -- but in which no row's path ends in the event's variant, as it can be if an import renames that
  -- variant: the event is not handled by any row, though a row's patterns match it and the current
  -- state. It goes to the `unhandled` hook, or is an error.
  pub renamed-unhandled :
      (m : StateMachine S E C A) (w : World C) (s : Run S E C A) (event : E)
      (handler : TransitionHandler S E C A)
      → FsmGives syn tokens name named values spec fuel now enough (returned m)
      → Reach AnyStep (record { machine = m; world = w }) s
      → NoWildcard (table_rows name values spec.states)
      → TableChecks rustc spec
      → last_match rustc values spec.states (state_ident s.current_state) (event_ident event) none
        ≡ some handler
      → NoRowNamed name spec.states (event_ident event)
      → handle event s ≡ unhandled (Option.map values.unhandled spec.unhandled) event s
  renamed-unhandled m w s event handler gives steps plain checks matching renamed =
      let rows = table_rows name values spec.states in
      let missing : last_row rows (sv.variant_name s.current_state, ev.variant_name event) none
          ≡ none =
        rw (variant_name-ident events event_ident ev.variant_name event_derived event) (
          table_rows-NoRowNamed name values spec.states (sv.variant_name s.current_state)
            (event_ident event) renamed) in
      fsm_dispatch syn tokens name named values spec fuel now enough m w s event gives steps plain
      ∙ ap (λ row. row_or_hook row (Option.map values.unhandled spec.unhandled) event s) missing
