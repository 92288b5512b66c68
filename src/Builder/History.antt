-- ===== src/Builder/History.antt =====
-- Chains of calls of the builder's methods (src/builder.rs), `from_any` included, by themselves:
-- what their last calls say of each state and event, with no builder.
pub mod Builds
pub mod Means
pub mod Wildcard
use obzenflow_fsm.Prelude.{
  ℕ, String, ◌<>◌, Bool, true, false, Option, none, some, List, [], ◌∷◌, ◌++◌, ◌==◌, any, is_some,
  if◌then◌else◌, string_equality, pair_equality,
}
use obzenflow_fsm.Error.{FsmError, duplicate_handler, builder_error}
use obzenflow_fsm.Types.{
  StateVariant, EventVariant, TransitionHandler, StateHandler, TimeoutHandler, UnhandledHandler,
}
use obzenflow_fsm.Machine.Rules.{Rules, or_else}
use obzenflow_fsm.Builder.{
  FsmBuilder, WhenBuilder, TimeoutBuilder, new, strict, when_unhandled, on_entry, on_exit,
}
use obzenflow_fsm.Builder.When
use obzenflow_fsm.Builder.Timeout

-- A call that gives a handler. `timed` is for the `on` of a `TimeoutBuilder`.
pub data Call (S E C A : Type 0) : Type 0 where
  gave_on : (timed : Bool) → (key : String × String) → TransitionHandler S E C A → Call S E C A
  gave_timeout : (state : String) → (duration : ℕ) → TimeoutHandler S C A → Call S E C A
  gave_entry : (state : String) → StateHandler S C A → Call S E C A
  gave_exit : (state : String) → StateHandler S C A → Call S E C A
  gave_unhandled : UnhandledHandler S E C → Call S E C A

-- The error for the first of the noted duplicates, or else this one.
abbrev pub verdict : List (String × String) → Option FsmError → Option FsmError
verdict ((state, event) ∷ _) e = some (duplicate_handler state event)
verdict [] e = e

module _ {S E C A : Type 0} where
  -- The calls that a builder was made by, the last one first, from `new(initial)`.
  pub data MadeBy (initial : S) : FsmBuilder S E C A → List (Call S E C A) → Type 0 where
    by_new : MadeBy initial (new initial) []
    by_strict :
        {b : FsmBuilder S E C A} {cs : List (Call S E C A)}
        → MadeBy initial b cs
        → MadeBy initial (strict b) cs
    by_unhandled :
        {b : FsmBuilder S E C A} {cs : List (Call S E C A)} (h : UnhandledHandler S E C)
        → MadeBy initial b cs
        → MadeBy initial (when_unhandled b h) (gave_unhandled h ∷ cs)
    by_entry :
        {b : FsmBuilder S E C A} {cs : List (Call S E C A)} (n : String) (h : StateHandler S C A)
        → MadeBy initial b cs
        → MadeBy initial (on_entry b n h) (gave_entry n h ∷ cs)
    by_exit :
        {b : FsmBuilder S E C A} {cs : List (Call S E C A)} (n : String) (h : StateHandler S C A)
        → MadeBy initial b cs
        → MadeBy initial (on_exit b n h) (gave_exit n h ∷ cs)
    by_on :
        {cs : List (Call S E C A)} (w : WhenBuilder S E C A) (n : String)
        (h : TransitionHandler S E C A)
        → MadeBy initial w.builder cs
        → MadeBy initial (When.on w n h).builder (gave_on false (w.state_name, n) h ∷ cs)
    by_timeout :
        {cs : List (Call S E C A)} (w : WhenBuilder S E C A) (d : ℕ) (h : TimeoutHandler S C A)
        → MadeBy initial w.builder cs
        → MadeBy initial (When.timeout w d h).builder (gave_timeout w.state_name d h ∷ cs)
    by_timed_on :
        {cs : List (Call S E C A)} (t : TimeoutBuilder S E C A) (n : String)
        (h : TransitionHandler S E C A)
        → MadeBy initial t.builder cs
        → MadeBy initial (Timeout.on t n h).builder (gave_on true (t.state_name, n) h ∷ cs)

  -- What the last of the calls that say anything says.
  unfoldable pub latest : {X : Type 0} → (Call S E C A → Option X) → List (Call S E C A) → Option X
  latest f [] = none
  latest f (c ∷ cs) = or_else (f c) (latest f cs)

  abbrev pub row_for : String × String → Call S E C A → Option (TransitionHandler S E C A)
  row_for k (gave_on timed key h) = if key == k then some h else none
  row_for k _ = none

  abbrev pub timeout_for : String → Call S E C A → Option (ℕ × TimeoutHandler S C A)
  timeout_for n (gave_timeout state d h) = if state == n then some (d, h) else none
  timeout_for n _ = none

  abbrev pub entry_for : String → Call S E C A → Option (StateHandler S C A)
  entry_for n (gave_entry state h) = if state == n then some h else none
  entry_for n _ = none

  abbrev pub exit_for : String → Call S E C A → Option (StateHandler S C A)
  exit_for n (gave_exit state h) = if state == n then some h else none
  exit_for n _ = none

  abbrev pub hook_for : Call S E C A → Option (UnhandledHandler S E C)
  hook_for (gave_unhandled h) = some h
  hook_for _ = none

  -- The keys that the `on` of a `WhenBuilder` was given again, in the order of the calls.
  abbrev pub noted : List (Call S E C A) → Call S E C A → List (String × String)
  noted before (gave_on false key h) =
      if is_some (latest (row_for key) before) then key ∷ [] else []
  noted before _ = []

  unfoldable pub repeated : List (Call S E C A) → List (String × String)
  repeated [] = []
  repeated (c ∷ cs) = repeated cs ++ noted cs c

  -- A call gives the state a handler for some event.
  abbrev pub leaves : String → Call S E C A → Bool
  leaves n (gave_on timed key h) = key.0 == n
  leaves n _ = false

  -- The error for calls that give the initial state neither a handler nor a timeout.
  abbrev pub stays : ⦃sv : StateVariant S⦄ → S → List (Call S E C A) → Option FsmError
  stays ⦃sv⦄ initial cs =
      if any (leaves (sv.variant_name initial)) cs
      then none
      else if is_some (latest (timeout_for (sv.variant_name initial)) cs)
      then none
      else some (
          builder_error (
            "No transitions or timeout configured for initial state '"
            <> sv.variant_name initial
            <> "'"))

  -- What the calls say of the states, a call for any state, `_`, included.
  abbrev pub history_rules :
      ⦃sv : StateVariant S⦄ ⦃ev : EventVariant E⦄ → List (Call S E C A) → Rules S E C A
  history_rules ⦃sv⦄ ⦃ev⦄ cs = record {
    row = λ state event.
        or_else (latest (row_for (sv.variant_name state, ev.variant_name event)) cs)
          (latest (row_for ("_", ev.variant_name event)) cs);
    exit = λ state. latest (exit_for (sv.variant_name state)) cs;
    entry = λ state. latest (entry_for (sv.variant_name state)) cs;
    timeout = λ state. latest (timeout_for (sv.variant_name state)) cs;
    unhandled = latest hook_for cs;
  }
