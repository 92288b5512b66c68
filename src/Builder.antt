-- ===== src/Builder.antt =====
-- src/builder.rs: the builder that `fsm!` expands to. `self` is moved into each method, so a
-- method returns the new builder. A closure that is wrapped in `Arc::new(move |…| handler(…))`
-- is the handler.
pub mod When
pub mod Calls
pub mod Validation
pub mod Timeout
pub mod Duplicates
pub mod History
use obzenflow_fsm.Prelude.{
  ℕ, String, ◌<>◌, Bool, true, false, ◌&&◌, not, Option, none, some, List, [], ◌∷◌, map, any, ◌==◌,
  if◌then◌else◌, string_equality, pair_equality,
}
use obzenflow_fsm.HashMap
use obzenflow_fsm.Error.{FsmError, duplicate_handler, builder_error, display}
use obzenflow_fsm.Exec.{FsmResult, ok, err}
use obzenflow_fsm.Types.{StateVariant, StateHandler, UnhandledHandler}
use obzenflow_fsm.Machine
use obzenflow_fsm.Machine.{TransitionMap, StateHandlerMap, TimeoutHandlerMap, StateMachine}

pub record FsmBuilder (S E C A : Type 0) : Type 0 where
  pub initial_state : S
  pub transitions : TransitionMap S E C A
  pub entry_handlers : StateHandlerMap S C A
  pub exit_handlers : StateHandlerMap S C A
  pub timeout_handlers : TimeoutHandlerMap S C A
  pub duplicate_handlers : List (String × String)
  pub strict_validation : Bool
  pub unhandled_handler : Option (UnhandledHandler S E C)

pub record WhenBuilder (S E C A : Type 0) : Type 0 where
  pub builder : FsmBuilder S E C A
  pub state_name : String

pub record TimeoutBuilder (S E C A : Type 0) : Type 0 where
  pub builder : FsmBuilder S E C A
  pub state_name : String

-- What a call ends in: a value, or a panic with its message.
pub data Outcome (T : Type 0) : Type 0 where
  returned : T → Outcome T
  panicked : String → Outcome T

module _ {S E C A : Type 0} where
  unfoldable pub new : S → FsmBuilder S E C A
  new initial_state = record {
    initial_state = initial_state;
    transitions = HashMap.new;
    entry_handlers = HashMap.new;
    exit_handlers = HashMap.new;
    timeout_handlers = HashMap.new;
    duplicate_handlers = [];
    strict_validation = true;
    unhandled_handler = none;
  }

  unfoldable pub strict : FsmBuilder S E C A → FsmBuilder S E C A
  strict self = record self { strict_validation = true }

  unfoldable pub when : FsmBuilder S E C A → String → WhenBuilder S E C A
  when self state_name = record { builder = self; state_name = state_name }

  unfoldable pub from_any : FsmBuilder S E C A → WhenBuilder S E C A
  from_any self = record { builder = self; state_name = "_" }

  unfoldable pub when_unhandled : FsmBuilder S E C A → UnhandledHandler S E C → FsmBuilder S E C A
  when_unhandled self handler = record self { unhandled_handler = some handler }

  unfoldable pub on_entry : FsmBuilder S E C A → String → StateHandler S C A → FsmBuilder S E C A
  on_entry self state_name handler = record self {
    entry_handlers = HashMap.insert self.entry_handlers state_name handler;
  }

  unfoldable pub on_exit : FsmBuilder S E C A → String → StateHandler S C A → FsmBuilder S E C A
  on_exit self state_name handler = record self {
    exit_handlers = HashMap.insert self.exit_handlers state_name handler;
  }

-- `format!("No transitions or timeout configured for initial state '{initial_state_name}'")`
abbrev pub no_way_out : String → FsmError
no_way_out name =
    builder_error ("No transitions or timeout configured for initial state '" <> name <> "'")

module _ {S E C A : Type 0} ⦃sv : StateVariant S⦄ where
  -- `self.transitions.keys().any(|(state_name, _)| state_name == &initial_state_name)`
  has_transition : FsmBuilder S E C A → String → Bool
  has_transition self name = any (λ k. k.0 == name) (HashMap.keys self.transitions)

  has_timeout : FsmBuilder S E C A → String → Bool
  has_timeout self name = HashMap.contains_key self.timeout_handlers name

  -- The strict-mode checks, which end in no error or in this one.
  unfoldable pub strict_error : FsmBuilder S E C A → Option FsmError
  unfolding has_transition has_timeout
  strict_error self =
      let name = sv.variant_name self.initial_state in
      if self.strict_validation
      then if not (has_transition self name) && not (has_timeout self name)
        then some (no_way_out name)
        else none
      else none

  checked :
      FsmBuilder S E C A → List (String × String) → (now : ℕ) → FsmResult (StateMachine S E C A)
  checked self ((state, event) ∷ _) now = err (duplicate_handler state event)
  checked self [] now = elim (strict_error self) [
    | some e ↦ err e
    | none ↦ ok (
        Machine.new self.initial_state self.transitions self.entry_handlers self.exit_handlers
          self.timeout_handlers self.unhandled_handler now)
  ]

  unfoldable pub try_build : FsmBuilder S E C A → (now : ℕ) → FsmResult (StateMachine S E C A)
  unfolding checked
  try_build self now = checked self self.duplicate_handlers now

  unfoldable pub built : FsmResult (StateMachine S E C A) → Outcome (StateMachine S E C A)
  built (ok machine) = returned machine
  built (err e) = panicked ("FsmBuilder::build failed: " <> display e)

  unfoldable pub build : FsmBuilder S E C A → (now : ℕ) → Outcome (StateMachine S E C A)
  build self now = built (try_build self now)
