-- ===== src/Builder/When.antt =====
-- The methods of `WhenBuilder` (src/builder.rs).
use obzenflow_fsm.Prelude.{ℕ, String, [], ◌∷◌, ◌++◌, if◌then◌else◌, string_equality, pair_equality}
use obzenflow_fsm.HashMap
use obzenflow_fsm.Types.{TransitionHandler, TimeoutHandler}
use obzenflow_fsm.Builder.{FsmBuilder, WhenBuilder, TimeoutBuilder}

module _ {S E C A : Type 0} where
  -- The handler of a key that is there already replaces the old one, and the key is noted.
  unfoldable pub on : WhenBuilder S E C A → String → TransitionHandler S E C A → WhenBuilder S E C A
  on self event_name handler =
      let key : String × String = (self.state_name, event_name) in
      record self {
        builder = record self.builder {
          duplicate_handlers =
              if HashMap.contains_key self.builder.transitions key
              then self.builder.duplicate_handlers ++ key ∷ []
              else self.builder.duplicate_handlers;
          transitions = HashMap.insert self.builder.transitions key handler;
        };
      }

  unfoldable pub timeout :
      WhenBuilder S E C A → (duration : ℕ) → TimeoutHandler S C A → TimeoutBuilder S E C A
  timeout self duration handler = record {
    builder = record self.builder {
      timeout_handlers =
          HashMap.insert self.builder.timeout_handlers self.state_name (duration, handler);
    };
    state_name = self.state_name;
  }

  unfoldable pub done : WhenBuilder S E C A → FsmBuilder S E C A
  done self = self.builder
