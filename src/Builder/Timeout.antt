-- ===== src/Builder/Timeout.antt =====
-- The methods of `TimeoutBuilder` (src/builder.rs). Unlike `WhenBuilder::on`, its `on` notes no
-- duplicate.
use obzenflow_fsm.Prelude.{String, string_equality, pair_equality}
use obzenflow_fsm.HashMap
use obzenflow_fsm.Types.{TransitionHandler}
use obzenflow_fsm.Builder.{FsmBuilder, TimeoutBuilder}

module _ {S E C A : Type 0} where
  unfoldable pub on :
      TimeoutBuilder S E C A → String → TransitionHandler S E C A → TimeoutBuilder S E C A
  on self event_name handler = record self {
    builder = record self.builder {
      transitions = HashMap.insert self.builder.transitions (self.state_name, event_name) handler;
    };
  }

  unfoldable pub done : TimeoutBuilder S E C A → FsmBuilder S E C A
  done self = self.builder
