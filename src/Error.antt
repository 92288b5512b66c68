-- ===== src/Error.antt =====
-- src/error.rs: the errors of handlers, actions and construction, with their messages.
use obzenflow_fsm.Prelude.{String, ◌<>◌}

pub data FsmError : Type 0 where
  invalid_transition : (from event : String) → FsmError
  duplicate_handler : (state event : String) → FsmError
  handler_error : String → FsmError
  timeout : (state : String) → FsmError
  unhandled_event : (state event : String) → FsmError
  builder_error : String → FsmError

-- The `#[error("…")]` attributes.
unfoldable pub display : FsmError → String
display (invalid_transition from event) =
    "Invalid transition from state '" <> from <> "' on event '" <> event <> "'"
display (duplicate_handler state event) =
    "Duplicate handler for state '" <> state <> "' and event '" <> event <> "'"
display (handler_error m) = "Handler error: " <> m
display (timeout state) = "Timeout in state '" <> state <> "'"
display (unhandled_event state event) =
    "Unhandled event '" <> event <> "' in state '" <> state <> "'"
display (builder_error m) = "Builder error: " <> m
