-- ===== src/Lib.antt =====
-- obzenflow-fsm: an async finite state machine engine with a table macro, `fsm!`.
--
-- The program's parts, and how they interact. A host writes a table with `fsm!`. The macro parses
-- it (obzenflow-fsm-macros/src/parse.rs) and expands it (obzenflow-fsm-macros/src/codegen.rs) to
-- calls of the builder (src/builder.rs). The builder fills maps of handlers, validates them, and
-- makes a machine (src/machine.rs). The host feeds events to the machine, polls its timeout, and
-- executes the actions that both return. Handlers are the host's code.
--
-- What models what:
--   Error            src/error.rs: `FsmError` and its messages.
--   Exec             an `async fn` with `&mut` arguments: state passing with errors as values.
--   Types, Transitions
--                    src/types.rs, src/handlers.rs, src/transitions.rs. A trait is a record of its
--                    methods. Types/Chains is about the builders of transitions.
--   HashMap          what the sources use of `std::collections::HashMap`, as an association list.
--   Machine          src/machine.rs: `Run` is the machine beside the world, that is the host's
--                    context and the clock. `handle`, `check_timeout`, `apply_transition`,
--                    `execute_actions` and `new` have the names of the source; `on_exact`,
--                    `on_wildcard`, `unhandled`, `fire_event`, `poll` and `fire` are their branches.
--                    Apply, Dispatch and Poll hold rules for what these functions do, as data
--                    types with a constructor for each way to end; the maps, `run_hook` and
--                    `deadline` are shared with the code. Timers, Deadlines, Failures, Tables, Host,
--                    Actions and Replay reason from those rules. Suspend has the same functions as
--                    futures with a point at each `.await` of a handler, for Finish and Drops. Host
--                    is a host that may drop a call at such a point; Polling is one that only polls,
--                    and Lookups compares machines by what lookups in their tables find. Serve has
--                    hosts as programs, which choose each call by the answers before and by the
--                    world. Rules is an interpreter of rules for states, with no maps and no names.
--   Builder          src/builder.rs: the three builders, with When and Timeout for the methods of
--                    `WhenBuilder` and `TimeoutBuilder`. Validation, Calls and Duplicates are about
--                    what `try_build` makes of them, and History reads a chain of calls, `from_any`
--                    included, as rules for states.
--   Dsl.Syn          the crate `syn`, a parameter: parsers for tokens, with what the macros rely on
--                    (Consumes: parsers take tokens from the front; Tokens: what is written is
--                    read back). Tests/Toy has an instance of it.
--   Dsl.Spec, Dsl.Parse
--                    obzenflow-fsm-macros/src/parse.rs. Dsl.Parse.Print writes tables as tokens,
--                    and Dsl.Parse.Grammar is the grammar of tables, with no parser.
--   Dsl.Codegen      obzenflow-fsm-macros/src/codegen.rs: `quote!` as data. Dsl.Eval runs those
--                    statements on the builder, and Dsl.Tables reads a table with no builder.
--   Dsl.Fsm, Dsl.Derive
--                    obzenflow-fsm-macros/src/lib.rs: `fsm!` and the two derives. Dsl.Fsm.Patterns
--                    is about both together, and Dsl.Fsm.Reorder about the order of blocks.
--   Dsl.Meaning      a table as rules for states, with no builder and no machine.
--   Dsl.Spelling     how a concrete table is spelled in the syntax of `syn`, a parameter of the doors.
--   Dsl.Checks       what the compiler checks of an expansion beyond the builder's calls: the marker
--                    traits of src/lib.rs and the patterns. The compiler is a parameter: which types
--                    derive the traits, and which variant a path names.
--   Supervisor       the host loop of the guide in src/lib.rs. What it receives, and the event for an
--                    error, are parameters.
--                    Hosted has it as a program of a host.
--   QuickStart       the first door of that guide, and its `main` for any events. Visits is about it.
--   LockDoor, CountTest
--                    the machines of the tests in src/builder.rs and src/lib.rs. Each has an
--                    automaton, a function of the state, the event and the world, beside it.
--   MacroGuide       the example of the documentation of `fsm!` in obzenflow-fsm-macros/src/lib.rs.
--   SimpleFsm        examples/simple_fsm.rs: a door. `closed` and `opened` are its states, `to_open`
--                    and `to_close` its events. Sessions is about hosts that feed it events.
--   AutoClose        the door of the chapter on timeouts of that guide. View is the door without a
--                    machine: a deadline or none. A tick is a millisecond there.
--   Tests            concrete machines and tables.
--
-- Time is a natural number, the clock's ticks: `Instant` and `Duration` do not overflow here, and
-- the clock is part of the world, so that any handler may let time pass. Handlers are functions of
-- the state, the event and the world; they have no access to the machine, as in the source, where
-- they borrow its state only.
--
-- Fuel: the two loops of the parser take a round per row and per declaration, and every round takes
-- at least one token, so that any fuel above the number of tokens is enough.
--
-- Not modelled: the test programs under tests/, `Send`, `Sync` and `Arc`, tracing, printing,
-- `describe`, spans and hygiene, and the types of the handlers and expressions that a table is
-- written with, which the compiler checks.
mod Prelude
pub mod HashMap
pub mod Error
pub mod Exec
pub mod Types
pub mod Transitions
pub mod Machine
pub mod Builder
pub mod Dsl
pub mod Supervisor
pub mod QuickStart
pub mod LockDoor
pub mod CountTest
pub mod MacroGuide
pub mod SimpleFsm
pub mod AutoClose
pub mod Tests
