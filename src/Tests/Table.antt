-- ===== src/Tests/Table.antt =====
-- Tables for the lamp, and the theorems on `fsm!` and the derives at them.
use mathlib.Core.Option
use obzenflow_fsm.Prelude.{
  ◌<◌, String, Bool, true, false, none, some, List, [], ◌∷◌, ◌≡◌, refl, inl, ◌==◌, if◌then◌else◌,
  arith, string_equality, pair_equality,
}
use obzenflow_fsm.Exec.{ok}
use obzenflow_fsm.Machine.Host
use obzenflow_fsm.Machine.Host.{AnyStep, Reach}
use obzenflow_fsm.Machine.{StateMachine, Run, handle}
use obzenflow_fsm.Builder.{returned}
use obzenflow_fsm.Dsl.Syn.{parsed}
use obzenflow_fsm.Dsl.Spec.{FsmSpec, StateBlock}
use obzenflow_fsm.Dsl.Parse.{parse}
use obzenflow_fsm.Dsl.Parse.Print
use obzenflow_fsm.Dsl.Parse.Print.{Decl, to_decls, rounds, put_table}
use obzenflow_fsm.Dsl.Parse.Termination.{Ends, parse-Ends}
use obzenflow_fsm.Dsl.Parse.Tables.{and_then, add_decls, table, parse-put_table}
use obzenflow_fsm.Dsl.Parse.RoundTrip.{parse-put_spec}
use obzenflow_fsm.Dsl.Codegen.{last}
use obzenflow_fsm.Dsl.Eval.{Values}
use obzenflow_fsm.Dsl.Tables.{repeats, last_row, table_rows}
use obzenflow_fsm.Dsl.Fsm.Machines.{IsMachineOf, TableHasWayOut, FsmGives, fsm_machine}
use obzenflow_fsm.Builder.History.{verdict}
use obzenflow_fsm.Dsl.Fsm.Total.{Gives, table_stays, fsm_total}
use obzenflow_fsm.Dsl.Fsm.Dispatch.{NoWildcard, row_or_hook, fsm_dispatch}
use obzenflow_fsm.Dsl.Derive.{
  Predicate, self_is, DeriveInput, enum_data, derive_state_variant, derive_event_variant,
}
use obzenflow_fsm.Dsl.Derive.{given as given_bound}
use obzenflow_fsm.Dsl.Derive.Names.{Derives, derive_names}
use obzenflow_fsm.Tests.Toy.{toy, toy_tokens, toy_consumes, nil, word, semi_then}
use obzenflow_fsm.Tests.Lamp.{
  Lamp, dark, Touch, press, lamp_variant, touch_variant, Log, on_press, on_hit, enter_lit, burn_out,
  world,
}

abbrev pub Spec : Type 0
Spec = FsmSpec String (String × String) String

abbrev pub Block : Type 0
Block = StateBlock (String × String) String

abbrev pub values : Values String Lamp Touch Log String
values = record {
  initial = λ e. dark;
  transition = λ e. if e == "press" then on_press else on_hit;
  hook = λ e. enter_lit;
  duration = λ e. 10;
  timeout_handler = λ e. burn_out;
  unhandled = λ e state event w. (ok tt, w);
}

abbrev pub path_name : String × String → String
path_name p = p.1

pub named : (p : String × String) → last (toy.segments p) ≡ some (path_name p)
named p = refl

abbrev pub dark_block : Block
dark_block = record {
  state_path = ("Lamp", "Dark");
  handlers = record { event_path = ("Touch", "Press"); handler = "press" } ∷ [];
  timeout = none;
  entry = none;
  exit = none;
}

abbrev pub lit_block : Block
lit_block = record {
  state_path = ("Lamp", "Lit");
  handlers = record { event_path = ("Touch", "Hit"); handler = "hit" } ∷ [];
  timeout = some (record { duration = "ten"; handler = "burn" });
  entry = some "enter";
  exit = none;
}

abbrev pub spec_of : List Block → Spec
spec_of blocks = record {
  state_ty = "Lamp";
  event_ty = "Touch";
  context_ty = "Log";
  action_ty = "String";
  initial_expr = "dark";
  states = blocks;
  unhandled = some "ignore";
}

abbrev pub spec : Spec
spec = spec_of (dark_block ∷ lit_block ∷ [])

-- The same row twice, in two blocks of one state.
abbrev repeated : Spec
repeated = spec_of (dark_block ∷ dark_block ∷ [])

pub spec_rounds : rounds (to_decls spec) < 20
unfolding to_decls Print.to_rows
spec_rounds = omega arith

repeated_rounds : rounds (to_decls repeated) < 20
unfolding to_decls Print.to_rows
repeated_rounds = omega arith

pub spec_unique : repeats [] (table_rows path_name values spec.states) ≡ []
unfolding repeats table_rows
spec_unique = refl

pub spec-TableHasWayOut : TableHasWayOut path_name values spec
unfolding table_rows
spec-TableHasWayOut = inl refl

abbrev pub given :
    (m : StateMachine Lamp Touch Log String) × FsmGives toy toy_tokens path_name named values spec
      20 3 spec_rounds
      (returned m)
    × IsMachineOf path_name values spec 3 m
given =
    fsm_machine toy toy_tokens path_name named values spec 20 3 spec_rounds spec_unique
      spec-TableHasWayOut

fsm_total_example : Gives toy toy_tokens path_name named values repeated 20 3 repeated_rounds (
    verdict
      (repeats [] (table_rows path_name values repeated.states))
      (table_stays toy toy_tokens path_name named values repeated 20 3 repeated_rounds))
fsm_total_example = fsm_total toy toy_tokens path_name named values repeated 20 3 repeated_rounds

pub no_wildcard : NoWildcard (table_rows path_name values spec.states)
unfolding table_rows
no_wildcard = refl

abbrev pub given_run : Run Lamp Touch Log String
given_run = record { machine = given.0; world = world [] 3 }

pub pressed_once : Reach AnyStep given_run (handle press given_run).1
pressed_once = Host.next Host.here (Host.whole (Host.feed press refl))

fsm_dispatch_example :
    let s = (handle press given_run).1 in
    handle press s
    ≡ row_or_hook
        (last_row
          (table_rows path_name values spec.states)
          (lamp_variant.variant_name s.current_state, "Press")
          none)
        (Option.map values.unhandled spec.unhandled)
        press
        s
fsm_dispatch_example =
    fsm_dispatch toy toy_tokens path_name named values spec 20 3 spec_rounds given.0 (world [] 3)
      (handle press given_run).1 press given.1 pressed_once no_wildcard

parse-put_spec_example :
    parse toy 20 (put_table toy toy_tokens "Lamp" "Touch" "Log" "String" "dark" (to_decls spec))
    ≡ parsed (spec, nil)
parse-put_spec_example = parse-put_spec toy toy_tokens 20 spec spec_rounds

-- A block with two timeouts.
abbrev two_timeouts : List (Decl (String × String) String)
two_timeouts =
    Print.state ("Lamp", "Lit")
      (Print.timeout "one" "burn"
        ∷ Print.on ("Touch", "Hit") "hit"
        ∷ Print.timeout "two" "burn"
        ∷ [])
    ∷ []

two_timeouts-rounds : rounds two_timeouts < 20
two_timeouts-rounds = omega arith

parse-put_table_example :
    parse toy 20 (put_table toy toy_tokens "Lamp" "Touch" "Log" "String" "dark" two_timeouts)
    ≡ and_then
        (add_decls (record { states = []; unhandled = none }) two_timeouts)
        (λ found. parsed (table toy toy_tokens "Lamp" "Touch" "Log" "String" "dark" found, nil))
parse-put_table_example =
    parse-put_table toy toy_tokens 20 "Lamp" "Touch" "Log" "String" "dark" two_timeouts
      two_timeouts-rounds

short : toy_consumes.size (word "state" (semi_then nil)) < 20
short = omega arith

parse-Ends_example :
    Ends toy toy_consumes
      (toy_consumes.size (word "state" (semi_then nil)))
      (parse toy 20 (word "state" (semi_then nil)))
parse-Ends_example = parse-Ends toy toy_consumes 20 (word "state" (semi_then nil)) short

abbrev lamp_variants : List String
lamp_variants = "Dark" ∷ "Lit" ∷ "Broken" ∷ []

-- `enum Lamp<T> where T: Debug { Dark, Lit, Broken }`
abbrev lamp_input : DeriveInput String
lamp_input = record {
  ident = "Lamp";
  params = "T" ∷ [];
  where_clause = some (given_bound "T: Debug" ∷ []);
  item = enum_data lamp_variants;
}

-- A judgement under which all bounds hold but those on the type itself.
abbrev but_self : Predicate String → Bool
but_self (given_bound p) = true
but_self (self_is supertraits) = false

derive_names_example :
    Derives but_self lamp_input "::obzenflow_fsm::StateVariant"
      "::obzenflow_fsm::internal::DerivedStateVariant"
      ("::core::clone::Clone" ∷ "::core::fmt::Debug" ∷ "::core::cmp::PartialEq"
        ∷ "::core::marker::Send" ∷ "::core::marker::Sync" ∷ "'static" ∷ [])
      "StateVariant can only be derived for enums"
      (enum_data lamp_variants)
      (derive_state_variant lamp_input)
    × Derives but_self lamp_input "::obzenflow_fsm::EventVariant"
        "::obzenflow_fsm::internal::DerivedEventVariant"
        ("::core::clone::Clone" ∷ "::core::fmt::Debug" ∷ "::core::marker::Send"
          ∷ "::core::marker::Sync" ∷ "'static" ∷ [])
        "EventVariant can only be derived for enums"
        (enum_data lamp_variants)
        (derive_event_variant lamp_input)
derive_names_example = derive_names but_self lamp_input
