-- ===== src/Tests/Patterns.antt =====
-- A compiler, and the theorems on the checks and the patterns of a table at it.
use mathlib.Core.Option
use obzenflow_fsm.Prelude.{
  ◌<◌, String, none, some, List, [], ◌∷◌, ◌≡◌, ◌≢◌, refl, ◌==◌, if◌then◌else◌, arith,
  string_equality, pair_equality, All, true, false, ◌↔◌, inl,
}
use obzenflow_fsm.Machine.{StateMachine, Run, handle, unhandled}
use obzenflow_fsm.Machine.Host
use obzenflow_fsm.Machine.Host.{Reach}
use obzenflow_fsm.Builder.{returned}
use obzenflow_fsm.Dsl.Codegen.{Stmt, expanded, expand_fsm_spec}
use obzenflow_fsm.Dsl.Checks.{Compiler, Checks, TableChecks, expansion-TableChecks}
use obzenflow_fsm.Dsl.Derive.{match_self}
use obzenflow_fsm.Dsl.Tables.{repeats, table_rows}
use obzenflow_fsm.Dsl.Parse.Print
use obzenflow_fsm.Dsl.Parse.Print.{to_decls, rounds}
use obzenflow_fsm.Dsl.Expand.Blocks.{run-expand_fsm_spec}
use obzenflow_fsm.Dsl.Fsm.Machines.{IsMachineOf, FsmGives, TableHasWayOut, fsm_machine}
use obzenflow_fsm.Dsl.Fsm.Dispatch.{NoWildcard, row_or_hook}
use obzenflow_fsm.Dsl.Fsm.Patterns.{
  IsUnrenamed, IsDerivedFor, last_on, last_match, fsm_patterns, renamed-unhandled,
}
use obzenflow_fsm.Tests.Toy.{toy, toy_tokens}
use obzenflow_fsm.Tests.Lamp.{
  Lamp, dark, lit, broken, lamp_name, Touch, press, hit, look, touch_name, lamp_variant,
  touch_variant, Log, on_press, world,
}
use obzenflow_fsm.Tests.Table.{
  Spec, Block, values, path_name, named, spec_of, spec, spec_rounds, given, given_run, pressed_once,
  no_wildcard,
}

-- Every path names the variant that it ends in, of the type that it begins with.
abbrev plain : Compiler String (String × String)
plain = record {
  is_derived_state_variant = λ t. t == "Lamp";
  is_derived_event_variant = λ t. t == "Touch";
  resolve = λ p. some p;
}

plain-IsUnrenamed : IsUnrenamed plain path_name
plain-IsUnrenamed p ty variant e = cc

-- `use Touch::Press as Begin;` is in scope.
abbrev renaming : Compiler String (String × String)
renaming = record plain { resolve = λ p. some (p.0, if p.1 == "Begin" then "Press" else p.1) }

abbrev lamp_names : List String
lamp_names = "Dark" ∷ "Lit" ∷ "Broken" ∷ []

abbrev touch_names : List String
touch_names = "Press" ∷ "Hit" ∷ "Look" ∷ []

lamp-IsDerivedFor : IsDerivedFor lamp_names lamp_name lamp_variant.variant_name
unfolding match_self
lamp-IsDerivedFor dark = refl
lamp-IsDerivedFor lit = refl
lamp-IsDerivedFor broken = refl

touch-IsDerivedFor : IsDerivedFor touch_names touch_name touch_variant.variant_name
unfolding match_self
touch-IsDerivedFor press = refl
touch-IsDerivedFor hit = refl
touch-IsDerivedFor look = refl

spec-TableChecks : TableChecks plain spec
spec-TableChecks = record {
  state_ty_derived = refl;
  event_ty_derived = refl;
  blocks = ((("Dark", refl), (("Press", refl), tt)), ((("Lit", refl), (("Hit", refl), tt)), tt));
}

abbrev spec_stmts :
    (stmts : List (Stmt String (String × String) String)) × (expand_fsm_spec toy.segments spec
      ≡ expanded stmts)
spec_stmts =
    let (stmts, e, r) = run-expand_fsm_spec toy.segments path_name named values spec in (stmts, e)

expansion-TableChecks_example : All (Checks plain) spec_stmts.0 ↔ TableChecks plain spec
expansion-TableChecks_example =
    expansion-TableChecks plain toy.segments path_name named spec spec_stmts.0 spec_stmts.1

fsm_patterns_example :
    let s = (handle press given_run).1 in
    handle press s
    ≡ row_or_hook
        (last_match plain values spec.states (lamp_name s.current_state) "Press" none)
        (Option.map values.unhandled spec.unhandled)
        press
        s
fsm_patterns_example =
    fsm_patterns toy toy_tokens path_name named values spec 20 3 spec_rounds plain lamp_names
      touch_names lamp_name touch_name lamp-IsDerivedFor touch-IsDerivedFor given.0 (world [] 3)
      (handle press given_run).1 press given.1 pressed_once no_wildcard spec-TableChecks
      plain-IsUnrenamed

-- `state Lamp::Dark { on Begin => …; }`
abbrev begin_block : Block
begin_block = record {
  state_path = ("Lamp", "Dark");
  handlers = record { event_path = ("Touch", "Begin"); handler = "press" } ∷ [];
  timeout = none;
  entry = none;
  exit = none;
}

abbrev begin_spec : Spec
begin_spec = spec_of (begin_block ∷ [])

begin_rounds : rounds (to_decls begin_spec) < 20
unfolding to_decls Print.to_rows
begin_rounds = omega arith

begin_unique : repeats [] (table_rows path_name values begin_spec.states) ≡ []
unfolding repeats table_rows
begin_unique = refl

begin-TableHasWayOut : TableHasWayOut path_name values begin_spec
unfolding table_rows
begin-TableHasWayOut = inl refl

abbrev begun :
    (m : StateMachine Lamp Touch Log String) × FsmGives toy toy_tokens path_name named values
      begin_spec 20 3 begin_rounds
      (returned m)
    × IsMachineOf path_name values begin_spec 3 m
begun =
    fsm_machine toy toy_tokens path_name named values begin_spec 20 3 begin_rounds begin_unique
      begin-TableHasWayOut

abbrev begun_run : Run Lamp Touch Log String
begun_run = record { machine = begun.0; world = world [] 3 }

begin_wildcard : NoWildcard (table_rows path_name values begin_spec.states)
unfolding table_rows
begin_wildcard = refl

begin-TableChecks : TableChecks renaming begin_spec
begin-TableChecks = record {
  state_ty_derived = refl;
  event_ty_derived = refl;
  blocks = ((("Dark", refl), (("Press", refl), tt)), tt);
}

begin_matches :
    last_match renaming values begin_spec.states (lamp_name begun_run.current_state) "Press" none
    ≡ some on_press
unfolding last_match last_on
begin_matches = rw begun.2.initial refl

begin-ne-press : ◌≢◌ {A = String} "Begin" "Press"
begin-ne-press e = let h : false ≡ true = (string_equality.beq_iff "Begin" "Press").1 e in cc

renamed-unhandled_example :
    handle press begun_run
    ≡ unhandled (Option.map values.unhandled begin_spec.unhandled) press begun_run
renamed-unhandled_example =
    renamed-unhandled toy toy_tokens path_name named values begin_spec 20 3 begin_rounds renaming
      lamp_names touch_names lamp_name touch_name lamp-IsDerivedFor touch-IsDerivedFor begun.0
      (world [] 3) begun_run press on_press begun.1 Host.here begin_wildcard begin-TableChecks
      begin_matches ((begin-ne-press, tt), tt)
