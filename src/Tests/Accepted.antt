-- ===== src/Tests/Accepted.antt =====
-- A table of the lamp in the toy syntax, against the grammar.
use obzenflow_fsm.Prelude.{◌<◌, String, none, some, [], ◌∷◌, ◌≡◌, ◌↔◌, arith}
use obzenflow_fsm.Dsl.Syn.{parsed}
use obzenflow_fsm.Dsl.Spec.{FsmSpec}
use obzenflow_fsm.Dsl.Parse.{parse}
use obzenflow_fsm.Dsl.Parse.Grammar.{IsTable}
use obzenflow_fsm.Dsl.Parse.Grammar.Accepts.{parse_iff}
use obzenflow_fsm.Tests.Toy.{
  Stream, nil, word, colon_then, semi_then, arrow_then, ty_then, expr_then, path_then, group, toy,
  toy_consumes,
}

-- `key: name;`
abbrev header : String → String → Stream → Stream
header key name s = word key (colon_then (ty_then name (semi_then s)))

-- The hook for unhandled events stands before the only state.
abbrev written : Stream
written = header "state" "Lamp" (
    header "event" "Touch" (
      header "context" "Log" (
        header "action" "String" (
          word "initial" (
            colon_then (
              expr_then "dark" (
                semi_then (
                  word "unhandled" (
                    arrow_then (
                      expr_then "ignore" (
                        semi_then (
                          word "state" (
                            path_then ("Lamp", "Dark")
                              (group
                                (word "on" (
                                  path_then ("Touch", "Press")
                                    (arrow_then (expr_then "press" (semi_then nil)))))
                                nil))))))))))))))

abbrev meant : FsmSpec String (String × String) String
meant = record {
  state_ty = "Lamp";
  event_ty = "Touch";
  context_ty = "Log";
  action_ty = "String";
  initial_expr = "dark";
  states =
      record {
        state_path = ("Lamp", "Dark");
        handlers = record { event_path = ("Touch", "Press"); handler = "press" } ∷ [];
        timeout = none;
        entry = none;
        exit = none;
      }
      ∷ [];
  unhandled = some "ignore";
}

written_short : toy_consumes.size written < 40
written_short = omega arith

parse_iff_example : (parse toy 40 written ≡ parsed (meant, nil)) ↔ IsTable toy written nil meant
parse_iff_example = parse_iff toy toy_consumes 40 written nil meant written_short
