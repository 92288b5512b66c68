-- ===== src/Dsl/Parse/Grammar/Accepts.antt =====
-- The parser against the grammar.
use obzenflow_fsm.Prelude.{ℕ, ◌<◌, ◌≡◌, ◌↔◌}
use obzenflow_fsm.Dsl.Syn.{Syn, Consumes, parsed}
use obzenflow_fsm.Dsl.Parse.{Spec, parse}
use obzenflow_fsm.Dsl.Parse.Grammar.{IsTable}
use obzenflow_fsm.Dsl.Parse.Grammar.Sound.{parse_sound}
use obzenflow_fsm.Dsl.Parse.Grammar.Complete.{parse_complete}

-- With more fuel than the stream has tokens, the parser accepts exactly the grammar: it returns a
-- table, with the stream where it stopped, if and only if the stream reads up to there as the
-- header in its order and then rows and declarations in any order to the end, none of those that
-- can stand only once is there twice, and the table is what they add up to.
pub parse_iff :
    (syn : Syn) (laws : Consumes syn) (fuel : ℕ) (s r : syn.Stream) (spec : Spec syn)
    → laws.size s < fuel
    → (parse syn fuel s ≡ parsed (spec, r)) ↔ IsTable syn s r spec
parse_iff syn laws fuel s r spec h =
    (parse_sound syn fuel s r spec, λ is. parse_complete syn laws fuel s r spec is h)
