-- ===== src/Dsl/Spelling.antt =====
-- How the types, paths and expressions of a concrete table are spelled in the syntax of `syn`.
use obzenflow_fsm.Prelude.{String, some, [], ◌∷◌, ◌≡◌, sym, ap, ◌∙◌, arith}
use obzenflow_fsm.Dsl.Syn.{Syn}
use obzenflow_fsm.Dsl.Codegen.{last}

-- A path has two segments, an enum and its variant; `Ex` are the table's expressions.
pub record Spelling (syn : Syn) (Ex : Type 0) : Type 0 where
  pub ty : String → syn.Ty
  pub path : (enum variant : String) → syn.ExprPath
  pub expr : Ex → syn.Expr
  pub segments-path : (t v : String) → syn.segments (path t v) ≡ t ∷ v ∷ []

pub name-path :
    (syn : Syn) {Ex : Type 0} (written : Spelling syn Ex) (name : syn.ExprPath → String)
    (named : (p : syn.ExprPath) → last (syn.segments p) ≡ some (name p)) (t v : String)
    → name (written.path t v) ≡ v
name-path syn written name named t v =
    let e : last (t ∷ v ∷ []) ≡ some (name (written.path t v)) =
      ap last (sym (written.segments-path t v)) ∙ named (written.path t v) in
    ground arith
