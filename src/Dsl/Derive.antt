-- ===== src/Dsl/Derive.antt =====
-- The derives of `StateVariant` and `EventVariant` (obzenflow-fsm-macros/src/lib.rs). The parsed
-- item is syn's; of a where clause only the list of its predicates is read.
pub mod Names
use obzenflow_fsm.Prelude.{
  String, ◌<>◌, Option, none, some, List, [], ◌∷◌, ◌++◌, ◌==◌, if◌then◌else◌, string_equality,
}

-- `syn::Data`: an enum with the identifiers of its variants, or another item.
pub data ItemData : Type 0 where
  enum_data : List String → ItemData
  struct_data union_data : ItemData

-- A predicate of a where clause: one that the item has, or `Self: supertraits`.
pub data Predicate (P : Type 0) : Type 0 where
  given : P → Predicate P
  self_is : (supertraits : List String) → Predicate P

pub record DeriveInput (P : Type 0) : Type 0 where
  pub ident : String
  pub params : List String
  pub where_clause : Option (List (Predicate P))
  pub item : ItemData

-- `impl<params> path for ident<params> where_clause { … }`
pub record Impl (P : Type 0) : Type 0 where
  pub path : String
  pub ident : String
  pub params : List String
  pub where_clause : Option (List (Predicate P))

-- The two impls, and the arms of `variant_name`: `Self::variant { .. } => "name",`.
pub data Derived (P : Type 0) : Type 0 where
  impls : (trait marker : Impl P) → (arms : List (String × String)) → Derived P
  compile_error : (ident message : String) → Derived P

abbrev pub arms_of : List String → List (String × String)
arms_of [] = []
arms_of (variant ∷ variants) = (variant, variant) ∷ arms_of variants

abbrev pub predicates : {P : Type 0} → Option (List (Predicate P)) → List (Predicate P)
predicates none = []
predicates (some ps) = ps

-- The bound is pushed onto the where clause, which is made if there is none, for generic items.
abbrev pub bounded :
    {P : Type 0}
    → List String
    → List String
    → Option (List (Predicate P))
    → Option (List (Predicate P))
bounded [] supertraits clause = clause
bounded (param ∷ params) supertraits clause = some (predicates clause ++ self_is supertraits ∷ [])

unfoldable pub derive_variant :
    {P : Type 0}
    → DeriveInput P
    → (trait_path marker_path : String) → (supertraits : List String) → (trait_name : String)
    → Derived P
derive_variant input trait_path marker_path supertraits trait_name =
    let clause = bounded input.params supertraits input.where_clause in
    elim input.item [
      | enum_data variants ↦
          impls
            (record {
              path = trait_path;
              ident = input.ident;
              params = input.params;
              where_clause = clause;
            })
            (record {
              path = marker_path;
              ident = input.ident;
              params = input.params;
              where_clause = clause;
            })
            (arms_of variants)
      | struct_data ↦ compile_error input.ident (trait_name <> " can only be derived for enums")
      | union_data ↦ compile_error input.ident (trait_name <> " can only be derived for enums")
    ]

unfoldable pub derive_state_variant : {P : Type 0} → DeriveInput P → Derived P
derive_state_variant input =
    derive_variant input "::obzenflow_fsm::StateVariant"
      "::obzenflow_fsm::internal::DerivedStateVariant"
      ("::core::clone::Clone" ∷ "::core::fmt::Debug" ∷ "::core::cmp::PartialEq"
        ∷ "::core::marker::Send" ∷ "::core::marker::Sync" ∷ "'static" ∷ [])
      "StateVariant"

unfoldable pub derive_event_variant : {P : Type 0} → DeriveInput P → Derived P
derive_event_variant input =
    derive_variant input "::obzenflow_fsm::EventVariant"
      "::obzenflow_fsm::internal::DerivedEventVariant"
      ("::core::clone::Clone" ∷ "::core::fmt::Debug" ∷ "::core::marker::Send"
        ∷ "::core::marker::Sync" ∷ "'static" ∷ [])
      "EventVariant"

-- What the generated `match self` returns for a value of a variant, with any payload; `none` is a
-- variant that no arm covers.
unfoldable pub match_self : List (String × String) → (variant : String) → Option String
match_self [] variant = none
match_self ((pattern_ident, name) ∷ arms) variant =
    if pattern_ident == variant then some name else match_self arms variant
