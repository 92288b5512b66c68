-- ===== src/Dsl/Derive/Names.antt =====
-- What the derives give: impls of the traits, and the names that `variant_name` returns.
use obzenflow_fsm.Prelude.{
  String, ◌<>◌, Bool, true, ◌&&◌, Option, none, some, List, [], ◌∷◌, ◌++◌, ◌≡◌, refl, ◌==◌, any,
  if◌then◌else◌, Bool-cases, inl, inr, arith, string_equality,
}
use obzenflow_fsm.Dsl.Derive.{
  ItemData, enum_data, struct_data, union_data, Predicate, self_is, DeriveInput, Impl, Derived,
  impls, compile_error, arms_of, bounded, derive_variant, derive_state_variant,
  derive_event_variant, match_self,
}

pub match_self-arms_of :
    (variants : List String) (variant : String)
    → match_self (arms_of variants) variant
      ≡ (if any (λ x. x == variant) variants then some variant else none)
unfolding match_self
match_self-arms_of [] variant = refl
match_self-arms_of (x ∷ variants) variant = elim (Bool-cases (x == variant)) [
  | inl p ↦ rw p (rw ((string_equality.beq_iff x variant).0 p))
  | inr p ↦ rw p (match_self-arms_of variants variant)
]

-- Whether a where clause holds, for a judgement of its predicates.
abbrev pub all_hold : {P : Type 0} → (Predicate P → Bool) → Option (List (Predicate P)) → Bool
all_hold holds none = true
all_hold holds (some []) = true
all_hold holds (some (p ∷ ps)) = holds p && all_hold holds (some ps)

-- An impl of this trait for the item, with the item's parameters. Its where clause holds exactly if
-- the item's does and, for an item with parameters, its type has the supertraits.
pub record Implements {P : Type 0} (holds : Predicate P → Bool) (input : DeriveInput P)
    (path : String) (supertraits : List String) (made : Impl P) : Type 0 where
  pub of_trait : made.path ≡ path
  pub for_ident : made.ident ≡ input.ident
  pub same_params : made.params ≡ input.params
  pub bounds :
      all_hold holds made.where_clause
      ≡ all_hold holds input.where_clause
        && (if any (λ p. true) input.params then holds (self_is supertraits) else true)

-- What a derive gives for the data of an item. For an enum: impls of the trait and of the marker,
-- and a name for each value, which is its variant's identifier, and none for what is no variant.
-- For another item: the error.
abbrev pub Derives :
    {P : Type 0}
    → (Predicate P → Bool)
    → DeriveInput P
    → (trait_path marker_path : String) → (supertraits : List String) → (message : String)
    → ItemData
    → Derived P
    → Type 0
Derives holds input trait_path marker_path supertraits message (enum_data variants)
      (impls trait marker arms) =
    Implements holds input trait_path supertraits trait
    × Implements holds input marker_path supertraits marker
    × ((variant : String)
        → match_self arms variant
          ≡ (if any (λ x. x == variant) variants then some variant else none))
Derives holds input trait_path marker_path supertraits message (enum_data variants) _ = ⊥
Derives holds input trait_path marker_path supertraits message _ derived =
    derived ≡ compile_error input.ident message

module _ {P : Type 0} (holds : Predicate P → Bool) where
  all_hold-snoc :
      (ps : List (Predicate P)) (p : Predicate P)
      → all_hold holds (some (ps ++ p ∷ [])) ≡ all_hold holds (some ps) && holds p
  all_hold-snoc [] p = ground arith
  all_hold-snoc (q ∷ ps) p = rw (all_hold-snoc ps p) (ground arith)

  all_hold-bounded :
      (params supertraits : List String) (clause : Option (List (Predicate P)))
      → all_hold holds (bounded params supertraits clause)
        ≡ all_hold holds clause
          && (if any (λ p. true) params then holds (self_is supertraits) else true)
  all_hold-bounded [] supertraits clause = ground arith
  all_hold-bounded (x ∷ params) supertraits none = ground arith
  all_hold-bounded (x ∷ params) supertraits (some ps) = all_hold-snoc ps (self_is supertraits)

  derive_variant-Derives :
      (input : DeriveInput P) (trait_path marker_path : String) (supertraits : List String)
      (trait_name : String) (item : ItemData)
      → input.item ≡ item
      → Derives holds input trait_path marker_path supertraits
          (trait_name <> " can only be derived for enums")
          item
          (derive_variant input trait_path marker_path supertraits trait_name)
  unfolding derive_variant
  derive_variant-Derives input t m supertraits trait_name (enum_data variants) h =
      let bounds = all_hold-bounded input.params supertraits input.where_clause in
      rw h (
        record { of_trait = refl; for_ident = refl; same_params = refl; bounds = bounds },
        record { of_trait = refl; for_ident = refl; same_params = refl; bounds = bounds },
        match_self-arms_of variants,
      )
  derive_variant-Derives input t m supertraits trait_name struct_data h = rw h refl
  derive_variant-Derives input t m supertraits trait_name union_data h = rw h refl

  -- Both derives, for any item, and any judgement of which predicates hold. For an enum they
  -- implement the trait and its marker for the item with its parameters, where the item's where
  -- clause holds and, if it has parameters, its type has all the traits listed here; and the
  -- `variant_name` covers every variant and returns its identifier. For a struct or a union they
  -- are a compile error at the item's identifier, which says that the trait is for enums.
  pub derive_names :
      (input : DeriveInput P)
      → Derives holds input "::obzenflow_fsm::StateVariant"
          "::obzenflow_fsm::internal::DerivedStateVariant"
          ("::core::clone::Clone" ∷ "::core::fmt::Debug" ∷ "::core::cmp::PartialEq"
            ∷ "::core::marker::Send" ∷ "::core::marker::Sync" ∷ "'static" ∷ [])
          "StateVariant can only be derived for enums"
          input.item
          (derive_state_variant input)
        × Derives holds input "::obzenflow_fsm::EventVariant"
            "::obzenflow_fsm::internal::DerivedEventVariant"
            ("::core::clone::Clone" ∷ "::core::fmt::Debug" ∷ "::core::marker::Send"
              ∷ "::core::marker::Sync" ∷ "'static" ∷ [])
            "EventVariant can only be derived for enums"
            input.item
            (derive_event_variant input)
  unfolding derive_state_variant derive_event_variant
  derive_names input = (
    derive_variant-Derives input _ _ _ "StateVariant" input.item refl,
    derive_variant-Derives input _ _ _ "EventVariant" input.item refl,
  )
