-- ===== src/HashMap.antt =====
-- `std::collections::HashMap` as the sources use it: `new`, `insert`, `get`, `contains_key`, and
-- `keys().any(…)`. An association list; its order is visible to no operation but `keys`, whose
-- order the sources do not depend on. An insertion under a present key replaces the value.
use obzenflow_fsm.Prelude.{
  Equality, ◌==◌, beq_refl, ◌≡◌, refl, Bool, true, Option, none, some, List, [], ◌∷◌, map, arith,
  if◌then◌else◌, is_some, any, Bool-cases, inl, inr,
}

abbrev pub HashMap {ℓ κ} : Type ℓ → Type κ → Type (ℓ ⊔ κ)
HashMap K V = List (K × V)

module _ {ℓ κ} {K : Type ℓ} {V : Type κ} ⦃e : Equality K⦄ where
  abbrev pub new : HashMap K V
  new = []

  unfoldable pub get : HashMap K V → K → Option V
  get [] k = none
  get ((j, v) ∷ m) k = if j == k then some v else get m k

  unfoldable pub insert : HashMap K V → K → V → HashMap K V
  insert [] k v = (k, v) ∷ []
  insert ((j, w) ∷ m) k v = if j == k then (j, v) ∷ m else (j, w) ∷ insert m k v

  abbrev pub contains_key : HashMap K V → K → Bool
  contains_key m k = is_some (get m k)

  abbrev pub keys : HashMap K V → List K
  keys m = map (λ p. p.0) m

  pub get-insert :
      (m : HashMap K V) (k : K) (v : V) (j : K)
      → get (insert m k v) j ≡ (if k == j then some v else get m j)
  unfolding get insert
  get-insert [] k v j = refl
  get-insert ((i, w) ∷ m) k v j =
      ground (arith, e.beq_iff i k, e.beq_iff k j, e.beq_iff i j, get-insert m k v j)

  pub get-insert_self : (m : HashMap K V) (k : K) (v : V) → get (insert m k v) k ≡ some v
  get-insert_self m k v = simp (get-insert, beq_refl)

  pub contains_key-insert :
      (m : HashMap K V) (k : K) (v : V) (j : K)
      → contains_key (insert m k v) j ≡ (if k == j then true else contains_key m j)
  contains_key-insert m k v j = rw get-insert (ground arith)

  -- A test of the keys does not depend on the order in which they were inserted.
  pub any-keys-insert :
      (p : K → Bool) (m : HashMap K V) (k : K) (v : V)
      → any p (keys (insert m k v)) ≡ (if p k then true else any p (keys m))
  unfolding insert
  any-keys-insert p [] k v = refl
  any-keys-insert p ((i, w) ∷ m) k v = elim (Bool-cases (i == k)) [
    | inl same ↦ rw same (rw ((e.beq_iff i k).0 same) (ground arith))
    | inr other ↦ rw (other, any-keys-insert p m k v) (ground arith)
  ]
