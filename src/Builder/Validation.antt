-- ===== src/Builder/Validation.antt =====
-- What `try_build` accepts.
use obzenflow_fsm.Prelude.{
  ℕ, String, true, false, List, [], ◌∷◌, ◌≡◌, refl, ◌↔◌, ◌⊎◌, inl, inr, ◌==◌, any, arith,
  string_equality, pair_equality,
}
use obzenflow_fsm.HashMap
use obzenflow_fsm.Error.{FsmError, duplicate_handler}
use obzenflow_fsm.Exec.{ok, err}
use obzenflow_fsm.Types.{StateVariant}
use obzenflow_fsm.Machine
use obzenflow_fsm.Machine.{StateMachine}
use obzenflow_fsm.Builder.{FsmBuilder, no_way_out, strict_error, checked, try_build}

module _ {S E C A : Type 0} ⦃sv : StateVariant S⦄ where
  -- The machine of a builder's tables.
  abbrev pub machine_of : FsmBuilder S E C A → ℕ → StateMachine S E C A
  machine_of b now =
      Machine.new b.initial_state b.transitions b.entry_handlers b.exit_handlers b.timeout_handlers
        b.unhandled_handler now

  -- The initial state has a handler for some event, or a timeout.
  abbrev pub HasWayOut : FsmBuilder S E C A → Type 0
  HasWayOut b =
      let name = sv.variant_name b.initial_state in
      (any (λ k. k.0 == name) (HashMap.keys b.transitions) ≡ true)
      ⊎ (HashMap.contains_key b.timeout_handlers name ≡ true)

  -- A builder's `try_build` accepts exactly if no duplicate was noted and, under strict
  -- validation, the initial state has a handler or a timeout; the machine is that of its tables.
  pub try_build_ok_iff :
      (b : FsmBuilder S E C A) (now : ℕ) (m : StateMachine S E C A)
      → (try_build b now ≡ ok m) ↔ (
          (b.duplicate_handlers ≡ [])
          × ((b.strict_validation ≡ false) ⊎ HasWayOut b)
          × (machine_of b now ≡ m))
  unfolding try_build strict_error
  try_build_ok_iff b now m = (λ h. ground arith, λ h. ground arith)

  abbrev pub IsRefused : FsmBuilder S E C A → List (String × String) → FsmError → Type 0
  IsRefused b duplicates e =
      ((key : String × String) × (rest : List (String × String)) × (duplicates ≡ key ∷ rest)
        × (e ≡ duplicate_handler key.0 key.1))
      ⊎ ((duplicates ≡ [])
          × (b.strict_validation ≡ true)
          × ¬ HasWayOut b
          × (e ≡ no_way_out (sv.variant_name b.initial_state)))

  checked-IsRefused :
      (b : FsmBuilder S E C A) (l : List (String × String)) (now : ℕ) (e : FsmError)
      → checked b l now ≡ err e
      → IsRefused b l e
  unfolding checked strict_error
  checked-IsRefused b (key ∷ rest) now e h = inl (key, rest, refl, ground arith)
  checked-IsRefused b [] now e h = inr (refl, ground arith, ground arith, ground arith)

  IsRefused-checked :
      (b : FsmBuilder S E C A) (l : List (String × String)) (now : ℕ) (e : FsmError)
      → IsRefused b l e
      → checked b l now ≡ err e
  unfolding checked strict_error
  IsRefused-checked b l now e (inl (key, rest, p, q)) = rw (p, q)
  IsRefused-checked b l now e (inr (p, strict, no_way, q)) = rw p (ground arith)

  -- `try_build` returns an error exactly in two cases: duplicates were noted; or none was noted,
  -- validation is strict, and the initial state has neither a handler nor a timeout.
  pub try_build_error_iff :
      (b : FsmBuilder S E C A) (now : ℕ) (e : FsmError)
      → (try_build b now ≡ err e) ↔ IsRefused b b.duplicate_handlers e
  unfolding try_build
  try_build_error_iff b now e = (
    checked-IsRefused b b.duplicate_handlers now e,
    IsRefused-checked b b.duplicate_handlers now e,
  )
