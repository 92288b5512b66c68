-- ===== src/Builder/Duplicates.antt =====
-- A handler that is given twice for one state and event: by `WhenBuilder::on`, and by
-- `TimeoutBuilder::on` (src/builder.rs).
use obzenflow_fsm.Prelude.{
  ℕ, String, some, List, [], ◌∷◌, ◌++◌, ◌==◌, ◌≡◌, ◌≢◌, refl, ap, inl, inr, if◌then◌else◌, arith,
  string_equality, pair_equality,
}
use obzenflow_fsm.HashMap
use obzenflow_fsm.HashMap.{get-insert, get-insert_self, any-keys-insert}
use obzenflow_fsm.Exec.{ok}
use obzenflow_fsm.Types.{StateVariant, TransitionHandler}
use obzenflow_fsm.Machine
use obzenflow_fsm.Machine.{StateMachine}
use obzenflow_fsm.Builder.{WhenBuilder, TimeoutBuilder, try_build}
use obzenflow_fsm.Builder.When
use obzenflow_fsm.Builder.Timeout
use obzenflow_fsm.Builder.Validation.{HasWayOut, try_build_ok_iff}

snoc-[] : {T : Type 0} (l : List T) (x : T) → l ++ x ∷ [] ≢ []
snoc-[] [] x h = cc
snoc-[] (y ∷ l) x h = cc

module _ {S E C A : Type 0} where
  on-on-duplicates :
      (w : WhenBuilder S E C A) (n : String) (h h' : TransitionHandler S E C A)
      → (When.on (When.on w n h) n h').builder.duplicate_handlers
        ≡ (When.on w n h).builder.duplicate_handlers ++ (w.state_name, n) ∷ []
  unfolding When.on
  on-on-duplicates w n h h' = rw get-insert_self refl

  -- A second `WhenBuilder::on` for the same state and event is refused by `try_build`, whatever the
  -- builder held before.
  pub on-on_rejected :
      ⦃sv : StateVariant S⦄ (w : WhenBuilder S E C A) (n : String)
      (h h' : TransitionHandler S E C A) (now : ℕ) (m : StateMachine S E C A)
      → try_build (When.on (When.on w n h) n h').builder now ≢ ok m
  on-on_rejected w n h h' now m p =
      let none_noted = ((try_build_ok_iff (When.on (When.on w n h) n h').builder now m).0 p).0 in
      snoc-[] _ (w.state_name, n) (rw on-on-duplicates at none_noted)

  on-HasWayOut :
      ⦃sv : StateVariant S⦄ (t : TimeoutBuilder S E C A) (n : String)
      (h : TransitionHandler S E C A)
      → HasWayOut t.builder
      → HasWayOut (Timeout.on t n h).builder
  unfolding Timeout.on
  on-HasWayOut t n h (inl way) = inl (rw any-keys-insert (ground arith))
  on-HasWayOut t n h (inr way) = inr way

  -- One `TimeoutBuilder::on` on a builder that builds.
  on-builds :
      ⦃sv : StateVariant S⦄ (t : TimeoutBuilder S E C A) (n : String)
      (h : TransitionHandler S E C A) (now : ℕ) (m : StateMachine S E C A)
      → try_build t.builder now ≡ ok m
      → try_build (Timeout.on t n h).builder now
        ≡ ok (record m { transitions = HashMap.insert m.transitions (t.state_name, n) h })
  unfolding Timeout.on Machine.new
  on-builds t n h now m p =
      let (unique, way, same) = (try_build_ok_iff t.builder now m).0 p in
      (try_build_ok_iff (Timeout.on t n h).builder now _).1 (
        unique,
        elim way [ inl lax ↦ inl lax | inr w ↦ inr (on-HasWayOut t n h w) ],
        ap
            (λ (x : StateMachine S E C A). record x {
              transitions = HashMap.insert x.transitions (t.state_name, n) h;
            })
            same,
      )

  -- A second `TimeoutBuilder::on` for the same event is not refused: of a builder that `try_build`
  -- makes a machine of, with both calls added, it makes a machine that has the second handler for
  -- that state and event, and is otherwise the machine that it made before.
  pub on-on_replaced :
      ⦃sv : StateVariant S⦄ (t : TimeoutBuilder S E C A) (n : String)
      (h h' : TransitionHandler S E C A) (now : ℕ) (m₀ : StateMachine S E C A)
      → try_build t.builder now ≡ ok m₀
      → (m : StateMachine S E C A) × (try_build (Timeout.on (Timeout.on t n h) n h').builder now
          ≡ ok m)
        × ((key : String × String)
            → HashMap.get m.transitions key
              ≡ (if (t.state_name, n) == key then some h' else HashMap.get m₀.transitions key))
        × (record m { transitions = m₀.transitions } ≡ m₀)
  unfolding Timeout.on
  on-on_replaced t n h h' now m₀ p = (
    _,
    on-builds (Timeout.on t n h) n h' now _ (on-builds t n h now m₀ p),
    λ key. rw get-insert (rw get-insert (ground arith)),
    refl,
  )
