-- ===== src/Builder/Calls.antt =====
-- Builders that calls can make: every value that a chain of the builders' methods can come to.
use obzenflow_fsm.Prelude.{
  ℕ, String, Bool, true, false, List, [], ◌∷◌, ◌++◌, ◌≡◌, refl, ◌⊎◌, ◌==◌, any, if◌then◌else◌,
  arith, Bool-cases, inl, inr, string_equality, pair_equality,
}
use obzenflow_fsm.HashMap
use obzenflow_fsm.HashMap.{contains_key-insert}
use obzenflow_fsm.Types.{TransitionHandler, StateHandler, TimeoutHandler, UnhandledHandler}
use obzenflow_fsm.Builder.{
  FsmBuilder, WhenBuilder, TimeoutBuilder, new, strict, when, from_any, when_unhandled, on_entry,
  on_exit,
}
use obzenflow_fsm.Builder.When
use obzenflow_fsm.Builder.Timeout

noted-on :
    (noted : List (String × String)) (repeated : Bool) (key k : String × String)
    → any (λ j. j == k) (if repeated then noted ++ key ∷ [] else noted) ≡ true
    → (any (λ j. j == k) noted ≡ true) ⊎ ((key == k) ≡ true)
noted-on noted false key k h = inl h
noted-on [] true key k h = inr (ground arith)
noted-on (x ∷ noted) true key k h = elim (Bool-cases (x == k)) [
  | inl p ↦ inl (rw p)
  | inr p ↦ rw p (noted-on noted true key k (rw p at h))
]

module _ {S E C A : Type 0} where
  -- The builder inside a builder of any kind, after any calls.
  pub data Made : FsmBuilder S E C A → Type 0 where
    make_new : (initial : S) → Made (new initial)
    make_strict : {b : FsmBuilder S E C A} → Made b → Made (strict b)
    make_unhandled :
        {b : FsmBuilder S E C A} (h : UnhandledHandler S E C) → Made b → Made (when_unhandled b h)
    make_entry :
        {b : FsmBuilder S E C A} (n : String) (h : StateHandler S C A)
        → Made b
        → Made (on_entry b n h)
    make_exit :
        {b : FsmBuilder S E C A} (n : String) (h : StateHandler S C A)
        → Made b
        → Made (on_exit b n h)
    make_on :
        (w : WhenBuilder S E C A) (n : String) (h : TransitionHandler S E C A)
        → Made w.builder
        → Made (When.on w n h).builder
    make_timeout :
        (w : WhenBuilder S E C A) (d : ℕ) (h : TimeoutHandler S C A)
        → Made w.builder
        → Made (When.timeout w d h).builder
    make_timed_on :
        (t : TimeoutBuilder S E C A) (n : String) (h : TransitionHandler S E C A)
        → Made t.builder
        → Made (Timeout.on t n h).builder

  -- `when`, `from_any` and both `done` only wrap and unwrap the builder.
  pub Made-wrapped :
      (b : FsmBuilder S E C A) (n : String) (w : WhenBuilder S E C A) (t : TimeoutBuilder S E C A)
      → Made b
      → Made w.builder
      → Made t.builder
      → Made (when b n).builder
        × Made (from_any b).builder
        × Made (When.done w)
        × Made (Timeout.done t)
  unfolding when from_any When.done Timeout.done
  Made-wrapped b n w t hb hw ht = (hb, hb, hw, ht)

  -- Every noted duplicate is a key of the table, and validation is strict.
  pub record IsSound (b : FsmBuilder S E C A) : Type 0 where
    pub is_strict : b.strict_validation ≡ true
    pub noted_is_key :
        (k : String × String)
        → any (λ j. j == k) b.duplicate_handlers ≡ true
        → HashMap.contains_key b.transitions k ≡ true

  on-IsSound :
      (w : WhenBuilder S E C A) (n : String) (h : TransitionHandler S E C A)
      → IsSound w.builder
      → IsSound (When.on w n h).builder
  unfolding When.on
  on-IsSound w n h v =
      let key : String × String = (w.state_name, n) in
      record {
        is_strict = v.is_strict;
        noted_is_key = λ k p.
            rw contains_key-insert
              (elim (noted-on w.builder.duplicate_handlers
                (HashMap.contains_key w.builder.transitions key) key k p) [
                  | inl old ↦ ground (arith, v.noted_is_key k old)
                  | inr same ↦ rw same
                ]);
      }

  timed_on-IsSound :
      (t : TimeoutBuilder S E C A) (n : String) (h : TransitionHandler S E C A)
      → IsSound t.builder
      → IsSound (Timeout.on t n h).builder
  unfolding Timeout.on
  timed_on-IsSound t n h v = record {
    is_strict = v.is_strict;
    noted_is_key = λ k p. rw contains_key-insert (ground (arith, v.noted_is_key k p));
  }

  -- Whatever calls made it, a builder validates strictly, and notes only keys that it has a handler
  -- for: no method turns validation off.
  pub Made-IsSound : {b : FsmBuilder S E C A} → Made b → IsSound b
  unfolding new strict when_unhandled on_entry on_exit When.on When.timeout Timeout.on
  Made-IsSound (make_new s) = record { is_strict = refl; noted_is_key = λ k h. cc }
  Made-IsSound (make_strict m) =
      let v = Made-IsSound m in record { is_strict = refl; noted_is_key = v.noted_is_key }
  Made-IsSound (make_unhandled h m) =
      let v = Made-IsSound m in record { is_strict = v.is_strict; noted_is_key = v.noted_is_key }
  Made-IsSound (make_entry n h m) =
      let v = Made-IsSound m in record { is_strict = v.is_strict; noted_is_key = v.noted_is_key }
  Made-IsSound (make_exit n h m) =
      let v = Made-IsSound m in record { is_strict = v.is_strict; noted_is_key = v.noted_is_key }
  Made-IsSound (make_on w n h m) = on-IsSound w n h (Made-IsSound m)
  Made-IsSound (make_timeout w d h m) =
      let v = Made-IsSound m in record { is_strict = v.is_strict; noted_is_key = v.noted_is_key }
  Made-IsSound (make_timed_on t n h m) = timed_on-IsSound t n h (Made-IsSound m)
