-- ===== src/Builder/History/Builds.antt =====
-- A builder holds what the calls that made it say.
use obzenflow_fsm.Prelude.{
  Equality, String, Bool, true, false, Option, none, some, List, [], ◌∷◌, ◌++◌, append-nil, ◌≡◌,
  refl, sym, ◌∙◌, ◌==◌, any, if◌then◌else◌, string_equality, pair_equality,
}
use obzenflow_fsm.HashMap
use obzenflow_fsm.HashMap.{HashMap, get-insert, any-keys-insert}
use obzenflow_fsm.Machine.Rules.{or_else}
use obzenflow_fsm.Builder.{FsmBuilder, new, strict, when_unhandled, on_entry, on_exit}
use obzenflow_fsm.Builder.When
use obzenflow_fsm.Builder.Timeout
use obzenflow_fsm.Builder.History.{
  Call, MadeBy, by_new, by_strict, by_unhandled, by_entry, by_exit, by_on, by_timeout, by_timed_on,
  latest, row_for, timeout_for, entry_for, exit_for, hook_for, repeated, leaves,
}

or_else-if :
    {X : Type 0} (c : Bool) (x : X) (y : Option X)
    → or_else (if c then some x else none) y ≡ (if c then some x else y)
or_else-if true x y = refl
or_else-if false x y = refl

append_if :
    {X : Type 0} (c : Bool) (xs : List X) (x : X)
    → (if c then xs ++ x ∷ [] else xs) ≡ xs ++ (if c then x ∷ [] else [])
append_if true xs x = refl
append_if false xs x = sym (append-nil xs)

-- A table that another one tells, with one more handler.
told :
    {K V : Type 0} ⦃e : Equality K⦄ (m : HashMap K V) {f : K → Option V} (key : K) (v : V) (k : K)
    → ((j : K) → HashMap.get m j ≡ f j)
    → HashMap.get (HashMap.insert m key v) k ≡ or_else (if key == k then some v else none) (f k)
told m key v k h = get-insert m key v k ∙ rw h (sym (or_else-if (key == k) v _))

module _ {S E C A : Type 0} where
  -- What calls say of a builder.
  pub record Tells (initial : S) (b : FsmBuilder S E C A) (cs : List (Call S E C A)) : Type 0 where
    pub start : b.initial_state ≡ initial
    pub is_strict : b.strict_validation ≡ true
    pub rows : (k : String × String) → HashMap.get b.transitions k ≡ latest (row_for k) cs
    pub entries : (n : String) → HashMap.get b.entry_handlers n ≡ latest (entry_for n) cs
    pub exits : (n : String) → HashMap.get b.exit_handlers n ≡ latest (exit_for n) cs
    pub timeouts : (n : String) → HashMap.get b.timeout_handlers n ≡ latest (timeout_for n) cs
    pub hook : b.unhandled_handler ≡ latest hook_for cs
    pub duplicates : b.duplicate_handlers ≡ repeated cs
    pub ways : (n : String) → any (λ k. k.0 == n) (HashMap.keys b.transitions) ≡ any (leaves n) cs

  pub Tells-MadeBy :
      {initial : S} {b : FsmBuilder S E C A} {cs : List (Call S E C A)}
      → MadeBy initial b cs
      → Tells initial b cs
  unfolding new strict when_unhandled on_entry on_exit When.on When.timeout Timeout.on latest
      repeated HashMap.get
  Tells-MadeBy by_new = record {
    start = refl;
    is_strict = refl;
    rows = λ k. refl;
    entries = λ n. refl;
    exits = λ n. refl;
    timeouts = λ n. refl;
    hook = refl;
    duplicates = refl;
    ways = λ n. refl;
  }
  Tells-MadeBy (by_strict m) =
      let t = Tells-MadeBy m in
      record {
        start = t.start;
        is_strict = refl;
        rows = t.rows;
        entries = t.entries;
        exits = t.exits;
        timeouts = t.timeouts;
        hook = t.hook;
        duplicates = t.duplicates;
        ways = t.ways;
      }
  Tells-MadeBy (by_unhandled h m) =
      let t = Tells-MadeBy m in
      record {
        start = t.start;
        is_strict = t.is_strict;
        rows = t.rows;
        entries = t.entries;
        exits = t.exits;
        timeouts = t.timeouts;
        hook = refl;
        duplicates = t.duplicates ∙ sym (append-nil _);
        ways = t.ways;
      }
  Tells-MadeBy (by_entry n h m) =
      let t = Tells-MadeBy m in
      record {
        start = t.start;
        is_strict = t.is_strict;
        rows = t.rows;
        entries = λ k. told _ n h k t.entries;
        exits = t.exits;
        timeouts = t.timeouts;
        hook = t.hook;
        duplicates = t.duplicates ∙ sym (append-nil _);
        ways = t.ways;
      }
  Tells-MadeBy (by_exit n h m) =
      let t = Tells-MadeBy m in
      record {
        start = t.start;
        is_strict = t.is_strict;
        rows = t.rows;
        entries = t.entries;
        exits = λ k. told _ n h k t.exits;
        timeouts = t.timeouts;
        hook = t.hook;
        duplicates = t.duplicates ∙ sym (append-nil _);
        ways = t.ways;
      }
  Tells-MadeBy (by_on w n h m) =
      let t = Tells-MadeBy m in
      let key : String × String = (w.state_name, n) in
      record {
        start = t.start;
        is_strict = t.is_strict;
        rows = λ k. told _ key h k t.rows;
        entries = t.entries;
        exits = t.exits;
        timeouts = t.timeouts;
        hook = t.hook;
        duplicates =
            append_if (HashMap.contains_key w.builder.transitions key) w.builder.duplicate_handlers
              key
            ∙ rw (t.duplicates, t.rows key) refl;
        ways =
            λ k. any-keys-insert (λ j. j.0 == k) w.builder.transitions key h ∙ rw (t.ways k) refl;
      }
  Tells-MadeBy (by_timeout w d h m) =
      let t = Tells-MadeBy m in
      record {
        start = t.start;
        is_strict = t.is_strict;
        rows = t.rows;
        entries = t.entries;
        exits = t.exits;
        timeouts = λ k. told _ w.state_name (d, h) k t.timeouts;
        hook = t.hook;
        duplicates = t.duplicates ∙ sym (append-nil _);
        ways = t.ways;
      }
  Tells-MadeBy (by_timed_on u n h m) =
      let t = Tells-MadeBy m in
      let key : String × String = (u.state_name, n) in
      record {
        start = t.start;
        is_strict = t.is_strict;
        rows = λ k. told _ key h k t.rows;
        entries = t.entries;
        exits = t.exits;
        timeouts = t.timeouts;
        hook = t.hook;
        duplicates = t.duplicates ∙ sym (append-nil _);
        ways =
            λ k. any-keys-insert (λ j. j.0 == k) u.builder.transitions key h ∙ rw (t.ways k) refl;
      }
