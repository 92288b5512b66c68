-- ===== src/Builder/History/Wildcard.antt =====
-- `from_any().timeout(…)` (src/builder.rs), which the type of `from_any` allows: a timeout under the
-- name `_`, which no state has.
use obzenflow_fsm.Prelude.{
  ℕ, String, Bool, true, false, Option, none, some, List, [], ◌∷◌, ◌++◌, ◌==◌, ◌≡◌, ◌≢◌, refl, ap,
  subst, inl, inr, any, if◌then◌else◌, Bool-cases, append-nil, string_equality, pair_equality,
}
use obzenflow_fsm.Error.{FsmError}
use obzenflow_fsm.Types.{StateVariant, EventVariant, World, TimeoutHandler}
use obzenflow_fsm.Machine.Serve.{Program, serve, machine_service}
use obzenflow_fsm.Machine.Rules.{or_else, rules_service, begin}
use obzenflow_fsm.Machine.Rules.Refines.{seen}
use obzenflow_fsm.Builder.{FsmBuilder}
use obzenflow_fsm.Builder.History.{
  Call, gave_on, gave_timeout, gave_entry, gave_exit, gave_unhandled, MadeBy, latest, row_for,
  timeout_for, entry_for, exit_for, hook_for, repeated, leaves, stays, verdict, history_rules,
}
use obzenflow_fsm.Builder.History.Means.{Makes, built_means}

any-append :
    {X : Type 0} (p : X → Bool) (after before : List X) (c : X)
    → p c ≡ false
    → any p (after ++ c ∷ before) ≡ any p (after ++ before)
any-append p [] before c h = rw h refl
any-append p (x ∷ after) before c h =
    ap (λ y. if p x then true else y) (any-append p after before c h)

none_for_other :
    {X : Type 0} (n m : String) (x : X) → n ≢ m → (if n == m then some x else none) ≡ none
none_for_other n m x other = elim (Bool-cases (n == m)) [
  | inl p ↦ absurd (other ((string_equality.beq_iff n m).0 p))
  | inr p ↦ rw p refl
]

module _ {S E C A : Type 0} where
  -- A call that says nothing does not change what the last one says.
  latest-append :
      {X : Type 0} (f : Call S E C A → Option X) (after before : List (Call S E C A))
      (c : Call S E C A)
      → f c ≡ none
      → latest f (after ++ c ∷ before) ≡ latest f (after ++ before)
  unfolding latest
  latest-append f [] before c h = rw h refl
  latest-append f (x ∷ after) before c h = ap (or_else (f x)) (latest-append f after before c h)

  repeated-append :
      (after before : List (Call S E C A)) (n : String) (d : ℕ) (h : TimeoutHandler S C A)
      → repeated (after ++ gave_timeout n d h ∷ before) ≡ repeated (after ++ before)
  unfolding repeated
  repeated-append [] before n d h = append-nil (repeated before)
  repeated-append (gave_on false key g ∷ after) before n d h =
      rw
        (
          repeated-append after before n d h,
          latest-append (row_for key) after before (gave_timeout n d h) refl,
        )
        refl
  repeated-append (gave_on true key g ∷ after) before n d h =
      ap (λ l. l ++ []) (repeated-append after before n d h)
  repeated-append (gave_timeout m x g ∷ after) before n d h =
      ap (λ l. l ++ []) (repeated-append after before n d h)
  repeated-append (gave_entry m g ∷ after) before n d h =
      ap (λ l. l ++ []) (repeated-append after before n d h)
  repeated-append (gave_exit m g ∷ after) before n d h =
      ap (λ l. l ++ []) (repeated-append after before n d h)
  repeated-append (gave_unhandled g ∷ after) before n d h =
      ap (λ l. l ++ []) (repeated-append after before n d h)

module _ {S E C A : Type 0} ⦃sv : StateVariant S⦄ ⦃ev : EventVariant E⦄ where
  Makes-rules :
      {R : Type 0} (initial : S) (cs cs' : List (Call S E C A)) (b : FsmBuilder S E C A) (now : ℕ)
      (w : World C) (program : Program E C A R) (o : Option FsmError)
      → history_rules cs ≡ history_rules cs'
      → Makes initial cs b now w program o
      → Makes initial cs' b now w program o
  Makes-rules initial cs cs' b now w program (some e) same made = made
  Makes-rules initial cs cs' b now w program none same (m, p, q) = (
    m,
    p,
    subst
        (λ r.
          seen (serve machine_service program (record { machine = m; world = w }))
          ≡ serve (rules_service r) program (begin r initial now w))
        same q,
  )

  -- A builder that any chain of calls has made, one of which gave a timeout for any state, where no
  -- state has the name `_`: `try_build` returns the error, or a machine that serves any host, of
  -- the chain without that call.
  pub from_any-timeout_ignored :
      {R : Type 0} (initial : S) (b : FsmBuilder S E C A) (after before : List (Call S E C A))
      (d : ℕ) (h : TimeoutHandler S C A) (now : ℕ) (w : World C) (program : Program E C A R)
      → ((state : S) → "_" ≢ sv.variant_name state)
      → MadeBy initial b (after ++ gave_timeout "_" d h ∷ before)
      → Makes initial
          (after ++ before)
          b
          now
          w
          program
          (verdict (repeated (after ++ before)) (stays initial (after ++ before)))
  from_any-timeout_ignored initial b after before d h now w program named made =
      let c : Call S E C A = gave_timeout "_" d h in
      let skipped : (state : S)
          → latest (timeout_for (sv.variant_name state)) (after ++ c ∷ before)
            ≡ latest (timeout_for (sv.variant_name state)) (after ++ before) =
        λ state.
          latest-append (timeout_for (sv.variant_name state)) after before c
            (none_for_other "_" (sv.variant_name state) (d, h) (named state)) in
      let row = λ (key : String × String). latest-append (row_for key) after before c refl in
      let same : history_rules (after ++ c ∷ before) ≡ history_rules (after ++ before) = λ i.
        record {
          row = λ state event.
              or_else (row (sv.variant_name state, ev.variant_name event) i)
                (row ("_", ev.variant_name event) i);
          exit = λ state. latest-append (exit_for (sv.variant_name state)) after before c refl i;
          entry = λ state. latest-append (entry_for (sv.variant_name state)) after before c refl i;
          timeout = λ state. skipped state i;
          unhandled = latest-append hook_for after before c refl i;
        } in
      let made' = built_means initial b _ now w program made in
      Makes-rules initial (after ++ c ∷ before) (after ++ before) b now w program _ same (
        rw
          (
            repeated-append after before "_" d h,
            any-append (leaves (sv.variant_name initial)) after before c refl,
            skipped initial,
          )
          at made')
