-- ===== src/Builder/History/Means.antt =====
-- What `try_build` makes of a chain of calls: an error, or a machine that does what the calls say.
use obzenflow_fsm.Prelude.{
  ℕ, String, false, Option, none, some, List, [], ◌∷◌, ◌≡◌, refl, sym, ap, ◌∙◌, inl, inr, any,
  is_some, Bool-cases, string_equality, pair_equality,
}
use obzenflow_fsm.Error.{FsmError, duplicate_handler}
use obzenflow_fsm.Exec.{ok, err}
use obzenflow_fsm.Types.{StateVariant, EventVariant, World}
use obzenflow_fsm.Machine
use obzenflow_fsm.Machine.{StateMachine, deadline}
use obzenflow_fsm.Machine.Serve.{Program, serve, machine_service}
use obzenflow_fsm.Machine.Tables.{tables}
use obzenflow_fsm.Machine.Rules.{or_else, rules_service, begin}
use obzenflow_fsm.Machine.Rules.Refines.{seen, rules_of, machine-rules_service}
use obzenflow_fsm.Builder.{FsmBuilder, try_build, no_way_out}
use obzenflow_fsm.Builder.Validation.{machine_of, HasWayOut, try_build_ok_iff, try_build_error_iff}
use obzenflow_fsm.Builder.History.{
  Call, MadeBy, latest, timeout_for, repeated, leaves, stays, verdict, history_rules,
}
use obzenflow_fsm.Builder.History.Builds.{Tells, Tells-MadeBy}

module _ {S E C A : Type 0} ⦃sv : StateVariant S⦄ ⦃ev : EventVariant E⦄ where
  -- An error; or a machine that serves a host as the calls say, from the initial state.
  abbrev pub Makes :
      {R : Type 0}
      → S
      → List (Call S E C A)
      → FsmBuilder S E C A
      → ℕ
      → World C
      → Program E C A R
      → Option FsmError
      → Type 0
  Makes initial cs b now w program (some e) = try_build b now ≡ err e
  Makes initial cs b now w program none =
      (m : StateMachine S E C A) × (try_build b now ≡ ok m)
      × (seen (serve machine_service program (record { machine = m; world = w }))
          ≡ serve (rules_service (history_rules cs)) program
              (begin (history_rules cs) initial now w))

  module _ (initial : S) (cs : List (Call S E C A)) (b : FsmBuilder S E C A) (now : ℕ)
      (t : Tells initial b cs) where
    machine_of-history_rules : rules_of (tables (machine_of b now)) ≡ history_rules cs
    unfolding Machine.new
    machine_of-history_rules i = record {
      row = λ state event.
          or_else (t.rows (sv.variant_name state, ev.variant_name event) i)
            (t.rows ("_", ev.variant_name event) i);
      exit = λ state. t.exits (sv.variant_name state) i;
      entry = λ state. t.entries (sv.variant_name state) i;
      timeout = λ state. t.timeouts (sv.variant_name state) i;
      unhandled = t.hook i;
    }

    machine_of-Makes :
        {R : Type 0} (w : World C) (program : Program E C A R)
        → seen (serve machine_service program (record { machine = machine_of b now; world = w }))
          ≡ serve
              (rules_service (history_rules cs))
              program
              (begin (history_rules cs) initial now w)
    unfolding Machine.new
    machine_of-Makes w program =
        machine-rules_service program (record { machine = machine_of b now; world = w }) ∙ (λ i.
          serve (rules_service (machine_of-history_rules i)) program (record {
            state = t.start i;
            timer = deadline (t.timeouts (sv.variant_name (t.start i)) i) now;
            world = w;
          }))

    accepted :
        {R : Type 0} (w : World C) (program : Program E C A R)
        → repeated cs ≡ []
        → HasWayOut b
        → Makes initial cs b now w program none
    accepted w program unique way = (
      machine_of b now,
      (try_build_ok_iff b now _).1 (t.duplicates ∙ unique, inr way, refl),
      machine_of-Makes w program,
    )

    refused :
        (key : String × String) (rest : List (String × String))
        → repeated cs ≡ key ∷ rest
        → try_build b now ≡ err (duplicate_handler key.0 key.1)
    refused key rest p = (try_build_error_iff b now _).1 (inl (key, rest, t.duplicates ∙ p, refl))

    stuck :
        any (leaves (sv.variant_name initial)) cs ≡ false
        → is_some (latest (timeout_for (sv.variant_name initial)) cs) ≡ false
        → ¬ HasWayOut b
    stuck p q (inl h) = let h' = rw t.start at h in cc (h', t.ways (sv.variant_name initial), p)
    stuck p q (inr h) =
        let h' = rw (t.start, t.timeouts (sv.variant_name initial)) at h in cc (h', q)

    judged :
        {R : Type 0} (w : World C) (program : Program E C A R)
        → repeated cs ≡ []
        → Makes initial cs b now w program (stays initial cs)
    judged w program unique =
        let n = sv.variant_name initial in
        elim (Bool-cases (any (leaves n) cs)) [
          | inl p ↦ rw p (accepted w program unique (inl (rw (t.start, t.ways n) p)))
          | inr p ↦ elim (Bool-cases (is_some (latest (timeout_for n) cs))) [
            | inl q ↦ rw (p, q) (accepted w program unique (inr (rw (t.start, t.timeouts n) q)))
            | inr q ↦
                rw (p, q)
                  ((try_build_error_iff b now _).1 (
                    inr (
                      t.duplicates ∙ unique,
                      t.is_strict,
                      stuck p q,
                      ap (λ s. no_way_out (sv.variant_name s)) (sym t.start),
                    )))
          ]
        ]

  -- A builder that any chain of calls has made: if an `on` that does not follow a `timeout` gave an
  -- event again, for its state or for any state, `try_build` returns the error for the first such
  -- key; if none did, and the initial state has neither a handler nor a timeout, it returns the
  -- error for that. Otherwise it returns a machine, and any host that uses it, choosing each call by
  -- the answers before and by the world, has the answers, and at the end the state, the deadline
  -- and the world, of the interpreter of the calls: the last `on` for a state and an event gives
  -- their handler, or else the last one for any state, or else the last hook.
  pub built_means :
      {R : Type 0} (initial : S) (b : FsmBuilder S E C A) (cs : List (Call S E C A)) (now : ℕ)
      (w : World C) (program : Program E C A R)
      → MadeBy initial b cs
      → Makes initial cs b now w program (verdict (repeated cs) (stays initial cs))
  built_means initial b cs now w program made = go (repeated cs) refl
    where
      go :
          (l : List (String × String))
          → repeated cs ≡ l
          → Makes initial cs b now w program (verdict l (stays initial cs))
      go [] p = judged initial cs b now (Tells-MadeBy made) w program p
      go (key ∷ rest) p = refused initial cs b now (Tells-MadeBy made) key rest p
