-- ===== src/Machine/Polling.antt =====
-- A host that polls a machine again and again.
use obzenflow_fsm.Prelude.{
  ℕ, zero, suc, ◌≤◌, ◌<◌, some, List, [], ◌∷◌, ◌++◌, ◌≡◌, refl, ap, inl, inr, arith, leb,
  string_equality, Bool-cases,
}
use obzenflow_fsm.HashMap
use obzenflow_fsm.Exec.{FsmResult, ok}
use obzenflow_fsm.Types.{StateVariant, World, TimeoutHandler}
use obzenflow_fsm.Machine.{Run, check_timeout}
use obzenflow_fsm.Machine.Poll.{TimesOut, idle_of_Pending, check_timeout-TimesOut}

-- The results of `k` idle polls.
abbrev pub idle : {A : Type 0} → ℕ → List (FsmResult (List A))
idle zero = []
idle (suc k) = ok [] ∷ idle k

module _ {S E C A : Type 0} ⦃sv : StateVariant S⦄ where
  -- `n` polls with nothing else between them but the host's work: `host j` is the world that it
  -- leaves before the poll at index j. The results, and the run after the last poll.
  unfoldable pub polls : (ℕ → World C) → ℕ → Run S E C A → List (FsmResult (List A)) × Run S E C A
  polls host zero s = ([], s)
  polls host (suc n) s =
      let (r, u) = check_timeout (record s { world = host 0 }) in
      let (rs, v) = polls (λ j. host (suc j)) n u in (r ∷ rs, v)

  -- Among the first polls up to the index `n`, the one at `k` is the first with the clock at the
  -- deadline `i`: those before it return no actions and change nothing, and it runs the handler,
  -- in the machine as it was and the world of that poll.
  pub record FiresAt (host : ℕ → World C) (n i : ℕ) (handler : TimeoutHandler S C A)
      (s : Run S E C A) (k : ℕ) : Type 0 where
    pub within : k ≤ n
    pub before : (j : ℕ) → j < k → (host j).clock < i
    pub due : i ≤ (host k).clock
    pub result : FsmResult (List A)
    pub end : Run S E C A
    pub answers : polls host (suc k) s ≡ (idle k ++ result ∷ [], end)
    pub fired : TimesOut handler (record s { world = host k }) result end

  fires_first :
      (host : ℕ → World C) (n i d : ℕ) (handler : TimeoutHandler S C A) (s : Run S E C A)
      → s.state_timeout ≡ some i
      → HashMap.get s.timeout_handlers (sv.variant_name s.current_state) ≡ some (d, handler)
      → i ≤ (host 0).clock
      → FiresAt host n i handler s 0
  unfolding polls
  fires_first host n i d handler s armed found due = record {
    within = omega arith;
    before = λ j h. absurd (omega arith);
    due = due;
    result = (check_timeout (record s { world = host 0 })).0;
    end = (check_timeout (record s { world = host 0 })).1;
    answers = refl;
    fired =
        check_timeout-TimesOut (record s { world = host 0 }) handler ((i, armed, due), (d, found));
  }

  fires_later :
      (host : ℕ → World C) (n i : ℕ) (handler : TimeoutHandler S C A) (s : Run S E C A) (k : ℕ)
      → s.state_timeout ≡ some i
      → (host 0).clock < i
      → FiresAt (λ j. host (suc j)) n i handler (record s { world = host 0 }) k
      → FiresAt host (suc n) i handler s (suc k)
  unfolding polls
  fires_later host n i handler s k armed early first = record {
    within = omega (arith, first.within);
    before = λ j h. earlier j h;
    due = first.due;
    result = first.result;
    end = first.end;
    answers =
        rw (idle_of_Pending (record s { world = host 0 }) (inr (inl (i, armed, early))))
          (ap (λ x. (ok [] ∷ x.0, x.1)) first.answers);
    fired = first.fired;
  }
    where
      earlier : (j : ℕ) → j < suc k → (host j).clock < i
      earlier zero h = early
      earlier (suc j) h = first.before j (omega arith)

  -- A machine with a deadline, in a state with a timeout, whose host only polls it: if the clock
  -- has reached the deadline at the poll at index `n`, then a poll up to that one runs the state's
  -- timeout handler, and ends with the handler's error, or with the transition that the handler
  -- returns applied to the machine. It is the first poll at which the clock has reached the
  -- deadline, and the polls before it return no actions and leave the machine as it was.
  pub polls-FiresAt :
      (n : ℕ) (host : ℕ → World C) (i d : ℕ) (handler : TimeoutHandler S C A) (s : Run S E C A)
      → s.state_timeout ≡ some i
      → HashMap.get s.timeout_handlers (sv.variant_name s.current_state) ≡ some (d, handler)
      → i ≤ (host n).clock
      → (k : ℕ) × FiresAt host n i handler s k
  polls-FiresAt zero host i d handler s armed found due =
      (0, fires_first host 0 i d handler s armed found due)
  polls-FiresAt (suc n) host i d handler s armed found due =
      elim (Bool-cases (leb i (host 0).clock)) [
        | inl now ↦ (0, fires_first host (suc n) i d handler s armed found (ground arith))
        | inr early ↦
            let (k, first) =
              polls-FiresAt n (λ j. host (suc j)) i d handler (record s { world = host 0 }) armed
                found due in
            (suc k, fires_later host n i handler s k armed (ground arith) first)
      ]
