-- ===== src/Machine/Serve.antt =====
-- A host that uses a machine, or anything else that takes events and polls. It chooses each call by
-- the answers that it has had and by the world, and does work of its own between the calls.
use obzenflow_fsm.Prelude.{◌≤◌, Option, none, some, List, [], ◌∷◌, ◌≡◌, refl, ap, ◌∙◌}
use obzenflow_fsm.Exec.{Exec, FsmResult, ok, err}
use obzenflow_fsm.Types.{StateVariant, EventVariant, World}
use obzenflow_fsm.Machine.{Run, handle, check_timeout}

-- What a host uses of `M`. `work` is a change of the world.
pub record Service (M E C A : Type 0) : Type 0 where
  pub event : E → Exec M (List A)
  pub poll : Exec M (List A)
  pub world : M → World C
  pub work : (World C → World C) → M → M

-- A host's program: it ends with a result; or it feeds an event or polls, and goes on as the answer
-- says; or it changes the world, and goes on as the world says that it had.
pub data Program (E C A R : Type 0) : Type 0 where
  done : R → Program E C A R
  call : (question : Option E) → (next : FsmResult (List A) → Program E C A R) → Program E C A R
  work : (g : World C → World C) → (next : World C → Program E C A R) → Program E C A R

-- The program's own work never sets the clock back.
abbrev pub IsForward : {E C A R : Type 0} → Program E C A R → Type 0
IsForward (done x) = Unit
IsForward {A = A} (call question next) = (r : FsmResult (List A)) → IsForward (next r)
IsForward {C = C} (work g next) =
    ((w : World C) → w.clock ≤ (g w).clock) × ((w : World C) → IsForward (next w))

-- A host's function that returns nothing or an error, and its `?`.
abbrev pub Task : Type 0 → Type 0 → Type 0 → Type 0
Task E C A = Program E C A (FsmResult {0} Unit)

abbrev pub and_then : {E C A B : Type 0} → FsmResult B → (B → Task E C A) → Task E C A
and_then (ok x) rest = rest x
and_then (err e) rest = done (err e)

module _ {M E C A : Type 0} (service : Service M E C A) where
  -- An event, or a poll.
  abbrev pub answer : Option E → Exec M (List A)
  answer (some event) = service.event event
  answer none = service.poll

  -- The answers of all the calls, the program's result, and what is there at the end.
  unfoldable pub serve : {R : Type 0} → Program E C A R → M → (List (FsmResult (List A)) × R) × M
  serve (done x) s = (([], x), s)
  serve (call question next) s =
      let (r, u) = answer question s in let ((rs, x), end) = serve (next r) u in ((r ∷ rs, x), end)
  serve (work g next) s = serve (next (service.world s)) (service.work g s)

-- What a program returns, and what is there at the end.
abbrev pub result_of : {M E C A R : Type 0} → Service M E C A → Program E C A R → M → R × M
result_of service program s = let ((answers, x), end) = serve service program s in (x, end)

-- A service that another one simulates, as far as `f` shows, from any `s` with `Holds s`.
module _ {M N E C A : Type 0} (service : Service M E C A) (model : Service N E C A) (f : M → N)
    (Holds : M → Type 0)
    (holds-answer : (question : Option E) (s : M) → Holds s → Holds (answer service question s).1)
    (holds-work : (g : World C → World C) (s : M) → Holds s → Holds (service.work g s))
    (f-answer : (question : Option E) (s : M)
      → Holds s
      → let (r, u) = answer service question s in (r, f u) ≡ answer model question (f s))
    (f-work : (g : World C → World C) (s : M) → f (service.work g s) ≡ model.work g (f s))
    (f-world : (s : M) → service.world s ≡ model.world (f s)) where
  pub serve-simulates :
      {R : Type 0} (program : Program E C A R) (s : M)
      → Holds s
      → let (x, end) = serve service program s in (x, f end) ≡ serve model program (f s)
  unfolding serve
  serve-simulates (done x) s h = refl
  serve-simulates (call question next) s h =
      let (r, u) = answer service question s in
      ap (λ y. ((r ∷ y.0.0, y.0.1), y.1)) (serve-simulates (next r) u (holds-answer question s h))
      ∙ ap (λ y. let ((rs, x), end) = serve model (next y.0) y.1 in ((y.0 ∷ rs, x), end))
          (f-answer question s h)
  serve-simulates (work g next) s h =
      serve-simulates (next (service.world s)) (service.work g s) (holds-work g s h)
      ∙ (λ i. serve model (next (f-world s i)) (f-work g s i))

-- A machine.
abbrev pub machine_service :
    {S E C A : Type 0} ⦃sv : StateVariant S⦄ ⦃ev : EventVariant E⦄ → Service (Run S E C A) E C A
machine_service = record {
  event = handle;
  poll = check_timeout;
  world = λ s. s.world;
  work = λ g s. record s { world = g s.world };
}
