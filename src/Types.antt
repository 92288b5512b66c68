-- ===== src/Types.antt =====
-- src/types.rs and src/handlers.rs: transitions with their builders, the traits that a host
-- implements, and the types of the handlers.
pub mod To
pub mod Stay
pub mod Chains
use obzenflow_fsm.Prelude.{ℕ, String, List}
use obzenflow_fsm.Exec.{Exec}

pub record Transition {ℓ} (S A : Type ℓ) : Type ℓ where
  pub next_state : S
  pub actions : List A

pub record TransitionBuilder {ℓ} (S A : Type ℓ) : Type ℓ where
  pub next_state : S
  pub actions : List A

pub record StayBuilder {ℓ} (S A : Type ℓ) : Type ℓ where
  pub actions : List A

-- What the engine reads of a state and of an event: the name that dispatch uses.
pub record StateVariant {ℓ} (S : Type ℓ) : Type ℓ where
  pub variant_name : S → String

pub record EventVariant {ℓ} (E : Type ℓ) : Type ℓ where
  pub variant_name : E → String

-- What a future can change while it is awaited: the host's context, and the time that
-- `Instant::now()` reads, in clock ticks.
pub record World {ℓ} (C : Type ℓ) : Type ℓ where
  pub context : C
  pub clock : ℕ

pub record FsmAction (C A : Type 0) : Type 0 where
  pub execute : A → Exec (World C) Unit

abbrev pub TransitionHandler : Type 0 → Type 0 → Type 0 → Type 0 → Type 0
TransitionHandler S E C A = S → E → Exec (World C) (Transition S A)

abbrev pub StateHandler : Type 0 → Type 0 → Type 0 → Type 0
StateHandler S C A = S → Exec (World C) (List A)

abbrev pub TimeoutHandler : Type 0 → Type 0 → Type 0 → Type 0
TimeoutHandler S C A = S → Exec (World C) (Transition S A)

abbrev pub UnhandledHandler : Type 0 → Type 0 → Type 0 → Type 0
UnhandledHandler S E C = S → E → Exec (World C) Unit
