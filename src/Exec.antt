-- ===== src/Exec.antt =====
-- `async fn … -> FsmResult<T>` over mutable state: what was written before an error stays written,
-- so the state comes back beside the error too. `?` is the bind. A future that is dropped before
-- it is ready is in Machine/Suspend.antt.
use obzenflow_fsm.Prelude.{◌≡◌, refl, ◌⊎◌, inl, inr}
use obzenflow_fsm.Error.{FsmError}

pub data FsmResult {ℓ} (A : Type ℓ) : Type ℓ where
  ok : A → FsmResult A
  err : FsmError → FsmResult A

abbrev pub Exec {ℓ} : Type ℓ → Type ℓ → Type ℓ
Exec M A = M → FsmResult A × M

module _ {ℓ} {M A : Type ℓ} where
  abbrev pub pure : A → Exec M A
  pure a s = (ok a, s)

  abbrev pub raise : FsmError → Exec M A
  raise e s = (err e, s)

  abbrev pub gets : (M → A) → Exec M A
  gets f s = (ok (f s), s)

abbrev pub modify {ℓ} : {M : Type ℓ} → (M → M) → Exec M (Unit {ℓ})
modify f s = (ok tt, f s)

module _ {ℓ} {M A B : Type ℓ} where
  abbrev pub continue : FsmResult A → (A → Exec M B) → Exec M B
  continue (ok a) f s = f a s
  continue (err e) f s = (err e, s)

  infixl 10 ◌>>=◌ ◌>>◌
  abbrev pub ◌>>=◌ : Exec M A → (A → Exec M B) → Exec M B
  ◌>>=◌ m f s = let (r, s') = m s in continue r f s'

  abbrev pub ◌>>◌ : Exec M A → Exec M B → Exec M B
  m >> n = m >>= λ _. n

pub FsmResult-cases {ℓ} :
    {A : Type ℓ} (r : FsmResult A) → ((a : A) × (r ≡ ok a)) ⊎ ((e : FsmError) × (r ≡ err e))
FsmResult-cases (ok a) = inl (a, refl)
FsmResult-cases (err e) = inr (e, refl)
