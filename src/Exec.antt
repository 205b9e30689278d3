-- ===== src/Exec.antt =====
-- Python calls that change state and may raise. What was written before a raise stays written, so
-- the state comes back beside the exception too.
use prd_api_wrapper.Errors.{AppError}
use prd_api_wrapper.Errors.Handlers.{Raised, app}

pub data Result {ℓ} (A : Type ℓ) : Type ℓ where
  ok : A → Result A
  raised : Raised → Result A

abbrev pub Exec {ℓ} : Type ℓ → Type ℓ → Type ℓ
Exec S A = S → Result A × S

module _ {ℓ} {S A : Type ℓ} where
  abbrev pub pure : A → Exec S A
  pure a s = (ok a, s)

  abbrev pub throw : AppError → Exec S A
  throw e s = (raised (app e), s)

abbrev pub continue {ℓ} : {S A B : Type ℓ} → Result A → (A → Exec S B) → Exec S B
continue (ok a) f s = f a s
continue (raised e) f s = (raised e, s)

infixl 5 ◌>>=◌ ◌>>◌
abbrev pub ◌>>=◌ {ℓ} : {S A B : Type ℓ} → Exec S A → (A → Exec S B) → Exec S B
◌>>=◌ m f s = let (r, s') = m s in continue r f s'

abbrev pub ◌>>◌ {ℓ} : {S B : Type ℓ} {A : Type ℓ} → Exec S A → Exec S B → Exec S B
m >> k = m >>= λ _. k
