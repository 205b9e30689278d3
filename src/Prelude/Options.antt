-- ===== src/Prelude/Options.antt =====
-- `Option` results in a chain: what a step does not give ends it.
use mathlib.Core.Option.{Option, none, some}

infixl 5 ◌>>=◌
abbrev pub ◌>>=◌ {ℓ} : {A : Type ℓ} {B : Type ℓ} → Option A → (A → Option B) → Option B
none >>= f = none
some a >>= f = f a
