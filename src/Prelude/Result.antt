-- ===== src/Prelude/Result.antt =====
-- std::expected, with a monad for the chains of early returns.
use mathlib.Core.Path.{◌≡◌, refl}
use mathlib.Core.Logic.{◌⊎◌, inl, inr}

pub data Expected (E A : Type 0) : Type 0 where
  ok : A → Expected E A
  err : E → Expected E A

infixl 5 ◌>>=◌ ◌>>◌
abbrev pub ◌>>=◌ : {E A B : Type 0} → Expected E A → (A → Expected E B) → Expected E B
ok a >>= f = f a
err e >>= f = err e

abbrev pub ◌>>◌ : {E B : Type 0} → Expected E (Unit {0}) → Expected E B → Expected E B
m >> k = m >>= λ _. k

pub Expected-cases :
    {E A : Type 0} (r : Expected E A) → ((a : A) × (r ≡ ok a)) ⊎ ((e : E) × (r ≡ err e))
Expected-cases (ok a) = inl (a, refl)
Expected-cases (err e) = inr (e, refl)
