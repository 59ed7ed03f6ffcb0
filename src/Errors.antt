-- ===== src/Errors.antt =====
-- The error types: crates/openclaw-orchestrator/src/{domain,infra,app}/errors.rs.
use openclaw_rs.Base.{String, ◌≡◌, refl}
use openclaw_rs.Base.Int.{ℤ}

pub data DomainError : Type 0 where
  invalid_transition : (entity from trigger : String) → DomainError
  invalid_state : String → DomainError
  not_found : (entity id : String) → DomainError
  already_exists : (entity id : String) → DomainError
  budget_exceeded : (available_cents requested_cents : ℤ) → DomainError
  precondition : String → DomainError

-- Errors of the database, of files, of serialisation, and of locks.
pub data InfraError : Type 0 where
  database io serialization lock_conflict : String → InfraError

pub data AppError : Type 0 where
  domain : DomainError → AppError
  infra : InfraError → AppError
  concurrency_conflict : String → AppError

pub data Result {ℓ} (E : Type 0) (A : Type ℓ) : Type ℓ where
  ok : A → Result E A
  err : E → Result E A

module _ {ℓ κ} {E : Type 0} {A : Type ℓ} {B : Type κ} where
  infixl 5 ◌>>=◌
  -- The `?` operator.
  unfoldable pub ◌>>=◌ : Result E A → (A → Result E B) → Result E B
  ok a >>= f = f a
  err e >>= f = err e

module _ {ℓ κ} {E : Type 0} {A : Type ℓ} where
  -- A property of the value, where there is one.
  abbrev pub Holds : (A → Type κ) → Result E A → Type κ
  Holds P (ok a) = P a
  Holds P (err e) = Unit

module _ {ℓ κ μ} {E : Type 0} {A : Type ℓ} where
  pub Holds-map :
      (P : A → Type κ) (Q : A → Type μ) (r : Result E A)
      → Holds P r
      → ((a : A) → P a → Q a)
      → Holds Q r
  Holds-map P Q (ok a) h next = next a h
  Holds-map P Q (err e) h next = tt

module _ {ℓ κ μ ν} {E : Type 0} {A : Type ℓ} {B : Type κ} where
  -- A chain, by what is known of its first part.
  pub Holds-then :
      (P : A → Type μ) (Q : B → Type ν) (r : Result E A) (f : A → Result E B)
      → Holds P r
      → ((a : A) → P a → Holds Q (f a))
      → Holds Q (r >>= f)
  unfolding ◌>>=◌
  Holds-then P Q (ok a) f h next = next a h
  Holds-then P Q (err e) f h next = tt

module _ {ℓ κ μ} {E : Type 0} {A : Type ℓ} {B : Type κ} where
  pub Holds-bind :
      (Q : B → Type μ) (r : Result E A) (f : A → Result E B)
      → ((a : A) → Holds Q (f a))
      → Holds Q (r >>= f)
  unfolding ◌>>=◌
  Holds-bind Q (ok a) f next = next a
  Holds-bind Q (err e) f next = tt

module _ {ℓ κ} {E : Type 0} {A : Type ℓ} {B : Type κ} where
  -- Inversion of a chain that succeeded.
  pub >>=-eq-ok :
      (r : Result E A) (f : A → Result E B) (b : B)
      → (r >>= f) ≡ ok b
      → (a : A) × (r ≡ ok a) × (f a ≡ ok b)
  unfolding ◌>>=◌
  >>=-eq-ok (ok a) f b h = (a, refl, h)
  >>=-eq-ok (err e) f b h = cc
