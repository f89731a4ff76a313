-- ===== src/Prelude/Attempt.antt =====
-- The outcome of calls that may raise, by what the services' handlers tell apart.
pub data Failure : Type 0 where
  postgres_error os_error other_error : Failure

pub data Attempt {ℓ} (A : Type ℓ) : Type ℓ where
  returned : A → Attempt A
  raised : Failure → Attempt A
