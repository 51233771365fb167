-- ===== src/Exceptions.antt =====
-- exceptions.h: the exception classes, and what a call may come to.
-- `blocked` is a call that waits for a mutex that another thread holds; `undefined` is behaviour
-- that C++ or POSIX leaves undefined.
use computer_systems_assignm.Prelude.{ℕ, List}

-- Each class of the repository with its `what()`; the last two are std::logic_error's children,
-- which std::stoi and the `at` of containers throw.
pub data Exception : Type 0 where
  invalid_message : List ℕ → Exception
  comm_exception : List ℕ → Exception
  operation_exception : List ℕ → Exception
  failed_transaction : List ℕ → Exception
  invalid_argument : Exception
  out_of_range : Exception

pub data Outcome {ℓ} (A : Type ℓ) : Type ℓ where
  ok : A → Outcome A
  throw : Exception → Outcome A
  blocked : Outcome A
  undefined : Outcome A

infixl 5 ◌>>=◌ ◌>>◌
abbrev pub ◌>>=◌ {ℓ κ} : {A : Type ℓ} {B : Type κ} → Outcome A → (A → Outcome B) → Outcome B
ok a >>= f = f a
throw e >>= f = throw e
blocked >>= f = blocked
undefined >>= f = undefined

abbrev pub ◌>>◌ {ℓ κ} : {A : Type ℓ} {B : Type κ} → Outcome A → Outcome B → Outcome B
m >> k = m >>= λ _. k
