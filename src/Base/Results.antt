-- ===== src/Base/Results.antt =====
-- What a C++ call can do: return, throw one of the standard exceptions that the sources throw,
-- run into undefined behaviour (an array access out of bounds), or use up the model's fuel.

pub data Exception : Type 0 where
  out_of_range : Exception
  logic_error : Exception
  invalid_argument : Exception

pub data Outcome (A : Type 0) : Type 0 where
  ok : A → Outcome A
  throw : Exception → Outcome A
  fault : Outcome A
  out_of_fuel : Outcome A

infixl 5 ◌>>=◌ ◌>>◌
abbrev pub ◌>>=◌ : {A B : Type 0} → Outcome A → (A → Outcome B) → Outcome B
ok a >>= f = f a
throw e >>= f = throw e
fault >>= f = fault
out_of_fuel >>= f = out_of_fuel

abbrev pub ◌>>◌ : {B : Type 0} → Outcome (Unit {0}) → Outcome B → Outcome B
m >> k = m >>= λ _. k
