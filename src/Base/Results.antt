-- ===== src/Base/Results.antt =====
-- The exceptions that the Python code raises, and the results of code that may raise one.
use mathlib.Core.Bool.{Bool, true, false}

pub data Error : Type 0 where
  value_error type_error struct_error runtime_error index_error key_error tcl_error : Error

pub data Result {ℓ} (A : Type ℓ) : Type ℓ where
  ok : A → Result A
  err : Error → Result A

-- `if not test: raise e`
abbrev pub guard : Bool → Error → Result (Unit {0})
guard false raised = err raised
guard true _ = ok tt

-- What follows a step that raised is not run.
infixl 5 ◌>>=◌ ◌>>◌
abbrev pub ◌>>=◌ {ℓ κ} : {A : Type ℓ} {B : Type κ} → Result A → (A → Result B) → Result B
err raised >>= _ = err raised
ok value >>= next = next value

abbrev pub ◌>>◌ {ℓ} : {A : Type ℓ} → Result (Unit {0}) → Result A → Result A
step >> next = step >>= λ _. next
