-- ===== src/Run.antt =====
-- Programs over a state `S`, which give a value and a new state, or do not end as C defines.
pub mod Returns
pub mod Partial
use osprograms.Base.{Bool, if◌then◌else◌}

-- `fault` is undefined behaviour: an index or a copy out of bounds, or a NULL pointer that is read.
pub data Run (S A : Type 0) : Type 0 where
  ok : A → S → Run S A
  fault : Run S A
  out_of_fuel : Run S A

abbrev pub Program : Type 0 → Type 0 → Type 0
Program S A = S → Run S A

module _ {S : Type 0} where
  abbrev pub pure : {A : Type 0} → A → Program S A
  pure = ok

  abbrev pub stop : {A : Type 0} → Program S A
  stop s = fault

  -- Memory safety: no array is read or written out of bounds.
  abbrev pub require : Bool → Program S (Unit {0})
  require b s = if b then ok tt s else fault

module _ {S A B : Type 0} where
  abbrev pub and_then : Run S A → (A → Program S B) → Run S B
  and_then (ok a s) k = k a s
  and_then fault k = fault
  and_then out_of_fuel k = out_of_fuel

  infixl 5 ◌>>=◌ ◌>>◌
  abbrev pub ◌>>=◌ : Program S A → (A → Program S B) → Program S B
  m >>= k = λ s. and_then (m s) k

  abbrev pub ◌>>◌ : Program S A → Program S B → Program S B
  m >> n = m >>= λ _. n
