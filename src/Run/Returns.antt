-- ===== src/Run/Returns.antt =====
-- Total correctness of a program.
use osprograms.Run.{Run, ok, Program, and_then}

-- A run that ends with no fault and enough fuel, and what holds of its result.
pub data Returns {S A : Type 0} (P : A → S → Type 0) : Run S A → Type 0 where
  returns : {a : A} {s : S} → P a s → Returns P (ok a s)

module _ {S A : Type 0} {P : A → S → Type 0} where
  pub bind :
      {B : Type 0} {Q : B → S → Type 0} {r : Run S A} {k : A → Program S B}
      → Returns P r
      → ((a : A) (s : S) → P a s → Returns Q (k a s))
      → Returns Q (and_then r k)
  bind (returns p) next = next _ _ p

  pub mono :
      {Q : A → S → Type 0} {r : Run S A}
      → Returns P r
      → ((a : A) (s : S) → P a s → Q a s)
      → Returns Q r
  mono (returns p) weaken = returns (weaken _ _ p)
