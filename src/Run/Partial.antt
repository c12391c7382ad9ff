-- ===== src/Run/Partial.antt =====
-- Partial correctness of a program, and how it joins what says that the program returns.
use osprograms.Run.{Run, ok, fault, out_of_fuel, Program, and_then}
use osprograms.Run.Returns.{Returns, returns}

-- What holds of the result, where there is one.
pub data Partial {S A : Type 0} (P : A → S → Type 0) : Run S A → Type 0 where
  gives : {a : A} {s : S} → P a s → Partial P (ok a s)
  faults : Partial P fault
  starves : Partial P out_of_fuel

module _ {S A : Type 0} {P : A → S → Type 0} where
  pub both : {Q : A → S → Type 0} {r : Run S A} → Returns Q r → Partial P r → Returns P r
  both (returns q) (gives p) = returns p

  pub then_Partial :
      {B : Type 0} {Q : B → S → Type 0} {r : Run S A} {k : A → Program S B}
      → Partial P r
      → ((a : A) (s : S) → P a s → Partial Q (k a s))
      → Partial Q (and_then r k)
  then_Partial (gives p) next = next _ _ p
  then_Partial faults next = faults
  then_Partial starves next = starves
