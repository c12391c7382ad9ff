-- ===== src/Shell/Main.antt =====
-- The loop of `main` of main1.c: one line is read and run.
pub mod Round
use osprograms.Shell.Process.{Routine}
use osprograms.Base.{ℕ, List}
use osprograms.Shell.System.{System}
use osprograms.Run.{ok, fault, out_of_fuel}
use osprograms.Shell.Descriptors.{Table, slot, put, dup2}
use osprograms.Shell.Driver.{pr_pipes}
use osprograms.Shell.Parser.{parse}

-- `restoreIO`
unfoldable pub restore_io : ℕ → ℕ → ℕ → Table → Table
unfolding slot put
restore_io std_in std_out std_err t = dup2 std_err 2 (dup2 std_out 1 (dup2 std_in 0 t))

module _ (sys : System) (std_in std_out std_err : ℕ) where
  -- A round of the loop, on the bytes that `getchar` gives `parse`. What is left of them behind the
  -- line is in the buffer of stdin or behind the descriptor 0, which the commands read too, and is
  -- not followed here.
  unfoldable pub main_round : List ℕ → Routine
  main_round input s = elim (parse input) [
    | fault ↦ fault
    | out_of_fuel ↦ out_of_fuel
    | ok ps r ↦ pr_pipes sys ps (record s { table = restore_io std_in std_out std_err s.table })
  ]
