-- ===== src/Shell/Main/Round.antt =====
-- A line of a job in the loop of `main` of main1.c.
use osprograms.Shell.System.{Effects, System, AllEnd}
use osprograms.Shell.Driver.Chain.{IsSeen}
use osprograms.Base.{
  ℕ, suc, ◌*◌, ◌≤◌, ◌≡◌, refl, ap, ◌∙◌, Option, none, some, List, [], ◌∷◌, ◌++◌, length,
}
use osprograms.Shell.Process.{Process, ◌⊕◌}
use osprograms.Shell.RoundTrip.{jobs_text}
use osprograms.Run.Returns.{Returns, returns}
use osprograms.Shell.Token.{tnl}
use osprograms.Shell.Descriptors.{Object, Table, slot, put, dup2}
use osprograms.Shell.Driver.{pr_pipes}
use osprograms.Shell.Parser.{Reader, parse}
use osprograms.Shell.Parser.Parts.{at}
use osprograms.Shell.Main.{restore_io, main_round}
use osprograms.Run.{Run, ok, fault, out_of_fuel}
use osprograms.Shell.Grammar.{Job}
use osprograms.Shell.Command.{Pipe}
use osprograms.Shell.Driver.Text.{IsExternal, chain_events, links, pr_pipes-parse}
use osprograms.Shell.Grammar.Tokens.{IsJob}
use osprograms.Shell.Driver.Faults.{opened}

-- `restoreIO` from copies that are open, whatever the line before did to the descriptors 0, 1 and 2.
restore_io-opened :
    (x y z : Option Object) (i o e : Object) (t : Table) (a b c : ℕ)
    → slot t a ≡ some i
    → slot t b ≡ some o
    → slot t c ≡ some e
    → restore_io (suc (suc (suc a))) (suc (suc (suc b))) (suc (suc (suc c))) (x ∷ y ∷ z ∷ t)
      ≡ some i ∷ some o ∷ some e ∷ t
unfolding restore_io slot put
restore_io-opened x y z i o e t a b c p q r =
    ap (λ u. dup2 (suc (suc (suc c))) 2 (dup2 (suc (suc (suc b))) 1 u)) first
    ∙ (ap (dup2 (suc (suc (suc c))) 2) second ∙ third)
  where
    first : dup2 (suc (suc (suc a))) 0 (x ∷ y ∷ z ∷ t) ≡ some i ∷ y ∷ z ∷ t
    first = rw (dup2, p) refl

    second : dup2 (suc (suc (suc b))) 1 (some i ∷ y ∷ z ∷ t) ≡ some i ∷ some o ∷ z ∷ t
    second = rw (dup2, q) refl

    third : dup2 (suc (suc (suc c))) 2 (some i ∷ some o ∷ z ∷ t) ≡ some i ∷ some o ∷ some e ∷ t
    third = rw (dup2, r) refl

module _ (sys : System) (a b c : ℕ) (s : Process) (es : Effects) (behind input : List ℕ) where
  main_round-parse :
      Returns
        (λ ps r.
          (r ≡ at tnl behind)
          × Returns (IsSeen es) (pr_pipes sys ps (record s { table = restore_io a b c s.table })))
        (parse input)
      → Returns (IsSeen es) (main_round sys a b c input s)
  unfolding main_round
  main_round-parse parsed = after_parse parsed
    where
      after_parse :
          {run : Run Reader (List Pipe)}
          → Returns
              (λ ps r.
                (r ≡ at tnl behind)
                × Returns
                    (IsSeen es)
                    (pr_pipes sys ps (record s { table = restore_io a b c s.table })))
              run
          → Returns (IsSeen es) (elim run [
            | fault ↦ fault
            | out_of_fuel ↦ out_of_fuel
            | ok ps r ↦ pr_pipes sys ps (record s { table = restore_io a b c s.table })
          ])
      after_parse (returns (left, ran)) = ran

-- A round of the loop of `main` whose line is a printed job of at least two commands that are no
-- built-in ones, joined by `|` and with no files, whose words fit in a token and have no NUL: where the
-- programs that are started end, whatever became of the descriptors 0, 1 and 2 before, where the copies of
-- them are open and the array has room for the pipes, the shell goes on, and each command has run, the
-- first one with the shell's input, each other one with what the one before it writes, and the last one
-- with the shell's output; the shell's settings are what they were.
pub main_round-IsSeen :
    (sys : System) (all_end : AllEnd sys) (x y z : Option Object) (i o e : Object) (j : Job)
    (t : Table) (slots : List ℕ) (k : ℕ) (es : Effects) (a b c : ℕ) (behind : List ℕ)
    → IsExternal j.chain
    → j.source ≡ none
    → 1 ≤ links j.chain
    → 2 * links j.chain ≤ length slots
    → IsJob j
    → (slot t a ≡ some i) × (slot t b ≡ some o) × (slot t c ≡ some e)
    → Returns (IsSeen (es ⊕ chain_events i o e k j.chain)) (
        main_round sys
          (suc (suc (suc a)))
          (suc (suc (suc b)))
          (suc (suc (suc c)))
          (jobs_text (j ∷ []) ++ behind)
          (opened (x ∷ y ∷ z ∷ t) slots k es))
main_round-IsSeen sys all_end x y z i o e j t slots k es a b c behind ext no_file some_pipe room job
      (p, q, r) =
    main_round-parse sys _ _ _ (opened (x ∷ y ∷ z ∷ t) slots k es) _ behind
      (jobs_text (j ∷ []) ++ behind)
      (rw (restore_io-opened x y z i o e t a b c p q r)
        (pr_pipes-parse sys all_end i o e j t slots k es ext no_file some_pipe room behind job))
