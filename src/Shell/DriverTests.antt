-- ===== src/Shell/DriverTests.antt =====
-- Runs of the shell's driver.
use osprograms.Shell.Driver.Chain.{IsSeen}
use osprograms.Shell.Main.Round.{main_round-IsSeen}
use osprograms.Base.{
  ℕ, ◌<◌, ◌≡◌, refl, true, Option, none, some, List, [], ◌∷◌, ◌++◌, map, arith, replicate, Str,
  codes, pos,
}
use osprograms.Shell.System.{Action, runs, Effects, System}
use osprograms.Shell.Process.{Process, Going, pipe_at, ◌⊕◌, make_pipe}
use osprograms.Run.{Run, ok}
use osprograms.Run.Returns.{Returns}
use osprograms.Shell.Token.{Token, tpipe, tsemi, tpipe_err, tnil}
use osprograms.Shell.Command.{Command, pout, Pipe}
use osprograms.Shell.Grammar.{final, piped, Job}
use osprograms.Shell.Grammar.Tokens.{IsArgument, IsJob}
use osprograms.Shell.Descriptors.{
  Object, inherited, read_end, write_end, Table, slot, put, lowest_free,
}
use osprograms.Shell.Driver.{
  redirect_out, redirect_in, redirection, exec_command, pr_cmd, pr_commands, pr_pipes,
}
use osprograms.Shell.Driver.Wiring.{shell_with, ran}
use osprograms.Shell.Driver.Faults.{opened, pr_pipes-tpipe_err}
use osprograms.Shell.Driver.Text.{chain_events}
use osprograms.Shell.Parser.Parts.{cmd}
use osprograms.Shell.Main.{main_round}
use osprograms.Shell.RoundTrip.{jobs_text}

abbrev nothing : Effects
nothing = record {
  events = [];
  settings = record { cwd = codes "/"; environ = []; priority = pos 0 };
}

-- A system that grants what it is asked for, and whose programs end.
abbrev granting : System
granting = record {
  opens = λ x. true;
  chdir = λ cwd path. some path;
  stat = λ cwd path. true;
  may_set = λ old new. true;
  ends = λ e. true;
  astray = λ t es. none;
}

abbrev arguments : Action → List Str
arguments (runs args) = args
arguments _ = []

abbrev shell : Process
shell = record {
  table = some (inherited 0) ∷ some (inherited 1) ∷ some (inherited 2) ∷ [];
  pipes = replicate 20 0;
  made = 0;
  effects = nothing;
}

abbrev seen : Run Process Going → List (List Str × Option Object × Option Object)
seen (ok a s) = map (λ e. (arguments e.action, e.stdin, e.stdout)) s.effects.events
seen _ = []

abbrev pair : Token → List Pipe
pair k =
    record {
      type = pout;
      head =
          cmd tsemi tnil k none none 4 (codes "a" ∷ [])
          ∷ cmd tsemi k tnil none none 4 (codes "b" ∷ [])
          ∷ [];
    }
    ∷ []

pair_example :
    seen (pr_pipes granting (pair tpipe) shell)
    ≡ (codes "a" ∷ [], some (inherited 0), some (write_end 0))
      ∷ (codes "b" ∷ [], some (read_end 0), some (inherited 1))
      ∷ []
unfolding pr_pipes pr_commands pr_cmd exec_command redirection redirect_out redirect_in slot put
    lowest_free pipe_at make_pipe
pair_example = refl

abbrev no_pipes : List ℕ
no_pipes = replicate 20 0

-- `a | b | c`
abbrev three_commands : List Command
three_commands =
    cmd tsemi tnil tpipe none none 4 (codes "a" ∷ [])
    ∷ cmd tsemi tpipe tpipe none none 4 (codes "b" ∷ [])
    ∷ cmd tsemi tpipe tnil none none 4 (codes "c" ∷ [])
    ∷ []

pr_pipes-tpipe_err_example :
    Returns
      (IsSeen (
        nothing
        ⊕ (ran (codes "a" ∷ []) (inherited 0) (write_end 0) (write_end 0)
            ∷ ran (codes "b" ∷ []) (inherited 0) (inherited 1) (inherited 2)
            ∷ [])))
      (pr_pipes granting
        (pair tpipe_err)
        (shell_with (inherited 0) (inherited 1) (inherited 2) [] no_pipes 0 nothing))
pr_pipes-tpipe_err_example =
    pr_pipes-tpipe_err granting (λ e. refl) (inherited 0) (inherited 1) (inherited 2)
      (record {
        type = pout;
        head =
            cmd tsemi tnil tpipe_err none none 4 (codes "a" ∷ [])
            ∷ cmd tsemi tpipe_err tnil none none 4 (codes "b" ∷ [])
            ∷ [];
      })
      (cmd tsemi tnil tpipe_err none none 4 (codes "a" ∷ []))
      (cmd tsemi tpipe_err tnil none none 4 (codes "b" ∷ [])) [] no_pipes 0 nothing refl refl refl
      (refl, refl) (refl, refl) (omega arith)

abbrev alone : Str → Command
alone name = cmd tsemi tnil tnil none none 4 (name ∷ [])

abbrev alone_pipe : Str → Pipe
alone_pipe name = record { type = pout; head = alone name ∷ [] }

-- `a | b &`
abbrev a_job : Job
a_job = record {
  source = none;
  chain = piped (codes "a") [] pout (final (codes "b") (codes "x" ∷ []) none);
  background = true;
}

letter : (c : ℕ) → 0 < c → c < 128 → IsArgument (c ∷ [])
letter c p a = (((a, tt), omega arith), (p, tt))

a_job-IsJob : IsJob a_job
a_job-IsJob = (
  tt,
  (
    letter _ (omega arith) (omega arith),
    tt,
    (letter _ (omega arith) (omega arith), (letter _ (omega arith) (omega arith), tt), tt),
  ),
)

-- The copies that `backupIO` made, with the descriptors 0, 1 and 2 closed.
abbrev copies : Table
copies = some (inherited 0) ∷ some (inherited 1) ∷ some (inherited 2) ∷ []

copies_there :
    (slot copies 0 ≡ some (inherited 0))
    × (slot copies 1 ≡ some (inherited 1))
    × (slot copies 2 ≡ some (inherited 2))
unfolding slot
copies_there = (refl, refl, refl)

main_round-IsSeen_example :
    Returns
      (IsSeen (nothing ⊕ chain_events (inherited 0) (inherited 1) (inherited 2) 0 a_job.chain))
      (main_round granting 3 4 5
        (jobs_text (a_job ∷ []) ++ codes "z")
        (opened (none ∷ none ∷ none ∷ copies) no_pipes 0 nothing))
main_round-IsSeen_example =
    main_round-IsSeen granting (λ e. refl) none none none (inherited 0) (inherited 1) (inherited 2)
      a_job copies no_pipes 0 nothing 0 1 2 (codes "z") (refl, refl) refl (omega arith)
      (omega arith) a_job-IsJob copies_there
