-- ===== src/Shell/BuiltinTests.antt =====
-- The theorems on the built-in commands at small commands.
use osprograms.Base.{
  ◌≡◌, refl, true, none, some, List, [], ◌∷◌, ◌++◌, arith, if◌then◌else◌, replicate, Str, codes,
  str_eq, pos,
}
use osprograms.Shell.Driver.Variables.{setenv-overflow}
use osprograms.Run.{ok, fault}
use osprograms.Shell.Token.{tsemi, tnil}
use osprograms.Shell.Command.{Command}
use osprograms.Shell.System.{System}
use osprograms.Shell.Descriptors.{inherited}
use osprograms.Shell.Environment.{value_if, getenv}
use osprograms.Shell.Process.{Process, goes_on, if_going}
use osprograms.Shell.Parser.Parts.{cmd}
use osprograms.Shell.Driver.{redirect_out, redirect_in, redirection, pr_cmd}
use osprograms.Shell.Driver.Places.{joined, printed, pr_cmd-found, pwd-cd}

-- A system with the directory `/d` and the program `/bin/x`.
abbrev system : System
system = record {
  opens = λ x. true;
  chdir = λ cwd path. if str_eq path (codes "/d") then some (codes "/d") else none;
  stat = λ cwd path. str_eq path (codes "/bin/x");
  may_set = λ old new. true;
  ends = λ e. true;
  astray = λ t es. none;
}

abbrev shell : Process
shell = record {
  table = some (inherited 0) ∷ some (inherited 1) ∷ some (inherited 2) ∷ [];
  pipes = replicate 20 0;
  made = 0;
  effects = record {
    events = [];
    settings = record {
      cwd = codes "/";
      environ = codes "A=1" ∷ codes "PATH=/usr:/bin" ∷ [];
      priority = pos 0;
    };
  };
}

abbrev command : List Str → Command
command args = cmd tsemi tnil tnil none none 4 args

unredirected :
    (sys : System) (args : List Str)
    → redirection sys (command args) none none shell ≡ ok goes_on shell
unfolding redirection redirect_out redirect_in
unredirected sys args = refl

setenv-overflow_example :
    pr_cmd system 4 true (command (codes "setenv" ∷ codes "A" ∷ codes "2" ∷ [])) none none shell
    ≡ fault
setenv-overflow_example =
    setenv-overflow system 3 (command (codes "setenv" ∷ codes "A" ∷ codes "2" ∷ [])) none none shell
      shell (unredirected system _) (codes "A") (codes "2" ∷ []) refl

pr_cmd-found_example :
    pr_cmd system 3 true (command (codes "where" ∷ codes "x" ∷ [])) none none shell
    ≡ ok goes_on (printed (codes "x: /bin/x" ++ (10 ∷ [])) shell)
pr_cmd-found_example =
    pr_cmd-found system shell (codes "x") (codes "/usr") (codes "/bin" ∷ []) path (refl, (refl, tt))
      2 (command (codes "where" ∷ codes "x" ∷ [])) none none shell (unredirected system _) refl
  where
    path :
        getenv (codes "PATH") shell.effects.settings.environ
        ≡ some (joined (codes "/usr") (codes "/bin" ∷ []))
    path = unfold getenv value_if in refl

pwd-cd_example :
    if_going
      (pr_cmd system 3 true (command (codes "cd" ∷ codes "/d" ∷ [])) none none)
      (pr_cmd system 3 true (command (codes "pwd" ∷ [])) none none)
      shell
    ≡ ok goes_on (
        printed (codes "/d" ++ (10 ∷ [])) (record shell {
          effects = record shell.effects {
            settings = record shell.effects.settings { cwd = codes "/d" };
          };
        }))
pwd-cd_example =
    pwd-cd system 2 (command (codes "cd" ∷ codes "/d" ∷ [])) (command (codes "pwd" ∷ [])) none none
      shell (refl, refl) (refl, refl) (codes "/d") (codes "/d") refl refl refl (omega arith)
      (omega arith)
