-- ===== src/Shell/System.antt =====
-- What the shell of main1.c asks of the system, and what a process of it has beside its descriptors.
use osprograms.Base.{◌≡◌, Bool, true, Option, List, Str, ℤ}
use osprograms.Shell.Descriptors.{Object, Table}

-- The current directory, `environ`, and the priority.
pub record Settings : Type 0 where
  pub cwd : Str
  pub environ : List Str
  pub priority : ℤ

-- `execvp` of the arguments, `printf` of a text, and `perror` with a prefix.
pub data Action : Type 0 where
  runs : List Str → Action
  prints complains : Str → Action

-- An action, with the descriptors 0, 1 and 2 of the process.
pub record Event : Type 0 where
  pub action : Action
  pub stdin : Option Object
  pub stdout : Option Object
  pub stderr : Option Object

-- What is seen of a process: the events so far, those of its children among them, and its own
-- settings.
pub record Effects : Type 0 where
  pub events : List Event
  pub settings : Settings

-- What the system decides: whether a file opens, which directory `chdir` leads to from the current
-- one, if any, whether `stat` finds a path, whether `setpriority` may set the second priority where
-- the process has the first, whether a program that `execvp` starts ends, and what is seen
-- of a child, from its start with these descriptors and settings, that meets undefined behaviour, or that
-- it does not end. A program that waits for
-- ever, or that writes into a pipe more than it holds, does not.
pub record System : Type 0 where
  pub opens : Object → Bool
  pub chdir : Str → Str → Option Str
  pub stat : Str → Str → Bool
  pub may_set : ℤ → ℤ → Bool
  pub ends : Event → Bool
  pub astray : Table → Effects → Option (List Event)

abbrev pub AllEnd : System → Type 0
AllEnd sys = (e : Event) → sys.ends e ≡ true
