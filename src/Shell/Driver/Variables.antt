-- ===== src/Shell/Driver/Variables.antt =====
-- `setenv` and `unsetenv` of main1.c, and what `getenv` says behind them.
use osprograms.Base.{
  ℕ, suc, ◌+◌, ◌≡◌, refl, ◌≢◌, true, false, Option, List, [], ◌∷◌, arith, ltb, length,
  length-append, Str, codes, free_of,
}
use osprograms.Run.{ok, fault}
use osprograms.Shell.Command.{Command}
use osprograms.Shell.System.{System}
use osprograms.Shell.Environment.{equals, getenv, entry_of}
use osprograms.Shell.Process.{Process, goes_on}
use osprograms.Shell.Builtins.{put_variable, set_variable}
use osprograms.Shell.Driver.{setenv, choice_of, redirection, exec_setenv, pr_cmd}

abbrev pub variable : Str → Process → Option Str
variable name s = getenv name s.effects.settings.environ

abbrev with_environ : Process → List Str → Process
with_environ t es = record t {
  effects = record t.effects { settings = record t.effects.settings { environ = es } };
}

-- `name` has become `value`, no other variable has changed, and nothing else has.
pub record Changed (name : Str) (value : Option Str) (t u : Process) : Type 0 where
  pub is : variable name u ≡ value
  pub others :
      (other : Str)
      → free_of equals other ≡ true
      → name ≢ other
      → variable other u ≡ variable other t
  pub cwd : u.effects.settings.cwd ≡ t.effects.settings.cwd
  pub priority : u.effects.settings.priority ≡ t.effects.settings.priority
  pub events : u.effects.events ≡ t.effects.events
  pub table : u.table ≡ t.table

module _ (sys : System) (fuel : ℕ) (c : Command) (in_pipe out_pipe : Option ℕ) (s t : Process)
    (redirected : redirection sys c in_pipe out_pipe s ≡ ok goes_on t) (name : Str) where
  entry_too_long : (value : Str) → ltb (length (entry_of name value)) (length name + 1) ≡ false
  entry_too_long value = ground (arith, length-append name (equals ∷ value))

  -- Where the redirections of a `setenv` with a name, the last command of its pipe, succeed, `strcat`
  -- writes past the end of the memory that `strdup` gets, whether a value is given or not.
  pub setenv-overflow :
      (values : List Str)
      → c.args ≡ codes "setenv" ∷ name ∷ values
      → pr_cmd sys (suc fuel) true c in_pipe out_pipe s ≡ fault
  unfolding pr_cmd exec_setenv set_variable put_variable
  setenv-overflow [] args =
      let choice : choice_of c.args ≡ setenv = rw args refl in
      rw (pr_cmd, choice) (rw (redirected, args) (rw (entry_too_long []) refl))
  setenv-overflow (value ∷ values) args =
      let choice : choice_of c.args ≡ setenv = rw args refl in
      rw (pr_cmd, choice) (rw (redirected, args) (rw (entry_too_long value) refl))
