-- ===== src/Shell/Driver.antt =====
-- `redirection`, `prCmd` and `prPipe` of main1.c, and the functions that run a command.
pub mod Wiring
pub mod Inlets
pub mod Chain
pub mod Wired
pub mod Faults
pub mod Text
pub mod Numerals
pub mod Files
pub mod Variables
pub mod Places
use osprograms.Shell.Process.{
  Process, goes_on, exits, Routine, on_table, pipe_at, to_pipe, both_outputs, if_going,
  exec_program, forked, close_write_end, make_pipe, is_pipe, before, is_last,
}
use osprograms.Base.{
  ℕ, zero, suc, ◌+◌, Bool, true, false, not, Option, none, some, List, [], ◌∷◌, if◌then◌else◌,
  length, Str, codes, str_eq,
}
use osprograms.Shell.System.{System}
use osprograms.Shell.Builtins.{
  is_builtin_command, echo_arguments, print_directory, change_directory, set_variable, print_places,
  unset_variable, set_nice, nice_rest,
}
use osprograms.Run.{ok, out_of_fuel, Program, pure, stop, and_then, ◌>>=◌, ◌>>◌}
use osprograms.Shell.Token.{tpipe, tin, tout, tapp, tpipe_err, tout_err, tapp_err}
use osprograms.Shell.Command.{Command, Pipe}
use osprograms.Shell.Descriptors.{
  Object, read_file, truncated, appended, slot, put, lowest_free, close, dup2,
}

-- The choice of `prCmd`; `name` is `args[0]`.
pub data Choice : Type 0 where
  no_name external echo pwd setenv unsets nice cd places_of leaves : Choice

abbrev pub choice_of : List Str → Choice
choice_of [] = no_name
choice_of (name ∷ args) =
    if not (is_builtin_command name)
    then external
    else if str_eq name (codes "echo")
    then echo
    else if str_eq name (codes "pwd")
    then pwd
    else if str_eq name (codes "setenv")
    then setenv
    else if str_eq name (codes "unsetenv")
    then unsets
    else if str_eq name (codes "nice")
    then nice
    else if str_eq name (codes "cd")
    then cd
    else if str_eq name (codes "where")
    then places_of
    else leaves

module _ (sys : System) where
  -- `open` and, where it fails, exit(1).
  abbrev pub open_file : Object → (ℕ → Program Process (Unit {0})) → Routine
  open_file x use_fd s =
      if sys.opens x
      then (and_then
          (use_fd (lowest_free s.table)
            (record s { table = put s.table (lowest_free s.table) (some x) }))
          (λ _. pure goes_on))
      else ok exits s

  abbrev pub to_file : (Str → Object) → Option Str → (ℕ → Program Process (Unit {0})) → Routine
  to_file mode none use_fd = stop
  to_file mode (some f) use_fd = open_file (mode f) use_fd

  -- The first `switch` of `redirection`.
  unfoldable pub redirect_out : Command → Option ℕ → Routine
  unfolding slot put lowest_free pipe_at
  redirect_out c out_pipe = elim c.output_to [
    | tout ↦ to_file truncated c.outfile (λ fd. on_table (dup2 fd 1))
    | tapp ↦ to_file appended c.outfile (λ fd. on_table (dup2 fd 1))
    | tout_err ↦ to_file truncated c.outfile (λ fd. on_table (both_outputs fd))
    | tapp_err ↦ to_file appended c.outfile (λ fd. on_table (both_outputs fd))
    | tpipe ↦ to_pipe out_pipe 0 1 (λ fd. dup2 fd 1)
    | tpipe_err ↦ to_pipe out_pipe 0 1 both_outputs
    | _ ↦ pure goes_on
  ]

  -- The second `switch`, which has no case for a `|&`.
  unfoldable pub redirect_in : Command → Option ℕ → Routine
  unfolding slot put lowest_free pipe_at
  redirect_in c in_pipe = elim c.input_from [
    | tin ↦ to_file read_file c.infile (λ fd. on_table (λ t. close fd (dup2 fd 0 t)))
    | tpipe ↦ to_pipe in_pipe 1 0 (λ fd. dup2 fd 0)
    | _ ↦ pure goes_on
  ]

  unfoldable pub redirection : Command → Option ℕ → Option ℕ → Routine
  unfolding redirect_out redirect_in
  redirection c in_pipe out_pipe = if_going (redirect_out c out_pipe) (redirect_in c in_pipe)

  unfoldable pub exec_command : Command → Option ℕ → Option ℕ → Routine
  unfolding redirection pipe_at slot put
  exec_command c in_pipe out_pipe = do
    forked sys (if_going (redirection c in_pipe out_pipe) (exec_program sys c.args))
    close_write_end out_pipe

  -- A built-in command: in the shell itself where it is the last one of its pipe, else in a child.
  abbrev pub exec_builtin : Bool → Routine → Command → Option ℕ → Option ℕ → Routine
  exec_builtin true act c in_pipe out_pipe = if_going (redirection c in_pipe out_pipe) act
  exec_builtin false act c in_pipe out_pipe = do
    forked sys (if_going (redirection c in_pipe out_pipe) act)
    close_write_end out_pipe

  unfoldable pub exec_echo : Bool → Command → Option ℕ → Option ℕ → Routine
  unfolding echo_arguments
  exec_echo last c = exec_builtin last (echo_arguments c.args) c

  unfoldable pub exec_pwd : Bool → Command → Option ℕ → Option ℕ → Routine
  unfolding print_directory
  exec_pwd last c = exec_builtin last print_directory c

  unfoldable pub exec_setenv : Bool → Command → Option ℕ → Option ℕ → Routine
  unfolding set_variable
  exec_setenv last c = exec_builtin last (set_variable sys c.args) c

  unfoldable pub exec_unsetenv : Bool → Command → Option ℕ → Option ℕ → Routine
  unfolding unset_variable
  exec_unsetenv last c = exec_builtin last (unset_variable c.args) c

  unfoldable pub exec_cd : Bool → Command → Option ℕ → Option ℕ → Routine
  unfolding change_directory
  exec_cd last c = exec_builtin last (change_directory sys c.args) c

  unfoldable pub exec_where : Bool → Command → Option ℕ → Option ℕ → Routine
  unfolding print_places
  exec_where last c = exec_builtin last (print_places sys c.args) c

  -- `run` is the call of `prCmd` for the rest of the arguments.
  unfoldable pub exec_nice : Routine → Bool → Command → Option ℕ → Option ℕ → Routine
  unfolding set_nice nice_rest
  exec_nice run last c =
      exec_builtin last
        (if_going (set_nice sys c.args)
          (elim (nice_rest c.args) [ [] ↦ pure goes_on | _ ∷ _ ↦ run ]))
        c

  -- `prCmd`. `nice` calls it for the rest of its arguments.
  unfoldable pub pr_cmd : ℕ → Bool → Command → Option ℕ → Option ℕ → Routine
  unfolding exec_command exec_echo exec_pwd exec_setenv exec_unsetenv exec_nice exec_cd exec_where
  pr_cmd zero last c in_pipe out_pipe = λ s. out_of_fuel
  pr_cmd (suc fuel) last c in_pipe out_pipe =
      let rest = pr_cmd fuel last (record c { args = nice_rest c.args }) in_pipe out_pipe in
      elim (choice_of c.args) [
        | no_name ↦ stop
        | external ↦ exec_command c in_pipe out_pipe
        | echo ↦ exec_echo last c in_pipe out_pipe
        | pwd ↦ exec_pwd last c in_pipe out_pipe
        | setenv ↦ exec_setenv last c in_pipe out_pipe
        | unsets ↦ exec_unsetenv last c in_pipe out_pipe
        | nice ↦ exec_nice rest last c in_pipe out_pipe
        | cd ↦ exec_cd last c in_pipe out_pipe
        | places_of ↦ exec_where last c in_pipe out_pipe
        | leaves ↦ pure exits
      ]

  -- The loop of `prPipe` over the commands of a pipe, with `currPipe`, `inPipeId` and `outPipeId`.
  unfoldable pub pr_commands : ℕ → Option ℕ → Option ℕ → List Command → Routine
  unfolding pr_cmd make_pipe
  pr_commands current in_pipe out_pipe [] = pure goes_on
  pr_commands current in_pipe out_pipe (c ∷ cs) =
      let in' = if is_pipe c.input_from then before current else in_pipe in
      if is_pipe c.output_to
      then (do
        make_pipe current
        if_going (pr_cmd (suc (length c.args)) (is_last cs) c in' (some current))
            (pr_commands (current + 1) in' (some current) cs))
      else if_going (pr_cmd (suc (length c.args)) (is_last cs) c in' out_pipe)
          (pr_commands current in' out_pipe cs)

  -- `prPipe`
  unfoldable pub pr_pipes : List Pipe → Routine
  unfolding pr_commands
  pr_pipes [] = pure goes_on
  pr_pipes (p ∷ ps) = if_going (pr_commands 0 (some 0) (some 0) p.head) (pr_pipes ps)
