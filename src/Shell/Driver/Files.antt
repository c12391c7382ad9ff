-- ===== src/Shell/Driver/Files.antt =====
-- The redirections of main1.c to and from files.
use osprograms.Base.{
  ℕ, ◌≡◌, refl, inl, inr, true, false, Option, none, some, List, if◌then◌else◌, Bool-cases, Str,
}
use osprograms.Shell.System.{Effects, System}
use osprograms.Shell.Process.{Process, goes_on, exits}
use osprograms.Run.{ok}
use osprograms.Shell.Token.{tin}
use osprograms.Shell.Command.{Command}
use osprograms.Shell.Grammar.{Redirect, write, write_err, append, append_err, redirect_token}
use osprograms.Shell.Descriptors.{
  Object, read_file, truncated, appended, Table, slot, put, lowest_free, slot-put_self,
}
use osprograms.Shell.Driver.{redirect_out, redirect_in, redirection}
use osprograms.Shell.Driver.Wiring.{shell_with, both_outputs-open}

-- The file of a redirection, and where the errors go.
abbrev pub sink_object : Redirect → Str → Object
sink_object write f = truncated f
sink_object write_err f = truncated f
sink_object append f = appended f
sink_object append_err f = appended f

abbrev pub sink_error : Redirect → Str → Object → Object
sink_error write f e = e
sink_error write_err f e = truncated f
sink_error append f e = e
sink_error append_err f e = appended f

-- What the first `switch` leaves.
abbrev pub sunk : Redirect → Str → Object → Object → Table → List ℕ → ℕ → Effects → Process
sunk k f i e t ps n es =
    shell_with i (sink_object k f) (sink_error k f e)
      (put t (lowest_free t) (some (sink_object k f))) ps n es

module _ (sys : System) (i o e : Object) (t : Table) (ps : List ℕ) (n : ℕ) (es : Effects)
    (c : Command) where
  redirect_out-file :
      (k : Redirect) (f : Str) (out_pipe : Option ℕ)
      → sys.opens (sink_object k f) ≡ true
      → c.output_to ≡ redirect_token k
      → c.outfile ≡ some f
      → redirect_out sys c out_pipe (shell_with i o e t ps n es)
        ≡ ok goes_on (sunk k f i e t ps n es)
  unfolding redirect_out slot put lowest_free
  redirect_out-file write f out_pipe succeeds out file =
      rw (out, file, succeeds, slot-put_self t (lowest_free t) (some (truncated f))) refl
  redirect_out-file append f out_pipe succeeds out file =
      rw (out, file, succeeds, slot-put_self t (lowest_free t) (some (appended f))) refl
  redirect_out-file write_err f out_pipe succeeds out file =
      rw
        (
          out,
          file,
          succeeds,
          both_outputs-open i o e (truncated f) (put t (lowest_free t) (some (truncated f)))
              (lowest_free t) (slot-put_self t (lowest_free t) (some (truncated f))),
        )
        refl
  redirect_out-file append_err f out_pipe succeeds out file =
      rw
        (
          out,
          file,
          succeeds,
          both_outputs-open i o e (appended f) (put t (lowest_free t) (some (appended f)))
              (lowest_free t) (slot-put_self t (lowest_free t) (some (appended f))),
        )
        refl

  redirect_in-file :
      (f : Str) (in_pipe : Option ℕ)
      → sys.opens (read_file f) ≡ true
      → c.input_from ≡ tin
      → c.infile ≡ some f
      → redirect_in sys c in_pipe (shell_with i o e t ps n es)
        ≡ ok goes_on (
            shell_with
              (read_file f)
              o
              e
              (put (put t (lowest_free t) (some (read_file f))) (lowest_free t) none)
              ps
              n
              es)
  unfolding redirect_in slot put lowest_free
  redirect_in-file f in_pipe succeeds inp file =
      rw (inp, file, succeeds, slot-put_self t (lowest_free t) (some (read_file f))) refl

  redirect_out-refused :
      (k : Redirect) (f : Str) (out_pipe : Option ℕ)
      → sys.opens (sink_object k f) ≡ false
      → c.output_to ≡ redirect_token k
      → c.outfile ≡ some f
      → redirect_out sys c out_pipe (shell_with i o e t ps n es)
        ≡ ok exits (shell_with i o e t ps n es)
  unfolding redirect_out
  redirect_out-refused write f out_pipe fails out file = rw (out, file, fails) refl
  redirect_out-refused append f out_pipe fails out file = rw (out, file, fails) refl
  redirect_out-refused write_err f out_pipe fails out file = rw (out, file, fails) refl
  redirect_out-refused append_err f out_pipe fails out file = rw (out, file, fails) refl

  redirect_in-refused :
      (f : Str) (in_pipe : Option ℕ)
      → sys.opens (read_file f) ≡ false
      → c.input_from ≡ tin
      → c.infile ≡ some f
      → redirect_in sys c in_pipe (shell_with i o e t ps n es)
        ≡ ok exits (shell_with i o e t ps n es)
  unfolding redirect_in
  redirect_in-refused f in_pipe fails inp file = rw (inp, file, fails) refl

-- The descriptors behind both redirections: the file that was read from is closed again, the other
-- one is not.
abbrev pub filed : Redirect → Str → Str → Object → Table → List ℕ → ℕ → Effects → Process
filed k f g e t ps n es =
    let kept = put t (lowest_free t) (some (sink_object k g)) in
    shell_with (read_file f) (sink_object k g) (sink_error k g e)
      (put (put kept (lowest_free kept) (some (read_file f))) (lowest_free kept) none) ps n es

-- `redirection` of a command with a file `f` for its input and a file `g` for its output, by any of
-- the four redirections, in a process with its descriptors 0, 1 and 2 open: where both files open,
-- the input is `f`, the output is `g`, and so are the errors where the redirection asks for them;
-- where one does not, the process exits, with the output changed already where it is `f`.
pub redirection-files :
    (sys : System) (i o e : Object) (t : Table) (ps : List ℕ) (n : ℕ) (es : Effects) (c : Command)
    (k : Redirect) (f g : Str) (in_pipe out_pipe : Option ℕ)
    → c.input_from ≡ tin
    → c.infile ≡ some f
    → c.output_to ≡ redirect_token k
    → c.outfile ≡ some g
    → redirection sys c in_pipe out_pipe (shell_with i o e t ps n es) ≡ (
        if sys.opens (sink_object k g)
        then (if sys.opens (read_file f)
            then ok goes_on (filed k f g e t ps n es)
            else ok exits (sunk k g i e t ps n es))
        else ok exits (shell_with i o e t ps n es))
unfolding redirection
redirection-files sys i o e t ps n es c k f g in_pipe out_pipe inp file out file' =
    elim (Bool-cases (sys.opens (sink_object k g))) [
      | inr fails ↦
          rw (redirect_out-refused sys i o e t ps n es c k g out_pipe fails out file', fails) refl
      | inl succeeds ↦
          let kept = put t (lowest_free t) (some (sink_object k g)) in
          let left = redirect_out-file sys i o e t ps n es c k g out_pipe succeeds out file' in
          elim (Bool-cases (sys.opens (read_file f))) [
            | inr fails ↦
                rw
                  (
                    left,
                    redirect_in-refused sys i (sink_object k g) (sink_error k g e) kept ps n es c f
                        in_pipe fails inp file,
                    succeeds,
                    fails,
                  )
                  refl
            | inl reads ↦
                rw
                  (
                    left,
                    redirect_in-file sys i (sink_object k g) (sink_error k g e) kept ps n es c f
                        in_pipe reads inp file,
                    succeeds,
                    reads,
                  )
                  refl
          ]
    ]
