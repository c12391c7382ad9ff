-- ===== src/Shell/Driver/Wiring.antt =====
-- The descriptors of a command between two pipes of main1.c.
use osprograms.Shell.System.{runs, Event, Effects, System, AllEnd}
use osprograms.Base.{
  ℕ, suc, ◌+◌, ◌*◌, ◌<◌, ◌≡◌, refl, sym, ap, ◌∙◌, ◌≢◌, Bool, Option, none, some, List, [], ◌∷◌,
  lt→ltb, length, get_elem?, set, Str,
}
use osprograms.Shell.Process.{Process, goes_on, pipe_at, both_outputs, ◌⊕◌, make_pipe}
use osprograms.Run.{ok}
use osprograms.Shell.Token.{tpipe, tpipe_err}
use osprograms.Shell.Command.{Command}
use osprograms.Shell.Descriptors.{
  Object, read_end, write_end, Table, slot, put, lowest_free, dup2, slot-put_self, slot-put_ne,
  slot-lowest_free,
}
use osprograms.Shell.Driver.{
  external, choice_of, redirect_out, redirect_in, redirection, exec_command, pr_cmd,
}

-- A process with the descriptors 0, 1 and 2 open.
abbrev pub shell_with : Object → Object → Object → Table → List ℕ → ℕ → Effects → Process
shell_with i o e t ps k es = record {
  table = some i ∷ some o ∷ some e ∷ t;
  pipes = ps;
  made = k;
  effects = es;
}

pub both_outputs-open :
    (i o e x : Object) (t : Table) (w : ℕ)
    → slot t w ≡ some x
    → both_outputs (suc (suc (suc w))) (some i ∷ some o ∷ some e ∷ t) ≡ some i ∷ some x ∷ some x ∷ t
unfolding slot put
both_outputs-open i o e x t w there = ap (dup2 (suc (suc (suc w))) 2) first ∙ second
  where
    first : dup2 (suc (suc (suc w))) 1 (some i ∷ some o ∷ some e ∷ t) ≡ some i ∷ some x ∷ some e ∷ t
    first = rw (dup2, there) refl

    second :
        dup2 (suc (suc (suc w))) 2 (some i ∷ some x ∷ some e ∷ t) ≡ some i ∷ some x ∷ some x ∷ t
    second = rw (dup2, there) refl

module _ (sys : System) (i o e : Object) (ps : List ℕ) (k : ℕ) (es : Effects) (c : Command)
    (id r w m : ℕ) (reading : get_elem? ps (2 * id + 0) ≡ some (suc (suc (suc r))))
    (writing : get_elem? ps (2 * id + 1) ≡ some (suc (suc (suc w)))) (apart : r ≢ w)
    (t : Table) where
  pub redirect_out-tpipe :
      c.output_to ≡ tpipe
      → slot t w ≡ some (write_end m)
      → redirect_out sys c (some id) (shell_with i o e t ps k es)
        ≡ ok goes_on (shell_with i (write_end m) e (put (put t r none) w none) ps k es)
  unfolding redirect_out pipe_at slot put
  redirect_out-tpipe out there =
      rw (out, reading, writing, slot-put_ne t r w none apart, there) refl

  pub redirect_out-tpipe_err :
      c.output_to ≡ tpipe_err
      → slot t w ≡ some (write_end m)
      → redirect_out sys c (some id) (shell_with i o e t ps k es)
        ≡ ok goes_on (shell_with i (write_end m) (write_end m) (put (put t r none) w none) ps k es)
  unfolding redirect_out pipe_at slot put
  redirect_out-tpipe_err out there =
      rw
        (
          out,
          reading,
          writing,
          both_outputs-open i o e (write_end m) (put t r none) w
              (slot-put_ne t r w none apart ∙ there),
        )
        refl

  pub redirect_in-tpipe :
      c.input_from ≡ tpipe
      → slot t r ≡ some (read_end m)
      → redirect_in sys c (some id) (shell_with i o e t ps k es)
        ≡ ok goes_on (shell_with (read_end m) o e (put (put t w none) r none) ps k es)
  unfolding redirect_in pipe_at slot put
  redirect_in-tpipe inp there =
      rw (inp, writing, reading, slot-put_ne t w r none (λ q. apart (sym q)), there) refl

abbrev pub ran : List Str → Object → Object → Object → Event
ran args i o e = record { action = runs args; stdin = some i; stdout = some o; stderr = some e }

module _ (sys : System) (all_end : AllEnd sys) (i o e i' o' e' : Object) (t t' : Table)
    (ps : List ℕ) (k : ℕ) (es : Effects) (c : Command) (in_pipe : Option ℕ) (id : ℕ)
    (redirected : redirection sys c in_pipe (some id) (shell_with i o e t ps k es)
      ≡ ok goes_on (shell_with i' o' e' t' ps k es)) where
  exec_command-ran :
      (w : ℕ)
      → get_elem? ps (2 * id + 1) ≡ some (suc (suc (suc w)))
      → exec_command sys c in_pipe (some id) (shell_with i o e t ps k es)
        ≡ ok goes_on (shell_with i o e (put t w none) ps k (es ⊕ (ran c.args i' o' e' ∷ [])))
  unfolding exec_command pipe_at slot put
  exec_command-ran w writing = rw (redirected, all_end (ran c.args i' o' e')) (rw (writing) refl)

  pub pr_cmd-ran :
      (w : ℕ) (last : Bool)
      → choice_of c.args ≡ external
      → get_elem? ps (2 * id + 1) ≡ some (suc (suc (suc w)))
      → pr_cmd sys (suc (length c.args)) last c in_pipe (some id) (shell_with i o e t ps k es)
        ≡ ok goes_on (shell_with i o e (put t w none) ps k (es ⊕ (ran c.args i' o' e' ∷ [])))
  unfolding pr_cmd
  pr_cmd-ran w last choice writing = rw (pr_cmd, choice) (exec_command-ran w writing)

-- The table and the array behind a new pipe, and what they hold.
module _ (t : Table) (k : ℕ) where
  abbrev pub new_read : ℕ
  new_read = lowest_free t

  abbrev pub new_write : ℕ
  new_write = lowest_free (put t new_read (some (read_end k)))

  abbrev pub with_pipe : Table
  with_pipe = put (put t new_read (some (read_end k))) new_write (some (write_end k))

  pub new_apart : new_read ≢ new_write
  new_apart same =
      let free = slot-lowest_free (put t new_read (some (read_end k))) in
      let taken = slot-put_self t new_read (some (read_end k)) in absurd (cc)

  pub slot-new_read : slot with_pipe new_read ≡ some (read_end k)
  slot-new_read =
      slot-put_ne (put t new_read (some (read_end k))) new_write new_read (some (write_end k))
        (λ q. new_apart (sym q))
      ∙ slot-put_self t new_read (some (read_end k))

  pub slot-new_write : slot with_pipe new_write ≡ some (write_end k)
  slot-new_write = slot-put_self (put t new_read (some (read_end k))) new_write (some (write_end k))

abbrev pub with_ends : List ℕ → ℕ → Table → ℕ → List ℕ
with_ends ps current t k =
    set (set ps (2 * current) (suc (suc (suc (new_read t k))))) (2 * current + 1)
      (suc (suc (suc (new_write t k))))

pub make_pipe-shell_with :
    (i o e : Object) (t : Table) (ps : List ℕ) (k : ℕ) (es : Effects) (current : ℕ)
    → 2 * current + 1 < length ps
    → make_pipe current (shell_with i o e t ps k es)
      ≡ ok tt (shell_with i o e (with_pipe t k) (with_ends ps current t k) (k + 1) es)
unfolding make_pipe put lowest_free
make_pipe-shell_with i o e t ps k es current room = rw (lt→ltb _ _ room) refl
