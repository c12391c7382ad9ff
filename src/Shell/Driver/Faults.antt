-- ===== src/Shell/Driver/Faults.antt =====
-- Where main1.c does not give a command the input that it should have.
use osprograms.Shell.System.{runs, Event, Effects, System, AllEnd}
use osprograms.Shell.Process.{
  Process, Going, goes_on, exits, Routine, ◌⊕◌, ⊕_assoc, is_pipe, before,
}
use osprograms.Base.{
  ℕ, ◌+◌, ◌*◌, ◌≤◌, ◌<◌, ◌≡◌, refl, ap, subst, true, false, Option, none, some, List, [], ◌∷◌,
  arith, if◌then◌else◌, length, Str,
}
use osprograms.Run.{ok, pure}
use osprograms.Run.Returns
use osprograms.Run.Returns.{Returns, returns, bind}
use osprograms.Shell.Token.{tpipe_err, tnil}
use osprograms.Shell.Command.{Command, Pipe}
use osprograms.Shell.Descriptors.{Object, write_end, Table, put}
use osprograms.Shell.Driver.{
  external, choice_of, redirect_out, redirect_in, redirection, pr_commands, pr_pipes,
}
use osprograms.Shell.Driver.Wiring.{
  shell_with, redirect_out-tpipe_err, ran, new_read, new_write, with_pipe, new_apart,
  slot-new_write, with_ends,
}
use osprograms.Shell.Driver.Chain.{IsSeen, round_piped, round_last}
use osprograms.Shell.Driver.Inlets.{with_ends-read, with_ends-write}

-- A command that is no built-in one, with neither pipes nor files.
abbrev pub IsAlone : Command → Type 0
IsAlone c = (choice_of c.args ≡ external) × (c.input_from ≡ tnil) × (c.output_to ≡ tnil)

abbrev pub ran_with : List Str → Option Object → Option Object → Option Object → Event
ran_with args x y z = record { action = runs args; stdin = x; stdout = y; stderr = z }

abbrev pub opened : Table → List ℕ → ℕ → Effects → Process
opened t ps k es = record { table = t; pipes = ps; made = k; effects = es }

-- `c |& d`.
module _ (sys : System) (all_end : AllEnd sys) (i o e : Object) (c d : Command) (t : Table)
    (ps : List ℕ) (k : ℕ) (es : Effects) (inp : c.input_from ≡ tnil) (out : c.output_to ≡ tpipe_err)
    (d_in : d.input_from ≡ tpipe_err) (d_out : d.output_to ≡ tnil) where
  writes_both :
      2 * 0 + 1 < length ps
      → redirection sys c
          (some 0)
          (some 0)
          (shell_with i o e (with_pipe t k) (with_ends ps 0 t k) (k + 1) es)
        ≡ ok goes_on (
            shell_with i
              (write_end k)
              (write_end k)
              (put (put (with_pipe t k) (new_read t k) none) (new_write t k) none)
              (with_ends ps 0 t k)
              (k + 1)
              es)
  unfolding redirection redirect_in
  writes_both room =
      rw
        (
          redirect_out-tpipe_err sys i o e (with_ends ps 0 t k) (k + 1) es c 0 (new_read t k)
              (new_write t k) k (with_ends-read ps 0 t k room) (with_ends-write ps 0 t k room)
              (new_apart t k) (with_pipe t k) out (slot-new_write t k),
          inp,
        )
        refl

  reads_nothing :
      (t' : Table) (qs : List ℕ) (n : ℕ) (es' : Effects)
      → redirection sys d (some 0) (some 0) (shell_with i o e t' qs n es')
        ≡ ok goes_on (shell_with i o e t' qs n es')
  unfolding redirection redirect_in redirect_out
  reads_nothing t' qs n es' = rw (d_out, d_in) refl

  d_inlet : (if is_pipe d.input_from then before (0 + 1) else some 0) ≡ some 0
  d_inlet = let piped : is_pipe d.input_from ≡ true = ap is_pipe d_in in rw (piped) refl

  c_inlet : (if is_pipe c.input_from then before 0 else some 0) ≡ some 0
  c_inlet = let not : is_pipe c.input_from ≡ false = ap is_pipe inp in rw (not) refl

  pr_commands-tpipe_err :
      choice_of c.args ≡ external
      → choice_of d.args ≡ external
      → 2 ≤ length ps
      → Returns
          (IsSeen (es ⊕ (ran c.args i (write_end k) (write_end k) ∷ ran d.args i o e ∷ [])))
          (pr_commands sys 0 (some 0) (some 0) (c ∷ d ∷ []) (shell_with i o e t ps k es))
  pr_commands-tpipe_err c_ext d_ext room =
      round_piped sys all_end 0 (some 0) (some 0) c d [] i o e i (write_end k) (write_end k) t _ ps
        k es c_ext (ap is_pipe out) (omega arith) (some 0) c_inlet (writes_both (omega arith))
        (subst
          (λ es'. Returns (IsSeen es') (
            pr_commands sys (0 + 1) (some 0) (some 0) (d ∷ []) (
              shell_with i o e (put (with_pipe t k) (new_write t k) none) (with_ends ps 0 t k)
                (k + 1) (es ⊕ (ran c.args i (write_end k) (write_end k) ∷ [])))))
          (⊕_assoc es (ran c.args i (write_end k) (write_end k) ∷ []) (ran d.args i o e ∷ []))
          (round_last sys all_end (0 + 1) (some 0) 0 d i o e i _ _ _ (k + 1) _ d_ext d_out (some 0)
            d_inlet (reads_nothing _ _ _ _) (new_write t k)
            (with_ends-write ps 0 t k (omega arith))))

-- Where the programs that are started end, `prPipe` of `c |& d`, two commands that are no built-in ones and have no files: the outputs of the
-- first one go to the pipe, and the second one reads what the shell reads, not the pipe.
pub pr_pipes-tpipe_err :
    (sys : System) (all_end : AllEnd sys) (i o e : Object) (p : Pipe) (c d : Command) (t : Table)
    (ps : List ℕ) (k : ℕ) (es : Effects)
    → p.head ≡ c ∷ d ∷ []
    → choice_of c.args ≡ external
    → choice_of d.args ≡ external
    → (c.input_from ≡ tnil) × (c.output_to ≡ tpipe_err)
    → (d.input_from ≡ tpipe_err) × (d.output_to ≡ tnil)
    → 2 ≤ length ps
    → Returns
        (IsSeen (es ⊕ (ran c.args i (write_end k) (write_end k) ∷ ran d.args i o e ∷ [])))
        (pr_pipes sys (p ∷ []) (shell_with i o e t ps k es))
unfolding pr_pipes
pr_pipes-tpipe_err sys all_end i o e p c d t ps k es head c_ext d_ext (inp, out) (d_in, d_out)
      room =
    rw (head) (
      Returns.bind
        (pr_commands-tpipe_err sys all_end i o e c d t ps k es inp out d_in d_out c_ext d_ext room)
        ends)
  where
    ends :
        (going : Going) (s : Process)
        → IsSeen (es ⊕ (ran c.args i (write_end k) (write_end k) ∷ ran d.args i o e ∷ [])) going s
        → Returns
            (IsSeen (es ⊕ (ran c.args i (write_end k) (write_end k) ∷ ran d.args i o e ∷ [])))
            ((elim going as (λ _. Routine) [ exits ↦ pure exits | goes_on ↦ pure goes_on ]) s)
    ends going s (same, seen) = rw (same) (returns (refl, seen))
