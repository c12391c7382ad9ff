-- ===== src/Shell/Driver/Wired.antt =====
-- A whole pipe of main1.c: each command reads what the one before it writes.
use osprograms.Shell.System.{Effects, System, AllEnd}
use osprograms.Base.{
  ℕ, ◌+◌, ◌*◌, ◌≤◌, ◌<◌, ◌≡◌, refl, ap, subst, true, false, Option, none, some, List, [], ◌∷◌,
  arith, if◌then◌else◌, length,
}
use osprograms.Shell.Process.{
  Process, Going, goes_on, exits, Routine, ◌⊕◌, ⊕_assoc, is_pipe, before,
}
use osprograms.Run.Returns
use osprograms.Run.Returns.{Returns, returns, bind}
use native.Mathlib.Numerals.{add-one}
use osprograms.Shell.Token.{tpipe, tnil}
use osprograms.Shell.Command.{Command, Pipe}
use osprograms.Shell.Descriptors.{Object, read_end, write_end, Table, put}
use osprograms.Shell.Driver.{pr_commands, pr_pipes}
use osprograms.Shell.Driver.Wiring.{shell_with, ran, new_write, with_pipe, with_ends}
use osprograms.Shell.Driver.Chain.{next-IsOpen, IsSeen, round_piped, round_last}
use osprograms.Shell.Driver.Inlets.{
  IsChained, wired, with_ends-length, IsOpen, last-redirection, first-redirection,
  middle-redirection,
}
use osprograms.Run.{pure}

pub before-add_one : (n : ℕ) → before (n + 1) ≡ some n
before-add_one n = rw (add-one n) refl

piped_inlet :
    (c : Command) (n : ℕ) (in_pipe : Option ℕ)
    → c.input_from ≡ tpipe
    → (if is_pipe c.input_from then before (n + 1) else in_pipe) ≡ some n
piped_inlet c n in_pipe inp =
    let is : is_pipe c.input_from ≡ true = ap is_pipe inp in rw (is) (before-add_one n)

module _ (sys : System) (all_end : AllEnd sys) (i o e : Object) where
  chain-IsSeen :
      (cs : List Command) (n : ℕ) (in_pipe : Option ℕ) (t : Table) (ps : List ℕ) (k : ℕ)
      (es : Effects) (a : ℕ)
      → IsOpen ps t n a
      → IsChained tpipe cs
      → 2 * (n + length cs) ≤ length ps
      → Returns
          (IsSeen (es ⊕ wired (read_end a) o e k cs))
          (pr_commands sys (n + 1) in_pipe (some n) cs (shell_with i o e t ps k es))
  chain-IsSeen [] n in_pipe t ps k es a p chained room = absurd chained
  chain-IsSeen (c ∷ []) n in_pipe t ps k es a p (ext, inp, out) room =
      round_last sys all_end (n + 1) in_pipe n c i o e (read_end a) t _ ps k es ext out (some n)
        (piped_inlet c n in_pipe inp)
        (last-redirection sys i o e c n (some n) t ps k es a p inp out) p.w p.writing
  chain-IsSeen (c ∷ d ∷ cs) n in_pipe t ps k es a p ((ext, inp, out), chained) room =
      let fits : 2 * (n + 1) + 1 < length ps = omega arith in
      let event = ran c.args (read_end a) (write_end k) e in
      round_piped sys all_end (n + 1) in_pipe (some n) c d cs i o e (read_end a) (write_end k) e t _
        ps k es ext (ap is_pipe out) fits (some n) (piped_inlet c n in_pipe inp)
        (middle-redirection sys i o e c n (n + 1) t ps k (k + 1) es a p fits (omega arith) inp out)
        (subst
          (λ es'. Returns (IsSeen es') (
            pr_commands sys (n + 1 + 1) (some n) (some (n + 1)) (d ∷ cs) (
              shell_with i o e (put (with_pipe t k) (new_write t k) none) (with_ends ps (n + 1) t k)
                (k + 1) (es ⊕ (event ∷ [])))))
          (⊕_assoc es (event ∷ []) (wired (read_end k) o e (k + 1) (d ∷ cs)))
          (chain-IsSeen (d ∷ cs) (n + 1) (some n) _ _ (k + 1) (es ⊕ (event ∷ [])) k
            (next-IsOpen ps t k (n + 1) fits) chained
            (omega (arith, with_ends-length ps (n + 1) t k fits))))

-- `prPipe` of at least two commands that are no built-in ones, joined by `|` and with no files, in a
-- shell with its descriptors 0, 1 and 2 open and room for the pipes in the array: the shell goes on,
-- each command has run with what the one before it writes as its input, the first one reads what the
-- shell reads, and the last one writes where the shell writes; the
-- shell's settings are what they were.
pub pr_pipes-IsSeen :
    (sys : System) (all_end : AllEnd sys) (i o e : Object) (p : Pipe) (c d : Command)
    (cs : List Command) (t : Table) (ps : List ℕ) (k : ℕ) (es : Effects)
    → p.head ≡ c ∷ d ∷ cs
    → IsChained tnil (c ∷ d ∷ cs)
    → 2 * length (d ∷ cs) ≤ length ps
    → Returns
        (IsSeen (es ⊕ wired i o e k (c ∷ d ∷ cs)))
        (pr_pipes sys (p ∷ []) (shell_with i o e t ps k es))
unfolding pr_pipes
pr_pipes-IsSeen sys all_end i o e p c d cs t ps k es head ((ext, inp, out), chained) room =
    rw (head) (Returns.bind wiring ends)
  where
    ends :
        (going : Going) (s : Process)
        → IsSeen (es ⊕ wired i o e k (c ∷ d ∷ cs)) going s
        → Returns
            (IsSeen (es ⊕ wired i o e k (c ∷ d ∷ cs)))
            ((elim going as (λ _. Routine) [ exits ↦ pure exits | goes_on ↦ pure goes_on ]) s)
    ends going s (same, seen) = rw (same) (returns (refl, seen))

    fits : 2 * 0 + 1 < length ps
    fits = omega arith

    no_inlet : (if is_pipe c.input_from then before 0 else some 0) ≡ some 0
    no_inlet = let not : is_pipe c.input_from ≡ false = ap is_pipe inp in rw (not) refl

    wiring :
        Returns
          (IsSeen (es ⊕ wired i o e k (c ∷ d ∷ cs)))
          (pr_commands sys 0 (some 0) (some 0) (c ∷ d ∷ cs) (shell_with i o e t ps k es))
    wiring =
        round_piped sys all_end 0 (some 0) (some 0) c d cs i o e i (write_end k) e t _ ps k es ext
          (ap is_pipe out) fits (some 0) no_inlet
          (first-redirection sys i o e c (some 0) 0 t ps k (k + 1) es fits inp out)
          (subst
            (λ es'. Returns (IsSeen es') (
              pr_commands sys (0 + 1) (some 0) (some 0) (d ∷ cs) (
                shell_with i o e (put (with_pipe t k) (new_write t k) none) (with_ends ps 0 t k)
                  (k + 1) (es ⊕ (ran c.args i (write_end k) e ∷ [])))))
            (⊕_assoc es (ran c.args i (write_end k) e ∷ [])
              (wired (read_end k) o e (k + 1) (d ∷ cs)))
            (chain-IsSeen sys all_end i o e (d ∷ cs) 0 (some 0) _ _ (k + 1) _ k
              (next-IsOpen ps t k 0 fits) chained (omega (arith, with_ends-length ps 0 t k fits))))
