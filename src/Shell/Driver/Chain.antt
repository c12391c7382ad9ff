-- ===== src/Shell/Driver/Chain.antt =====
-- The commands of a pipe of main1.c and the pipes between them.
use osprograms.Shell.System.{Effects, System, AllEnd}
use osprograms.Base.{
  ℕ, suc, ◌+◌, ◌*◌, ◌<◌, ◌≡◌, refl, sym, ap, ◌∙◌, true, false, Option, none, some, List, [], ◌∷◌,
  if◌then◌else◌, length, get_elem?,
}
use osprograms.Shell.Token.{tnil}
use osprograms.Shell.Command.{Command}
use osprograms.Shell.Descriptors.{Object, Table, put, slot-put_ne}
use osprograms.Shell.Process.{Process, Going, goes_on, ◌⊕◌, is_pipe, before}
use osprograms.Shell.Driver.{external, choice_of, redirection, pr_commands}
use osprograms.Shell.Driver.Wiring.{
  shell_with, ran, pr_cmd-ran, new_read, new_write, with_pipe, new_apart, slot-new_read, with_ends,
  make_pipe-shell_with,
}
use osprograms.Run.{ok}
use osprograms.Run.Returns.{Returns, returns}
use osprograms.Shell.Driver.Inlets.{with_ends-read, with_ends-write, IsOpen}

pub next-IsOpen :
    (ps : List ℕ) (t : Table) (k id : ℕ)
    → 2 * id + 1 < length ps
    → IsOpen (with_ends ps id t k) (put (with_pipe t k) (new_write t k) none) id k
next-IsOpen ps t k id room = record {
  r = new_read t k;
  w = new_write t k;
  reading = with_ends-read ps id t k room;
  writing = with_ends-write ps id t k room;
  apart = new_apart t k;
  there =
      slot-put_ne (with_pipe t k) (new_write t k) (new_read t k) none (λ q. new_apart t k (sym q))
      ∙ slot-new_read t k;
}

-- The shell goes on, these events are seen, and its settings are these.
abbrev pub IsSeen : Effects → Going → Process → Type 0
IsSeen es going s = (going ≡ goes_on) × (s.effects ≡ es)

-- A round of the loop of `prPipe` for a command with a pipe behind it.
module _ (sys : System) (all_end : AllEnd sys) (current : ℕ) (in_pipe out_pipe : Option ℕ)
    (c d : Command) (cs : List Command) (i o e i' o' e' : Object) (t t' : Table) (ps : List ℕ)
    (k : ℕ) (es : Effects) (external_c : choice_of c.args ≡ external)
    (pipe_behind : is_pipe c.output_to ≡ true) (room : 2 * current + 1 < length ps)
    (inlet : Option ℕ) (taken : (if is_pipe c.input_from then before current else in_pipe) ≡ inlet)
    (redirected : redirection sys c inlet
        (some current)
        (shell_with i o e (with_pipe t k) (with_ends ps current t k) (k + 1) es)
      ≡ ok goes_on (shell_with i' o' e' t' (with_ends ps current t k) (k + 1) es)) where
  pub round_piped :
      {Q : Going → Process → Type 0}
      → Returns Q (
          pr_commands sys (current + 1) inlet (some current) (d ∷ cs) (
            shell_with i o e
              (put (with_pipe t k) (new_write t k) none)
              (with_ends ps current t k)
              (k + 1)
              (es ⊕ (ran c.args i' o' e' ∷ []))))
      → Returns Q
          (pr_commands sys current in_pipe out_pipe (c ∷ d ∷ cs) (shell_with i o e t ps k es))
  unfolding pr_commands
  round_piped later =
      rw
        (
          pr_commands,
          pipe_behind,
          taken,
          make_pipe-shell_with i o e t ps k es current room,
          pr_cmd-ran sys all_end i o e i' o' e' (with_pipe t k) t' (with_ends ps current t k)
              (k + 1) es c inlet current redirected (new_write t k) false external_c
              (with_ends-write ps current t k room),
        )
        later

module _ (sys : System) (all_end : AllEnd sys) (current : ℕ) (in_pipe : Option ℕ) (id : ℕ)
    (c : Command) (i o e i' : Object) (t t' : Table) (ps : List ℕ) (k : ℕ) (es : Effects)
    (external_c : choice_of c.args ≡ external) (out : c.output_to ≡ tnil) (inlet : Option ℕ)
    (taken : (if is_pipe c.input_from then before current else in_pipe) ≡ inlet)
    (redirected : redirection sys c inlet (some id) (shell_with i o e t ps k es)
      ≡ ok goes_on (shell_with i' o e t' ps k es)) where
  pub round_last :
      (w : ℕ)
      → get_elem? ps (2 * id + 1) ≡ some (suc (suc (suc w)))
      → Returns
          (IsSeen (es ⊕ (ran c.args i' o e ∷ [])))
          (pr_commands sys current in_pipe (some id) (c ∷ []) (shell_with i o e t ps k es))
  unfolding pr_commands
  round_last w writing =
      let no_pipe : is_pipe c.output_to ≡ false = ap is_pipe out in
      rw
        (
          pr_commands,
          no_pipe,
          taken,
          pr_cmd-ran sys all_end i o e i' o e t t' ps k es c inlet id redirected w true external_c
              writing,
        )
        (returns (refl, refl))
