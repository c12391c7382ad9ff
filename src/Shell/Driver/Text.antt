-- ===== src/Shell/Driver/Text.antt =====
-- The parser of parse.c and the driver of main1.c together.
use osprograms.Shell.System.{Event, Effects, System, AllEnd}
use osprograms.Base.{
  ℕ, suc, ◌+◌, ◌*◌, ◌≤◌, ◌≡◌, refl, ap, ◌∙◌, Bool, none, some, List, [], ◌∷◌, ◌++◌, map, arith,
  length, Str,
}
use osprograms.Shell.Process.{◌⊕◌}
use osprograms.Run.Returns
use osprograms.Shell.Token.{Token, tpipe, tnl, tnil}
use osprograms.Shell.Command.{Command, pout, pout_err, Pipe}
use osprograms.Shell.Grammar.{
  Chain, final, piped, Job, Invocation, invocation, invocations, Request, job_request, pipe_request,
}
use osprograms.Shell.Descriptors.{Object, read_end, write_end, Table}
use osprograms.Shell.Driver.{external, choice_of, pr_pipes}
use osprograms.Shell.Driver.Wiring.{shell_with, ran}
use osprograms.Shell.Driver.Chain.{IsSeen}
use osprograms.Shell.Driver.Inlets.{IsChained, wired}
use osprograms.Run.Returns.{Returns, mono}
use osprograms.Shell.Driver.Wired.{pr_pipes-IsSeen}
use osprograms.Shell.Grammar.Tokens.{IsJob}
use osprograms.Shell.Parser.Parts.{at}
use osprograms.Shell.Parser.{parse}
use osprograms.Shell.RoundTrip.{jobs_text, parse-jobs_text}

-- A chain of commands that are no built-in ones, joined by `|`, with no files.
abbrev pub IsExternal : Chain → Type 0
IsExternal (final name args none) = choice_of (name ∷ args) ≡ external
IsExternal (final name args (some sink)) = ⊥
IsExternal (piped name args pout later) = (choice_of (name ∷ args) ≡ external) × IsExternal later
IsExternal (piped name args pout_err later) = ⊥

-- What has run, by the chain alone: each command reads from the pipe before it.
abbrev pub chain_events : Object → Object → Object → ℕ → Chain → List Event
chain_events i o e k (final name args sink) = ran (name ∷ args) i o e ∷ []
chain_events i o e k (piped name args kind later) =
    ran (name ∷ args) i (write_end k) e ∷ chain_events (read_end k) o e (k + 1) later

abbrev pub links : Chain → ℕ
links (final name args sink) = 0
links (piped name args kind later) = suc (links later)

-- The commands of a chain are chained, and run as the chain says.
abbrev IsRun : Object → Object → Object → ℕ → Token → Chain → List Command → Type 0
IsRun i o e k inlet chain cs =
    IsChained inlet cs
    × (wired i o e k cs ≡ chain_events i o e k chain)
    × (length cs ≡ suc (links chain))

first_or : Invocation → List Invocation → Invocation
first_or v [] = v
first_or v (w ∷ ws) = w

rest_of : List Invocation → List Invocation
rest_of [] = []
rest_of (w ∷ ws) = ws

stages_of : List Request → List Invocation
stages_of [] = []
stages_of (r ∷ rs) = r.1

joined-IsRun :
    (i o e : Object) (k : ℕ) (inlet : Token) (c : Command) (cs : List Command) (name : Str)
    (args : List Str) (later : Chain)
    → choice_of c.args ≡ external
    → c.input_from ≡ inlet
    → c.output_to ≡ tpipe
    → c.args ≡ name ∷ args
    → IsRun (read_end k) o e (k + 1) tpipe later cs
    → IsRun i o e k inlet (piped name args pout later) (c ∷ cs)
joined-IsRun i o e k inlet c [] name args later ext inp out same (chained, _, _) = absurd chained
joined-IsRun i o e k inlet c (d ∷ cs) name args later ext inp out same (chained, events, size) =
    (((ext, inp, out), chained), rw (events, same) refl, omega (arith, size))

commands-IsRun :
    (i o e : Object) (k : ℕ) (background : Bool) (chain : Chain) (inlet : Token) (cs : List Command)
    → IsExternal chain
    → map invocation cs ≡ invocations inlet none background chain
    → IsRun i o e k inlet chain cs
unfolding first_or rest_of
commands-IsRun i o e k b (final name args (some sink)) inlet cs x q = absurd x
commands-IsRun i o e k b (final name args none) inlet [] x q = absurd (omega (arith, ap length q))
commands-IsRun i o e k b (final name args none) inlet (c ∷ []) x q =
    let head = ap (first_or (invocation c)) q in
    let same : c.args ≡ name ∷ args = ap (λ v. v.args) head in
    (
      (ap choice_of same ∙ x, ap (λ v. v.input_from) head, ap (λ v. v.output_to) head),
      ap (λ ws. ran ws i o e ∷ []) same,
      refl,
    )
commands-IsRun i o e k b (final name args none) inlet (c ∷ d ∷ cs) x q =
    absurd (omega (arith, ap length q))
commands-IsRun i o e k b (piped name args pout_err later) inlet cs x q = absurd x
commands-IsRun i o e k b (piped name args pout later) inlet [] x q =
    absurd (omega (arith, ap length q))
commands-IsRun i o e k b (piped name args pout later) inlet (c ∷ cs) (x, xs) q =
    let head = ap (first_or (invocation c)) q in
    let same : c.args ≡ name ∷ args = ap (λ v. v.args) head in
    joined-IsRun i o e k inlet c cs name args later (ap choice_of same ∙ x)
      (ap (λ v. v.input_from) head) (ap (λ v. v.output_to) head) same
      (commands-IsRun (read_end k) o e (k + 1) b later tpipe cs xs (ap rest_of q))

module _ (sys : System) (all_end : AllEnd sys) (i o e : Object) (j : Job) (t : Table)
    (slots : List ℕ) (k : ℕ) (es : Effects) (external_j : IsExternal j.chain)
    (no_file : j.source ≡ none) (some_pipe : 1 ≤ links j.chain)
    (room : 2 * links j.chain ≤ length slots) where
  pipe_runs :
      (p : Pipe) (cs : List Command)
      → p.head ≡ cs
      → map invocation cs ≡ invocations tnil none j.background j.chain
      → Returns
          (IsSeen (es ⊕ chain_events i o e k j.chain))
          (pr_pipes sys (p ∷ []) (shell_with i o e t slots k es))
  pipe_runs p [] head q =
      let run = commands-IsRun i o e k j.background j.chain tnil [] external_j q in absurd run.0
  pipe_runs p (c ∷ []) head q =
      let run = commands-IsRun i o e k j.background j.chain tnil (c ∷ []) external_j q in
      absurd (omega (arith, run.2))
  pipe_runs p (c ∷ d ∷ cs) head q =
      let (chained, events, size) =
        commands-IsRun i o e k j.background j.chain tnil (c ∷ d ∷ cs) external_j q in
      rw⁻¹ (events)
        (pr_pipes-IsSeen sys all_end i o e p c d cs t slots k es head chained (omega (arith, size)))

  pipes_run :
      (ps : List Pipe)
      → map pipe_request ps ≡ map job_request (j ∷ [])
      → Returns
          (IsSeen (es ⊕ chain_events i o e k j.chain))
          (pr_pipes sys ps (shell_with i o e t slots k es))
  unfolding stages_of
  pipes_run [] q = absurd (omega (arith, ap length q))
  pipes_run (p ∷ p' ∷ ps) q = absurd (omega (arith, ap length q))
  pipes_run (p ∷ []) q =
      pipe_runs p p.head refl
        (ap stages_of q ∙ ap (λ f. invocations tnil f j.background j.chain) no_file)

  -- A printed job of at least two commands that are no built-in ones, joined by `|` and with no files,
  -- whose words fit in a token and have no NUL, in a shell with its descriptors 0, 1 and 2 open and room
  -- for the pipes: `parse` returns behind the line's newline, and `prPipe` of what it returns goes on,
  -- and each command of the job has run, reading what the one before it writes.
  pub pr_pipes-parse :
      (behind : List ℕ)
      → IsJob j
      → Returns
          (λ ps r.
            (r ≡ at tnl behind)
            × Returns
                (IsSeen (es ⊕ chain_events i o e k j.chain))
                (pr_pipes sys ps (shell_with i o e t slots k es)))
          (parse (jobs_text (j ∷ []) ++ behind))
  pr_pipes-parse behind p =
      Returns.mono (parse-jobs_text (j ∷ []) behind (p, tt))
        (λ ps r (requests, at_end). (at_end, pipes_run ps requests))
