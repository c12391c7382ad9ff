-- ===== src/Shell/Parser/Piped.antt =====
-- `mkPipe` of parse.c on the commands of a chain.
use osprograms.Base.{
  ℕ, zero, suc, ◌≡◌, refl, sym, ap, ◌∙◌, subst, Bool, true, false, Option, none, some, List, [],
  ◌∷◌, ◌++◌, map, map-append, append-nil, append_assoc, Str,
}
use osprograms.Run.Partial.{Partial, gives, starves, then_Partial}
use osprograms.Shell.Token.{Token, tnl, pipe_token, end_of_input}
use osprograms.Shell.Command.{Command, PipeType, pout, pout_err, Pipe, is_nil}
use osprograms.Shell.Grammar.{
  Chain, final, piped, Job, Invocation, invocation, pipe_token_of, invocations, chain_type, Request,
  pipe_request,
}
use osprograms.Shell.Grammar.Tokens.{chain_then, separator_then, jobs_then, IsChain}
use osprograms.Shell.Parser.{
  Reader, Parser, advance, skip_rest, MadeCommand, no_command, empty_command, command, mk_cmd,
  read_pipe,
}
use osprograms.Shell.Parser.Parts.{at, Reads, reads, advance-Reads}
use osprograms.Shell.Parser.Stages.{mk_cmd-IsStage}
use osprograms.Run.{pure, ◌>>◌}
use osprograms.Shell.Parser.Loop.{first_stage, behind_first, IsStage}

-- A word is neither a pipe nor the end of the line.
pub chain_first :
    (end : List ℕ) (file : Option Str) (chain : Chain) (rest : List Token) (t : Reader)
    → Reads end (chain_then file chain rest) t
    → (pipe_token t.look_ahead ≡ false) × (end_of_input t.look_ahead ≡ false)
chain_first end file (final name args sink) rest t (reads input s) = (refl, refl)
chain_first end file (piped name args kind later) rest t (reads input s) = (refl, refl)

jobs_first :
    (end : List ℕ) (js : List Job) (t : Reader)
    → Reads end (jobs_then js (tnl ∷ [])) t
    → pipe_token t.look_ahead ≡ false
jobs_first end [] t (reads input s) = refl
jobs_first end (j ∷ js) t s = (chain_first end j.source j.chain _ t s).0

-- The rest of a round of the loop of `mkPipe`.
abbrev next_stage : ℕ → PipeType → List Command → Command → MadeCommand → Parser (Option Pipe)
next_stage fuel kind before c made = elim made [
  | command d ↦ read_pipe fuel kind (before ++ (c ∷ [])) d
  | _ ↦ do skip_rest fuel; pure none
]

read_pipe-next_stage :
    {P : MadeCommand → Reader → Type 0} {Q : Option Pipe → Reader → Type 0} (kind : PipeType)
    (fuel : ℕ) (type : PipeType) (before : List Command) (c : Command) (input : List ℕ)
    → is_nil c.output_to ≡ true
    → Partial P (mk_cmd fuel (pipe_token_of kind) (advance (at (pipe_token_of kind) input)))
    → ((made : MadeCommand) (t : Reader)
        → P made t
        → Partial Q
            (next_stage fuel kind before (record c { output_to = pipe_token_of kind }) made t))
    → Partial Q (read_pipe (suc fuel) type before c (at (pipe_token_of kind) input))
unfolding read_pipe
read_pipe-next_stage pout fuel type before c input e p later =
    rw (read_pipe, e) (then_Partial p later)
read_pipe-next_stage pout_err fuel type before c input e p later =
    rw (read_pipe, e) (then_Partial p later)

-- A pipe of the chain, and the reader behind it.
abbrev pub IsPiped : List ℕ → List Job → Request → Option Pipe → Reader → Type 0
IsPiped end js request none t = ⊥
IsPiped end js request (some p) t =
    (pipe_request p ≡ request) × Reads end (jobs_then js (tnl ∷ [])) t

-- The last command goes behind those before it.
invocations_snoc :
    (before : List Command) (c : Command) (v : Invocation) (vs : List Invocation)
    → invocation c ≡ v
    → map invocation (before ++ (c ∷ [])) ++ vs ≡ map invocation before ++ (v ∷ vs)
invocations_snoc before c v vs e =
    rw
      (
        map-append invocation before (c ∷ []),
        append_assoc (map invocation before) (invocation c ∷ []) vs,
        e,
      )
      refl

module _ (end : List ℕ) (background : Bool) (js : List Job) where
  abbrev later_tokens : List Token
  later_tokens = separator_then background js (jobs_then js (tnl ∷ []))

  made_pipe :
      (fuel : ℕ) (kind : PipeType) (later : Chain) (before : List Command) (v : Invocation)
      (c : Command)
      → invocation c ≡ v
      → ((d : Command) (t : Reader)
          → invocation d ≡ first_stage (pipe_token_of kind) none background later
          → Reads end (behind_first background js later) t
          → Partial
              (IsPiped end js (
                chain_type kind later,
                map invocation (before ++ (c ∷ []))
                    ++ invocations (pipe_token_of kind) none background later,
              ))
              (read_pipe fuel kind (before ++ (c ∷ [])) d t))
      → (made : MadeCommand) (t : Reader)
      → IsStage end
          (first_stage (pipe_token_of kind) none background later)
          (behind_first background js later)
          made
          t
      → Partial
          (IsPiped end js (
            chain_type kind later,
            map invocation before ++ (v ∷ invocations (pipe_token_of kind) none background later),
          ))
          (next_stage fuel kind before c made t)
  made_pipe fuel kind later before v c same ih (command d) t (e, s) =
      subst
        (λ vs.
          Partial (IsPiped end js (chain_type kind later, vs))
            (read_pipe fuel kind (before ++ (c ∷ [])) d t))
        (invocations_snoc before c v _ same) (ih d t e s)
  made_pipe fuel kind later before v c same ih no_command t u = absurd u
  made_pipe fuel kind later before v c same ih empty_command t u = absurd u

  pub read_pipe-IsPiped :
      (chain : Chain) (inlet : Token) (file : Option Str) (fuel : ℕ) (type : PipeType)
      (before : List Command) (c : Command) (t : Reader)
      → IsChain chain
      → invocation c ≡ first_stage inlet file background chain
      → Reads end (behind_first background js chain) t
      → Partial
          (IsPiped end js (
            chain_type type chain,
            map invocation before ++ invocations inlet file background chain,
          ))
          (read_pipe fuel type before c t)
  unfolding read_pipe
  read_pipe-IsPiped chain inlet file zero type before c t p e s = starves
  read_pipe-IsPiped (final name args sink) inlet file (suc fuel) type before c t p e s =
      let same = invocations_snoc before c _ [] e in
      rw (read_pipe, jobs_first end js t s)
        (gives (ap (λ vs. (type, vs)) (sym (append-nil _) ∙ same), s))
  read_pipe-IsPiped (piped name args kind later) inlet file (suc fuel) type before c t (_, _, p) e
        (reads input s) =
      let free : is_nil c.output_to ≡ true = ap (λ (v : Invocation). is_nil v.output_to) e in
      read_pipe-next_stage kind fuel type before c input free
        (mk_cmd-IsStage end later (pipe_token_of kind) none background js fuel _ tt tt p
          (advance-Reads end _ (pipe_token_of kind) input s))
        (made_pipe fuel kind later before _ (record c { output_to = pipe_token_of kind })
          (ap {B = Invocation} (λ (v : Invocation). record v { output_to = pipe_token_of kind }) e)
          (λ d t q u. read_pipe-IsPiped later (pipe_token_of kind) none fuel kind _ d t p q u))
