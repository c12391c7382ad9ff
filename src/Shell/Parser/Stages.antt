-- ===== src/Shell/Parser/Stages.antt =====
-- `mkCmd` of parse.c on the commands of a chain.
use osprograms.Base.{ℕ, ◌≡◌, refl, ap, Bool, true, false, Option, none, List, [], ◌∷◌, Str}
use osprograms.Run.Partial.{Partial}
use osprograms.Shell.Token.{Token, tamp, tpipe, tsemi, tpipe_err, tnl, in_cmd}
use osprograms.Shell.Command.{Command, PipeType, pout, pout_err}
use osprograms.Shell.Grammar.{Chain, final, piped, Job, Invocation, invocation, pipe_token_of}
use osprograms.Shell.Grammar.Tokens.{chain_then, separator_then, jobs_then, IsFile, IsChain}
use osprograms.Shell.Parser.{Reader, advance, close_cmd, mk_cmd}
use osprograms.Shell.Parser.Parts.{at, Reads, reads, advance-Reads}
use osprograms.Shell.Parser.Loop.{
  IsInlet, first_stage, behind_first, IsStage, close_args-Partial, mk_cmd-then,
}

module _ (end : List ℕ) (v : Invocation) (rest : List Token) (c : Command) where
  closes_tamp :
      (t : Reader)
      → (invocation c ≡ v) × Reads end (tamp ∷ rest) t
      → Partial (IsStage end (record v { exec = tamp }) rest) (close_cmd c t)
  unfolding close_cmd
  closes_tamp t (e, reads input s) =
      close_args-Partial (record c { exec = tamp }) (advance (at tamp input))
        (
          ap {B = Invocation} (λ (w : Invocation). record w { exec = tamp }) e,
          advance-Reads end rest tamp input s,
        )

  pub closes_tsemi :
      (t : Reader)
      → (invocation c ≡ v) × Reads end (tsemi ∷ rest) t
      → Partial (IsStage end v rest) (close_cmd c t)
  unfolding close_cmd
  closes_tsemi t (e, reads input s) =
      close_args-Partial c (advance (at tsemi input)) (e, advance-Reads end rest tsemi input s)

  closes_tnl :
      (t : Reader)
      → (invocation c ≡ v) × Reads end (tnl ∷ rest) t
      → Partial (IsStage end v (tnl ∷ rest)) (close_cmd c t)
  unfolding close_cmd
  closes_tnl t (e, reads input s) = close_args-Partial c (at tnl input) (e, reads input s)

  closes_pipe :
      (kind : PipeType) (t : Reader)
      → (invocation c ≡ v) × Reads end (pipe_token_of kind ∷ rest) t
      → Partial (IsStage end v (pipe_token_of kind ∷ rest)) (close_cmd c t)
  unfolding close_cmd
  closes_pipe pout t (e, reads input s) = close_args-Partial c (at tpipe input) (e, reads input s)
  closes_pipe pout_err t (e, reads input s) =
      close_args-Partial c (at tpipe_err input) (e, reads input s)

pipe_token-outside : (kind : PipeType) → in_cmd (pipe_token_of kind) ≡ false
pipe_token-outside pout = refl
pipe_token-outside pout_err = refl

pub mk_cmd-IsStage :
    (end : List ℕ) (chain : Chain) (inlet : Token) (file : Option Str) (background : Bool)
    (js : List Job) (fuel : ℕ) (r : Reader)
    → IsInlet inlet file
    → IsFile file
    → IsChain chain
    → Reads end (chain_then file chain (separator_then background js (jobs_then js (tnl ∷ [])))) r
    → Partial
        (IsStage end (first_stage inlet file background chain) (behind_first background js chain))
        (mk_cmd fuel inlet r)
mk_cmd-IsStage end (final name args sink) inlet file true js fuel r free p (n, q, w) s =
    mk_cmd-then end tamp (jobs_then js (tnl ∷ [])) refl inlet file name args sink fuel r free p n q
      w s (λ c t u. closes_tamp end _ (jobs_then js (tnl ∷ [])) c t u)
mk_cmd-IsStage end (final name args sink) inlet file false [] fuel r free p (n, q, w) s =
    mk_cmd-then end tnl [] refl inlet file name args sink fuel r free p n q w s
      (λ c t u. closes_tnl end _ [] c t u)
mk_cmd-IsStage end (final name args sink) inlet file false (j ∷ js) fuel r free p (n, q, w) s =
    mk_cmd-then end tsemi (jobs_then (j ∷ js) (tnl ∷ [])) refl inlet file name args sink fuel r free
      p n q w s (λ c t u. closes_tsemi end _ (jobs_then (j ∷ js) (tnl ∷ [])) c t u)
mk_cmd-IsStage end (piped name args kind later) inlet file background js fuel r free p (n, q, w) s =
    mk_cmd-then end (pipe_token_of kind) _ (pipe_token-outside kind) inlet file name args none fuel
      r free p n q tt s (λ c t u. closes_pipe end _ _ c kind t u)
