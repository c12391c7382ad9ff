-- ===== src/Shell/Parser/Accepts.antt =====
-- `mkPipe` and `parse` of parse.c on the lines of the grammar.
use osprograms.Base.{
  ℕ, zero, suc, ◌+◌, ◌*◌, ◌≡◌, refl, ap, Option, none, some, List, [], ◌∷◌, map, length, All, Str,
}
use osprograms.Run.Partial.{Partial, gives, starves, both, then_Partial}
use osprograms.Shell.Token.{tnl, tnil}
use osprograms.Shell.Command.{pout, Pipe}
use osprograms.Shell.Grammar.{Job, job_request, pipe_request}
use osprograms.Shell.Grammar.Tokens.{jobs_then, IsJob}
use osprograms.Shell.Parser.{
  Reader, Parser, skip_separators, MadeCommand, no_command, empty_command, command, start_cmd,
  mk_cmd, read_pipe, mk_pipe, read_line, parse,
}
use osprograms.Shell.Parser.Parts.{at, Reads, reads, advance-Reads}
use osprograms.Shell.Parser.Stages.{mk_cmd-IsStage}
use osprograms.Run.{pure, and_then}
use osprograms.Shell.Lexer.Lines.{Spells}
use osprograms.Run.Returns
use osprograms.Run.Returns.{Returns, mono}
use osprograms.Shell.Parser.Ends.{parse-Returns}
use osprograms.Shell.Parser.Piped.{chain_first, IsPiped, read_pipe-IsPiped}
use osprograms.Shell.Parser.Loop.{IsInlet, first_stage, behind_first, IsStage}

-- What `mkPipe` makes of the jobs of a line.
abbrev IsLine : List ℕ → List Job → List Pipe → Reader → Type 0
IsLine end js ps t = (map pipe_request ps ≡ map job_request js) × Reads end (tnl ∷ []) t

read_line-end :
    (end : List ℕ) (js : List Job) (fuel : ℕ) (ps : List Pipe) (t : Reader)
    → IsLine end js ps t
    → Partial (IsLine end js) (read_line fuel ps t)
unfolding read_line
read_line-end end js zero ps t s = starves
read_line-end end js (suc fuel) ps t (e, reads input s) = gives (e, reads input s)

more_jobs :
    (end : List ℕ) (js : List Job) (fuel : ℕ) (ps : List Pipe) (t : Reader)
    → IsLine end js ps t
    → Partial (IsLine end js) (
        (elim ps as (λ _. Parser (List Pipe)) [ [] ↦ pure [] | p ∷ ps' ↦ read_line fuel (p ∷ ps') ])
          t)
more_jobs end js fuel [] t u = gives u
more_jobs end js fuel (p ∷ ps) t u = read_line-end end js fuel (p ∷ ps) t u

module _ (end : List ℕ) (fuel : ℕ) (j : Job) (js : List Job)
    (ih : (t : Reader)
      → Reads end (jobs_then js (tnl ∷ [])) t
      → Partial (IsLine end js) (read_line fuel [] t)) where
  joined :
      (o : Option Pipe) (t : Reader)
      → IsPiped end js (job_request j) o t
      → Partial (IsLine end (j ∷ js)) (
          (elim o as (λ _. Parser (List Pipe)) [
            | none ↦ pure []
            | some p ↦ λ t. and_then (read_line fuel [] t) λ later. pure (p ∷ later)
          ])
            t)
  joined none t u = absurd u
  joined (some p) t (e, s) = then_Partial (ih t s) λ ps u (es, v). gives (rw (e, es) refl, v)

  made-IsLine :
      IsJob j
      → (made : MadeCommand) (t : Reader)
      → IsStage end
          (first_stage tnil j.source j.background j.chain)
          (behind_first j.background js j.chain)
          made
          t
      → Partial (IsLine end (j ∷ js)) (
          (elim made as (λ _. Parser (List Pipe)) [
            | command c ↦ λ s. and_then (read_pipe fuel pout [] c s) λ pipe. elim pipe [
              | none ↦ pure []
              | some p ↦ λ t. and_then (read_line fuel [] t) λ later. pure (p ∷ later)
            ]
            | _ ↦ pure []
          ])
            t)
  made-IsLine p no_command t u = absurd u
  made-IsLine p empty_command t u = absurd u
  made-IsLine p (command c) t (e, s) =
      then_Partial
        (read_pipe-IsPiped end j.background js j.chain tnil j.source fuel pout [] c t p.1 e s)
        joined

tnil_IsInlet : (file : Option Str) → IsInlet tnil file
tnil_IsInlet none = tt
tnil_IsInlet (some f) = refl

empty-IsLine :
    (end : List ℕ) (fuel : ℕ) (t : Reader)
    → Reads end (tnl ∷ []) t
    → Partial (IsLine end []) (mk_pipe (suc fuel) t)
unfolding mk_pipe mk_cmd skip_separators start_cmd
empty-IsLine end zero t s = starves
empty-IsLine end (suc fuel) t (reads input s) = gives (refl, reads input s)

mutual
  unfolding mk_pipe read_line

  mk_pipe-IsLine :
      (end : List ℕ) (fuel : ℕ) (js : List Job) (t : Reader)
      → All IsJob js
      → Reads end (jobs_then js (tnl ∷ [])) t
      → Partial (IsLine end js) (mk_pipe fuel t)
  mk_pipe-IsLine end zero js t p s = starves
  mk_pipe-IsLine end (suc fuel) [] t p s = empty-IsLine end fuel t s
  mk_pipe-IsLine end (suc fuel) (j ∷ js) t (p, ps) s =
      then_Partial
        (mk_cmd-IsStage end j.chain tnil j.source j.background js fuel t (tnil_IsInlet j.source) p.0
          p.1 s)
        (made-IsLine end fuel j js (λ u v. read_line-IsLine end fuel js u ps v) p)

  read_line-IsLine :
      (end : List ℕ) (fuel : ℕ) (js : List Job) (t : Reader)
      → All IsJob js
      → Reads end (jobs_then js (tnl ∷ [])) t
      → Partial (IsLine end js) (read_line fuel [] t)
  read_line-IsLine end zero js t p s = starves
  read_line-IsLine end (suc fuel) [] t p s = read_line-end end [] (suc fuel) [] t (refl, s)
  read_line-IsLine end (suc fuel) (j ∷ js) t p s =
      let on = (chain_first end j.source j.chain _ t s).1 in
      rw (read_line, on)
        (then_Partial (mk_pipe-IsLine end fuel (j ∷ js) t p s)
          (λ ps u v. more_jobs end (j ∷ js) fuel ps u v))

-- Where the lexer reads the tokens of jobs and a newline from the input, `parse` returns a pipe for
-- each job, with the commands that the job asks for, and stops behind the newline.
pub parse-jobs :
    (js : List Job) (input end : List ℕ)
    → All IsJob js
    → Spells input (jobs_then js (tnl ∷ [])) end
    → Returns (λ ps t. (map pipe_request ps ≡ map job_request js) × (t ≡ at tnl end)) (parse input)
unfolding parse
parse-jobs js input end p s =
    Returns.mono
      (both (parse-Returns input) (
        mk_pipe-IsLine end (2 * length input + 2) js _ p
          (advance-Reads end (jobs_then js (tnl ∷ [])) tnil input s)))
      λ ps t (e, u). (e, at_end u)
  where
    at_end : {t : Reader} → Reads end (tnl ∷ []) t → t ≡ at tnl end
    at_end (reads rest e) = ap (at tnl) e
