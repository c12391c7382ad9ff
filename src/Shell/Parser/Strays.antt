-- ===== src/Shell/Parser/Strays.antt =====
-- What `parse` of parse.c makes of a line with a `<` where a command should begin.
use osprograms.Base.{
  ℕ, zero, suc, ◌+◌, ◌*◌, ◌≡◌, refl, ap, false, none, List, [], ◌∷◌, map, arith, length, All, Str,
}
use osprograms.Run.{pure}
use osprograms.Run.Returns.{Returns}
use osprograms.Run.Partial.{Partial, gives, starves, both, then_Partial}
use osprograms.Shell.Token.{Token, tsemi, tin, tnil, tword, pipe_token}
use osprograms.Shell.Command.{pout, Pipe}
use osprograms.Shell.Grammar.{Invocation, invocation, Request, pipe_request}
use osprograms.Shell.Grammar.Tokens.{words_then, IsArgument}
use osprograms.Shell.Lexer.Lines.{Spells}
use osprograms.Shell.Parser.{
  Reader, Parser, skip_separators, MadeCommand, no_command, empty_command, command, start_cmd,
  mk_cmd, read_pipe, mk_pipe, read_line, parse,
}
use osprograms.Shell.Parser.Parts.{at, Reads, reads, advance-Reads, cmd}
use osprograms.Shell.Parser.Stages.{closes_tsemi}
use osprograms.Shell.Parser.Loop.{IsStage, mk_cmd-then}
use osprograms.Shell.Parser.Ends.{parse-Returns}
use osprograms.Shell.Parser.Missing.{made_first, mk_pipe-first}

-- What a command with nothing but words asks for.
abbrev pub plain : Str → List Str → Invocation
plain name args = invocation (cmd tsemi tnil tnil none none 0 (name ∷ args))

module _ (end : List ℕ) (ts : List Token) where
  -- The pipes for some requests, with the look-ahead at the `<`.
  abbrev IsStopped : List Request → List Pipe → Reader → Type 0
  IsStopped requests ps t = (map pipe_request ps ≡ requests) × Reads end (tin ∷ ts) t

  mk_pipe-stray :
      (fuel : ℕ) (t : Reader) → Reads end (tin ∷ ts) t → Partial (IsStopped []) (mk_pipe fuel t)
  unfolding mk_pipe mk_cmd skip_separators start_cmd
  mk_pipe-stray zero t s = starves
  mk_pipe-stray (suc zero) t s = starves
  mk_pipe-stray (suc (suc fuel)) t (reads input s) = gives (refl, reads input s)

  stray_more :
      (fuel : ℕ) (ps : List Pipe) (t : Reader)
      → IsStopped [] ps t
      → Partial (IsStopped []) (
          (elim ps as (λ _. Parser (List Pipe)) [
            | [] ↦ pure []
            | p ∷ ps' ↦ read_line fuel (p ∷ ps')
          ])
            t)
  stray_more fuel [] t u = gives u
  stray_more fuel (p ∷ ps) t (e, u) = absurd (omega (arith, ap length e))

  read_line-stray :
      (fuel : ℕ) (later : List Pipe) (t : Reader)
      → Reads end (tin ∷ ts) t
      → Partial (IsStopped []) (read_line fuel later t)
  unfolding read_line
  read_line-stray zero later t s = starves
  read_line-stray (suc fuel) later t (reads input s) =
      then_Partial (mk_pipe-stray fuel (at tin input) (reads input s)) (stray_more fuel)

  -- The loop of `mkPipe` goes on at the `<`, and forgets the pipes that it has.
  read_on :
      (requests : List Request) (fuel : ℕ) (ps : List Pipe) (t : Reader)
      → IsStopped requests ps t
      → Partial (IsStopped []) (
          (elim ps as (λ _. Parser (List Pipe)) [
            | [] ↦ pure []
            | p ∷ ps' ↦ read_line fuel (p ∷ ps')
          ])
            t)
  read_on requests fuel [] t (e, u) = gives (refl, u)
  read_on requests fuel (p ∷ ps) t (e, u) = read_line-stray fuel (p ∷ ps) t u

  module _ (name : Str) (args : List Str) (rest : List Token) (n : IsArgument name)
      (q : All IsArgument args)
      (no_pipe : (t : Reader) → Reads end rest t → pipe_token t.look_ahead ≡ false)
      (forgets : (fuel : ℕ) (t : Reader)
        → Reads end rest t
        → Partial (IsStopped []) (read_line fuel [] t)) where
    plain_line :
        (fuel : ℕ) (made : MadeCommand) (t : Reader)
        → IsStage end (plain name args) rest made t
        → Partial (IsStopped ((pout, plain name args ∷ []) ∷ [])) (made_first fuel made t)
    unfolding read_pipe
    plain_line fuel no_command t u = absurd u
    plain_line fuel empty_command t u = absurd u
    plain_line zero (command c) t u = starves
    plain_line (suc fuel) (command c) t (e, s) =
        rw (read_pipe, no_pipe t s)
          (then_Partial (forgets (suc fuel) t s) (λ ps u (es, v). gives (rw (e, es) refl, v)))

    mk_pipe-plain :
        (fuel : ℕ) (t : Reader)
        → Reads end (tword name ∷ words_then args (tsemi ∷ rest)) t
        → Partial (IsStopped ((pout, plain name args ∷ []) ∷ [])) (mk_pipe fuel t)
    mk_pipe-plain fuel t s =
        mk_pipe-first fuel t
          (λ fuel'.
            mk_cmd-then end tsemi rest refl tnil none name args none fuel' t tt tt n q tt s
              (λ c u v. closes_tsemi end _ rest c u v))
          plain_line

two_jobs :
    (end : List ℕ) (ts : List Token) (name : Str) (args : List Str) (n : IsArgument name)
    (q : All IsArgument args) (fuel : ℕ) (t : Reader)
    → Reads end (tword name ∷ words_then args (tsemi ∷ tin ∷ ts)) t
    → Partial (IsStopped end ts []) (read_line fuel [] t)
unfolding read_line
two_jobs end ts name args n q zero t s = starves
two_jobs end ts name args n q (suc fuel) t (reads input s) =
    then_Partial
      (mk_pipe-plain end ts name args (tin ∷ ts) n q not_pipe
        (λ fuel' t' u. read_line-stray end ts fuel' [] t' u) fuel _ (reads input s))
      (read_on end ts _ fuel)
  where
    not_pipe : (t : Reader) → Reads end (tin ∷ ts) t → pipe_token t.look_ahead ≡ false
    not_pipe t (reads rest u) = refl

-- Of two commands of words without a NUL that fit in a token, with a `;` behind each and then a `<`, only the first one is returned, and the
-- look-ahead stays at the `<`: the second command is lost.
pub parse-stray :
    (first second : Str) (args args' : List Str) (ts : List Token) (input end : List ℕ)
    → IsArgument first
    → All IsArgument args
    → IsArgument second
    → All IsArgument args'
    → Spells input
        (tword first ∷ words_then args (tsemi ∷ tword second ∷ words_then args' (tsemi ∷ tin ∷ ts)))
        end
    → Returns
        (λ ps t.
          (map pipe_request ps ≡ (pout, plain first args ∷ []) ∷ []) × Reads end (tin ∷ ts) t)
        (parse input)
unfolding parse
parse-stray first second args args' ts input end f p g q s = both (parse-Returns input) (
    mk_pipe-plain end ts first args (tword second ∷ words_then args' (tsemi ∷ tin ∷ ts)) f p
      not_pipe (λ fuel t u. two_jobs end ts second args' g q fuel t u) (2 * length input + 2) _
      (advance-Reads end _ tnil input s))
  where
    not_pipe :
        (t : Reader)
        → Reads end (tword second ∷ words_then args' (tsemi ∷ tin ∷ ts)) t
        → pipe_token t.look_ahead ≡ false
    not_pipe t (reads rest u) = refl
