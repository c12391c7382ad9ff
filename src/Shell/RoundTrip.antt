-- ===== src/Shell/RoundTrip.antt =====
-- The parser of parse.c and a printer of lines.
use osprograms.Base.{
  ℕ, ◌≡◌, refl, subst, Bool, true, false, Option, none, some, List, [], ◌∷◌, ◌++◌, map, All, Str,
}
use osprograms.Run.Returns.{Returns}
use osprograms.Shell.Token.{Token, tnl}
use osprograms.Shell.Command.{PipeType, pout, pout_err}
use osprograms.Shell.Print.{line_text, IsPrintable}
use osprograms.Shell.Grammar.{
  Redirect, write, write_err, append, append_err, Chain, final, piped, Job, sink_file,
  pipe_token_of, job_request, pipe_request,
}
use osprograms.Shell.Grammar.Tokens.{
  words_then, source_then, sink_then, chain_then, separator_then, jobs_then, IsArgument, IsFile,
  IsChain, IsJob,
}
use osprograms.Shell.Lexer.Lines.{Spells, line_text-Spells}
use osprograms.Shell.Parser.{parse}
use osprograms.Shell.Parser.Parts.{at}
use osprograms.Shell.Parser.Accepts.{parse-jobs}

-- The line of some jobs.
abbrev pub jobs_text : List Job → Str
jobs_text js = line_text (jobs_then js [])

-- The tokens of a part, with all that has a text behind it.
module _ (rest : List Token) (printable : All IsPrintable rest) where
  words-IsPrintable : (ws : List Str) → All IsArgument ws → All IsPrintable (words_then ws rest)
  words-IsPrintable [] p = printable
  words-IsPrintable (w ∷ ws) (p, ps) = (p.0, words-IsPrintable ws ps)

  source-IsPrintable : (file : Option Str) → IsFile file → All IsPrintable (source_then file rest)
  source-IsPrintable none p = printable
  source-IsPrintable (some f) p = (tt, (p.0, printable))

  sink-IsPrintable :
      (sink : Option (Redirect × Str))
      → IsFile (sink_file sink)
      → All IsPrintable (sink_then sink rest)
  sink-IsPrintable none p = printable
  sink-IsPrintable (some (write, f)) p = (tt, (p.0, printable))
  sink-IsPrintable (some (write_err, f)) p = (tt, (p.0, printable))
  sink-IsPrintable (some (append, f)) p = (tt, (p.0, printable))
  sink-IsPrintable (some (append_err, f)) p = (tt, (p.0, printable))

  pipe-IsPrintable : (kind : PipeType) → All IsPrintable (pipe_token_of kind ∷ rest)
  pipe-IsPrintable pout = (tt, printable)
  pipe-IsPrintable pout_err = (tt, printable)

  separator-IsPrintable :
      (background : Bool) (js : List Job) → All IsPrintable (separator_then background js rest)
  separator-IsPrintable true js = (tt, printable)
  separator-IsPrintable false [] = printable
  separator-IsPrintable false (j ∷ js) = (tt, printable)

chain-IsPrintable :
    (file : Option Str) (chain : Chain) (rest : List Token)
    → All IsPrintable rest
    → IsFile file
    → IsChain chain
    → All IsPrintable (chain_then file chain rest)
chain-IsPrintable file (final name args sink) rest r f (p, q, s) =
    (p.0, words-IsPrintable _ (source-IsPrintable _ (sink-IsPrintable rest r sink s) file f) args q)
chain-IsPrintable file (piped name args kind later) rest r f (p, q, s) =
    let behind = chain-IsPrintable none later rest r tt s in
    (p.0, words-IsPrintable _ (source-IsPrintable _ (pipe-IsPrintable _ behind kind) file f) args q)

jobs-IsPrintable : (js : List Job) → All IsJob js → All IsPrintable (jobs_then js [])
jobs-IsPrintable [] p = tt
jobs-IsPrintable (j ∷ js) ((f, c), ps) =
    chain-IsPrintable j.source j.chain _
      (separator-IsPrintable _ (jobs-IsPrintable js ps) j.background js) f c

words_snoc :
    (ws : List Str) (rest end : List Token)
    → words_then ws rest ++ end ≡ words_then ws (rest ++ end)
words_snoc [] rest end = refl
words_snoc (w ∷ ws) rest end = rw (words_snoc ws rest end) refl

source_snoc :
    (file : Option Str) (rest end : List Token)
    → source_then file rest ++ end ≡ source_then file (rest ++ end)
source_snoc none rest end = refl
source_snoc (some f) rest end = refl

sink_snoc :
    (sink : Option (Redirect × Str)) (rest end : List Token)
    → sink_then sink rest ++ end ≡ sink_then sink (rest ++ end)
sink_snoc none rest end = refl
sink_snoc (some (k, f)) rest end = refl

chain_snoc :
    (file : Option Str) (chain : Chain) (rest end : List Token)
    → chain_then file chain rest ++ end ≡ chain_then file chain (rest ++ end)
chain_snoc file (final name args sink) rest end =
    rw
      (
        words_snoc args (source_then file (sink_then sink rest)) end,
        source_snoc file (sink_then sink rest) end,
        sink_snoc sink rest end,
      )
      refl
chain_snoc file (piped name args kind later) rest end =
    rw
      (
        words_snoc args (source_then file (pipe_token_of kind ∷ chain_then none later rest)) end,
        source_snoc file (pipe_token_of kind ∷ chain_then none later rest) end,
        chain_snoc none later rest end,
      )
      refl

separator_snoc :
    (background : Bool) (js : List Job) (rest end : List Token)
    → separator_then background js rest ++ end ≡ separator_then background js (rest ++ end)
separator_snoc true js rest end = refl
separator_snoc false [] rest end = refl
separator_snoc false (j ∷ js) rest end = refl

jobs_snoc :
    (js : List Job) (rest end : List Token) → jobs_then js rest ++ end ≡ jobs_then js (rest ++ end)
jobs_snoc [] rest end = refl
jobs_snoc (j ∷ js) rest end =
    rw
      (
        chain_snoc j.source j.chain (separator_then j.background js (jobs_then js rest)) end,
        separator_snoc j.background js (jobs_then js rest) end,
        jobs_snoc js rest end,
      )
      refl

-- The text of jobs whose words have no NUL and fit in a token, with anything behind its newline, is
-- parsed to a pipe for each job, with the commands that the job asks for, and what is behind it is
-- left.
pub parse-jobs_text :
    (js : List Job) (behind : List ℕ)
    → All IsJob js
    → Returns
        (λ ps t. (map pipe_request ps ≡ map job_request js) × (t ≡ at tnl behind))
        (parse (jobs_text js ++ behind))
parse-jobs_text js behind p = parse-jobs js (jobs_text js ++ behind) behind p (
    subst (λ ts. Spells (jobs_text js ++ behind) ts behind) (jobs_snoc js [] (tnl ∷ []))
      (line_text-Spells (jobs_then js []) behind (jobs-IsPrintable js p)))
