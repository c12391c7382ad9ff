-- ===== src/Shell/Grammar/Tokens.antt =====
-- The tokens of a line of jobs, each function with the tokens that follow.
use osprograms.Base.{◌<◌, Bool, true, false, Option, none, some, List, [], ◌∷◌, All, Str}
use osprograms.Shell.Token.{Token, tamp, tsemi, tin, tword}
use osprograms.Shell.Print.{IsWord}
use osprograms.Shell.Grammar.{
  Redirect, Chain, final, piped, Job, redirect_token, sink_file, pipe_token_of,
}

abbrev pub words_then : List Str → List Token → List Token
words_then [] rest = rest
words_then (w ∷ ws) rest = tword w ∷ words_then ws rest

abbrev pub source_then : Option Str → List Token → List Token
source_then none rest = rest
source_then (some f) rest = tin ∷ tword f ∷ rest

abbrev pub sink_then : Option (Redirect × Str) → List Token → List Token
sink_then none rest = rest
sink_then (some (k, f)) rest = redirect_token k ∷ tword f ∷ rest

abbrev pub chain_then : Option Str → Chain → List Token → List Token
chain_then file (final name args sink) rest =
    tword name ∷ words_then args (source_then file (sink_then sink rest))
chain_then file (piped name args kind later) rest =
    tword name
    ∷ words_then args (source_then file (pipe_token_of kind ∷ chain_then none later rest))

-- A `;` goes between two jobs, and a `&` behind a background job.
abbrev pub separator_then : Bool → List Job → List Token → List Token
separator_then true js rest = tamp ∷ rest
separator_then false [] rest = rest
separator_then false (j ∷ js) rest = tsemi ∷ rest

abbrev pub jobs_then : List Job → List Token → List Token
jobs_then [] rest = rest
jobs_then (j ∷ js) rest =
    chain_then j.source j.chain (separator_then j.background js (jobs_then js rest))

-- A word that the lexer can hold, without a NUL.
abbrev pub IsArgument : Str → Type 0
IsArgument w = IsWord w × All (λ c. 0 < c) w

abbrev pub IsFile : Option Str → Type 0
IsFile none = Unit
IsFile (some f) = IsArgument f

abbrev pub IsChain : Chain → Type 0
IsChain (final name args sink) = IsArgument name × All IsArgument args × IsFile (sink_file sink)
IsChain (piped name args kind later) = IsArgument name × All IsArgument args × IsChain later

abbrev pub IsJob : Job → Type 0
IsJob j = IsFile j.source × IsChain j.chain
