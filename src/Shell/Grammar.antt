-- ===== src/Shell/Grammar.antt =====
-- The lines that the shell is meant to accept, what they ask for, and their tokens: a description
-- that does not follow parse.c.
pub mod Tokens
use osprograms.Base.{Bool, true, false, Option, none, some, List, [], ◌∷◌, map, Str}
use osprograms.Shell.Token.{
  Token, tamp, tpipe, tsemi, tin, tout, tapp, tpipe_err, tout_err, tapp_err, tnil,
}
use osprograms.Shell.Command.{Command, PipeType, pout, pout_err, Pipe}

pub data Redirect : Type 0 where
  write write_err append append_err : Redirect

-- Commands joined by pipes: their words, and where the last one's output goes.
pub data Chain : Type 0 where
  final : Str → List Str → Option (Redirect × Str) → Chain
  piped : Str → List Str → PipeType → Chain → Chain

pub record Job : Type 0 where
  pub source : Option Str
  pub chain : Chain
  pub background : Bool

-- What a command asks for: the fields of the structure, but for the room of its array.
pub record Invocation : Type 0 where
  pub exec : Token
  pub input_from : Token
  pub output_to : Token
  pub infile : Option Str
  pub outfile : Option Str
  pub args : List Str

abbrev pub invocation : Command → Invocation
invocation c = record {
  exec = c.exec;
  input_from = c.input_from;
  output_to = c.output_to;
  infile = c.infile;
  outfile = c.outfile;
  args = c.args;
}

abbrev pub redirect_token : Redirect → Token
redirect_token write = tout
redirect_token write_err = tout_err
redirect_token append = tapp
redirect_token append_err = tapp_err

abbrev pub sink_token : Option (Redirect × Str) → Token
sink_token none = tnil
sink_token (some (k, f)) = redirect_token k

abbrev pub sink_file : Option (Redirect × Str) → Option Str
sink_file none = none
sink_file (some (k, f)) = some f

-- A file for the input goes before a pipe's end.
abbrev pub source_token : Token → Option Str → Token
source_token inlet none = inlet
source_token inlet (some f) = tin

abbrev pub end_token : Bool → Token
end_token true = tamp
end_token false = tsemi

abbrev pub pipe_token_of : PipeType → Token
pipe_token_of pout = tpipe
pipe_token_of pout_err = tpipe_err

-- The commands of a chain. Only the last one is marked as a background command.
abbrev pub invocations : Token → Option Str → Bool → Chain → List Invocation
invocations inlet file background (final name args sink) =
    record {
      exec = end_token background;
      input_from = source_token inlet file;
      output_to = sink_token sink;
      infile = file;
      outfile = sink_file sink;
      args = name ∷ args;
    }
    ∷ []
invocations inlet file background (piped name args kind later) =
    record {
      exec = tsemi;
      input_from = source_token inlet file;
      output_to = pipe_token_of kind;
      infile = file;
      outfile = none;
      args = name ∷ args;
    }
    ∷ invocations (pipe_token_of kind) none background later

-- The kind of a pipe is that of its last link.
abbrev pub chain_type : PipeType → Chain → PipeType
chain_type type (final name args sink) = type
chain_type type (piped name args kind later) = chain_type kind later

abbrev pub Request : Type 0
Request = PipeType × List Invocation

abbrev pub job_request : Job → Request
job_request j = (chain_type pout j.chain, invocations tnil j.source j.background j.chain)

abbrev pub pipe_request : Pipe → Request
pipe_request p = (p.type, map invocation p.head)
