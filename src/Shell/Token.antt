-- ===== src/Shell/Token.antt =====
-- The tokens of parse.h and the macros of parse.c that sort them.
use osprograms.Base.{ℕ, Bool, true, false, Str}

-- `Token`, and the static buffer `Word`, which is valid when the token is a word.
pub data Token : Type 0 where
  terror tamp tpipe tsemi tin tout tapp tpipe_err tout_err tapp_err tnl tnil tend : Token
  tword : Str → Token

-- `BUF_SIZE`, the most characters of a word.
abbrev pub buf_size : ℕ
buf_size = 63

-- `InCmd`
abbrev pub in_cmd : Token → Bool
in_cmd (tword w) = true
in_cmd tin = true
in_cmd tout = true
in_cmd tapp = true
in_cmd tout_err = true
in_cmd tapp_err = true
in_cmd _ = false

-- `PipeToken`
abbrev pub pipe_token : Token → Bool
pipe_token tpipe = true
pipe_token tpipe_err = true
pipe_token _ = false

-- `CmdToken`
abbrev pub cmd_token : Token → Bool
cmd_token tsemi = true
cmd_token tamp = true
cmd_token _ = false

-- `EndOfInput`
abbrev pub end_of_input : Token → Bool
end_of_input tend = true
end_of_input tnl = true
end_of_input terror = true
end_of_input _ = false
