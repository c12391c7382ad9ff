-- ===== src/Shell/Command.antt =====
-- The structures of parse.h and the functions of parse.c that fill them.
use osprograms.Base.{
  ℕ, ◌+◌, Bool, true, false, Option, none, some, List, [], ◌∷◌, ◌++◌, ltb, ◌==◌, if◌then◌else◌,
  length, Str, codes,
}
use osprograms.Shell.Token.{Token, tsemi, tnil}

-- `struct cmd_t`; `nargs` is the length of `args`, and a pipe is the list that `next` links.
pub record Command : Type 0 where
  pub exec : Token
  pub input_from : Token
  pub output_to : Token
  pub infile : Option Str
  pub outfile : Option Str
  pub max_args : ℕ
  pub args : List Str

-- `Ptype`
pub data PipeType : Type 0 where
  pout pout_err : PipeType

-- `struct pipe_t`
pub record Pipe : Type 0 where
  pub type : PipeType
  pub head : List Command

-- `mkWord`: the copy of a C string ends before its first NUL.
unfoldable pub mk_word : Str → Str
mk_word [] = []
mk_word (c ∷ cs) = let rest = mk_word cs in if c == 0 then [] else c ∷ rest

unfoldable pub new_cmd : Str → Command
unfolding mk_word
new_cmd cmd = record {
  exec = tsemi;
  input_from = tnil;
  output_to = tnil;
  infile = none;
  outfile = none;
  max_args = 4;
  args = mk_word cmd ∷ [];
}

-- The static `End`.
abbrev pub end_command : Command
end_command = record {
  exec = tnil;
  input_from = tnil;
  output_to = tnil;
  infile = some [];
  outfile = some [];
  max_args = 1;
  args = codes "end" ∷ [];
}

abbrev pub is_nil : Token → Bool
is_nil tnil = true
is_nil _ = false

-- The doubling of `maxargs` before an argument is added.
abbrev pub enlarged : Command → ℕ
enlarged c = if ltb c.max_args (length c.args + 2) then c.max_args + c.max_args else c.max_args

-- `args[nargs++] = mkWord(Word)`; `none` is a write past the array.
unfoldable pub add_arg : Str → Command → Option Command
unfolding mk_word
add_arg word c =
    if ltb (length c.args) (enlarged c)
    then some (record c { max_args = enlarged c; args = c.args ++ (mk_word word ∷ []) })
    else none
