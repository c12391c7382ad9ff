-- ===== src/Shell/Parser.antt =====
-- `mkCmd`, `mkPipe` and `parse` of parse.c.
pub mod Total
pub mod Reads
pub mod Ends
pub mod Parts
pub mod Loop
pub mod Stages
pub mod Piped
pub mod Accepts
pub mod Missing
pub mod Strays
use osprograms.Base.{
  ℕ, zero, suc, ◌+◌, ◌*◌, true, false, Option, none, some, List, [], ◌∷◌, ◌++◌, ltb, if◌then◌else◌,
  length, Str,
}
use osprograms.Run.{Run, ok, fault, out_of_fuel, Program, pure, and_then, ◌>>=◌, ◌>>◌}
use osprograms.Shell.Token.{
  Token, terror, tamp, tpipe, tsemi, tin, tpipe_err, tnl, tnil, tend, tword, in_cmd, pipe_token,
  cmd_token, end_of_input,
}
use osprograms.Shell.Lexer.{more, next_token}
use osprograms.Shell.Command.{
  Command, PipeType, pout, pout_err, Pipe, mk_word, new_cmd, end_command, is_nil, add_arg,
}

-- `LookAhead` with `Word`, and the input that is not read yet.
pub record Reader : Type 0 where
  pub look_ahead : Token
  pub input : List ℕ

-- A fault is a write past `args`.
abbrev pub Parser : Type 0 → Type 0
Parser A = Program Reader A

-- `Next()`
unfoldable pub advance : Reader → Reader
unfolding next_token
advance r = record { look_ahead = (next_token r.input).0; input = (next_token r.input).1 }

abbrev pub go_next : Parser (Unit {0})
go_next r = ok tt (advance r)

-- `do { Next(); } while (!EndOfInput(LA));`
unfoldable pub skip_to_end : ℕ → Parser (Unit {0})
unfolding advance
skip_to_end zero r = out_of_fuel
skip_to_end (suc fuel) r = elim (end_of_input (advance r).look_ahead) [
  | true ↦ ok tt (advance r)
  | false ↦ skip_to_end fuel (advance r)
]

-- `while (!EndOfInput(LA)) Next();`
unfoldable pub skip_rest : ℕ → Parser (Unit {0})
unfolding advance
skip_rest zero r = out_of_fuel
skip_rest (suc fuel) r = elim (end_of_input r.look_ahead) [
  | true ↦ ok tt r
  | false ↦ skip_rest fuel (advance r)
]

-- `while (CmdToken(LA)) Next();`
unfoldable pub skip_separators : ℕ → Parser (Unit {0})
unfolding advance
skip_separators zero r = out_of_fuel
skip_separators (suc fuel) r = elim (cmd_token r.look_ahead) [
  | true ↦ skip_separators fuel (advance r)
  | false ↦ ok tt r
]

-- An error in a command: the line is skipped, and the function returns NULL.
abbrev pub give_up : {A : Type 0} → ℕ → Parser (Option A)
give_up fuel = do skip_to_end fuel; pure none

-- The word behind a `<` or a `>`, for the name of a file.
unfoldable pub redirect_name : ℕ → Parser (Option Str)
unfolding advance skip_to_end mk_word
redirect_name fuel r = elim (advance r).look_ahead [
  | tword w ↦ ok (some (mk_word w)) (advance (advance r))
  | _ ↦ give_up fuel (advance r)
]

-- The case of an input redirection in the loop of `mkCmd`.
unfoldable pub redirect_input : ℕ → Command → Parser (Option Command)
unfolding redirect_name skip_to_end
redirect_input fuel c = elim (is_nil c.input_from) [
  | false ↦ give_up fuel
  | true ↦ do
    file ← redirect_name fuel
    elim file [
      | none ↦ pure none
      | some w ↦ pure (some (record c { input_from = tin; infile = some w }))
    ]
]

-- The case of an output redirection.
unfoldable pub redirect_output : ℕ → Command → Parser (Option Command)
unfolding redirect_name skip_to_end
redirect_output fuel c r = elim (is_nil c.output_to) [
  | false ↦ give_up fuel r
  | true ↦
      (do
        file ← redirect_name fuel
        elim file [
          | none ↦ pure none
          | some w ↦ pure (some (record c { output_to = r.look_ahead; outfile = some w }))
        ])
        r
]

-- One round of the loop: the `switch` over the token.
unfoldable pub read_part : ℕ → Command → Parser (Option Command)
unfolding redirect_input redirect_output add_arg advance
read_part fuel c r = elim r.look_ahead [
  | tin ↦ redirect_input fuel c r
  | tword w ↦ elim (add_arg w c) [ none ↦ fault | some c' ↦ ok (some c') (advance r) ]
  | _ ↦ redirect_output fuel c r
]

-- `while (InCmd(LA))`; `none` where the function returned.
unfoldable pub read_parts : ℕ → Command → Parser (Option Command)
unfolding read_part
read_parts zero c r = out_of_fuel
read_parts (suc fuel) c r = elim (in_cmd r.look_ahead) [
  | false ↦ ok (some c) r
  | true ↦
      and_then (read_part fuel c r)
        λ part. elim part [ none ↦ pure none | some c' ↦ read_parts fuel c' ]
]

-- What `mkCmd` returns: NULL, `&Empty`, or another command.
pub data MadeCommand : Type 0 where
  no_command empty_command : MadeCommand
  command : Command → MadeCommand

-- `args[nargs] = NULL`
unfoldable pub close_args : Command → Parser MadeCommand
close_args c r = if ltb (length c.args) c.max_args then ok (command c) r else fault

-- The end of `mkCmd`.
unfoldable pub close_cmd : Command → Parser MadeCommand
unfolding close_args advance
close_cmd c r = elim r.look_ahead [
  | terror ↦ ok no_command r
  | tsemi ↦ close_args c (advance r)
  | tamp ↦ close_args (record c { exec = tamp }) (advance r)
  | _ ↦ close_args c r
]

-- The part of `mkCmd` behind the separators.
unfoldable pub start_cmd : ℕ → Token → Parser MadeCommand
unfolding read_parts close_cmd new_cmd advance
start_cmd fuel source r = elim r.look_ahead [
  | tword w ↦
      (do
        go_next
        c ← read_parts fuel (record (new_cmd w) { input_from = source })
        elim c [ none ↦ pure no_command | some c' ↦ close_cmd c' ])
        r
  | tend ↦ ok (command end_command) r
  | tnl ↦ ok empty_command r
  | terror ↦ ok empty_command r
  | _ ↦ ok no_command r
]

unfoldable pub mk_cmd : ℕ → Token → Parser MadeCommand
unfolding skip_separators start_cmd
mk_cmd fuel source = do skip_separators fuel; start_cmd fuel source

abbrev pub pipe_type : Token → PipeType
pipe_type tpipe_err = pout_err
pipe_type _ = pout

abbrev pub pipe_of : PipeType → Token
pipe_of pout = tpipe
pipe_of pout_err = tpipe_err

-- `while (PipeToken(LA))` of `mkPipe`; `c` is the last command, and `before` those ahead of it.
unfoldable pub read_pipe : ℕ → PipeType → List Command → Command → Parser (Option Pipe)
unfolding skip_to_end skip_rest mk_cmd advance
read_pipe zero type before c r = out_of_fuel
read_pipe (suc fuel) type before c r = elim (pipe_token r.look_ahead) [
  | false ↦ ok (some (record { type = type; head = before ++ (c ∷ []) })) r
  | true ↦ elim (is_nil c.output_to) [
    | false ↦ give_up fuel r
    | true ↦
        let type' = pipe_type r.look_ahead in
        let c' : Command = record c { output_to = pipe_of type' } in
        (do
          go_next
          made ← mk_cmd fuel (pipe_of type')
          elim made [
            | command d ↦ read_pipe fuel type' (before ++ (c' ∷ [])) d
            | _ ↦ do skip_rest fuel; pure none
          ])
          r
  ]
]

-- `mkPipe` returns the list of pipes that `next` links, which is NULL for `[]`.
unfoldable mutual
  unfolding mk_cmd read_pipe

  pub mk_pipe : ℕ → Parser (List Pipe)
  mk_pipe zero r = out_of_fuel
  mk_pipe (suc fuel) r = and_then (mk_cmd fuel tnil r) λ made. elim made [
    | command c ↦ λ s. and_then (read_pipe fuel pout [] c s) λ pipe. elim pipe [
      | none ↦ pure []
      | some p ↦ λ t. and_then (read_line fuel [] t) λ later. pure (p ∷ later)
    ]
    | _ ↦ pure []
  ]

  -- `while (!EndOfInput(LA)) { p->next = mkPipe(); if (!p->next) break; }`
  pub read_line : ℕ → List Pipe → Parser (List Pipe)
  read_line zero later r = out_of_fuel
  read_line (suc fuel) later r = elim (end_of_input r.look_ahead) [
    | true ↦ ok later r
    | false ↦
        and_then (mk_pipe fuel r)
          λ more. elim more [ [] ↦ pure [] | p ∷ ps ↦ read_line fuel (p ∷ ps) ]
  ]

-- `parse`, on the input that is left.
unfoldable pub parse : List ℕ → Run Reader (List Pipe)
unfolding mk_pipe advance
parse input = mk_pipe (2 * length input + 2) (advance (record { look_ahead = tnil; input = input }))
