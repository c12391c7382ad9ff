-- ===== src/Shell/Tests.antt =====
-- Runs of the shell's parser, and its theorems at small lines.
use osprograms.Base.{
  ℕ, ◌≤◌, ◌<◌, ◌≡◌, refl, true, false, none, some, List, [], ◌∷◌, ◌++◌, map, arith, length, All,
  Str, codes,
}
use osprograms.Run.{Run, ok}
use osprograms.Run.Returns.{Returns}
use osprograms.Shell.Token.{Token, tpipe, tsemi, tin, tout_err, tnl, tword}
use osprograms.Shell.Lexer.{
  classify, store_char, read_char, read_word, after_bar, after_greater, next_token,
}
use osprograms.Shell.Lexer.Lines.{Spells, line_text-Spells}
use osprograms.Shell.Command.{pout, pout_err, Pipe, mk_word, new_cmd, add_arg}
use osprograms.Shell.Print.{line_text, IsPrintable}
use osprograms.Shell.Grammar.{append, final, piped, Job, job_request, pipe_request}
use osprograms.Shell.Grammar.Tokens.{words_then, IsArgument, IsJob}
use osprograms.Shell.Parser.{
  Reader, advance, skip_separators, redirect_name, redirect_input, redirect_output, read_part,
  read_parts, close_args, close_cmd, mk_cmd, read_pipe, mk_pipe, read_line, parse,
}
use osprograms.Shell.Parser.Parts.{at, Reads}
use osprograms.Shell.Parser.Total.{size}
use osprograms.Shell.Parser.Ends.{parse-Returns}
use osprograms.Shell.Parser.Missing.{parse-missing}
use osprograms.Shell.Parser.Strays.{plain, parse-stray}
use osprograms.Shell.RoundTrip.{jobs_text, parse-jobs_text}

heads : Run Reader (List Pipe) → List (List (List Str))
heads (ok ps r) = map (λ p. map (λ c. c.args) p.head) ps
heads _ = []

parse_example :
    heads (parse (codes "ls -l | wc > out & pwd; echo 'a b' c\\ d" ++ (10 ∷ [])))
    ≡ ((codes "ls" ∷ codes "-l" ∷ []) ∷ (codes "wc" ∷ []) ∷ [])
      ∷ ((codes "pwd" ∷ []) ∷ [])
      ∷ ((codes "echo" ∷ codes "a b" ∷ codes "c d" ∷ []) ∷ [])
      ∷ []
unfolding heads parse mk_pipe read_line mk_cmd read_pipe skip_separators read_parts close_cmd
    close_args new_cmd advance next_token classify read_word read_char store_char after_bar
    after_greater mk_word read_part redirect_output redirect_input add_arg redirect_name
parse_example = refl

-- A line and what comes behind it.
abbrev two_lines : List ℕ
two_lines = codes "ls -l > 'a b'" ++ (10 ∷ codes "pwd")

parse-Returns_example : Returns (λ _ t. size t ≤ length two_lines) (parse two_lines)
parse-Returns_example = parse-Returns two_lines

abbrev some_tokens : List Token
some_tokens = tword (codes "a b") ∷ tword [] ∷ tout_err ∷ tword (codes "'x'") ∷ tpipe ∷ []

some_tokens-IsPrintable : All IsPrintable some_tokens
some_tokens-IsPrintable = (
  ((omega arith, (omega arith, (omega arith, tt))), omega arith),
  (
    (tt, omega arith),
    (tt, (((omega arith, (omega arith, (omega arith, tt))), omega arith), (tt, tt))),
  ),
)

line_text-Spells_example :
    Spells (line_text some_tokens ++ codes "z") (some_tokens ++ (tnl ∷ [])) (codes "z")
line_text-Spells_example = line_text-Spells some_tokens (codes "z") some_tokens-IsPrintable

-- `ls | w < in > out & d`
abbrev some_jobs : List Job
some_jobs =
    record {
      source = none;
      chain =
          piped (codes "ls") [] pout_err
            (final (codes "w") (codes "x" ∷ []) (some (append, codes "o")));
      background = true;
    }
    ∷ record { source = some (codes "i"); chain = final (codes "d") [] none; background = false }
    ∷ []

one_letter : (c : ℕ) → 0 < c → c < 128 → IsArgument (c ∷ [])
one_letter c p a = (((a, tt), omega arith), (p, tt))

some_jobs_jobs : All IsJob some_jobs
some_jobs_jobs = (
  (
    tt,
    (
      (((omega arith, (omega arith, tt)), omega arith), (omega arith, (omega arith, tt))),
      tt,
      (
        one_letter _ (omega arith) (omega arith),
        (one_letter _ (omega arith) (omega arith), tt),
        one_letter _ (omega arith) (omega arith),
      ),
    ),
  ),
  (
    (one_letter _ (omega arith) (omega arith), (one_letter _ (omega arith) (omega arith), tt, tt)),
    tt,
  ),
)

parse-jobs_text_example :
    Returns
      (λ ps t. (map pipe_request ps ≡ map job_request some_jobs) × (t ≡ at tnl (codes "z")))
      (parse (jobs_text some_jobs ++ codes "z"))
parse-jobs_text_example = parse-jobs_text some_jobs (codes "z") some_jobs_jobs

-- `cat <`, and then `rm x`.
abbrev missing_file : List ℕ
missing_file = codes "cat a<" ++ (10 ∷ codes "rm x" ++ (10 ∷ codes "z"))

missing_file-Spells :
    Spells missing_file
      (tword (codes "cat")
        ∷ words_then
            (codes "a" ∷ [])
            (tin ∷ tnl ∷ (tword (codes "rm") ∷ tword (codes "x") ∷ [] ++ (tnl ∷ []))))
      (codes "z")
unfolding next_token read_word read_char store_char classify
missing_file-Spells =
    (_, refl, (_, refl, (_, refl, (_, refl, (_, refl, (_, refl, (_, refl, refl)))))))

parse-missing_example : Returns (λ ps t. (ps ≡ []) × (t ≡ at tnl (codes "z"))) (parse missing_file)
parse-missing_example =
    parse-missing (codes "cat") (codes "a" ∷ []) (tword (codes "rm") ∷ tword (codes "x") ∷ [])
      missing_file (codes "z") (omega arith, (omega arith, (omega arith, tt)))
      ((omega arith, tt), tt) (refl, (refl, tt)) missing_file-Spells

-- `a; b; < x`
abbrev stray : List ℕ
stray = codes "a;b;<x" ++ (10 ∷ [])

stray-Spells :
    Spells stray
      (tword (codes "a") ∷ tsemi ∷ tword (codes "b") ∷ tsemi ∷ tin ∷ tword (codes "x") ∷ [])
      (10 ∷ [])
unfolding next_token read_word read_char store_char classify
stray-Spells = (_, refl, (_, refl, (_, refl, (_, refl, (_, refl, (_, refl, refl))))))

parse-stray_example :
    Returns
      (λ ps t.
        (map pipe_request ps ≡ (pout, plain (codes "a") [] ∷ []) ∷ [])
        × Reads (10 ∷ []) (tin ∷ tword (codes "x") ∷ []) t)
      (parse stray)
parse-stray_example =
    parse-stray (codes "a") (codes "b") [] [] (tword (codes "x") ∷ []) stray (10 ∷ [])
      (one_letter _ (omega arith) (omega arith)) tt (one_letter _ (omega arith) (omega arith)) tt
      stray-Spells
