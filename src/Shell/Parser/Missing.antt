-- ===== src/Shell/Parser/Missing.antt =====
-- What `parse` of parse.c makes of a line that ends where the name of a file should be.
use osprograms.Base.{
  ℕ, zero, suc, ◌+◌, ◌*◌, ◌≡◌, refl, sym, ap, ◌∙◌, subst, false, Option, none, some, List, [], ◌∷◌,
  ◌++◌, length, All, Str,
}
use osprograms.Run.{pure, and_then}
use osprograms.Run.Returns.{Returns}
use osprograms.Run.Partial.{Partial, gives, starves, both, then_Partial}
use osprograms.Shell.Token.{Token, tsemi, tin, tnl, tnil, tword, end_of_input}
use osprograms.Shell.Command.{Command, pout, Pipe, mk_word, new_cmd}
use osprograms.Shell.Grammar.Tokens.{words_then}
use osprograms.Shell.Lexer.Lines.{Spells}
use osprograms.Shell.Parser.{
  Reader, Parser, advance, skip_to_end, skip_separators, redirect_name, redirect_input, read_part,
  read_parts, MadeCommand, no_command, command, close_cmd, start_cmd, mk_cmd, read_pipe, mk_pipe,
  read_line, parse,
}
use osprograms.Shell.Parser.Parts.{
  at, Reads, reads, advance-Reads, IsClean, advance_to, cmd, words_part,
}
use osprograms.Shell.Parser.Ends.{parse-Returns}

-- A line's rest is skipped, and its newline.
abbrev pub IsSkipped : List Token → Type 0
IsSkipped ts = All (λ t. end_of_input t ≡ false) ts

skips :
    (end : List ℕ) (fuel : ℕ) (ts : List Token) (k : Token) (input : List ℕ)
    → IsSkipped ts
    → Spells input (ts ++ (tnl ∷ [])) end
    → Partial (λ _ t. t ≡ at tnl end) (skip_to_end fuel (at k input))
unfolding skip_to_end advance
skips end zero ts k input p s = starves
skips end (suc fuel) [] k input p (rest, e, s) =
    rw (skip_to_end, advance, e) (gives (advance_to k tnl input rest e ∙ ap (at tnl) s))
skips end (suc fuel) (t ∷ ts) k input (p, ps) (rest, e, s) =
    rw (skip_to_end, advance, e, p)
      (subst (λ r. Partial (λ _ t. t ≡ at tnl end) (skip_to_end fuel r))
        (sym (advance_to k t input rest e)) (skips end fuel ts t rest ps s))

-- Nothing comes of the line.
abbrev IsLost : List ℕ → {A : Type 0} → Option A → Reader → Type 0
IsLost end o t = (o ≡ none) × (t ≡ at tnl end)

abbrev IsNothing : List ℕ → List Pipe → Reader → Type 0
IsNothing end ps t = (ps ≡ []) × (t ≡ at tnl end)

module _ (end : List ℕ) (ts : List Token) (skipped : IsSkipped ts) where
  redirect_name-missing :
      (fuel : ℕ) (k : Token) (input : List ℕ)
      → Spells input (tnl ∷ (ts ++ (tnl ∷ []))) end
      → Partial (IsLost end) (redirect_name fuel (at k input))
  unfolding redirect_name advance
  redirect_name-missing fuel k input (rest, e, s) =
      rw (redirect_name, advance, e)
        (then_Partial
          (subst (λ r. Partial (λ _ t. t ≡ at tnl end) (skip_to_end fuel r))
            (sym (advance_to k tnl input rest e)) (skips end fuel ts tnl rest skipped s))
          (λ _ t q. gives (refl, q)))

  without_file :
      (c : Command) (file : Option Str) (t : Reader)
      → IsLost end file t
      → Partial (IsLost end) (
          (elim file as (λ _. Parser (Option Command)) [
            | none ↦ pure none
            | some w ↦ pure (some (record c { input_from = tin; infile = some w }))
          ])
            t)
  without_file c file t (e, q) = rw e (gives (refl, q))

  part_missing :
      (fuel m : ℕ) (words : List Str) (r : Reader)
      → Reads end (tin ∷ tnl ∷ (ts ++ (tnl ∷ []))) r
      → Partial (IsLost end) (read_parts fuel (cmd tsemi tnil tnil none none m words) r)
  unfolding read_parts read_part redirect_input
  part_missing zero m words r s = starves
  part_missing (suc fuel) m words r (reads input s) =
      then_Partial
        (then_Partial (redirect_name-missing fuel tin input s)
          (without_file (cmd tsemi tnil tnil none none m words)))
        lost
    where
      lost :
          (part : Option Command) (t : Reader)
          → IsLost end part t
          → Partial (IsLost end) (
              (elim part as (λ _. Parser (Option Command)) [
                | none ↦ pure none
                | some c ↦ read_parts fuel c
              ])
                t)
      lost part t (e, q) = rw e (gives (refl, q))

  cmd_missing :
      (name : Str) (args : List Str) (fuel : ℕ) (r : Reader)
      → IsClean name
      → All IsClean args
      → Reads end (tword name ∷ words_then args (tin ∷ tnl ∷ (ts ++ (tnl ∷ [])))) r
      → Partial (λ made t. (made ≡ no_command) × (t ≡ at tnl end)) (mk_cmd fuel tnil r)
  unfolding mk_cmd skip_separators start_cmd new_cmd
  cmd_missing name args zero r p q s = starves
  cmd_missing name args (suc fuel) r p q (reads input s) =
      then_Partial
        (words_part end (tin ∷ tnl ∷ (ts ++ (tnl ∷ []))) tsemi tnil tnil none none args
          (mk_word name ∷ []) q (λ fuel' m t u. part_missing fuel' m _ t u) (suc fuel) 4 _
          (advance-Reads end _ (tword name) input s))
        lost
    where
      lost :
          (part : Option Command) (t : Reader)
          → IsLost end part t
          → Partial
              (λ made t. (made ≡ no_command) × (t ≡ at tnl end))
              ((elim part as (λ _. Parser MadeCommand) [
                | none ↦ pure no_command
                | some c ↦ close_cmd c
              ])
                t)
      lost part t (e, q) = rw e (gives (refl, q))

-- What `mkPipe` does with the first command.
abbrev pub made_first : ℕ → MadeCommand → Parser (List Pipe)
made_first fuel made = elim made [
  | command c ↦ λ s. and_then (read_pipe fuel pout [] c s) λ pipe. elim pipe [
    | none ↦ pure []
    | some p ↦ λ t. and_then (read_line fuel [] t) λ later. pure (p ∷ later)
  ]
  | _ ↦ pure []
]

module _ {P : MadeCommand → Reader → Type 0} {Q : List Pipe → Reader → Type 0} where
  pub mk_pipe-first :
      (fuel : ℕ) (r : Reader)
      → ((fuel' : ℕ) → Partial P (mk_cmd fuel' tnil r))
      → ((fuel' : ℕ) (made : MadeCommand) (t : Reader)
          → P made t
          → Partial Q (made_first fuel' made t))
      → Partial Q (mk_pipe fuel r)
  unfolding mk_pipe
  mk_pipe-first zero r first later = starves
  mk_pipe-first (suc fuel) r first later = then_Partial (first fuel) (later fuel)

-- A `<` at the end of a line whose first command has words without a NUL takes the next line with it,
-- where that line has no error: nothing
-- is returned, and the input is left behind the newline of the second line.
pub parse-missing :
    (name : Str) (args : List Str) (ts : List Token) (input end : List ℕ)
    → IsClean name
    → All IsClean args
    → IsSkipped ts
    → Spells input (tword name ∷ words_then args (tin ∷ tnl ∷ (ts ++ (tnl ∷ [])))) end
    → Returns (λ ps t. (ps ≡ []) × (t ≡ at tnl end)) (parse input)
unfolding parse
parse-missing name args ts input end p q skipped s = both (parse-Returns input) (
    mk_pipe-first (2 * length input + 2) _
      (λ fuel. cmd_missing end ts skipped name args fuel _ p q (advance-Reads end _ tnil input s))
      nothing)
  where
    nothing :
        (fuel : ℕ) (made : MadeCommand) (t : Reader)
        → (made ≡ no_command) × (t ≡ at tnl end)
        → Partial (IsNothing end) (made_first fuel made t)
    nothing fuel made t (e, u) = rw e (gives (refl, u))
