-- ===== src/Shell/Parser/Parts.antt =====
-- `mkCmd` of parse.c on the tokens that a command of the grammar has.
use osprograms.Base.{
  ℕ, zero, suc, ◌<◌, ◌≡◌, refl, sym, subst, Bool, true, false, Option, none, some, List, [], ◌∷◌,
  ◌++◌, append-nil, append_assoc, arith, ltb, ◌==◌, length, All, Str,
}
use osprograms.Run.Partial.{Partial, gives, faults, starves, then_Partial}
use osprograms.Shell.Token.{Token, tin, tnil, tword, in_cmd}
use osprograms.Shell.Lexer.Lines.{Spells}
use osprograms.Shell.Command.{Command, mk_word, enlarged, add_arg}
use osprograms.Shell.Grammar.Tokens.{words_then}
use osprograms.Shell.Parser.{
  Reader, Parser, advance, redirect_name, redirect_input, redirect_output, read_part, read_parts,
}
use osprograms.Shell.Lexer.{next_token}
use osprograms.Shell.Grammar.{Redirect, write, write_err, append, append_err, redirect_token}
use osprograms.Run.{pure}

abbrev pub at : Token → List ℕ → Reader
at k input = record { look_ahead = k; input = input }

-- The tokens from the look-ahead on, before `end`.
pub data Reads (end : List ℕ) : List Token → Reader → Type 0 where
  reads :
      {k : Token} {ts : List Token} (input : List ℕ)
      → Spells input ts end
      → Reads end (k ∷ ts) (at k input)
  passed : {r : Reader} → Reads end [] r

pub advance-Reads :
    (end : List ℕ) (ts : List Token) (k : Token) (input : List ℕ)
    → Spells input ts end
    → Reads end ts (advance (at k input))
unfolding advance
advance-Reads end [] k input s = passed
advance-Reads end (t ∷ ts) k input (rest, e, s) = rw (advance, e) (reads rest s)

abbrev pub IsClean : Str → Type 0
IsClean w = All (λ c. 0 < c) w

pub mk_word-clean : (w : Str) → IsClean w → mk_word w ≡ w
unfolding mk_word
mk_word-clean [] p = refl
mk_word-clean (c ∷ w) (p, q) =
    let positive : (c == 0) ≡ false = ground arith in rw (mk_word, positive, mk_word-clean w q) refl

pub advance_to :
    (k t : Token) (input rest : List ℕ)
    → next_token input ≡ (t, rest)
    → advance (at k input) ≡ at t rest
unfolding advance
advance_to k t input rest e = rw (advance, e) refl

pub redirect_name-word :
    (fuel : ℕ) (end : List ℕ) (f : Str) (ts : List Token) (k : Token) (input : List ℕ)
    → IsClean f
    → Spells input (tword f ∷ ts) end
    → Partial (λ o t. (o ≡ some f) × Reads end ts t) (redirect_name fuel (at k input))
unfolding redirect_name advance
redirect_name-word fuel end f ts k input p (rest, e, s) =
    rw (redirect_name, advance, e, mk_word-clean f p)
      (gives (
        refl,
        subst (λ r. Reads end ts (advance r)) (sym (advance_to k (tword f) input rest e))
            (advance-Reads end ts (tword f) rest s),
      ))

abbrev pub cmd : Token → Token → Token → Option Str → Option Str → ℕ → List Str → Command
cmd e i o f g m words = record {
  exec = e;
  input_from = i;
  output_to = o;
  infile = f;
  outfile = g;
  max_args = m;
  args = words;
}

in_cmd_redirect : (k : Redirect) → in_cmd (redirect_token k) ≡ true
in_cmd_redirect write = refl
in_cmd_redirect write_err = refl
in_cmd_redirect append = refl
in_cmd_redirect append_err = refl

is_redirect :
    {P : Option Command → Reader → Type 0} (k : Redirect) (fuel : ℕ) (c : Command) (input : List ℕ)
    → Partial P (redirect_output fuel c (at (redirect_token k) input))
    → Partial P (read_part fuel c (at (redirect_token k) input))
unfolding read_part
is_redirect write fuel c input p = p
is_redirect write_err fuel c input p = p
is_redirect append fuel c input p = p
is_redirect append_err fuel c input p = p

module _ (end : List ℕ) (rest : List Token) (e i o : Token) (f g : Option Str) where
  took_source :
      (fuel m : ℕ) (w : Str) (words : List Str) (r : Reader)
      → Partial (λ file t. (file ≡ some w) × Reads end rest t) (redirect_name fuel r)
      → Partial
          (λ part t. (part ≡ some (cmd e tin o (some w) g m words)) × Reads end rest t)
          (redirect_input fuel (cmd e tnil o none g m words) r)
  unfolding redirect_input
  took_source fuel m w words r part = then_Partial part goes_on
    where
      goes_on :
          (file : Option Str) (t : Reader)
          → (file ≡ some w) × Reads end rest t
          → Partial
              (λ part t. (part ≡ some (cmd e tin o (some w) g m words)) × Reads end rest t)
              ((elim file as (λ _. Parser (Option Command)) [
                | none ↦ pure none
                | some v ↦ pure (
                    some
                      (record (cmd e tnil o none g m words) { input_from = tin; infile = some v }))
              ])
                t)
      goes_on file t (same, u) = rw same (gives (refl, u))

  took_sink :
      (k : Redirect) (fuel m : ℕ) (w : Str) (words : List Str) (input : List ℕ)
      → Partial
          (λ file t. (file ≡ some w) × Reads end rest t)
          (redirect_name fuel (at (redirect_token k) input))
      → Partial
          (λ part t.
            (part ≡ some (cmd e i (redirect_token k) f (some w) m words)) × Reads end rest t)
          (redirect_output fuel (cmd e i tnil f none m words) (at (redirect_token k) input))
  unfolding redirect_output
  took_sink k fuel m w words input part = then_Partial part goes_on
    where
      goes_on :
          (file : Option Str) (t : Reader)
          → (file ≡ some w) × Reads end rest t
          → Partial
              (λ part t.
                (part ≡ some (cmd e i (redirect_token k) f (some w) m words)) × Reads end rest t)
              ((elim file as (λ _. Parser (Option Command)) [
                | none ↦ pure none
                | some v ↦ pure (
                    some (record (cmd e i tnil f none m words) {
                      output_to = redirect_token k;
                      outfile = some v;
                    }))
              ])
                t)
      goes_on file t (same, u) = rw same (gives (refl, u))

module _ {P : Option Command → Reader → Type 0} (end : List ℕ) (rest : List Token) where
  word_part :
      (w : Str) (c : Command) (fuel : ℕ) (input : List ℕ)
      → ((m : ℕ) (r : Reader)
          → Reads end rest r
          → Partial P
              (read_parts fuel (record c { max_args = m; args = c.args ++ (mk_word w ∷ []) }) r))
      → Spells input rest end
      → Partial P (read_parts (suc fuel) c (at (tword w) input))
  unfolding read_parts read_part add_arg
  word_part w c fuel input later s = by_room _ refl
    where
      by_room :
          (b : Bool)
          → ltb (length c.args) (enlarged c) ≡ b
          → Partial P (read_parts (suc fuel) c (at (tword w) input))
      by_room true e =
          rw (read_parts, read_part, add_arg, e)
            (later _ _ (advance-Reads end rest (tword w) input s))
      by_room false e = rw (read_parts, read_part, add_arg, e) faults

  -- A round of the loop that changes the command to `d`.
  part_round :
      (fuel : ℕ) (c d : Command) (r : Reader)
      → in_cmd r.look_ahead ≡ true
      → Partial (λ part t. (part ≡ some d) × Reads end rest t) (read_part fuel c r)
      → ((t : Reader) → Reads end rest t → Partial P (read_parts fuel d t))
      → Partial P (read_parts (suc fuel) c r)
  unfolding read_parts
  part_round fuel c d r on part later =
      rw (read_parts, on) (then_Partial part (λ o t (e, u). rw e (later t u)))

module _ {P : Option Command → Reader → Type 0} (end : List ℕ) (rest : List Token) (e i o : Token)
    (f g : Option Str) where
  pub words_part :
      (ws words : List Str)
      → All IsClean ws
      → ((fuel m : ℕ) (r : Reader)
          → Reads end rest r
          → Partial P (read_parts fuel (cmd e i o f g m (words ++ ws)) r))
      → (fuel m : ℕ) (r : Reader) → Reads end (words_then ws rest) r
      → Partial P (read_parts fuel (cmd e i o f g m words) r)
  unfolding read_parts
  words_part [] words p later fuel m r s =
      subst (λ z. Partial P (read_parts fuel (cmd e i o f g m z) r)) (append-nil words)
        (later fuel m r s)
  words_part (w ∷ ws) words (p, ps) later zero m r s = starves
  words_part (w ∷ ws) words (p, ps) later (suc fuel) m r (reads input s) =
      word_part end (words_then ws rest) w (cmd e i o f g m words) fuel input
        (λ m' r' s'. rw (mk_word-clean w p) (
          words_part ws (words ++ (w ∷ [])) ps
            (λ fuel' n t u. rw (append_assoc words (w ∷ []) ws) (later fuel' n t u)) fuel m' r' s'))
        s

  pub source_part :
      (w : Str) (words : List Str)
      → IsClean w
      → ((fuel m : ℕ) (r : Reader)
          → Reads end rest r
          → Partial P (read_parts fuel (cmd e tin o (some w) g m words) r))
      → (fuel m : ℕ) (r : Reader) → Reads end (tin ∷ tword w ∷ rest) r
      → Partial P (read_parts fuel (cmd e tnil o none g m words) r)
  unfolding read_parts read_part
  source_part w words p later zero m r s = starves
  source_part w words p later (suc fuel) m r (reads input s) =
      part_round end rest fuel (cmd e tnil o none g m words) (cmd e tin o (some w) g m words)
        (at tin input) refl
        (took_source end rest e i o f g fuel m w words (at tin input)
          (redirect_name-word fuel end w rest tin input p s))
        (later fuel m)

  pub sink_part :
      (k : Redirect) (w : Str) (words : List Str)
      → IsClean w
      → ((fuel m : ℕ) (r : Reader)
          → Reads end rest r
          → Partial P (read_parts fuel (cmd e i (redirect_token k) f (some w) m words) r))
      → (fuel m : ℕ) (r : Reader) → Reads end (redirect_token k ∷ tword w ∷ rest) r
      → Partial P (read_parts fuel (cmd e i tnil f none m words) r)
  unfolding read_parts
  sink_part k w words p later zero m r s = starves
  sink_part k w words p later (suc fuel) m r (reads input s) =
      part_round end rest fuel (cmd e i tnil f none m words)
        (cmd e i (redirect_token k) f (some w) m words) (at (redirect_token k) input)
        (in_cmd_redirect k)
        (is_redirect k fuel (cmd e i tnil f none m words) input (
          took_sink end rest e i o f g k fuel m w words input
            (redirect_name-word fuel end w rest (redirect_token k) input p s)))
        (later fuel m)
