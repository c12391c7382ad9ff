-- ===== src/Shell/Lexer.antt =====
-- `nextToken` of parse.c, on the bytes of the standard input that are not read yet.
pub mod Laws
pub mod Sizes
pub mod Lines
use osprograms.Base.{ℕ, ◌||◌, List, [], ◌∷◌, ◌++◌, leb, ◌==◌, if◌then◌else◌, length, Str}
use osprograms.Shell.Token.{
  Token, terror, tamp, tpipe, tsemi, tin, tout, tapp, tpipe_err, tout_err, tapp_err, tnl, tend,
  tword, buf_size,
}

-- A token and what is left of the input. `ungetc` puts a byte back in front.
abbrev pub Lexed : Type 0
Lexed = Token × List ℕ

-- The cases of the function's two `switch`es. A `char` is signed: from 128 on a byte is below 0, as
-- is the end of the input.
pub data Class : Type 0 where
  negative blank newline amp semi less bar greater quote backslash other : Class

unfoldable pub classify : ℕ → Class
classify c =
    if leb 128 c
    then negative
    else if c == 32 || c == 9
    then blank
    else if c == 10
    then newline
    else if c == b'&'
    then amp
    else if c == b';'
    then semi
    else if c == b'<'
    then less
    else if c == b'|'
    then bar
    else if c == b'>'
    then greater
    else if c == 39 || c == 34
    then quote
    else if c == 92
    then backslash
    else other

-- `while ((c = getchar()) > 0 && c != '\n');`
unfoldable pub skip_line : List ℕ → List ℕ
skip_line [] = []
skip_line (c ∷ cs) = if c == 0 || (leb 128 c || c == 10) then cs else skip_line cs

-- Where the function is when it reads the next character of a word: after a character of it, after
-- a backslash, or between the quotes `q`.
pub data Mode : Type 0 where
  in_word escaped : Mode
  in_string : ℕ → Mode

pub data Progress : Type 0 where
  more : Mode → Str → Progress
  done : Lexed → Progress

-- `*p++ = c`, and the test that the word stays within `Word`.
unfoldable pub store_char : Mode → Str → ℕ → List ℕ → Progress
unfolding skip_line
store_char mode word c cs =
    if leb buf_size (length word) then done (terror, skip_line cs) else more mode (word ++ (c ∷ []))

-- What the function does with the character `c` of a word, before `cs`.
unfoldable pub read_char : Mode → Str → ℕ → List ℕ → Progress
read_char in_word word c cs = elim (classify c) [
  | negative ↦ done (terror, cs)
  | blank ↦ done (tword word, cs)
  | quote ↦ more (in_string c) word
  | backslash ↦ more escaped word
  | other ↦ store_char in_word word c cs
  | _ ↦ done (tword word, c ∷ cs)
]
read_char escaped word c cs = elim (classify c) [
  | negative ↦ done (terror, cs)
  | _ ↦ store_char in_word word c cs
]
read_char (in_string q) word c cs = if c == q then done (tword word, cs) else elim (classify c) [
  | negative ↦ done (terror, cs)
  | newline ↦ done (terror, cs)
  | _ ↦ store_char (in_string q) word c cs
]

-- The loops of a word and of a string. `word` is what `Word` holds before `p`.
unfoldable pub read_word : Mode → Str → List ℕ → Lexed
unfolding read_char
read_word mode word [] = (terror, [])
read_word mode word (c ∷ cs) = elim (read_char mode word c cs) [
  | more mode' word' ↦ read_word mode' word' cs
  | done lexed ↦ lexed
]

-- After a `|`: a `|&` or a `|`.
unfoldable pub after_bar : List ℕ → Lexed
after_bar [] = (terror, [])
after_bar (c ∷ cs) = elim (classify c) [
  | negative ↦ (terror, cs)
  | amp ↦ (tpipe_err, cs)
  | _ ↦ (tpipe, c ∷ cs)
]

-- After a `>>`: a `>>&` or a `>>`.
unfoldable pub after_append : List ℕ → Lexed
after_append [] = (terror, [])
after_append (c ∷ cs) = elim (classify c) [
  | negative ↦ (terror, cs)
  | amp ↦ (tapp_err, cs)
  | _ ↦ (tapp, c ∷ cs)
]

-- After a `>`.
unfoldable pub after_greater : List ℕ → Lexed
unfolding after_append
after_greater [] = (terror, [])
after_greater (c ∷ cs) = elim (classify c) [
  | negative ↦ (terror, cs)
  | greater ↦ after_append cs
  | amp ↦ (tout_err, cs)
  | _ ↦ (tout, c ∷ cs)
]

-- A word and a string begin with the character that was read already.
unfoldable pub next_token : List ℕ → Lexed
unfolding read_word after_bar after_greater
next_token [] = (tend, [])
next_token (c ∷ cs) = elim (classify c) [
  | negative ↦ (tend, cs)
  | blank ↦ next_token cs
  | newline ↦ (tnl, cs)
  | amp ↦ (tamp, cs)
  | semi ↦ (tsemi, cs)
  | less ↦ (tin, cs)
  | bar ↦ after_bar cs
  | greater ↦ after_greater cs
  | _ ↦ read_word in_word [] (c ∷ cs)
]
