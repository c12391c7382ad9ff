-- ===== src/Shell/Print.antt =====
-- A text for each token, which the lexer of parse.c reads back: an independent description of what
-- a line means.
use osprograms.Base.{ℕ, ◌≤◌, ◌<◌, List, [], ◌∷◌, ◌++◌, length, All, Str, codes}
use osprograms.Shell.Token.{
  Token, terror, tamp, tpipe, tsemi, tin, tout, tapp, tpipe_err, tout_err, tapp_err, tnl, tnil,
  tend, tword, buf_size,
}
use osprograms.Shell.Lexer.{other, classify}

-- A character of a word, with a backslash where it would mean something else.
unfoldable pub char_text : ℕ → Str
char_text c = elim (classify c) [ other ↦ c ∷ [] | _ ↦ 92 ∷ c ∷ [] ]

abbrev pub chars_text : Str → Str
chars_text [] = []
chars_text (c ∷ w) = char_text c ++ chars_text w

-- An empty word is a pair of quotes.
abbrev pub word_text : Str → Str
word_text [] = 39 ∷ 39 ∷ []
word_text (c ∷ w) = chars_text (c ∷ w)

abbrev pub token_text : Token → Str
token_text (tword w) = word_text w
token_text tamp = codes "&"
token_text tpipe = codes "|"
token_text tsemi = codes ";"
token_text tin = codes "<"
token_text tout = codes ">"
token_text tapp = codes ">>"
token_text tpipe_err = codes "|&"
token_text tout_err = codes ">&"
token_text tapp_err = codes ">>&"
token_text _ = []

-- The tokens of a line, each with a space behind it.
abbrev pub line_text : List Token → Str
line_text [] = 10 ∷ []
line_text (t ∷ ts) = token_text t ++ (32 ∷ line_text ts)

-- A `char` that is not negative.
abbrev pub IsAscii : ℕ → Type 0
IsAscii c = c < 128

-- What fits in `Word`.
abbrev pub IsWord : Str → Type 0
IsWord w = All IsAscii w × (length w ≤ buf_size)

-- The tokens that have a text.
abbrev pub IsPrintable : Token → Type 0
IsPrintable (tword w) = IsWord w
IsPrintable terror = ⊥
IsPrintable tend = ⊥
IsPrintable tnl = ⊥
IsPrintable tnil = ⊥
IsPrintable _ = Unit
