-- ===== src/Shell/Lexer/Lines.antt =====
-- A printed line and the tokens that the lexer of parse.c reads from it.
use osprograms.Base.{ℕ, ◌≡◌, refl, ◌∙◌, List, [], ◌∷◌, ◌++◌, append_assoc, arith, All}
use osprograms.Shell.Token.{Token, terror, tnl, tnil, tend, tword}
use osprograms.Shell.Lexer.{
  classify, read_char, read_word, after_bar, after_append, after_greater, next_token,
}
use osprograms.Shell.Print.{token_text, line_text, IsPrintable}
use osprograms.Shell.Lexer.Laws.{next_token-blank, next_token-chars_text}

-- The lexer reads the tokens one after the other, and leaves `end`.
abbrev pub Spells : List ℕ → List Token → List ℕ → Type 0
Spells input [] end = input ≡ end
Spells input (t ∷ ts) end = (rest : List ℕ) × (next_token input ≡ (t, rest)) × Spells rest ts end

-- A blank ahead of the first token does not matter.
blank-first :
    (ts : List Token) (t : Token) (cs end : List ℕ)
    → Spells cs (t ∷ ts) end
    → Spells (32 ∷ cs) (t ∷ ts) end
blank-first ts t cs end (rest, e, later) = (rest, next_token-blank cs ∙ e, later)

module _ (t : Token) (ts : List Token) (cs end : List ℕ) (later : Spells cs (t ∷ ts) end) where
  quotes_spell : Spells (39 ∷ 39 ∷ 32 ∷ cs) (tword [] ∷ t ∷ ts) end
  unfolding next_token read_word read_char classify
  quotes_spell = (32 ∷ cs, refl, blank-first ts t cs end later)

  token_text-Spells :
      (s : Token) → IsPrintable s → Spells (token_text s ++ (32 ∷ cs)) (s ∷ t ∷ ts) end
  unfolding next_token after_bar after_greater after_append classify
  token_text-Spells (tword []) p = quotes_spell
  token_text-Spells (tword (c ∷ w)) (a, fits) =
      (cs, next_token-chars_text c w cs a (omega arith), later)
  token_text-Spells terror p = absurd p
  token_text-Spells tend p = absurd p
  token_text-Spells tnl p = absurd p
  token_text-Spells tnil p = absurd p
  token_text-Spells _ p = (32 ∷ cs, refl, blank-first ts t cs end later)

newline-Spells : (behind : List ℕ) → Spells (10 ∷ behind) (tnl ∷ []) behind
unfolding next_token classify
newline-Spells behind = (behind, refl, refl)

-- The lexer reads the printed tokens of a line back, and then the newline: words of at most `BUF_SIZE`
-- characters that are not negative, and all other tokens but those for an error and an end.
pub line_text-Spells :
    (ts : List Token) (behind : List ℕ)
    → All IsPrintable ts
    → Spells (line_text ts ++ behind) (ts ++ (tnl ∷ [])) behind
line_text-Spells [] behind p = newline-Spells behind
line_text-Spells (s ∷ []) behind (p, q) =
    rw (append_assoc (token_text s) (32 ∷ 10 ∷ []) behind)
      (token_text-Spells tnl [] (10 ∷ behind) behind (newline-Spells behind) s p)
line_text-Spells (s ∷ t ∷ ts) behind (p, q) =
    rw (append_assoc (token_text s) (32 ∷ line_text (t ∷ ts)) behind) (
      token_text-Spells t (ts ++ (tnl ∷ [])) (line_text (t ∷ ts) ++ behind) behind
        (line_text-Spells (t ∷ ts) behind q) s p)
