-- ===== src/Shell/Lexer/Laws.antt =====
-- The lexer of parse.c reads a printed line back.
use osprograms.Base.{
  ℕ, ◌+◌, ◌≤◌, ◌<◌, ◌≡◌, refl, ◌≢◌, List, [], ◌∷◌, ◌++◌, append-nil, append_assoc, arith, length,
  All, length-append, Str,
}
use osprograms.Shell.Token.{tword, buf_size}
use osprograms.Shell.Lexer.{
  Lexed, Class, negative, blank, quote, backslash, other, classify, Mode, in_word, escaped, more,
  store_char, read_char, read_word, next_token,
}
use osprograms.Shell.Print.{char_text, chars_text, IsAscii}

-- The cases of a test on a class, with the equation.
classify-ascii : (c : ℕ) → c < 128 → classify c ≢ negative
unfolding classify
classify-ascii c h e = ground arith

backslash_class : classify 92 ≡ backslash
unfolding classify
backslash_class = refl

pub blank_class : classify 32 ≡ blank
unfolding classify
blank_class = refl

store_char-more :
    (mode : Mode) (word : Str) (c : ℕ) (cs : List ℕ)
    → length word < buf_size
    → store_char mode word c cs ≡ more mode (word ++ (c ∷ []))
unfolding store_char
store_char-more mode word c cs h = ground arith

pub quote_class : classify 39 ≡ quote
unfolding classify
quote_class = refl

module _ (word : Str) (c : ℕ) (cs : List ℕ) (lexed : Lexed) (ascii : c < 128)
    (fits : length word < buf_size) (later : read_word in_word (word ++ (c ∷ [])) cs ≡ lexed) where
  escaped-read :
      (k : Class) → classify c ≡ k → k ≢ negative → read_word escaped word (c ∷ cs) ≡ lexed
  unfolding read_word read_char
  escaped-read negative e ne = absurd (ne refl)
  escaped-read _ e ne = rw (read_word, e, store_char-more in_word word c cs fits) later

  read_word-char_text :
      (k : Class) → classify c ≡ k → read_word in_word word (char_text c ++ cs) ≡ lexed
  unfolding read_word read_char char_text
  read_word-char_text negative e = absurd (classify-ascii c ascii e)
  read_word-char_text other e = rw (e, read_word, e, store_char-more in_word word c cs fits) later
  read_word-char_text _ e = rw (e, read_word, backslash_class) (escaped-read _ e (λ n. cc))

blank_ends : (word : Str) (cs : List ℕ) → read_word in_word word (32 ∷ cs) ≡ (tword word, cs)
unfolding read_word read_char
blank_ends word cs = rw (read_word, blank_class) refl

read_word-chars_text :
    (w word : Str) (cs : List ℕ)
    → All IsAscii w
    → length word + length w ≤ buf_size
    → read_word in_word word (chars_text w ++ (32 ∷ cs)) ≡ (tword (word ++ w), cs)
read_word-chars_text [] word cs a h = rw (append-nil word) (blank_ends word cs)
read_word-chars_text (c ∷ w) word cs (a, b) h =
    let inner =
      read_word-chars_text w (word ++ (c ∷ [])) cs b (omega (arith, length-append word (c ∷ []))) in
    let same = append_assoc word (c ∷ []) w in
    rw (append_assoc (char_text c) (chars_text w) (32 ∷ cs)) (
      read_word-char_text word c (chars_text w ++ (32 ∷ cs)) _ a (omega arith) (cc) (classify c)
        refl)

-- The first character of a word begins it.
word_begins :
    (c : ℕ) (cs : List ℕ) (k : Class)
    → classify c ≡ k
    → c < 128
    → next_token (char_text c ++ cs) ≡ read_word in_word [] (char_text c ++ cs)
unfolding next_token char_text
word_begins c cs negative e a = absurd (classify-ascii c a e)
word_begins c cs other e a = rw (e, next_token, e, char_text) refl
word_begins c cs _ e a = rw (e, next_token, backslash_class, char_text) refl

pub next_token-blank : (cs : List ℕ) → next_token (32 ∷ cs) ≡ next_token cs
unfolding next_token
next_token-blank cs = rw (next_token, blank_class) refl

pub next_token-chars_text :
    (c : ℕ) (w : Str) (cs : List ℕ)
    → All IsAscii (c ∷ w)
    → length w < buf_size
    → next_token (chars_text (c ∷ w) ++ (32 ∷ cs)) ≡ (tword (c ∷ w), cs)
next_token-chars_text c w cs a h =
    let begins = word_begins c (chars_text w ++ (32 ∷ cs)) (classify c) refl a.0 in
    let read = read_word-chars_text (c ∷ w) [] cs a (omega arith) in
    let split = append_assoc (char_text c) (chars_text w) (32 ∷ cs) in cc
