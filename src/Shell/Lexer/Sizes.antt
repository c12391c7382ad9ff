-- ===== src/Shell/Lexer/Sizes.antt =====
-- What a call of `nextToken` of parse.c reads.
use osprograms.Base.{
  ℕ, suc, ◌+◌, ◌≤◌, ◌≡◌, refl, ◌⊎◌, inl, inr, List, [], ◌∷◌, arith, leb, ◌==◌, if◌then◌else◌,
  Bool-cases, length, Str,
}
use osprograms.Shell.Token.{Token, terror, buf_size, end_of_input}
use osprograms.Shell.Lexer.{
  Lexed, Class, negative, blank, newline, amp, semi, less, bar, greater, quote, backslash, other,
  classify, skip_line, Mode, in_word, escaped, in_string, Progress, more, done, store_char,
  read_char, read_word, after_bar, after_append, after_greater, next_token,
}

pub skip_line-le : (cs : List ℕ) → length (skip_line cs) ≤ length cs
unfolding skip_line
skip_line-le [] = omega arith
skip_line-le (c ∷ cs) = ground (arith, skip_line-le cs)

-- What a step leaves of the input, if it ends the token.
abbrev Leaves : ℕ → Progress → Type 0
Leaves n (more mode word) = Unit
Leaves n (done lexed) = length lexed.1 ≤ n

Leaves-mono : (n m : ℕ) (p : Progress) → n ≤ m → Leaves n p → Leaves m p
Leaves-mono n m (more mode word) l h = tt
Leaves-mono n m (done lexed) l h = omega arith

store_char-Leaves :
    (mode : Mode) (word : Str) (c : ℕ) (cs : List ℕ)
    → Leaves (length cs) (store_char mode word c cs)
unfolding store_char
store_char-Leaves mode word c cs = elim (Bool-cases (leb buf_size (length word))) [
  | inl full ↦ rw full (skip_line-le cs)
  | inr room ↦ rw room tt
]

escaped-Leaves :
    (k : Class) (word : Str) (c : ℕ) (cs : List ℕ)
    → classify c ≡ k
    → Leaves (length cs) (read_char escaped word c cs)
unfolding read_char
escaped-Leaves negative word c cs e = rw (Leaves, e) (omega arith)
escaped-Leaves _ word c cs e = rw (Leaves, e) (store_char-Leaves in_word word c cs)

string-Leaves :
    (k : Class) (q : ℕ) (word : Str) (c : ℕ) (cs : List ℕ)
    → classify c ≡ k
    → Leaves (length cs) (read_char (in_string q) word c cs)
unfolding read_char
string-Leaves k q word c cs e = elim (Bool-cases (c == q)) [
  | inl same ↦ rw (Leaves, same) (omega arith)
  | inr differ ↦ rw (Leaves, differ) (by_class k e)
]
  where
    by_class :
        (k : Class)
        → classify c ≡ k
        → Leaves (length cs) (elim (classify c) [
          | negative ↦ done (terror, cs)
          | newline ↦ done (terror, cs)
          | _ ↦ store_char (in_string q) word c cs
        ])
    by_class negative e = rw e (omega arith)
    by_class newline e = rw e (omega arith)
    by_class _ e = rw e (store_char-Leaves (in_string q) word c cs)

word-Leaves :
    (k : Class) (word : Str) (c : ℕ) (cs : List ℕ)
    → classify c ≡ k
    → Leaves (suc (length cs)) (read_char in_word word c cs)
unfolding read_char
word-Leaves quote word c cs e = rw (Leaves, e) tt
word-Leaves backslash word c cs e = rw (Leaves, e) tt
word-Leaves other word c cs e =
    rw (Leaves, e) (Leaves-mono _ _ _ (omega arith) (store_char-Leaves in_word word c cs))
word-Leaves _ word c cs e = rw (Leaves, e) (omega arith)

read_char-Leaves :
    (mode : Mode) (word : Str) (c : ℕ) (cs : List ℕ)
    → Leaves (suc (length cs)) (read_char mode word c cs)
read_char-Leaves in_word word c cs = word-Leaves (classify c) word c cs refl
read_char-Leaves escaped word c cs =
    Leaves-mono _ _ _ (omega arith) (escaped-Leaves (classify c) word c cs refl)
read_char-Leaves (in_string q) word c cs =
    Leaves-mono _ _ _ (omega arith) (string-Leaves (classify c) q word c cs refl)

read_word-step :
    (p : Progress) (cs : List ℕ) (n : ℕ)
    → ((mode : Mode) (word : Str) → length (read_word mode word cs).1 ≤ n)
    → Leaves n p
    → length
        (elim p as (λ _. Lexed) [
          | more mode' word' ↦ read_word mode' word' cs
          | done lexed ↦ lexed
        ]).1
      ≤ n
read_word-step (more mode word) cs n later h = later mode word
read_word-step (done lexed) cs n later h = h

read_word-le :
    (mode : Mode) (word : Str) (cs : List ℕ) → length (read_word mode word cs).1 ≤ length cs
unfolding read_word
read_word-le mode word [] = omega arith
read_word-le mode word (c ∷ cs) =
    let later : (mode : Mode) (word : Str) → length (read_word mode word cs).1 ≤ length cs =
      λ mode' word'. read_word-le mode' word' cs in
    read_word-step (read_char mode word c cs) cs (suc (length cs))
      (λ mode' word'. omega (arith, later mode' word')) (read_char-Leaves mode word c cs)

-- A token that ends the input has no weight.
abbrev pub weight : Token → ℕ
weight t = if end_of_input t then 0 else 1

-- The first character of a word is read.
first-le :
    (k : Class) (c : ℕ) (cs : List ℕ)
    → classify c ≡ k
    → (k ≡ quote) ⊎ ((k ≡ backslash) ⊎ (k ≡ other))
    → length (read_word in_word [] (c ∷ cs)).1 ≤ length cs
unfolding read_word read_char
first-le quote c cs e h = rw (read_word, e) (read_word-le (in_string c) [] cs)
first-le backslash c cs e h = rw (read_word, e) (read_word-le escaped [] cs)
first-le other c cs e h =
    rw (read_word, e)
      (read_word-step (store_char in_word [] c cs) cs (length cs)
        (λ mode word. read_word-le mode word cs) (store_char-Leaves in_word [] c cs))
first-le _ c cs e h = absurd (ground arith)

after_bar-le : (cs : List ℕ) → length (after_bar cs).1 ≤ length cs
unfolding after_bar
after_bar-le [] = omega arith
after_bar-le (c ∷ cs) = ground arith

after_append-le : (cs : List ℕ) → length (after_append cs).1 ≤ length cs
unfolding after_append
after_append-le [] = omega arith
after_append-le (c ∷ cs) = ground arith

after_greater-le : (cs : List ℕ) → length (after_greater cs).1 ≤ length cs
unfolding after_greater
after_greater-le [] = omega arith
after_greater-le (c ∷ cs) = ground (arith, after_append-le cs)

weight-le : (t : Token) → weight t ≤ 1
weight-le t = ground arith

-- Each call reads a character, unless the input is at its end.
pub next_token-le :
    (input : List ℕ) → length (next_token input).1 + weight (next_token input).0 ≤ length input
unfolding next_token
next_token-le [] = omega arith
next_token-le (c ∷ cs) = by_class (classify c) refl (next_token-le cs)
  where
    by_class :
        (k : Class)
        → classify c ≡ k
        → length (next_token cs).1 + weight (next_token cs).0 ≤ length cs
        → length (next_token (c ∷ cs)).1 + weight (next_token (c ∷ cs)).0 ≤ suc (length cs)
    by_class negative e ih = rw (next_token, e) (omega arith)
    by_class blank e ih = rw (next_token, e) (omega arith)
    by_class newline e ih = rw (next_token, e) (omega arith)
    by_class amp e ih = rw (next_token, e) (omega arith)
    by_class semi e ih = rw (next_token, e) (omega arith)
    by_class less e ih = rw (next_token, e) (omega arith)
    by_class bar e ih =
        rw (next_token, e) (omega (arith, after_bar-le cs, weight-le (after_bar cs).0))
    by_class greater e ih =
        rw (next_token, e) (omega (arith, after_greater-le cs, weight-le (after_greater cs).0))
    by_class quote e ih =
        rw (next_token, e)
          (omega
            (arith, first-le quote c cs e (inl refl), weight-le (read_word in_word [] (c ∷ cs)).0))
    by_class backslash e ih =
        rw (next_token, e)
          (omega (
            arith,
            first-le backslash c cs e (inr (inl refl)),
            weight-le (read_word in_word [] (c ∷ cs)).0,
          ))
    by_class other e ih =
        rw (next_token, e)
          (omega (
            arith,
            first-le other c cs e (inr (inr refl)),
            weight-le (read_word in_word [] (c ∷ cs)).0,
          ))
