-- ===== src/Base/Text.antt =====
-- C strings: the bytes before the terminating NUL, and what the programs use of `string.h`.
use Prim.Native.Nat.{ℕ}
use Prim.Native.Char.{code}
use Prim.Native.String.{String}
use mathlib.Core.Path.{◌≡◌, refl}
use mathlib.Core.Bool.{Bool, true, false, ◌&&◌}
use mathlib.Core.Option.{Option, none, some}
use mathlib.Core.List.{List, [], ◌∷◌, ◌++◌}
use native.Mathlib.Omega.{arith}
use osprograms.Base.Tests.{◌==◌, if◌then◌else◌}

abbrev pub Str : Type 0
Str = List ℕ

-- The bytes of an ASCII literal.
abbrev pub codes : String → Str
codes String.[] = []
codes (String.◌∷◌ c s) = code c ∷ codes s

-- `strcmp(a, b) == 0`
abbrev pub str_eq : Str → Str → Bool
str_eq [] [] = true
str_eq [] (y ∷ ys) = false
str_eq (x ∷ xs) [] = false
str_eq (x ∷ xs) (y ∷ ys) = (x == y) && str_eq xs ys

pub str_eq_refl : (s : Str) → str_eq s s ≡ true
str_eq_refl [] = refl
str_eq_refl (x ∷ xs) = ground (arith, str_eq_refl xs)

pub str_eq→eq : (s t : Str) → str_eq s t ≡ true → s ≡ t
str_eq→eq [] [] h = refl
str_eq→eq [] (y ∷ ys) h = cc
str_eq→eq (x ∷ xs) [] h = cc
str_eq→eq (x ∷ xs) (y ∷ ys) h = ground (arith, str_eq→eq xs ys)

-- `strrchr(s, c)`: the part before the last `c`, and the part that begins with it.
unfoldable pub strrchr : Str → ℕ → Option (Str × Str)
strrchr [] c = none
strrchr (x ∷ xs) c = elim (strrchr xs c) [
  | some (before, rest) ↦ some (x ∷ before, rest)
  | none ↦ if x == c then some ([], x ∷ xs) else none
]

-- A string holds no `c`.
abbrev pub free_of : ℕ → Str → Bool
free_of c [] = true
free_of c (x ∷ xs) = if x == c then false else free_of c xs

pub strrchr-free_of : (s : Str) (c : ℕ) → free_of c s ≡ true → strrchr s c ≡ none
unfolding strrchr
strrchr-free_of [] c h = refl
strrchr-free_of (x ∷ xs) c h = ground (arith, strrchr-free_of xs c)

pub strrchr-append :
    (p s : Str) (c : ℕ) → free_of c s ≡ true → strrchr (p ++ (c ∷ s)) c ≡ some (p, c ∷ s)
unfolding strrchr
strrchr-append [] s c h = ground (arith, strrchr-free_of s c)
strrchr-append (x ∷ p) s c h = rw (strrchr-append p s c h, strrchr)

-- The tokens that repeated calls of `strtok(s, "/")` return: the maximal runs without `c`.
-- `word` holds the bytes of the token being read.
abbrev pub finish : Str → List Str
finish [] = []
finish (x ∷ xs) = (x ∷ xs) ∷ []

unfoldable pub tokens_from : ℕ → Str → Str → List Str
tokens_from c word [] = finish word
tokens_from c word (x ∷ xs) = elim (x == c) [
  | true ↦ finish word ++ tokens_from c [] xs
  | false ↦ tokens_from c (word ++ (x ∷ [])) xs
]

unfoldable pub strtok : ℕ → Str → List Str
unfolding tokens_from
strtok c s = tokens_from c [] s
