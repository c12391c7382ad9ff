-- ===== src/Shell/Descriptors.antt =====
-- The descriptors of a process of main1.c, and the calls of the system that change them, as POSIX
-- describes them.
use osprograms.Base.{ℕ, zero, suc, ◌≡◌, refl, ap, ◌≢◌, Option, none, some, List, [], ◌∷◌, Str}

-- What a descriptor stands for: what the shell was started with, a file, or an end of a pipe.
pub data Object : Type 0 where
  inherited read_end write_end : ℕ → Object
  read_file truncated appended : Str → Object

abbrev pub Table : Type 0
Table = List (Option Object)

unfoldable pub slot : Table → ℕ → Option Object
slot [] n = none
slot (x ∷ xs) zero = x
slot (x ∷ xs) (suc n) = slot xs n

unfoldable pub put : Table → ℕ → Option Object → Table
put [] zero x = x ∷ []
put [] (suc n) x = none ∷ put [] n x
put (y ∷ ys) zero x = x ∷ ys
put (y ∷ ys) (suc n) x = y ∷ put ys n x

-- A new descriptor is the lowest one that is free.
unfoldable pub lowest_free : Table → ℕ
lowest_free [] = zero
lowest_free (none ∷ xs) = zero
lowest_free (some x ∷ xs) = suc (lowest_free xs)

-- `close(fd)`
abbrev pub close : ℕ → Table → Table
close fd t = put t fd none

-- `dup2(fd, to)`, which does nothing where `fd` is closed.
abbrev pub dup2 : ℕ → ℕ → Table → Table
dup2 fd to t = elim (slot t fd) [ none ↦ t | some x ↦ put t to (some x) ]

pub slot-put_self : (t : Table) (n : ℕ) (x : Option Object) → slot (put t n x) n ≡ x
unfolding slot put
slot-put_self [] zero x = refl
slot-put_self [] (suc n) x = slot-put_self [] n x
slot-put_self (y ∷ ys) zero x = refl
slot-put_self (y ∷ ys) (suc n) x = slot-put_self ys n x

pub slot-put_ne : (t : Table) (n m : ℕ) (x : Option Object) → n ≢ m → slot (put t n x) m ≡ slot t m
unfolding slot put
slot-put_ne [] zero zero x d = absurd (d refl)
slot-put_ne [] zero (suc m) x d = refl
slot-put_ne [] (suc n) zero x d = refl
slot-put_ne [] (suc n) (suc m) x d = slot-put_ne [] n m x (λ e. d (ap (λ k. suc k) e))
slot-put_ne (y ∷ ys) zero zero x d = absurd (d refl)
slot-put_ne (y ∷ ys) zero (suc m) x d = refl
slot-put_ne (y ∷ ys) (suc n) zero x d = refl
slot-put_ne (y ∷ ys) (suc n) (suc m) x d = slot-put_ne ys n m x (λ e. d (ap (λ k. suc k) e))

pub slot-lowest_free : (t : Table) → slot t (lowest_free t) ≡ none
unfolding slot lowest_free
slot-lowest_free [] = refl
slot-lowest_free (none ∷ xs) = refl
slot-lowest_free (some x ∷ xs) = slot-lowest_free xs
