-- ===== src/Shell/Driver/Numerals.antt =====
-- `is_valid_int` of main1.c and the numerals.
use osprograms.Base.{
  ℕ, ◌≤◌, ◌≡◌, refl, ◌↔◌, ◌⊎◌, Bool, true, false, ◌||◌, [], ◌∷◌, arith, ◌==◌, if◌then◌else◌, All,
  Str,
}
use osprograms.Shell.Builtins.{is_valid_int, is_digits, some_digits}

abbrev pub IsDigit : ℕ → Type 0
IsDigit c = (48 ≤ c) × (c ≤ 57)

-- Digits, with a `-` or a `+` before them or not.
pub data IsNumeral : Str → Type 0 where
  unsigned : {c : ℕ} {cs : Str} → All IsDigit (c ∷ cs) → IsNumeral (c ∷ cs)
  signed :
      {s c : ℕ} {cs : Str} → (s ≡ 45) ⊎ (s ≡ 43) → All IsDigit (c ∷ cs) → IsNumeral (s ∷ c ∷ cs)

is_digits-All : (cs : Str) → is_digits cs ≡ true → All IsDigit cs
is_digits-All [] e = tt
is_digits-All (c ∷ cs) e =
    ((ground (arith, e), ground (arith, e)), is_digits-All cs (ground (arith, e)))

All-is_digits : (cs : Str) → All IsDigit cs → is_digits cs ≡ true
All-is_digits [] p = refl
All-is_digits (c ∷ cs) ((l, u), p) = let rest = All-is_digits cs p in ground arith

is_valid_int-IsNumeral_of : (s : Str) → is_valid_int s ≡ true → IsNumeral s
unfolding is_valid_int
is_valid_int-IsNumeral_of [] e = absurd (ground arith)
is_valid_int-IsNumeral_of (c ∷ cs) e = by_sign (c == 45 || c == 43) refl cs e
  where
    by_sign :
        (b : Bool)
        → (c == 45 || c == 43) ≡ b
        → (cs : Str) → (if c == 45 || c == 43 then some_digits cs else some_digits (c ∷ cs)) ≡ true
        → IsNumeral (c ∷ cs)
    by_sign true sign [] e = absurd (ground arith)
    by_sign true sign (d ∷ ds) e = signed (ground arith) (is_digits-All (d ∷ ds) (ground arith))
    by_sign false sign cs e = unsigned (is_digits-All (c ∷ cs) (ground arith))

IsNumeral-is_valid_int : (s : Str) → IsNumeral s → is_valid_int s ≡ true
unfolding is_valid_int
IsNumeral-is_valid_int _ (unsigned {c} {cs} ((l, u), p)) =
    let digits = All-is_digits (c ∷ cs) ((l, u), p) in
    let no_sign : (c == 45 || c == 43) ≡ false = ground arith in rw (no_sign) digits
IsNumeral-is_valid_int _ (signed {s} {c} {cs} sign p) =
    let digits = All-is_digits (c ∷ cs) p in
    let is_sign : (s == 45 || s == 43) ≡ true = ground arith in rw (is_sign) digits

-- `is_valid_int` accepts the numerals, digits with or without a sign, and nothing else.
pub is_valid_int-IsNumeral : (s : Str) → (is_valid_int s ≡ true) ↔ IsNumeral s
is_valid_int-IsNumeral s = (is_valid_int-IsNumeral_of s, IsNumeral-is_valid_int s)
