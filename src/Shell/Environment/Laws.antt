-- ===== src/Shell/Environment/Laws.antt =====
-- What `getenv` says after `putenv` and `unsetenv`.
use osprograms.Base.{
  ℕ, ◌≤◌, ◌≡◌, refl, ap, ◌≢◌, inl, inr, true, false, Option, none, some, List, [], ◌∷◌, arith, ◌==◌,
  ==_iff, ==_refl, Bool-cases, Option-cases, length, Str, free_of,
}
use osprograms.Shell.Environment.{
  equals, value_if, getenv, put_entry, name_of, without, unsetenv, entry_of,
}

free_of-cons :
    (c x : ℕ) (s : Str) → free_of c (x ∷ s) ≡ true → ((x == c) ≡ false) × (free_of c s ≡ true)
free_of-cons c x s h = elim (Bool-cases (x == c)) [
  | inl e ↦ absurd (ground arith)
  | inr e ↦ (e, rw e at h)
]

value_if-entry_of :
    (name value : Str)
    → free_of equals name ≡ true
    → value_if name (entry_of name value) ≡ some value
unfolding value_if
value_if-entry_of [] value h = refl
value_if-entry_of (x ∷ name) value h =
    rw (==_refl x) (value_if-entry_of name value (free_of-cons equals x name h).1)

-- An entry that has a name is made of it and its value.
value_if-some : (name e v : Str) → value_if name e ≡ some v → e ≡ entry_of name v
unfolding value_if
value_if-some [] [] v h = absurd (cc)
value_if-some [] (x ∷ xs) v h = elim (Bool-cases (x == equals)) [
  | inl e ↦
      let e' : x ≡ equals = (==_iff x equals).0 e in
      let v' : xs ≡ v = ap (λ o. elim o [ some y ↦ y | none ↦ [] ]) (rw e at h) in rw (e', v')
  | inr e ↦ absurd (let k = rw e at h in cc)
]
value_if-some (n ∷ ns) [] v h = absurd (cc)
value_if-some (n ∷ ns) (x ∷ xs) v h = elim (Bool-cases (n == x)) [
  | inl e ↦
      let e' : n ≡ x = (==_iff n x).0 e in
      rw e' (ap (λ r. x ∷ r) (value_if-some ns xs v (rw e at h)))
  | inr e ↦ absurd (let k = rw e at h in cc)
]

-- Two names without '=' are the same where one entry has both.
value_if-names :
    (name other value : Str)
    → free_of equals name ≡ true
    → free_of equals other ≡ true
    → name ≢ other
    → value_if other (entry_of name value) ≡ none
unfolding value_if
value_if-names [] [] value h k d = absurd (d refl)
value_if-names [] (o ∷ os) value h k d = let e = (free_of-cons equals o os k).0 in rw e
value_if-names (n ∷ ns) [] value h k d = let e = (free_of-cons equals n ns h).0 in rw e
value_if-names (n ∷ ns) (o ∷ os) value h k d = elim (Bool-cases (o == n)) [
  | inl e ↦
      let e' : o ≡ n = (==_iff o n).0 e in
      rw e (
        value_if-names ns os value (free_of-cons equals n ns h).1 (free_of-cons equals o os k).1
          (λ q. d (rw (e', q))))
  | inr e ↦ rw e
]

pub name_of-entry_of :
    (name value : Str) → free_of equals name ≡ true → name_of (entry_of name value) ≡ name
unfolding name_of
name_of-entry_of [] value h = refl
name_of-entry_of (x ∷ name) value h =
    let (e, f) = free_of-cons equals x name h in
    rw e (ap (λ r. x ∷ r) (name_of-entry_of name value f))

getenv-cons :
    (other e : Str) (a b : List Str)
    → getenv other a ≡ getenv other b
    → getenv other (e ∷ a) ≡ getenv other (e ∷ b)
unfolding getenv
getenv-cons other e a b h =
    ap (λ r. elim (value_if other e) as (λ _. Option Str) [ some v ↦ some v | none ↦ r ]) h

module _ (name other : Str) (h : free_of equals name ≡ true) (k : free_of equals other ≡ true)
    (apart : name ≢ other) where
  -- An entry of one name is none of another.
  value_if-apart : (e v : Str) → value_if name e ≡ some v → value_if other e ≡ none
  value_if-apart e v w = rw (value_if-some name e v w) (value_if-names name other v h k apart)

  pub getenv-put_other :
      (value : Str) (es : List Str)
      → getenv other (put_entry name (entry_of name value) es) ≡ getenv other es
  unfolding getenv put_entry
  getenv-put_other value [] = rw (value_if-names name other value h k apart, getenv)
  getenv-put_other value (e ∷ es) = elim (Option-cases (value_if name e)) [
    | inl w ↦ rw (w, put_entry) (getenv-cons other e _ es (getenv-put_other value es))
    | inr (v, w) ↦
        rw (w, put_entry)
          (rw (value_if-names name other value h k apart, getenv)
            (rw (value_if-apart e v w, getenv)))
  ]

  pub getenv-without_other : (es : List Str) → getenv other (without name es) ≡ getenv other es
  unfolding getenv without
  getenv-without_other [] = refl
  getenv-without_other (e ∷ es) = elim (Option-cases (value_if name e)) [
    | inl w ↦ rw (w, without) (getenv-cons other e _ es (getenv-without_other es))
    | inr (v, w) ↦ rw (w, without) (rw (value_if-apart e v w, getenv) (getenv-without_other es))
  ]

pub getenv-put_entry :
    (name value : Str) (es : List Str)
    → free_of equals name ≡ true
    → getenv name (put_entry name (entry_of name value) es) ≡ some value
unfolding getenv put_entry
getenv-put_entry name value [] h = rw (value_if-entry_of name value h, getenv)
getenv-put_entry name value (e ∷ es) h = elim (Option-cases (value_if name e)) [
  | inl w ↦ rw (w, put_entry) (rw (w, getenv) (getenv-put_entry name value es h))
  | inr (v, w) ↦ rw (w, put_entry) (rw (value_if-entry_of name value h, getenv))
]

pub getenv-without : (name : Str) (es : List Str) → getenv name (without name es) ≡ none
unfolding getenv without
getenv-without name [] = refl
getenv-without name (e ∷ es) = elim (Option-cases (value_if name e)) [
  | inl w ↦ rw (w, without) (rw (w, getenv) (getenv-without name es))
  | inr (v, w) ↦ rw (w, without) (getenv-without name es)
]

pub unsetenv-without :
    (name : Str) (es : List Str)
    → free_of equals name ≡ true
    → 1 ≤ length name
    → unsetenv name es ≡ without name es
unfolding unsetenv
unsetenv-without [] es h k = absurd (omega arith)
unsetenv-without (n ∷ ns) es h k = rw h
