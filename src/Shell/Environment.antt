-- ===== src/Shell/Environment.antt =====
-- `environ` as main1.c uses it: `getenv`, `putenv` and `unsetenv` of the C library.
pub mod Laws
use osprograms.Base.{ℕ, Option, none, some, List, [], ◌∷◌, ◌++◌, ◌==◌, if◌then◌else◌, Str, free_of}

-- '='
abbrev pub equals : ℕ
equals = 61

-- The value in an entry of this name.
unfoldable pub value_if : Str → Str → Option Str
value_if [] [] = none
value_if [] (x ∷ xs) = if x == equals then some xs else none
value_if (n ∷ ns) [] = none
value_if (n ∷ ns) (x ∷ xs) = let rest = value_if ns xs in if n == x then rest else none

unfoldable pub getenv : Str → List Str → Option Str
unfolding value_if
getenv name [] = none
getenv name (e ∷ es) = elim (value_if name e) [ some v ↦ some v | none ↦ getenv name es ]

-- The entry `entry` for `name`: in place of the first one of that name, or behind the others.
unfoldable pub put_entry : Str → Str → List Str → List Str
unfolding value_if
put_entry name entry [] = entry ∷ []
put_entry name entry (e ∷ es) = elim (value_if name e) [
  | some v ↦ entry ∷ es
  | none ↦ e ∷ put_entry name entry es
]

-- The name in a string `name=value`.
unfoldable pub name_of : Str → Str
name_of [] = []
name_of (x ∷ xs) = if x == equals then [] else x ∷ name_of xs

unfoldable pub putenv : Str → List Str → List Str
unfolding put_entry name_of
putenv entry es = put_entry (name_of entry) entry es

unfoldable pub without : Str → List Str → List Str
unfolding value_if
without name [] = []
without name (e ∷ es) = elim (value_if name e) [
  | some v ↦ without name es
  | none ↦ e ∷ without name es
]

-- An empty name, or one with a '=', is refused.
unfoldable pub unsetenv : Str → List Str → List Str
unfolding without
unsetenv [] es = es
unsetenv (n ∷ ns) es = if free_of equals (n ∷ ns) then without (n ∷ ns) es else es

abbrev pub entry_of : Str → Str → Str
entry_of name value = name ++ (equals ∷ value)
