-- ===== src/Ramdisk/Paths.antt =====
-- The path helpers of fuseLibrary.c: `getParentPath` and `getFileDirName`, and the tokens that
-- `traverseToDir` reads with `strtok`.
use osprograms.Base.{
  ℕ, ◌-◌, ◌<◌, ◌≡◌, refl, ◌∙◌, inl, inr, true, false, Option, none, some, [], ◌∷◌, ◌++◌, append-nil,
  append_assoc, arith, ◌==◌, if◌then◌else◌, ==_refl, Bool-cases, length, take, drop, length-append,
  take-append, Str, strrchr, free_of, strrchr-append, finish, tokens_from, strtok,
}

abbrev pub slash : ℕ
slash = b'/'

abbrev pub root_path : Str
root_path = slash ∷ []

-- The pointer that `strrchr` returns is one past the last slash; NULL where there is none.
unfoldable pub get_file_dir_name : Str → Option Str
get_file_dir_name path = elim (strrchr path slash) [
  | none ↦ none
  | some (before, rest) ↦ some (drop 1 rest)
]

unfoldable pub get_parent_path : Str → Option Str
get_parent_path path = elim (strrchr path slash) [
  | none ↦ none
  | some (before, only_file) ↦
      let size = length path - length only_file in
      some (if size == 0 then root_path else take size path)
]

-- The path of the entry `name` in the directory `parent`.
abbrev pub join : Str → Str → Str
join parent name = parent ++ (slash ∷ name)

-- A name that can stand behind the last slash of a path.
abbrev pub IsName : Str → Type 0
IsName name = (free_of slash name ≡ true) × (0 < length name)

module _ (parent name : Str) (h : IsName name) where
  pub get_file_dir_name-join : get_file_dir_name (join parent name) ≡ some name
  unfolding get_file_dir_name
  get_file_dir_name-join = rw (strrchr-append parent name slash h.0, get_file_dir_name)

  pub get_parent_path-join :
      get_parent_path (join parent name) ≡ some (if length parent == 0 then root_path else parent)
  unfolding get_parent_path
  get_parent_path-join =
      let size : length (join parent name) - length {A = ℕ} (slash ∷ name) ≡ length parent =
        omega (arith, length-append parent (slash ∷ name)) in
      rw (strrchr-append parent name slash h.0, get_parent_path) (rw (size, take-append))

tokens_from-free_of :
    (c : ℕ) (word s : Str) → free_of c s ≡ true → tokens_from c word s ≡ finish (word ++ s)
unfolding tokens_from
tokens_from-free_of c word [] h = rw append-nil
tokens_from-free_of c word (x ∷ s) h =
    let miss : (x == c) ≡ false = ground arith in
    rw (miss, tokens_from)
      (tokens_from-free_of c (word ++ (x ∷ [])) s (ground arith) ∙ rw append_assoc)

tokens_from-append :
    (c : ℕ) (word p s : Str)
    → tokens_from c word (p ++ (c ∷ s)) ≡ tokens_from c word p ++ tokens_from c [] s
unfolding tokens_from
tokens_from-append c word [] s = rw (==_refl c, tokens_from)
tokens_from-append c word (x ∷ p) s = elim (Bool-cases (x == c)) [
  | inl hit ↦ rw (hit, tokens_from) (rw (tokens_from-append c [] p s, append_assoc))
  | inr miss ↦ rw (miss, tokens_from) (tokens_from-append c (word ++ (x ∷ [])) p s)
]

pub finish-IsName : (name : Str) → IsName name → finish name ≡ name ∷ []
finish-IsName [] h = absurd (omega (arith, h.1))
finish-IsName (x ∷ xs) h = refl

-- The tokens of an entry's path are those of its directory's, and then its name.
pub strtok-join :
    (parent name : Str)
    → IsName name
    → strtok slash (join parent name) ≡ strtok slash parent ++ (name ∷ [])
unfolding strtok
strtok-join parent name h =
    tokens_from-append slash [] parent name
    ∙ rw (tokens_from-free_of slash [] name h.0, finish-IsName name h)

-- Of the path of an entry, `getParentPath` gives the directory's path, `/` for the root,
-- `getFileDirName` the entry's name, and `strtok` the directory's tokens and then the name.
pub path_parts :
    (parent name : Str)
    → IsName name
    → (get_parent_path (join parent name) ≡ some (if length parent == 0 then root_path else parent))
      × (get_file_dir_name (join parent name) ≡ some name)
      × (strtok slash (join parent name) ≡ strtok slash parent ++ (name ∷ []))
path_parts parent name h = (
  get_parent_path-join parent name h,
  get_file_dir_name-join parent name h,
  strtok-join parent name h,
)
