-- ===== src/Ramdisk/Tree.antt =====
-- `struct directory` and `struct file`: the first child, next sibling tree of directories.
-- `mkdir` makes each node, and links it from one place, so the structure is a value, and a
-- `directory*` is the turns that lead to the node from the root.
pub mod Laws
pub mod Stable
use osprograms.Base.{
  ℕ, ◌+◌, ◌-◌, ◌*◌, Option, none, some, List, [], ◌∷◌, ◌++◌, if◌then◌else◌, take, Str, str_eq,
  strtok,
}
use osprograms.Ramdisk.Paths.{slash, root_path}

pub record File : Type 0 where
  pub file_name : Str
  -- an index in the table of blocks; `none` is -1
  pub first_block : Option ℕ

-- The fields directoryName, subdirectory, siblingDirectory and fileinDir; `null` is NULL.
pub data Directory : Type 0 where
  null : Directory
  node : Str → Directory → Directory → List File → Directory

abbrev pub subdirectory : Directory → Directory
subdirectory null = null
subdirectory (node name sub sibling files) = sub

abbrev pub filein_dir : Directory → List File
filein_dir null = []
filein_dir (node name sub sibling files) = files

abbrev pub with_subdirectory : Directory → Directory → Directory
with_subdirectory sub' null = null
with_subdirectory sub' (node name sub sibling files) = node name sub' sibling files

abbrev pub with_files : List File → Directory → Directory
with_files files' null = null
with_files files' (node name sub sibling files) = node name sub sibling files'

-- One step of a pointer: to the first child, or to the next sibling.
pub data Turn : Type 0 where
  down across : Turn

abbrev pub Ptr : Type 0
Ptr = List Turn

unfoldable pub deref : Ptr → Directory → Directory
deref [] d = d
deref (t ∷ p) null = null
deref (down ∷ p) (node name sub sibling files) = deref p sub
deref (across ∷ p) (node name sub sibling files) = deref p sibling

-- A write through a pointer.
unfoldable pub modify : Ptr → (Directory → Directory) → Directory → Directory
modify [] f d = f d
modify (t ∷ p) f null = null
modify (down ∷ p) f (node name sub sibling files) = node name (modify p f sub) sibling files
modify (across ∷ p) f (node name sub sibling files) = node name sub (modify p f sibling) files

abbrev pub through : List Turn → Option Ptr → Option Ptr
through turns none = none
through turns (some p) = some (turns ++ p)

-- The inner loop of `traverseToDir` has no `break`: of several siblings the last one is taken.
unfoldable pub last_named : Str → Directory → Option Ptr
last_named token null = none
last_named token (node name sub sibling files) = elim (last_named token sibling) [
  | some p ↦ some (across ∷ p)
  | none ↦ if str_eq name token then some [] else none
]

-- One round of the outer loop, from the first child of the current directory.
unfoldable pub enter : Str → Directory → Option Ptr
enter token null = none
enter token (node name sub sibling files) =
    if str_eq name token then some [] else through (across ∷ []) (last_named token sibling)

unfoldable pub traverse_tokens : List Str → Directory → Option Ptr
traverse_tokens [] curr = some []
traverse_tokens (token ∷ tokens) curr = elim (enter token (subdirectory curr)) [
  | none ↦ none
  | some p ↦ through (down ∷ p) (traverse_tokens tokens (deref p (subdirectory curr)))
]

unfoldable pub traverse_to_dir : Str → Directory → Option Ptr
traverse_to_dir path root =
    if str_eq path root_path then some [] else traverse_tokens (strtok slash path) root

-- The first directory of that name among the siblings, for `getDirPresentAtDir`.
unfoldable pub first_named : Str → Directory → Option Ptr
first_named name null = none
first_named name (node n sub sibling files) =
    if str_eq n name then some [] else through (across ∷ []) (first_named name sibling)

unfoldable pub get_dir_present_at_dir : Directory → Str → Option Ptr
get_dir_present_at_dir curr name = through (down ∷ []) (first_named name (subdirectory curr))

unfoldable pub find_file : Str → List File → Option File
find_file name [] = none
find_file name (f ∷ files) = if str_eq f.file_name name then some f else find_file name files

unfoldable pub get_file_present_at_dir : Directory → Str → Option File
get_file_present_at_dir curr name = find_file name (filein_dir curr)

-- The walk of `removeDirectoryFromDirectory`, which looks one sibling ahead.
unfoldable pub unlink_sibling : Str → Directory → Directory
unlink_sibling name null = null
unlink_sibling name (node n sub null files) = node n sub null files
unlink_sibling name (node n sub (node n' sub' sibling' files') files) =
    if str_eq n' name
    then node n sub sibling' files
    else node n sub (unlink_sibling name (node n' sub' sibling' files')) files
