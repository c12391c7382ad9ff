-- ===== src/Ramdisk/Files.antt =====
-- The handlers for entries of fuseLibrary.c that FUSE calls: `pb_mkdir`, `pb_open`, `pb_openfd`,
-- `pb_mknod`, `pb_unlink`, `pb_rmdir`, `pb_access` and `pb_opendir`.
pub mod Resolve
pub mod Full
pub mod Laws
pub mod Create
use osprograms.Base.{
  ℕ, Bool, Option, none, some, List, [], ◌∷◌, ltb, if◌then◌else◌, length, Str, str_eq,
}
use osprograms.Ramdisk.Paths.{get_file_dir_name, get_parent_path}
use osprograms.Ramdisk.Tree.{
  File, Directory, null, node, filein_dir, with_files, Ptr, deref, modify, traverse_to_dir,
  get_file_present_at_dir,
}
use osprograms.Run.{ok, fault, pure, require, and_then, ◌>>=◌, ◌>>◌}
use osprograms.Ramdisk.Disk.{fn_size, Ret, ret, enoent, enospc, minus_one, Cmd}
use osprograms.Ramdisk.Blocks.{get_next_free_block_index, load, store, free_subsequent_blocks}

-- The lines that each handler begins with: it gives up with ENOENT where the path has no slash or
-- its directory is not there, and else goes on with that directory and the entry's name.
unfoldable pub with_parent : Str → (Ptr → Str → Cmd Ret) → Cmd Ret
with_parent path body s = elim (get_parent_path path) [
  | none ↦ ok enoent s
  | some parent ↦ elim (traverse_to_dir parent s.root) [
    | none ↦ ok enoent s
    | some curr ↦ elim (get_file_dir_name path) [ none ↦ fault | some name ↦ body curr name s ]
  ]
]

-- `strcpy` into a field `char[FNSize]`.
abbrev pub fits_name : Str → Bool
fits_name name = ltb (length name) fn_size

unfoldable pub add_directory : Str → Directory → Directory
add_directory name null = null
add_directory name (node n sub sibling files) = node n (node name null sub []) sibling files

unfoldable pub make_directory : Ptr → Str → Cmd Ret
make_directory curr name = do
  require (fits_name name)
  λ s. ok (ret 0) (record s { root = modify curr (add_directory name) s.root })

unfoldable pub pb_mkdir : Str → Cmd Ret
pb_mkdir path = with_parent path make_directory

-- The first file of that name, and the files without it. The head of the list, which the source
-- tests first, is no special case.
unfoldable pub take_file : Str → List File → Option (File × List File)
take_file name [] = none
take_file name (f ∷ files) =
    let rest = take_file name files in
    if str_eq f.file_name name
    then some (f, files)
    else elim rest [ none ↦ none | some (g, files') ↦ some (g, f ∷ files') ]

unfoldable pub unlink_entry : Ptr → Str → Cmd Ret
unlink_entry curr name s = elim (take_file name (filein_dir (deref curr s.root))) [
  | none ↦ ok enoent s
  | some (f, files) ↦
      and_then (free_subsequent_blocks f.first_block s)
        λ _ s'. ok (ret 0) (record s' { root = modify curr (with_files files) s'.root })
]

unfoldable pub pb_unlink : Str → Cmd Ret
pb_unlink path = with_parent path unlink_entry

abbrev pub descriptor : Option ℕ → Ret
descriptor none = minus_one
descriptor (some i) = ret i

unfoldable pub add_file : File → Directory → Directory
add_file f null = null
add_file f (node n sub sibling files) = node n sub sibling (f ∷ files)

-- The marks that a block gets when it becomes the first block of a file.
unfoldable pub claim : ℕ → Cmd (Unit {0})
claim i = do b ← load i; store i (record b { status = 1; next_block = none })

-- The rest of `pb_openfd` and of `pb_open` once a new file is linked, with the index that
-- `getNextFreeBlockIndex` returns. `answer` is what they return for a file.
unfoldable pub give_block : (Option ℕ → Ret) → Str → Option ℕ → Cmd Ret
unfolding claim
give_block answer path none = do pb_unlink path; pure enospc
give_block answer path (some i) = do claim i; pure (answer (some i))

unfoldable pub create_file : (Option ℕ → Ret) → Str → Ptr → Str → Cmd Ret
create_file answer path curr name = do
  require (fits_name name)
  λ s.
      let first = get_next_free_block_index s.blocks in
      let f : File = record { file_name = name; first_block = first } in
      give_block answer path first (record s { root = modify curr (add_file f) s.root })

unfoldable pub open_entry : (Option ℕ → Ret) → Str → Ptr → Str → Cmd Ret
open_entry answer path curr name s = elim (get_file_present_at_dir (deref curr s.root) name) [
  | some f ↦ ok (answer f.first_block) s
  | none ↦ create_file answer path curr name s
]

unfoldable pub open_or_create : (Option ℕ → Ret) → Str → Cmd Ret
open_or_create answer path = with_parent path (open_entry answer path)

unfoldable pub pb_openfd : Str → Cmd Ret
pb_openfd = open_or_create descriptor

unfoldable pub pb_open : Str → Cmd Ret
pb_open = open_or_create (λ _. ret 0)

unfoldable pub pb_mknod : Str → Cmd Ret
pb_mknod = pb_open

unfoldable pub pb_access : Str → Cmd Ret
pb_access path = pure (ret 0)

unfoldable pub pb_opendir : Str → Cmd Ret
pb_opendir path = pure (ret 0)
