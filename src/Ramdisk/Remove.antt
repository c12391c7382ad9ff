-- ===== src/Ramdisk/Remove.antt =====
-- `pb_rmdir` and `removeDirectoryFromDirectory` of fuseLibrary.c.
pub mod Unlink
pub mod Empty
pub mod Nested
pub mod Loop
use osprograms.Base.{
  ℕ, zero, suc, Option, none, some, [], ◌∷◌, ◌++◌, ltb, if◌then◌else◌, length, Str, str_eq,
}
use osprograms.Ramdisk.Paths.{join}
use osprograms.Ramdisk.Tree.{
  Directory, null, node, subdirectory, filein_dir, with_subdirectory, Ptr, deref, modify,
  get_dir_present_at_dir, unlink_sibling,
}
use osprograms.Run.{ok, fault, out_of_fuel, pure, require, ◌>>=◌, ◌>>◌}
use osprograms.Ramdisk.Disk.{Ret, ret, enoent, Cmd}
use osprograms.Ramdisk.Files.{with_parent, pb_unlink}

-- The array `filePath`.
abbrev pub path_room : ℕ
path_room = 100

-- With no child the walk of the source begins at NULL.
unfoldable pub remove_directory : Str → Directory → Option Directory
remove_directory name null = none
remove_directory name (node n sub sibling files) =
    if str_eq n name then some sibling else some (unlink_sibling name (node n sub sibling files))

unfoldable pub remove_directory_from_directory : Ptr → Str → Cmd (Unit {0})
remove_directory_from_directory curr name s =
    elim (remove_directory name (subdirectory (deref curr s.root))) [
      | none ↦ fault
      | some sub ↦ ok tt (record s { root = modify curr (with_subdirectory sub) s.root })
    ]

-- `while (processingDir->fileinDir != NULL) { … pb_unlink(filePath); }`
unfoldable pub remove_files : ℕ → Str → Ptr → Cmd (Unit {0})
remove_files zero path dir s = out_of_fuel
remove_files (suc fuel) path dir s = elim (filein_dir (deref dir s.root)) [
  | [] ↦ ok tt s
  | f ∷ files ↦
      (do
        require (ltb (length (join path f.file_name)) path_room)
        pb_unlink (join path f.file_name)
        remove_files fuel path dir)
        s
]

-- `processingDir->subdirectory = processingDir->subdirectory->siblingDirectory`
unfoldable pub skip_subdirectory : Ptr → Cmd (Unit {0})
skip_subdirectory dir s = elim (subdirectory (deref dir s.root)) [
  | null ↦ fault
  | node n sub sibling files ↦
      ok tt (record s { root = modify dir (with_subdirectory sibling) s.root })
]

-- `while (processingDir->subdirectory != NULL) { … pb_rmdir(filePath); … }`, `rmdir` being the
-- handler's call of itself.
unfoldable pub remove_subdirectories : (Str → Cmd Ret) → ℕ → Str → Ptr → Cmd (Unit {0})
remove_subdirectories rmdir zero path dir s = out_of_fuel
remove_subdirectories rmdir (suc fuel) path dir s = elim (subdirectory (deref dir s.root)) [
  | null ↦ ok tt s
  | node n sub sibling files ↦
      (do
        require (ltb (length (join path n)) path_room)
        rmdir (join path n)
        skip_subdirectory dir
        remove_subdirectories rmdir fuel path dir)
        s
]

-- The body of `pb_rmdir` once the directory is found.
unfoldable pub remove_tree : (Str → Cmd Ret) → ℕ → Str → Ptr → Ptr → Str → Cmd Ret
remove_tree rmdir fuel path curr dir name = do
  remove_files fuel path dir
  remove_subdirectories rmdir fuel path dir
  remove_directory_from_directory curr name
  pure (ret 0)

-- `pb_rmdir` behind the lines that look the directory up. Its fuel bounds the depth of the calls
-- and the rounds of each loop.
unfoldable pub remove_entry : (Str → Cmd Ret) → ℕ → Str → Ptr → Str → Cmd Ret
remove_entry rmdir fuel path curr name s = elim (get_dir_present_at_dir (deref curr s.root) name) [
  | none ↦ ok enoent s
  | some p ↦ remove_tree rmdir fuel path curr (curr ++ p) name s
]

unfoldable pub pb_rmdir : ℕ → Str → Cmd Ret
pb_rmdir zero path s = out_of_fuel
pb_rmdir (suc fuel) path s = with_parent path (remove_entry (pb_rmdir fuel) fuel path) s
