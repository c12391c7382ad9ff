-- ===== src/Ramdisk/Remove/Nested.antt =====
-- `pb_rmdir` of a directory with one subdirectory.
use osprograms.Base.{
  ℕ, suc, ◌<◌, ◌≡◌, refl, ◌∙◌, some, [], ◌∷◌, ◌++◌, arith, ◌==◌, if◌then◌else◌, lt→ltb, length, Str,
  str_eq_refl,
}
use osprograms.Ramdisk.Paths.{root_path, join, IsName}
use osprograms.Ramdisk.Tree.{
  Directory, null, node, subdirectory, filein_dir, with_subdirectory, down, Ptr, deref, modify,
  traverse_to_dir, first_named, get_dir_present_at_dir,
}
use osprograms.Ramdisk.Tree.Laws.{
  deref-modify, deref-append, IsNode, IsNode→ne_null, traverse_to_dir-IsValid,
}
use osprograms.Run.{ok, fault}
use osprograms.Ramdisk.Disk.{Disk, ret}
use osprograms.Ramdisk.Files.Resolve.{Resolves, with_parent-Resolves, Resolves-join}
use osprograms.Ramdisk.Remove.{
  path_room, remove_directory, remove_directory_from_directory, remove_files, skip_subdirectory,
  remove_subdirectories, remove_tree, remove_entry, pb_rmdir,
}
use osprograms.Ramdisk.Remove.Empty.{remove_subdirectories-null}

remove_files-none :
    (fuel : ℕ) (path : Str) (dir : Ptr) (s : Disk)
    → filein_dir (deref dir s.root) ≡ []
    → remove_files (suc fuel) path dir s ≡ ok tt s
unfolding remove_files
remove_files-none fuel path dir s e = rw (e, remove_files)

-- A directory of this name alone among its siblings, with nothing in it.
abbrev only_child : Str → Directory
only_child child = node child null null []

first_named-only_child : (child : Str) → first_named child (only_child child) ≡ some []
unfolding first_named
first_named-only_child child = rw (str_eq_refl child)

remove_directory-only_child : (child : Str) → remove_directory child (only_child child) ≡ some null
unfolding remove_directory
remove_directory-only_child child = rw (str_eq_refl child)

subdirectory-with_subdirectory :
    (sub d : Directory) → IsNode d → subdirectory (with_subdirectory sub d) ≡ sub
subdirectory-with_subdirectory sub null h = absurd h
subdirectory-with_subdirectory sub (node n s b fs) h = refl

module _ (path child : Str) (dir : Ptr) (s : Disk) (root : IsNode s.root) (long : 0 < length path)
    (walk : traverse_to_dir path s.root ≡ some dir)
    (only : subdirectory (deref dir s.root) ≡ only_child child) (name : IsName child)
    (fits : length (join path child) < path_room) where
  there : IsNode (deref dir s.root)
  there = rw walk at (traverse_to_dir-IsValid path s.root root)

  inner : deref (dir ++ (down ∷ [])) s.root ≡ only_child child
  inner = deref-append dir (down ∷ []) s.root ∙ step (deref dir s.root) there only
    where
      step :
          (d : Directory)
          → IsNode d
          → subdirectory d ≡ only_child child
          → deref (down ∷ []) d ≡ only_child child
      step null h e = absurd h
      step (node n a b fs) h e = unfold deref in e

  -- The state after the call of `pb_rmdir` for the child.
  abbrev without_child : Disk
  without_child = record s { root = modify dir (with_subdirectory null) s.root }

  child_removed :
      (fuel : ℕ) → pb_rmdir (suc (suc fuel)) (join path child) s ≡ ok (ret 0) without_child
  unfolding pb_rmdir remove_entry remove_tree get_dir_present_at_dir remove_directory_from_directory
  child_removed fuel =
      let parent : (if length path == 0 then root_path else path) ≡ path = ground arith in
      let r = Resolves-join path child s.root dir name (rw parent walk) in
      rw
        (with_parent-Resolves s (remove_entry (pb_rmdir (suc fuel)) (suc fuel) (join path child)) r)
        (rw (only, remove_entry)
          (rw (first_named-only_child child, remove_entry)
            (rw (remove_files-none fuel (join path child) (dir ++ (down ∷ [])) s (rw inner refl)) (
              rw
                (remove_subdirectories-null (pb_rmdir (suc fuel)) (suc fuel) (join path child)
                  (dir ++ (down ∷ [])) s (omega arith) (rw inner refl))
                (rw (only, remove_directory_from_directory)
                  (rw (remove_directory-only_child child, remove_directory_from_directory)))))))

  -- The loop over the subdirectories reads the sibling of the first one after the call that removed
  -- it: where it was the only one, that is a read through NULL.
  remove_subdirectories-fault :
      (fuel : ℕ)
      → remove_subdirectories (pb_rmdir (suc (suc fuel))) (suc (suc fuel)) path dir s ≡ fault
  unfolding remove_subdirectories skip_subdirectory
  remove_subdirectories-fault fuel =
      let gone : subdirectory (deref dir without_child.root) ≡ null =
        rw (deref-modify dir (with_subdirectory null) s.root (IsNode→ne_null _ there))
          (subdirectory-with_subdirectory null _ there) in
      rw (only, remove_subdirectories)
        (rw (lt→ltb _ _ fits) (rw (child_removed fuel) (rw (gone, skip_subdirectory))))

-- `pb_rmdir`, with a fuel of three rounds or more, of a directory that its path leads to, with no
-- file and one subdirectory, which is empty and whose path fits in `filePath`, is undefined
-- behaviour.
pub pb_rmdir-only_child :
    (path name child : Str) (curr q : Ptr) (s : Disk) (fuel : ℕ)
    → IsNode s.root
    → Resolves path s.root curr name
    → first_named name (subdirectory (deref curr s.root)) ≡ some q
    → 0 < length path
    → traverse_to_dir path s.root ≡ some (curr ++ (down ∷ q))
    → filein_dir (deref (curr ++ (down ∷ q)) s.root) ≡ []
    → subdirectory (deref (curr ++ (down ∷ q)) s.root) ≡ node child null null []
    → IsName child
    → length (join path child) < path_room
    → pb_rmdir (suc (suc (suc fuel))) path s ≡ fault
unfolding pb_rmdir remove_entry remove_tree get_dir_present_at_dir
pb_rmdir-only_child path name child curr q s fuel root r found long walk none_left only entry fits =
    rw (with_parent-Resolves s (remove_entry (pb_rmdir (suc (suc fuel))) (suc (suc fuel)) path) r) (
      rw (found, remove_entry)
        (rw (remove_files-none (suc fuel) path (curr ++ (down ∷ q)) s none_left) (
          rw (
            remove_subdirectories-fault path child (curr ++ (down ∷ q)) s root long walk only entry
              fits fuel))))
