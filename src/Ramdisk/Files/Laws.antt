-- ===== src/Ramdisk/Files/Laws.antt =====
-- What the handlers for entries do together: a new directory is found, a file is opened twice, and
-- a new file is removed again.
use osprograms.Base.{ℕ, ◌≡◌, refl, true, false, some, List, [], ◌∷◌, Str, str_eq, str_eq_refl}
use osprograms.Ramdisk.Paths.{root_path}
use osprograms.Ramdisk.Tree.{
  File, Directory, null, node, with_files, down, Ptr, deref, modify, first_named,
  get_dir_present_at_dir, find_file, get_file_present_at_dir,
}
use osprograms.Ramdisk.Tree.Laws.{deref-modify, IsNode, IsNode→ne_null}
use osprograms.Ramdisk.Tree.Stable.{spine, KeepsSpine, traverse_to_dir-modify}
use osprograms.Run.{ok}
use osprograms.Ramdisk.Disk.{Disk, ret}
use osprograms.Ramdisk.Files.{fits_name, add_directory, make_directory, pb_mkdir, add_file}
use osprograms.Ramdisk.Files.Resolve.{Resolves, with_parent-Resolves, Resolves-IsNode}
use osprograms.Ramdisk.Attributes.{directory_stat, stat_entry, pb_getattr}
use osprograms.Ramdisk.Files.Full.{new_file, filein_dir-add_file}

pub Resolves-modify :
    {path : Str} {root : Directory} {curr : Ptr} {name : Str} (f : Directory → Directory)
    → KeepsSpine f
    → Resolves path root curr name
    → Resolves path (modify curr f root) curr name
Resolves-modify {root} {curr} f keeps r = record {
  parent = r.parent;
  parent_path = r.parent_path;
  entry_name = r.entry_name;
  walk = traverse_to_dir-modify f keeps r.parent root curr r.walk;
}

KeepsSpine-add_directory : (name : Str) → KeepsSpine (add_directory name)
unfolding add_directory spine
KeepsSpine-add_directory name null = refl
KeepsSpine-add_directory name (node n s b fs) = refl

pub KeepsSpine-add_file : (f : File) → KeepsSpine (add_file f)
unfolding add_file spine
KeepsSpine-add_file f null = refl
KeepsSpine-add_file f (node n s b fs) = refl

pub KeepsSpine-with_files : (fs : List File) → KeepsSpine (with_files fs)
unfolding spine
KeepsSpine-with_files fs null = refl
KeepsSpine-with_files fs (node n s b gs) = refl

get_dir-add_directory :
    (name : Str) (d : Directory)
    → IsNode d
    → get_dir_present_at_dir (add_directory name d) name ≡ some (down ∷ [])
unfolding get_dir_present_at_dir add_directory first_named
get_dir-add_directory name null h = absurd h
get_dir-add_directory name (node n s b fs) h = rw (str_eq_refl name)

module _ (path name : Str) (curr : Ptr) (s : Disk) (h : IsNode s.root)
    (r : Resolves path s.root curr name) where
  -- Where the path leads to a directory and is not the root's, `pb_mkdir` of a name that fits
  -- succeeds, and `pb_getattr` then finds a directory there.
  pub pb_getattr-pb_mkdir :
      fits_name name ≡ true
      → str_eq path root_path ≡ false
      → (t : Disk) × (pb_mkdir path s ≡ ok (ret 0) t)
        × (pb_getattr path t ≡ ok (some (directory_stat 1)) t)
  unfolding pb_mkdir make_directory pb_getattr stat_entry
  pb_getattr-pb_mkdir fits inner =
      let r' = Resolves-modify (add_directory name) (KeepsSpine-add_directory name) r in
      let node = Resolves-IsNode h r in
      let there = modify curr (add_directory name) s.root in
      (
        record s { root = there },
        rw (with_parent-Resolves s make_directory r) (rw fits),
        rw (inner, r'.parent_path, pb_getattr)
            (rw (r'.walk, pb_getattr)
              (rw (r'.entry_name, pb_getattr)
                (rw (deref-modify curr (add_directory name) s.root (IsNode→ne_null _ node))
                  (rw (get_dir-add_directory name (deref curr s.root) node, stat_entry))))),
      )

  -- A new file that gets the block `i`.
  abbrev pub created : ℕ → Disk → Disk
  created i t = record t { root = modify curr (add_file (new_file name (some i))) t.root }

  pub find_file-created :
      (i : ℕ) (t : Disk)
      → t.root ≡ (created i s).root
      → get_file_present_at_dir (deref curr t.root) name ≡ some (new_file name (some i))
  unfolding get_file_present_at_dir find_file
  find_file-created i t e = rw e (
      rw
        (deref-modify curr (add_file (new_file name (some i))) s.root
          (IsNode→ne_null _ (Resolves-IsNode h r)))
        (rw (filein_dir-add_file (new_file name (some i)) _ (Resolves-IsNode h r))
          (rw (str_eq_refl name))))
