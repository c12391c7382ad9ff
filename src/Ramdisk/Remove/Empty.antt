-- ===== src/Ramdisk/Remove/Empty.antt =====
-- `pb_rmdir` of a directory that holds files and no directories.
use mathlib.Core.Path.{fun_ext}
use osprograms.Ramdisk.Remove.Loop.{IsEntry, dir-IsNode, remove_files-empty}
use osprograms.Base.{
  ℕ, zero, suc, ◌<◌, ◌≡◌, refl, ap, ◌∙◌, inl, inr, some, List, [], ◌∷◌, ◌++◌, arith, Bool-cases,
  length, All, Str, str_eq,
}
use osprograms.Ramdisk.Tree.{
  File, Directory, null, node, subdirectory, filein_dir, with_subdirectory, with_files, down,
  across, Ptr, deref, modify, traverse_to_dir, first_named, get_dir_present_at_dir,
}
use osprograms.Ramdisk.Tree.Laws.{deref-modify, modify-modify, IsNode, IsNode→ne_null}
use osprograms.Run.{ok}
use osprograms.Ramdisk.Disk.{Disk, Ret, ret, Cmd}
use osprograms.Run.Returns.{Returns, returns, bind}
use osprograms.Run.Returns
use osprograms.Ramdisk.Files.Resolve.{Resolves, with_parent-Resolves, Resolves-IsNode}
use osprograms.Ramdisk.Safe.{AllFiles, IsBacked, IsSafe}
use osprograms.Ramdisk.Safe.Tree.{AllFiles-modify, AllFiles-deref, IsNode-modify}
use osprograms.Ramdisk.Remove.{
  remove_directory, remove_directory_from_directory, remove_subdirectories, remove_tree,
  remove_entry, pb_rmdir,
}
use osprograms.Ramdisk.Tree.Stable.{deref-modify-append}
use osprograms.Ramdisk.Remove.Unlink.{
  without_first, remove_directory-without_first, first_named-modify, without_first-modify,
}
use osprograms.Ramdisk.Files.Full.{skeleton-with_files}

pub remove_subdirectories-null :
    (rmdir : Str → Cmd Ret) (rounds : ℕ) (path : Str) (dir : Ptr) (t : Disk)
    → 0 < rounds
    → subdirectory (deref dir t.root) ≡ null
    → remove_subdirectories rmdir rounds path dir t ≡ ok tt t
unfolding remove_subdirectories
remove_subdirectories-null rmdir zero path dir t h e = absurd (omega arith)
remove_subdirectories-null rmdir (suc rounds) path dir t h e = rw (e, remove_subdirectories)

pub subdirectory-with_files :
    (fs : List File) (d : Directory) → subdirectory (with_files fs d) ≡ subdirectory d
subdirectory-with_files fs null = refl
subdirectory-with_files fs (node n s b gs) = refl

AllFiles-without_first :
    (P : File → Type 0) (name : Str) (d : Directory)
    → AllFiles P d
    → AllFiles P (without_first name d)
unfolding without_first
AllFiles-without_first P name null h = tt
AllFiles-without_first P name (node n s b fs) h = elim (Bool-cases (str_eq n name)) [
  | inl hit ↦ rw hit h.1
  | inr miss ↦ rw miss (h.0, AllFiles-without_first P name b h.1, h.2)
]

AllFiles-subdirectory :
    (P : File → Type 0) (d : Directory) → AllFiles P d → AllFiles P (subdirectory d)
AllFiles-subdirectory P null h = tt
AllFiles-subdirectory P (node n s b fs) h = h.0

AllFiles-with_subdirectory :
    (P : File → Type 0) (sub d : Directory)
    → AllFiles P sub
    → AllFiles P d
    → AllFiles P (with_subdirectory sub d)
AllFiles-with_subdirectory P sub null g h = tt
AllFiles-with_subdirectory P sub (node n s b fs) g h = (g, h.1, h.2)

IsNode-with_subdirectory : (sub d : Directory) → IsNode d → IsNode (with_subdirectory sub d)
IsNode-with_subdirectory sub null h = h
IsNode-with_subdirectory sub (node n s b fs) h = tt

modify-append :
    (p q : Ptr) (f : Directory → Directory) (d : Directory)
    → IsNode (deref p d)
    → modify (p ++ q) f d ≡ modify p (modify q f) d
unfolding modify deref
modify-append [] q f d h = refl
modify-append (t ∷ p) q f null h = absurd h
modify-append (down ∷ p) q f (node n s b fs) h = ap (λ x. node n x b fs) (modify-append p q f s h)
modify-append (across ∷ p) q f (node n s b fs) h = ap (λ x. node n s x fs) (modify-append p q f b h)

with_subdirectory-modify :
    (sub : Directory) (q : Ptr) (f : Directory → Directory) (d : Directory)
    → with_subdirectory sub (modify (down ∷ q) f d) ≡ with_subdirectory sub d
unfolding modify
with_subdirectory-modify sub q f null = refl
with_subdirectory-modify sub q f (node n s b fs) = refl

subdirectory-modify :
    (q : Ptr) (f : Directory → Directory) (d : Directory)
    → IsNode d
    → subdirectory (modify (down ∷ q) f d) ≡ modify q f (subdirectory d)
unfolding modify
subdirectory-modify q f null h = absurd h
subdirectory-modify q f (node n s b fs) h = refl

-- The tree without the first directory `name` of the directory at `curr`.
abbrev pub remaining : Str → Ptr → Directory → Directory
remaining name curr root =
    modify curr (with_subdirectory (without_first name (subdirectory (deref curr root)))) root

module _ (n : ℕ) (path name : Str) (curr q : Ptr) (s : Disk) (h : IsSafe n s)
    (r : Resolves path s.root curr name)
    (found : first_named name (subdirectory (deref curr s.root)) ≡ some q) where
  abbrev removed : Ptr
  removed = curr ++ (down ∷ q)

  remove_last :
      (t : Disk)
      → IsSafe n t
      → t.root ≡ modify removed (with_files []) s.root
      → Returns
          (λ _ u. IsSafe n u × (u.root ≡ remaining name curr s.root))
          (remove_directory_from_directory curr name t)
  unfolding remove_directory_from_directory
  remove_last t k e =
      let c = Resolves-IsNode h.root r in
      let chain = subdirectory (deref curr s.root) in
      let here : subdirectory (deref curr t.root) ≡ modify q (with_files []) chain =
        rw e (rw (deref-modify-append curr (down ∷ q) _ s.root c) (subdirectory-modify q _ _ c)) in
      let still : first_named name (modify q (with_files []) chain) ≡ some q =
        first_named-modify name q _ chain (skeleton-with_files []) ∙ found in
      let taken : remove_directory name (subdirectory (deref curr t.root))
          ≡ some (without_first name chain) =
        rw here (
          remove_directory-without_first name _ q still
          ∙ ap some (without_first-modify name chain q [] found)) in
      let all =
        AllFiles-without_first (IsBacked n) name chain (
          AllFiles-subdirectory (IsBacked n) _ (AllFiles-deref (IsBacked n) curr s.root h.files)) in
      rw (taken, remove_directory_from_directory)
        (returns (
          record {
            table = record { size = k.table.size; blocks = k.table.blocks; fresh = k.table.fresh };
            root = IsNode-modify curr _ t.root (IsNode-with_subdirectory _) k.root;
            files =
                AllFiles-modify (IsBacked n) curr _ t.root
                  (λ x. AllFiles-with_subdirectory (IsBacked n) _ x all) k.files;
          },
          rw (e, modify-append curr (down ∷ q) (with_files []) s.root c)
              (modify-modify curr _ _ s.root
                ∙ ap (λ g. modify curr g s.root)
                    (fun_ext
                      (with_subdirectory-modify (without_first name chain) q (with_files [])))),
        ))

  -- On a well-formed state `pb_rmdir` of a directory that its path leads to, with files whose paths
  -- fit in `filePath` and no directories, returns 0 within as many rounds as it has files: the directory is gone from its parent's list, the rest of
  -- the tree is what it was, and the state is well-formed.
  pub pb_rmdir-remaining :
      (fuel : ℕ)
      → 0 < length path
      → traverse_to_dir path s.root ≡ some removed
      → subdirectory (deref removed s.root) ≡ null
      → All (IsEntry path) (filein_dir (deref removed s.root))
      → length (filein_dir (deref removed s.root)) < fuel
      → Returns
          (λ c u. (c ≡ ret 0) × IsSafe n u × (u.root ≡ remaining name curr s.root))
          (pb_rmdir (suc fuel) path s)
  unfolding pb_rmdir remove_entry remove_tree get_dir_present_at_dir
  pb_rmdir-remaining fuel long walk flat entries enough =
      rw (with_parent-Resolves s (remove_entry (pb_rmdir fuel) fuel path) r) (
        rw (found, remove_entry)
          (Returns.bind (remove_files-empty n path long removed _ fuel s h walk refl entries enough)
            λ _ t (k, e).
              rw
                (remove_subdirectories-null (pb_rmdir fuel) fuel path removed t (omega arith)
                  (still t e))
                (Returns.bind (remove_last t k e) λ _ v (j, e'). returns (refl, j, e'))))
    where
      still :
          (t : Disk)
          → t.root ≡ modify removed (with_files []) s.root
          → subdirectory (deref removed t.root) ≡ null
      still t e = rw e (
          rw
            (deref-modify removed _ s.root
              (IsNode→ne_null _ (dir-IsNode n path long removed s h walk)))
            (subdirectory-with_files [] (deref removed s.root) ∙ flat))
