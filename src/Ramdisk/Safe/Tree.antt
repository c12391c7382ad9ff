-- ===== src/Ramdisk/Safe/Tree.antt =====
-- What changes of the tree keep.
use osprograms.Base.{
  Bool, true, false, Option, none, some, List, [], ◌∷◌, if◌then◌else◌, All, Str, str_eq,
}
use osprograms.Ramdisk.Tree.{
  File, Directory, null, node, filein_dir, with_files, down, across, Ptr, deref, modify,
}
use osprograms.Ramdisk.Tree.Laws.{IsNode}
use osprograms.Ramdisk.Files.{add_directory, take_file, add_file}
use osprograms.Ramdisk.Safe.{AllFiles}

module _ (P : File → Type 0) where
  pub AllFiles-modify :
      (p : Ptr) (f : Directory → Directory) (d : Directory)
      → ((x : Directory) → AllFiles P x → AllFiles P (f x))
      → AllFiles P d
      → AllFiles P (modify p f d)
  unfolding modify
  AllFiles-modify [] f d keep h = keep d h
  AllFiles-modify (t ∷ p) f null keep h = tt
  AllFiles-modify (down ∷ p) f (node n s b fs) keep h = (AllFiles-modify p f s keep h.0, h.1, h.2)
  AllFiles-modify (across ∷ p) f (node n s b fs) keep h = (h.0, AllFiles-modify p f b keep h.1, h.2)

  pub AllFiles-deref : (p : Ptr) (d : Directory) → AllFiles P d → AllFiles P (deref p d)
  unfolding deref
  AllFiles-deref [] d h = h
  AllFiles-deref (t ∷ p) null h = tt
  AllFiles-deref (down ∷ p) (node n s b fs) h = AllFiles-deref p s h.0
  AllFiles-deref (across ∷ p) (node n s b fs) h = AllFiles-deref p b h.1

  pub All-filein_dir : (d : Directory) → AllFiles P d → All P (filein_dir d)
  All-filein_dir null h = tt
  All-filein_dir (node n s b fs) h = h.2

  pub AllFiles-with_files :
      (fs : List File) (d : Directory) → All P fs → AllFiles P d → AllFiles P (with_files fs d)
  AllFiles-with_files fs null g h = tt
  AllFiles-with_files fs (node n s b gs) g h = (h.0, h.1, g)

  pub AllFiles-add_file :
      (f : File) (d : Directory) → P f → AllFiles P d → AllFiles P (add_file f d)
  unfolding add_file
  AllFiles-add_file f null g h = tt
  AllFiles-add_file f (node n s b fs) g h = (h.0, h.1, (g, h.2))

  pub AllFiles-add_directory :
      (name : Str) (d : Directory) → AllFiles P d → AllFiles P (add_directory name d)
  unfolding add_directory
  AllFiles-add_directory name null h = tt
  AllFiles-add_directory name (node n s b fs) h = ((tt, h.0, tt), h.1, h.2)

  -- What `take_file` takes, and what it leaves, was there.
  abbrev pub Taken : Option (File × List File) → Type 0
  Taken none = Unit
  Taken (some (f, gs)) = P f × All P gs

  pub Taken-take_file : (name : Str) (fs : List File) → All P fs → Taken (take_file name fs)
  unfolding take_file
  Taken-take_file name [] h = tt
  Taken-take_file name (x ∷ fs) h =
      step (str_eq x.file_name name) (take_file name fs) (Taken-take_file name fs h.1)
    where
      step :
          (b : Bool) (o : Option (File × List File))
          → Taken o
          → Taken (
              if b
              then some (x, fs)
              else elim o [ none ↦ none | some (g, files') ↦ some (g, x ∷ files') ])
      step true o t = h
      step false none t = tt
      step false (some (g, gs)) t = (t.0, (h.0, t.1))

pub IsNode-modify :
    (p : Ptr) (f : Directory → Directory) (d : Directory)
    → ((x : Directory) → IsNode x → IsNode (f x))
    → IsNode d
    → IsNode (modify p f d)
unfolding modify
IsNode-modify [] f d keep h = keep d h
IsNode-modify (t ∷ p) f null keep h = h
IsNode-modify (down ∷ p) f (node n s b fs) keep h = tt
IsNode-modify (across ∷ p) f (node n s b fs) keep h = tt

pub IsNode-with_files : (fs : List File) (d : Directory) → IsNode d → IsNode (with_files fs d)
IsNode-with_files fs null h = h
IsNode-with_files fs (node n s b gs) h = tt

pub IsNode-add_file : (f : File) (d : Directory) → IsNode d → IsNode (add_file f d)
unfolding add_file
IsNode-add_file f null h = h
IsNode-add_file f (node n s b fs) h = tt

pub IsNode-add_directory : (name : Str) (d : Directory) → IsNode d → IsNode (add_directory name d)
unfolding add_directory
IsNode-add_directory name null h = h
IsNode-add_directory name (node n s b fs) h = tt
