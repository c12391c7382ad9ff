-- ===== src/Ramdisk/Safe/Entries.antt =====
-- The handlers for entries keep the state well-formed, and meet no undefined behaviour.
use osprograms.Base.{
  ℕ, ◌<◌, ◌≡◌, refl, ap, ◌⊎◌, inl, inr, true, Option, none, some, List, [], ◌∷◌, arith, lt→ltb,
  Bool-cases, Option-cases, length, All, Str, str_eq,
}
use osprograms.Ramdisk.Paths.{get_file_dir_name}
use osprograms.Ramdisk.Tree.{
  File, Directory, filein_dir, with_files, Ptr, deref, modify, find_file, get_file_present_at_dir,
}
use osprograms.Run.{ok, and_then}
use osprograms.Ramdisk.Disk.{fn_size, Disk, Ret, ret, enoent, enospc}
use osprograms.Run.Returns.{Returns, returns, bind}
use osprograms.Run.Returns
use osprograms.Ramdisk.Blocks.{get_next_free_block_index, free_subsequent_blocks}
use osprograms.Ramdisk.Blocks.Table.{LinkIn, IsTable, get_next_free_block_index-lt}
use osprograms.Ramdisk.Blocks.Free.{free_subsequent_blocks-Freed}
use osprograms.Ramdisk.Safe.Table.{claim-SameTree}
use osprograms.Ramdisk.Files.{
  fits_name, make_directory, pb_mkdir, take_file, unlink_entry, pb_unlink, add_file, give_block,
  create_file, open_entry, open_or_create,
}
use osprograms.Ramdisk.Files.Resolve.{Resolves, with_parent-Returns}
use osprograms.Ramdisk.Safe.{IsBacked, IsSafe}
use osprograms.Ramdisk.Safe.Tree.{
  AllFiles-modify, AllFiles-deref, All-filein_dir, AllFiles-with_files, AllFiles-add_file,
  AllFiles-add_directory, Taken, Taken-take_file, IsNode-modify, IsNode-with_files, IsNode-add_file,
  IsNode-add_directory,
}
use osprograms.Ramdisk.Files.Full.{create_file-full}

-- The entry's name fits the field `char[FNSize]`.
abbrev pub NameFits : Str → Type 0
NameFits path = (name : Str) → get_file_dir_name path ≡ some name → length name < fn_size

pub name_fits :
    {path : Str} {root : Directory} {curr : Ptr} {name : Str}
    → NameFits path
    → Resolves path root curr name
    → fits_name name ≡ true
name_fits {name} fits r = lt→ltb (length name) fn_size (fits name r.entry_name)

module _ (n : ℕ) where
  -- On a well-formed state `pb_mkdir` of a name that fits returns, and the state stays well-formed.
  pub pb_mkdir-IsSafe :
      (path : Str) (s : Disk)
      → NameFits path
      → IsSafe n s
      → Returns (λ _. IsSafe n) (pb_mkdir path s)
  unfolding pb_mkdir make_directory
  pb_mkdir-IsSafe path s fits h =
      with_parent-Returns (λ _. IsSafe n) path s make_directory h
        λ curr name r. rw (name_fits fits r) (
          returns (record {
            table = record { size = h.table.size; blocks = h.table.blocks; fresh = h.table.fresh };
            root = IsNode-modify curr _ s.root (IsNode-add_directory name) h.root;
            files =
                AllFiles-modify (IsBacked n) curr _ s.root
                  (AllFiles-add_directory (IsBacked n) name) h.files;
          }))

  unlink_entry-IsSafe :
      (curr : Ptr) (name : Str) (s : Disk)
      → IsSafe n s
      → Returns (λ _. IsSafe n) (unlink_entry curr name s)
  unfolding unlink_entry
  unlink_entry-IsSafe curr name s h = step (take_file name (filein_dir (deref curr s.root))) (
      Taken-take_file (IsBacked n) name _
        (All-filein_dir (IsBacked n) _ (AllFiles-deref (IsBacked n) curr s.root h.files)))
    where
      linked : (f : File) → IsBacked n f → LinkIn n f.first_block
      linked f b = ground arith

      step :
          (o : Option (File × List File))
          → Taken (IsBacked n) o
          → Returns
              (λ _. IsSafe n)
              (elim o [
                | none ↦ ok enoent s
                | some (f, files) ↦
                    and_then (free_subsequent_blocks f.first_block s) λ _ s'.
                      ok (ret 0) (record s' { root = modify curr (with_files files) s'.root })
              ])
      step none t = returns h
      step (some (f, files)) t =
          Returns.bind (free_subsequent_blocks-Freed n f.first_block s h.table (linked f t.0))
            λ _ u (d, _). returns (record {
              table = record {
                size = d.table.size;
                blocks = d.table.blocks;
                fresh = d.table.fresh;
              };
              root = IsNode-modify curr _ u.root (IsNode-with_files files) (rw d.root h.root);
              files =
                  AllFiles-modify (IsBacked n) curr _ u.root
                    (λ x. AllFiles-with_files (IsBacked n) files x t.1) (rw d.root h.files);
            })

  -- On a well-formed state `pb_unlink` returns, whatever the path is, and the state stays well-formed.
  pub pb_unlink-IsSafe :
      (path : Str) (s : Disk) → IsSafe n s → Returns (λ _. IsSafe n) (pb_unlink path s)
  unfolding pb_unlink
  pb_unlink-IsSafe path s h =
      with_parent-Returns (λ _. IsSafe n) path s unlink_entry h
        λ curr name r. unlink_entry-IsSafe curr name s h

  -- What opening a file returns: an error, or the answer for a block of the table.
  abbrev pub Answered : (Option ℕ → Ret) → Ret → Type 0
  Answered answer r = (r ≡ enoent) ⊎ ((r ≡ enospc) ⊎ ((i : ℕ) × (r ≡ answer (some i)) × (i < n)))

  abbrev pub Opened : (Option ℕ → Ret) → Ret → Disk → Type 0
  Opened answer r t = IsSafe n t × Answered answer r

  create_file-Opened :
      (answer : Option ℕ → Ret) (path name : Str) (curr : Ptr) (s : Disk)
      → NameFits path
      → Resolves path s.root curr name
      → IsSafe n s
      → Returns (Opened answer) (create_file answer path curr name s)
  create_file-Opened answer path name curr s fits r h =
      elim (Option-cases (get_next_free_block_index s.blocks)) [
        | inl full ↦
            rw (create_file-full answer path name curr s h.root r (name_fits fits r) full)
              (returns (h, inr (inl refl)))
        | inr (i, free) ↦
            let lt : i < n = rw h.table.size at (get_next_free_block_index-lt s.blocks i free) in
            let f : File = record { file_name = name; first_block = some i } in
            let linked : Disk = record s { root = modify curr (add_file f) s.root } in
            let table : IsTable n linked = record {
              size = h.table.size;
              blocks = h.table.blocks;
              fresh = h.table.fresh;
            } in
            unfold create_file give_block in
            rw (name_fits fits r) (
              rw (free, give_block)
                (Returns.bind (claim-SameTree n i linked table lt) λ _ t d. returns (
                  record {
                    table = d.table;
                    root = rw d.root (IsNode-modify curr _ s.root (IsNode-add_file f) h.root);
                    files = rw d.root (
                        AllFiles-modify (IsBacked n) curr _ s.root
                          (λ x. AllFiles-add_file (IsBacked n) f x lt) h.files);
                  },
                  inr (inr (i, refl, lt)),
                )))
      ]

  find_file-IsBacked :
      (name : Str) (files : List File) (f : File)
      → All (IsBacked n) files
      → find_file name files ≡ some f
      → (i : ℕ) × (f.first_block ≡ some i) × (i < n)
  unfolding find_file
  find_file-IsBacked name [] f h e = absurd (ground arith)
  find_file-IsBacked name (x ∷ files) f h e = elim (Bool-cases (str_eq x.file_name name)) [
    | inl hit ↦ elim (Option-cases x.first_block) [
      | inl gone ↦ absurd (rw gone at h.0)
      | inr (i, e') ↦ (i, ground arith, ground arith)
    ]
    | inr miss ↦ find_file-IsBacked name files f h.1 (ground arith)
  ]

  -- On a well-formed state `pb_open`, `pb_openfd` and `pb_mknod` of a name that fits return an error or an answer for a
  -- block of the table, and the state stays well-formed; so it does where the disk is full.
  pub open_or_create-Opened :
      (answer : Option ℕ → Ret) (path : Str) (s : Disk)
      → NameFits path
      → IsSafe n s
      → Returns (Opened answer) (open_or_create answer path s)
  unfolding open_or_create open_entry get_file_present_at_dir
  open_or_create-Opened answer path s fits h =
      with_parent-Returns (Opened answer) path s (open_entry answer path) (h, inl refl)
        λ curr name r.
          let files =
            All-filein_dir (IsBacked n) _ (AllFiles-deref (IsBacked n) curr s.root h.files) in
          elim (Option-cases (find_file name (filein_dir (deref curr s.root)))) [
            | inl e ↦ rw (e, open_entry) (create_file-Opened answer path name curr s fits r h)
            | inr (f, e) ↦
                let (i, first, lt) = find_file-IsBacked name _ f files e in
                rw (e, open_entry) (returns (h, inr (inr (i, ap answer first, lt))))
          ]
