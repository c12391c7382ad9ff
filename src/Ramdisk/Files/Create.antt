-- ===== src/Ramdisk/Files/Create.antt =====
-- A new file: it is found again under its block, and unlinking it takes back what opening it did.
use osprograms.Base.{
  ℕ, ◌<◌, ◌≡◌, refl, ◌∙◌, true, Option, none, some, get_elem?, set, get_elem?-some, All-get, Str,
}
use osprograms.Ramdisk.Tree.{filein_dir, with_files, Ptr, deref, modify, get_file_present_at_dir}
use osprograms.Ramdisk.Tree.Laws.{deref-modify, modify-modify, modify-fixed, IsNode, IsNode→ne_null}
use osprograms.Run.{ok}
use osprograms.Ramdisk.Blocks.{get_next_free_block_index, load}
use osprograms.Ramdisk.Blocks.Table.{IsBlock, IsTable, get_next_free_block_index-lt}
use osprograms.Ramdisk.Disk.{Block, Disk, Ret, ret}
use osprograms.Run.Returns.{Returns, returns, bind}
use osprograms.Run.Returns
use osprograms.Ramdisk.Blocks.Free.{IsFree, free_subsequent_blocks-Freed}
use osprograms.Ramdisk.Files.{
  fits_name, take_file, unlink_entry, pb_unlink, descriptor, add_file, claim, give_block,
  create_file, open_entry, open_or_create, pb_openfd,
}
use osprograms.Ramdisk.Files.Resolve.{Resolves, with_parent-Resolves, Resolves-IsNode}
use osprograms.Ramdisk.Files.Full.{
  new_file, with_files-add_file, filein_dir-add_file, take_file-head,
}
use osprograms.Ramdisk.Files.Laws.{Resolves-modify, KeepsSpine-add_file, find_file-created}
use osprograms.Ramdisk.Safe.Table.{store-SameTree}

module _ (n : ℕ) (path name : Str) (curr : Ptr) (s : Disk) (h : IsNode s.root) (table : IsTable n s)
    (r : Resolves path s.root curr name) (fits : fits_name name ≡ true)
    (missing : get_file_present_at_dir (deref curr s.root) name ≡ none) (i : ℕ)
    (free : get_next_free_block_index s.blocks ≡ some i) where
  -- The state after the file is made.
  pub record Made (t : Disk) : Type 0 where
    pub made : t.root ≡ modify curr (add_file (new_file name (some i))) s.root
    pub safe : IsTable n t
    pub block : Block
    pub claimed : t.blocks ≡ set s.blocks i (record block { status = 1; next_block = none })
    pub was : get_elem? s.blocks i ≡ some block

  create_file-Made :
      (answer : Option ℕ → Ret)
      → (t : Disk) × (create_file answer path curr name s ≡ ok (answer (some i)) t) × Made t
  unfolding create_file give_block claim
  create_file-Made answer =
      let linked : Disk = record s {
        root = modify curr (add_file (new_file name (some i))) s.root;
      } in
      let linked-table : IsTable n linked = record {
        size = table.size;
        blocks = table.blocks;
        fresh = table.fresh;
      } in
      let (b, was) = get_elem?-some s.blocks i (get_next_free_block_index-lt s.blocks i free) in
      let e : load i linked ≡ ok b linked = unfold load in rw (was, load) in
      let k = All-get (IsBlock n) s.blocks i b table.blocks was in
      let b' : Block = record b { status = 1; next_block = none } in
      (
        record linked { blocks = set s.blocks i b' },
        rw fits (rw (free, give_block) (rw e)),
        record {
          made = refl;
          safe = (store-SameTree n i b' linked linked-table (tt, k.1)).table;
          block = b;
          claimed = refl;
          was = was;
        },
      )

  pub open_or_create-Made :
      (answer : Option ℕ → Ret)
      → (t : Disk) × (open_or_create answer path s ≡ ok (answer (some i)) t) × Made t
  unfolding open_or_create open_entry
  open_or_create-Made answer =
      let (t, e, m) = create_file-Made answer in
      (t, rw (with_parent-Resolves s (open_entry answer path) r) (rw (missing, open_entry) e), m)

  pub Made-Resolves : (t : Disk) → Made t → Resolves path t.root curr name
  Made-Resolves t m = rw m.made (Resolves-modify _ (KeepsSpine-add_file _) r)

  -- Where the path leads to a directory that has no file of its name, the name fits, the table is
  -- safe and has a free block, opening the file gives it the first free block, and opening it again returns the same descriptor
  -- and changes nothing.
  pub pb_openfd-pb_openfd :
      (t : Disk) × (pb_openfd path s ≡ ok (ret i) t) × (pb_openfd path t ≡ ok (ret i) t)
  unfolding pb_openfd
  pb_openfd-pb_openfd =
      let (t, e, m) = open_or_create-Made descriptor in
      (
        t,
        e,
        unfold open_or_create open_entry in
            rw (with_parent-Resolves t (open_entry descriptor path) (Made-Resolves t m))
              (rw (find_file-created path name curr s h r i t m.made, open_entry)),
      )

  -- Where the path leads to a directory that has no file of its name, the name fits, the table is
  -- safe and has a free block, unlinking the file that was just made succeeds: the tree of directories and files is what it was,
  -- and the file's block is free.
  pub pb_unlink-pb_openfd :
      (t : Disk) × (pb_openfd path s ≡ ok (ret i) t)
      × Returns
          (λ c u. (c ≡ ret 0) × (u.root ≡ s.root) × IsFree u (some i) × IsTable n u)
          (pb_unlink path t)
  unfolding pb_openfd
  pb_unlink-pb_openfd = let (t, e, m) = open_or_create-Made descriptor in (t, e, unlinked t m)
    where
      back :
          modify curr
            (with_files (filein_dir (deref curr s.root)))
            (modify curr (add_file (new_file name (some i))) s.root)
          ≡ s.root
      back =
          modify-modify curr (with_files (filein_dir (deref curr s.root)))
            (add_file (new_file name (some i))) s.root
          ∙ modify-fixed curr _ s.root (with_files-add_file _ (deref curr s.root))

      unlinked :
          (t : Disk)
          → Made t
          → Returns
              (λ c u. (c ≡ ret 0) × (u.root ≡ s.root) × IsFree u (some i) × IsTable n u)
              (pb_unlink path t)
      unlinked t m =
          let node = Resolves-IsNode h r in
          let lt : i < n = rw table.size at (get_next_free_block_index-lt s.blocks i free) in
          let taken : take_file name (filein_dir (deref curr t.root))
              ≡ some (new_file name (some i), filein_dir (deref curr s.root)) =
            rw m.made (
              rw (deref-modify curr _ s.root (IsNode→ne_null _ node))
                (rw (filein_dir-add_file _ _ node) (take_file-head name (some i) _))) in
          unfold pb_unlink unlink_entry in
          rw (with_parent-Resolves t unlink_entry (Made-Resolves t m)) (
            rw (taken, unlink_entry)
              (Returns.bind (free_subsequent_blocks-Freed n (some i) t m.safe lt) λ _ u (d, f).
                returns (
                  refl,
                  rw d.root (rw m.made back),
                  f,
                  record { size = d.table.size; blocks = d.table.blocks; fresh = d.table.fresh },
                )))
