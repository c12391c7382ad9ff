-- ===== src/Ramdisk/Attributes.antt =====
-- `pb_getattr`, `getFileSize` and `pb_readdir` of fuseLibrary.c.
use osprograms.Base.{
  ℕ, zero, suc, ◌+◌, Bool, true, Option, none, some, List, [], ◌∷◌, ◌++◌, map, ◌==◌, if◌then◌else◌,
  length, get_elem?, Str, codes, str_eq,
}
use osprograms.Ramdisk.Paths.{root_path, get_file_dir_name, get_parent_path}
use osprograms.Ramdisk.Tree.{
  File, Directory, null, node, subdirectory, filein_dir, deref, traverse_to_dir,
  get_dir_present_at_dir, get_file_present_at_dir,
}
use osprograms.Run.{ok, fault, out_of_fuel, and_then}
use osprograms.Ramdisk.Disk.{Disk, Cmd}
use osprograms.Ramdisk.Blocks.{load, is_free}

-- `strlen` of an array: `none` where no byte of it is NUL, since the call then reads past its end.
unfoldable pub strlen : List ℕ → Option ℕ
strlen [] = none
strlen (x ∷ xs) =
    let rest = strlen xs in
    if x == 0 then some 0 else elim rest [ none ↦ none | some n ↦ some (suc n) ]

-- A `nextBlock` that ends a chain: -1, and 0 too, which the source compares with NULL.
abbrev pub ends : Option ℕ → Bool
ends none = true
ends (some i) = i == 0

-- The loop of `getFileSize`, at the block `i`.
unfoldable pub size_from : ℕ → ℕ → ℕ → Cmd ℕ
unfolding load strlen
size_from zero i size s = out_of_fuel
size_from (suc fuel) i size s = elim (get_elem? s.blocks i) [
  | none ↦ fault
  | some b ↦ elim (strlen b.block_content) [
    | none ↦ fault
    | some n ↦ elim b.next_block [
      | none ↦ ok (size + n) s
      | some j ↦
          let rest = size_from fuel j (size + n) s in
          if j == 0
          then ok (size + n) s
          else if is_free (get_elem? s.blocks j)
          then ok (size + n) s
          else rest
    ]
  ]
]

unfoldable pub get_file_size : File → Cmd ℕ
unfolding size_from
get_file_size f s = elim f.first_block [
  | none ↦ fault
  | some i ↦ size_from (length s.blocks + 1) i 0 s
]

pub data Kind : Type 0 where
  regular directory : Kind

-- What `pb_getattr` fills in of `struct stat`; a regular file alone gets a size.
pub record Stat : Type 0 where
  pub st_mode : Kind
  pub st_nlink : ℕ
  pub st_size : Option ℕ

abbrev pub directory_stat : ℕ → Stat
directory_stat links = record { st_mode = directory; st_nlink = links; st_size = none }

-- What is there under a name: a directory before a file.
unfoldable pub stat_entry : Directory → Str → Cmd (Option Stat)
unfolding get_file_size
stat_entry d name t = elim (get_dir_present_at_dir d name) [
  | some p ↦ ok (some (directory_stat 1)) t
  | none ↦ elim (get_file_present_at_dir d name) [
    | none ↦ ok none t
    | some f ↦
        and_then (get_file_size f t)
          λ size. ok (some (record { st_mode = regular; st_nlink = 1; st_size = some size }))
  ]
]

-- `none` is ENOENT.
unfoldable pub pb_getattr : Str → Cmd (Option Stat)
unfolding stat_entry
pb_getattr path s =
    if str_eq path root_path then ok (some (directory_stat 2)) s else elim (get_parent_path path) [
      | none ↦ ok none s
      | some parent ↦ elim (traverse_to_dir parent s.root) [
        | none ↦ ok none s
        | some curr ↦ elim (get_file_dir_name path) [
          | none ↦ fault
          | some name ↦ stat_entry (deref curr s.root) name s
        ]
      ]
    ]

unfoldable pub directory_names : Directory → List Str
directory_names null = []
directory_names (node name sub sibling files) = name ∷ directory_names sibling

-- The names that `pb_readdir` hands to FUSE's `filler`, in order. It always returns 0.
unfoldable pub pb_readdir : Str → Disk → List Str
unfolding directory_names
pb_readdir path s = codes "." ∷ codes ".." ∷ elim (traverse_to_dir path s.root) [
  | none ↦ []
  | some curr ↦
      let parent = deref curr s.root in
      directory_names (subdirectory parent) ++ map (λ f. f.file_name) (filein_dir parent)
]
