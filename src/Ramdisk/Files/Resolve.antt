-- ===== src/Ramdisk/Files/Resolve.antt =====
-- What the lines that each handler begins with find, and the rule for a handler behind them.
use osprograms.Base.{
  ◌≡◌, ◌∙◌, inl, inr, some, arith, ◌==◌, if◌then◌else◌, Option-cases, length, drop, Str, strrchr,
}
use osprograms.Ramdisk.Paths.{
  slash, root_path, get_file_dir_name, get_parent_path, join, IsName, get_file_dir_name-join,
  get_parent_path-join,
}
use osprograms.Ramdisk.Tree.{Directory, Ptr, deref, traverse_to_dir}
use osprograms.Ramdisk.Tree.Laws.{
  skeleton, traverse_to_dir-skeleton, IsNode, traverse_to_dir-IsValid,
}
use osprograms.Ramdisk.Disk.{Disk, Ret, enoent, Cmd}
use osprograms.Run.Returns.{Returns, returns}
use osprograms.Ramdisk.Files.{with_parent}

-- The path names the entry `name` of the directory that `curr` points to.
pub record Resolves (path : Str) (root : Directory) (curr : Ptr) (name : Str) : Type 0 where
  pub parent : Str
  pub parent_path : get_parent_path path ≡ some parent
  pub entry_name : get_file_dir_name path ≡ some name
  pub walk : traverse_to_dir parent root ≡ some curr

pub with_parent-Resolves :
    {path : Str} {curr : Ptr} {name : Str} (s : Disk) (body : Ptr → Str → Cmd Ret)
    → Resolves path s.root curr name
    → with_parent path body s ≡ body curr name s
unfolding with_parent
with_parent-Resolves s body r =
    rw (r.parent_path, with_parent) (rw (r.walk, with_parent) (rw (r.entry_name, with_parent)))

pub Resolves-IsNode :
    {path : Str} {root : Directory} {curr : Ptr} {name : Str}
    → IsNode root
    → Resolves path root curr name
    → IsNode (deref curr root)
Resolves-IsNode {root} h r = rw r.walk at (traverse_to_dir-IsValid r.parent root h)

-- A change that keeps the directories keeps what a path names.
pub Resolves-skeleton :
    {path : Str} {a b : Directory} {curr : Ptr} {name : Str}
    → skeleton b ≡ skeleton a
    → Resolves path a curr name
    → Resolves path b curr name
Resolves-skeleton {a} {b} h r = record {
  parent = r.parent;
  parent_path = r.parent_path;
  entry_name = r.entry_name;
  walk = traverse_to_dir-skeleton r.parent b a h ∙ r.walk;
}

-- `getParentPath` and `getFileDirName` find a slash, or both find none.
get_file_dir_name-some :
    (path parent : Str)
    → get_parent_path path ≡ some parent
    → (name : Str) × (get_file_dir_name path ≡ some name)
unfolding get_parent_path get_file_dir_name
get_file_dir_name-some path parent h = elim (Option-cases (strrchr path slash)) [
  | inl e ↦ absurd (ground (arith, rw (e, get_parent_path) at h))
  | inr ((before, rest), e) ↦ (drop 1 rest, rw (e, get_file_dir_name))
]

-- A handler gives up with ENOENT and changes nothing, or it goes on with what the path names.
pub with_parent-Returns :
    (Q : Ret → Disk → Type 0) (path : Str) (s : Disk) (body : Ptr → Str → Cmd Ret)
    → Q enoent s
    → ((curr : Ptr) (name : Str) → Resolves path s.root curr name → Returns Q (body curr name s))
    → Returns Q (with_parent path body s)
unfolding with_parent
with_parent-Returns Q path s body gone found = elim (Option-cases (get_parent_path path)) [
  | inl e ↦ rw (e, with_parent) (returns gone)
  | inr (parent, e) ↦ elim (Option-cases (traverse_to_dir parent s.root)) [
    | inl w ↦ rw (e, with_parent) (rw (w, with_parent) (returns gone))
    | inr (curr, w) ↦
        let (name, f) = get_file_dir_name-some path parent e in
        rw (e, with_parent)
          (rw (w, with_parent)
            (rw (f, with_parent)
              (found curr name
                (record { parent = parent; parent_path = e; entry_name = f; walk = w }))))
  ]
]

-- The entries of a directory that a path names.
pub Resolves-join :
    (parent name : Str) (root : Directory) (curr : Ptr)
    → IsName name
    → traverse_to_dir (if length parent == 0 then root_path else parent) root ≡ some curr
    → Resolves (join parent name) root curr name
Resolves-join parent name root curr h w = record {
  parent = if length parent == 0 then root_path else parent;
  parent_path = get_parent_path-join parent name h;
  entry_name = get_file_dir_name-join parent name h;
  walk = w;
}
