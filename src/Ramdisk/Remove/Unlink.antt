-- ===== src/Ramdisk/Remove/Unlink.antt =====
-- `removeDirectoryFromDirectory` takes the first directory of the name out of its list.
use osprograms.Base.{
  ◌≡◌, refl, sym, ap, ◌∙◌, inl, inr, some, List, [], ◌∷◌, arith, if◌then◌else◌, Bool-cases,
  Option-cases, Str, str_eq,
}
use osprograms.Ramdisk.Tree.{
  File, Directory, null, node, with_files, across, Ptr, modify, first_named, unlink_sibling,
}
use osprograms.Ramdisk.Tree.Laws.{skeleton, skeleton-modify}
use osprograms.Ramdisk.Remove.{remove_directory}

-- The siblings without the first directory of that name.
unfoldable pub without_first : Str → Directory → Directory
without_first name null = null
without_first name (node n s b fs) = if str_eq n name then b else node n s (without_first name b) fs

unlink_sibling-without_first :
    (name n : Str) (s b : Directory) (fs : List File)
    → unlink_sibling name (node n s b fs) ≡ node n s (without_first name b) fs
unfolding unlink_sibling without_first
unlink_sibling-without_first name n s null fs = refl
unlink_sibling-without_first name n s (node n' s' b' fs') fs = elim (Bool-cases (str_eq n' name)) [
  | inl hit ↦ rw hit
  | inr miss ↦ rw miss (ap (λ x. node n s x fs) (unlink_sibling-without_first name n' s' b' fs'))
]

pub remove_directory-without_first :
    (name : Str) (d : Directory) (q : Ptr)
    → first_named name d ≡ some q
    → remove_directory name d ≡ some (without_first name d)
unfolding remove_directory first_named without_first
remove_directory-without_first name null q h = absurd (ground arith)
remove_directory-without_first name (node n s b fs) q h = elim (Bool-cases (str_eq n name)) [
  | inl hit ↦ rw hit
  | inr miss ↦ rw miss (ap some (unlink_sibling-without_first name n s b fs))
]

first_named-skeleton :
    (name : Str) (d : Directory) → first_named name (skeleton d) ≡ first_named name d
unfolding first_named skeleton
first_named-skeleton name null = refl
first_named-skeleton name (node n s b fs) = rw (first_named-skeleton name b)

pub first_named-modify :
    (name : Str) (p : Ptr) (f : Directory → Directory) (d : Directory)
    → ((x : Directory) → skeleton (f x) ≡ skeleton x)
    → first_named name (modify p f d) ≡ first_named name d
first_named-modify name p f d h =
    sym (first_named-skeleton name (modify p f d))
    ∙ ap (first_named name) (skeleton-modify p f d h)
    ∙ first_named-skeleton name d

-- A change of the files of the directory that is taken out does not show.
pub without_first-modify :
    (name : Str) (d : Directory) (q : Ptr) (files : List File)
    → first_named name d ≡ some q
    → without_first name (modify q (with_files files) d) ≡ without_first name d
unfolding first_named without_first modify
without_first-modify name null q files h = absurd (ground arith)
without_first-modify name (node n s b fs) q files h = elim (Bool-cases (str_eq n name)) [
  | inl hit ↦ let here : [] ≡ q = ground arith in rw (← here) (rw hit)
  | inr miss ↦ elim (Option-cases (first_named name b)) [
    | inl gone ↦ absurd (ground arith)
    | inr (q', e) ↦
        let there : across ∷ q' ≡ q = ground arith in
        rw (← there) (rw miss (ap (λ x. node n s x fs) (without_first-modify name b q' files e)))
  ]
]
