-- ===== src/Ramdisk/Tree/Stable.antt =====
-- The walk to a directory does not read what hangs below it, so a write there does not divert it.
use osprograms.Base.{
  ◌≡◌, refl, sym, ap, ◌∙◌, inl, inr, Option, none, some, List, [], ◌∷◌, ◌++◌, arith, Bool-cases,
  Option-cases, Str, str_eq, strtok,
}
use osprograms.Ramdisk.Tree.{
  Directory, null, node, Turn, down, across, Ptr, deref, modify, through, last_named, enter,
  traverse_tokens, traverse_to_dir,
}
use osprograms.Ramdisk.Tree.Laws.{IsNode, enter-IsValid}
use osprograms.Ramdisk.Paths.{slash, root_path}

-- The names of a directory and of the siblings behind it.
unfoldable pub spine : Directory → Directory
spine null = null
spine (node n s b fs) = node n null (spine b) []

-- The change touches neither the name of a directory nor its siblings.
abbrev pub KeepsSpine : (Directory → Directory) → Type 0
KeepsSpine f = (x : Directory) → spine (f x) ≡ spine x

module _ (f : Directory → Directory) (keeps : KeepsSpine f) where
  spine-modify : (p : Ptr) (d : Directory) → spine (modify p f d) ≡ spine d
  unfolding spine modify
  spine-modify [] d = keeps d
  spine-modify (t ∷ p) null = refl
  spine-modify (down ∷ p) (node n s b fs) = refl
  spine-modify (across ∷ p) (node n s b fs) = ap (λ x. node n null x []) (spine-modify p b)

last_named-spine : (token : Str) (d : Directory) → last_named token (spine d) ≡ last_named token d
unfolding spine last_named
last_named-spine token null = refl
last_named-spine token (node n s b fs) = rw (last_named-spine token b, last_named)

enter-spine : (token : Str) (d : Directory) → enter token (spine d) ≡ enter token d
unfolding spine enter
enter-spine token null = refl
enter-spine token (node n s b fs) = rw (last_named-spine token b, enter)

pub deref-modify-append :
    (q r : Ptr) (f : Directory → Directory) (d : Directory)
    → IsNode (deref q d)
    → deref q (modify (q ++ r) f d) ≡ modify r f (deref q d)
unfolding deref modify
deref-modify-append [] r f d h = refl
deref-modify-append (t ∷ q) r f null h = absurd h
deref-modify-append (down ∷ q) r f (node n s b fs) h = deref-modify-append q r f s h
deref-modify-append (across ∷ q) r f (node n s b fs) h = deref-modify-append q r f b h

through-some :
    (turns : List Turn) (o : Option Ptr) (p : Ptr)
    → through turns o ≡ some p
    → (r : Ptr) × (o ≡ some r) × (p ≡ turns ++ r)
through-some turns none p h = absurd (ground arith)
through-some turns (some r) p h = (r, refl, ground arith)

module _ (f : Directory → Directory) (keeps : KeepsSpine f) where
  traverse_tokens-modify :
      (tokens : List Str) (d : Directory) (p : Ptr)
      → traverse_tokens tokens d ≡ some p
      → traverse_tokens tokens (modify p f d) ≡ some p
  unfolding traverse_tokens modify enter
  traverse_tokens-modify [] d p h = h
  traverse_tokens-modify (t ∷ ts) null p h = absurd (ground arith)
  traverse_tokens-modify (t ∷ ts) (node n s b fs) p h = elim (Option-cases (enter t s)) [
    | inl e ↦ absurd (ground (arith, rw (e, traverse_tokens) at h))
    | inr (q, e) ↦
        let (r, walk, is) =
          through-some (down ∷ q) (traverse_tokens ts (deref q s)) p
            (rw (e, traverse_tokens) at h) in
        let same : enter t (modify (q ++ r) f s) ≡ some q =
          sym (enter-spine t (modify (q ++ r) f s))
          ∙ ap (enter t) (spine-modify f keeps (q ++ r) s)
          ∙ enter-spine t s
          ∙ e in
        let on : traverse_tokens ts (deref q (modify (q ++ r) f s)) ≡ some r =
          rw (deref-modify-append q r f s (rw e at (enter-IsValid t s)))
            (traverse_tokens-modify ts (deref q s) r walk) in
        rw is (rw (same, traverse_tokens) (rw on))
  ]

  -- A write at the directory that `traverseToDir` finds leaves the way to it.
  pub traverse_to_dir-modify :
      (path : Str) (root : Directory) (p : Ptr)
      → traverse_to_dir path root ≡ some p
      → traverse_to_dir path (modify p f root) ≡ some p
  unfolding traverse_to_dir
  traverse_to_dir-modify path root p h = elim (Bool-cases (str_eq path root_path)) [
    | inl e ↦ rw e (rw e at h)
    | inr e ↦ rw e (traverse_tokens-modify (strtok slash path) root p (rw e at h))
  ]
