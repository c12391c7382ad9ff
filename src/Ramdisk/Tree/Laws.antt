-- ===== src/Ramdisk/Tree/Laws.antt =====
-- Laws of pointers into the tree of directories, and of the walk that finds them.
use osprograms.Base.{
  ◌≡◌, refl, ap, ◌≢◌, inl, inr, Bool, true, false, Option, none, some, List, [], ◌∷◌, ◌++◌, arith,
  if◌then◌else◌, Bool-cases, Option-cases, Str, str_eq, strtok,
}
use osprograms.Ramdisk.Paths.{slash, root_path}
use osprograms.Ramdisk.Tree.{
  File, Directory, null, node, down, across, Ptr, subdirectory, deref, modify, through, last_named,
  enter, traverse_tokens, traverse_to_dir, first_named,
}

-- A write is read back, where there is a node.
pub deref-modify :
    (p : Ptr) (f : Directory → Directory) (d : Directory)
    → deref p d ≢ null
    → deref p (modify p f d) ≡ f (deref p d)
unfolding deref modify
deref-modify [] f d h = refl
deref-modify (t ∷ p) f null h = absurd (h refl)
deref-modify (down ∷ p) f (node n s b fs) h = deref-modify p f s h
deref-modify (across ∷ p) f (node n s b fs) h = deref-modify p f b h

pub modify-modify :
    (p : Ptr) (f g : Directory → Directory) (d : Directory)
    → modify p f (modify p g d) ≡ modify p (λ x. f (g x)) d
unfolding modify
modify-modify [] f g d = refl
modify-modify (t ∷ p) f g null = refl
modify-modify (down ∷ p) f g (node n s b fs) = ap (λ x. node n x b fs) (modify-modify p f g s)
modify-modify (across ∷ p) f g (node n s b fs) = ap (λ x. node n s x fs) (modify-modify p f g b)

-- A write of what is there changes nothing.
pub modify-fixed :
    (p : Ptr) (f : Directory → Directory) (d : Directory)
    → f (deref p d) ≡ deref p d
    → modify p f d ≡ d
unfolding deref modify
modify-fixed [] f d h = h
modify-fixed (t ∷ p) f null h = refl
modify-fixed (down ∷ p) f (node n s b fs) h = ap (λ x. node n x b fs) (modify-fixed p f s h)
modify-fixed (across ∷ p) f (node n s b fs) h = ap (λ x. node n s x fs) (modify-fixed p f b h)

pub deref-append : (p q : Ptr) (d : Directory) → deref (p ++ q) d ≡ deref q (deref p d)
unfolding deref
deref-append [] q d = refl
deref-append (t ∷ p) [] null = refl
deref-append (t ∷ p) (u ∷ q) null = refl
deref-append (down ∷ p) q (node n s b fs) = deref-append p q s
deref-append (across ∷ p) q (node n s b fs) = deref-append p q b

-- The tree without its files: what the walks read.
unfoldable pub skeleton : Directory → Directory
skeleton null = null
skeleton (node n s b fs) = node n (skeleton s) (skeleton b) []

pub skeleton-modify :
    (p : Ptr) (f : Directory → Directory) (d : Directory)
    → ((x : Directory) → skeleton (f x) ≡ skeleton x)
    → skeleton (modify p f d) ≡ skeleton d
unfolding skeleton modify
skeleton-modify [] f d h = h d
skeleton-modify (t ∷ p) f null h = refl
skeleton-modify (down ∷ p) f (node n s b fs) h =
    ap (λ x. node n x (skeleton b) []) (skeleton-modify p f s h)
skeleton-modify (across ∷ p) f (node n s b fs) h =
    ap (λ x. node n (skeleton s) x []) (skeleton-modify p f b h)

last_named-skeleton :
    (token : Str) (d : Directory) → last_named token (skeleton d) ≡ last_named token d
unfolding skeleton last_named
last_named-skeleton token null = refl
last_named-skeleton token (node n s b fs) = rw (last_named-skeleton token b, last_named)

enter-skeleton : (token : Str) (d : Directory) → enter token (skeleton d) ≡ enter token d
unfolding skeleton enter
enter-skeleton token null = refl
enter-skeleton token (node n s b fs) = rw (last_named-skeleton token b, enter)

deref-skeleton : (p : Ptr) (d : Directory) → deref p (skeleton d) ≡ skeleton (deref p d)
unfolding skeleton deref
deref-skeleton [] d = refl
deref-skeleton (t ∷ p) null = refl
deref-skeleton (down ∷ p) (node n s b fs) = deref-skeleton p s
deref-skeleton (across ∷ p) (node n s b fs) = deref-skeleton p b

subdirectory-skeleton : (d : Directory) → subdirectory (skeleton d) ≡ skeleton (subdirectory d)
unfolding skeleton
subdirectory-skeleton null = refl
subdirectory-skeleton (node n s b fs) = refl

traverse_tokens-skeleton :
    (tokens : List Str) (d : Directory)
    → traverse_tokens tokens (skeleton d) ≡ traverse_tokens tokens d
unfolding traverse_tokens
traverse_tokens-skeleton [] d = refl
traverse_tokens-skeleton (t ∷ ts) d =
    rw (subdirectory-skeleton d, enter-skeleton, traverse_tokens)
      (elim (Option-cases (enter t (subdirectory d))) [
        | inl e ↦ rw (e, traverse_tokens)
        | inr (p, e) ↦
            rw (e, traverse_tokens)
              (ap (through (down ∷ p)) (
                rw (subdirectory-skeleton d, deref-skeleton)
                  (traverse_tokens-skeleton ts (deref p (subdirectory d)))))
      ])

pub traverse_to_dir-skeleton :
    (path : Str) (a b : Directory)
    → skeleton a ≡ skeleton b
    → traverse_to_dir path a ≡ traverse_to_dir path b
unfolding traverse_to_dir
traverse_to_dir-skeleton path a b h = ground (
  arith,
  traverse_tokens-skeleton (strtok slash path) a,
  traverse_tokens-skeleton (strtok slash path) b,
)

-- What the walks return points to a node.
abbrev pub IsNode : Directory → Type 0
IsNode null = ⊥
IsNode (node n s b fs) = Unit

abbrev pub IsValid : Directory → Option Ptr → Type 0
IsValid d none = Unit
IsValid d (some p) = IsNode (deref p d)

pub IsNode→ne_null : (d : Directory) → IsNode d → d ≢ null
IsNode→ne_null null h e = h
IsNode→ne_null (node n s b fs) h e = cc

IsValid-across :
    (n : Str) (s b : Directory) (fs : List File) (o : Option Ptr)
    → IsValid b o
    → IsValid (node n s b fs) (through (across ∷ []) o)
unfolding deref
IsValid-across n s b fs none h = tt
IsValid-across n s b fs (some p) h = h

IsValid-if :
    (test : Bool) (n : Str) (s b : Directory) (fs : List File) (o : Option Ptr)
    → IsValid (node n s b fs) o
    → IsValid (node n s b fs) (if test then some [] else o)
unfolding deref
IsValid-if true n s b fs o h = tt
IsValid-if false n s b fs o h = h

last_named-IsValid : (token : Str) (d : Directory) → IsValid d (last_named token d)
unfolding last_named deref
last_named-IsValid token null = tt
last_named-IsValid token (node n s b fs) = step (last_named token b) (last_named-IsValid token b)
  where
    step :
        (o : Option Ptr)
        → IsValid b o
        → IsValid (node n s b fs) (elim o [
          | some p ↦ some (across ∷ p)
          | none ↦ if str_eq n token then some [] else none
        ])
    step none h = IsValid-if (str_eq n token) n s b fs none tt
    step (some p) h = h

pub enter-IsValid : (token : Str) (d : Directory) → IsValid d (enter token d)
unfolding enter
enter-IsValid token null = tt
enter-IsValid token (node n s b fs) =
    IsValid-if (str_eq n token) n s b fs _ (IsValid-across n s b fs _ (last_named-IsValid token b))

pub first_named-IsValid : (name : Str) (d : Directory) → IsValid d (first_named name d)
unfolding first_named
first_named-IsValid name null = tt
first_named-IsValid name (node n s b fs) =
    IsValid-if (str_eq n name) n s b fs _ (IsValid-across n s b fs _ (first_named-IsValid name b))

traverse_tokens-IsValid :
    (tokens : List Str) (d : Directory) → IsNode d → IsValid d (traverse_tokens tokens d)
unfolding traverse_tokens deref
traverse_tokens-IsValid [] d h = h
traverse_tokens-IsValid (t ∷ ts) null h = absurd h
traverse_tokens-IsValid (t ∷ ts) (node n s b fs) h =
    step (enter t s) (enter-IsValid t s) (λ p. traverse_tokens-IsValid ts (deref p s))
  where
    join :
        (p : Ptr) (o : Option Ptr)
        → IsValid (deref p s) o
        → IsValid (node n s b fs) (through (down ∷ p) o)
    join p none v = tt
    join p (some q) v = rw deref-append v

    step :
        (o : Option Ptr)
        → IsValid s o
        → ((p : Ptr) → IsNode (deref p s) → IsValid (deref p s) (traverse_tokens ts (deref p s)))
        → IsValid
            (node n s b fs)
            (elim o [ none ↦ none | some p ↦ through (down ∷ p) (traverse_tokens ts (deref p s)) ])
    step none v rec = tt
    step (some p) v rec = join p _ (rec p v)

-- The pointer that `traverseToDir` returns is NULL or points to a directory.
pub traverse_to_dir-IsValid :
    (path : Str) (root : Directory) → IsNode root → IsValid root (traverse_to_dir path root)
unfolding traverse_to_dir deref
traverse_to_dir-IsValid path root h = elim (Bool-cases (str_eq path root_path)) [
  | inl e ↦ rw e h
  | inr e ↦ rw e (traverse_tokens-IsValid (strtok slash path) root h)
]
