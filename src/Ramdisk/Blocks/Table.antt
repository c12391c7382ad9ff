-- ===== src/Ramdisk/Blocks/Table.antt =====
-- When the table of blocks is safe to index, and how many blocks are taken.
use osprograms.Base.{
  ℕ, zero, suc, ◌+◌, ◌≤◌, ◌<◌, ◌≡◌, refl, inl, inr, true, false, Option, none, some, List, [], ◌∷◌,
  arith, ◌==◌, if◌then◌else◌, Bool-cases, Option-cases, length, get_elem?, set, All, get_elem?-lt,
}
use osprograms.Ramdisk.Disk.{block_size, Block, Disk}
use osprograms.Ramdisk.Blocks.{next_free, get_next_free_block_index, is_free}

abbrev pub LinkIn : ℕ → Option ℕ → Type 0
LinkIn n none = Unit
LinkIn n (some i) = i < n

abbrev pub IsBlock : ℕ → Block → Type 0
IsBlock n b = LinkIn n b.next_block × (length b.block_content ≡ block_size)

-- Every link of the table points into it, and every array, also those to come, has `BlockSize`
-- bytes. `n` is `numBlocks`.
pub record IsTable (n : ℕ) (s : Disk) : Type 0 where
  pub size : length s.blocks ≡ n
  pub blocks : All (IsBlock n) s.blocks
  pub fresh : (i : ℕ) → length (s.fresh i) ≡ block_size

unfoldable pub occupied : List Block → ℕ
occupied [] = 0
occupied (b ∷ blocks) = if b.status == 0 then occupied blocks else suc (occupied blocks)

pub occupied-set :
    (blocks : List Block) (i : ℕ) (b c : Block)
    → get_elem? blocks i ≡ some b
    → (b.status == 0) ≡ false
    → c.status ≡ 0
    → suc (occupied (set blocks i c)) ≡ occupied blocks
unfolding occupied
occupied-set [] i b c h t f = absurd (ground arith)
occupied-set (x ∷ blocks) zero b c h t f = ground arith
occupied-set (x ∷ blocks) (suc i) b c h t f = ground (arith, occupied-set blocks i b c h t f)

pub occupied-le : (blocks : List Block) → occupied blocks ≤ length blocks
unfolding occupied
occupied-le [] = omega arith
occupied-le (b ∷ blocks) = ground (arith, occupied-le blocks)

-- What `next_free` finds: the first free block, and nothing only where all are taken.
pub next_free-some :
    (k : ℕ) (blocks : List Block) (i : ℕ)
    → next_free k blocks ≡ some i
    → (j : ℕ) × (i ≡ k + j) × (is_free (get_elem? blocks j) ≡ true)
unfolding next_free
next_free-some k [] i h = absurd (ground arith)
next_free-some k (b ∷ blocks) i h = elim (Bool-cases (b.status == 0)) [
  | inl free ↦ (0, ground arith, free)
  | inr taken ↦
      let (j, e, f) = next_free-some (k + 1) blocks i (ground arith) in (suc j, omega arith, f)
]

pub next_free-none :
    (k : ℕ) (blocks : List Block) → next_free k blocks ≡ none → occupied blocks ≡ length blocks
unfolding next_free occupied
next_free-none k [] h = refl
next_free-none k (b ∷ blocks) h = ground (arith, next_free-none (k + 1) blocks)

-- `getNextFreeBlockIndex` returns a block of the table whose status is 0.
pub get_next_free_block_index-free :
    (blocks : List Block) (i : ℕ)
    → get_next_free_block_index blocks ≡ some i
    → is_free (get_elem? blocks i) ≡ true
unfolding get_next_free_block_index
get_next_free_block_index-free blocks i h =
    let (j, e, f) = next_free-some 0 blocks i h in let e' : i ≡ j = omega arith in rw e' f

pub get_next_free_block_index-lt :
    (blocks : List Block) (i : ℕ) → get_next_free_block_index blocks ≡ some i → i < length blocks
get_next_free_block_index-lt blocks i h = elim (Option-cases (get_elem? blocks i)) [
  | inl e ↦ absurd (ground (arith, get_next_free_block_index-free blocks i h))
  | inr (b, e) ↦ get_elem?-lt blocks i b e
]
