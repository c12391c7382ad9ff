-- ===== src/Ramdisk/Io/Spent.antt =====
-- How many blocks of the table are taken while a long file is written.
use osprograms.Run.{ok}
use osprograms.Base.{
  ℕ, zero, suc, ◌+◌, ◌≤◌, ◌≡◌, ◌∙◌, none, some, List, [], ◌∷◌, arith, length, get_elem?, set,
  length-set, get_elem?-set_self, get_elem?-lt, Str,
}
use osprograms.Ramdisk.Disk.{block_size, Block, Disk, Cmd}
use osprograms.Ramdisk.Blocks.{get_next_free_block_index}
use osprograms.Ramdisk.Blocks.Table.{occupied, next_free-none}
use osprograms.Ramdisk.Io.Chain.{IsTaken, Tip, tied, filled_block, filled}

pub occupied-set_le :
    (blocks : List Block) (i : ℕ) (c : Block) → occupied (set blocks i c) ≤ suc (occupied blocks)
unfolding occupied
occupied-set_le [] i c = omega arith
occupied-set_le (x ∷ blocks) zero c = ground arith
occupied-set_le (x ∷ blocks) (suc i) c = ground (arith, occupied-set_le blocks i c)

pub occupied-set_taken :
    (blocks : List Block) (i : ℕ) (b c : Block)
    → get_elem? blocks i ≡ some b
    → IsTaken b
    → occupied (set blocks i c) ≤ occupied blocks
unfolding occupied
occupied-set_taken [] i b c h t = absurd (ground arith)
occupied-set_taken (x ∷ blocks) zero b c h t = ground arith
occupied-set_taken (x ∷ blocks) (suc i) b c h t =
    ground (arith, occupied-set_taken blocks i b c h t)

-- Of the blocks of a table of `size`, at most `used` more than `base` are taken.
abbrev pub Spent : ℕ → ℕ → ℕ → Disk → Type 0
Spent size base used s = (length s.blocks ≡ size) × (occupied s.blocks ≤ base + used)

pub Spent-full :
    (size base used : ℕ) (s : Disk)
    → Spent size base used s
    → get_next_free_block_index s.blocks ≡ none
    → size ≤ base + used
unfolding get_next_free_block_index
Spent-full size base used s h full = omega (arith, h.0, h.1, next_free-none 0 s.blocks full)

module _ (mark : ℕ → Cmd (Unit {0})) (marked : Block → Block)
    (marks : (n : ℕ) (b : Block) (s : Disk)
      → get_elem? s.blocks n ≡ some b
      → mark n s ≡ ok tt (record s { blocks = set s.blocks n (marked b) }))
    (takes : (b : Block) → IsTaken (marked b)) (path : Str) (buf : List ℕ) (m : ℕ)
    (enough : m ≤ length buf) (start k : ℕ) (written : List ℕ) (s : Disk)
    (tip : Tip start k block_size written s) where
  pub filled-Spent :
      (size base used n : ℕ) (b : Block)
      → Spent size base used s
      → get_elem? (tied mark marked marks takes path buf m enough start k written s tip n).blocks n
        ≡ some b
      → Spent size base
          (suc used)
          (filled mark marked marks takes path buf m enough start k written s tip n b)
  filled-Spent size base used n b h there =
      let d = tied mark marked marks takes path buf m enough start k written s tip n in
      let f = filled_block mark marked marks takes path buf m enough start k written s tip b in
      let here = get_elem?-set_self d.blocks n (marked b) (get_elem?-lt d.blocks n b there) in
      (
        length-set _ n f ∙ (length-set d.blocks n (marked b) ∙ (length-set s.blocks k _ ∙ h.0)),
        omega (
          arith,
          h.1,
          occupied-set_taken s.blocks k tip.block (record tip.block { next_block = some n })
              tip.there tip.taken,
          occupied-set_le d.blocks n (marked b),
          occupied-set_taken (set d.blocks n (marked b)) n (marked b) f here (takes b),
        ),
      )
