-- ===== src/Ramdisk/Blocks/Free.antt =====
-- `freeSubsequentBlocks` ends, stays within the table, and frees blocks or leaves them alone.
use native.Mathlib.Numerals.{add-one}
use osprograms.Base.{
  ℕ, zero, suc, ◌+◌, ◌<◌, ◌≡◌, refl, ◌∙◌, ◌⊎◌, inl, inr, true, Option, none, some, List, arith,
  ◌==◌, Bool-cases, length, get_elem?, set, length-set, get_elem?-set_self, get_elem?-set_ne,
  get_elem?-some, All-get, All-set,
}
use osprograms.Run.{ok}
use osprograms.Ramdisk.Disk.{Block, Disk}
use osprograms.Run.Returns.{Returns, returns, mono}
use osprograms.Run.Returns
use osprograms.Ramdisk.Blocks.{is_free, clear_block, free_from, free_subsequent_blocks}
use osprograms.Ramdisk.Blocks.Table.{LinkIn, IsBlock, IsTable, occupied, occupied-set, occupied-le}

-- Each block is as it was, or free.
abbrev pub FreedOrSame : List Block → List Block → Type 0
FreedOrSame old new =
    (i : ℕ) → (get_elem? new i ≡ get_elem? old i) ⊎ (is_free (get_elem? new i) ≡ true)

-- What a call of `freeSubsequentBlocks` leaves, from the state `s`.
pub record Freed (n : ℕ) (s t : Disk) : Type 0 where
  pub table : IsTable n t
  pub root : t.root ≡ s.root
  pub blocks : FreedOrSame s.blocks t.blocks

abbrev pub IsFree : Disk → Option ℕ → Type 0
IsFree s none = Unit
IsFree s (some i) = is_free (get_elem? s.blocks i) ≡ true

clear_block-IsTable : (n i : ℕ) (b : Block) (s : Disk) → IsTable n s → IsTable n (clear_block i b s)
clear_block-IsTable n i b s h = record {
  size = length-set s.blocks i _ ∙ h.size;
  blocks = All-set (IsBlock n) s.blocks i _ h.blocks (tt, h.fresh 0);
  fresh = λ j. h.fresh (j + 1);
}

FreedOrSame-set :
    (blocks : List Block) (i : ℕ) (c : Block)
    → i < length blocks
    → c.status ≡ 0
    → FreedOrSame blocks (set blocks i c)
FreedOrSame-set blocks i c h f j = elim (Bool-cases (i == j)) [
  | inl e ↦
      let e' : i ≡ j = ground arith in
      inr (rw (← e') (rw (get_elem?-set_self blocks i c h) (ground arith)))
  | inr e ↦ inl (get_elem?-set_ne blocks i j c (ground arith))
]

IsFree-FreedOrSame :
    (old new : List Block) (i : ℕ)
    → FreedOrSame old new
    → is_free (get_elem? old i) ≡ true
    → is_free (get_elem? new i) ≡ true
IsFree-FreedOrSame old new i h f = elim (h i) [ inl e ↦ rw e f | inr e ↦ e ]

pub FreedOrSame-trans : (a b c : List Block) → FreedOrSame a b → FreedOrSame b c → FreedOrSame a c
FreedOrSame-trans a b c h k i = elim (k i) [
  | inr e ↦ inr e
  | inl e ↦ elim (h i) [ inl e' ↦ inl (e ∙ e') | inr e' ↦ inr (rw e e') ]
]

module _ (n : ℕ) where
  free_from-Freed :
      (fuel : ℕ) (link : Option ℕ) (s : Disk)
      → IsTable n s
      → LinkIn n link
      → occupied s.blocks < fuel
      → Returns (λ _ t. Freed n s t × IsFree t link) (free_from fuel link s)
  unfolding free_from
  free_from-Freed zero link s h l f = absurd (omega arith)
  free_from-Freed (suc fuel) none s h l f =
      returns (record { table = h; root = refl; blocks = λ i. inl refl }, tt)
  free_from-Freed (suc fuel) (some i) s h l f =
      let (b, e) = get_elem?-some s.blocks i (rw h.size l) in
      elim (Bool-cases (b.status == 0)) [
        | inl free ↦
            rw (e, free_from)
              (rw (free, free_from)
                (returns (record { table = h; root = refl; blocks = λ j. inl refl }, rw e free)))
        | inr taken ↦
            let first = FreedOrSame-set s.blocks i _ (rw h.size l) refl in
            rw (e, free_from)
              (rw (taken, free_from)
                (Returns.mono
                  (free_from-Freed fuel b.next_block (clear_block i b s)
                    (clear_block-IsTable n i b s h) (All-get (IsBlock n) s.blocks i b h.blocks e).0
                    (omega (
                      arith,
                      occupied-set s.blocks i b
                          (record { next_block = none; block_content = s.fresh 0; status = 0 }) e
                          taken refl,
                    )))
                  λ _ t (d, _). (
                    record {
                      table = d.table;
                      root = d.root;
                      blocks = FreedOrSame-trans s.blocks _ t.blocks first d.blocks;
                    },
                    IsFree-FreedOrSame _ t.blocks i d.blocks
                        (rw (get_elem?-set_self s.blocks i _ (rw h.size l))),
                  )))
      ]

  -- On a safe table `freeSubsequentBlocks` returns: it reads no index out of the table, a block that
  -- it changes is free afterwards, and so is the block that it is called with.
  pub free_subsequent_blocks-Freed :
      (link : Option ℕ) (s : Disk)
      → IsTable n s
      → LinkIn n link
      → Returns (λ _ t. Freed n s t × IsFree t link) (free_subsequent_blocks link s)
  unfolding free_subsequent_blocks
  free_subsequent_blocks-Freed link s h l =
      free_from-Freed (length s.blocks + 1) link s h l (omega (arith, occupied-le s.blocks))

pub free_subsequent_blocks-none : (s : Disk) → free_subsequent_blocks none s ≡ ok tt s
unfolding free_subsequent_blocks
free_subsequent_blocks-none s = rw add-one
