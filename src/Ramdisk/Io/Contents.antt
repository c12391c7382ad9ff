-- ===== src/Ramdisk/Io/Contents.antt =====
-- The contents of a file of one block: what `pb_write` leaves and `pb_read` returns.
use osprograms.Ramdisk.Io.Cut.{cut_fits, is_cut_defined-small, one_block}
use osprograms.Ramdisk.Io.{
  fits_first, splice, copy_in, seek_write, write_blocks, write_first, free_rest, write_last,
  close_chain, write_from, pb_writefile,
}
use native.Mathlib.Numerals.{unary_clauses}
use osprograms.Base.{
  ℕ, zero, suc, ◌+◌, ◌/◌, ◌%◌, ◌≤◌, ◌<◌, ◌≡◌, refl, ap, ◌∙◌, true, false, ◌&&◌, none, some, List,
  [], ◌∷◌, ◌++◌, arith, leb, ◌==◌, length, get_elem?, set, take, drop, get_elem?-set_self, set-set,
  get_elem?-lt, take-append, Str,
}
use osprograms.Run.{ok}
use osprograms.Ramdisk.Disk.{block_size, Block, Disk, ret}
use osprograms.Ramdisk.Blocks.{load}
use osprograms.Ramdisk.Attributes.{strlen, ends}

-- A byte string without a NUL.
abbrev pub IsText : List ℕ → Type 0
IsText [] = Unit
IsText (x ∷ xs) = ((x == 0) ≡ false) × IsText xs

pub IsText-append : (a b : List ℕ) → IsText a → IsText b → IsText (a ++ b)
IsText-append [] b h k = k
IsText-append (x ∷ a) b h k = (h.0, IsText-append a b h.1 k)

-- `strlen` stops at the first NUL, and finds none in a text.
pub strlen-text : (a rest : List ℕ) → IsText a → strlen (a ++ (0 ∷ rest)) ≡ some (length a)
unfolding strlen
strlen-text [] rest h = refl
strlen-text (x ∷ a) rest h = rw (strlen-text a rest h.1, h.0)

pub strlen-none : (a : List ℕ) → IsText a → strlen a ≡ none
unfolding strlen
strlen-none [] h = refl
strlen-none (x ∷ a) h = rw (strlen-none a h.1, h.0)

drop-append : (a b : List ℕ) → drop (length a) (a ++ b) ≡ b
drop-append [] b = refl
drop-append (x ∷ a) b = drop-append a b

drop-add : (n m : ℕ) (a : List ℕ) → drop (n + m) a ≡ drop m (drop n a)
drop-add zero m a = ap (λ k. drop k a) (omega arith)
drop-add (suc n) zero [] = simp unary_clauses refl
drop-add (suc n) (suc m) [] = simp unary_clauses refl
drop-add (suc n) m (x ∷ a) =
    let e : suc n + m ≡ suc (n + m) = omega arith in ap (λ k. drop k (x ∷ a)) e ∙ drop-add n m a

pub drop-all : (a : List ℕ) → drop (length a) a ≡ []
drop-all [] = refl
drop-all (x ∷ a) = drop-all a

-- A copy of `new` behind `before`.
pub splice-append :
    (before new rest : List ℕ)
    → splice (length before) new (before ++ rest) ≡ before ++ (new ++ drop (length new) rest)
unfolding splice
splice-append before new rest = rw (take-append before rest, drop-add, drop-append before rest)

pub take-all : (a : List ℕ) → take (length a) a ≡ a
take-all [] = refl
take-all (x ∷ a) = ap (λ r. x ∷ r) (take-all a)

-- A write within the block `i`, which ends its chain.
module _ (path : Str) (i : ℕ) (b : Block) (s : Disk) (there : get_elem? s.blocks i ≡ some b)
    (text : List ℕ) (offset : ℕ) (low : offset < block_size)
    (fits : offset + length text ≤ block_size) where
  abbrev pub spliced : Block
  spliced = record b { block_content = splice offset text b.block_content }

  abbrev pub with_block : Block → Disk
  with_block c = record s { blocks = set s.blocks i c }

  load-spliced : load i (with_block spliced) ≡ ok spliced (with_block spliced)
  unfolding load
  load-spliced = rw (get_elem?-set_self s.blocks i spliced (get_elem?-lt s.blocks i b there), load)

  inside : fits_first (length text) offset ≡ true
  unfolding fits_first
  inside = ground arith

  load_there : load i s ≡ ok b s
  unfolding load
  load_there = rw (there, load)

  copy_in-one :
      length b.block_content ≡ block_size
      → copy_in i (offset % block_size) text (length text) s ≡ ok tt (with_block spliced)
  unfolding copy_in
  copy_in-one full =
      let at_offset : offset % block_size ≡ offset = omega arith in
      let test : (leb (length text) (length text)
            && leb (offset + length text) (length b.block_content))
          ≡ true =
        ground arith in
      rw (load_there) (rw (at_offset, test, take-all text))

  write_first-one :
      length b.block_content ≡ block_size
      → write_first i text (length text) offset s
        ≡ ok (record { curr = i; wrote = length text; buf = text }) (with_block spliced)
  unfolding write_first
  write_first-one full =
      rw (one_block (length text) offset (omega arith), inside) (rw (copy_in-one full))

  free_rest-one :
      ends b.next_block ≡ true → free_rest i (with_block spliced) ≡ ok tt (with_block spliced)
  unfolding free_rest
  free_rest-one alone = rw (load-spliced) (rw alone)

  close_chain-one :
      close_chain (record { curr = i; wrote = length text; buf = text }) (with_block spliced)
      ≡ ok (ret (length text)) (with_block (record spliced { next_block = none }))
  unfolding close_chain
  close_chain-one = rw (load-spliced) (rw set-set)

  pub pb_writefile-one :
      length b.block_content ≡ block_size
      → ends b.next_block ≡ true
      → pb_writefile path i text (length text) offset s
        ≡ ok (ret (length text)) (with_block (record spliced { next_block = none }))
  unfolding pb_writefile seek_write write_from write_blocks write_last
  pb_writefile-one full alone =
      let (_, whole, last, _) = cut_fits (length text) offset inside in
      let small : offset / block_size ≡ 0 = omega arith in
      rw (small, is_cut_defined-small (length text) offset (omega arith))
        (rw (write_first-one full) (rw (free_rest-one alone) (rw (whole, last) close_chain-one)))
