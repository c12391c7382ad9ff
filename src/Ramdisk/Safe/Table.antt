-- ===== src/Ramdisk/Safe/Table.antt =====
-- The steps that change one block keep the table safe, and do not touch the tree.
use osprograms.Base.{
  ℕ, ◌+◌, ◌≤◌, ◌<◌, ◌≡◌, refl, ◌∙◌, inl, inr, true, ◌&&◌, List, ◌++◌, arith, leb, Bool-cases,
  Option-cases, length, set, take, drop, length-append, length-set, get_elem?-some, length-take,
  length-drop, All-get, All-set,
}
use osprograms.Run.{ok}
use osprograms.Ramdisk.Disk.{block_size, Block, Disk, ret}
use osprograms.Run.Returns.{Returns, returns, mono}
use osprograms.Run.Returns
use osprograms.Ramdisk.Blocks.{get_next_free_block_index, load}
use osprograms.Ramdisk.Blocks.Table.{LinkIn, IsBlock, IsTable, get_next_free_block_index-lt}
use osprograms.Ramdisk.Blocks.Free.{free_subsequent_blocks-Freed}
use osprograms.Ramdisk.Files.{claim}
use osprograms.Ramdisk.Attributes.{ends}
use osprograms.Ramdisk.Io.{splice, copy_in, extend, set_status, Cursor, free_rest, close_chain}

pub record SameTree (n : ℕ) (s t : Disk) : Type 0 where
  pub table : IsTable n t
  pub root : t.root ≡ s.root

module _ (n : ℕ) where
  pub store-SameTree :
      (i : ℕ) (b : Block) (s : Disk)
      → IsTable n s
      → IsBlock n b
      → SameTree n s (record s { blocks = set s.blocks i b })
  store-SameTree i b s h k = record {
    table = record {
      size = length-set s.blocks i b ∙ h.size;
      blocks = All-set (IsBlock n) s.blocks i b h.blocks k;
      fresh = h.fresh;
    };
    root = refl;
  }

  -- `blocks[i]` at an index in the table.
  pub load-IsBlock :
      (i : ℕ) (s : Disk) → IsTable n s → i < n → (b : Block) × (load i s ≡ ok b s) × IsBlock n b
  unfolding load
  load-IsBlock i s h l =
      let (b, e) = get_elem?-some s.blocks i (rw h.size l) in
      (b, rw (e, load), All-get (IsBlock n) s.blocks i b h.blocks e)

  pub claim-SameTree :
      (i : ℕ) (s : Disk) → IsTable n s → i < n → Returns (λ _. SameTree n s) (claim i s)
  unfolding claim
  claim-SameTree i s h l =
      let (b, e, k) = load-IsBlock i s h l in rw e (returns (store-SameTree i _ s h (tt, k.1)))

  pub set_status-SameTree :
      (i : ℕ) (s : Disk) → IsTable n s → i < n → Returns (λ _. SameTree n s) (set_status i s)
  unfolding set_status
  set_status-SameTree i s h l =
      let (b, e, k) = load-IsBlock i s h l in rw e (returns (store-SameTree i _ s h (k.0, k.1)))

  -- The new link lies in the table.
  pub extend-SameTree :
      (i : ℕ) (s : Disk)
      → IsTable n s
      → i < n
      → Returns (λ next t. SameTree n s t × LinkIn n next) (extend i s)
  unfolding extend
  extend-SameTree i s h l =
      let (b, e, k) = load-IsBlock i s h l in
      rw e (returns (store-SameTree i _ s h (link, k.1), link))
    where
      link : LinkIn n (get_next_free_block_index s.blocks)
      link = elim (Option-cases (get_next_free_block_index s.blocks)) [
        | inl e ↦ rw e tt
        | inr (j, e) ↦ rw e (rw h.size at (get_next_free_block_index-lt s.blocks j e))
      ]

  pub length-splice :
      (offset : ℕ) (new old : List ℕ)
      → offset + length new ≤ length old
      → length (splice offset new old) ≡ length old
  unfolding splice
  length-splice offset new old h = omega (
    arith,
    length-append (take offset old) (new ++ drop (offset + length new) old),
    length-append new (drop (offset + length new) old),
    length-take offset old,
    length-drop (offset + length new) old,
  )

  -- A copy that stays within the block and within the buffer.
  pub copy_in-SameTree :
      (i offset : ℕ) (buf : List ℕ) (count : ℕ) (s : Disk)
      → IsTable n s
      → i < n
      → count ≤ length buf
      → offset + count ≤ block_size
      → Returns (λ _. SameTree n s) (copy_in i offset buf count s)
  unfolding copy_in
  copy_in-SameTree i offset buf count s h l fits room =
      let (b, e, k) = load-IsBlock i s h l in
      let test : (leb count (length buf) && leb (offset + count) (length b.block_content)) ≡ true =
        ground arith in
      rw e (
        rw test (
          returns (
            store-SameTree i _ s h (
              k.0,
              length-splice offset (take count buf) b.block_content
                    (omega (arith, length-take count buf))
                  ∙ k.1,
            ))))

  pub free_rest-SameTree :
      (i : ℕ) (s : Disk) → IsTable n s → i < n → Returns (λ _. SameTree n s) (free_rest i s)
  unfolding free_rest
  free_rest-SameTree i s h l =
      let (b, e, k) = load-IsBlock i s h l in
      rw e (elim (Bool-cases (ends b.next_block)) [
        | inl last ↦ rw last (returns (record { table = h; root = refl }))
        | inr more ↦ rw more (
            Returns.mono (free_subsequent_blocks-Freed n b.next_block s h k.0)
              λ _ t (d, _). record { table = d.table; root = d.root })
      ])

  pub close_chain-SameTree :
      (c : Cursor) (s : Disk)
      → IsTable n s
      → c.curr < n
      → Returns (λ r t. SameTree n s t × (r ≡ ret c.wrote)) (close_chain c s)
  unfolding close_chain
  close_chain-SameTree c s h l =
      let (b, e, k) = load-IsBlock c.curr s h l in
      rw e (returns (store-SameTree c.curr _ s h (tt, k.1), refl))
