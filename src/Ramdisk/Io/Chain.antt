-- ===== src/Ramdisk/Io/Chain.antt =====
-- The chain of blocks of a long file, as `pb_writefile` builds it.
use osprograms.Base.{
  ℕ, ◌+◌, ◌≤◌, ◌≡◌, refl, sym, ap, ◌∙◌, subst, ◌≢◌, true, false, some, List, [], ◌++◌, append-nil,
  append_assoc, arith, ◌==◌, length, get_elem?, set, take, drop, length-set, get_elem?-set_self,
  get_elem?-set_ne, get_elem?-lt, take-append, length-take, Str,
}
use osprograms.Run.{Run, ok, fault, out_of_fuel}
use osprograms.Run.Partial.{Partial, gives, faults, starves}
use osprograms.Ramdisk.Io.{splice}
use osprograms.Ramdisk.Disk.{block_size, Block, Disk, Cmd}
use osprograms.Ramdisk.Blocks.{get_next_free_block_index, load, is_free}
use osprograms.Ramdisk.Blocks.Table.{get_next_free_block_index-free}

abbrev pub IsTaken : Block → Type 0
IsTaken b = (b.status == 0) ≡ false

-- The bytes of a block.
abbrev pub whole : Block → List ℕ
whole b = take block_size b.block_content

-- The links lead from a block to the block `e`, over taken blocks with these contents.
pub data Walk (bs : List Block) (e : ℕ) : ℕ → List ℕ → Type 0 where
  ended : Walk bs e e []
  linked :
      (i j : ℕ) (b : Block) (rest : List ℕ)
      → get_elem? bs i ≡ some b
      → IsTaken b
      → b.next_block ≡ some j
      → i ≢ e
      → Walk bs e j rest
      → Walk bs e i (whole b ++ rest)

-- A change of the last block.
pub Walk-set :
    (bs : List Block) (e i : ℕ) (t : List ℕ) (c : Block) → Walk bs e i t → Walk (set bs e c) e i t
Walk-set bs e _ _ c ended = ended
Walk-set bs e _ _ c (linked i j b rest there taken next apart walk) =
    linked i j b rest (get_elem?-set_ne bs e i c (λ q. apart (sym q)) ∙ there) taken next apart
      (Walk-set bs e j rest c walk)

taken_apart :
    (bs : List Block) (i n : ℕ) (b : Block)
    → get_elem? bs i ≡ some b
    → IsTaken b
    → is_free (get_elem? bs n) ≡ true
    → i ≢ n
taken_apart bs i n b there taken free e =
    let x : is_free (get_elem? bs i) ≡ true =
      subst (λ k. is_free (get_elem? bs k) ≡ true) (sym e) free in
    let y : is_free (get_elem? bs i) ≡ false = rw there taken in cc

-- The last block is linked to a free one.
Walk-snoc :
    (bs : List Block) (e i n : ℕ) (t : List ℕ) (b : Block)
    → Walk bs e i t
    → get_elem? bs e ≡ some b
    → IsTaken b
    → b.next_block ≡ some n
    → is_free (get_elem? bs n) ≡ true
    → Walk bs n i (t ++ whole b)
Walk-snoc bs e _ n _ b ended there taken next free =
    subst (Walk bs n e) (append-nil (whole b))
      (linked e n b [] there taken next (taken_apart bs e n b there taken free) ended)
Walk-snoc bs e _ n _ b (linked i j c rest there' taken' next' apart walk) there taken next free =
    subst (Walk bs n i) (sym (append_assoc (whole c) rest (whole b))) (
      linked i j c (rest ++ whole b) there' taken' next' (taken_apart bs i n c there' taken' free)
        (Walk-snoc bs e j n rest b walk there taken next free))

-- The file that starts with the block `start` has the block `k` for its last one, and `written` is what
-- it holds up to the byte `m` of that block.
pub record Tip (start k m : ℕ) (written : List ℕ) (s : Disk) : Type 0 where
  pub text : List ℕ
  pub block : Block
  pub walk : Walk s.blocks k start text
  pub there : get_elem? s.blocks k ≡ some block
  pub taken : IsTaken block
  pub holds : text ++ take m block.block_content ≡ written

pub load_there : (i : ℕ) (b : Block) (s : Disk) → get_elem? s.blocks i ≡ some b → load i s ≡ ok b s
unfolding load
load_there i b s e = rw (e, load)

pub take-splice :
    (m : ℕ) (buf old : List ℕ) → m ≤ length buf → take m (splice 0 (take m buf) old) ≡ take m buf
unfolding splice
take-splice m buf old l =
    let e : length (take m buf) ≡ m = omega (arith, length-take m buf) in
    subst (λ k. take k (take m buf ++ drop (0 + length (take m buf)) old) ≡ take m buf) e
      (take-append (take m buf) _)

pub any_run : {A : Type 0} (r : Run Disk A) → Partial (λ _ _. Unit {0}) r
any_run (ok a s) = gives tt
any_run fault = faults
any_run out_of_fuel = starves

-- A block is marked as taken, in either way that the source does it.
module _ (mark : ℕ → Cmd (Unit {0})) (marked : Block → Block)
    (marks : (n : ℕ) (b : Block) (s : Disk)
      → get_elem? s.blocks n ≡ some b
      → mark n s ≡ ok tt (record s { blocks = set s.blocks n (marked b) }))
    (takes : (b : Block) → IsTaken (marked b)) (path : Str) (buf : List ℕ) (m : ℕ)
    (enough : m ≤ length buf) (start k : ℕ) (written : List ℕ) (s : Disk)
    (tip : Tip start k block_size written s) where
  -- The table once the last block is linked to the block `n`.
  abbrev pub tied : ℕ → Disk
  tied n = record s { blocks = set s.blocks k (record tip.block { next_block = some n }) }

  tied-Walk :
      (n : ℕ) → get_next_free_block_index s.blocks ≡ some n → Walk (tied n).blocks n start written
  tied-Walk n free =
      let b' : Block = record tip.block { next_block = some n } in
      let is = get_next_free_block_index-free s.blocks n free in
      let apart = taken_apart s.blocks k n tip.block tip.there tip.taken is in
      subst (Walk (tied n).blocks n start) tip.holds (
        Walk-snoc (tied n).blocks k start n tip.text b'
          (Walk-set s.blocks k start tip.text b' tip.walk)
          (get_elem?-set_self s.blocks k b' (get_elem?-lt s.blocks k tip.block tip.there)) tip.taken
          refl (rw (get_elem?-set_ne s.blocks k n b' apart) is))

  abbrev pub filled_block : Block → Block
  filled_block b = record (marked b) {
    block_content = splice 0 (take m buf) (marked b).block_content;
  }

  abbrev pub filled : ℕ → Block → Disk
  filled n b = record s { blocks = set (set (tied n).blocks n (marked b)) n (filled_block b) }

  pub filled-Tip :
      (n : ℕ) (b : Block)
      → get_next_free_block_index s.blocks ≡ some n
      → get_elem? (tied n).blocks n ≡ some b
      → Tip start n m (written ++ take m buf) (filled n b)
  filled-Tip n b free there =
      let l = get_elem?-lt (tied n).blocks n b there in
      record {
        text = written;
        block = filled_block b;
        walk =
            Walk-set _ n start written (filled_block b)
              (Walk-set (tied n).blocks n start written (marked b) (tied-Walk n free));
        there =
            get_elem?-set_self _ n (filled_block b)
              (omega (arith, l, length-set (tied n).blocks n (marked b)));
        taken = takes b;
        holds = ap (λ x. written ++ x) (take-splice m buf (marked b).block_content enough);
      }
