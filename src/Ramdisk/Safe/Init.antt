-- ===== src/Ramdisk/Safe/Init.antt =====
-- The state that `initializeFileSystem` makes is well-formed.
use osprograms.Base.{
  ℕ, zero, suc, ◌+◌, ◌*◌, ◌/◌, ◌^◌, ◌≤◌, ◌<◌, ◌≡◌, refl, ap, subst, ◌⊎◌, inl, inr, none, some, List,
  arith, ltb, Bool-cases, length, All,
}
use osprograms.Ramdisk.Init.{empty_blocks, with_blocks, initialize_file_system}
use osprograms.Ramdisk.Disk.{block_size, Disk}
use osprograms.Ramdisk.Blocks.Table.{IsBlock, occupied}
use osprograms.Ramdisk.Safe.{IsSafe}

length-empty_blocks : (n : ℕ) (fresh : ℕ → List ℕ) → length (empty_blocks n fresh) ≡ n
unfolding empty_blocks
length-empty_blocks zero fresh = refl
length-empty_blocks (suc n) fresh = ap suc (length-empty_blocks n (λ i. fresh (i + 1)))

All-empty_blocks :
    (n k : ℕ) (fresh : ℕ → List ℕ)
    → ((i : ℕ) → length (fresh i) ≡ block_size)
    → All (IsBlock k) (empty_blocks n fresh)
unfolding empty_blocks
All-empty_blocks zero k fresh h = tt
All-empty_blocks (suc n) k fresh h =
    ((tt, h 0), All-empty_blocks n k (λ i. fresh (i + 1)) (λ i. h (i + 1)))

occupied-empty_blocks : (n : ℕ) (fresh : ℕ → List ℕ) → occupied (empty_blocks n fresh) ≡ 0
unfolding occupied empty_blocks
occupied-empty_blocks zero fresh = refl
occupied-empty_blocks (suc n) fresh = occupied-empty_blocks n (λ i. fresh (i + 1))

pub with_blocks-IsSafe :
    (n : ℕ) (fresh : ℕ → List ℕ)
    → ((i : ℕ) → length (fresh i) ≡ block_size)
    → IsSafe n (with_blocks n fresh)
unfolding with_blocks
with_blocks-IsSafe n fresh h = record {
  table = record {
    size = length-empty_blocks n fresh;
    blocks = All-empty_blocks n n fresh h;
    fresh = λ i. h (i + n);
  };
  root = tt;
  files = (tt, tt, tt);
}

-- The file system of `fs_size` MB, well-formed, with blocks for as many bytes, all of them free.
abbrev pub Formatted : ℕ → Disk → Type 0
Formatted fs_size d =
    IsSafe (fs_size * 256) d
    × (length d.blocks * block_size ≡ fs_size * 2 ^ 20)
    × (occupied d.blocks ≡ 0)

-- Where `fs_size` is less than 2 ^ 21 and `malloc` gives arrays of a block's size,
-- `initializeFileSystem` makes a file system that is well-formed and has blocks for `fs_size` MB, all of
-- them free; from 2 ^ 21 on it overflows an `int`.
pub initialize_file_system-Formatted :
    (fs_size : ℕ) (fresh : ℕ → List ℕ)
    → ((i : ℕ) → length (fresh i) ≡ block_size)
    → ((fs_size < 2 ^ 21)
        × (d : Disk) × (initialize_file_system fs_size fresh ≡ some d)
        × Formatted fs_size d)
      ⊎ ((2 ^ 21 ≤ fs_size) × (initialize_file_system fs_size fresh ≡ none))
unfolding initialize_file_system with_blocks
initialize_file_system-Formatted fs_size fresh h =
    elim (Bool-cases (ltb (fs_size * 1024) (2 ^ 31))) [
      | inl small ↦
          let n : fs_size * 1024 / 4 ≡ fs_size * 256 = omega arith in
          let len = length-empty_blocks (fs_size * 1024 / 4) fresh in
          let safe = with_blocks-IsSafe (fs_size * 1024 / 4) fresh h in
          inl (
            ground arith,
            with_blocks (fs_size * 1024 / 4) fresh,
            rw small refl,
            (
              subst (λ k. IsSafe k (with_blocks (fs_size * 1024 / 4) fresh)) n safe,
              omega arith,
              occupied-empty_blocks (fs_size * 1024 / 4) fresh,
            ),
          )
      | inr big ↦ inr (ground arith, rw big refl)
    ]
