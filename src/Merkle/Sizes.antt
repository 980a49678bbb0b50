-- ===== src/Merkle/Sizes.antt =====
-- The two size computations against the sum over the levels, and the inputs they accept.
use native.Mathlib.Omega.{arith}
use bpak.Prelude.{
  ℕ, zero, suc, ◌+◌, ◌-◌, ◌*◌, ◌/◌, ◌%◌, ◌^◌, ◌≤◌, ◌<◌, ◌≡◌, bit_and-ones, some, List, [], ◌∷◌, ltb,
  ◌==◌, if◌then◌else◌,
}
use bpak.Status.{ok, err, no_space_left}
use bpak.Merkle.{salt_bytes, next_level, compute_size, Layout, init_layout}

-- A level of `n` blocks has `n` hashes above it, in blocks of 128.
abbrev pub up : ℕ → ℕ
up n = (n + 127) / 128

pub next_level-blocks : (n : ℕ) → n < 2 ^ 52 → next_level (4096 * n) ≡ 4096 * up n
unfolding next_level
next_level-blocks n h =
    omega (arith, bit_and-ones 12 ((2 ^ 64 - 1 - 4096 * n / 4096 * 32 % 2 ^ 64 + 1) % 2 ^ 64))

-- The blocks of a hash tree over `n` blocks with at most so many levels.
unfoldable pub tree_blocks : ℕ → ℕ → ℕ
tree_blocks zero n = 0
tree_blocks (suc k) n = let rest = tree_blocks k (up n) in if up n == 1 then 1 else up n + rest

-- For data of `n` whole blocks, below 2^64 bytes, `bpak_merkle_compute_size` returns the size of the hash
-- tree with up to four levels, and an error if there is no block or there are more than 2^28.
pub compute_size_lem :
    (n : ℕ)
    → n < 2 ^ 52
    → compute_size (4096 * n)
      ≡ some (
          if n == 0
          then err no_space_left
          else if ltb (2 ^ 28) n
          then err no_space_left
          else ok (4096 * tree_blocks 4 n))
unfolding compute_size tree_blocks
compute_size_lem n h =
    let l1 = next_level-blocks n h in
    let l2 = next_level-blocks (up n) (omega arith) in
    let l3 = next_level-blocks (up (up n)) (omega arith) in
    let l4 = next_level-blocks (up (up (up n))) (omega arith) in rw (l1, l2, l3, l4) (ground arith)

-- The lengths of the levels, lowest first, and where they stand: each behind the levels above it.
unfoldable pub level_lengths : ℕ → ℕ → List ℕ
level_lengths zero n = []
level_lengths (suc k) n =
    let rest = level_lengths k (up n) in if up n == 1 then 4096 ∷ [] else (4096 * up n) ∷ rest

unfoldable pub level_offsets : ℕ → ℕ → List ℕ
level_offsets zero n = []
level_offsets (suc k) n =
    let rest = level_offsets k (up n) in
    if up n == 1 then 0 ∷ [] else (4096 * tree_blocks k (up n)) ∷ rest

abbrev pub layout_of : ℕ → Layout
layout_of n = record {
  level_length = level_lengths 3 n;
  level_offset = level_offsets 3 n;
  hash_tree_length = 4096 * tree_blocks 3 n;
}

-- For data of `n` whole blocks, below 2^64 bytes, and a salt that fits, `bpak_merkle_init` lays out the
-- levels of the hash tree with up to three levels, each behind those above it, and returns an error if
-- there is no block or there are more than 2^21.
pub init_layout_lem :
    (n salt_length : ℕ)
    → n < 2 ^ 52
    → salt_length ≤ salt_bytes
    → init_layout (4096 * n) salt_length
      ≡ some (
          if n == 0
          then err no_space_left
          else if ltb (2 ^ 21) n
          then err no_space_left
          else ok (layout_of n))
unfolding init_layout tree_blocks level_lengths level_offsets
init_layout_lem n salt_length h salt =
    let l1 = next_level-blocks n h in
    let l2 = next_level-blocks (up n) (omega arith) in
    let l3 = next_level-blocks (up (up n)) (omega arith) in rw (l1, l2, l3) (ground arith)
