-- ===== src/Merkle.antt =====
-- lib/merkle.c and include/bpak/merkle.h: `bpak_merkle_compute_size`, and the part of `bpak_merkle_init`
-- that checks its arguments and lays the levels of the hash tree out. Lengths are `size_t`; a loop
-- takes fuel, and its `none` means that the fuel ran out.
pub mod Sizes
pub mod Offsets
pub mod Walk
use bpak.Prelude.{
  ℕ, zero, suc, ◌+◌, ◌-◌, ◌*◌, ◌/◌, ◌%◌, ◌^◌, bit_and, Option, none, some, List, [], ◌∷◌, ◌++◌, ltb,
  leb, ◌==◌, if◌then◌else◌, not,
}
use bpak.Status.{Result, ok, err, bad_alignment, no_space_left}

abbrev pub block_sz : ℕ
block_sz = 4096

abbrev pub max_levels : ℕ
max_levels = 4

abbrev pub block_bits : ℕ
block_bits = 12

-- The size of `ctx->salt`.
abbrev pub salt_bytes : ℕ
salt_bytes = 32

-- The three statements that open both loops: the length of the level above one of this length.
-- `~x + 1` is taken on 64 bits.
unfoldable pub next_level : ℕ → ℕ
next_level level_length =
    let hashes = level_length / 2 ^ block_bits * 32 % 2 ^ 64 in
    let pad_bytes = bit_and ((2 ^ 64 - 1 - hashes + 1) % 2 ^ 64) (block_sz - 1) in
    (hashes + pad_bytes) % 2 ^ 64

unfoldable pub compute_loop : ℕ → ℕ → ℕ → ℕ → Option (Result ℕ)
compute_loop zero level_length level result = none
compute_loop (suc fuel) level_length level result =
    let length' = next_level level_length in
    let result' = (result + length') % 2 ^ 64 in
    let rest = compute_loop fuel length' (level + 1) result' in
    if ltb max_levels (level + 1)
    then some (err no_space_left)
    else if length' == block_sz
    then some (ok result')
    else rest

-- `bpak_merkle_compute_size`; the loop takes at most `max_levels + 1` rounds.
unfoldable pub compute_size : ℕ → Option (Result ℕ)
unfolding compute_loop
compute_size input_data_length =
    if not (input_data_length % block_sz == 0)
    then some (err bad_alignment)
    else compute_loop (max_levels + 1) input_data_length 0 0

-- The fields of `struct bpak_merkle_context` that the layout sets.
pub record Layout : Type 0 where
  pub level_length : List ℕ
  pub level_offset : List ℕ
  pub hash_tree_length : ℕ

-- The loop that fills `ctx->level_length` and sums `ctx->hash_tree_length`.
unfoldable pub levels_loop : ℕ → ℕ → ℕ → List ℕ → ℕ → Option (Result (List ℕ × ℕ))
levels_loop zero level_length level lengths tree_length = none
levels_loop (suc fuel) level_length level lengths tree_length =
    let length' = next_level level_length in
    let lengths' = lengths ++ (length' ∷ []) in
    let tree_length' = (tree_length + length') % 2 ^ 64 in
    let rest = levels_loop fuel length' (level + 1) lengths' tree_length' in
    if leb max_levels (level + 1)
    then some (err no_space_left)
    else if length' == block_sz
    then some (ok (lengths', tree_length'))
    else rest

-- The loop that fills `ctx->level_offset`, from the level that `tree_level_offset` lies behind. The
-- offsets do not fall below 0: see `Offsets`.
unfoldable pub offsets_loop : ℕ → List ℕ → List ℕ
offsets_loop tree_level_offset [] = []
offsets_loop tree_level_offset (l ∷ ls) =
    (tree_level_offset - l) ∷ offsets_loop (tree_level_offset - l) ls

-- `bpak_merkle_init` up to the offsets: the arguments' checks and the layout.
unfoldable pub init_layout : ℕ → ℕ → Option (Result Layout)
unfolding levels_loop offsets_loop
init_layout input_data_length salt_length =
    if not (input_data_length % block_sz == 0)
    then some (err bad_alignment)
    else if ltb salt_bytes salt_length
    then some (err no_space_left)
    else elim (levels_loop max_levels input_data_length 0 [] 0) [
      | none ↦ none
      | some (err e) ↦ some (err e)
      | some (ok (lengths, tree_length)) ↦ some (
          ok (record {
            level_length = lengths;
            level_offset = offsets_loop tree_length lengths;
            hash_tree_length = tree_length;
          }))
    ]
