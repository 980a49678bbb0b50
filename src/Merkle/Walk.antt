-- ===== src/Merkle/Walk.antt =====
-- The hash tree of lib/merkle.c: `bpak_merkle_init`, `bpak_merkle_write_chunk` and `bpak_merkle_finish`.
-- The hash functions and the two I/O callbacks are parameters. The hash is SHA-256, whose digest fills
-- `ctx->buffer`. What a context holds behind a failed call is left out.
pub mod Chunks
pub mod Agree
use bpak.Prelude.{
  ℕ, zero, suc, ◌+◌, ◌-◌, ◌*◌, ◌/◌, min, Bool, true, false, Option, none, some, List, [], ◌∷◌, ltb,
  ◌==◌, ◌&&◌, if◌then◌else◌, length, get_or, take, drop, replicate,
}
use bpak.Int.{ℤ}
use bpak.Run.{Run, pure, lift, raise, out_of_fuel, expect, ◌>>=◌, ◌>>◌}
use bpak.Status.{Error, Result, ok, err, bad_alignment, no_space_left, read_error, write_error}
use bpak.Header.{hash_sha256}
use bpak.Patch.{ReadResult}
use bpak.Payload.{Hash}
use bpak.Merkle.{block_sz, Layout, init_layout}

abbrev pub hash_bytes : ℕ
hash_bytes = 32

-- `struct bpak_merkle_context` without the callbacks: `layout` has the levels, `salt` the bytes of the
-- salt that are used.
pub record Tree (S : Type 0) : Type 0 where
  pub running_hash : S
  pub buffer : List ℕ
  pub layout : Layout
  pub input_chunk_counter : ℕ
  pub block_byte_counter : ℕ
  pub input_data_length : ℕ
  pub salt : List ℕ
  pub finished : Bool
  pub offset : ℕ

-- `bpak_io_t` on the hash tree, at offsets from 0.
pub record TreeIo (W : Type 0) : Type 0 where
  pub wr : ℕ → List ℕ → W → ℤ × W
  pub rd : ℕ → ℕ → W → ReadResult × W

-- The end of a block.
abbrev pub close_block : {S : Type 0} → Tree S → S → List ℕ → Tree S
close_block c s digest = record c {
  running_hash = s;
  buffer = digest;
  block_byte_counter = block_sz;
  input_chunk_counter = c.input_chunk_counter + hash_bytes;
  finished = if c.input_data_length == block_sz then true else c.finished;
}

module _ {S W : Type 0} (hash : Hash S) (io : TreeIo W) where
  -- Write the bytes of `ctx->buffer`.
  unfoldable pub write_at : ℕ → List ℕ → Run W (Unit {0})
  unfolding expect
  write_at offset bytes w = let (n, w') = io.wr offset bytes w in expect n hash_bytes write_error w'

  unfoldable pub read_at : ℕ → ℕ → Run W (List ℕ)
  unfolding expect
  read_at offset n w =
      let (r, w') = io.rd offset n w in
      let got : Run W (List ℕ) = expect r.count n read_error >>= λ _. pure r.bytes in got w'

  -- The loop that zero fills the tree, `n` hashes of it.
  pub zero_fill : ℕ → ℕ → Run W (Unit {0})
  unfolding write_at
  zero_fill zero offset = pure tt
  zero_fill (suc n) offset = do
    write_at offset (replicate hash_bytes 0)
    zero_fill n (offset + hash_bytes)

  -- `bpak_merkle_init`; `zeroed` is the hash context behind `memset`. The salt is given with its length.
  unfoldable pub merkle_init : S → ℕ → List ℕ → ℕ → Bool → Run W (Tree S)
  unfolding zero_fill
  merkle_init zeroed input_data_length salt offset zero_fill_output =
      elim (init_layout input_data_length (length salt)) [
        | none ↦ out_of_fuel
        | some (err e) ↦ raise e
        | some (ok layout) ↦ do
          if zero_fill_output
              then zero_fill (layout.hash_tree_length / hash_bytes) offset
              else pure tt
          pure (record {
            running_hash = zeroed;
            buffer = replicate hash_bytes 0;
            layout = layout;
            input_chunk_counter = 0;
            block_byte_counter = block_sz;
            input_data_length = input_data_length;
            salt = salt;
            finished = false;
            offset = offset;
          })
      ]

  -- `bpak_merkle_get_size`
  unfoldable pub get_size : Tree S → ℕ
  get_size c = c.layout.hash_tree_length

  -- A new hash, over the salt.
  unfoldable pub start_hash : Tree S → Run W S
  start_hash c = do s ← lift (hash.init hash_sha256); lift (hash.update s c.salt)

  -- The hash that a pass of `bpak_merkle_write_chunk` goes on with.
  unfoldable pub block_hash : Tree S → Run W S
  unfolding start_hash
  block_hash c = if c.block_byte_counter == block_sz then start_hash c else pure c.running_hash

  -- The hash of a block is written behind those before it.
  pub write_digest : Tree S → S → Run W (List ℕ)
  unfolding write_at
  write_digest c s = do
    digest ← lift (hash.final s hash_bytes)
    write_at (c.offset + (c.input_chunk_counter + get_or c.layout.level_offset 0 0)) digest
    pure digest

  unfoldable pub end_block : Tree S → S → Run W (Tree S)
  unfolding write_digest
  end_block c s = do digest ← write_digest c s; pure (close_block c s digest)

  -- Behind the update of the hash: so many bytes of the block are left.
  unfoldable pub end_round : Tree S → S → ℕ → Run W (Tree S)
  unfolding end_block
  end_round c s left =
      if left == 0
      then end_block c s
      else pure (record c { running_hash = s; block_byte_counter = left })

  -- `bpak_merkle_write_chunk`. A pass uses at least one byte of `data_to_process`, see `Chunks`.
  unfoldable pub write_chunk_loop : ℕ → Tree S → List ℕ → Run W (Tree S)
  unfolding block_hash end_round
  write_chunk_loop fuel c [] = pure c
  write_chunk_loop zero c (b ∷ bs) = out_of_fuel
  write_chunk_loop (suc fuel) c (b ∷ bs) = do
    s ← block_hash c
    let chunk_length = min c.block_byte_counter (length (b ∷ bs))
    s' ← lift (hash.update s (take chunk_length (b ∷ bs)))
    let left = c.block_byte_counter - chunk_length
    c' ← end_round c s' left
    elim (left == 0 && c.input_data_length == block_sz) [
      | true ↦ pure c'
      | false ↦ write_chunk_loop fuel c' (drop chunk_length (b ∷ bs))
    ]

  unfoldable pub write_chunk : Tree S → List ℕ → Run W (Tree S)
  unfolding write_chunk_loop
  write_chunk c buffer = write_chunk_loop (length buffer) c buffer

  -- `n` reads of one hash length into `ctx->buffer`, that feed the running hash: both, behind them.
  unfoldable pub read_hashes : ℕ → ℕ → List ℕ → S → Run W (S × List ℕ)
  unfolding read_at
  read_hashes zero input_offset buffer s = pure (s, buffer)
  read_hashes (suc n) input_offset buffer s = do
    buffer' ← read_at input_offset hash_bytes
    s' ← lift (hash.update s buffer')
    read_hashes n (input_offset + hash_bytes) buffer' s'

  -- One block of a level, for the level above.
  unfoldable pub hash_block : Tree S → ℕ → ℕ → Run W (Tree S)
  unfolding start_hash read_hashes write_at
  hash_block c input_offset output_offset = do
    s ← start_hash c
    (s', buffer) ← read_hashes (block_sz / hash_bytes) (c.offset + input_offset) c.buffer s
    digest ← lift (hash.final s' hash_bytes)
    write_at (c.offset + output_offset) digest
    pure (record c { running_hash = s'; buffer = digest })

  -- The loop over the blocks of a level.
  unfoldable pub hash_level : ℕ → ℕ → ℕ → Tree S → Run W (Tree S)
  unfolding hash_block
  hash_level zero input_offset output_offset c = pure c
  hash_level (suc n) input_offset output_offset c = do
    c' ← hash_block c input_offset output_offset
    hash_level n (input_offset + block_sz) (output_offset + hash_bytes) c'

  -- The loop over the levels: the lengths and the offsets from the level below on.
  unfoldable pub hash_levels : List ℕ → List ℕ → Tree S → Run W (Tree S)
  unfolding hash_level
  hash_levels (l ∷ m ∷ ls) (o ∷ p ∷ os) c = do
    c' ← hash_level (l / block_sz) o p c
    hash_levels (m ∷ ls) (p ∷ os) c'
  hash_levels _ _ c = pure c

  -- `bpak_merkle_finish`: the context and the root hash. The top level is a whole number of hashes.
  unfoldable pub merkle_finish : Tree S → Run W (Tree S × List ℕ)
  unfolding hash_levels start_hash read_hashes
  merkle_finish c = if c.finished then pure (c, c.buffer) else do
    c' ← hash_levels c.layout.level_length c.layout.level_offset c
    s ← start_hash c'
    let top = length c.layout.level_length - 1
    (s', buffer) ←
        read_hashes (get_or c.layout.level_length top 0 / hash_bytes)
          (c.offset + get_or c.layout.level_offset top 0) c'.buffer s
    root_hash ← lift (hash.final s' hash_bytes)
    pure (record c' { running_hash = s'; buffer = buffer; finished = true }, root_hash)
