-- ===== src/Verify.antt =====
-- lib/verify.c: the check of a hash tree (`bpak_verify_merkle_tree`) and of a package's payload
-- (`bpak_verify_payload`). The hash functions and the read callback are parameters.
pub mod Compared
pub mod Stored
pub mod Accepted
pub mod HeaderHash
use bpak.Prelude.{
  ℕ, zero, suc, ◌+◌, ◌-◌, ◌^◌, ◌%◌, min, Bool, true, false, Option, none, some, List, [], ◌∷◌, ◌++◌,
  ◌==◌, if◌then◌else◌, length, get_or, take, drop,
}
use bpak.Int.{ℤ, pos, negsuc}
use bpak.Run.{Run, minus, pure, lift, raise, out_of_fuel, expect, ◌>>=◌, ◌>>◌}
use bpak.Status.{
  Result, ok, err, read_error, verify_fail, bad_root_hash, bad_payload_hash, missing_meta_data,
}
use bpak.Header.{MetaHeader, PartHeader, Header, header_size, part_size, no_meta, no_part}
use bpak.Header.Bytes.{behind_metadata}
use bpak.Meta.{get_meta}
use bpak.Part.{get_part, part_offset}
use bpak.Crc.{part_id_to_hash_tree_id}
use bpak.Patch.{ReadResult}
use bpak.Payload.{Hash, chunk_buffer_length, compute_payload_hash}
use bpak.Merkle.Walk.{Tree, TreeIo, hash_bytes, merkle_init, write_chunk, merkle_finish}

-- BPAK_ID_MERKLE_ROOT_HASH and BPAK_ID_MERKLE_SALT
abbrev pub id_merkle_root_hash : ℕ
id_merkle_root_hash = 0xe68fc9be

abbrev pub id_merkle_salt : ℕ
id_merkle_salt = 0x7c9b2f93

-- BPAK_HASH_MAX_LENGTH
abbrev pub hash_max_length : ℕ
hash_max_length = 64

-- `memcmp(xs, ys, n) == 0` on the `n` bytes of each.
unfoldable pub is_same : List ℕ → List ℕ → Bool
is_same [] [] = true
is_same [] (y ∷ ys) = false
is_same (x ∷ xs) [] = false
is_same (x ∷ xs) (y ∷ ys) = let rest = is_same xs ys in if x == y then rest else false

module _ {W : Type 0} (read_payload : ℕ → ℕ → W → ReadResult × W) where
  -- Behind a read: the return codes, the comparison with the bytes of `buf`, and on.
  unfoldable pub verify_chunk : List ℕ → ℕ → (W → ℤ × W) → ReadResult × W → ℤ × W
  unfolding is_same minus
  verify_chunk expected chunk_length next (r, w') = elim r.count as (λ _. ℤ × W) [
    | negsuc n ↦ (negsuc n, w')
    | pos n ↦ elim (n == chunk_length) as (λ _. ℤ × W) [
      | false ↦ (minus read_error, w')
      | true ↦ elim (is_same expected r.bytes) as (λ _. ℤ × W) [
        | false ↦ (minus verify_fail, w')
        | true ↦ next w'
      ]
    ]
  ]

  -- The loop of `merkle_verify_wr` on the bytes of `buf` that are left, which stand from `offset` on. Every
  -- round takes a byte at least, and there are as many rounds as bytes.
  unfoldable pub verify_loop : ℕ → ℕ → ℕ → List ℕ → W → ℤ × W
  unfolding verify_chunk
  verify_loop zero size offset buf w = (pos size, w)
  verify_loop (suc rounds) size offset buf w =
      let chunk_length = min (length buf) hash_bytes in
      elim (length buf == 0) as (λ _. ℤ × W) [
        | true ↦ (pos size, w)
        | false ↦
            verify_chunk (take chunk_length buf) chunk_length
              (verify_loop rounds size (offset + chunk_length) (drop chunk_length buf))
              (read_payload offset chunk_length w)
      ]

  -- `merkle_verify_wr`
  unfoldable pub merkle_verify_wr : ℕ → List ℕ → W → ℤ × W
  unfolding verify_loop
  merkle_verify_wr offset buf w = verify_loop (length buf) (length buf) offset buf w

  -- The callbacks of a tree that is verified; `merkle_verify_rd` passes the call on.
  abbrev pub verify_io : TreeIo W
  verify_io = record { wr = merkle_verify_wr; rd = read_payload }

  -- One read of exactly `n` bytes.
  unfoldable pub read_chunk : ℕ → ℕ → Run W (List ℕ)
  unfolding expect
  read_chunk offset n w =
      let (r, w') = read_payload offset n w in
      let got : Run W (List ℕ) = expect r.count n read_error >>= λ _. pure r.bytes in got w'

module _ {S W : Type 0} (hash : Hash S) (io : TreeIo W)
    (read_data : ℕ → ℕ → W → ReadResult × W) where
  -- The loop that reads the data and feeds it to the tree; a round takes a byte at least.
  unfoldable pub feed_data : ℕ → ℕ → ℕ → Tree S → Run W (Tree S)
  unfolding read_chunk
  feed_data zero current_offset bytes_to_process c =
      if bytes_to_process == 0 then pure c else out_of_fuel
  feed_data (suc rounds) current_offset bytes_to_process c =
      let chunk_length = min bytes_to_process chunk_buffer_length in
      elim (bytes_to_process == 0) as (λ _. Run W (Tree S)) [
        | true ↦ pure c
        | false ↦ do
          bytes ← read_chunk read_data current_offset chunk_length
          c' ← write_chunk hash io c bytes
          feed_data rounds (current_offset + chunk_length) (bytes_to_process - chunk_length) c'
      ]

  -- `bpak_merkle_init`, the loop and `bpak_merkle_finish` of `bpak_verify_merkle_tree`, with the callbacks and
  -- `zero_fill_output` as arguments: the check passes `false`.
  unfoldable pub root_hash : S → ℕ → ℕ → ℕ → List ℕ → Bool → Run W (List ℕ)
  unfolding feed_data
  root_hash zeroed data_offset data_length tree_offset salt zero_fill_output = do
    c ← merkle_init hash io zeroed data_length salt tree_offset zero_fill_output
    c' ← feed_data data_length data_offset data_length c
    (c'', root) ← merkle_finish hash io c'
    pure root

module _ {S W : Type 0} (hash : Hash S) (read_payload : ℕ → ℕ → W → ReadResult × W)
    (zeroed : S) where
  -- `bpak_verify_merkle_tree`; the salt and the root hash are given with their 32 bytes.
  unfoldable pub verify_merkle_tree : ℕ → ℕ → ℕ → List ℕ → List ℕ → Run W (Unit {0})
  unfolding root_hash is_same
  verify_merkle_tree data_offset data_length tree_offset expected_root_hash salt = do
    calculated_root_hash ←
        root_hash hash (verify_io read_payload) read_payload zeroed data_offset data_length
          tree_offset salt false
    if is_same calculated_root_hash expected_root_hash then pure tt else raise bad_root_hash

-- `bpak_get_meta_ptr` of slot `i` and `n` bytes from there: those behind the array are the header's.
unfoldable pub meta_bytes : Header → ℕ → ℕ → List ℕ
meta_bytes h i n = take n (drop (get_or h.meta i no_meta).offset (h.metadata ++ behind_metadata h))

-- `bpak_part_offset(header, p) - sizeof(struct bpak_header) + data_offset`
unfoldable pub payload_offset : Header → PartHeader → ℕ → ℕ
payload_offset h p data_offset = (part_offset h p + 2 ^ 64 - header_size + data_offset) % 2 ^ 64

module _ {S W : Type 0} (hash : Hash S) (read_payload : ℕ → ℕ → W → ReadResult × W) (zeroed : S)
    (h : Header) (data_offset : ℕ) where
  -- A part whose root hash stands in slot `i`.
  unfoldable pub verify_part : PartHeader → ℕ → Run W (Unit {0})
  unfolding meta_bytes payload_offset
  verify_part p i = elim (get_meta h id_merkle_salt p.id) as (λ _. Run W (Unit {0})) [
    | err e ↦ raise missing_meta_data
    | ok j ↦ elim (get_part h (part_id_to_hash_tree_id p.id)) as (λ _. Run W (Unit {0})) [
      | err e ↦ raise e
      | ok t ↦
          verify_merkle_tree hash read_payload zeroed (payload_offset h p data_offset) (part_size p)
            (payload_offset h (get_or h.parts t no_part) data_offset) (meta_bytes h i hash_bytes)
            (meta_bytes h j hash_bytes)
    ]
  ]

  -- The loop over the parts.
  unfoldable pub verify_parts : List PartHeader → Run W (Unit {0})
  unfolding verify_part
  verify_parts [] = pure tt
  verify_parts (p ∷ ps) = elim (p.id == 0) as (λ _. Run W (Unit {0})) [
    | true ↦ verify_parts ps
    | false ↦ elim (get_meta h id_merkle_root_hash p.id) as (λ _. Run W (Unit {0})) [
      | err e ↦ verify_parts ps
      | ok i ↦ do verify_part p i; verify_parts ps
    ]
  ]

  -- `bpak_verify_compute_payload_hash` for the caller.
  unfoldable pub payload_hash_of : Run W (List ℕ)
  payload_hash_of w =
      elim (compute_payload_hash hash read_payload h data_offset hash_max_length w) [
        | none ↦ none
        | some (r, w') ↦ lift r w'
      ]

  -- `bpak_verify_payload`
  unfoldable pub verify_payload : Run W (Unit {0})
  unfolding payload_hash_of verify_parts
  verify_payload = do
    digest ← payload_hash_of
    if is_same digest (take (length digest) h.payload_hash) then pure tt else raise bad_payload_hash
    verify_parts h.parts
