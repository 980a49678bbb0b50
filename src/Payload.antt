-- ===== src/Payload.antt =====
-- lib/verify.c, `bpak_verify_compute_payload_hash`: the parts of a package are read in chunks and hashed.
-- The hash functions and the read callback are parameters; an offset has no bound.
pub mod Meaning
use bpak.Prelude.{
  ℕ, zero, suc, ◌+◌, ◌-◌, ◌*◌, ◌/◌, bit_and, Option, none, some, List, [], ◌∷◌, Bool, true, false,
  ltb, ◌==◌, if◌then◌else◌,
}
use bpak.Int.{ℤ, pos, negsuc}
use bpak.Status.{Result, ok, err, read_error}
use bpak.Header.{PartHeader, Header, part_size, flag_exclude_from_hash}
use bpak.Patch.{ReadResult, is_count}

-- BPAK_CHUNK_BUFFER_LENGTH
abbrev pub chunk_buffer_length : ℕ
chunk_buffer_length = 4096

-- The functions of include/bpak/crypto.h on a hash context: `bpak_hash_init`, `bpak_hash_update` and
-- `bpak_hash_final` with the room for the result.
pub record Hash (S : Type 0) : Type 0 where
  pub init : ℕ → Result S
  pub update : S → List ℕ → Result S
  pub final : S → ℕ → Result (List ℕ)

module _ {S W : Type 0} (hash : Hash S) (read_payload : ℕ → ℕ → W → ReadResult × W) where
  -- One pass behind the read: `last` says whether the loop's condition ends it, `next` goes on.
  unfoldable pub hash_chunk :
      ℕ
      → S
      → ℕ
      → Bool
      → (S → Option (Result (S × ℕ) × W))
      → ReadResult × W
      → Option (Result (S × ℕ) × W)
  hash_chunk chunk s current_offset last next (r, w') = elim (is_count r.count chunk) [
    | false ↦ some (err read_error, w')
    | true ↦ elim (hash.update s r.bytes) [
      | err e ↦ some (err e, w')
      | ok s' ↦ elim last [ true ↦ some (ok (s', current_offset + chunk), w') | false ↦ next s' ]
    ]
  ]

  -- The `do` loop for one part: the context and `current_offset`; `none` if the fuel runs out.
  unfoldable pub chunk_loop : ℕ → S → ℕ → ℕ → W → Option (Result (S × ℕ) × W)
  unfolding hash_chunk
  chunk_loop zero s current_offset bytes_to_read w = none
  chunk_loop (suc fuel) s current_offset bytes_to_read w =
      let chunk =
        if ltb chunk_buffer_length bytes_to_read then chunk_buffer_length else bytes_to_read in
      let (r, w') = read_payload current_offset chunk w in
      hash_chunk chunk s current_offset (bytes_to_read - chunk == 0)
        (λ s'. chunk_loop fuel s' (current_offset + chunk) (bytes_to_read - chunk) w') (r, w')

  unfoldable pub hash_parts : S → ℕ → List PartHeader → W → Option (Result S × W)
  unfolding chunk_loop
  hash_parts s current_offset [] w = some (ok s, w)
  hash_parts s current_offset (p ∷ ps) w = elim (p.id == 0) [
    | true ↦ hash_parts s current_offset ps w
    | false ↦ elim (bit_and p.flags flag_exclude_from_hash == 0) [
      | false ↦ hash_parts s (current_offset + part_size p) ps w
      | true ↦
          elim (chunk_loop (part_size p / chunk_buffer_length + 1) s current_offset (part_size p)
            w) [
              | none ↦ none
              | some (err e, w') ↦ some (err e, w')
              | some (ok (s', offset'), w') ↦ hash_parts s' offset' ps w'
            ]
    ]
  ]

  -- `bpak_verify_compute_payload_hash`, with the room for the hash.
  unfoldable pub compute_payload_hash : Header → ℕ → ℕ → W → Option (Result (List ℕ) × W)
  unfolding hash_parts
  compute_payload_hash h data_offset size w = elim (hash.init h.hash_kind) [
    | err e ↦ some (err e, w)
    | ok s ↦ elim (hash_parts s data_offset h.parts w) [
      | none ↦ none
      | some (err e, w') ↦ some (err e, w')
      | some (ok s', w') ↦ some (hash.final s' size, w')
    ]
  ]
