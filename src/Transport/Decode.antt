-- ===== src/Transport/Decode.antt =====
-- lib/transport_decode.c. The callbacks, the hash functions and the decompressors are parameters. A part is
-- its slot in the patch's header, which the context holds, and an offset that is not negative is taken to fit
-- `off_t`.
use bpak.Prelude.{
  ℕ, ◌+◌, ◌-◌, ◌%◌, ◌^◌, bit_and, Bool, true, Option, none, some, List, [], ◌==◌, ◌||◌,
  if◌then◌else◌, length, get_or, set,
}
use bpak.Int.{ℤ, pos, negsuc}
use bpak.Run.{Rc, Run, done, fail, pure, raise, minus, expect, ◌>>=◌}
use bpak.Status.{
  Result, ok, err, read_error, write_error, size_error, not_supported, missing_meta_data,
  package_uuid_mismatch, patch_read_origin_error,
}
use bpak.Header.{PartHeader, Header, header_size, no_part, flag_transport, part_size}
use bpak.Header.Bytes.{header_bytes}
use bpak.Meta.{get_meta}
use bpak.Part.{get_part}
use bpak.Crc.{hash_tree_id_to_part_id}
use bpak.Patch.{ReadResult, Io, is_count}
use bpak.Patch.Stream.{
  Compression, compression_none, compression_hs, compression_lzma, Decompressor, Stream,
  bspatch_init, stream_write, stream_final,
}
use bpak.Payload.{Hash}
use bpak.Merkle.Walk.{TreeIo, merkle_init, merkle_finish, get_size}
use bpak.Verify.{id_merkle_salt, is_same, meta_bytes, payload_offset, feed_data}
use bpak.Transport.{
  id_bpak_transport, id_bpak_package, id_bspatch, id_bspatch_lzma, id_bspatch_no_comp,
  id_merkle_generate, alg_id_decode,
}

-- The four callbacks. That of the header is given no offset, which is always 0.
pub record DecodeIo (W : Type 0) : Type 0 where
  pub write_output : ℤ → List ℕ → W → ℤ × W
  pub read_output : ℤ → ℕ → W → ReadResult × W
  pub write_output_header : List ℕ → W → ℤ × W
  pub read_origin : ℤ → ℕ → W → ReadResult × W

-- `struct bpak_transport_decode`; `origin` is the header and the offset of `bpak_transport_decode_set_origin`,
-- `bspatch` is the decoder's context where one was started.
pub record Decoder (D : Type 0) : Type 0 where
  pub patch_header : Header
  pub output_offset : ℕ
  pub origin : Option (Header × ℕ)
  pub part : ℕ
  pub decoder_id : ℕ
  pub copy_offset : ℕ
  pub bspatch : Option (Stream D)

-- `bpak_transport_decode_init`
unfoldable pub decode_init : {D : Type 0} → Header → ℕ → Decoder D
decode_init patch_header output_offset = record {
  patch_header = patch_header;
  output_offset = output_offset;
  origin = none;
  part = 0;
  decoder_id = 0;
  copy_offset = 0;
  bspatch = none;
}

-- `bpak_transport_decode_set_origin`. Both identifiers are looked up in the origin's metadata, the second with
-- the slot that the patch's header gives.
unfoldable pub set_origin : {D : Type 0} → Header → ℕ → Decoder D → Result (Decoder D)
unfolding meta_bytes is_same
set_origin origin_header origin_offset c = elim (get_meta origin_header id_bpak_package 0) [
  | err e ↦ err e
  | ok i ↦ elim (get_meta c.patch_header id_bpak_package 0) [
    | err e ↦ err e
    | ok j ↦
        if is_same (meta_bytes origin_header i 16) (meta_bytes origin_header j 16)
        then ok (record c { origin = some (origin_header, origin_offset) })
        else err package_uuid_mismatch
  ]
]

-- Whether an algorithm is one of the three that apply a patch.
unfoldable pub is_bspatch : ℕ → Bool
is_bspatch id = id == id_bspatch || (id == id_bspatch_no_comp || id == id_bspatch_lzma)

unfoldable pub compression_of : ℕ → Compression
compression_of id =
    if id == id_bspatch
    then compression_hs
    else if id == id_bspatch_no_comp
    then compression_none
    else compression_lzma

-- The part that the context is at.
abbrev pub current : {D : Type 0} → Decoder D → PartHeader
current c = get_or c.patch_header.parts c.part no_part

-- The decoder that the metadata names: 0 where the part is not coded or has no transport metadata.
unfoldable pub decoder_of : Header → PartHeader → ℕ
unfolding alg_id_decode
decoder_of h p =
    if bit_and p.flags flag_transport == 0
    then 0
    else elim (get_meta h id_bpak_transport p.id) [ err e ↦ 0 | ok i ↦ alg_id_decode h i ]

-- `part->flags &= ~BPAK_FLAG_TRANSPORT` on the eight bits, and no size for transport.
unfoldable pub decoded : PartHeader → PartHeader
decoded p = record p { flags = p.flags - bit_and p.flags flag_transport; transport_size = 0 }

module _ {D W : Type 0} (decompress : Decompressor D) (zeroed : D) (io : DecodeIo W) where
  -- The callbacks of the patch decoder and of the hash tree.
  abbrev pub patch_io : Io W
  patch_io = record { read_origin = io.read_origin; write_output = io.write_output }

  abbrev pub tree_io : TreeIo W
  tree_io = record { wr = λ o. io.write_output (pos o); rd = λ o. io.read_output (pos o) }

  -- The write of the header.
  unfoldable pub write_decoder_header : Run (Decoder D × W) (Unit {0})
  write_decoder_header (c, w) =
      let (written, w') = io.write_output_header (header_bytes c.patch_header) w in
      expect written header_size write_error (c, w')

  -- A call of the patch decoder.
  unfoldable pub with_bspatch : {A : Type 0} → Run (Stream D × W) A → Run (Decoder D × W) A
  with_bspatch m (c, w) = elim c.bspatch [
    | none ↦ none
    | some s ↦ elim (m (s, w)) [
      | none ↦ none
      | some (r, (s', w')) ↦ some (r, (record c { bspatch = some s' }, w'))
    ]
  ]

  -- The case of a patch in `bpak_transport_decode_start`.
  unfoldable pub start_bspatch : ℕ → Run (Decoder D × W) (Unit {0})
  unfolding bspatch_init compression_of payload_offset raise
  start_bspatch buffer_length (c, w) =
      elim c.origin as (λ _. Option (Rc (Unit {0}) × (Decoder D × W))) [
        | none ↦ raise patch_read_origin_error (c, w)
        | some (origin_header, origin_offset) ↦
            elim (bspatch_init decompress zeroed buffer_length (part_size (current c))
                (pos (payload_offset origin_header (current c) origin_offset))
                (pos (payload_offset c.patch_header (current c) c.output_offset))
                (compression_of c.decoder_id))
              as (λ _. Option (Rc (Unit {0}) × (Decoder D × W))) [
                | err e ↦ raise e (c, w)
                | ok s ↦ some (done tt, (record c { bspatch = some s }, w))
              ]
      ]

  -- `bpak_transport_decode_start` on the part in slot `i`.
  unfoldable pub decode_start : ℕ → ℕ → Run (Decoder D × W) (Unit {0})
  unfolding write_decoder_header decoder_of start_bspatch is_bspatch raise
  decode_start buffer_length i = write_decoder_header >>= λ _ (c, w).
      let p = get_or c.patch_header.parts i no_part in
      let c' = record c { part = i; decoder_id = decoder_of c.patch_header p } in
      if is_bspatch c'.decoder_id
      then start_bspatch buffer_length (c', w)
      else if c'.decoder_id == id_merkle_generate
      then some (done tt, (c', w))
      else if c'.decoder_id == 0
      then some (done tt, (record c' { copy_offset = 0 }, w))
      else raise not_supported (c', w)

  -- The case of a part that is not coded in `bpak_transport_decode_write_chunk`.
  unfoldable pub write_copy : List ℕ → Run (Decoder D × W) (Unit {0})
  unfolding payload_offset
  write_copy buffer (c, w) =
      let (written, w') =
        io.write_output
          (pos
            ((payload_offset c.patch_header (current c) c.output_offset + c.copy_offset) % 2 ^ 64))
          buffer w in
      (expect written (length buffer) write_error >>= λ _ (c, w).
      some (done tt, (record c { copy_offset = c.copy_offset + length buffer }, w)))
        (c, w')

  -- `bpak_transport_decode_write_chunk`; the fuel is for the decompressors' loops.
  unfoldable pub decode_write_chunk : ℕ → List ℕ → Run (Decoder D × W) (Unit {0})
  unfolding with_bspatch write_copy is_bspatch raise
  decode_write_chunk fuel buffer (c, w) =
      if is_bspatch c.decoder_id
      then with_bspatch (stream_write decompress patch_io fuel buffer) (c, w)
      else if c.decoder_id == 0
      then write_copy buffer (c, w)
      else raise not_supported (c, w)

  -- A read of another count than it was asked for is BPAK_READ_ERROR, whatever it returned.
  unfoldable pub read_exactly : ℕ → ℕ → W → ReadResult × W
  unfolding minus
  read_exactly offset n w =
      let (r, w') = io.read_output (pos offset) n w in
      if is_count r.count n then (r, w') else (record { count = minus read_error; bytes = [] }, w')

  module _ {S : Type 0} (hash : Hash S) (zeroed_hash : S) where
    -- `bpak_merkle_init`, the loop over the data and `bpak_merkle_finish`: the size of the tree.
    unfoldable pub generate_tree : ℕ → ℕ → ℕ → List ℕ → Run W ℤ
    unfolding feed_data merkle_init merkle_finish get_size
    generate_tree data_offset data_length tree_offset salt = do
      c ← merkle_init hash tree_io zeroed_hash data_length salt tree_offset true
      c' ← feed_data hash tree_io read_exactly data_length data_offset data_length c
      (c'', root) ← merkle_finish hash tree_io c'
      pure (pos (get_size hash tree_io c''))

    -- `merkle_generate`
    unfoldable pub merkle_generate : Decoder D → Run W ℤ
    unfolding generate_tree payload_offset meta_bytes raise
    merkle_generate c =
        let h = c.patch_header in
        let fs_id = hash_tree_id_to_part_id h (current c).id in
        if fs_id == 0
        then raise missing_meta_data
        else elim (get_meta h id_merkle_salt fs_id) as (λ _. Run W ℤ) [
          | err e ↦ raise e
          | ok i ↦ elim (get_part h fs_id) as (λ _. Run W ℤ) [
            | err e ↦ raise e
            | ok j ↦
                let fs_part = get_or h.parts j no_part in
                generate_tree (payload_offset h fs_part c.output_offset) (part_size fs_part)
                  (payload_offset h (current c) c.output_offset) (meta_bytes h i 32)
          ]
        ]

    -- The length of the output, by the decoder.
    unfoldable pub output_length : ℕ → Run (Decoder D × W) ℤ
    unfolding with_bspatch merkle_generate is_bspatch raise
    output_length fuel (c, w) =
        if is_bspatch c.decoder_id
        then with_bspatch (stream_final decompress patch_io fuel) (c, w)
        else if c.decoder_id == id_merkle_generate
        then elim (merkle_generate c w) [ none ↦ none | some (r, w') ↦ some (r, (c, w')) ]
        else if c.decoder_id == 0
        then some (done (pos (part_size (current c))), (c, w))
        else raise not_supported (c, w)

    -- `output_length < 0`, the test of the length, the part's header and the write of the package's.
    unfoldable pub check_length : ℤ → Run (Decoder D × W) (Unit {0})
    unfolding decoded write_decoder_header raise
    check_length (negsuc n) (c, w) = some (fail (negsuc n), (c, w))
    check_length (pos n) (c, w) =
        if n == ((current c).size + (current c).pad_bytes) % 2 ^ 64
        then write_decoder_header (
          record c {
            patch_header = record c.patch_header {
              parts = set c.patch_header.parts c.part (decoded (current c));
            };
          },
          w,
        )
        else raise size_error (c, w)

    -- `bpak_transport_decode_finish`
    unfoldable pub decode_finish : ℕ → Run (Decoder D × W) (Unit {0})
    unfolding output_length check_length
    decode_finish fuel = output_length fuel >>= check_length
