-- ===== src/Transport/Package.antt =====
-- lib/pkg.c, `bpak_pkg_transport_decode`: a package is read part by part and decoded into another file.
use bpak.Prelude.{
  ℕ, zero, suc, ◌-◌, min, true, false, Option, none, some, List, [], ◌==◌, if◌then◌else◌, length,
  get_or,
}
use bpak.Int.{ℤ, pos, negsuc}
use bpak.Run.{Rc, Run, done, fail, pure, raise, minus, out_of_fuel, ◌>>=◌, ◌>>◌}
use bpak.Status.{Result, ok, err, seek_error, read_error, size_error}
use bpak.Header.{Header, header_size, no_part, part_size}
use bpak.Part.{get_part}
use bpak.Patch.{ReadResult}
use bpak.Patch.Stream.{Decompressor}
use bpak.Payload.{Hash, chunk_buffer_length}
use bpak.Package.{Stdio}
use bpak.Transport.Decode.{
  DecodeIo, Decoder, decode_init, set_origin, decode_start, decode_write_chunk, decode_finish,
}

module _ {W : Type 0} (fp : Stdio W) where
  -- `decode_write_output`. A seek to a negative offset fails.
  unfoldable pub write_stream : ℤ → List ℕ → W → ℤ × W
  unfolding minus
  write_stream (negsuc o) buffer w = (minus seek_error, w)
  write_stream (pos o) buffer w =
      let (found, w1) = fp.fseek o w in
      let (written, w2) = fp.fwrite buffer w1 in
      if found then (pos written, w2) else (minus seek_error, w1)

  -- `decode_read_output` and `decode_read_origin`
  unfoldable pub read_stream : ℤ → ℕ → W → ReadResult × W
  unfolding minus
  read_stream (negsuc o) n w = (record { count = minus seek_error; bytes = [] }, w)
  read_stream (pos o) n w =
      let (found, w1) = fp.fseek o w in
      let (bytes, w2) = fp.fread n w1 in
      if found
      then (record { count = pos (length bytes); bytes = bytes }, w2)
      else (record { count = minus seek_error; bytes = [] }, w1)

  -- `decode_write_output_header`
  unfoldable pub write_stream_header : List ℕ → W → ℤ × W
  unfolding write_stream minus
  write_stream_header buffer w =
      if length buffer == header_size then write_stream (pos 0) buffer w else (minus size_error, w)

-- The callbacks on the output and the origin.
abbrev pub decode_io : {W : Type 0} → Stdio W → Stdio W → DecodeIo W
decode_io output origin = record {
  write_output = write_stream output;
  read_output = read_stream output;
  write_output_header = write_stream_header output;
  read_origin = read_stream origin;
}

module _ {D W : Type 0} (decompress : Decompressor D) (zeroed : D) (input : Stdio W)
    (io : DecodeIo W) where
  -- The loop that feeds a part's data to the decoder. A round takes a byte at least.
  unfoldable pub feed_loop : ℕ → ℕ → ℕ → Run (Decoder D × W) (Unit {0})
  unfolding decode_write_chunk raise
  feed_loop fuel zero bytes_to_process s =
      (if bytes_to_process == 0 then pure tt else out_of_fuel) s
  feed_loop fuel (suc rounds) bytes_to_process (c, w) =
      let chunk_length = min bytes_to_process chunk_buffer_length in
      let (chunk, w1) = input.fread chunk_length w in
      elim (bytes_to_process == 0) as (λ _. Option (Rc (Unit {0}) × (Decoder D × W))) [
        | true ↦ some (done tt, (c, w))
        | false ↦
            elim (length chunk == chunk_length) as (λ _. Option (Rc (Unit {0}) × (Decoder D × W))) [
              | false ↦ raise read_error (c, w1)
              | true ↦
                  (decode_write_chunk decompress zeroed io fuel chunk >>= λ _.
                  feed_loop fuel rounds (bytes_to_process - chunk_length))
                    (c, w1)
            ]
      ]

  module _ {S : Type 0} (hash : Hash S) (zeroed_hash : S) where
    -- One part, behind the look-up in the origin. The size is that of the part as it was at the start.
    unfoldable pub decode_part : ℕ → ℕ → Run (Decoder D × W) (Unit {0})
    unfolding decode_start feed_loop decode_finish
    decode_part fuel i (c, w) =
        let size = part_size (get_or c.patch_header.parts i no_part) in
        (do
          decode_start decompress zeroed io chunk_buffer_length i
          feed_loop fuel size size
          decode_finish decompress zeroed io hash zeroed_hash fuel)
          (c, w)

    -- The loop over the parts, from slot `i` on.
    unfoldable pub parts_loop : ℕ → Option Header → ℕ → ℕ → Run (Decoder D × W) (Unit {0})
    unfolding decode_part raise
    parts_loop fuel origin zero i (c, w) = some (done tt, (c, w))
    parts_loop fuel origin (suc slots) i (c, w) =
        let p = get_or c.patch_header.parts i no_part in
        let known : Result ℕ = elim origin [ none ↦ ok 0 | some h ↦ get_part h p.id ] in
        elim (p.id == 0) as (λ _. Option (Rc (Unit {0}) × (Decoder D × W))) [
          | true ↦ some (done tt, (c, w))
          | false ↦ elim known as (λ _. Option (Rc (Unit {0}) × (Decoder D × W))) [
            | err e ↦ raise e (c, w)
            | ok k ↦ (decode_part fuel i >>= λ _. parts_loop fuel origin slots (suc i)) (c, w)
          ]
        ]

    -- Behind `bpak_transport_decode_set_origin`.
    unfoldable pub decode_parts : ℕ → Option Header → Run (Decoder D × W) (Unit {0})
    unfolding parts_loop raise
    decode_parts fuel origin (c, w) =
        let (found, w1) = input.fseek header_size w in
        if found
        then parts_loop fuel origin (length c.patch_header.parts) 0 (c, w1)
        else raise seek_error (c, w1)

    -- `bpak_pkg_transport_decode`, with the header of the input and that of the origin.
    unfoldable pub pkg_transport_decode : ℕ → Header → Option Header → Run W (Decoder D)
    unfolding decode_init set_origin decode_parts raise
    pkg_transport_decode fuel patch_header origin w =
        let start : Decoder D = decode_init patch_header header_size in
        let ready : Result (Decoder D) = elim origin [
          | none ↦ ok start
          | some h ↦ set_origin h header_size start
        ] in
        elim ready as (λ _. Option (Rc (Decoder D) × W)) [
          | err e ↦ raise e w
          | ok c ↦ elim (decode_parts fuel origin (c, w)) as (λ _. Option (Rc (Decoder D) × W)) [
            | none ↦ none
            | some (fail rc, (c', w')) ↦ some (fail rc, w')
            | some (done _, (c', w')) ↦ some (done c', w')
          ]
        ]
