-- ===== src/Package/Create.antt =====
-- lib/pkg_create.c: `bpak_pkg_add_file` and `bpak_pkg_add_key`. The streams and the functions that read keys
-- are parameters.
pub mod Stored
pub mod Readable
use bpak.Prelude.{
  ℕ, zero, suc, ◌+◌, ◌-◌, ◌%◌, ◌^◌, Bool, true, false, Option, none, some, List, [], ◌∷◌, ◌==◌,
  if◌then◌else◌, length, take, set, get_or, replicate,
}
use bpak.Run.{Rc, Run, done, fail, pure, raise, lift, out_of_fuel, ◌>>=◌, ◌>>◌}
use bpak.Status.{Result, ok, err, file_not_found, seek_error, write_error}
use bpak.Header.{PartHeader, Header, no_part, part_align, header_size}
use bpak.Part.{add_part}
use bpak.Crc.{id_of}
use bpak.Payload.{Hash, chunk_buffer_length}
use bpak.Package.{Stdio, write_header, update_payload_hash}
use bpak.Package.Extract.{Host}

-- The loop over the parts that finds the end of the last one.
unfoldable pub end_loop : ℕ → List PartHeader → ℕ
end_loop new_offset [] = new_offset
end_loop new_offset (p ∷ ps) = end_loop ((new_offset + p.size + p.pad_bytes) % 2 ^ 64) ps

-- The bytes up to the next multiple of BPAK_PART_ALIGN.
unfoldable pub padding : ℕ → ℕ
padding size = if size % part_align == 0 then 0 else part_align - size % part_align

-- The fields of the new part.
unfoldable pub fill_part : ℕ → ℕ → ℕ → ℕ → PartHeader → PartHeader
unfolding padding
fill_part id offset flags size p = record p {
  id = id;
  offset = offset;
  flags = flags;
  size = size;
  pad_bytes = padding size;
}

unfoldable pub with_part : ℕ → PartHeader → Header → Header
with_part i p h = record h { parts = set h.parts i p }

-- A run on the streams, beside the header.
unfoldable pub on_streams : {W A : Type 0} → Run W A → Run (Header × W) A
on_streams m (h, w) = elim (m w) [ none ↦ none | some (r, w') ↦ some (r, (h, w')) ]

-- The mode "r".
abbrev pub read_only : List ℕ
read_only = 114 ∷ []

module _ {W : Type 0} (fp : Stdio W) where
  -- `fwrite` of all of these bytes.
  unfoldable pub write_bytes : List ℕ → Run W (Unit {0})
  unfolding raise
  write_bytes bytes w =
      let (written, w1) = fp.fwrite bytes w in
      if written == length bytes then some (done tt, w1) else raise write_error w1

  -- `fseek`, then more.
  unfoldable pub seek_to : ℕ → Run W (Unit {0})
  unfolding raise
  seek_to offset w =
      let (found, w1) = fp.fseek offset w in
      if found then some (done tt, w1) else raise seek_error w1

  unfoldable pub write_padding : ℕ → Run W (Unit {0})
  unfolding write_bytes
  write_padding pad_bytes = if pad_bytes == 0 then pure tt else write_bytes (replicate pad_bytes 0)

  module _ (in_fp : Stdio W) where
    -- The loop that copies the input file. It asks for a whole buffer each time, and goes on until so many
    -- bytes were read as `stat` has said: the fuel is the caller's.
    unfoldable pub input_loop : ℕ → ℕ → Run W (Unit {0})
    unfolding write_bytes
    input_loop zero bytes_to_write w = (if bytes_to_write == 0 then pure tt else out_of_fuel) w
    input_loop (suc fuel) bytes_to_write w =
        elim (bytes_to_write == 0) as (λ _. Option (Rc (Unit {0}) × W)) [
          | true ↦ pure tt w
          | false ↦
              let (chunk, w1) = in_fp.fread chunk_buffer_length w in
              (write_bytes chunk >>= λ _.
              input_loop fuel ((bytes_to_write + 2 ^ 64 - length chunk) % 2 ^ 64))
                w1
        ]

  module _ (host : Host W) {S : Type 0} (hash : Hash S) where
    -- `fopen` of the input, and the copy.
    unfoldable pub copy_input : ℕ → List ℕ → ℕ → Run W (Unit {0})
    unfolding raise input_loop
    copy_input fuel filename size w =
        let (in_fp, w1) = host.fopen filename read_only w in
        elim in_fp as (λ _. Option (Rc (Unit {0}) × W)) [
          | none ↦ raise file_not_found w1
          | some stream ↦ input_loop stream fuel size w1
        ]

    -- The hash and the header behind a change of the file.
    unfoldable pub update_header : Run (Header × W) (Unit {0})
    update_header = update_payload_hash fp hash >>= λ _. write_header fp

    -- Behind `bpak_add_part`, with the slot of the part.
    unfoldable pub store_file : ℕ → List ℕ → ℕ → ℕ → ℕ → Run (Header × W) (Unit {0})
    unfolding seek_to copy_input write_padding on_streams
    store_file fuel filename new_offset size pad_bytes = do
      on_streams (seek_to new_offset)
      on_streams (copy_input fuel filename size)
      on_streams (write_padding pad_bytes)
      update_header

    -- `bpak_pkg_add_file`
    unfoldable pub add_file : ℕ → List ℕ → List ℕ → ℕ → Run (Header × W) (Unit {0})
    unfolding end_loop fill_part with_part store_file raise
    add_file fuel filename part_name flags (h, w) =
        elim (host.stat filename w) as (λ _. Option (Rc (Unit {0}) × (Header × W))) [
          | none ↦ raise file_not_found (h, w)
          | some size ↦
              let new_offset = end_loop header_size h.parts in
              let (r, h1) = add_part h (id_of part_name) in
              elim r as (λ _. Option (Rc (Unit {0}) × (Header × W))) [
                | err e ↦ raise e (h1, w)
                | ok i ↦
                    let p =
                      fill_part (id_of part_name) new_offset flags size
                        (get_or h1.parts i no_part) in
                    store_file fuel filename new_offset size p.pad_bytes (with_part i p h1, w)
              ]
        ]

    -- Behind `bpak_add_part`, with the bytes of the key. `fwrite(&zero, 1, p->pad_bytes, ...)` writes the one
    -- zero and what stands behind it on the stack.
    unfoldable pub store_key : List ℕ → List ℕ → ℕ → ℕ → Run (Header × W) (Unit {0})
    unfolding seek_to write_bytes on_streams
    store_key stack key new_offset pad_bytes = do
      on_streams (seek_to new_offset)
      on_streams (write_bytes key)
      on_streams (write_bytes (take pad_bytes (0 ∷ stack)))
      update_header

    -- `bpak_pkg_add_key`, with `bpak_crypto_load_public_key`.
    unfoldable pub add_key :
        (List ℕ → Result (List ℕ)) → List ℕ → List ℕ → List ℕ → ℕ → Run (Header × W) (Unit {0})
    unfolding end_loop fill_part with_part store_key raise
    add_key load_public_key stack filename part_name flags (h, w) =
        elim (load_public_key filename) as (λ _. Option (Rc (Unit {0}) × (Header × W))) [
          | err e ↦ raise e (h, w)
          | ok key ↦
              let new_offset = end_loop header_size h.parts in
              let (r, h1) = add_part h (id_of part_name) in
              elim r as (λ _. Option (Rc (Unit {0}) × (Header × W))) [
                | err e ↦ raise e (h1, w)
                | ok i ↦
                    let p =
                      fill_part (id_of part_name) new_offset flags (length key)
                        (get_or h1.parts i no_part) in
                    store_key stack key new_offset p.pad_bytes (with_part i p h1, w)
              ]
        ]
