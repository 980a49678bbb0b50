-- ===== src/Package/Open.antt =====
-- lib/pkg.c, `bpak_pkg_open`, and the header that its `fread` stores into `struct bpak_header`
-- (include/bpak/bpak.h), which is packed, with the low byte of a number first.
pub mod Parsed
pub mod Loaded
use bpak.Prelude.{
  ℕ, zero, suc, Option, none, some, List, [], ◌∷◌, ◌==◌, if◌then◌else◌, length, take, drop,
}
use bpak.Run.{Rc, Run, done, fail, pure, raise, lift, ◌>>=◌, ◌>>◌}
use bpak.Status.{failed, not_found}
use bpak.Header.{
  MetaHeader, PartHeader, Header, header_size, max_meta, max_parts, metadata_bytes,
  signature_max_bytes, init_header,
}
use bpak.Header.Bytes.{header_bytes}
use bpak.Valid.{valid_header}
use bpak.Payload.{Hash}
use bpak.Transport.{le_value}
use bpak.Package.{Stdio, update_payload_hash}
use bpak.Package.Extract.{Host}
use bpak.Package.Create.{on_streams, seek_to, write_bytes}

-- A field of `n` bytes.
unfoldable pub field : ℕ → ℕ → List ℕ → ℕ
unfolding le_value
field offset n bytes = le_value (take n (drop offset bytes))

unfoldable pub meta_header_of : List ℕ → MetaHeader
unfolding field
meta_header_of bytes = record {
  id = field 0 4 bytes;
  size = field 4 2 bytes;
  offset = field 6 2 bytes;
  part_id_ref = field 8 4 bytes;
  pad = field 12 4 bytes;
}

unfoldable pub part_header_of : List ℕ → PartHeader
unfolding field
part_header_of bytes = record {
  id = field 0 4 bytes;
  size = field 4 8 bytes;
  offset = field 12 8 bytes;
  transport_size = field 20 8 bytes;
  pad_bytes = field 28 2 bytes;
  flags = field 30 1 bytes;
  pad = field 31 1 bytes;
}

-- An array of `count` elements of `size` bytes.
unfoldable pub array_of : {A : Type 0} → (List ℕ → A) → ℕ → ℕ → List ℕ → List A
array_of f size zero bytes = []
array_of f size (suc count) bytes = f (take size bytes) ∷ array_of f size count (drop size bytes)

-- What the packed struct holds behind an `fread` of its bytes: the code has no parser.
unfoldable pub header_of : List ℕ → Header
unfolding field array_of meta_header_of part_header_of
header_of bytes = record {
  magic = field 0 4 bytes;
  pad0 = field 4 4 bytes;
  meta = array_of meta_header_of 16 max_meta (drop 8 bytes);
  parts = array_of part_header_of 32 max_parts (drop 520 bytes);
  metadata = take metadata_bytes (drop 1544 bytes);
  hash_kind = field 3464 1 bytes;
  signature_kind = field 3465 1 bytes;
  alignment = field 3466 2 bytes;
  payload_hash = take 64 (drop 3468 bytes);
  key_id = field 3532 4 bytes;
  keystore_id = field 3536 4 bytes;
  pad1 = take 42 (drop 3540 bytes);
  signature = take signature_max_bytes (drop 3582 bytes);
  signature_sz = field 4094 2 bytes;
}

module _ {W S : Type 0} (hash : Hash S) where
  -- A file that is too short gets a new header. It is written where the reads have left the position.
  unfoldable pub create_header : Stdio W → Run (Header × W) (Unit {0})
  unfolding update_payload_hash on_streams write_bytes seek_to
  create_header fp (_, w) =
      (do
        update_payload_hash fp hash
        λ (h, w). on_streams (write_bytes fp (header_bytes h)) (h, w)
        on_streams (seek_to fp 0))
        (init_header, w)

  -- Behind `fopen`: the header.
  unfoldable pub read_header : Stdio W → Run W Header
  unfolding create_header header_of valid_header seek_to raise lift
  read_header fp w =
      let (bytes, w1) = fp.fread header_size w in
      let loaded =
        if length bytes == header_size
        then some (done tt, (header_of bytes, w1))
        else create_header fp (header_of bytes, w1) in
      elim loaded as (λ _. Option (Rc Header × W)) [
        | none ↦ none
        | some (fail rc, (h, w2)) ↦ some (fail rc, w2)
        | some (done _, (h, w2)) ↦ (lift (valid_header h) >>= λ _. seek_to fp 0 >>= λ _. pure h) w2
      ]

  -- `bpak_pkg_open`: the stream and the header. A stream is closed where an error is returned, which is left
  -- out.
  unfoldable pub pkg_open : Host W → List ℕ → Option (List ℕ) → Run W (Stdio W × Header)
  unfolding read_header seek_to raise
  pkg_open host filename none w = raise failed w
  pkg_open host filename (some mode) w =
      let (fp, w1) = host.fopen filename mode w in
      elim fp as (λ _. Option (Rc (Stdio W × Header) × W)) [
        | none ↦ raise not_found w1
        | some stdio ↦ (seek_to stdio 0 >>= λ _. read_header stdio >>= λ h. pure (stdio, h)) w1
      ]
