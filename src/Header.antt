-- ===== src/Header.antt =====
-- include/bpak/bpak.h and lib/bpak.c: the package header with its two tables, and the functions that
-- read or write one field. Each field holds the number in the C field; an array is a list. The tables
-- have `max_meta` and `max_parts` slots and `metadata` has `metadata_bytes` bytes (`IsSized`).
-- A pointer into a table is its index.
pub mod Bytes
use bpak.Prelude.{
  ℕ, ◌+◌, ◌%◌, ◌^◌, ◌≡◌, bit_and, List, length, take, replicate, overlay, ltb, ◌==◌, if◌then◌else◌,
}
use bpak.Status.{Result, ok, err, size_error}

abbrev pub header_magic : ℕ
header_magic = 0x42504132

abbrev pub max_parts : ℕ
max_parts = 32

abbrev pub max_meta : ℕ
max_meta = 32

abbrev pub metadata_bytes : ℕ
metadata_bytes = 1920

abbrev pub part_align : ℕ
part_align = 512

abbrev pub signature_max_bytes : ℕ
signature_max_bytes = 512

-- sizeof(struct bpak_header)
abbrev pub header_size : ℕ
header_size = 4096

abbrev pub flag_exclude_from_hash : ℕ
flag_exclude_from_hash = 1

abbrev pub flag_transport : ℕ
flag_transport = 2

-- `enum bpak_hash_kind` and `enum bpak_signature_kind`, the two that `init_header` stores.
abbrev pub hash_sha256 : ℕ
hash_sha256 = 1

abbrev pub sign_prime256v1 : ℕ
sign_prime256v1 = 2

-- `struct bpak_meta_header`; the four padding bytes are one number.
pub record MetaHeader : Type 0 where
  pub id : ℕ
  pub size : ℕ
  pub offset : ℕ
  pub part_id_ref : ℕ
  pub pad : ℕ

-- `struct bpak_part_header`
pub record PartHeader : Type 0 where
  pub id : ℕ
  pub size : ℕ
  pub offset : ℕ
  pub transport_size : ℕ
  pub pad_bytes : ℕ
  pub flags : ℕ
  pub pad : ℕ

-- `struct bpak_header`; `pad0` is one number.
pub record Header : Type 0 where
  pub magic : ℕ
  pub pad0 : ℕ
  pub meta : List MetaHeader
  pub parts : List PartHeader
  pub metadata : List ℕ
  pub hash_kind : ℕ
  pub signature_kind : ℕ
  pub alignment : ℕ
  pub payload_hash : List ℕ
  pub key_id : ℕ
  pub keystore_id : ℕ
  pub pad1 : List ℕ
  pub signature : List ℕ
  pub signature_sz : ℕ

-- What the array types of the struct say.
pub record IsSized (h : Header) : Type 0 where
  pub meta_slots : length h.meta ≡ max_meta
  pub part_slots : length h.parts ≡ max_parts
  pub data_bytes : length h.metadata ≡ metadata_bytes
  pub signature_room : length h.signature ≡ signature_max_bytes

-- All bytes zero, as `memset` leaves a slot.
abbrev pub no_meta : MetaHeader
no_meta = record { id = 0; size = 0; offset = 0; part_id_ref = 0; pad = 0 }

abbrev pub no_part : PartHeader
no_part = record {
  id = 0;
  size = 0;
  offset = 0;
  transport_size = 0;
  pad_bytes = 0;
  flags = 0;
  pad = 0;
}

unfoldable pub init_header : Header
init_header = record {
  magic = header_magic;
  pad0 = 0;
  meta = replicate max_meta no_meta;
  parts = replicate max_parts no_part;
  metadata = replicate metadata_bytes 0;
  hash_kind = hash_sha256;
  signature_kind = sign_prime256v1;
  alignment = part_align;
  payload_hash = replicate 64 0;
  key_id = 0;
  keystore_id = 0;
  pad1 = replicate 42 0;
  signature = replicate signature_max_bytes 0;
  signature_sz = 0;
}

-- `bpak_part_size`: a `size_t`, which wraps.
unfoldable pub part_size : PartHeader → ℕ
part_size p =
    if bit_and p.flags flag_transport == 0
    then (p.size + p.pad_bytes) % 2 ^ 64
    else p.transport_size

unfoldable pub part_size_wo_pad : PartHeader → ℕ
part_size_wo_pad p = if bit_and p.flags flag_transport == 0 then p.size else p.transport_size

unfoldable pub set_key_id : Header → ℕ → Header
set_key_id h key_id = record h { key_id = key_id }

unfoldable pub set_keystore_id : Header → ℕ → Header
set_keystore_id h keystore_id = record h { keystore_id = keystore_id }

-- `bpak_copyz_signature`: the caller's buffer and `*size` go in, and come out written.
unfoldable pub copyz_signature : Header → List ℕ → ℕ → Result (List ℕ × ℕ × Header)
copyz_signature h buffer size =
    if ltb signature_max_bytes h.signature_sz
    then err size_error
    else if h.signature_sz == 0
    then err size_error
    else if ltb size h.signature_sz
    then err size_error
    else ok (
      overlay (take h.signature_sz h.signature) buffer,
      h.signature_sz,
      record h { signature = replicate signature_max_bytes 0; signature_sz = 0 },
    )
