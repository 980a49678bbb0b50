-- ===== src/Lib.antt =====
-- bpak packs files into a package: a header of 4 KiB with two tables (parts, and metadata with its
-- bytes), followed by the parts. This library models the code that reads and edits the header and the
-- package's file, the hash trees that protect parts, verification and signing, the making and applying of
-- binary patches, and the coding of packages for transport, which puts these together.
--
-- Status.antt: `enum bpak_errors` (include/bpak/bpak.h) and `bpak_error_string` (lib/bpak.c). A function
-- that returns BPAK_OK or a negated error returns a `Result`.
-- Header.antt: `struct bpak_header`, `struct bpak_meta_header`, `struct bpak_part_header`
-- (include/bpak/bpak.h), and the functions of lib/bpak.c on single fields. A field is the number in the
-- C field, an array is a list, and what the code returns through a pointer is part of the result.
-- Meta.antt: the metadata table of lib/bpak.c (`bpak_get_meta`, `bpak_get_meta_anyref`, `bpak_add_meta`,
-- `bpak_del_meta`). A `struct bpak_meta_header *` is the index of a slot. Layout is the invariant of
-- the table; Added and Add are about insertion, Slide, Removed and Delete about deletion. `del_meta`
-- gives `none` where the code would move bytes from or to outside the metadata array.
-- Part.antt: the part table (`bpak_get_part`, `bpak_add_part`, `bpak_del_part`, `bpak_part_offset` of
-- lib/bpak.c) and the sizes `bpak_pkg_installed_size` and `bpak_pkg_size` of lib/pkg.c.
-- Valid.antt: `bpak_valid_header` of lib/bpak.c, and how insertion bears on it.
-- Merkle.antt: the sizes and the layout of the hash tree in lib/merkle.c. Its loops have fuel for five and
-- four rounds; they leave by their own check of the level before it runs out. Merkle/Walk.antt: the
-- context, `bpak_merkle_init`, `bpak_merkle_write_chunk` and `bpak_merkle_finish`, with the hash functions
-- and the callbacks as parameters. The bytes of a chunk are the fuel: every pass uses one.
-- Offt.antt: `offtout` (lib/bsdiff.c) and `offtin` (lib/bspatch.c), the numbers of a patch's records.
-- Patch.antt: `bspatch_write` (lib/bspatch.c), a step function on the context and the rest of the chunk. The
-- two I/O callbacks are parameters over a state of the caller's. A chunk of n bytes has fuel 4 * n + 4,
-- which is enough: every pass that goes on uses a byte or moves to a later state of the same record.
-- Patch/Stream.antt: `bpak_bspatch_init`, `bpak_bspatch_write` and `bpak_bspatch_final`, with heatshrink and
-- lzma as parameters; the fuel of the loops over a decompressor is the caller's. Patch/Pieces.antt and
-- Patch/Apply: what the records of a patch mean, and that the state machine does it.
-- Bsdiff.antt: lib/bsdiff.c, the making of a patch. Compress has the encoders as parameters, Segment the
-- lengths of a record and its writing, Scan `bpak_bsdiff_init` and `bpak_bsdiff`. The search halves a range
-- and has fuel for its length, the main loop has fuel for each byte of the new data and one more; Search
-- and Progress show that both are enough. `sais` is a parameter, and so is the number that stands in memory
-- behind the suffix array, which the search reads.
-- Crc.antt: `bpak_crc32` with its table (lib/bpakcrc.c), `bpak_id` (lib/id.c) and the hash tree ids of
-- lib/utils.c. A string is the list of its bytes.
-- Payload.antt: `bpak_verify_compute_payload_hash` (lib/verify.c), with the hash functions and the read
-- callback as parameters. The chunks of a part of n bytes have fuel n / 4096 + 1; one pass is made for
-- each 4096 bytes begun, and one for an empty part.
-- Header/Bytes.antt: the bytes of a header in memory, with the low byte of a number first.
-- Verify.antt: `bpak_verify_merkle_tree` and `bpak_verify_payload` (lib/verify.c), with HeaderHash for
-- `bpak_verify_compute_header_hash`. A loop over n bytes has n rounds, and each takes a byte at least.
-- Merkle/Walk/Agree.antt carries a run of the tree with one set of callbacks over to another.
-- Package.antt: `bpak_pkg_update_hash`, `bpak_pkg_write_header` and `bpak_pkg_write_raw_signature` (lib/pkg.c),
-- `bpak_pkg_sign` (lib/pkg_sign.c) and `bpak_pkg_verify` (lib/pkg_verify.c), with stdio and the crypto
-- functions as parameters. Package/Extract, Package/Digest, Package/Create and Package/Remove:
-- `bpak_pkg_extract_file`, `bpak_pkg_delete_part` and `bpak_pkg_delete_all_parts` (lib/pkg.c),
-- `bpak_pkg_part_sha256` (lib/pkg_verify.c), `bpak_pkg_add_file` and `bpak_pkg_add_key` (lib/pkg_create.c).
-- A loop that counts its bytes down has a round for each. The loops that copy the input of
-- `bpak_pkg_add_file` and move the data behind a deleted part go by what `fread` gives; their fuel is the
-- caller's. Package/Stream says what a stream on a file does, Package/Kept what a hash and a write of the
-- header leave of the file. Package/Open: `bpak_pkg_open` (lib/pkg.c), with the header that a file's first
-- 4096 bytes are. Package/Tree: `bpak_pkg_add_file_with_merkle_tree` (lib/pkg_create.c).
-- Package/Create/Readable and Package/Remove/Placed are about the places of the parts in the table and
-- in the file.
-- Transport.antt: `bpak_transport_decode_init`, `_set_origin`, `_start`, `_write_chunk` and `_finish` and
-- `merkle_generate` (lib/transport_decode.c) in Decode, `bpak_pkg_transport_decode` and its callbacks
-- (lib/pkg.c) in Package. Identity is about packages without coded parts. Encode: lib/transport_encode.c;
-- its fuel is for the encoders. Metadata is about `bpak_add_transport_meta` (lib/bpak.c).
-- Hex.antt: `bpak_bin2hex` (lib/utils.c).
-- Keystore.antt: `bpak_keystore_get` (lib/keystore.c), and in Load `bpak_keystore_load_key_from_file`
-- (lib/keystore_load_from_file.c).
-- Prelude and Int are shared helpers; Examples has the theorems at concrete inputs, and runs.
--
-- Numbers are natural numbers, with the wrap-around of the C type written out where a sum can pass its
-- width; the signed positions and counts of a patch are integers without a bound, but `matchlen` returns an
-- `int32_t`, as in the code. What the scan does with a negative length of it is not modelled. Messages that
-- the code prints are left out.
--
-- Not modelled: the hash functions, the compressors and `sais`; the text utilities but `bpak_bin2hex`; the
-- crypto wrappers, the command line tool and the Python bindings, which are glue; and the copies of other
-- projects (heatshrink, sais, uuid).
pub mod Prelude
pub mod Int
pub mod Status
pub mod Run
pub mod Header
pub mod Meta
pub mod Part
pub mod Transport
pub mod Valid
pub mod Merkle
pub mod Offt
pub mod Patch
pub mod Crc
pub mod Payload
pub mod Verify
pub mod Package
pub mod Hex
pub mod Keystore
pub mod Bsdiff
pub mod Examples
