-- ===== src/Transport.antt =====
-- Transport coding: include/bpak/id.h's algorithms and `struct bpak_transport_meta`. `Transport/Decode` is
-- lib/transport_decode.c, `Transport/Encode` lib/transport_encode.c, and `Transport/Package` is
-- `bpak_pkg_transport_decode` of lib/pkg.c.
pub mod Decode
pub mod Package
pub mod Copied
pub mod Identity
pub mod Finished
pub mod Encode
pub mod Metadata
use bpak.Prelude.{ℕ, zero, suc, ◌+◌, ◌*◌, List, [], ◌∷◌, ◌++◌, take, drop, get_or, splice}
use bpak.Status.{Result, ok, err}
use bpak.Header.{Header, MetaHeader, no_meta}
use bpak.Header.Bytes.{le_bytes}
use bpak.Meta.{add_meta}
use bpak.Verify.{meta_bytes}

abbrev pub id_bpak_transport : ℕ
id_bpak_transport = 0x2d44bbfb

abbrev pub id_bpak_package : ℕ
id_bpak_package = 0xfb2f1f3f

abbrev pub id_bspatch : ℕ
id_bspatch = 0xb5964388

abbrev pub id_bspatch_lzma : ℕ
id_bspatch_lzma = 0x933a9893

abbrev pub id_bspatch_no_comp : ℕ
id_bspatch_no_comp = 0x75622592

abbrev pub id_bsdiff : ℕ
id_bsdiff = 0x9f7aacf9

abbrev pub id_bsdiff_lzma : ℕ
id_bsdiff_lzma = 0x1607e56e

abbrev pub id_bsdiff_no_comp : ℕ
id_bsdiff_no_comp = 0x0a878e3e

abbrev pub id_remove_data : ℕ
id_remove_data = 0x57004cd0

abbrev pub id_merkle_generate : ℕ
id_merkle_generate = 0xb5bcc58f

-- The number that is stored with its low byte first.
unfoldable pub le_value : List ℕ → ℕ
le_value [] = 0
le_value (x ∷ xs) = x + 256 * le_value xs

-- `alg_id_decode` of the transport metadata in slot `i`.
unfoldable pub alg_id_decode : Header → ℕ → ℕ
unfolding le_value meta_bytes
alg_id_decode h i = le_value (drop 4 (meta_bytes h i 8))

-- `bpak_add_transport_meta` of lib/bpak.c
unfoldable pub add_transport_meta : Header → ℕ → ℕ → ℕ → Result (Unit {0}) × Header
unfolding le_bytes
add_transport_meta h part_id encoder_id decoder_id =
    let (r, h1) = add_meta h id_bpak_transport part_id 32 in
    elim r as (λ _. Result (Unit {0}) × Header) [
      | err e ↦ (err e, h1)
      | ok i ↦ (
        ok tt,
        record h1 {
          metadata =
              splice (get_or h1.meta i no_meta).offset
                (le_bytes 4 encoder_id ++ le_bytes 4 decoder_id) h1.metadata;
        },
      )
    ]
