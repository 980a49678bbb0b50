-- ===== src/Valid.antt =====
-- `bpak_valid_header` of lib/bpak.c.
pub mod Meaning
pub mod Failure
use bpak.Prelude.{ℕ, ◌+◌, ◌%◌, ◌^◌, Bool, List, [], ◌∷◌, ltb, ◌==◌, if◌then◌else◌, not}
use bpak.Status.{Result, ok, err, ◌>>=◌, bad_magic, bad_alignment, size_error, not_supported}
use bpak.Header.{MetaHeader, PartHeader, Header, header_magic, metadata_bytes, part_align}

-- The sum of a `uint64_t` and a `uint16_t` wraps.
unfoldable pub check_parts : List PartHeader → Result (Unit {0})
check_parts [] = ok tt
check_parts (p ∷ ps) =
    let rest = check_parts ps in
    if p.id == 0
    then ok tt
    else if not ((p.size + p.pad_bytes) % 2 ^ 64 % part_align == 0)
    then err bad_alignment
    else rest

unfoldable pub check_meta : List MetaHeader → Result (Unit {0})
check_meta [] = ok tt
check_meta (m ∷ ms) =
    let rest = check_meta ms in
    if m.id == 0
    then ok tt
    else if ltb metadata_bytes (m.size + m.offset)
    then err size_error
    else rest

unfoldable pub valid_header : Header → Result (Unit {0})
unfolding check_parts check_meta
valid_header h =
    if not (h.magic == header_magic)
    then err bad_magic
    else (check_parts h.parts >>= λ _.
        check_meta h.meta >>= λ _. if h.hash_kind == 0 then err not_supported else ok tt)
