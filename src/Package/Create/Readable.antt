-- ===== src/Package/Create/Readable.antt =====
-- lib/pkg_create.c, `bpak_pkg_add_file`: where the new part stands, against `bpak_part_offset` of lib/bpak.c,
-- and what a reader finds there.
use bpak.Prelude.{
  ℕ, ◌+◌, ◌%◌, ◌≤◌, ◌<◌, ◌≡◌, ◌≢◌, List, ◌++◌, length, take, drop, get_or, replicate, bit_and,
}
use bpak.Status.{ok}
use bpak.Header.{PartHeader, Header, header_size, no_part, part_align, flag_transport}
use bpak.Header.Bytes.{header_bytes}
use bpak.Part.{get_part, part_offset}

-- A slot whose part is not coded for transport, and which has no size if it is free.
abbrev pub IsRegular : PartHeader → Type 0
IsRegular p = (bit_and p.flags flag_transport ≡ 0) × (p.id ≡ 0 → (p.size ≡ 0) × (p.pad_bytes ≡ 0))

-- The part `p` with this data, id and flags was added in slot `i` of the header `h` and the file `old`: the
-- header is `h'` and the file `new`. Its offset is the one that `bpak_part_offset` computes.
pub record IsAdded (h h' : Header) (p : PartHeader) (i id flags : ℕ) (source old new : List ℕ)
    : Type 0 where
  pub found : get_part h' id ≡ ok i
  pub flagged : p.flags ≡ flags
  pub sized : p.size ≡ length source
  pub aligned : (p.size + p.pad_bytes) % part_align ≡ 0
  pub tight : p.pad_bytes < part_align
  pub placed : p.offset ≡ part_offset h' p
  pub others : (j : ℕ) → j ≢ i → get_or h'.parts j no_part ≡ get_or h.parts j no_part
  pub header : take header_size new ≡ header_bytes h'
  pub contents :
      take (p.size + p.pad_bytes) (drop (part_offset h' p) new) ≡ source ++ replicate p.pad_bytes 0
  pub kept :
      (k n : ℕ)
      → header_size ≤ k
      → k + n ≤ part_offset h' p
      → k + n ≤ length old
      → take n (drop k new) ≡ take n (drop k old)
