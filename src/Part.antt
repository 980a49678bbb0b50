-- ===== src/Part.antt =====
-- lib/bpak.c: the part table (`bpak_get_part`, `bpak_add_part`, `bpak_del_part`, `bpak_part_offset`)
-- and `bpak_pkg_installed_size` and `bpak_pkg_size` of lib/pkg.c, which only read it.
-- A `struct bpak_part_header *` is an index of the table.
pub mod Table
pub mod Delete
pub mod Extent
use mathlib.Core.Option
use bpak.Prelude.{
  ℕ, zero, suc, ◌+◌, ◌%◌, ◌^◌, bit_and, Bool, Option, none, some, List, [], ◌∷◌, ◌==◌,
  if◌then◌else◌,
}
use bpak.Status.{Result, ok, err, not_found, no_space_left, exists}
use bpak.Header.{PartHeader, Header, no_part, header_size, flag_transport, part_size}

unfoldable pub get_loop : List PartHeader → ℕ → Option ℕ
get_loop [] id = none
get_loop (p ∷ ps) id = if p.id == id then some 0 else Option.map suc (get_loop ps id)

-- On BPAK_NOT_FOUND `*part` is left as it was.
unfoldable pub get_part : Header → ℕ → Result ℕ
unfolding get_loop
get_part h id = elim (get_loop h.parts id) [ none ↦ err not_found | some i ↦ ok i ]

succ_index : Result ℕ → Result ℕ
succ_index (ok i) = ok (suc i)
succ_index (err e) = err e

unfoldable pub add_loop : List PartHeader → ℕ → Result ℕ × List PartHeader
unfolding succ_index
add_loop [] id = (err no_space_left, [])
add_loop (p ∷ ps) id =
    let (r, ps') = add_loop ps id in
    if p.id == 0
    then (ok 0, record p { id = id } ∷ ps)
    else if p.id == id
    then (err exists, p ∷ ps)
    else (succ_index r, p ∷ ps')

unfoldable pub add_part : Header → ℕ → Result ℕ × Header
unfolding add_loop
add_part h id = let (r, ps) = add_loop h.parts id in (r, record h { parts = ps })

-- The loop of `bpak_del_part` at a slot with the slots behind it. The slot's own content is overwritten
-- before it is read, or zeroed where it is the last.
unfoldable pub del_loop : List PartHeader → List PartHeader
del_loop [] = no_part ∷ []
del_loop (q ∷ ps) = let rest = del_loop ps in if q.id == 0 then no_part ∷ q ∷ ps else q ∷ rest

unfoldable pub del_at : ℕ → List PartHeader → List PartHeader
unfolding del_loop
del_at i [] = []
del_at zero (p ∷ ps) = del_loop ps
del_at (suc i) (p ∷ ps) = p ∷ del_at i ps

unfoldable pub del_part : Header → ℕ → Header
unfolding del_at
del_part h i = record h { parts = del_at i h.parts }

-- `bpak_part_offset` from `offset` on; sums of `off_t` and `size_t` are taken mod 2^64.
unfoldable pub offset_loop : ℕ → List PartHeader → ℕ → ℕ
offset_loop offset [] id = offset
offset_loop offset (p ∷ ps) id =
    let rest = offset_loop ((offset + part_size p) % 2 ^ 64) ps id in
    if p.id == 0 then offset else if p.id == id then offset else rest

unfoldable pub part_offset : Header → PartHeader → ℕ
unfolding offset_loop
part_offset h part = offset_loop header_size h.parts part.id

-- `bpak_pkg_installed_size`
unfoldable pub installed_loop : ℕ → List PartHeader → ℕ
installed_loop installed_size [] = installed_size
installed_loop installed_size (p ∷ ps) =
    installed_loop ((installed_size + (p.size + p.pad_bytes) % 2 ^ 64) % 2 ^ 64) ps

unfoldable pub installed_size : Header → ℕ
unfolding installed_loop
installed_size h = installed_loop 0 h.parts

-- `bpak_pkg_size`
unfoldable pub size_loop : ℕ → List PartHeader → ℕ
size_loop transport_size [] = transport_size
size_loop transport_size (p ∷ ps) =
    size_loop
      ((transport_size + (if bit_and p.flags flag_transport == 0 then p.size else p.transport_size))
        % 2 ^ 64)
      ps

unfoldable pub pkg_size : Header → ℕ
unfolding size_loop
pkg_size h = (size_loop 0 h.parts + header_size) % 2 ^ 64
