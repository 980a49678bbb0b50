-- ===== src/Meta.antt =====
-- lib/bpak.c: the metadata table and its byte array (`bpak_get_meta`, `bpak_get_meta_anyref`,
-- `bpak_add_meta`, `bpak_del_meta`). A `struct bpak_meta_header *` is an
-- index of the table; a loop over the table is a recursion on the slots from the current one on.
pub mod Layout
pub mod Added
pub mod Add
pub mod Slide
pub mod Removed
pub mod Delete
use mathlib.Core.Option
use bpak.Prelude.{
  ℕ, zero, suc, ◌+◌, ◌-◌, ◌/◌, ◌*◌, ◌%◌, ◌^◌, bit_and, Bool, true, false, not, ◌&&◌, Option, none,
  some, List, [], ◌∷◌, ltb, ◌==◌, if◌then◌else◌, length, get_or, take, drop, replicate, splice,
}
use bpak.Status.{Result, ok, err, not_found, no_space_left, exists}
use bpak.Header.{MetaHeader, PartHeader, Header, no_meta, metadata_bytes}

-- BPAK_META_ALIGN_SIZE, stored into a `uint16_t`.
unfoldable pub align_size : ℕ → ℕ
align_size x = bit_and (x + 7) 0xffff_fff8 % 2 ^ 16

-- `bpak_get_meta_int`, from the current slot on.
unfoldable pub get_meta_int : List MetaHeader → ℕ → ℕ → Bool → Option ℕ
get_meta_int [] id part_id_ref match_partref = none
get_meta_int (m ∷ ms) id part_id_ref match_partref =
    let next = Option.map suc (get_meta_int ms id part_id_ref match_partref) in
    if m.id == id
    then if match_partref && not (m.part_id_ref == part_id_ref) then next else some 0
    else next

found : Option ℕ → Result ℕ
found none = err not_found
found (some i) = ok i

unfoldable pub get_meta : Header → ℕ → ℕ → Result ℕ
unfolding found
get_meta h id part_id_ref = found (get_meta_int h.meta id part_id_ref true)

unfoldable pub get_meta_anyref : Header → ℕ → Result ℕ
unfolding found
get_meta_anyref h id = found (get_meta_int h.meta id 0 false)

succ_index : Result ℕ → Result ℕ
succ_index (ok i) = ok (suc i)
succ_index (err e) = err e

-- The loop of `bpak_add_meta` with its `new_offset`: the result and the slots, which have changed also
-- where the new entry does not fit the byte array.
unfoldable pub add_loop : ℕ → List MetaHeader → ℕ → ℕ → ℕ → Result ℕ × List MetaHeader
unfolding succ_index align_size
add_loop new_offset [] id part_ref_id size = (err no_space_left, [])
add_loop new_offset (m ∷ ms) id part_ref_id size =
    let (r, ms') = add_loop (align_size ((new_offset + m.size) % 2 ^ 16)) ms id part_ref_id size in
    if m.id == 0
    then (
      (if ltb metadata_bytes (new_offset + size) then err no_space_left else ok 0),
      record m { id = id; offset = new_offset; size = size; part_id_ref = part_ref_id } ∷ ms,
    )
    else if m.id == id && m.part_id_ref == part_ref_id
    then (err exists, m ∷ ms)
    else (succ_index r, m ∷ ms')

unfoldable pub add_meta : Header → ℕ → ℕ → ℕ → Result ℕ × Header
unfolding add_loop
add_meta h id part_ref_id size =
    let (r, ms) = add_loop 0 h.meta id part_ref_id size in (r, record h { meta = ms })

-- The `memmove` and `memset` of `bpak_del_meta` on the byte array; `none` is an access outside it.
unfoldable pub move_data : ℕ → MetaHeader → List ℕ → Option (List ℕ)
move_data offset_adjust m bytes =
    if ltb m.offset offset_adjust
    then none
    else if ltb (length bytes) (m.offset + m.size)
    then none
    else some (
        splice m.offset (replicate m.size 0)
          (splice (m.offset - offset_adjust) (take m.size (drop m.offset bytes)) bytes))

-- What `bpak_del_meta` leaves: the slots from the deleted one on, the bytes, and whether the last
-- `memset` falls behind the table, at `hdr->parts[0]`.
pub record Deleted : Type 0 where
  pub slots : List MetaHeader
  pub bytes : List ℕ
  pub past_end : Bool

cons_slot : MetaHeader → Deleted → Deleted
cons_slot m d = record d { slots = m ∷ d.slots }

-- The body for a `next_meta` in use: its data and its offset move down.
shift_slot : ℕ → MetaHeader → List ℕ → Option (MetaHeader × List ℕ)
unfolding move_data
shift_slot offset_adjust n bytes =
    if n.id == 0
    then some (n, bytes)
    else Option.map (λ bytes'. (record n { offset = n.offset - offset_adjust }, bytes'))
        (move_data offset_adjust n bytes)

-- The loop of `bpak_del_meta` at a slot that holds `m`, the rest of the table behind it.
unfoldable pub del_loop : ℕ → MetaHeader → List MetaHeader → List ℕ → Option Deleted
unfolding cons_slot shift_slot
del_loop offset_adjust m [] bytes = some (record { slots = m ∷ []; bytes = bytes; past_end = true })
del_loop offset_adjust m (n ∷ ms) bytes = elim (shift_slot offset_adjust n bytes) [
  | none ↦ none
  | some (n', bytes') ↦
      let rest = Option.map (cons_slot n') (del_loop offset_adjust n' ms bytes') in
      if n'.id == 0
      then some (record { slots = n' ∷ no_meta ∷ ms; bytes = bytes'; past_end = false })
      else rest
]

-- `bpak_del_meta` from the slot `i` on: `none` where `i` is no slot.
unfoldable pub del_at : ℕ → List MetaHeader → List ℕ → Option Deleted
unfolding del_loop align_size
del_at i [] bytes = none
del_at zero (m ∷ ms) bytes = del_loop (align_size m.size) m ms bytes
del_at (suc i) (m ∷ ms) bytes = Option.map (cons_slot m) (del_at i ms bytes)

-- `memset(next_meta, 0, 16)` one slot behind the table: the id, the size and the low half of the offset
-- of the first part.
unfoldable pub clear_past_end : List PartHeader → List PartHeader
clear_past_end [] = []
clear_past_end (p ∷ ps) = record p { id = 0; size = 0; offset = p.offset / 2 ^ 32 * 2 ^ 32 } ∷ ps

unfoldable pub del_meta : Header → ℕ → Option Header
unfolding del_at clear_past_end
del_meta h i =
    Option.map
      (λ (d : Deleted). record h {
        meta = d.slots;
        metadata = d.bytes;
        parts = if d.past_end then clear_past_end h.parts else h.parts;
      })
      (del_at i h.meta h.metadata)
