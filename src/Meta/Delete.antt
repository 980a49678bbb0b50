-- ===== src/Meta/Delete.antt =====
-- `bpak_del_meta` at an entry of a filled table: the slots, lookups and the data, with and without
-- a free slot.
use native.Mathlib.Omega.{arith}
use bpak.Prelude.{
  ℕ, ◌+◌, ◌-◌, ◌<◌, ◌≡◌, ◌≢◌, ◌&&◌, ◌==◌, if◌then◌else◌, some, length, get_elem?, get_or, ltb, leb,
  ap, ◌∙◌, sym, some_eq,
}
use bpak.Status.{Result, ok, err, not_found}
use bpak.Header.{MetaHeader, Header, IsSized, max_meta}
use bpak.Meta.{del_meta, get_meta, clear_past_end}
use bpak.Meta.Layout.{round8, count_used, IsValid}
use bpak.Meta.Removed.{remove_slots, remove_bytes, del_at-remove, remove_slots-full}
use bpak.Meta.Removed.Slots.{remove_slots-IsValid, remove_slots-get, drop_index}
use bpak.Meta.Removed.Bytes.{remove_bytes-length, remove_bytes-entry, remove_bytes-below}

-- The result of a lookup after slot `i` is gone.
abbrev pub reindex : ℕ → Result ℕ → Result ℕ
reindex i (ok j) = ok (drop_index i j)
reindex i (err e) = err e

module _ {h : Header} (valid : IsValid h) (sized : IsSized h) (i : ℕ) {m : MetaHeader}
    (at : get_elem? h.meta i ≡ some m) (live : m.id ≢ 0) where
  del_meta-remove :
      del_meta h i
      ≡ some (record h {
        meta = remove_slots i h.meta;
        metadata = remove_bytes i h.meta h.metadata;
        parts = if leb (length h.meta) (count_used h.meta) then clear_past_end h.parts else h.parts;
      })
  unfolding del_meta
  del_meta-remove =
      rw (del_at-remove 0 i h.meta h.metadata {m = m} valid.packed sized.data_bytes at live)

  -- On a filled table with unique keys, in a header whose arrays have their C lengths, deleting a used
  -- entry moves and clears data inside the metadata array only.
  pub del_meta-some : (h' : Header) × (del_meta h i ≡ some h')
  del_meta-some = (_, del_meta-remove)

  -- On a filled table with unique keys and a free slot, deleting a used entry succeeds; the table that is
  -- left is again filled with unique keys, the arrays keep their lengths, and the part table is unchanged.
  pub del_meta-IsValid :
      count_used h.meta < max_meta
      → (h' : Header) × (del_meta h i ≡ some h') × IsValid h' × IsSized h' × (h'.parts ≡ h.parts)
  del_meta-IsValid room =
      let room' : count_used h.meta < length h.meta = omega (arith, sized.meta_slots) in
      let (packed, unique, len) =
        remove_slots-IsValid 0 i h.meta {m = m} valid.packed valid.unique room' at live in
      let same : (if leb (length h.meta) (count_used h.meta)
            then clear_past_end h.parts
            else h.parts)
          ≡ h.parts =
        ground arith in
      (
        _,
        del_meta-remove,
        record { packed = packed; unique = unique },
        record {
          meta_slots = len ∙ sized.meta_slots;
          part_slots = ap length same ∙ sized.part_slots;
          data_bytes = remove_bytes-length i h.meta h.metadata ∙ sized.data_bytes;
          signature_room = sized.signature_room;
        },
        same,
      )

  module _ {h' : Header} (done : del_meta h i ≡ some h') where
    slots_after : h'.meta ≡ remove_slots i h.meta
    slots_after = ap (λ (t : Header). t.meta) (some_eq (sym done ∙ del_meta-remove))

    bytes_after : h'.metadata ≡ remove_bytes i h.meta h.metadata
    bytes_after = ap (λ (t : Header). t.metadata) (some_eq (sym done ∙ del_meta-remove))

    -- On a filled table with unique keys and a free slot, after deleting the used entry `m` of slot `i`
    -- its key is not found; every other key is found where it was, one slot earlier if that slot came
    -- after `i`, or not found if it was not.
    pub get_meta-del_meta :
        count_used h.meta < max_meta
        → (id ref : ℕ) → id ≢ 0
        → get_meta h' id ref ≡ (
            if m.id == id && m.part_id_ref == ref
            then err not_found
            else reindex i (get_meta h id ref))
    unfolding get_meta
    get_meta-del_meta room id ref n = ground (
      arith,
      slots_after,
      remove_slots-get 0 i h.meta id ref {m = m} valid.packed valid.unique
          (omega (arith, sized.meta_slots)) at live n,
    )

    -- On a filled table with unique keys, deleting the used entry `m` of slot `i` moves the data of each
    -- later used entry `n` forward by `m`'s aligned size, but keeps only as many of its bytes as that
    -- size: byte `k` reads as before if `k` is below it, and as 0 otherwise.
    pub del_meta-data :
        (j k : ℕ) {n : MetaHeader}
        → i < j
        → get_elem? h.meta j ≡ some n
        → n.id ≢ 0
        → k < n.size
        → get_or h'.metadata (n.offset - round8 m.size + k) 0
          ≡ (if ltb k (round8 m.size) then get_or h.metadata (n.offset + k) 0 else 0)
    del_meta-data j k lt e live' less = rw bytes_after (
        remove_bytes-entry 0 i j k h.meta h.metadata valid.packed sized.data_bytes at live lt e
          live' less)

    -- On a filled table with unique keys, deleting a used entry keeps every byte in front of its data.
    pub del_meta-before : (k : ℕ) → k < m.offset → get_or h'.metadata k 0 ≡ get_or h.metadata k 0
    del_meta-before k lt =
        rw bytes_after (remove_bytes-below 0 i k h.meta h.metadata valid.packed at live lt)

    -- On a filled table with unique keys and no free slot, deleting a used entry clears the memory behind
    -- the table, which is the first entry of the part table, and frees no slot.
    pub del_meta-full :
        count_used h.meta ≡ max_meta
        → (h'.parts ≡ clear_past_end h.parts) × (count_used h'.meta ≡ max_meta)
    del_meta-full full =
        let parts = ap (λ (t : Header). t.parts) (some_eq (sym done ∙ del_meta-remove)) in
        let full' : count_used h.meta ≡ length h.meta = full ∙ sym sized.meta_slots in
        (
          parts ∙ ground arith,
          rw slots_after (remove_slots-full i h.meta {m = m} full' at live ∙ sized.meta_slots),
        )
