-- ===== src/Meta/Add.antt =====
-- `bpak_add_meta` on a filled table: which result it has, and what the table holds afterwards.
use native.Mathlib.Omega.{arith}
use bpak.Prelude.{
  ℕ, ◌+◌, ◌≤◌, ◌≡◌, refl, ◌≢◌, ◌&&◌, List, [], ◌∷◌, ap, ◌%◌, ◌^◌, ◌==◌, if◌then◌else◌, some,
  get_elem?, set,
}
use bpak.Status.{Result, ok, err, exists}
use bpak.Header.{MetaHeader, Header, metadata_bytes}
use bpak.Meta.{add_meta, get_meta, add_loop, succ_index, align_size}
use bpak.Meta.Layout.{next_offset, IsValid}
use bpak.Meta.Added.{
  outcome, add_loop-outcome, entry, add_loop-Added, Added-Packed, Added-Unique, Added-get,
  Added-entry,
}

module _ {h : Header} (valid : IsValid h) (id ref size : ℕ) (nonzero : id ≢ 0) where
  -- On a filled table with unique keys, `bpak_add_meta` with a nonzero id returns what the table's keys and
  -- sizes say (`outcome`): the first free slot if the key is new and the data fits behind the last entry,
  -- `exists` if an entry has the key, and otherwise that there is no space.
  pub add_meta-outcome : (add_meta h id ref size).0 ≡ outcome 0 h.meta id ref size
  unfolding add_meta
  add_meta-outcome = add_loop-outcome 0 h.meta id ref size (omega arith) nonzero valid.packed

  module _ (i : ℕ) (added : (add_meta h id ref size).0 ≡ ok i) where
    -- A successful `bpak_add_meta` with a nonzero id keeps a table filled with unique keys.
    pub add_meta-IsValid : IsValid (add_meta h id ref size).1
    unfolding add_meta
    add_meta-IsValid =
        let a = add_loop-Added id ref size 0 h.meta i added in
        record {
          packed = Added-Packed id ref size nonzero a valid.packed;
          unique = Added-Unique id ref size nonzero a valid.packed valid.unique;
        }

    -- On a filled table with unique keys, after a successful `bpak_add_meta` with a nonzero id the new key
    -- is found in the slot it returned, and every other key with a nonzero id where it was before.
    pub get_meta-add_meta :
        (id' ref' : ℕ)
        → id' ≢ 0
        → get_meta (add_meta h id ref size).1 id' ref'
          ≡ (if id == id' && ref == ref' then ok i else get_meta h id' ref')
    unfolding add_meta get_meta
    get_meta-add_meta id' ref' n =
        ground
          (arith, Added-get id ref size (add_loop-Added id ref size 0 h.meta i added) id' ref' n)

    -- What the call wrote: one free slot, whose data starts at the first free aligned offset and fits.
    pub record Wrote : Type 0 where
      pub old : MetaHeader
      pub slot : get_elem? h.meta i ≡ some old
      pub free : old.id ≡ 0
      pub written :
          (add_meta h id ref size).1
          ≡ record h { meta = set h.meta i (entry id ref size old (next_offset 0 h.meta)) }
      pub room : next_offset 0 h.meta + size ≤ metadata_bytes

    -- On a filled table with unique keys, a successful `bpak_add_meta` with a nonzero id writes one slot,
    -- which was free, and nothing else; the entry's data starts at the first aligned offset behind the
    -- last entry and ends inside the metadata array.
    pub add_meta-Wrote : Wrote
    unfolding add_meta
    add_meta-Wrote =
        let a = add_loop-Added id ref size 0 h.meta i added in
        let (old, slot, free, written, room) = Added-entry id ref size a valid.packed in
        record {
          old = old;
          slot = slot;
          free = free;
          written = ap (λ ms. record h { meta = ms }) written;
          room = room;
        }

succ_index-exists : (r : Result ℕ) → succ_index r ≡ err exists → r ≡ err exists
unfolding succ_index
succ_index-exists (ok i) h = cc
succ_index-exists (err e) h = h

add_loop-exists :
    (off : ℕ) (ms : List MetaHeader) (id ref size : ℕ)
    → (add_loop off ms id ref size).0 ≡ err exists
    → (add_loop off ms id ref size).1 ≡ ms
unfolding add_loop
add_loop-exists off [] id ref size h = refl
add_loop-exists off (m ∷ ms) id ref size h = ground (
  arith,
  succ_index-exists (add_loop (align_size ((off + m.size) % 2 ^ 16)) ms id ref size).0,
  add_loop-exists (align_size ((off + m.size) % 2 ^ 16)) ms id ref size,
)

-- When `bpak_add_meta` reports that the entry exists, the header is unchanged.
pub add_meta-exists :
    (h : Header) (id ref size : ℕ)
    → (add_meta h id ref size).0 ≡ err exists
    → (add_meta h id ref size).1 ≡ h
unfolding add_meta
add_meta-exists h id ref size e =
    ap (λ ms. record h { meta = ms }) (add_loop-exists 0 h.meta id ref size e)
