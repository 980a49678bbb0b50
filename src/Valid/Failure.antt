-- ===== src/Valid/Failure.antt =====
-- `bpak_add_meta` against `bpak_valid_header`: entries that fit the byte array, and entries that
-- do not.
use native.Mathlib.Omega.{arith}
use bpak.Prelude.{
  ℕ, ◌+◌, ◌<◌, ◌≡◌, refl, ◌≢◌, inl, inr, List, [], ◌∷◌, length, none, sym, subst, true,
}
use bpak.Status.{ok, err, no_space_left, size_error, not_found}
use bpak.Header.{MetaHeader, Header, IsSized, metadata_bytes, max_meta}
use bpak.Meta.{add_loop, add_meta, get_meta_int, get_meta}
use bpak.Meta.Layout.{round8, AllFree, Packed, count_used, next_offset, IsValid, align_size_lem}
use bpak.Meta.Added.{Added, here, there, add_loop-Added}
use bpak.Valid.{check_parts, check_meta, valid_header}

-- The entry stays where it is, out of bounds.
overflow-check :
    (off : ℕ) (ms : List MetaHeader) (id ref size : ℕ)
    → id ≢ 0
    → Packed off ms
    → get_meta_int ms id ref true ≡ none
    → count_used ms < length ms
    → metadata_bytes < next_offset off ms + size
    → ((add_loop off ms id ref size).0 ≡ err no_space_left)
      × (check_meta (add_loop off ms id ref size).1 ≡ err size_error)
unfolding add_loop check_meta get_meta_int count_used next_offset
overflow-check off [] id ref size n p g u o = absurd (omega arith)
overflow-check off (m ∷ ms) id ref size n (inl (z, f)) g u o = (ground arith, ground arith)
overflow-check off (m ∷ ms) id ref size n (inr (l, at, fits, p)) g u o =
    let ih =
      overflow-check (round8 (off + m.size)) ms id ref size n p (ground arith) (ground arith)
        (ground arith) in
    let e = align_size_lem (off + m.size) fits in (ground (arith, ih, e), ground (arith, ih, e))

-- On a header that `bpak_valid_header` accepts, with a filled metadata table with unique keys and a free
-- slot, `bpak_add_meta` of a new key with a nonzero id whose data does not fit behind the last entry
-- reports that there is no space, and leaves a header that `bpak_valid_header` rejects with `size_error`.
pub add_meta-overflow :
    (h : Header) (id ref size : ℕ)
    → IsValid h
    → IsSized h
    → valid_header h ≡ ok tt
    → id ≢ 0
    → get_meta h id ref ≡ err not_found
    → count_used h.meta < max_meta
    → metadata_bytes < next_offset 0 h.meta + size
    → ((add_meta h id ref size).0 ≡ err no_space_left)
      × (valid_header (add_meta h id ref size).1 ≡ err size_error)
unfolding add_meta valid_header get_meta
add_meta-overflow h id ref size v s ok_before n missing room over =
    let o =
      overflow-check 0 h.meta id ref size n v.packed (ground arith) (omega (arith, s.meta_slots))
        over in
    (ground (arith, o), ground (arith, o))

check_meta-AllFree : (ms : List MetaHeader) → AllFree ms → check_meta ms ≡ ok tt
unfolding check_meta
check_meta-AllFree [] f = refl
check_meta-AllFree (m ∷ ms) (z, f) = ground arith

check_meta-Added :
    (id ref size : ℕ) {off : ℕ} {ms : List MetaHeader} {i : ℕ} {ms' : List MetaHeader}
    → id ≢ 0
    → Added id ref size off ms i ms'
    → Packed off ms
    → check_meta ms ≡ ok tt
    → check_meta ms' ≡ ok tt
unfolding check_meta
check_meta-Added id ref size n (here {ms = ms} e fits) (inl (z, f)) c =
    ground (arith, check_meta-AllFree ms f)
check_meta-Added id ref size n (here e fits) (inr (l, at, fits', p)) c = absurd (l e)
check_meta-Added id ref size n (there live other r) (inl (z, f)) c = absurd (live z)
check_meta-Added id ref size n (there {off = off} {m = m} {ms = ms} live other r)
      (inr (l, at, fits, p)) c =
    let e = align_size_lem (off + m.size) fits in
    let ih = check_meta-Added id ref size n r (subst (λ k. Packed k ms) (sym e) p) (ground arith) in
    ground (arith, ih)

-- On a header that `bpak_valid_header` accepts, with a filled metadata table with unique keys, a successful
-- `bpak_add_meta` with a nonzero id gives a header that it accepts.
pub add_meta-valid_header :
    (h : Header) (id ref size i : ℕ)
    → IsValid h
    → valid_header h ≡ ok tt
    → id ≢ 0
    → (add_meta h id ref size).0 ≡ ok i
    → valid_header (add_meta h id ref size).1 ≡ ok tt
unfolding add_meta valid_header
add_meta-valid_header h id ref size i v before n e =
    let a = add_loop-Added id ref size 0 h.meta i e in
    let parts : check_parts h.parts ≡ ok tt = ground arith in
    ground (arith, check_meta-Added id ref size n a v.packed (ground arith))
