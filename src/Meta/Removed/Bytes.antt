-- ===== src/Meta/Removed/Bytes.antt =====
-- The bytes after `bpak_del_meta`: in front of the deleted entry, and of each entry behind it.

use native.Mathlib.Omega.{arith}
use bpak.Prelude.{
  ℕ, zero, suc, ◌+◌, ◌-◌, ◌*◌, ◌/◌, ◌<◌, ◌≡◌, refl, ◌≢◌, inl, inr, List, [], ◌∷◌, ltb,
  if◌then◌else◌, some, length, get_elem?, get_or, subst,
}
use bpak.Header.{MetaHeader, metadata_bytes}
use bpak.Meta.Layout.{round8, AllFree-get, Packed}
use bpak.Meta.Slide.{moved, length-moved, slide_bytes, slide_bytes-below, slide_bytes-entry}
use bpak.Meta.Removed.{remove_bytes}

slide_bytes-length :
    (adj : ℕ) (ms : List MetaHeader) (bytes : List ℕ)
    → length (slide_bytes adj ms bytes) ≡ length bytes
unfolding slide_bytes
slide_bytes-length adj [] bytes = refl
slide_bytes-length adj (k ∷ ms) bytes =
    ground (arith, slide_bytes-length adj ms (moved adj k bytes), length-moved adj k bytes)

pub remove_bytes-length :
    (i : ℕ) (ms : List MetaHeader) (bytes : List ℕ)
    → length (remove_bytes i ms bytes) ≡ length bytes
unfolding remove_bytes
remove_bytes-length i [] bytes = refl
remove_bytes-length zero (k ∷ ms) bytes = slide_bytes-length (round8 k.size) ms bytes
remove_bytes-length (suc i) (k ∷ ms) bytes = remove_bytes-length i ms bytes

pub remove_bytes-below :
    (c i k : ℕ) (ms : List MetaHeader) (bytes : List ℕ) {m : MetaHeader}
    → Packed (8 * c) ms
    → get_elem? ms i ≡ some m
    → m.id ≢ 0
    → k < m.offset
    → get_or (remove_bytes i ms bytes) k 0 ≡ get_or bytes k 0
unfolding remove_bytes
remove_bytes-below c i k [] bytes p e live lt = cc
remove_bytes-below c i k (n ∷ ms) bytes (inl (free, f)) e live lt =
    absurd (live (AllFree-get (n ∷ ms) i (free, f) e))
remove_bytes-below c zero k (n ∷ ms) bytes {m} (inr (l, at, fits, p)) e live lt =
    let back : round8 (8 * c + n.size) ≡ 8 * c + round8 n.size = omega arith in
    let offset : n.offset ≡ m.offset = ground arith in
    slide_bytes-below (round8 n.size) (8 * c) ms bytes k (subst (λ t. Packed t ms) back p)
      (omega arith)
remove_bytes-below c (suc i) k (n ∷ ms) bytes {m} (inr (l, at, fits, p)) e live lt =
    let next : ℕ = (8 * c + n.size + 7) / 8 in
    let back : round8 (8 * c + n.size) ≡ 8 * next = omega arith in
    remove_bytes-below next i k ms bytes {m = m} (subst (λ t. Packed t ms) back p) e live lt

pub remove_bytes-entry :
    (c i j k : ℕ) (ms : List MetaHeader) (bytes : List ℕ) {m n : MetaHeader}
    → Packed (8 * c) ms
    → length bytes ≡ metadata_bytes
    → get_elem? ms i ≡ some m
    → m.id ≢ 0
    → i < j
    → get_elem? ms j ≡ some n
    → n.id ≢ 0
    → k < n.size
    → get_or (remove_bytes i ms bytes) (n.offset - round8 m.size + k) 0
      ≡ (if ltb k (round8 m.size) then get_or bytes (n.offset + k) 0 else 0)
unfolding remove_bytes
remove_bytes-entry c i j k [] bytes p len e live lt e' live' less = cc
remove_bytes-entry c i j k (a ∷ ms) bytes (inl (free, f)) len e live lt e' live' less =
    absurd (live (AllFree-get (a ∷ ms) i (free, f) e))
remove_bytes-entry c i zero k (a ∷ ms) bytes (inr q) len e live lt e' live' less =
    absurd (omega arith)
remove_bytes-entry c zero (suc j) k (a ∷ ms) bytes {m} {n} (inr (l, at, fits, p)) len e live lt e'
      live' less =
    let back : round8 (8 * c + a.size) ≡ 8 * c + round8 a.size = omega arith in
    let size : m.size ≡ a.size = ground arith in
    rw size (
      slide_bytes-entry (round8 a.size) (8 * c) ms bytes j k {n = n}
        (subst (λ t. Packed t ms) back p) len e' live' less)
remove_bytes-entry c (suc i) (suc j) k (a ∷ ms) bytes {m} {n} (inr (l, at, fits, p)) len e live lt
      e' live' less =
    let next : ℕ = (8 * c + a.size + 7) / 8 in
    let back : round8 (8 * c + a.size) ≡ 8 * next = omega arith in
    remove_bytes-entry next i j k ms bytes {m = m} {n = n} (subst (λ t. Packed t ms) back p) len e
      live (omega arith) e' live' less
