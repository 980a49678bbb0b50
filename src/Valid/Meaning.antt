-- ===== src/Valid/Meaning.antt =====
-- What a header that `bpak_valid_header` accepts looks like.
use native.Mathlib.Omega.{arith}
use native.Mathlib.Decide.{ℕ_discrete}
use bpak.Prelude.{
  suc, ◌+◌, ◌%◌, ◌^◌, ◌≤◌, ◌≡◌, refl, ◌≢◌, ◌↔◌, List, [], ◌∷◌, All, take, subst, sym,
}
use bpak.Status.{ok}
use bpak.Header.{MetaHeader, PartHeader, Header, header_magic, metadata_bytes, part_align}
use bpak.Valid.{check_parts, check_meta, valid_header}
use bpak.Meta.Layout
use bpak.Part.Table

abbrev pub IsAligned : PartHeader → Type 0
IsAligned p = (p.size + p.pad_bytes) % 2 ^ 64 % part_align ≡ 0

abbrev pub IsInBounds : MetaHeader → Type 0
IsInBounds m = m.size + m.offset ≤ metadata_bytes

-- Conditions on the entries in front of the first free slot of each table.
pub record IsWellFormed (h : Header) : Type 0 where
  pub magic : h.magic ≡ header_magic
  pub aligned : All IsAligned (take (Table.count_used h.parts) h.parts)
  pub in_bounds : All IsInBounds (take (Layout.count_used h.meta) h.meta)
  pub hash_kind : h.hash_kind ≢ 0

check_parts_iff :
    (ps : List PartHeader)
    → (check_parts ps ≡ ok tt) ↔ All IsAligned (take (Table.count_used ps) ps)
unfolding check_parts Table.count_used
check_parts_iff [] = (λ e. tt, λ a. refl)
check_parts_iff (p ∷ ps) = elim (ℕ_discrete p.id 0) [
  | yes free ↦
      let none_used : Table.count_used (p ∷ ps) ≡ 0 = ground arith in
      (λ c. subst (λ n. All IsAligned (take n (p ∷ ps))) (sym none_used) tt, λ a. ground arith)
  | no live ↦
      let one_more : Table.count_used (p ∷ ps) ≡ suc (Table.count_used ps) = ground arith in
      let ih = check_parts_iff ps in
      (
        λ c.
            let first : IsAligned p = ground arith in
            let rest : check_parts ps ≡ ok tt = ground arith in
            subst (λ n. All IsAligned (take n (p ∷ ps))) (sym one_more) (first, ih.0 rest),
        λ a.
            let parts = subst (λ n. All IsAligned (take n (p ∷ ps))) one_more a in
            let first : IsAligned p = parts.0 in
            let rest = ih.1 parts.1 in ground (arith, first, rest),
      )
]

check_meta_iff :
    (ms : List MetaHeader)
    → (check_meta ms ≡ ok tt) ↔ All IsInBounds (take (Layout.count_used ms) ms)
unfolding check_meta Layout.count_used
check_meta_iff [] = (λ e. tt, λ a. refl)
check_meta_iff (m ∷ ms) = elim (ℕ_discrete m.id 0) [
  | yes free ↦
      let none_used : Layout.count_used (m ∷ ms) ≡ 0 = ground arith in
      (λ c. subst (λ n. All IsInBounds (take n (m ∷ ms))) (sym none_used) tt, λ a. ground arith)
  | no live ↦
      let one_more : Layout.count_used (m ∷ ms) ≡ suc (Layout.count_used ms) = ground arith in
      let ih = check_meta_iff ms in
      (
        λ c.
            let first : IsInBounds m = ground arith in
            let rest : check_meta ms ≡ ok tt = ground arith in
            subst (λ n. All IsInBounds (take n (m ∷ ms))) (sym one_more) (first, ih.0 rest),
        λ a.
            let parts = subst (λ n. All IsInBounds (take n (m ∷ ms))) one_more a in
            let first : IsInBounds m = parts.0 in
            let rest = ih.1 parts.1 in ground (arith, first, rest),
      )
]

-- `bpak_valid_header` accepts a header exactly if its magic is right, every part in front of the first
-- free part slot has a size that with its padding is a multiple of the part alignment, every metadata
-- entry in front of the first free metadata slot ends inside the metadata array, and a hash is chosen.
pub valid_header_iff : (h : Header) → (valid_header h ≡ ok tt) ↔ IsWellFormed h
unfolding valid_header
valid_header_iff h = (there, back)
  where
    there : valid_header h ≡ ok tt → IsWellFormed h
    there e = record {
      magic = ground arith;
      aligned = (check_parts_iff h.parts).0 (ground arith);
      in_bounds = (check_meta_iff h.meta).0 (ground arith);
      hash_kind = λ z. ground arith;
    }

    back : IsWellFormed h → valid_header h ≡ ok tt
    back w =
        let parts = (check_parts_iff h.parts).1 w.aligned in
        let meta = (check_meta_iff h.meta).1 w.in_bounds in
        ground (arith, parts, meta, w.magic, w.hash_kind)
