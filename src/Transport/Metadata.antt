-- ===== src/Transport/Metadata.antt =====
-- What `bpak_add_transport_meta` stores is what the encoder and the decoder read.
use bpak.Prelude.{
  ℕ, zero, suc, ◌+◌, ◌^◌, ◌≤◌, ◌<◌, ◌≡◌, ◌≢◌, refl, ap, ◌∙◌, bit_and, true, false, some, List, [],
  ◌∷◌, ◌++◌, ◌==◌, length, take, drop, get_or, get_elem?, set, splice, overlay, arith,
}
use bpak.Status.{ok}
use bpak.Header.{MetaHeader, PartHeader, Header, no_meta, metadata_bytes, flag_transport}
use bpak.Header.Bytes.{le_bytes, behind_metadata}
use bpak.Meta.{add_meta, get_meta}
use bpak.Meta.Layout.{IsValid, next_offset}
use bpak.Meta.Added.{entry}
use bpak.Meta.Add.{get_meta-add_meta, Wrote, add_meta-Wrote}
use bpak.Verify.{meta_bytes}
use bpak.Transport.{id_bpak_transport, le_value, alg_id_decode, add_transport_meta}
use bpak.Transport.Decode.{decoder_of}
use bpak.Transport.Encode.{alg_id_encode}

le_value-le_bytes : (x : ℕ) → x < 2 ^ 32 → le_value (le_bytes 4 x) ≡ x
unfolding le_value le_bytes
le_value-le_bytes x small = omega arith

take-overlay :
    (n : ℕ) (xs bs rest : List ℕ)
    → n ≤ length xs
    → length xs ≤ length bs
    → take n (overlay xs bs ++ rest) ≡ take n xs
unfolding overlay
take-overlay zero xs bs rest le room = refl
take-overlay (suc n) [] bs rest le room = absurd (omega arith)
take-overlay (suc n) (x ∷ xs) [] rest le room = absurd (omega arith)
take-overlay (suc n) (x ∷ xs) (b ∷ bs) rest le room =
    ap (λ t. x ∷ t) (take-overlay n xs bs rest (omega arith) (omega arith))

take-splice :
    (n k : ℕ) (xs bs rest : List ℕ)
    → n ≤ length xs
    → k + length xs ≤ length bs
    → take n (drop k (splice k xs bs ++ rest)) ≡ take n xs
unfolding splice
take-splice n zero xs bs rest le room = take-overlay n xs bs rest le (omega arith)
take-splice n (suc k) xs [] rest le room = absurd (omega arith)
take-splice n (suc k) xs (b ∷ bs) rest le room = take-splice n k xs bs rest le (omega arith)

get_or-set :
    (ms : List MetaHeader) (i : ℕ) (m : MetaHeader) {old : MetaHeader}
    → get_elem? ms i ≡ some old
    → get_or (set ms i m) i no_meta ≡ m
get_or-set [] i m e = absurd (cc e)
get_or-set (n ∷ ms) zero m e = refl
get_or-set (n ∷ ms) (suc i) m {old} e = get_or-set ms i m {old = old} e

module _ (h : Header) (valid : IsValid h) (bytes : length h.metadata ≡ metadata_bytes)
    (part_id encoder_id decoder_id : ℕ) (encoder_fits : encoder_id < 2 ^ 32)
    (decoder_fits : decoder_id < 2 ^ 32) (i : ℕ)
    (added : (add_meta h id_bpak_transport part_id 32).0 ≡ ok i) where
  abbrev h1 : Header
  h1 = (add_meta h id_bpak_transport part_id 32).1

  abbrev stored : List ℕ
  stored = le_bytes 4 encoder_id ++ le_bytes 4 decoder_id

  abbrev offset : ℕ
  offset = (get_or h1.meta i no_meta).offset

  abbrev h2 : Header
  h2 = record h1 { metadata = splice offset stored h1.metadata }

  added_header : (add_transport_meta h part_id encoder_id decoder_id) ≡ (ok tt, h2)
  unfolding add_transport_meta
  added_header = rw (added, add_transport_meta) refl

  room : offset + 32 ≤ length h1.metadata
  room =
      let wrote : Wrote valid id_bpak_transport part_id 32 (omega arith) i added =
        add_meta-Wrote valid id_bpak_transport part_id 32 (omega arith) i added in
      let start : offset ≡ next_offset 0 h.meta =
        ap (λ (g : Header). (get_or g.meta i no_meta).offset) wrote.written
        ∙ ap (λ (m : MetaHeader). m.offset)
            (get_or-set h.meta i
              (entry id_bpak_transport part_id 32 wrote.old (next_offset 0 h.meta))
              {old = wrote.old} wrote.slot) in
      let same : h1.metadata ≡ h.metadata = ap (λ (g : Header). g.metadata) wrote.written in
      omega (arith, start, ap length same, bytes, wrote.room)

  stored_bytes : (n : ℕ) → n ≤ 8 → meta_bytes h2 i n ≡ take n stored
  unfolding meta_bytes le_bytes
  stored_bytes n le =
      take-splice n offset stored h1.metadata (behind_metadata h2) le (omega (arith, room))

  found : get_meta h2 id_bpak_transport part_id ≡ ok i
  unfolding get_meta
  found =
      let same : (part_id == part_id) ≡ true = ground arith in
      get_meta-add_meta valid id_bpak_transport part_id 32 (omega arith) i added id_bpak_transport
        part_id (omega arith)
      ∙ rw same refl

  -- On a filled table with unique keys and a metadata array of its C length: where `bpak_add_meta` of a
  -- transport entry succeeds in slot `i`, `bpak_add_transport_meta` succeeds, the entry is found there, the
  -- encoder reads the encoder's identifier from it, and the decoder of the part, if it is coded for transport,
  -- is the one that was given. Both identifiers are 32 bit numbers.
  pub decoder_of-add_transport_meta :
      (p : PartHeader)
      → p.id ≡ part_id
      → bit_and p.flags flag_transport ≢ 0
      → ((add_transport_meta h part_id encoder_id decoder_id).0 ≡ ok tt)
        × (get_meta (add_transport_meta h part_id encoder_id decoder_id).1 id_bpak_transport part_id
            ≡ ok i)
        × (alg_id_encode (add_transport_meta h part_id encoder_id decoder_id).1 i ≡ encoder_id)
        × (decoder_of (add_transport_meta h part_id encoder_id decoder_id).1 p ≡ decoder_id)
  unfolding decoder_of alg_id_decode alg_id_encode le_bytes
  decoder_of-add_transport_meta p same coded =
      let test : (bit_and p.flags flag_transport == 0) ≡ false = ground arith in
      let at_part : get_meta h2 id_bpak_transport p.id ≡ ok i =
        ap (get_meta h2 id_bpak_transport) same ∙ found in
      let decoder : decoder_of h2 p ≡ decoder_id = rw test (
        rw (at_part, decoder_of)
          (ap (λ t. le_value (drop 4 t)) (stored_bytes 8 (omega arith))
            ∙ le_value-le_bytes decoder_id decoder_fits)) in
      (
        ap (λ r. r.0) added_header,
        ap (λ r. get_meta r.1 id_bpak_transport part_id) added_header ∙ found,
        ap (λ r. alg_id_encode r.1 i) added_header
            ∙ ap le_value (stored_bytes 4 (omega arith))
            ∙ le_value-le_bytes encoder_id encoder_fits,
        ap (λ r. decoder_of r.1 p) added_header ∙ decoder,
      )
