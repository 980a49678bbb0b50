-- ===== src/Package/Extract.antt =====
-- lib/pkg.c, `bpak_pkg_extract_file`: the data of a part, into a file or to the standard output.
use bpak.Prelude.{
  ℕ, ◌+◌, ◌-◌, ◌%◌, ◌^◌, ◌≤◌, ◌<◌, ◌≡◌, refl, ap, ap₂, ◌∙◌, bit_and, true, false, Option, none,
  some, List, [], ◌∷◌, ◌++◌, ◌==◌, length, get_or, take, drop, append-nil, drop-nil, arith,
}
use bpak.Run.{Rc, Run, done, raise}
use bpak.Status.{ok, err, seek_error, write_error}
use bpak.Header.{PartHeader, Header, no_part, part_size, flag_transport}
use bpak.Part.{get_part, part_offset}
use bpak.Payload.{chunk_buffer_length}
use bpak.Package.{Stdio}
use bpak.Package.Stream.{IsStream, copy_loop, copy_loop-Copied, place_at, place}

-- `stat` for the size of a file, `fopen` with a name and a mode, and the standard output.
pub record Host (W : Type 0) : Type 0 where
  pub stat : List ℕ → W → Option ℕ
  pub fopen : List ℕ → List ℕ → W → Option (Stdio W) × W
  pub stdout : Stdio W

-- The mode "w+b".
abbrev pub create : List ℕ
create = 119 ∷ 43 ∷ 98 ∷ []

-- `bpak_part_size(part) - part->pad_bytes`
unfoldable pub extract_size : PartHeader → ℕ
extract_size p = (part_size p + 2 ^ 64 - p.pad_bytes) % 2 ^ 64

module _ {W : Type 0} (fp : Stdio W) (host : Host W) where
  -- The output, and the loop. Streams are closed in the end, which is left out.
  unfoldable pub extract_to : Option (List ℕ) → ℕ → Run W (Unit {0})
  unfolding raise
  extract_to none n w = copy_loop fp host.stdout chunk_buffer_length n n w
  extract_to (some name) n w =
      let (out, w1) = host.fopen name create w in
      elim out as (λ _. Option (Rc (Unit {0}) × W)) [
        | none ↦ raise write_error w1
        | some dest ↦ copy_loop fp dest chunk_buffer_length n n w1
      ]

  unfoldable pub extract_file : Header → ℕ → Option (List ℕ) → Run W (Unit {0})
  unfolding extract_to extract_size raise
  extract_file h part_id filename w =
      elim (get_part h part_id) as (λ _. Option (Rc (Unit {0}) × W)) [
        | err e ↦ raise e w
        | ok i ↦
            let p = get_or h.parts i no_part in
            let (found, w1) = fp.fseek (part_offset h p) w in
            elim found as (λ _. Option (Rc (Unit {0}) × W)) [
              | false ↦ raise seek_error w1
              | true ↦ extract_to filename (extract_size p) w1
            ]
      ]

extract_size_plain :
    (p : PartHeader)
    → bit_and p.flags flag_transport ≡ 0
    → p.size + p.pad_bytes < 2 ^ 64
    → extract_size p ≡ p.size
unfolding extract_size part_size
extract_size_plain p plain fits =
    let test : (bit_and p.flags flag_transport == 0) ≡ true = ground arith in rw test (omega arith)

pub place_at-nil : (xs : List ℕ) → place_at 0 xs [] ≡ xs
unfolding place_at place
place_at-nil [] = refl
place_at-nil (x ∷ xs) =
    ap (λ t. x ∷ t) (ap (λ t. xs ++ t) (drop-nil (length (x ∷ xs))) ∙ append-nil xs)

module _ {W : Type 0} (fp : Stdio W) (host : Host W) (dest : Stdio W) (name : List ℕ)
    (from to : W → List ℕ) (from_at to_at : W → ℕ)
    (reader : IsStream {O = List ℕ × ℕ} fp from from_at (λ w. (to w, to_at w)))
    (writer : IsStream {O = List ℕ × ℕ} dest to to_at (λ w. (from w, from_at w)))
    (creates : (w : W)
      → ((host.fopen name create w).0 ≡ some dest)
        × (from (host.fopen name create w).1 ≡ from w)
        × (from_at (host.fopen name create w).1 ≡ from_at w)
        × (to (host.fopen name create w).1 ≡ [])
        × (to_at (host.fopen name create w).1 ≡ 0)) where
  -- If the package's file reaches to the end of the part's data, extracting a part that is not encoded for
  -- transport into a new file succeeds, leaves the package as it is, and the new file holds the part's data,
  -- `size` bytes from the part's offset on, without the padding.
  pub extract_file-bytes :
      (h : Header) (part_id i : ℕ) (w : W)
      → get_part h part_id ≡ ok i
      → bit_and (get_or h.parts i no_part).flags flag_transport ≡ 0
      → (get_or h.parts i no_part).size + (get_or h.parts i no_part).pad_bytes < 2 ^ 64
      → part_offset h (get_or h.parts i no_part) + (get_or h.parts i no_part).size ≤ length (from w)
      → (w' : W) × (extract_file fp host h part_id (some name) w ≡ some (done tt, w'))
        × (to w'
            ≡ take
                (get_or h.parts i no_part).size
                (drop (part_offset h (get_or h.parts i no_part)) (from w)))
        × (from w' ≡ from w)
  unfolding extract_file extract_to
  extract_file-bytes h part_id i w found plain fits inside =
      let p = get_or h.parts i no_part in
      let w1 = (fp.fseek (part_offset h p) w).1 in
      let (ok1, file1, at1, other1) = reader.seek (part_offset h p) w in
      let (ok2, file2, at2, empty, start) = creates w1 in
      let w2 = (host.fopen name create w1).1 in
      let from2 : from w2 ≡ from w = file2 ∙ file1 in
      let pos2 : from_at w2 ≡ part_offset h p = at2 ∙ at1 in
      let (w', run, kept, copied, _, _) =
        copy_loop-Copied fp dest from to from_at to_at reader writer chunk_buffer_length p.size
          p.size w2 (omega arith) (omega arith) (omega (arith, pos2, ap length from2, inside)) in
      (
        w',
        rw (found, extract_file)
            (rw ok1 (rw (ok2, extract_to) (rw (extract_size_plain p plain fits) run))),
        copied
            ∙ ap₂ (λ k t. place_at k (take p.size (drop (from_at w2) (from w2))) t) start empty
            ∙ place_at-nil (take p.size (drop (from_at w2) (from w2)))
            ∙ ap₂ (λ k t. take p.size (drop k t)) pos2 from2,
        kept ∙ from2,
      )
