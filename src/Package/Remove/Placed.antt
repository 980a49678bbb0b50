-- ===== src/Package/Remove/Placed.antt =====
-- lib/pkg.c, `bpak_pkg_delete_part`: the parts that remain, in the table and in the file.
use bpak.Prelude.{
  ℕ, suc, ◌+◌, ◌-◌, ◌%◌, ◌^◌, ◌≤◌, ◌<◌, ◌≡◌, refl, sym, ap, ap₂, ◌∙◌, inl, inr, Bool-cases, true,
  false, subst₂, List, ltb, if◌then◌else◌, length, take, drop, get_or, drop-add, length-drop, arith,
  some,
}
use bpak.Run.{done}
use bpak.Status.{ok}
use bpak.Header.{PartHeader, Header, header_size, no_part, part_size}
use bpak.Header.Bytes.{header_bytes}
use bpak.Part.{get_part, del_part, part_offset}
use bpak.Part.Table.{IsFilled, count_used}
use bpak.Part.Extent.{sum_sizes}
use bpak.Payload.{Hash}
use bpak.Package.{Stdio}
use bpak.Package.Stream.{IsStream, place_at, take-place_at, place_at_front, place_at_behind}
use bpak.Package.Remove.{FileOps, shift_parts, new_size_loop, delete_part}
use bpak.Package.Remove.Moved.{resized, delete_part_done}
use bpak.Package.Remove.Table.{
  moved_part-size, removed, moved_bytes, removed-count, removed-below, removed-above,
  sum-removed_below, sum-removed_above, moved_bytes-sum, offset_loop-used, new_size_loop-sum,
  sum_sizes-next,
}
use bpak.Transport.Identity.{sum_sizes_mono}
use bpak.Package.Remove.Bytes.{length-resized, take-resized, place_at-long, place_at-inside}

-- The slot in which the part of slot `j` stood before slot `i` was removed.
abbrev pub slot_before : ℕ → ℕ → ℕ
slot_before i j = if ltb j i then j else suc j

-- In the table every used slot has the offset at which its part stands: the parts follow each other behind the
-- header.
abbrev pub IsPlaced : List PartHeader → Type 0
IsPlaced ps =
    (j : ℕ) → j < count_used ps → (get_or ps j no_part).offset ≡ header_size + sum_sizes j ps

-- The part of slot `i` is gone from the table `ps` and the file `old`, and the rest is as it was, without a gap:
-- the table is `ps'` and the file `new`, with `front` as its header.
pub record IsWithout (ps ps' : List PartHeader) (front : List ℕ) (i : ℕ) (old new : List ℕ)
    : Type 0 where
  pub count : suc (count_used ps') ≡ count_used ps
  pub slots :
      (j : ℕ)
      → j < count_used ps'
      → get_or ps' j no_part
        ≡ record (get_or ps (slot_before i j) no_part) { offset = header_size + sum_sizes j ps' }
  pub contents :
      (j : ℕ)
      → j < count_used ps'
      → take (part_size (get_or ps' j no_part)) (drop (header_size + sum_sizes j ps') new)
        ≡ take
            (part_size (get_or ps' j no_part))
            (drop (header_size + sum_sizes (slot_before i j) ps) old)
  pub header : take header_size new ≡ front
  pub size : length new ≡ header_size + sum_sizes (count_used ps') ps'

module _ (ps : List PartHeader) (i : ℕ) (used : i < count_used ps) (placed : IsPlaced ps)
    (fits : header_size + sum_sizes (count_used ps) ps < 2 ^ 64) (front old : List ℕ)
    (full : length front ≡ header_size)
    (whole : length old ≡ header_size + sum_sizes (count_used ps) ps) where
  abbrev s : ℕ
  s = part_size (get_or ps i no_part)

  abbrev left : List PartHeader
  left = removed s i ps

  abbrev start : ℕ
  start = header_size + sum_sizes i ps

  abbrev body : List ℕ
  body = place_at start (drop (start + s) old) old

  abbrev whole_file : List ℕ
  whole_file = place_at 0 front body

  left-slots :
      (j : ℕ)
      → j < count_used left
      → get_or left j no_part
        ≡ record (get_or ps (slot_before i j) no_part) { offset = header_size + sum_sizes j left }
  left-slots j less = elim (Bool-cases (ltb j i)) [
    | inl below ↦
        let before : j < i = ground arith in
        let there : (get_or ps j no_part).offset ≡ header_size + sum_sizes j left =
          placed j (omega (arith, before, used))
          ∙ omega (arith, sum-removed_below s i j ps used (omega (arith, before))) in
        rw below (
          removed-below s i j ps used before
          ∙ ap (λ o. record (get_or ps j no_part) { offset = o }) there)
    | inr above ↦
        let behind : i ≤ j = ground arith in
        let more : suc j < count_used ps = omega (arith, less, removed-count s i ps used) in
        let sum = sum-removed_above s i j ps behind (omega (arith, more)) in
        let there : ((get_or ps (suc j) no_part).offset + 2 ^ 64 - s % 2 ^ 64) % 2 ^ 64
            ≡ header_size + sum_sizes j left =
          omega (
            arith,
            placed (suc j) more,
            sum,
            fits,
            sum_sizes_mono ps (suc j) (count_used ps) (omega (arith, more)),
          ) in
        rw above (
          removed-above s i j ps behind more
          ∙ ap (λ o. record (get_or ps (suc j) no_part) { offset = o }) there)
  ]

  part_inside :
      (j : ℕ)
      → j < count_used ps
      → header_size + sum_sizes j ps + part_size (get_or ps j no_part) ≤ length old
  part_inside j less = omega (
    arith,
    whole,
    sum_sizes-next ps j less,
    sum_sizes_mono ps (suc j) (count_used ps) (omega (arith, less)),
  )

  -- The bytes of the parts in the file that is not cut yet.
  body-contents :
      (j : ℕ)
      → j < count_used left
      → take (part_size (get_or left j no_part)) (drop (header_size + sum_sizes j left) body)
        ≡ take
            (part_size (get_or left j no_part))
            (drop (header_size + sum_sizes (slot_before i j) ps) old)
  body-contents j less = elim (Bool-cases (ltb j i)) [
    | inl below ↦
        let before : j < i = ground arith in
        let here = sum-removed_below s i j ps used (omega (arith, before)) in
        let n = part_size (get_or left j no_part) in
        let same : n ≡ part_size (get_or ps j no_part) =
          ap part_size (removed-below s i j ps used before) in
        let room : header_size + sum_sizes j ps + n ≤ start = omega (
          arith,
          same,
          sum_sizes-next ps j (omega (arith, before, used)),
          sum_sizes_mono ps (suc j) i (omega (arith, before)),
        ) in
        rw below (
          ap (λ k. take n (drop (header_size + k) body)) here
          ∙ place_at_front start (header_size + sum_sizes j ps) n (drop (start + s) old) old room
              (omega (arith, same, part_inside j (omega (arith, before, used)))))
    | inr above ↦
        let behind : i ≤ j = ground arith in
        let more : suc j < count_used ps = omega (arith, less, removed-count s i ps used) in
        let sum = sum-removed_above s i j ps behind (omega (arith, more)) in
        let n = part_size (get_or left j no_part) in
        let same : n ≡ part_size (get_or ps (suc j) no_part) =
          ap part_size (removed-above s i j ps behind more)
          ∙ moved_part-size s (get_or ps (suc j) no_part) in
        let next = sum_sizes-next ps i used in
        let order = sum_sizes_mono ps (suc i) (suc j) (omega (arith, behind)) in
        let d = sum_sizes j left - sum_sizes i ps in
        let at : header_size + sum_sizes j left ≡ start + d = omega (arith, sum, next, order) in
        let from : start + s + d ≡ header_size + sum_sizes (suc j) ps =
          omega (arith, sum, next, order) in
        rw above (
          ap (λ k. take n (drop k body)) at
          ∙ place_at-inside start d n (drop (start + s) old) old
              (omega (arith, from, same, part_inside (suc j) more, length-drop {0} (start + s) old))
          ∙ ap (take n) (drop-add (start + s) d old)
          ∙ ap (λ k. take n (drop k old)) from)
  ]

  abbrev end : ℕ
  end = header_size + sum_sizes (count_used left) left

  end_lem : end + s ≡ length old
  end_lem =
      let count = removed-count s i ps used in
      let sum =
        sum-removed_above s i (count_used left) ps (omega (arith, count, used))
          (omega (arith, count)) in
      omega (arith, whole, sum, ap (λ k. sum_sizes k ps) count)

  -- The file behind the move of the bytes, the header and the cut.
  file-IsWithout : IsWithout ps left front i old (resized end whole_file)
  file-IsWithout =
      let long : end ≤ length whole_file = omega (
        arith,
        end_lem,
        place_at-long 0 front body,
        place_at-long start (drop (start + s) old) old,
      ) in
      record {
        count = removed-count s i ps used;
        slots = left-slots;
        contents = λ j less.
            let n = part_size (get_or left j no_part) in
            let k = header_size + sum_sizes j left in
            let room : k + n ≤ end = omega (
              arith,
              sum_sizes-next left j less,
              sum_sizes_mono left (suc j) (count_used left) (omega (arith, less)),
            ) in
            take-resized end k n whole_file room long
            ∙ ap (take n) (place_at_behind 0 k front body (omega (arith, full)))
            ∙ body-contents j less;
        header =
            take-resized end 0 header_size whole_file (omega arith) long
            ∙ ap (λ n. take n whole_file) (sym full)
            ∙ take-place_at 0 front body;
        size = length-resized end whole_file;
      }

module _ {W O S : Type 0} (fp : Stdio W) (ops : FileOps W) (hash : Hash S) (bytes : W → List ℕ)
    (at : W → ℕ) (other : W → O) (stream : IsStream fp bytes at other)
    (cuts : (size : ℕ) (w : W)
      → ((ops.ftruncate size w).0 ≡ true)
        × (bytes (ops.ftruncate size w).1 ≡ resized size (bytes w)))
    (h : Header) (filled : IsFilled h.parts) (placed : IsPlaced h.parts)
    (fits : header_size + sum_sizes (count_used h.parts) h.parts < 2 ^ 64) where
  -- If `bpak_pkg_delete_part` of the used part of slot `i`, without its metadata, succeeds on a package with a
  -- filled part table, whose parts stand one behind the other, at the offsets in the table, and end where the
  -- file does, below 2^64: the table has the other parts in their order, each with the offset at which it now
  -- stands behind the part in front, and is otherwise unchanged; the file has their bytes there, the new header
  -- in front, which has to take 4096 bytes, and ends behind the last part. The fuel is enough if it is not below
  -- the size of the file.
  pub delete_part-IsWithout :
      (fuel part_id i : ℕ) (h' : Header) (w w' : W) (u : Unit {0})
      → get_part h part_id ≡ ok i
      → i < count_used h.parts
      → length (bytes w) ≡ header_size + sum_sizes (count_used h.parts) h.parts
      → length (bytes w) ≤ fuel
      → length (header_bytes h') ≡ header_size
      → delete_part fp ops hash fuel part_id false (h, w) ≡ some (done u, (h', w'))
      → IsWithout h.parts h'.parts (header_bytes h') i (bytes w) (bytes w')
  unfolding shift_parts del_part part_offset
  delete_part-IsWithout fuel part_id i h' w w' u found used whole enough full e =
      let ps = h.parts in
      let size = part_size (get_or ps i no_part) in
      let table = removed size i ps in
      let begin = header_size + sum_sizes i ps in
      let next = sum_sizes-next ps i used in
      let order = sum_sizes_mono ps (suc i) (count_used ps) (omega (arith, used)) in
      let offset : part_offset h (get_or ps i no_part) ≡ begin =
        offset_loop-used header_size ps i filled used (omega (arith, fits, next, order)) in
      let count = moved_bytes-sum size i ps used (omega (arith, fits)) in
      let tail : length (drop (part_offset h (get_or ps i no_part) + size) (bytes w))
          ≡ moved_bytes size i ps =
        length-drop {0} (part_offset h (get_or ps i no_part) + size) (bytes w)
        ∙ omega (arith, offset, whole, next, count) in
      let (parts, file) =
        delete_part_done fp ops hash bytes at other stream cuts fuel part_id i false h h'
          (shift_parts (del_part h i) i size).1 w w' u found refl
          (omega (arith, count, whole, enough)) (omega (arith, count, fits)) tail e in
      let left_size = new_size_loop-sum header_size table (
        omega (
          arith,
          fits,
          whole,
          end_lem ps i used placed fits (header_bytes h') (bytes w) full whole,
        )) in
      let last : new_size_loop header_size h'.parts
          ≡ header_size + sum_sizes (count_used table) table =
        ap (new_size_loop header_size) parts ∙ left_size in
      let cut : bytes w'
          ≡ resized (header_size + sum_sizes (count_used table) table) (
              place_at 0 (header_bytes h')
                (place_at begin (drop (begin + size) (bytes w)) (bytes w))) =
        file
        ∙ ap₂
            (λ n k.
              resized n
                (place_at 0 (header_bytes h') (place_at k (drop (k + size) (bytes w)) (bytes w))))
            last offset in
      subst₂ (λ qs new. IsWithout ps qs (header_bytes h') i (bytes w) new) (sym parts) (sym cut)
        (file-IsWithout ps i used placed fits (header_bytes h') (bytes w) full whole)
