-- ===== src/Package/Remove.antt =====
-- lib/pkg.c: `bpak_pkg_delete_part` and `bpak_pkg_delete_all_parts`. The stream, `ferror` and `ftruncate` are
-- parameters.
pub mod Moved
pub mod Table
pub mod Bytes
pub mod Placed
use bpak.Prelude.{
  ℕ, zero, suc, ◌+◌, ◌-◌, ◌*◌, ◌%◌, ◌^◌, min, Bool, true, false, not, Option, none, some, List, [],
  ◌∷◌, ◌++◌, ◌==◌, if◌then◌else◌, length, get_or, take, drop, replicate,
}
use bpak.Run.{Rc, Run, done, fail, pure, raise, out_of_fuel, ◌>>=◌, ◌>>◌}
use bpak.Status.{Result, ok, err, read_error, write_error}
use bpak.Header.{
  MetaHeader, PartHeader, Header, no_meta, no_part, max_parts, header_size, part_size,
}
use bpak.Meta.{del_meta}
use bpak.Part.{get_part, del_part, part_offset}
use bpak.Payload.{Hash, chunk_buffer_length}
use bpak.Package.{Stdio, update_payload_hash, write_header}
use bpak.Package.Create.{on_streams}

-- `ferror` and `ftruncate` of the package's file.
pub record FileOps (W : Type 0) : Type 0 where
  pub ferror : W → Bool
  pub ftruncate : ℕ → W → Bool × W

-- The loop over the parts behind the one that is removed: their offsets move, and their sizes are summed up.
unfoldable pub shift_loop : ℕ → ℕ → List PartHeader → ℕ × List PartHeader
shift_loop p_size bytes_to_process [] = (bytes_to_process, [])
shift_loop p_size bytes_to_process (p ∷ ps) =
    let (n, rest) = shift_loop p_size ((bytes_to_process + part_size p) % 2 ^ 64) ps in
    if p.id == 0
    then (bytes_to_process, p ∷ ps)
    else (n, record p { offset = (p.offset + 2 ^ 64 - p_size % 2 ^ 64) % 2 ^ 64 } ∷ rest)

-- The parts from slot `i` on, behind `bpak_del_part`, and the bytes to move.
unfoldable pub shift_parts : Header → ℕ → ℕ → ℕ × Header
unfolding shift_loop
shift_parts h i p_size =
    let (n, ps) = shift_loop p_size 0 (drop i h.parts) in
    (n, record h { parts = take i h.parts ++ ps })

-- The loop that removes metadata, from slot `i` on: behind a removal it looks at the same slot again.
unfoldable pub remove_loop : (ℕ → Bool) → ℕ → ℕ → Header → Option Header
remove_loop removed zero i h = none
remove_loop removed (suc fuel) i h =
    let again : Option Header = elim (del_meta h i) [
      | none ↦ none
      | some h' ↦ remove_loop removed fuel i h'
    ] in
    let next = remove_loop removed fuel (suc i) h in
    if i == length h.meta
    then some h
    else if removed (get_or h.meta i no_meta).part_id_ref
    then again
    else next

-- The file's size behind a removal.
unfoldable pub new_size_loop : ℕ → List PartHeader → ℕ
new_size_loop new_size [] = new_size
new_size_loop new_size (p ∷ ps) =
    let rest = new_size_loop ((new_size + part_size p) % 2 ^ 64) ps in
    if p.id == 0 then new_size else rest

-- Every slot is moved over once, and a slot is removed at most as often as there are slots.
abbrev pub remove_fuel : Header → ℕ
remove_fuel h = 2 * length h.meta + 1

module _ {W : Type 0} (fp : Stdio W) (ops : FileOps W) where
  -- The `fseek` and `fwrite` of one round, and on.
  unfoldable pub move_chunk : ℕ → List ℕ → Run W (Unit {0}) → Run W (Unit {0})
  unfolding raise
  move_chunk write_offset chunk next w =
      let (found, w1) = fp.fseek write_offset w in
      let (written, w2) = fp.fwrite chunk w1 in
      elim found as (λ _. Option (Rc (Unit {0}) × W)) [
        | false ↦ raise write_error w1
        | true ↦ elim (written == length chunk) as (λ _. Option (Rc (Unit {0}) × W)) [
          | false ↦ raise write_error w2
          | true ↦ next w2
        ]
      ]

  -- The loop that moves the data behind the part. Each round asks for a whole buffer.
  unfoldable pub move_loop : ℕ → ℕ → ℕ → ℕ → Run W (Unit {0})
  unfolding move_chunk raise
  move_loop zero bytes_to_process read_offset write_offset w =
      (if bytes_to_process == 0 then pure tt else out_of_fuel) w
  move_loop (suc fuel) bytes_to_process read_offset write_offset w =
      elim (bytes_to_process == 0) as (λ _. Option (Rc (Unit {0}) × W)) [
        | true ↦ pure tt w
        | false ↦
            let (found, w1) = fp.fseek read_offset w in
            let (chunk, w2) = fp.fread chunk_buffer_length w1 in
            elim found as (λ _. Option (Rc (Unit {0}) × W)) [
              | false ↦ raise read_error w1
              | true ↦
                  let moved : Run W (Unit {0}) = move_chunk write_offset chunk (
                    move_loop fuel ((bytes_to_process + 2 ^ 64 - length chunk) % 2 ^ 64)
                      (read_offset + length chunk) (write_offset + length chunk)) in
                  let short = not (length chunk == min bytes_to_process chunk_buffer_length) in
                  (if short then if ops.ferror w2 then raise read_error else moved else moved) w2
            ]
      ]

  -- `ftruncate`, with its error.
  unfoldable pub truncate : ℕ → Run W (Unit {0})
  unfolding raise
  truncate size w =
      let (cut, w') = ops.ftruncate size w in (if cut then pure tt else raise write_error) w'

  module _ {S : Type 0} (hash : Hash S) where
    -- Behind the change of the tables, with the new size as a function of the header.
    unfoldable pub finish_removal : (Header → ℕ) → Run (Header × W) (Unit {0})
    unfolding on_streams truncate
    finish_removal size = do
      update_payload_hash fp hash
      write_header fp
      λ (h, w). on_streams (truncate (size h)) (h, w)

    -- `bpak_pkg_delete_part`; the fuel is for the loop over the file.
    unfoldable pub delete_part : ℕ → ℕ → Bool → Run (Header × W) (Unit {0})
    unfolding shift_parts remove_loop move_loop finish_removal new_size_loop on_streams raise
    delete_part fuel part_id remove_meta (h, w) =
        elim (get_part h part_id) as (λ _. Option (Rc (Unit {0}) × (Header × W))) [
          | err e ↦ raise e (h, w)
          | ok i ↦
              let p = get_or h.parts i no_part in
              let p_offset = part_offset h p in
              let (bytes_to_process, h1) = shift_parts (del_part h i) i (part_size p) in
              let cleaned =
                if remove_meta
                then remove_loop (λ ref. ref == part_id) (remove_fuel h1) 0 h1
                else some h1 in
              elim cleaned as (λ _. Option (Rc (Unit {0}) × (Header × W))) [
                | none ↦ none
                | some h2 ↦
                    (do
                      on_streams (move_loop fuel bytes_to_process (p_offset + part_size p) p_offset)
                      finish_removal (λ h. new_size_loop header_size h.parts))
                      (h2, w)
              ]
        ]

    -- `bpak_pkg_delete_all_parts`
    unfoldable pub delete_all_parts : Bool → Run (Header × W) (Unit {0})
    unfolding remove_loop finish_removal
    delete_all_parts remove_meta (h, w) =
        let h1 = record h { parts = replicate max_parts no_part } in
        let cleaned =
          if remove_meta
          then remove_loop (λ ref. not (ref == 0)) (remove_fuel h1) 0 h1
          else some h1 in
        elim cleaned as (λ _. Option (Rc (Unit {0}) × (Header × W))) [
          | none ↦ none
          | some h2 ↦ finish_removal (λ _. header_size) (h2, w)
        ]
