-- ===== src/Package/Remove/Moved.antt =====
-- The package's file behind `bpak_pkg_delete_part`.
use bpak.Prelude.{
  ℕ, zero, suc, ◌+◌, ◌-◌, ◌%◌, ◌^◌, ◌≤◌, ◌<◌, ◌≡◌, refl, sym, ap, ap₂, ◌∙◌, min, Bool, true, false,
  not, Bool-cases, inl, inr, Option, none, some, List, [], ◌∷◌, ◌++◌, ◌==◌, if◌then◌else◌, length,
  take, drop, get_or, replicate, drop-add, length-take, length-drop, nil_of_length, arith,
}
use bpak.Run.{Rc, Run, done, ◌>>=◌}
use bpak.Status.{ok}
use bpak.Header.{Header, header_size, no_part, part_size}
use bpak.Header.Bytes.{header_bytes}
use bpak.Part.{get_part, del_part, part_offset}
use bpak.Payload.{Hash, chunk_buffer_length}
use bpak.Merkle.Walk.Agree.{bind_done}
use bpak.Package.{Stdio, update_payload_hash, write_header}
use bpak.Package.Create.{on_streams}
use bpak.Package.Kept.{header_updated}
use bpak.Package.Stream.{IsStream, place_at, place_at-place_at, place_at_behind}
use bpak.Package.Remove.{
  FileOps, shift_parts, remove_loop, remove_fuel, new_size_loop, move_chunk, move_loop, truncate,
  finish_removal, delete_part,
}

is_whole : (a b : ℕ) → a ≡ b → not (a == b) ≡ false
is_whole a b e = ground arith

wrap : (n c : ℕ) → c ≤ n → n < 2 ^ 64 → (n + 2 ^ 64 - c) % 2 ^ 64 ≡ n - c
wrap n c le small = omega arith

positive : (n : ℕ) → (n == 0) ≡ false → 0 < n
positive n left = ground arith

module _ {W O : Type 0} (fp : Stdio W) (ops : FileOps W) (bytes : W → List ℕ) (at : W → ℕ)
    (other : W → O) (stream : IsStream fp bytes at other) where
  -- A round that writes the chunk.
  move_chunk_run :
      (offset : ℕ) (chunk : List ℕ) (next : Run W (Unit {0})) (w : W)
      → (w' : W) × (move_chunk fp ops offset chunk next w ≡ next w')
        × (bytes w' ≡ place_at offset chunk (bytes w))
  unfolding move_chunk
  move_chunk_run offset chunk next w =
      let (found, kept, there, _) = stream.seek offset w in
      let w1 = (fp.fseek offset w).1 in
      let (count, written, _, _) = stream.write chunk w1 in
      let all : ((fp.fwrite chunk w1).0 == length chunk) ≡ true = ground arith in
      (
        (fp.fwrite chunk w1).1,
        rw (found, move_chunk) (rw (all, move_chunk) refl),
        written ∙ ap₂ (λ k t. place_at k chunk t) there kept,
      )

  move_loop-Moved :
      (fuel n read_offset write_offset : ℕ) (w : W)
      → n ≤ fuel
      → n < 2 ^ 64
      → write_offset ≤ read_offset
      → length (drop read_offset (bytes w)) ≡ n
      → (w' : W) × (move_loop fp ops fuel n read_offset write_offset w ≡ some (done tt, w'))
        × (bytes w' ≡ place_at write_offset (drop read_offset (bytes w)) (bytes w))
  unfolding move_loop place_at
  move_loop-Moved zero n ro wo w le small order all =
      let zero_left : n ≡ 0 = omega arith in
      let empty : drop ro (bytes w) ≡ [] = nil_of_length (drop ro (bytes w)) (omega arith) in
      rw zero_left (rw empty (w, refl, refl))
  move_loop-Moved (suc fuel) n ro wo w le small order all = elim (Bool-cases (n == 0)) [
    | inl last ↦
        let empty : drop ro (bytes w) ≡ [] = nil_of_length (drop ro (bytes w)) (ground arith) in
        rw (last, move_loop) (rw empty (w, refl, refl))
    | inr left ↦
        let rest = drop ro (bytes w) in
        let (found, kept, there, _) = stream.seek ro w in
        let w1 = (fp.fseek ro w).1 in
        let (chunk, w2) = fp.fread chunk_buffer_length w1 in
        let (got, same, _, _) = stream.read chunk_buffer_length w1 in
        let taken : chunk ≡ take chunk_buffer_length rest =
          got ∙ ap₂ (λ k t. take chunk_buffer_length (drop k t)) there kept in
        let long : length chunk ≡ min chunk_buffer_length n =
          ap length taken
          ∙ length-take {0} chunk_buffer_length rest
          ∙ ap (min chunk_buffer_length) all in
        let whole : not (length chunk == min n chunk_buffer_length) ≡ false =
          is_whole (length chunk) (min n chunk_buffer_length) (omega (arith, long)) in
        let c = length chunk in
        let remaining : (n + 2 ^ 64 - c) % 2 ^ 64 ≡ n - c = wrap n c (omega (arith, long)) small in
        let file : bytes w2 ≡ bytes w = same ∙ kept in
        let next = move_loop fp ops fuel ((n + 2 ^ 64 - c) % 2 ^ 64) (ro + c) (wo + c) in
        let (w3, run, written) = move_chunk_run wo chunk next w2 in
        let before : bytes w3 ≡ place_at wo chunk (bytes w) =
          written ∙ ap (place_at wo chunk) file in
        let behind : drop (ro + c) (bytes w3) ≡ drop c rest =
          ap (drop (ro + c)) before
          ∙ place_at_behind wo (ro + c) chunk (bytes w) (omega arith)
          ∙ sym (drop-add ro c (bytes w)) in
        let joined : chunk ++ drop c rest ≡ rest =
          ap₂ (λ t k. t ++ drop k rest) taken (ap length taken) ∙ rejoin chunk_buffer_length rest in
        let (w', run', moved) =
          move_loop-Moved fuel (n - c) (ro + c) (wo + c) w3 (omega (arith, long, positive n left))
            (omega arith) (omega arith)
            (ap length behind ∙ omega (arith, length-drop {0} c rest, all)) in
        rw (left, move_loop)
          (
            w',
            rw found (
                rw whole
                  (run ∙ ap (λ k. move_loop fp ops fuel k (ro + c) (wo + c) w3) remaining ∙ run')),
            moved
                ∙ ap₂ (λ t b. place_at (wo + c) t b) behind before
                ∙ place_at-place_at wo chunk (drop c rest) (bytes w)
                ∙ ap (λ t. place_at wo t (bytes w)) joined,
          )
  ]
    where
      rejoin : (k : ℕ) (xs : List ℕ) → take k xs ++ drop (length (take k xs)) xs ≡ xs
      rejoin zero xs = refl
      rejoin (suc k) [] = refl
      rejoin (suc k) (x ∷ xs) = ap (λ t. x ∷ t) (rejoin k xs)

-- A file with another size: cut, or longer by zeroes.
abbrev pub resized : ℕ → List ℕ → List ℕ
resized size bs = take size bs ++ replicate (size - length bs) 0

-- The header behind the changes of the tables, with the part's slot.
abbrev pub removed_header : Header → ℕ → ℕ → Bool → Option Header
removed_header h part_id i remove_meta =
    let h1 = (shift_parts (del_part h i) i (part_size (get_or h.parts i no_part))).1 in
    if remove_meta then remove_loop (λ ref. ref == part_id) (remove_fuel h1) 0 h1 else some h1

-- The bytes behind the part, by the part table.
abbrev pub bytes_behind : Header → ℕ → ℕ
bytes_behind h i = (shift_parts (del_part h i) i (part_size (get_or h.parts i no_part))).0

module _ {W O S : Type 0} (fp : Stdio W) (ops : FileOps W) (hash : Hash S) (bytes : W → List ℕ)
    (at : W → ℕ) (other : W → O) (stream : IsStream fp bytes at other)
    (cuts : (size : ℕ) (w : W)
      → ((ops.ftruncate size w).0 ≡ true)
        × (bytes (ops.ftruncate size w).1 ≡ resized size (bytes w))) where
  on_streams_done :
      {A : Type 0} (m : Run W A) (h : Header) (w w' : W) (a : A)
      → m w ≡ some (done a, w')
      → on_streams m (h, w) ≡ some (done a, (h, w'))
  unfolding on_streams
  on_streams_done m h w w' a e = rw (e, on_streams) refl

  finish_removal-resized :
      (size : Header → ℕ) (h h' : Header) (w w' : W) (u : Unit {0})
      → finish_removal fp ops hash size (h, w) ≡ some (done u, (h', w'))
      → (h'.parts ≡ h.parts)
        × (bytes w' ≡ resized (size h') (place_at 0 (header_bytes h') (bytes w)))
  unfolding finish_removal truncate
  finish_removal-resized size h h' w w' u e =
      let cut : Run (Header × W) (Unit {0}) =
        λ (g, v). on_streams (truncate fp ops (size g)) (g, v) in
      let (_, (h1, w1), first, rest) =
        bind_done (update_payload_hash fp hash) (λ _. write_header fp >>= λ _. cut) (h, w) (h', w')
          u e in
      let (_, (h2, w2), second, third) =
        bind_done (write_header fp) (λ _. cut) (h1, w1) (h', w') u rest in
      let both : (update_payload_hash fp hash >>= λ _. write_header fp) (h, w)
          ≡ some (done tt, (h2, w2)) =
        rw (first, ◌>>=◌) second in
      let (parts, written) = header_updated fp hash bytes at other stream h h2 w w2 tt both in
      let (succeeds, shorter) = cuts (size h2) w2 in
      let run : cut (h2, w2) ≡ some (done tt, (h2, (ops.ftruncate (size h2) w2).1)) =
        on_streams_done (truncate fp ops (size h2)) h2 w2 (ops.ftruncate (size h2) w2).1 tt
          (rw (succeeds, truncate) refl) in
      let same = sym run ∙ third in
      let header : h2 ≡ h' = ap (header_of h2) same in
      (
        ap (λ (g : Header). g.parts) (sym header) ∙ parts,
        sym (ap (λ r. bytes (state_of (ops.ftruncate (size h2) w2).1 r)) same)
            ∙ shorter
            ∙ ap (resized (size h2)) written
            ∙ ap (λ g. resized (size g) (place_at 0 (header_bytes g) (bytes w))) header,
      )
    where
      header_of : Header → Option (Rc (Unit {0}) × (Header × W)) → Header
      header_of g none = g
      header_of g (some (r, (k, v))) = k

      state_of : W → Option (Rc (Unit {0}) × (Header × W)) → W
      state_of d none = d
      state_of d (some (r, (k, v))) = v

  -- If `bpak_pkg_delete_part` succeeds on a file that ends where the part table says, the part table is that
  -- behind the removal, the bytes behind the part have moved to the part's offset, the header stands in front,
  -- and the file has the size of the header and the remaining parts. The fuel is enough if it is not below the
  -- number of bytes to move.
  pub delete_part_done :
      (fuel part_id i : ℕ) (remove_meta : Bool) (h h' h2 : Header) (w w' : W) (u : Unit {0})
      → get_part h part_id ≡ ok i
      → removed_header h part_id i remove_meta ≡ some h2
      → bytes_behind h i ≤ fuel
      → bytes_behind h i < 2 ^ 64
      → length (
          drop
            (part_offset h (get_or h.parts i no_part) + part_size (get_or h.parts i no_part))
            (bytes w))
        ≡ bytes_behind h i
      → delete_part fp ops hash fuel part_id remove_meta (h, w) ≡ some (done u, (h', w'))
      → (h'.parts ≡ h2.parts)
        × (bytes w'
            ≡ resized (new_size_loop header_size h'.parts) (
                place_at 0 (header_bytes h') (
                  place_at
                    (part_offset h (get_or h.parts i no_part))
                    (drop
                      (part_offset h (get_or h.parts i no_part)
                        + part_size (get_or h.parts i no_part))
                      (bytes w))
                    (bytes w))))
  unfolding delete_part
  delete_part_done fuel part_id i remove_meta h h' h2 w w' u found cleaned le small end e =
      let p = get_or h.parts i no_part in
      let offset = part_offset h p in
      let move = move_loop fp ops fuel (bytes_behind h i) (offset + part_size p) offset in
      let finish = finish_removal fp ops hash (λ h. new_size_loop header_size h.parts) in
      let (w1, run, moved) =
        move_loop-Moved fp ops bytes at other stream fuel (bytes_behind h i) (offset + part_size p)
          offset w le small (omega arith) end in
      let first : on_streams move (h2, w) ≡ some (done tt, (h2, w1)) =
        on_streams_done move h2 w w1 tt run in
      let all : delete_part fp ops hash fuel part_id remove_meta (h, w) ≡ finish (h2, w1) =
        rw (found, delete_part) (rw (cleaned, delete_part) (rw (first, ◌>>=◌) refl)) in
      let (parts, file) =
        finish_removal-resized (λ h. new_size_loop header_size h.parts) h2 h' w1 w' u
          (sym all ∙ e) in
      (
        parts,
        file
            ∙ ap
                (λ t. resized (new_size_loop header_size h'.parts) (place_at 0 (header_bytes h') t))
                moved,
      )
