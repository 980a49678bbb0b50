-- ===== src/Package/Kept.antt =====
-- What the hash of the payload and the write of the header leave of the package's file.
use bpak.Prelude.{
  ℕ, zero, suc, ◌+◌, ◌-◌, ◌/◌, ◌≡◌, refl, sym, ap, ap₂, ◌∙◌, bit_and, Bool, true, false, Option,
  none, some, List, [], ◌∷◌, ltb, ◌==◌, if◌then◌else◌, length, overlay,
}
use bpak.Int.{pos}
use bpak.Run.{Rc, done, minus, raise, ◌>>=◌}
use bpak.Status.{Result, ok, err, read_error, seek_error, write_error}
use bpak.Header.{PartHeader, Header, header_size, part_size, flag_exclude_from_hash}
use bpak.Header.Bytes.{header_bytes}
use bpak.Patch.{ReadResult, is_count}
use bpak.Payload.{
  Hash, chunk_buffer_length, hash_chunk, chunk_loop, hash_parts, compute_payload_hash,
}
use bpak.Merkle.Walk.Agree.{bind_done}
use bpak.Package.{Stdio, read_payload, write_header, update_payload_hash}
use bpak.Package.Stream.{IsStream, place_at}

module _ {W V : Type 0} (view : W → V) (v : V) where
  -- If the run comes to a state, the view of it is `v`.
  abbrev pub Keeps : {X : Type 0} → Option (X × W) → Type 0
  Keeps none = Unit
  Keeps (some (x, w')) = view w' ≡ v

  module _ {S : Type 0} (hash : Hash S) (read : ℕ → ℕ → W → ReadResult × W)
      (reads : (o n : ℕ) (w : W) → view w ≡ v → view (read o n w).1 ≡ v) where
    hash_chunk-Keeps :
        (chunk : ℕ) (s : S) (offset : ℕ) (last : Bool) (next : S → Option (Result (S × ℕ) × W))
        (r : ReadResult) (w' : W)
        → view w' ≡ v
        → ((s' : S) → Keeps (next s'))
        → Keeps (hash_chunk hash read chunk s offset last next (r, w'))
    unfolding hash_chunk
    hash_chunk-Keeps chunk s offset last next r w' kept rest =
        by_test (is_count r.count chunk) (hash.update s r.bytes) last
      where
        by_test :
            (b : Bool) (u : Result S) (l : Bool)
            → Keeps (elim b as (λ _. Option (Result (S × ℕ) × W)) [
              | false ↦ some (err read_error, w')
              | true ↦ elim u as (λ _. Option (Result (S × ℕ) × W)) [
                | err e ↦ some (err e, w')
                | ok s' ↦ elim l as (λ _. Option (Result (S × ℕ) × W)) [
                  | true ↦ some (ok (s', offset + chunk), w')
                  | false ↦ next s'
                ]
              ]
            ])
        by_test false u l = kept
        by_test true (err e) l = kept
        by_test true (ok s') true = kept
        by_test true (ok s') false = rest s'

    chunk_loop-Keeps :
        (fuel : ℕ) (s : S) (offset n : ℕ) (w : W)
        → view w ≡ v
        → Keeps (chunk_loop hash read fuel s offset n w)
    unfolding chunk_loop
    chunk_loop-Keeps zero s offset n w kept = tt
    chunk_loop-Keeps (suc fuel) s offset n w kept =
        let chunk = if ltb chunk_buffer_length n then chunk_buffer_length else n in
        let (r, w') = read offset chunk w in
        let kept' = reads offset chunk w kept in
        hash_chunk-Keeps chunk s offset (n - chunk == 0)
          (λ s'. chunk_loop hash read fuel s' (offset + chunk) (n - chunk) w') r w' kept'
          (λ s'. chunk_loop-Keeps fuel s' (offset + chunk) (n - chunk) w' kept')

    hash_parts-Keeps :
        (s : S) (offset : ℕ) (ps : List PartHeader) (w : W)
        → view w ≡ v
        → Keeps (hash_parts hash read s offset ps w)
    unfolding hash_parts
    hash_parts-Keeps s offset [] w kept = kept
    hash_parts-Keeps s offset (p ∷ ps) w kept =
        by_result (p.id == 0) (bit_and p.flags flag_exclude_from_hash == 0)
          (chunk_loop hash read (part_size p / chunk_buffer_length + 1) s offset (part_size p) w)
          (chunk_loop-Keeps (part_size p / chunk_buffer_length + 1) s offset (part_size p) w kept)
          (λ s' o w' k. hash_parts-Keeps s' o ps w' k)
      where
        by_result :
            (free excluded : Bool) (r : Option (Result (S × ℕ) × W))
            → Keeps r
            → ((s' : S) (o : ℕ) (w' : W) → view w' ≡ v → Keeps (hash_parts hash read s' o ps w'))
            → Keeps (elim free as (λ _. Option (Result S × W)) [
              | true ↦ hash_parts hash read s offset ps w
              | false ↦ elim excluded as (λ _. Option (Result S × W)) [
                | false ↦ hash_parts hash read s (offset + part_size p) ps w
                | true ↦ elim r as (λ _. Option (Result S × W)) [
                  | none ↦ none
                  | some (err e, w') ↦ some (err e, w')
                  | some (ok (s', offset'), w') ↦ hash_parts hash read s' offset' ps w'
                ]
              ]
            ])
        by_result true excluded r k rest = rest s offset w kept
        by_result false false r k rest = rest s (offset + part_size p) w kept
        by_result false true none k rest = tt
        by_result false true (some (err e, w')) k rest = k
        by_result false true (some (ok (s', o), w')) k rest = rest s' o w' k

    pub compute_payload_hash-Keeps :
        (h : Header) (offset size : ℕ) (w : W)
        → view w ≡ v
        → Keeps (compute_payload_hash hash read h offset size w)
    unfolding compute_payload_hash
    compute_payload_hash-Keeps h offset size w kept =
        by_result (hash.init h.hash_kind) (λ s. hash_parts hash read s offset h.parts w)
          (λ s. hash_parts-Keeps s offset h.parts w kept)
      where
        by_result :
            (r : Result S) (run : S → Option (Result S × W))
            → ((s : S) → Keeps (run s))
            → Keeps (elim r as (λ _. Option (Result (List ℕ) × W)) [
              | err e ↦ some (err e, w)
              | ok s ↦ elim (run s) as (λ _. Option (Result (List ℕ) × W)) [
                | none ↦ none
                | some (err e, w') ↦ some (err e, w')
                | some (ok s', w') ↦ some (hash.final s' size, w')
              ]
            ])
        by_result (err e) run k = kept
        by_result (ok s) run k = by_run (run s) (k s)
          where
            by_run :
                (q : Option (Result S × W))
                → Keeps q
                → Keeps (elim q as (λ _. Option (Result (List ℕ) × W)) [
                  | none ↦ none
                  | some (err e, w') ↦ some (err e, w')
                  | some (ok s', w') ↦ some (hash.final s' size, w')
                ])
            by_run none k = tt
            by_run (some (err e, w')) k = k
            by_run (some (ok s', w')) k = k

module _ {W O S : Type 0} (fp : Stdio W) (hash : Hash S) (bytes : W → List ℕ) (at : W → ℕ)
    (other : W → O) (stream : IsStream fp bytes at other) where
  read_payload_kept : (offset n : ℕ) (w : W) → bytes (read_payload fp offset n w).1 ≡ bytes w
  unfolding read_payload
  read_payload_kept offset n w =
      let (found, kept, _, _) = stream.seek offset w in
      let w1 = (fp.fseek offset w).1 in
      let (_, kept', _, _) = stream.read n w1 in
      by_test (fp.fseek offset w).0 found (length (fp.fread n w1).0 == n) (kept' ∙ kept)
    where
      by_test :
          (b : Bool)
          → b ≡ true
          → (c : Bool) → bytes (fp.fread n (fp.fseek offset w).1).1 ≡ bytes w
          → bytes
              (elim b as (λ _. ReadResult × W) [
                | false ↦ (record { count = minus seek_error; bytes = [] }, (fp.fseek offset w).1)
                | true ↦ elim c as (λ _. ReadResult × W) [
                  | false ↦ (
                    record {
                      count = minus read_error;
                      bytes = (fp.fread n (fp.fseek offset w).1).0;
                    },
                    (fp.fread n (fp.fseek offset w).1).1,
                  )
                  | true ↦ (
                    record { count = pos n; bytes = (fp.fread n (fp.fseek offset w).1).0 },
                    (fp.fread n (fp.fseek offset w).1).1,
                  )
                ]
              ]).1
            ≡ bytes w
      by_test false e c k = absurd (cc e)
      by_test true e false k = k
      by_test true e true k = k

  pub update_payload_hash_kept :
      (h h' : Header) (w w' : W) (u : Unit {0})
      → update_payload_hash fp hash (h, w) ≡ some (done u, (h', w'))
      → (bytes w' ≡ bytes w) × (h'.parts ≡ h.parts)
  unfolding update_payload_hash raise
  update_payload_hash_kept h h' w w' u e =
      by_result (compute_payload_hash hash (read_payload fp) h header_size 64 w)
        (compute_payload_hash-Keeps bytes (bytes w) hash (read_payload fp)
          (λ o n w1 k. read_payload_kept o n w1 ∙ k) h header_size 64 w refl)
        e
    where
      by_result :
          (r : Option (Result (List ℕ) × W))
          → Keeps bytes (bytes w) r
          → (elim r as (λ _. Option (Rc (Unit {0}) × (Header × W))) [
            | none ↦ none
            | some (err x, w1) ↦ raise x (h, w1)
            | some (ok digest, w1) ↦
                some (done tt, (record h { payload_hash = overlay digest h.payload_hash }, w1))
          ])
            ≡ some (done u, (h', w'))
          → (bytes w' ≡ bytes w) × (h'.parts ≡ h.parts)
      by_result none k q = absurd (cc q)
      by_result (some (err x, w1)) k q = absurd (cc q)
      by_result (some (ok digest, w1)) k q =
          (ap bytes (sym (ap (last_state w1) q)) ∙ k, sym (ap (parts_of h) q))
        where
          last_state : W → Option (Rc (Unit {0}) × (Header × W)) → W
          last_state d none = d
          last_state d (some (r, (h, w))) = w

          parts_of : Header → Option (Rc (Unit {0}) × (Header × W)) → List PartHeader
          parts_of d none = d.parts
          parts_of d (some (r, (h, w))) = h.parts

  write_header_done :
      (h h' : Header) (w w' : W) (u : Unit {0})
      → write_header fp (h, w) ≡ some (done u, (h', w'))
      → (h' ≡ h) × (bytes w' ≡ place_at 0 (header_bytes h) (bytes w))
  unfolding write_header raise
  write_header_done h h' w w' u e =
      let (found, kept, there, _) = stream.seek 0 w in
      let w1 = (fp.fseek 0 w).1 in
      let (count, written, _, _) = stream.write (header_bytes h) w1 in
      by_test (fp.fseek 0 w).0 ((fp.fwrite (header_bytes h) w1).0 == header_size) e
        (written ∙ ap₂ (λ k t. place_at k (header_bytes h) t) there kept)
    where
      header_of : Option (Rc (Unit {0}) × (Header × W)) → Header
      header_of none = h
      header_of (some (r, (g, v))) = g

      state_of : Option (Rc (Unit {0}) × (Header × W)) → W
      state_of none = w
      state_of (some (r, (g, v))) = v

      by_test :
          (b c : Bool)
          → (elim b as (λ _. Option (Rc (Unit {0}) × (Header × W))) [
            | false ↦ raise seek_error (h, (fp.fseek 0 w).1)
            | true ↦
                if c
                then some (done tt, (h, (fp.fwrite (header_bytes h) (fp.fseek 0 w).1).1))
                else raise write_error (h, (fp.fwrite (header_bytes h) (fp.fseek 0 w).1).1)
          ])
            ≡ some (done u, (h', w'))
          → bytes (fp.fwrite (header_bytes h) (fp.fseek 0 w).1).1
            ≡ place_at 0 (header_bytes h) (bytes w)
          → (h' ≡ h) × (bytes w' ≡ place_at 0 (header_bytes h) (bytes w))
      by_test false c q k = absurd (cc q)
      by_test true false q k = absurd (cc q)
      by_test true true q k = (sym (ap header_of q), sym (ap (λ r. bytes (state_of r)) q) ∙ k)

  -- The hash and the header behind a change of the file: only the header is written.
  pub header_updated :
      (h h' : Header) (w w' : W) (u : Unit {0})
      → (update_payload_hash fp hash >>= λ _. write_header fp) (h, w) ≡ some (done u, (h', w'))
      → (h'.parts ≡ h.parts) × (bytes w' ≡ place_at 0 (header_bytes h') (bytes w))
  header_updated h h' w w' u e =
      let (_, (h1, w1), first, second) =
        bind_done (update_payload_hash fp hash) (λ _. write_header fp) (h, w) (h', w') u e in
      let (kept, parts) = update_payload_hash_kept h h1 w w1 tt first in
      let (same, written) = write_header_done h1 h' w1 w' u second in
      (
        ap (λ (g : Header). g.parts) same ∙ parts,
        written ∙ ap₂ (λ g t. place_at 0 (header_bytes g) t) (sym same) kept,
      )
