-- ===== src/Payload/Meaning.antt =====
-- The payload hash against the bytes of the parts.
use native.Mathlib.Omega.{arith}
use bpak.Prelude.{
  ℕ, zero, suc, ◌+◌, ◌-◌, ◌/◌, ◌≤◌, ◌<◌, ◌≡◌, refl, ap, ap₂, ◌∙◌, inl, inr, bit_and, Option, none,
  some, List, [], ◌∷◌, ◌++◌, Bool, true, false, Bool-cases, ltb, ltb→lt, ◌==◌, if◌then◌else◌,
  length, take, drop, take-add, drop-add,
}
use bpak.Int.{pos}
use bpak.Status.{Result, ok, err, ◌>>=◌}
use bpak.Header.{PartHeader, Header, part_size, flag_exclude_from_hash}
use bpak.Patch.{ReadResult, is_count}
use bpak.Payload.{Hash, hash_chunk, chunk_loop, hash_parts, compute_payload_hash}

-- What a hash function promises of its context: feeding bytes in pieces is feeding them at once.
pub record IsStreaming {S : Type 0} (hash : Hash S) : Type 0 where
  pub update-nil : (s : S) → hash.update s [] ≡ ok s
  pub update-append :
      (s : S) (xs ys : List ℕ)
      → hash.update s (xs ++ ys) ≡ (hash.update s xs >>= λ t. hash.update t ys)

-- A callback that reads a file of these bytes.
abbrev pub Reads : {W : Type 0} → (ℕ → ℕ → W → ReadResult × W) → List ℕ → Type 0
Reads {W} read file =
    (offset n : ℕ) (w : W)
    → offset + n ≤ length file
    → read offset n w ≡ (record { count = pos n; bytes = take n (drop offset file) }, w)

-- The bytes of the parts that are hashed, and where the last part ends.
unfoldable pub payload : List ℕ → ℕ → List PartHeader → List ℕ
payload file offset [] = []
payload file offset (p ∷ ps) =
    let here = take (part_size p) (drop offset file) in
    let rest = payload file (offset + part_size p) ps in
    if p.id == 0
    then payload file offset ps
    else if bit_and p.flags flag_exclude_from_hash == 0
    then here ++ rest
    else rest

unfoldable pub payload_end : ℕ → List PartHeader → ℕ
payload_end offset [] = offset
payload_end offset (p ∷ ps) =
    if p.id == 0 then payload_end offset ps else payload_end (offset + part_size p) ps

payload_end-ge : (offset : ℕ) (ps : List PartHeader) → offset ≤ payload_end offset ps
unfolding payload_end
payload_end-ge offset [] = omega arith
payload_end-ge offset (p ∷ ps) =
    ground (arith, payload_end-ge offset ps, payload_end-ge (offset + part_size p) ps)

abbrev behind : {S : Type 0} → ℕ → Result S → Result (S × ℕ)
behind next r = r >>= λ t. ok (t, next)

module _ {S W : Type 0} where
  -- The rest of the loop behind an update.
  resume :
      (w : W) (end : ℕ) (r : Result S) (k : S → Option (Result (S × ℕ) × W)) (g : S → Result S)
      → ((t : S) → k t ≡ some ((g t >>= λ u. ok (u, end)), w))
      → (elim r [ err e ↦ some (err e, w) | ok t ↦ k t ])
        ≡ some (((r >>= g) >>= λ u. ok (u, end)), w)
  resume w end (ok t) k g h = h t
  resume w end (err e) k g h = refl

  once :
      (w : W) (end : ℕ) (r : Result S)
      → (elim r as (λ _. Option (Result (S × ℕ) × W)) [
        | err e ↦ some (err e, w)
        | ok t ↦ some (ok (t, end), w)
      ])
        ≡ some ((r >>= λ u. ok (u, end)), w)
  once w end (ok t) = refl
  once w end (err e) = refl

module _ {S W : Type 0} {hash : Hash S} (streaming : IsStreaming hash)
    (read : ℕ → ℕ → W → ReadResult × W) (file : List ℕ) (reads : Reads read file) where
  -- One pass with a read of `c` bytes.
  chunk_loop-pass :
      (fuel : ℕ) (s : S) (offset n : ℕ) (w : W) (c : ℕ) (last : Bool)
      → (if ltb 4096 n then 4096 else n) ≡ c
      → (n - c == 0) ≡ last
      → offset + c ≤ length file
      → chunk_loop hash read (suc fuel) s offset n w
        ≡ (elim (hash.update s (take c (drop offset file))) [
          | err e ↦ some (err e, w)
          | ok t ↦ elim last [
            | true ↦ some (ok (t, offset + c), w)
            | false ↦ chunk_loop hash read fuel t (offset + c) (n - c) w
          ]
        ])
  unfolding chunk_loop hash_chunk is_count
  chunk_loop-pass fuel s offset n w c last e l room =
      ap (λ c. pass c (n - c == 0) (read offset c w)) e
      ∙ ap₂ (pass c) l (reads offset c w room)
      ∙ rw (hash_chunk, same) refl
    where
      pass : ℕ → Bool → ReadResult × W → Option (Result (S × ℕ) × W)
      pass c last r =
          hash_chunk hash read c s offset last
            (λ t. chunk_loop hash read fuel t (offset + c) (n - c) r.1) r

      same : (c == c) ≡ true
      same = ground arith

  -- One part: its bytes are hashed, and the offset is behind them.
  chunk_loop-bytes :
      (fuel : ℕ) (s : S) (offset n : ℕ) (w : W)
      → n / 4096 < fuel
      → offset + n ≤ length file
      → chunk_loop hash read fuel s offset n w
        ≡ some ((hash.update s (take n (drop offset file)) >>= λ t. ok (t, offset + n)), w)
  chunk_loop-bytes zero s offset n w h fits = absurd (omega arith)
  chunk_loop-bytes (suc fuel) s offset n w h fits = elim (Bool-cases (ltb 4096 n)) [
    | inl more ↦
        let big = ltb→lt 4096 n more in
        let pieces : take n (drop offset file)
            ≡ take 4096 (drop offset file) ++ take (n - 4096) (drop (offset + 4096) file) =
          let e : n ≡ 4096 + (n - 4096) = omega (arith, big) in
          ap (λ t. take t (drop offset file)) e
          ∙ take-add 4096 (n - 4096) (drop offset file)
          ∙ ap (λ t. take 4096 (drop offset file) ++ take (n - 4096) t)
              (drop-add offset 4096 file) in
        let end : offset + n ≡ offset + 4096 + (n - 4096) = omega (arith, big) in
        rw
          (
            chunk_loop-pass fuel s offset n w 4096 false (ground arith) (ground (arith, big))
                (omega (arith, big)),
            pieces,
            streaming.update-append,
            end,
          )
          (resume w (offset + 4096 + (n - 4096)) (hash.update s (take 4096 (drop offset file)))
            (λ t. chunk_loop hash read fuel t (offset + 4096) (n - 4096) w)
            (λ t. hash.update t (take (n - 4096) (drop (offset + 4096) file)))
            (λ t.
              chunk_loop-bytes fuel t (offset + 4096) (n - 4096) w (omega (arith, big))
                (omega (arith, big))))
    | inr small ↦
        rw (chunk_loop-pass fuel s offset n w n true (ground arith) (ground arith) fits)
          (once w (offset + n) (hash.update s (take n (drop offset file))))
  ]

  after_part :
      (r : Result S) (next : ℕ) (ps : List PartHeader) (w : W)
      → ((t : S)
          → hash_parts hash read t next ps w ≡ some (hash.update t (payload file next ps), w))
      → (elim (behind next r) as (λ _. W → Option (Result S × W)) [
        | ok x ↦ λ w'. hash_parts hash read x.0 x.1 ps w'
        | err e ↦ λ w'. some (err e, w')
      ])
          w
        ≡ some ((r >>= λ t. hash.update t (payload file next ps)), w)
  after_part (ok t) next ps w h = h t
  after_part (err e) next ps w h = refl

  hash_parts-bytes :
      (s : S) (offset : ℕ) (ps : List PartHeader) (w : W)
      → payload_end offset ps ≤ length file
      → hash_parts hash read s offset ps w ≡ some (hash.update s (payload file offset ps), w)
  unfolding hash_parts payload payload_end
  hash_parts-bytes s offset [] w fits = rw (streaming.update-nil s) refl
  hash_parts-bytes s offset (p ∷ ps) w fits = elim (Bool-cases (p.id == 0)) [
    | inl free ↦ rw (hash_parts, free) (hash_parts-bytes s offset ps w (ground arith))
    | inr live ↦
        let next : ℕ = offset + part_size p in
        let fits' : payload_end next ps ≤ length file = ground arith in
        elim (Bool-cases (bit_and p.flags flag_exclude_from_hash == 0)) [
          | inr excluded ↦ rw (hash_parts, live, excluded) (hash_parts-bytes s next ps w fits')
          | inl hashed ↦
              let here = take (part_size p) (drop offset file) in
              rw
                (
                  hash_parts,
                  live,
                  hashed,
                  chunk_loop-bytes (part_size p / 4096 + 1) s offset (part_size p) w (omega arith)
                      (omega (arith, payload_end-ge next ps, fits')),
                  streaming.update-append s here (payload file next ps),
                )
                (after_part (hash.update s here) next ps w
                  (λ t. hash_parts-bytes t next ps w fits'))
        ]
  ]

  -- If feeding bytes in pieces to the hash is feeding them at once, and the callback reads a file that
  -- reaches to the end of the last part, the payload hash is the hash of the bytes of all parts in use that
  -- are not excluded, one behind the other; an error of a hash function is returned. Every part is read to
  -- its end: the fuel is enough.
  pub payload_hash :
      (h : Header) (data_offset size : ℕ) (w : W)
      → payload_end data_offset h.parts ≤ length file
      → compute_payload_hash hash read h data_offset size w
        ≡ some (
          (hash.init h.hash_kind >>= λ s.
              hash.update s (payload file data_offset h.parts) >>= λ t. hash.final t size),
          w,
        )
  unfolding compute_payload_hash
  payload_hash h data_offset size w fits = start (hash.init h.hash_kind)
    where
      end :
          (r : Result S)
          → (elim r as (λ _. W → Option (Result (List ℕ) × W)) [
            | ok t ↦ λ w'. some (hash.final t size, w')
            | err e ↦ λ w'. some (err e, w')
          ])
              w
            ≡ some ((r >>= λ t. hash.final t size), w)
      end (ok t) = refl
      end (err e) = refl

      start :
          (r : Result S)
          → (elim r as (λ _. Option (Result (List ℕ) × W)) [
            | err e ↦ some (err e, w)
            | ok s ↦ elim (hash_parts hash read s data_offset h.parts w) [
              | none ↦ none
              | some (err e, w') ↦ some (err e, w')
              | some (ok s', w') ↦ some (hash.final s' size, w')
            ]
          ])
            ≡ some (
              (r >>= λ s.
                  hash.update s (payload file data_offset h.parts) >>= λ t. hash.final t size),
              w,
            )
      start (err e) = refl
      start (ok s) =
          rw (hash_parts-bytes s data_offset h.parts w fits)
            (end (hash.update s (payload file data_offset h.parts)))
