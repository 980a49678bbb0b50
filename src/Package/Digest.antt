-- ===== src/Package/Digest.antt =====
-- lib/pkg_verify.c, `bpak_pkg_part_sha256`: the SHA-256 of a part's data.
use bpak.Prelude.{
  ℕ, zero, suc, ◌+◌, ◌-◌, ◌≤◌, ◌≡◌, refl, sym, ap, ap₂, subst, ◌∙◌, min, true, false, Bool-cases,
  inl, inr, Option, none, some, List, ◌++◌, ◌==◌, if◌then◌else◌, length, get_or, take, drop,
  take-add, drop-add, length-take, length-drop, arith,
}
use bpak.Run.{Rc, Run, done, fail, pure, lift, raise, out_of_fuel, ◌>>=◌}
use bpak.Status
use bpak.Status.{Result, ok, err, seek_error, read_error}
use bpak.Header.{Header, no_part, hash_sha256, part_size_wo_pad}
use bpak.Part.{get_part, part_offset}
use bpak.Payload.{Hash, chunk_buffer_length}
use bpak.Payload.Meaning.{IsStreaming}
use bpak.Package.{Stdio}
use bpak.Package.Stream.{IsStream}

module _ {W S : Type 0} (fp : Stdio W) (hash : Hash S) where
  -- Behind `fread`: the test, the update and on.
  unfoldable pub digest_chunk : ℕ → S → (S → Run W S) → List ℕ × W → Option (Rc S × W)
  unfolding raise
  digest_chunk chunk_len s next (chunk, w1) =
      elim (length chunk == chunk_len) as (λ _. Option (Rc S × W)) [
        | false ↦ raise read_error w1
        | true ↦ (lift (hash.update s chunk) >>= next) w1
      ]

  -- The loop; a round takes a byte at least.
  unfoldable pub digest_loop : ℕ → ℕ → S → Run W S
  unfolding digest_chunk
  digest_loop zero bytes_to_hash s w = (if bytes_to_hash == 0 then pure s else out_of_fuel) w
  digest_loop (suc rounds) bytes_to_hash s w =
      let chunk_len = min bytes_to_hash chunk_buffer_length in
      elim (bytes_to_hash == 0) as (λ _. Option (Rc S × W)) [
        | true ↦ pure s w
        | false ↦
            digest_chunk chunk_len s (digest_loop rounds (bytes_to_hash - chunk_len))
              (fp.fread chunk_len w)
      ]

  -- Behind the initialisation of the hash.
  unfoldable pub digest_part : ℕ → ℕ → ℕ → S → Run W (List ℕ)
  unfolding digest_loop raise
  digest_part offset size hash_buffer_length s w =
      let (found, w1) = fp.fseek offset w in
      elim found as (λ _. Option (Rc (List ℕ) × W)) [
        | false ↦ raise seek_error w1
        | true ↦ (digest_loop size size s >>= λ t. lift (hash.final t hash_buffer_length)) w1
      ]

  unfoldable pub part_sha256 : Header → ℕ → ℕ → Run W (List ℕ)
  unfolding digest_part raise
  part_sha256 h hash_buffer_length part_id = elim (get_part h part_id) as (λ _. Run W (List ℕ)) [
    | err e ↦ raise e
    | ok i ↦
        let p = get_or h.parts i no_part in
        lift (hash.init hash_sha256)
        >>= digest_part (part_offset h p) (part_size_wo_pad p) hash_buffer_length
  ]

module _ {W S : Type 0} (fp : Stdio W) (hash : Hash S) (streaming : IsStreaming hash)
    (bytes : W → List ℕ) (at : W → ℕ) (reader : IsStream {O = Unit {0}} fp bytes at (λ w. tt)) where
  -- A run that comes to the result `r`, whatever the state behind it.
  abbrev pub Gives : {A : Type 0} → Result A → Option (Rc A × W) → Type 0
  Gives r run = (w' : W) × (run ≡ lift r w')

  Gives-bind :
      {A B : Type 0} (r : Result A) (g : A → Result B) (k : A → Run W B) (w : W)
      → ((a : A) → Gives (g a) (k a w))
      → Gives (Status.◌>>=◌ r g) ((lift r >>= k) w)
  unfolding lift
  Gives-bind (ok a) g k w h = h a
  Gives-bind (err e) g k w h = (w, refl)

  Gives-map :
      {A B : Type 0} (r : Result A) (g : A → Result B) (run : Option (Rc A × W))
      → Gives r run
      → Gives (Status.◌>>=◌ r g) (elim run [
        | none ↦ none
        | some (done a, w') ↦ lift (g a) w'
        | some (fail rc, w') ↦ some (fail rc, w')
      ])
  unfolding lift
  Gives-map (ok a) g run (w', e) = rw e (w', refl)
  Gives-map (err x) g run (w', e) = rw e (w', refl)

  digest_loop-Gives :
      (rounds n : ℕ) (s : S) (w : W)
      → n ≤ rounds
      → at w + n ≤ length (bytes w)
      → Gives (hash.update s (take n (drop (at w) (bytes w)))) (digest_loop fp hash rounds n s w)
  unfolding digest_loop lift
  digest_loop-Gives zero n s w le enough =
      let none : n ≡ 0 = omega arith in
      rw none (w, ap (λ r. lift r w) (sym (streaming.update-nil s)))
  digest_loop-Gives (suc rounds) n s w le enough = elim (Bool-cases (n == 0)) [
    | inl last ↦
        let none : n ≡ 0 = ground arith in
        rw (last, digest_loop)
          (
            w,
            ap (λ r. lift r w)
                (sym (streaming.update-nil s)
                  ∙ ap (λ k. hash.update s (take k (drop (at w) (bytes w)))) (sym none)),
          )
    | inr left ↦
        let c = min n chunk_buffer_length in
        let got = fp.fread c w in
        let rest = drop (at w) (bytes w) in
        let (same, kept, moved, _) = reader.read c w in
        let full : length (take c rest) ≡ c =
          omega (arith, length-take {0} c rest, length-drop {0} (at w) (bytes w)) in
        let read : (length got.0 == c) ≡ true = ground (arith, ap length same) in
        let next : (t : S)
            → Gives (hash.update t (take (n - c) (drop c rest)))
                (digest_loop fp hash rounds (n - c) t got.1) =
          λ t.
            subst
              (λ xs.
                Gives (hash.update t (take (n - c) xs))
                  (digest_loop fp hash rounds (n - c) t got.1))
              (ap₂ (λ k xs. drop k xs) (moved ∙ ap (λ k. at w + k) full) kept
                ∙ sym (drop-add (at w) c (bytes w)))
              (digest_loop-Gives rounds (n - c) t got.1 (omega arith)
                (omega (arith, moved, full, ap length kept))) in
        let parts : hash.update s (take n rest)
            ≡ Status.◌>>=◌ (hash.update s got.0) (λ t. hash.update t (take (n - c) (drop c rest))) =
          ap (hash.update s) (
            ap (λ k. take k rest) (omega arith)
            ∙ take-add c (n - c) rest
            ∙ ap (λ xs. xs ++ take (n - c) (drop c rest)) (sym same))
          ∙ streaming.update-append s got.0 (take (n - c) (drop c rest)) in
        rw (left, digest_loop)
          (rw (read, digest_chunk)
            (subst
              (λ r.
                Gives r ((lift (hash.update s got.0) >>= digest_loop fp hash rounds (n - c)) got.1))
              (sym parts)
              (Gives-bind (hash.update s got.0) (λ t. hash.update t (take (n - c) (drop c rest)))
                (digest_loop fp hash rounds (n - c)) got.1 next)))
  ]

  -- With a streaming hash, if the package's file reaches to the end of the part's data, the result is the hash
  -- of the part's data, without its padding; an error of a hash function is returned.
  pub part_sha256_lem :
      (h : Header) (hash_buffer_length part_id i : ℕ) (w : W)
      → get_part h part_id ≡ ok i
      → part_offset h (get_or h.parts i no_part) + part_size_wo_pad (get_or h.parts i no_part)
        ≤ length (bytes w)
      → (w' : W) × (part_sha256 fp hash h hash_buffer_length part_id w
          ≡ lift
              (Status.◌>>=◌ (hash.init hash_sha256) (λ s.
                Status.◌>>=◌
                  (hash.update s (
                    take
                      (part_size_wo_pad (get_or h.parts i no_part))
                      (drop (part_offset h (get_or h.parts i no_part)) (bytes w))))
                  (λ t. hash.final t hash_buffer_length)))
              w')
  unfolding part_sha256 digest_part
  part_sha256_lem h room part_id i w found inside =
      let p = get_or h.parts i no_part in
      let n = part_size_wo_pad p in
      let w1 = (fp.fseek (part_offset h p) w).1 in
      let (there, kept, moved, _) = reader.seek (part_offset h p) w in
      rw (found, part_sha256)
        (Gives-bind (hash.init hash_sha256)
          (λ s.
            Status.◌>>=◌ (hash.update s (take n (drop (part_offset h p) (bytes w))))
              (λ t. hash.final t room))
          (digest_part fp hash (part_offset h p) n room) w
          (λ s.
            rw (there, digest_part)
              (subst
                (λ xs.
                  Gives (Status.◌>>=◌ (hash.update s (take n xs)) (λ t. hash.final t room))
                    ((digest_loop fp hash n n s >>= λ t. lift (hash.final t room)) w1))
                (ap₂ (λ k xs. drop k xs) moved kept)
                (Gives-map (hash.update s (take n (drop (at w1) (bytes w1))))
                  (λ t. hash.final t room) (digest_loop fp hash n n s w1)
                  (digest_loop-Gives n n s w1 (omega arith)
                    (omega (arith, moved, ap length kept, inside)))))))
