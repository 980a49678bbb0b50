-- ===== src/Verify/Compared.antt =====
-- lib/verify.c, `merkle_verify_wr`: the comparison of bytes with those of a file.
use bpak.Prelude.{
  ℕ, zero, suc, ◌+◌, ◌≤◌, ◌<◌, min, ◌≡◌, ◌≢◌, refl, sym, ap, ap₂, ◌∙◌, inl, inr, Bool, true, false,
  Bool-cases, List, [], ◌∷◌, ◌++◌, ltb, ltb→lt, ◌==◌, ==_iff, length, get_or, take, drop, take-add,
  drop-add, take-drop, splice, overlay, length-drop, nil_of_length, arith,
}
use bpak.Int.{ℤ, pos, pos_part, negsuc}
use bpak.Run.{minus}
use bpak.Status.{read_error, verify_fail}
use bpak.Patch.{ReadResult}
use bpak.Merkle.Walk.{TreeIo, hash_bytes}
use bpak.Verify.{is_same, verify_chunk, verify_loop}

-- A callback that reads a file of these bytes, from every state, and does not report the whole length where
-- the file ends before it. `pkg_read_payload` on a stream over a fixed file is one.
abbrev pub IsFile : {W : Type 0} → (ℕ → ℕ → W → ReadResult × W) → List ℕ → Type 0
IsFile {W} read file =
    (offset n : ℕ) (w : W)
    → (n ≤ length (drop offset file)
        → (read offset n w).0 ≡ record { count = pos n; bytes = take n (drop offset file) })
      × (length (drop offset file) < n → (read offset n w).0.count ≢ pos n)

-- A read that reports the whole length gives the bytes of the file, which are there.
pub read_whole :
    {W : Type 0} (read : ℕ → ℕ → W → ReadResult × W) (file : List ℕ)
    → IsFile read file
    → (offset n : ℕ) (w : W) → (read offset n w).0.count ≡ pos n
    → (n ≤ length (drop offset file)) × ((read offset n w).0.bytes ≡ take n (drop offset file))
read_whole read file reads offset n w whole =
    elim (Bool-cases (ltb (length (drop offset file)) n)) [
      | inl short ↦ absurd ((reads offset n w).1 (ltb→lt _ _ short) whole)
      | inr enough ↦
          let inside : n ≤ length (drop offset file) = ground arith in
          (inside, ap (λ (r : ReadResult). r.bytes) ((reads offset n w).0 inside))
    ]

-- Callbacks that write into the file, which is the state, where those of the check compare. A write stays
-- inside the file.
abbrev pub file_io : TreeIo (List ℕ)
file_io = record {
  wr = λ offset bytes file. (pos (length bytes), splice offset bytes file);
  rd = λ offset n file. (
    record { count = pos (length (take n (drop offset file))); bytes = take n (drop offset file) },
    file,
  );
}

pub is_same-eq : (xs ys : List ℕ) → is_same xs ys ≡ true → xs ≡ ys
unfolding is_same
is_same-eq [] [] h = refl
is_same-eq [] (y ∷ ys) h = absurd (cc h)
is_same-eq (x ∷ xs) [] h = absurd (cc h)
is_same-eq (x ∷ xs) (y ∷ ys) h = ground (arith, is_same-eq xs ys)

pub splice-same :
    (k : ℕ) (xs file : List ℕ) → take (length xs) (drop k file) ≡ xs → splice k xs file ≡ file
unfolding splice overlay
splice-same zero [] file h = refl
splice-same zero (x ∷ xs) [] h = refl
splice-same zero (x ∷ xs) (b ∷ file) h =
    ap₂ (λ a t. a ∷ t) (ap (λ t. get_or t 0 0) (sym h)) (splice-same zero xs file (ap (drop 1) h))
splice-same (suc k) xs [] h = refl
splice-same (suc k) xs (b ∷ file) h = ap (λ t. b ∷ t) (splice-same k xs file h)

module _ {W : Type 0} (read : ℕ → ℕ → W → ReadResult × W) (file : List ℕ)
    (reads : IsFile read file) where
  -- The bytes in two parts.
  split_same :
      (buf : List ℕ) (offset c : ℕ)
      → c ≤ length buf
      → take c buf ≡ take c (drop offset file)
      → take (length (drop c buf)) (drop (offset + c) file) ≡ drop c buf
      → take (length buf) (drop offset file) ≡ buf
  split_same buf offset c le first rest =
      let sum : length buf ≡ c + length (drop c buf) = omega (arith, length-drop {0} c buf) in
      ap (λ n. take n (drop offset file)) sum
      ∙ take-add c (length (drop c buf)) (drop offset file)
      ∙ ap₂ (λ s t. s ++ t) (sym first)
          (ap (take (length (drop c buf))) (drop-add offset c file) ∙ rest)
      ∙ take-drop c buf

  -- A round that goes on has compared all of its bytes.
  verify_chunk-same :
      (expected : List ℕ) (c : ℕ) (next : W → ℤ × W) (r : ReadResult) (w : W) (n : ℕ)
      → (verify_chunk read expected c next (r, w)).0 ≡ pos n
      → (r.count ≡ pos c) × (expected ≡ r.bytes) × ((next w).0 ≡ pos n)
  unfolding verify_chunk minus
  verify_chunk-same expected c next r w n = by_count r.count refl
    where
      compared : Bool → ℤ × W
      compared b = elim b as (λ _. ℤ × W) [ false ↦ (minus verify_fail, w) | true ↦ next w ]

      counted : Bool → ℤ × W
      counted b = elim b as (λ _. ℤ × W) [
        | false ↦ (minus read_error, w)
        | true ↦ compared (is_same expected r.bytes)
      ]

      by_bytes :
          (b : Bool)
          → is_same expected r.bytes ≡ b
          → (compared b).0 ≡ pos n
          → (expected ≡ r.bytes) × ((next w).0 ≡ pos n)
      by_bytes true e h = (is_same-eq expected r.bytes e, h)
      by_bytes false e h = absurd (cc h)

      by_length :
          (m : ℕ) (b : Bool)
          → r.count ≡ pos m
          → (m == c) ≡ b
          → (counted b).0 ≡ pos n
          → (r.count ≡ pos c) × (expected ≡ r.bytes) × ((next w).0 ≡ pos n)
      by_length m true e f h =
          let (same, next) = by_bytes (is_same expected r.bytes) refl h in
          (e ∙ ap pos ((==_iff m c).0 f), same, next)
      by_length m false e f h = absurd (cc h)

      by_count :
          (x : ℤ)
          → r.count ≡ x
          → (elim x as (λ _. ℤ × W) [ negsuc k ↦ (negsuc k, w) | pos m ↦ counted (m == c) ]).0
            ≡ pos n
          → (r.count ≡ pos c) × (expected ≡ r.bytes) × ((next w).0 ≡ pos n)
      by_count (negsuc k) e h = absurd (cc h)
      by_count (pos m) e h = by_length m (m == c) e refl h

  pub verify_loop-same :
      (rounds size offset : ℕ) (buf : List ℕ) (w : W) (n : ℕ)
      → length buf ≤ rounds
      → (verify_loop read rounds size offset buf w).0 ≡ pos n
      → (take (length buf) (drop offset file) ≡ buf) × (n ≡ size)
  unfolding verify_loop
  verify_loop-same zero size offset buf w n le = λ h.
      let nothing : buf ≡ [] = nil_of_length buf (omega arith) in
      rw nothing (refl, sym (ap pos_part h))
  verify_loop-same (suc rounds) size offset buf w n le =
      let c = min (length buf) hash_bytes in
      elim (Bool-cases (length buf == 0)) [
        | inl empty ↦
            rw (empty, verify_loop)
              (λ h. rw (nil_of_length buf (ground arith)) (refl, sym (ap pos_part h)))
        | inr left ↦
            rw (left, verify_loop)
              (λ h.
                let (whole, same, next) =
                  verify_chunk-same (take c buf) c
                    (verify_loop read rounds size (offset + c) (drop c buf)) (read offset c w).0
                    (read offset c w).1 n h in
                let (_, got) = read_whole read file reads offset c w whole in
                let (rest, count) =
                  verify_loop-same rounds size (offset + c) (drop c buf) (read offset c w).1 n
                    (omega (arith, length-drop {0} c buf)) next in
                (split_same buf offset c (omega arith) (same ∙ got) rest, count))
      ]
