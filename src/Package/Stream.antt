-- ===== src/Package/Stream.antt =====
-- Streams of the package functions: the loop that copies from one to another (lib/pkg.c,
-- lib/transport_encode.c), and what a stream on a file does.
use bpak.Prelude.{
  ℕ, zero, suc, ◌+◌, ◌-◌, ◌≤◌, ◌<◌, ◌≡◌, refl, sym, ap, ap₂, ◌∙◌, min, true, false, Bool-cases, inl,
  inr, Option, some, List, [], ◌∷◌, ◌++◌, ◌==◌, if◌then◌else◌, length, take, drop, take-add,
  drop-add, drop-append, take-append, length-take, length-drop, length-append, append_assoc,
  append-nil, drop-nil, arith,
}
use bpak.Run.{Rc, Run, done, pure, raise, out_of_fuel}
use bpak.Status.{read_error, write_error}
use bpak.Package.{Stdio}

module _ {W : Type 0} (source dest : Stdio W) where
  -- Behind `fread`: the tests and `fwrite`, and on.
  unfoldable pub copy_chunk : ℕ → Run W (Unit {0}) → List ℕ × W → Option (Rc (Unit {0}) × W)
  unfolding raise
  copy_chunk chunk next (bytes, w1) =
      elim (length bytes == chunk) as (λ _. Option (Rc (Unit {0}) × W)) [
        | false ↦ raise read_error w1
        | true ↦
            let (written, w2) = dest.fwrite bytes w1 in
            elim (written == chunk) as (λ _. Option (Rc (Unit {0}) × W)) [
              | false ↦ raise write_error w2
              | true ↦ next w2
            ]
      ]

  -- The loop over `bytes_to_copy` bytes with a buffer of `size`. A round takes a byte at least.
  unfoldable pub copy_loop : ℕ → ℕ → ℕ → Run W (Unit {0})
  unfolding copy_chunk
  copy_loop size zero bytes_to_copy w = (if bytes_to_copy == 0 then pure tt else out_of_fuel) w
  copy_loop size (suc rounds) bytes_to_copy w =
      let chunk = min bytes_to_copy size in
      elim (bytes_to_copy == 0) as (λ _. Option (Rc (Unit {0}) × W)) [
        | true ↦ pure tt w
        | false ↦
            copy_chunk chunk (copy_loop size rounds (bytes_to_copy - chunk)) (source.fread chunk w)
      ]

-- The bytes `xs` in a file from `k` on; a gap in front of them is filled with zeroes.
unfoldable pub place : ℕ → List ℕ → List ℕ → List ℕ
place zero xs bs = xs ++ drop (length xs) bs
place (suc k) xs [] = 0 ∷ place k xs []
place (suc k) xs (b ∷ bs) = b ∷ place k xs bs

-- A write of no bytes does not make a file longer.
unfoldable pub place_at : ℕ → List ℕ → List ℕ → List ℕ
unfolding place
place_at k [] bs = bs
place_at k (x ∷ xs) bs = place k (x ∷ xs) bs

-- What a stream on a file does: `bytes` is the file, `at` the position, and `other` is not touched.
pub record IsStream {W O : Type 0} (fp : Stdio W) (bytes : W → List ℕ) (at : W → ℕ) (other : W → O)
    : Type 0 where
  pub seek :
      (o : ℕ) (w : W)
      → ((fp.fseek o w).0 ≡ true)
        × (bytes (fp.fseek o w).1 ≡ bytes w)
        × (at (fp.fseek o w).1 ≡ o)
        × (other (fp.fseek o w).1 ≡ other w)
  pub read :
      (n : ℕ) (w : W)
      → ((fp.fread n w).0 ≡ take n (drop (at w) (bytes w)))
        × (bytes (fp.fread n w).1 ≡ bytes w)
        × (at (fp.fread n w).1 ≡ at w + length (take n (drop (at w) (bytes w))))
        × (other (fp.fread n w).1 ≡ other w)
  pub write :
      (xs : List ℕ) (w : W)
      → ((fp.fwrite xs w).0 ≡ length xs)
        × (bytes (fp.fwrite xs w).1 ≡ place_at (at w) xs (bytes w))
        × (at (fp.fwrite xs w).1 ≡ at w + length xs)
        × (other (fp.fwrite xs w).1 ≡ other w)

place-append :
    (xs ys bs : List ℕ) → place (length xs) ys (xs ++ bs) ≡ xs ++ (ys ++ drop (length ys) bs)
unfolding place
place-append [] ys bs = refl
place-append (x ∷ xs) ys bs = ap (λ t. x ∷ t) (place-append xs ys bs)

place-place :
    (k : ℕ) (xs ys bs : List ℕ) → place (k + length xs) ys (place k xs bs) ≡ place k (xs ++ ys) bs
unfolding place
place-place zero xs ys bs =
    let sum : 0 + length xs ≡ length xs = omega arith in
    ap (λ n. place n ys (xs ++ drop (length xs) bs)) sum
    ∙ place-append xs ys (drop (length xs) bs)
    ∙ ap (λ t. xs ++ (ys ++ t))
        (drop-add (length xs) (length ys) bs ∙ ap (λ n. drop n bs) (sym (length-append xs ys)))
    ∙ sym (append_assoc xs ys (drop (length (xs ++ ys)) bs))
place-place (suc k) xs ys [] =
    let sum : suc k + length xs ≡ suc (k + length xs) = omega arith in
    rw sum (ap (λ t. 0 ∷ t) (place-place k xs ys []))
place-place (suc k) xs ys (b ∷ bs) =
    let sum : suc k + length xs ≡ suc (k + length xs) = omega arith in
    rw sum (ap (λ t. b ∷ t) (place-place k xs ys bs))

pub place_at-place_at :
    (k : ℕ) (xs ys bs : List ℕ)
    → place_at (k + length xs) ys (place_at k xs bs) ≡ place_at k (xs ++ ys) bs
unfolding place_at
place_at-place_at k [] ys bs = let e : k + 0 ≡ k = omega arith in rw e refl
place_at-place_at k (x ∷ xs) [] bs = ap (λ t. place k (x ∷ t) bs) (sym (append-nil xs))
place_at-place_at k (x ∷ xs) (y ∷ ys) bs = place-place k (x ∷ xs) (y ∷ ys) bs

-- Reading back what was written, and what stands in front of it and behind it.
take-place : (k : ℕ) (xs bs : List ℕ) → take (length xs) (drop k (place k xs bs)) ≡ xs
unfolding place
take-place zero xs bs = take-append xs (drop (length xs) bs)
take-place (suc k) xs [] = take-place k xs []
take-place (suc k) xs (b ∷ bs) = take-place k xs bs

pub take-place_at : (k : ℕ) (xs bs : List ℕ) → take (length xs) (drop k (place_at k xs bs)) ≡ xs
unfolding place_at
take-place_at k [] bs = refl
take-place_at k (x ∷ xs) bs = take-place k (x ∷ xs) bs

place_front :
    (k i n : ℕ) (xs bs : List ℕ)
    → i + n ≤ k
    → i + n ≤ length bs
    → take n (drop i (place k xs bs)) ≡ take n (drop i bs)
unfolding place
place_front zero i n xs bs h le = let none : n ≡ 0 = omega arith in rw none refl
place_front (suc k) i n xs [] h le = let none : n ≡ 0 = omega arith in rw none refl
place_front (suc k) zero zero xs (b ∷ bs) h le = refl
place_front (suc k) zero (suc n) xs (b ∷ bs) h le =
    ap (λ t. b ∷ t) (place_front k 0 n xs bs (omega arith) (omega arith))
place_front (suc k) (suc i) n xs (b ∷ bs) h le = place_front k i n xs bs (omega arith) (omega arith)

-- The bytes in front of a write, if it starts at or behind the end of what is read.
pub place_at_front :
    (k i n : ℕ) (xs bs : List ℕ)
    → i + n ≤ k
    → i + n ≤ length bs
    → take n (drop i (place_at k xs bs)) ≡ take n (drop i bs)
unfolding place_at
place_at_front k i n [] bs h le = refl
place_at_front k i n (x ∷ xs) bs h le = place_front k i n (x ∷ xs) bs h le

place_behind : (k i : ℕ) (xs bs : List ℕ) → k + length xs ≤ i → drop i (place k xs bs) ≡ drop i bs
unfolding place
place_behind zero i xs bs h =
    let sum : i ≡ length xs + (i - length xs) = omega arith in
    ap (λ n. drop n (xs ++ drop (length xs) bs)) sum
    ∙ sym (drop-add (length xs) (i - length xs) (xs ++ drop (length xs) bs))
    ∙ ap (drop (i - length xs)) (drop-append xs (drop (length xs) bs))
    ∙ drop-add (length xs) (i - length xs) bs
    ∙ ap (λ n. drop n bs) (sym sum)
place_behind (suc k) zero xs bs h = absurd (omega arith)
place_behind (suc k) (suc i) xs [] h = place_behind k i xs [] (omega arith) ∙ drop-nil i
place_behind (suc k) (suc i) xs (b ∷ bs) h = place_behind k i xs bs (omega arith)

-- The bytes behind a write.
pub place_at_behind :
    (k i : ℕ) (xs bs : List ℕ) → k + length xs ≤ i → drop i (place_at k xs bs) ≡ drop i bs
unfolding place_at
place_at_behind k i [] bs h = refl
place_at_behind k i (x ∷ xs) bs h = place_behind k i (x ∷ xs) bs h

module _ {W : Type 0} (source dest : Stdio W) (from to : W → List ℕ) (from_at to_at : W → ℕ)
    (reader : IsStream {O = List ℕ × ℕ} source from from_at (λ w. (to w, to_at w)))
    (writer : IsStream {O = List ℕ × ℕ} dest to to_at (λ w. (from w, from_at w))) where
  -- A run that has copied `n` bytes.
  abbrev pub Copied : ℕ → W → Option (Rc (Unit {0}) × W) → Type 0
  Copied n w r =
      (w' : W) × (r ≡ some (done tt, w'))
      × (from w' ≡ from w)
      × (to w' ≡ place_at (to_at w) (take n (drop (from_at w) (from w))) (to w))
      × (from_at w' ≡ from_at w + n)
      × (to_at w' ≡ to_at w + n)

  -- With as many rounds as bytes, the loop copies them if the source has them.
  pub copy_loop-Copied :
      (size rounds n : ℕ) (w : W)
      → 0 < size
      → n ≤ rounds
      → from_at w + n ≤ length (from w)
      → Copied n w (copy_loop source dest size rounds n w)
  unfolding copy_loop place_at
  copy_loop-Copied size zero n w s le enough =
      let none : n ≡ 0 = omega arith in rw none (w, refl, refl, refl, omega arith, omega arith)
  copy_loop-Copied size (suc rounds) n w s le enough = elim (Bool-cases (n == 0)) [
    | inl last ↦
        let none : n ≡ 0 = ground arith in
        rw (last, copy_loop)
          (
            w,
            refl,
            refl,
            sym (ap (λ k. place_at (to_at w) (take k (drop (from_at w) (from w))) (to w)) none),
            omega arith,
            omega arith,
          )
    | inr left ↦
        let c = min n size in
        let got = source.fread c w in
        let (bytes, kept, moved, same) = reader.read c w in
        let put = dest.fwrite got.0 got.1 in
        let (count, written, on, same') = writer.write got.0 got.1 in
        let long : length got.0 ≡ c =
          ap length bytes
          ∙ omega (
            arith,
            length-take {0} c (drop (from_at w) (from w)),
            length-drop {0} (from_at w) (from w),
          ) in
        let full : (length got.0 == c) ≡ true = ground arith in
        let all : (put.0 == c) ≡ true = ground arith in
        let start : from_at put.1 ≡ from_at w + c =
          ap (λ o. o.1) same'
          ∙ moved
          ∙ omega (
            arith,
            length-take {0} c (drop (from_at w) (from w)),
            length-drop {0} (from_at w) (from w),
          ) in
        let file : from put.1 ≡ from w = ap (λ o. o.0) same' ∙ kept in
        let rest = drop (from_at w) (from w) in
        let behind : to_at put.1 ≡ to_at w + length got.0 =
          on ∙ ap (λ k. k + length got.0) (ap (λ o. o.1) same) in
        let before : to put.1 ≡ place_at (to_at w) got.0 (to w) =
          written ∙ ap₂ (λ k t. place_at k got.0 t) (ap (λ o. o.1) same) (ap (λ o. o.0) same) in
        let next : take (n - c) (drop (from_at put.1) (from put.1)) ≡ take (n - c) (drop c rest) =
          ap₂ (λ k t. take (n - c) (drop k t)) start file
          ∙ ap (take (n - c)) (sym (drop-add (from_at w) c (from w))) in
        let whole : got.0 ++ take (n - c) (drop c rest) ≡ take n rest =
          ap (λ t. t ++ take (n - c) (drop c rest)) bytes
          ∙ sym (take-add c (n - c) rest)
          ∙ ap (λ k. take k rest) (omega arith) in
        let (w', run, k1, k2, k3, k4) =
          copy_loop-Copied size rounds (n - c) put.1 s (ground arith)
            (omega (arith, start, ap length file)) in
        rw (left, copy_loop)
          (
            w',
            rw (full, copy_chunk) (rw (all, copy_chunk) run),
            k1 ∙ file,
            k2
                ∙ ap₂ (λ k t. place_at k t (to put.1)) behind next
                ∙ ap (place_at (to_at w + length got.0) (take (n - c) (drop c rest))) before
                ∙ place_at-place_at (to_at w) got.0 (take (n - c) (drop c rest)) (to w)
                ∙ ap (λ t. place_at (to_at w) t (to w)) whole,
            omega (arith, k3, start),
            omega (arith, k4, behind, long),
          )
  ]
