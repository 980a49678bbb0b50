-- ===== src/Bsdiff/Segment/Writes.antt =====
-- What `write_diff_extra_and_adjustment` puts out without compression, through a callback that appends.
use native.Mathlib.Omega.{arith}
use bpak.Prelude.{
  ℕ, zero, suc, ◌+◌, ◌-◌, ◌%◌, ◌≤◌, min, ◌≡◌, refl, sym, ap, ap₂, subst, ◌∙◌, List, [], ◌∷◌, ◌++◌,
  Bool, true, false, ◌==◌, Option, some, if◌then◌else◌, length, take, drop, length-append,
  append-nil, append_assoc,
}
use bpak.Int.{ℤ, pos, ◌+ℤ◌}
use bpak.Run.{Rc, done, Run, pure, raise, expect, ◌>>=◌, ◌>>◌}
use bpak.Status.{write_error}
use bpak.Patch.Stream.{compression_none}
use bpak.Patch.Pieces.{IsAppend}
use bpak.Bsdiff.{Diff}
use bpak.Bsdiff.Compress.{Compressor, Output, put, write_by, compressor_write}
use bpak.Bsdiff.Segment.{
  byte, Segment, diff_bytes, extra_size, control, next_segment, write_diff, write_extra,
  write_segment,
}

-- The context behind `n` bytes of output.
abbrev pub grown : {C : Type 0} → Diff C → ℕ → Diff C
grown d n = record d { output_pos = d.output_pos + n }

-- The context and the output fit, and nothing is compressed.
pub record IsReady {C W : Type 0} (base : ℤ) (contents : W → List ℕ) (d : Diff C) (w : W)
    : Type 0 where
  pub plain : d.compression ≡ compression_none
  pub based : d.output_offset ≡ base
  pub counted : d.output_pos ≡ length (contents w)

module _ {C : Type 0} where
  pub length-diff_bytes : (d : Diff C) (n i : ℕ) → length (diff_bytes d n i) ≡ n
  unfolding diff_bytes
  length-diff_bytes d zero i = refl
  length-diff_bytes d (suc n) i = ap suc (length-diff_bytes d n (i + 1))

  diff_bytes-add :
      (d : Diff C) (m n i : ℕ) → diff_bytes d m i ++ diff_bytes d n (i + m) ≡ diff_bytes d (m + n) i
  unfolding diff_bytes
  diff_bytes-add d zero n i =
      let e : i + 0 ≡ i = omega arith in let e' : 0 + n ≡ n = omega arith in rw (e, e') refl
  diff_bytes-add d (suc m) n i =
      let e : i + suc m ≡ i + 1 + m = omega arith in
      let e' : suc m + n ≡ suc (m + n) = omega arith in
      rw (e, e')
        (ap
          (λ t.
            ((byte d.new_data (d.last_scan + i) + 256 - byte d.origin_data (d.last_pos + i)) % 256)
            ∷ t)
          (diff_bytes-add d m n (i + 1)))

  -- The bytes of a record.
  abbrev pub record_bytes : Diff C → Segment → List ℕ
  record_bytes d g =
      control d g
      ++ (diff_bytes d g.diff_size 0
          ++ take (extra_size d g) (drop (d.last_scan + g.diff_size) d.new_data))

module _ {C W : Type 0} (compress : Compressor C) (write_output : Output W) (base : ℤ)
    (contents : W → List ℕ) (writer : IsAppend write_output base contents) where
  -- `m` puts out these bytes, and leaves the context `d'`.
  abbrev pub Puts : Run (Diff C × W) (Unit {0}) → Diff C → W → List ℕ → Diff C → Type 0
  Puts m d w bytes d' =
      (w' : W) × (m (d, w) ≡ some (done tt, (d', w'))) × (contents w' ≡ contents w ++ bytes)

  pub then_Puts :
      (m k : Run (Diff C × W) (Unit {0})) (d d' d'' : Diff C) (w : W) (xs ys : List ℕ)
      → Puts m d w xs d'
      → ((w' : W) → contents w' ≡ contents w ++ xs → Puts k d' w' ys d'')
      → Puts (m >> k) d w (xs ++ ys) d''
  then_Puts m k d d' d'' w xs ys (w', run, wrote) next =
      let (w'', run', put') = next w' wrote in
      (w'', rw (run, ◌>>=◌) run', put' ∙ ap (λ t. t ++ ys) wrote ∙ append_assoc (contents w) xs ys)

  pub Ready-grown :
      (d : Diff C) (w w' : W) (bytes : List ℕ)
      → IsReady base contents d w
      → contents w' ≡ contents w ++ bytes
      → IsReady base contents (grown d (length bytes)) w'
  Ready-grown d w w' bytes r e = record {
    plain = r.plain;
    based = r.based;
    counted = omega (arith, r.counted, ap length e, length-append {0} (contents w) bytes);
  }

  put-Puts :
      (d : Diff C) (w : W) (bytes : List ℕ)
      → IsReady base contents d w
      → Puts (put compress write_output bytes) d w bytes (grown d (length bytes))
  unfolding put expect
  put-Puts d w bytes r =
      let (w', write, added) = writer.append w bytes in
      let same : (length bytes == length bytes) ≡ true = ground arith in
      (
        w',
        ap checked (ap₂ (λ o n. write_output (o +ℤ pos n) bytes w) r.based r.counted ∙ write)
            ∙ ap (λ b. passed b (d, w')) same,
        added,
      )
    where
      step : Unit {0} → Run (Diff C × W) (Unit {0})
      step _ (d, w) = some (done tt, (record d { output_pos = d.output_pos + length bytes }, w))

      passed : Bool → Run (Diff C × W) (Unit {0})
      passed b = (if b then pure tt else raise write_error) >>= step

      checked : ℤ × W → Option (Rc (Unit {0}) × (Diff C × W))
      checked n = (expect n.0 (length bytes) write_error >>= step) (d, n.1)

  compressor_write-Puts :
      (fuel : ℕ) (d : Diff C) (w : W) (bytes : List ℕ)
      → IsReady base contents d w
      → Puts (compressor_write compress write_output fuel bytes) d w bytes (grown d (length bytes))
  unfolding compressor_write write_by
  compressor_write-Puts fuel d w bytes r =
      let (w', run, added) = put-Puts d w bytes r in
      (w', ap (λ c. write_by compress write_output c fuel bytes (d, w)) r.plain ∙ run, added)

  Puts-eq :
      (m : Run (Diff C × W) (Unit {0})) (d d' d'' : Diff C) (w : W) (xs ys : List ℕ)
      → Puts m d w xs d'
      → xs ≡ ys
      → d' ≡ d''
      → Puts m d w ys d''
  Puts-eq m d d' d'' w xs ys (w', run, wrote) e e' =
      (w', run ∙ ap (λ t. some (done tt, (t, w'))) e', wrote ∙ ap (λ t. contents w ++ t) e)

  nothing-Puts : (d : Diff C) (w : W) → Puts (pure tt) d w [] (grown d 0)
  nothing-Puts d w =
      let same : d.output_pos ≡ d.output_pos + 0 = omega arith in
      (
        w,
        ap (λ n. some (done tt, (record d { output_pos = n }, w))) same,
        sym (append-nil (contents w)),
      )

  grown-grown : (d : Diff C) (a b n : ℕ) → a + b ≡ n → grown (grown d a) b ≡ grown d n
  grown-grown d a b n e =
      let sum : d.output_pos + a + b ≡ d.output_pos + n = omega arith in
      ap (λ n. record d { output_pos = n }) sum

  write_diff-step :
      (rounds fuel : ℕ) (d0 : Diff C) (n i : ℕ)
      → write_diff compress write_output (suc rounds) fuel d0 (suc n) i ≡ (
          compressor_write compress write_output fuel (diff_bytes d0 (min (suc n) 4096) i)
          >> write_diff compress write_output rounds fuel d0
              (suc n - min (suc n) 4096)
              (i + min (suc n) 4096))
  unfolding write_diff
  write_diff-step rounds fuel d0 n i =
      let more : (suc n == 0) ≡ false = ground arith in rw (more, write_diff) refl

  write_diff-Puts :
      (rounds fuel : ℕ) (d0 : Diff C) (n i : ℕ) (d : Diff C) (w : W)
      → IsReady base contents d w
      → n ≤ rounds
      → Puts
          (write_diff compress write_output rounds fuel d0 n i)
          d
          w
          (diff_bytes d0 n i)
          (grown d n)
  unfolding write_diff diff_bytes
  write_diff-Puts zero fuel d0 zero i d w r h = nothing-Puts d w
  write_diff-Puts zero fuel d0 (suc n) i d w r h = absurd (omega arith)
  write_diff-Puts (suc rounds) fuel d0 zero i d w r h = nothing-Puts d w
  write_diff-Puts (suc rounds) fuel d0 (suc n) i d w r h =
      let c : ℕ = min (suc n) 4096 in
      let more : suc n - c ≤ rounds = omega arith in
      let sum : c + (suc n - c) ≡ suc n = omega arith in
      let len = length-diff_bytes d0 c i in
      let chunk = diff_bytes d0 c i in
      rw (write_diff-step rounds fuel d0 n i) (
        Puts-eq
          (compressor_write compress write_output fuel chunk
            >> write_diff compress write_output rounds fuel d0 (suc n - c) (i + c))
          d (grown (grown d (length chunk)) (suc n - c)) (grown d (suc n)) w
          (chunk ++ diff_bytes d0 (suc n - c) (i + c)) (diff_bytes d0 (suc n) i)
          (then_Puts (compressor_write compress write_output fuel chunk)
            (write_diff compress write_output rounds fuel d0 (suc n - c) (i + c)) d
            (grown d (length chunk)) (grown (grown d (length chunk)) (suc n - c)) w chunk
            (diff_bytes d0 (suc n - c) (i + c)) (compressor_write-Puts fuel d w chunk r)
            (λ w' wrote.
              write_diff-Puts rounds fuel d0 (suc n - c) (i + c) (grown d (length chunk)) w'
                (Ready-grown d w w' chunk r wrote) more))
          (diff_bytes-add d0 c (suc n - c) i ∙ ap (λ k. diff_bytes d0 k i) sum)
          (grown-grown d (length chunk) (suc n - c) (suc n) (omega (arith, len))))

  write_extra-Puts :
      (fuel : ℕ) (extra : List ℕ) (d : Diff C) (w : W)
      → IsReady base contents d w
      → Puts (write_extra compress write_output fuel extra) d w extra (grown d (length extra))
  unfolding write_extra
  write_extra-Puts fuel [] d w r = nothing-Puts d w
  write_extra-Puts fuel (x ∷ extra) d w r =
      let some : (suc (length extra) == 0) ≡ false = ground arith in
      rw (some, write_extra) (compressor_write-Puts fuel d w (x ∷ extra) r)

  put_segment : ℕ → Diff C → Segment → Run (Diff C × W) (Unit {0})
  put_segment fuel d g (d', w) = some (done tt, (next_segment g d', w))

  write_segment-steps :
      (fuel : ℕ) (d : Diff C) (g : Segment)
      → write_segment compress write_output fuel d g ≡ (
          compressor_write compress write_output fuel (control d g)
          >> (write_diff compress write_output g.diff_size fuel d g.diff_size 0
              >> (write_extra compress write_output fuel
                    (take (extra_size d g) (drop (d.last_scan + g.diff_size) d.new_data))
                  >> put_segment fuel d g)))
  unfolding write_segment put_segment
  write_segment-steps fuel d g = refl

  Puts-next :
      (fuel : ℕ) (g : Segment) (d d' : Diff C) (w : W)
      → Puts (put_segment fuel d g) d' w [] (next_segment g d')
  unfolding put_segment
  Puts-next fuel g d d' w = (w, refl, sym (append-nil (contents w)))

  pub write_segment-Puts :
      (fuel : ℕ) (g : Segment) (d : Diff C) (w : W)
      → IsReady base contents d w
      → Puts
          (write_segment compress write_output fuel d g)
          d
          w
          (record_bytes d g)
          (next_segment g (grown d (length (record_bytes d g))))
  write_segment-Puts fuel g d w r =
      let head = control d g in
      let diff = diff_bytes d g.diff_size 0 in
      let extra = take (extra_size d g) (drop (d.last_scan + g.diff_size) d.new_data) in
      let put_extra = write_extra compress write_output fuel extra in
      let put_diff = write_diff compress write_output g.diff_size fuel d g.diff_size 0 in
      let finish = put_segment fuel d g in
      let d1 = grown d (length head) in
      let d2 = grown d1 g.diff_size in
      let d3 = grown d2 (length extra) in
      let total : length (record_bytes d g) ≡ length head + g.diff_size + length extra = omega (
        arith,
        length-append {0} head (diff ++ extra),
        length-append {0} diff extra,
        length-diff_bytes d g.diff_size 0,
      ) in
      let sum : d.output_pos + length head + g.diff_size + length extra
          ≡ d.output_pos + length (record_bytes d g) =
        omega (arith, total) in
      let end : d3 ≡ grown d (length (record_bytes d g)) =
        ap (λ n. record d { output_pos = n }) sum in
      rw (write_segment-steps fuel d g) (
        Puts-eq
          (compressor_write compress write_output fuel head >> (put_diff >> (put_extra >> finish)))
          d (next_segment g d3) (next_segment g (grown d (length (record_bytes d g)))) w
          (head ++ (diff ++ (extra ++ []))) (record_bytes d g)
          (then_Puts (compressor_write compress write_output fuel head)
            (put_diff >> (put_extra >> finish)) d d1 (next_segment g d3) w head
            (diff ++ (extra ++ [])) (compressor_write-Puts fuel d w head r)
            (λ w1 e1.
              let r1 = Ready-grown d w w1 head r e1 in
              then_Puts put_diff (put_extra >> finish) d1 d2 (next_segment g d3) w1 diff
                (extra ++ [])
                (write_diff-Puts g.diff_size fuel d g.diff_size 0 d1 w1 r1 (omega arith))
                (λ w2 e2.
                  let r2 : IsReady base contents d2 w2 =
                    subst (λ n. IsReady base contents (grown d1 n) w2)
                      (length-diff_bytes d g.diff_size 0) (Ready-grown d1 w1 w2 diff r1 e2) in
                  then_Puts put_extra finish d2 d3 (next_segment g d3) w2 extra []
                    (write_extra-Puts fuel extra d2 w2 r2) (λ w3 e3. Puts-next fuel g d d3 w3))))
          (ap (λ t. head ++ (diff ++ t)) (append-nil extra)) (ap (next_segment g) end))
