-- ===== src/Patch/Apply.antt =====
-- `bspatch_write` on the records of a patch: what it writes is what the records mean.
use native.Mathlib.Omega.{arith}
use bpak.Prelude.{
  drop-append, drop-append_le, nil_of_length, take-all, take-append, take-append_le, ℕ, zero, suc,
  ◌+◌, ◌-◌, ◌*◌, min, ◌≤◌, ◌<◌, ◌≡◌, ◌≢◌, refl, sym, ap, ap₂, ◌∙◌, subst, inl, inr, Option, some,
  List, [], ◌∷◌, ◌++◌, ltb, ◌==◌, if◌then◌else◌, Bool, true, false, Bool-cases, length, take, drop,
  length-append, length-take, length-drop, drop-all, lt→ltb, append-nil, append_assoc,
}
use bpak.Int.{ℤ, pos, ◌+ℤ◌}
use bpak.Patch.{
  State, fill_ctrl_buf, apply_diff, apply_extra, error, Context, Io, Step, stop, add_bytes,
  next_block, step, write_loop, bspatch_write, dispatch, with_length, extra_step, diff_step,
  continue_if, is_positive,
}
use bpak.Patch.Pieces.{IsAppend, Piece, encode, stream, window, patched, AreApplicable}
use bpak.Patch.Records.{length-add_bytes, pos-add, split_diff, length-triple}
use bpak.Patch.Steps.{
  IsCountable, after, ctrl_step-eq, diff_done, diff_done-eq, diff_step-eq, diff_written,
  extra_step-eq, extra_written, fill_step-eq, fill_step-nil, filled, numbers, ruled,
  write_loop-after,
}

module _ {W : Type 0} (io : Io W) (origin : List ℕ) (origin_offset base : ℤ) (contents : W → List ℕ)
    (writer : IsAppend io.write_output base contents)
    (reads : (k n : ℕ) (w : W)
      → k + n ≤ length origin
      → io.read_origin (origin_offset +ℤ pos k) n w
        ≡ (record { count = pos n; bytes = take n (drop k origin) }, w)) where
  -- The call returns BPAK_OK and has written `out`.
  abbrev Applied : W → List ℕ → Option (Step W) → Type 0
  Applied w out r =
      (c' : Context) × (w' : W) × (r ≡ some (stop (pos 0) c' w'))
      × (contents w' ≡ contents w ++ out)
      × (c'.state ≢ error)
      × (c'.output_position ≡ pos (length (contents w')))

  -- The context in a state, with the origin's position.
  record At (s : State) (position : ℤ) (c : Context) (w : W) : Type 0 where
    state : c.state ≡ s
    from : c.origin_offset ≡ origin_offset
    to : c.output_offset ≡ base
    buffer : 0 < c.patch_buffer_length
    reading : c.origin_position ≡ position
    writing : c.output_position ≡ pos (length (contents w))
    ctrl : length c.ctrl_buf ≡ 24

  Applied-behind :
      (w w1 : W) (xs out : List ℕ) (r : Option (Step W))
      → contents w1 ≡ contents w ++ xs
      → Applied w1 out r
      → Applied w (xs ++ out) r
  Applied-behind w w1 xs out r e (c', w', run, wrote, fine, counted) =
      (c', w', run, wrote ∙ ap (λ t. t ++ out) e ∙ append_assoc (contents w) xs out, fine, counted)

  -- What the rest of a patch is to do at the start of a record.
  abbrev Next : ℤ → List ℕ → List ℕ → Type 0
  Next position rest out =
      (fuel : ℕ) (c : Context) (w : W)
      → At fill_ctrl_buf position c w
      → c.ctrl_buf_count ≡ 0
      → length rest < fuel
      → Applied w out (write_loop io fuel c rest w)

  -- On to the next pass, or a return at the end of the chunk.
  go_on :
      (fuel : ℕ) (position : ℤ) (c : Context) (rest out : List ℕ) (w : W)
      → At fill_ctrl_buf position c w
      → c.ctrl_buf_count ≡ 0
      → length rest < fuel
      → (rest ≡ [] → out ≡ [])
      → Next position rest out
      → Applied w out (after io fuel (continue_if (ltb 0 (length rest)) c rest w))
  unfolding after continue_if
  go_on fuel position c [] out w a z h ends next = (
    c,
    w,
    refl,
    sym (append-nil (contents w)) ∙ ap (λ t. contents w ++ t) (sym (ends refl)),
    fine,
    a.writing,
  )
    where
      fine : c.state ≢ error
      fine e = cc (a.state)
  go_on fuel position c (x ∷ rest) out w a z h ends next =
      let more : ltb 0 (suc (length rest)) ≡ true = ground arith in
      rw (more, after, continue_if) (next fuel c w a z h)

  -- The write of a pass.
  write_at :
      (c : Context) (bytes : List ℕ) (w : W)
      → c.output_offset ≡ base
      → c.output_position ≡ pos (length (contents w))
      → (w' : W) × (io.write_output (c.output_offset +ℤ c.output_position) bytes w
          ≡ (pos (length bytes), w'))
        × (contents w' ≡ contents w ++ bytes)
  write_at c bytes w to writing =
      let (w', e, wrote) = writer.append w bytes in
      (w', ap₂ (λ o p. io.write_output (o +ℤ p) bytes w) to writing ∙ e, wrote)

  advance :
      (c : Context) (bytes : List ℕ) (w w' : W)
      → c.output_position ≡ pos (length (contents w))
      → contents w' ≡ contents w ++ bytes
      → c.output_position +ℤ pos (length bytes) ≡ pos (length (contents w'))
  advance c bytes w w' writing wrote =
      ap (λ p. p +ℤ pos (length bytes)) writing
      ∙ pos-add (length (contents w)) (length bytes)
      ∙ ap pos (sym (length-append (contents w) bytes) ∙ sym (ap length wrote))

  extra_Applied :
      (fuel : ℕ) (position : ℤ) (c : Context) (extra rest out : List ℕ) (w : W)
      → At apply_extra position c w
      → c.extra_count ≡ pos (length extra)
      → length (extra ++ rest) + 1 < fuel
      → (rest ≡ [] → out ≡ [])
      → Next (position +ℤ c.adjust) rest out
      → Applied w (extra ++ out) (write_loop io fuel c (extra ++ rest) w)
  unfolding dispatch with_length step
  extra_Applied zero position c extra rest out w a e h ends next = absurd (omega arith)
  extra_Applied (suc fuel) position c extra rest out w a e h ends next =
      let m = length extra in
      let pp = extra ++ rest in
      let (w', write, wrote) = write_at c extra w a.to a.writing in
      let size : min (length pp) m ≡ m = omega (arith, length-append {0} extra rest) in
      let all : take m pp ≡ extra = take-append extra rest in
      let left : drop m pp ≡ rest = drop-append extra rest in
      let c' = extra_written c m m in
      let zero : (m - m == 0) ≡ true = ground arith in
      let steps : step io c pp w ≡ continue_if (ltb 0 (length rest)) (next_block c') rest w' =
        ap (λ s. dispatch io s c pp w) a.state
        ∙ ap (λ x. with_length io (extra_step io) x c pp w) e
        ∙ extra_step-eq io m m c pp w w' size
            (ap (λ t. io.write_output (c.output_offset +ℤ c.output_position) t w) all ∙ write)
        ∙ ap
            (λ b.
              if b
              then continue_if (ltb 0 (length (drop m pp))) (next_block c') (drop m pp) w'
              else stop (pos 0) c' w')
            zero
        ∙ ap (λ t. continue_if (ltb 0 (length t)) (next_block c') t w') left in
      let at : At fill_ctrl_buf (position +ℤ c.adjust) (next_block c') w' = record {
        state = refl;
        from = a.from;
        to = a.to;
        buffer = a.buffer;
        reading = ap (λ p. p +ℤ c.adjust) a.reading;
        writing = advance c extra w w' a.writing wrote;
        ctrl = a.ctrl;
      } in
      Applied-behind w w' extra out (write_loop io (suc fuel) c pp w) wrote (
        rw (write_loop-after io fuel c pp w, steps)
          (go_on fuel (position +ℤ c.adjust) (next_block c') rest out w' at refl
            (omega (arith, length-append {0} extra rest)) ends next))

  -- The diff is written; the extra bytes follow, or the next record.
  done_Applied :
      (fuel : ℕ) (position : ℤ) (c : Context) (extra rest out : List ℕ) (w : W)
      → At apply_diff position c w
      → c.extra_count ≡ pos (length extra)
      → length (extra ++ rest) + 1 < fuel
      → (rest ≡ [] → out ≡ [])
      → Next (position +ℤ c.adjust) rest out
      → Applied w (extra ++ out) (
          after io fuel
            (continue_if (ltb 0 (length (extra ++ rest))) (diff_done io c) (extra ++ rest) w))
  unfolding is_positive after continue_if
  done_Applied fuel position c [] rest out w a e h ends next =
      subst (λ c'. Applied w out (after io fuel (continue_if (ltb 0 (length rest)) c' rest w)))
        (sym (diff_done-eq io c false (ap is_positive e)))
        (go_on fuel (position +ℤ c.adjust) (next_block c) rest out w
          (record {
            state = refl;
            from = a.from;
            to = a.to;
            buffer = a.buffer;
            reading = ap (λ p. p +ℤ c.adjust) a.reading;
            writing = a.writing;
            ctrl = a.ctrl;
          })
          refl (omega arith) ends next)
  done_Applied fuel position c (x ∷ extra) rest out w a e h ends next =
      let some : ltb 0 (suc (length extra)) ≡ true = ground arith in
      let more : ltb 0 (suc (length (extra ++ rest))) ≡ true = ground arith in
      let pp = x ∷ (extra ++ rest) in
      let c' = record c { state = apply_extra } in
      subst
        (λ c'.
          Applied w (x ∷ (extra ++ out)) (after io fuel (continue_if (ltb 0 (length pp)) c' pp w)))
        (sym (diff_done-eq io c true (ap is_positive e ∙ some)))
        (subst (λ b. Applied w (x ∷ (extra ++ out)) (after io fuel (continue_if b c' pp w)))
          (sym more)
          (extra_Applied fuel position c' (x ∷ extra) rest out w
            (record {
              state = refl;
              from = a.from;
              to = a.to;
              buffer = a.buffer;
              reading = a.reading;
              writing = a.writing;
              ctrl = a.ctrl;
            })
            e h ends next))

  -- One pass of a diff: `n` bytes of it.
  diff_part :
      (k n : ℕ) (c : Context) (diff tail : List ℕ) (w : W)
      → At apply_diff (pos k) c w
      → c.diff_count ≡ pos (length diff)
      → k + length diff ≤ length origin
      → min (min (length (diff ++ tail)) (length diff)) c.patch_buffer_length ≡ n
      → (w' : W) × (step io c (diff ++ tail) w
          ≡ continue_if
              (ltb 0 (length (drop n diff ++ tail)))
              (if length diff - n == 0
                then diff_done io (diff_written c (length diff) n)
                else diff_written c (length diff) n)
              (drop n diff ++ tail)
              w')
        × At apply_diff (pos (k + n)) (diff_written c (length diff) n) w'
        × (contents w' ≡ contents w ++ add_bytes (take n (drop k origin)) (take n diff))
  unfolding dispatch with_length step
  diff_part k n c diff tail w a d fits count =
      let pp = diff ++ tail in
      let m = length diff in
      let le : n ≤ m = omega (arith, count) in
      let bytes = take n (drop k origin) in
      let len : length bytes ≡ n =
        omega (arith, length-take {0} n (drop k origin), length-drop {0} k origin, fits) in
      let cut : take n pp ≡ take n diff = take-append_le n diff tail le in
      let here = add_bytes bytes (take n diff) in
      let size : length here ≡ n =
        length-add_bytes bytes (take n diff) (omega (arith, len, length-take {0} n diff))
        ∙ omega (arith, length-take {0} n diff) in
      let (w', write, wrote) = write_at c here w a.to a.writing in
      let read =
        ap₂ (λ o p. io.read_origin (o +ℤ p) n w) a.from a.reading
        ∙ reads k n w (omega (arith, fits)) in
      let put =
        ap (λ t. io.write_output (c.output_offset +ℤ c.output_position) (add_bytes bytes t) w) cut
        ∙ write
        ∙ ap (λ l. (pos l, w')) size in
      let c' = diff_written c m n in
      (
        w',
        ap (λ s. dispatch io s c pp w) a.state
            ∙ ap (λ x. with_length io (diff_step io) x c pp w) d
            ∙ diff_step-eq io m n c pp bytes w w' count read put
            ∙ ap
                (λ t.
                  continue_if (ltb 0 (length t)) (if m - n == 0 then diff_done io c' else c') t w')
                (drop-append_le n diff tail le),
        record {
          state = a.state;
          from = a.from;
          to = a.to;
          buffer = a.buffer;
          reading = ap (λ p. p +ℤ pos n) a.reading ∙ pos-add k n;
          writing =
              ap (λ l. c.output_position +ℤ pos l) (sym size) ∙ advance c here w w' a.writing wrote;
          ctrl = a.ctrl;
        },
        wrote,
      )

  diff_Applied :
      (fuel k : ℕ) (c : Context) (diff extra rest out : List ℕ) (w : W)
      → At apply_diff (pos k) c w
      → c.diff_count ≡ pos (length diff)
      → c.extra_count ≡ pos (length extra)
      → k + length diff ≤ length origin
      → length (diff ++ (extra ++ rest)) + 2 < fuel
      → (rest ≡ [] → out ≡ [])
      → Next (pos (k + length diff) +ℤ c.adjust) rest out
      → Applied w
          (add_bytes (take (length diff) (drop k origin)) diff ++ (extra ++ out))
          (write_loop io fuel c (diff ++ (extra ++ rest)) w)
  unfolding after continue_if
  diff_Applied zero k c diff extra rest out w a d e fits h ends next = absurd (omega arith)
  diff_Applied (suc fuel) k c diff extra rest out w a d e fits h ends next =
      let tail = extra ++ rest in
      let pp = diff ++ tail in
      let m = length diff in
      let n : ℕ = min (min (length pp) m) c.patch_buffer_length in
      let total = length-append {0} diff tail in
      let le : n ≤ m = omega arith in
      let (w', steps, at, wrote) = diff_part k n c diff tail w a d fits refl in
      let c' = diff_written c m n in
      let left = length-drop {0} n diff in
      let go = λ (b : Bool). after io fuel (
        continue_if (ltb 0 (length (drop n diff ++ tail))) (if b then diff_done io c' else c')
          (drop n diff ++ tail) w') in
      subst (λ r. Applied w (add_bytes (take m (drop k origin)) diff ++ (extra ++ out)) r)
        (sym (write_loop-after io fuel c pp w ∙ ap (after io fuel) steps))
        (elim (Bool-cases (m - n == 0)) [
          | inl all ↦
              let full : n ≡ m = ground (arith, le) in
              let none : drop n diff ≡ [] = drop-all n diff (omega (arith, full)) in
              subst (λ r. Applied w (add_bytes (take m (drop k origin)) diff ++ (extra ++ out)) r)
                (sym (
                  ap go all
                  ∙ ap
                      (λ t.
                        after io fuel (
                          continue_if (ltb 0 (length (t ++ tail))) (diff_done io c') (t ++ tail)
                            w'))
                      none))
                (Applied-behind w w' (add_bytes (take m (drop k origin)) diff) (extra ++ out) _
                  (wrote
                    ∙ ap₂
                        (λ (a : ℕ) (t : List ℕ). contents w ++ add_bytes (take a (drop k origin)) t)
                        full (ap (λ t. take t diff) full ∙ take-all diff))
                  (done_Applied fuel (pos (k + n)) c' extra rest out w' at e (omega (arith, total))
                    ends (subst (λ p. Next (pos (k + p) +ℤ c.adjust) rest out) (sym full) next)))
          | inr part ↦
              let short : n < m = ground (arith, le) in
              let moves : 0 < n = omega (arith, a.buffer, total) in
              let sum : k + n + length (drop n diff) ≡ k + m = omega (arith, left, le) in
              let more : ltb 0 (length (drop n diff ++ tail)) ≡ true =
                lt→ltb _ _ (omega (arith, length-append {0} (drop n diff) tail, left)) in
              let rests =
                add_bytes (take (length (drop n diff)) (drop (k + n) origin)) (drop n diff) in
              subst (λ r. Applied w (add_bytes (take m (drop k origin)) diff ++ (extra ++ out)) r)
                (sym (
                  ap go part
                  ∙ ap (λ b. after io fuel (continue_if b c' (drop n diff ++ tail) w')) more))
                (subst (λ t. Applied w t (write_loop io fuel c' (drop n diff ++ tail) w'))
                  (sym (
                      append_assoc (add_bytes (take n (drop k origin)) (take n diff)) rests
                        (extra ++ out))
                    ∙ ap (λ t. t ++ (extra ++ out)) (split_diff origin diff k n le fits))
                  (Applied-behind w w' (add_bytes (take n (drop k origin)) (take n diff))
                    (rests ++ (extra ++ out)) _ wrote
                    (diff_Applied fuel (k + n) c' (drop n diff) extra rest out w' at
                      (ap pos (sym left)) e (omega (arith, sum, fits))
                      (omega (arith, total, left, length-append {0} (drop n diff) tail)) ends
                      (subst (λ p. Next (pos p +ℤ c.adjust) rest out) (sym sum) next))))
        ])

  -- Behind the control record.
  ruled-Applied :
      (fuel k : ℕ) (c : Context) (p : Piece) (rest out : List ℕ) (w : W)
      → At fill_ctrl_buf (pos k) c w
      → k + length p.diff ≤ length origin
      → length (p.diff ++ (p.extra ++ rest)) + 2 < fuel
      → (rest ≡ [] → out ≡ [])
      → Next (pos (k + length p.diff) +ℤ p.adjust) rest out
      → Applied w (add_bytes (take (length p.diff) (drop k origin)) p.diff ++ (p.extra ++ out)) (
          after io fuel (
            continue_if
              (ltb 0 (length (p.diff ++ (p.extra ++ rest))))
              (ruled c (numbers p) p)
              (p.diff ++ (p.extra ++ rest))
              w))
  unfolding after continue_if
  ruled-Applied fuel k c p rest out w a fits h ends next =
      let tail = p.diff ++ (p.extra ++ rest) in
      let c' = ruled c (numbers p) p in
      let here = add_bytes (take (length p.diff) (drop k origin)) p.diff ++ (p.extra ++ out) in
      let at : At apply_diff (pos k) c' w = record {
        state = refl;
        from = a.from;
        to = a.to;
        buffer = a.buffer;
        reading = a.reading;
        writing = a.writing;
        ctrl = length-triple (pos (length p.diff)) (pos (length p.extra)) p.adjust;
      } in
      elim (Bool-cases (ltb 0 (length tail))) [
        | inl goes ↦
            subst (λ b. Applied w here (after io fuel (continue_if b c' tail w))) (sym goes)
              (diff_Applied fuel k c' p.diff p.extra rest out w at refl refl fits h ends next)
        | inr stops ↦
            let sizes = length-append {0} p.diff (p.extra ++ rest) in
            let sizes' = length-append {0} p.extra rest in
            let empty : length tail ≡ 0 = ground arith in
            let no_diff : length p.diff ≡ 0 = omega (arith, sizes, empty) in
            let no_extra = nil_of_length p.extra (omega (arith, sizes, sizes', empty)) in
            let no_rest = nil_of_length rest (omega (arith, sizes, sizes', empty)) in
            let nothing : here ≡ [] =
              ap₂ (λ a b. a ++ (b ++ out))
                (nil_of_length (add_bytes (take (length p.diff) (drop k origin)) p.diff) (
                  length-add_bytes (take (length p.diff) (drop k origin)) p.diff (
                    omega (
                      arith,
                      length-take {0} (length p.diff) (drop k origin),
                      length-drop {0} k origin,
                      fits,
                    ))
                  ∙ no_diff))
                no_extra
              ∙ ends no_rest in
            subst (λ b. Applied w here (after io fuel (continue_if b c' tail w))) (sym stops)
              (
                c',
                w,
                refl,
                sym (append-nil (contents w)) ∙ ap (λ t. contents w ++ t) (sym nothing),
                (λ e. cc),
                a.writing,
              )
      ]

  encode-numbers :
      (p : Piece) (rest : List ℕ) → encode p ++ rest ≡ numbers p ++ (p.diff ++ (p.extra ++ rest))
  unfolding encode
  encode-numbers p rest =
      append_assoc (numbers p) (p.diff ++ p.extra) rest
      ∙ ap (λ t. numbers p ++ t) (append_assoc p.diff p.extra rest)

  length-record :
      (p : Piece) (rest : List ℕ)
      → length (encode p ++ rest) ≡ 24 + length (p.diff ++ (p.extra ++ rest))
  length-record p rest =
      ap length (encode-numbers p rest)
      ∙ length-append (numbers p) (p.diff ++ (p.extra ++ rest))
      ∙ ap (λ n. n + length (p.diff ++ (p.extra ++ rest)))
          (length-triple (pos (length p.diff)) (pos (length p.extra)) p.adjust)

  record_Applied :
      (k : ℕ) (p : Piece) (rest out : List ℕ)
      → k + length p.diff ≤ length origin
      → IsCountable p
      → (rest ≡ [] → out ≡ [])
      → Next (pos (k + length p.diff) +ℤ p.adjust) rest out
      → Next
          (pos k)
          (encode p ++ rest)
          (add_bytes (take (length p.diff) (drop k origin)) p.diff ++ (p.extra ++ out))
  unfolding dispatch step after
  record_Applied k p rest out fits small ends next zero c w a z h = absurd (omega arith)
  record_Applied k p rest out fits small ends next (suc zero) c w a z h =
      absurd (omega (arith, h, length-record p rest))
  record_Applied k p rest out fits small ends next (suc (suc fuel)) c w a z h =
      let head = numbers p in
      let tail = p.diff ++ (p.extra ++ rest) in
      let size = length-triple (pos (length p.diff)) (pos (length p.extra)) p.adjust in
      let run : write_loop io (suc (suc fuel)) c (encode p ++ rest) w
          ≡ after io fuel (continue_if (ltb 0 (length tail)) (ruled c head p) tail w) =
        ap (λ t. write_loop io (suc (suc fuel)) c t w) (encode-numbers p rest)
        ∙ write_loop-after io (suc fuel) c (head ++ tail) w
        ∙ ap (λ s. after io (suc fuel) (dispatch io s c (head ++ tail) w)) a.state
        ∙ ap (after io (suc fuel)) (fill_step-eq io c head tail w z a.ctrl size)
        ∙ write_loop-after io fuel (filled c head) tail w
        ∙ ap (after io fuel) (ctrl_step-eq io c p tail w small) in
      subst
        (λ r.
          Applied w (add_bytes (take (length p.diff) (drop k origin)) p.diff ++ (p.extra ++ out)) r)
        (sym run)
        (ruled-Applied fuel k c p rest out w a fits (omega (arith, h, length-record p rest)) ends
          next)

  stream-ends : (position : ℤ) (ps : List Piece) → stream ps ≡ [] → patched origin position ps ≡ []
  unfolding stream patched
  stream-ends position [] h = refl
  stream-ends position (p ∷ ps) h = absurd (omega (arith, ap length h, length-record p (stream ps)))

  end_Applied : (position : ℤ) → Next position [] []
  unfolding dispatch step after
  end_Applied position zero c w a z h = absurd (omega arith)
  end_Applied position (suc fuel) c w a z h = (
    record c { ctrl_buf_count = 0 },
    w,
    write_loop-after io fuel c [] w
        ∙ ap (λ s. after io fuel (dispatch io s c [] w)) a.state
        ∙ ap (after io fuel) (fill_step-nil io c w z),
    sym (append-nil (contents w)),
    (λ e. cc (a.state)),
    a.writing,
  )

  stream_Applied :
      (position : ℤ) (ps : List Piece)
      → AreApplicable origin position ps
      → Next position (stream ps) (patched origin position ps)
  unfolding stream patched window
  stream_Applied position [] applicable = end_Applied position
  stream_Applied position (p ∷ ps) ((k, here, fits), sizes, short, applicable) =
      let there : position +ℤ pos (length p.diff) +ℤ p.adjust
          ≡ pos (k + length p.diff) +ℤ p.adjust =
        ap (λ x. x +ℤ pos (length p.diff) +ℤ p.adjust) here
        ∙ ap (λ x. x +ℤ p.adjust) (pos-add k (length p.diff)) in
      let out = patched origin (position +ℤ pos (length p.diff) +ℤ p.adjust) ps in
      let found : window origin position (length p.diff) ≡ take (length p.diff) (drop k origin) =
        ap (λ x. window origin x (length p.diff)) here in
      subst (λ t. Next position (encode p ++ stream ps) (add_bytes t p.diff ++ (p.extra ++ out)))
        (sym found)
        (subst
          (λ x.
            Next x (encode p ++ stream ps)
              (add_bytes (take (length p.diff) (drop k origin)) p.diff ++ (p.extra ++ out)))
          (sym here)
          (record_Applied k p (stream ps) out fits (sizes, short)
            (stream-ends (position +ℤ pos (length p.diff) +ℤ p.adjust) ps)
            (subst (λ x. Next x (stream ps) out) there
              (stream_Applied (position +ℤ pos (length p.diff) +ℤ p.adjust) ps applicable))))

  -- The call of `bspatch_write` with all of a patch.
  pub bspatch_write-patched :
      (c : Context) (ps : List Piece) (w : W)
      → c.state ≡ fill_ctrl_buf
      → c.ctrl_buf_count ≡ 0
      → length c.ctrl_buf ≡ 24
      → 0 < c.patch_buffer_length
      → c.origin_offset ≡ origin_offset
      → c.output_offset ≡ base
      → c.origin_position ≡ pos 0
      → c.output_position ≡ pos (length (contents w))
      → AreApplicable origin (pos 0) ps
      → (c' : Context) × (w' : W) × (bspatch_write io c (stream ps) w ≡ some (stop (pos 0) c' w'))
        × (contents w' ≡ contents w ++ patched origin (pos 0) ps)
        × (c'.state ≢ error)
        × (c'.output_position ≡ pos (length (contents w')))
  unfolding bspatch_write
  bspatch_write-patched c ps w state count ctrl buffer from to reading writing applicable =
      stream_Applied (pos 0) ps applicable (4 * length (stream ps) + 4) c w
        (record {
          state = state;
          from = from;
          to = to;
          buffer = buffer;
          reading = reading;
          writing = writing;
          ctrl = ctrl;
        })
        count (omega arith)
