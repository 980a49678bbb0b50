-- ===== src/Patch/Steps.antt =====
-- The steps of `bspatch_write` that go well, as equations.
use native.Mathlib.Omega.{arith}
use bpak.Prelude.{
  drop-append, take-append, ℕ, suc, ◌+◌, ◌-◌, ◌^◌, min, ◌<◌, ◌≡◌, refl, sym, ap, ap₂, ◌∙◌, Option,
  some, List, [], ◌++◌, ltb, ◌==◌, if◌then◌else◌, Bool, length, take, drop, splice, overlay,
  length-append,
}
use bpak.Int.{ℤ, pos, ◌+ℤ◌}
use bpak.Offt.{offtin}
use bpak.Patch.{
  read_ctrl, apply_diff, apply_extra, error, Context, ReadResult, Io, Step, more, stop, fault,
  is_count, add_bytes, next_block, fill_step, ctrl_step, step, write_loop, extra_step, diff_step,
  diff_write, continue_if, short_count, is_positive,
}
use bpak.Status.{patch_write_error, patch_read_origin_error}
use bpak.Patch.Pieces.{Piece}
use bpak.Patch.Records.{
  overlay-all, same_count, triple, IsShort, first_number, second_number, third_number,
}

abbrev pub extra_written : Context → ℕ → ℕ → Context
extra_written c m n = record c {
  extra_count = pos (m - n);
  output_position = c.output_position +ℤ pos n;
}

-- The context behind a piece of a diff, before the state is chosen.
abbrev pub diff_written : Context → ℕ → ℕ → Context
diff_written c m n = record c {
  diff_count = pos (m - n);
  origin_position = c.origin_position +ℤ pos n;
  output_position = c.output_position +ℤ pos n;
}

abbrev pub filled : Context → List ℕ → Context
filled c ctrl = record c { ctrl_buf = ctrl; ctrl_buf_count = 24; state = read_ctrl }

-- The context behind the control record.
abbrev pub ruled : Context → List ℕ → Piece → Context
ruled c ctrl p = record c {
  ctrl_buf = ctrl;
  ctrl_buf_count = 24;
  diff_count = pos (length p.diff);
  extra_count = pos (length p.extra);
  adjust = p.adjust;
  state = apply_diff;
}

abbrev pub numbers : Piece → List ℕ
numbers p = triple (pos (length p.diff)) (pos (length p.extra)) p.adjust

abbrev pub IsCountable : Piece → Type 0
IsCountable p = ((length p.diff < 2 ^ 63) × (length p.extra < 2 ^ 63)) × IsShort p.adjust

module _ {W : Type 0} (io : Io W) where
  -- The loop behind a step.
  unfoldable pub after : ℕ → Step W → Option (Step W)
  after fuel (more c pp w) = write_loop io fuel c pp w
  after fuel (stop rc c w) = some (stop rc c w)
  after fuel fault = some fault

  pub write_loop-after :
      (fuel : ℕ) (c : Context) (pp : List ℕ) (w : W)
      → write_loop io (suc fuel) c pp w ≡ after fuel (step io c pp w)
  unfolding write_loop after
  write_loop-after fuel c pp w = refl

  pub extra_step-eq :
      (m n : ℕ) (c : Context) (pp : List ℕ) (w w' : W)
      → min (length pp) m ≡ n
      → io.write_output (c.output_offset +ℤ c.output_position) (take n pp) w ≡ (pos n, w')
      → extra_step io m c pp w ≡ (
          if m - n == 0
          then continue_if
              (ltb 0 (length (drop n pp)))
              (next_block (extra_written c m n))
              (drop n pp)
              w'
          else stop (pos 0) (extra_written c m n) w')
  unfolding extra_step is_count
  extra_step-eq m n c pp w w' e h =
      ap (λ n. body n (io.write_output (c.output_offset +ℤ c.output_position) (take n pp) w)) e
      ∙ ap (body n) h
      ∙ ap (checked n w') (same_count n)
    where
      checked : ℕ → W → Bool → Step W
      checked n w' b =
          if b
          then (if m - n == 0
              then continue_if (ltb 0 (length (drop n pp))) (next_block (extra_written c m n))
                  (drop n pp) w'
              else stop (pos 0) (extra_written c m n) w')
          else stop (short_count (pos n) patch_write_error)
              (record c { extra_count = pos (m - n); state = error }) w'

      body : ℕ → ℤ × W → Step W
      body n r =
          if is_count r.0 n
          then (if m - n == 0
              then continue_if (ltb 0 (length (drop n pp))) (next_block (extra_written c m n))
                  (drop n pp) r.1
              else stop (pos 0) (extra_written c m n) r.1)
          else stop (short_count r.0 patch_write_error)
              (record c { extra_count = pos (m - n); state = error }) r.1

  pub diff_done : Context → Context
  diff_done c = if is_positive c.extra_count then record c { state = apply_extra } else next_block c

  pub diff_step-eq :
      (m n : ℕ) (c : Context) (pp bytes : List ℕ) (w w' : W)
      → min (min (length pp) m) c.patch_buffer_length ≡ n
      → io.read_origin (c.origin_offset +ℤ c.origin_position) n w
        ≡ (record { count = pos n; bytes = bytes }, w)
      → io.write_output (c.output_offset +ℤ c.output_position) (add_bytes bytes (take n pp)) w
        ≡ (pos n, w')
      → diff_step io m c pp w
        ≡ continue_if
            (ltb 0 (length (drop n pp)))
            (if m - n == 0 then diff_done (diff_written c m n) else diff_written c m n)
            (drop n pp)
            w'
  unfolding diff_step diff_write is_count diff_done
  diff_step-eq m n c pp bytes w w' e hr hw =
      ap (λ n. body n (io.read_origin (c.origin_offset +ℤ c.origin_position) n w)) e
      ∙ ap (body n) hr
      ∙ ap read (same_count n)
      ∙ ap written hw
      ∙ ap wrote (same_count n)
    where
      c' : ℕ → Context
      c' n = record c { diff_count = pos (m - n) }

      c'' : ℕ → Context
      c'' n = record c { diff_count = pos (m - n); origin_position = c.origin_position +ℤ pos n }

      body : ℕ → ReadResult × W → Step W
      body n r =
          if is_count (r.0).count n
          then diff_write io (c'' n) n (r.0).bytes pp r.1
          else stop (short_count (r.0).count patch_read_origin_error)
              (record (c' n) { state = error }) r.1

      read : Bool → Step W
      read b =
          if b
          then diff_write io (c'' n) n bytes pp w
          else stop (short_count (pos n) patch_read_origin_error) (record (c' n) { state = error })
              w

      finished : Context
      finished = if m - n == 0 then diff_done (diff_written c m n) else diff_written c m n

      written : ℤ × W → Step W
      written r =
          if is_count r.0 n
          then continue_if (ltb 0 (length (drop n pp))) finished (drop n pp) r.1
          else stop (short_count r.0 patch_write_error) (record (c'' n) { state = error }) r.1

      wrote : Bool → Step W
      wrote b =
          if b
          then continue_if (ltb 0 (length (drop n pp))) finished (drop n pp) w'
          else stop (short_count (pos n) patch_write_error) (record (c'' n) { state = error }) w'

  pub diff_done-eq :
      (c : Context) (b : Bool)
      → is_positive c.extra_count ≡ b
      → diff_done c ≡ (if b then record c { state = apply_extra } else next_block c)
  unfolding diff_done
  diff_done-eq c b e = ap (λ b. if b then record c { state = apply_extra } else next_block c) e

  pub fill_step-eq :
      (c : Context) (head rest : List ℕ) (w : W)
      → c.ctrl_buf_count ≡ 0
      → length c.ctrl_buf ≡ 24
      → length head ≡ 24
      → fill_step c (head ++ rest) w ≡ more (filled c head) rest w
  unfolding fill_step splice
  fill_step-eq c head rest w z room size =
      let pp = head ++ rest in
      let n : min (length pp) 24 ≡ 24 = omega (arith, length-append {0} head rest, size) in
      let cut : take 24 pp ≡ head = ap (λ k. take k pp) (sym size) ∙ take-append head rest in
      let left : drop 24 pp ≡ rest = ap (λ k. drop k pp) (sym size) ∙ drop-append head rest in
      ap (λ x. body x (min (length pp) (24 - x))) z
      ∙ ap (body 0) n
      ∙ ap₂ (λ buf t. more (filled c buf) t w)
          (ap (λ t. overlay t c.ctrl_buf) cut
            ∙ overlay-all head c.ctrl_buf (omega (arith, room, size)))
          left
    where
      body : ℕ → ℕ → Step W
      body x n =
          let c' = record c {
            ctrl_buf = splice x (take n (head ++ rest)) c.ctrl_buf;
            ctrl_buf_count = x + n;
          } in
          if ltb x 24
          then if x + n == 24
            then more (record c' { state = read_ctrl }) (drop n (head ++ rest)) w
            else stop (pos 0) c' w
          else stop (pos 0) c w

  pub fill_step-nil :
      (c : Context) (w : W)
      → c.ctrl_buf_count ≡ 0
      → fill_step c [] w ≡ stop (pos 0) (record c { ctrl_buf_count = 0 }) w
  unfolding fill_step splice overlay
  fill_step-nil c w z = ap body z
    where
      body : ℕ → Step W
      body x =
          let c' = record c {
            ctrl_buf = splice x (take (min 0 (24 - x)) []) c.ctrl_buf;
            ctrl_buf_count = x + min 0 (24 - x);
          } in
          if ltb x 24
          then if x + min 0 (24 - x) == 24
            then more (record c' { state = read_ctrl }) (drop (min 0 (24 - x)) []) w
            else stop (pos 0) c' w
          else stop (pos 0) c w

  pub ctrl_step-eq :
      (c : Context) (p : Piece) (rest : List ℕ) (w : W)
      → IsCountable p
      → ctrl_step (filled c (numbers p)) rest w
        ≡ continue_if (ltb 0 (length rest)) (ruled c (numbers p) p) rest w
  unfolding ctrl_step
  ctrl_step-eq c p rest w (sizes, h) =
      ap (λ a. made a (offtin (drop 8 (numbers p))) (offtin (drop 16 (numbers p))))
        (first_number (pos (length p.diff)) (pos (length p.extra)) p.adjust
          (omega (arith, sizes.0)))
      ∙ ap (λ b. made (pos (length p.diff)) b (offtin (drop 16 (numbers p))))
          (second_number (pos (length p.diff)) (pos (length p.extra)) p.adjust
            (omega (arith, sizes.1)))
      ∙ ap (made (pos (length p.diff)) (pos (length p.extra)))
          (third_number (pos (length p.diff)) (pos (length p.extra)) p.adjust h)
    where
      made : ℤ → ℤ → ℤ → Step W
      made a b adjust =
          continue_if (ltb 0 (length rest))
            (record c {
              ctrl_buf = numbers p;
              ctrl_buf_count = 24;
              diff_count = a;
              extra_count = b;
              adjust = adjust;
              state = apply_diff;
            })
            rest w
