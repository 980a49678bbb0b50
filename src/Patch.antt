-- ===== src/Patch.antt =====
-- lib/bspatch.c, `bspatch_write`: the state machine that applies a patch to an origin, fed with chunks of
-- the uncompressed patch stream. The two callbacks are parameters over a state of the caller's.
-- `off_t` and `int64_t` values are integers, and a length is taken to fit `ssize_t`.
pub mod Total
pub mod Stream
pub mod Pieces
pub mod Records
pub mod Steps
pub mod Apply
use bpak.Prelude.{
  ℕ, zero, suc, ◌+◌, ◌-◌, ◌*◌, ◌%◌, min, Option, none, some, List, [], ◌∷◌, ltb, ◌==◌,
  if◌then◌else◌, Bool, true, false, length, take, drop, splice,
}
use bpak.Run.{minus}
use bpak.Status.{Error, code, patch_read_origin_error, patch_write_error}
use bpak.Int.{ℤ, pos, negsuc, ◌+ℤ◌}
use bpak.Offt.{offtin}

abbrev pub ctrl_buffer_length : ℕ
ctrl_buffer_length = 24

-- `enum bpak_bspatch_state`
pub data State : Type 0 where
  fill_ctrl_buf read_ctrl apply_diff apply_extra finish error : State

-- The fields of `struct bpak_bspatch_context` that `bspatch_write` uses; of the patch buffer only its
-- length lasts.
pub record Context : Type 0 where
  pub origin_position : ℤ
  pub origin_offset : ℤ
  pub output_position : ℤ
  pub output_offset : ℤ
  pub state : State
  pub patch_buffer_length : ℕ
  pub ctrl_buf : List ℕ
  pub ctrl_buf_count : ℕ
  pub diff_count : ℤ
  pub extra_count : ℤ
  pub adjust : ℤ

-- What a read gives: the count that the callback returns, and the bytes that it has stored.
pub record ReadResult : Type 0 where
  pub count : ℤ
  pub bytes : List ℕ

-- The callbacks `read_origin(offset, buffer, length, user)` and `write_output(offset, buffer, length, user)`.
pub record Io (W : Type 0) : Type 0 where
  pub read_origin : ℤ → ℕ → W → ReadResult × W
  pub write_output : ℤ → List ℕ → W → ℤ × W

-- One pass of the switch: on to `process_more` with the rest of the chunk, or a return. `fault` is a
-- negative length in a control record: the callback is asked for more bytes than the buffer holds.
pub data Step (W : Type 0) : Type 0 where
  more : Context → List ℕ → W → Step W
  stop : ℤ → Context → W → Step W
  fault : Step W

-- What `bspatch_write` returns where a callback gives another count than it was asked for.
short_count : ℤ → Error → ℤ
unfolding minus code
short_count (pos n) e = minus e
short_count (negsuc n) e = negsuc n

-- The test `n == length` of a `ssize_t`.
unfoldable pub is_count : ℤ → ℕ → Bool
is_count (pos m) n = m == n
is_count (negsuc m) n = false

pub is_positive : ℤ → Bool
is_positive (pos m) = ltb 0 m
is_positive (negsuc m) = false

-- `ctx->patch_buffer[i] += pp[i]`, on bytes.
unfoldable pub add_bytes : List ℕ → List ℕ → List ℕ
add_bytes [] ys = []
add_bytes (x ∷ xs) [] = []
add_bytes (x ∷ xs) (y ∷ ys) = ((x + y) % 256) ∷ add_bytes xs ys

-- The end of a patch block.
abbrev pub next_block : Context → Context
next_block c = record c {
  origin_position = c.origin_position +ℤ c.adjust;
  state = fill_ctrl_buf;
  ctrl_buf_count = 0;
}

module _ {W : Type 0} where
  pub continue_if : Bool → Context → List ℕ → W → Step W
  continue_if true c pp w = more c pp w
  continue_if false c pp w = stop (pos 0) c w

  unfoldable pub fill_step : Context → List ℕ → W → Step W
  fill_step c pp w =
      let n = min (length pp) (ctrl_buffer_length - c.ctrl_buf_count) in
      let count = c.ctrl_buf_count + n in
      let c' = record c {
        ctrl_buf = splice c.ctrl_buf_count (take n pp) c.ctrl_buf;
        ctrl_buf_count = count;
      } in
      if ltb c.ctrl_buf_count ctrl_buffer_length
      then if count == ctrl_buffer_length
        then more (record c' { state = read_ctrl }) (drop n pp) w
        else stop (pos 0) c' w
      else stop (pos 0) c w

  unfoldable pub ctrl_step : Context → List ℕ → W → Step W
  unfolding continue_if
  ctrl_step c pp w =
      continue_if (ltb 0 (length pp))
        (record c {
          diff_count = offtin c.ctrl_buf;
          extra_count = offtin (drop 8 c.ctrl_buf);
          adjust = offtin (drop 16 c.ctrl_buf);
          state = apply_diff;
        })
        pp w

  module _ (io : Io W) where
    -- Behind a read that gave the `n` bytes asked for.
    diff_write : Context → ℕ → List ℕ → List ℕ → W → Step W
    unfolding continue_if short_count is_count is_positive
    diff_write c n bytes pp w =
        let (nwritten, w') =
          io.write_output (c.output_offset +ℤ c.output_position) (add_bytes bytes (take n pp)) w in
        let c' = record c { output_position = c.output_position +ℤ pos n } in
        let done =
          if is_positive c'.extra_count then record c' { state = apply_extra } else next_block c' in
        if is_count nwritten n
        then continue_if (ltb 0 (length (drop n pp)))
            (if is_count c'.diff_count 0 then done else c') (drop n pp) w'
        else stop (short_count nwritten patch_write_error) (record c { state = error }) w'

    pub diff_step : ℕ → Context → List ℕ → W → Step W
    unfolding diff_write
    diff_step diff_count c pp w =
        let n = min (min (length pp) diff_count) c.patch_buffer_length in
        let c' = record c { diff_count = pos (diff_count - n) } in
        let (r, w') = io.read_origin (c.origin_offset +ℤ c.origin_position) n w in
        if is_count r.count n
        then diff_write (record c' { origin_position = c'.origin_position +ℤ pos n }) n r.bytes pp
            w'
        else stop (short_count r.count patch_read_origin_error) (record c' { state = error }) w'

    pub extra_step : ℕ → Context → List ℕ → W → Step W
    unfolding continue_if short_count is_count
    extra_step extra_count c pp w =
        let n = min (length pp) extra_count in
        let c' = record c { extra_count = pos (extra_count - n) } in
        let (nwritten, w') = io.write_output (c.output_offset +ℤ c.output_position) (take n pp) w in
        let c'' = record c' { output_position = c'.output_position +ℤ pos n } in
        if is_count nwritten n
        then if extra_count - n == 0
          then continue_if (ltb 0 (length (drop n pp))) (next_block c'') (drop n pp) w'
          else stop (pos 0) c'' w'
        else stop (short_count nwritten patch_write_error) (record c' { state = error }) w'

    with_length : (ℕ → Context → List ℕ → W → Step W) → ℤ → Context → List ℕ → W → Step W
    with_length f (pos n) c pp w = f n c pp w
    with_length f (negsuc n) c pp w = fault

    dispatch : State → Context → List ℕ → W → Step W
    unfolding fill_step ctrl_step diff_step extra_step with_length
    dispatch fill_ctrl_buf c pp w = fill_step c pp w
    dispatch read_ctrl c pp w = ctrl_step c pp w
    dispatch apply_diff c pp w = with_length diff_step c.diff_count c pp w
    dispatch apply_extra c pp w = with_length extra_step c.extra_count c pp w
    dispatch finish c pp w = stop (negsuc 0) c w
    dispatch error c pp w = stop (negsuc 0) c w

    unfoldable pub step : Context → List ℕ → W → Step W
    unfolding dispatch
    step c pp w = dispatch c.state c pp w

    -- The passes of the switch on one chunk; `none` means that the fuel ran out.
    unfoldable pub write_loop : ℕ → Context → List ℕ → W → Option (Step W)
    write_loop zero c pp w = none
    write_loop (suc fuel) c pp w = elim (step c pp w) [
      | more c' pp' w' ↦ write_loop fuel c' pp' w'
      | stop rc c' w' ↦ some (stop rc c' w')
      | fault ↦ some fault
    ]

    -- `bspatch_write`, with fuel for every chunk (`Total`).
    unfoldable pub bspatch_write : Context → List ℕ → W → Option (Step W)
    unfolding write_loop step
    bspatch_write c buffer w = write_loop (4 * length buffer + 4) c buffer w
