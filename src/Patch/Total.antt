-- ===== src/Patch/Total.antt =====
-- The end of `bspatch_write` on a chunk.
use native.Mathlib.Omega.{arith}
use bpak.Prelude.{
  ℕ, zero, suc, ◌+◌, ◌-◌, ◌*◌, ◌≤◌, ◌<◌, ◌≡◌, refl, min, Option, none, some, List, length,
  length-drop,
}
use bpak.Int.{ℤ, pos, negsuc}
use bpak.Patch.{
  State, fill_ctrl_buf, read_ctrl, apply_diff, apply_extra, finish, error, Context, Io, Step, more,
  stop, fault, ctrl_buffer_length, fill_step, ctrl_step, diff_step, extra_step, with_length,
  dispatch, step, write_loop, bspatch_write,
}

-- Passes that may go by before a byte of the chunk is used.
rank : State → ℕ
rank fill_ctrl_buf = 0
rank read_ctrl = 3
rank apply_diff = 2
rank apply_extra = 1
rank finish = 0
rank error = 0

measure : Context → List ℕ → ℕ
unfolding rank
measure c pp = 4 * length pp + rank c.state

-- A pass that goes on keeps the buffer, and makes the measure smaller.
abbrev Advances : Context → List ℕ → Context → List ℕ → Type 0
Advances c pp c' pp' =
    (measure c' pp' < measure c pp) × (c'.patch_buffer_length ≡ c.patch_buffer_length)

module _ {W : Type 0} where
  fill-Advances :
      (c : Context) (pp : List ℕ) (w : W)
      → c.state ≡ fill_ctrl_buf
      → {c' : Context} {pp' : List ℕ} {w' : W} → fill_step c pp w ≡ more c' pp' w'
      → Advances c pp c' pp'
  unfolding fill_step measure
  fill-Advances c pp w s e =
      ground (arith, length-drop (min (length pp) (ctrl_buffer_length - c.ctrl_buf_count)) pp)

  ctrl-Advances :
      (c : Context) (pp : List ℕ) (w : W)
      → c.state ≡ read_ctrl
      → {c' : Context} {pp' : List ℕ} {w' : W} → ctrl_step c pp w ≡ more c' pp' w'
      → Advances c pp c' pp'
  unfolding ctrl_step measure
  ctrl-Advances c pp w s e = ground arith

  module _ (io : Io W) where
    diff-Advances :
        (n : ℕ) (c : Context) (pp : List ℕ) (w : W)
        → c.state ≡ apply_diff
        → 0 < c.patch_buffer_length
        → {c' : Context} {pp' : List ℕ} {w' : W} → diff_step io n c pp w ≡ more c' pp' w'
        → Advances c pp c' pp'
    unfolding diff_step measure
    diff-Advances n c pp w s room e =
        ground (arith, length-drop (min (min (length pp) n) c.patch_buffer_length) pp)

    extra-Advances :
        (n : ℕ) (c : Context) (pp : List ℕ) (w : W)
        → c.state ≡ apply_extra
        → {c' : Context} {pp' : List ℕ} {w' : W} → extra_step io n c pp w ≡ more c' pp' w'
        → Advances c pp c' pp'
    unfolding extra_step measure
    extra-Advances n c pp w s e = ground (arith, length-drop (min (length pp) n) pp)

    any_diff-Advances :
        (z : ℤ) (c : Context) (pp : List ℕ) (w : W)
        → c.state ≡ apply_diff
        → 0 < c.patch_buffer_length
        → {c' : Context} {pp' : List ℕ} {w' : W}
        → with_length io (diff_step io) z c pp w ≡ more c' pp' w'
        → Advances c pp c' pp'
    unfolding with_length
    any_diff-Advances (pos n) c pp w s room e = diff-Advances n c pp w s room e
    any_diff-Advances (negsuc n) c pp w s room e = cc

    any_extra-Advances :
        (z : ℤ) (c : Context) (pp : List ℕ) (w : W)
        → c.state ≡ apply_extra
        → {c' : Context} {pp' : List ℕ} {w' : W}
        → with_length io (extra_step io) z c pp w ≡ more c' pp' w'
        → Advances c pp c' pp'
    unfolding with_length
    any_extra-Advances (pos n) c pp w s e = extra-Advances n c pp w s e
    any_extra-Advances (negsuc n) c pp w s e = cc

    step-Advances :
        (c : Context) (pp : List ℕ) (w : W)
        → 0 < c.patch_buffer_length
        → (s : State) → c.state ≡ s
        → {c' : Context} {pp' : List ℕ} {w' : W} → dispatch io s c pp w ≡ more c' pp' w'
        → Advances c pp c' pp'
    unfolding dispatch
    step-Advances c pp w room fill_ctrl_buf s e = fill-Advances c pp w s e
    step-Advances c pp w room read_ctrl s e = ctrl-Advances c pp w s e
    step-Advances c pp w room apply_diff s e = any_diff-Advances c.diff_count c pp w s room e
    step-Advances c pp w room apply_extra s e = any_extra-Advances c.extra_count c pp w s e
    step-Advances c pp w room finish s e = cc
    step-Advances c pp w room error s e = cc

    -- The outcome of a chunk: a return, or a fault; never a pass to go on with.
    abbrev pub Ends : Option (Step W) → Type 0
    Ends none = ⊥
    Ends (some (more c pp w)) = ⊥
    Ends (some (stop rc c w)) = Unit
    Ends (some fault) = Unit

    step-more :
        (c : Context) (pp : List ℕ) (w : W)
        → 0 < c.patch_buffer_length
        → {c' : Context} {pp' : List ℕ} {w' : W} → step io c pp w ≡ more c' pp' w'
        → Advances c pp c' pp'
    unfolding step
    step-more c pp w room e = step-Advances c pp w room c.state refl e

    Ends-next :
        (fuel : ℕ) (c : Context) (pp : List ℕ) (w : W) (r : Step W)
        → step io c pp w ≡ r
        → ((c' : Context) (pp' : List ℕ) (w' : W)
            → r ≡ more c' pp' w'
            → Ends (write_loop io fuel c' pp' w'))
        → Ends (write_loop io (suc fuel) c pp w)
    unfolding write_loop
    Ends-next fuel c pp w (more c' pp' w') e next = rw (e, write_loop) (next c' pp' w' refl)
    Ends-next fuel c pp w (stop rc c' w') e next = rw (e, write_loop) tt
    Ends-next fuel c pp w fault e next = rw (e, write_loop) tt

    write_loop-Ends :
        (fuel : ℕ) (c : Context) (pp : List ℕ) (w : W)
        → 0 < c.patch_buffer_length
        → measure c pp < fuel
        → Ends (write_loop io fuel c pp w)
    write_loop-Ends zero c pp w room h = elim h [ ]
    write_loop-Ends (suc fuel) c pp w room h =
        Ends-next fuel c pp w (step io c pp w) refl λ c' pp' w' e.
          let a = step-more c pp w room e in
          write_loop-Ends fuel c' pp' w' (omega (arith, a.1)) (omega (arith, a.0))

    rank-le : (s : State) → rank s ≤ 3
    unfolding rank
    rank-le fill_ctrl_buf = omega arith
    rank-le read_ctrl = omega arith
    rank-le apply_diff = omega arith
    rank-le apply_extra = omega arith
    rank-le finish = omega arith
    rank-le error = omega arith

    -- With a patch buffer that is not empty, the loop of `bspatch_write` comes to an end on every chunk, from
    -- every state, whatever the callbacks do: it returns, or faults where the code would copy a negative
    -- or too large length. The fuel never runs out.
    pub bspatch_write-Ends :
        (c : Context) (buffer : List ℕ) (w : W)
        → 0 < c.patch_buffer_length
        → Ends (bspatch_write io c buffer w)
    unfolding measure
    bspatch_write-Ends c buffer w room =
        unfold bspatch_write in
        write_loop-Ends (4 * length buffer + 4) c buffer w room (omega (arith, rank-le c.state))
