-- ===== src/Examples/Streams.antt =====
-- The theorems on patch streams and on the hash tree's layout at concrete inputs, and runs of the code.
use native.Mathlib.Omega.{arith}
use bpak.Prelude.{
  ℕ, ◌*◌, ◌≡◌, refl, List, [], ◌∷◌, ◌++◌, Option, some, take, drop, length, splice, replicate,
}
use bpak.Int.{ℤ, pos, negsuc, ◌+ℤ◌}
use bpak.Status.{ok, err, bad_alignment}
use bpak.Merkle.{compute_size, init_layout}
use bpak.Merkle.Sizes.{layout_of, init_layout_lem}
use bpak.Merkle.Offsets.{IsLaidOut, init_layout-IsLaidOut}
use bpak.Offt.{offtin, offtout, offtin-offtout}
use bpak.Patch.{fill_ctrl_buf, Context, ReadResult, Io, Step, stop, bspatch_write, add_bytes}
use bpak.Patch.Total.{Ends, bspatch_write-Ends}

-- 300 blocks have a tree of two levels: three blocks of hashes and one above.
init_layout_lem_example : init_layout (4096 * 300) 32 ≡ some (ok (layout_of 300))
init_layout_lem_example = init_layout_lem 300 32 (omega arith) (omega arith)

init_layout-IsLaidOut_example : IsLaidOut (4096 * 300) (layout_of 300)
init_layout-IsLaidOut_example =
    init_layout-IsLaidOut 300 32 {l = layout_of 300} (omega arith)
      (init_layout_lem 300 32 (omega arith) (omega arith))

unaligned : compute_size 5000 ≡ some (err bad_alignment)
unfolding compute_size
unaligned = refl

offtin-offtout_example : offtin (offtout (negsuc 99999)) ≡ negsuc 99999
offtin-offtout_example = offtin-offtout (negsuc 99999) (omega arith) (omega arith)

-- An origin in memory, and an output that is only appended to.
memory : List ℕ → Io (List ℕ)
memory origin = record {
  read_origin = λ offset n out. (read_at offset n, out);
  write_output = λ offset bytes out. (pos (length bytes), out ++ bytes);
}
  where
    read_at : ℤ → ℕ → ReadResult
    read_at (pos k) n =
        let bytes = take n (drop k origin) in record { count = pos (length bytes); bytes = bytes }
    read_at (negsuc k) n = record { count = negsuc 0; bytes = [] }

start : Context
start = record {
  origin_position = pos 0;
  origin_offset = pos 0;
  output_position = pos 0;
  output_offset = pos 0;
  state = fill_ctrl_buf;
  patch_buffer_length = 2;
  ctrl_buf = replicate 24 0;
  ctrl_buf_count = 0;
  diff_count = pos 0;
  extra_count = pos 0;
  adjust = pos 0;
}

-- Three bytes of difference and two of insertion.
patch : List ℕ
unfolding offtout
patch = offtout (pos 3) ++ (offtout (pos 2) ++ (offtout (negsuc 0) ++ (1 ∷ 0 ∷ 255 ∷ 70 ∷ 71 ∷ [])))

output_of : Option (Step (List ℕ)) → List ℕ
output_of (some (stop rc c out)) = out
output_of _ = []

patch_applies :
    output_of (bspatch_write (memory (10 ∷ 20 ∷ 30 ∷ 40 ∷ [])) start patch [])
    ≡ 11 ∷ 20 ∷ 29 ∷ 70 ∷ 71 ∷ []
unfolding output_of bspatch_write memory start patch add_bytes offtin splice ◌+ℤ◌
patch_applies = refl

bspatch_write-Ends_example :
    Ends (memory (10 ∷ 20 ∷ [])) (bspatch_write (memory (10 ∷ 20 ∷ [])) start patch [])
bspatch_write-Ends_example =
    bspatch_write-Ends (memory (10 ∷ 20 ∷ [])) start patch [] (unfold start in omega arith)
