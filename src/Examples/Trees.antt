-- ===== src/Examples/Trees.antt =====
-- The hash tree's write at a concrete context and input, with a hash function that keeps all bytes.
use native.Mathlib.Omega.{arith}
use bpak.Prelude.{ℕ, ◌≡◌, false, List, [], ◌∷◌, ◌++◌, length, replicate}
use bpak.Int.{pos}
use bpak.Run.{◌>>=◌}
use bpak.Merkle.Walk.{Tree, TreeIo, write_chunk}
use bpak.Merkle.Walk.Chunks.{IsOpen, write_chunk-append}
use bpak.Examples.Payloads.{keep, keep-IsStreaming}

-- A tree whose bytes are only written.
abbrev write_only : TreeIo (List (ℕ × List ℕ))
write_only = record {
  wr = λ offset bytes w. (pos (length bytes), (offset, bytes) ∷ w);
  rd = λ offset n w. (record { count = pos 0; bytes = [] }, w);
}

-- Two bytes before the end of a block, in the data of a tree of one level.
abbrev near_end : Tree (List ℕ)
near_end = record {
  running_hash = replicate 40 5;
  buffer = replicate 32 0;
  layout = record { level_length = 4096 ∷ []; level_offset = 0 ∷ []; hash_tree_length = 4096 };
  input_chunk_counter = 0;
  block_byte_counter = 2;
  input_data_length = 8192;
  salt = 7 ∷ [];
  finished = false;
  offset = 100;
}

near_end-IsOpen : IsOpen keep write_only near_end
near_end-IsOpen = record { some_left = omega arith; block_left = omega arith; long = omega arith }

write_chunk-append_example : write_chunk keep write_only near_end ((1 ∷ []) ++ (2 ∷ 3 ∷ [])) ≡ (
    write_chunk keep write_only near_end (1 ∷ []) >>= λ c'.
    write_chunk keep write_only c' (2 ∷ 3 ∷ []))
write_chunk-append_example =
    write_chunk-append keep write_only near_end (1 ∷ []) (2 ∷ 3 ∷ []) keep-IsStreaming
      near_end-IsOpen
