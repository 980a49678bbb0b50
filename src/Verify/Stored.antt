-- ===== src/Verify/Stored.antt =====
-- A hash tree that is accepted: its hashes, as the file stores them, are those that the check computes. The
-- check runs the code that makes a tree, without filling its room with zeroes first. The bytes of a level
-- behind its last hash are not compared with anything: they enter the hash of the level above as they stand.
-- The callers that make a tree do fill it, so nothing is said of their bytes there.
use bpak.Prelude.{
  ℕ, zero, suc, ◌+◌, ◌-◌, min, ◌≡◌, refl, sym, ap, ◌∙◌, Bool, true, false, Option, some, List, ◌==◌,
  ==_iff, if◌then◌else◌, length, take, drop, length-take, arith,
}
use bpak.Int.{ℤ, pos, negsuc}
use bpak.Run.{Rc, done, pure, raise, out_of_fuel, expect, ◌>>=◌}
use bpak.Status.{Error, write_error, read_error, bad_root_hash}
use bpak.Patch.{ReadResult}
use bpak.Payload.{Hash, chunk_buffer_length}
use bpak.Merkle.Walk.{Tree, hash_bytes, write_at, read_at}
use bpak.Merkle.Walk.Agree.{
  Agree, bind_done, Agree-bind, Agree-pure, Agree-if, Agree-elim, merkle_init-Agree,
  write_chunk-Agree, merkle_finish-Agree,
}
use bpak.Verify.{
  is_same, verify_loop, merkle_verify_wr, verify_io, read_chunk, feed_data, root_hash,
  verify_merkle_tree,
}
use bpak.Verify.Compared.{IsFile, read_whole, file_io, is_same-eq, splice-same, verify_loop-same}

-- A `ssize_t` that passes the tests is the length that was asked for.
expect_done :
    {W : Type 0} (x : ℤ) (n : ℕ) (e : Error) (w w' : W) (a : Unit {0})
    → expect x n e w ≡ some (done a, w')
    → x ≡ pos n
unfolding expect raise
expect_done (pos m) n e w w' a h = ap pos (ground arith)
expect_done (negsuc m) n e w w' a h = absurd (cc h)

-- What a read hands on.
received : {W : Type 0} → ℕ → ReadResult × W → Option (Rc (List ℕ) × W)
received n (r, w) = (expect r.count n read_error >>= λ _. pure r.bytes) w

-- A read that hands its bytes on has all of them.
received-whole :
    {W : Type 0} (n : ℕ) (r : ReadResult) (w w' : W) (a : List ℕ)
    → received n (r, w) ≡ some (done a, w')
    → (r.count ≡ pos n) × (r.bytes ≡ a)
unfolding received
received-whole n r w w' a h =
    let (u, w1, first, second) =
      bind_done (expect r.count n read_error) (λ _. pure r.bytes) w w' a h in
    (expect_done r.count n read_error w w1 u first, cc second)

pub accepted :
    {W : Type 0} (e : Error) (b : Bool) (w w' : W)
    → (if b then pure tt else raise e) w ≡ some (done tt, w')
    → b ≡ true
unfolding raise
accepted e true w w' h = refl
accepted e false w w' h = absurd (cc h)

module _ {S W : Type 0} (hash : Hash S) (read : ℕ → ℕ → W → ReadResult × W) (file : List ℕ)
    (reads : IsFile read file) where
  -- The same read of the file itself.
  received-stored :
      (offset n : ℕ) (w w' : W) (a : List ℕ)
      → received n (read offset n w) ≡ some (done a, w')
      → received n (file_io.rd offset n file) ≡ some (done a, file)
  unfolding received expect
  received-stored offset n w w' a h =
      let (whole, same) = received-whole n (read offset n w).0 (read offset n w).1 w' a h in
      let (inside, got) = read_whole read file reads offset n w whole in
      let full : (length (take n (drop offset file)) == n) ≡ true =
        (==_iff _ n).1 (length-take {0} n (drop offset file) ∙ omega (arith, inside)) in
      rw (full, ◌>>=◌) (ap (λ t. some (done t, file)) (sym got ∙ same))

  write_at-stored :
      (offset : ℕ) (bytes : List ℕ)
      → Agree file
          (write_at hash (verify_io read) offset bytes)
          (write_at hash file_io offset bytes)
  unfolding write_at merkle_verify_wr expect
  write_at-stored offset bytes = record {
    agree = λ w w' a h.
        let r = verify_loop read (length bytes) (length bytes) offset bytes w in
        let count = expect_done r.0 hash_bytes write_error r.1 w' a h in
        let (stored, size) =
          verify_loop-same read file reads (length bytes) (length bytes) offset bytes w hash_bytes
            (omega arith) count in
        rw (splice-same offset bytes file stored, sym size) refl;
  }

  read_at-stored :
      (offset n : ℕ)
      → Agree file (read_at hash (verify_io read) offset n) (read_at hash file_io offset n)
  unfolding read_at received
  read_at-stored offset n = record { agree = received-stored offset n }

  read_chunk-stored :
      (offset n : ℕ) → Agree file (read_chunk read offset n) (read_chunk file_io.rd offset n)
  unfolding read_chunk received
  read_chunk-stored offset n = record { agree = received-stored offset n }

  feed_data-stored :
      (rounds offset n : ℕ) (c : Tree S)
      → Agree file
          (feed_data hash (verify_io read) read rounds offset n c)
          (feed_data hash file_io file_io.rd rounds offset n c)
  unfolding feed_data
  feed_data-stored zero offset n c =
      Agree-if file (n == 0) (pure c) out_of_fuel (pure c) out_of_fuel (Agree-pure file c)
        (record { agree = λ w w' a h. absurd (cc h) })
  feed_data-stored (suc rounds) offset n c =
      let m = min n chunk_buffer_length in
      Agree-elim file (n == 0) (pure c) _ (pure c) _ (Agree-pure file c) (
        Agree-bind file _ _ _ _ (read_chunk-stored offset m) (λ bytes.
          Agree-bind file _ _ _ _
            (write_chunk-Agree hash (verify_io read) file_io file write_at-stored read_at-stored c
              bytes)
            (λ c'. feed_data-stored rounds (offset + m) (n - m) c')))

  root_hash-stored :
      (zeroed : S) (data_offset data_length tree_offset : ℕ) (salt : List ℕ) (b : Bool)
      → Agree file
          (root_hash hash (verify_io read) read zeroed data_offset data_length tree_offset salt b)
          (root_hash hash file_io file_io.rd zeroed data_offset data_length tree_offset salt b)
  unfolding root_hash
  root_hash-stored zeroed data_offset data_length tree_offset salt b =
      Agree-bind file _ _ _ _
        (merkle_init-Agree hash (verify_io read) file_io file write_at-stored read_at-stored zeroed
          data_length salt tree_offset b)
        (λ c.
          Agree-bind file _ _ _ _ (feed_data-stored data_length data_offset data_length c) (λ c'.
            Agree-bind file _ _ _ _
              (merkle_finish-Agree hash (verify_io read) file_io file write_at-stored read_at-stored
                c')
              (λ r. Agree-pure file r.1)))

  -- If the callback reads a file and `bpak_verify_merkle_tree` accepts a hash tree in it, then the same
  -- computation, from the same data and salt and without filling the tree with zeroes first, with callbacks
  -- that write the hashes into the file in place of comparing them, comes to the expected root hash and leaves
  -- every byte of the file as it was: every hash that it computes is the one that is stored. The bytes of a
  -- level behind its last hash are hashed as they stand.
  pub verify_merkle_tree-stored :
      (zeroed : S) (data_offset data_length tree_offset : ℕ) (expected salt : List ℕ) (w w' : W)
      → verify_merkle_tree hash read zeroed data_offset data_length tree_offset expected salt w
        ≡ some (done tt, w')
      → root_hash hash file_io file_io.rd zeroed data_offset data_length tree_offset salt false file
        ≡ some (done expected, file)
  unfolding verify_merkle_tree
  verify_merkle_tree-stored zeroed data_offset data_length tree_offset expected salt w w' h =
      let (root, w1, run, same) =
        bind_done
          (root_hash hash (verify_io read) read zeroed data_offset data_length tree_offset salt
            false)
          (λ root. if is_same root expected then pure tt else raise bad_root_hash) w w' tt h in
      (root_hash-stored zeroed data_offset data_length tree_offset salt false).agree w w1 root run
      ∙ ap (λ r. some (done r, file))
          (is_same-eq root expected (accepted bad_root_hash (is_same root expected) w1 w' same))
