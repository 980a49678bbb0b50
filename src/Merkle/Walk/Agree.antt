-- ===== src/Merkle/Walk/Agree.antt =====
-- Two sets of callbacks for the hash tree: if each write and read that succeeds with the first has the same
-- result with the second and leaves its state `v` as it is, then so has the making of the tree.
use bpak.Prelude.{
  ℕ, zero, suc, ◌+◌, ◌-◌, ◌/◌, min, Bool, true, false, Option, none, some, List, [], ◌∷◌, ◌==◌,
  ◌&&◌, if◌then◌else◌, length, get_or, take, drop, replicate, ◌≡◌, refl,
}
use bpak.Run.{Rc, done, fail, Run, pure, lift, raise, out_of_fuel, ◌>>=◌}
use bpak.Status.{Error, Result, ok, err}
use bpak.Header.{hash_sha256}
use bpak.Payload.{Hash}
use bpak.Merkle.{block_sz, Layout, init_layout}
use bpak.Merkle.Walk.{
  Tree, TreeIo, hash_bytes, close_block, write_at, read_at, zero_fill, merkle_init, start_hash,
  block_hash, write_digest, end_block, end_round, write_chunk_loop, write_chunk, read_hashes,
  hash_block, hash_level, hash_levels, merkle_finish,
}

-- What the first does well from any state the second does from `v`.
pub record Agree {W V A : Type 0} (v : V) (m : Run W A) (n : Run V A) : Type 0 where
  pub agree : (w w' : W) (a : A) → m w ≡ some (done a, w') → n v ≡ some (done a, v)

-- A bind that comes to a result has two parts that do.
pub bind_done :
    {W A B : Type 0} (m : Run W A) (f : A → Run W B) (w w' : W) (b : B)
    → (m >>= f) w ≡ some (done b, w')
    → (a : A) × (w1 : W) × (m w ≡ some (done a, w1)) × (f a w1 ≡ some (done b, w'))
bind_done {W} {A} {B} m f w w' b h = by_result (m w) refl h
  where
    by_result :
        (r : Option (Rc A × W))
        → m w ≡ r
        → (elim r [
          | none ↦ none
          | some (done a, w1) ↦ f a w1
          | some (fail rc, w1) ↦ some (fail rc, w1)
        ])
          ≡ some (done b, w')
        → (a : A) × (w1 : W) × (m w ≡ some (done a, w1)) × (f a w1 ≡ some (done b, w'))
    by_result none e k = absurd (cc k)
    by_result (some (done a, w1)) e k = (a, w1, e, k)
    by_result (some (fail rc, w1)) e k = absurd (cc k)

module _ {W V : Type 0} (v : V) where
  pub Agree-bind :
      {A B : Type 0} (m : Run W A) (n : Run V A) (f : A → Run W B) (g : A → Run V B)
      → Agree v m n
      → ((a : A) → Agree v (f a) (g a))
      → Agree v (m >>= f) (n >>= g)
  Agree-bind m n f g first rest = record {
    agree = λ w w' b h.
        let (a, w1, e, k) = bind_done m f w w' b h in
        rw (first.agree w w1 a e, ◌>>=◌) ((rest a).agree w1 w' b k);
  }

  pub Agree-pure : {A : Type 0} (a : A) → Agree v (pure {W = W} a) (pure a)
  Agree-pure a = record { agree = λ w w' b h. cc h }

  pub Agree-raise : {A : Type 0} (e : Error) (n : Run V A) → Agree v (raise {W = W} e) n
  unfolding raise
  Agree-raise e n = record { agree = λ w w' b h. absurd (cc h) }

  pub Agree-lift : {A : Type 0} (r : Result A) → Agree v (lift {W = W} r) (lift r)
  unfolding lift
  Agree-lift (ok a) = Agree-pure a
  Agree-lift (err e) = Agree-raise e (raise e)

  pub Agree-if :
      {A : Type 0} (b : Bool) (m m' : Run W A) (n n' : Run V A)
      → Agree v m n
      → Agree v m' n'
      → Agree v (if b then m else m') (if b then n else n')
  Agree-if true m m' n n' h k = h
  Agree-if false m m' n n' h k = k

  pub Agree-elim :
      {A : Type 0} (b : Bool) (m m' : Run W A) (n n' : Run V A)
      → Agree v m n
      → Agree v m' n'
      → Agree v
          (elim b as (λ _. Run W A) [ true ↦ m | false ↦ m' ])
          (elim b as (λ _. Run V A) [ true ↦ n | false ↦ n' ])
  Agree-elim true m m' n n' h k = h
  Agree-elim false m m' n n' h k = k

module _ {S W V : Type 0} (hash : Hash S) (io : TreeIo W) (io' : TreeIo V) (v : V)
    (writes : (offset : ℕ) (bytes : List ℕ)
      → Agree v (write_at hash io offset bytes) (write_at hash io' offset bytes))
    (reads : (offset n : ℕ) → Agree v (read_at hash io offset n) (read_at hash io' offset n)) where
  zero_fill-Agree :
      (n offset : ℕ) → Agree v (zero_fill hash io n offset) (zero_fill hash io' n offset)
  unfolding zero_fill
  zero_fill-Agree zero offset = Agree-pure v tt
  zero_fill-Agree (suc n) offset =
      Agree-bind v (write_at hash io offset (replicate hash_bytes 0))
        (write_at hash io' offset (replicate hash_bytes 0)) _ _
        (writes offset (replicate hash_bytes 0)) (λ _. zero_fill-Agree n (offset + hash_bytes))

  start_hash-Agree : (c : Tree S) → Agree v (start_hash hash io c) (start_hash hash io' c)
  unfolding start_hash
  start_hash-Agree c =
      Agree-bind v (lift (hash.init hash_sha256)) (lift (hash.init hash_sha256)) _ _
        (Agree-lift v (hash.init hash_sha256)) (λ s. Agree-lift v (hash.update s c.salt))

  block_hash-Agree : (c : Tree S) → Agree v (block_hash hash io c) (block_hash hash io' c)
  unfolding block_hash
  block_hash-Agree c =
      Agree-if v (c.block_byte_counter == block_sz) (start_hash hash io c) (pure c.running_hash)
        (start_hash hash io' c) (pure c.running_hash) (start_hash-Agree c)
        (Agree-pure v c.running_hash)

  write_digest-Agree :
      (c : Tree S) (s : S) → Agree v (write_digest hash io c s) (write_digest hash io' c s)
  unfolding write_digest
  write_digest-Agree c s =
      Agree-bind v (lift (hash.final s hash_bytes)) (lift (hash.final s hash_bytes)) _ _
        (Agree-lift v (hash.final s hash_bytes))
        (λ digest.
          Agree-bind v _ _ _ _
            (writes (c.offset + (c.input_chunk_counter + get_or c.layout.level_offset 0 0)) digest)
            (λ _. Agree-pure v digest))

  end_round-Agree :
      (c : Tree S) (s : S) (left : ℕ)
      → Agree v (end_round hash io c s left) (end_round hash io' c s left)
  unfolding end_round end_block
  end_round-Agree c s left =
      Agree-if v (left == 0) _ _ _ _
        (Agree-bind v (write_digest hash io c s) (write_digest hash io' c s) _ _
          (write_digest-Agree c s) (λ digest. Agree-pure v (close_block c s digest)))
        (Agree-pure v (record c { running_hash = s; block_byte_counter = left }))

  write_chunk_loop-Agree :
      (fuel : ℕ) (c : Tree S) (bytes : List ℕ)
      → Agree v (write_chunk_loop hash io fuel c bytes) (write_chunk_loop hash io' fuel c bytes)
  unfolding write_chunk_loop
  write_chunk_loop-Agree fuel c [] = Agree-pure v c
  write_chunk_loop-Agree zero c (b ∷ bs) = record { agree = λ w w' a h. absurd (cc h) }
  write_chunk_loop-Agree (suc fuel) c (b ∷ bs) =
      let n = min c.block_byte_counter (length (b ∷ bs)) in
      let left = c.block_byte_counter - n in
      Agree-bind v (block_hash hash io c) (block_hash hash io' c) _ _ (block_hash-Agree c) (λ s.
        Agree-bind v _ _ _ _ (Agree-lift v (hash.update s (take n (b ∷ bs)))) (λ s'.
          Agree-bind v _ _ _ _ (end_round-Agree c s' left) (λ c'.
            Agree-elim v (left == 0 && c.input_data_length == block_sz) (pure c') _ (pure c') _
              (Agree-pure v c') (write_chunk_loop-Agree fuel c' (drop n (b ∷ bs))))))

  pub write_chunk-Agree :
      (c : Tree S) (bytes : List ℕ)
      → Agree v (write_chunk hash io c bytes) (write_chunk hash io' c bytes)
  unfolding write_chunk
  write_chunk-Agree c bytes = write_chunk_loop-Agree (length bytes) c bytes

  read_hashes-Agree :
      (n offset : ℕ) (buffer : List ℕ) (s : S)
      → Agree v (read_hashes hash io n offset buffer s) (read_hashes hash io' n offset buffer s)
  unfolding read_hashes
  read_hashes-Agree zero offset buffer s = Agree-pure v (s, buffer)
  read_hashes-Agree (suc n) offset buffer s =
      Agree-bind v _ _ _ _ (reads offset hash_bytes) (λ buffer'.
        Agree-bind v _ _ _ _ (Agree-lift v (hash.update s buffer'))
          (λ s'. read_hashes-Agree n (offset + hash_bytes) buffer' s'))

  hash_block-Agree :
      (c : Tree S) (i o : ℕ) → Agree v (hash_block hash io c i o) (hash_block hash io' c i o)
  unfolding hash_block
  hash_block-Agree c i o = Agree-bind v _ _ _ _ (start_hash-Agree c) (λ s.
      Agree-bind v _ _ _ _ (read_hashes-Agree (block_sz / hash_bytes) (c.offset + i) c.buffer s)
        (λ r. Agree-bind v _ _ _ _ (Agree-lift v (hash.final r.0 hash_bytes)) (λ digest.
          Agree-bind v _ _ _ _ (writes (c.offset + o) digest)
            (λ _. Agree-pure v (record c { running_hash = r.0; buffer = digest })))))

  hash_level-Agree :
      (n i o : ℕ) (c : Tree S) → Agree v (hash_level hash io n i o c) (hash_level hash io' n i o c)
  unfolding hash_level
  hash_level-Agree zero i o c = Agree-pure v c
  hash_level-Agree (suc n) i o c =
      Agree-bind v _ _ _ _ (hash_block-Agree c i o)
        (λ c'. hash_level-Agree n (i + block_sz) (o + hash_bytes) c')

  hash_levels-Agree :
      (ls os : List ℕ) (c : Tree S)
      → Agree v (hash_levels hash io ls os c) (hash_levels hash io' ls os c)
  unfolding hash_levels
  hash_levels-Agree [] os c = Agree-pure v c
  hash_levels-Agree (l ∷ []) os c = Agree-pure v c
  hash_levels-Agree (l ∷ m ∷ ls) [] c = Agree-pure v c
  hash_levels-Agree (l ∷ m ∷ ls) (o ∷ []) c = Agree-pure v c
  hash_levels-Agree (l ∷ m ∷ ls) (o ∷ p ∷ os) c =
      Agree-bind v _ _ _ _ (hash_level-Agree (l / block_sz) o p c)
        (λ c'. hash_levels-Agree (m ∷ ls) (p ∷ os) c')

  pub merkle_init-Agree :
      (zeroed : S) (n : ℕ) (salt : List ℕ) (offset : ℕ) (b : Bool)
      → Agree v
          (merkle_init hash io zeroed n salt offset b)
          (merkle_init hash io' zeroed n salt offset b)
  unfolding merkle_init
  merkle_init-Agree zeroed n salt offset b = by_layout (init_layout n (length salt))
    where
      tree : Layout → Tree S
      tree layout = record {
        running_hash = zeroed;
        buffer = replicate hash_bytes 0;
        layout = layout;
        input_chunk_counter = 0;
        block_byte_counter = block_sz;
        input_data_length = n;
        salt = salt;
        finished = false;
        offset = offset;
      }

      fill : Layout → {X : Type 0} → TreeIo X → Run X (Tree S)
      fill layout i =
          (if b then zero_fill hash i (layout.hash_tree_length / hash_bytes) offset else pure tt)
          >>= λ _. pure (tree layout)

      by_layout :
          (r : Option (Result Layout))
          → Agree {A = Tree S} v
              (elim r as (λ _. Run W (Tree S)) [
                | none ↦ out_of_fuel
                | some (err e) ↦ raise e
                | some (ok layout) ↦ fill layout io
              ])
              (elim r as (λ _. Run V (Tree S)) [
                | none ↦ out_of_fuel
                | some (err e) ↦ raise e
                | some (ok layout) ↦ fill layout io'
              ])
      by_layout none = record { agree = λ w w' a h. absurd (cc h) }
      by_layout (some (err e)) = Agree-raise v e (raise e)
      by_layout (some (ok layout)) =
          Agree-bind v _ _ _ _
            (Agree-if v b _ (pure tt) _ (pure tt)
              (zero_fill-Agree (layout.hash_tree_length / hash_bytes) offset) (Agree-pure v tt))
            (λ _. Agree-pure v (tree layout))

  pub merkle_finish-Agree :
      (c : Tree S) → Agree v (merkle_finish hash io c) (merkle_finish hash io' c)
  unfolding merkle_finish
  merkle_finish-Agree c =
      let top = length c.layout.level_length - 1 in
      Agree-if v c.finished (pure (c, c.buffer)) _ (pure (c, c.buffer)) _
        (Agree-pure v (c, c.buffer))
        (Agree-bind v _ _ _ _ (hash_levels-Agree c.layout.level_length c.layout.level_offset c)
          (λ c'. Agree-bind v _ _ _ _ (start_hash-Agree c') (λ s.
            Agree-bind v _ _ _ _
              (read_hashes-Agree (get_or c.layout.level_length top 0 / hash_bytes)
                (c.offset + get_or c.layout.level_offset top 0) c'.buffer s)
              (λ r. Agree-bind v _ _ _ _ (Agree-lift v (hash.final r.0 hash_bytes)) (λ root.
                Agree-pure v
                  (record c' { running_hash = r.0; buffer = r.1; finished = true }, root))))))
