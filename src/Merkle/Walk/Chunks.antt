-- ===== src/Merkle/Walk/Chunks.antt =====
-- `bpak_merkle_write_chunk` and how its input is cut.
use native.Mathlib.Omega.{arith}
use mathlib.Core.Path.{fun_ext}
use bpak.Prelude.{
  ℕ, zero, suc, ◌-◌, ◌≤◌, ◌<◌, ◌≡◌, ◌≢◌, refl, sym, ap, ◌∙◌, inl, inr, min, Bool, true, false,
  Bool-cases, List, [], ◌∷◌, ◌++◌, ◌==◌, ◌&&◌, length, length-take, length-drop, take, drop,
  take-drop,
}
use bpak.Run.{Run, pure, lift, ◌>>=◌, >>=-assoc, >>=-cong, >>=-pure, lift-bind}
use bpak.Status.{Result}
use bpak.Payload.{Hash}
use bpak.Payload.Meaning.{IsStreaming}
use bpak.Merkle.{block_sz}
use bpak.Merkle.Walk.{
  Tree, TreeIo, write_chunk_loop, write_chunk, block_hash, end_round, end_block, write_digest,
  close_block,
}

not_last :
    {A : Type 0} (t u : Bool) (x y : A)
    → u ≡ false
    → (elim (t && u) as (λ _. A) [ true ↦ x | false ↦ y ]) ≡ y
not_last true true x y e = cc
not_last true false x y e = refl
not_last false u x y e = refl

module _ {S W : Type 0} (hash : Hash S) (io : TreeIo W) where
  -- A context between two calls: a block is not complete.
  pub record IsOpen (c : Tree S) : Type 0 where
    pub some_left : 0 < c.block_byte_counter
    pub block_left : c.block_byte_counter ≤ block_sz
    pub long : c.input_data_length ≢ block_sz

  -- The reference: one byte at a time.
  feed : Tree S → ℕ → Run W (Tree S)
  feed c b = block_hash hash io c >>= λ s.
      lift (hash.update s (b ∷ [])) >>= λ s'. end_round hash io c s' (c.block_byte_counter - 1)

  pub feeds : Tree S → List ℕ → Run W (Tree S)
  feeds c [] = pure c
  feeds c (b ∷ bs) = feed c b >>= λ c'. feeds c' bs

  feeds-append :
      (c : Tree S) (xs ys : List ℕ) → feeds c (xs ++ ys) ≡ (feeds c xs >>= λ c'. feeds c' ys)
  unfolding feeds
  feeds-append c [] ys = refl
  feeds-append c (x ∷ xs) ys =
      ap (λ (f : Tree S → Run W (Tree S)). feed c x >>= f) (fun_ext λ c'. feeds-append c' xs ys)
      ∙ sym (>>=-assoc (feed c x) (λ c'. feeds c' xs) (λ c'. feeds c' ys))

  -- What follows the end of a round matters at open contexts only.
  end_round-cong :
      {A : Type 0} (c : Tree S) (s : S) (left : ℕ) (f g : Tree S → Run W A)
      → IsOpen c
      → left ≤ block_sz
      → ((c' : Tree S) → IsOpen c' → f c' ≡ g c')
      → (end_round hash io c s left >>= f) ≡ (end_round hash io c s left >>= g)
  unfolding end_round end_block
  end_round-cong {A} c s left f g o le h = elim (Bool-cases (left == 0)) [
    | inl full ↦
        let closed = λ (d : List ℕ). close_block c s d in
        let same = λ (d : List ℕ).
          h (closed d)
            (record { some_left = omega arith; block_left = omega arith; long = o.long }) in
        rw full (
          >>=-assoc (write_digest hash io c s) (λ d. pure (closed d)) f
          ∙ >>=-cong (write_digest hash io c s) (λ d. f (closed d)) (λ d. g (closed d)) same
          ∙ sym (>>=-assoc (write_digest hash io c s) (λ d. pure (closed d)) g))
    | inr open_block ↦ rw open_block (
        h (record c { running_hash = s; block_byte_counter = left })
          (record { some_left = ground arith; block_left = le; long = o.long }))
  ]

  feed-cong :
      {A : Type 0} (c : Tree S) (b : ℕ) (f g : Tree S → Run W A)
      → IsOpen c
      → ((c' : Tree S) → IsOpen c' → f c' ≡ g c')
      → (feed c b >>= f) ≡ (feed c b >>= g)
  unfolding feed
  feed-cong c b f g o h =
      let round : S → Run W (Tree S) = λ s.
        lift (hash.update s (b ∷ [])) >>= λ s'. end_round hash io c s' (c.block_byte_counter - 1) in
      >>=-assoc (block_hash hash io c) round f
      ∙ >>=-cong (block_hash hash io c) (λ s. round s >>= f) (λ s. round s >>= g)
          (λ s.
            >>=-assoc (lift (hash.update s (b ∷ [])))
              (λ s'. end_round hash io c s' (c.block_byte_counter - 1)) f
            ∙ >>=-cong (lift (hash.update s (b ∷ []))) _ _ (λ s'.
              end_round-cong c s' (c.block_byte_counter - 1) f g o (omega (arith, o.block_left)) h)
            ∙ sym (
                >>=-assoc (lift (hash.update s (b ∷ [])))
                  (λ s'. end_round hash io c s' (c.block_byte_counter - 1)) g))
      ∙ sym (>>=-assoc (block_hash hash io c) round g)

  feeds-cong :
      {A : Type 0} (c : Tree S) (bs : List ℕ) (f g : Tree S → Run W A)
      → IsOpen c
      → ((c' : Tree S) → IsOpen c' → f c' ≡ g c')
      → (feeds c bs >>= f) ≡ (feeds c bs >>= g)
  unfolding feeds
  feeds-cong c [] f g o h = h c o
  feeds-cong c (b ∷ bs) f g o h =
      >>=-assoc (feed c b) (λ c'. feeds c' bs) f
      ∙ feed-cong c b (λ c'. feeds c' bs >>= f) (λ c'. feeds c' bs >>= g) o
          (λ c' o'. feeds-cong c' bs f g o' h)
      ∙ sym (>>=-assoc (feed c b) (λ c'. feeds c' bs) g)

  abbrev opened : Tree S → S → Tree S
  opened c t = record c { running_hash = t; block_byte_counter = c.block_byte_counter - 1 }

  -- In the middle of a block a round goes on with the running hash.
  mid_block :
      {A : Type 0} (c : Tree S) (t : S) (f : S → Run W A)
      → 0 < c.block_byte_counter - 1
      → c.block_byte_counter ≤ block_sz
      → (block_hash hash io
            (record c { running_hash = t; block_byte_counter = c.block_byte_counter - 1 })
          >>= f)
        ≡ f t
  unfolding block_hash
  mid_block c t f pos le =
      let same : (c.block_byte_counter - 1 == block_sz) ≡ false = ground arith in rw same refl

  -- Some bytes of one block, at once or one at a time.
  burst : Tree S → List ℕ → S → Run W (Tree S)
  burst c bs s =
      lift (hash.update s bs) >>= λ s'. end_round hash io c s' (c.block_byte_counter - length bs)

  by_rest :
      (c : Tree S) (t : S) (ys : List ℕ)
      → 0 < c.block_byte_counter - 1
      → c.block_byte_counter ≤ block_sz
      → (block_hash hash io (opened c t) >>= burst (opened c t) ys) ≡ feeds (opened c t) ys
      → (lift (hash.update t ys) >>= λ s'.
          end_round hash io c s' (c.block_byte_counter - suc (length ys)))
        ≡ (end_round hash io c t (c.block_byte_counter - 1) >>= λ c'. feeds c' ys)
  unfolding end_round end_block write_digest burst
  by_rest c t ys pos le ih =
      let left : ℕ = c.block_byte_counter - 1 in
      let open_block : (left == 0) ≡ false = ground arith in
      let less : left - length ys ≡ c.block_byte_counter - suc (length ys) = omega arith in
      rw open_block (
        >>=-cong (lift (hash.update t ys)) _ _ (λ s'. ap (end_round hash io c s') (sym less))
        ∙ sym (mid_block c t (burst (opened c t) ys) pos le)
        ∙ ih)

  feeds-burst :
      (c : Tree S) (b : ℕ) (bs : List ℕ)
      → IsStreaming hash
      → IsOpen c
      → length (b ∷ bs) ≤ c.block_byte_counter
      → (block_hash hash io c >>= burst c (b ∷ bs)) ≡ feeds c (b ∷ bs)
  unfolding feeds feed burst end_round
  feeds-burst c b [] streaming o le = sym (>>=-pure (feed c b))
  feeds-burst c b (d ∷ bs) streaming o le =
      >>=-cong (block_hash hash io c) (burst c (b ∷ d ∷ bs)) (λ s. burst c (b ∷ []) s >>= rest)
        (by_update λ t. by_rest c t (d ∷ bs) (omega arith) o.block_left (
          feeds-burst (opened c t) d bs streaming
            (record {
              some_left = omega arith;
              block_left = omega (arith, o.block_left);
              long = o.long;
            })
            (omega arith)))
      ∙ sym (>>=-assoc (block_hash hash io c) (burst c (b ∷ [])) rest)
    where
      rest : Tree S → Run W (Tree S)
      rest c' = feeds c' (d ∷ bs)

      ending : S → Run W (Tree S)
      ending s' = end_round hash io c s' (c.block_byte_counter - length (b ∷ d ∷ bs))

      by_update :
          ((t : S)
            → (lift (hash.update t (d ∷ bs)) >>= ending)
              ≡ (end_round hash io c t (c.block_byte_counter - 1) >>= rest))
          → (s : S) → burst c (b ∷ d ∷ bs) s ≡ (burst c (b ∷ []) s >>= rest)
      by_update by_rest s =
          ap (λ (r : Result S). lift r >>= ending) (streaming.update-append s (b ∷ []) (d ∷ bs))
          ∙ ap (λ (m : Run W S). m >>= ending)
              (lift-bind (hash.update s (b ∷ [])) (λ t. hash.update t (d ∷ bs)))
          ∙ >>=-assoc (lift (hash.update s (b ∷ []))) (λ t. lift (hash.update t (d ∷ bs))) ending
          ∙ >>=-cong (lift (hash.update s (b ∷ []))) (λ t. lift (hash.update t (d ∷ bs)) >>= ending)
              (λ t. end_round hash io c t (c.block_byte_counter - 1) >>= rest) by_rest
          ∙ sym (
              >>=-assoc (lift (hash.update s (b ∷ [])))
                (λ t. end_round hash io c t (c.block_byte_counter - 1)) rest)

  -- A pass of the loop over `n` bytes.
  round : ℕ → Tree S → List ℕ → ℕ → Run W (Tree S)
  round fuel c bs n = block_hash hash io c >>= λ s. lift (hash.update s (take n bs)) >>= λ s'.
      end_round hash io c s' (c.block_byte_counter - n) >>= λ c'.
      elim (c.block_byte_counter - n == 0 && c.input_data_length == block_sz)
        as (λ _. Run W (Tree S)) [
          | true ↦ pure c'
          | false ↦ write_chunk_loop hash io fuel c' (drop n bs)
        ]

  -- The loop, with enough fuel.
  write_chunk_loop-feeds :
      (fuel : ℕ) (c : Tree S) (bs : List ℕ)
      → IsStreaming hash
      → IsOpen c
      → length bs ≤ fuel
      → write_chunk_loop hash io fuel c bs ≡ feeds c bs
  unfolding write_chunk_loop feeds round burst
  write_chunk_loop-feeds zero c [] streaming o le = refl
  write_chunk_loop-feeds (suc fuel) c [] streaming o le = refl
  write_chunk_loop-feeds zero c (b ∷ bs) streaming o le = absurd (omega arith)
  write_chunk_loop-feeds (suc fuel) c (b ∷ bs) streaming o le =
      let m : ℕ = min c.block_byte_counter (length (b ∷ bs)) - 1 in
      let n : min c.block_byte_counter (length (b ∷ bs)) ≡ suc m = omega (arith, o.some_left) in
      let len : length (take m bs) ≡ m = omega (arith, length-take m bs) in
      let short : (c.input_data_length == block_sz) ≡ false = ground (arith, o.long) in
      let rest = λ (c' : Tree S). feeds c' (drop m bs) in
      ap (round fuel c (b ∷ bs)) n
      ∙ >>=-cong (block_hash hash io c) _ (λ s. burst c (b ∷ take m bs) s >>= rest)
          (λ s.
            >>=-cong (lift (hash.update s (b ∷ take m bs))) _
              (λ s'.
                end_round hash io c s' (c.block_byte_counter - length (b ∷ take m bs)) >>= rest)
              (λ s'.
                end_round-cong c s' (c.block_byte_counter - suc m) _ rest o
                  (omega (arith, o.block_left))
                  (λ c' o'.
                    not_last (c.block_byte_counter - suc m == 0) (c.input_data_length == block_sz)
                      (pure c') _ short
                    ∙ write_chunk_loop-feeds fuel c' (drop m bs) streaming o'
                        (omega (arith, length-drop m bs)))
                ∙ ap (λ k. end_round hash io c s' (c.block_byte_counter - suc k) >>= rest)
                    (sym len))
            ∙ sym (
                >>=-assoc (lift (hash.update s (b ∷ take m bs)))
                  (λ s'. end_round hash io c s' (c.block_byte_counter - length (b ∷ take m bs)))
                  rest))
      ∙ sym (>>=-assoc (block_hash hash io c) (burst c (b ∷ take m bs)) rest)
      ∙ ap (λ (k : Run W (Tree S)). k >>= rest)
          (feeds-burst c b (take m bs) streaming o (omega (arith, len)))
      ∙ sym (feeds-append c (b ∷ take m bs) (drop m bs))
      ∙ ap (λ t. feeds c (b ∷ t)) (take-drop m bs)

  write_chunk-feeds :
      (c : Tree S) (bs : List ℕ)
      → IsStreaming hash
      → IsOpen c
      → write_chunk hash io c bs ≡ feeds c bs
  unfolding write_chunk
  write_chunk-feeds c bs streaming o =
      write_chunk_loop-feeds (length bs) c bs streaming o (omega arith)

  -- The hash tree does not depend on how its data is cut: with a streaming hash, one call of
  -- `bpak_merkle_write_chunk` on two byte strings behind each other does what two calls in a row do, with
  -- the same context, the same calls of the callbacks and the same error. The context has a block that is
  -- not complete, and the data is not exactly one block.
  pub write_chunk-append :
      (c : Tree S) (xs ys : List ℕ)
      → IsStreaming hash
      → IsOpen c
      → write_chunk hash io c (xs ++ ys)
        ≡ (write_chunk hash io c xs >>= λ c'. write_chunk hash io c' ys)
  write_chunk-append c xs ys streaming o =
      write_chunk-feeds c (xs ++ ys) streaming o
      ∙ feeds-append c xs ys
      ∙ feeds-cong c xs (λ c'. feeds c' ys) (λ c'. write_chunk hash io c' ys) o
          (λ c' o'. sym (write_chunk-feeds c' ys streaming o'))
      ∙ ap (λ (m : Run W (Tree S)). m >>= λ c'. write_chunk hash io c' ys)
          (sym (write_chunk-feeds c xs streaming o))
