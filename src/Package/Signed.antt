-- ===== src/Package/Signed.antt =====
-- A package that `bpak_pkg_sign` has signed against `bpak_pkg_verify`.
use bpak.Prelude.{
  ℕ, ◌%◌, ◌^◌, ◌≤◌, ◌≡◌, ◌≢◌, refl, sym, ap, ◌∙◌, subst, Bool, true, false, Option, none, some,
  List, [], ◌∷◌, length, take, replicate, overlay, length-overlay, arith, ◌==◌, if◌then◌else◌,
}
use bpak.Run.{Rc, Run, done, pure, lift, raise, ◌>>=◌}
use bpak.Status.{Result, ok, err, verify_fail, seek_error, write_error}
use bpak.Header.Bytes.{header_bytes}
use bpak.Header.{Header, header_size, signature_max_bytes}
use bpak.Payload.{Hash, compute_payload_hash}
use bpak.Payload.Meaning.{IsStreaming}
use bpak.Merkle.Walk.Agree.{bind_done}
use bpak.Verify.{verify_payload}
use bpak.Verify.HeaderHash.{IsPacked, compute_header_hash, compute_header_hash_lem}
use bpak.Package.{
  Stdio, Crypto, hash_output, read_payload, write_header, with_signature, write_raw_signature,
  update_payload_hash, update_hash, sign_header, pkg_sign, pkg_verify,
}

take-overlay : (xs bs : List ℕ) → length xs ≤ length bs → take (length xs) (overlay xs bs) ≡ xs
unfolding overlay
take-overlay [] bs h = refl
take-overlay (x ∷ xs) [] h = absurd (omega arith)
take-overlay (x ∷ xs) (b ∷ bs) h = ap (λ t. x ∷ t) (take-overlay xs bs (omega arith))

-- The header of a run's state.
header_of : {A W : Type 0} → Header → Option (Rc A × (Header × W)) → Header
header_of h none = h
header_of h (some (r, (h', w))) = h'

module _ {W S K : Type 0} (stdio : Stdio W) (hash : Hash S) (crypto : Crypto K) where
  with_payload_hash : List ℕ → Header → Header
  with_payload_hash p h = record h { payload_hash = overlay p h.payload_hash }

  update_payload_hash_done :
      (h h' : Header) (w w' : W) (u : Unit {0})
      → update_payload_hash stdio hash (h, w) ≡ some (done u, (h', w'))
      → (p : List ℕ) × (with_payload_hash p h ≡ h')
  unfolding update_payload_hash with_payload_hash raise header_of
  update_payload_hash_done h h' w w' u e =
      by_result (compute_payload_hash hash (read_payload stdio) h header_size 64 w) e
    where
      by_result :
          (r : Option (Result (List ℕ) × W))
          → (elim r as (λ _. Option (Rc (Unit {0}) × (Header × W))) [
            | none ↦ none
            | some (err e, w1) ↦ raise e (h, w1)
            | some (ok digest, w1) ↦
                some (done tt, (record h { payload_hash = overlay digest h.payload_hash }, w1))
          ])
            ≡ some (done u, (h', w'))
          → (p : List ℕ) × (with_payload_hash p h ≡ h')
      by_result none k = absurd (cc k)
      by_result (some (err x, w1)) k = absurd (cc k)
      by_result (some (ok p, w1)) k = (p, ap (header_of h) k)

  -- The header is the same behind every return.
  header_of-write_header : (g : Header) (w : W) → header_of g (write_header stdio (g, w)) ≡ g
  unfolding write_header raise header_of
  header_of-write_header g w =
      by_test (stdio.fseek 0 w).0
        ((stdio.fwrite (header_bytes g) (stdio.fseek 0 w).1).0 == header_size)
    where
      by_test :
          (b c : Bool)
          → header_of g (elim b as (λ _. Option (Rc (Unit {0}) × (Header × W))) [
            | false ↦ raise seek_error (g, (stdio.fseek 0 w).1)
            | true ↦
                if c
                then some (done tt, (g, (stdio.fwrite (header_bytes g) (stdio.fseek 0 w).1).1))
                else raise write_error (g, (stdio.fwrite (header_bytes g) (stdio.fseek 0 w).1).1)
          ])
            ≡ g
      by_test false c = refl
      by_test true true = refl
      by_test true false = refl

  signed_done :
      (h h' : Header) (w w' : W) (key : K) (digest : List ℕ)
      → sign_header stdio hash crypto key digest (h, w) ≡ some (done tt, (h', w'))
      → (s : List ℕ) × (crypto.sign digest h.hash_kind key signature_max_bytes ≡ ok s)
        × (with_signature s h ≡ h')
  unfolding sign_header write_raw_signature raise header_of
  signed_done h h' w w' key digest e =
      by_result (crypto.sign digest h.hash_kind key signature_max_bytes) refl e
    where
      by_result :
          (r : Result (List ℕ))
          → crypto.sign digest h.hash_kind key signature_max_bytes ≡ r
          → (elim r as (λ _. Option (Rc (Unit {0}) × (Header × W))) [
            | err e ↦ raise e (record h { signature = replicate signature_max_bytes 0 }, w)
            | ok s ↦ write_raw_signature stdio s (h, w)
          ])
            ≡ some (done tt, (h', w'))
          → (s : List ℕ) × (crypto.sign digest h.hash_kind key signature_max_bytes ≡ ok s)
            × (with_signature s h ≡ h')
      by_result (err x) c k = absurd (cc k)
      by_result (ok s) c k = (
        s,
        c,
        sym (header_of-write_header (with_signature s h) w) ∙ ap (header_of (with_signature s h)) k,
      )

  -- The header hash of a header with another signature.
  compute_header_hash-with_signature :
      (h : Header) (s : List ℕ) (n : ℕ)
      → IsStreaming hash
      → IsPacked h
      → IsPacked (with_signature s h)
      → compute_header_hash hash (with_signature s h) n ≡ compute_header_hash hash h n
  unfolding with_signature
  compute_header_hash-with_signature h s n streaming packed packed' =
      compute_header_hash_lem hash streaming (with_signature s h) n packed'
      ∙ sym (compute_header_hash_lem hash streaming h n packed)

  with_signature-IsPacked : (s : List ℕ) (h : Header) → IsPacked h → IsPacked (with_signature s h)
  unfolding with_signature
  with_signature-IsPacked s h packed = record {
    sized = record {
      meta_slots = packed.sized.meta_slots;
      part_slots = packed.sized.part_slots;
      data_bytes = packed.sized.data_bytes;
      signature_room = length-overlay s (replicate signature_max_bytes 0);
    };
    hash_room = packed.hash_room;
    pad_room = packed.pad_room;
  }

  with_payload_hash-IsPacked :
      (p : List ℕ) (h : Header) → IsPacked h → IsPacked (with_payload_hash p h)
  unfolding with_payload_hash
  with_payload_hash-IsPacked p h packed = record {
    sized = record {
      meta_slots = packed.sized.meta_slots;
      part_slots = packed.sized.part_slots;
      data_bytes = packed.sized.data_bytes;
      signature_room = packed.sized.signature_room;
    };
    hash_room = length-overlay p h.payload_hash ∙ packed.hash_room;
    pad_room = packed.pad_room;
  }

  -- The bytes of a signature that fits are read back.
  signature-with_signature :
      (s : List ℕ) (h : Header)
      → length s ≤ signature_max_bytes
      → take (with_signature s h).signature_sz (with_signature s h).signature ≡ s
  unfolding with_signature
  signature-with_signature s h fits =
      let size : length s % 2 ^ 16 ≡ length s = omega arith in
      ap (λ n. take n (overlay s (replicate signature_max_bytes 0))) size
      ∙ take-overlay s (replicate signature_max_bytes 0) fits

lift_done :
    {W A : Type 0} (r : Result A) (w w' : W) (a : A)
    → lift r w ≡ some (done a, w')
    → (r ≡ ok a) × (w ≡ w')
unfolding lift raise
lift_done (err e) w w' a h = absurd (cc h)
lift_done (ok b) w w' a h = (cc h, cc h)

module _ {W S K : Type 0} (stdio : Stdio W) (hash : Hash S) (crypto : Crypto K) where
  update_hash_done :
      (buffer : List ℕ) (h h' : Header) (w w' : W) (digest : List ℕ)
      → update_hash stdio hash buffer (h, w) ≡ some (done digest, (h', w'))
      → (p : List ℕ) × (r : Option (List ℕ)) × (compute_header_hash hash h' (length buffer) ≡ ok r)
        × (digest ≡ hash_output buffer r)
        × (with_payload_hash stdio hash crypto p h ≡ h')
  unfolding update_hash header_of
  update_hash_done buffer h h' w w' digest run =
      let (u, (g, v), first, second) =
        bind_done (update_payload_hash stdio hash)
          (λ _ (h, w).
            (lift (compute_header_hash hash h (length buffer)) >>= λ r. pure (hash_output buffer r))
              (h, w))
          (h, w) (h', w') digest run in
      let (r, (g', v'), hashed, last) =
        bind_done (lift (compute_header_hash hash g (length buffer)))
          (λ r. pure (hash_output buffer r)) (g, v) (h', w') digest second in
      let (p, stored) = update_payload_hash_done stdio hash crypto h g w v u first in
      let (computed, same) =
        lift_done (compute_header_hash hash g (length buffer)) (g, v) (g', v') r hashed in
      let kept : g ≡ h' = ap (λ s. s.0) same ∙ ap (header_of h) last in
      (
        p,
        r,
        ap (λ g. compute_header_hash hash g (length buffer)) (sym kept) ∙ computed,
        cc last,
        stored ∙ kept,
      )

  -- Verification up to the payload, of a header with the signature of its hash.
  pkg_verify-with_signature :
      (g : Header) (key : K) (digest s buffer : List ℕ) (zeroed : S) (v : W)
      → IsStreaming hash
      → IsPacked g
      → compute_header_hash hash g (length buffer) ≡ ok (some digest)
      → length s ≤ signature_max_bytes
      → crypto.verify s digest g.hash_kind key ≡ ok true
      → pkg_verify stdio hash crypto buffer zeroed key (with_signature s g) v
        ≡ verify_payload hash (read_payload stdio) zeroed (with_signature s g) header_size v
  unfolding pkg_verify with_signature lift hash_output
  pkg_verify-with_signature g key digest s buffer zeroed v streaming packed hashed fits verified =
      let h = with_signature s g in
      ap by_hash (
        compute_header_hash-with_signature stdio hash crypto g s (length buffer) streaming packed
          (with_signature-IsPacked stdio hash crypto s g packed)
        ∙ hashed)
      ∙ ap by_signature (
          ap (λ t. crypto.verify t digest g.hash_kind key)
            (signature-with_signature stdio hash crypto s g fits)
          ∙ verified)
    where
      payload : Run W (Unit {0})
      payload = verify_payload hash (read_payload stdio) zeroed (with_signature s g) header_size

      by_signature : Result Bool → Option (Rc (Unit {0}) × W)
      by_signature r =
          (lift r >>= λ b. (if b then pure tt else raise verify_fail) >>= λ _. payload) v

      by_hash : Result (Option (List ℕ)) → Option (Rc (Unit {0}) × W)
      by_hash r =
          (lift r >>= λ r.
          lift (
            crypto.verify (take (with_signature s g).signature_sz (with_signature s g).signature)
              (hash_output buffer r) g.hash_kind key)
          >>= λ b. (if b then pure tt else raise verify_fail) >>= λ _. payload)
            v

  -- What a pair of keys promises: a signature has at most 512 bytes, and the other key accepts it.
  abbrev pub IsPair : K → K → Type 0
  IsPair key public =
      (digest s : List ℕ) (kind : ℕ)
      → crypto.sign digest kind key signature_max_bytes ≡ ok s
      → (length s ≤ signature_max_bytes) × (crypto.verify s digest kind public ≡ ok true)

  -- With a streaming hash that does not fail on the header, and a key whose signatures the other key accepts:
  -- if `bpak_pkg_sign` succeeds on a header whose arrays have their C lengths, then `bpak_pkg_verify` of the
  -- header that it leaves, in any later state of the file, accepts the signature, and returns what the
  -- verification of the payload returns. The header hash does not change between the two.
  pub pkg_verify-pkg_sign :
      (buffer buffer' key_filename : List ℕ) (key public : K) (zeroed : S) (h h' : Header)
      (w w' v : W)
      → IsStreaming hash
      → ((g : Header) → compute_header_hash hash g (length buffer) ≢ ok none)
      → IsPair key public
      → IsPacked h
      → length buffer' ≡ length buffer
      → crypto.load_private_key key_filename ≡ ok key
      → pkg_sign stdio hash crypto buffer key_filename (h, w) ≡ some (done tt, (h', w'))
      → pkg_verify stdio hash crypto buffer' zeroed public h' v
        ≡ verify_payload hash (read_payload stdio) zeroed h' header_size v
  unfolding pkg_sign hash_output
  pkg_verify-pkg_sign buffer buffer' key_filename key public zeroed h h' w w' v streaming computes
        pair packed room load run =
      let (digest, (g, w1), hashed, next) =
        bind_done (update_hash stdio hash buffer)
          (λ digest. lift (crypto.load_private_key key_filename) >>= λ key.
            sign_header stdio hash crypto key digest)
          (h, w) (h', w') tt run in
      let (k, (g', w2), loaded, last) =
        bind_done (lift (crypto.load_private_key key_filename))
          (λ key. sign_header stdio hash crypto key digest) (g, w1) (h', w') tt next in
      let (p, r, computed, is_digest, stored) = update_hash_done buffer h g w w1 digest hashed in
      let (is_key, kept) =
        lift_done (crypto.load_private_key key_filename) (g, w1) (g', w2) k loaded in
      let (s, signature, signed) = signed_done stdio hash crypto g' h' w2 w' k digest last in
      let public_ok = pair digest s g.hash_kind (
        subst (λ k. crypto.sign digest g.hash_kind k signature_max_bytes ≡ ok s)
          (same_key (sym is_key ∙ load))
          (subst (λ (f : Header). crypto.sign digest f.hash_kind k signature_max_bytes ≡ ok s)
            (sym (ap (λ t. t.0) kept)) signature)) in
      subst
        (λ h'.
          pkg_verify stdio hash crypto buffer' zeroed public h' v
          ≡ verify_payload hash (read_payload stdio) zeroed h' header_size v)
        (ap (with_signature s) (ap (λ t. t.0) kept) ∙ signed)
        (pkg_verify-with_signature g public digest s buffer' zeroed v streaming
          (subst IsPacked stored (with_payload_hash-IsPacked stdio hash crypto p h packed))
          (ap (compute_header_hash hash g) room
            ∙ with_digest r digest computed (computes g) is_digest)
          public_ok.0 public_ok.1)
    where
      same_key : {a b : K} → ok a ≡ ok b → a ≡ b
      same_key e = cc e

      with_digest :
          {c : Result (Option (List ℕ))} (r : Option (List ℕ)) (digest : List ℕ)
          → c ≡ ok r
          → c ≢ ok none
          → digest ≡ hash_output buffer r
          → c ≡ ok (some digest)
      with_digest none digest e never is_digest = absurd (never e)
      with_digest (some d) digest e never is_digest = e ∙ ap (λ d. ok (some d)) (sym is_digest)
