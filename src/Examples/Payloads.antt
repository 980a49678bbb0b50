-- ===== src/Examples/Payloads.antt =====
-- The payload hash with a hash function that keeps all bytes, over a file of sevens.
use native.Mathlib.Omega.{arith}
use bpak.Prelude.{
  ◌≤◌, ℕ, ◌≡◌, refl, sym, ap, List, [], ◌++◌, some, take, drop, length, replicate, append-nil,
  append_assoc,
}
use bpak.Int.{pos}
use bpak.Status.{ok}
use bpak.Patch.{ReadResult}
use bpak.Header.{part_size}
use bpak.Payload.{Hash, compute_payload_hash}
use bpak.Payload.Meaning.{IsStreaming, Reads, payload, payload_end, payload_hash}
use bpak.Examples.{sample}

abbrev pub keep : Hash (List ℕ)
keep = record {
  init = λ kind. ok [];
  update = λ s xs. ok (s ++ xs);
  final = λ s room. ok (take room s);
}

pub keep-IsStreaming : IsStreaming keep
keep-IsStreaming = record {
  update-nil = λ s. ap ok (append-nil s);
  update-append = λ s xs ys. ap ok (sym (append_assoc s xs ys));
}

abbrev sevens : List ℕ
sevens = replicate 900 7

abbrev read_sevens : ℕ → ℕ → Unit {0} → ReadResult × Unit {0}
read_sevens offset n w = (record { count = pos n; bytes = take n (drop offset sevens) }, w)

sevens-Reads : Reads read_sevens sevens
sevens-Reads offset n w fits = refl

enough_sevens : payload_end 0 sample.parts ≤ length sevens
unfolding payload_end part_size
enough_sevens = omega arith

payload_hash_example :
    compute_payload_hash keep read_sevens sample 0 64 tt
    ≡ some (ok (take 64 (payload sevens 0 sample.parts)), tt)
payload_hash_example =
    payload_hash keep-IsStreaming read_sevens sevens sevens-Reads sample 0 64 tt enough_sevens
