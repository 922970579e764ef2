-- ===== src/Core/Writer/Laws.antt =====
-- What a chain of writes puts behind what is written.
use zet.Prelude.{
  ℕ, zero, suc, take-nil, ◌+◌, ◌≤◌, ◌<◌, ◌≡◌, ap, ◌∙◌, List, [], ◌∷◌, ◌++◌, append_assoc, ok, err,
  arith, length, take, overwrite, length-append, length-overwrite,
}
use zet.Core.Error.{buffer_too_small}
use zet.Core.Writer.{
  ByteWriter, make, Write, continue, remaining, written, write_bytes, write_be, encode_be, ◌>>◌,
}

pub record IsValid (w : ByteWriter) : Type 0 where
  pub within : w.pos ≤ length w.out

-- `action` puts `bytes` behind what is written, if there is room for them.
abbrev pub Writes : Write → List ℕ → Type 0
Writes action bytes =
    (w : ByteWriter)
    → IsValid w
    → length bytes ≤ remaining w
    → (w' : ByteWriter) × (action w ≡ (w', ok tt))
      × (written w' ≡ written w ++ bytes)
      × (remaining w' + length bytes ≡ remaining w)
      × IsValid w'

pub take-overwrite :
    (xs : List ℕ) (at : ℕ) (bytes : List ℕ)
    → at + length bytes ≤ length xs
    → take (at + length bytes) (overwrite xs at bytes) ≡ take at xs ++ bytes
take-overwrite [] zero [] h = take-nil ℕ (zero + zero)
take-overwrite [] zero (v ∷ vs) h = absurd (omega arith)
take-overwrite [] (suc at) bytes h = absurd (omega arith)
take-overwrite (x ∷ xs) zero [] h =
    ap (λ k. take k (x ∷ xs)) {x = zero + zero} {y = zero} (omega arith)
take-overwrite (x ∷ xs) zero (v ∷ vs) h =
    ap (λ k. take k (v ∷ overwrite xs zero vs)) {y = suc (zero + length vs)} (omega arith)
    ∙ ap (◌∷◌ v) (take-overwrite xs zero vs (omega arith))
take-overwrite (x ∷ xs) (suc at) bytes h =
    ap (λ k. take k (x ∷ overwrite xs at bytes)) {y = suc (at + length bytes)} (omega arith)
    ∙ ap (◌∷◌ x) (take-overwrite xs at bytes (omega arith))

pub Writes-bytes : (bytes : List ℕ) → Writes (write_bytes bytes) bytes
unfolding write_bytes written remaining
Writes-bytes bytes w v h = (
  record { out = overwrite w.out w.pos bytes; pos = w.pos + length bytes },
  ground arith,
  take-overwrite w.out w.pos bytes (omega arith),
  omega (arith, length-overwrite w.out w.pos bytes),
  omega (arith, length-overwrite w.out w.pos bytes),
)

pub Writes-be : (width n : ℕ) → Writes (write_be width n) (encode_be width n)
unfolding write_be
Writes-be width n = Writes-bytes (encode_be width n)

pub Writes-then :
    (p k : Write) (xs ys : List ℕ) → Writes p xs → Writes k ys → Writes (p >> k) (xs ++ ys)
Writes-then p k xs ys h g w v room =
    let (w', eq, out, left, valid) = h w v (omega (arith, length-append xs ys)) in
    let (w'', eq', out', left', valid') = g w' valid (omega (arith, left, length-append xs ys)) in
    (
      w'',
      ap (continue k) eq ∙ eq',
      out' ∙ ap (λ zs. zs ++ ys) out ∙ append_assoc (written w) xs ys,
      omega (arith, left, left', length-append xs ys),
      valid',
    )

-- A write that fails leaves the writer and its buffer as they were.
pub write_bytes_err :
    (bytes : List ℕ) (w : ByteWriter)
    → remaining w < length bytes
    → write_bytes bytes w ≡ (w, err buffer_too_small)
unfolding write_bytes
write_bytes_err bytes w h = ground arith

-- All that a chain of writes puts into a new writer.
pub Writes-make :
    {p : Write} {xs : List ℕ}
    → Writes p xs
    → (out : List ℕ) → length xs ≤ length out
    → ((p (make out)).1 ≡ ok tt) × (written (p (make out)).0 ≡ xs)
unfolding make written remaining
Writes-make h out room =
    let (w', eq, put, left, valid) = h (make out) (omega arith) (omega arith) in
    (ap (λ r. r.1) eq, ap (λ r. written r.0) eq ∙ put)
