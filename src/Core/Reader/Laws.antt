-- ===== src/Core/Reader/Laws.antt =====
-- What a chain of reads takes off the front of the bytes that are left.
use zet.Prelude.{
  ℕ, zero, suc, ◌+◌, ◌-◌, ◌^◌, ◌≤◌, ◌<◌, ◌≡◌, refl, sym, ap, ◌∙◌, ◌⊎◌, true, List, [], ◌++◌,
  append_assoc, ok, err, inl, inr, dec_lt, arith, length, take, drop, length-append, length-drop,
  take-append, drop-append, drop-drop, le→ltb,
}
use zet.Core.Error.{truncated}
use zet.Core.Reader.{
  ByteReader, make, Read, continue, pure, exhausted, rest, read_bytes, decode_be, read_be, ◌>>=◌,
}
use zet.Core.Writer.{encode_be}

pub record IsValid (r : ByteReader) : Type 0 where
  pub within : r.pos ≤ length r.bytes

-- From a valid reader, a read that fails leaves the reader as it was, and one that succeeds takes
-- its bytes off the front of what is left; either way the position stays within the bytes.
pub read_bytes_lem :
    {r : ByteReader} (count : ℕ)
    → IsValid r
    → let (r', x) = read_bytes count r in
      IsValid r'
      × (((count ≤ length (rest r))
            × (x ≡ ok (take count (rest r)))
            × (rest r' ≡ drop count (rest r)))
          ⊎ ((length (rest r) < count) × (x ≡ err truncated) × (r' ≡ r)))
unfolding read_bytes rest
read_bytes_lem {r} count v = elim (dec_lt (length (drop r.pos r.bytes)) count) [
  | yes p ↦ (
    ground (arith, length-drop r.pos r.bytes),
    inr (p, ground (arith, length-drop r.pos r.bytes), ground (arith, length-drop r.pos r.bytes)),
  )
  | no p ↦ (
    ground (arith, length-drop r.pos r.bytes),
    inl (
      omega arith,
      ground (arith, length-drop r.pos r.bytes),
      ground (arith, length-drop r.pos r.bytes, drop-drop count r.pos r.bytes),
    ),
  )
]

-- `p` reads exactly the bytes `xs`, whatever follows them, and gives `v`.
abbrev pub Reads : {A : Type 0} → Read A → List ℕ → A → Type 0
Reads p xs v =
    (r : ByteReader) (ys : List ℕ)
    → IsValid r
    → rest r ≡ xs ++ ys
    → (r' : ByteReader) × (p r ≡ (r', ok v)) × (rest r' ≡ ys) × IsValid r'

-- `p` reads all that is left, which is `xs`, and gives `v`.
abbrev pub Parses : {A : Type 0} → Read A → List ℕ → A → Type 0
Parses p xs v = (r : ByteReader) → IsValid r → rest r ≡ xs → (p r).1 ≡ ok v

pub Reads-bytes : (n : ℕ) (xs : List ℕ) → length xs ≡ n → Reads (read_bytes n) xs xs
unfolding read_bytes rest
Reads-bytes n xs e r ys v h =
    let room : n + length ys ≡ length r.bytes - r.pos =
      omega (arith, ap length h, length-append xs ys, length-drop r.pos r.bytes) in
    (
      record r { pos = r.pos + n },
      rw (le→ltb (length r.bytes - r.pos) n (omega (arith, room))) (
          ap (λ zs. (record r { pos = r.pos + n }, ok zs))
            (ap (take n) h ∙ ap (λ k. take k (xs ++ ys)) (sym e) ∙ take-append xs ys)),
      sym (drop-drop n r.pos r.bytes)
          ∙ ap (drop n) h
          ∙ ap (λ k. drop k (xs ++ ys)) (sym e)
          ∙ drop-append xs ys,
      omega (arith, room, ap length h, length-append xs ys, length-drop r.pos r.bytes),
    )

pub Reads-bind :
    {A B : Type 0} (p : Read A) (f : A → Read B) (xs ys : List ℕ) {a : A} {b : B}
    → Reads p xs a
    → Reads (f a) ys b
    → Reads (p >>= f) (xs ++ ys) b
Reads-bind p f xs ys h k r zs v e =
    let (r', eq, left, valid) = h r (ys ++ zs) v (e ∙ append_assoc xs ys zs) in
    let (r'', eq', left', valid') = k r' zs valid left in
    (r'', ap (continue f) eq ∙ eq', left', valid')

pub Parses-bind :
    {A B : Type 0} (p : Read A) (f : A → Read B) (xs ys : List ℕ) {a : A} {b : B}
    → Reads p xs a
    → Parses (f a) ys b
    → Parses (p >>= f) (xs ++ ys) b
Parses-bind p f xs ys h k r v e =
    let (r', eq, left, valid) = h r ys v e in ap (λ x. (continue f x).1) eq ∙ k r' valid left

decode-encode_1 : (n : ℕ) → n < 256 → decode_be 1 (encode_be 1 n) ≡ n
unfolding decode_be encode_be
decode-encode_1 n h = omega arith

decode-encode_2 : (n : ℕ) → n < 2 ^ 16 → decode_be 2 (encode_be 2 n) ≡ n
unfolding decode_be encode_be
decode-encode_2 n h = omega arith

decode-encode_4 : (n : ℕ) → n < 2 ^ 32 → decode_be 4 (encode_be 4 n) ≡ n
unfolding decode_be encode_be
decode-encode_4 n h = omega arith

pub decode-encode_8 : (n : ℕ) → n < 2 ^ 64 → decode_be 8 (encode_be 8 n) ≡ n
unfolding decode_be encode_be
decode-encode_8 n h = omega arith

pub length-encode_be : (k n : ℕ) → length (encode_be k n) ≡ k
unfolding encode_be
length-encode_be zero n = refl
length-encode_be (suc k) n = ap suc (length-encode_be k n)

Reads-be :
    (width n : ℕ)
    → decode_be width (encode_be width n) ≡ n
    → Reads (read_be width) (encode_be width n) n
unfolding read_be
Reads-be width n e r ys v h =
    let (r', eq, left, valid) =
      Reads-bytes width (encode_be width n) (length-encode_be width n) r ys v h in
    (
      r',
      ap (continue (λ bytes. pure (decode_be width bytes))) eq ∙ ap (λ k. (r', ok k)) e,
      left,
      valid,
    )

pub Reads-u8 : (n : ℕ) → n < 256 → Reads (read_be 1) (encode_be 1 n) n
Reads-u8 n h = Reads-be 1 n (decode-encode_1 n h)

pub Reads-u16 : (n : ℕ) → n < 2 ^ 16 → Reads (read_be 2) (encode_be 2 n) n
Reads-u16 n h = Reads-be 2 n (decode-encode_2 n h)

pub Reads-u32 : (n : ℕ) → n < 2 ^ 32 → Reads (read_be 4) (encode_be 4 n) n
Reads-u32 n h = Reads-be 4 n (decode-encode_4 n h)

pub Reads-u64 : (n : ℕ) → n < 2 ^ 64 → Reads (read_be 8) (encode_be 8 n) n
Reads-u64 n h = Reads-be 8 n (decode-encode_8 n h)

-- The reader is at its end exactly when nothing is left.
pub exhausted-rest : {r : ByteReader} → IsValid r → rest r ≡ [] → exhausted r ≡ true
unfolding exhausted rest
exhausted-rest {r} v e = ground (arith, ap length e, length-drop r.pos r.bytes)

pub make-IsValid : (bytes : List ℕ) → IsValid (make bytes)
unfolding make
make-IsValid bytes = omega arith

pub rest-make : (bytes : List ℕ) → rest (make bytes) ≡ bytes
unfolding make rest
rest-make bytes = refl
