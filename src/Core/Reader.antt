-- ===== src/Core/Reader.antt =====
-- src/core/byte_reader.cpp. A read returns the reader that it leaves beside its result, so that a
-- parser is a chain of reads that stops at the first error.
pub mod Laws
use zet.Prelude.{
  ℕ, ◌+◌, ◌-◌, ◌*◌, ◌%◌, ◌^◌, Bool, List, [], ◌∷◌, Expected, ok, err, if◌then◌else◌, ltb, ◌==◌,
  length, take, drop,
}
use zet.Core.Error.{EProtoError, ProtoResult, truncated}

pub record ByteReader : Type 0 where
  pub bytes : List ℕ
  pub pos : ℕ

abbrev pub Read : Type 0 → Type 0
Read A = ByteReader → ByteReader × ProtoResult A

abbrev pub continue :
    {A B : Type 0} → (A → Read B) → ByteReader × ProtoResult A → ByteReader × ProtoResult B
continue f (r, ok a) = f a r
continue f (r, err e) = (r, err e)

infixl 5 ◌>>=◌ ◌>>◌
abbrev pub ◌>>=◌ : {A B : Type 0} → Read A → (A → Read B) → Read B
◌>>=◌ m f r = continue f (m r)

abbrev pub ◌>>◌ : {B : Type 0} → Read (Unit {0}) → Read B → Read B
m >> k = m >>= λ _. k

abbrev pub pure : {A : Type 0} → A → Read A
pure a r = (r, ok a)

abbrev pub fail : {A : Type 0} → EProtoError → Read A
fail e r = (r, err e)

-- `if (bad) return std::unexpected(e);`
abbrev pub reject_if : Bool → EProtoError → Read (Unit {0})
reject_if bad e = if bad then fail e else pure tt

unfoldable pub make : List ℕ → ByteReader
make bytes = record { bytes = bytes; pos = 0 }

-- The position never passes the end (`IsValid` in `Laws`), so this does not wrap.
unfoldable pub remaining : ByteReader → ℕ
remaining r = length r.bytes - r.pos

unfoldable pub exhausted : ByteReader → Bool
exhausted r = r.pos == length r.bytes

unfoldable pub rest : ByteReader → List ℕ
rest r = drop r.pos r.bytes

unfoldable pub read_bytes : ℕ → Read (List ℕ)
unfolding remaining
read_bytes count r =
    if ltb (remaining r) count
    then (r, err truncated)
    else (record r { pos = r.pos + count }, ok (take count (drop r.pos r.bytes)))

unfoldable pub skip : ℕ → Read (Unit {0})
unfolding remaining
skip count r =
    if ltb (remaining r) count
    then (r, err truncated)
    else (record r { pos = r.pos + count }, ok tt)

-- The shift loop over a type of `width` bytes: the byte shifted in meets only zero bits.
unfoldable pub decode_from : ℕ → ℕ → List ℕ → ℕ
decode_from width value [] = value
decode_from width value (b ∷ bs) = decode_from width (value * 256 % 256 ^ width + b) bs

unfoldable pub decode_be : ℕ → List ℕ → ℕ
unfolding decode_from
decode_be width bytes = decode_from width 0 bytes

unfoldable pub read_be : ℕ → Read ℕ
unfolding read_bytes decode_be
read_be width = do bytes ← read_bytes width; pure (decode_be width bytes)

abbrev pub read_u8 : Read ℕ
read_u8 = read_be 1

abbrev pub read_u16_be : Read ℕ
read_u16_be = read_be 2

abbrev pub read_u32_be : Read ℕ
read_u32_be = read_be 4

abbrev pub read_u64_be : Read ℕ
read_u64_be = read_be 8
