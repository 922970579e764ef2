-- ===== src/Core/Writer.antt =====
-- src/core/byte_writer.cpp. A write returns the writer that it leaves beside its result.
pub mod Laws
use zet.Prelude.{
  ℕ, zero, suc, ◌+◌, ◌-◌, ◌/◌, ◌%◌, ◌^◌, Bool, List, [], ◌∷◌, Expected, ok, err, if◌then◌else◌, ltb,
  length, take, overwrite,
}
use zet.Core.Error.{EProtoError, ProtoResult, buffer_too_small}

pub record ByteWriter : Type 0 where
  pub out : List ℕ
  pub pos : ℕ

abbrev pub Write : Type 0
Write = ByteWriter → ByteWriter × ProtoResult (Unit {0})

abbrev pub continue :
    Write → ByteWriter × ProtoResult (Unit {0}) → ByteWriter × ProtoResult (Unit {0})
continue k (w, ok tt) = k w
continue k (w, err e) = (w, err e)

infixl 5 ◌>>◌
abbrev pub ◌>>◌ : Write → Write → Write
◌>>◌ m k w = continue k (m w)

abbrev pub done : Write
done w = (w, ok tt)

abbrev pub reject_if : Bool → EProtoError → Write
reject_if bad e w = if bad then (w, err e) else (w, ok tt)

unfoldable pub make : List ℕ → ByteWriter
make out = record { out = out; pos = 0 }

unfoldable pub remaining : ByteWriter → ℕ
remaining w = length w.out - w.pos

unfoldable pub written : ByteWriter → List ℕ
written w = take w.pos w.out

-- `Reserve`, and the copy into what it reserved.
unfoldable pub write_bytes : List ℕ → Write
unfolding remaining
write_bytes bytes w =
    if ltb (remaining w) (length bytes)
    then (w, err buffer_too_small)
    else (record { out = overwrite w.out w.pos bytes; pos = w.pos + length bytes }, ok tt)

-- `out[i] = (value >> ((width - 1 - i) * 8)) & 0xFF`
unfoldable pub encode_be : ℕ → ℕ → List ℕ
encode_be zero value = []
encode_be (suc k) value = (value / 256 ^ k % 256) ∷ encode_be k value

unfoldable pub write_be : ℕ → ℕ → Write
unfolding write_bytes
write_be width value = write_bytes (encode_be width value)

abbrev pub write_u8 : ℕ → Write
write_u8 = write_be 1

abbrev pub write_u16_be : ℕ → Write
write_u16_be = write_be 2

abbrev pub write_u32_be : ℕ → Write
write_u32_be = write_be 4

abbrev pub write_u64_be : ℕ → Write
write_u64_be = write_be 8
