-- ===== src/Wire/SealedFrame.antt =====
-- src/wire/sealed_frame.cpp: frames sealed in one direction of a connection, with their counters
-- and the generations of their key. A method returns the new state beside its result.
pub mod Laws
pub mod Transfer
pub mod Last
pub mod Nonces
use zet.Prelude.{
  ℕ, ◌+◌, ◌-◌, ◌%◌, ◌^◌, Bool, true, false, ◌||◌, ◌&&◌, List, [], ◌∷◌, ◌++◌, Expected, ok, err,
  if◌then◌else◌, ltb, leb, ◌==◌, not, length, replicate, add64, u32_mod,
}
use zet.Core.Error.{
  EProtoError, ProtoResult, rekey_required, length_limit_exceeded, buffer_too_small,
  epochs_exhausted, authentication_failed,
}
use zet.Core.Writer
use zet.Core.Writer.{encode_be}
use zet.Crypto.{Sodium, aead_seal, aead_open, derive_subkey}
use zet.Wire.Limits.{header_size, max_frame, tag_size, key_size}
use zet.Wire.Frame.{FrameHeader, FrameView, write_frame_header}

-- The characters of "zet-rkey", with the zero at their end.
abbrev pub rekey_context : List ℕ
rekey_context = 122 ∷ 101 ∷ 116 ∷ 45 ∷ 114 ∷ 107 ∷ 101 ∷ 121 ∷ 0 ∷ []

abbrev pub salt_size : ℕ
salt_size = 16

abbrev pub max_frames_per_epoch : ℕ
max_frames_per_epoch = 2 ^ 24

abbrev pub max_bytes_per_epoch : ℕ
max_bytes_per_epoch = 2 ^ 30

-- `MakeNonce`: the salt, and the counter behind it.
unfoldable pub make_nonce : List ℕ → ℕ → List ℕ
make_nonce salt counter = salt ++ encode_be 8 counter

-- The header as `WriteFrameHeader` leaves it in a buffer of its size.
unfoldable pub header_bytes_of : FrameHeader → List ℕ
header_bytes_of header =
    Writer.written (write_frame_header header (Writer.make (replicate header_size 0))).0

pub record FrameSealer : Type 0 where
  pub key : List ℕ
  pub salt : List ℕ
  pub frame_limit : ℕ
  pub byte_limit : ℕ
  pub counter : ℕ
  pub bytes_sealed : ℕ
  pub epoch : ℕ

unfoldable pub sealer_of : List ℕ → List ℕ → ℕ → ℕ → FrameSealer
sealer_of key salt frame_limit byte_limit = record {
  key = key;
  salt = salt;
  frame_limit = frame_limit;
  byte_limit = byte_limit;
  counter = 0;
  bytes_sealed = 0;
  epoch = 0;
}

-- The end of `Seal`, by what the encryption returned.
abbrev pub seal_with :
    FrameSealer → List ℕ → List ℕ → ProtoResult (List ℕ) → FrameSealer × ProtoResult (List ℕ)
seal_with s header plaintext (err e) = (s, err e)
seal_with s header plaintext (ok sealed) = (
  record s { counter = add64 s.counter 1; bytes_sealed = add64 s.bytes_sealed (length plaintext) },
  ok (header ++ sealed),
)

-- The result is the frame. The length is cast to 32 bits, which `max_frame` fits.
unfoldable pub seal : Sodium → FrameSealer → ℕ → List ℕ → FrameSealer × ProtoResult (List ℕ)
seal c s room plaintext =
    let body_length = length plaintext + tag_size in
    let header = header_bytes_of (record { size = body_length % u32_mod; epoch = s.epoch }) in
    if leb s.frame_limit s.counter
    then (s, err rekey_required)
    else if ltb max_frame body_length
    then (s, err length_limit_exceeded)
    else if ltb room (header_size + body_length)
    then (s, err buffer_too_small)
    else seal_with s header plaintext
        (aead_seal c (room - header_size) plaintext header s.key (make_nonce s.salt s.counter))

unfoldable pub needs_rekey : FrameSealer → Bool
needs_rekey s = leb s.frame_limit s.counter || leb s.byte_limit s.bytes_sealed

unfoldable pub rekey : Sodium → FrameSealer → FrameSealer × ProtoResult (Unit {0})
rekey c s = if s.epoch == 0xff then (s, err epochs_exhausted) else (
  record s {
    key = derive_subkey c s.key (s.epoch + 1) rekey_context;
    epoch = s.epoch + 1;
    counter = 0;
    bytes_sealed = 0;
  },
  ok tt,
)

pub record FrameOpener : Type 0 where
  pub key : List ℕ
  pub next_key : List ℕ
  pub salt : List ℕ
  pub frame_limit : ℕ
  pub counter : ℕ
  pub next_counter : ℕ
  pub epoch : ℕ
  pub next_ready : Bool

-- A key that was moved from, or not yet written, is zeros.
abbrev pub wiped_key : List ℕ
wiped_key = replicate key_size 0

unfoldable pub opener_of : List ℕ → List ℕ → ℕ → FrameOpener
opener_of key salt frame_limit = record {
  key = key;
  next_key = wiped_key;
  salt = salt;
  frame_limit = frame_limit;
  counter = 0;
  next_counter = 0;
  epoch = 0;
  next_ready = false;
}

unfoldable pub prepare_next : Sodium → FrameOpener → FrameOpener
prepare_next c o = if o.next_ready || o.epoch == 0xff then o else record o {
  next_key = derive_subkey c o.key (o.epoch + 1) rekey_context;
  next_counter = 0;
  next_ready = true;
}

unfoldable pub is_next_epoch : FrameOpener → FrameView → Bool
is_next_epoch o frame = frame.header.epoch == (o.epoch + 1) % 256

-- The two ends of `Open`, for a frame of the current key and for one of the next.
abbrev pub open_current : FrameOpener → ProtoResult (List ℕ) → FrameOpener × ProtoResult (List ℕ)
open_current o (err e) = (o, err e)
open_current o (ok plaintext) = (record o { counter = add64 o.counter 1 }, ok plaintext)

abbrev pub open_next : FrameOpener → ProtoResult (List ℕ) → FrameOpener × ProtoResult (List ℕ)
open_next o (err e) = (o, err e)
open_next o (ok plaintext) = (
  record o {
    key = o.next_key;
    next_key = wiped_key;
    counter = add64 o.next_counter 1;
    epoch = (o.epoch + 1) % 256;
    next_ready = false;
    next_counter = 0;
  },
  ok plaintext,
)

-- `room` is the size of the buffer for the plaintext, which is the result.
unfoldable pub open_frame :
    Sodium → FrameOpener → ℕ → FrameView → FrameOpener × ProtoResult (List ℕ)
unfolding is_next_epoch
open_frame c o room frame =
    let header = header_bytes_of frame.header in
    let ready = prepare_next c o in
    if is_next_epoch o frame
    then (if leb ready.frame_limit ready.next_counter
        then (ready, err rekey_required)
        else open_next ready (
            aead_open c room frame.body header ready.next_key
              (make_nonce ready.salt ready.next_counter)))
    else if not (frame.header.epoch == o.epoch)
    then (o, err authentication_failed)
    else if leb o.frame_limit o.counter
    then (o, err rekey_required)
    else open_current o (aead_open c room frame.body header o.key (make_nonce o.salt o.counter))
