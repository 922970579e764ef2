-- ===== src/Wire/Hello.antt =====
-- `PeekHello` of src/wire/message.cpp: what a multiplexer reads of a Hello.
use zet.Prelude.{ℕ, Bool, true, false, not, ◌&&◌, List, [], ◌∷◌, ok, err, ltb, ◌==◌, if◌then◌else◌}
use zet.Core.Error.{ProtoResult, unexpected_message, malformed_field}
use zet.Core.Reader.{Read, make, pure, reject_if, read_bytes, read_u16_be, ◌>>=◌, ◌>>◌}
use zet.Wire.Limits.{max_handshake_frame}
use zet.Wire.Frame.{FrameView, read_frame}
use zet.Wire.KeySchedule.{session_id_size}
use zet.Wire.Types
use zet.Wire.Types.{EMessageType, parse_message_type, read_array}

-- The characters of "ZET1".
abbrev pub hello_magic : List ℕ
hello_magic = 90 ∷ 69 ∷ 84 ∷ 49 ∷ []

abbrev pub cleartext_epoch : ℕ
cleartext_epoch = 0

abbrev pub same_bytes : List ℕ → List ℕ → Bool
same_bytes [] [] = true
same_bytes [] (y ∷ ys) = false
same_bytes (x ∷ xs) [] = false
same_bytes (x ∷ xs) (y ∷ ys) = x == y && same_bytes xs ys

abbrev pub is_hello : EMessageType → Bool
is_hello Types.hello = true
is_hello other = false

pub record HelloPeek : Type 0 where
  pub frame_size : ℕ
  pub id : List ℕ

unfoldable pub peek_body : ℕ → Read HelloPeek
unfolding read_array
peek_body consumed = do
  type ← parse_message_type
  reject_if (not (is_hello type)) unexpected_message
  magic ← read_bytes 4
  reject_if (not (same_bytes magic hello_magic)) malformed_field
  version_min ← read_u16_be
  version_max ← read_u16_be
  reject_if (ltb version_max version_min) malformed_field
  id ← read_array session_id_size
  pure (record { frame_size = consumed; id = id })

abbrev peek_frame : ProtoResult FrameView → ProtoResult HelloPeek
peek_frame (err e) = err e
peek_frame (ok frame) =
    if not (frame.header.epoch == cleartext_epoch)
    then err unexpected_message
    else (peek_body frame.consumed (make frame.body)).1

unfoldable pub peek_hello : List ℕ → ProtoResult HelloPeek
unfolding peek_body
peek_hello buffer = peek_frame (read_frame buffer max_handshake_frame)
