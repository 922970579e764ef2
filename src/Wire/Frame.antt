-- ===== src/Wire/Frame.antt =====
-- src/wire/frame.cpp: a frame is a length, an epoch and a body of that length.
pub mod Laws
use zet.Prelude.{ℕ, ◌+◌, List, ok, err, if◌then◌else◌, ltb, ◌==◌, Expected}
use zet.Core.Error.{ProtoResult, malformed_field, length_limit_exceeded}
use zet.Core.Reader.{
  Read, continue, make, pure, reject_if, read_bytes, read_u8, read_u32_be, ◌>>=◌, ◌>>◌,
}
use zet.Core.Writer
use zet.Core.Writer.{Write, write_u8, write_u32_be}
use zet.Wire.Limits.{header_size}

pub record FrameHeader : Type 0 where
  pub size : ℕ
  pub epoch : ℕ

pub record FrameView : Type 0 where
  pub header : FrameHeader
  pub body : List ℕ
  pub consumed : ℕ

unfoldable pub read_frame_header : Read FrameHeader
read_frame_header = do
  size ← read_u32_be
  epoch ← read_u8
  pure (record { size = size; epoch = epoch })

unfoldable pub write_frame_header : FrameHeader → Write
write_frame_header header w = Writer.continue (write_u8 header.epoch) (write_u32_be header.size w)

unfoldable pub parse_frame : ℕ → Read FrameView
unfolding read_frame_header
parse_frame max_body_length = do
  header ← read_frame_header
  reject_if (ltb max_body_length header.size) length_limit_exceeded
  reject_if (header.size == 0) malformed_field
  body ← read_bytes header.size
  pure (record { header = header; body = body; consumed = header_size + header.size })

unfoldable pub read_frame : List ℕ → ℕ → ProtoResult FrameView
unfolding parse_frame
read_frame buffer max_body_length = (parse_frame max_body_length (make buffer)).1
