-- ===== src/Wire/Frame/Laws.antt =====
-- What a frame that is on the wire is read as, in whole and in part.
use zet.Prelude.{
  ℕ, ◌+◌, ◌≤◌, ◌<◌, ◌^◌, ◌≡◌, refl, sym, ap, ◌∙◌, List, [], ◌++◌, append_assoc, ok, arith, length,
  ltb, ◌==◌,
}
use zet.Core.Error.{malformed_field, length_limit_exceeded}
use zet.Core.Reader.{Read, continue, make, pure, reject_if, read_be, read_bytes, ◌>>=◌, ◌>>◌}
use zet.Core.Reader.Laws.{
  Reads, Reads-bytes, Reads-bind, Reads-u8, Reads-u32, make-IsValid, rest-make,
}
use zet.Core.Writer
use zet.Core.Writer.{Write, encode_be, written}
use zet.Core.Writer.Laws.{Writes, Writes-be, Writes-then, Writes-make}
use zet.Wire.Limits.{header_size}
use zet.Wire.Frame.{
  FrameHeader, FrameView, read_frame_header, write_frame_header, parse_frame, read_frame,
}
use zet.Wire.RoundTrip.{Reads-check}

abbrev pub header_bytes : FrameHeader → List ℕ
header_bytes h = encode_be 4 h.size ++ encode_be 1 h.epoch

pub Writes-header : (h : FrameHeader) → Writes (write_frame_header h) (header_bytes h)
unfolding write_frame_header
Writes-header h =
    Writes-then (Writer.write_be 4 h.size) (Writer.write_be 1 h.epoch) (encode_be 4 h.size)
      (encode_be 1 h.epoch) (Writes-be 4 h.size) (Writes-be 1 h.epoch)

Reads-pure : {A : Type 0} (a : A) → Reads (pure a) [] a
Reads-pure a r ys v h = (r, refl, h, v)

Reads-last :
    {A B : Type 0} (p : Read A) (f : A → Read B) (xs : List ℕ) {a : A} {b : B}
    → Reads p xs a
    → Reads (f a) [] b
    → Reads (p >>= f) xs b
Reads-last p f xs h k r zs v e =
    let (r', eq, left, valid) = h r zs v e in
    let (r'', eq', left', valid') = k r' zs valid left in
    (r'', ap (continue f) eq ∙ eq', left', valid')

Reads-header :
    (h : FrameHeader) → h.size < 2 ^ 32 → h.epoch < 256 → Reads read_frame_header (header_bytes h) h
unfolding read_frame_header
Reads-header h k e =
    Reads-bind (read_be 4)
      (λ size. (read_be 1 >>= λ epoch. pure (record { size = size; epoch = epoch })))
      (encode_be 4 h.size) (encode_be 1 h.epoch) (Reads-u32 h.size k)
      (Reads-last (read_be 1) (λ epoch. pure (record { size = h.size; epoch = epoch }))
        (encode_be 1 h.epoch) (Reads-u8 h.epoch e)
        (Reads-pure (record { size = h.size; epoch = h.epoch })))

-- The bytes of a frame are read as the frame.
pub read_written :
    (epoch limit : ℕ) (body more : List ℕ)
    → epoch < 256
    → limit < 2 ^ 32
    → 0 < length body
    → length body ≤ limit
    → let header : FrameHeader = record { size = length body; epoch = epoch } in
      read_frame (header_bytes header ++ (body ++ more)) limit
      ≡ ok (record { header = header; body = body; consumed = header_size + length body })
unfolding read_frame parse_frame
read_written epoch limit body more e l n k =
    let header : FrameHeader = record { size = length body; epoch = epoch } in
    let view : FrameView = record {
      header = header;
      body = body;
      consumed = header_size + length body;
    } in
    let all : Reads (parse_frame limit) (header_bytes header ++ body) view =
      Reads-bind read_frame_header
        (λ h.
          (reject_if (ltb limit h.size) length_limit_exceeded
            >> (reject_if (h.size == 0) malformed_field
                >> (read_bytes h.size >>= λ xs.
                    pure (record { header = h; body = xs; consumed = header_size + h.size })))))
        (header_bytes header) body (Reads-header header (omega arith) e)
        (Reads-bind (reject_if (ltb limit (length body)) length_limit_exceeded)
          (λ _.
            (reject_if (length body == 0) malformed_field
              >> (read_bytes (length body) >>= λ xs.
                  pure
                    (record { header = header; body = xs; consumed = header_size + length body }))))
          [] body (Reads-check length_limit_exceeded (ground arith))
          (Reads-bind (reject_if (length body == 0) malformed_field)
            (λ _.
              (read_bytes (length body) >>= λ xs.
              pure (record { header = header; body = xs; consumed = header_size + length body })))
            [] body (Reads-check malformed_field (ground arith))
            (Reads-last (read_bytes (length body))
              (λ xs.
                pure (record { header = header; body = xs; consumed = header_size + length body }))
              body (Reads-bytes (length body) body refl) (Reads-pure view)))) in
    let (r', eq, left, valid) =
      all (make (header_bytes header ++ (body ++ more))) more (make-IsValid _)
        (rest-make _ ∙ sym (append_assoc (header_bytes header) body more)) in
    ap (λ r. r.1) eq

-- A frame whose header was written with the length of its body is read back whole, whatever
-- follows it, if the body is not empty and within a limit below 2^32, the epoch is a byte, and the
-- header has room.
pub frame_round_trip :
    (epoch limit : ℕ) (body more out : List ℕ)
    → epoch < 256
    → limit < 2 ^ 32
    → 0 < length body
    → length body ≤ limit
    → header_size ≤ length out
    → let header : FrameHeader = record { size = length body; epoch = epoch } in
      let (w, x) = write_frame_header header (Writer.make out) in
      (x ≡ ok tt)
      × (read_frame (written w ++ (body ++ more)) limit
          ≡ ok (record { header = header; body = body; consumed = header_size + length body }))
unfolding encode_be
frame_round_trip epoch limit body more out e l n k room =
    let (good, put) =
      Writes-make (Writes-header (record { size = length body; epoch = epoch })) out
        (omega arith) in
    (
      good,
      ap (λ xs. read_frame (xs ++ (body ++ more)) limit) put
          ∙ read_written epoch limit body more e l n k,
    )
