-- ===== src/Wire/RoundTrip/Grid.antt =====
-- The messages of the grid snapshot.
use zet.Prelude.{
  ℕ, ◌+◌, ◌≤◌, ◌<◌, ◌^◌, ◌≡◌, List, [], ◌++◌, ok, arith, length, length-append, ltb, ◌==◌, ◌||◌,
}
use zet.Core.Error.{malformed_field, length_limit_exceeded}
use zet.Core.Reader.{pure, reject_if, read_be, ◌>>=◌, ◌>>◌}
use zet.Core.Reader.Laws.{Parses, Parses-bind, Reads-u8, Reads-u32, length-encode_be}
use zet.Core.Writer
use zet.Core.Writer.{Write, written, encode_be, write_be, write_bytes}
use zet.Core.Writer.Laws.{Writes, Writes-bytes, Writes-be, Writes-then}
use zet.Wire.Limits.{grid_chunk_max_data, snapshot_max_bytes}
use zet.Wire.Types.{grid_begin, grid_chunk, grid_applied, code_of, write_message_type}
use zet.Wire.Messages.{GridBeginMessage, GridChunkMessage, GridAppliedMessage}
use zet.Wire.Parse.{
  ending, read_rest, has_reserved_flags, parse_grid_begin, parse_grid_chunk, parse_grid_applied,
}
use zet.Wire.Write.{write_grid_begin, write_grid_chunk, write_grid_applied}
use zet.Wire.RoundTrip.{
  received, round-trip_lem, Reads-check, Writes-check, Parses-ending, Parses-last, Parses-rest,
}

abbrev pub grid_begin_body : GridBeginMessage → List ℕ
grid_begin_body m =
    encode_be 1 m.flags
    ++ (encode_be 4 m.stream_gen ++ (encode_be 4 m.scrollback_len ++ (encode_be 4 m.total_len)))

pub Writes-grid_begin :
    (m : GridBeginMessage)
    → m.flags < 2 ^ 8
    → m.stream_gen < 2 ^ 32
    → m.scrollback_len < 2 ^ 32
    → m.total_len < 2 ^ 32
    → m.flags < 2
    → 0 < m.total_len
    → m.total_len ≤ snapshot_max_bytes
    → m.scrollback_len ≤ m.total_len
    → Writes (write_grid_begin m) (encode_be 1 (code_of grid_begin) ++ grid_begin_body m)
unfolding write_grid_begin write_message_type
Writes-grid_begin m h0 h1 h2 h3 h4 h5 h6 h7 =
    Writes-then _ _ [] _
      (Writes-check {b = has_reserved_flags m.flags} malformed_field (ground arith))
      (Writes-then _ _ [] _
        (Writes-check {b = m.total_len == 0 || ltb snapshot_max_bytes m.total_len}
          length_limit_exceeded (ground arith))
        (Writes-then _ _ [] _
          (Writes-check {b = ltb m.total_len m.scrollback_len} length_limit_exceeded (ground arith))
          (Writes-then _ _ (encode_be 1 (code_of grid_begin))
            (encode_be 1 m.flags
              ++ (encode_be 4 m.stream_gen
                  ++ (encode_be 4 m.scrollback_len ++ (encode_be 4 m.total_len))))
            (Writes-be 1 (code_of grid_begin))
            (Writes-then _ _ (encode_be 1 m.flags)
              (encode_be 4 m.stream_gen
                ++ (encode_be 4 m.scrollback_len ++ (encode_be 4 m.total_len)))
              (Writes-be 1 m.flags)
              (Writes-then _ _ (encode_be 4 m.stream_gen)
                (encode_be 4 m.scrollback_len ++ (encode_be 4 m.total_len))
                (Writes-be 4 m.stream_gen)
                (Writes-then _ _ (encode_be 4 m.scrollback_len) (encode_be 4 m.total_len)
                  (Writes-be 4 m.scrollback_len) (Writes-be 4 m.total_len)))))))

pub Parses-grid_begin :
    (m : GridBeginMessage)
    → m.flags < 2 ^ 8
    → m.stream_gen < 2 ^ 32
    → m.scrollback_len < 2 ^ 32
    → m.total_len < 2 ^ 32
    → m.flags < 2
    → 0 < m.total_len
    → m.total_len ≤ snapshot_max_bytes
    → m.scrollback_len ≤ m.total_len
    → Parses parse_grid_begin (grid_begin_body m) m
unfolding parse_grid_begin
Parses-grid_begin m h0 h1 h2 h3 h4 h5 h6 h7 =
    Parses-bind (read_be 1)
      (λ flags'.
        (reject_if (has_reserved_flags flags') malformed_field
          >> (read_be 4 >>= λ stream_gen'.
              (read_be 4 >>= λ scrollback_len'.
              (read_be 4 >>= λ total_len'.
              (reject_if (total_len' == 0 || ltb snapshot_max_bytes total_len')
                  length_limit_exceeded
                >> (reject_if (ltb total_len' scrollback_len') length_limit_exceeded
                    >> ending (record {
                      flags = flags';
                      stream_gen = stream_gen';
                      scrollback_len = scrollback_len';
                      total_len = total_len';
                    }))))))))
      (encode_be 1 m.flags)
      (encode_be 4 m.stream_gen ++ (encode_be 4 m.scrollback_len ++ (encode_be 4 m.total_len)))
      (Reads-u8 _ (omega arith))
      (Parses-bind (reject_if (has_reserved_flags m.flags) malformed_field)
        (λ _.
          (read_be 4 >>= λ stream_gen'.
          (read_be 4 >>= λ scrollback_len'.
          (read_be 4 >>= λ total_len'.
          (reject_if (total_len' == 0 || ltb snapshot_max_bytes total_len') length_limit_exceeded
            >> (reject_if (ltb total_len' scrollback_len') length_limit_exceeded
                >> ending (record {
                  flags = m.flags;
                  stream_gen = stream_gen';
                  scrollback_len = scrollback_len';
                  total_len = total_len';
                })))))))
        [] (encode_be 4 m.stream_gen ++ (encode_be 4 m.scrollback_len ++ (encode_be 4 m.total_len)))
        (Reads-check malformed_field (ground arith))
        (Parses-bind (read_be 4)
          (λ stream_gen'.
            (read_be 4 >>= λ scrollback_len'.
            (read_be 4 >>= λ total_len'.
            (reject_if (total_len' == 0 || ltb snapshot_max_bytes total_len') length_limit_exceeded
              >> (reject_if (ltb total_len' scrollback_len') length_limit_exceeded
                  >> ending (record {
                    flags = m.flags;
                    stream_gen = stream_gen';
                    scrollback_len = scrollback_len';
                    total_len = total_len';
                  }))))))
          (encode_be 4 m.stream_gen) (encode_be 4 m.scrollback_len ++ (encode_be 4 m.total_len))
          (Reads-u32 _ (omega arith))
          (Parses-bind (read_be 4)
            (λ scrollback_len'.
              (read_be 4 >>= λ total_len'.
              (reject_if (total_len' == 0 || ltb snapshot_max_bytes total_len')
                  length_limit_exceeded
                >> (reject_if (ltb total_len' scrollback_len') length_limit_exceeded
                    >> ending (record {
                      flags = m.flags;
                      stream_gen = m.stream_gen;
                      scrollback_len = scrollback_len';
                      total_len = total_len';
                    })))))
            (encode_be 4 m.scrollback_len) (encode_be 4 m.total_len) (Reads-u32 _ (omega arith))
            (Parses-last (read_be 4)
              (λ total_len'.
                (reject_if (total_len' == 0 || ltb snapshot_max_bytes total_len')
                    length_limit_exceeded
                  >> (reject_if (ltb total_len' m.scrollback_len) length_limit_exceeded
                      >> ending (record {
                        flags = m.flags;
                        stream_gen = m.stream_gen;
                        scrollback_len = m.scrollback_len;
                        total_len = total_len';
                      }))))
              (encode_be 4 m.total_len) (Reads-u32 _ (omega arith))
              (Parses-bind
                (reject_if (m.total_len == 0 || ltb snapshot_max_bytes m.total_len)
                  length_limit_exceeded)
                (λ _.
                  (reject_if (ltb m.total_len m.scrollback_len) length_limit_exceeded
                    >> ending (record {
                      flags = m.flags;
                      stream_gen = m.stream_gen;
                      scrollback_len = m.scrollback_len;
                      total_len = m.total_len;
                    })))
                [] ([]) (Reads-check length_limit_exceeded (ground arith))
                (Parses-bind (reject_if (ltb m.total_len m.scrollback_len) length_limit_exceeded)
                  (λ _. ending (record {
                    flags = m.flags;
                    stream_gen = m.stream_gen;
                    scrollback_len = m.scrollback_len;
                    total_len = m.total_len;
                  }))
                  [] ([]) (Reads-check length_limit_exceeded (ground arith)) (Parses-ending _)))))))

-- A GridBegin with no reserved flag, and with a snapshot that is not empty, not over the limit and
-- not shorter than its scrollback, is received as it was sent, if its fields fit their widths and
-- the buffer has room for it.
pub grid_begin_round_trip :
    (m : GridBeginMessage) (out : List ℕ)
    → m.flags < 2 ^ 8
    → m.stream_gen < 2 ^ 32
    → m.scrollback_len < 2 ^ 32
    → m.total_len < 2 ^ 32
    → m.flags < 2
    → 0 < m.total_len
    → m.total_len ≤ snapshot_max_bytes
    → m.scrollback_len ≤ m.total_len
    → 14 ≤ length out
    → let (w, x) = write_grid_begin m (Writer.make out) in
      (x ≡ ok tt) × (received parse_grid_begin (written w) ≡ ok (grid_begin, m))
unfolding write_grid_begin write_message_type parse_grid_begin
grid_begin_round_trip m out h0 h1 h2 h3 h4 h5 h6 h7 h8 =
    round-trip_lem (write_grid_begin m) grid_begin parse_grid_begin (grid_begin_body m)
      (Writes-grid_begin m h0 h1 h2 h3 h4 h5 h6 h7) (Parses-grid_begin m h0 h1 h2 h3 h4 h5 h6 h7)
      out
      (omega (
        arith,
        length-encode_be 1 m.flags,
        length-encode_be 4 m.stream_gen,
        length-encode_be 4 m.scrollback_len,
        length-encode_be 4 m.total_len,
        length-append (encode_be 1 m.flags) (
            encode_be 4 m.stream_gen
            ++ (encode_be 4 m.scrollback_len ++ (encode_be 4 m.total_len))),
        length-append (encode_be 4 m.stream_gen)
            (encode_be 4 m.scrollback_len ++ (encode_be 4 m.total_len)),
        length-append (encode_be 4 m.scrollback_len) (encode_be 4 m.total_len),
      ))

abbrev pub grid_chunk_body : GridChunkMessage → List ℕ
grid_chunk_body m = encode_be 4 m.chunk_offset ++ (m.chunk)

pub Writes-grid_chunk :
    (m : GridChunkMessage)
    → m.chunk_offset < 2 ^ 32
    → 0 < length m.chunk
    → length m.chunk ≤ grid_chunk_max_data
    → Writes (write_grid_chunk m) (encode_be 1 (code_of grid_chunk) ++ grid_chunk_body m)
unfolding write_grid_chunk write_message_type
Writes-grid_chunk m h0 h1 h2 =
    Writes-then _ _ [] _ (Writes-check {b = length m.chunk == 0} malformed_field (ground arith)) (
      Writes-then _ _ [] _
        (Writes-check {b = ltb grid_chunk_max_data (length m.chunk)} length_limit_exceeded
          (ground arith))
        (Writes-then _ _ (encode_be 1 (code_of grid_chunk))
          (encode_be 4 m.chunk_offset ++ (m.chunk)) (Writes-be 1 (code_of grid_chunk))
          (Writes-then _ _ (encode_be 4 m.chunk_offset) (m.chunk) (Writes-be 4 m.chunk_offset)
            (Writes-bytes m.chunk))))

pub Parses-grid_chunk :
    (m : GridChunkMessage)
    → m.chunk_offset < 2 ^ 32
    → 0 < length m.chunk
    → length m.chunk ≤ grid_chunk_max_data
    → Parses parse_grid_chunk (grid_chunk_body m) m
unfolding parse_grid_chunk
Parses-grid_chunk m h0 h1 h2 =
    Parses-bind (read_be 4)
      (λ chunk_offset'.
        (read_rest grid_chunk_max_data >>= λ chunk'.
        pure (record { chunk_offset = chunk_offset'; chunk = chunk' })))
      (encode_be 4 m.chunk_offset) (m.chunk) (Reads-u32 _ (omega arith))
      (Parses-rest grid_chunk_max_data
        (λ chunk'. record { chunk_offset = m.chunk_offset; chunk = chunk' }) _ (omega arith)
        (omega arith))

-- A GridChunk of 1 to `grid_chunk_max_data` bytes is received as it was sent, if its fields fit
-- their widths and the buffer has room for it.
pub grid_chunk_round_trip :
    (m : GridChunkMessage) (out : List ℕ)
    → m.chunk_offset < 2 ^ 32
    → 0 < length m.chunk
    → length m.chunk ≤ grid_chunk_max_data
    → 5 + length m.chunk ≤ length out
    → let (w, x) = write_grid_chunk m (Writer.make out) in
      (x ≡ ok tt) × (received parse_grid_chunk (written w) ≡ ok (grid_chunk, m))
unfolding write_grid_chunk write_message_type parse_grid_chunk
grid_chunk_round_trip m out h0 h1 h2 h3 =
    round-trip_lem (write_grid_chunk m) grid_chunk parse_grid_chunk (grid_chunk_body m)
      (Writes-grid_chunk m h0 h1 h2) (Parses-grid_chunk m h0 h1 h2) out
      (omega (
        arith,
        length-encode_be 4 m.chunk_offset,
        length-append (encode_be 4 m.chunk_offset) (m.chunk),
      ))

-- A GridApplied is received as it was sent.
pub grid_applied_round_trip :
    (m : GridAppliedMessage) (out : List ℕ)
    → m.stream_gen < 2 ^ 32
    → 5 ≤ length out
    → let (w, x) = write_grid_applied m (Writer.make out) in
      (x ≡ ok tt) × (received parse_grid_applied (written w) ≡ ok (grid_applied, m))
unfolding write_grid_applied write_message_type parse_grid_applied
grid_applied_round_trip m out h0 h1 =
    round-trip_lem (write_grid_applied m) grid_applied parse_grid_applied (encode_be 4 m.stream_gen)
      (Writes-then _ _ (encode_be 1 (code_of grid_applied)) (encode_be 4 m.stream_gen)
        (Writes-be 1 (code_of grid_applied)) (Writes-be 4 m.stream_gen))
      (Parses-last (read_be 4) (λ stream_gen'. ending (record { stream_gen = stream_gen' }))
        (encode_be 4 m.stream_gen) (Reads-u32 _ (omega arith)) (Parses-ending _))
      out (omega (arith, length-encode_be 4 m.stream_gen))
