-- ===== src/Wire/RoundTrip/Control.antt =====
-- The messages that control a session, and those of the multiplexer.
use zet.Prelude.{ℕ, ◌≤◌, ◌<◌, ◌^◌, ◌≡◌, List, [], ◌++◌, ok, arith, length, length-append, ◌==◌}
use zet.Core.Error.{malformed_field}
use zet.Core.Reader.{reject_if, read_be, read_bytes, ◌>>=◌, ◌>>◌}
use zet.Core.Reader.Laws.{Reads-bytes, Parses-bind, Reads-u16, Reads-u64, length-encode_be}
use zet.Core.Writer
use zet.Core.Writer.{Write, written, encode_be, write_be, write_bytes}
use zet.Core.Writer.Laws.{Writes-bytes, Writes-be, Writes-then}
use zet.Wire.Limits.{key_size}
use zet.Wire.Types.{
  resize, ping, pong, mux_register, mux_registered, code_of, write_message_type, read_array,
}
use zet.Wire.Messages.{
  ResizeMessage, PingMessage, PongMessage, MuxRegisterMessage, MuxRegisteredMessage,
}
use zet.Wire.Parse.{
  ending, parse_resize, parse_ping, parse_pong, parse_mux_register, parse_mux_registered,
}
use zet.Wire.Write.{write_resize, write_ping, write_pong, write_mux_register, write_mux_registered}
use zet.Wire.RoundTrip.{
  received, round-trip_lem, Reads-check, Writes-check, Parses-ending, Parses-last,
}

-- A Resize is received as it was sent, if its fields fit their widths and the buffer has room for
-- it.
pub resize_round_trip :
    (m : ResizeMessage) (out : List ℕ)
    → m.rows < 2 ^ 16
    → m.cols < 2 ^ 16
    → m.xpixel < 2 ^ 16
    → m.ypixel < 2 ^ 16
    → 9 ≤ length out
    → let (w, x) = write_resize m (Writer.make out) in
      (x ≡ ok tt) × (received parse_resize (written w) ≡ ok (resize, m))
unfolding write_resize write_message_type parse_resize
resize_round_trip m out h0 h1 h2 h3 h4 =
    round-trip_lem (write_resize m) resize parse_resize
      (encode_be 2 m.rows
        ++ (encode_be 2 m.cols ++ (encode_be 2 m.xpixel ++ (encode_be 2 m.ypixel))))
      (Writes-then _ _ (encode_be 1 (code_of resize))
        (encode_be 2 m.rows
          ++ (encode_be 2 m.cols ++ (encode_be 2 m.xpixel ++ (encode_be 2 m.ypixel))))
        (Writes-be 1 (code_of resize))
        (Writes-then _ _ (encode_be 2 m.rows)
          (encode_be 2 m.cols ++ (encode_be 2 m.xpixel ++ (encode_be 2 m.ypixel)))
          (Writes-be 2 m.rows)
          (Writes-then _ _ (encode_be 2 m.cols) (encode_be 2 m.xpixel ++ (encode_be 2 m.ypixel))
            (Writes-be 2 m.cols)
            (Writes-then _ _ (encode_be 2 m.xpixel) (encode_be 2 m.ypixel) (Writes-be 2 m.xpixel)
              (Writes-be 2 m.ypixel)))))
      (Parses-bind (read_be 2)
        (λ rows'.
          (read_be 2 >>= λ cols'.
          (read_be 2 >>= λ xpixel'.
          (read_be 2 >>= λ ypixel'.
          ending (record { rows = rows'; cols = cols'; xpixel = xpixel'; ypixel = ypixel' })))))
        (encode_be 2 m.rows)
        (encode_be 2 m.cols ++ (encode_be 2 m.xpixel ++ (encode_be 2 m.ypixel)))
        (Reads-u16 _ (omega arith))
        (Parses-bind (read_be 2)
          (λ cols'.
            (read_be 2 >>= λ xpixel'.
            (read_be 2 >>= λ ypixel'.
            ending (record { rows = m.rows; cols = cols'; xpixel = xpixel'; ypixel = ypixel' }))))
          (encode_be 2 m.cols) (encode_be 2 m.xpixel ++ (encode_be 2 m.ypixel))
          (Reads-u16 _ (omega arith))
          (Parses-bind (read_be 2)
            (λ xpixel'.
              (read_be 2 >>= λ ypixel'.
              ending (record { rows = m.rows; cols = m.cols; xpixel = xpixel'; ypixel = ypixel' })))
            (encode_be 2 m.xpixel) (encode_be 2 m.ypixel) (Reads-u16 _ (omega arith))
            (Parses-last (read_be 2)
              (λ ypixel'.
                ending
                  (record { rows = m.rows; cols = m.cols; xpixel = m.xpixel; ypixel = ypixel' }))
              (encode_be 2 m.ypixel) (Reads-u16 _ (omega arith)) (Parses-ending _)))))
      out
      (omega (
        arith,
        length-encode_be 2 m.rows,
        length-encode_be 2 m.cols,
        length-encode_be 2 m.xpixel,
        length-encode_be 2 m.ypixel,
        length-append (encode_be 2 m.rows)
            (encode_be 2 m.cols ++ (encode_be 2 m.xpixel ++ (encode_be 2 m.ypixel))),
        length-append (encode_be 2 m.cols) (encode_be 2 m.xpixel ++ (encode_be 2 m.ypixel)),
        length-append (encode_be 2 m.xpixel) (encode_be 2 m.ypixel),
      ))

-- A Ping is received as it was sent.
pub ping_round_trip :
    (m : PingMessage) (out : List ℕ)
    → m.token < 2 ^ 64
    → 9 ≤ length out
    → let (w, x) = write_ping m (Writer.make out) in
      (x ≡ ok tt) × (received parse_ping (written w) ≡ ok (ping, m))
unfolding write_ping write_message_type parse_ping
ping_round_trip m out h0 h1 =
    round-trip_lem (write_ping m) ping parse_ping (encode_be 8 m.token)
      (Writes-then _ _ (encode_be 1 (code_of ping)) (encode_be 8 m.token)
        (Writes-be 1 (code_of ping)) (Writes-be 8 m.token))
      (Parses-last (read_be 8) (λ token'. ending (record { token = token' })) (encode_be 8 m.token)
        (Reads-u64 _ (omega arith)) (Parses-ending _))
      out (omega (arith, length-encode_be 8 m.token))

-- A Pong is received as it was sent.
pub pong_round_trip :
    (m : PongMessage) (out : List ℕ)
    → m.token < 2 ^ 64
    → 9 ≤ length out
    → let (w, x) = write_pong m (Writer.make out) in
      (x ≡ ok tt) × (received parse_pong (written w) ≡ ok (pong, m))
unfolding write_pong write_message_type parse_pong
pong_round_trip m out h0 h1 =
    round-trip_lem (write_pong m) pong parse_pong (encode_be 8 m.token)
      (Writes-then _ _ (encode_be 1 (code_of pong)) (encode_be 8 m.token)
        (Writes-be 1 (code_of pong)) (Writes-be 8 m.token))
      (Parses-last (read_be 8) (λ token'. ending (record { token = token' })) (encode_be 8 m.token)
        (Reads-u64 _ (omega arith)) (Parses-ending _))
      out (omega (arith, length-encode_be 8 m.token))

-- A MuxRegister with a key of its size is received as it was sent.
pub mux_register_round_trip :
    (m : MuxRegisterMessage) (out : List ℕ)
    → length m.registration ≡ key_size
    → 33 ≤ length out
    → let (w, x) = write_mux_register m (Writer.make out) in
      (x ≡ ok tt) × (received parse_mux_register (written w) ≡ ok (mux_register, m))
unfolding write_mux_register write_message_type parse_mux_register read_array
mux_register_round_trip m out h0 h1 =
    round-trip_lem (write_mux_register m) mux_register parse_mux_register (m.registration)
      (Writes-then _ _ (encode_be 1 (code_of mux_register)) (m.registration)
        (Writes-be 1 (code_of mux_register)) (Writes-bytes m.registration))
      (Parses-last (read_bytes key_size)
        (λ registration'. ending (record { registration = registration' })) (m.registration)
        (Reads-bytes (key_size) _ (omega arith)) (Parses-ending _))
      out (omega (arith))

-- A MuxRegistered with a port is received as it was sent, if its fields fit their widths and the
-- buffer has room for it.
pub mux_registered_round_trip :
    (m : MuxRegisteredMessage) (out : List ℕ)
    → m.port < 2 ^ 16
    → 0 < m.port
    → 3 ≤ length out
    → let (w, x) = write_mux_registered m (Writer.make out) in
      (x ≡ ok tt) × (received parse_mux_registered (written w) ≡ ok (mux_registered, m))
unfolding write_mux_registered write_message_type parse_mux_registered
mux_registered_round_trip m out h0 h1 h2 =
    round-trip_lem (write_mux_registered m) mux_registered parse_mux_registered (encode_be 2 m.port)
      (Writes-then _ _ [] _ (Writes-check {b = m.port == 0} malformed_field (ground arith)) (
        Writes-then _ _ (encode_be 1 (code_of mux_registered)) (encode_be 2 m.port)
          (Writes-be 1 (code_of mux_registered)) (Writes-be 2 m.port)))
      (Parses-last (read_be 2)
        (λ port'. (reject_if (port' == 0) malformed_field >> ending (record { port = port' })))
        (encode_be 2 m.port) (Reads-u16 _ (omega arith))
        (Parses-bind (reject_if (m.port == 0) malformed_field)
          (λ _. ending (record { port = m.port })) [] ([])
          (Reads-check malformed_field (ground arith)) (Parses-ending _)))
      out (omega (arith, length-encode_be 2 m.port))
