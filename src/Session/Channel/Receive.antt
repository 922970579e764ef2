-- ===== src/Session/Channel/Receive.antt =====
-- `Channel::Receive`: a frame that has arrived, opened, read and acted on.
use zet.Prelude.{
  ℕ, ◌+◌, ◌-◌, ◌%◌, false, ◌&&◌, ◌||◌, not, List, Option, none, some, ok, err, if◌then◌else◌, ltb,
  leb, ◌==◌, length, take, overwrite, add64, u32_mod,
}
use zet.Core.Time.{Timestamp}
use zet.Core.Error.{
  EProtoError, ProtoResult, unexpected_message, malformed_field, unknown_message_type,
}
use zet.Core.Reader
use zet.Core.Reader.{ByteReader, Read}
use zet.Crypto.{Sodium}
use zet.Wire.Limits.{protocol_version_grid, snapshot_max_bytes}
use zet.Wire.Frame.{FrameView}
use zet.Wire.SealedFrame.{FrameOpener, open_frame}
use zet.Wire.Types
use zet.Wire.Types.{EMessageType, parse_message_type}
use zet.Wire.Messages.{
  DataMessage, ResizeMessage, SessionEndMessage, GridBeginMessage, GridChunkMessage,
  GridAppliedMessage,
}
use zet.Wire.Parse.{
  parse_data, parse_ack, parse_resize, parse_ping, parse_pong, parse_session_end, parse_grid_begin,
  parse_grid_chunk, parse_grid_applied,
}
use zet.Session.Error.{proto, session, SessionResult, ChannelResult}
use zet.Session.SendBuffer
use zet.Session.SendBuffer.{SendBuffer}
use zet.Session.ReceiveCursor
use zet.Session.ReceiveCursor.{ReceiveCursor}
use zet.Session.Channel.{Channel, GridReception, is_client, is_agent, has_value}

pub data IncomingEvent : Type 0 where
  delivered_data : List ℕ → ℕ → IncomingEvent
  delivered_resize : ResizeMessage → IncomingEvent
  delivered_session_end : SessionEndMessage → IncomingEvent
  -- The bytes, the stream generation, the length of the scrollback and the flags.
  delivered_grid_snapshot : List ℕ → ℕ → ℕ → ℕ → IncomingEvent
  delivered_grid_applied : ℕ → IncomingEvent
  delivered_nothing : IncomingEvent

abbrev pub Outcome : Type 0
Outcome = Channel × ChannelResult IncomingEvent

abbrev pub refuse : Channel → EProtoError → Outcome
refuse ch e = (ch, err (proto e))

-- A message that could not be parsed ends in its error.
abbrev pub parsed : {M : Type 0} → Channel → (M → Outcome) → ProtoResult M → Outcome
parsed ch act (ok m) = act m
parsed ch act (err e) = refuse ch e

-- The acknowledgement of a Data or an Ack message; it is passed over while the client has not
-- confirmed a snapshot.
abbrev pub acked :
    Channel → SendBuffer × SessionResult (Unit {0}) → Channel × SessionResult (Unit {0})
acked ch (buf, ok tt) = (record ch { send_buf = buf }, ok tt)
acked ch (buf, err e) = (record ch { send_buf = buf }, err e)

unfoldable pub take_ack : Channel → ℕ → Channel × SessionResult (Unit {0})
unfolding SendBuffer.acknowledge
take_ack ch offset =
    if ch.grid_awaiting_applied
    then (ch, ok tt)
    else acked ch (SendBuffer.acknowledge ch.send_buf offset)

abbrev after_ack : (Channel → Outcome) → Channel × SessionResult (Unit {0}) → Outcome
after_ack act (ch, ok tt) = act ch
after_ack act (ch, err e) = (ch, err (session e))

abbrev deliver : Channel → ReceiveCursor × SessionResult (List ℕ) → Outcome
deliver ch (cursor, err e) = (record ch { recv_cursor = cursor }, err (session e))
deliver ch (cursor, ok bytes) = (
  record ch { recv_cursor = cursor },
  ok (
      if length bytes == 0
      then delivered_nothing
      else delivered_data bytes ch.recv_cursor.recv_offset),
)

unfoldable pub on_data : Channel → DataMessage → Outcome
unfolding take_ack ReceiveCursor.receive
on_data ch m =
    after_ack (λ ch'. deliver ch' (ReceiveCursor.receive ch'.recv_cursor m.offset m.payload))
      (take_ack ch m.acked)

unfoldable pub receive_data : Channel → ByteReader → Outcome
unfolding on_data
receive_data ch reader =
    if is_client ch.role && has_value ch.grid_receiving
    then refuse ch unexpected_message
    else parsed ch (on_data ch) (parse_data reader).1

unfoldable pub receive_ack : Channel → ByteReader → Outcome
unfolding take_ack
receive_ack ch reader =
    parsed ch (λ m. after_ack (λ ch'. (ch', ok delivered_nothing)) (take_ack ch m.acked))
      (parse_ack reader).1

unfoldable pub receive_resize : Channel → ByteReader → Outcome
receive_resize ch reader = parsed ch (λ m. (ch, ok (delivered_resize m))) (parse_resize reader).1

unfoldable pub receive_ping : Channel → ByteReader → Outcome
receive_ping ch reader =
    parsed ch
      (λ m. (record ch { pending_pong = some (record { token = m.token }) }, ok delivered_nothing))
      (parse_ping reader).1

unfoldable pub receive_pong : Channel → ByteReader → Outcome
receive_pong ch reader = parsed ch (λ m. (ch, ok delivered_nothing)) (parse_pong reader).1

unfoldable pub receive_session_end : Channel → ByteReader → Outcome
receive_session_end ch reader =
    if not (is_client ch.role)
    then refuse ch unexpected_message
    else parsed ch (λ m. (ch, ok (delivered_session_end m))) (parse_session_end ch.version reader).1

unfoldable pub on_grid_begin : Channel → GridBeginMessage → Outcome
on_grid_begin ch m =
    if has_value ch.grid_receiving
    then refuse ch unexpected_message
    else if ltb snapshot_max_bytes m.total_len || ltb (length ch.snapshot_buf) m.total_len
    then refuse ch unexpected_message
    else if ltb m.total_len m.scrollback_len
    then refuse ch unexpected_message
    else if leb m.stream_gen ch.agent_stream_gen
    then refuse ch unexpected_message
    else (
      record ch {
        grid_receiving = some (record {
          stream_gen = m.stream_gen;
          total_len = m.total_len;
          scrollback_len = m.scrollback_len;
          flags = m.flags;
          bytes_received = 0;
        });
      },
      ok delivered_nothing,
    )

unfoldable pub receive_grid_begin : Channel → ByteReader → Outcome
unfolding on_grid_begin
receive_grid_begin ch reader =
    if ltb ch.version protocol_version_grid
    then refuse ch unexpected_message
    else if not (is_client ch.role)
    then refuse ch unexpected_message
    else parsed ch (on_grid_begin ch) (parse_grid_begin reader).1

-- The checks of a chunk against the reception it is for.
unfoldable pub on_grid_chunk : Channel → Option GridReception → GridChunkMessage → Outcome
on_grid_chunk ch none m = refuse ch unexpected_message
on_grid_chunk ch (some rec) m =
    if length m.chunk == 0
    then refuse ch unexpected_message
    else if not (m.chunk_offset == rec.bytes_received)
    then refuse ch unexpected_message
    else if ltb ((rec.total_len + u32_mod - rec.bytes_received) % u32_mod) (length m.chunk)
    then refuse ch unexpected_message
    else (
      record ch {
        snapshot_buf = overwrite ch.snapshot_buf rec.bytes_received m.chunk;
        grid_receiving =
            some (record rec { bytes_received = (rec.bytes_received + length m.chunk) % u32_mod });
      },
      ok delivered_nothing,
    )

unfoldable pub receive_grid_chunk : Channel → ByteReader → Outcome
unfolding on_grid_chunk
receive_grid_chunk ch reader =
    if ltb ch.version protocol_version_grid
    then refuse ch unexpected_message
    else if not (is_client ch.role)
    then refuse ch unexpected_message
    else parsed ch (on_grid_chunk ch ch.grid_receiving) (parse_grid_chunk reader).1

unfoldable pub on_grid_end : Channel → Option GridReception → Outcome
unfolding ReceiveCursor.reset
on_grid_end ch none = refuse ch unexpected_message
on_grid_end ch (some rec) =
    if not (rec.bytes_received == rec.total_len) then refuse ch unexpected_message else (
      record ch {
        recv_cursor = ReceiveCursor.reset ch.recv_cursor 0;
        last_acked_offset = 0;
        ack_pending_since = none;
        grid_receiving = none;
        agent_stream_gen = rec.stream_gen;
      },
      ok (
          delivered_grid_snapshot (take rec.total_len ch.snapshot_buf) rec.stream_gen
            rec.scrollback_len rec.flags),
    )

-- The body of a GridEnd is not read.
unfoldable pub receive_grid_end : Channel → Outcome
unfolding on_grid_end
receive_grid_end ch =
    if ltb ch.version protocol_version_grid
    then refuse ch unexpected_message
    else if not (is_client ch.role)
    then refuse ch unexpected_message
    else on_grid_end ch ch.grid_receiving

unfoldable pub on_grid_applied : Channel → GridAppliedMessage → Outcome
on_grid_applied ch m =
    if not ch.grid_awaiting_applied || has_value ch.grid_emitting
    then refuse ch unexpected_message
    else if not (m.stream_gen == ch.grid_expected_applied_gen)
    then refuse ch malformed_field
    else (record ch { grid_awaiting_applied = false }, ok (delivered_grid_applied m.stream_gen))

unfoldable pub receive_grid_applied : Channel → ByteReader → Outcome
unfolding on_grid_applied
receive_grid_applied ch reader =
    if ltb ch.version protocol_version_grid
    then refuse ch unexpected_message
    else if not (is_agent ch.role)
    then refuse ch unexpected_message
    else parsed ch (on_grid_applied ch) (parse_grid_applied reader).1

-- The switch on the message's type.
unfoldable pub dispatch : EMessageType → Channel → ByteReader → Outcome
unfolding receive_data receive_ack receive_resize receive_ping receive_pong receive_session_end
    receive_grid_begin receive_grid_chunk receive_grid_end receive_grid_applied
dispatch Types.message_data ch reader = receive_data ch reader
dispatch Types.ack ch reader = receive_ack ch reader
dispatch Types.resize ch reader = receive_resize ch reader
dispatch Types.ping ch reader = receive_ping ch reader
dispatch Types.pong ch reader = receive_pong ch reader
dispatch Types.session_end ch reader = receive_session_end ch reader
dispatch Types.grid_begin ch reader = receive_grid_begin ch reader
dispatch Types.grid_chunk ch reader = receive_grid_chunk ch reader
dispatch Types.grid_end ch reader = receive_grid_end ch
dispatch Types.grid_applied ch reader = receive_grid_applied ch reader
dispatch Types.hello ch reader = refuse ch unexpected_message
dispatch Types.challenge ch reader = refuse ch unexpected_message
dispatch Types.auth ch reader = refuse ch unexpected_message
dispatch Types.auth_ok ch reader = refuse ch unexpected_message
dispatch Types.resume ch reader = refuse ch unexpected_message
dispatch Types.bootstrap_offer ch reader = refuse ch unexpected_message
dispatch Types.bootstrap_accept ch reader = refuse ch unexpected_message
dispatch Types.mux_register ch reader = refuse ch unexpected_message
dispatch Types.mux_registered ch reader = refuse ch unexpected_message
dispatch Types.mux_refused ch reader = refuse ch unexpected_message
dispatch Types.mux_handoff ch reader = refuse ch unexpected_message

abbrev pub typed : Channel → ByteReader × ProtoResult EMessageType → Outcome
typed ch (reader, ok t) = dispatch t ch reader
typed ch (reader, err unknown_message_type) =
    (record ch { unknown_type_count = add64 ch.unknown_type_count 1 }, ok delivered_nothing)
typed ch (reader, err e) = refuse ch e

-- What a plaintext says.
unfoldable pub receive_plaintext : Channel → List ℕ → Outcome
unfolding dispatch
receive_plaintext ch plaintext = typed ch (parse_message_type (Reader.make plaintext))

abbrev pub opened : Channel → Timestamp → FrameOpener × ProtoResult (List ℕ) → Outcome
opened ch now (opener, err e) = refuse (record ch { opener = opener }) e
opened ch now (opener, ok plaintext) =
    receive_plaintext (record ch { opener = opener; last_heard = now }) plaintext

-- `scratch` is the size of the buffer for the plaintext.
unfoldable pub receive : Sodium → Channel → Timestamp → FrameView → ℕ → Outcome
unfolding receive_plaintext
receive c ch now frame scratch = opened ch now (open_frame c ch.opener scratch frame)
