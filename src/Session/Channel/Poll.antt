-- ===== src/Session/Channel/Poll.antt =====
-- `Channel::Poll`: the next frame to send, by priority. `out` and `scratch` are the sizes of the two
-- buffers; the result is the frame, and no bytes at all where nothing is to be sent.
pub mod Grid
use zet.Prelude.{
  ℕ, ◌+◌, ◌-◌, ◌%◌, min, true, ◌&&◌, ◌||◌, not, List, [], ◌∷◌, ◌++◌, Option, none, some, ok, err,
  if◌then◌else◌, ltb, leb, ◌==◌, length, take, drop, replicate, add64, u32_mod,
}
use zet.Core.Time.{Timestamp}
use zet.Core.Error.{ProtoResult, buffer_too_small}
use zet.Core.Writer
use zet.Core.Writer.{ByteWriter, Write, encode_be}
use zet.Crypto.{Sodium}
use zet.Wire.Limits.{header_size, tag_size, max_data_payload, grid_chunk_max_data}
use zet.Wire.SealedFrame.{FrameSealer, seal, needs_rekey, rekey}
use zet.Wire.Types.{code_of, message_data}
use zet.Wire.Messages.{ResizeMessage, PongMessage, SessionEndMessage, GridBeginMessage}
use zet.Wire.Write.{
  write_ack, write_resize, write_ping, write_pong, write_session_end, write_grid_begin,
  write_grid_chunk, write_grid_end, write_grid_applied,
}
use zet.Session.Error.{proto, session, peer_silent, ChannelResult}
use zet.Session.SendBuffer
use zet.Session.SendBuffer.{SendBuffer}
use zet.Session.ReceiveCursor
use zet.Session.Channel.{
  Channel, GridEmission, is_client, is_agent, grid_in_flight, ack_idle_delay, rekey_interval,
}

abbrev pub Sent : Type 0
Sent = Channel × ChannelResult (List ℕ)

-- One priority: a frame or an error, or nothing, and the next priority has its turn.
abbrev pub Priority : Type 0
Priority = Channel → Channel × Option (ChannelResult (List ℕ))

abbrev pub pass : Channel → Channel × Option (ChannelResult (List ℕ))
pass ch = (ch, none)

abbrev pub then_on : (Channel → Sent) → Channel × Option (ChannelResult (List ℕ)) → Sent
then_on next (ch, some r) = (ch, r)
then_on next (ch, none) = next ch

-- What a message is written as, in a buffer of `size` bytes.
abbrev pub encoded_by : ByteWriter × ProtoResult (Unit {0}) → ProtoResult (List ℕ)
encoded_by (w, ok tt) = ok (Writer.written w)
encoded_by (w, err e) = err e

unfoldable pub encoded : ℕ → Write → ProtoResult (List ℕ)
encoded size write = encoded_by (write (Writer.make (replicate size 0)))

-- `SealInto`, and what changes once the frame is sealed.
abbrev pub sealed_with :
    Channel
    → (Channel → Channel)
    → FrameSealer × ProtoResult (List ℕ)
    → Channel × Option (ChannelResult (List ℕ))
sealed_with ch change (s, ok frame) = (change (record ch { sealer = s }), some (ok frame))
sealed_with ch change (s, err e) = (record ch { sealer = s }, some (err (proto e)))

unfoldable pub seal_into : Sodium → ℕ → List ℕ → (Channel → Channel) → Priority
seal_into c out plaintext change ch = sealed_with ch change (seal c ch.sealer out plaintext)

-- A message that cannot be written gives its turn away.
abbrev pub sealing :
    Sodium
    → ℕ
    → (Channel → Channel)
    → Channel
    → ProtoResult (List ℕ)
    → Channel × Option (ChannelResult (List ℕ))
sealing c out change ch (ok plaintext) = seal_into c out plaintext change ch
sealing c out change ch (err e) = pass ch

-- `SealControl`, where it is the error of the whole call.
abbrev pub sealing_control :
    Sodium
    → ℕ
    → (Channel → Channel)
    → Channel
    → ProtoResult (List ℕ)
    → Channel × Option (ChannelResult (List ℕ))
sealing_control c out change ch (ok plaintext) = seal_into c out plaintext change ch
sealing_control c out change ch (err e) = (ch, some (err (proto e)))

abbrev pong_to :
    Sodium → ℕ → Channel → Option PongMessage → Channel × Option (ChannelResult (List ℕ))
pong_to c out ch none = pass ch
pong_to c out ch (some m) =
    sealing c out (λ ch'. record ch' { pending_pong = none }) ch (encoded 9 (write_pong m))

unfoldable pub poll_pong : Sodium → ℕ → Priority
unfolding encoded seal_into
poll_pong c out ch = pong_to c out ch ch.pending_pong

abbrev applied_to : Sodium → ℕ → Channel → Option ℕ → Channel × Option (ChannelResult (List ℕ))
applied_to c out ch none = pass ch
applied_to c out ch (some gen) =
    sealing c out (λ ch'. record ch' { pending_grid_applied = none }) ch
      (encoded 5 (write_grid_applied (record { stream_gen = gen })))

unfoldable pub poll_grid_applied : Sodium → ℕ → Priority
unfolding encoded seal_into
poll_grid_applied c out ch =
    if is_client ch.role then applied_to c out ch ch.pending_grid_applied else pass ch

abbrev pub begin_of : GridEmission → GridBeginMessage
begin_of ge = record {
  flags = ge.flags;
  stream_gen = ge.stream_gen;
  scrollback_len = ge.scrollback_len;
  total_len = ge.total_len;
}

unfoldable pub emit_begin : Sodium → ℕ → GridEmission → Priority
unfolding encoded seal_into
emit_begin c out ge ch =
    if ge.begin_sent
    then pass ch
    else sealing c out
        (λ ch'. record ch' { grid_emitting = some (record ge { begin_sent = true }) }) ch
        (encoded 14 (write_grid_begin (begin_of ge)))

abbrev pub chunk_header : ℕ
chunk_header = 5

abbrev pub chunk_size : ℕ → GridEmission → ℕ
chunk_size scratch ge =
    min (min grid_chunk_max_data (scratch - chunk_header)) (ge.total_len - ge.bytes_sent)

unfoldable pub emit_chunk : Sodium → ℕ → ℕ → GridEmission → Priority
unfolding encoded seal_into
emit_chunk c out scratch ge ch =
    let size = chunk_size scratch ge in
    if not (ge.begin_sent && ltb ge.bytes_sent ge.total_len)
    then pass ch
    else if ltb scratch (chunk_header + 1)
    then (ch, some (err (proto buffer_too_small)))
    else sealing_control c out
        (λ ch'. record ch' {
          grid_emitting =
              some (record ge { bytes_sent = (ge.bytes_sent + size % u32_mod) % u32_mod });
        })
        ch
        (encoded (chunk_header + size) (
          write_grid_chunk (record {
            chunk_offset = ge.bytes_sent;
            chunk = take size (drop ge.bytes_sent ge.snapshot);
          })))

unfoldable pub emit_end : Sodium → ℕ → GridEmission → Priority
unfolding encoded seal_into
emit_end c out ge ch =
    if ge.begin_sent && ge.bytes_sent == ge.total_len
    then sealing c out (λ ch'. record ch' { grid_emitting = none; grid_awaiting_applied = true }) ch
        (encoded 1 (write_grid_end (record {})))
    else pass ch

-- The three stages of an emission; each looks at what the one before it has left.
abbrev pub emitting_end : Sodium → ℕ → Option GridEmission → Priority
emitting_end c out none ch = pass ch
emitting_end c out (some ge) ch = emit_end c out ge ch

abbrev pub emitting_chunk : Sodium → ℕ → ℕ → Option GridEmission → Priority
emitting_chunk c out scratch none ch = pass ch
emitting_chunk c out scratch (some ge) ch = emit_chunk c out scratch ge ch

abbrev pub emitting_begin : Sodium → ℕ → Option GridEmission → Priority
emitting_begin c out none ch = pass ch
emitting_begin c out (some ge) ch = emit_begin c out ge ch

abbrev pub or_on :
    Priority → Channel × Option (ChannelResult (List ℕ)) → Channel × Option (ChannelResult (List ℕ))
or_on next (ch, some r) = (ch, some r)
or_on next (ch, none) = next ch

unfoldable pub poll_grid : Sodium → ℕ → ℕ → Priority
unfolding emit_begin emit_chunk emit_end
poll_grid c out scratch ch =
    if is_agent ch.role
    then or_on (λ ch2. emitting_end c out ch2.grid_emitting ch2)
        (or_on (λ ch1. emitting_chunk c out scratch ch1.grid_emitting ch1)
          (emitting_begin c out ch.grid_emitting ch))
    else pass ch

abbrev pub data_header : ℕ
data_header = 17

unfoldable pub data_plaintext : Channel → List ℕ → List ℕ
data_plaintext ch payload =
    encode_be 1 (code_of message_data)
    ++ (encode_be 8 (ReceiveCursor.ack_offset ch.recv_cursor)
        ++ (encode_be 8 ch.send_buf.send_next ++ payload))

abbrev sent_data : List ℕ → Channel → Channel
sent_data payload ch = record ch {
  send_buf = SendBuffer.advance_send_next ch.send_buf (length payload);
  last_acked_offset = ReceiveCursor.ack_offset ch.recv_cursor;
  ack_pending_since = none;
}

unfoldable pub poll_data : Sodium → ℕ → ℕ → Priority
unfolding seal_into data_plaintext grid_in_flight
poll_data c out scratch ch =
    let payload_cap = min max_data_payload (scratch - data_header) in
    let payload_size = min payload_cap (SendBuffer.unsent ch.send_buf) in
    let payload = SendBuffer.copy_out ch.send_buf ch.send_buf.send_next payload_size in
    if not (
      ltb 0 (SendBuffer.unsent ch.send_buf)
      && not (is_agent ch.role && (grid_in_flight ch || ch.awaiting_snapshot_supply)))
    then pass ch
    else if ltb scratch (data_header + 1)
    then (ch, some (err (proto buffer_too_small)))
    else if payload_size == 0
    then pass ch
    else seal_into c out (data_plaintext ch payload) (sent_data payload) ch

abbrev end_to :
    Sodium → ℕ → Channel → Option SessionEndMessage → Channel × Option (ChannelResult (List ℕ))
end_to c out ch none = pass ch
end_to c out ch (some m) =
    sealing_control c out (λ ch'. record ch' { end_sent = true }) ch
      (encoded 3 (write_session_end m ch.version))

unfoldable pub poll_end : Sodium → ℕ → Priority
unfolding encoded seal_into
poll_end c out ch =
    if not ch.end_sent && SendBuffer.size ch.send_buf == 0
    then end_to c out ch ch.pending_end
    else pass ch

abbrev resize_to :
    Sodium → ℕ → Channel → Option ResizeMessage → Channel × Option (ChannelResult (List ℕ))
resize_to c out ch none = pass ch
resize_to c out ch (some m) =
    sealing c out (λ ch'. record ch' { pending_resize = none }) ch (encoded 9 (write_resize m))

unfoldable pub poll_resize : Sodium → ℕ → Priority
unfolding encoded seal_into
poll_resize c out ch = resize_to c out ch ch.pending_resize

-- A bare Ack: the first poll that has one to send starts its timer.
abbrev ack_due :
    Sodium → ℕ → Timestamp → Channel → Option Timestamp → Channel × Option (ChannelResult (List ℕ))
ack_due c out now ch none = pass (record ch { ack_pending_since = some now })
ack_due c out now ch (some since) =
    if leb (since + ack_idle_delay) now
    then sealing c out
        (λ ch'. record ch' {
          last_acked_offset = ReceiveCursor.ack_offset ch.recv_cursor;
          ack_pending_since = none;
        })
        ch (encoded 9 (write_ack (record { acked = ReceiveCursor.ack_offset ch.recv_cursor })))
    else pass ch

unfoldable pub poll_ack : Sodium → ℕ → Timestamp → Priority
unfolding encoded seal_into
poll_ack c out now ch =
    if ltb ch.last_acked_offset (ReceiveCursor.ack_offset ch.recv_cursor)
    then ack_due c out now ch ch.ack_pending_since
    else pass ch

unfoldable pub poll_keepalive : Sodium → ℕ → Timestamp → Priority
unfolding encoded seal_into
poll_keepalive c out now ch =
    if ltb 0 ch.liveness.keepalive_interval
      && leb (ch.last_sent + ch.liveness.keepalive_interval) now
    then sealing_control c out (λ ch'. record ch' { next_ping_token = add64 ch'.next_ping_token 1 })
        ch (encoded 9 (write_ping (record { token = ch.next_ping_token })))
    else pass ch

-- The first priority that has something to send.
pub first_of : List Priority → Channel → Sent
first_of [] ch = (ch, ok [])
first_of (p ∷ ps) ch = then_on (first_of ps) (p ch)

unfoldable pub poll_priorities : Sodium → ℕ → ℕ → Timestamp → Channel → Sent
unfolding first_of
poll_priorities c out scratch now = first_of (
    poll_pong c out
    ∷ poll_grid_applied c out
    ∷ poll_grid c out scratch
    ∷ poll_data c out scratch
    ∷ poll_end c out
    ∷ poll_resize c out
    ∷ poll_ack c out now
    ∷ poll_keepalive c out now
    ∷ [])

abbrev rekeyed :
    Channel → Timestamp → FrameSealer × ProtoResult (Unit {0}) → Channel × ChannelResult (Unit {0})
rekeyed ch now (s, ok tt) = (record ch { sealer = s; epoch_start = now }, ok tt)
rekeyed ch now (s, err e) = (record ch { sealer = s }, err (proto e))

unfoldable pub rekey_if_needed : Sodium → Timestamp → Channel → Channel × ChannelResult (Unit {0})
rekey_if_needed c now ch =
    if not (needs_rekey ch.sealer) && not (leb (ch.epoch_start + rekey_interval) now)
    then (ch, ok tt)
    else rekeyed ch now (rekey c ch.sealer)

abbrev after_rekey : Sodium → ℕ → ℕ → Timestamp → Channel × ChannelResult (Unit {0}) → Sent
after_rekey c out scratch now (ch, err e) = (ch, err e)
after_rekey c out scratch now (ch, ok tt) =
    if ltb out (header_size + 1 + tag_size)
    then (ch, err (proto buffer_too_small))
    else poll_priorities c out scratch now ch

unfoldable pub poll_once : Sodium → ℕ → ℕ → Timestamp → Channel → Sent
unfolding rekey_if_needed
poll_once c out scratch now ch = after_rekey c out scratch now (rekey_if_needed c now ch)

abbrev pub noted : Timestamp → Sent → Sent
noted now (ch, ok frame) =
    (if ltb 0 (length frame) then record ch { last_sent = now } else ch, ok frame)
noted now (ch, err e) = (ch, err e)

unfoldable pub poll : Sodium → ℕ → ℕ → Timestamp → Channel → Sent
unfolding poll_once
poll c out scratch now ch =
    if not ch.read_gate_closed
      && (ltb 0 ch.liveness.peer_silence_timeout
          && leb (ch.last_heard + ch.liveness.peer_silence_timeout) now)
    then (ch, err (session peer_silent))
    else if ch.send_gate_closed
    then (ch, ok [])
    else noted now (poll_once c out scratch now ch)
