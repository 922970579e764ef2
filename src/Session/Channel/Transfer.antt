-- ===== src/Session/Channel/Transfer.antt =====
-- A snapshot on its way from the agent's channel to the client's, a frame at a time.
pub mod Sends
pub mod Arrivals
pub mod Steps
use zet.Prelude.{
  ℕ, zero, suc, subst, dec_lt, append-nil, ◌+◌, ◌-◌, ◌≤◌, ◌<◌, ◌%◌, min, ◌≡◌, refl, sym, ap, ◌∙◌,
  Bool, true, false, not, List, [], ◌∷◌, ◌++◌, Option, none, some, Expected, ok, err, arith, length,
  take, drop, overwrite, u32_mod, replicate, length-replicate, length-append, length-take,
  length-drop, ltb, ◌==◌, ◌&&◌, take-add, take-all, length-overwrite,
}
use zet.Core.Time.{Timestamp}
use zet.Core.Error.{EProtoError, ProtoResult}
use zet.Core.Reader
use zet.Core.Reader.{ByteReader, pure}
use zet.Core.Reader.Laws.{length-encode_be}
use zet.Core.Writer
use zet.Core.Writer.{Write, encode_be}
use zet.Core.Writer.Laws.{Writes, Writes-make, Writes-be, take-overwrite}
use zet.Crypto.{Sodium, IsSodium}
use zet.Wire.Limits.{
  max_frame, header_size, tag_size, protocol_version_grid, snapshot_max_bytes, grid_chunk_max_data,
}
use zet.Wire.SealedFrame.{FrameSealer, seal}
use zet.Wire.Types.{EMessageType, grid_begin, grid_chunk, grid_end, code_of, write_message_type}
use zet.Wire.Messages.{GridBeginMessage, GridChunkMessage}
use zet.Wire.Parse.{parse_grid_begin, parse_grid_chunk}
use zet.Wire.Write.{write_grid_begin, write_grid_chunk, write_grid_end}
use zet.Wire.RoundTrip.{received, received-message}
use zet.Wire.RoundTrip.Grid.{
  Writes-grid_begin, Parses-grid_begin, grid_begin_body, Writes-grid_chunk, Parses-grid_chunk,
  grid_chunk_body,
}
use zet.Session.ReceiveCursor
use zet.Session.Error.{ChannelResult}
use zet.Session.Channel.{Channel, GridEmission, GridReception, is_agent, is_client}
use zet.Session.Channel.Receive.{
  IncomingEvent, delivered_nothing, delivered_grid_snapshot, dispatch, receive_grid_begin,
  receive_grid_chunk, receive_grid_end, on_grid_begin, on_grid_chunk, on_grid_end,
}
use zet.Session.Channel.Poll.{
  seal_into, sealed_with, emit_begin, emit_chunk, emit_end, or_on, encoded, encoded_by, poll_grid,
  poll, chunk_size, chunk_header, Priority, sealing_control, sealing, emitting_end, emitting_chunk,
  begin_of,
}
use zet.Session.Channel.Exchange.{Exchanged, Linked, carry, kept, crosses}

pub record Snapshot : Type 0 where
  pub bytes : List ℕ
  pub gen : ℕ
  pub scrollback : ℕ
  pub flags : ℕ

abbrev pub emission_at : Snapshot → ℕ → GridEmission
emission_at p k = record {
  snapshot = p.bytes;
  stream_gen = p.gen;
  total_len = length p.bytes;
  scrollback_len = p.scrollback;
  flags = p.flags;
  bytes_sent = k;
  begin_sent = true;
}

abbrev pub reception_at : Snapshot → ℕ → GridReception
reception_at p k = record {
  stream_gen = p.gen;
  total_len = length p.bytes;
  scrollback_len = p.scrollback;
  flags = p.flags;
  bytes_received = k;
}

abbrev pub starting : Snapshot → GridEmission
starting p = record (emission_at p 0) { begin_sent = false }

abbrev pub size_at : Snapshot → ℕ → ℕ → ℕ
size_at p scratch k = chunk_size scratch (emission_at p k)

abbrev pub chunk_at : Snapshot → ℕ → ℕ → GridChunkMessage
chunk_at p scratch k = record {
  chunk_offset = k;
  chunk = take (size_at p scratch k) (drop k p.bytes);
}

pub length-chunk :
    (p : Snapshot) (scratch k : ℕ)
    → k < length p.bytes
    → chunk_header + 1 ≤ scratch
    → length (chunk_at p scratch k).chunk ≡ size_at p scratch k
length-chunk p scratch k below enough =
    omega (arith, length-take (size_at p scratch k) (drop k p.bytes), length-drop k p.bytes)

-- The plaintexts of the three messages, and what the sender's channel becomes with each.
abbrev pub begin_plaintext : Snapshot → List ℕ
begin_plaintext p = encode_be 1 (code_of grid_begin) ++ grid_begin_body (begin_of (starting p))

pub length-begin : (p : Snapshot) → length (begin_plaintext p) ≡ 14
length-begin p =
    let m = begin_of (starting p) in
    omega (
      arith,
      length-encode_be 1 (code_of grid_begin),
      length-encode_be 1 m.flags,
      length-encode_be 4 m.stream_gen,
      length-encode_be 4 m.scrollback_len,
      length-encode_be 4 m.total_len,
      length-append (encode_be 1 (code_of grid_begin)) (grid_begin_body m),
      length-append (encode_be 1 m.flags)
          (encode_be 4 m.stream_gen ++ (encode_be 4 m.scrollback_len ++ (encode_be 4 m.total_len))),
      length-append (encode_be 4 m.stream_gen)
          (encode_be 4 m.scrollback_len ++ (encode_be 4 m.total_len)),
      length-append (encode_be 4 m.scrollback_len) (encode_be 4 m.total_len),
    )

abbrev pub chunk_plaintext : Snapshot → ℕ → ℕ → List ℕ
chunk_plaintext p scratch k =
    encode_be 1 (code_of grid_chunk) ++ grid_chunk_body (chunk_at p scratch k)

pub length-chunk_plaintext :
    (p : Snapshot) (scratch k : ℕ)
    → k < length p.bytes
    → chunk_header + 1 ≤ scratch
    → length (chunk_plaintext p scratch k) ≡ chunk_header + size_at p scratch k
length-chunk_plaintext p scratch k below enough = omega (
  arith,
  length-chunk p scratch k below enough,
  length-encode_be 1 (code_of grid_chunk),
  length-encode_be 4 k,
  length-append (encode_be 1 (code_of grid_chunk)) (grid_chunk_body (chunk_at p scratch k)),
  length-append (encode_be 4 k) (chunk_at p scratch k).chunk,
)

abbrev pub end_plaintext : List ℕ
end_plaintext = encode_be 1 (code_of grid_end)

abbrev pub begun : Snapshot → Channel → Channel
begun p ch = record ch { grid_emitting = some (emission_at p 0) }

abbrev pub chunk_sent : Snapshot → ℕ → ℕ → Channel → Channel
chunk_sent p scratch k ch = record ch {
  grid_emitting =
      some
        (record (emission_at p k) { bytes_sent = (k + size_at p scratch k % u32_mod) % u32_mod });
}

abbrev pub end_done : Channel → Channel
end_done ch = record ch { grid_emitting = none; grid_awaiting_applied = true }

abbrev pub on_exchanged :
    (Channel → Channel → Option Exchanged) → Option Exchanged → Option Exchanged
on_exchanged next none = none
on_exchanged next (some (sender, receiver, delivered_nothing)) = next sender receiver
on_exchanged next (some (sender, receiver, event)) = some (sender, receiver, event)

-- What the sender polls, carried to the receiver frame by frame until something is delivered there.
unfoldable pub transfer : Sodium → ℕ → ℕ → ℕ → Timestamp → ℕ → Channel → Channel → Option Exchanged
transfer c out scratch room now zero sender receiver = none
transfer c out scratch room now (suc fuel) sender receiver =
    on_exchanged (transfer c out scratch room now fuel)
      (carry c room now receiver (poll c out scratch now sender))
