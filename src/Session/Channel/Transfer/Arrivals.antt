-- ===== src/Session/Channel/Transfer/Arrivals.antt =====
-- What the receiver's channel makes of each message of a snapshot.
use zet.Prelude.{
  ℕ, ◌+◌, ◌≤◌, ◌<◌, ◌≡◌, true, none, some, ok, arith, length, take, overwrite, u32_mod,
}
use zet.Core.Reader.{ByteReader}
use zet.Wire.Limits.{protocol_version_grid, snapshot_max_bytes}
use zet.Wire.Types.{grid_begin, grid_chunk, grid_end}
use zet.Wire.Parse.{parse_grid_begin, parse_grid_chunk}
use zet.Session.ReceiveCursor
use zet.Session.Channel.{Channel, is_client}
use zet.Session.Channel.Receive.{
  delivered_nothing, delivered_grid_snapshot, dispatch, receive_grid_begin, receive_grid_chunk,
  receive_grid_end, on_grid_begin, on_grid_chunk, on_grid_end,
}
use zet.Session.Channel.Poll.{chunk_header, begin_of}
use zet.Session.Channel.Transfer.{Snapshot, reception_at, starting, size_at, chunk_at, length-chunk}

module _ (scratch : ℕ) (p : Snapshot) where
  pub arrive-chunk :
      (receiver : Channel) (reader : ByteReader) (k : ℕ)
      → is_client receiver.role ≡ true
      → protocol_version_grid ≤ receiver.version
      → receiver.grid_receiving ≡ some (reception_at p k)
      → k < length p.bytes
      → chunk_header + 1 ≤ scratch
      → length p.bytes < u32_mod
      → (parse_grid_chunk reader).1 ≡ ok (chunk_at p scratch k)
      → dispatch grid_chunk receiver reader ≡ (
        record receiver {
          snapshot_buf = overwrite receiver.snapshot_buf k (chunk_at p scratch k).chunk;
          grid_receiving = some (reception_at p (k + size_at p scratch k));
        },
        ok delivered_nothing,
      )
  unfolding dispatch receive_grid_chunk on_grid_chunk
  arrive-chunk receiver reader k h v e below enough width read =
      let size = length-chunk p scratch k below enough in
      let accepted : on_grid_chunk receiver (some (reception_at p k)) (chunk_at p scratch k) ≡ (
        record receiver {
          snapshot_buf = overwrite receiver.snapshot_buf k (chunk_at p scratch k).chunk;
          grid_receiving = some (reception_at p (k + size_at p scratch k));
        },
        ok delivered_nothing,
      ) =
        ground (arith, size) in
      ground (arith, h, e, read, accepted)

  pub arrive-end :
      (receiver : Channel) (reader : ByteReader)
      → is_client receiver.role ≡ true
      → protocol_version_grid ≤ receiver.version
      → receiver.grid_receiving ≡ some (reception_at p (length p.bytes))
      → take (length p.bytes) receiver.snapshot_buf ≡ p.bytes
      → dispatch grid_end receiver reader ≡ (
        record receiver {
          recv_cursor = ReceiveCursor.reset receiver.recv_cursor 0;
          last_acked_offset = 0;
          ack_pending_since = none;
          grid_receiving = none;
          agent_stream_gen = p.gen;
        },
        ok (delivered_grid_snapshot p.bytes p.gen p.scrollback p.flags),
      )
  unfolding dispatch receive_grid_end on_grid_end
  arrive-end receiver reader h v e same =
      let accepted : on_grid_end receiver (some (reception_at p (length p.bytes))) ≡ (
        record receiver {
          recv_cursor = ReceiveCursor.reset receiver.recv_cursor 0;
          last_acked_offset = 0;
          ack_pending_since = none;
          grid_receiving = none;
          agent_stream_gen = p.gen;
        },
        ok (delivered_grid_snapshot p.bytes p.gen p.scrollback p.flags),
      ) =
        ground (arith, same) in
      ground (arith, h, e, accepted)

  pub arrive-begin :
      (receiver : Channel) (reader : ByteReader)
      → is_client receiver.role ≡ true
      → protocol_version_grid ≤ receiver.version
      → receiver.grid_receiving ≡ none
      → length p.bytes ≤ snapshot_max_bytes
      → length p.bytes ≤ length receiver.snapshot_buf
      → p.scrollback ≤ length p.bytes
      → receiver.agent_stream_gen < p.gen
      → (parse_grid_begin reader).1 ≡ ok (begin_of (starting p))
      → dispatch grid_begin receiver reader
        ≡ (record receiver { grid_receiving = some (reception_at p 0) }, ok delivered_nothing)
  unfolding dispatch receive_grid_begin on_grid_begin
  arrive-begin receiver reader h v e most space scrolled newer read =
      let accepted : on_grid_begin receiver (begin_of (starting p))
          ≡ (record receiver { grid_receiving = some (reception_at p 0) }, ok delivered_nothing) =
        ground (arith, e) in
      ground (arith, h, read, accepted)
