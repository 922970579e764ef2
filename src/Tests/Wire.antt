-- ===== src/Tests/Wire.antt =====
-- src/wire and src/core at concrete messages and frames.
use zet.Prelude.{
  ℕ, ◌++◌, ◌⊎◌, ◌≤◌, ◌<◌, drop, take, ◌≡◌, refl, List, [], ◌∷◌, ok, err, length, arith, inl,
  replicate,
}
use zet.Core.Error.{truncated, length_limit_exceeded}
use zet.Core.Reader
use zet.Core.Reader.Laws.{read_bytes_lem}
use zet.Core.Writer
use zet.Wire.Messages.{
  AuthOkMessage, ResumeMessage, BootstrapAcceptMessage, DataMessage, ResizeMessage,
  SessionEndMessage, overflow, GridBeginMessage, GridChunkMessage, MuxRegisteredMessage,
  MuxHandoffMessage,
}
use zet.Wire.Types.{message_data, resume, session_end}
use zet.Wire.Parse.{parse_data, parse_resume, parse_session_end}
use zet.Wire.Write.{write_data, write_resume, write_session_end}
use zet.Wire.RoundTrip.{received}
use zet.Wire.RoundTrip.Stream.{data_round_trip}
use zet.Wire.RoundTrip.Choice.{resume_round_trip, session_end_round_trip}
use zet.Wire.Frame.Laws.{frame_round_trip}
use zet.Wire.Frame.{FrameHeader, write_frame_header, read_frame}
use zet.Wire.FrameStream
use zet.Wire.FrameStream.{FrameStream, append, stream_room}
use zet.Wire.FrameStream.Laws.{IsValid, contents, append-contents, init-IsValid}

abbrev some_bytes : List ℕ
some_bytes = 104 ∷ 105 ∷ 10 ∷ []

abbrev tag : List ℕ
tag = replicate 32 7

abbrev room : List ℕ
room = replicate 160 0

abbrev data_message : DataMessage
data_message = record { acked = 12; offset = 300; payload = some_bytes }

data_round_trip_example :
    ((write_data data_message (Writer.make room)).1 ≡ ok tt)
    × (received parse_data (Writer.written (write_data data_message (Writer.make room)).0)
        ≡ ok (message_data, data_message))
data_round_trip_example =
    data_round_trip data_message room (omega arith) (omega arith) (omega arith) (omega arith)
      (omega arith)

abbrev auth_ok_message : AuthOkMessage
auth_ok_message = record { server_tag = tag; server_receive_offset = 77 }

abbrev bootstrap_accept_message : BootstrapAcceptMessage
bootstrap_accept_message = record {
  version = 2;
  agent_key = tag;
  client_nonce = tag;
  agent_nonce = tag;
  port = 4433;
  orphan_timeout_seconds = 1800;
}

abbrev resume_message : ResumeMessage
resume_message = record { stream_gen = 3; client_receive_offset = 1000 }

resume_round_trip_example :
    ((write_resume resume_message 2 (Writer.make room)).1 ≡ ok tt)
    × (received
          (parse_resume 2)
          (Writer.written (write_resume resume_message 2 (Writer.make room)).0)
        ≡ ok (resume, resume_message))
resume_round_trip_example =
    resume_round_trip resume_message 2 room (omega arith) (omega arith) (inl (omega arith))
      (omega arith)

abbrev resize_message : ResizeMessage
resize_message = record { rows = 24; cols = 80; xpixel = 640; ypixel = 480 }

abbrev session_end_message : SessionEndMessage
session_end_message = record { kind = overflow; value = 0 }

session_end_round_trip_example :
    ((write_session_end session_end_message 2 (Writer.make room)).1 ≡ ok tt)
    × (received
          (parse_session_end 2)
          (Writer.written (write_session_end session_end_message 2 (Writer.make room)).0)
        ≡ ok (session_end, session_end_message))
session_end_round_trip_example =
    session_end_round_trip session_end_message 2 room (omega arith) (λ e. ((omega arith), refl))
      (omega arith)

abbrev grid_begin_message : GridBeginMessage
grid_begin_message = record { flags = 1; stream_gen = 4; scrollback_len = 10; total_len = 2000 }

abbrev grid_chunk_message : GridChunkMessage
grid_chunk_message = record { chunk_offset = 100; chunk = some_bytes }

abbrev mux_registered_message : MuxRegisteredMessage
mux_registered_message = record { port = 4433 }

abbrev mux_handoff_message : MuxHandoffMessage
mux_handoff_message = record { prefix = some_bytes }

abbrev frame_header : FrameHeader
frame_header = record { size = 3; epoch = 1 }

frame_round_trip_example :
    ((write_frame_header frame_header (Writer.make room)).1 ≡ ok tt)
    × (read_frame
          (Writer.written (write_frame_header frame_header (Writer.make room)).0
            ++ (some_bytes ++ tag))
          4096
        ≡ ok (record { header = frame_header; body = some_bytes; consumed = 8 }))
frame_round_trip_example =
    frame_round_trip 1 4096 some_bytes tag room (omega arith) (omega arith) (omega arith)
      (omega arith) (omega arith)

abbrev stream : FrameStream
stream = FrameStream.init room 64

append-contents_example :
    IsValid (append stream some_bytes).0
    × (((length some_bytes ≤ stream_room stream)
          × ((append stream some_bytes).1 ≡ ok tt)
          × (contents (append stream some_bytes).0 ≡ contents stream ++ some_bytes))
        ⊎ ((stream_room stream < length some_bytes)
            × ((append stream some_bytes).1 ≡ err length_limit_exceeded)
            × (contents (append stream some_bytes).0 ≡ contents stream)))
append-contents_example = append-contents stream some_bytes (init-IsValid room 64)

read_bytes_lem_example :
    Reader.Laws.IsValid (Reader.read_bytes 2 (Reader.make some_bytes)).0
    × (((2 ≤ length (Reader.rest (Reader.make some_bytes)))
          × ((Reader.read_bytes 2 (Reader.make some_bytes)).1
              ≡ ok (take 2 (Reader.rest (Reader.make some_bytes))))
          × (Reader.rest (Reader.read_bytes 2 (Reader.make some_bytes)).0
              ≡ drop 2 (Reader.rest (Reader.make some_bytes))))
        ⊎ ((length (Reader.rest (Reader.make some_bytes)) < 2)
            × ((Reader.read_bytes 2 (Reader.make some_bytes)).1 ≡ err truncated)
            × ((Reader.read_bytes 2 (Reader.make some_bytes)).0 ≡ Reader.make some_bytes)))
read_bytes_lem_example = read_bytes_lem 2 (Reader.Laws.make-IsValid some_bytes)
