-- ===== src/Lib.antt =====
-- zet keeps a remote shell alive over connections that break. An agent holds the shell, a client
-- holds the terminal, and a session between them carries two streams of bytes that outlive every
-- connection. This library models the session with its channel and its keys, the wire format below
-- it, the router of the multiplexer and the parser of terminal output.
--
-- The parts, and the files that model them:
--
-- Core models src/core. Core/Reader is ByteReader and Core/Writer is ByteWriter; a read and a write
-- take the state and return the new state beside a result, and chains of them stop at the first
-- error. Core/Error has the protocol errors, Core/Time the deadlines.
--
-- Wire models src/wire. Wire/Types, Wire/Messages, Wire/Parse and Wire/Write are message.hpp and
-- message.cpp, a function for each ParseX and WriteX; of Hello, Challenge and BootstrapOffer, which
-- carry options or an environment, there is only the PeekHello that a multiplexer calls. Wire/Frame
-- is frame.cpp and Wire/FrameStream is frame_stream.cpp. Wire/SealedFrame is sealed_frame.cpp:
-- FrameSealer and FrameOpener are records, and a method returns the new state beside its result.
-- Crypto is src/crypto/crypto.cpp, the wrappers around libsodium, which is a parameter `Sodium`;
-- what its documentation says of the encryption is `IsSodium`.
--
-- Session models src/session. Session/SendBuffer is send_buffer.cpp: `finish` is End_, the other
-- fields keep their names, and `storage` is the borrowed span with its bytes.
-- Session/SendBuffer/Outbox is the specification of it. Session/ReceiveCursor is receive_cursor.cpp
-- and its header. Session/StreamState is stream_state.cpp, which owns a send buffer and a receive
-- cursor. Session/Link puts the send buffer of one end and the receive cursor of the other
-- together, with the Data and Ack messages under way between them: its moves are what the Data and
-- Ack cases of channel.cpp do, what `StreamState::Attach` does, and what a network may do to a
-- connection. A connection that is closed or lost loses all that is under way in it.
--
-- Session/Channel is channel.cpp: its record has the fields of Channel, with the send buffer and
-- the receive cursor that Channel only refers to; Session/Channel/Receive is `Channel::Receive`, a
-- function for each case of its switch, and Session/Channel/Poll is `Channel::Poll`, a function for
-- each priority of PollOnce. A buffer that is only written to is given by its size, and the bytes
-- written to it are the result. Session/Channel/Transfer carries what one channel polls to another,
-- frame by frame.
--
-- Session/MuxRouter is mux_router.cpp, with its arrays as lists and a pointer into one as the first
-- element that a test finds; Wire/Hello is the `PeekHello` of message.cpp that it calls.
--
-- Wire/KeySchedule is key_schedule.cpp; `make_direction_frames` in Session/Channel hands its keys
-- to the two ends.
--
-- Grid/Parser is src/grid/vt_parser.cpp: a byte changes the parser and makes calls on the grid,
-- which are the output, in order. Grid/Parser/Feed is `FeedByte`, a function for each state, and
-- Grid/Parser/Csi is `ParseParams` and `DispatchCsi`. The width of a character, from generated
-- tables, and the number of rows of the grid are parameters; so the parser is modelled without the
-- grid that it draws on.
--
-- Core/ShellQuote is src/core/shell_quote.cpp and Client/Escape is src/client/escape.cpp;
-- Client/Escape/Lines has what a user types for a text, apart from the scanner.
--
-- App/ByteQueue is src/app/byte_queue.cpp, where bytes wait for a socket or a terminal. Prelude has
-- the shared names, the list lemmas, the result type and the machine words.
--
-- Numbers are unbounded, and a sum or a difference of the source that could wrap is written with
-- its wrap (add64, sub64, `% 2 ^ w`), and without it where a bound of the code rules that out. A
-- theorem whose reading needs offsets below 2^64 has that as a hypothesis. Bytes that are only
-- moved are any numbers. Loops are recursions on a list or on a width. The one fuel is that of
-- `transfer` in Session/Channel/Transfer, the number of polls, and each poll of a snapshot that is
-- not the first or the last moves one of its bytes at least.
--
-- Not modelled: libsodium, which is a parameter; the handshake; the grid of src/grid and its
-- snapshots; the I/O layer and the event loops of the programs. In Session/Link a sealed message
-- arrives as it was sent or not at all, in order, as authenticated frames over TCP do; an
-- acknowledgement that a Data message carries is a message of its own there, and the windows of the
-- grid, in which an end holds Data back or passes acknowledgements over, are left out.
--
-- Tests has runs at concrete inputs.
pub mod Prelude
pub mod Core
pub mod Crypto
pub mod Wire
pub mod Session
pub mod Grid
pub mod Client
pub mod App
pub mod Tests
