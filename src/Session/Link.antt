-- ===== src/Session/Link.antt =====
-- One direction of a session: the send buffer of one end, the receive cursor of the other, and the
-- connections between them that come and go. The Data and Ack cases of `Channel::Receive` and
-- `Channel::PollOnce` (src/session/channel.cpp), and what the two ends do when they resume
-- (`StreamState::Attach`). A connection hands over what was sealed into it, in order, until it is
-- lost with all that is still under way; the cryptography that makes it so is not modelled.
pub mod Inv
pub mod Keeps
pub mod Safety
pub mod Progress
use zet.Prelude.{
  ℕ, ◌-◌, min, Bool, true, false, ◌&&◌, List, [], ◌∷◌, ◌++◌, Option, none, some, ok, err,
  if◌then◌else◌, ltb, length, take, Expected,
}
use zet.Session.Error.{ESessionError, SessionResult}
use zet.Session.SendBuffer
use zet.Session.SendBuffer.{SendBuffer}
use zet.Session.ReceiveCursor
use zet.Session.ReceiveCursor.{ReceiveCursor, EInputAck}

-- A Data message: where its payload stands in the stream.
pub record Frame : Type 0 where
  pub offset : ℕ
  pub payload : List ℕ

pub record Link : Type 0 where
  pub sender : SendBuffer
  pub receiver : ReceiveCursor
  -- Data and Ack messages under way, first sent first.
  pub frames : List Frame
  pub acks : List ℕ
  -- All that the writer has had taken, and all that the reader has been given to keep.
  pub written : List ℕ
  pub delivered : List ℕ
  -- Whether a connection carries the session.
  pub up : Bool
  -- A protocol error that an end has closed a connection or a session for.
  pub broken : Option ESessionError

pub init : List ℕ → EInputAck → Link
init storage ack = record {
  sender = SendBuffer.init storage 0;
  receiver = ReceiveCursor.init 0 ack;
  frames = [];
  acks = [];
  written = [];
  delivered = [];
  up = false;
  broken = none;
}

pub write : Link → List ℕ → Link
write l bytes =
    let (sender, n) = SendBuffer.append l.sender bytes in
    record l { sender = sender; written = l.written ++ take n bytes }

-- A Data frame of at most `payload_cap` bytes from the send cursor on, while a connection is
-- there and any are unsent.
pub seal : Link → ℕ → Link
seal l payload_cap =
    let payload_size = min payload_cap (SendBuffer.unsent l.sender) in
    let payload = SendBuffer.copy_out l.sender l.sender.send_next payload_size in
    if l.up && ltb 0 payload_size
    then record l {
      sender = SendBuffer.advance_send_next l.sender (length payload);
      frames = l.frames ++ (record { offset = l.sender.send_next; payload = payload } ∷ []);
    }
    else l

-- A connection is gone, with all that is under way in it.
pub lose : Link → Link
lose l = record l { frames = []; acks = []; up = false }

abbrev fail : Link → ESessionError → Link
fail l e = record l { frames = []; acks = []; up = false; broken = some e }

abbrev delivered_by : Link → List Frame → ReceiveCursor × SessionResult (List ℕ) → Link
delivered_by l rest (receiver, ok new) = record l {
  receiver = receiver;
  frames = rest;
  delivered = l.delivered ++ new;
}
delivered_by l rest (receiver, err e) = fail l e

abbrev deliver_first : Link → List Frame → Link
deliver_first l [] = l
deliver_first l (f ∷ rest) =
    delivered_by l rest (ReceiveCursor.receive l.receiver f.offset f.payload)

-- The first Data frame under way arrives.
pub deliver : Link → Link
deliver l = deliver_first l l.frames

-- The reader is done with `n` of the bytes that it was given.
pub mark : Link → ℕ → Link
mark l n = record l { receiver = (ReceiveCursor.mark_delivered l.receiver n).0 }

-- The reader cannot take the last `n` bytes that it was given, and closes the connection.
pub refuse : Link → ℕ → Link
refuse l n =
    let (receiver, done) = ReceiveCursor.unreceive l.receiver n in
    if done
    then lose
        (record l { receiver = receiver; delivered = take (length l.delivered - n) l.delivered })
    else l

-- The receiver's acknowledgement, piggybacked or bare.
pub send_ack : Link → Link
send_ack l =
    if l.up then record l { acks = l.acks ++ (ReceiveCursor.ack_offset l.receiver ∷ []) } else l

abbrev acked_by : Link → List ℕ → SendBuffer × SessionResult (Unit {0}) → Link
acked_by l rest (sender, ok tt) = record l { sender = sender; acks = rest }
acked_by l rest (sender, err e) = fail l e

abbrev ack_first : Link → List ℕ → Link
ack_first l [] = l
ack_first l (a ∷ rest) = acked_by l rest (SendBuffer.acknowledge l.sender a)

pub take_ack : Link → Link
take_ack l = ack_first l l.acks

-- A new connection: it takes over from the one before, and the sender resumes from what the
-- receiver says in the handshake that it holds.
pub resume : Link → Link
unfolding lose
resume l =
    acked_by (record (lose l) { up = true }) []
      (SendBuffer.reset_send_next l.sender (ReceiveCursor.ack_offset l.receiver))

-- What can happen next. The order is the scheduler's, the network's and the two users' to choose.
pub data Move : Type 0 where
  writes : List ℕ → Move
  seals : ℕ → Move
  delivers : Move
  marks : ℕ → Move
  refuses : ℕ → Move
  sends_ack : Move
  takes_ack : Move
  loses : Move
  resumes : Move

pub move : Link → Move → Link
move l (writes bytes) = write l bytes
move l (seals payload_cap) = seal l payload_cap
move l delivers = deliver l
move l (marks n) = mark l n
move l (refuses n) = refuse l n
move l sends_ack = send_ack l
move l takes_ack = take_ack l
move l loses = lose l
move l resumes = resume l

pub run : Link → List Move → Link
run l [] = l
run l (m ∷ ms) = run (move l m) ms
