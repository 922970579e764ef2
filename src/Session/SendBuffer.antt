-- ===== src/Session/SendBuffer.antt =====
-- src/session/send_buffer.cpp: the ring of unacknowledged bytes, addressed by absolute offset.
-- A method that changes the buffer returns the new buffer beside its result.
pub mod Valid
pub mod Window
pub mod Ring
pub mod Outbox
pub mod Calls
pub mod Refine
use zet.Prelude.{
  ℕ, ◌+◌, ◌-◌, ◌%◌, ◌≤◌, ◌<◌, min, Bool, true, false, ◌||◌, List, [], ◌++◌, Expected, ok, err,
  if◌then◌else◌, ltb, leb, ◌==◌, length, take, drop, overwrite, add64, sub64, u32_mod,
}
use zet.Session.Error.{SessionResult, ack_beyond_sent, peer_behind_buffer}

-- `storage` is the borrowed span itself: a byte is only moved, so it is any number.
pub record SendBuffer : Type 0 where
  pub storage : List ℕ
  pub base : ℕ
  pub finish : ℕ
  pub send_next : ℕ
  pub ring_overflowed : Bool
  pub session_gen : ℕ

unfoldable pub init : List ℕ → ℕ → SendBuffer
init storage initial_base = record {
  storage = storage;
  base = initial_base;
  finish = initial_base;
  send_next = initial_base;
  ring_overflowed = false;
  session_gen = 0;
}

abbrev pub capacity : SendBuffer → ℕ
capacity b = length b.storage

unfoldable pub size : SendBuffer → ℕ
size b = sub64 b.finish b.base

unfoldable pub room : SendBuffer → ℕ
room b = sub64 (capacity b) (size b)

unfoldable pub unsent : SendBuffer → ℕ
unsent b = sub64 b.finish b.send_next

-- The one or two copies of `Append`, the second to the front of the storage where the write wraps.
pub copy_in : List ℕ → ℕ → List ℕ → ℕ → List ℕ
copy_in storage write_pos bytes count =
    let first_piece = min count (length storage - write_pos) in
    let first = overwrite storage write_pos (take first_piece bytes) in
    if ltb first_piece count
    then overwrite first 0 (take (count - first_piece) (drop first_piece bytes))
    else first

unfoldable pub append : SendBuffer → List ℕ → SendBuffer × ℕ
append b bytes =
    let count = min (length bytes) (room b) in
    if capacity b == 0 then (b, 0) else if count == 0 then (b, 0) else (
      record b {
        storage = copy_in b.storage (b.finish % capacity b) bytes count;
        finish = add64 b.finish count;
      },
      count,
    )

unfoldable pub acknowledge : SendBuffer → ℕ → SendBuffer × SessionResult (Unit {0})
acknowledge b ack_offset =
    if leb ack_offset b.base
    then (b, ok tt)
    else if ltb b.finish ack_offset
    then (b, err ack_beyond_sent)
    else (
      record b {
        base = ack_offset;
        send_next = if ltb b.send_next ack_offset then ack_offset else b.send_next;
      },
      ok tt,
    )

-- The one or two copies of `CopyOut`.
pub copy_from : List ℕ → ℕ → ℕ → List ℕ
copy_from storage read_pos count =
    let first_piece = min count (length storage - read_pos) in
    if ltb first_piece count
    then take first_piece (drop read_pos storage) ++ take (count - first_piece) storage
    else take first_piece (drop read_pos storage)

-- `dest` is the size of the span to fill; the result is the prefix of it that was written.
unfoldable pub copy_out : SendBuffer → ℕ → ℕ → List ℕ
copy_out b from_offset dest =
    let count = min dest (sub64 b.finish from_offset) in
    if capacity b == 0 || ltb from_offset b.base || leb b.finish from_offset
    then []
    else if count == 0
    then []
    else copy_from b.storage (from_offset % capacity b) count

unfoldable pub reset_send_next : SendBuffer → ℕ → SendBuffer × SessionResult (Unit {0})
unfolding acknowledge
reset_send_next b peer_recv_offset =
    if ltb b.finish peer_recv_offset
    then (b, err ack_beyond_sent)
    else if ltb peer_recv_offset b.base
    then (b, err peer_behind_buffer)
    else (record (acknowledge b peer_recv_offset).0 { send_next = peer_recv_offset }, ok tt)

unfoldable pub advance_send_next : SendBuffer → ℕ → SendBuffer
advance_send_next b count =
    let next = add64 b.send_next count in
    record b { send_next = if ltb b.finish next then b.finish else next }

unfoldable pub set_ring_overflowed : SendBuffer → SendBuffer
set_ring_overflowed b = record b { ring_overflowed = true }

unfoldable pub new_generation : SendBuffer → SendBuffer
new_generation b = record b {
  base = 0;
  finish = 0;
  send_next = 0;
  ring_overflowed = false;
  session_gen = (b.session_gen + 1) % u32_mod;
}
