-- ===== src/Session/StreamState.antt =====
-- src/session/stream_state.cpp: the streams and the life cycle of a session, which outlive its
-- connections. A method that changes the state returns the new state beside its result.
pub mod Life
pub mod Write
pub mod Stall
use zet.Prelude.{
  ℕ, ◌+◌, ◌-◌, min, Bool, true, false, ◌&&◌, List, Option, none, some, ok, err, if◌then◌else◌, ltb,
  leb, ◌==◌, length, take, add64,
}
use zet.Core.Time.{Timestamp, Deadline, has_expired}
use zet.Session.Error.{
  ESessionError, SessionResult, session_reaped, disconnect_buffer_overflow, orphan_timeout,
}
use zet.Session.Limits.{SessionLimits}
use zet.Session.SendBuffer
use zet.Session.SendBuffer.{SendBuffer}
use zet.Session.ReceiveCursor
use zet.Session.ReceiveCursor.{ReceiveCursor, EInputAck}

pub data ESessionState : Type 0 where
  detached live reaped : ESessionState

pub data EDetachedOverflow : Type 0 where
  reap backpressure resync : EDetachedOverflow

pub record SessionStreams : Type 0 where
  pub storage : List ℕ
  pub now : Timestamp
  pub limits : SessionLimits

pub record StreamState : Type 0 where
  pub output : SendBuffer
  pub input : ReceiveCursor
  pub limits : SessionLimits
  pub overflow : EDetachedOverflow
  pub state : ESessionState
  pub reap_reason : Option ESessionError
  pub detached_since : Timestamp
  pub generation : ℕ

unfoldable pub init : SessionStreams → EDetachedOverflow → EInputAck → StreamState
init streams overflow input_ack = record {
  output = SendBuffer.init streams.storage 0;
  input = ReceiveCursor.init 0 input_ack;
  limits = streams.limits;
  overflow = overflow;
  state = detached;
  reap_reason = none;
  detached_since = streams.now;
  generation = 0;
}

-- Comparisons of the enumerations.
abbrev pub is_live : ESessionState → Bool
is_live live = true
is_live _ = false

abbrev pub is_detached : ESessionState → Bool
is_detached detached = true
is_detached _ = false

abbrev pub is_reaped : ESessionState → Bool
is_reaped reaped = true
is_reaped _ = false

abbrev pub is_reap : EDetachedOverflow → Bool
is_reap reap = true
is_reap _ = false

abbrev pub is_resync : EDetachedOverflow → Bool
is_resync resync = true
is_resync _ = false

-- `Reap`, which `Kill` forwards to.
unfoldable pub reap_with : StreamState → ESessionError → StreamState
reap_with s reason =
    if is_reaped s.state then s else record s { state = reaped; reap_reason = some reason }

unfoldable pub kill : StreamState → ESessionError → StreamState
unfolding reap_with
kill s reason = reap_with s reason

-- `room` of `Write`: what the policy and the ring leave.
unfoldable pub write_room : StreamState → ℕ
write_room s =
    let ceiling = if is_live s.state then s.limits.resend_max else s.limits.disconnect_max in
    let held = SendBuffer.size s.output in
    min (if ltb held ceiling then ceiling - held else 0) (SendBuffer.room s.output)

-- `Output_.Append`, with the count that it returns.
unfoldable pub append : StreamState → List ℕ → StreamState × SessionResult ℕ
append s bytes =
    let (output, count) = SendBuffer.append s.output bytes in
    (record s { output = output }, ok count)

-- The overflow of a detached session under Resync: what fits is kept, all of it is consumed.
unfoldable pub overflow_resync : StreamState → List ℕ → ℕ → StreamState × SessionResult ℕ
overflow_resync s bytes room =
    if room == 0
    then (record s { output = SendBuffer.set_ring_overflowed s.output }, ok (length bytes))
    else (
      record s {
        output = SendBuffer.set_ring_overflowed (SendBuffer.append s.output (take room bytes)).0;
      },
      ok (length bytes),
    )

unfoldable pub write : StreamState → List ℕ → StreamState × SessionResult ℕ
unfolding write_room append overflow_resync reap_with
write s bytes =
    let room = write_room s in
    let overflows = ltb room (length bytes) && is_detached s.state in
    if is_reaped s.state
    then (s, err session_reaped)
    else if is_detached s.state && (is_resync s.overflow && s.output.ring_overflowed)
    then (s, ok (length bytes))
    else if overflows && is_reap s.overflow
    then (reap_with s disconnect_buffer_overflow, err disconnect_buffer_overflow)
    else if overflows && is_resync s.overflow
    then overflow_resync s bytes room
    else append s (take (min (length bytes) room) bytes)

unfoldable pub below_ceiling : StreamState → ℕ → Bool
below_ceiling s ceiling = ltb (SendBuffer.size s.output) ceiling && ltb 0 (SendBuffer.room s.output)

unfoldable pub accepts_writes : StreamState → Bool
unfolding below_ceiling
accepts_writes s = elim s.state [
  | live ↦ below_ceiling s s.limits.resend_max
  | detached ↦
      if is_reap s.overflow
      then true
      else if s.output.ring_overflowed
      then true
      else below_ceiling s s.limits.disconnect_max
  | reaped ↦ false
]

unfoldable pub next_deadline : StreamState → Deadline
next_deadline s =
    if is_detached s.state
    then (if s.limits.orphan_timeout == 0
        then none
        else some (s.detached_since + s.limits.orphan_timeout))
    else none

unfoldable pub on_timer : StreamState → Timestamp → StreamState
unfolding next_deadline has_expired reap_with
on_timer s now = if has_expired (next_deadline s) now then reap_with s orphan_timeout else s

-- PROTOCOL_VERSION_GRID of src/wire/include/zet/wire/limits.hpp.
abbrev pub protocol_version_grid : ℕ
protocol_version_grid = 2

unfoldable pub set_overflow_mode : StreamState → ℕ → Bool → StreamState
set_overflow_mode s negotiated_ver grid_capable = record s {
  overflow = if leb protocol_version_grid negotiated_ver && grid_capable then resync else reap;
}

unfoldable pub new_generation : StreamState → StreamState
new_generation s = record s { output = SendBuffer.new_generation s.output }

-- The attachment itself, which both ways to attach end in.
unfoldable pub attached : StreamState → StreamState × SessionResult ℕ
attached s =
    let generation = add64 s.generation 1 in
    (record s { state = live; generation = generation }, ok generation)

unfoldable pub attach_path_b : StreamState → StreamState × SessionResult ℕ
unfolding attached
attach_path_b s = if is_reaped s.state then (s, err session_reaped) else attached s

abbrev attach_after :
    StreamState → SendBuffer × SessionResult (Unit {0}) → StreamState × SessionResult ℕ
attach_after s (output, ok tt) = attached (record s { output = output })
attach_after s (output, err e) = (record s { output = output }, err e)

unfoldable pub attach : StreamState → ℕ → StreamState × SessionResult ℕ
unfolding attached
attach s peer_receive_offset =
    if is_reaped s.state
    then (s, err session_reaped)
    else attach_after s (SendBuffer.reset_send_next s.output peer_receive_offset)

unfoldable pub is_current : StreamState → ℕ → Bool
is_current s generation = is_live s.state && generation == s.generation

unfoldable pub detach : StreamState → ℕ → Timestamp → StreamState
unfolding is_current
detach s generation now =
    if is_current s generation then record s { state = detached; detached_since = now } else s

-- `ReceiveOffset` and `AckedOffset`.
unfoldable pub receive_offset : StreamState → ℕ
receive_offset s = ReceiveCursor.ack_offset s.input

unfoldable pub acked_offset : StreamState → ℕ
acked_offset s = s.output.base
