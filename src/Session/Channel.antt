-- ===== src/Session/Channel.antt =====
-- src/session/channel.cpp: one connection of a session once it is authenticated. The send buffer
-- and the receive cursor are the session's, which outlives the channel; they are fields here.
-- Buffers that are only written to are their sizes, and what is written there is the result.
pub mod Receive
pub mod Poll
pub mod Exchange
pub mod Transfer
pub mod Keys
use zet.Prelude.{
  ℕ, ◌+◌, ◌≤◌, ◌<◌, Bool, true, false, ◌&&◌, ◌||◌, not, List, [], Option, none, some, if◌then◌else◌,
  ltb, leb, ◌==◌, length, u32_mod, ◌%◌,
}
use zet.Core.Time.{Timestamp, Deadline, earliest}
use zet.Session.Limits.{LivenessLimits}
use zet.Session.SendBuffer.{SendBuffer}
use zet.Session.ReceiveCursor
use zet.Session.ReceiveCursor.{ReceiveCursor}
use zet.Wire.Limits.{snapshot_max_bytes}
use zet.Wire.Messages.{PongMessage, ResizeMessage, SessionEndMessage}
use zet.Wire.KeySchedule.{ConnectionKeys}
use zet.Wire.SealedFrame.{sealer_of, opener_of, FrameSealer, FrameOpener}

pub data ERole : Type 0 where
  client agent : ERole

abbrev pub is_client : ERole → Bool
is_client client = true
is_client agent = false

abbrev pub is_agent : ERole → Bool
is_agent client = false
is_agent agent = true

-- A snapshot on its way out of the agent.
pub record GridEmission : Type 0 where
  pub snapshot : List ℕ
  pub stream_gen : ℕ
  pub total_len : ℕ
  pub scrollback_len : ℕ
  pub flags : ℕ
  pub bytes_sent : ℕ
  pub begin_sent : Bool

-- A snapshot on its way into the client, whose bytes are in the channel's buffer.
pub record GridReception : Type 0 where
  pub stream_gen : ℕ
  pub total_len : ℕ
  pub scrollback_len : ℕ
  pub flags : ℕ
  pub bytes_received : ℕ

pub record DirectionFrames : Type 0 where
  pub sealer : FrameSealer
  pub opener : FrameOpener
  pub role : ERole

unfoldable pub make_direction_frames : ConnectionKeys → ERole → ℕ → ℕ → DirectionFrames
unfolding sealer_of opener_of
make_direction_frames keys role frame_limit byte_limit = record {
  sealer =
      sealer_of (if is_client role then keys.client_to_server else keys.server_to_client)
        (if is_client role then keys.salt_client_to_server else keys.salt_server_to_client)
        frame_limit byte_limit;
  opener =
      opener_of (if is_client role then keys.server_to_client else keys.client_to_server)
        (if is_client role then keys.salt_server_to_client else keys.salt_client_to_server)
        frame_limit;
  role = role;
}

pub record Channel : Type 0 where
  pub send_buf : SendBuffer
  pub recv_cursor : ReceiveCursor
  pub epoch_start : Timestamp
  pub last_acked_offset : ℕ
  pub unknown_type_count : ℕ
  pub last_heard : Timestamp
  pub last_sent : Timestamp
  pub read_gate_closed : Bool
  pub send_gate_closed : Bool
  pub next_ping_token : ℕ
  pub liveness : LivenessLimits
  pub ack_pending_since : Option Timestamp
  pub pending_pong : Option PongMessage
  pub snapshot_buf : List ℕ
  pub grid_emitting : Option GridEmission
  pub grid_receiving : Option GridReception
  pub sealer : FrameSealer
  pub opener : FrameOpener
  pub agent_stream_gen : ℕ
  pub pending_grid_applied : Option ℕ
  pub version : ℕ
  pub pending_resize : Option ResizeMessage
  pub role : ERole
  pub end_sent : Bool
  pub grid_awaiting_applied : Bool
  pub grid_expected_applied_gen : ℕ
  pub awaiting_snapshot_supply : Bool
  pub pending_end : Option SessionEndMessage

unfoldable pub init :
    DirectionFrames
    → SendBuffer
    → ReceiveCursor
    → Timestamp
    → LivenessLimits
    → ℕ
    → List ℕ
    → ℕ
    → Channel
unfolding ReceiveCursor.ack_offset
init frames send_buf recv_cursor now liveness version snapshot_buf agent_stream_gen = record {
  send_buf = send_buf;
  recv_cursor = recv_cursor;
  epoch_start = now;
  last_acked_offset = ReceiveCursor.ack_offset recv_cursor;
  unknown_type_count = 0;
  last_heard = now;
  last_sent = now;
  read_gate_closed = false;
  send_gate_closed = false;
  next_ping_token = 1;
  liveness = liveness;
  ack_pending_since = none;
  pending_pong = none;
  snapshot_buf = snapshot_buf;
  grid_emitting = none;
  grid_receiving = none;
  sealer = frames.sealer;
  opener = frames.opener;
  agent_stream_gen = agent_stream_gen;
  pending_grid_applied = none;
  version = version;
  pending_resize = none;
  role = frames.role;
  end_sent = false;
  grid_awaiting_applied = false;
  grid_expected_applied_gen = 0;
  awaiting_snapshot_supply = false;
  pending_end = none;
}

abbrev pub has_value : {A : Type 0} → Option A → Bool
has_value none = false
has_value (some a) = true

unfoldable pub grid_emission_done : Channel → Bool
grid_emission_done ch = ch.grid_awaiting_applied

unfoldable pub grid_in_flight : Channel → Bool
grid_in_flight ch = has_value ch.grid_emitting || ch.grid_awaiting_applied

unfoldable pub set_read_gate : Channel → Bool → Timestamp → Channel
set_read_gate ch is_open now = record ch {
  last_heard = if is_open && ch.read_gate_closed then now else ch.last_heard;
  read_gate_closed = not is_open;
}

unfoldable pub set_send_gate : Channel → Bool → Channel
set_send_gate ch is_open = record ch { send_gate_closed = not is_open }

unfoldable pub queue_resize : Channel → ResizeMessage → Channel
queue_resize ch resize = record ch { pending_resize = some resize }

unfoldable pub queue_session_end : Channel → SessionEndMessage → Channel
queue_session_end ch m = if has_value ch.pending_end then ch else record ch { pending_end = some m }

unfoldable pub start_grid : Channel → List ℕ → ℕ → ℕ → ℕ → Channel × Bool
unfolding grid_in_flight
start_grid ch snapshot flags stream_gen scrollback_len =
    if not (is_agent ch.role)
    then (ch, false)
    else if has_value ch.grid_emitting || ch.grid_awaiting_applied
    then (ch, false)
    else if length snapshot == 0 || ltb snapshot_max_bytes (length snapshot)
    then (ch, false)
    else (
      record ch {
        grid_awaiting_applied = true;
        grid_expected_applied_gen = stream_gen;
        awaiting_snapshot_supply = false;
        grid_emitting = some (record {
          snapshot = snapshot;
          stream_gen = stream_gen;
          total_len = length snapshot % u32_mod;
          scrollback_len = scrollback_len;
          flags = flags;
          bytes_sent = 0;
          begin_sent = false;
        });
      },
      true,
    )

unfoldable pub queue_grid_applied : Channel → ℕ → Channel
queue_grid_applied ch stream_gen =
    if is_client ch.role then record ch { pending_grid_applied = some stream_gen } else ch

unfoldable pub suppress_data_until_grid : Channel → Channel
suppress_data_until_grid ch =
    if is_agent ch.role then record ch { awaiting_snapshot_supply = true } else ch

-- The timers of src/session/include/zet/session/limits.hpp, in nanoseconds.
abbrev pub ack_idle_delay : ℕ
ack_idle_delay = 200_000_000

abbrev pub rekey_interval : ℕ
rekey_interval = 3_600_000_000_000

abbrev pub after : Option Timestamp → ℕ → Deadline
after none delay = none
after (some t) delay = some (t + delay)

unfoldable pub next_deadline : Channel → Deadline
unfolding earliest
next_deadline ch =
    let ack_deadline = after ch.ack_pending_since ack_idle_delay in
    let rekey_deadline : Deadline = some (ch.epoch_start + rekey_interval) in
    let keepalive_deadline : Deadline =
      if ltb 0 ch.liveness.keepalive_interval
      then some (ch.last_sent + ch.liveness.keepalive_interval)
      else none in
    let silence_deadline : Deadline =
      if not ch.read_gate_closed && ltb 0 ch.liveness.peer_silence_timeout
      then some (ch.last_heard + ch.liveness.peer_silence_timeout)
      else none in
    if ch.send_gate_closed
    then silence_deadline
    else earliest (earliest ack_deadline rekey_deadline)
        (earliest keepalive_deadline silence_deadline)
