-- ===== src/Wire/Write.antt =====
-- The writers of src/wire/message.cpp. Each writes the type byte and then the body.
use zet.Prelude.{
  ℕ, ◌%◌, ◌^◌, Bool, true, false, ◌&&◌, ◌||◌, not, if◌then◌else◌, ltb, leb, ◌==◌, length,
}
use zet.Core.Error.{malformed_field, length_limit_exceeded}
use zet.Core.Writer.{
  Write, done, reject_if, write_bytes, write_u8, write_u16_be, write_u32_be, write_u64_be, ◌>>◌,
}
use zet.Wire.Limits.{
  max_data_payload, protocol_version_grid, snapshot_max_bytes, grid_chunk_max_data,
  max_handoff_prefix,
}
use zet.Wire.Types.{
  write_message_type, auth, auth_ok, resume, bootstrap_accept, message_data, ack, resize, ping,
  pong, session_end, grid_begin, grid_chunk, grid_end, grid_applied, mux_register, mux_registered,
  mux_refused, mux_handoff,
}
use zet.Wire.Messages.{
  AuthMessage, AuthOkMessage, ResumeMessage, BootstrapAcceptMessage, DataMessage, AckMessage,
  ResizeMessage, PingMessage, PongMessage, ESessionEndKind, overflow, kind_code, SessionEndMessage,
  GridBeginMessage, GridChunkMessage, GridEndMessage, GridAppliedMessage, MuxRegisterMessage,
  MuxRegisteredMessage, refusal_code, MuxRefusedMessage, MuxHandoffMessage,
}
use zet.Wire.Parse.{has_reserved_flags}

unfoldable pub write_auth : AuthMessage → Write
write_auth m = do write_message_type auth; write_bytes m.client_tag

unfoldable pub write_auth_ok : AuthOkMessage → Write
write_auth_ok m = do
  write_message_type auth_ok
  write_bytes m.server_tag
  write_u64_be m.server_receive_offset

abbrev pub write_gen : ℕ → ℕ → Write
write_gen version gen = if leb protocol_version_grid version then write_u32_be gen else done

unfoldable pub write_resume : ResumeMessage → ℕ → Write
write_resume m version = do
  reject_if (ltb version protocol_version_grid && not (m.stream_gen == 0)) malformed_field
  write_message_type resume
  write_gen version m.stream_gen
  write_u64_be m.client_receive_offset

unfoldable pub write_bootstrap_accept : BootstrapAcceptMessage → Write
write_bootstrap_accept m = do
  reject_if (m.port == 0) malformed_field
  write_message_type bootstrap_accept
  write_u16_be m.version
  write_bytes m.agent_key
  write_bytes m.client_nonce
  write_bytes m.agent_nonce
  write_u16_be m.port
  write_u32_be m.orphan_timeout_seconds

unfoldable pub write_data : DataMessage → Write
write_data m = do
  reject_if (length m.payload == 0) malformed_field
  reject_if (ltb max_data_payload (length m.payload)) length_limit_exceeded
  write_message_type message_data
  write_u64_be m.acked
  write_u64_be m.offset
  write_bytes m.payload

unfoldable pub write_ack : AckMessage → Write
write_ack m = do write_message_type ack; write_u64_be m.acked

unfoldable pub write_resize : ResizeMessage → Write
write_resize m = do
  write_message_type resize
  write_u16_be m.rows
  write_u16_be m.cols
  write_u16_be m.xpixel
  write_u16_be m.ypixel

unfoldable pub write_ping : PingMessage → Write
write_ping m = do write_message_type ping; write_u64_be m.token

unfoldable pub write_pong : PongMessage → Write
write_pong m = do write_message_type pong; write_u64_be m.token

abbrev pub is_overflow : ESessionEndKind → Bool
is_overflow overflow = true
is_overflow _ = false

-- A kind is one of the enumeration's, so `IsSessionEndKind` holds.
unfoldable pub write_session_end : SessionEndMessage → ℕ → Write
write_session_end m version = do
  reject_if (is_overflow m.kind && ltb version protocol_version_grid) malformed_field
  reject_if (is_overflow m.kind && not (m.value == 0)) malformed_field
  write_message_type session_end
  write_u8 (kind_code m.kind)
  write_u8 m.value

unfoldable pub write_grid_begin : GridBeginMessage → Write
write_grid_begin m = do
  reject_if (has_reserved_flags m.flags) malformed_field
  reject_if (m.total_len == 0 || ltb snapshot_max_bytes m.total_len) length_limit_exceeded
  reject_if (ltb m.total_len m.scrollback_len) length_limit_exceeded
  write_message_type grid_begin
  write_u8 m.flags
  write_u32_be m.stream_gen
  write_u32_be m.scrollback_len
  write_u32_be m.total_len

unfoldable pub write_grid_chunk : GridChunkMessage → Write
write_grid_chunk m = do
  reject_if (length m.chunk == 0) malformed_field
  reject_if (ltb grid_chunk_max_data (length m.chunk)) length_limit_exceeded
  write_message_type grid_chunk
  write_u32_be m.chunk_offset
  write_bytes m.chunk

unfoldable pub write_grid_end : GridEndMessage → Write
write_grid_end m = write_message_type grid_end

unfoldable pub write_grid_applied : GridAppliedMessage → Write
write_grid_applied m = do write_message_type grid_applied; write_u32_be m.stream_gen

unfoldable pub write_mux_register : MuxRegisterMessage → Write
write_mux_register m = do write_message_type mux_register; write_bytes m.registration

unfoldable pub write_mux_registered : MuxRegisteredMessage → Write
write_mux_registered m = do
  reject_if (m.port == 0) malformed_field
  write_message_type mux_registered
  write_u16_be m.port

-- A reason is one of the enumeration's, so `IsMuxRefusal` holds.
unfoldable pub write_mux_refused : MuxRefusedMessage → Write
write_mux_refused m = do write_message_type mux_refused; write_u8 (refusal_code m.reason)

unfoldable pub write_mux_handoff : MuxHandoffMessage → Write
write_mux_handoff m = do
  reject_if (length m.prefix == 0 || ltb max_handoff_prefix (length m.prefix)) malformed_field
  write_message_type mux_handoff
  write_u16_be (length m.prefix % 2 ^ 16)
  write_bytes m.prefix
