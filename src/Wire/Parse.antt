-- ===== src/Wire/Parse.antt =====
-- The parsers of src/wire/message.cpp, each called behind the type byte.
use zet.Prelude.{
  ℕ, ◌/◌, Bool, ◌||◌, not, List, Option, none, some, ok, if◌then◌else◌, ltb, leb, ◌==◌, length,
}
use zet.Core.Error.{malformed_field, length_limit_exceeded}
use zet.Core.Reader.{
  Read, pure, fail, reject_if, rest, skip, read_bytes, read_u8, read_u16_be, read_u32_be,
  read_u64_be, ◌>>=◌, ◌>>◌,
}
use zet.Wire.Limits.{
  mac_size, key_size, bootstrap_nonce_size, max_data_payload, protocol_version_grid,
  snapshot_max_bytes, grid_chunk_max_data, max_handoff_prefix,
}
use zet.Wire.Types.{read_array, require_exhausted}
use zet.Wire.Messages.{
  AuthMessage, AuthOkMessage, ResumeMessage, BootstrapAcceptMessage, DataMessage, AckMessage,
  ResizeMessage, PingMessage, PongMessage, ESessionEndKind, overflow, kind_of, SessionEndMessage,
  GridBeginMessage, GridChunkMessage, GridEndMessage, GridAppliedMessage, MuxRegisterMessage,
  MuxRegisteredMessage, EMuxRefusal, refusal_of, MuxRefusedMessage, MuxHandoffMessage,
}

-- The result at the end of a message that nothing may follow.
abbrev pub ending : {A : Type 0} → A → Read A
ending a = do require_exhausted; pure a

unfoldable pub parse_auth : Read AuthMessage
parse_auth = do tag ← read_array mac_size; ending (record { client_tag = tag })

unfoldable pub parse_auth_ok : Read AuthOkMessage
parse_auth_ok = do
  tag ← read_array mac_size
  offset ← read_u64_be
  ending (record { server_tag = tag; server_receive_offset = offset })

abbrev pub read_gen : ℕ → Read ℕ
read_gen version = if leb protocol_version_grid version then read_u32_be else pure 0

unfoldable pub parse_resume : ℕ → Read ResumeMessage
parse_resume version = do
  gen ← read_gen version
  offset ← read_u64_be
  ending (record { stream_gen = gen; client_receive_offset = offset })

unfoldable pub parse_bootstrap_accept : Read BootstrapAcceptMessage
parse_bootstrap_accept = do
  version ← read_u16_be
  key ← read_array key_size
  echoed ← read_array bootstrap_nonce_size
  nonce ← read_array bootstrap_nonce_size
  port ← read_u16_be
  reject_if (port == 0) malformed_field
  orphan_timeout ← read_u32_be
  ending (record {
    version = version;
    agent_key = key;
    client_nonce = echoed;
    agent_nonce = nonce;
    port = port;
    orphan_timeout_seconds = orphan_timeout;
  })

-- `reader.Rest()`, which consumes nothing.
abbrev pub peek_rest : Read (List ℕ)
peek_rest r = (r, ok (rest r))

-- What is left, if it is some bytes and at most `most` of them.
unfoldable pub read_rest : ℕ → Read (List ℕ)
read_rest most = do
  payload ← peek_rest
  reject_if (length payload == 0) malformed_field
  reject_if (ltb most (length payload)) length_limit_exceeded
  skip (length payload)
  pure payload

unfoldable pub parse_data : Read DataMessage
unfolding read_rest
parse_data = do
  acked ← read_u64_be
  offset ← read_u64_be
  payload ← read_rest max_data_payload
  pure (record { acked = acked; offset = offset; payload = payload })

unfoldable pub parse_ack : Read AckMessage
parse_ack = do acked ← read_u64_be; ending (record { acked = acked })

unfoldable pub parse_resize : Read ResizeMessage
parse_resize = do
  rows ← read_u16_be
  cols ← read_u16_be
  xpixel ← read_u16_be
  ypixel ← read_u16_be
  ending (record { rows = rows; cols = cols; xpixel = xpixel; ypixel = ypixel })

unfoldable pub parse_ping : Read PingMessage
parse_ping = do token ← read_u64_be; ending (record { token = token })

unfoldable pub parse_pong : Read PongMessage
parse_pong = do token ← read_u64_be; ending (record { token = token })

-- The checks of a kind that was read, and the end of the message.
unfoldable pub ending_kind : ℕ → ℕ → Option ESessionEndKind → Read SessionEndMessage
ending_kind version value none = fail malformed_field
ending_kind version value (some overflow) = do
  reject_if (ltb version protocol_version_grid) malformed_field
  reject_if (not (value == 0)) malformed_field
  ending (record { kind = overflow; value = value })
ending_kind version value (some k) = ending (record { kind = k; value = value })

unfoldable pub parse_session_end : ℕ → Read SessionEndMessage
unfolding ending_kind
parse_session_end version = do
  kind ← read_u8
  value ← read_u8
  ending_kind version value (kind_of kind)

-- `(flags & ~0x01) != 0`: a bit above the lowest is set.
abbrev pub has_reserved_flags : ℕ → Bool
has_reserved_flags flags = not (flags / 2 == 0)

unfoldable pub parse_grid_begin : Read GridBeginMessage
parse_grid_begin = do
  flags ← read_u8
  reject_if (has_reserved_flags flags) malformed_field
  gen ← read_u32_be
  scrollback ← read_u32_be
  total ← read_u32_be
  reject_if (total == 0 || ltb snapshot_max_bytes total) length_limit_exceeded
  reject_if (ltb total scrollback) length_limit_exceeded
  ending
      (record { flags = flags; stream_gen = gen; scrollback_len = scrollback; total_len = total })

unfoldable pub parse_grid_chunk : Read GridChunkMessage
unfolding read_rest
parse_grid_chunk = do
  offset ← read_u32_be
  chunk ← read_rest grid_chunk_max_data
  pure (record { chunk_offset = offset; chunk = chunk })

unfoldable pub parse_grid_end : Read GridEndMessage
parse_grid_end = ending (record {})

unfoldable pub parse_grid_applied : Read GridAppliedMessage
parse_grid_applied = do gen ← read_u32_be; ending (record { stream_gen = gen })

unfoldable pub parse_mux_register : Read MuxRegisterMessage
parse_mux_register = do key ← read_array key_size; ending (record { registration = key })

unfoldable pub parse_mux_registered : Read MuxRegisteredMessage
parse_mux_registered = do
  port ← read_u16_be
  reject_if (port == 0) malformed_field
  ending (record { port = port })

unfoldable pub ending_refusal : Option EMuxRefusal → Read MuxRefusedMessage
ending_refusal none = fail malformed_field
ending_refusal (some reason) = ending (record { reason = reason })

unfoldable pub parse_mux_refused : Read MuxRefusedMessage
unfolding ending_refusal
parse_mux_refused = do reason ← read_u8; ending_refusal (refusal_of reason)

unfoldable pub parse_mux_handoff : Read MuxHandoffMessage
parse_mux_handoff = do
  size ← read_u16_be
  reject_if (size == 0 || ltb max_handoff_prefix size) malformed_field
  prefix ← read_bytes size
  ending (record { prefix = prefix })
