-- ===== src/Session/Error.antt =====
-- src/session/include/zet/session/error.hpp and the dispositions of src/core error.hpp.
use zet.Prelude.{Expected}
use zet.Core.Error
use zet.Core.Error.{EDisposition, EProtoError, ignore, close_connection, kill_session}

pub data ESessionError : Type 0 where
  ack_beyond_sent stream_gap disconnect_buffer_overflow not_authenticated unknown_seed
        peer_behind_buffer orphan_timeout session_reaped handshake_timeout superseded peer_silent :
      ESessionError

abbrev pub SessionResult : Type 0 → Type 0
SessionResult A = Expected ESessionError A

pub disposition_of : ESessionError → EDisposition
disposition_of ack_beyond_sent = close_connection
disposition_of stream_gap = close_connection
disposition_of not_authenticated = close_connection
disposition_of unknown_seed = close_connection
disposition_of handshake_timeout = close_connection
disposition_of superseded = close_connection
disposition_of peer_silent = close_connection
disposition_of disconnect_buffer_overflow = kill_session
disposition_of peer_behind_buffer = kill_session
disposition_of orphan_timeout = kill_session
disposition_of session_reaped = kill_session

-- `SessionError` of src/session/include/zet/session/channel_error.hpp: which of the two it is, or a
-- protocol error from before the peer was authenticated.
pub data SessionError : Type 0 where
  proto : EProtoError → SessionError
  session : ESessionError → SessionError
  pre_auth : EProtoError → SessionError

-- An error from before authentication never costs more than the connection.
unfoldable pub capped : EDisposition → EDisposition
capped kill_session = close_connection
capped ignore = ignore
capped close_connection = close_connection

unfoldable pub session_disposition : SessionError → EDisposition
unfolding capped Error.disposition_of
session_disposition (proto e) = Error.disposition_of e
session_disposition (session e) = disposition_of e
session_disposition (pre_auth e) = capped (Error.disposition_of e)

abbrev pub ChannelResult : Type 0 → Type 0
ChannelResult A = Expected SessionError A
