-- ===== src/Core/Error.antt =====
-- src/core/include/zet/core/error.hpp: the errors of the protocol, and what each one costs.
use zet.Prelude.{Expected}

pub data EDisposition : Type 0 where
  ignore close_connection kill_session : EDisposition

pub data EProtoError : Type 0 where
  truncated length_limit_exceeded malformed_field unknown_message_type unexpected_message
        version_mismatch unsupported_critical_option nonce_reused authentication_failed
        buffer_too_small rekey_required epochs_exhausted :
      EProtoError

abbrev pub ProtoResult : Type 0 → Type 0
ProtoResult A = Expected EProtoError A

unfoldable pub disposition_of : EProtoError → EDisposition
disposition_of unknown_message_type = ignore
disposition_of truncated = close_connection
disposition_of length_limit_exceeded = close_connection
disposition_of malformed_field = close_connection
disposition_of unexpected_message = close_connection
disposition_of authentication_failed = close_connection
disposition_of buffer_too_small = close_connection
disposition_of rekey_required = close_connection
disposition_of epochs_exhausted = close_connection
disposition_of unsupported_critical_option = close_connection
disposition_of nonce_reused = close_connection
disposition_of version_mismatch = kill_session
