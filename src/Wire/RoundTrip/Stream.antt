-- ===== src/Wire/RoundTrip/Stream.antt =====
-- The messages of the stream: Data, Ack, and the handshake that comes before them.
use zet.Prelude.{
  ℕ, ◌+◌, ◌≤◌, ◌<◌, ◌^◌, ◌≡◌, List, [], ◌++◌, ok, arith, length, length-append, ltb, ◌==◌,
}
use zet.Core.Error.{malformed_field, length_limit_exceeded}
use zet.Core.Reader.{pure, reject_if, read_be, read_bytes, ◌>>=◌, ◌>>◌}
use zet.Core.Reader.Laws.{
  Reads-bytes, Parses-bind, Reads-u16, Reads-u32, Reads-u64, length-encode_be,
}
use zet.Core.Writer
use zet.Core.Writer.{Write, written, encode_be, write_be, write_bytes}
use zet.Core.Writer.Laws.{Writes-bytes, Writes-be, Writes-then}
use zet.Wire.Limits.{max_data_payload, mac_size, key_size, bootstrap_nonce_size}
use zet.Wire.Types.{
  auth, auth_ok, bootstrap_accept, message_data, ack, code_of, write_message_type, read_array,
}
use zet.Wire.Messages.{AuthMessage, AuthOkMessage, BootstrapAcceptMessage, DataMessage, AckMessage}
use zet.Wire.Parse.{
  ending, read_rest, parse_auth, parse_auth_ok, parse_bootstrap_accept, parse_data, parse_ack,
}
use zet.Wire.Write.{write_auth, write_auth_ok, write_bootstrap_accept, write_data, write_ack}
use zet.Wire.RoundTrip.{
  received, round-trip_lem, Reads-check, Writes-check, Parses-ending, Parses-last, Parses-rest,
}

-- A Data message of 1 to `max_data_payload` bytes is received as it was sent, if its fields fit
-- their widths and the buffer has room for it.
pub data_round_trip :
    (m : DataMessage) (out : List ℕ)
    → m.acked < 2 ^ 64
    → m.offset < 2 ^ 64
    → 0 < length m.payload
    → length m.payload ≤ max_data_payload
    → 17 + length m.payload ≤ length out
    → let (w, x) = write_data m (Writer.make out) in
      (x ≡ ok tt) × (received parse_data (written w) ≡ ok (message_data, m))
unfolding write_data write_message_type parse_data
data_round_trip m out h0 h1 h2 h3 h4 =
    round-trip_lem (write_data m) message_data parse_data
      (encode_be 8 m.acked ++ (encode_be 8 m.offset ++ (m.payload)))
      (Writes-then _ _ [] _
        (Writes-check {b = length m.payload == 0} malformed_field (ground arith))
        (Writes-then _ _ [] _
          (Writes-check {b = ltb max_data_payload (length m.payload)} length_limit_exceeded
            (ground arith))
          (Writes-then _ _ (encode_be 1 (code_of message_data))
            (encode_be 8 m.acked ++ (encode_be 8 m.offset ++ (m.payload)))
            (Writes-be 1 (code_of message_data))
            (Writes-then _ _ (encode_be 8 m.acked) (encode_be 8 m.offset ++ (m.payload))
              (Writes-be 8 m.acked)
              (Writes-then _ _ (encode_be 8 m.offset) (m.payload) (Writes-be 8 m.offset)
                (Writes-bytes m.payload))))))
      (Parses-bind (read_be 8)
        (λ acked'.
          (read_be 8 >>= λ offset'.
          (read_rest max_data_payload >>= λ payload'.
          pure (record { acked = acked'; offset = offset'; payload = payload' }))))
        (encode_be 8 m.acked) (encode_be 8 m.offset ++ (m.payload)) (Reads-u64 _ (omega arith))
        (Parses-bind (read_be 8)
          (λ offset'.
            (read_rest max_data_payload >>= λ payload'.
            pure (record { acked = m.acked; offset = offset'; payload = payload' })))
          (encode_be 8 m.offset) (m.payload) (Reads-u64 _ (omega arith))
          (Parses-rest max_data_payload
            (λ payload'. record { acked = m.acked; offset = m.offset; payload = payload' }) _
            (omega arith) (omega arith))))
      out
      (omega (
        arith,
        length-encode_be 8 m.acked,
        length-encode_be 8 m.offset,
        length-append (encode_be 8 m.acked) (encode_be 8 m.offset ++ (m.payload)),
        length-append (encode_be 8 m.offset) (m.payload),
      ))

-- An Ack is received as it was sent.
pub ack_round_trip :
    (m : AckMessage) (out : List ℕ)
    → m.acked < 2 ^ 64
    → 9 ≤ length out
    → let (w, x) = write_ack m (Writer.make out) in
      (x ≡ ok tt) × (received parse_ack (written w) ≡ ok (ack, m))
unfolding write_ack write_message_type parse_ack
ack_round_trip m out h0 h1 =
    round-trip_lem (write_ack m) ack parse_ack (encode_be 8 m.acked)
      (Writes-then _ _ (encode_be 1 (code_of ack)) (encode_be 8 m.acked) (Writes-be 1 (code_of ack))
        (Writes-be 8 m.acked))
      (Parses-last (read_be 8) (λ acked'. ending (record { acked = acked' })) (encode_be 8 m.acked)
        (Reads-u64 _ (omega arith)) (Parses-ending _))
      out (omega (arith, length-encode_be 8 m.acked))

-- An Auth with a tag of its size is received as it was sent.
pub auth_round_trip :
    (m : AuthMessage) (out : List ℕ)
    → length m.client_tag ≡ mac_size
    → 33 ≤ length out
    → let (w, x) = write_auth m (Writer.make out) in
      (x ≡ ok tt) × (received parse_auth (written w) ≡ ok (auth, m))
unfolding write_auth write_message_type parse_auth read_array
auth_round_trip m out h0 h1 =
    round-trip_lem (write_auth m) auth parse_auth (m.client_tag)
      (Writes-then _ _ (encode_be 1 (code_of auth)) (m.client_tag) (Writes-be 1 (code_of auth))
        (Writes-bytes m.client_tag))
      (Parses-last (read_bytes mac_size)
        (λ client_tag'. ending (record { client_tag = client_tag' })) (m.client_tag)
        (Reads-bytes (mac_size) _ (omega arith)) (Parses-ending _))
      out (omega (arith))

-- An AuthOk with a tag of its size is received as it was sent, if its fields fit their widths and
-- the buffer has room for it.
pub auth_ok_round_trip :
    (m : AuthOkMessage) (out : List ℕ)
    → length m.server_tag ≡ mac_size
    → m.server_receive_offset < 2 ^ 64
    → 41 ≤ length out
    → let (w, x) = write_auth_ok m (Writer.make out) in
      (x ≡ ok tt) × (received parse_auth_ok (written w) ≡ ok (auth_ok, m))
unfolding write_auth_ok write_message_type parse_auth_ok read_array
auth_ok_round_trip m out h0 h1 h2 =
    round-trip_lem (write_auth_ok m) auth_ok parse_auth_ok
      (m.server_tag ++ (encode_be 8 m.server_receive_offset))
      (Writes-then _ _ (encode_be 1 (code_of auth_ok))
        (m.server_tag ++ (encode_be 8 m.server_receive_offset)) (Writes-be 1 (code_of auth_ok))
        (Writes-then _ _ (m.server_tag) (encode_be 8 m.server_receive_offset)
          (Writes-bytes m.server_tag) (Writes-be 8 m.server_receive_offset)))
      (Parses-bind (read_bytes mac_size)
        (λ server_tag'.
          (read_be 8 >>= λ server_receive_offset'.
          ending
            (record { server_tag = server_tag'; server_receive_offset = server_receive_offset' })))
        (m.server_tag) (encode_be 8 m.server_receive_offset)
        (Reads-bytes (mac_size) _ (omega arith))
        (Parses-last (read_be 8)
          (λ server_receive_offset'.
            ending (record {
              server_tag = m.server_tag;
              server_receive_offset = server_receive_offset';
            }))
          (encode_be 8 m.server_receive_offset) (Reads-u64 _ (omega arith)) (Parses-ending _)))
      out
      (omega (
        arith,
        length-encode_be 8 m.server_receive_offset,
        length-append (m.server_tag) (encode_be 8 m.server_receive_offset),
      ))

-- A BootstrapAccept with a port, and with keys and nonces of their sizes, is received as it was
-- sent, if its fields fit their widths and the buffer has room for it.
pub bootstrap_accept_round_trip :
    (m : BootstrapAcceptMessage) (out : List ℕ)
    → m.version < 2 ^ 16
    → length m.agent_key ≡ key_size
    → length m.client_nonce ≡ bootstrap_nonce_size
    → length m.agent_nonce ≡ bootstrap_nonce_size
    → m.port < 2 ^ 16
    → m.orphan_timeout_seconds < 2 ^ 32
    → 0 < m.port
    → 105 ≤ length out
    → let (w, x) = write_bootstrap_accept m (Writer.make out) in
      (x ≡ ok tt) × (received parse_bootstrap_accept (written w) ≡ ok (bootstrap_accept, m))
unfolding write_bootstrap_accept write_message_type parse_bootstrap_accept read_array
bootstrap_accept_round_trip m out h0 h1 h2 h3 h4 h5 h6 h7 =
    round-trip_lem (write_bootstrap_accept m) bootstrap_accept parse_bootstrap_accept
      (encode_be 2 m.version
        ++ (m.agent_key
            ++ (m.client_nonce
                ++ (m.agent_nonce
                    ++ (encode_be 2 m.port ++ (encode_be 4 m.orphan_timeout_seconds))))))
      (Writes-then _ _ [] _ (Writes-check {b = m.port == 0} malformed_field (ground arith)) (
        Writes-then _ _ (encode_be 1 (code_of bootstrap_accept))
          (encode_be 2 m.version
            ++ (m.agent_key
                ++ (m.client_nonce
                    ++ (m.agent_nonce
                        ++ (encode_be 2 m.port ++ (encode_be 4 m.orphan_timeout_seconds))))))
          (Writes-be 1 (code_of bootstrap_accept))
          (Writes-then _ _ (encode_be 2 m.version)
            (m.agent_key
              ++ (m.client_nonce
                  ++ (m.agent_nonce
                      ++ (encode_be 2 m.port ++ (encode_be 4 m.orphan_timeout_seconds)))))
            (Writes-be 2 m.version)
            (Writes-then _ _ (m.agent_key)
              (m.client_nonce
                ++ (m.agent_nonce
                    ++ (encode_be 2 m.port ++ (encode_be 4 m.orphan_timeout_seconds))))
              (Writes-bytes m.agent_key)
              (Writes-then _ _ (m.client_nonce)
                (m.agent_nonce ++ (encode_be 2 m.port ++ (encode_be 4 m.orphan_timeout_seconds)))
                (Writes-bytes m.client_nonce)
                (Writes-then _ _ (m.agent_nonce)
                  (encode_be 2 m.port ++ (encode_be 4 m.orphan_timeout_seconds))
                  (Writes-bytes m.agent_nonce)
                  (Writes-then _ _ (encode_be 2 m.port) (encode_be 4 m.orphan_timeout_seconds)
                    (Writes-be 2 m.port) (Writes-be 4 m.orphan_timeout_seconds))))))))
      (Parses-bind (read_be 2)
        (λ version'.
          (read_bytes key_size >>= λ agent_key'.
          (read_bytes bootstrap_nonce_size >>= λ client_nonce'.
          (read_bytes bootstrap_nonce_size >>= λ agent_nonce'.
          (read_be 2 >>= λ port'.
          (reject_if (port' == 0) malformed_field
            >> (read_be 4 >>= λ orphan_timeout_seconds'. ending (record {
              version = version';
              agent_key = agent_key';
              client_nonce = client_nonce';
              agent_nonce = agent_nonce';
              port = port';
              orphan_timeout_seconds = orphan_timeout_seconds';
            }))))))))
        (encode_be 2 m.version)
        (m.agent_key
          ++ (m.client_nonce
              ++ (m.agent_nonce ++ (encode_be 2 m.port ++ (encode_be 4 m.orphan_timeout_seconds)))))
        (Reads-u16 _ (omega arith))
        (Parses-bind (read_bytes key_size)
          (λ agent_key'.
            (read_bytes bootstrap_nonce_size >>= λ client_nonce'.
            (read_bytes bootstrap_nonce_size >>= λ agent_nonce'.
            (read_be 2 >>= λ port'.
            (reject_if (port' == 0) malformed_field
              >> (read_be 4 >>= λ orphan_timeout_seconds'. ending (record {
                version = m.version;
                agent_key = agent_key';
                client_nonce = client_nonce';
                agent_nonce = agent_nonce';
                port = port';
                orphan_timeout_seconds = orphan_timeout_seconds';
              })))))))
          (m.agent_key)
          (m.client_nonce
            ++ (m.agent_nonce ++ (encode_be 2 m.port ++ (encode_be 4 m.orphan_timeout_seconds))))
          (Reads-bytes (key_size) _ (omega arith))
          (Parses-bind (read_bytes bootstrap_nonce_size)
            (λ client_nonce'.
              (read_bytes bootstrap_nonce_size >>= λ agent_nonce'.
              (read_be 2 >>= λ port'.
              (reject_if (port' == 0) malformed_field
                >> (read_be 4 >>= λ orphan_timeout_seconds'. ending (record {
                  version = m.version;
                  agent_key = m.agent_key;
                  client_nonce = client_nonce';
                  agent_nonce = agent_nonce';
                  port = port';
                  orphan_timeout_seconds = orphan_timeout_seconds';
                }))))))
            (m.client_nonce)
            (m.agent_nonce ++ (encode_be 2 m.port ++ (encode_be 4 m.orphan_timeout_seconds)))
            (Reads-bytes (bootstrap_nonce_size) _ (omega arith))
            (Parses-bind (read_bytes bootstrap_nonce_size)
              (λ agent_nonce'.
                (read_be 2 >>= λ port'.
                (reject_if (port' == 0) malformed_field
                  >> (read_be 4 >>= λ orphan_timeout_seconds'. ending (record {
                    version = m.version;
                    agent_key = m.agent_key;
                    client_nonce = m.client_nonce;
                    agent_nonce = agent_nonce';
                    port = port';
                    orphan_timeout_seconds = orphan_timeout_seconds';
                  })))))
              (m.agent_nonce) (encode_be 2 m.port ++ (encode_be 4 m.orphan_timeout_seconds))
              (Reads-bytes (bootstrap_nonce_size) _ (omega arith))
              (Parses-bind (read_be 2)
                (λ port'.
                  (reject_if (port' == 0) malformed_field
                    >> (read_be 4 >>= λ orphan_timeout_seconds'. ending (record {
                      version = m.version;
                      agent_key = m.agent_key;
                      client_nonce = m.client_nonce;
                      agent_nonce = m.agent_nonce;
                      port = port';
                      orphan_timeout_seconds = orphan_timeout_seconds';
                    }))))
                (encode_be 2 m.port) (encode_be 4 m.orphan_timeout_seconds)
                (Reads-u16 _ (omega arith))
                (Parses-bind (reject_if (m.port == 0) malformed_field)
                  (λ _.
                    (read_be 4 >>= λ orphan_timeout_seconds'. ending (record {
                      version = m.version;
                      agent_key = m.agent_key;
                      client_nonce = m.client_nonce;
                      agent_nonce = m.agent_nonce;
                      port = m.port;
                      orphan_timeout_seconds = orphan_timeout_seconds';
                    })))
                  [] (encode_be 4 m.orphan_timeout_seconds)
                  (Reads-check malformed_field (ground arith))
                  (Parses-last (read_be 4)
                    (λ orphan_timeout_seconds'. ending (record {
                      version = m.version;
                      agent_key = m.agent_key;
                      client_nonce = m.client_nonce;
                      agent_nonce = m.agent_nonce;
                      port = m.port;
                      orphan_timeout_seconds = orphan_timeout_seconds';
                    }))
                    (encode_be 4 m.orphan_timeout_seconds) (Reads-u32 _ (omega arith))
                    (Parses-ending _))))))))
      out
      (omega (
        arith,
        length-encode_be 2 m.version,
        length-encode_be 2 m.port,
        length-encode_be 4 m.orphan_timeout_seconds,
        length-append (encode_be 2 m.version) (
            m.agent_key
            ++ (m.client_nonce
                ++ (m.agent_nonce
                    ++ (encode_be 2 m.port ++ (encode_be 4 m.orphan_timeout_seconds))))),
        length-append (m.agent_key) (
            m.client_nonce
            ++ (m.agent_nonce ++ (encode_be 2 m.port ++ (encode_be 4 m.orphan_timeout_seconds)))),
        length-append (m.client_nonce)
            (m.agent_nonce ++ (encode_be 2 m.port ++ (encode_be 4 m.orphan_timeout_seconds))),
        length-append (m.agent_nonce)
            (encode_be 2 m.port ++ (encode_be 4 m.orphan_timeout_seconds)),
        length-append (encode_be 2 m.port) (encode_be 4 m.orphan_timeout_seconds),
      ))
