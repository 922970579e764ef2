-- ===== src/Wire/Limits.antt =====
-- The limits of src/wire/include/zet/wire/limits.hpp, and the sizes of src/wire's messages.
use zet.Prelude.{ℕ, ◌+◌, ◌-◌, ◌*◌}

abbrev pub header_size : ℕ
header_size = 5

abbrev pub max_frame : ℕ
max_frame = 256 * 1024

abbrev pub max_handshake_frame : ℕ
max_handshake_frame = 4 * 1024

abbrev pub protocol_version_grid : ℕ
protocol_version_grid = 2

abbrev pub snapshot_max_bytes : ℕ
snapshot_max_bytes = 4 * 1024 * 1024

-- crypto::TAG_SIZE, crypto::MAC_SIZE and crypto::PUBLIC_KEY_SIZE of src/crypto.
abbrev pub tag_size : ℕ
tag_size = 16

abbrev pub mac_size : ℕ
mac_size = 32

abbrev pub key_size : ℕ
key_size = 32

abbrev pub bootstrap_nonce_size : ℕ
bootstrap_nonce_size = 32

abbrev pub max_data_payload : ℕ
max_data_payload = max_frame - tag_size - 1 - 2 * 8

abbrev pub grid_chunk_max_data : ℕ
grid_chunk_max_data = max_frame - tag_size - 1 - 4

abbrev pub max_handoff_prefix : ℕ
max_handoff_prefix = header_size + max_handshake_frame
