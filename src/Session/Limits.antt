-- ===== src/Session/Limits.antt =====
-- src/session/include/zet/session/limits.hpp: the policy that a session runs under.
use zet.Prelude.{ℕ, ◌*◌}
use zet.Core.Time.{Duration}

abbrev pub resend_buffer_max : ℕ
resend_buffer_max = 4 * 1024 * 1024

abbrev pub disconnect_buffer_max : ℕ
disconnect_buffer_max = 16 * 1024 * 1024

abbrev pub default_orphan_timeout : Duration
default_orphan_timeout = 30 * 60 * 1_000_000_000

abbrev pub handshake_timeout : Duration
handshake_timeout = 5 * 1_000_000_000

abbrev pub keepalive_interval : Duration
keepalive_interval = 5 * 1_000_000_000

abbrev pub peer_silence_timeout : Duration
peer_silence_timeout = 15 * 1_000_000_000

pub data EForcePath : Type 0 where
  cost a b : EForcePath

pub record LivenessLimits : Type 0 where
  pub keepalive_interval : Duration
  pub peer_silence_timeout : Duration

pub record SessionLimits : Type 0 where
  pub resend_max : ℕ
  pub disconnect_max : ℕ
  pub orphan_timeout : Duration
  pub liveness : LivenessLimits
  pub force_path : EForcePath

abbrev pub default_limits : SessionLimits
default_limits = record {
  resend_max = resend_buffer_max;
  disconnect_max = disconnect_buffer_max;
  orphan_timeout = default_orphan_timeout;
  liveness = record {
    keepalive_interval = keepalive_interval;
    peer_silence_timeout = peer_silence_timeout;
  };
  force_path = EForcePath.cost;
}
