-- ===== src/Wire/Messages.antt =====
-- The messages of src/wire/include/zet/wire/message.hpp, less those that carry options or an
-- environment (Hello, Challenge, BootstrapOffer). Keys, tags and nonces are the bytes themselves.
use zet.Prelude.{ℕ, List, Option, none, some, if◌then◌else◌, ◌==◌}

pub record AuthMessage : Type 0 where
  pub client_tag : List ℕ

pub record AuthOkMessage : Type 0 where
  pub server_tag : List ℕ
  pub server_receive_offset : ℕ

pub record ResumeMessage : Type 0 where
  pub stream_gen : ℕ
  pub client_receive_offset : ℕ

pub record BootstrapAcceptMessage : Type 0 where
  pub version : ℕ
  pub agent_key : List ℕ
  pub client_nonce : List ℕ
  pub agent_nonce : List ℕ
  pub port : ℕ
  pub orphan_timeout_seconds : ℕ

pub record DataMessage : Type 0 where
  pub acked : ℕ
  pub offset : ℕ
  pub payload : List ℕ

pub record AckMessage : Type 0 where
  pub acked : ℕ

pub record ResizeMessage : Type 0 where
  pub rows : ℕ
  pub cols : ℕ
  pub xpixel : ℕ
  pub ypixel : ℕ

-- PingMessage, and PongMessage that echoes it.
pub record PingMessage : Type 0 where
  pub token : ℕ

pub record PongMessage : Type 0 where
  pub token : ℕ

pub data ESessionEndKind : Type 0 where
  exited signaled overflow : ESessionEndKind

unfoldable pub kind_code : ESessionEndKind → ℕ
kind_code exited = 0
kind_code signaled = 1
kind_code overflow = 2

-- `IsSessionEndKind`, with the kind that the number stands for.
unfoldable pub kind_of : ℕ → Option ESessionEndKind
kind_of n =
    if n == 0
    then some exited
    else if n == 1
    then some signaled
    else if n == 2
    then some overflow
    else none

pub record SessionEndMessage : Type 0 where
  pub kind : ESessionEndKind
  pub value : ℕ

pub record GridBeginMessage : Type 0 where
  pub flags : ℕ
  pub stream_gen : ℕ
  pub scrollback_len : ℕ
  pub total_len : ℕ

pub record GridChunkMessage : Type 0 where
  pub chunk_offset : ℕ
  pub chunk : List ℕ

pub record GridEndMessage : Type 0 where

pub record GridAppliedMessage : Type 0 where
  pub stream_gen : ℕ

pub record MuxRegisterMessage : Type 0 where
  pub registration : List ℕ

pub record MuxRegisteredMessage : Type 0 where
  pub port : ℕ

pub data EMuxRefusal : Type 0 where
  taken limit malformed : EMuxRefusal

unfoldable pub refusal_code : EMuxRefusal → ℕ
refusal_code taken = 1
refusal_code limit = 2
refusal_code malformed = 3

-- `IsMuxRefusal`, with the reason that the number stands for.
unfoldable pub refusal_of : ℕ → Option EMuxRefusal
refusal_of n =
    if n == 1
    then some taken
    else if n == 2
    then some limit
    else if n == 3
    then some malformed
    else none

pub record MuxRefusedMessage : Type 0 where
  pub reason : EMuxRefusal

pub record MuxHandoffMessage : Type 0 where
  pub prefix : List ℕ
