-- ===== src/Tests/Sealed.antt =====
-- src/wire/sealed_frame.cpp and src/session/channel.cpp at concrete keys and channels. The
-- encryption here only appends a tag of zeros.
use zet.Prelude.{
  length-replicate, ℕ, ◌-◌, ◌≡◌, ◌+◌, ◌*◌, refl, ap, ◌∙◌, true, false, List, [], ◌∷◌, ◌++◌, ok,
  length, arith, some, none, replicate, take, take-append, length-append, inl, inr,
}
use zet.Core.Writer
use zet.Crypto.{Sodium, IsSodium, aead_seal, derive_subkey, derive_bytes, derive_from_info}
use zet.Wire.SealedFrame.{
  opener_of, sealer_of, FrameSealer, FrameOpener, wiped_key, open_frame, seal, rekey, make_nonce,
  header_bytes_of,
}
use zet.Wire.KeySchedule.{derive_connection_keys}
use zet.Wire.Frame.{write_frame_header, FrameView}
use zet.Wire.SealedFrame.Laws.{Follows}
use zet.Wire.SealedFrame.Transfer.{Turn, send, receive, receive-send}
use zet.Wire.SealedFrame.Nonces.{SealCall, seals, rekeys, uses, Ascends, AllEncrypted, uses-Ascends}
use zet.Wire.SealedFrame.Last.{open_past_last}
use zet.Session.SendBuffer
use zet.Session.ReceiveCursor
use zet.Session.Limits.{LivenessLimits}
use zet.Session.Channel.{make_direction_frames, Channel, init, client, agent, start_grid}
use zet.Session.Channel.Poll.Grid.{Undisturbed}
use zet.Session.Channel.Receive.{delivered_grid_snapshot}
use zet.Session.Channel.Transfer.{Snapshot, transfer}
use zet.Session.Channel.Transfer.Steps.{start_grid_arrives}
use zet.Session.Channel.Keys.{derived_keys_carry}

abbrev tag : List ℕ
tag = replicate 16 0

abbrev tagging : Sodium
tagging = record {
  encrypt = λ plaintext associated nonce key. some (plaintext ++ tag);
  decrypt = λ sealed associated nonce key. some (take (length sealed - 16) sealed);
  kdf = λ width subkey_id context master. replicate width subkey_id;
  hash = λ width key bytes. replicate width 0;
  auth = λ key bytes. replicate 32 0;
  verify = λ key mac bytes. true;
}

tagging-IsSodium : IsSodium tagging
tagging-IsSodium = record {
  encrypted = λ plaintext associated nonce key.
      let cut : length (plaintext ++ tag) - 16 ≡ length plaintext =
        omega (arith, length-append plaintext tag) in
      (
        plaintext ++ tag,
        refl,
        length-append plaintext tag,
        ap (λ n. some (take n (plaintext ++ tag))) cut ∙ ap some (take-append plaintext tag),
      );
  derived_size = λ width subkey_id context master. length-replicate width subkey_id;
}

abbrev new_sealer : FrameSealer
new_sealer = record {
  key = replicate 32 7;
  salt = replicate 16 3;
  frame_limit = 16777216;
  byte_limit = 1073741824;
  counter = 0;
  bytes_sealed = 0;
  epoch = 0;
}

abbrev new_opener : FrameOpener
new_opener = record {
  key = replicate 32 7;
  next_key = wiped_key;
  salt = replicate 16 3;
  frame_limit = 16777216;
  counter = 0;
  next_counter = 0;
  epoch = 0;
  next_ready = false;
}

new-Follows : Follows tagging new_sealer new_opener
new-Follows = record {
  salt = refl;
  salted = refl;
  limit = refl;
  limit_width = omega arith;
  epoch_width = omega arith;
  not_ready = refl;
  keys = inl (refl, refl, refl);
}

abbrev two_turns : List Turn
two_turns =
    record { renews = false; plaintext = 1 ∷ 2 ∷ [] }
    ∷ record { renews = true; plaintext = 3 ∷ [] }
    ∷ []

abbrev two_frames : List (List ℕ)
two_frames = (0 ∷ 0 ∷ 0 ∷ 18 ∷ 0 ∷ 1 ∷ 2 ∷ tag) ∷ (0 ∷ 0 ∷ 0 ∷ 17 ∷ 1 ∷ 3 ∷ tag) ∷ []

two_sent : send tagging 64 new_sealer two_turns ≡ ok two_frames
unfolding send seal rekey aead_seal derive_subkey derive_bytes header_bytes_of make_nonce
    write_frame_header Writer.make Writer.written Writer.write_be Writer.encode_be
    Writer.write_bytes Writer.remaining
two_sent = refl

receive-send_example : receive tagging 64 new_opener two_frames ≡ ok ((1 ∷ 2 ∷ []) ∷ (3 ∷ []) ∷ [])
receive-send_example =
    receive-send tagging 64 64 two_turns tagging-IsSodium new-Follows (inl refl)
      (omega arith, (omega arith, tt)) two_sent

abbrev seal_calls : List SealCall
seal_calls = seals 64 (1 ∷ []) ∷ seals 64 (2 ∷ []) ∷ rekeys ∷ seals 64 (3 ∷ []) ∷ []

uses-Ascends_example :
    Ascends (uses tagging new_sealer seal_calls)
    × AllEncrypted tagging (replicate 32 7) 0 (uses tagging new_sealer seal_calls)
uses-Ascends_example =
    uses-Ascends tagging new_sealer seal_calls
      (record { counted = omega arith; limit_width = omega arith })

abbrev last_opener : FrameOpener
last_opener = record new_opener { epoch = 0xff; next_counter = 1 }

open_past_last_example :
    (frame : FrameView) × (frame.header.epoch ≡ 0)
    × (aead_seal tagging 17
          (5 ∷ [])
          (header_bytes_of frame.header)
          wiped_key
          (make_nonce (replicate 16 3) 1)
        ≡ ok frame.body)
    × ((open_frame tagging last_opener 64 frame).1 ≡ ok (5 ∷ []))
    × ((open_frame tagging last_opener 64 frame).0.epoch ≡ 0)
open_past_last_example =
    open_past_last tagging last_opener 64 (5 ∷ []) tagging-IsSodium refl refl refl (omega arith)
      refl (omega arith)

abbrev quiet : LivenessLimits
quiet = record { keepalive_interval = 0; peer_silence_timeout = 0 }

abbrev agent_channel : Channel
agent_channel =
    init (record { sealer = new_sealer; opener = new_opener; role = agent })
      (SendBuffer.init (replicate 8 0) 0) (ReceiveCursor.init 0 ReceiveCursor.on_receipt) 0 quiet 2
      [] 0

abbrev client_channel : Channel
client_channel =
    init (record { sealer = new_sealer; opener = new_opener; role = client })
      (SendBuffer.init (replicate 8 0) 0) (ReceiveCursor.init 0 ReceiveCursor.on_receipt) 0 quiet 2
      (replicate 4 0) 0

abbrev screen : Snapshot
screen = record { bytes = 9 ∷ 8 ∷ 7 ∷ []; gen = 1; scrollback = 2; flags = 1 }

agent_channel-Undisturbed : Undisturbed 0 (14 + 6 * length screen.bytes) agent_channel
unfolding init
agent_channel-Undisturbed = record {
  agent = refl;
  gate = refl;
  heard = inr (inl refl);
  no_pong = refl;
  fresh = omega arith;
  bytes = omega arith;
  byte_width = omega arith;
}

start_grid_arrives_example :
    (sender' : Channel) × (receiver' : Channel) × (transfer tagging 300000 6 300000 0 5
        (start_grid agent_channel screen.bytes 1 1 2).0
        client_channel
      ≡ some (sender', receiver', delivered_grid_snapshot screen.bytes 1 2 1))
    × (sender'.grid_emitting ≡ none)
    × (receiver'.grid_receiving ≡ none)
    × (receiver'.agent_stream_gen ≡ 1)
unfolding start_grid init
start_grid_arrives_example =
    start_grid_arrives tagging 300000 6 300000 0 screen agent_channel client_channel
      tagging-IsSodium refl agent_channel-Undisturbed refl (omega arith) refl (omega arith)
      (omega arith) (omega arith) (omega arith) (omega arith)
      (record { follows = new-Follows; same = refl; left = omega arith }) (omega arith)
      (omega arith) (omega arith)

abbrev one_turn : List Turn
one_turn = record { renews = false; plaintext = 1 ∷ 2 ∷ [] } ∷ []

derived_keys_carry_example :
    receive tagging 64
      (opener_of (replicate 32 2) (replicate 16 4) 100)
      ((0 ∷ 0 ∷ 0 ∷ 18 ∷ 0 ∷ 1 ∷ 2 ∷ tag) ∷ [])
    ≡ ok ((1 ∷ 2 ∷ []) ∷ [])
unfolding make_direction_frames derive_connection_keys derive_from_info opener_of sealer_of send
    seal aead_seal derive_subkey derive_bytes header_bytes_of make_nonce write_frame_header
    Writer.make Writer.written Writer.write_be Writer.encode_be Writer.write_bytes Writer.remaining
derived_keys_carry_example =
    derived_keys_carry tagging (replicate 32 5) (replicate 16 1) (replicate 16 2) agent 100 1000 64
      64 one_turn tagging-IsSodium (omega arith) (omega arith, tt) refl
