-- ===== src/Session/Channel/Keys.antt =====
-- The two ends of a connection, with the keys that both derive from one seed and two nonces.
use zet.Prelude.{ℕ, ◌<◌, ◌≡◌, refl, inl, List, map, ok, arith, u64_mod}
use zet.Crypto.{Sodium, IsSodium, derive_bytes}
use zet.Wire.KeySchedule.{ConnectionKeys, derive_connection_keys}
use zet.Wire.SealedFrame.Laws.{Follows}
use zet.Wire.SealedFrame.Transfer.{Turn, AllFit, send, receive, same-KeepsUp, receive-send}
use zet.Session.Channel.{ERole, client, agent, make_direction_frames}

abbrev pub other : ERole → ERole
other client = agent
other agent = client

pub make_direction_frames-Follows :
    (c : Sodium) (seed client_nonce server_nonce : List ℕ) (role : ERole)
    (frame_limit byte_limit : ℕ)
    → IsSodium c
    → frame_limit < u64_mod
    → Follows c
        (make_direction_frames
          (derive_connection_keys c seed client_nonce server_nonce)
          role
          frame_limit
          byte_limit).sealer
        (make_direction_frames
          (derive_connection_keys c seed client_nonce server_nonce)
          (other role)
          frame_limit
          byte_limit).opener
unfolding make_direction_frames derive_connection_keys derive_bytes
make_direction_frames-Follows c seed client_nonce server_nonce client frame_limit byte_limit law h =
    record {
      salt = refl;
      salted = law.derived_size _ _ _ _;
      limit = refl;
      limit_width = h;
      epoch_width = omega arith;
      not_ready = refl;
      keys = inl (refl, refl, refl);
    }
make_direction_frames-Follows c seed client_nonce server_nonce agent frame_limit byte_limit law h =
    record {
      salt = refl;
      salted = law.derived_size _ _ _ _;
      limit = refl;
      limit_width = h;
      epoch_width = omega arith;
      not_ready = refl;
      keys = inl (refl, refl, refl);
    }

epoch_zero :
    (keys : ConnectionKeys) (role : ERole) (frame_limit byte_limit : ℕ)
    → (make_direction_frames keys role frame_limit byte_limit).sealer.epoch
      ≡ (make_direction_frames keys (other role) frame_limit byte_limit).opener.epoch
unfolding make_direction_frames
epoch_zero keys role frame_limit byte_limit = refl

-- The client and the agent derive their keys from the same seed and nonces: whatever one of them,
-- in either role, seals with its direction's key, the other reads and opens in the same order with
-- its own, when every frame could be sealed. The encryption and the key derivation do what their
-- documentation says, the limit of frames is below 2^64, and the opener's buffer holds every
-- plaintext.
pub derived_keys_carry :
    (c : Sodium) (seed client_nonce server_nonce : List ℕ) (role : ERole)
    (frame_limit byte_limit room room' : ℕ) (ts : List Turn) {frames : List (List ℕ)}
    → IsSodium c
    → frame_limit < u64_mod
    → AllFit room' ts
    → send c room
        (make_direction_frames
          (derive_connection_keys c seed client_nonce server_nonce)
          role
          frame_limit
          byte_limit).sealer
        ts
      ≡ ok frames
    → receive c room'
        (make_direction_frames
          (derive_connection_keys c seed client_nonce server_nonce)
          (other role)
          frame_limit
          byte_limit).opener
        frames
      ≡ ok (map (λ t. t.plaintext) ts)
derived_keys_carry c seed client_nonce server_nonce role frame_limit byte_limit room room' ts law h
      fit sent =
    receive-send c room room' ts law
      (make_direction_frames-Follows c seed client_nonce server_nonce role frame_limit byte_limit
        law h)
      (same-KeepsUp
        (make_direction_frames (derive_connection_keys c seed client_nonce server_nonce) role
          frame_limit byte_limit).sealer
        (make_direction_frames (derive_connection_keys c seed client_nonce server_nonce)
          (other role) frame_limit byte_limit).opener
        ts
        (epoch_zero (derive_connection_keys c seed client_nonce server_nonce) role frame_limit
          byte_limit))
      fit sent
