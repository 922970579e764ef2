-- ===== src/Session/Channel/Poll/Grid.antt =====
-- `Poll` of an agent's channel that has nothing to send before a snapshot.
use zet.Prelude.{
  ℕ, ◌+◌, ◌≤◌, ◌<◌, ◌≡◌, refl, ap, ◌∙◌, ◌⊎◌, true, false, List, [], ◌∷◌, Option, none, some, ok,
  err, arith, u64_mod,
}
use zet.Core.Time.{Timestamp}
use zet.Core.Error.{ProtoResult}
use zet.Crypto.{Sodium}
use zet.Wire.Limits.{header_size, tag_size}
use zet.Wire.SealedFrame.{FrameSealer, seal, needs_rekey}
use zet.Session.Error.{ChannelResult}
use zet.Session.Channel.{Channel, is_agent, rekey_interval}
use zet.Session.Channel.Poll.{
  Sent, pass, then_on, sealed_with, seal_into, poll_pong, poll_grid_applied, poll_grid, poll_data,
  poll_end, poll_resize, poll_ack, poll_keepalive, first_of, poll_priorities, rekey_if_needed,
  poll_once, noted, poll,
}

-- The channel is an agent's, its gate is open, its peer is not silent, it owes no pong, and neither
-- the time nor, for `spent` bytes more, the bytes call for the next key.
pub record Undisturbed (now : Timestamp) (spent : ℕ) (ch : Channel) : Type 0 where
  pub agent : is_agent ch.role ≡ true
  pub gate : ch.send_gate_closed ≡ false
  pub heard :
      (ch.read_gate_closed ≡ true)
      ⊎ (ch.liveness.peer_silence_timeout ≡ 0)
      ⊎ (now < ch.last_heard + ch.liveness.peer_silence_timeout)
  pub no_pong : ch.pending_pong ≡ none
  pub fresh : now < ch.epoch_start + rekey_interval
  pub bytes : ch.sealer.bytes_sealed + spent < ch.sealer.byte_limit
  pub byte_width : ch.sealer.byte_limit < u64_mod

-- The answer of a priority that has one.
abbrev pub answered : Channel × Option (ChannelResult (List ℕ)) → Sent
answered (ch, some r) = (ch, r)
answered (ch, none) = (ch, ok [])

then_on-sealed :
    (next : Channel → Sent) (ch : Channel) (change : Channel → Channel)
    (x : FrameSealer × ProtoResult (List ℕ))
    → then_on next (sealed_with ch change x) ≡ answered (sealed_with ch change x)
then_on-sealed next ch change (s, ok frame) = refl
then_on-sealed next ch change (s, err e) = refl

module _ (c : Sodium) (out scratch : ℕ) (now : Timestamp) {spent : ℕ} {ch : Channel}
    (u : Undisturbed now spent ch) where
  pong_passes : poll_pong c out ch ≡ pass ch
  unfolding poll_pong
  pong_passes = ground (arith, u.no_pong)

  applied_passes : poll_grid_applied c out ch ≡ pass ch
  unfolding poll_grid_applied
  applied_passes = ground (arith, u.agent)

  key_stays : ch.sealer.counter < ch.sealer.frame_limit → rekey_if_needed c now ch ≡ (ch, ok tt)
  unfolding rekey_if_needed needs_rekey
  key_stays h = ground (arith, u.fresh, u.bytes)

  -- Such a channel polls the frame of its snapshot.
  pub poll-grid :
      (plaintext : List ℕ) (change : Channel → Channel)
      → ch.sealer.counter < ch.sealer.frame_limit
      → header_size + 1 + tag_size ≤ out
      → poll_grid c out scratch ch ≡ seal_into c out plaintext change ch
      → poll c out scratch now ch ≡ noted now (answered (seal_into c out plaintext change ch))
  unfolding poll poll_once poll_priorities first_of seal_into
  poll-grid plaintext change below enough e =
      ground (arith, u.gate, u.heard, through, key_stays below)
    where
      rest : Channel → Sent
      rest = first_of (
          poll_data c out scratch
          ∷ poll_end c out
          ∷ poll_resize c out
          ∷ poll_ack c out now
          ∷ poll_keepalive c out now
          ∷ [])

      through :
          poll_priorities c out scratch now ch ≡ answered (seal_into c out plaintext change ch)
      through =
          ap
            (then_on (λ ch1.
              then_on (λ ch2. then_on rest (poll_grid c out scratch ch2))
                (poll_grid_applied c out ch1)))
            pong_passes
          ∙ ap (then_on (λ ch2. then_on rest (poll_grid c out scratch ch2))) applied_passes
          ∙ ap (then_on rest) e
          ∙ then_on-sealed rest ch change (seal c ch.sealer out plaintext)
