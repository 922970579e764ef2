-- ===== src/Session/Channel/Exchange.antt =====
-- A frame that one channel seals and the other opens and acts on.
use zet.Prelude.{
  ℕ, suc, ◌+◌, ◌≤◌, ◌≡◌, ap, ◌∙◌, List, Option, none, some, ok, err, arith, length, true, ltb,
  lt→ltb, add64, if◌then◌else◌,
}
use zet.Core.Time.{Timestamp}
use zet.Core.Error.{ProtoResult}
use zet.Core.Reader
use zet.Core.Reader.{ByteReader, Read, ◌>>=◌, pure, continue}
use zet.Crypto.{Sodium, IsSodium}
use zet.Wire.Limits.{max_frame, header_size, tag_size}
use zet.Wire.Frame.{FrameView, read_frame}
use zet.Wire.SealedFrame.{FrameSealer, FrameOpener, open_frame}
use zet.Wire.SealedFrame.Laws.{
  Follows, seal-Sealed, open-Sealed, seal_succeeds, view_of, length-Sealed,
}
use zet.Wire.SealedFrame.Transfer.{read-Sealed}
use zet.Wire.Types.{EMessageType, parse_message_type}
use zet.Wire.RoundTrip.{received}
use zet.Session.Channel.{Channel}
use zet.Session.Channel.Receive.{
  Outcome, IncomingEvent, receive, receive_plaintext, dispatch, typed, opened,
}
use zet.Session.Channel.Poll.{Sent, seal_into, sealed_with, noted}
use zet.Session.Channel.Poll.Grid.{answered}

-- The two channels once a frame of the first is with the second, and what the second made of it.
abbrev pub Exchanged : Type 0
Exchanged = Channel × Channel × IncomingEvent

abbrev pub kept : Channel → Outcome → Option Exchanged
kept sender (receiver, ok event) = some (sender, receiver, event)
kept sender (receiver, err e) = none

abbrev pub arrives :
    Sodium → ℕ → Timestamp → Channel → Channel → ProtoResult FrameView → Option Exchanged
arrives c room now receiver sender (ok view) = kept sender (receive c receiver now view room)
arrives c room now receiver sender (err e) = none

-- The bytes of a frame that is sent arrive as they are; no bytes at all are no frame.
abbrev pub carry : Sodium → ℕ → Timestamp → Channel → Sent → Option Exchanged
carry c room now receiver (sender, ok frame) =
    arrives c room now receiver sender (read_frame frame max_frame)
carry c room now receiver (sender, err e) = none

-- Sealer and opener are at one key, and there are `spare` frames left before the limit.
pub record Linked (c : Sodium) (spare : ℕ) (s : FrameSealer) (o : FrameOpener) : Type 0 where
  pub follows : Follows c s o
  pub same : s.epoch ≡ o.epoch
  pub left : s.counter + spare ≤ s.frame_limit

parsed_ok :
    {A : Type 0} {t t' : EMessageType} {m : A} (x : ByteReader × ProtoResult A)
    → (continue {B = EMessageType × A} (λ m'. pure (t', m')) x).1 ≡ ok (t, m)
    → (t' ≡ t) × (x.1 ≡ ok m)
parsed_ok (r, ok m') h = (cc h, cc h)
parsed_ok (r, err e) h = absurd (cc h)

-- A message that is received as `(t, m)` is dispatched on `t`, and its parser gives `m`.
received_lem :
    {A : Type 0} (parse : Read A) (x : ByteReader × ProtoResult EMessageType) {t : EMessageType}
    {m : A}
    → (continue {B = EMessageType × A} (λ t'. (parse >>= (λ m'. pure (t', m')))) x).1 ≡ ok (t, m)
    → (reader : ByteReader) × (x ≡ (reader, ok t)) × ((parse reader).1 ≡ ok m)
received_lem parse (reader, ok t') h =
    let (e, e') = parsed_ok (parse reader) h in (reader, ap (λ u. (reader, ok u)) e, e')
received_lem parse (reader, err e) h = absurd (cc h)

-- What becomes of a plaintext that one end seals and the other can read.
pub crosses :
    {A : Type 0} (parse : Read A) (c : Sodium) (out room : ℕ) (now : Timestamp)
    (change : Channel → Channel) {spare : ℕ} (sender receiver : Channel) (plaintext : List ℕ)
    {t : EMessageType} {m : A}
    → IsSodium c
    → Linked c (suc spare) sender.sealer receiver.opener
    → length plaintext + tag_size ≤ max_frame
    → header_size + (length plaintext + tag_size) ≤ out
    → length plaintext ≤ room
    → received parse plaintext ≡ ok (t, m)
    → (s : FrameSealer) × (o : FrameOpener) × (reader : ByteReader) × Linked c spare s o
      × ((parse reader).1 ≡ ok m)
      × (s.bytes_sealed ≡ add64 sender.sealer.bytes_sealed (length plaintext))
      × (s.byte_limit ≡ sender.sealer.byte_limit)
      × (carry c room now receiver (noted now (answered (seal_into c out plaintext change sender)))
          ≡ kept
              (record (change (record sender { sealer = s })) { last_sent = now })
              (dispatch t (record receiver { opener = o; last_heard = now }) reader))
unfolding received seal_into receive receive_plaintext
crosses parse c out room now change {spare} sender receiver plaintext {t} {m} law v fits enough
      roomy h =
    let f = v.follows in
    let (s, frame, sealed, counted, limit, bytes, byte_limit) =
      seal_succeeds sender.sealer out plaintext law f.salted (omega (arith, v.left)) f.limit_width
        fits enough in
    let S = seal-Sealed out plaintext law f.salted sealed in
    let (opens, follows, same) = open-Sealed room S f roomy in
    let sent_sender : Channel = change (record sender { sealer = s }) in
    let noted_sender : Channel = record sent_sender { last_sent = now } in
    let o = (open_frame c receiver.opener room (view_of sender.sealer S.body)).0 in
    let (reader, typed_ok, parsed_to) =
      received_lem parse (parse_message_type (Reader.make plaintext)) h in
    (
      s,
      o,
      reader,
      record { follows = follows; same = same; left = omega (arith, v.left, counted, limit) },
      parsed_to,
      bytes,
      byte_limit,
      ap (λ x. carry c room now receiver (noted now (answered (sealed_with sender change x))))
            sealed
          ∙ ap
              (λ b.
                arrives c room now receiver (if b then noted_sender else sent_sender)
                  (read_frame frame max_frame))
              {x = ltb 0 (length frame)} {y = true} (lt→ltb 0 (length frame) (length-Sealed S))
          ∙ ap (arrives c room now receiver noted_sender) (read-Sealed S f.epoch_width)
          ∙ ap (λ r. kept noted_sender (opened receiver now (o, r))) opens
          ∙ ap (λ x. kept noted_sender (typed (record receiver { opener = o; last_heard = now }) x))
              typed_ok,
    )
