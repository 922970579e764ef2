-- ===== src/Wire/SealedFrame/Last.antt =====
-- The opener in its last generation.
use zet.Prelude.{ℕ, ◌+◌, ◌≤◌, ◌<◌, ◌≡◌, refl, sym, ap, ◌∙◌, false, List, ok, arith, length}
use zet.Crypto.{Sodium, IsSodium, aead_seal}
use zet.Wire.Limits.{header_size, tag_size}
use zet.Wire.Frame.{FrameHeader, FrameView}
use zet.Wire.SealedFrame.{
  salt_size, FrameOpener, wiped_key, make_nonce, header_bytes_of, open_frame, prepare_next,
}
use zet.Wire.SealedFrame.Laws.{length-make_nonce, aead_round_trip}

-- In its last generation, with no next key made ready, an opener with the counter of a next key
-- below the limit opens a frame of generation 0 that is sealed under the wiped key, all zeros, and
-- is then in generation 0 itself.
pub open_past_last :
    (c : Sodium) (o : FrameOpener) (room : ℕ) (plaintext : List ℕ)
    → IsSodium c
    → o.epoch ≡ 0xff
    → o.next_ready ≡ false
    → o.next_key ≡ wiped_key
    → o.next_counter < o.frame_limit
    → length o.salt ≡ salt_size
    → length plaintext ≤ room
    → (frame : FrameView) × (frame.header.epoch ≡ 0)
      × (aead_seal c
            (length plaintext + tag_size)
            plaintext
            (header_bytes_of frame.header)
            wiped_key
            (make_nonce o.salt o.next_counter)
          ≡ ok frame.body)
      × ((open_frame c o room frame).1 ≡ ok plaintext)
      × ((open_frame c o room frame).0.epoch ≡ 0)
unfolding open_frame prepare_next
open_past_last c o room plaintext law e ready wiped below salt fits =
    let header : FrameHeader = record { size = length plaintext + tag_size; epoch = 0 } in
    let (body, made, len, opens) =
      aead_round_trip (length plaintext + tag_size) plaintext (header_bytes_of header)
        (make_nonce o.salt o.next_counter) o.next_key law
        (length-make_nonce o.salt o.next_counter salt) (omega arith) in
    let opened = opens room fits in
    (
      record {
        header = header;
        body = body;
        consumed = header_size + (length plaintext + tag_size);
      },
      refl,
      ap
            (λ k.
              aead_seal c (length plaintext + tag_size) plaintext (header_bytes_of header) k
                (make_nonce o.salt o.next_counter))
            (sym wiped)
          ∙ made,
      ground (arith, opened),
      ground (arith, opened),
    )
