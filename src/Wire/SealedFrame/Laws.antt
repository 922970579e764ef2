-- ===== src/Wire/SealedFrame/Laws.antt =====
-- A sealer and the opener at the other end of its direction.
use zet.Prelude.{
  ℕ, ◌+◌, ◌-◌, ◌%◌, ◌≤◌, ◌<◌, ◌≡◌, ◌≢◌, refl, sym, ap, ap₂, ◌∙◌, subst, ◌⊎◌, inl, inr, true, false,
  List, ◌++◌, ok, arith, length, length-append, replicate, add64, u32_mod, u64_mod,
}
use zet.Core.Reader.Laws.{length-encode_be}
use zet.Core.Writer.{encode_be}
use zet.Core.Writer.Laws.{Writes-make}
use zet.Crypto.{Sodium, IsSodium, aead_seal, aead_open, derive_subkey}
use zet.Wire.Limits.{header_size, max_frame, tag_size}
use zet.Wire.Frame.{FrameHeader, FrameView}
use zet.Wire.Frame.Laws.{header_bytes, Writes-header}
use zet.Wire.SealedFrame.{
  salt_size, FrameSealer, FrameOpener, rekey_context, make_nonce, header_bytes_of, seal, seal_with,
  rekey, prepare_next, wiped_key, open_frame,
}

pub length-make_nonce :
    (salt : List ℕ) (counter : ℕ) → length salt ≡ salt_size → length (make_nonce salt counter) ≡ 24
unfolding make_nonce
length-make_nonce salt counter h =
    omega (arith, length-append salt (encode_be 8 counter), length-encode_be 8 counter)

pub header_bytes_of_eq : (h : FrameHeader) → header_bytes_of h ≡ header_bytes h
unfolding header_bytes_of encode_be
header_bytes_of_eq h = (Writes-make (Writes-header h) (replicate header_size 0) (omega arith)).1

-- Encryption as the sealer calls it always succeeds, and the opener undoes it.
pub aead_round_trip :
    {c : Sodium} (room : ℕ) (plaintext associated nonce key : List ℕ)
    → IsSodium c
    → length nonce ≡ 24
    → length plaintext + tag_size ≤ room
    → (body : List ℕ) × (aead_seal c room plaintext associated key nonce ≡ ok body)
      × (length body ≡ length plaintext + tag_size)
      × ((room' : ℕ)
          → length plaintext ≤ room'
          → aead_open c room' body associated key nonce ≡ ok plaintext)
unfolding aead_seal aead_open
aead_round_trip {c} room plaintext associated nonce key law n fits =
    let (body, e, len, d) = law.encrypted plaintext associated nonce key in
    (body, ground arith, len, λ room' fits'. ground (arith, len, d))

seal_checks :
    (c : Sodium) (s : FrameSealer) (room : ℕ) (plaintext : List ℕ) {s' : FrameSealer}
    {frame : List ℕ}
    → seal c s room plaintext ≡ (s', ok frame)
    → (s.counter < s.frame_limit)
      × (length plaintext + tag_size ≤ max_frame)
      × (header_size + (length plaintext + tag_size) ≤ room)
unfolding seal
seal_checks c s room plaintext h = (ground arith, ground arith, ground arith)

-- What a `Seal` that succeeded has checked, made and counted.
pub record Sealed (c : Sodium) (s : FrameSealer) (plaintext : List ℕ) (s' : FrameSealer)
    (frame : List ℕ) : Type 0 where
  pub below : s.counter < s.frame_limit
  pub fits : length plaintext + tag_size ≤ max_frame
  pub body : List ℕ
  pub body_size : length body ≡ length plaintext + tag_size
  pub framed : frame ≡ header_bytes (record { size = length body; epoch = s.epoch }) ++ body
  pub state : s' ≡ record s {
    counter = add64 s.counter 1;
    bytes_sealed = add64 s.bytes_sealed (length plaintext);
  }
  pub opens :
      (room : ℕ)
      → length plaintext ≤ room
      → aead_open c room body
          (header_bytes (record { size = length body; epoch = s.epoch }))
          s.key
          (make_nonce s.salt s.counter)
        ≡ ok plaintext

pub seal-Sealed :
    {c : Sodium} {s s' : FrameSealer} (room : ℕ) (plaintext : List ℕ) {frame : List ℕ}
    → IsSodium c
    → length s.salt ≡ salt_size
    → seal c s room plaintext ≡ (s', ok frame)
    → Sealed c s plaintext s' frame
unfolding seal
seal-Sealed {c} {s} {s'} room plaintext {frame} law salt h =
    let (below, fits, enough) = seal_checks c s room plaintext h in
    let header : FrameHeader = record {
      size = (length plaintext + tag_size) % u32_mod;
      epoch = s.epoch;
    } in
    let (body, e, len, opens) =
      aead_round_trip (room - header_size) plaintext (header_bytes_of header)
        (make_nonce s.salt s.counter) s.key law (length-make_nonce s.salt s.counter salt)
        (omega arith) in
    let size : header ≡ record { size = length body; epoch = s.epoch } = ground (arith, len) in
    let result : seal c s room plaintext
        ≡ seal_with s (header_bytes_of header) plaintext (ok body) =
      ground (arith, e) in
    let both = sym h ∙ result in
    record {
      below = below;
      fits = fits;
      body = body;
      body_size = len;
      framed = ground (arith, both, header_bytes_of_eq header, ap header_bytes size);
      state = ap (λ r. r.0) both;
      opens = λ room' k.
          ap (λ x. aead_open c room' body x s.key (make_nonce s.salt s.counter))
            (sym (header_bytes_of_eq header ∙ ap header_bytes size))
          ∙ opens room' k;
    }

-- The opener is at the sealer's key and counter, or one generation behind a sealer that has sealed
-- nothing in its own.
pub record Follows (c : Sodium) (s : FrameSealer) (o : FrameOpener) : Type 0 where
  pub salt : s.salt ≡ o.salt
  pub salted : length s.salt ≡ salt_size
  pub limit : s.frame_limit ≡ o.frame_limit
  pub limit_width : s.frame_limit < u64_mod
  pub epoch_width : s.epoch < 256
  pub not_ready : o.next_ready ≡ false
  pub keys :
      ((s.epoch ≡ o.epoch) × (s.key ≡ o.key) × (s.counter ≡ o.counter))
      ⊎ ((s.epoch ≡ o.epoch + 1)
          × (s.key ≡ derive_subkey c o.key (o.epoch + 1) rekey_context)
          × (s.counter ≡ 0))

abbrev pub view_of : FrameSealer → List ℕ → FrameView
view_of s body = record {
  header = record { size = length body; epoch = s.epoch };
  body = body;
  consumed = header_size + length body;
}

opens_at :
    {c : Sodium} {s s' : FrameSealer} {plaintext frame : List ℕ} (room : ℕ) (key salt : List ℕ)
    (counter : ℕ)
    → (f : Sealed c s plaintext s' frame) → length plaintext ≤ room
    → s.key ≡ key
    → s.salt ≡ salt
    → s.counter ≡ counter
    → aead_open c room f.body
        (header_bytes_of (view_of s f.body).header)
        key
        (make_nonce salt counter)
      ≡ ok plaintext
opens_at {c} {s} {s'} {plaintext} room key salt counter f fits e e' e'' =
    cc (f.opens room fits, header_bytes_of_eq (view_of s f.body).header, ap₂ make_nonce e' e'')

-- An opener that has moved to the next key, with one frame opened under it.
abbrev advanced : FrameOpener → List ℕ → FrameOpener
advanced o next = record o {
  key = next;
  next_key = wiped_key;
  counter = add64 0 1;
  epoch = (o.epoch + 1) % 256;
  next_ready = false;
  next_counter = 0;
}

prepared :
    (c : Sodium) (o : FrameOpener)
    → o.next_ready ≡ false
    → o.epoch + 1 < 256
    → prepare_next c o ≡ record o {
      next_key = derive_subkey c o.key (o.epoch + 1) rekey_context;
      next_counter = 0;
      next_ready = true;
    }
unfolding prepare_next
prepared c o h k = ground arith

Follows-subst :
    {c : Sodium} {s s' : FrameSealer} {o o' : FrameOpener}
    → s' ≡ s
    → o' ≡ o
    → Follows c s o
    → Follows c s' o'
Follows-subst {c} {s} {s'} {o} {o'} p q v =
    subst (λ x. Follows c x o') (sym p) (subst (Follows c s) (sym q) v)

pub open-Sealed :
    {c : Sodium} {s s' : FrameSealer} {o : FrameOpener} {plaintext frame : List ℕ} (room : ℕ)
    → (f : Sealed c s plaintext s' frame) → Follows c s o
    → length plaintext ≤ room
    → let (o', r) = open_frame c o room (view_of s f.body) in
      (r ≡ ok plaintext) × Follows c s' o' × (s'.epoch ≡ o'.epoch)
unfolding open_frame
open-Sealed {c} {s} {s'} {o} {plaintext} {frame} room f v fits = elim v.keys [
  | inl (e, k, n) ↦
      let opened = opens_at room o.key o.salt o.counter f fits k v.salt n in
      let result : open_frame c o room (view_of s f.body)
          ≡ (record o { counter = add64 o.counter 1 }, ok plaintext) =
        ground (arith, opened) in
      (
        ap (λ r. r.1) result,
        Follows-subst f.state (ap (λ r. r.0) result) (record {
          salt = v.salt;
          salted = v.salted;
          limit = v.limit;
          limit_width = v.limit_width;
          epoch_width = v.epoch_width;
          not_ready = v.not_ready;
          keys = inl (e, k, ap (λ x. add64 x 1) n);
        }),
        ap (λ x. x.epoch) f.state ∙ e ∙ ap (λ r. r.0.epoch) (sym result),
      )
  | inr (e, k, n) ↦
      let next = derive_subkey c o.key (o.epoch + 1) rekey_context in
      let ready = prepared c o v.not_ready (omega arith) in
      let opened = opens_at room next o.salt 0 f fits k v.salt n in
      let result : open_frame c o room (view_of s f.body) ≡ (advanced o next, ok plaintext) =
        ground (arith, opened, ready) in
      (
        ap (λ r. r.1) result,
        Follows-subst f.state (ap (λ r. r.0) result) (record {
          salt = v.salt;
          salted = v.salted;
          limit = v.limit;
          limit_width = v.limit_width;
          epoch_width = v.epoch_width;
          not_ready = refl;
          keys = inl (omega arith, k, ap (λ x. add64 x 1) n);
        }),
        ap (λ x. x.epoch) f.state ∙ omega arith ∙ ap (λ r. r.0.epoch) (sym result),
      )
]

pub rekey-Follows :
    {c : Sodium} {s s' : FrameSealer} {o : FrameOpener}
    → Follows c s o
    → s.epoch ≡ o.epoch
    → rekey c s ≡ (s', ok tt)
    → Follows c s' o
unfolding rekey
rekey-Follows {c} {s} {s'} {o} v same h = elim v.keys [
  | inl (e, k, n) ↦
      let open_epochs : s.epoch ≢ 0xff = ground arith in
      let renewed : rekey c s ≡ (
        record s {
          key = derive_subkey c s.key (s.epoch + 1) rekey_context;
          epoch = s.epoch + 1;
          counter = 0;
          bytes_sealed = 0;
        },
        ok tt,
      ) =
        ground arith in
      Follows-subst (ap (λ r. r.0) (sym h ∙ renewed)) refl (record {
        salt = v.salt;
        salted = v.salted;
        limit = v.limit;
        limit_width = v.limit_width;
        epoch_width = omega arith;
        not_ready = v.not_ready;
        keys = inr (omega arith, ap₂ (λ x y. derive_subkey c x (y + 1) rekey_context) k e, refl);
      })
  | inr (e, k, n) ↦ absurd (omega arith)
]

-- A sealer with a counter to spare seals what fits.
pub seal_succeeds :
    {c : Sodium} (s : FrameSealer) (room : ℕ) (plaintext : List ℕ)
    → IsSodium c
    → length s.salt ≡ salt_size
    → s.counter < s.frame_limit
    → s.frame_limit < u64_mod
    → length plaintext + tag_size ≤ max_frame
    → header_size + (length plaintext + tag_size) ≤ room
    → (s' : FrameSealer) × (frame : List ℕ) × (seal c s room plaintext ≡ (s', ok frame))
      × (s'.counter ≡ s.counter + 1)
      × (s'.frame_limit ≡ s.frame_limit)
      × (s'.bytes_sealed ≡ add64 s.bytes_sealed (length plaintext))
      × (s'.byte_limit ≡ s.byte_limit)
unfolding seal
seal_succeeds {c} s room plaintext law salt below width fits enough =
    let header : FrameHeader = record {
      size = (length plaintext + tag_size) % u32_mod;
      epoch = s.epoch;
    } in
    let (body, e, len, opens) =
      aead_round_trip (room - header_size) plaintext (header_bytes_of header)
        (make_nonce s.salt s.counter) s.key law (length-make_nonce s.salt s.counter salt)
        (omega arith) in
    (
      record s {
        counter = add64 s.counter 1;
        bytes_sealed = add64 s.bytes_sealed (length plaintext);
      },
      header_bytes_of header ++ body,
      ground (arith, e),
      omega arith,
      refl,
      refl,
      refl,
    )

-- A frame is never empty.
pub length-Sealed :
    {c : Sodium} {s s' : FrameSealer} {plaintext frame : List ℕ}
    → Sealed c s plaintext s' frame
    → 0 < length frame
length-Sealed {c} {s} f = omega (
  arith,
  ap length f.framed,
  f.body_size,
  length-append (header_bytes (record { size = length f.body; epoch = s.epoch })) f.body,
)
