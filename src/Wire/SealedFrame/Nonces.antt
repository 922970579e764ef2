-- ===== src/Wire/SealedFrame/Nonces.antt =====
-- Which nonces a sealer gives to the encryption under which of its keys.
use zet.Prelude.{
  ℕ, zero, suc, ◌+◌, ◌-◌, ◌≤◌, ◌<◌, ◌≡◌, ◌≢◌, refl, sym, ap, ◌∙◌, ◌⊎◌, inl, inr, List, [], ◌∷◌,
  ◌++◌, ok, err, arith, length, u64_mod, if_cases, ltb, leb, ◌==◌, drop, drop-append, subst,
}
use zet.Core.Error.{ProtoResult}
use zet.Core.Reader.{decode_be}
use zet.Core.Reader.Laws.{decode-encode_8}
use zet.Core.Writer.{encode_be}
use zet.Crypto.{Sodium, aead_seal, derive_subkey}
use zet.Wire.Limits.{max_frame, header_size, tag_size}
use zet.Wire.SealedFrame.{FrameSealer, rekey_context, make_nonce, seal, seal_with, rekey}

pub data SealCall : Type 0 where
  seals : ℕ → List ℕ → SealCall
  rekeys : SealCall

-- What a sealed frame was made of: the generation of the key, the counter in it and the nonce, the
-- plaintext and the frame that came of it.
pub record Use : Type 0 where
  pub generation : ℕ
  pub counter : ℕ
  pub nonce : List ℕ
  pub plaintext : List ℕ
  pub frame : List ℕ

abbrev pub use_of : FrameSealer → List ℕ → List ℕ → Use
use_of s plaintext frame = record {
  generation = s.epoch;
  counter = s.counter;
  nonce = make_nonce s.salt s.counter;
  plaintext = plaintext;
  frame = frame;
}

abbrev also : FrameSealer → List ℕ → FrameSealer × ProtoResult (List ℕ) → List Use → List Use
also s plaintext (s', ok frame) us = use_of s plaintext frame ∷ us
also s plaintext (s', err e) us = us

-- The frames that were sealed, in order.
pub uses : Sodium → FrameSealer → List SealCall → List Use
uses c s [] = []
uses c s (seals room plaintext ∷ cs) =
    also s plaintext (seal c s room plaintext) (uses c (seal c s room plaintext).0 cs)
uses c s (rekeys ∷ cs) = uses c (rekey c s).0 cs

-- The key of the `n`-th generation after the one with `key`, which is generation `epoch`.
unfoldable pub key_after : Sodium → List ℕ → ℕ → ℕ → List ℕ
key_after c key epoch zero = key
key_after c key epoch (suc n) =
    derive_subkey c (key_after c key epoch n) (epoch + n + 1) rekey_context

-- A use of one generation after, or of the same one with a later counter and another nonce.
abbrev pub Later : Use → Use → Type 0
Later a b =
    (a.generation < b.generation)
    ⊎ ((a.generation ≡ b.generation) × (a.counter < b.counter) × (a.nonce ≢ b.nonce))

abbrev pub AllLater : Use → List Use → Type 0
AllLater u [] = Unit {0}
AllLater u (v ∷ vs) = Later u v × AllLater u vs

abbrev pub Ascends : List Use → Type 0
Ascends [] = Unit {0}
Ascends (u ∷ us) = AllLater u us × Ascends us

-- The frame of a use is some header and what the encryption makes of the plaintext with the use's
-- nonce and the key of its generation, where `key` is the key of generation `epoch`.
abbrev pub IsEncrypted : Sodium → List ℕ → ℕ → Use → Type 0
IsEncrypted c key epoch u =
    (room : ℕ) × (header : List ℕ) × (body : List ℕ) × (u.frame ≡ header ++ body)
    × (epoch ≤ u.generation)
    × (aead_seal c room u.plaintext header (key_after c key epoch (u.generation - epoch)) u.nonce
        ≡ ok body)

abbrev pub AllEncrypted : Sodium → List ℕ → ℕ → List Use → Type 0
AllEncrypted c key epoch [] = Unit {0}
AllEncrypted c key epoch (u ∷ us) = IsEncrypted c key epoch u × AllEncrypted c key epoch us

-- Two counters that fit the nonce's 64 bits make two nonces.
make_nonce_inj :
    (salt : List ℕ) (a b : ℕ)
    → a < u64_mod
    → b < u64_mod
    → make_nonce salt a ≡ make_nonce salt b
    → a ≡ b
unfolding make_nonce
make_nonce_inj salt a b ha hb e =
    sym (decode-encode_8 a ha)
    ∙ ap (decode_be 8) (
        sym (drop-append salt (encode_be 8 a))
        ∙ ap (drop (length salt)) e
        ∙ drop-append salt (encode_be 8 b))
    ∙ decode-encode_8 b hb

-- `s` stands past the use `u`.
record Past (u : Use) (s : FrameSealer) : Type 0 where
  nonce : u.nonce ≡ make_nonce s.salt u.counter
  width : u.counter < u64_mod
  past : (u.generation < s.epoch) ⊎ ((u.generation ≡ s.epoch) × (u.counter < s.counter))

pub record Counts (s : FrameSealer) : Type 0 where
  pub counted : s.counter ≤ s.frame_limit
  pub limit_width : s.frame_limit < u64_mod

-- What a sealer keeps of the key and the generation that it started with.
record Holds (c : Sodium) (key : List ℕ) (epoch : ℕ) (s : FrameSealer) : Type 0 where
  started : epoch ≤ s.epoch
  keyed : s.key ≡ key_after c key epoch (s.epoch - epoch)

-- What a call of `Seal` leaves: nothing used and nothing changed, or the counter used and counted,
-- and a frame of what the encryption made with the sealer's key.
abbrev Steps : Sodium → FrameSealer → List ℕ → FrameSealer × ProtoResult (List ℕ) → Type 0
Steps c s plaintext (s', err e) = s' ≡ s
Steps c s plaintext (s', ok frame) =
    (s.counter < s.frame_limit)
    × (s' ≡ record s { counter = s.counter + 1; bytes_sealed = s'.bytes_sealed })
    × ((room : ℕ) × (header : List ℕ) × (body : List ℕ) × (frame ≡ header ++ body)
        × (aead_seal c room plaintext header s.key (make_nonce s.salt s.counter) ≡ ok body))

seal_with-Steps :
    (c : Sodium) (s : FrameSealer) (room : ℕ) (header plaintext : List ℕ) (r : ProtoResult (List ℕ))
    → s.counter < s.frame_limit
    → Counts s
    → aead_seal c room plaintext header s.key (make_nonce s.salt s.counter) ≡ r
    → Steps c s plaintext (seal_with s header plaintext r)
seal_with-Steps c s room header plaintext (ok body) h v e =
    (h, ground (arith, v.counted, v.limit_width), (room, header, body, refl, e))
seal_with-Steps c s room header plaintext (err x) h v e = refl

seal-Steps :
    (c : Sodium) (s : FrameSealer) (room : ℕ) (plaintext : List ℕ)
    → Counts s
    → Steps c s plaintext (seal c s room plaintext)
unfolding seal
seal-Steps c s room plaintext v =
    if_cases (Steps c s plaintext) (leb s.frame_limit s.counter) _ _ (λ e. refl)
      (λ e.
        if_cases (Steps c s plaintext) (ltb max_frame (length plaintext + tag_size)) _ _
          (λ e'. refl)
          (λ e'.
            if_cases (Steps c s plaintext) (ltb room (header_size + (length plaintext + tag_size)))
              _ _ (λ e''. refl)
              (λ e''.
                seal_with-Steps c s (room - header_size) _ plaintext _ (ground (arith, e)) v refl)))

rekey-Counts : (c : Sodium) (s : FrameSealer) → Counts s → Counts (rekey c s).0
unfolding rekey
rekey-Counts c s v = ground arith

rekey-Past : (c : Sodium) (s : FrameSealer) (u : Use) → Past u s → Past u (rekey c s).0
unfolding rekey
rekey-Past c s u h =
    if_cases {A = FrameSealer × ProtoResult (Unit {0})} (λ x. Past u x.0) (s.epoch == 0xff) _ _
      (λ _. h) (λ _. record { nonce = h.nonce; width = h.width; past = ground (arith, h.past) })

rekey-Holds :
    (c : Sodium) (key : List ℕ) (epoch : ℕ) (s : FrameSealer)
    → Holds c key epoch s
    → Holds c key epoch (rekey c s).0
unfolding rekey key_after
rekey-Holds c key epoch s h =
    if_cases {A = FrameSealer × ProtoResult (Unit {0})} (λ x. Holds c key epoch x.0)
      (s.epoch == 0xff) _ _ (λ _. h)
      (λ _. record {
        started = omega (arith, h.started);
        keyed =
            ap (λ k. derive_subkey c k (s.epoch + 1) rekey_context) h.keyed
            ∙ ap
                (λ n.
                  derive_subkey c (key_after c key epoch (s.epoch - epoch)) (n + 1) rekey_context)
                {y = epoch + (s.epoch - epoch)} (omega (arith, h.started))
            ∙ ap (key_after c key epoch) {x = suc (s.epoch - epoch)} (omega (arith, h.started));
      })

-- A call of `Seal` and the frames after it: either it used nothing and changed nothing, or its
-- use comes first.
module _ (c : Sodium) (key : List ℕ) (epoch : ℕ) where
  sealed-Past :
      (s : FrameSealer) (u : Use) (plaintext : List ℕ) (x : FrameSealer × ProtoResult (List ℕ))
      → Steps c s plaintext x
      → Past u s
      → Past u x.0
  sealed-Past s u plaintext (s', err e) h p = subst (Past u) (sym h) p
  sealed-Past s u plaintext (s', ok frame) (below, same, made) p =
      subst (Past u) (sym same)
        (record { nonce = p.nonce; width = p.width; past = ground (arith, p.past) })

  sealed-Counts :
      (s : FrameSealer) (plaintext : List ℕ) (x : FrameSealer × ProtoResult (List ℕ))
      → Steps c s plaintext x
      → Counts s
      → Counts x.0
  sealed-Counts s plaintext (s', err e) h v = subst Counts (sym h) v
  sealed-Counts s plaintext (s', ok frame) (below, same, made) v =
      subst Counts (sym same) (record { counted = omega arith; limit_width = v.limit_width })

  sealed-Holds :
      (s : FrameSealer) (plaintext : List ℕ) (x : FrameSealer × ProtoResult (List ℕ))
      → Steps c s plaintext x
      → Holds c key epoch s
      → Holds c key epoch x.0
  sealed-Holds s plaintext (s', err e) h p = subst (Holds c key epoch) (sym h) p
  sealed-Holds s plaintext (s', ok frame) (below, same, made) p =
      subst (Holds c key epoch) (sym same) (record { started = p.started; keyed = p.keyed })

  also-AllLater :
      (s : FrameSealer) (u : Use) (plaintext : List ℕ) (x : FrameSealer × ProtoResult (List ℕ))
      (us : List Use)
      → Steps c s plaintext x
      → Counts s
      → Past u s
      → AllLater u us
      → AllLater u (also s plaintext x us)
  also-AllLater s u plaintext (s', err e) us h v p l = l
  also-AllLater s u plaintext (s', ok frame) us (below, same, made) v p l = (later p.past, l)
    where
      later :
          (u.generation < s.epoch) ⊎ ((u.generation ≡ s.epoch) × (u.counter < s.counter))
          → Later u (use_of s plaintext frame)
      later (inl q) = inl q
      later (inr (e, q)) = inr (
        e,
        q,
        λ d. absurd (
            omega (
              arith,
              q,
              make_nonce_inj s.salt u.counter s.counter p.width
                  (omega (arith, below, v.limit_width)) (sym p.nonce ∙ d),
            )),
      )

  uses-AllLater :
      (s : FrameSealer) (cs : List SealCall) (u : Use)
      → Counts s
      → Past u s
      → AllLater u (uses c s cs)
  unfolding uses
  uses-AllLater s [] u v h = tt
  uses-AllLater s (seals room plaintext ∷ cs) u v h =
      let step = seal-Steps c s room plaintext v in
      let x = seal c s room plaintext in
      also-AllLater s u plaintext x (uses c x.0 cs) step v h (
        uses-AllLater (seal c s room plaintext).0 cs u (sealed-Counts s plaintext x step v)
          (sealed-Past s u plaintext x step h))
  uses-AllLater s (rekeys ∷ cs) u v h =
      uses-AllLater (rekey c s).0 cs u (rekey-Counts c s v) (rekey-Past c s u h)

  also-Ascends :
      (s : FrameSealer) (plaintext : List ℕ) (cs : List SealCall)
      (x : FrameSealer × ProtoResult (List ℕ))
      → Steps c s plaintext x
      → Counts s
      → Ascends (uses c x.0 cs)
      → Ascends (also s plaintext x (uses c x.0 cs))
  also-Ascends s plaintext cs (s', err e) h v l = l
  also-Ascends s plaintext cs (s', ok frame) h v l =
      let (below, same, made) = h in
      (
        uses-AllLater s' cs (use_of s plaintext frame)
            (sealed-Counts s plaintext (s', ok frame) h v)
            (subst (Past (use_of s plaintext frame)) (sym same) (record {
              nonce = refl;
              width = omega (arith, below, v.limit_width);
              past = inr (refl, omega arith);
            })),
        l,
      )

  uses-Ascending : (s : FrameSealer) (cs : List SealCall) → Counts s → Ascends (uses c s cs)
  unfolding uses
  uses-Ascending s [] v = tt
  uses-Ascending s (seals room plaintext ∷ cs) v =
      let step = seal-Steps c s room plaintext v in
      let x = seal c s room plaintext in
      also-Ascends s plaintext cs x step v
        (uses-Ascending (seal c s room plaintext).0 cs (sealed-Counts s plaintext x step v))
  uses-Ascending s (rekeys ∷ cs) v = uses-Ascending (rekey c s).0 cs (rekey-Counts c s v)

  also-AllEncrypted :
      (s : FrameSealer) (plaintext : List ℕ) (x : FrameSealer × ProtoResult (List ℕ))
      (us : List Use)
      → Steps c s plaintext x
      → Holds c key epoch s
      → AllEncrypted c key epoch us
      → AllEncrypted c key epoch (also s plaintext x us)
  also-AllEncrypted s plaintext (s', err e) us h p l = l
  also-AllEncrypted s plaintext (s', ok frame) us (below, same, made) p l =
      let (room, header, body, framed, sealed) = made in
      (
        (
          room,
          header,
          body,
          framed,
          p.started,
          ap (λ k. aead_seal c room plaintext header k (make_nonce s.salt s.counter)) (sym p.keyed)
              ∙ sealed,
        ),
        l,
      )

  uses-AllEncrypted :
      (s : FrameSealer) (cs : List SealCall)
      → Counts s
      → Holds c key epoch s
      → AllEncrypted c key epoch (uses c s cs)
  unfolding uses
  uses-AllEncrypted s [] v h = tt
  uses-AllEncrypted s (seals room plaintext ∷ cs) v h =
      let step = seal-Steps c s room plaintext v in
      let x = seal c s room plaintext in
      also-AllEncrypted s plaintext x (uses c x.0 cs) step h (
        uses-AllEncrypted (seal c s room plaintext).0 cs (sealed-Counts s plaintext x step v)
          (sealed-Holds s plaintext x step h))
  uses-AllEncrypted s (rekeys ∷ cs) v h =
      uses-AllEncrypted (rekey c s).0 cs (rekey-Counts c s v) (rekey-Holds c key epoch s h)

-- Whatever a sealer is asked to seal, and whenever it takes its next key, each frame is a header
-- and what the encryption makes of the plaintext under the key of the frame's generation, which is
-- derived from the key of the generation before, with the frame's nonce; and generations and
-- counters ascend strictly, with another nonce for each frame of one generation, so that no nonce
-- comes twice under one generation's key. The sealer's counter starts within its limit, which is
-- below 2^64.
pub uses-Ascends :
    (c : Sodium) (s : FrameSealer) (cs : List SealCall)
    → Counts s
    → Ascends (uses c s cs) × AllEncrypted c s.key s.epoch (uses c s cs)
unfolding key_after
uses-Ascends c s cs v = (
  uses-Ascending c s.key s.epoch s cs v,
  uses-AllEncrypted c s.key s.epoch s cs v (record {
    started = omega arith;
    keyed = ap (key_after c s.key s.epoch) {x = zero} (omega arith);
  }),
)
