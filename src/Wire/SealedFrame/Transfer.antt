-- ===== src/Wire/SealedFrame/Transfer.antt =====
-- A direction of a connection: what one end seals, with a new key now and then, and the other opens.
use zet.Prelude.{
  ℕ, ◌≤◌, ◌<◌, ◌≡◌, refl, sym, ap, ◌⊎◌, true, false, ◌∙◌, Bool, List, [], ◌∷◌, ◌++◌, append-nil,
  map, ok, err, ◌>>=◌, arith, length, if◌then◌else◌, inl, inr, Bool-cases, Expected-cases,
}
use zet.Core.Error.{ProtoResult}
use zet.Crypto.{Sodium, IsSodium}
use zet.Wire.Limits.{max_frame}
use zet.Wire.Frame.{read_frame}
use zet.Wire.Frame.Laws.{read_written, header_bytes}
use zet.Wire.SealedFrame.{FrameSealer, FrameOpener, seal, rekey, open_frame}
use zet.Wire.SealedFrame.Laws.{Sealed, Follows, seal-Sealed, open-Sealed, rekey-Follows, view_of}

-- A plaintext to seal, and whether the sealer takes its next key before it.
pub record Turn : Type 0 where
  pub renews : Bool
  pub plaintext : List ℕ

abbrev seal_after :
    Sodium → ℕ → List ℕ → FrameSealer × ProtoResult (Unit {0}) → FrameSealer × ProtoResult (List ℕ)
seal_after c room plaintext (s, ok tt) = seal c s room plaintext
seal_after c room plaintext (s, err e) = (s, err e)

abbrev pub take_turn : Sodium → ℕ → FrameSealer → Turn → FrameSealer × ProtoResult (List ℕ)
take_turn c room s t =
    if t.renews then seal_after c room t.plaintext (rekey c s) else seal c s room t.plaintext

abbrev send_rest :
    (FrameSealer → ProtoResult (List (List ℕ)))
    → FrameSealer × ProtoResult (List ℕ)
    → ProtoResult (List (List ℕ))
send_rest k (s, ok frame) = k s >>= λ frames. ok (frame ∷ frames)
send_rest k (s, err e) = err e

-- The frames of all turns, if every one could be sealed.
unfoldable pub send : Sodium → ℕ → FrameSealer → List Turn → ProtoResult (List (List ℕ))
send c room s [] = ok []
send c room s (t ∷ ts) = send_rest (λ s'. send c room s' ts) (take_turn c room s t)

abbrev receive_rest :
    (FrameOpener → ProtoResult (List (List ℕ)))
    → FrameOpener × ProtoResult (List ℕ)
    → ProtoResult (List (List ℕ))
receive_rest k (o, ok plaintext) = k o >>= λ rest. ok (plaintext ∷ rest)
receive_rest k (o, err e) = err e

-- The plaintexts of frames that arrive as bytes, if every one could be read and opened.
pub receive : Sodium → ℕ → FrameOpener → List (List ℕ) → ProtoResult (List (List ℕ))
receive c room o [] = ok []
receive c room o (frame ∷ frames) = read_frame frame max_frame >>= λ view.
    receive_rest (λ o'. receive c room o' frames) (open_frame c o room view)

-- What a chain that ended well has gone through.
seal_after-ok :
    (c : Sodium) (room : ℕ) (plaintext : List ℕ) (x : FrameSealer × ProtoResult (Unit {0}))
    {s' : FrameSealer} {frame : List ℕ}
    → seal_after c room plaintext x ≡ (s', ok frame)
    → (s0 : FrameSealer) × (x ≡ (s0, ok tt)) × (seal c s0 room plaintext ≡ (s', ok frame))
seal_after-ok c room plaintext (s0, ok tt) h = (s0, refl, h)
seal_after-ok c room plaintext (s0, err e) h = absurd (cc (ap (λ r. r.1) h))

send_rest-ok :
    (k : FrameSealer → ProtoResult (List (List ℕ))) (x : FrameSealer × ProtoResult (List ℕ))
    {frames : List (List ℕ)}
    → send_rest k x ≡ ok frames
    → (s' : FrameSealer) × (frame : List ℕ) × (rest : List (List ℕ)) × (x ≡ (s', ok frame))
      × (k s' ≡ ok rest)
      × (frames ≡ frame ∷ rest)
send_rest-ok k (s', ok frame) {frames} h = elim (Expected-cases (k s')) [
  | inl (rest, e) ↦ (s', frame, rest, refl, e, cc (h, ap (λ r. r >>= λ fs. ok (frame ∷ fs)) e))
  | inr (x, e) ↦ absurd (cc (h, ap (λ r. r >>= λ fs. ok (frame ∷ fs)) e))
]
send_rest-ok k (s', err e) h = absurd (cc h)

turn-Follows :
    {c : Sodium} {s s' : FrameSealer} {o : FrameOpener} {frame : List ℕ} (room : ℕ) (t : Turn)
    → IsSodium c
    → Follows c s o
    → (s.epoch ≡ o.epoch) ⊎ (t.renews ≡ false)
    → take_turn c room s t ≡ (s', ok frame)
    → (s0 : FrameSealer) × Follows c s0 o × Sealed c s0 t.plaintext s' frame
turn-Follows {c} {s} {s'} {o} {frame} room t law v same h = elim (Bool-cases t.renews) [
  | inl e ↦
      let (s0, renewed, sealed) = seal_after-ok c room t.plaintext (rekey c s) (
        sym (
          ap
            (λ b.
              if b then seal_after c room t.plaintext (rekey c s) else seal c s room t.plaintext)
            e)
        ∙ h) in
      let v0 = rekey-Follows v (epoch_of same e) renewed in
      (s0, v0, seal-Sealed room t.plaintext law v0.salted sealed)
  | inr e ↦ (
    s,
    v,
    seal-Sealed room t.plaintext law v.salted (
        sym (
          ap
            (λ b.
              if b then seal_after c room t.plaintext (rekey c s) else seal c s room t.plaintext)
            e)
        ∙ h),
  )
]
  where
    epoch_of : (s.epoch ≡ o.epoch) ⊎ (t.renews ≡ false) → t.renews ≡ true → s.epoch ≡ o.epoch
    epoch_of (inl same') e = same'
    epoch_of (inr stays) e = absurd (cc (stays, e))

pub read-Sealed :
    {c : Sodium} {s s' : FrameSealer} {plaintext frame : List ℕ}
    → (f : Sealed c s plaintext s' frame) → s.epoch < 256
    → read_frame frame max_frame ≡ ok (view_of s f.body)
read-Sealed {c} {s} {s'} {plaintext} {frame} f h =
    ap (λ xs. read_frame xs max_frame)
      (f.framed
        ∙ ap (◌++◌ (header_bytes (record { size = length f.body; epoch = s.epoch })))
            (sym (append-nil f.body)))
    ∙ read_written s.epoch max_frame f.body [] h (omega arith) (omega (arith, f.body_size))
        (omega (arith, f.body_size, f.fits))

abbrev pub AllFit : ℕ → List Turn → Type 0
AllFit room [] = Unit {0}
AllFit room (t ∷ ts) = (length t.plaintext ≤ room) × AllFit room ts

-- The first turn takes a next key only where the opener is in the sealer's generation: it can be one
-- generation behind, but not two.
abbrev pub KeepsUp : FrameSealer → FrameOpener → List Turn → Type 0
KeepsUp s o [] = Unit {0}
KeepsUp s o (t ∷ ts) = (s.epoch ≡ o.epoch) ⊎ (t.renews ≡ false)

pub same-KeepsUp :
    (s : FrameSealer) (o : FrameOpener) (ts : List Turn) → s.epoch ≡ o.epoch → KeepsUp s o ts
same-KeepsUp s o [] same = tt
same-KeepsUp s o (t ∷ ts) same = inl same

none_sent :
    (c : Sodium) (room : ℕ) (o : FrameOpener) (frames : List (List ℕ))
    → ◌≡◌ {A = ProtoResult (List (List ℕ))} (ok []) (ok frames)
    → receive c room o frames ≡ ok []
unfolding receive
none_sent c room o [] h = refl
none_sent c room o (f ∷ fs) h = absurd (cc h)

-- What one end seals, with the next key taken before any of the frames, the other end reads and
-- opens in the same order, when every frame could be sealed. The opener starts at the sealer's key
-- and counter, or one generation behind a sealer that has sealed nothing in its own and does not
-- take yet another key before its first frame; the encryption does what its documentation says;
-- and the opener's buffer holds every plaintext.
pub receive-send :
    (c : Sodium) (room room' : ℕ) (ts : List Turn) {s : FrameSealer} {o : FrameOpener}
    {frames : List (List ℕ)}
    → IsSodium c
    → Follows c s o
    → KeepsUp s o ts
    → AllFit room' ts
    → send c room s ts ≡ ok frames
    → receive c room' o frames ≡ ok (map (λ t. t.plaintext) ts)
unfolding send receive
receive-send c room room' [] {s} {o} {frames} law v same fit h = none_sent c room' o frames h
receive-send c room room' (t ∷ ts) {s} {o} {frames} law v same fit h =
    let (s', frame, rest, turned, sent, all) =
      send_rest-ok (λ s'. send c room s' ts) (take_turn c room s t) h in
    let (s0, v0, f) = turn-Follows room t law v same turned in
    let (opened, v', same') = open-Sealed room' f v0 fit.0 in
    let o' = (open_frame c o room' (view_of s0 f.body)).0 in
    let ih =
      receive-send c room room' ts {s = s'} {o = o'} {frames = rest} law v'
        (same-KeepsUp s' o' ts same') fit.1 sent in
    ap (receive c room' o) all
    ∙ ap
        (λ x.
          x >>= λ view. receive_rest (λ o'. receive c room' o' rest) (open_frame c o room' view))
        (read-Sealed f v0.epoch_width)
    ∙ ap
        (λ x.
          receive_rest (λ o'. receive c room' o' rest)
            ((open_frame c o room' (view_of s0 f.body)).0, x))
        opened
    ∙ ap (λ x. x >>= (λ ps. ok (t.plaintext ∷ ps))) ih
