-- ===== src/Wire/FrameStream/Laws.antt =====
-- The bytes that a frame stream of src/wire/frame_stream.cpp holds.
use zet.Prelude.{
  ℕ, ◌+◌, ◌-◌, ◌≤◌, ◌<◌, ◌≡◌, ap, ◌∙◌, ◌⊎◌, inl, inr, List, ◌++◌, ok, err, arith, length, take,
  drop, overwrite, length-overwrite, length-take, length-drop, dec_lt,
}
use zet.Core.Error.{length_limit_exceeded}
use zet.Core.Writer.Laws.{take-overwrite}
use zet.Wire.FrameStream.{FrameStream, init, drop_pending, append, append_to, stream_room, buffered}

pub record IsValid (s : FrameStream) : Type 0 where
  pub consumed : s.pending ≤ s.size
  pub filled : s.size ≤ s.capacity
  pub within : s.capacity ≤ length s.storage

-- The bytes that are held and not yet taken.
abbrev pub contents : FrameStream → List ℕ
contents s = take (s.size - s.pending) (drop s.pending s.storage)

pub init-IsValid : (storage : List ℕ) (limit : ℕ) → IsValid (init storage limit)
unfolding init
init-IsValid storage limit = omega arith

front :
    (xs bytes : List ℕ)
    → length bytes ≤ length xs
    → take (length bytes) (overwrite xs 0 bytes) ≡ bytes
front xs bytes h =
    ap (λ k. take k (overwrite xs 0 bytes)) {y = 0 + length bytes} (omega arith)
    ∙ take-overwrite xs 0 bytes (omega arith)

drop_pending_lem :
    (s : FrameStream)
    → IsValid s
    → let s' = drop_pending s in
      IsValid s'
      × (s'.pending ≡ 0)
      × (s'.size ≡ s.size - s.pending)
      × (s'.capacity ≡ s.capacity)
      × (take s'.size s'.storage ≡ contents s)
unfolding drop_pending
drop_pending_lem s v =
    let held = take (s.size - s.pending) (drop s.pending s.storage) in
    let size : length held ≡ s.size - s.pending = omega (
      arith,
      length-take (s.size - s.pending) (drop s.pending s.storage),
      length-drop s.pending s.storage,
    ) in
    elim (dec_lt 0 s.pending) [
      | yes p ↦ (
        ground (arith, length-overwrite s.storage 0 held),
        ground arith,
        ground arith,
        ground arith,
        ground (
          arith,
          front s.storage held (omega (arith, size)),
          size,
          ap (λ n. take n (overwrite s.storage 0 held)) size,
        ),
      )
      | no p ↦
          let e : s.pending ≡ 0 = omega arith in
          (
            ground arith,
            ground arith,
            ground arith,
            ground arith,
            ground (arith, e, ap (λ n. take (s.size - n) (drop n s.storage)) e),
          )
    ]

-- In a valid stream, a chunk that fits what is free stands behind what was held; one that does not
-- is refused, and what was held is still held. Either way the stream stays valid.
pub append-contents :
    (s : FrameStream) (chunk : List ℕ)
    → IsValid s
    → let (s', r) = append s chunk in
      IsValid s'
      × (((length chunk ≤ stream_room s) × (r ≡ ok tt) × (contents s' ≡ contents s ++ chunk))
          ⊎ ((stream_room s < length chunk)
              × (r ≡ err length_limit_exceeded)
              × (contents s' ≡ contents s)))
unfolding append append_to stream_room buffered
append-contents s chunk v =
    let d = drop_pending s in
    let (v', none_pending, size, capacity, held) = drop_pending_lem s v in
    let whole : (xs : List ℕ) (n : ℕ) → take (n - d.pending) (drop d.pending xs) ≡ take n xs =
      λ xs n.
        ap (λ k. take (n - k) (drop k xs)) none_pending
        ∙ ap (λ k. take k xs) {x = n - 0} {y = n} (omega arith) in
    elim (dec_lt (d.capacity - d.size) (length chunk)) [
      | yes p ↦ (
        ground arith,
        inr (omega arith, ground arith, ground (arith, whole d.storage d.size, held)),
      )
      | no p ↦ (
        ground (arith, length-overwrite d.storage d.size chunk),
        inl (
          omega arith,
          ground arith,
          ground (
            arith,
            whole (overwrite d.storage d.size chunk) (d.size + length chunk),
            take-overwrite d.storage d.size chunk (omega arith),
            held,
          ),
        ),
      )
    ]
