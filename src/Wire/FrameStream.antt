-- ===== src/Wire/FrameStream.antt =====
-- src/wire/frame_stream.cpp: frames out of the chunks that a socket gives.
pub mod Laws
use zet.Prelude.{
  ℕ, ◌+◌, ◌-◌, ◌%◌, min, max, Bool, true, false, List, Option, none, some, ok, err, Expected,
  if◌then◌else◌, ltb, ◌==◌, length, take, drop, overwrite, u32_mod,
}
use zet.Core.Error.{EProtoError, ProtoResult, truncated, length_limit_exceeded}
use zet.Wire.Limits.{header_size}
use zet.Wire.Frame.{FrameView, read_frame}

-- `storage` is the borrowed span itself.
pub record FrameStream : Type 0 where
  pub storage : List ℕ
  pub capacity : ℕ
  pub size : ℕ
  pub pending : ℕ
  pub max_body_length : ℕ

unfoldable pub apply_limit : FrameStream → ℕ → FrameStream
apply_limit s max_body_length =
    let capacity = min (length s.storage) (header_size + max_body_length) in
    record s {
      capacity = capacity;
      max_body_length = (capacity - min capacity header_size) % u32_mod;
    }

unfoldable pub init : List ℕ → ℕ → FrameStream
unfolding apply_limit
init storage max_body_length =
    apply_limit
      (record { storage = storage; capacity = 0; size = 0; pending = 0; max_body_length = 0 })
      max_body_length

unfoldable pub raise_limit : FrameStream → ℕ → FrameStream
unfolding apply_limit
raise_limit s max_body_length = apply_limit s (max max_body_length s.max_body_length)

unfoldable pub drop_pending : FrameStream → FrameStream
drop_pending s = if s.pending == 0 then s else record s {
  storage = overwrite s.storage 0 (take (s.size - s.pending) (drop s.pending s.storage));
  size = s.size - s.pending;
  pending = 0;
}

unfoldable pub append_to : FrameStream → List ℕ → FrameStream × ProtoResult (Unit {0})
append_to s chunk =
    if ltb (s.capacity - s.size) (length chunk) then (s, err length_limit_exceeded) else (
      record s { storage = overwrite s.storage s.size chunk; size = s.size + length chunk },
      ok tt,
    )

unfoldable pub append : FrameStream → List ℕ → FrameStream × ProtoResult (Unit {0})
unfolding drop_pending append_to
append s chunk = append_to (drop_pending s) chunk

-- What `Next` makes of what `ReadFrame` says: a frame cut short is no frame yet.
abbrev pub next_after :
    FrameStream → ProtoResult FrameView → FrameStream × ProtoResult (Option FrameView)
next_after s (err truncated) = (s, ok none)
next_after s (err e) = (s, err e)
next_after s (ok frame) = (record s { pending = frame.consumed }, ok (some frame))

unfoldable pub next : FrameStream → FrameStream × ProtoResult (Option FrameView)
unfolding drop_pending
next s =
    let s' = drop_pending s in
    next_after s' (read_frame (take s'.size s'.storage) s'.max_body_length)

unfoldable pub buffered : FrameStream → ℕ
buffered s = s.size - s.pending

unfoldable pub stream_room : FrameStream → ℕ
unfolding buffered
stream_room s = s.capacity - buffered s
