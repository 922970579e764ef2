-- ===== src/Session/Channel/Transfer/Sends.antt =====
-- What the sender's channel polls at each stage of a snapshot.
use zet.Prelude.{
  ℕ, ◌+◌, ◌≤◌, ◌<◌, ◌≡◌, refl, ap, ◌∙◌, true, List, ◌++◌, some, ok, err, arith, length, u32_mod,
  replicate, length-replicate,
}
use zet.Core.Error.{ProtoResult}
use zet.Core.Reader.Laws.{length-encode_be}
use zet.Core.Writer
use zet.Core.Writer.{Write, encode_be}
use zet.Core.Writer.Laws.{Writes, Writes-make, Writes-be}
use zet.Crypto.{Sodium}
use zet.Wire.Limits.{snapshot_max_bytes}
use zet.Wire.SealedFrame.{FrameSealer, seal}
use zet.Wire.Types.{grid_chunk, grid_end, code_of, write_message_type}
use zet.Wire.Write.{write_grid_end}
use zet.Wire.RoundTrip.Grid.{Writes-grid_begin, Writes-grid_chunk, grid_chunk_body}
use zet.Session.Channel.{Channel, is_agent}
use zet.Session.Channel.Poll.{
  seal_into, sealed_with, emit_begin, emit_chunk, emit_end, or_on, encoded, encoded_by, poll_grid,
  chunk_header, Priority, emitting_end, emitting_chunk, begin_of,
}
use zet.Session.Channel.Transfer.{
  Snapshot, emission_at, starting, size_at, chunk_at, length-chunk, begin_plaintext, length-begin,
  length-chunk_plaintext, end_plaintext, begun, chunk_sent, end_done,
}

pub encoded_lem :
    {write : Write} {bytes : List ℕ} (size : ℕ)
    → Writes write bytes
    → length bytes ≤ size
    → encoded size write ≡ ok bytes
unfolding encoded
encoded_lem {write} {bytes} size h k =
    let (good, put) =
      Writes-make h (replicate size 0) (omega (arith, length-replicate {A = ℕ} size 0)) in
    ap (λ x. encoded_by ((write (Writer.make (replicate size 0))).0, x)) good ∙ ap ok put

or_on_sealed :
    (next : Priority) (ch : Channel) (change : Channel → Channel)
    (x : FrameSealer × ProtoResult (List ℕ))
    → or_on next (sealed_with ch change x) ≡ sealed_with ch change x
or_on_sealed next ch change (s, ok frame) = refl
or_on_sealed next ch change (s, err e) = refl

module _ (c : Sodium) (out scratch : ℕ) (p : Snapshot) where
  pub poll-begin :
      (sender : Channel)
      → is_agent sender.role ≡ true
      → sender.grid_emitting ≡ some (starting p)
      → 0 < length p.bytes
      → length p.bytes ≤ snapshot_max_bytes
      → p.scrollback ≤ length p.bytes
      → p.flags < 2
      → p.gen < u32_mod
      → poll_grid c out scratch sender ≡ seal_into c out (begin_plaintext p) (begun p) sender
  unfolding poll_grid emit_begin emit_chunk emit_end seal_into
  poll-begin sender h e some_bytes most scrolled flagged width =
      let m = begin_of (starting p) in
      let encodes =
        encoded_lem 14
          (Writes-grid_begin m (omega arith) (omega arith) (omega arith) (omega arith) flagged
            some_bytes most scrolled)
          (omega (arith, length-begin p)) in
      let started : emit_begin c out (starting p) sender
          ≡ seal_into c out (begin_plaintext p) (begun p) sender =
        ground (arith, encodes) in
      ground (
        arith,
        h,
        e,
        started,
        or_on_sealed (λ ch1. emitting_chunk c out scratch ch1.grid_emitting ch1) sender (begun p)
            (seal c sender.sealer out (begin_plaintext p)),
        or_on_sealed (λ ch2. emitting_end c out ch2.grid_emitting ch2) sender (begun p)
            (seal c sender.sealer out (begin_plaintext p)),
      )

  pub poll-chunk :
      (sender : Channel) (k : ℕ)
      → is_agent sender.role ≡ true
      → sender.grid_emitting ≡ some (emission_at p k)
      → k < length p.bytes
      → chunk_header + 1 ≤ scratch
      → length p.bytes < u32_mod
      → poll_grid c out scratch sender
        ≡ seal_into c out
            (encode_be 1 (code_of grid_chunk) ++ grid_chunk_body (chunk_at p scratch k))
            (chunk_sent p scratch k)
            sender
  unfolding poll_grid emit_begin emit_chunk seal_into
  poll-chunk sender k h e below enough width =
      let size = length-chunk p scratch k below enough in
      let encodes =
        encoded_lem (chunk_header + size_at p scratch k)
          (Writes-grid_chunk (chunk_at p scratch k) (omega arith) (omega (arith, size))
            (omega (arith, size)))
          (omega (arith, length-chunk_plaintext p scratch k below enough)) in
      let emitted : emit_chunk c out scratch (emission_at p k) sender
          ≡ seal_into c out
              (encode_be 1 (code_of grid_chunk) ++ grid_chunk_body (chunk_at p scratch k))
              (chunk_sent p scratch k) sender =
        ground (arith, encodes) in
      ground (
        arith,
        h,
        e,
        emitted,
        or_on_sealed (λ ch2. emitting_end c out ch2.grid_emitting ch2) sender
            (chunk_sent p scratch k)
            (seal c sender.sealer out
              (encode_be 1 (code_of grid_chunk) ++ grid_chunk_body (chunk_at p scratch k))),
      )

  pub poll-end :
      (sender : Channel)
      → is_agent sender.role ≡ true
      → sender.grid_emitting ≡ some (emission_at p (length p.bytes))
      → poll_grid c out scratch sender ≡ seal_into c out end_plaintext end_done sender
  unfolding poll_grid emit_begin emit_chunk emit_end seal_into write_grid_end write_message_type
  poll-end sender h e =
      let encodes =
        encoded_lem {write = write_grid_end (record {})} {bytes = end_plaintext} 1
          (Writes-be 1 (code_of grid_end)) (omega (arith, length-encode_be 1 (code_of grid_end))) in
      let ended : emit_end c out (emission_at p (length p.bytes)) sender
          ≡ seal_into c out end_plaintext end_done sender =
        ground (arith, encodes) in
      ground (arith, h, e, ended)
