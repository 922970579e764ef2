-- ===== src/Session/StreamState/Write.antt =====
-- `Write` of src/session/stream_state.cpp: which bytes it keeps, hands back or gives up.
use zet.Prelude.{
  ℕ, ◌+◌, ◌-◌, ◌≤◌, ◌<◌, min, max, ◌≡◌, ap, ◌∙◌, ◌⊎◌, inl, inr, true, false, List, ◌++◌, append-nil,
  some, ok, err, arith, length, take, length-take, take-all, u64_mod, if◌then◌else◌, dec_lt,
  Bool-cases,
}
use zet.Session.Error.{ESessionError, disconnect_buffer_overflow}
use zet.Session.SendBuffer
use zet.Session.SendBuffer.{SendBuffer, capacity}
use zet.Session.SendBuffer.Valid.{IsValid, size_eq, room_eq}
use zet.Session.SendBuffer.Refine.{contents, contents-append}
use zet.Session.StreamState.{
  StreamState, detached, live, reaped, reap, resync, is_live, write_room, write, overflow_resync,
}

-- What the session holds unacknowledged, and how much of that its state allows.
abbrev pub held : StreamState → ℕ
held s = s.output.finish - s.output.base

abbrev pub ceiling : StreamState → ℕ
ceiling s = if is_live s.state then s.limits.resend_max else s.limits.disconnect_max

pub write_room_eq :
    (s : StreamState)
    → IsValid s.output
    → write_room s ≡ min (ceiling s - held s) (capacity s.output - held s)
unfolding write_room
write_room_eq s v = ground (arith, size_eq v, room_eq v)

-- Bytes that fit are all taken.
pub append_fitting :
    {b : SendBuffer} (bytes : List ℕ)
    → IsValid b
    → b.finish + length bytes < u64_mod
    → length bytes ≤ capacity b - (b.finish - b.base)
    → let (b', n) = SendBuffer.append b bytes in
      (n ≡ length bytes)
      × (contents b' ≡ contents b ++ bytes)
      × (b'.finish ≡ b.finish + length bytes)
      × (b'.base ≡ b.base)
      × (b'.ring_overflowed ≡ b.ring_overflowed)
append_fitting {b} bytes v h l =
    let facts = contents-append bytes v h in
    let all : (SendBuffer.append b bytes).1 ≡ length bytes = omega (arith, facts.0) in
    (
      all,
      facts.1 ∙ ap (◌++◌ (contents b)) (take-all _ bytes (omega arith)),
      facts.2 ∙ ap (◌+◌ b.finish) all,
      facts.3,
      facts.5,
    )

module _ (s : StreamState) (bytes : List ℕ) (v : IsValid s.output)
    (in_range : s.output.finish + length bytes < u64_mod) where
  abbrev pub kept : List ℕ
  kept = take (min (length bytes) (write_room s)) bytes

  pub length-kept : length kept ≡ min (length bytes) (write_room s)
  length-kept = omega (arith, length-take (min (length bytes) (write_room s)) bytes)

  pub appended :
      let (b', n) = SendBuffer.append s.output kept in
      (n ≡ length kept)
      × (contents b' ≡ contents s.output ++ kept)
      × (b'.finish ≡ s.output.finish + length kept)
      × (b'.base ≡ s.output.base)
      × (b'.ring_overflowed ≡ s.output.ring_overflowed)
  appended =
      append_fitting kept v (omega (arith, length-kept))
        (omega (arith, length-kept, write_room_eq s v))

  -- In a session whose send buffer is valid and whose offsets stay below 2^64: a write to a live
  -- session takes what its ceiling and its ring leave, in order, and hands the rest back.
  pub write_live :
      s.state ≡ live
      → let n =
          min (length bytes) (min (s.limits.resend_max - held s) (capacity s.output - held s)) in
        let (s', r) = write s bytes in
        (r ≡ ok n) × (contents s'.output ≡ contents s.output ++ take n bytes) × (s'.state ≡ live)
  unfolding write
  write_live e = ground (arith, appended, length-kept, write_room_eq s v)

  -- In a session whose send buffer is valid and whose offsets stay below 2^64: a write to a
  -- detached session that reaps keeps all of the bytes, or the session ends with the overflow as
  -- its reason and keeps none of them: it never keeps a part.
  pub write_detached_reap :
      s.state ≡ detached
      → s.overflow ≡ reap
      → let (s', r) = write s bytes in
        ((length bytes ≤ write_room s)
          × (r ≡ ok (length bytes))
          × (contents s'.output ≡ contents s.output ++ bytes)
          × (s'.state ≡ detached))
        ⊎ ((write_room s < length bytes)
            × (r ≡ err disconnect_buffer_overflow)
            × (contents s'.output ≡ contents s.output)
            × (s'.state ≡ reaped)
            × (s'.reap_reason ≡ some disconnect_buffer_overflow))
  unfolding write
  write_detached_reap e o = elim (dec_lt (write_room s) (length bytes)) [
    | yes p ↦ inr (p, ground arith, ground arith, ground arith, ground arith)
    | no p ↦
        let all : kept ≡ bytes = take-all _ bytes (omega arith) in
        inl (
          omega arith,
          ground (arith, appended, length-kept),
          ground (arith, appended, length-kept, all),
          ground arith,
        )
  ]

  clipped :
      let (b', n) = SendBuffer.append s.output (take (write_room s) bytes) in
      write_room s < length bytes
      → (contents b' ≡ contents s.output ++ take (write_room s) bytes)
        × (b'.finish ≡ s.output.finish + write_room s)
        × (b'.base ≡ s.output.base)
  clipped l =
      let size : length (take (write_room s) bytes) ≡ write_room s =
        omega (arith, length-take (write_room s) bytes) in
      let facts =
        append_fitting (take (write_room s) bytes) v (omega (arith, size))
          (omega (arith, size, write_room_eq s v)) in
      (facts.1, omega (arith, facts.2, size), facts.3)

  pub overflow_resync_lem :
      write_room s < length bytes
      → let (s', r) = overflow_resync s bytes (write_room s) in
        (r ≡ ok (length bytes))
        × (s'.state ≡ s.state)
        × (contents s'.output ≡ contents s.output ++ take (write_room s) bytes)
        × (s'.output.ring_overflowed ≡ true)
        × (s'.output.finish ≡ s.output.finish + write_room s)
        × (s'.output.base ≡ s.output.base)
  unfolding overflow_resync SendBuffer.set_ring_overflowed
  overflow_resync_lem l = elim (dec_lt 0 (write_room s)) [
    | yes p ↦ ground (arith, clipped l)
    | no p ↦
        let e : write_room s ≡ 0 = omega arith in
        ground (arith, e, append-nil (contents s.output), ap (λ n. take n bytes) e)
  ]

  -- In a session whose send buffer is valid and whose offsets stay below 2^64: a write to a
  -- detached session under Resync reports every byte as taken. It keeps all of them, or it keeps
  -- what fits and marks the ring as overflowed, or the ring was marked before and it keeps none.
  pub write_resync :
      s.state ≡ detached
      → s.overflow ≡ resync
      → let (s', r) = write s bytes in
        (r ≡ ok (length bytes))
        × (s'.state ≡ detached)
        × (((s.output.ring_overflowed ≡ true) × (s' ≡ s))
            ⊎ ((s.output.ring_overflowed ≡ false)
                × (length bytes ≤ write_room s)
                × (contents s'.output ≡ contents s.output ++ bytes)
                × (s'.output.ring_overflowed ≡ false))
            ⊎ ((s.output.ring_overflowed ≡ false)
                × (write_room s < length bytes)
                × (contents s'.output ≡ contents s.output ++ take (write_room s) bytes)
                × (s'.output.ring_overflowed ≡ true)))
  unfolding write
  write_resync e o = elim (Bool-cases s.output.ring_overflowed) [
    | inl t ↦ (ground arith, ground arith, inl (t, ground arith))
    | inr f ↦ elim (dec_lt (write_room s) (length bytes)) [
      | yes p ↦
          let facts = overflow_resync_lem p in
          (
            ground (arith, facts),
            ground (arith, facts),
            inr (inr (f, p, ground (arith, facts), ground (arith, facts))),
          )
      | no p ↦
          let all : kept ≡ bytes = take-all _ bytes (omega arith) in
          (
            ground (arith, appended, length-kept),
            ground arith,
            inr (
                inl (
                  f,
                  omega arith,
                  ground (arith, appended, length-kept, all),
                  ground (arith, appended, length-kept),
                )),
          )
    ]
  ]

  -- In a session whose send buffer is valid and whose offsets stay below 2^64: whenever a write
  -- reports bytes as taken and the ring is not marked as overflowed afterwards, exactly those
  -- bytes stand behind what the session held.
  pub write_lossless :
      (n : ℕ)
      → (write s bytes).1 ≡ ok n
      → (write s bytes).0.output.ring_overflowed ≡ false
      → (n ≤ length bytes) × (contents (write s bytes).0.output ≡ contents s.output ++ take n bytes)
  unfolding write
  write_lossless n e f = ground (arith, appended, length-kept, overflow_resync_lem)

  -- In a session whose send buffer is valid and whose offsets stay below 2^64: whenever a write
  -- reports an error the session has ended, and holds what it held.
  pub write_err :
      (e : ESessionError)
      → (write s bytes).1 ≡ err e
      → ((write s bytes).0.state ≡ reaped) × (contents (write s bytes).0.output ≡ contents s.output)
  unfolding write
  write_err e h = ground (arith, overflow_resync_lem)

  -- In a session whose send buffer is valid and whose offsets stay below 2^64: no write takes
  -- what is held past the ceiling of the state that it is made in.
  pub write-ceiling : held (write s bytes).0 ≤ max (held s) (ceiling s)
  unfolding write
  write-ceiling = ground (arith, appended, length-kept, overflow_resync_lem, write_room_eq s v)
