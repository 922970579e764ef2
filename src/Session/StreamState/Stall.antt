-- ===== src/Session/StreamState/Stall.antt =====
-- `AcceptsWrites` of src/session/stream_state.cpp, which the loop of the local writer asks before
-- it writes, against what `Write` then does.
use zet.Prelude.{
  ℕ, ◌+◌, ◌<◌, ◌≡◌, ◌≢◌, ◌↔◌, ◌⊎◌, inl, inr, min, refl, true, false, List, some, ok, err, arith,
  length, u64_mod,
}
use zet.Session.Error.{disconnect_buffer_overflow}
use zet.Session.SendBuffer
use zet.Session.SendBuffer.{SendBuffer, capacity}
use zet.Session.SendBuffer.Refine.{contents-append}
use zet.Session.SendBuffer.Valid.{IsValid, append-IsValid, size_eq, room_eq}
use zet.Session.StreamState.{
  StreamState, ESessionState, EDetachedOverflow, live, detached, reaped, reap, backpressure, resync,
  write_room, write, accepts_writes,
}
use zet.Session.StreamState.Write.{
  write_room_eq, kept, length-kept, appended, write_detached_reap, write_resync,
}

accepts_writes-room :
    (s : StreamState)
    → IsValid s.output
    → s.state ≢ reaped
    → (s.state ≡ detached → s.overflow ≡ backpressure)
    → s.output.ring_overflowed ≡ false
    → (accepts_writes s ≡ true) ↔ (0 < write_room s)
unfolding accepts_writes
accepts_writes-room s v a b c = ground (arith, size_eq v, room_eq v, write_room_eq s v)

write_taken :
    (s : StreamState) (bytes : List ℕ)
    → IsValid s.output
    → s.output.finish + length bytes < u64_mod
    → s.state ≢ reaped
    → (s.state ≡ detached → s.overflow ≡ backpressure)
    → (write s bytes).1 ≡ ok (min (length bytes) (write_room s))
unfolding write
write_taken s bytes v h a b = ground (arith, appended s bytes v h, length-kept s bytes v h)

-- A session with a valid send buffer, offsets below 2^64 and an unmarked ring, which is live, or
-- detached and holding its writer back, accepts writes exactly when a write of some bytes takes
-- one of them at least.
pub accepts_writes_iff :
    (s : StreamState) (bytes : List ℕ)
    → IsValid s.output
    → s.output.finish + length bytes < u64_mod
    → 0 < length bytes
    → s.state ≢ reaped
    → (s.state ≡ detached → s.overflow ≡ backpressure)
    → s.output.ring_overflowed ≡ false
    → (accepts_writes s ≡ true) ↔ ((n : ℕ) × ((write s bytes).1 ≡ ok n) × (0 < n))
accepts_writes_iff s bytes v h l a b c =
    let room = accepts_writes-room s v a b c in
    let taken = write_taken s bytes v h a b in
    (
      λ e. (min (length bytes) (write_room s), taken, omega (arith, room.0 e)),
      λ (n, e, positive).
          room.1 (let same : min (length bytes) (write_room s) ≡ n = cc (taken, e) in omega arith),
    )

accepts_writes_cases :
    (s : StreamState)
    → IsValid s.output
    → accepts_writes s ≡ true
    → (s.state ≢ reaped)
      × ((0 < write_room s)
          ⊎ (s.state ≡ detached) × ((s.overflow ≡ reap) ⊎ (s.output.ring_overflowed ≡ true)))
unfolding accepts_writes
accepts_writes_cases s v a = ground (arith, size_eq v, room_eq v, write_room_eq s v)

state_cases : (k : ESessionState) → (k ≡ live) ⊎ (k ≡ detached) ⊎ (k ≡ reaped)
state_cases live = inl refl
state_cases detached = inr (inl refl)
state_cases reaped = inr (inr refl)

overflow_cases : (o : EDetachedOverflow) → (o ≡ reap) ⊎ (o ≡ resync) ⊎ (o ≡ backpressure)
overflow_cases reap = inl refl
overflow_cases resync = inr (inl refl)
overflow_cases backpressure = inr (inr refl)

-- A session with a valid send buffer, offsets below 2^64 and, if it holds its writer back, an
-- unmarked ring: when it says that it accepts writes, a write of some bytes takes one at least, or
-- reports the overflow and has then ended the session for that reason, so the writer's loop makes
-- progress.
pub accepts_writes_progress :
    (s : StreamState) (bytes : List ℕ)
    → IsValid s.output
    → s.output.finish + length bytes < u64_mod
    → 0 < length bytes
    → (s.output.ring_overflowed ≡ true → s.overflow ≢ backpressure)
    → accepts_writes s ≡ true
    → let (s', r) = write s bytes in
      ((n : ℕ) × (r ≡ ok n) × (0 < n))
      ⊎ ((r ≡ err disconnect_buffer_overflow)
          × (s'.state ≡ reaped)
          × (s'.reap_reason ≡ some disconnect_buffer_overflow))
accepts_writes_progress s bytes v h l m a =
    let (alive, why) = accepts_writes_cases s v a in
    elim (state_cases s.state) [
      | inl e ↦ inl (
        min (length bytes) (write_room s),
        write_taken s bytes v h alive (λ d. absurd (cc (e, d))),
        ground (arith, why, e),
      )
      | inr (inr e) ↦ absurd (alive e)
      | inr (inl e) ↦ elim (overflow_cases s.overflow) [
        | inl o ↦ elim (write_detached_reap s bytes v h e o) [
          | inl (fits, taken, same, still) ↦ inl (length bytes, taken, l)
          | inr (over, failed, same, gone, why_gone) ↦ inr (failed, gone, why_gone)
        ]
        | inr (inl o) ↦ inl (length bytes, (write_resync s bytes v h e o).0, l)
        | inr (inr o) ↦ inl (
          min (length bytes) (write_room s),
          write_taken s bytes v h alive (λ d. o),
          ground (arith, why, o, m),
        )
      ]
    ]

-- Under Resync, with a valid send buffer and offsets below 2^64, bytes that fill a detached
-- session exactly leave a ring that is not marked as overflowed and a session that accepts no
-- writes: the loop that asks first never makes the write that would mark it.
pub resync_exact_fill :
    (s : StreamState) (bytes : List ℕ)
    → IsValid s.output
    → s.output.finish + length bytes < u64_mod
    → s.state ≡ detached
    → s.overflow ≡ resync
    → s.output.ring_overflowed ≡ false
    → length bytes ≡ write_room s
    → let (s', r) = write s bytes in
      (r ≡ ok (length bytes))
      × (s'.state ≡ detached)
      × (s'.output.ring_overflowed ≡ false)
      × (accepts_writes s' ≡ false)
unfolding write accepts_writes
resync_exact_fill s bytes v h d o f e =
    let after : SendBuffer = (SendBuffer.append s.output (kept s bytes v h)).0 in
    let valid : IsValid after =
      append-IsValid (kept s bytes v h) v (omega (arith, length-kept s bytes v h)) in
    ground (
      arith,
      appended s bytes v h,
      length-kept s bytes v h,
      write_room_eq s v,
      size_eq valid,
      room_eq valid,
      contents-append (kept s bytes v h) v (omega (arith, length-kept s bytes v h)),
    )
