-- ===== src/Tests/Session.antt =====
-- src/session at concrete histories and calls.
use zet.Prelude.{
  ℕ, ◌+◌, ◌-◌, ◌≤◌, ◌<◌, min, max, ◌≡◌, refl, ◌↔◌, ◌⊎◌, true, false, List, [], ◌∷◌, ◌++◌, none,
  some, ok, err, arith, length, take, drop, replicate,
}
use zet.Session.Error.{session_reaped, disconnect_buffer_overflow, orphan_timeout}
use zet.Session.Limits.{SessionLimits, default_limits}
use zet.Session.SendBuffer
use zet.Session.SendBuffer.{SendBuffer, capacity}
use zet.Session.SendBuffer.Valid
use zet.Session.SendBuffer.Outbox
use zet.Session.SendBuffer.Calls
use zet.Session.SendBuffer.Calls.{run_refines}
use zet.Session.SendBuffer.Refine.{contents, view}
use zet.Session.ReceiveCursor
use zet.Session.ReceiveCursor.{EInputAck, on_delivery, ReceiveCursor, receive, unreceive}
use zet.Session.ReceiveCursor.Laws
use zet.Session.ReceiveCursor.Laws.{receive_stream, unreceive-receive}
use zet.Session.Link
use zet.Session.Link.{
  Link, Move, writes, seals, delivers, marks, refuses, sends_ack, takes_ack, loses, resumes,
}
use zet.Session.Link.Safety.{stream_safety}
use zet.Session.Link.Progress.{rounds, stream_resumes}
use zet.Session.StreamState
use zet.Session.StreamState.{
  StreamState, SessionStreams, EDetachedOverflow, reap, backpressure, resync, detached, live,
  reaped, write, write_room, accepts_writes, is_current, attach, attach_path_b, detach, on_timer,
}
use zet.Session.StreamState.Write.{
  held, ceiling, write_lossless, write_resync, write_detached_reap, write_live, write_err,
  write-ceiling,
}
use zet.Session.StreamState.Life
use zet.Session.StreamState.Life.{
  Event, Reasoned, attach_supersedes, run_reaped, run-Reasoned, on_timer_lem,
}
use zet.Session.StreamState.Stall.{accepts_writes_progress, accepts_writes_iff, resync_exact_fill}

abbrev storage : List ℕ
storage = replicate 8 0

abbrev greeting : List ℕ
greeting = 104 ∷ 101 ∷ 108 ∷ 108 ∷ 111 ∷ []

-- A session that writes, loses its connection with a frame under way, and has bytes refused.
abbrev history : List Move
history =
    writes greeting
    ∷ resumes
    ∷ seals 3
    ∷ delivers
    ∷ marks 2
    ∷ sends_ack
    ∷ seals 9
    ∷ takes_ack
    ∷ loses
    ∷ resumes
    ∷ seals 2
    ∷ delivers
    ∷ refuses 1
    ∷ resumes
    ∷ writes greeting
    ∷ []

abbrev after : Link
after = Link.run (Link.init storage on_delivery) history

stream_safety_example :
    (after.delivered ≡ take (length after.delivered) after.written)
    × (take after.sender.base after.written ++ contents after.sender ≡ after.written)
    × (after.sender.base ≤ length after.delivered)
    × (after.broken ≡ none)
stream_safety_example = stream_safety storage on_delivery history (omega arith) (omega arith)

stream_resumes_example :
    (Link.run after (loses ∷ resumes ∷ rounds (length after.written) 2)).delivered ≡ after.written
stream_resumes_example =
    stream_resumes storage on_delivery history 2 (omega arith) (omega arith) (omega arith)

abbrev buffer : SendBuffer
buffer = SendBuffer.init storage 0

buffer-IsValid : Valid.IsValid buffer
buffer-IsValid = Valid.init-IsValid storage 0 (omega arith) (omega arith)

abbrev calls : List Outbox.Call
calls =
    Outbox.append greeting
    ∷ Outbox.advance_send_next 4
    ∷ Outbox.acknowledge 3
    ∷ Outbox.append greeting
    ∷ Outbox.copy_out 4 6
    ∷ Outbox.reset_send_next 5
    ∷ Outbox.unsent
    ∷ Outbox.new_generation
    ∷ Outbox.session_gen
    ∷ []

run_refines_example : Calls.run buffer calls ≡ Outbox.run (capacity buffer) (view buffer) calls
unfolding SendBuffer.init
run_refines_example =
    run_refines calls buffer-IsValid
      (omega arith, (omega arith, (tt, (omega arith, (tt, (tt, (tt, (tt, (tt, tt)))))))))

abbrev limits : SessionLimits
limits = record default_limits { resend_max = 4; disconnect_max = 6 }

abbrev session : EDetachedOverflow → StreamState
session overflow =
    StreamState.init (record { storage = storage; now = 100; limits = limits }) overflow on_delivery

write_resync_example :
    ((write (session resync) storage).1 ≡ ok 8)
    × ((write (session resync) storage).0.state ≡ detached)
    × ((((session resync).output.ring_overflowed ≡ true)
          × ((write (session resync) storage).0 ≡ session resync))
        ⊎ (((session resync).output.ring_overflowed ≡ false)
            × (8 ≤ write_room (session resync))
            × (contents (write (session resync) storage).0.output
                ≡ contents (session resync).output ++ storage)
            × ((write (session resync) storage).0.output.ring_overflowed ≡ false))
        ⊎ (((session resync).output.ring_overflowed ≡ false)
            × (write_room (session resync) < 8)
            × (contents (write (session resync) storage).0.output
                ≡ contents (session resync).output ++ take (write_room (session resync)) storage)
            × ((write (session resync) storage).0.output.ring_overflowed ≡ true)))
unfolding StreamState.init SendBuffer.init
write_resync_example = write_resync (session resync) storage buffer-IsValid (omega arith) refl refl

write_detached_reap_example :
    ((5 ≤ write_room (session reap))
      × ((write (session reap) greeting).1 ≡ ok 5)
      × (contents (write (session reap) greeting).0.output
          ≡ contents (session reap).output ++ greeting)
      × ((write (session reap) greeting).0.state ≡ detached))
    ⊎ ((write_room (session reap) < 5)
        × ((write (session reap) greeting).1 ≡ err disconnect_buffer_overflow)
        × (contents (write (session reap) greeting).0.output ≡ contents (session reap).output)
        × ((write (session reap) greeting).0.state ≡ reaped)
        × ((write (session reap) greeting).0.reap_reason ≡ some disconnect_buffer_overflow))
unfolding StreamState.init SendBuffer.init
write_detached_reap_example =
    write_detached_reap (session reap) greeting buffer-IsValid (omega arith) refl refl

abbrev attached_session : StreamState
attached_session = record (session reap) { state = live; generation = 1 }

write_live_example :
    ((write attached_session greeting).1
      ≡ ok (
          min 5 (
            min
              (4 - held attached_session)
              (capacity attached_session.output - held attached_session))))
    × (contents (write attached_session greeting).0.output
        ≡ contents attached_session.output
          ++ take
              (min 5 (
                min
                  (4 - held attached_session)
                  (capacity attached_session.output - held attached_session)))
              greeting)
    × ((write attached_session greeting).0.state ≡ live)
unfolding StreamState.init SendBuffer.init
write_live_example = write_live attached_session greeting buffer-IsValid (omega arith) refl

write_lossless_example :
    (6 ≤ 8)
    × (contents (write (session backpressure) storage).0.output
        ≡ contents (session backpressure).output ++ take 6 storage)
unfolding StreamState.init SendBuffer.init write write_room SendBuffer.room SendBuffer.size
    SendBuffer.append StreamState.append
write_lossless_example =
    write_lossless (session backpressure) storage buffer-IsValid (omega arith) 6 refl refl

write_err_example :
    ((write (session reap) storage).0.state ≡ reaped)
    × (contents (write (session reap) storage).0.output ≡ contents (session reap).output)
unfolding StreamState.init SendBuffer.init write write_room SendBuffer.room SendBuffer.size
    StreamState.reap_with
write_err_example =
    write_err (session reap) storage buffer-IsValid (omega arith) disconnect_buffer_overflow refl

write-ceiling_example :
    held (write attached_session storage).0 ≤ max (held attached_session) (ceiling attached_session)
unfolding StreamState.init SendBuffer.init
write-ceiling_example = write-ceiling attached_session storage buffer-IsValid (omega arith)

abbrev later : List Event
later = Life.timer 500 ∷ Life.writes greeting ∷ Life.detaches 1 600 ∷ []

attach_supersedes_example :
    (is_current (attach_path_b attached_session).0 2 ≡ true)
    × (is_current (Life.run (attach_path_b attached_session).0 later) 1 ≡ false)
    × (detach (Life.run (attach_path_b attached_session).0 later) 1 700
        ≡ Life.run (attach_path_b attached_session).0 later)
unfolding StreamState.init SendBuffer.init is_current attach_path_b StreamState.attached
attach_supersedes_example =
    attach_supersedes attached_session Life.path_b 1 2 later 700 refl refl (omega arith)

abbrev ended_session : StreamState
ended_session = record (session reap) { state = reaped; reap_reason = some orphan_timeout }

run_reaped_example :
    ((Life.run ended_session later).state ≡ reaped)
    × ((Life.run ended_session later).reap_reason ≡ some orphan_timeout)
    × (write (Life.run ended_session later) greeting
        ≡ (Life.run ended_session later, err session_reaped))
    × (attach (Life.run ended_session later) 0 ≡ (Life.run ended_session later, err session_reaped))
    × (attach_path_b (Life.run ended_session later)
        ≡ (Life.run ended_session later, err session_reaped))
run_reaped_example = run_reaped later ended_session greeting 0 refl

run-Reasoned_example :
    Reasoned (Life.run (session reap) later).state (Life.run (session reap) later).reap_reason
unfolding StreamState.init
run-Reasoned_example = run-Reasoned later (session reap) tt

on_timer_lem_example : ((on_timer (session reap) 200).state ≡ reaped) ↔ (
    ((session reap).state ≡ detached)
    × (0 < limits.orphan_timeout)
    × ((session reap).detached_since + limits.orphan_timeout ≤ 200))
unfolding StreamState.init
on_timer_lem_example = on_timer_lem (session reap) 200 (grind arith)

accepts_writes_progress_example :
    ((n : ℕ) × ((write (session backpressure) greeting).1 ≡ ok n) × (0 < n))
    ⊎ (((write (session backpressure) greeting).1 ≡ err disconnect_buffer_overflow)
        × ((write (session backpressure) greeting).0.state ≡ reaped)
        × ((write (session backpressure) greeting).0.reap_reason ≡ some disconnect_buffer_overflow))
unfolding StreamState.init SendBuffer.init accepts_writes StreamState.below_ceiling SendBuffer.size
    SendBuffer.room
accepts_writes_progress_example =
    accepts_writes_progress (session backpressure) greeting buffer-IsValid (omega arith)
      (omega arith) (grind arith) refl

accepts_writes_iff_example :
    (accepts_writes (session backpressure) ≡ true)
    ↔ ((n : ℕ) × ((write (session backpressure) greeting).1 ≡ ok n) × (0 < n))
unfolding StreamState.init SendBuffer.init
accepts_writes_iff_example =
    accepts_writes_iff (session backpressure) greeting buffer-IsValid (omega arith) (omega arith)
      (grind arith) (λ e. refl) refl

abbrev exact : List ℕ
exact = replicate 6 33

resync_exact_fill_example :
    ((write (session resync) exact).1 ≡ ok 6)
    × ((write (session resync) exact).0.state ≡ detached)
    × ((write (session resync) exact).0.output.ring_overflowed ≡ false)
    × (accepts_writes (write (session resync) exact).0 ≡ false)
unfolding StreamState.init SendBuffer.init write_room SendBuffer.room SendBuffer.size
resync_exact_fill_example =
    resync_exact_fill (session resync) exact buffer-IsValid (omega arith) refl refl refl refl

abbrev cursor : ReceiveCursor
cursor = ReceiveCursor.init 2 on_delivery

receive_stream_example :
    (new : List ℕ) × ((receive cursor 1 (take 3 (drop 1 greeting))).1 ≡ ok new)
    × (take 2 greeting ++ new
        ≡ take (receive cursor 1 (take 3 (drop 1 greeting))).0.recv_offset greeting)
    × ((receive cursor 1 (take 3 (drop 1 greeting))).0.recv_offset ≡ max 2 (1 + 3))
unfolding ReceiveCursor.init
receive_stream_example =
    receive_stream greeting 1 3 (Laws.init-IsValid 2 on_delivery (omega arith)) (omega arith)
      (omega arith) (omega arith) (omega arith)

unreceive-receive_example :
    (new : List ℕ) × ((receive cursor 1 greeting).1 ≡ ok new)
    × (unreceive (receive cursor 1 greeting).0 (length new) ≡ (cursor, true))
unfolding ReceiveCursor.init
unreceive-receive_example =
    unreceive-receive 1 greeting (Laws.init-IsValid 2 on_delivery (omega arith)) refl (omega arith)
      (omega arith)
