-- ===== src/Session/StreamState/Life.antt =====
-- The life cycle Detached → (Live | Reaped) of src/session/stream_state.cpp, over every method.
use zet.Prelude.{
  ℕ, ◌+◌, ◌≤◌, ◌<◌, ◌≡◌, refl, ◌∙◌, ◌≢◌, Bool, true, false, List, [], ◌∷◌, Option, none, some, ok,
  err, arith, length, u64_mod, ◌↔◌,
}
use zet.Core.Time.{Timestamp}
use zet.Session.Error.{ESessionError, SessionResult, session_reaped}
use zet.Session.SendBuffer.Outbox
use zet.Session.SendBuffer.Calls
use zet.Session.ReceiveCursor
use zet.Session.StreamState.{
  StreamState, ESessionState, detached, live, reaped, kill, write, on_timer, set_overflow_mode,
  new_generation, attach_path_b, attach, detach, is_current, reap_with, attached, is_reaped,
}

-- Every call that can change a session: its writer's, its timer's and its connections'.
pub data Event : Type 0 where
  writes : List ℕ → Event
  timer : Timestamp → Event
  mode : ℕ → Bool → Event
  renews : Event
  attaches : ℕ → Event
  attaches_path_b : Event
  detaches : ℕ → Timestamp → Event
  kills : ESessionError → Event
  output_call : Outbox.Call → Event
  receives : ℕ → List ℕ → Event
  delivers : ℕ → Event
  unreceives : ℕ → Event
  resets : ℕ → Event

pub apply : StreamState → Event → StreamState
apply s (writes bytes) = (write s bytes).0
apply s (timer now) = on_timer s now
apply s (mode ver grid) = set_overflow_mode s ver grid
apply s renews = new_generation s
apply s (attaches offset) = (attach s offset).0
apply s attaches_path_b = (attach_path_b s).0
apply s (detaches generation now) = detach s generation now
apply s (kills reason) = kill s reason
apply s (output_call c) = record s { output = (Calls.step s.output c).1 }
apply s (receives offset bytes) = record s {
  input = (ReceiveCursor.receive s.input offset bytes).0;
}
apply s (delivers n) = record s { input = (ReceiveCursor.mark_delivered s.input n).0 }
apply s (unreceives n) = record s { input = (ReceiveCursor.unreceive s.input n).0 }
apply s (resets offset) = record s { input = ReceiveCursor.reset s.input offset }

pub run : StreamState → List Event → StreamState
run s [] = s
run s (e ∷ es) = run (apply s e) es

-- A session has a reason to have ended exactly when it has ended.
abbrev pub Reasoned : ESessionState → Option ESessionError → Type 0
Reasoned reaped none = ⊥
Reasoned reaped (some e) = Unit {0}
Reasoned detached none = Unit {0}
Reasoned detached (some e) = ⊥
Reasoned live none = Unit {0}
Reasoned live (some e) = ⊥

reap_with-Reasoned :
    (s : StreamState) (e : ESessionError)
    → Reasoned s.state s.reap_reason
    → Reasoned (reap_with s e).state (reap_with s e).reap_reason
unfolding reap_with
reap_with-Reasoned s e h = ground arith

write-Reasoned :
    (s : StreamState) (bytes : List ℕ)
    → Reasoned s.state s.reap_reason
    → Reasoned (write s bytes).0.state (write s bytes).0.reap_reason
unfolding write
write-Reasoned s bytes h = ground arith

attached-Reasoned :
    (s : StreamState)
    → is_reaped s.state ≡ false
    → Reasoned s.state s.reap_reason
    → Reasoned (attached s).0.state (attached s).0.reap_reason
unfolding attached
attached-Reasoned s e h = ground arith

attach-Reasoned :
    (s : StreamState) (offset : ℕ)
    → Reasoned s.state s.reap_reason
    → Reasoned (attach s offset).0.state (attach s offset).0.reap_reason
unfolding attach
attach-Reasoned s offset h = ground arith

apply-Reasoned :
    (s : StreamState) (e : Event)
    → Reasoned s.state s.reap_reason
    → Reasoned (apply s e).state (apply s e).reap_reason
unfolding apply on_timer set_overflow_mode new_generation attach_path_b detach kill
apply-Reasoned s (writes bytes) h = write-Reasoned s bytes h
apply-Reasoned s (timer now) h = ground arith
apply-Reasoned s (mode ver grid) h = h
apply-Reasoned s renews h = h
apply-Reasoned s (attaches offset) h = attach-Reasoned s offset h
apply-Reasoned s attaches_path_b h = ground arith
apply-Reasoned s (detaches generation now) h = ground arith
apply-Reasoned s (kills reason) h = reap_with-Reasoned s reason h
apply-Reasoned s (output_call c) h = h
apply-Reasoned s (receives offset bytes) h = h
apply-Reasoned s (delivers n) h = h
apply-Reasoned s (unreceives n) h = h
apply-Reasoned s (resets offset) h = h

-- In every history of a session that has a reason to have ended exactly when it has ended, this
-- stays so.
pub run-Reasoned :
    (es : List Event) (s : StreamState)
    → Reasoned s.state s.reap_reason
    → Reasoned (run s es).state (run s es).reap_reason
unfolding run
run-Reasoned [] s h = h
run-Reasoned (e ∷ es) s h = run-Reasoned es (apply s e) (apply-Reasoned s e h)

write_reaped :
    (s : StreamState) (bytes : List ℕ) → s.state ≡ reaped → write s bytes ≡ (s, err session_reaped)
unfolding write
write_reaped s bytes h = ground arith

apply_reaped :
    (s : StreamState) (e : Event)
    → s.state ≡ reaped
    → ((apply s e).state ≡ reaped) × ((apply s e).reap_reason ≡ s.reap_reason)
unfolding apply on_timer set_overflow_mode new_generation attach attach_path_b detach kill
apply_reaped s (writes bytes) h = ground (arith, write_reaped s bytes h)
apply_reaped s (timer now) h = ground arith
apply_reaped s (mode ver grid) h = (h, refl)
apply_reaped s renews h = (h, refl)
apply_reaped s (attaches offset) h = ground arith
apply_reaped s attaches_path_b h = ground arith
apply_reaped s (detaches generation now) h = ground arith
apply_reaped s (kills reason) h = ground arith
apply_reaped s (output_call c) h = (h, refl)
apply_reaped s (receives offset bytes) h = (h, refl)
apply_reaped s (delivers n) h = (h, refl)
apply_reaped s (unreceives n) h = (h, refl)
apply_reaped s (resets offset) h = (h, refl)

-- A session that has ended stays ended, for the reason that it ended, whatever is called; and it
-- takes no more bytes and no more connections.
pub run_reaped :
    (es : List Event) (s : StreamState) (bytes : List ℕ) (offset : ℕ)
    → s.state ≡ reaped
    → let t = run s es in
      (t.state ≡ reaped)
      × (t.reap_reason ≡ s.reap_reason)
      × (write t bytes ≡ (t, err session_reaped))
      × (attach t offset ≡ (t, err session_reaped))
      × (attach_path_b t ≡ (t, err session_reaped))
unfolding run attach attach_path_b
run_reaped [] s bytes offset h = (h, refl, write_reaped s bytes h, ground arith, ground arith)
run_reaped (e ∷ es) s bytes offset h =
    let (t, r) = apply_reaped s e h in
    let (a, b, c, d, f) = run_reaped es (apply s e) bytes offset t in (a, b ∙ r, c, d, f)

-- The timer ends a session that has not ended exactly when the session is detached, has an orphan
-- timeout, and that has passed since it was detached.
pub on_timer_lem :
    (s : StreamState) (now : Timestamp)
    → s.state ≢ reaped
    → ((on_timer s now).state ≡ reaped) ↔ (
        (s.state ≡ detached)
        × (0 < s.limits.orphan_timeout)
        × (s.detached_since + s.limits.orphan_timeout ≤ now))
unfolding on_timer
on_timer_lem s now h = ground arith

generation-attach :
    (s : StreamState) (offset : ℕ)
    → s.generation + 1 < u64_mod
    → s.generation ≤ (attach s offset).0.generation
      × (attach s offset).0.generation ≤ s.generation + 1
unfolding attach
generation-attach s offset h = ground arith

generation-write : (s : StreamState) (bytes : List ℕ) → (write s bytes).0.generation ≡ s.generation
unfolding write
generation-write s bytes = ground arith

generation-apply :
    (s : StreamState) (e : Event)
    → s.generation + 1 < u64_mod
    → (s.generation ≤ (apply s e).generation) × ((apply s e).generation ≤ s.generation + 1)
unfolding apply on_timer set_overflow_mode new_generation attach_path_b detach kill
generation-apply s (writes bytes) h = omega (arith, generation-write s bytes)
generation-apply s (timer now) h = ground arith
generation-apply s (mode ver grid) h = omega arith
generation-apply s renews h = omega arith
generation-apply s (attaches offset) h = generation-attach s offset h
generation-apply s attaches_path_b h = ground arith
generation-apply s (detaches generation now) h = ground arith
generation-apply s (kills reason) h = ground arith
generation-apply s (output_call c) h = omega arith
generation-apply s (receives offset bytes) h = omega arith
generation-apply s (delivers n) h = omega arith
generation-apply s (unreceives n) h = omega arith
generation-apply s (resets offset) h = omega arith

generation-run :
    (es : List Event) (s : StreamState)
    → s.generation + length es < u64_mod
    → s.generation ≤ (run s es).generation
unfolding run
generation-run [] s h = omega arith
generation-run (e ∷ es) s h =
    let (low, high) = generation-apply s e (omega arith) in
    omega (arith, generation-run es (apply s e) (omega arith))

-- The two ways in which a connection attaches: at the offset that its resumption names, and by
-- `AttachPathB`, which names none.
pub data Way : Type 0 where
  resuming : ℕ → Way
  path_b : Way

abbrev pub attach_by : StreamState → Way → StreamState × SessionResult ℕ
attach_by s (resuming offset) = attach s offset
attach_by s path_b = attach_path_b s

attach-IsCurrent :
    (s : StreamState) (way : Way) (generation : ℕ)
    → s.generation + 1 < u64_mod
    → (attach_by s way).1 ≡ ok generation
    → (generation ≡ s.generation + 1)
      × ((attach_by s way).0.generation ≡ generation)
      × (is_current (attach_by s way).0 generation ≡ true)
unfolding attach attach_path_b is_current
attach-IsCurrent s (resuming offset) generation h e = ground (arith, e)
attach-IsCurrent s path_b generation h e = ground (arith, e)

-- A connection that another has superseded, one that resumes at an offset or one attached by
-- `AttachPathB`, is current no more, and whatever happens afterwards its detaching changes
-- nothing, as long as the generations stay below 2^64; the new connection is the current one.
pub attach_supersedes :
    (s : StreamState) (way : Way) (old generation : ℕ) (es : List Event) (now : Timestamp)
    → is_current s old ≡ true
    → (attach_by s way).1 ≡ ok generation
    → s.generation + 1 + length es < u64_mod
    → let s' = (attach_by s way).0 in
      (is_current s' generation ≡ true)
      × (is_current (run s' es) old ≡ false)
      × (detach (run s' es) old now ≡ run s' es)
unfolding is_current detach
attach_supersedes s way old generation es now c e h = ground (
  arith,
  attach-IsCurrent s way generation (omega arith) e,
  generation-run es (attach_by s way).0,
)
