-- ===== src/Session/SendBuffer/Calls.antt =====
-- Any sequence of calls of SendBuffer, against the same calls of its specification.
use zet.Prelude.{ℕ, ◌+◌, ◌≤◌, ◌<◌, ◌≡◌, refl, ap, ap₂, ◌∙◌, List, [], ◌∷◌, arith, length, u64_mod}
use zet.Session.SendBuffer.{
  SendBuffer, capacity, append, acknowledge, copy_out, reset_send_next, advance_send_next,
  set_ring_overflowed, new_generation, unsent, size, room,
}
use zet.Session.SendBuffer.Valid.{
  IsValid, append-IsValid, acknowledge-IsValid, reset_send_next-IsValid, advance_send_next-IsValid,
  set_ring_overflowed-IsValid, new_generation-IsValid, unsent_eq, size_eq, room_eq,
}
use zet.Session.SendBuffer.Outbox
use zet.Session.SendBuffer.Outbox.{Outbox, Call, Reply, taken, status, copied, done, number, flag}
use zet.Session.SendBuffer.Refine.{
  view, length-contents, contents-append, copy_out-contents, acknowledge_refines,
  reset_send_next_refines, advance_send_next_refines,
}

pub step : SendBuffer → Call → Reply × SendBuffer
step b (Call.append bytes) = let (b', n) = append b bytes in (taken n, b')
step b (Call.acknowledge offset) = let (b', r) = acknowledge b offset in (status r, b')
step b (Call.copy_out from dest) = (copied (copy_out b from dest), b)
step b (Call.reset_send_next offset) = let (b', r) = reset_send_next b offset in (status r, b')
step b (Call.advance_send_next n) = (done, advance_send_next b n)
step b Call.set_ring_overflowed = (done, set_ring_overflowed b)
step b Call.new_generation = (done, new_generation b)
step b Call.base = (number b.base, b)
step b Call.finish = (number b.finish, b)
step b Call.send_next = (number b.send_next, b)
step b Call.unsent = (number (unsent b), b)
step b Call.size = (number (size b), b)
step b Call.room = (number (room b), b)
step b Call.ring_overflowed = (flag b.ring_overflowed, b)
step b Call.session_gen = (number b.session_gen, b)

pub run : SendBuffer → List Call → List Reply
run b [] = []
run b (c ∷ cs) = let (r, b') = step b c in r ∷ run b' cs

-- What one call adds to the highest offset `top`.
abbrev grown : ℕ → Call → ℕ
grown top (Call.append bytes) = top + length bytes
grown top c = top

-- The offsets that a call computes stay below 2^64.
abbrev pub CallInRange : ℕ → Call → Type 0
CallInRange top (Call.append bytes) = top + length bytes < u64_mod
CallInRange top (Call.advance_send_next n) = top + n < u64_mod
CallInRange top c = Unit {0}

abbrev pub InRange : ℕ → List Call → Type 0
InRange top [] = Unit {0}
InRange top (c ∷ cs) = CallInRange top c × InRange (grown top c) cs

step-IsValid :
    {b : SendBuffer} (c : Call) → IsValid b → CallInRange b.finish c → IsValid (step b c).1
unfolding step
step-IsValid (Call.append bytes) v h = append-IsValid bytes v h
step-IsValid (Call.acknowledge offset) v h = acknowledge-IsValid offset v
step-IsValid (Call.copy_out from dest) v h = v
step-IsValid (Call.reset_send_next offset) v h = reset_send_next-IsValid offset v
step-IsValid (Call.advance_send_next n) v h = advance_send_next-IsValid n v (omega arith)
step-IsValid Call.set_ring_overflowed v h = set_ring_overflowed-IsValid v
step-IsValid Call.new_generation v h = new_generation-IsValid v
step-IsValid Call.base v h = v
step-IsValid Call.finish v h = v
step-IsValid Call.send_next v h = v
step-IsValid Call.unsent v h = v
step-IsValid Call.size v h = v
step-IsValid Call.room v h = v
step-IsValid Call.ring_overflowed v h = v
step-IsValid Call.session_gen v h = v

capacity-step :
    {b : SendBuffer} (c : Call)
    → IsValid b
    → CallInRange b.finish c
    → capacity (step b c).1 ≡ capacity b
unfolding step acknowledge reset_send_next advance_send_next set_ring_overflowed new_generation
capacity-step (Call.append bytes) v h = (contents-append bytes v h).7
capacity-step (Call.acknowledge offset) v h = ground arith
capacity-step (Call.copy_out from dest) v h = refl
capacity-step (Call.reset_send_next offset) v h = ground arith
capacity-step (Call.advance_send_next n) v h = refl
capacity-step Call.set_ring_overflowed v h = refl
capacity-step Call.new_generation v h = refl
capacity-step Call.base v h = refl
capacity-step Call.finish v h = refl
capacity-step Call.send_next v h = refl
capacity-step Call.unsent v h = refl
capacity-step Call.size v h = refl
capacity-step Call.room v h = refl
capacity-step Call.ring_overflowed v h = refl
capacity-step Call.session_gen v h = refl

finish-step :
    {b : SendBuffer} (c : Call)
    → IsValid b
    → CallInRange b.finish c
    → (step b c).1.finish ≤ grown b.finish c
unfolding step acknowledge reset_send_next advance_send_next set_ring_overflowed new_generation
finish-step (Call.append bytes) v h = omega (arith, contents-append bytes v h)
finish-step (Call.acknowledge offset) v h = ground arith
finish-step (Call.copy_out from dest) v h = omega arith
finish-step (Call.reset_send_next offset) v h = ground arith
finish-step (Call.advance_send_next n) v h = omega arith
finish-step Call.set_ring_overflowed v h = omega arith
finish-step Call.new_generation v h = omega arith
finish-step Call.base v h = omega arith
finish-step Call.finish v h = omega arith
finish-step Call.send_next v h = omega arith
finish-step Call.unsent v h = omega arith
finish-step Call.size v h = omega arith
finish-step Call.room v h = omega arith
finish-step Call.ring_overflowed v h = omega arith
finish-step Call.session_gen v h = omega arith

-- One call returns what the specification returns, and leaves the ring holding what the
-- specification holds.
pub step_refines :
    {b : SendBuffer} (c : Call)
    → IsValid b
    → CallInRange b.finish c
    → let (r, b') = step b c in (r, view b') ≡ Outbox.step (capacity b) (view b) c
unfolding step Outbox.step set_ring_overflowed new_generation
step_refines {b} (Call.append bytes) v h =
    ground (arith, contents-append bytes v h, length-contents b)
step_refines (Call.acknowledge offset) v h = acknowledge_refines offset v
step_refines {b} (Call.copy_out from dest) v h =
    ap (λ xs. (copied xs, view b)) (copy_out-contents from dest v)
step_refines (Call.reset_send_next offset) v h = reset_send_next_refines offset v
step_refines (Call.advance_send_next n) v h =
    ap (λ o. (done, o)) (advance_send_next_refines n v (omega arith))
step_refines Call.set_ring_overflowed v h = refl
step_refines Call.new_generation v h = refl
step_refines Call.base v h = refl
step_refines {b} Call.finish v h =
    ap (λ n. (number n, view b)) (omega (arith, v, length-contents b))
step_refines Call.send_next v h = refl
step_refines {b} Call.unsent v h =
    ap (λ n. (number n, view b)) (omega (arith, unsent_eq v, length-contents b))
step_refines {b} Call.size v h =
    ap (λ n. (number n, view b)) (omega (arith, size_eq v, length-contents b))
step_refines {b} Call.room v h =
    ap (λ n. (number n, view b)) (omega (arith, room_eq v, length-contents b))
step_refines Call.ring_overflowed v h = refl
step_refines Call.session_gen v h = refl

CallInRange-mono : {t u : ℕ} (c : Call) → t ≤ u → CallInRange u c → CallInRange t c
CallInRange-mono (Call.append bytes) l h = omega arith
CallInRange-mono (Call.advance_send_next n) l h = omega arith
CallInRange-mono (Call.acknowledge offset) l h = h
CallInRange-mono (Call.copy_out from dest) l h = h
CallInRange-mono (Call.reset_send_next offset) l h = h
CallInRange-mono Call.set_ring_overflowed l h = h
CallInRange-mono Call.new_generation l h = h
CallInRange-mono Call.base l h = h
CallInRange-mono Call.finish l h = h
CallInRange-mono Call.send_next l h = h
CallInRange-mono Call.unsent l h = h
CallInRange-mono Call.size l h = h
CallInRange-mono Call.room l h = h
CallInRange-mono Call.ring_overflowed l h = h
CallInRange-mono Call.session_gen l h = h

grown_mono : {t u : ℕ} (c : Call) → t ≤ u → grown t c ≤ grown u c
grown_mono (Call.append bytes) l = omega arith
grown_mono _ l = l

InRange-mono : (cs : List Call) {t u : ℕ} → t ≤ u → InRange u cs → InRange t cs
InRange-mono [] l h = h
InRange-mono (c ∷ cs) l h = (CallInRange-mono c l h.0, InRange-mono cs (grown_mono c l) h.1)

-- No sequence of calls, whose offsets stay below 2^64, tells a valid send buffer from the run of
-- bytes that it holds under the bound of its capacity: every reply is the specification's, those
-- to the reads of the base, the end, the send cursor, the counts of bytes held, free and not yet
-- sent, the overflow flag and the generation included.
pub run_refines :
    (cs : List Call) {b : SendBuffer}
    → IsValid b
    → InRange b.finish cs
    → run b cs ≡ Outbox.run (capacity b) (view b) cs
unfolding run Outbox.run
run_refines [] v h = refl
run_refines (c ∷ cs) {b} v h = ap₂ ◌∷◌ (ap (λ p. p.0) e) (
    run_refines cs (step-IsValid c v h.0) (InRange-mono cs (finish-step c v h.0) h.1)
    ∙ ap₂ (λ n o. Outbox.run n o cs) (capacity-step c v h.0) (ap (λ p. p.1) e))
  where
    e : ((step b c).0, view (step b c).1) ≡ Outbox.step (capacity b) (view b) c
    e = step_refines c v h.0
