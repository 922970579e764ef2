-- ===== src/Session/Link/Progress.antt =====
-- The stream of src/session behind a resumption, however the connection was lost before.
use zet.Prelude.{
  ℕ, zero, suc, ◌+◌, ◌-◌, ◌≤◌, ◌<◌, min, ◌≡◌, refl, sym, ap, subst, ◌∙◌, true, List, [], ◌∷◌, ◌++◌,
  arith, length, take, drop, take-all, u64_mod, if_cases, ltb, ◌&&◌,
}
use zet.Session.SendBuffer
use zet.Session.ReceiveCursor
use zet.Session.Link.{
  Link, Frame, init, seal, deliver, deliver_first, lose, Move, move, run, seals, delivers, loses,
  resumes,
}
use zet.Session.Link.Inv.{Inv, Chain, init-Inv}
use zet.Session.Link.Keeps.{
  live-Chain, sealed, seal_eq, lose-Inv, sealed-Inv, deliver-Inv, deliver_one,
}
use zet.Session.Link.Safety.{resumed, resume_eq, resumed-Inv, offered, run-Inv, written-init}

-- A connection that is idle: up, with nothing under way.
record IsIdle (l : Link) : Type 0 where
  inv : Inv l
  up : l.up ≡ true
  empty : l.frames ≡ []

-- One frame is sealed and arrives.
abbrev round : Link → ℕ → Link
round l payload_cap = deliver (seal l payload_cap)

record Advanced (l l' : Link) : Type 0 where
  idle : IsIdle l'
  written : l'.written ≡ l.written
  finish : l'.sender.finish ≡ l.sender.finish
  closer : l'.sender.finish - l'.sender.send_next ≤ l.sender.finish - l.sender.send_next - 1

sealed_next :
    {l : Link} (n : ℕ)
    → Inv l
    → l.sender.send_next + n ≤ l.sender.finish
    → ((sealed l n).sender.send_next ≡ l.sender.send_next + n)
      × ((sealed l n).sender.finish ≡ l.sender.finish)
unfolding sealed SendBuffer.advance_send_next
sealed_next n v h = ground arith

-- The frame that `sealed` puts behind the others.
abbrev fresh : Link → ℕ → Frame
fresh l n = record {
  offset = l.sender.send_next;
  payload = take n (drop l.sender.send_next l.written);
}

sealed_frames : (l : Link) (n : ℕ) → l.frames ≡ [] → (sealed l n).frames ≡ fresh l n ∷ []
unfolding sealed
sealed_frames l n e = ap (λ fs. fs ++ (fresh l n ∷ [])) e

sealed_rest : (l : Link) (n : ℕ) → ((sealed l n).written ≡ l.written) × ((sealed l n).up ≡ l.up)
unfolding sealed
sealed_rest l n = (refl, refl)

sealed_round :
    {l : Link} (n : ℕ)
    → IsIdle l
    → 0 < n
    → l.sender.send_next + n ≤ l.sender.finish
    → Advanced l (deliver (sealed l n))
sealed_round {l} n i p h =
    let valid = sealed-Inv n i.inv i.up h in
    let up = (sealed_rest l n).1 ∙ i.up in
    let (frames, sender, written, still) =
      deliver_one (fresh l n) valid up (sealed_frames l n i.empty) in
    let (next, finish) = sealed_next n i.inv h in
    let last = ap (λ b. b.finish) sender ∙ finish in
    record {
      idle = record { inv = deliver-Inv valid; up = still ∙ up; empty = frames };
      written = written ∙ (sealed_rest l n).0;
      finish = last;
      closer = omega (arith, last, ap (λ b. b.send_next) sender, next);
    }

none_round : {l : Link} → IsIdle l → l.sender.finish ≤ l.sender.send_next → Advanced l (deliver l)
unfolding deliver
none_round {l} i h =
    subst (λ fs. Advanced l (deliver_first l fs)) (sym i.empty)
      (record { idle = i; written = refl; finish = refl; closer = omega arith })

round-Advanced :
    {l : Link} (payload_cap : ℕ) → IsIdle l → 0 < payload_cap → Advanced l (round l payload_cap)
round-Advanced {l} payload_cap i h = rw (seal_eq payload_cap i.inv) (
    if_cases (λ k. Advanced l (deliver k)) (l.up && ltb 0 n) (sealed l n) l
      (λ t. sealed_round n i (ground arith) (omega arith)) (λ f. none_round i (ground arith)))
  where
    n : ℕ
    n = min payload_cap (l.sender.finish - l.sender.send_next)

-- So many frames are sealed and arrive, one after the other.
abbrev pub rounds : ℕ → ℕ → List Move
rounds zero payload_cap = []
rounds (suc k) payload_cap = seals payload_cap ∷ delivers ∷ rounds k payload_cap

idle_end : {l : Link} → IsIdle l → l.sender.send_next ≤ l.receiver.recv_offset
idle_end {l} i =
    subst (λ fs. Chain l.receiver.recv_offset fs l.sender.send_next) i.empty (live-Chain i.inv i.up)

rounds_end :
    (k : ℕ) {l : Link} (payload_cap : ℕ)
    → IsIdle l
    → 0 < payload_cap
    → l.sender.finish - l.sender.send_next ≤ k
    → let l' = run l (rounds k payload_cap) in
      (l'.delivered ≡ l'.written) × (l'.written ≡ l.written)
unfolding run move
rounds_end zero {l} payload_cap i h e =
    (i.inv.got ∙ take-all _ l.written (omega (arith, idle_end i)), refl)
rounds_end (suc k) {l} payload_cap i h e =
    let a = round-Advanced payload_cap i h in
    let (all, same) = rounds_end k payload_cap a.idle h (omega (arith, a.closer)) in
    (all, same ∙ a.written)

resumed-IsIdle : {l : Link} → Inv l → IsIdle (resumed l)
unfolding resumed
resumed-IsIdle v = record { inv = resumed-Inv v; up = refl; empty = refl }

resumed_rest :
    (l : Link) → ((resumed l).written ≡ l.written) × ((resumed l).sender.finish ≡ l.sender.finish)
unfolding resumed
resumed_rest l = (refl, refl)

lose_rest : (l : Link) → ((lose l).written ≡ l.written) × ((lose l).sender.finish ≡ l.sender.finish)
unfolding lose
lose_rest l = (refl, refl)

catch_up :
    {l : Link} (payload_cap k : ℕ)
    → Inv l
    → 0 < payload_cap
    → length l.written ≤ k
    → (run l (loses ∷ resumes ∷ rounds k payload_cap)).delivered ≡ l.written
unfolding run move
catch_up {l} payload_cap k v h e =
    let lost = lose-Inv v in
    let (same, finish) = resumed_rest (lose l) in
    let (same', finish') = lose_rest l in
    let (all, kept) =
      rounds_end k payload_cap (resumed-IsIdle lost) h (omega (arith, finish, finish', v.total)) in
    ap (λ r. (run r (rounds k payload_cap)).delivered) (resume_eq lost) ∙ all ∙ kept ∙ same ∙ same'

-- After any history of fewer than 2^64 written bytes a connection that is lost costs nothing: once
-- the session has resumed, frames that arrive one by one, at most one for each byte that was ever
-- written and of any payload size but 0, leave the reader with all that was written, each byte
-- once and in order.
pub stream_resumes :
    (storage : List ℕ) (ack : ReceiveCursor.EInputAck) (ms : List Move) (payload_cap : ℕ)
    → length storage < u64_mod
    → offered ms < u64_mod
    → 0 < payload_cap
    → let l = run (init storage ack) ms in
      (run l (loses ∷ resumes ∷ rounds (length l.written) payload_cap)).delivered ≡ l.written
stream_resumes storage ack ms payload_cap h k p =
    catch_up payload_cap _
      (run-Inv ms (init-Inv storage ack h) (omega (arith, written-init storage ack))) p
      (omega arith)
