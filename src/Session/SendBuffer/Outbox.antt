-- ===== src/Session/SendBuffer/Outbox.antt =====
-- What send_buffer.hpp promises, with no ring: a run of bytes from an absolute offset on, of which
-- at most `cap` are held. `Refine` compares the ring with it.
use zet.Prelude.{
  ℕ, ◌+◌, ◌-◌, ◌%◌, min, max, Bool, true, false, List, [], ◌∷◌, ◌++◌, ok, err, if◌then◌else◌, ltb,
  length, take, drop, u32_mod,
}
use zet.Session.Error.{SessionResult, ack_beyond_sent, peer_behind_buffer}

pub record Outbox : Type 0 where
  pub base : ℕ
  pub bytes : List ℕ
  pub next : ℕ
  pub overflowed : Bool
  pub gen : ℕ

abbrev pub last : Outbox → ℕ
last o = o.base + length o.bytes

-- The calls that a session makes, and what it sees of each.
pub data Call : Type 0 where
  append : List ℕ → Call
  acknowledge : ℕ → Call
  copy_out : ℕ → ℕ → Call
  reset_send_next : ℕ → Call
  advance_send_next : ℕ → Call
  set_ring_overflowed : Call
  new_generation : Call
  base : Call
  finish : Call
  send_next : Call
  unsent : Call
  size : Call
  room : Call
  ring_overflowed : Call
  session_gen : Call

pub data Reply : Type 0 where
  taken : ℕ → Reply
  status : SessionResult (Unit {0}) → Reply
  copied : List ℕ → Reply
  done : Reply
  number : ℕ → Reply
  flag : Bool → Reply

abbrev pub trim : Outbox → ℕ → Outbox
trim o offset = record o {
  base = max o.base offset;
  bytes = drop (offset - o.base) o.bytes;
  next = max o.next offset;
}

module _ (cap : ℕ) where
  unfoldable pub step : Outbox → Call → Reply × Outbox
  step o (append bs) =
      let n = min (length bs) (cap - length o.bytes) in
      (taken n, record o { bytes = o.bytes ++ take n bs })
  step o (acknowledge offset) =
      if ltb (last o) offset
      then (status (err ack_beyond_sent), o)
      else (status (ok tt), trim o (if ltb offset o.base then 0 else offset))
  step o (copy_out from dest) =
      (copied (if ltb from o.base then [] else take dest (drop (from - o.base) o.bytes)), o)
  step o (reset_send_next offset) =
      if ltb (last o) offset
      then (status (err ack_beyond_sent), o)
      else if ltb offset o.base
      then (status (err peer_behind_buffer), o)
      else (status (ok tt), record (trim o offset) { next = offset })
  step o (advance_send_next n) = (done, record o { next = min (last o) (o.next + n) })
  step o set_ring_overflowed = (done, record o { overflowed = true })
  step o new_generation = (
    done,
    record { base = 0; bytes = []; next = 0; overflowed = false; gen = (o.gen + 1) % u32_mod },
  )
  -- What the session and its channel read.
  step o base = (number o.base, o)
  step o finish = (number (last o), o)
  step o send_next = (number o.next, o)
  step o unsent = (number (last o - o.next), o)
  step o size = (number (length o.bytes), o)
  step o room = (number (cap - length o.bytes), o)
  step o ring_overflowed = (flag o.overflowed, o)
  step o session_gen = (number o.gen, o)

  unfoldable pub run : Outbox → List Call → List Reply
  run o [] = []
  run o (c ∷ cs) = let (r, o') = step o c in r ∷ run o' cs
