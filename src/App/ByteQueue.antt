-- ===== src/App/ByteQueue.antt =====
-- src/app/byte_queue.cpp: bytes that wait to be written, taken off the front without a copy of the
-- rest at every step.
pub mod Laws
use zet.Prelude.{
  ℕ, ◌+◌, ◌-◌, ◌/◌, ◌≤◌, min, Bool, true, false, ◌||◌, List, [], ◌++◌, if◌then◌else◌, ltb, ◌==◌,
  length, drop,
}

pub record ByteQueue : Type 0 where
  pub limit : ℕ
  pub bytes : List ℕ
  pub head : ℕ

unfoldable pub queue_of : ℕ → ByteQueue
queue_of limit = record { limit = limit; bytes = []; head = 0 }

-- The head never passes the end (`IsValid` in `Laws`), so this does not wrap.
unfoldable pub queue_size : ByteQueue → ℕ
queue_size q = length q.bytes - q.head

unfoldable pub queue_front : ByteQueue → List ℕ
queue_front q = drop q.head q.bytes

unfoldable pub queue_room : ByteQueue → ℕ
unfolding queue_size
queue_room q = if ltb (queue_size q) q.limit then q.limit - queue_size q else 0

unfoldable pub append_below : ByteQueue → List ℕ → ℕ → ByteQueue × Bool
unfolding queue_size
append_below q bytes ceiling =
    if ltb ceiling (queue_size q) || ltb (ceiling - queue_size q) (length bytes)
    then (q, false)
    else (record q { bytes = q.bytes ++ bytes }, true)

unfoldable pub append_limited : ByteQueue → List ℕ → ByteQueue × Bool
unfolding append_below
append_limited q bytes = append_below q bytes q.limit

unfoldable pub consume : ByteQueue → ℕ → ByteQueue
unfolding queue_size
consume q count =
    let head = q.head + min count (queue_size q) in
    if head == length q.bytes
    then record q { bytes = []; head = 0 }
    else if ltb (length q.bytes / 2) head
    then record q { bytes = drop head q.bytes; head = 0 }
    else record q { head = head }
