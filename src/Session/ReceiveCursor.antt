-- ===== src/Session/ReceiveCursor.antt =====
-- src/session/receive_cursor.cpp: which bytes of a Data frame are new.
-- A method that changes the cursor returns the new cursor beside its result.
pub mod Laws
use zet.Prelude.{
  ℕ, ◌+◌, ◌-◌, ◌≤◌, ◌<◌, Bool, true, false, List, [], ok, err, if◌then◌else◌, ltb, leb, length,
  drop, take, add64, sub64, u64_mod,
}
use zet.Session.Error.{SessionResult, stream_gap}

pub data EInputAck : Type 0 where
  on_receipt on_delivery : EInputAck

pub record ReceiveCursor : Type 0 where
  pub recv_offset : ℕ
  pub pending : ℕ
  pub ack : EInputAck

unfoldable pub init : ℕ → EInputAck → ReceiveCursor
init initial_offset ack = record { recv_offset = initial_offset; pending = 0; ack = ack }

unfoldable pub add_pending : EInputAck → ℕ → ℕ → ℕ
add_pending on_receipt pending n = pending
add_pending on_delivery pending n = add64 pending n

-- The result is the part of `bytes` that is new.
unfoldable pub receive : ReceiveCursor → ℕ → List ℕ → ReceiveCursor × SessionResult (List ℕ)
unfolding add_pending
receive c offset bytes =
    let end_offset = add64 offset (length bytes) in
    let new_bytes = drop (sub64 c.recv_offset offset) bytes in
    if ltb (u64_mod - 1 - offset) (length bytes)
    then (c, err stream_gap)
    else if ltb c.recv_offset offset
    then (c, err stream_gap)
    else if leb end_offset c.recv_offset
    then (c, ok [])
    else (
      record c {
        recv_offset = add64 c.recv_offset (length new_bytes);
        pending = add_pending c.ack c.pending (length new_bytes);
      },
      ok new_bytes,
    )

unfoldable pub ack_offset : ReceiveCursor → ℕ
ack_offset c = sub64 c.recv_offset c.pending

unfoldable pub mark_delivered : ReceiveCursor → ℕ → ReceiveCursor × Bool
mark_delivered c count =
    if ltb c.pending count then (c, false) else (record c { pending = c.pending - count }, true)

unfoldable pub unreceive : ReceiveCursor → ℕ → ReceiveCursor × Bool
unreceive c count =
    if ltb c.pending count
    then (c, false)
    else (record c { pending = c.pending - count; recv_offset = sub64 c.recv_offset count }, true)

unfoldable pub reset : ReceiveCursor → ℕ → ReceiveCursor
reset c offset = record c { recv_offset = offset; pending = 0 }
