-- ===== src/Session/SendBuffer/Valid.antt =====
-- The invariant that send_buffer.hpp states, method by method.
use zet.Prelude.{ℕ, ◌+◌, ◌-◌, ◌%◌, ◌≤◌, ◌<◌, min, ◌≡◌, List, arith, length, u64_mod, u32_mod}
use zet.Session.SendBuffer.{
  SendBuffer, init, capacity, size, room, unsent, append, acknowledge, reset_send_next,
  advance_send_next, set_ring_overflowed, new_generation,
}
use zet.Session.SendBuffer.Window.{length-copy_in}

-- base <= send_next <= finish, finish - base <= capacity, and the widths of the fields.
pub record IsValid (b : SendBuffer) : Type 0 where
  pub ordered : b.base ≤ b.send_next
  pub sent : b.send_next ≤ b.finish
  pub fits : b.finish ≤ b.base + capacity b
  pub offsets : b.finish < u64_mod
  pub storage_size : capacity b < u64_mod
  pub gen : b.session_gen < u32_mod

-- A new buffer is valid.
pub init-IsValid :
    (storage : List ℕ) (initial_base : ℕ)
    → length storage < u64_mod
    → initial_base < u64_mod
    → IsValid (init storage initial_base)
unfolding init
init-IsValid storage initial_base h k = omega arith

-- The counts that the accessors compute, without a wrap.
pub size_eq : {b : SendBuffer} → IsValid b → size b ≡ b.finish - b.base
unfolding size
size_eq v = omega arith

pub room_eq : {b : SendBuffer} → IsValid b → room b ≡ capacity b - (b.finish - b.base)
unfolding room size
room_eq v = omega arith

pub unsent_eq : {b : SendBuffer} → IsValid b → unsent b ≡ b.finish - b.send_next
unfolding unsent
unsent_eq v = omega arith

pub append-IsValid :
    {b : SendBuffer} (bytes : List ℕ)
    → IsValid b
    → b.finish + length bytes < u64_mod
    → IsValid (append b bytes).0
unfolding append
append-IsValid {b} bytes v h = ground (
  arith,
  room_eq v,
  length-copy_in b.storage (b.finish % capacity b) bytes (min (length bytes) (room b)),
)

pub acknowledge-IsValid :
    {b : SendBuffer} (ack_offset : ℕ) → IsValid b → IsValid (acknowledge b ack_offset).0
unfolding acknowledge
acknowledge-IsValid ack_offset v = ground arith

pub reset_send_next-IsValid :
    {b : SendBuffer} (peer_recv_offset : ℕ)
    → IsValid b
    → IsValid (reset_send_next b peer_recv_offset).0
unfolding reset_send_next
reset_send_next-IsValid peer_recv_offset v = ground arith

pub advance_send_next-IsValid :
    {b : SendBuffer} (count : ℕ)
    → IsValid b
    → b.send_next + count < u64_mod
    → IsValid (advance_send_next b count)
unfolding advance_send_next
advance_send_next-IsValid count v h = ground arith

pub new_generation-IsValid : {b : SendBuffer} → IsValid b → IsValid (new_generation b)
unfolding new_generation
new_generation-IsValid v = omega arith

pub set_ring_overflowed-IsValid : {b : SendBuffer} → IsValid b → IsValid (set_ring_overflowed b)
unfolding set_ring_overflowed
set_ring_overflowed-IsValid v = omega arith
