-- ===== src/App/ByteQueue/Laws.antt =====
-- What waits in a byte queue, and how much memory that takes.
use zet.Prelude.{
  ℕ, ◌+◌, ◌-◌, ◌*◌, ◌≤◌, ◌<◌, min, ◌≡◌, sym, ap, ◌∙◌, ◌⊎◌, inl, inr, true, false, List, ◌++◌, arith,
  length, drop, drop-drop, drop-append_le, drop-all, length-drop, length-append, dec_lt,
}
use zet.App.ByteQueue.{
  ByteQueue, queue_of, queue_size, queue_front, append_below, append_limited, consume,
}

-- At most half of the memory is bytes that have been taken.
pub record IsValid (q : ByteQueue) : Type 0 where
  pub half : 2 * q.head ≤ length q.bytes

pub queue_of-IsValid : (limit : ℕ) → IsValid (queue_of limit)
unfolding queue_of
queue_of-IsValid limit = omega arith

abbrev next_head : ByteQueue → ℕ → ℕ
next_head q count = q.head + min count (length q.bytes - q.head)

drop-next_head :
    (q : ByteQueue) (count : ℕ)
    → IsValid q
    → drop (next_head q count) q.bytes ≡ drop count (queue_front q)
unfolding queue_front
drop-next_head q count v = elim (dec_lt (length q.bytes - q.head) count) [
  | yes p ↦
      drop-all (next_head q count) q.bytes (omega arith)
      ∙ sym (drop-all count (drop q.head q.bytes) (omega (arith, length-drop q.head q.bytes)))
  | no p ↦
      ap (λ k. drop k q.bytes) {x = next_head q count} {y = q.head + count} (omega arith)
      ∙ sym (drop-drop count q.head q.bytes)
]

-- In a valid queue, `Consume` takes its count off the front of what waits, or all of it if there
-- is less, and leaves the queue valid: at most half of the memory is bytes that have been taken.
pub queue_front-consume :
    (q : ByteQueue) (count : ℕ)
    → IsValid q
    → let q' = consume q count in (queue_front q' ≡ drop count (queue_front q)) × IsValid q'
unfolding consume queue_front queue_size
queue_front-consume q count v = (
  ground (arith, drop-next_head q count v, drop-all (next_head q count) q.bytes),
  ground (arith, length-drop (next_head q count) q.bytes),
)

-- In a valid queue, `Append` puts the bytes behind what waits if both together are within the
-- limit, and otherwise refuses them and changes nothing; either way the queue stays valid.
pub queue_front-append_limited :
    (q : ByteQueue) (bytes : List ℕ)
    → IsValid q
    → let (q', taken) = append_limited q bytes in
      IsValid q'
      × (((queue_size q + length bytes ≤ q.limit)
            × (taken ≡ true)
            × (queue_front q' ≡ queue_front q ++ bytes))
          ⊎ ((q.limit < queue_size q + length bytes) × (taken ≡ false) × (q' ≡ q)))
unfolding append_limited append_below queue_front queue_size
queue_front-append_limited q bytes v =
    elim (dec_lt q.limit (length q.bytes - q.head + length bytes)) [
      | yes p ↦ (ground arith, inr (p, ground arith, ground arith))
      | no p ↦ (
        ground (arith, length-append q.bytes bytes),
        inl (
          omega arith,
          ground arith,
          ground (arith, drop-append_le q.head q.bytes bytes (omega arith)),
        ),
      )
    ]
