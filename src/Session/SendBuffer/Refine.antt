-- ===== src/Session/SendBuffer/Refine.antt =====
-- A valid send buffer against the run of bytes that it holds.
use zet.Prelude.{
  max, ok, ℕ, zero, ◌+◌, ◌-◌, ◌%◌, ◌≤◌, ◌<◌, min, ◌≡◌, refl, sym, ap, ap₂, ◌∙◌, List, [], ◌++◌,
  append-nil, arith, length, take, drop, ltb, dec_lt, add64, sub64_eq, lt→ltb, le→ltb,
  if◌then◌else◌, u64_mod,
}
use zet.Session.Error.{SessionResult}
use zet.Session.SendBuffer.{
  SendBuffer, capacity, room, append, acknowledge, copy_out, reset_send_next, advance_send_next,
  copy_in,
}
use zet.Session.SendBuffer.Window.{
  length-copy_in, window, length-window, take-window, drop-window, copy_from-window,
}
use zet.Session.SendBuffer.Ring.{window-copy_in}
use zet.Session.SendBuffer.Valid.{IsValid, room_eq}
use zet.Session.SendBuffer.Outbox
use zet.Session.SendBuffer.Outbox.{Outbox, Call, Reply, taken, status, copied, done}

-- The bytes that are held, oldest first.
abbrev pub contents : SendBuffer → List ℕ
contents b = window b.storage b.base (b.finish - b.base)

abbrev pub view : SendBuffer → Outbox
view b = record {
  base = b.base;
  bytes = contents b;
  next = b.send_next;
  overflowed = b.ring_overflowed;
  gen = b.session_gen;
}

pub length-contents : (b : SendBuffer) → length (contents b) ≡ b.finish - b.base
length-contents b = length-window b.storage b.base (b.finish - b.base)

append_none :
    {b : SendBuffer} (bytes : List ℕ)
    → IsValid b
    → min (length bytes) (room b) ≡ 0
    → append b bytes ≡ (b, 0)
unfolding append
append_none bytes v e = ground arith

append_some :
    {b : SendBuffer} (bytes : List ℕ)
    → IsValid b
    → let n = min (length bytes) (room b) in
      0 < n
      → append b bytes ≡ (
        record b {
          storage = copy_in b.storage (b.finish % capacity b) bytes n;
          finish = add64 b.finish n;
        },
        n,
      )
unfolding append
append_some bytes v h = ground (arith, room_eq v)

-- `Append` takes what fits and puts it behind what is held; nothing else moves.
pub contents-append :
    {b : SendBuffer} (bytes : List ℕ)
    → IsValid b
    → b.finish + length bytes < u64_mod
    → let (b', n) = append b bytes in
      (n ≡ min (length bytes) (capacity b - (b.finish - b.base)))
      × (contents b' ≡ contents b ++ take n bytes)
      × (b'.finish ≡ b.finish + n)
      × (b'.base ≡ b.base)
      × (b'.send_next ≡ b.send_next)
      × (b'.ring_overflowed ≡ b.ring_overflowed)
      × (b'.session_gen ≡ b.session_gen)
      × (capacity b' ≡ capacity b)
contents-append {b} bytes v h = elim (dec_lt 0 n) [
  | yes p ↦ rw (append_some bytes v p) (
    fits,
    grown p,
    omega (arith, room_eq v),
    refl,
    refl,
    refl,
    refl,
    length-copy_in b.storage (b.finish % capacity b) bytes n,
  )
  | no p ↦
      let e : n ≡ 0 = omega arith in
      rw (append_none bytes v e) (
        omega (arith, room_eq v),
        sym (append-nil (contents b)),
        omega arith,
        refl,
        refl,
        refl,
        refl,
        refl,
      )
]
  where
    n : ℕ
    n = min (length bytes) (room b)

    used : ℕ
    used = b.finish - b.base

    fits : n ≡ min (length bytes) (capacity b - used)
    fits = omega (arith, room_eq v)

    grown :
        0 < n
        → window
            (copy_in b.storage (b.finish % capacity b) bytes n)
            b.base
            (add64 b.finish n - b.base)
          ≡ contents b ++ take n bytes
    grown p =
        ap (window (copy_in b.storage (b.finish % capacity b) bytes n) b.base) {y = used + n}
          (omega (arith, room_eq v))
        ∙ window-copy_in b.storage b.finish bytes n p (omega (arith, room_eq v))
            (omega (arith, room_eq v)) b.base used (omega arith) (omega (arith, room_eq v))

copy_out_below : (b : SendBuffer) (from dest : ℕ) → from < b.base → copy_out b from dest ≡ []
unfolding copy_out
copy_out_below b from dest h = ground arith

copy_out_above : (b : SendBuffer) (from dest : ℕ) → b.finish ≤ from → copy_out b from dest ≡ []
unfolding copy_out
copy_out_above b from dest h = ground arith

copy_out_inside :
    {b : SendBuffer} (from dest : ℕ)
    → IsValid b
    → b.base ≤ from
    → from < b.finish
    → copy_out b from dest ≡ window b.storage from (min dest (b.finish - from))
unfolding copy_out
copy_out_inside {b} from dest v h k = ground (
  arith,
  sub64_eq b.finish from (omega arith) (omega arith),
  copy_from-window b.storage from (min dest (b.finish - from)),
)

take-drop-contents :
    (b : SendBuffer) (from dest : ℕ)
    → b.base ≤ from
    → take dest (drop (from - b.base) (contents b))
      ≡ window b.storage from (min dest (b.finish - from))
take-drop-contents b from dest h =
    ap (take dest) (drop-window b.storage b.base (b.finish - b.base) (from - b.base))
    ∙ take-window b.storage (b.base + (from - b.base)) (b.finish - b.base - (from - b.base)) dest
    ∙ ap₂ (window b.storage) (omega arith) (omega arith)

-- `CopyOut` reads the bytes at the offset that it is given, and none below what is held.
pub copy_out-contents :
    {b : SendBuffer} (from dest : ℕ)
    → IsValid b
    → copy_out b from dest
      ≡ (if ltb from b.base then [] else take dest (drop (from - b.base) (contents b)))
copy_out-contents {b} from dest v = elim (dec_lt from b.base) [
  | yes p ↦ rw (lt→ltb _ _ p) (copy_out_below b from dest p)
  | no p ↦
      rw (le→ltb from b.base (omega arith), take-drop-contents b from dest (omega arith))
        (elim (dec_lt from b.finish) [
          | yes q ↦ copy_out_inside from dest v (omega arith) q
          | no q ↦
              copy_out_above b from dest (omega arith)
              ∙ ap (window b.storage from) {x = zero} (omega arith)
        ])
]

-- `Acknowledge` and `ResetSendNext` let go of the bytes below the offset, and of nothing more.
pub contents_trimmed :
    (b : SendBuffer) (offset : ℕ)
    → b.base ≤ offset
    → window b.storage offset (b.finish - offset) ≡ drop (offset - b.base) (contents b)
contents_trimmed b offset h = sym (
    drop-window b.storage b.base (b.finish - b.base) (offset - b.base)
    ∙ ap₂ (window b.storage) (omega arith) (omega arith))

abbrev outcome : SendBuffer × SessionResult (Unit {0}) → Reply × Outbox
outcome (b, r) = (status r, view b)

pub acknowledge_refines :
    {b : SendBuffer} (offset : ℕ)
    → IsValid b
    → outcome (acknowledge b offset) ≡ Outbox.step (capacity b) (view b) (Call.acknowledge offset)
unfolding acknowledge Outbox.step
acknowledge_refines {b} offset v = elim (dec_lt b.base offset) [
  | yes p ↦ ground (arith, length-contents b, contents_trimmed b offset (omega arith))
  | no p ↦ ground (arith, length-contents b)
]

pub reset_send_next_refines :
    {b : SendBuffer} (offset : ℕ)
    → IsValid b
    → outcome (reset_send_next b offset)
      ≡ Outbox.step (capacity b) (view b) (Call.reset_send_next offset)
unfolding reset_send_next Outbox.step
reset_send_next_refines {b} offset v = elim (dec_lt b.base offset) [
  | yes p ↦ ground (arith, length-contents b, contents_trimmed b offset (omega arith))
  | no p ↦ ground (arith, length-contents b)
]

pub advance_send_next_refines :
    {b : SendBuffer} (n : ℕ)
    → IsValid b
    → b.send_next + n < u64_mod
    → view (advance_send_next b n)
      ≡ (Outbox.step (capacity b) (view b) (Call.advance_send_next n)).1
unfolding advance_send_next Outbox.step
advance_send_next_refines {b} n v h = ground (arith, length-contents b)

-- What an acknowledgement, and a resumption, of bytes that are held come to.
pub acknowledge_eq :
    {b : SendBuffer} (offset : ℕ)
    → IsValid b
    → offset ≤ b.finish
    → acknowledge b offset
      ≡ (record b { base = max b.base offset; send_next = max b.send_next offset }, ok tt)
unfolding acknowledge
acknowledge_eq offset v h = ground arith

pub reset_send_next_eq :
    {b : SendBuffer} (offset : ℕ)
    → IsValid b
    → b.base ≤ offset
    → offset ≤ b.finish
    → reset_send_next b offset ≡ (record b { base = offset; send_next = offset }, ok tt)
unfolding reset_send_next
reset_send_next_eq offset v h k = ground arith
