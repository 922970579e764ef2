-- ===== src/Session/ReceiveCursor/Laws.antt =====
-- What `Receive`, `MarkDelivered` and `Unreceive` do to the stream that a cursor follows.
use zet.Prelude.{
  ◌⊎◌, inl, inr, max, drop-all, sub64_eq, dec_lt, ℕ, ◌+◌, ◌-◌, ◌≤◌, ◌<◌, ◌≡◌, refl, ap, ◌∙◌, sym,
  List, [], ◌++◌, ok, err, true, false, arith, length, take, drop, length-drop, length-take,
  take-add, drop-take, drop-drop, u64_mod,
}
use zet.Session.Error.{stream_gap}
use zet.Session.ReceiveCursor.{
  ReceiveCursor, EInputAck, on_receipt, on_delivery, init, add_pending, receive, ack_offset,
  mark_delivered, unreceive,
}

abbrev OnReceiptIdle : EInputAck → ℕ → Type 0
OnReceiptIdle on_receipt pending = pending ≡ 0
OnReceiptIdle on_delivery pending = Unit {0}

pub record IsValid (c : ReceiveCursor) : Type 0 where
  pub covered : c.pending ≤ c.recv_offset
  pub width : c.recv_offset < u64_mod
  pub idle : OnReceiptIdle c.ack c.pending

pub init-IsValid : (offset : ℕ) (ack : EInputAck) → offset < u64_mod → IsValid (init offset ack)
unfolding init
init-IsValid offset on_receipt h = omega arith
init-IsValid offset on_delivery h = omega arith

-- The acknowledged offset is what was received less what is pending, without a wrap.
pub ack_offset_eq : {c : ReceiveCursor} → IsValid c → ack_offset c ≡ c.recv_offset - c.pending
unfolding ack_offset
ack_offset_eq v = omega arith

-- What `Receive` acknowledges at once.
abbrev pub acked_after : ReceiveCursor → ℕ → ℕ
acked_after c received = elim c.ack [ on_receipt ↦ received | on_delivery ↦ ack_offset c ]

-- A frame whose end passes 2^64, or that starts above what was received, is a gap.
pub receive_gap :
    (c : ReceiveCursor) (offset : ℕ) (bytes : List ℕ)
    → offset < u64_mod
    → (u64_mod ≤ offset + length bytes) ⊎ (c.recv_offset < offset)
    → receive c offset bytes ≡ (c, err stream_gap)
unfolding receive
receive_gap c offset bytes h (inl g) = ground arith
receive_gap c offset bytes h (inr g) = ground arith

receive_old :
    (c : ReceiveCursor) (offset : ℕ) (bytes : List ℕ)
    → offset + length bytes < u64_mod
    → offset + length bytes ≤ c.recv_offset
    → receive c offset bytes ≡ (c, ok [])
unfolding receive
receive_old c offset bytes h l = ground arith

-- The cursor that a frame reaching past `recv_offset` leaves.
abbrev moved : ReceiveCursor → ℕ → ReceiveCursor
moved c finish = record c {
  recv_offset = finish;
  pending = add_pending c.ack c.pending (finish - c.recv_offset);
}

receive_tail :
    {c : ReceiveCursor} (offset : ℕ) (bytes : List ℕ)
    → IsValid c
    → offset + length bytes < u64_mod
    → offset ≤ c.recv_offset
    → c.recv_offset < offset + length bytes
    → receive c offset bytes
      ≡ (moved c (offset + length bytes), ok (drop (c.recv_offset - offset) bytes))
unfolding receive
receive_tail {c} offset bytes v h l k =
    ground
      (arith, sub64_eq c.recv_offset offset l v.width, length-drop (c.recv_offset - offset) bytes)

moved_lem :
    (recv pending finish : ℕ) (ack : EInputAck)
    → let c : ReceiveCursor = record { recv_offset = recv; pending = pending; ack = ack } in
      IsValid c
      → recv < finish
      → finish < u64_mod
      → (ack_offset (moved c finish) ≡ acked_after c finish) × IsValid (moved c finish)
unfolding add_pending ack_offset
moved_lem recv pending finish on_receipt v h k = omega arith
moved_lem recv pending finish on_delivery v h k = omega arith

acked_idle :
    (recv pending : ℕ) (ack : EInputAck)
    → let c : ReceiveCursor = record { recv_offset = recv; pending = pending; ack = ack } in
      IsValid c → ack_offset c ≡ acked_after c recv
unfolding ack_offset
acked_idle recv pending on_receipt v = omega arith
acked_idle recv pending on_delivery v = refl

-- Any other frame is cut at what was received: the tail is the result, and the cursor moves to the
-- frame's end if that is further.
pub receive_new :
    {c : ReceiveCursor} (offset : ℕ) (bytes : List ℕ)
    → IsValid c
    → offset + length bytes < u64_mod
    → offset ≤ c.recv_offset
    → let (c', r) = receive c offset bytes in
      (r ≡ ok (drop (c.recv_offset - offset) bytes))
      × (c'.recv_offset ≡ max c.recv_offset (offset + length bytes))
      × (ack_offset c' ≡ acked_after c c'.recv_offset)
      × IsValid c'
receive_new {c} offset bytes v h l = elim (dec_lt c.recv_offset (offset + length bytes)) [
  | yes p ↦
      let (acked, valid) = moved_lem c.recv_offset c.pending (offset + length bytes) c.ack v p h in
      rw (receive_tail offset bytes v h l p) (refl, omega arith, acked, valid)
  | no p ↦ rw (receive_old c offset bytes h (omega arith)) (
    ap ok (sym (drop-all (c.recv_offset - offset) bytes (omega arith))),
    omega arith,
    acked_idle c.recv_offset c.pending c.ack v,
    v,
  )
]

-- `MarkDelivered` moves the acknowledged offset up by its count and nothing else; a count past
-- what is pending is refused and changes nothing.
pub mark_delivered_lem :
    {c : ReceiveCursor} (count : ℕ)
    → IsValid c
    → let (c', done) = mark_delivered c count in
      ((count ≤ c.pending)
        × (done ≡ true)
        × (ack_offset c' ≡ ack_offset c + count)
        × (c'.recv_offset ≡ c.recv_offset)
        × (c'.pending + count ≡ c.pending))
      ⊎ ((c.pending < count) × (done ≡ false) × (c' ≡ c))
unfolding mark_delivered ack_offset
mark_delivered_lem {c} count v = elim (dec_lt c.pending count) [
  | yes p ↦ inr (p, ground arith, ground arith)
  | no p ↦ inl (omega arith, ground arith, ground arith, ground arith, ground arith)
]

-- Under OnDelivery, `Receive` of a frame that leaves no gap and ends below 2^64 returns bytes, and
-- taking back as many as it returned restores a valid cursor, so that the peer's resend brings the
-- same bytes again.
pub unreceive-receive :
    {c : ReceiveCursor} (offset : ℕ) (bytes : List ℕ)
    → IsValid c
    → c.ack ≡ on_delivery
    → offset + length bytes < u64_mod
    → offset ≤ c.recv_offset
    → let (c', r) = receive c offset bytes in
      (new : List ℕ) × (r ≡ ok new) × (unreceive c' (length new) ≡ (c, true))
unfolding unreceive add_pending
unreceive-receive {c} offset bytes v e h l = elim (dec_lt c.recv_offset (offset + length bytes)) [
  | yes p ↦ rw (receive_tail offset bytes v h l p) (
    drop (c.recv_offset - offset) bytes,
    refl,
    ground (arith, length-drop (c.recv_offset - offset) bytes),
  )
  | no p ↦ rw (receive_old c offset bytes h (omega arith)) ([], refl, ground arith)
]

acked_after_ge :
    (recv pending : ℕ) (ack : EInputAck) (received : ℕ)
    → let c : ReceiveCursor = record { recv_offset = recv; pending = pending; ack = ack } in
      IsValid c → recv ≤ received → ack_offset c ≤ acked_after c received
unfolding ack_offset
acked_after_ge recv pending on_receipt received v h = omega arith
acked_after_ge recv pending on_delivery received v h = omega arith

-- Receiving never lowers what is acknowledged.
pub ack_offset-receive :
    {c : ReceiveCursor} (offset : ℕ) (bytes : List ℕ)
    → IsValid c
    → offset + length bytes < u64_mod
    → offset ≤ c.recv_offset
    → ack_offset c ≤ ack_offset (receive c offset bytes).0
ack_offset-receive {c} offset bytes v h l =
    let facts = receive_new offset bytes v h l in
    omega (
      arith,
      facts.1,
      facts.2,
      acked_after_ge c.recv_offset c.pending c.ack (receive c offset bytes).0.recv_offset v,
    )

idle_zero : (ack : EInputAck) (pending : ℕ) → OnReceiptIdle ack pending → OnReceiptIdle ack 0
idle_zero on_receipt pending h = refl
idle_zero on_delivery pending h = tt

idle_sub :
    (ack : EInputAck) (pending n : ℕ) → OnReceiptIdle ack pending → OnReceiptIdle ack (pending - n)
idle_sub on_receipt pending n h = omega arith
idle_sub on_delivery pending n h = tt

pub mark_delivered-IsValid :
    {c : ReceiveCursor} (count : ℕ) → IsValid c → IsValid (mark_delivered c count).0
unfolding mark_delivered
mark_delivered-IsValid {c} count v = ground (arith, idle_sub c.ack c.pending count v.idle)

pub unreceive-IsValid : {c : ReceiveCursor} (count : ℕ) → IsValid c → IsValid (unreceive c count).0
unfolding unreceive
unreceive-IsValid {c} count v = ground (arith, idle_sub c.ack c.pending count v.idle)

-- `Unreceive` takes bytes back that were received and not acknowledged, and acknowledges none.
pub unreceive_lem :
    {c : ReceiveCursor} (count : ℕ)
    → IsValid c
    → let (c', done) = unreceive c count in
      ((count ≤ c.pending)
        × (done ≡ true)
        × (ack_offset c' ≡ ack_offset c)
        × (c'.recv_offset + count ≡ c.recv_offset))
      ⊎ ((c.pending < count) × (done ≡ false) × (c' ≡ c))
unfolding unreceive ack_offset
unreceive_lem {c} count v = elim (dec_lt c.pending count) [
  | yes p ↦ inr (p, ground arith, ground arith)
  | no p ↦ inl (omega arith, ground arith, ground arith, ground arith)
]

-- A frame that is a piece of a stream `w` shorter than 2^64, at its own offset, and that leaves no
-- gap behind what a valid cursor received: what is delivered joins what was delivered before, so
-- no byte is lost and none comes twice.
pub receive_stream :
    {c : ReceiveCursor} (w : List ℕ) (offset n : ℕ)
    → IsValid c
    → length w < u64_mod
    → offset + n ≤ length w
    → offset ≤ c.recv_offset
    → c.recv_offset ≤ length w
    → let (c', r) = receive c offset (take n (drop offset w)) in
      (new : List ℕ) × (r ≡ ok new)
      × (take c.recv_offset w ++ new ≡ take c'.recv_offset w)
      × (c'.recv_offset ≡ max c.recv_offset (offset + n))
receive_stream {c} w offset n v h l k g =
    (drop (c.recv_offset - offset) bytes, facts.0, joined, omega (arith, facts.1, size))
  where
    bytes : List ℕ
    bytes = take n (drop offset w)

    size : length bytes ≡ n
    size = omega (arith, length-take n (drop offset w), length-drop offset w)

    facts :
        let (c', r) = receive c offset bytes in
        (r ≡ ok (drop (c.recv_offset - offset) bytes))
        × (c'.recv_offset ≡ max c.recv_offset (offset + length bytes))
        × (ack_offset c' ≡ acked_after c c'.recv_offset)
        × IsValid c'
    facts = receive_new offset bytes v (omega (arith, size)) k

    joined :
        take c.recv_offset w ++ drop (c.recv_offset - offset) bytes
        ≡ take (receive c offset bytes).0.recv_offset w
    joined =
        ap (◌++◌ (take c.recv_offset w)) (
          drop-take (c.recv_offset - offset) n (drop offset w)
          ∙ ap (take (n - (c.recv_offset - offset))) (
              drop-drop (c.recv_offset - offset) offset w
              ∙ ap (λ i. drop i w) {y = c.recv_offset} (omega arith)))
        ∙ sym (take-add c.recv_offset (n - (c.recv_offset - offset)) w)
        ∙ ap (λ i. take i w) (omega (arith, facts.1, size))
