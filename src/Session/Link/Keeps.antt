-- ===== src/Session/Link/Keeps.antt =====
-- The moves of src/session's two ends, one by one, against the invariant of the stream.
use zet.Prelude.{
  ℕ, ◌+◌, ◌-◌, ◌≤◌, min, max, ◌≡◌, refl, sym, ap, subst, ◌∙◌, inl, inr, true, false, List, [], ◌∷◌,
  ◌++◌, ok, arith, length, take, drop, length-take, length-drop, Bool-cases, if_cases, ◌&&◌, ltb,
  if◌then◌else◌,
}
use zet.Session.Error.{SessionResult}
use zet.Session.SendBuffer
use zet.Session.SendBuffer.{SendBuffer}
use zet.Session.SendBuffer.Valid
use zet.Session.ReceiveCursor
use zet.Session.ReceiveCursor.{ReceiveCursor}
use zet.Session.ReceiveCursor.Laws
use zet.Session.Link.{Link, Frame, seal, deliver, deliver_first, delivered_by, lose}
use zet.Session.Link.Inv.{
  Inv, IsPiece, Chain, LiveChain, Pieces, AllBelow, copy_out-written, Chain-snoc, Pieces-snoc,
}

-- The frame that is sealed, and the send cursor behind it.
unfoldable pub sealed : Link → ℕ → Link
sealed l n = record l {
  sender = SendBuffer.advance_send_next l.sender n;
  frames =
      l.frames
      ++ (record {
        offset = l.sender.send_next;
        payload = take n (drop l.sender.send_next l.written);
      }
          ∷ []);
}

pub seal_eq :
    {l : Link} (payload_cap : ℕ)
    → Inv l
    → let n = min payload_cap (l.sender.finish - l.sender.send_next) in
      seal l payload_cap ≡ (if l.up && ltb 0 n then sealed l n else l)
unfolding seal sealed
seal_eq {l} payload_cap v =
    let n : ℕ = min payload_cap (l.sender.finish - l.sender.send_next) in
    let size : length (take n (drop l.sender.send_next l.written)) ≡ n = omega (
      arith,
      length-take n (drop l.sender.send_next l.written),
      length-drop l.sender.send_next l.written,
    ) in
    rw (Valid.unsent_eq v.sender, copy_out-written l.sender.send_next n v v.sender.ordered, size)

pub live-Chain :
    {l : Link} → Inv l → l.up ≡ true → Chain l.receiver.recv_offset l.frames l.sender.send_next
live-Chain {l} v u =
    subst (λ k. LiveChain k l.receiver.recv_offset l.frames l.sender.send_next) u v.chain

pub sealed-Inv :
    {l : Link} (n : ℕ)
    → Inv l
    → l.up ≡ true
    → l.sender.send_next + n ≤ l.sender.finish
    → Inv (sealed l n)
unfolding sealed SendBuffer.advance_send_next
sealed-Inv {l} n v u h =
    let w : List ℕ = take n (drop l.sender.send_next l.written) in
    let size : length w ≡ n = omega (
      arith,
      length-take n (drop l.sender.send_next l.written),
      length-drop l.sender.send_next l.written,
    ) in
    let f : Frame = record { offset = l.sender.send_next; payload = w } in
    let next : (SendBuffer.advance_send_next l.sender n).send_next ≡ l.sender.send_next + n =
      ground arith in
    record {
      sender = Valid.advance_send_next-IsValid n v.sender (omega arith);
      receiver = v.receiver;
      total = v.total;
      held = v.held;
      got = v.got;
      received = v.received;
      acked = v.acked;
      chain =
          subst
            (λ k.
              LiveChain k l.receiver.recv_offset (l.frames ++ (f ∷ []))
                (SendBuffer.advance_send_next l.sender n).send_next)
            (sym u)
            (subst (Chain l.receiver.recv_offset (l.frames ++ (f ∷ [])))
              (ap (◌+◌ l.sender.send_next) size ∙ sym next)
              (Chain-snoc l.frames f l.receiver.recv_offset (live-Chain v u)));
      pieces = Pieces-snoc l.written l.frames f v.pieces (record {
        inside = omega (arith, size);
        piece = ap (λ k. take k (drop l.sender.send_next l.written)) (sym size);
      });
      acks = v.acks;
      intact = v.intact;
    }

pub seal-Inv : {l : Link} (payload_cap : ℕ) → Inv l → Inv (seal l payload_cap)
seal-Inv {l} payload_cap v = rw (seal_eq payload_cap v) (
    if_cases Inv (l.up && ltb 0 n) (sealed l n) l (λ t. sealed-Inv n v (ground arith) (omega arith))
      (λ _. v))
  where
    n : ℕ
    n = min payload_cap (l.sender.finish - l.sender.send_next)

pub lose-Inv : {l : Link} → Inv l → Inv (lose l)
unfolding lose
lose-Inv v = record {
  sender = v.sender;
  receiver = v.receiver;
  total = v.total;
  held = v.held;
  got = v.got;
  received = v.received;
  acked = v.acked;
  chain = refl;
  pieces = tt;
  acks = tt;
  intact = v.intact;
}

pub AllBelow-mono : {m n : ℕ} (xs : List ℕ) → m ≤ n → AllBelow m xs → AllBelow n xs
AllBelow-mono [] h a = a
AllBelow-mono (x ∷ xs) h a = (omega arith, AllBelow-mono xs h a.1)

module _ {l : Link} (f : Frame) (rest : List Frame) (v : Inv l) (u : l.up ≡ true)
    (e : l.frames ≡ f ∷ rest) where
  abbrev arrival : ReceiveCursor × SessionResult (List ℕ)
  arrival = ReceiveCursor.receive l.receiver f.offset f.payload

  head-Pieces : IsPiece l.written f × Pieces l.written rest
  head-Pieces = subst (Pieces l.written) e v.pieces

  head-Chain :
      (f.offset ≤ l.receiver.recv_offset)
      × Chain (max l.receiver.recv_offset (f.offset + length f.payload)) rest l.sender.send_next
  head-Chain = subst (λ fs. Chain l.receiver.recv_offset fs l.sender.send_next) e (live-Chain v u)

  head_end : f.offset + length f.payload ≤ l.sender.finish
  head_end = omega (arith, head-Pieces.0.inside)

  -- The frame is taken, and what it brings joins what was delivered.
  arrival_joins :
      (new : List ℕ) × (arrival.1 ≡ ok new)
      × (take l.receiver.recv_offset l.written ++ new ≡ take arrival.0.recv_offset l.written)
      × (arrival.0.recv_offset ≡ max l.receiver.recv_offset (f.offset + length f.payload))
  arrival_joins =
      subst
        (λ p.
          let (c, r) = ReceiveCursor.receive l.receiver f.offset p in
          (new : List ℕ) × (r ≡ ok new)
          × (take l.receiver.recv_offset l.written ++ new ≡ take c.recv_offset l.written)
          × (c.recv_offset ≡ max l.receiver.recv_offset (f.offset + length f.payload)))
        (sym head-Pieces.0.piece)
        (Laws.receive_stream l.written f.offset (length f.payload) v.receiver (omega arith)
          (omega (arith, head_end)) head-Chain.0 (omega arith))

  arrival-IsValid : Laws.IsValid arrival.0
  arrival-IsValid =
      (Laws.receive_new f.offset f.payload v.receiver (omega (arith, head_end)) head-Chain.0).3

  arrival_raises : ReceiveCursor.ack_offset l.receiver ≤ ReceiveCursor.ack_offset arrival.0
  arrival_raises =
      Laws.ack_offset-receive f.offset f.payload v.receiver (omega (arith, head_end)) head-Chain.0

  arrived : Link
  arrived = record l {
    receiver = arrival.0;
    frames = rest;
    delivered = l.delivered ++ arrival_joins.0;
  }

  arrived-Inv : Inv arrived
  unfolding arrived
  arrived-Inv = record {
    sender = v.sender;
    receiver = arrival-IsValid;
    total = v.total;
    held = v.held;
    got = ap (λ xs. xs ++ arrival_joins.0) v.got ∙ arrival_joins.2;
    received = omega (arith, arrival_joins.3, head_end);
    acked = omega (arith, arrival_raises);
    chain =
        subst (λ k. LiveChain k arrival.0.recv_offset rest l.sender.send_next) (sym u)
          (subst (λ n. Chain n rest l.sender.send_next) (sym arrival_joins.3) head-Chain.1);
    pieces = head-Pieces.1;
    acks = AllBelow-mono l.acks arrival_raises v.acks;
    intact = v.intact;
  }

  deliver_first_eq : deliver_first l (f ∷ rest) ≡ arrived
  unfolding arrived
  deliver_first_eq = ap (λ r. delivered_by l rest (arrival.0, r)) arrival_joins.1

no_frames : {l : Link} → Inv l → l.up ≡ false → l.frames ≡ []
no_frames {l} v d =
    subst (λ k. LiveChain k l.receiver.recv_offset l.frames l.sender.send_next) d v.chain

pub deliver-Inv : {l : Link} → Inv l → Inv (deliver l)
unfolding deliver
deliver-Inv {l} v = elim (Bool-cases l.up) [
  | inr d ↦ subst (λ fs. Inv (deliver_first l fs)) (sym (no_frames v d)) v
  | inl u ↦ go l.frames refl u
]
  where
    go : (fs : List Frame) → l.frames ≡ fs → l.up ≡ true → Inv (deliver_first l fs)
    go [] e u = v
    go (f ∷ rest) e u = subst Inv (sym (deliver_first_eq f rest v u e)) (arrived-Inv f rest v u e)

-- A frame that is alone under way is taken, and nothing of the sender changes.
pub deliver_one :
    {l : Link} (f : Frame)
    → Inv l
    → l.up ≡ true
    → l.frames ≡ f ∷ []
    → ((deliver l).frames ≡ [])
      × ((deliver l).sender ≡ l.sender)
      × ((deliver l).written ≡ l.written)
      × ((deliver l).up ≡ l.up)
unfolding deliver arrived
deliver_one {l} f v u e =
    let same : deliver l ≡ arrived f [] v u e =
      ap (deliver_first l) e ∙ deliver_first_eq f [] v u e in
    (
      ap (λ k. k.frames) same,
      ap (λ k. k.sender) same,
      ap (λ k. k.written) same,
      ap (λ k. k.up) same,
    )
