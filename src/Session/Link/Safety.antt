-- ===== src/Session/Link/Safety.antt =====
-- The stream of src/session under any sequence of moves.
use zet.Prelude.{
  ℕ, ◌+◌, ◌-◌, ◌≤◌, ◌<◌, max, ◌≡◌, refl, sym, ap, subst, ◌∙◌, Bool, true, false, List, [], ◌∷◌,
  ◌++◌, none, ok, err, arith, length, take, drop, length-take, length-append, take-append-drop,
  take-take, drop-drop, u64_mod, if_cases,
}
use zet.Session.SendBuffer
use zet.Session.SendBuffer.{SendBuffer}
use zet.Session.SendBuffer.Refine.{contents, contents_trimmed, acknowledge_eq, reset_send_next_eq}
use zet.Session.ReceiveCursor
use zet.Session.ReceiveCursor.Laws
use zet.Session.Error.{SessionResult}
use zet.Session.Link.{
  write, seal, deliver, deliver_first, Link, Frame, init, mark, refuse, send_ack, take_ack,
  ack_first, acked_by, lose, resume, Move, move, run, writes, seals, delivers, marks, refuses,
  sends_ack, takes_ack, loses, resumes,
}
use zet.Session.Link.Inv.{Inv, Chain, LiveChain, AllBelow, init-Inv, write-Inv}
use zet.Session.Link.Keeps.{seal-Inv, lose-Inv, deliver-Inv, AllBelow-mono}

pub length-delivered : {l : Link} → Inv l → length l.delivered ≡ l.receiver.recv_offset
length-delivered {l} v =
    ap length v.got ∙ omega (arith, length-take l.receiver.recv_offset l.written)

mark-Inv : {l : Link} (n : ℕ) → Inv l → Inv (mark l n)
unfolding mark
mark-Inv {l} n v = record {
  sender = v.sender;
  receiver = Laws.mark_delivered-IsValid n v.receiver;
  total = v.total;
  held = v.held;
  got = v.got ∙ ap (λ k. take k l.written) (sym same);
  received = omega (arith, same);
  acked = omega (arith, risen);
  chain = subst (λ k. LiveChain l.up k l.frames l.sender.send_next) (sym same) v.chain;
  pieces = v.pieces;
  acks = AllBelow-mono l.acks risen v.acks;
  intact = v.intact;
}
  where
    same : (ReceiveCursor.mark_delivered l.receiver n).0.recv_offset ≡ l.receiver.recv_offset
    same = ground (arith, Laws.mark_delivered_lem n v.receiver)

    risen :
        ReceiveCursor.ack_offset l.receiver
        ≤ ReceiveCursor.ack_offset (ReceiveCursor.mark_delivered l.receiver n).0
    risen = ground (arith, Laws.mark_delivered_lem n v.receiver)

-- The reader gives back the last `n` bytes that it was given.
refused : Link → ℕ → Link
refused l n = lose (record l {
  receiver = (ReceiveCursor.unreceive l.receiver n).0;
  delivered = take (length l.delivered - n) l.delivered;
})

refused-Inv : {l : Link} (n : ℕ) → Inv l → n ≤ l.receiver.pending → Inv (refused l n)
unfolding refused lose
refused-Inv {l} n v h = record {
  sender = v.sender;
  receiver = Laws.unreceive-IsValid n v.receiver;
  total = v.total;
  held = v.held;
  got =
      ap (take (length l.delivered - n)) v.got
      ∙ take-take (length l.delivered - n) l.receiver.recv_offset l.written
          (omega (arith, size, facts.1))
      ∙ ap (λ k. take k l.written) (omega (arith, size, facts.1));
  received = omega (arith, facts.1);
  acked = omega (arith, facts.0);
  chain = refl;
  pieces = tt;
  acks = tt;
  intact = v.intact;
}
  where
    size : length l.delivered ≡ l.receiver.recv_offset
    size = length-delivered v

    facts :
        (ReceiveCursor.ack_offset (ReceiveCursor.unreceive l.receiver n).0
          ≡ ReceiveCursor.ack_offset l.receiver)
        × ((ReceiveCursor.unreceive l.receiver n).0.recv_offset + n ≡ l.receiver.recv_offset)
    facts = ground (arith, Laws.unreceive_lem n v.receiver)

refuse-Inv : {l : Link} (n : ℕ) → Inv l → Inv (refuse l n)
unfolding refuse refused
refuse-Inv {l} n v =
    if_cases Inv (ReceiveCursor.unreceive l.receiver n).1 (refused l n) l
      (λ t. refused-Inv n v (ground (arith, Laws.unreceive_lem n v.receiver))) (λ _. v)

AllBelow-snoc : (n a : ℕ) (xs : List ℕ) → AllBelow n xs → a ≤ n → AllBelow n (xs ++ (a ∷ []))
AllBelow-snoc n a [] h l = (l, tt)
AllBelow-snoc n a (x ∷ xs) h l = (h.0, AllBelow-snoc n a xs h.1 l)

send_ack-Inv : {l : Link} → Inv l → Inv (send_ack l)
unfolding send_ack
send_ack-Inv {l} v =
    if_cases Inv l.up _ l
      (λ _. record {
        sender = v.sender;
        receiver = v.receiver;
        total = v.total;
        held = v.held;
        got = v.got;
        received = v.received;
        acked = v.acked;
        chain = v.chain;
        pieces = v.pieces;
        acks = AllBelow-snoc _ _ l.acks v.acks (omega arith);
        intact = v.intact;
      })
      (λ _. v)

-- Letting go of bytes below `offset` leaves the rest of the stream.
held_trimmed :
    {l : Link} (offset : ℕ)
    → Inv l
    → l.sender.base ≤ offset
    → contents (record l.sender { base = offset }) ≡ drop offset l.written
held_trimmed {l} offset v h =
    contents_trimmed l.sender offset h
    ∙ ap (drop (offset - l.sender.base)) v.held
    ∙ drop-drop (offset - l.sender.base) l.sender.base l.written
    ∙ ap (λ k. drop k l.written) {y = offset} (omega arith)

Chain-raise :
    (fs : List Frame) (received next a : ℕ)
    → Chain received fs next
    → a ≤ received
    → Chain received fs (max next a)
Chain-raise [] received next a h l = omega arith
Chain-raise (f ∷ fs) received next a (h, c) l =
    (h, Chain-raise fs (max received (f.offset + length f.payload)) next a c (omega arith))

LiveChain-raise :
    (up : Bool) (fs : List Frame) (received next a : ℕ)
    → LiveChain up received fs next
    → a ≤ received
    → LiveChain up received fs (max next a)
LiveChain-raise true fs received next a h l = Chain-raise fs received next a h l
LiveChain-raise false fs received next a h l = h

take_ack-Inv : {l : Link} → Inv l → Inv (take_ack l)
unfolding take_ack
take_ack-Inv {l} v = go l.acks v.acks
  where
    go : (xs : List ℕ) → AllBelow (ReceiveCursor.ack_offset l.receiver) xs → Inv (ack_first l xs)
    go [] h = v
    go (a ∷ rest) (h, hs) =
        subst (λ r. Inv (acked_by l rest r))
          (sym (acknowledge_eq a v.sender (omega (arith, Laws.ack_offset_eq v.receiver))))
          (record {
            sender = omega (arith, Laws.ack_offset_eq v.receiver);
            receiver = v.receiver;
            total = v.total;
            held = held_trimmed (max l.sender.base a) v (omega arith);
            got = v.got;
            received = v.received;
            acked = omega arith;
            chain =
                LiveChain-raise l.up l.frames l.receiver.recv_offset l.sender.send_next a v.chain
                  (omega (arith, Laws.ack_offset_eq v.receiver));
            pieces = v.pieces;
            acks = hs;
            intact = v.intact;
          })

unfoldable pub resumed : Link → Link
resumed l = record l {
  sender = record l.sender {
    base = ReceiveCursor.ack_offset l.receiver;
    send_next = ReceiveCursor.ack_offset l.receiver;
  };
  frames = [];
  acks = [];
  up = true;
}

pub resume_eq : {l : Link} → Inv l → resume l ≡ resumed l
unfolding resume resumed
resume_eq {l} v = ap (acked_by (record (lose l) { up = true }) []) (
    reset_send_next_eq (ReceiveCursor.ack_offset l.receiver) v.sender v.acked
      (omega (arith, Laws.ack_offset_eq v.receiver)))

pub resumed-Inv : {l : Link} → Inv l → Inv (resumed l)
unfolding resumed
resumed-Inv {l} v = record {
  sender = omega (arith, Laws.ack_offset_eq v.receiver);
  receiver = v.receiver;
  total = v.total;
  held = held_trimmed (ReceiveCursor.ack_offset l.receiver) v v.acked;
  got = v.got;
  received = v.received;
  acked = omega arith;
  chain = omega (arith, Laws.ack_offset_eq v.receiver);
  pieces = tt;
  acks = tt;
  intact = v.intact;
}

-- How many bytes the writer offers in a sequence of moves.
abbrev pub offered_by : Move → ℕ
offered_by (writes bytes) = length bytes
offered_by _ = 0

abbrev pub offered : List Move → ℕ
offered [] = 0
offered (m ∷ ms) = offered_by m + offered ms

move-Inv : {l : Link} (m : Move) → Inv l → l.sender.finish + offered_by m < u64_mod → Inv (move l m)
unfolding move
move-Inv (writes bytes) v h = write-Inv bytes v h
move-Inv (seals n) v h = seal-Inv n v
move-Inv delivers v h = deliver-Inv v
move-Inv (marks n) v h = mark-Inv n v
move-Inv (refuses n) v h = refuse-Inv n v
move-Inv sends_ack v h = send_ack-Inv v
move-Inv takes_ack v h = take_ack-Inv v
move-Inv loses v h = lose-Inv v
move-Inv {l} resumes v h = subst Inv (sym (resume_eq v)) (resumed-Inv v)

deliver_first-written : (l : Link) (fs : List Frame) → (deliver_first l fs).written ≡ l.written
deliver_first-written l [] = refl
deliver_first-written l (f ∷ rest) = ground arith

acked_by-written :
    (l : Link) (r : SendBuffer × SessionResult (Unit {0})) → (acked_by l [] r).written ≡ l.written
acked_by-written l (b, ok tt) = refl
acked_by-written l (b, err e) = refl

ack_first-written : (l : Link) (xs : List ℕ) → (ack_first l xs).written ≡ l.written
ack_first-written l [] = refl
ack_first-written l (a ∷ rest) = ground arith

written-move : (l : Link) (m : Move) → length (move l m).written ≤ length l.written + offered_by m
unfolding move write seal deliver mark refuse send_ack take_ack lose resume
written-move l (writes bytes) =
    let n = (SendBuffer.append l.sender bytes).1 in
    omega (arith, length-append l.written (take n bytes), length-take n bytes)
written-move l (seals n) = ground arith
written-move l delivers = omega (arith, ap length (deliver_first-written l l.frames))
written-move l (marks n) = omega arith
written-move l (refuses n) = ground arith
written-move l sends_ack = ground arith
written-move l takes_ack = omega (arith, ap length (ack_first-written l l.acks))
written-move l loses = omega arith
written-move l resumes = omega (arith, ap length (acked_by-written _ _))

pub written-init :
    (storage : List ℕ) (ack : ReceiveCursor.EInputAck) → length (init storage ack).written ≡ 0
unfolding init
written-init storage ack = refl

pub run-Inv :
    (ms : List Move) {l : Link} → Inv l → length l.written + offered ms < u64_mod → Inv (run l ms)
unfolding run
run-Inv [] v h = v
run-Inv (m ∷ ms) {l} v h = run-Inv ms (move-Inv m v (omega arith)) (omega (arith, written-move l m))

base_kept : {l : Link} → Inv l → l.sender.base ≤ length l.delivered
base_kept v = omega (arith, length-delivered v, Laws.ack_offset_eq v.receiver)

-- Whatever the writer, the network, the reader and the scheduler do, in sessions whose storage is
-- smaller than 2^64 and whose writer offers fewer than 2^64 bytes: what the reader has kept is the
-- beginning of what was written, each byte once and in order; all that is not acknowledged is
-- still held by the sender, and no more is acknowledged than the reader has; and no end ever meets
-- a protocol error.
pub stream_safety :
    (storage : List ℕ) (ack : ReceiveCursor.EInputAck) (ms : List Move)
    → length storage < u64_mod
    → offered ms < u64_mod
    → let l = run (init storage ack) ms in
      (l.delivered ≡ take (length l.delivered) l.written)
      × (take l.sender.base l.written ++ contents l.sender ≡ l.written)
      × (l.sender.base ≤ length l.delivered)
      × (l.broken ≡ none)
stream_safety storage ack ms h k = (
  v.got ∙ ap (λ n. take n l.written) (sym (length-delivered v)),
  ap (◌++◌ (take l.sender.base l.written)) v.held ∙ take-append-drop l.sender.base l.written,
  base_kept v,
  v.intact,
)
  where
    l : Link
    l = run (init storage ack) ms

    v : Inv l
    v = run-Inv ms (init-Inv storage ack h) (omega (arith, written-init storage ack))
