-- ===== src/Session/Link/Inv.antt =====
-- The invariant of a session's stream, whatever happens to its connections.
use zet.Prelude.{
  ℕ, ◌+◌, ◌-◌, ◌≤◌, ◌<◌, max, ◌≡◌, refl, sym, ap, ◌∙◌, subst, Bool, true, false, List, [], ◌∷◌,
  ◌++◌, none, arith, length, take, drop, length-append, length-take, length-drop, take-append_le,
  drop-append_le, drop-drop, u64_mod, if◌then◌else◌, le→ltb,
}
use zet.Session.SendBuffer
use zet.Session.SendBuffer.{SendBuffer, capacity}
use zet.Session.SendBuffer.Valid
use zet.Session.SendBuffer.Refine.{contents, contents-append, copy_out-contents}
use zet.Session.ReceiveCursor
use zet.Session.ReceiveCursor.Laws
use zet.Session.Link.{Link, Frame, init, write}

-- A frame is a piece of what was written.
pub record IsPiece (w : List ℕ) (f : Frame) : Type 0 where
  pub inside : f.offset + length f.payload ≤ length w
  pub piece : f.payload ≡ take (length f.payload) (drop f.offset w)

-- The frames under way leave no gap: each starts at or below what is received once those before it
-- have arrived, and the send cursor `next` stands where they end.
abbrev pub Chain : ℕ → List Frame → ℕ → Type 0
Chain received [] next = next ≤ received
Chain received (f ∷ fs) next =
    (f.offset ≤ received) × Chain (max received (f.offset + length f.payload)) fs next

-- Without a connection nothing is under way.
abbrev pub LiveChain : Bool → ℕ → List Frame → ℕ → Type 0
LiveChain true received fs next = Chain received fs next
LiveChain false received fs next = fs ≡ []

abbrev pub Pieces : List ℕ → List Frame → Type 0
Pieces w [] = Unit {0}
Pieces w (f ∷ fs) = IsPiece w f × Pieces w fs

abbrev pub AllBelow : ℕ → List ℕ → Type 0
AllBelow n [] = Unit {0}
AllBelow n (a ∷ as') = (a ≤ n) × AllBelow n as'

pub record Inv (l : Link) : Type 0 where
  pub sender : Valid.IsValid l.sender
  pub receiver : Laws.IsValid l.receiver
  pub total : length l.written ≡ l.sender.finish
  pub held : contents l.sender ≡ drop l.sender.base l.written
  pub got : l.delivered ≡ take l.receiver.recv_offset l.written
  pub received : l.receiver.recv_offset ≤ l.sender.finish
  pub acked : l.sender.base ≤ ReceiveCursor.ack_offset l.receiver
  pub chain : LiveChain l.up l.receiver.recv_offset l.frames l.sender.send_next
  pub pieces : Pieces l.written l.frames
  pub acks : AllBelow (ReceiveCursor.ack_offset l.receiver) l.acks
  pub intact : l.broken ≡ none

pub init-Inv :
    (storage : List ℕ) (ack : ReceiveCursor.EInputAck)
    → length storage < u64_mod
    → Inv (init storage ack)
unfolding init SendBuffer.init ReceiveCursor.init ReceiveCursor.ack_offset
init-Inv storage ack h = record {
  sender = Valid.init-IsValid storage 0 h (omega arith);
  receiver = Laws.init-IsValid 0 ack (omega arith);
  total = refl;
  held = refl;
  got = refl;
  received = omega arith;
  acked = omega arith;
  chain = refl;
  pieces = tt;
  acks = tt;
  intact = refl;
}

Pieces-append : (w more : List ℕ) (fs : List Frame) → Pieces w fs → Pieces (w ++ more) fs
Pieces-append w more [] h = h
Pieces-append w more (f ∷ fs) (p, h) = (
  record {
    inside = omega (arith, length-append w more);
    piece =
        p.piece
        ∙ sym (
            ap (take (length f.payload)) (drop-append_le f.offset w more (omega arith))
            ∙ take-append_le (length f.payload) (drop f.offset w) more
                (omega (arith, length-drop f.offset w)));
  },
  Pieces-append w more fs h,
)

pub write-Inv :
    {l : Link} (bytes : List ℕ)
    → Inv l
    → l.sender.finish + length bytes < u64_mod
    → Inv (write l bytes)
unfolding write
write-Inv {l} bytes v h =
    let facts = contents-append bytes v.sender h in
    let n = (SendBuffer.append l.sender bytes).1 in
    record {
      sender = Valid.append-IsValid bytes v.sender h;
      receiver = v.receiver;
      total =
          omega
            (arith, length-append l.written (take n bytes), length-take n bytes, facts.0, facts.2);
      held =
          facts.1
          ∙ ap (λ xs. xs ++ take n bytes) v.held
          ∙ sym (drop-append_le l.sender.base l.written (take n bytes) (omega arith))
          ∙ ap (λ k. drop k (l.written ++ take n bytes)) (sym facts.3);
      got =
          v.got
          ∙ sym (take-append_le l.receiver.recv_offset l.written (take n bytes) (omega arith));
      received = omega (arith, facts.2);
      acked = omega (arith, facts.3);
      chain = subst (LiveChain l.up l.receiver.recv_offset l.frames) (sym facts.4) v.chain;
      pieces = Pieces-append l.written (take n bytes) l.frames v.pieces;
      acks = v.acks;
      intact = v.intact;
    }

-- The bytes from an offset that the sender still holds are those of the stream.
pub copy_out-written :
    {l : Link} (from n : ℕ)
    → Inv l
    → l.sender.base ≤ from
    → SendBuffer.copy_out l.sender from n ≡ take n (drop from l.written)
copy_out-written {l} from n v h =
    copy_out-contents from n v.sender
    ∙ ap (λ t. if t then [] else take n (drop (from - l.sender.base) (contents l.sender)))
        (le→ltb from l.sender.base h)
    ∙ ap (λ xs. take n (drop (from - l.sender.base) xs)) v.held
    ∙ ap (take n) (drop-drop (from - l.sender.base) l.sender.base l.written)
    ∙ ap (λ k. take n (drop k l.written)) {y = from} (omega arith)

pub Chain-snoc :
    (fs : List Frame) (f : Frame) (received : ℕ)
    → Chain received fs f.offset
    → Chain received (fs ++ (f ∷ [])) (f.offset + length f.payload)
Chain-snoc [] f received h = (h, omega arith)
Chain-snoc (g ∷ fs) f received (h, c) =
    (h, Chain-snoc fs f (max received (g.offset + length g.payload)) c)

pub Pieces-snoc :
    (w : List ℕ) (fs : List Frame) (f : Frame)
    → Pieces w fs
    → IsPiece w f
    → Pieces w (fs ++ (f ∷ []))
Pieces-snoc w [] f h p = (p, tt)
Pieces-snoc w (g ∷ fs) f (q, h) p = (q, Pieces-snoc w fs f h p)
