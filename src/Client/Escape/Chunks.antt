-- ===== src/Client/Escape/Chunks.antt =====
-- The bytes of a user, in whatever chunks they are read.
use zet.Prelude.{
  ℕ, suc, ◌+◌, ◌-◌, ◌*◌, ◌≤◌, ◌≡◌, refl, sym, ap, ◌∙◌, inl, inr, Bool, true, false, List, [], ◌∷◌,
  ◌++◌, append_assoc, arith, length, if◌then◌else◌, Bool-cases,
}
use zet.Client.Escape.{EscapeScanner, Scanned, feed_byte, put, feed}

-- The scan with no bound on the output.
abbrev pub behind : List ℕ → Scanned → Scanned
behind bytes more = record more { written = bytes ++ more.written }

unfoldable pub scan : EscapeScanner → List ℕ → Scanned
scan s [] = record { scanner = s; written = []; quit = false }
scan s (b ∷ rest) =
    let more = scan (feed_byte s b).scanner rest in
    behind (feed_byte s b).written (
      if (feed_byte s b).quit
      then record { scanner = (feed_byte s b).scanner; written = []; quit = true }
      else more)

put_lem :
    (bytes : List ℕ) (extra : ℕ) (next : ℕ → Scanned)
    → put bytes (length bytes + extra) next ≡ behind bytes (next extra)
unfolding put
put_lem [] extra next = ap next (omega arith)
put_lem (b ∷ bs) extra next =
    ap (λ n. put (b ∷ bs) n next) {y = suc (length bs + extra)} (omega arith)
    ∙ ap {A = Scanned} {B = Scanned} (λ r. record r { written = b ∷ r.written })
        (put_lem bs extra next)

length-feed_byte : (s : EscapeScanner) (b : ℕ) → length (feed_byte s b).written ≤ 2
unfolding feed_byte
length-feed_byte s b = ground arith

-- A step that quits, or that goes on.
abbrev ended : EscapeScanner → Scanned
ended s = record { scanner = s; written = []; quit = true }

abbrev or_ended : Bool → EscapeScanner → Scanned → Scanned
or_ended quits s more = if quits then ended s else more

pub feed-scan :
    (s : EscapeScanner) (room : ℕ) (bytes : List ℕ)
    → 2 * length bytes ≤ room
    → feed s room bytes ≡ scan s bytes
unfolding feed scan
feed-scan s room [] h = refl
feed-scan s room (b ∷ rest) h =
    let one = feed_byte s b in
    let left = room - length one.written in
    let split : room ≡ length one.written + left = omega (arith, length-feed_byte s b) in
    let ih = feed-scan one.scanner left rest (omega (arith, length-feed_byte s b)) in
    ap (λ n. put one.written n (λ k. or_ended one.quit one.scanner (feed one.scanner k rest))) split
    ∙ put_lem one.written left (λ k. or_ended one.quit one.scanner (feed one.scanner k rest))
    ∙ ap (λ r. behind one.written (or_ended one.quit one.scanner r)) ih

-- One chunk, and then the next, unless the first quits.
abbrev pub then_on : Scanned → (EscapeScanner → Scanned) → Scanned
then_on r next = if r.quit then r else behind r.written (next r.scanner)

behind-then :
    (bytes : List ℕ) (r : Scanned) (next : EscapeScanner → Scanned)
    → behind bytes (then_on r next) ≡ then_on (behind bytes r) next
behind-then bytes r next = elim (Bool-cases r.quit) [
  | inl e ↦
      ap (λ b. behind bytes (if b then r else behind r.written (next r.scanner))) e
      ∙ ap (λ b. if b then behind bytes r else behind (bytes ++ r.written) (next r.scanner)) (sym e)
  | inr e ↦
      ap (λ b. behind bytes (if b then r else behind r.written (next r.scanner))) e
      ∙ ap (λ w. record (next r.scanner) { written = w })
          (sym (append_assoc bytes r.written (next r.scanner).written))
      ∙ ap (λ b. if b then behind bytes r else behind (bytes ++ r.written) (next r.scanner)) (sym e)
]

pub scan-append :
    (s : EscapeScanner) (xs ys : List ℕ)
    → scan s (xs ++ ys) ≡ then_on (scan s xs) (λ s'. scan s' ys)
unfolding scan
scan-append s [] ys = refl
scan-append s (b ∷ xs) ys =
    let one = feed_byte s b in
    elim (Bool-cases one.quit) [
      | inl e ↦
          ap (λ q. behind one.written (or_ended q one.scanner (scan one.scanner (xs ++ ys)))) e
          ∙ ap
              (λ q.
                then_on (behind one.written (or_ended q one.scanner (scan one.scanner xs)))
                  (λ s'. scan s' ys))
              (sym e)
      | inr e ↦
          ap (λ q. behind one.written (or_ended q one.scanner (scan one.scanner (xs ++ ys)))) e
          ∙ ap (behind one.written) (scan-append one.scanner xs ys)
          ∙ behind-then one.written (scan one.scanner xs) (λ s'. scan s' ys)
          ∙ ap
              (λ q.
                then_on (behind one.written (or_ended q one.scanner (scan one.scanner xs)))
                  (λ s'. scan s' ys))
              (sym e)
    ]

-- Scanning bytes in two chunks writes the same, quits at the same place and leaves the same
-- scanner as scanning them in one, if each output has room for twice its bytes; the second chunk
-- is not read after the first has quit.
pub feed-append :
    (s : EscapeScanner) (room room1 room2 : ℕ) (xs ys : List ℕ)
    → 2 * length (xs ++ ys) ≤ room
    → 2 * length xs ≤ room1
    → 2 * length ys ≤ room2
    → feed s room (xs ++ ys) ≡ then_on (feed s room1 xs) (λ s'. feed s' room2 ys)
feed-append s room room1 room2 xs ys h h1 h2 =
    feed-scan s room (xs ++ ys) h
    ∙ scan-append s xs ys
    ∙ ap (λ r. if r.quit then r else behind r.written (scan r.scanner ys))
        (sym (feed-scan s room1 xs h1))
    ∙ ap
        (λ m.
          if (feed s room1 xs).quit then feed s room1 xs else behind (feed s room1 xs).written m)
        (sym (feed-scan (feed s room1 xs).scanner room2 ys h2))
