-- ===== src/Client/Escape.antt =====
-- src/client/escape.cpp: the escapes that a user types at the start of a line. The output is a buffer
-- of `room` bytes, and what is written there is in the result.
pub mod Chunks
pub mod Lines
use zet.Prelude.{ℕ, zero, suc, Bool, true, false, ◌&&◌, ◌||◌, List, [], ◌∷◌, if◌then◌else◌, ◌==◌}

pub record EscapeScanner : Type 0 where
  pub at_line_start : Bool
  pub held : Bool

abbrev pub new_scanner : EscapeScanner
new_scanner = record { at_line_start = true; held = false }

-- The scanner, the bytes written, and whether `~.` was seen.
pub record Scanned : Type 0 where
  pub scanner : EscapeScanner
  pub written : List ℕ
  pub quit : Bool

-- What one byte does: how the scanner goes on, the bytes to put, and whether to quit.
unfoldable pub feed_byte : EscapeScanner → ℕ → Scanned
feed_byte s b =
    if s.held && b == 46
    then record { scanner = record s { held = false }; written = []; quit = true }
    else if s.held && b == 126
    then record {
      scanner = record { at_line_start = false; held = false };
      written = 126 ∷ [];
      quit = false;
    }
    else if s.held
    then record {
      scanner = record { at_line_start = b == 13 || b == 10; held = false };
      written = 126 ∷ b ∷ [];
      quit = false;
    }
    else if s.at_line_start && b == 126
    then record { scanner = record s { held = true }; written = []; quit = false }
    else record {
      scanner = record s { at_line_start = b == 13 || b == 10 };
      written = b ∷ [];
      quit = false;
    }

-- `put`, of some bytes, into what room is left, and then the rest of the output.
unfoldable pub put : List ℕ → ℕ → (ℕ → Scanned) → Scanned
put [] room next = next room
put (b ∷ bs) zero next = put bs zero next
put (b ∷ bs) (suc room) next =
    let rest = put bs room next in record rest { written = b ∷ rest.written }

unfoldable pub feed : EscapeScanner → ℕ → List ℕ → Scanned
unfolding feed_byte put
feed s room [] = record { scanner = s; written = []; quit = false }
feed s room (b ∷ rest) =
    let one = feed_byte s b in
    put one.written room (λ left.
      let more = feed one.scanner left rest in
      if one.quit then record { scanner = one.scanner; written = []; quit = true } else more)
