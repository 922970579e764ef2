-- ===== src/Client/Escape/Lines.antt =====
-- What a user who types escapes at line starts gets, against a reference that doubles them.
use zet.Prelude.{ℕ, Bool, false, ◌||◌, List, [], ◌∷◌, take, drop, if◌then◌else◌, ◌==◌, ◌&&◌}
use zet.Client.Escape.{EscapeScanner, Scanned, new_scanner, feed}
use zet.Client.Escape.Chunks.{then_on}

abbrev ends_line : ℕ → Bool
ends_line b = b == 13 || b == 10

-- The keys to type for the bytes `text`: a `~` at the start of a line twice, and all else once.
unfoldable pub typed : Bool → List ℕ → List ℕ
typed start [] = []
typed start (b ∷ text) =
    let rest = typed (ends_line b) text in if start && b == 126 then 126 ∷ 126 ∷ rest else b ∷ rest

-- Whether what follows the text is at the start of a line.
unfoldable pub at_start : Bool → List ℕ → Bool
at_start start [] = start
at_start start (b ∷ text) = at_start (ends_line b) text

abbrev scanner_at : Bool → EscapeScanner
scanner_at start = record { at_line_start = start; held = false }

abbrev result : Bool → List ℕ → Scanned
result start text = record { scanner = scanner_at start; written = text; quit = false }

-- The bytes as they are read in two pieces, the second from the `n`-th byte on.
abbrev pub in_pieces : ℕ → ℕ → List ℕ → Scanned
in_pieces n room bytes =
    then_on (feed new_scanner room (take n bytes)) (λ s. feed s room (drop n bytes))
