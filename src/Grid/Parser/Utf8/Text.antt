-- ===== src/Grid/Parser/Utf8/Text.antt =====
-- A text of characters, after whatever came before it.
use zet.Prelude.{
  ℕ, ◌≡◌, refl, sym, ap, ◌∙◌, inl, inr, false, List, [], ◌∷◌, ◌++◌, append_assoc, map, arith,
  if◌then◌else◌, Bool-cases,
}
use zet.Grid.Parser.{VtParser, Step, GridCall, transition_to, bypass_end, emit, ground_state}
use zet.Grid.Parser.Feed.{Width, feed, feed_byte, feed_bypass, is_bypass, feed_rest, behind}
use zet.Grid.Parser.Reach.{IsValid}
use zet.Grid.Parser.Reach.Steps.{idle_of}
use zet.Grid.Parser.Utf8.{encode, IsGraphic, IsReady, shown, encode-Shows}

pub encode_text : List ℕ → List ℕ
encode_text [] = []
encode_text (cp ∷ cps) = encode cp ++ encode_text cps

abbrev pub AllGraphic : List ℕ → Type 0
AllGraphic [] = Unit {0}
AllGraphic (cp ∷ cps) = IsGraphic cp × AllGraphic cps

behind-behind : (xs ys : List GridCall) (s : Step) → behind xs (behind ys s) ≡ behind (xs ++ ys) s
behind-behind xs ys (p, calls) = ap (λ c. (p, c)) (sym (append_assoc xs ys calls))

pub feed-append :
    (width : Width) (rows : ℕ) (p : VtParser) (xs ys : List ℕ)
    → feed width rows p (xs ++ ys) ≡ feed_rest (λ p'. feed width rows p' ys) (feed width rows p xs)
unfolding feed
feed-append width rows p [] ys = refl
feed-append width rows p (x ∷ xs) ys =
    let (q, calls) = feed_byte width rows p x in
    ap (behind calls) (feed-append width rows q xs ys)
    ∙ behind-behind calls (feed width rows q xs).1 (feed width rows (feed width rows q xs).0 ys)

pub text_shown :
    (width : Width) (rows : ℕ) (p : VtParser) (cps : List ℕ)
    → IsReady p
    → AllGraphic cps
    → (p' : VtParser) × (feed width rows p (encode_text cps) ≡ (p', map (shown width) cps))
      × IsReady p'
unfolding encode_text feed
text_shown width rows p [] r g = (p, refl, r)
text_shown width rows p (cp ∷ cps) r (g, gs) =
    let (q, one, r') = encode-Shows width rows p r cp g in
    let (p', more, r'') = text_shown width rows q cps r' gs in
    (
      p',
      feed-append width rows p (encode cp) (encode_text cps)
          ∙ ap (feed_rest (λ q'. feed width rows q' (encode_text cps))) one
          ∙ ap (behind (shown width cp ∷ [])) more,
      r'',
    )

-- What CAN makes of a sequence that is being passed through.
abbrev pub aborted : VtParser → List GridCall
aborted p = if is_bypass p.state then emit p bypass_end else []

cancelled :
    (width : Width) (rows : ℕ) (p : VtParser)
    → IsValid p
    → (q : VtParser) × (feed_byte width rows p 0x18 ≡ (q, aborted p)) × IsReady q
unfolding feed_byte feed_bypass transition_to
cancelled width rows p v = elim (Bool-cases (is_bypass p.state)) [
  | inl e ↦ (
    record p { bypass_bytes = 0; in_osc = false; state = ground_state },
    ground (arith, e),
    record { at_ground = refl; between_characters = idle_of p.state e v.only_ground },
  )
  | inr e ↦ (
    transition_to (record p { utf8_remaining = 0 }) ground_state,
    ground (arith, e),
    record { at_ground = refl; between_characters = refl },
  )
]

-- Whatever state a valid parser is in, after CAN it shows a text of graphic characters as they
-- are: fed the UTF-8 of the text, it makes one call for each character, in order, behind the end
-- of a sequence that it was passing through, and is then ready for the next.
pub text_after_cancel :
    (width : Width) (rows : ℕ) (p : VtParser) (cps : List ℕ)
    → IsValid p
    → AllGraphic cps
    → (p' : VtParser) × (feed width rows p (0x18 ∷ encode_text cps)
        ≡ (p', aborted p ++ map (shown width) cps))
      × IsReady p'
unfolding feed
text_after_cancel width rows p cps v g =
    let (q, stopped, r) = cancelled width rows p v in
    let (p', shows, r') = text_shown width rows q cps r g in
    (
      p',
      ap (feed_rest (λ q'. feed width rows q' (encode_text cps))) stopped
          ∙ ap (behind (aborted p)) shows,
      r',
    )
