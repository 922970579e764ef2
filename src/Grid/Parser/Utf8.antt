-- ===== src/Grid/Parser/Utf8.antt =====
-- Characters, as they are encoded, against the decoder in the parser.
pub mod Text
use zet.Prelude.{
  ℕ, ◌+◌, ◌-◌, ◌*◌, ◌/◌, ◌%◌, ◌≤◌, ◌<◌, ◌≡◌, refl, sym, ap, ap₂, ◌∙◌, ◌⊎◌, inl, inr, Bool, true,
  false, List, [], ◌∷◌, ◌++◌, arith, if◌then◌else◌, ltb, leb, ◌==◌, u32_mod, dec_lt, if_cases,
}
use zet.Grid.Parser.{
  VtParser, Step, GridCall, EParserState, ground_state, put_char, between, new_parser,
}
use zet.Grid.Parser.Feed.{
  Width, feed, feed_byte, feed_plain, start_utf8, continue_utf8, utf8_lead_length, width_or_one,
  lead_bits, checked, character, is_ground, is_bypass, is_utf8_continuation, feed_rest, behind,
  feed_state,
}

-- The encoding of RFC 3629.
pub encode : ℕ → List ℕ
encode cp =
    if ltb cp 0x80
    then cp ∷ []
    else if ltb cp 0x800
    then (0xc0 + cp / 64) ∷ (0x80 + cp % 64) ∷ []
    else if ltb cp 0x10000
    then (0xe0 + cp / 4096) ∷ (0x80 + cp / 64 % 64) ∷ (0x80 + cp % 64) ∷ []
    else (0xf0 + cp / 262144)
      ∷ (0x80 + cp / 4096 % 64)
      ∷ (0x80 + cp / 64 % 64)
      ∷ (0x80 + cp % 64)
      ∷ []

-- A character that is not a control character: what a terminal shows.
pub record IsGraphic (cp : ℕ) : Type 0 where
  pub not_c0 : 0x20 ≤ cp
  pub not_c1 : (cp < 0x7f) ⊎ (0xa0 ≤ cp)
  pub not_surrogate : (cp < 0xd800) ⊎ (0xe000 ≤ cp)
  pub most : cp ≤ 0x10ffff

-- A parser between two characters.
pub record IsReady (p : VtParser) : Type 0 where
  pub at_ground : p.state ≡ ground_state
  pub between_characters : p.utf8_remaining ≡ 0

abbrev pub shown : Width → ℕ → GridCall
shown width cp = put_char cp (if ltb cp 0x80 then 1 else width_or_one (width cp))

-- The parser once it has begun a character, and once it has some of its bits.
abbrev within : VtParser → ℕ → ℕ → ℕ → VtParser
within p acc left seq_len = record p {
  utf8_accumulator = acc;
  utf8_remaining = left;
  utf8_seq_len = seq_len;
}

module _ (width : Width) (rows : ℕ) (p : VtParser) (r : IsReady p) where
  begins : (raw : ℕ) → 0x20 ≤ raw → feed_byte width rows p raw ≡ feed_plain rows p raw
  unfolding feed_byte
  begins raw low =
      let idle : is_bypass p.state ≡ false = ap is_bypass r.at_ground in
      let none_left : ltb 0 p.utf8_remaining ≡ false = ground (arith, r.between_characters) in
      ground (arith, idle, none_left)

  lead :
      (raw extra : ℕ)
      → 0xc0 ≤ raw
      → raw < 256
      → utf8_lead_length raw ≡ extra
      → 0 < extra
      → feed_byte width rows p raw ≡ (within p (lead_bits extra raw) extra extra, [])
  unfolding feed_plain start_utf8
  lead raw extra low high e some_more =
      let at : is_ground p.state ≡ true = ap is_ground r.at_ground in
      begins raw (omega arith) ∙ ground (arith, at, e)

  ascii : (cp : ℕ) → 0x20 ≤ cp → cp < 0x7f → feed_byte width rows p cp ≡ (p, put_char cp 1 ∷ [])
  unfolding feed_plain feed_state
  ascii cp low high =
      let to_state : feed_plain rows p cp ≡ feed_state rows p.state p cp = ground arith in
      begins cp low ∙ to_state ∙ ap (λ s. feed_state rows s p cp) r.at_ground ∙ ground arith

  next :
      (acc left seq_len raw : ℕ)
      → 0x80 ≤ raw
      → raw < 0xc0
      → 0 < left
      → acc < 2097152
      → feed_byte width rows (within p acc (left + 1) seq_len) raw
        ≡ (within p (acc * 64 + raw % 64) left seq_len, [])
  unfolding feed_byte continue_utf8
  next acc left seq_len raw low high more small =
      let idle : is_bypass p.state ≡ false = ap is_bypass r.at_ground in
      let goes_on : is_utf8_continuation raw ≡ true = ground arith in ground (arith, idle, goes_on)

  last :
      (acc seq_len raw : ℕ)
      → 0x80 ≤ raw
      → raw < 0xc0
      → acc < 2097152
      → checked seq_len (acc * 64 + raw % 64) ≡ acc * 64 + raw % 64
      → 0xa0 ≤ acc * 64 + raw % 64
      → feed_byte width rows (within p acc 1 seq_len) raw ≡ (
        within p (acc * 64 + raw % 64) 0 seq_len,
        put_char (acc * 64 + raw % 64) (width_or_one (width (acc * 64 + raw % 64))) ∷ [],
      )
  unfolding feed_byte continue_utf8
  last acc seq_len raw low high small is_checked above =
      let idle : is_bypass p.state ≡ false = ap is_bypass r.at_ground in
      let at : is_ground p.state ≡ true = ap is_ground r.at_ground in
      let goes_on : is_utf8_continuation raw ≡ true = ground arith in
      let goes : feed_byte width rows (within p acc 1 seq_len) raw
          ≡ continue_utf8 width (within p acc 1 seq_len) raw =
        ground (arith, idle, goes_on) in
      let fits : (acc * 64 + raw % 64) % u32_mod ≡ acc * 64 + raw % 64 = omega arith in
      let drawn : character width p.state (checked seq_len ((acc * 64 + raw % 64) % u32_mod))
          ≡ put_char (acc * 64 + raw % 64) (width_or_one (width (acc * 64 + raw % 64))) ∷ [] =
        ap (λ n. character width p.state (checked seq_len n)) fits
        ∙ ap (character width p.state) is_checked
        ∙ ground (arith, at) in
      goes ∙ ap₂ (λ n calls. (within p n 0 seq_len, calls)) fits drawn

  -- The same, with the values of the bits said.
  lead_to :
      (raw extra value : ℕ)
      → 0xc0 ≤ raw
      → raw < 256
      → utf8_lead_length raw ≡ extra
      → 0 < extra
      → lead_bits extra raw ≡ value
      → feed_byte width rows p raw ≡ (within p value extra extra, [])
  lead_to raw extra value low high e some_more bits =
      lead raw extra low high e some_more ∙ ap (λ n. (within p n extra extra, [])) bits

  next_to :
      (acc left seq_len raw value : ℕ)
      → 0x80 ≤ raw
      → raw < 0xc0
      → 0 < left
      → acc < 2097152
      → acc * 64 + raw % 64 ≡ value
      → feed_byte width rows (within p acc (left + 1) seq_len) raw
        ≡ (within p value left seq_len, [])
  next_to acc left seq_len raw value low high more small bits =
      next acc left seq_len raw low high more small ∙ ap (λ n. (within p n left seq_len, [])) bits

  last_to :
      (acc seq_len raw cp : ℕ)
      → 0x80 ≤ raw
      → raw < 0xc0
      → acc < 2097152
      → acc * 64 + raw % 64 ≡ cp
      → checked seq_len cp ≡ cp
      → 0xa0 ≤ cp
      → feed_byte width rows (within p acc 1 seq_len) raw
        ≡ (within p cp 0 seq_len, put_char cp (width_or_one (width cp)) ∷ [])
  last_to acc seq_len raw cp low high small bits is_checked above =
      last acc seq_len raw low high small (ap (checked seq_len) bits ∙ is_checked ∙ sym bits)
        (omega (arith, bits))
      ∙ ap (λ n. (within p n 0 seq_len, put_char n (width_or_one (width n)) ∷ [])) bits

  silent :
      (q q' : VtParser) (raw : ℕ) (rest : List ℕ)
      → feed_byte width rows q raw ≡ (q', [])
      → feed width rows q (raw ∷ rest) ≡ feed width rows q' rest
  unfolding feed
  silent q q' raw rest e = ap (feed_rest (λ p'. feed width rows p' rest)) e

  -- What feeding some bytes comes to.
  abbrev pub Shows : List ℕ → GridCall → Type 0
  Shows bytes call = (p' : VtParser) × (feed width rows p bytes ≡ (p', call ∷ [])) × IsReady p'

  finish :
      (q : VtParser) (raw cp seq_len : ℕ)
      → feed_byte width rows q raw
        ≡ (within p cp 0 seq_len, put_char cp (width_or_one (width cp)) ∷ [])
      → 0x80 ≤ cp
      → (p' : VtParser) × (feed width rows q (raw ∷ []) ≡ (p', shown width cp ∷ [])) × IsReady p'
  unfolding feed
  finish q raw cp seq_len e high = (
    within p cp 0 seq_len,
    ap (feed_rest (λ p'. (p', []))) e
        ∙ ap (λ w. (within p cp 0 seq_len, put_char cp w ∷ [])) (ground arith),
    record { at_ground = r.at_ground; between_characters = refl },
  )

  two :
      (cp : ℕ)
      → cp < 0x800
      → 0xa0 ≤ cp
      → Shows ((0xc0 + cp / 64) ∷ (0x80 + cp % 64) ∷ []) (shown width cp)
  unfolding utf8_lead_length
  two cp high graphic =
      let a =
        lead_to (0xc0 + cp / 64) 1 (cp / 64) (omega arith) (omega arith) (ground arith)
          (omega arith) (ground arith) in
      let b =
        last_to (cp / 64) 1 (0x80 + cp % 64) cp (omega arith) (omega arith) (omega arith)
          (omega arith) (ground arith) graphic in
      let (p', shows, ready) = finish _ _ cp 1 b (omega arith) in
      (p', silent p _ _ _ a ∙ shows, ready)

  three :
      (cp : ℕ)
      → 0x800 ≤ cp
      → cp < 0x10000
      → (cp < 0xd800) ⊎ (0xe000 ≤ cp)
      → Shows ((0xe0 + cp / 4096) ∷ (0x80 + cp / 64 % 64) ∷ (0x80 + cp % 64) ∷ []) (shown width cp)
  unfolding utf8_lead_length
  three cp low high scalar =
      let a =
        lead_to (0xe0 + cp / 4096) 2 (cp / 4096) (omega arith) (omega arith) (ground arith)
          (omega arith) (ground arith) in
      let b =
        next_to (cp / 4096) 1 2 (0x80 + cp / 64 % 64) (cp / 64) (omega arith) (omega arith)
          (omega arith) (omega arith) (omega arith) in
      let d =
        last_to (cp / 64) 2 (0x80 + cp % 64) cp (omega arith) (omega arith) (omega arith)
          (omega arith) (ground arith) (omega arith) in
      let (p', shows, ready) = finish _ _ cp 2 d (omega arith) in
      (p', silent p _ _ _ a ∙ silent _ _ _ _ b ∙ shows, ready)

  four :
      (cp : ℕ)
      → 0x10000 ≤ cp
      → cp ≤ 0x10ffff
      → Shows
          ((0xf0 + cp / 262144)
            ∷ (0x80 + cp / 4096 % 64)
            ∷ (0x80 + cp / 64 % 64)
            ∷ (0x80 + cp % 64)
            ∷ [])
          (shown width cp)
  unfolding utf8_lead_length
  four cp low high =
      let a =
        lead_to (0xf0 + cp / 262144) 3 (cp / 262144) (omega arith) (omega arith) (ground arith)
          (omega arith) (ground arith) in
      let b =
        next_to (cp / 262144) 2 3 (0x80 + cp / 4096 % 64) (cp / 4096) (omega arith) (omega arith)
          (omega arith) (omega arith) (omega arith) in
      let b' =
        next_to (cp / 4096) 1 3 (0x80 + cp / 64 % 64) (cp / 64) (omega arith) (omega arith)
          (omega arith) (omega arith) (omega arith) in
      let d =
        last_to (cp / 64) 3 (0x80 + cp % 64) cp (omega arith) (omega arith) (omega arith)
          (omega arith) (ground arith) (omega arith) in
      let (p', shows, ready) = finish _ _ cp 3 d (omega arith) in
      (p', silent p _ _ _ a ∙ silent _ _ _ _ b ∙ silent _ _ _ _ b' ∙ shows, ready)

  one : (cp : ℕ) → 0x20 ≤ cp → cp < 0x7f → Shows (cp ∷ []) (shown width cp)
  unfolding feed
  one cp low high = (
    p,
    ap (feed_rest (λ p'. (p', []))) (ascii cp low high)
        ∙ ap (λ w. (p, put_char cp w ∷ [])) (ground arith),
    r,
  )

  pub encode-Shows : (cp : ℕ) → IsGraphic cp → Shows (encode cp) (shown width cp)
  unfolding encode
  encode-Shows cp g =
      if_cases (λ bs. Shows bs (shown width cp)) (ltb cp 0x80) _ _
        (λ e. one cp g.not_c0 (ground (arith, e, g.not_c1)))
        (λ e.
          if_cases (λ bs. Shows bs (shown width cp)) (ltb cp 0x800) _ _
            (λ e'. two cp (ground (arith, e')) (ground (arith, e, g.not_c1)))
            (λ e'.
              if_cases (λ bs. Shows bs (shown width cp)) (ltb cp 0x10000) _ _
                (λ e''. three cp (ground (arith, e')) (ground (arith, e'')) g.not_surrogate)
                (λ e''. four cp (ground (arith, e'')) g.most)))
