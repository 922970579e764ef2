-- ===== src/Grid/Parser/Calls/Steps.antt =====
-- Every byte makes calls with arguments in their ranges.
use zet.Prelude.{
  ℕ, ◌+◌, ◌-◌, ◌<◌, inl, inr, ◌&&◌, ◌||◌, List, [], ◌∷◌, ◌++◌, arith, if_cases, ltb, leb, ◌==◌,
  if◌then◌else◌,
}
use zet.Grid.Parser.{
  VtParser, EParserState, GridCall, dispatch_charset, dispatch_plain, emit, bypass_start,
  bypass_end, bypass_byte, between, bypass_limit_bytes, dispatch_esc, handle_control, ground_state,
  escape, escape_intermediate, csi_entry, csi_param, csi_intermediate, csi_ignore, dcs_entry,
  dcs_param, dcs_intermediate, dcs_passthrough, dcs_ignore, osc_string, sos_pm_apc_string, bypass,
}
use zet.Grid.Parser.Feed.{
  Width, feed, feed_byte, feed_plain, feed_state, feed_escape, feed_escape_intermediate,
  feed_csi_entry, feed_csi_param, feed_csi_intermediate, feed_csi_ignore, feed_bypass, start_utf8,
  continue_utf8, is_ground, is_bypass, is_utf8_continuation, utf8_lead_length, character, checked,
  replacement,
}
use zet.Grid.Parser.Calls.{IsSane, AllSane, AllSane-append, Sane, dispatch_csi-AllSane}
use zet.Grid.Parser.Reach.Steps.{feed_byte-IsValid}
use zet.Grid.Parser.Reach.{IsValid}

emit-AllSane : (p : VtParser) (call : GridCall) → IsSane call → AllSane (emit p call)
unfolding emit
emit-AllSane p call h = if_cases AllSane p.has_bypass _ _ (λ _. (h, tt)) (λ _. tt)

replacement-AllSane : AllSane replacement
replacement-AllSane = (
  record {
    not_c0 = omega arith;
    not_c1 = inr (omega arith);
    not_surrogate = inr (omega arith);
    most = omega arith;
  },
  tt,
)

handle_control-AllSane : (c : ℕ) → AllSane (handle_control c)
unfolding handle_control
handle_control-AllSane c =
    if_cases AllSane (c == 0x08) _ _ (λ _. (tt, tt))
      (λ _.
        if_cases AllSane (c == 0x09) _ _ (λ _. (tt, tt))
          (λ _.
            if_cases AllSane (c == 0x0a || c == 0x0b || c == 0x0c) _ _ (λ _. (tt, tt))
              (λ _.
                if_cases AllSane (c == 0x0d) _ _ (λ _. (tt, tt))
                  (λ _.
                    if_cases AllSane (c == 0x0e) _ _ (λ _. (tt, tt))
                      (λ _. if_cases AllSane (c == 0x0f) _ _ (λ _. (tt, tt)) (λ _. tt))))))

dispatch_plain-Sane : (p : VtParser) (final : ℕ) → Sane (dispatch_plain p final)
dispatch_plain-Sane p final =
    if_cases Sane (final == 0x37) _ _ (λ _. (tt, tt))
      (λ _.
        if_cases Sane (final == 0x38) _ _ (λ _. (tt, tt))
          (λ _.
            if_cases Sane (final == 0x44) _ _ (λ _. (tt, tt))
              (λ _.
                if_cases Sane (final == 0x45) _ _ (λ _. (tt, (tt, tt)))
                  (λ _.
                    if_cases Sane (final == 0x48) _ _ (λ _. (tt, tt))
                      (λ _.
                        if_cases Sane (final == 0x4d) _ _ (λ _. (tt, tt))
                          (λ _.
                            if_cases Sane (final == 0x63) _ _ (λ _. (tt, tt))
                              (λ _. if_cases Sane (final == 0x5c) _ _ (λ _. tt) (λ _. tt))))))))

dispatch_charset-Sane :
    (p : VtParser) (is : List ℕ) (final : ℕ) → Sane (dispatch_charset p is final)
dispatch_charset-Sane p [] final = dispatch_plain-Sane p final
dispatch_charset-Sane p (i ∷ []) final =
    if_cases Sane (i == 0x28) _ _ (λ _. (tt, tt))
      (λ _. if_cases Sane (i == 0x29) _ _ (λ _. (tt, tt)) (λ _. tt))
dispatch_charset-Sane p (i ∷ j ∷ is) final = tt

dispatch_esc-Sane : (p : VtParser) (final : ℕ) → Sane (dispatch_esc p final)
unfolding dispatch_esc
dispatch_esc-Sane p final = dispatch_charset-Sane p p.intermediates final

feed_bypass-Sane : (p : VtParser) (raw : ℕ) → Sane (feed_bypass p raw)
unfolding feed_bypass
feed_bypass-Sane p raw =
    if_cases Sane (raw == 0x18 || raw == 0x1a) _ _ (λ _. emit-AllSane p bypass_end tt)
      (λ _.
        if_cases Sane (raw == 0x1b) _ _ (λ _. emit-AllSane p bypass_end tt)
          (λ _.
            if_cases Sane (raw == 0x07 && p.in_osc) _ _ (λ _. emit-AllSane p bypass_end tt)
              (λ _.
                if_cases Sane (leb bypass_limit_bytes (p.bypass_bytes + 1)) _ _
                  (λ _.
                    AllSane-append (emit p bypass_end) _ (emit-AllSane p bypass_end tt) (tt, tt))
                  (λ _. emit-AllSane p (bypass_byte raw) tt))))

-- What is left of a decoded character is a graphic one.
character-AllSane :
    (width : Width) (state : EParserState) (seq_len cp : ℕ)
    → 0 < seq_len
    → AllSane (character width state (checked seq_len cp))
character-AllSane width state seq_len cp h =
    if_cases AllSane (between 0x80 0x9f (checked seq_len cp)) _ _ (λ _. tt)
      (λ e.
        if_cases AllSane (is_ground state) _ _
          (λ _. (
            record {
              not_c0 = ground (arith, h, e);
              not_c1 = inr (ground (arith, h, e));
              not_surrogate = ground (arith, h, e);
              most = ground (arith, h, e);
            },
            tt,
          ))
          (λ _. tt))

continue_utf8-Sane :
    (width : Width) (p : VtParser) (raw : ℕ) → 0 < p.utf8_seq_len → Sane (continue_utf8 width p raw)
unfolding continue_utf8
continue_utf8-Sane width p raw h =
    if_cases AllSane (p.utf8_remaining - 1 == 0) _ _
      (λ _. character-AllSane width p.state p.utf8_seq_len _ h) (λ _. tt)

feed_escape-Sane : (p : VtParser) (raw : ℕ) → Sane (feed_escape p raw)
unfolding feed_escape
feed_escape-Sane p raw =
    if_cases Sane (between 0x20 0x2f raw) _ _ (λ _. tt)
      (λ _.
        if_cases Sane (between 0x30 0x4f raw) _ _ (λ _. dispatch_esc-Sane p raw)
          (λ _.
            if_cases Sane (raw == 0x50) _ _ (λ _. tt)
              (λ _.
                if_cases Sane (raw == 0x5b) _ _ (λ _. tt)
                  (λ _.
                    if_cases Sane (raw == 0x5d) _ _ (λ _. emit-AllSane p bypass_start tt)
                      (λ _.
                        if_cases Sane (raw == 0x58 || raw == 0x5e || raw == 0x5f) _ _
                          (λ _. emit-AllSane p bypass_start tt)
                          (λ _.
                            if_cases Sane (between 0x51 0x57 raw || between 0x59 0x7e raw) _ _
                              (λ _. dispatch_esc-Sane p raw) (λ _. tt)))))))

feed_csi_entry-Sane : (rows : ℕ) (p : VtParser) (raw : ℕ) → Sane (feed_csi_entry rows p raw)
unfolding feed_csi_entry
feed_csi_entry-Sane rows p raw =
    if_cases Sane (between 0x30 0x3b raw) _ _ (λ _. tt)
      (λ _.
        if_cases Sane (between 0x3c 0x3f raw) _ _ (λ _. tt)
          (λ _.
            if_cases Sane (between 0x20 0x2f raw) _ _ (λ _. tt)
              (λ _.
                if_cases Sane (between 0x40 0x7e raw) _ _ (λ _. dispatch_csi-AllSane rows p raw)
                  (λ _. tt))))

entered-AllSane :
    (p : VtParser) (raw : ℕ) → AllSane (emit p bypass_start ++ emit p (bypass_byte raw))
entered-AllSane p raw =
    AllSane-append (emit p bypass_start) _ (emit-AllSane p bypass_start tt)
      (emit-AllSane p (bypass_byte raw) tt)

feed_state-Sane :
    (rows : ℕ) (state : EParserState) (p : VtParser) (raw : ℕ) → Sane (feed_state rows state p raw)
unfolding feed_state feed_escape_intermediate feed_csi_param feed_csi_intermediate feed_csi_ignore
feed_state-Sane rows ground_state p raw =
    if_cases Sane (between 0x20 0x7e raw) _ _
      (λ e. (
        record {
          not_c0 = ground (arith, e);
          not_c1 = inl (ground (arith, e));
          not_surrogate = inl (ground (arith, e));
          most = ground (arith, e);
        },
        tt,
      ))
      (λ _. tt)
feed_state-Sane rows escape p raw = feed_escape-Sane p raw
feed_state-Sane rows escape_intermediate p raw =
    if_cases Sane (between 0x20 0x2f raw) _ _ (λ _. tt)
      (λ _. if_cases Sane (between 0x30 0x7e raw) _ _ (λ _. dispatch_esc-Sane p raw) (λ _. tt))
feed_state-Sane rows csi_entry p raw = feed_csi_entry-Sane rows p raw
feed_state-Sane rows csi_param p raw =
    if_cases Sane (between 0x30 0x3f raw) _ _ (λ _. tt)
      (λ _.
        if_cases Sane (between 0x20 0x2f raw) _ _ (λ _. tt)
          (λ _.
            if_cases Sane (between 0x40 0x7e raw) _ _ (λ _. dispatch_csi-AllSane rows p raw)
              (λ _. tt)))
feed_state-Sane rows csi_intermediate p raw =
    if_cases Sane (between 0x20 0x2f raw) _ _ (λ _. tt)
      (λ _.
        if_cases Sane (between 0x40 0x7e raw) _ _ (λ _. dispatch_csi-AllSane rows p raw)
          (λ _. if_cases Sane (between 0x30 0x3f raw) _ _ (λ _. tt) (λ _. tt)))
feed_state-Sane rows csi_ignore p raw =
    if_cases Sane (between 0x40 0x7e raw) _ _ (λ _. tt) (λ _. tt)
feed_state-Sane rows dcs_entry p raw = entered-AllSane p raw
feed_state-Sane rows dcs_param p raw = entered-AllSane p raw
feed_state-Sane rows dcs_intermediate p raw = entered-AllSane p raw
feed_state-Sane rows dcs_passthrough p raw = entered-AllSane p raw
feed_state-Sane rows dcs_ignore p raw = entered-AllSane p raw
feed_state-Sane rows osc_string p raw = entered-AllSane p raw
feed_state-Sane rows sos_pm_apc_string p raw = entered-AllSane p raw
feed_state-Sane rows bypass p raw = tt

feed_plain-Sane : (rows : ℕ) (p : VtParser) (raw : ℕ) → Sane (feed_plain rows p raw)
unfolding feed_plain start_utf8
feed_plain-Sane rows p raw =
    if_cases Sane (between 0xc0 0xff raw && is_ground p.state) _ _
      (λ _. if_cases Sane (ltb 0 (utf8_lead_length raw)) _ _ (λ _. tt) (λ _. replacement-AllSane))
      (λ _.
        if_cases Sane (ltb raw 0x20) _ _ (λ _. handle_control-AllSane raw)
          (λ _.
            if_cases Sane (raw == 0x7f) _ _ (λ _. tt) (λ _. feed_state-Sane rows p.state p raw)))

feed_byte-Sane :
    (width : Width) (rows : ℕ) (p : VtParser) (raw : ℕ)
    → IsValid p
    → Sane (feed_byte width rows p raw)
unfolding feed_byte
feed_byte-Sane width rows p raw v =
    if_cases Sane (is_bypass p.state) _ _ (λ _. feed_bypass-Sane p raw)
      (λ _.
        if_cases Sane (raw == 0x18 || raw == 0x1a) _ _
          (λ _. if_cases AllSane (raw == 0x1a) _ _ (λ _. replacement-AllSane) (λ _. tt))
          (λ _.
            if_cases Sane (raw == 0x1b) _ _ (λ _. tt)
              (λ _.
                if_cases Sane (ltb 0 p.utf8_remaining) _ _
                  (λ e.
                    if_cases Sane (is_utf8_continuation raw) _ _
                      (λ _. continue_utf8-Sane width p raw (ground (arith, e, v.begun)))
                      (λ _.
                        AllSane-append (if is_ground p.state then replacement else []) _
                          (if_cases AllSane (is_ground p.state) _ _ (λ _. replacement-AllSane)
                            (λ _. tt))
                          (feed_plain-Sane rows (record p { utf8_remaining = 0 }) raw)))
                  (λ _. feed_plain-Sane rows p raw))))

-- Whatever bytes a valid parser is fed, the characters that it shows are graphic ones, neither
-- controls nor surrogates nor past U+10FFFF, the numbers that it passes on fit 16 bits, or 8 where
-- the grid takes 8, and a rendition has 16 parameters at most.
pub feed-AllSane :
    (width : Width) (rows : ℕ) (p : VtParser) (bytes : List ℕ)
    → IsValid p
    → AllSane (feed width rows p bytes).1
unfolding feed
feed-AllSane width rows p [] v = tt
feed-AllSane width rows p (raw ∷ rest) v =
    AllSane-append (feed_byte width rows p raw).1 _ (feed_byte-Sane width rows p raw v) (
      feed-AllSane width rows (feed_byte width rows p raw).0 rest
        (feed_byte-IsValid p v width rows raw))
