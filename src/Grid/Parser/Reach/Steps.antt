-- ===== src/Grid/Parser/Reach/Steps.antt =====
-- Every byte leaves a valid parser.
use zet.Prelude.{
  ℕ, ◌+◌, ◌≡◌, refl, ◌⊎◌, inl, inr, Bool, true, false, ◌&&◌, ◌||◌, List, [], ◌∷◌, arith,
  length-append, if_cases, subst, ltb, leb, ◌==◌,
}
use zet.Grid.Parser.{
  VtParser, EParserState, cleared, between, add_param, collect_intermediate, transition_to,
  bypass_limit_bytes, ground_state, escape, escape_intermediate, csi_entry, csi_param,
  csi_intermediate, csi_ignore, dcs_entry, dcs_param, dcs_intermediate, dcs_passthrough, dcs_ignore,
  osc_string, sos_pm_apc_string, bypass,
}
use zet.Grid.Parser.Feed.{
  Width, feed, feed_byte, feed_plain, feed_state, feed_escape, feed_escape_intermediate,
  feed_csi_entry, feed_csi_param, feed_csi_intermediate, feed_csi_ignore, feed_bypass, start_utf8,
  continue_utf8, is_ground, is_bypass, is_utf8_continuation, utf8_lead_length, left_bypass,
}
use zet.Grid.Parser.Reach.{
  IsValid, IsUsed, Valid, transition_to-IsValid, esc_ground-IsValid, csi_ground-IsValid,
  counted-IsValid,
}

-- The fields that are bounded, and a new state.
module _ (p : VtParser) (v : IsValid p) (idle : p.utf8_remaining ≡ 0) where
  moved-IsValid : (state : EParserState) → IsUsed state → IsValid (record p { state = state })
  moved-IsValid state used = record {
    params = v.params;
    collected = v.collected;
    few = v.few;
    begun = v.begun;
    only_ground = inr idle;
    bypassed = v.bypassed;
    used = used;
  }

  param-IsValid :
      (ch : ℕ) (state : EParserState)
      → IsUsed state
      → IsValid (record (add_param p ch) { state = state })
  unfolding add_param
  param-IsValid ch state used = record {
    params = ground (arith, v.params, length-append p.param_buf (ch ∷ []));
    collected = ground (arith, v.collected);
    few = ground (arith, v.few);
    begun = ground (arith, v.begun);
    only_ground = inr (ground (arith, idle));
    bypassed = ground (arith, v.bypassed);
    used = used;
  }

  intermediate-IsValid :
      (ch : ℕ) (state : EParserState)
      → IsUsed state
      → IsValid (record (collect_intermediate p ch) { state = state })
  unfolding collect_intermediate
  intermediate-IsValid ch state used = record {
    params = ground (arith, v.params);
    collected = ground (arith, v.collected, length-append p.intermediates (ch ∷ []));
    few = ground (arith, v.few);
    begun = ground (arith, v.begun);
    only_ground = inr (ground (arith, idle));
    bypassed = ground (arith, v.bypassed);
    used = used;
  }

  cleared-IsValid :
      (state : EParserState) → IsUsed state → IsValid (record (cleared p) { state = state })
  cleared-IsValid state used = record {
    params = omega arith;
    collected = omega arith;
    few = v.few;
    begun = v.begun;
    only_ground = inr idle;
    bypassed = v.bypassed;
    used = used;
  }

  bypass-IsValid :
      (in_osc : Bool) → IsValid (record p { in_osc = in_osc; bypass_bytes = 0; state = bypass })
  bypass-IsValid in_osc = record {
    params = v.params;
    collected = v.collected;
    few = v.few;
    begun = v.begun;
    only_ground = inr idle;
    bypassed = omega arith;
    used = tt;
  }

  feed_escape-Valid : (raw : ℕ) → Valid (feed_escape p raw)
  unfolding feed_escape transition_to
  feed_escape-Valid raw =
      if_cases Valid (between 0x20 0x2f raw) _ _
        (λ _. intermediate-IsValid raw escape_intermediate tt)
        (λ _.
          if_cases Valid (between 0x30 0x4f raw) _ _ (λ _. esc_ground-IsValid p raw v)
            (λ _.
              if_cases Valid (raw == 0x50) _ _ (λ _. cleared-IsValid dcs_entry tt)
                (λ _.
                  if_cases Valid (raw == 0x5b) _ _ (λ _. cleared-IsValid csi_entry tt)
                    (λ _.
                      if_cases Valid (raw == 0x5d) _ _ (λ _. bypass-IsValid true)
                        (λ _.
                          if_cases Valid (raw == 0x58 || raw == 0x5e || raw == 0x5f) _ _
                            (λ _. bypass-IsValid false)
                            (λ _.
                              if_cases Valid (between 0x51 0x57 raw || between 0x59 0x7e raw) _ _
                                (λ _. esc_ground-IsValid p raw v) (λ _. v)))))))

  same_state_param : (ch : ℕ) → record (add_param p ch) { state = p.state } ≡ add_param p ch
  unfolding add_param
  same_state_param ch = ground arith

  same_state_intermediate :
      (ch : ℕ) → record (collect_intermediate p ch) { state = p.state } ≡ collect_intermediate p ch
  unfolding collect_intermediate
  same_state_intermediate ch = ground arith

  kept_intermediate-IsValid : (ch : ℕ) → IsValid (collect_intermediate p ch)
  kept_intermediate-IsValid ch =
      subst IsValid (same_state_intermediate ch) (intermediate-IsValid ch p.state v.used)

  feed_escape_intermediate-Valid : (raw : ℕ) → Valid (feed_escape_intermediate p raw)
  unfolding feed_escape_intermediate
  feed_escape_intermediate-Valid raw =
      if_cases Valid (between 0x20 0x2f raw) _ _ (λ _. kept_intermediate-IsValid raw)
        (λ _. if_cases Valid (between 0x30 0x7e raw) _ _ (λ _. esc_ground-IsValid p raw v) (λ _. v))

  feed_csi_param-Valid : (rows raw : ℕ) → Valid (feed_csi_param rows p raw)
  unfolding feed_csi_param
  feed_csi_param-Valid rows raw =
      if_cases Valid (between 0x30 0x3f raw) _ _
        (λ _. subst IsValid (same_state_param raw) (param-IsValid raw p.state v.used))
        (λ _.
          if_cases Valid (between 0x20 0x2f raw) _ _
            (λ _. intermediate-IsValid raw csi_intermediate tt)
            (λ _.
              if_cases Valid (between 0x40 0x7e raw) _ _ (λ _. csi_ground-IsValid rows p raw v)
                (λ _. v)))

  feed_csi_intermediate-Valid : (rows raw : ℕ) → Valid (feed_csi_intermediate rows p raw)
  unfolding feed_csi_intermediate
  feed_csi_intermediate-Valid rows raw =
      if_cases Valid (between 0x20 0x2f raw) _ _ (λ _. kept_intermediate-IsValid raw)
        (λ _.
          if_cases Valid (between 0x40 0x7e raw) _ _ (λ _. csi_ground-IsValid rows p raw v)
            (λ _.
              if_cases Valid (between 0x30 0x3f raw) _ _ (λ _. moved-IsValid csi_ignore tt)
                (λ _. v)))

  feed_csi_ignore-Valid : (raw : ℕ) → Valid (feed_csi_ignore p raw)
  unfolding feed_csi_ignore
  feed_csi_ignore-Valid raw =
      if_cases Valid (between 0x40 0x7e raw) _ _
        (λ _. transition_to-IsValid _ (counted-IsValid p v)) (λ _. v)

module _ (p : VtParser) (v : IsValid p) (idle : p.utf8_remaining ≡ 0) where
  marked-IsValid : (marker : ℕ) → IsValid (record p { private_marker = marker })
  marked-IsValid marker = record {
    params = v.params;
    collected = v.collected;
    few = v.few;
    begun = v.begun;
    only_ground = v.only_ground;
    bypassed = v.bypassed;
    used = v.used;
  }

  feed_csi_entry-Valid : (rows raw : ℕ) → Valid (feed_csi_entry rows p raw)
  unfolding feed_csi_entry
  feed_csi_entry-Valid rows raw =
      if_cases Valid (between 0x30 0x3b raw) _ _ (λ _. param-IsValid p v idle raw csi_param tt)
        (λ _.
          if_cases Valid (between 0x3c 0x3f raw) _ _
            (λ _.
              param-IsValid (record p { private_marker = raw }) (marked-IsValid raw) idle raw
                csi_param tt)
            (λ _.
              if_cases Valid (between 0x20 0x2f raw) _ _
                (λ _. intermediate-IsValid p v idle raw csi_intermediate tt)
                (λ _.
                  if_cases Valid (between 0x40 0x7e raw) _ _ (λ _. csi_ground-IsValid rows p raw v)
                    (λ _. v))))

  feed_state-Valid :
      (rows : ℕ) (state : EParserState) (raw : ℕ)
      → IsUsed state
      → Valid (feed_state rows state p raw)
  unfolding feed_state
  feed_state-Valid rows ground_state raw u =
      if_cases Valid (between 0x20 0x7e raw) _ _ (λ _. v) (λ _. v)
  feed_state-Valid rows escape raw u = feed_escape-Valid p v idle raw
  feed_state-Valid rows escape_intermediate raw u = feed_escape_intermediate-Valid p v idle raw
  feed_state-Valid rows csi_entry raw u = feed_csi_entry-Valid rows raw
  feed_state-Valid rows csi_param raw u = feed_csi_param-Valid p v idle rows raw
  feed_state-Valid rows csi_intermediate raw u = feed_csi_intermediate-Valid p v idle rows raw
  feed_state-Valid rows csi_ignore raw u = feed_csi_ignore-Valid p v idle raw
  feed_state-Valid rows dcs_entry raw u = bypass-IsValid p v idle false
  feed_state-Valid rows dcs_param raw u = absurd u
  feed_state-Valid rows dcs_intermediate raw u = absurd u
  feed_state-Valid rows dcs_passthrough raw u = absurd u
  feed_state-Valid rows dcs_ignore raw u = absurd u
  feed_state-Valid rows osc_string raw u = absurd u
  feed_state-Valid rows sos_pm_apc_string raw u = absurd u
  feed_state-Valid rows bypass raw u = v

  start_utf8-Valid : (raw : ℕ) → is_ground p.state ≡ true → Valid (start_utf8 p raw)
  unfolding start_utf8 utf8_lead_length
  start_utf8-Valid raw e =
      if_cases Valid (ltb 0 (utf8_lead_length raw)) _ _
        (λ _. record {
          params = v.params;
          collected = v.collected;
          few = ground arith;
          begun = ground arith;
          only_ground = inl e;
          bypassed = v.bypassed;
          used = v.used;
        })
        (λ _. v)

  feed_plain-Valid : (rows raw : ℕ) → Valid (feed_plain rows p raw)
  unfolding feed_plain
  feed_plain-Valid rows raw =
      if_cases Valid (between 0xc0 0xff raw && is_ground p.state) _ _
        (λ e. start_utf8-Valid raw (ground (arith, e)))
        (λ _.
          if_cases Valid (ltb raw 0x20) _ _ (λ _. v)
            (λ _.
              if_cases Valid (raw == 0x7f) _ _ (λ _. v)
                (λ _. feed_state-Valid rows p.state raw v.used)))

pub idle_of :
    {A : Type 0} (state : EParserState) → is_bypass state ≡ true → (is_ground state ≡ true) ⊎ A → A
idle_of ground_state e h = absurd (cc e)
idle_of state e (inr a) = a
idle_of bypass e (inl h) = absurd (cc h)
idle_of state e (inl h) = absurd (cc h)

module _ (p : VtParser) (v : IsValid p) where
  left-IsValid :
      (state : EParserState)
      → IsUsed state
      → (is_ground state ≡ true) ⊎ (p.utf8_remaining ≡ 0)
      → IsValid (left_bypass p state)
  left-IsValid state used idle = record {
    params = v.params;
    collected = v.collected;
    few = v.few;
    begun = v.begun;
    only_ground = idle;
    bypassed = omega arith;
    used = used;
  }

  stopped-IsValid : IsValid (record p { utf8_remaining = 0 })
  stopped-IsValid = record {
    params = v.params;
    collected = v.collected;
    few = omega arith;
    begun = omega arith;
    only_ground = inr refl;
    bypassed = v.bypassed;
    used = v.used;
  }

  feed_bypass-Valid : (raw : ℕ) → is_bypass p.state ≡ true → Valid (feed_bypass p raw)
  unfolding feed_bypass
  feed_bypass-Valid raw e =
      if_cases Valid (raw == 0x18 || raw == 0x1a) _ _ (λ _. left-IsValid ground_state tt (inl refl))
        (λ _.
          if_cases Valid (raw == 0x1b) _ _
            (λ _. left-IsValid escape tt (inr (idle_of p.state e v.only_ground)))
            (λ _.
              if_cases Valid (raw == 0x07 && p.in_osc) _ _
                (λ _. left-IsValid ground_state tt (inl refl))
                (λ _.
                  if_cases Valid (leb bypass_limit_bytes (p.bypass_bytes + 1)) _ _
                    (λ _. left-IsValid ground_state tt (inl refl))
                    (λ h. record {
                      params = v.params;
                      collected = v.collected;
                      few = v.few;
                      begun = v.begun;
                      only_ground = v.only_ground;
                      bypassed = ground (arith, h);
                      used = v.used;
                    }))))

  continue_utf8-Valid : (width : Width) (raw : ℕ) → Valid (continue_utf8 width p raw)
  unfolding continue_utf8
  continue_utf8-Valid width raw = record {
    params = v.params;
    collected = v.collected;
    few = omega (arith, v.few);
    begun = omega (arith, v.begun);
    only_ground = elim v.only_ground [ inl e ↦ inl e | inr idle ↦ inr (omega (arith, idle)) ];
    bypassed = v.bypassed;
    used = v.used;
  }

  pub feed_byte-IsValid : (width : Width) (rows raw : ℕ) → IsValid (feed_byte width rows p raw).0
  unfolding feed_byte
  feed_byte-IsValid width rows raw =
      if_cases Valid (is_bypass p.state) _ _ (λ e. feed_bypass-Valid raw e)
        (λ _.
          if_cases Valid (raw == 0x18 || raw == 0x1a) _ _
            (λ _. transition_to-IsValid _ stopped-IsValid)
            (λ _.
              if_cases Valid (raw == 0x1b) _ _
                (λ _.
                  cleared-IsValid (record p { utf8_remaining = 0 }) stopped-IsValid refl escape tt)
                (λ _.
                  if_cases Valid (ltb 0 p.utf8_remaining) _ _
                    (λ _.
                      if_cases Valid (is_utf8_continuation raw) _ _
                        (λ _. continue_utf8-Valid width raw)
                        (λ _.
                          feed_plain-Valid (record p { utf8_remaining = 0 }) stopped-IsValid refl
                            rows raw))
                    (λ e. feed_plain-Valid p v (ground (arith, e)) rows raw))))

-- A valid parser stays valid whatever bytes it is fed: its two buffers hold no more than their
-- sizes, a character has at most three bytes to come and only in the ground state, the bytes
-- passed through are below their limit, and the six states that are declared but not used are
-- never reached.
pub feed-IsValid :
    (width : Width) (rows : ℕ) (p : VtParser) (bytes : List ℕ)
    → IsValid p
    → IsValid (feed width rows p bytes).0
unfolding feed
feed-IsValid width rows p [] v = v
feed-IsValid width rows p (raw ∷ rest) v =
    feed-IsValid width rows (feed_byte width rows p raw).0 rest
      (feed_byte-IsValid p v width rows raw)
