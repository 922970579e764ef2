-- ===== src/Grid/Parser/Feed.antt =====
-- `VtParser::FeedByte`.
use zet.Prelude.{
  ℕ, ◌+◌, ◌-◌, ◌*◌, ◌/◌, ◌%◌, Bool, true, false, ◌&&◌, ◌||◌, List, [], ◌∷◌, ◌++◌, Option, none,
  some, if◌then◌else◌, ltb, leb, ◌==◌, u32_mod,
}
use zet.Grid.Parser.{
  VtParser, EParserState, GridCall, Step, cleared, add_param, collect_intermediate, transition_to,
  emit, unknown, between, handle_control, dispatch_esc, bypass_limit_bytes, put_char, bypass_start,
  bypass_byte, bypass_end, set_possibly_diverged, ground_state, escape, escape_intermediate,
  csi_entry, csi_param, csi_intermediate, csi_ignore, dcs_entry, dcs_param, dcs_intermediate,
  dcs_passthrough, dcs_ignore, osc_string, sos_pm_apc_string, bypass,
}
use zet.Grid.Parser.Csi.{dispatch_csi}

abbrev pub Width : Type 0
Width = ℕ → Option ℕ

abbrev pub width_or_one : Option ℕ → ℕ
width_or_one none = 1
width_or_one (some w) = w

abbrev pub is_bypass : EParserState → Bool
is_bypass bypass = true
is_bypass other = false

abbrev pub is_ground : EParserState → Bool
is_ground ground_state = true
is_ground other = false

abbrev pub replacement : List GridCall
replacement = put_char 0xfffd 1 ∷ []

-- A bypassed sequence is over.
abbrev pub left_bypass : VtParser → EParserState → VtParser
left_bypass p next = record p { bypass_bytes = 0; in_osc = false; state = next }

unfoldable pub feed_bypass : VtParser → ℕ → Step
unfolding emit
feed_bypass p raw =
    if raw == 0x18 || raw == 0x1a
    then (left_bypass p ground_state, emit p bypass_end)
    else if raw == 0x1b
    then (left_bypass p escape, emit p bypass_end)
    else if raw == 0x07 && p.in_osc
    then (left_bypass p ground_state, emit p bypass_end)
    else if leb bypass_limit_bytes (p.bypass_bytes + 1)
    then (left_bypass p ground_state, emit p bypass_end ++ (set_possibly_diverged true ∷ []))
    else (record p { bypass_bytes = p.bypass_bytes + 1 }, emit p (bypass_byte raw))

abbrev pub is_utf8_continuation : ℕ → Bool
is_utf8_continuation b = b / 64 == 2

unfoldable pub utf8_lead_length : ℕ → ℕ
utf8_lead_length b =
    if b / 32 == 6 then 1 else if b / 16 == 14 then 2 else if b / 8 == 30 then 3 else 0

-- The bits of a lead byte that are the character's.
abbrev pub lead_bits : ℕ → ℕ → ℕ
lead_bits extra raw = if extra == 1 then raw % 32 else if extra == 2 then raw % 16 else raw % 8

abbrev pub min_cp : ℕ → ℕ
min_cp seq_len =
    if seq_len == 0
    then 0
    else if seq_len == 1
    then 0x80
    else if seq_len == 2
    then 0x800
    else 0x10000

-- Overlong forms, surrogates and what is past the last character are replaced.
abbrev pub checked : ℕ → ℕ → ℕ
checked seq_len cp =
    if ltb cp (min_cp seq_len) || ltb 0x10ffff cp || between 0xd800 0xdfff cp then 0xfffd else cp

abbrev pub character : Width → EParserState → ℕ → List GridCall
character width state cp =
    if between 0x80 0x9f cp
    then []
    else if is_ground state
    then put_char cp (width_or_one (width cp)) ∷ []
    else []

unfoldable pub continue_utf8 : Width → VtParser → ℕ → Step
continue_utf8 width p raw =
    let cp = (p.utf8_accumulator * 64 + raw % 64) % u32_mod in
    (
      record p { utf8_accumulator = cp; utf8_remaining = p.utf8_remaining - 1 },
      if p.utf8_remaining - 1 == 0 then character width p.state (checked p.utf8_seq_len cp) else [],
    )

unfoldable pub start_utf8 : VtParser → ℕ → Step
unfolding utf8_lead_length
start_utf8 p raw =
    if ltb 0 (utf8_lead_length raw)
    then (
      record p {
        utf8_accumulator = lead_bits (utf8_lead_length raw) raw;
        utf8_remaining = utf8_lead_length raw;
        utf8_seq_len = utf8_lead_length raw;
      },
      [],
    )
    else (p, replacement)

-- A sequence has been dispatched.
abbrev pub to_ground : Step → Step
to_ground (p, calls) = (transition_to p ground_state, calls)

abbrev pub enter_bypass : VtParser → Bool → Step
enter_bypass p in_osc =
    (record p { in_osc = in_osc; bypass_bytes = 0; state = bypass }, emit p bypass_start)

-- A byte that a bypass starts with, and that belongs to it.
abbrev pub enter_with : VtParser → ℕ → Step
enter_with p raw = (
  record p { in_osc = false; bypass_bytes = 0; state = bypass },
  emit p bypass_start ++ emit p (bypass_byte raw),
)

unfoldable pub feed_escape : VtParser → ℕ → Step
unfolding collect_intermediate dispatch_esc transition_to emit
feed_escape p raw =
    if between 0x20 0x2f raw
    then (record (collect_intermediate p raw) { state = escape_intermediate }, [])
    else if between 0x30 0x4f raw
    then to_ground (dispatch_esc p raw)
    else if raw == 0x50
    then (transition_to p dcs_entry, [])
    else if raw == 0x5b
    then (record (cleared p) { state = csi_entry }, [])
    else if raw == 0x5d
    then enter_bypass p true
    else if raw == 0x58 || raw == 0x5e || raw == 0x5f
    then enter_bypass p false
    else if between 0x51 0x57 raw || between 0x59 0x7e raw
    then to_ground (dispatch_esc p raw)
    else (p, [])

unfoldable pub feed_escape_intermediate : VtParser → ℕ → Step
unfolding collect_intermediate dispatch_esc transition_to
feed_escape_intermediate p raw =
    if between 0x20 0x2f raw
    then (collect_intermediate p raw, [])
    else if between 0x30 0x7e raw
    then to_ground (dispatch_esc p raw)
    else (p, [])

unfoldable pub feed_csi_entry : ℕ → VtParser → ℕ → Step
unfolding add_param collect_intermediate dispatch_csi transition_to
feed_csi_entry rows p raw =
    if between 0x30 0x3b raw
    then (record (add_param p raw) { state = csi_param }, [])
    else if between 0x3c 0x3f raw
    then (record (add_param (record p { private_marker = raw }) raw) { state = csi_param }, [])
    else if between 0x20 0x2f raw
    then (record (collect_intermediate p raw) { state = csi_intermediate }, [])
    else if between 0x40 0x7e raw
    then to_ground (dispatch_csi rows p raw)
    else (p, [])

unfoldable pub feed_csi_param : ℕ → VtParser → ℕ → Step
unfolding add_param collect_intermediate dispatch_csi transition_to
feed_csi_param rows p raw =
    if between 0x30 0x3f raw
    then (add_param p raw, [])
    else if between 0x20 0x2f raw
    then (record (collect_intermediate p raw) { state = csi_intermediate }, [])
    else if between 0x40 0x7e raw
    then to_ground (dispatch_csi rows p raw)
    else (p, [])

unfoldable pub feed_csi_intermediate : ℕ → VtParser → ℕ → Step
unfolding collect_intermediate dispatch_csi transition_to
feed_csi_intermediate rows p raw =
    if between 0x20 0x2f raw
    then (collect_intermediate p raw, [])
    else if between 0x40 0x7e raw
    then to_ground (dispatch_csi rows p raw)
    else if between 0x30 0x3f raw
    then (record p { state = csi_ignore }, [])
    else (p, [])

unfoldable pub feed_csi_ignore : VtParser → ℕ → Step
unfolding transition_to
feed_csi_ignore p raw = if between 0x40 0x7e raw then to_ground (unknown p) else (p, [])

-- The switch on the state.
unfoldable pub feed_state : ℕ → EParserState → VtParser → ℕ → Step
unfolding feed_escape feed_escape_intermediate feed_csi_entry feed_csi_param feed_csi_intermediate
    feed_csi_ignore emit
feed_state rows ground_state p raw =
    if between 0x20 0x7e raw then (p, put_char raw 1 ∷ []) else (p, [])
feed_state rows escape p raw = feed_escape p raw
feed_state rows escape_intermediate p raw = feed_escape_intermediate p raw
feed_state rows csi_entry p raw = feed_csi_entry rows p raw
feed_state rows csi_param p raw = feed_csi_param rows p raw
feed_state rows csi_intermediate p raw = feed_csi_intermediate rows p raw
feed_state rows csi_ignore p raw = feed_csi_ignore p raw
feed_state rows dcs_entry p raw = enter_with p raw
feed_state rows dcs_param p raw = enter_with p raw
feed_state rows dcs_intermediate p raw = enter_with p raw
feed_state rows dcs_passthrough p raw = enter_with p raw
feed_state rows dcs_ignore p raw = enter_with p raw
feed_state rows osc_string p raw =
    (record p { state = bypass }, emit p bypass_start ++ emit p (bypass_byte raw))
feed_state rows sos_pm_apc_string p raw =
    (record p { state = bypass }, emit p bypass_start ++ emit p (bypass_byte raw))
feed_state rows bypass p raw = (p, [])

-- A byte that belongs to no character that has begun.
unfoldable pub feed_plain : ℕ → VtParser → ℕ → Step
unfolding start_utf8 handle_control feed_state
feed_plain rows p raw =
    if between 0xc0 0xff raw && is_ground p.state
    then start_utf8 p raw
    else if ltb raw 0x20
    then (p, handle_control raw)
    else if raw == 0x7f
    then (p, [])
    else feed_state rows p.state p raw

abbrev pub behind : List GridCall → Step → Step
behind calls (p, more) = (p, calls ++ more)

unfoldable pub feed_byte : Width → ℕ → VtParser → ℕ → Step
unfolding feed_bypass transition_to continue_utf8 feed_plain
feed_byte width rows p raw =
    if is_bypass p.state
    then feed_bypass p raw
    else if raw == 0x18 || raw == 0x1a
    then (
      transition_to (record p { utf8_remaining = 0 }) ground_state,
      if raw == 0x1a then replacement else [],
    )
    else if raw == 0x1b
    then (record (cleared p) { utf8_remaining = 0; state = escape }, [])
    else if ltb 0 p.utf8_remaining
    then (if is_utf8_continuation raw
        then continue_utf8 width p raw
        else behind (if is_ground p.state then replacement else [])
            (feed_plain rows (record p { utf8_remaining = 0 }) raw))
    else feed_plain rows p raw

-- `Feed`: the calls of all bytes, one after another.
abbrev pub feed_rest : (VtParser → Step) → Step → Step
feed_rest next (p, calls) = behind calls (next p)

unfoldable pub feed : Width → ℕ → VtParser → List ℕ → Step
feed width rows p [] = (p, [])
feed width rows p (raw ∷ rest) =
    feed_rest (λ p'. feed width rows p' rest) (feed_byte width rows p raw)
