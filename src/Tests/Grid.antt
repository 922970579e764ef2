-- ===== src/Tests/Grid.antt =====
-- src/grid at concrete bytes.
use zet.Prelude.{ℕ, ◌≡◌, refl, arith, inl, inr, true, List, [], ◌∷◌, some}
use zet.Grid.Parser.{
  VtParser, add_param, transition_to, bypass, bypass_end, emit, new_parser, put_char,
  move_cursor_to, set_mode,
}
use zet.Grid.Parser.Feed.{
  Width, feed, feed_byte, feed_plain, feed_state, feed_escape, feed_csi_entry, feed_csi_param,
  start_utf8, continue_utf8, utf8_lead_length,
}
use zet.Grid.Parser.Csi.{dispatch_csi, parse_params, parse_from, set_private_modes}
use zet.Grid.Parser.Reach.{IsValid, new_parser-IsValid}
use zet.Grid.Parser.Reach.Steps.{feed-IsValid}
use zet.Grid.Parser.Calls.{AllSane}
use zet.Grid.Parser.Calls.Steps.{feed-AllSane}
use zet.Grid.Parser.Utf8.{IsReady}
use zet.Grid.Parser.Utf8.Text.{text_after_cancel, encode_text}

abbrev narrow : Width
narrow cp = some 1

-- ESC [ 3 ; 4 H, ESC [ ? 2 5 h, and the two bytes of U+00E9.
abbrev sequences : List ℕ
sequences =
    0x1b ∷ 0x5b ∷ 0x33 ∷ 0x3b ∷ 0x34 ∷ 0x48 ∷ 0x1b ∷ 0x5b ∷ 0x3f ∷ 0x32 ∷ 0x35 ∷ 0x68 ∷ 0xc3 ∷ 0xa9
    ∷ []

sequences_calls :
    (feed narrow 24 new_parser sequences).1
    ≡ move_cursor_to 3 4 ∷ set_mode 25 true ∷ put_char 0xe9 1 ∷ []
unfolding feed feed_byte feed_plain feed_state feed_escape feed_csi_entry feed_csi_param start_utf8
    continue_utf8 utf8_lead_length add_param transition_to dispatch_csi parse_params parse_from
    set_private_modes
sequences_calls = refl

feed-IsValid_example : IsValid (feed narrow 24 new_parser sequences).0
feed-IsValid_example = feed-IsValid narrow 24 new_parser sequences new_parser-IsValid

feed-AllSane_example : AllSane (feed narrow 24 new_parser sequences).1
feed-AllSane_example = feed-AllSane narrow 24 new_parser sequences new_parser-IsValid

-- A parser within a sequence that it passes through.
abbrev passing : VtParser
passing = record new_parser { state = bypass; has_bypass = true; bypass_bytes = 7; in_osc = true }

text_after_cancel_example :
    (p' : VtParser) × (feed narrow 24 passing (0x18 ∷ encode_text (0x41 ∷ 0xe9 ∷ 0x1f600 ∷ []))
      ≡ (p', bypass_end ∷ put_char 0x41 1 ∷ put_char 0xe9 1 ∷ put_char 0x1f600 1 ∷ []))
    × IsReady p'
unfolding emit
text_after_cancel_example =
    text_after_cancel narrow 24 passing (0x41 ∷ 0xe9 ∷ 0x1f600 ∷ [])
      (record {
        params = omega arith;
        collected = omega arith;
        few = omega arith;
        begun = omega arith;
        only_ground = inr refl;
        bypassed = omega arith;
        used = tt;
      })
      (
        record {
          not_c0 = omega arith;
          not_c1 = inl (omega arith);
          not_surrogate = inl (omega arith);
          most = omega arith;
        },
        (
          record {
            not_c0 = omega arith;
            not_c1 = inr (omega arith);
            not_surrogate = inl (omega arith);
            most = omega arith;
          },
          (
            record {
              not_c0 = omega arith;
              not_c1 = inr (omega arith);
              not_surrogate = inr (omega arith);
              most = omega arith;
            },
            tt,
          ),
        ),
      )
