-- ===== src/Grid/Parser/Calls.antt =====
-- The arguments of the calls that a parser makes.
pub mod Steps
use zet.Prelude.{
  ℕ, zero, suc, ◌+◌, ◌-◌, ◌*◌, ◌%◌, ◌^◌, min, ◌≤◌, ◌<◌, ◌≡◌, refl, sym, ap, ◌∙◌, ◌⊎◌, inl, inr,
  Bool, true, false, ◌&&◌, ◌||◌, not, List, [], ◌∷◌, ◌++◌, arith, length, replicate, if_cases,
  subst, ltb, leb, ◌==◌, if◌then◌else◌, Bool-cases,
}
use zet.Grid.Parser.{
  VtParser, Param, GridCall, Step, between, unknown, max_params, put_char, set_mode, move_cursor_to,
  set_scroll_region, apply_sgr, horizontal_tab, save_cursor, restore_cursor, reset, move_cursor_up,
  move_cursor_down, move_cursor_right, move_cursor_left, cursor_next_line, cursor_prev_line,
  move_cursor_to_col, move_cursor_to_row, horizontal_tab_back, erase_chars, insert_lines,
  delete_lines, delete_chars, insert_chars, scroll_up, scroll_down, repeat_char, erase_in_display,
  erase_in_line, clear_tab_stop, set_cursor_style,
}
use zet.Grid.Parser.Csi.{
  dispatch_csi, dispatch_public, dispatch_private, parse_params, parse_from, kind_of, digit,
  separator, other, ParamByte, value_of, first_param, second_param, or_default, one_param_call,
  is_one_param, set_private_modes, set_ansi_modes, is_single, without_prefix,
}
use zet.Grid.Parser.Utf8.{IsGraphic}

abbrev pub AllFit : List Param → Type 0
AllFit [] = Unit {0}
AllFit (p ∷ ps) = (p.value < 2 ^ 16) × AllFit ps

-- A shown character is a graphic one, and a number fits the type of its argument.
abbrev pub IsSane : GridCall → Type 0
IsSane (put_char cp w) = IsGraphic cp
IsSane (set_mode n b) = n < 2 ^ 16
IsSane (move_cursor_to a b) = (a < 2 ^ 16) × (b < 2 ^ 16)
IsSane (set_scroll_region a b) = (a < 2 ^ 16) × (b < 2 ^ 16)
IsSane (apply_sgr ps) = (length ps ≤ max_params) × AllFit ps
IsSane (move_cursor_up n) = n < 2 ^ 16
IsSane (move_cursor_down n) = n < 2 ^ 16
IsSane (move_cursor_right n) = n < 2 ^ 16
IsSane (move_cursor_left n) = n < 2 ^ 16
IsSane (cursor_next_line n) = n < 2 ^ 16
IsSane (cursor_prev_line n) = n < 2 ^ 16
IsSane (move_cursor_to_col n) = n < 2 ^ 16
IsSane (move_cursor_to_row n) = n < 2 ^ 16
IsSane (horizontal_tab_back n) = n < 2 ^ 16
IsSane (erase_chars n) = n < 2 ^ 16
IsSane (insert_lines n) = n < 2 ^ 16
IsSane (delete_lines n) = n < 2 ^ 16
IsSane (delete_chars n) = n < 2 ^ 16
IsSane (insert_chars n) = n < 2 ^ 16
IsSane (scroll_up n) = n < 2 ^ 16
IsSane (scroll_down n) = n < 2 ^ 16
IsSane (repeat_char n) = n < 2 ^ 16
IsSane (erase_in_display n) = n < 2 ^ 8
IsSane (erase_in_line n) = n < 2 ^ 8
IsSane (clear_tab_stop n) = n < 2 ^ 8
IsSane (set_cursor_style n) = n < 2 ^ 8
IsSane other_call = Unit {0}

abbrev pub AllSane : List GridCall → Type 0
AllSane [] = Unit {0}
AllSane (c ∷ cs) = IsSane c × AllSane cs

pub AllSane-append : (xs ys : List GridCall) → AllSane xs → AllSane ys → AllSane (xs ++ ys)
AllSane-append [] ys a b = b
AllSane-append (x ∷ xs) ys (h, a) b = (h, AllSane-append xs ys a b)

tabs-AllSane : (n : ℕ) → AllSane (replicate n horizontal_tab)
tabs-AllSane zero = tt
tabs-AllSane (suc n) = (tt, tabs-AllSane n)

parse_from-AllFit :
    (room acc : ℕ) (has_digit colon : Bool) (bytes : List ℕ)
    → AllFit (parse_from room acc has_digit colon bytes)
unfolding parse_from
parse_from-AllFit zero acc has_digit colon bytes = tt
parse_from-AllFit (suc room) acc has_digit colon [] = (ground arith, tt)
parse_from-AllFit (suc room) acc has_digit colon (ch ∷ rest) =
    elim (kind_of ch)
      as (λ k. AllFit (elim k [
        | digit n ↦ parse_from (suc room) (min (acc * 10 + n) 0xffff) true colon rest
        | separator is_colon ↦
            record { value = value_of has_digit acc; colon = colon }
            ∷ parse_from room 0 false is_colon rest
        | other ↦ parse_from (suc room) acc has_digit colon rest
      ])) [
        | digit n ↦ parse_from-AllFit (suc room) (min (acc * 10 + n) 0xffff) true colon rest
        | separator is_colon ↦ (ground arith, parse_from-AllFit room 0 false is_colon rest)
        | other ↦ parse_from-AllFit (suc room) acc has_digit colon rest
      ]

length-parse_from :
    (room acc : ℕ) (has_digit colon : Bool) (bytes : List ℕ)
    → length (parse_from room acc has_digit colon bytes) ≤ room
unfolding parse_from
length-parse_from zero acc has_digit colon bytes = omega arith
length-parse_from (suc room) acc has_digit colon [] = omega arith
length-parse_from (suc room) acc has_digit colon (ch ∷ rest) =
    elim (kind_of ch)
      as (λ k.
        length (elim k [
          | digit n ↦ parse_from (suc room) (min (acc * 10 + n) 0xffff) true colon rest
          | separator is_colon ↦
              record { value = value_of has_digit acc; colon = colon }
              ∷ parse_from room 0 false is_colon rest
          | other ↦ parse_from (suc room) acc has_digit colon rest
        ])
        ≤ suc room) [
          | digit n ↦ length-parse_from (suc room) (min (acc * 10 + n) 0xffff) true colon rest
          | separator is_colon ↦ omega (arith, length-parse_from room 0 false is_colon rest)
          | other ↦ length-parse_from (suc room) acc has_digit colon rest
        ]

first_param_lt :
    (ps : List Param) (def : ℕ) → AllFit ps → def < 2 ^ 16 → first_param ps def < 2 ^ 16
first_param_lt [] def a h = h
first_param_lt (p ∷ ps) def (f, a) h = ground arith

second_param_lt :
    (ps : List Param) (def : ℕ) → AllFit ps → def < 2 ^ 16 → second_param ps def < 2 ^ 16
second_param_lt [] def a h = h
second_param_lt (p ∷ ps) def (f, a) h = first_param_lt ps def a h

private_modes-AllSane : (b : Bool) (ps : List Param) → AllFit ps → AllSane (set_private_modes b ps)
unfolding set_private_modes
private_modes-AllSane b [] a = tt
private_modes-AllSane b (p ∷ ps) (f, a) =
    if_cases AllSane (p.value == 4 || p.value == 20) _ _ (λ _. private_modes-AllSane b ps a)
      (λ _. (f, private_modes-AllSane b ps a))

ansi_modes-AllSane : (b : Bool) (ps : List Param) → AllSane (set_ansi_modes b ps)
unfolding set_ansi_modes
ansi_modes-AllSane b [] = tt
ansi_modes-AllSane b (p ∷ ps) =
    if_cases AllSane (p.value == 4) _ _ (λ _. (omega arith, ansi_modes-AllSane b ps))
      (λ _.
        if_cases AllSane (p.value == 20) _ _ (λ _. (omega arith, ansi_modes-AllSane b ps))
          (λ _. ansi_modes-AllSane b ps))

one_param-AllSane : (final n : ℕ) → n < 2 ^ 16 → AllSane (one_param_call final n)
one_param-AllSane final n h =
    if_cases AllSane (final == 0x41) _ _ (λ _. (h, tt))
      (λ _.
        if_cases AllSane (final == 0x42) _ _ (λ _. (h, tt))
          (λ _.
            if_cases AllSane (final == 0x43) _ _ (λ _. (h, tt))
              (λ _.
                if_cases AllSane (final == 0x44) _ _ (λ _. (h, tt))
                  (λ _.
                    if_cases AllSane (final == 0x45) _ _ (λ _. (h, tt))
                      (λ _.
                        if_cases AllSane (final == 0x46) _ _ (λ _. (h, tt))
                          (λ _.
                            if_cases AllSane (final == 0x47) _ _ (λ _. (h, tt))
                              (λ _.
                                if_cases AllSane (final == 0x49) _ _ (λ _. tabs-AllSane n)
                                  (λ _.
                                    if_cases AllSane (final == 0x5a) _ _ (λ _. (h, tt))
                                      (λ _.
                                        if_cases AllSane (final == 0x61) _ _ (λ _. (h, tt))
                                          (λ _.
                                            if_cases AllSane (final == 0x65) _ _ (λ _. (h, tt))
                                              (λ _.
                                                if_cases AllSane (final == 0x64) _ _ (λ _. (h, tt))
                                                  (λ _.
                                                    if_cases AllSane (final == 0x58) _ _
                                                      (λ _. (h, tt))
                                                      (λ _.
                                                        if_cases AllSane (final == 0x4c) _ _
                                                          (λ _. (h, tt))
                                                          (λ _.
                                                            if_cases AllSane (final == 0x4d) _ _
                                                            (λ _. (h, tt))
                                                            (λ _.
                                                            if_cases AllSane (final == 0x50) _ _
                                                            (λ _. (h, tt))
                                                            (λ _.
                                                            if_cases AllSane (final == 0x40) _ _
                                                            (λ _. (h, tt))
                                                            (λ _.
                                                            if_cases AllSane (final == 0x53) _ _
                                                            (λ _. (h, tt))
                                                            (λ _.
                                                            if_cases AllSane (final == 0x54) _ _
                                                            (λ _. (h, tt))
                                                            (λ _. (h, tt))))))))))))))))))))

abbrev pub Sane : Step → Type 0
Sane s = AllSane s.1

dispatch_public-Sane :
    (rows : ℕ) (p : VtParser) (ps : List Param) (final : ℕ)
    → AllFit ps
    → length ps ≤ max_params
    → Sane (dispatch_public rows p ps final)
dispatch_public-Sane rows p ps final a few =
    if_cases Sane (is_one_param final) _ _
      (λ _. one_param-AllSane final _ (first_param_lt ps 1 a (omega arith)))
      (λ _.
        if_cases Sane (final == 0x48 || final == 0x66) _ _
          (λ _. ((first_param_lt ps 1 a (omega arith), second_param_lt ps 1 a (omega arith)), tt))
          (λ _.
            if_cases Sane (final == 0x4a) _ _ (λ _. (omega arith, tt))
              (λ _.
                if_cases Sane (final == 0x4b) _ _ (λ _. (omega arith, tt))
                  (λ _.
                    if_cases Sane (final == 0x6d) _ _ (λ _. ((few, a), tt))
                      (λ _.
                        if_cases Sane (final == 0x68) _ _ (λ _. ansi_modes-AllSane true ps)
                          (λ _.
                            if_cases Sane (final == 0x6c) _ _ (λ _. ansi_modes-AllSane false ps)
                              (λ _.
                                if_cases Sane (final == 0x72) _ _
                                  (λ _.
                                    if_cases Sane
                                      (length p.intermediates == 0 && p.private_marker == 0) _ _
                                      (λ _. (
                                        (
                                          first_param_lt ps 1 a (omega arith),
                                          second_param_lt ps (rows % 2 ^ 16) a (omega arith),
                                        ),
                                        tt,
                                      ))
                                      (λ _. tt))
                                  (λ _.
                                    if_cases Sane (final == 0x67) _ _ (λ _. (omega arith, tt))
                                      (λ _.
                                        if_cases Sane (final == 0x73) _ _ (λ _. (tt, tt))
                                          (λ _.
                                            if_cases Sane (final == 0x75) _ _ (λ _. (tt, tt))
                                              (λ _.
                                                if_cases Sane (final == 0x70) _ _
                                                  (λ _.
                                                    if_cases Sane (is_single p.intermediates 0x21) _
                                                      _ (λ _. (tt, tt)) (λ _. tt))
                                                  (λ _.
                                                    if_cases Sane (final == 0x71) _ _
                                                      (λ _.
                                                        if_cases Sane
                                                          (is_single p.intermediates 0x20) _ _
                                                          (λ _. (omega arith, tt)) (λ _. tt))
                                                      (λ _.
                                                        if_cases Sane
                                                          (final == 0x63 || final == 0x6e) _ _
                                                          (λ _. tt) (λ _. tt))))))))))))))

dispatch_private-Sane :
    (p : VtParser) (ps : List Param) (final : ℕ) → AllFit ps → Sane (dispatch_private p ps final)
dispatch_private-Sane p ps final a =
    if_cases Sane (p.private_marker == 0x3f && final == 0x68) _ _
      (λ _. private_modes-AllSane true ps a)
      (λ _.
        if_cases Sane (p.private_marker == 0x3f && final == 0x6c) _ _
          (λ _. private_modes-AllSane false ps a) (λ _. tt))

pub dispatch_csi-AllSane :
    (rows : ℕ) (p : VtParser) (final : ℕ) → AllSane (dispatch_csi rows p final).1
unfolding dispatch_csi parse_params
dispatch_csi-AllSane rows p final =
    let bytes = without_prefix p.param_buf in
    let a = parse_from-AllFit max_params 0 false false bytes in
    if_cases Sane (not (p.private_marker == 0)) _ _
      (λ _. dispatch_private-Sane p (parse_params p) final a)
      (λ _.
        dispatch_public-Sane rows p (parse_params p) final a
          (length-parse_from max_params 0 false false bytes))
