-- ===== src/Grid/Parser/Csi.antt =====
-- The parameters of a CSI sequence, and the calls that its final byte makes.
use zet.Prelude.{
  ℕ, zero, suc, ◌+◌, ◌-◌, ◌*◌, ◌%◌, ◌^◌, min, Bool, true, false, ◌&&◌, ◌||◌, not, List, [], ◌∷◌,
  if◌then◌else◌, ltb, ◌==◌, length, replicate,
}
use zet.Grid.Parser.{
  VtParser, Param, GridCall, Step, unknown, between, max_params, horizontal_tab, save_cursor,
  restore_cursor, reset, set_mode, move_cursor_up, move_cursor_down, move_cursor_right,
  move_cursor_left, cursor_next_line, cursor_prev_line, move_cursor_to_col, move_cursor_to_row,
  horizontal_tab_back, erase_in_display, erase_in_line, erase_chars, insert_lines, delete_lines,
  delete_chars, insert_chars, scroll_up, scroll_down, clear_tab_stop, set_cursor_style, repeat_char,
  move_cursor_to, set_scroll_region, apply_sgr,
}

pub data ParamByte : Type 0 where
  digit : ℕ → ParamByte
  separator : Bool → ParamByte
  other : ParamByte

abbrev pub kind_of : ℕ → ParamByte
kind_of ch =
    if between 0x30 0x39 ch
    then digit (ch - 0x30)
    else if ch == 0x3b || ch == 0x3a
    then separator (ch == 0x3a)
    else other

-- The prefix byte of a private sequence is passed over.
abbrev pub without_prefix : List ℕ → List ℕ
without_prefix [] = []
without_prefix (first ∷ rest) = if between 0x3c 0x3f first then rest else first ∷ rest

abbrev pub value_of : Bool → ℕ → ℕ
value_of has_digit acc = (if has_digit then acc else 0) % 2 ^ 16

-- `acc` is clamped at each digit, so its 32 bits never wrap. The first argument is the room left.
unfoldable pub parse_from : ℕ → ℕ → Bool → Bool → List ℕ → List Param
parse_from zero acc has_digit colon bytes = []
parse_from (suc room) acc has_digit colon [] =
    record { value = value_of has_digit acc; colon = colon } ∷ []
parse_from (suc room) acc has_digit colon (ch ∷ rest) = elim (kind_of ch) [
  | digit n ↦ parse_from (suc room) (min (acc * 10 + n) 0xffff) true colon rest
  | separator is_colon ↦
      record { value = value_of has_digit acc; colon = colon }
      ∷ parse_from room 0 false is_colon rest
  | other ↦ parse_from (suc room) acc has_digit colon rest
]

unfoldable pub parse_params : VtParser → List Param
unfolding parse_from
parse_params p = parse_from max_params 0 false false (without_prefix p.param_buf)

-- The two helpers of `DispatchCsi`: a parameter with a default for 0, and one without.
abbrev pub or_default : ℕ → ℕ → ℕ
or_default def value = if ltb 0 value then value else def

abbrev pub first_param : List Param → ℕ → ℕ
first_param [] def = def
first_param (p ∷ ps) def = or_default def p.value

abbrev pub second_param : List Param → ℕ → ℕ
second_param [] def = def
second_param (p ∷ ps) def = first_param ps def

-- DECSET and DECRST, which pass the two ANSI modes over.
unfoldable pub set_private_modes : Bool → List Param → List GridCall
set_private_modes is_set [] = []
set_private_modes is_set (p ∷ ps) =
    let rest = set_private_modes is_set ps in
    if p.value == 4 || p.value == 20 then rest else set_mode p.value is_set ∷ rest

-- SM and RM, which take only those.
unfoldable pub set_ansi_modes : Bool → List Param → List GridCall
set_ansi_modes is_set [] = []
set_ansi_modes is_set (p ∷ ps) =
    let rest = set_ansi_modes is_set ps in
    if p.value == 4
    then set_mode 4 is_set ∷ rest
    else if p.value == 20
    then set_mode 20 is_set ∷ rest
    else rest

abbrev pub dispatch_private : VtParser → List Param → ℕ → Step
dispatch_private p ps final =
    if p.private_marker == 0x3f && final == 0x68
    then (p, set_private_modes true ps)
    else if p.private_marker == 0x3f && final == 0x6c
    then (p, set_private_modes false ps)
    else unknown p

abbrev pub is_single : List ℕ → ℕ → Bool
is_single [] byte = false
is_single (i ∷ []) byte = i == byte
is_single (i ∷ j ∷ rest) byte = false

-- The calls of one byte, and their parameters.
abbrev pub one_param_call : ℕ → ℕ → List GridCall
one_param_call final n =
    if final == 0x41
    then move_cursor_up n ∷ []
    else if final == 0x42
    then move_cursor_down n ∷ []
    else if final == 0x43
    then move_cursor_right n ∷ []
    else if final == 0x44
    then move_cursor_left n ∷ []
    else if final == 0x45
    then cursor_next_line n ∷ []
    else if final == 0x46
    then cursor_prev_line n ∷ []
    else if final == 0x47
    then move_cursor_to_col n ∷ []
    else if final == 0x49
    then replicate n horizontal_tab
    else if final == 0x5a
    then horizontal_tab_back n ∷ []
    else if final == 0x61
    then move_cursor_right n ∷ []
    else if final == 0x65
    then move_cursor_down n ∷ []
    else if final == 0x64
    then move_cursor_to_row n ∷ []
    else if final == 0x58
    then erase_chars n ∷ []
    else if final == 0x4c
    then insert_lines n ∷ []
    else if final == 0x4d
    then delete_lines n ∷ []
    else if final == 0x50
    then delete_chars n ∷ []
    else if final == 0x40
    then insert_chars n ∷ []
    else if final == 0x53
    then scroll_up n ∷ []
    else if final == 0x54
    then scroll_down n ∷ []
    else repeat_char n ∷ []

abbrev pub is_one_param : ℕ → Bool
is_one_param final =
    between 0x40 0x47 final
    || final == 0x49
    || between 0x4c 0x4d final
    || final == 0x50
    || between 0x53 0x54 final
    || final == 0x58
    || final == 0x5a
    || between 0x61 0x62 final
    || between 0x64 0x65 final

abbrev pub dispatch_public : ℕ → VtParser → List Param → ℕ → Step
dispatch_public rows p ps final =
    if is_one_param final
    then (p, one_param_call final (first_param ps 1))
    else if final == 0x48 || final == 0x66
    then (p, move_cursor_to (first_param ps 1) (second_param ps 1) ∷ [])
    else if final == 0x4a
    then (p, erase_in_display (first_param ps 0 % 2 ^ 8) ∷ [])
    else if final == 0x4b
    then (p, erase_in_line (first_param ps 0 % 2 ^ 8) ∷ [])
    else if final == 0x6d
    then (p, apply_sgr ps ∷ [])
    else if final == 0x68
    then (p, set_ansi_modes true ps)
    else if final == 0x6c
    then (p, set_ansi_modes false ps)
    else if final == 0x72
    then (if length p.intermediates == 0 && p.private_marker == 0
        then (p, set_scroll_region (first_param ps 1) (second_param ps (rows % 2 ^ 16)) ∷ [])
        else unknown p)
    else if final == 0x67
    then (p, clear_tab_stop (first_param ps 0 % 2 ^ 8) ∷ [])
    else if final == 0x73
    then (p, save_cursor ∷ [])
    else if final == 0x75
    then (p, restore_cursor ∷ [])
    else if final == 0x70
    then (if is_single p.intermediates 0x21 then (p, reset false ∷ []) else unknown p)
    else if final == 0x71
    then (if is_single p.intermediates 0x20
        then (p, set_cursor_style (first_param ps 0 % 2 ^ 8) ∷ [])
        else unknown p)
    else if final == 0x63 || final == 0x6e
    then (p, [])
    else unknown p

unfoldable pub dispatch_csi : ℕ → VtParser → ℕ → Step
unfolding parse_params
dispatch_csi rows p final =
    if not (p.private_marker == 0)
    then dispatch_private p (parse_params p) final
    else dispatch_public rows p (parse_params p) final
