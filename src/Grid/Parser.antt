-- ===== src/Grid/Parser.antt =====
-- src/grid/vt_parser.cpp: the bytes of a terminal, cut into the calls that they make on a grid. The
-- calls are the output, in order. The two buffers are the bytes they hold, and the bypass callback is
-- whether there is one. The width of a character, from generated tables, is a parameter, in which
-- `none` is -1; so is the number of rows of the grid, which no call here changes.
pub mod Csi
pub mod Feed
pub mod Reach
pub mod Calls
pub mod Utf8
use zet.Prelude.{
  ℕ, ◌+◌, ◌*◌, ◌≤◌, ◌<◌, Bool, true, false, ◌&&◌, ◌||◌, not, List, [], ◌∷◌, ◌++◌, if◌then◌else◌,
  ltb, leb, ◌==◌, length, add64,
}

pub data EParserState : Type 0 where
  ground_state escape escape_intermediate csi_entry csi_param csi_intermediate csi_ignore dcs_entry
        dcs_param dcs_intermediate dcs_passthrough dcs_ignore osc_string sos_pm_apc_string bypass :
      EParserState

-- A parameter of a sequence, and whether a colon stands before it.
pub record Param : Type 0 where
  pub value : ℕ
  pub colon : Bool

-- A call on the grid, or of the bypass callback.
pub data GridCall : Type 0 where
  put_char : ℕ → ℕ → GridCall
  backspace horizontal_tab line_feed carriage_return save_cursor restore_cursor index set_tab_stop
        reverse_index :
      GridCall
  shift_charset reset set_possibly_diverged : Bool → GridCall
  designate_charset : ℕ → ℕ → GridCall
  set_mode : ℕ → Bool → GridCall
  move_cursor_up move_cursor_down move_cursor_right move_cursor_left cursor_next_line
        cursor_prev_line move_cursor_to_col move_cursor_to_row horizontal_tab_back erase_in_display
        erase_in_line erase_chars insert_lines delete_lines delete_chars insert_chars scroll_up
        scroll_down clear_tab_stop set_cursor_style repeat_char :
      ℕ → GridCall
  move_cursor_to set_scroll_region : ℕ → ℕ → GridCall
  apply_sgr : List Param → GridCall
  bypass_start bypass_end : GridCall
  bypass_byte : ℕ → GridCall

abbrev pub max_param_bytes : ℕ
max_param_bytes = 256

abbrev pub max_params : ℕ
max_params = 16

abbrev pub max_intermediates : ℕ
max_intermediates = 2

abbrev pub bypass_limit_bytes : ℕ
bypass_limit_bytes = 1024 * 1024

pub record VtParser : Type 0 where
  pub utf8_accumulator : ℕ
  pub utf8_remaining : ℕ
  pub utf8_seq_len : ℕ
  pub state : EParserState
  pub param_buf : List ℕ
  pub intermediates : List ℕ
  pub private_marker : ℕ
  pub in_osc : Bool
  pub bypass_bytes : ℕ
  pub has_bypass : Bool
  pub unknown_seq_count : ℕ

abbrev pub Step : Type 0
Step = VtParser × List GridCall

unfoldable pub restart : VtParser → VtParser
restart p = record p {
  state = ground_state;
  utf8_accumulator = 0;
  utf8_remaining = 0;
  param_buf = [];
  intermediates = [];
  private_marker = 0;
  in_osc = false;
  bypass_bytes = 0;
}

abbrev pub new_parser : VtParser
new_parser = record {
  utf8_accumulator = 0;
  utf8_remaining = 0;
  utf8_seq_len = 0;
  state = ground_state;
  param_buf = [];
  intermediates = [];
  private_marker = 0;
  in_osc = false;
  bypass_bytes = 0;
  has_bypass = false;
  unknown_seq_count = 0;
}

unfoldable pub set_bypass_callback : VtParser → Bool → VtParser
set_bypass_callback p is_set = record p { has_bypass = is_set }

unfoldable pub add_param : VtParser → ℕ → VtParser
add_param p ch =
    if ltb (length p.param_buf) 0xff then record p { param_buf = p.param_buf ++ (ch ∷ []) } else p

unfoldable pub collect_intermediate : VtParser → ℕ → VtParser
collect_intermediate p ch =
    if ltb (length p.intermediates) max_intermediates
    then record p { intermediates = p.intermediates ++ (ch ∷ []) }
    else p

-- The three fields that a new sequence starts with.
abbrev pub cleared : VtParser → VtParser
cleared p = record p { param_buf = []; intermediates = []; private_marker = 0 }

unfoldable pub transition_to : VtParser → EParserState → VtParser
transition_to p ground_state = record p {
  param_buf = [];
  intermediates = [];
  private_marker = 0;
  bypass_bytes = 0;
  in_osc = false;
  state = ground_state;
}
transition_to p csi_entry = record (cleared p) { state = csi_entry }
transition_to p dcs_entry = record (cleared p) { state = dcs_entry }
transition_to p next = record p { state = next }

-- `EmitBypassStart`, `EmitBypassByte` and `EmitBypassEnd`.
unfoldable pub emit : VtParser → GridCall → List GridCall
emit p call = if p.has_bypass then call ∷ [] else []

abbrev pub unknown : VtParser → Step
unknown p = (record p { unknown_seq_count = add64 p.unknown_seq_count 1 }, [])

abbrev pub between : ℕ → ℕ → ℕ → Bool
between low high n = leb low n && leb n high

unfoldable pub handle_control : ℕ → List GridCall
handle_control c =
    if c == 0x08
    then backspace ∷ []
    else if c == 0x09
    then horizontal_tab ∷ []
    else if c == 0x0a || c == 0x0b || c == 0x0c
    then line_feed ∷ []
    else if c == 0x0d
    then carriage_return ∷ []
    else if c == 0x0e
    then shift_charset true ∷ []
    else if c == 0x0f
    then shift_charset false ∷ []
    else []

-- The final byte of an ESC sequence.
abbrev pub dispatch_plain : VtParser → ℕ → Step
dispatch_plain p final =
    if final == 0x37
    then (p, save_cursor ∷ [])
    else if final == 0x38
    then (p, restore_cursor ∷ [])
    else if final == 0x44
    then (p, index ∷ [])
    else if final == 0x45
    then (p, carriage_return ∷ line_feed ∷ [])
    else if final == 0x48
    then (p, set_tab_stop ∷ [])
    else if final == 0x4d
    then (p, reverse_index ∷ [])
    else if final == 0x63
    then (p, reset true ∷ [])
    else if final == 0x5c
    then (p, [])
    else unknown p

abbrev pub dispatch_charset : VtParser → List ℕ → ℕ → Step
dispatch_charset p [] final = dispatch_plain p final
dispatch_charset p (inter ∷ []) final =
    if inter == 0x28
    then (p, designate_charset 0 final ∷ [])
    else if inter == 0x29
    then (p, designate_charset 1 final ∷ [])
    else unknown p
dispatch_charset p (i ∷ j ∷ rest) final = unknown p

unfoldable pub dispatch_esc : VtParser → ℕ → Step
dispatch_esc p final = dispatch_charset p p.intermediates final
