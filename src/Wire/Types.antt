-- ===== src/Wire/Types.antt =====
-- The message types of src/wire/include/zet/wire/message.hpp and their reading, with what every
-- parser of src/wire/message.cpp uses.
use zet.Prelude.{ℕ, ◌≡◌, refl, List, Option, none, some, if◌then◌else◌, ◌==◌, not, [], ◌∷◌}
use zet.Core.Error.{malformed_field, unknown_message_type}
use zet.Core.Reader.{Read, pure, fail, reject_if, exhausted, read_bytes, read_u8, ◌>>=◌}
use zet.Core.Writer.{Write, write_u8}

pub data EMessageType : Type 0 where
  hello challenge auth auth_ok resume bootstrap_offer bootstrap_accept message_data ack resize ping
        pong session_end grid_begin grid_chunk grid_end grid_applied mux_register mux_registered
        mux_refused mux_handoff :
      EMessageType

unfoldable pub code_of : EMessageType → ℕ
code_of hello = 0x01
code_of challenge = 0x02
code_of auth = 0x03
code_of auth_ok = 0x04
code_of resume = 0x05
code_of bootstrap_offer = 0x06
code_of bootstrap_accept = 0x07
code_of message_data = 0x10
code_of ack = 0x11
code_of resize = 0x12
code_of ping = 0x13
code_of pong = 0x14
code_of session_end = 0x15
code_of grid_begin = 0x16
code_of grid_chunk = 0x17
code_of grid_end = 0x18
code_of grid_applied = 0x19
code_of mux_register = 0x20
code_of mux_registered = 0x21
code_of mux_refused = 0x22
code_of mux_handoff = 0x23

abbrev pub all_types : List EMessageType
all_types =
    hello ∷ challenge ∷ auth ∷ auth_ok ∷ resume ∷ bootstrap_offer ∷ bootstrap_accept ∷ message_data
    ∷ ack ∷ resize ∷ ping ∷ pong ∷ session_end ∷ grid_begin ∷ grid_chunk ∷ grid_end ∷ grid_applied
    ∷ mux_register ∷ mux_registered ∷ mux_refused ∷ mux_handoff ∷ []

-- The case labels of `ParseMessageType`.
unfoldable pub find_type : List EMessageType → ℕ → Option EMessageType
unfolding code_of
find_type [] code = none
find_type (t ∷ ts) code = if code_of t == code then some t else find_type ts code

abbrev pub known : Option EMessageType → Read EMessageType
known none = fail unknown_message_type
known (some t) = pure t

unfoldable pub parse_message_type : Read EMessageType
unfolding find_type
parse_message_type = do code ← read_u8; known (find_type all_types code)

unfoldable pub write_message_type : EMessageType → Write
unfolding code_of
write_message_type t = write_u8 (code_of t)

-- `ReadArray`: the array is held by value, so it is the bytes themselves.
unfoldable pub read_array : ℕ → Read (List ℕ)
read_array size = read_bytes size

unfoldable pub require_exhausted : Read (Unit {0})
require_exhausted r = reject_if (not (exhausted r)) malformed_field r

pub find-code : (t : EMessageType) → find_type all_types (code_of t) ≡ some t
unfolding find_type
find-code hello = refl
find-code challenge = refl
find-code auth = refl
find-code auth_ok = refl
find-code resume = refl
find-code bootstrap_offer = refl
find-code bootstrap_accept = refl
find-code message_data = refl
find-code ack = refl
find-code resize = refl
find-code ping = refl
find-code pong = refl
find-code session_end = refl
find-code grid_begin = refl
find-code grid_chunk = refl
find-code grid_end = refl
find-code grid_applied = refl
find-code mux_register = refl
find-code mux_registered = refl
find-code mux_refused = refl
find-code mux_handoff = refl
