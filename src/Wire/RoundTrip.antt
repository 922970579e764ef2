-- ===== src/Wire/RoundTrip.antt =====
-- The round trips of src/wire/message.cpp: what a writer puts on the wire, read back behind its
-- type byte.
pub mod Stream
pub mod Grid
pub mod Control
pub mod Choice
use zet.Prelude.{
  ℕ, zero, suc, ◌+◌, ◌≤◌, ◌<◌, ◌^◌, ◌≡◌, refl, sym, ap, ◌∙◌, Bool, List, [], ◌∷◌, ◌++◌, ok, err,
  arith, length, length-append, append-nil, length-drop, some, true, false, not,
}
use zet.Core.Error.{ProtoResult, EProtoError, malformed_field}
use zet.Core.Reader
use zet.Core.Reader.{
  ByteReader, Read, continue, pure, reject_if, rest, remaining, skip, ◌>>=◌, ◌>>◌,
}
use zet.Core.Reader.Laws.{
  Reads, Parses, Reads-bind, Parses-bind, Reads-u8, length-encode_be, exhausted-rest, make-IsValid,
  rest-make,
}
use zet.Core.Writer
use zet.Core.Writer.{Write, written, encode_be}
use zet.Core.Writer.Laws.{Writes, Writes-make}
use zet.Wire.Types.{
  EMessageType, hello, challenge, auth, auth_ok, resume, bootstrap_offer, bootstrap_accept,
  message_data, ack, resize, ping, pong, session_end, grid_begin, grid_chunk, grid_end,
  grid_applied, mux_register, mux_registered, mux_refused, mux_handoff, code_of, find_type,
  all_types, known, find-code, parse_message_type, require_exhausted,
}
use zet.Wire.Parse.{ending, read_rest}

-- A message as it is received: its type, and then what the parser of that type makes of it.
unfoldable pub received : {A : Type 0} → Read A → List ℕ → ProtoResult (EMessageType × A)
received parse bytes = ((do t ← parse_message_type; m ← parse; pure (t, m)) (Reader.make bytes)).1

code_lt : (t : EMessageType) → code_of t < 256
unfolding code_of
code_lt t = grind arith

Reads-type : (t : EMessageType) → Reads parse_message_type (encode_be 1 (code_of t)) t
unfolding parse_message_type
Reads-type t r ys v h =
    let (r', eq, left, valid) = Reads-u8 (code_of t) (code_lt t) r ys v h in
    (
      r',
      ap (continue (λ code. known (find_type all_types code))) eq
          ∙ ap (λ o. known o r') (find-code t),
      left,
      valid,
    )

pub Reads-check : {b : Bool} (e : EProtoError) → b ≡ false → Reads (reject_if b e) [] tt
Reads-check {b} e f r ys v h = (r, ap (λ c. reject_if c e r) f, h, v)

pub Writes-check : {b : Bool} (e : EProtoError) → b ≡ false → Writes (Writer.reject_if b e) []
Writes-check {b} e f w v h =
    (w, ap (λ c. Writer.reject_if c e w) f, sym (append-nil (written w)), omega arith, v)

pub Parses-ending : {A : Type 0} (a : A) → Parses (ending a) [] a
unfolding require_exhausted
Parses-ending a r v e =
    ap (λ b. (continue (λ u. pure a) (reject_if (not b) malformed_field r)).1) (exhausted-rest v e)

-- The last read of a message.
pub Parses-last :
    {A B : Type 0} (p : Read A) (f : A → Read B) (xs : List ℕ) {a : A} {b : B}
    → Reads p xs a
    → Parses (f a) [] b
    → Parses (p >>= f) xs b
Parses-last p f xs h k r v e =
    let (r', eq, left, valid) = h r [] v (e ∙ sym (append-nil xs)) in
    ap (λ x. (continue f x).1) eq ∙ k r' valid left

result_pure :
    {A B : Type 0} (g : A → B) (x : ByteReader × ProtoResult A) {m : A}
    → x.1 ≡ ok m
    → (continue (λ a. pure (g a)) x).1 ≡ ok (g m)
result_pure g (r, y) e = ap (λ z. (continue (λ a. pure (g a)) (r, z)).1) e

all_rest :
    {A : Type 0} (most : ℕ) (g : List ℕ → A) (r : ByteReader)
    → Reader.Laws.IsValid r
    → 0 < length (rest r)
    → length (rest r) ≤ most
    → ((read_rest most >>= λ xs. pure (g xs)) r).1 ≡ ok (g (rest r))
unfolding read_rest skip rest remaining
all_rest most g r v h k = ground (arith, length-drop r.pos r.bytes)

-- The rest of a message, when it is as long as it may be.
pub Parses-rest :
    {A : Type 0} (most : ℕ) (g : List ℕ → A) (xs : List ℕ)
    → 0 < length xs
    → length xs ≤ most
    → Parses (read_rest most >>= λ ys. pure (g ys)) xs (g xs)
Parses-rest most g xs h k r v e =
    all_rest most g r v (omega (arith, ap length e)) (omega (arith, ap length e))
    ∙ ap (λ ys. ok (g ys)) e

-- A message of type `t`, from its writing and its parsing.
pub received-message :
    {A : Type 0} (t : EMessageType) (parse : Read A) (body : List ℕ) {m : A}
    → Parses parse body m
    → received parse (encode_be 1 (code_of t) ++ body) ≡ ok (t, m)
unfolding received
received-message t parse body {m} k =
    Parses-bind parse_message_type (λ t'. parse >>= λ m'. pure (t', m')) (encode_be 1 (code_of t))
      body (Reads-type t) (λ r v e. result_pure (λ m'. (t, m')) (parse r) (k r v e))
      (Reader.make (encode_be 1 (code_of t) ++ body)) (make-IsValid _) (rest-make _)

pub round-trip_lem :
    {A : Type 0} (write : Write) (t : EMessageType) (parse : Read A) (body : List ℕ) {m : A}
    → Writes write (encode_be 1 (code_of t) ++ body)
    → Parses parse body m
    → (out : List ℕ) → 1 + length body ≤ length out
    → let (w, x) = write (Writer.make out) in (x ≡ ok tt) × (received parse (written w) ≡ ok (t, m))
round-trip_lem write t parse body {m} h k out room =
    let (good, put) = Writes-make h out (
      omega
        (arith, length-append (encode_be 1 (code_of t)) body, length-encode_be 1 (code_of t))) in
    (good, ap (received parse) put ∙ received-message t parse body k)
